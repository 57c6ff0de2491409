-- ===== src/Spiffetls/Laws.antt =====
-- Who closes the X.509 source that dialing makes.
use go_spiffe.Prelude.{
  if◌then◌else◌, Bool-cases, Result, ok, err, Bytes, ℕ, ◌≡◌, refl, sym, ap, inl, inr, false, Option,
  none, some, List, [], ◌∷◌, ok-injective,
}
use go_spiffe.X509.{Certificate}
use go_spiffe.Spiffeid.Charset.{Build}
use go_spiffe.Spiffeid.Uri.{Url}
use go_spiffe.Svid.X509Svid
use go_spiffe.Svid.X509Svid.Verify.{Chains}
use go_spiffe.Tlsconfig.{Authorizer, Config}
use go_spiffe.Spiffetls.Mode.{BundleSource, DialMode}
use go_spiffe.Spiffetls.Dial.{
  DialError, DialConfig, ClientConn, close, to_list, get_source, get_sources, dial_from, end_dial,
  dial_with_mode,
}

-- The sources that a call has made are closed by it where it fails, and by `Close` otherwise, one time.
pub record IsReleased {E S C : Type 0} (close_source : S → Option E) (close_conn : C → Option E)
    (made : List S) (r : Result (DialError E) (ClientConn C S) × List S) : Type 0 where
  pub failed : (e : DialError E) → r.0 ≡ err e → r.1 ≡ made
  pub returned :
      (c : ClientConn C S) → r.0 ≡ ok c → (r.1 ≡ []) × ((close close_source close_conn c).1 ≡ made)

-- the sources that a call makes for a mode: one, where none is given or unneeded and it can be made
abbrev pub made_for : {E Pool S O : Type 0} → (List O → Result E S) → DialMode E Pool S O → List S
made_for new_x509_source m = if m.source_unneeded then [] else elim m.source [
  | some source ↦ []
  | none ↦ elim (new_x509_source m.options) [ ok source ↦ source ∷ [] | err e ↦ [] ]
]

end_dial-IsReleased :
    {E S C : Type 0} (close_source : S → Option E) (close_conn : C → Option E) (dialed : Result E C)
    (closer : Option S)
    → IsReleased close_source close_conn (to_list closer) (end_dial dialed closer)
unfolding end_dial close
end_dial-IsReleased close_source close_conn (ok conn) closer = record {
  failed = λ e h. absurd cc;
  returned =
      λ c h. (refl, ap to_list (ap (λ d. ClientConn.source_closer d) (sym (ok-injective h))));
}
end_dial-IsReleased close_source close_conn (err e) closer = record {
  failed = λ e1 h. refl;
  returned = λ c h. absurd cc;
}

module _ {T E Pool S O D C : Type 0} (build : Build) (url_string : Url → Bytes)
    (chains_of : List Certificate → List Certificate → ℕ → Certificate → Result E Chains)
    (parse_certificate : Bytes → Result E Certificate) (nil_authorizer : Authorizer E)
    (nil_svid : Result E X509Svid.Svid) (bundles_of : S → BundleSource E)
    (svid_of : S → Result E X509Svid.Svid) (new_x509_source : List O → Result E S)
    (dial_tls : Option D → Config T E Pool → Result E C) (close_source : S → Option E)
    (close_conn : C → Option E) where
  -- what this call has to close is what it has made
  abbrev IsMade : Result (DialError E) (DialMode E Pool S O × Option S) → List S → Type 0
  IsMade (err e) made = made ≡ []
  IsMade (ok (m, closer)) made = to_list closer ≡ made

  get_source-IsMade :
      (mode : DialMode E Pool S O) (given : Option S) (made : Result E S)
      → IsMade
          (get_source build url_string chains_of parse_certificate nil_authorizer nil_svid
            bundles_of svid_of new_x509_source dial_tls mode given made)
          (elim given [
            | some source ↦ []
            | none ↦ elim made [ ok source ↦ source ∷ [] | err e ↦ [] ]
          ])
  unfolding get_source
  get_source-IsMade mode (some source) made = refl
  get_source-IsMade mode none (ok source) = refl
  get_source-IsMade mode none (err e) = refl

  get_sources-IsMade :
      (mode : DialMode E Pool S O)
      → IsMade
          (get_sources build url_string chains_of parse_certificate nil_authorizer nil_svid
            bundles_of svid_of new_x509_source dial_tls mode)
          (made_for new_x509_source mode)
  unfolding get_sources
  get_sources-IsMade mode = elim (Bool-cases mode.source_unneeded) [
    | inl unneeded ↦ rw unneeded refl
    | inr needed ↦ rw needed (
        get_source-IsMade (record mode { source_unneeded = false }) mode.source
          (new_x509_source mode.options))
  ]

  dial_from-IsReleased :
      (options : List (DialConfig T E Pool D → DialConfig T E Pool D))
      (sources : Result (DialError E) (DialMode E Pool S O × Option S)) (made : List S)
      → IsMade sources made
      → IsReleased close_source close_conn made (
          dial_from build url_string chains_of parse_certificate nil_authorizer nil_svid bundles_of
            svid_of new_x509_source dial_tls options sources)
  unfolding dial_from
  dial_from-IsReleased options (err e) made h = record {
    failed = λ e1 k. sym h;
    returned = λ c k. absurd cc;
  }
  dial_from-IsReleased options (ok (m, closer)) made h =
      rw (← h) (end_dial-IsReleased close_source close_conn _ closer)

  -- Where `DialWithMode` fails, it has closed each X.509 source that it made, one time; where it
  -- returns a connection, it has closed none, and `Close` of the connection closes each of them,
  -- one time. It makes a source when the mode has none and needs one, and closes no source that it
  -- is given.
  pub dial_with_mode_lem :
      (mode : DialMode E Pool S O) (options : List (DialConfig T E Pool D → DialConfig T E Pool D))
      → IsReleased close_source close_conn (made_for new_x509_source mode) (
          dial_with_mode build url_string chains_of parse_certificate nil_authorizer nil_svid
            bundles_of svid_of new_x509_source dial_tls mode options)
  unfolding dial_with_mode
  dial_with_mode_lem mode options =
      dial_from-IsReleased options _ (made_for new_x509_source mode) (get_sources-IsMade mode)
