-- ===== src/Workloadapi/Client/Laws.antt =====
-- `FetchX509SVID`, `FetchJWTSVID` and `FetchWITSVID` against the functions that fetch all SVIDs.
use go_spiffe.Prelude.{
  all, Result, ok, err, ◌>>=◌, map_err, >>=-eq-ok, Result-cases, Bytes, ◌≡◌, refl, sym, ap, ◌≢◌,
  inl, inr, true, false, List, [], ◌∷◌, ok-injective, err-injective, map_err-eq-ok,
}
use go_spiffe.Workloadapi.Message.{parse_svids}
use go_spiffe.Workloadapi.Hints.{
  parse_all, first_of_hints, without, has_hint, parse_svids-eq-parse_all,
}
use go_spiffe.Workloadapi.Response.{
  Libraries, ResponseError, parse_x509_svids, parse_x509_message, no_svids, parse_jwt_svids,
  parse_wit_svids, parse_jwt_message, parse_wit_message,
}
use go_spiffe.Spiffeid.Identifier.{string}
use go_spiffe.Workloadapi.Client.{
  call_failed, Stub, Params, FetchError, index_out_of_range, bad_response, first, first_message,
  fetch_x509_svid, fetch_x509_svids, fetch_jwt_svid, fetch_jwt_svids, fetch_wit_svid,
  fetch_wit_svids, fetch_wit_responses,
}

module _ {F E : Type 0} where
  -- Fetching one SVID does not panic, and when fetching all of them succeeds, it returns the first.
  abbrev pub IsFirstOf :
      {S : Type 0} → Result (FetchError F E) S → Result (FetchError F E) (List S) → Type 0
  IsFirstOf {S} one all =
      (one ≢ err index_out_of_range)
      × ((svids : List S)
          → all ≡ ok svids
          → (s : S) × (rest : List S) × (svids ≡ s ∷ rest) × (one ≡ ok s))

  module _ {M S : Type 0} (hint_of : M → Bytes)
      (parse_message : M → Result (ResponseError E) S) where
    -- the two functions on the messages of a response
    abbrev one_of : List M → Result (FetchError F E) S
    one_of messages =
        map_err bad_response (parse_svids hint_of parse_message no_svids messages true) >>= first

    abbrev all_of : List M → Result (FetchError F E) (List S)
    all_of messages =
        map_err bad_response (parse_svids hint_of parse_message no_svids messages false)

    messages_lem : (messages : List M) → IsFirstOf (one_of messages) (all_of messages)
    unfolding parse_all first_of_hints first
    messages_lem [] =
        rw
          (
            (parse_svids-eq-parse_all hint_of parse_message no_svids).0 true,
            (parse_svids-eq-parse_all hint_of parse_message no_svids).0 false,
          )
          (λ h. cc, λ svids h. absurd cc)
    messages_lem (m ∷ messages) =
        rw
          (
            (parse_svids-eq-parse_all hint_of parse_message no_svids).1 m messages true,
            (parse_svids-eq-parse_all hint_of parse_message no_svids).1 m messages false,
          )
          (elim (Result-cases (parse_message m)) [
            | inr (e, p) ↦ rw p (λ h. cc, λ svids h. absurd cc)
            | inl (s, p) ↦ rw p (
              λ h. cc,
              λ svids h.
                  let (rest, r, made) =
                    >>=-eq-ok
                      (parse_all hint_of parse_message (
                        without (has_hint hint_of parse_message (hint_of m))
                          (first_of_hints hint_of parse_message messages)))
                      (λ svids. ok (s ∷ svids)) (map_err-eq-ok bad_response _ h) in
                  (s, rest, sym (ok-injective made), refl),
            )
          ])

    call_lem :
        {R : Type 0} (call : Result (FetchError F E) R) (messages_of : R → List M)
        → call ≢ err index_out_of_range
        → IsFirstOf
            (call >>= λ resp.
              map_err bad_response
                (parse_svids hint_of parse_message no_svids (messages_of resp) true)
              >>= first)
            (call >>= λ resp. all_of (messages_of resp))
    call_lem (ok resp) messages_of no_panic = messages_lem (messages_of resp)
    call_lem (err f) messages_of no_panic =
        (λ h. no_panic (ap err (err-injective h)), λ svids h. absurd cc)

  call_failed-ne :
      {R : Type 0} (call : Result F R)
      → map_err {F = FetchError F E} call_failed call ≢ err index_out_of_range
  call_failed-ne (ok stream) h = cc
  call_failed-ne (err f) h = cc

  first_message-ne :
      {R : Type 0} (call : Result F (Result F R))
      → first_message {E = E} call ≢ err index_out_of_range
  unfolding first_message
  first_message-ne (ok stream) h = call_failed-ne stream h
  first_message-ne (err f) h = cc

  >>=-first :
      {R S : Type 0} (call : Result (FetchError F E) R) (g : R → Result (FetchError F E) (List S))
      → ((call >>= g) >>= first) ≡ (call >>= λ r. g r >>= first)
  >>=-first (ok r) g = refl
  >>=-first (err f) g = refl

module _ {Token E F : Type 0} (lib : Libraries Token E) (stub : Stub F) where
  -- Fetching one X509-SVID, JWT-SVID or WIT-SVID does not index an empty list, and returns the
  -- first SVID whenever fetching all of them from the same responses succeeds, which returns one at
  -- least.
  pub fetch_first_lem :
      IsFirstOf (fetch_x509_svid lib stub) (fetch_x509_svids lib stub)
      × ((params : Params)
          → IsFirstOf (fetch_jwt_svid lib stub params) (fetch_jwt_svids lib stub params))
      × ((id : Bytes) → IsFirstOf (fetch_wit_svid lib stub id) (fetch_wit_svids lib stub id))
  unfolding fetch_x509_svid fetch_x509_svids fetch_jwt_svid fetch_jwt_svids fetch_wit_svid
      fetch_wit_svids fetch_wit_responses parse_x509_svids parse_jwt_svids parse_wit_svids
  fetch_first_lem = (
    call_lem (λ m. m.hint) (parse_x509_message lib) (first_message stub.fetch_x509_svid)
        (λ resp. resp.svids) (first_message-ne stub.fetch_x509_svid),
    λ params.
        call_lem (λ m. m.hint) (parse_jwt_message lib (params.audience ∷ params.extra_audiences)) _
          (λ resp. resp)
          (call_failed-ne (
            stub.fetch_jwt_svid (string params.subject)
              (params.audience ∷ params.extra_audiences))),
    λ id.
        rw
          (>>=-first (first_message (stub.fetch_wit_svid id)) (λ resp.
            map_err bad_response
              (parse_svids (λ m. m.hint) (parse_wit_message lib) no_svids resp true)))
          (call_lem (λ m. m.hint) (parse_wit_message lib) (first_message (stub.fetch_wit_svid id))
            (λ resp. resp) (first_message-ne (stub.fetch_wit_svid id))),
  )
