-- ===== src/Federation/Tests.antt =====
-- A watch of three turns, and two options that both choose an authentication method.
use go_spiffe.Prelude.{
  length, Result, ok, err, Bytes, bytes_eq, ℕ, ◌≤◌, ◌≡◌, refl, ◌↔◌, false, true, Option, List, [],
  ◌∷◌, ◌++◌, map, codes,
}
use go_spiffe.X509.{Certificate, certs_equal}
use go_spiffe.Crypto.{other, jwt_authorities_equal}
use go_spiffe.GoTime.{pos}
use go_spiffe.Spiffeid.Charset.{standard}
use go_spiffe.Spiffeid.Identifier.{SpiffeId, TrustDomain, trust_domain_eq}
use go_spiffe.Spiffeid.Uri.{Url}
use go_spiffe.Bundle.X509
use go_spiffe.Bundle.Spiffe
use go_spiffe.Bundle.Spiffe.Document.{BundleDoc}
use go_spiffe.Svid.X509Svid.Verify.{Chains}
use go_spiffe.Tlsconfig.{Config}
use go_spiffe.Federation.{both_auth_methods, fetch_bundle}
use go_spiffe.Federation.Options.{
  Choice, web_pki_roots, spiffe_auth, option_of, fetch_bundle_choices_iff,
}
use go_spiffe.Federation.Watch.{
  watcher_cannot_be_nil, Turn, on_error, on_update, next_refresh, timer_fired, context_done,
  context_error, empty_bundle, watch_bundle,
}
use go_spiffe.Federation.Laws.{updated, changes, reached, IsChanging, last_of, watch_bundle_lem}

abbrev td : TrustDomain
td = record { name = codes "a.test" }

abbrev hinted : Spiffe.Bundle
hinted = Spiffe.set_refresh_hint (pos 60) (Spiffe.new td)

abbrev turn : Result ℕ Spiffe.Bundle → Turn ℕ
turn fetched = record { fetched = fetched; canceled = false; wait = timer_fired }

-- the same bundle twice, then an error, behind which the context is done
abbrev turns : List (Turn ℕ)
turns = turn (ok hinted) ∷ turn (ok hinted) ∷ record (turn (err 7)) { wait = context_done } ∷ []

watch_example : watch_bundle false turns ≡ (
  on_update hinted
      ∷ next_refresh (pos 60)
      ∷ next_refresh (pos 60)
      ∷ on_error 7
      ∷ next_refresh (pos 60)
      ∷ [],
  hinted,
  context_error,
)
unfolding watch_bundle Spiffe.set_refresh_hint Spiffe.equal_bundle Spiffe.get_refresh_hint
    trust_domain_eq bytes_eq Spiffe.new Spiffe.refresh_hint_equal Spiffe.int_eq
    Spiffe.sequence_number_equal jwt_authorities_equal certs_equal
watch_example = refl

watch_bundle_lem_example :
    (watch_bundle true turns ≡ ([], empty_bundle, watcher_cannot_be_nil))
    × (updated (watch_bundle false turns).0 ≡ changes empty_bundle (reached turns))
    × IsChanging empty_bundle (updated (watch_bundle false turns).0)
    × (last_of empty_bundle (updated (watch_bundle false turns).0) ≡ (watch_bundle false turns).1)
watch_bundle_lem_example = watch_bundle_lem turns

abbrev url_string : Url → Bytes
url_string u = (u.scheme ++ codes "://") ++ (u.host ++ u.path)

abbrev chains_of : List Certificate → List Certificate → ℕ → Certificate → Result ℕ Chains
chains_of roots intermediates now cert = ok ((cert ∷ roots) ∷ [])

abbrev parse_certificate : Bytes → Result ℕ Certificate
parse_certificate raw =
    ok (record { raw = raw; uris = []; is_ca = false; key_usage = 1; public_key = other 0 })

abbrev source : TrustDomain → Result ℕ X509.Bundle
source td = ok (record { trust_domain = td; x509_authorities = [] })

abbrev endpoint_id : SpiffeId
endpoint_id = record { id = codes "spiffe://a.test/web"; pathidx = 15 }

-- no endpoint answers
abbrev get : Option (Config ℕ ℕ ℕ) → Result ℕ (Result ℕ Bytes)
get config = err 5

abbrev unmarshal : Bytes → Result ℕ BundleDoc
unmarshal b = err 6

abbrev choices : List (Choice ℕ ℕ)
choices = web_pki_roots 1 ∷ spiffe_auth source endpoint_id ∷ []

fetch_bundle_choices_iff_example :
    (fetch_bundle
        (ok tt)
        get
        unmarshal
        td
        (map (option_of standard url_string chains_of parse_certificate) choices)
      ≡ err both_auth_methods)
    ↔ (2 ≤ length choices)
fetch_bundle_choices_iff_example =
    fetch_bundle_choices_iff standard url_string chains_of parse_certificate (ok tt) get unmarshal
      td choices
