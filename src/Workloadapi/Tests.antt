-- ===== src/Workloadapi/Tests.antt =====
-- The Workload API on concrete messages, scripts and sources.
use go_spiffe.Prelude.{
  if◌then◌else◌, Bool-cases, ok, err, Bytes, bytes_eq, ℕ, zero, suc, ◌+◌, ◌*◌, ◌≤◌, ◌≡◌, refl, ◌↔◌,
  inl, inr, Bool, true, false, Option, none, some, List, [], ◌∷◌, ◌++◌, codes, required,
}
use go_spiffe.GoTime.{second}
use go_spiffe.GoMap.{bytes_key, has, GoMap, lookup, IsMap}
use go_spiffe.X509.{Certificate}
use go_spiffe.Crypto.{other}
use go_spiffe.Spiffeid.Charset.{standard}
use go_spiffe.Spiffeid.Identifier.{TrustDomain, trust_domain_eq}
use go_spiffe.Spiffeid.Uri.{Url, zero_url}
use go_spiffe.Bundle.X509
use go_spiffe.Bundle.Jwt
use go_spiffe.Bundle.Set.{trust_domain_key, get}
use go_spiffe.Bundle.Set
use go_spiffe.Bundle.Set.Laws.{IsValid}
use go_spiffe.Bundle.Sets.X509Set
use go_spiffe.Bundle.Sets.JwtSet
use go_spiffe.Svid.Jose.{Jose, no_fields, public_jwk}
use go_spiffe.Workloadapi.Message.{JwtSvidMessage, parse_svids}
use go_spiffe.Workloadapi.Hints.{parse_all, selected, parse_svids-eq-parse_all}
use go_spiffe.Workloadapi.Response.{
  no_svids, Libraries, X509Context, parse_jwt_message, parse_jwt_svid_bundles,
}
use go_spiffe.Workloadapi.Backoff.{
  after_next, at_start, next, next_times, reset, min, new_linear_backoff, next_times_lem,
}
use go_spiffe.Workloadapi.Client.{
  Stub, Params, fetch_x509_svid, fetch_x509_svids, fetch_jwt_svid, fetch_jwt_svids, fetch_wit_svid,
  fetch_wit_svids,
}
use go_spiffe.Workloadapi.Client.Laws.{IsFirstOf, fetch_first_lem}
use go_spiffe.Workloadapi.Watch.{
  Code, Stream, Wait, refused, delivers, canceled, other_code, timer_fired, watch,
}
use go_spiffe.Workloadapi.Watch.Laws.{
  updates, WaitsInBounds, outcome_error, OutcomeReachable, parsed, delivered, final_error,
  watch_lem,
}
use go_spiffe.Workloadapi.BundleSource.{
  BundleSource, no_x509_bundle, no_jwt_bundle, set_x509_context, set_jwt_bundles,
  get_bundle_for_trust_domain, get_x509_bundle_for_trust_domain, get_jwt_bundle_for_trust_domain,
}
use go_spiffe.Workloadapi.BundleSource.Laws.{joined, set_x509_context_lem, set_jwt_bundles_lem}
use go_spiffe.Workloadapi.Watcher.{
  Watcher, new_watcher, own_client, close, Reachable, here, step, starts, start_watches, jwt_update,
  on_jwt_bundles_update,
}
use go_spiffe.Workloadapi.Watcher.Laws.{watcher_lem}
use go_spiffe.Workloadapi.Watcher.Laws
use go_spiffe.Workloadapi.Addr.{Net, IsTarget, posix, target_from_address, target_from_address_iff}

abbrev td : TrustDomain
td = record { name = codes "a.test" }

abbrev small_jose : Jose Bytes ℕ
small_jose = record {
  parse_signed = λ algorithms token. ok token;
  key_id = λ token. codes "k";
  header_type = λ token. none;
  unsafe_claims = λ token. ok (record {
    subject = codes "spiffe://a.test/web";
    audience = [];
    expiry = some 9;
    not_before = none;
  });
  unsafe_claims_map = λ token. ok no_fields;
  verified_claims_map = λ key token. ok no_fields;
  validate = λ expected now claims. ok tt;
  validate_with_leeway = λ now claims. ok tt;
  marshal_json = λ fields. ok [];
  unmarshal_jwk = λ bytes. ok (public_jwk (other 5));
}

abbrev lib : Libraries Bytes ℕ
lib = record {
  build = standard;
  url_string = λ u. [];
  parse_certificates = λ bytes. err 1;
  parse_pkcs8 = λ bytes. err 2;
  unmarshal_keys = λ bytes. ok [];
  jose = small_jose;
  now = 5;
}

abbrev message : ℕ → Bytes → JwtSvidMessage
message n hint = record { spiffe_id = codes "spiffe://a.test/web"; svid = n ∷ []; hint = hint }

-- two messages with one hint
abbrev messages : List JwtSvidMessage
messages = message 2 (codes "x") ∷ message 3 (codes "x") ∷ message 4 [] ∷ []

abbrev hint_of : JwtSvidMessage → Bytes
hint_of m = m.hint

parse_svids-eq-parse_all_example :
    ((first_only : Bool)
      → parse_svids hint_of (parse_jwt_message lib []) no_svids [] first_only ≡ err no_svids)
    × ((m : JwtSvidMessage) (rest : List JwtSvidMessage) (first_only : Bool)
        → parse_svids hint_of (parse_jwt_message lib []) no_svids (m ∷ rest) first_only
          ≡ parse_all hint_of
              (parse_jwt_message lib [])
              (selected hint_of (parse_jwt_message lib []) (m ∷ rest) first_only))
parse_svids-eq-parse_all_example =
    parse_svids-eq-parse_all hint_of (parse_jwt_message lib []) no_svids

abbrev stub : Stub ℕ
stub = record {
  fetch_x509_svid = err 3;
  fetch_x509_bundles = err 3;
  fetch_jwt_svid = λ subject audience. ok messages;
  fetch_jwt_bundles = err 3;
  validate_jwt_svid = λ token audience. ok tt;
  fetch_wit_svid = λ id. ok (ok []);
  fetch_wit_bundles = err 3;
}

fetch_first_lem_example :
    IsFirstOf (fetch_x509_svid lib stub) (fetch_x509_svids lib stub)
    × ((params : Params)
        → IsFirstOf (fetch_jwt_svid lib stub params) (fetch_jwt_svids lib stub params))
    × ((id : Bytes) → IsFirstOf (fetch_wit_svid lib stub id) (fetch_wit_svids lib stub id))
fetch_first_lem_example = fetch_first_lem lib stub

next_times_lem_example :
    ((next (next_times 40 (reset (next new_linear_backoff).1))).0 ≡ min (40 + 1) 30 * second)
    × (second ≤ (next (next new_linear_backoff).1).0)
    × ((next (next new_linear_backoff).1).0 ≤ 30 * second)
next_times_lem_example = next_times_lem (next new_linear_backoff).1 (after_next at_start) 40

abbrev code_of : ℕ → Code
code_of zero = canceled
code_of (suc n) = other_code n

abbrev script : List (Stream (GoMap Bytes Bytes) ℕ × Wait ℕ)
script =
    (refused 7, timer_fired)
    ∷ (delivers (((codes "a.test", 1 ∷ []) ∷ []) ∷ []) 4, timer_fired)
    ∷ (delivers ([] ∷ []) 0, timer_fired)
    ∷ (refused 8, timer_fired)
    ∷ []

watch_lem_example :
    (updates (watch (parse_jwt_svid_bundles lib) code_of false script new_linear_backoff).0
      ≡ parsed (parse_jwt_svid_bundles lib) (delivered code_of false script))
    × WaitsInBounds (watch (parse_jwt_svid_bundles lib) code_of false script new_linear_backoff).0
    × (outcome_error (watch (parse_jwt_svid_bundles lib) code_of false script new_linear_backoff).1
        ≡ final_error code_of false script)
    × OutcomeReachable
        (watch (parse_jwt_svid_bundles lib) code_of false script new_linear_backoff).1
watch_lem_example =
    watch_lem ℕ (parse_jwt_svid_bundles lib) code_of false script new_linear_backoff at_start

abbrev certificate : Certificate
certificate = record { raw = 4 ∷ []; uris = []; is_ca = true; key_usage = 0; public_key = other 1 }

abbrev x509_bundle : X509.Bundle
x509_bundle = record { trust_domain = td; x509_authorities = certificate ∷ [] }

abbrev jwt_bundle : Jwt.Bundle
jwt_bundle = record { trust_domain = td; jwt_authorities = [] }

abbrev x509_context : X509Context
x509_context = record { svids = []; bundles = (td, x509_bundle) ∷ [] }

x509_bundles-IsValid : IsValid X509Set.trust_domain_of x509_context.bundles
unfolding has
x509_bundles-IsValid = record { is_map = (refl, tt); keyed = (refl, tt) }

abbrev jwt_bundles : Set.Set Jwt.Bundle
jwt_bundles = (td, jwt_bundle) ∷ []

jwt_bundles-IsValid : IsValid JwtSet.trust_domain_of jwt_bundles
unfolding has
jwt_bundles-IsValid = record { is_map = (refl, tt); keyed = (refl, tt) }

abbrev source : BundleSource
source = record { x509_authorities = []; jwt_authorities = []; closed = false }

set_x509_context_lem_example :
    IsMap (set_x509_context x509_context source).x509_authorities
    × ((asked : TrustDomain)
        → (get_x509_bundle_for_trust_domain asked (set_x509_context x509_context source)
            ≡ required (no_x509_bundle asked) (get asked x509_context.bundles))
          × (get_jwt_bundle_for_trust_domain asked (set_x509_context x509_context source)
              ≡ get_jwt_bundle_for_trust_domain asked source)
          × (get_bundle_for_trust_domain asked (set_x509_context x509_context source)
              ≡ joined asked
                  (required (no_x509_bundle asked) (get asked x509_context.bundles))
                  (get_jwt_bundle_for_trust_domain asked source)))
set_x509_context_lem_example = set_x509_context_lem x509_context source tt refl x509_bundles-IsValid

jwt_bundles-keys :
    (asked : TrustDomain) (b : Jwt.Bundle)
    → get asked jwt_bundles ≡ some b
    → IsMap b.jwt_authorities
unfolding get lookup
jwt_bundles-keys asked b h = elim (Bool-cases (trust_domain_eq td asked)) [
  | inl e ↦ let b_is = rw e at h in rw (← some_injective b_is) tt
  | inr e ↦ absurd (let k = rw e at h in cc)
]
  where
    some_injective : {a c : Jwt.Bundle} → some a ≡ some c → a ≡ c
    some_injective k = cc

set_jwt_bundles_lem_example :
    IsMap (set_jwt_bundles jwt_bundles source).jwt_authorities
    × ((asked : TrustDomain)
        → (get_jwt_bundle_for_trust_domain asked (set_jwt_bundles jwt_bundles source)
            ≡ required (no_jwt_bundle asked) (get asked jwt_bundles))
          × (get_x509_bundle_for_trust_domain asked (set_jwt_bundles jwt_bundles source)
              ≡ get_x509_bundle_for_trust_domain asked source)
          × (get_bundle_for_trust_domain asked (set_jwt_bundles jwt_bundles source)
              ≡ joined asked
                  (get_x509_bundle_for_trust_domain asked source)
                  (required (no_jwt_bundle asked) (get asked jwt_bundles))))
set_jwt_bundles_lem_example =
    set_jwt_bundles_lem jwt_bundles source tt refl jwt_bundles-IsValid jwt_bundles-keys

-- a source that counts its updates
abbrev on_x509 : X509Context → ℕ → ℕ
on_x509 c n = n + 1

abbrev on_jwt : Set.Set Jwt.Bundle → ℕ → ℕ
on_jwt bundles n = n + 1

abbrev started : Watcher ℕ ℕ
started = record {
  source = 0;
  cancelled = false;
  watching = false;
  closed = false;
  close_error = none;
  updated = false;
  has_client = true;
  owns_client = true;
  x509_context_set = false;
  jwt_bundles_set = false;
  client_closes = 0;
}

started-own_client : started ≡ own_client (new_watcher 0 false)
unfolding own_client new_watcher
started-own_client = refl

-- the watches are started, and a set of JWT bundles comes in
abbrev fed : Watcher ℕ ℕ
fed = on_jwt_bundles_update on_jwt jwt_bundles (start_watches started)

fed-Reachable : Reachable on_x509 on_jwt started fed
unfolding start_watches
fed-Reachable = step (step here (starts refl)) (jwt_update jwt_bundles refl)

watcher_lem_example :
    Laws.IsValid {S = ℕ} {E = ℕ} fed
    × (fed.client_closes ≤ 1)
    × ((e : Option ℕ) (later : Watcher ℕ ℕ)
        → Reachable on_x509 on_jwt (close e fed).1 later
        → (later.closed ≡ true)
          × (later.source ≡ fed.source)
          × (later.client_closes ≡ (if fed.owns_client then 1 else 0)))
watcher_lem_example =
    watcher_lem on_x509 on_jwt 0 false started fed (inr started-own_client) fed-Reachable

-- "tcp" stands for tcp://127.0.0.1:8000, and "unix" for unix:///a
abbrev parse_small : Bytes → Option Url
parse_small addr =
    if bytes_eq addr (codes "tcp")
    then some (record zero_url { scheme = codes "tcp"; host = codes "127.0.0.1:8000" })
    else if bytes_eq addr (codes "unix")
    then some (record zero_url { scheme = codes "unix"; path = codes "/a" })
    else none

abbrev net : Net
net = record {
  parse = parse_small;
  hostname = λ u. codes "127.0.0.1";
  port = λ u. codes "8000";
  url_string = λ u. codes "unix:///a";
  parse_ip = λ host. some host;
  join_host_port = λ host port. host ++ (codes ":" ++ port);
  named_pipe_target = λ pipe. pipe;
}

target_from_address_iff_example :
    (target_from_address net posix (codes "tcp") ≡ ok (codes "127.0.0.1:8000"))
    ↔ ((u : Url) × (net.parse (codes "tcp") ≡ some u) × IsTarget net u (codes "127.0.0.1:8000"))
target_from_address_iff_example = target_from_address_iff net (codes "tcp") (codes "127.0.0.1:8000")

finds_tcp : target_from_address net posix (codes "tcp") ≡ ok (codes "127.0.0.1:8000")
unfolding target_from_address bytes_eq
finds_tcp = refl
