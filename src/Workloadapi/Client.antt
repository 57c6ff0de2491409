-- ===== src/Workloadapi/Client.antt =====
-- workloadapi/client.go: the fetches, on the calls of the generated client, a record of operations.
pub mod Laws
use go_spiffe.Prelude.{
  Result, ok, err, ◌>>=◌, ◌>>◌, map_err, Bytes, Bool, true, false, List, [], ◌∷◌, ltb, leb, ◌==◌,
  if◌then◌else◌, ==_iff, Bool-cases, Option-cases, &&-eq-true, eq_of_iff_true, length, take, drop,
  all, All, length-append, drop-append, take-append, take-length, all-append, append-left_cancel,
  >>=-eq-ok, >>-eq-ok, Result-cases, bytes_eq, bytes_eq_iff, is_empty, has_prefix, contains, slice,
  has_prefix-append, eq-append_of_has_prefix, slice-append, ℕ, zero, suc, ◌+◌, ◌-◌, ◌*◌, ◌/◌, ◌%◌,
  ◌^◌, ◌≤◌, ◌<◌, ◌≡◌, refl, sym, ap, ◌∙◌, ◌≢◌, ◌↔◌, ◌⊎◌, inl, inr, not, ◌&&◌, ◌||◌, Option, none,
  some, ◌++◌, map, append-nil, append_assoc, arith, ok-injective, err-injective, Bytes-cases,
  or_nil, codes, map_err-eq-ok, if-eq-ok, required, required-eq-ok, check-eq-ok,
}
use go_spiffe.GoMap.{GoMap}
use go_spiffe.Spiffeid.Identifier.{SpiffeId, string}
use go_spiffe.Bundle.X509
use go_spiffe.Bundle.Jwt
use go_spiffe.Bundle.Wit
use go_spiffe.Bundle.Set
use go_spiffe.Svid.X509Svid
use go_spiffe.Svid.JwtSvid
use go_spiffe.Svid.WitSvid
use go_spiffe.Workloadapi.Message.{X509SvidResponse, JwtSvidMessage, WitSvidMessage}
use go_spiffe.Workloadapi.Response.{
  Libraries, ResponseError, X509Context, parse_x509_svids, parse_x509_bundles_response,
  parse_x509_context, parse_jwt_svids, parse_jwt_svid_bundles, parse_wit_svids, parse_wit_bundles,
}

-- What the stub returns: for a stream, the error of the call, or what its first `Recv` returns.
pub record Stub (F : Type 0) : Type 0 where
  pub fetch_x509_svid : Result F (Result F X509SvidResponse)
  pub fetch_x509_bundles : Result F (Result F (GoMap Bytes Bytes))
  pub fetch_jwt_svid : Bytes → List Bytes → Result F (List JwtSvidMessage)
  pub fetch_jwt_bundles : Result F (Result F (GoMap Bytes Bytes))
  pub validate_jwt_svid : Bytes → Bytes → Result F (Unit {0})
  pub fetch_wit_svid : Bytes → Result F (Result F (List WitSvidMessage))
  pub fetch_wit_bundles : Result F (Result F (GoMap Bytes Bytes))

-- `jwtsvid.Params`
pub record Params : Type 0 where
  pub audience : Bytes
  pub extra_audiences : List Bytes
  pub subject : SpiffeId

-- `index_out_of_range` is the panic of `svids[0]`.
pub data FetchError (F E : Type 0) : Type 0 where
  call_failed : F → FetchError F E
  bad_response : ResponseError E → FetchError F E
  bad_token : JwtSvid.JwtError E → FetchError F E
  index_out_of_range : FetchError F E

-- `svids[0]`
unfoldable pub first : {F E S : Type 0} → List S → Result (FetchError F E) S
first [] = err index_out_of_range
first (svid ∷ svids) = ok svid

-- a call and the first `Recv` of its stream
unfoldable pub first_message : {F E R : Type 0} → Result F (Result F R) → Result (FetchError F E) R
first_message call = do stream ← map_err call_failed call; map_err call_failed stream

module _ {Token E F : Type 0} (lib : Libraries Token E) (stub : Stub F) where
  unfoldable pub fetch_x509_svid : Result (FetchError F E) X509Svid.Svid
  unfolding first_message first
  fetch_x509_svid = do
    resp ← first_message stub.fetch_x509_svid
    svids ← map_err bad_response (parse_x509_svids lib resp.svids true)
    first svids

  unfoldable pub fetch_x509_svids : Result (FetchError F E) (List X509Svid.Svid)
  unfolding first_message
  fetch_x509_svids = do
    resp ← first_message stub.fetch_x509_svid
    map_err bad_response (parse_x509_svids lib resp.svids false)

  unfoldable pub fetch_x509_bundles : Result (FetchError F E) (Set.Set X509.Bundle)
  unfolding first_message
  fetch_x509_bundles = do
    resp ← first_message stub.fetch_x509_bundles
    map_err bad_response (parse_x509_bundles_response lib resp)

  unfoldable pub fetch_x509_context : Result (FetchError F E) X509Context
  unfolding first_message
  fetch_x509_context = do
    resp ← first_message stub.fetch_x509_svid
    map_err bad_response (parse_x509_context lib resp)

  unfoldable pub fetch_jwt_svid : Params → Result (FetchError F E) JwtSvid.Svid
  unfolding first
  fetch_jwt_svid params = do
    resp ←
        map_err call_failed
          (stub.fetch_jwt_svid (string params.subject) (params.audience ∷ params.extra_audiences))
    svids ←
        map_err bad_response
          (parse_jwt_svids lib resp (params.audience ∷ params.extra_audiences) true)
    first svids

  unfoldable pub fetch_jwt_svids : Params → Result (FetchError F E) (List JwtSvid.Svid)
  fetch_jwt_svids params = do
    resp ←
        map_err call_failed
          (stub.fetch_jwt_svid (string params.subject) (params.audience ∷ params.extra_audiences))
    map_err bad_response (parse_jwt_svids lib resp (params.audience ∷ params.extra_audiences) false)

  unfoldable pub fetch_jwt_bundles : Result (FetchError F E) (Set.Set Jwt.Bundle)
  unfolding first_message
  fetch_jwt_bundles = do
    resp ← first_message stub.fetch_jwt_bundles
    map_err bad_response (parse_jwt_svid_bundles lib resp)

  unfoldable pub validate_jwt_svid : Bytes → Bytes → Result (FetchError F E) JwtSvid.Svid
  validate_jwt_svid token audience = do
    map_err call_failed (stub.validate_jwt_svid token audience)
    map_err bad_token (JwtSvid.parse_insecure lib.build lib.jose token (audience ∷ []) lib.now)

  -- `fetchWITSVIDs`
  unfoldable pub fetch_wit_responses : Bytes → Bool → Result (FetchError F E) (List WitSvid.Svid)
  unfolding first_message
  fetch_wit_responses spiffe_id first_only = do
    resp ← first_message (stub.fetch_wit_svid spiffe_id)
    map_err bad_response (parse_wit_svids lib resp first_only)

  unfoldable pub fetch_wit_svid : Bytes → Result (FetchError F E) WitSvid.Svid
  unfolding fetch_wit_responses first
  fetch_wit_svid spiffe_id = do svids ← fetch_wit_responses spiffe_id true; first svids

  unfoldable pub fetch_wit_svids : Bytes → Result (FetchError F E) (List WitSvid.Svid)
  unfolding fetch_wit_responses
  fetch_wit_svids spiffe_id = fetch_wit_responses spiffe_id false

  unfoldable pub fetch_wit_bundles : Result (FetchError F E) (Set.Set Wit.Bundle)
  unfolding first_message
  fetch_wit_bundles = do
    resp ← first_message stub.fetch_wit_bundles
    map_err bad_response (parse_wit_bundles lib resp)
