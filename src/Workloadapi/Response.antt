-- ===== src/Workloadapi/Response.antt =====
-- workloadapi/client.go: the functions that parse a response. The parsers of certificates and keys, the
-- signature library and the time at which the token packages validate claims are a record of operations.
use go_spiffe.Prelude.{
  if◌then◌else◌, Result, ok, err, ◌>>=◌, ◌>>◌, map_err, Bytes, is_empty, ℕ, Bool, false, Option,
  some, List, [], ◌∷◌, ◌++◌, map,
}
use go_spiffe.GoMap.{GoMap}
use go_spiffe.X509.{Certificate}
use go_spiffe.Spiffeid.Charset.{Error, Build}
use go_spiffe.Spiffeid.Identifier.{TrustDomain}
use go_spiffe.Spiffeid.TrustDomain.{trust_domain_from_string}
use go_spiffe.Spiffeid.Uri.{Url}
use go_spiffe.Bundle.Jwks.{JsonWebKey}
use go_spiffe.Bundle.X509
use go_spiffe.Bundle.Jwt
use go_spiffe.Bundle.Wit
use go_spiffe.Bundle.Set
use go_spiffe.Bundle.Sets.X509Set
use go_spiffe.Bundle.Sets.JwtSet
use go_spiffe.Bundle.Sets.WitSet
use go_spiffe.Svid.X509Svid.{PrivateKey}
use go_spiffe.Svid.X509Svid
use go_spiffe.Svid.Jose.{Jwk, public_jwk, private_jwk, other_jwk, Jose}
use go_spiffe.Svid.JwtSvid
use go_spiffe.Svid.WitSvid
use go_spiffe.Workloadapi.Message.{
  X509SvidMessage, X509SvidResponse, JwtSvidMessage, WitSvidMessage, parse_svids,
}

-- the libraries that the parsing calls, and the clock
pub record Libraries (Token E : Type 0) : Type 0 where
  pub build : Build
  pub url_string : Url → Bytes
  pub parse_certificates : Bytes → Result E (List Certificate)
  pub parse_pkcs8 : Bytes → Result E (Option PrivateKey)
  pub unmarshal_keys : Bytes → Result E (List JsonWebKey)
  pub jose : Jose Token E
  pub now : ℕ

pub data ResponseError (E : Type 0) : Type 0 where
  no_svids : ResponseError E
  missing_private_key : Bytes → ResponseError E
  bad_x509_svid : X509Svid.SvidError E → ResponseError E
  bad_jwt_svid : JwtSvid.JwtError E → ResponseError E
  bad_wit_svid : WitSvid.WitError E → ResponseError E
  bad_trust_domain : Error → ResponseError E
  bad_certificates : E → ResponseError E
  bad_x509_bundle : X509.BundleError E → ResponseError E
  bad_jwt_bundle : Jwt.BundleError E → ResponseError E
  bad_wit_bundle : Wit.BundleError E → ResponseError E
  cannot_parse_jwk : E → ResponseError E
  jwk_is_public : ResponseError E

-- `X509Context`
pub record X509Context : Type 0 where
  pub svids : List X509Svid.Svid
  pub bundles : Set.Set X509.Bundle

-- `jwkKey.Key` of a key that is not public
unfoldable pub private_key_of : {E : Type 0} → Jwk → Result (ResponseError E) PrivateKey
private_key_of (public_jwk key) = err jwk_is_public
private_key_of (private_jwk key) = ok key
private_key_of (other_jwk n) = ok (X509Svid.other_private n)

module _ {Token E : Type 0} (lib : Libraries Token E) where
  -- the body of the loop of `parseX509SVIDs`
  unfoldable pub parse_x509_message : X509SvidMessage → Result (ResponseError E) X509Svid.Svid
  parse_x509_message m = do
    s ← map_err bad_x509_svid (
        X509Svid.parse_raw lib.build lib.url_string lib.parse_certificates lib.parse_pkcs8
          m.x509_svid m.x509_svid_key)
    ok (record s { hint = m.hint })

  unfoldable pub parse_x509_svids :
      List X509SvidMessage → Bool → Result (ResponseError E) (List X509Svid.Svid)
  unfolding parse_x509_message
  parse_x509_svids messages first_only =
      parse_svids (λ m. m.hint) parse_x509_message no_svids messages first_only

  unfoldable pub parse_x509_bundle : Bytes → Bytes → Result (ResponseError E) X509.Bundle
  parse_x509_bundle spiffe_id bundle = do
    td ← map_err bad_trust_domain (trust_domain_from_string lib.build spiffe_id)
    certs ← map_err bad_certificates (lib.parse_certificates bundle)
    ok (X509.from_x509_authorities td certs)

  -- the two loops of `parseX509Bundles`
  unfoldable pub parse_own_bundles :
      List X509SvidMessage → Result (ResponseError E) (List X509.Bundle)
  unfolding parse_x509_bundle
  parse_own_bundles [] = ok []
  parse_own_bundles (m ∷ messages) = do
    b ← parse_x509_bundle m.spiffe_id m.bundle
    bundles ← parse_own_bundles messages
    ok (b ∷ bundles)

  unfoldable pub parse_federated_bundles :
      GoMap Bytes Bytes → Result (ResponseError E) (List X509.Bundle)
  unfolding parse_x509_bundle
  parse_federated_bundles [] = ok []
  parse_federated_bundles ((td_id, bundle) ∷ federated) = do
    b ← parse_x509_bundle td_id bundle
    bundles ← parse_federated_bundles federated
    ok (b ∷ bundles)

  unfoldable pub parse_x509_bundles :
      X509SvidResponse → Result (ResponseError E) (Set.Set X509.Bundle)
  unfolding parse_own_bundles parse_federated_bundles
  parse_x509_bundles resp = do
    own ← parse_own_bundles resp.svids
    federated ← parse_federated_bundles resp.federated_bundles
    ok (X509Set.new_set (map some (own ++ federated)))

  unfoldable pub parse_x509_context : X509SvidResponse → Result (ResponseError E) X509Context
  unfolding parse_x509_svids parse_x509_bundles
  parse_x509_context resp = do
    svids ← parse_x509_svids resp.svids false
    bundles ← parse_x509_bundles resp
    ok (record { svids = svids; bundles = bundles })

  -- the loop over the map of a response with bundles, in the order in which `range` meets the entries
  unfoldable pub parse_bundle_map :
      {B : Type 0}
      → (TrustDomain → Bytes → Result (ResponseError E) B)
      → GoMap Bytes Bytes
      → Result (ResponseError E) (List B)
  parse_bundle_map parse_bundle [] = ok []
  parse_bundle_map parse_bundle ((td_id, bytes) ∷ entries) = do
    td ← map_err bad_trust_domain (trust_domain_from_string lib.build td_id)
    b ← parse_bundle td bytes
    bundles ← parse_bundle_map parse_bundle entries
    ok (b ∷ bundles)

  unfoldable pub parse_x509_bundles_response :
      GoMap Bytes Bytes → Result (ResponseError E) (Set.Set X509.Bundle)
  unfolding parse_bundle_map
  parse_x509_bundles_response entries = do
    bundles ←
        parse_bundle_map
          (λ td b. map_err bad_x509_bundle (X509.parse_raw lib.parse_certificates td b)) entries
    ok (X509Set.new_set (map some bundles))

  -- the body of the loop of `parseJWTSVIDs`
  unfoldable pub parse_jwt_message :
      List Bytes → JwtSvidMessage → Result (ResponseError E) JwtSvid.Svid
  parse_jwt_message audience m = do
    s ← map_err bad_jwt_svid (JwtSvid.parse_insecure lib.build lib.jose m.svid audience lib.now)
    ok (record s { hint = m.hint })

  unfoldable pub parse_jwt_svids :
      List JwtSvidMessage → List Bytes → Bool → Result (ResponseError E) (List JwtSvid.Svid)
  unfolding parse_jwt_message
  parse_jwt_svids messages audience first_only =
      parse_svids (λ m. m.hint) (parse_jwt_message audience) no_svids messages first_only

  unfoldable pub parse_jwt_svid_bundles :
      GoMap Bytes Bytes → Result (ResponseError E) (Set.Set Jwt.Bundle)
  unfolding parse_bundle_map
  parse_jwt_svid_bundles entries = do
    bundles ←
        parse_bundle_map (λ td b. map_err bad_jwt_bundle (Jwt.parse lib.unmarshal_keys td b))
          entries
    ok (JwtSet.new_set (map some bundles))

  unfoldable pub parse_jwk_private_key : Bytes → Result (ResponseError E) PrivateKey
  unfolding private_key_of
  parse_jwk_private_key jwk = do
    key ← map_err cannot_parse_jwk (lib.jose.unmarshal_jwk jwk)
    private_key_of key

  -- the body of the loop of `parseWITSVIDs`
  unfoldable pub parse_wit_message : WitSvidMessage → Result (ResponseError E) WitSvid.Svid
  unfolding parse_jwk_private_key
  parse_wit_message m = do
    if is_empty m.wit_svid_key then err (missing_private_key m.spiffe_id) else ok tt
    svid ← map_err bad_wit_svid (WitSvid.parse_insecure lib.build lib.jose m.wit_svid lib.now)
    key ← parse_jwk_private_key m.wit_svid_key
    ok (record svid { private_key = some key; hint = m.hint })

  unfoldable pub parse_wit_svids :
      List WitSvidMessage → Bool → Result (ResponseError E) (List WitSvid.Svid)
  unfolding parse_wit_message
  parse_wit_svids messages first_only =
      parse_svids (λ m. m.hint) parse_wit_message no_svids messages first_only

  unfoldable pub parse_wit_bundles :
      GoMap Bytes Bytes → Result (ResponseError E) (Set.Set Wit.Bundle)
  unfolding parse_bundle_map
  parse_wit_bundles entries = do
    bundles ←
        parse_bundle_map (λ td b. map_err bad_wit_bundle (Wit.parse lib.unmarshal_keys td b))
          entries
    ok (WitSet.new_set (map some bundles))
