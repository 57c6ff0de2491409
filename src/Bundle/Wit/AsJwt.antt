-- ===== src/Bundle/Wit/AsJwt.antt =====
-- A WIT bundle is a JWT bundle under other names: `jwt_view` carries each method to its namesake, so the
-- laws of JWT bundles are laws of WIT bundles.
use go_spiffe.Prelude.{Result, ok, err, Bytes, ◌≡◌, refl, Option, none, some, arith}
use go_spiffe.Crypto.{PublicKey, Keys}
use go_spiffe.Bundle.Jwks.{AddError}
use go_spiffe.Bundle.Jwt
use go_spiffe.Bundle.Wit

abbrev pub jwt_view : Wit.Bundle → Jwt.Bundle
jwt_view b = record { trust_domain = b.trust_domain; jwt_authorities = b.wit_authorities }

abbrev view_result : Result AddError Wit.Bundle → Result AddError Jwt.Bundle
view_result (ok b) = ok (jwt_view b)
view_result (err e) = err e

abbrev view_option : Option Wit.Bundle → Option Jwt.Bundle
view_option none = none
view_option (some b) = some (jwt_view b)

-- Adding (with its error), removing, setting, finding, testing, cloning and comparing on WIT
-- bundles are, seen as JWT bundles with the same trust domain and authorities, the JWT methods of
-- the same names.
pub wit_methods_as_jwt :
    (b : Wit.Bundle) (o o' : Option Wit.Bundle) (key_id : Bytes) (key : PublicKey) (keys : Keys)
    → (view_result (Wit.add_wit_authority key_id key b)
        ≡ Jwt.add_jwt_authority key_id key (jwt_view b))
      × (jwt_view (Wit.remove_wit_authority key_id b)
          ≡ Jwt.remove_jwt_authority key_id (jwt_view b))
      × (jwt_view (Wit.set_wit_authorities keys b) ≡ Jwt.set_jwt_authorities keys (jwt_view b))
      × (Wit.find_wit_authority key_id b ≡ Jwt.find_jwt_authority key_id (jwt_view b))
      × (Wit.has_wit_authority key_id b ≡ Jwt.has_jwt_authority key_id (jwt_view b))
      × (jwt_view (Wit.clone b) ≡ Jwt.clone (jwt_view b))
      × (Wit.equal_bundle o o' ≡ Jwt.equal_bundle (view_option o) (view_option o'))
unfolding Wit.add_wit_authority Jwt.add_jwt_authority Wit.remove_wit_authority
    Jwt.remove_jwt_authority Wit.set_wit_authorities Jwt.set_jwt_authorities Wit.find_wit_authority
    Jwt.find_jwt_authority Wit.has_wit_authority Jwt.has_jwt_authority Wit.clone Jwt.clone
    Wit.from_wit_authorities Jwt.from_jwt_authorities Wit.equal_bundle Jwt.equal_bundle
wit_methods_as_jwt b o o' key_id key keys =
    (ground arith, refl, refl, refl, refl, refl, ground arith)
