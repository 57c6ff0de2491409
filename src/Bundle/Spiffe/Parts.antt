-- ===== src/Bundle/Spiffe/Parts.antt =====
-- A SPIFFE bundle is its X.509, JWT and WIT bundles: each method that changes one of them is the method of
-- that bundle, and leaves the others alone.
use go_spiffe.Prelude.{Bool-cases, Result, ok, err, Bytes, is_empty, ◌≡◌, refl, inl, inr}
use go_spiffe.GoMap.{put, IsMap, bytes_key}
use go_spiffe.GoMap.Laws.{IsMap-put, IsMap-delete}
use go_spiffe.GoMap.Same.{put_all-empty}
use go_spiffe.Crypto.{PublicKey, copy_jwt_authorities}
use go_spiffe.X509.{Certificate}
use go_spiffe.X509.Authorities.{copy_x509_authorities-eq}
use go_spiffe.Bundle.Jwks.{AddError}
use go_spiffe.Bundle.X509
use go_spiffe.Bundle.Jwt
use go_spiffe.Bundle.Wit
use go_spiffe.Bundle.Spiffe.{
  find_wit_authority, remove_wit_authority, add_wit_authority, Bundle, x509_bundle, jwt_bundle,
  wit_bundle, add_x509_authority, remove_x509_authority, has_x509_authority, add_jwt_authority,
  remove_jwt_authority, find_jwt_authority,
}

-- The maps of the bundle have distinct keys.
pub record HasMaps (b : Bundle) : Type 0 where
  pub jwt_map : IsMap b.jwt_authorities
  pub wit_map : IsMap b.wit_authorities

-- The three parts.
abbrev pub parts : Bundle → X509.Bundle × Jwt.Bundle × Wit.Bundle
parts b = (x509_bundle b, jwt_bundle b, wit_bundle b)

x509_bundle-eq :
    (b : Bundle)
    → x509_bundle b
      ≡ record { trust_domain = b.trust_domain; x509_authorities = b.x509_authorities }
unfolding x509_bundle X509.from_x509_authorities
x509_bundle-eq b = rw (copy_x509_authorities-eq b.x509_authorities) refl

jwt_bundle-eq :
    (b : Bundle)
    → IsMap b.jwt_authorities
    → jwt_bundle b ≡ record { trust_domain = b.trust_domain; jwt_authorities = b.jwt_authorities }
unfolding jwt_bundle Jwt.from_jwt_authorities copy_jwt_authorities
jwt_bundle-eq b m = rw (put_all-empty b.jwt_authorities m) refl

wit_bundle-eq :
    (b : Bundle)
    → IsMap b.wit_authorities
    → wit_bundle b ≡ record { trust_domain = b.trust_domain; wit_authorities = b.wit_authorities }
unfolding wit_bundle Wit.from_wit_authorities copy_jwt_authorities
wit_bundle-eq b m = rw (put_all-empty b.wit_authorities m) refl

abbrev pub parts_of :
    Result AddError Bundle → Result AddError (X509.Bundle × Jwt.Bundle × Wit.Bundle)
parts_of (ok b) = ok (parts b)
parts_of (err e) = err e

-- with a new JWT or WIT part
abbrev pub with_jwt :
    Bundle → Result AddError Jwt.Bundle → Result AddError (X509.Bundle × Jwt.Bundle × Wit.Bundle)
with_jwt b (ok j) = ok (x509_bundle b, j, wit_bundle b)
with_jwt b (err e) = err e

abbrev pub with_wit :
    Bundle → Result AddError Wit.Bundle → Result AddError (X509.Bundle × Jwt.Bundle × Wit.Bundle)
with_wit b (ok w) = ok (x509_bundle b, jwt_bundle b, w)
with_wit b (err e) = err e

x509_parts :
    (b : Bundle) (cert : Certificate)
    → (parts (add_x509_authority cert b)
        ≡ (X509.add_x509_authority cert (x509_bundle b), jwt_bundle b, wit_bundle b))
      × (parts (remove_x509_authority cert b)
          ≡ (X509.remove_x509_authority cert (x509_bundle b), jwt_bundle b, wit_bundle b))
      × (has_x509_authority cert b ≡ X509.has_x509_authority cert (x509_bundle b))
unfolding add_x509_authority remove_x509_authority has_x509_authority X509.add_x509_authority
    X509.remove_x509_authority X509.has_x509_authority jwt_bundle wit_bundle
x509_parts b cert = (
  rw (x509_bundle-eq b, x509_bundle-eq (add_x509_authority cert b)) refl,
  rw (x509_bundle-eq b, x509_bundle-eq (remove_x509_authority cert b)) refl,
  rw (x509_bundle-eq b) refl,
)

jwt_parts :
    (b : Bundle) (key_id : Bytes) (key : PublicKey)
    → IsMap b.jwt_authorities
    → (parts_of (add_jwt_authority key_id key b)
        ≡ with_jwt b (Jwt.add_jwt_authority key_id key (jwt_bundle b)))
      × (parts (remove_jwt_authority key_id b)
          ≡ (x509_bundle b, Jwt.remove_jwt_authority key_id (jwt_bundle b), wit_bundle b))
      × (find_jwt_authority key_id b ≡ Jwt.find_jwt_authority key_id (jwt_bundle b))
unfolding add_jwt_authority remove_jwt_authority find_jwt_authority Jwt.add_jwt_authority
    Jwt.remove_jwt_authority Jwt.find_jwt_authority x509_bundle wit_bundle
jwt_parts b key_id key m = (
  elim (Bool-cases (is_empty key_id)) [
    | inl e ↦ rw e refl
    | inr e ↦
        rw
          (
            e,
            jwt_bundle-eq b m,
            jwt_bundle-eq (record b { jwt_authorities = put key_id key b.jwt_authorities })
                (IsMap-put key_id key b.jwt_authorities m),
          )
          refl
  ],
  rw
      (
        jwt_bundle-eq b m,
        jwt_bundle-eq (remove_jwt_authority key_id b) (IsMap-delete key_id b.jwt_authorities m),
      )
      refl,
  rw (jwt_bundle-eq b m) refl,
)

wit_parts :
    (b : Bundle) (key_id : Bytes) (key : PublicKey)
    → IsMap b.wit_authorities
    → (parts_of (add_wit_authority key_id key b)
        ≡ with_wit b (Wit.add_wit_authority key_id key (wit_bundle b)))
      × (parts (remove_wit_authority key_id b)
          ≡ (x509_bundle b, jwt_bundle b, Wit.remove_wit_authority key_id (wit_bundle b)))
      × (find_wit_authority key_id b ≡ Wit.find_wit_authority key_id (wit_bundle b))
unfolding add_wit_authority remove_wit_authority find_wit_authority Wit.add_wit_authority
    Wit.remove_wit_authority Wit.find_wit_authority x509_bundle jwt_bundle
wit_parts b key_id key m = (
  elim (Bool-cases (is_empty key_id)) [
    | inl e ↦ rw e refl
    | inr e ↦
        rw
          (
            e,
            wit_bundle-eq b m,
            wit_bundle-eq (record b { wit_authorities = put key_id key b.wit_authorities })
                (IsMap-put key_id key b.wit_authorities m),
          )
          refl
  ],
  rw
      (
        wit_bundle-eq b m,
        wit_bundle-eq (remove_wit_authority key_id b) (IsMap-delete key_id b.wit_authorities m),
      )
      refl,
  rw (wit_bundle-eq b m) refl,
)

-- On a SPIFFE bundle whose maps have distinct keys, adding, removing and finding an X.509, JWT or
-- WIT authority is the method of `X509Bundle`, `JWTBundle` or `WITBundle`, with its error, and
-- leaves the other two bundles as they were.
pub spiffe_methods_parts :
    (b : Bundle) (cert : Certificate) (key_id : Bytes) (key : PublicKey)
    → HasMaps b
    → (parts (add_x509_authority cert b)
        ≡ (X509.add_x509_authority cert (x509_bundle b), jwt_bundle b, wit_bundle b))
      × (parts (remove_x509_authority cert b)
          ≡ (X509.remove_x509_authority cert (x509_bundle b), jwt_bundle b, wit_bundle b))
      × (has_x509_authority cert b ≡ X509.has_x509_authority cert (x509_bundle b))
      × (parts_of (add_jwt_authority key_id key b)
          ≡ with_jwt b (Jwt.add_jwt_authority key_id key (jwt_bundle b)))
      × (parts (remove_jwt_authority key_id b)
          ≡ (x509_bundle b, Jwt.remove_jwt_authority key_id (jwt_bundle b), wit_bundle b))
      × (find_jwt_authority key_id b ≡ Jwt.find_jwt_authority key_id (jwt_bundle b))
      × (parts_of (add_wit_authority key_id key b)
          ≡ with_wit b (Wit.add_wit_authority key_id key (wit_bundle b)))
      × (parts (remove_wit_authority key_id b)
          ≡ (x509_bundle b, jwt_bundle b, Wit.remove_wit_authority key_id (wit_bundle b)))
      × (find_wit_authority key_id b ≡ Wit.find_wit_authority key_id (wit_bundle b))
spiffe_methods_parts b cert key_id key m =
    let (x1, x2, x3) = x509_parts b cert in
    let (j1, j2, j3) = jwt_parts b key_id key m.jwt_map in
    let (w1, w2, w3) = wit_parts b key_id key m.wit_map in (x1, x2, x3, j1, j2, j3, w1, w2, w3)
