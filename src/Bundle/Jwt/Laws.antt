-- ===== src/Bundle/Jwt/Laws.antt =====
-- What the methods of a JWT bundle do to its authorities.
use go_spiffe.Prelude.{
  if◌then◌else◌, &&-eq-true, Result, ok, err, Bytes, bytes_eq, ℕ, ◌+◌, ◌≡◌, refl, ap, ◌∙◌, ◌≢◌, ◌↔◌,
  ◌⊎◌, inl, inr, true, false, none, some, List, [], ◌∷◌,
}
use go_spiffe.GoMap.{put_all, has, put, IsMap, bytes_key}
use go_spiffe.GoMap.Laws.{
  has-put, has-delete_ne, lookup-put, lookup-delete, IsMap-put, IsMap-delete,
}
use go_spiffe.GoMap.Same.{put_all-empty}
use go_spiffe.Spiffeid.Identifier.{TrustDomain, trust_domain_eq}
use go_spiffe.Spiffeid.Identifier.Equal.{trust_domain_eq_iff}
use go_spiffe.Crypto.{PublicKey, Keys, copy_jwt_authorities, jwt_authorities_equal}
use go_spiffe.Crypto.Authorities.{AllSupported, jwt_authorities_equal_iff}
use go_spiffe.Bundle.Jwks.{empty_key_id}
use go_spiffe.Bundle.Jwt.{
  JsonWebKey, Bundle, new, from_jwt_authorities, find_jwt_authority, add_jwt_authority,
  remove_jwt_authority, equal_bundle, clone, add_keys, keys_of, parse, marshal,
  error_adding_authority,
}

-- No authority stands under the empty key ID.
pub record IsValid (b : Bundle) : Type 0 where
  pub is_map : IsMap b.jwt_authorities
  pub no_empty : has [] b.jwt_authorities ≡ false

-- On a JWT bundle with distinct key IDs, none of them empty, `AddJWTAuthority` refuses the empty
-- key ID; with any other key ID it succeeds, the bundle stays so and keeps its trust domain, the
-- key ID finds the new key, and every other key ID finds what it found.
pub add_jwt_authority_lem :
    (key_id : Bytes) (key : PublicKey) (b : Bundle)
    → IsValid b
    → ((key_id ≡ []) × (add_jwt_authority key_id key b ≡ err empty_key_id))
      ⊎ ((key_id ≢ [])
          × ((b' : Bundle) × (add_jwt_authority key_id key b ≡ ok b')
              × IsValid b'
              × (b'.trust_domain ≡ b.trust_domain)
              × ((j : Bytes)
                  → find_jwt_authority j b'
                    ≡ (if bytes_eq key_id j then some key else find_jwt_authority j b))))
unfolding add_jwt_authority find_jwt_authority bytes_eq
add_jwt_authority_lem [] key b v = inl (refl, refl)
add_jwt_authority_lem (c ∷ s) key b v = inr (
  λ e. cc,
  (
    record b { jwt_authorities = put (c ∷ s) key b.jwt_authorities },
    refl,
    record {
      is_map = IsMap-put (c ∷ s) key b.jwt_authorities v.is_map;
      no_empty = has-put (c ∷ s) [] key b.jwt_authorities ∙ v.no_empty;
    },
    refl,
    λ j. lookup-put (c ∷ s) j key b.jwt_authorities,
  ),
)

-- On a JWT bundle with distinct key IDs, none of them empty, `RemoveJWTAuthority` leaves such a
-- bundle of the same trust domain, in which the key ID finds nothing and every other key ID finds
-- what it found.
remove_jwt_authority_lem :
    (key_id : Bytes) (b : Bundle)
    → IsValid b
    → let b' = remove_jwt_authority key_id b in
      IsValid b'
      × (b'.trust_domain ≡ b.trust_domain)
      × ((j : Bytes)
          → find_jwt_authority j b' ≡ (if bytes_eq key_id j then none else find_jwt_authority j b))
unfolding remove_jwt_authority find_jwt_authority
remove_jwt_authority_lem key_id b v = (
  record {
    is_map = IsMap-delete key_id b.jwt_authorities v.is_map;
    no_empty = has-delete_ne key_id [] b.jwt_authorities v.no_empty;
  },
  refl,
  λ j. lookup-delete key_id j b.jwt_authorities v.is_map,
)

-- A clone is its original.
pub clone-eq_jwt : (b : Bundle) → IsValid b → clone b ≡ b
unfolding clone from_jwt_authorities copy_jwt_authorities
clone-eq_jwt b v =
    ap (λ keys. record { trust_domain = b.trust_domain; jwt_authorities = keys })
      (put_all-empty b.jwt_authorities v.is_map)

-- `Equal` holds of two JWT bundles with distinct key IDs, none of them empty, if and only if they
-- have one trust domain, every key ID finds the same in both, and every key of the first is an RSA,
-- ECDSA or Ed25519 key.
equal_bundle_jwt_iff :
    (a b : Bundle)
    → IsValid a
    → IsValid b
    → (equal_bundle (some a) (some b) ≡ true) ↔ (
        (a.trust_domain ≡ b.trust_domain)
        × ((j : Bytes) → find_jwt_authority j a ≡ find_jwt_authority j b)
        × AllSupported a.jwt_authorities)
unfolding equal_bundle find_jwt_authority
equal_bundle_jwt_iff a b va vb =
    let keys = jwt_authorities_equal_iff a.jwt_authorities b.jwt_authorities va.is_map vb.is_map in
    let tds = trust_domain_eq_iff a.trust_domain b.trust_domain in
    (
      λ h.
          let (t, k) =
            &&-eq-true (trust_domain_eq a.trust_domain b.trust_domain)
              (jwt_authorities_equal a.jwt_authorities b.jwt_authorities) h in
          (tds.0 t, (keys.0 k).0, (keys.0 k).1),
      λ h. rw (tds.1 h.0, keys.1 (h.1, h.2)),
    )

add_keys-keys_of :
    {E : Type 0} (i : ℕ) (m dst : Keys) (td : TrustDomain)
    → has [] m ≡ false
    → add_keys {E = E} i (keys_of m) (record { trust_domain = td; jwt_authorities = dst })
      ≡ ok (record { trust_domain = td; jwt_authorities = put_all dst m })
unfolding add_keys keys_of put_all has add_jwt_authority
add_keys-keys_of i [] dst td h = refl
add_keys-keys_of i (([], v) ∷ m) dst td h = absurd (unfold bytes_eq in cc)
add_keys-keys_of i ((c ∷ s, v) ∷ m) dst td h =
    add_keys-keys_of (i + 1) m (put (c ∷ s) v dst) td (unfold bytes_eq in h)

-- A JWT bundle with distinct key IDs, none of them empty, marshalled and parsed, is the same
-- bundle, if the JSON decoder reads back what the encoder wrote.
pub parse-marshal :
    {E Json : Type 0} (marshal_keys : List JsonWebKey → Result E Json)
    (unmarshal_keys : Json → Result E (List JsonWebKey))
    → ((keys : List JsonWebKey) (json : Json)
        → marshal_keys keys ≡ ok json
        → unmarshal_keys json ≡ ok keys)
    → (b : Bundle) {json : Json} → IsValid b
    → marshal marshal_keys b ≡ ok json
    → parse unmarshal_keys b.trust_domain json ≡ ok b
unfolding marshal parse new
parse-marshal marshal_keys unmarshal_keys back b {json} v h =
    rw (back (keys_of b.jwt_authorities) json h) (
      add_keys-keys_of 0 b.jwt_authorities [] b.trust_domain v.no_empty
      ∙ ap (λ keys. ok (record { trust_domain = b.trust_domain; jwt_authorities = keys }))
          (put_all-empty b.jwt_authorities v.is_map))

-- A bundle with an authority under the empty key ID, which `FromJWTAuthorities` and
-- `SetJWTAuthorities` let in, is marshalled to a document that `Parse` refuses.
add_keys-empty_key_id :
    {E : Type 0} (i : ℕ) (m dst : Keys) (td : TrustDomain)
    → has [] m ≡ true
    → (n : ℕ) × (add_keys {E = E} i
          (keys_of m)
          (record { trust_domain = td; jwt_authorities = dst })
        ≡ err (error_adding_authority n))
unfolding add_keys keys_of has add_jwt_authority
add_keys-empty_key_id i [] dst td h = absurd (cc)
add_keys-empty_key_id i (([], v) ∷ m) dst td h = (i, refl)
add_keys-empty_key_id i ((c ∷ s, v) ∷ m) dst td h =
    add_keys-empty_key_id (i + 1) m (put (c ∷ s) v dst) td (unfold bytes_eq in h)

-- The bundle that `FromJWTAuthorities` makes of a map with distinct key IDs, one of them empty, is
-- marshalled to a document that `Parse` refuses at some entry, if the JSON decoder reads back what
-- the encoder wrote.
parse-marshal_empty_key_id :
    {E Json : Type 0} (marshal_keys : List JsonWebKey → Result E Json)
    (unmarshal_keys : Json → Result E (List JsonWebKey))
    → ((keys : List JsonWebKey) (json : Json)
        → marshal_keys keys ≡ ok json
        → unmarshal_keys json ≡ ok keys)
    → (td : TrustDomain) (keys : Keys) {json : Json} → IsMap keys
    → has [] keys ≡ true
    → marshal marshal_keys (from_jwt_authorities td keys) ≡ ok json
    → (n : ℕ) × (parse unmarshal_keys td json ≡ err (error_adding_authority n))
unfolding marshal parse new from_jwt_authorities copy_jwt_authorities
parse-marshal_empty_key_id marshal_keys unmarshal_keys back td keys {json} v e h =
    let read : unmarshal_keys json ≡ ok (keys_of keys) =
      back (keys_of keys) json (rw (put_all-empty keys v) at h) in
    rw read (add_keys-empty_key_id 0 keys [] td e)
