-- ===== src/Bundle/Tests.antt =====
-- The bundle packages on concrete bundles.
use go_spiffe.Prelude.{
  if◌then◌else◌, Bool-cases, Result, ok, err, Bytes, bytes_eq, ℕ, ◌≤◌, ◌≡◌, refl, sym, ◌≢◌, ◌↔◌,
  ◌⊎◌, inl, inr, true, false, not, ◌&&◌, ◌||◌, Option, none, some, List, [], ◌∷◌, map, arith, codes,
}
use go_spiffe.GoMap.{lookup, has, put, IsMap, bytes_key}
use go_spiffe.GoTime.{pos}
use go_spiffe.Spiffeid.Identifier.{TrustDomain, trust_domain_eq}
use go_spiffe.Crypto.{PublicKey, ecdsa, Keys, jwt_authorities_equal}
use go_spiffe.Crypto.Authorities.{AllSupported, jwt_authorities_equal_iff}
use go_spiffe.X509.{Certificate, equal, has_authority, add_authority}
use go_spiffe.X509.Authorities.{IsDistinct, count, IsDistinct-add_authority}
use go_spiffe.Bundle.Jwks.{empty_key_id}
use go_spiffe.Bundle.X509
use go_spiffe.Bundle.X509.Laws.{
  IsValid as IsValidX509, add_x509_authority_lem, remove_x509_authority_lem, has-remove_twice,
}
use go_spiffe.Bundle.Jwt
use go_spiffe.Bundle.Jwt.Laws.{IsValid as IsValidJwt, add_jwt_authority_lem, parse-marshal}
use go_spiffe.Bundle.Set
use go_spiffe.Bundle.Set.Laws.{IsValid as IsValidSet, new_set_lem, last_for}
use go_spiffe.Bundle.Set.Canonical.{bundles_canonical}
use go_spiffe.Bundle.Spiffe
use go_spiffe.Bundle.Spiffe.Document
use go_spiffe.Bundle.Spiffe.RoundTrip
use go_spiffe.Bundle.Spiffe.RoundTrip.{parse-marshal_spiffe, parse-marshal_empty}
use go_spiffe.Bundle.Wit
use go_spiffe.Bundle.Spiffe.Parts.{
  HasMaps, parts, parts_of, with_jwt, with_wit, spiffe_methods_parts,
}
use go_spiffe.Bundle.Sets.SpiffeSet
use go_spiffe.Bundle.Sets.Sources.{spiffe_set_lookups}
use go_spiffe.GoMap.Same.{SameMap}
use go_spiffe.Spiffeid.Identifier.Equal.{trust_domain_eq_iff}

abbrev td_a : TrustDomain
td_a = record { name = codes "a.test" }

abbrev td_b : TrustDomain
td_b = record { name = codes "b.test" }

abbrev key : PublicKey
key = ecdsa (record { curve = 256; x = 3; y = 5 })

abbrev cert : ℕ → Certificate
cert n = record { raw = n ∷ []; uris = []; is_ca = true; key_usage = 32; public_key = key }

abbrev certs : List Certificate
certs = cert 1 ∷ cert 2 ∷ []

certs-IsDistinct : IsDistinct certs
certs-IsDistinct =
    unfold add_authority has_authority equal bytes_eq in
    IsDistinct-add_authority (cert 2) (cert 1 ∷ [])
      (IsDistinct-add_authority (cert 1) [] (λ j. omega arith))

abbrev x509_two : X509.Bundle
x509_two = record { trust_domain = td_a; x509_authorities = certs }

add_x509_authority_lem_example :
    IsValidX509 (X509.add_x509_authority (cert 3) x509_two)
    × ((X509.add_x509_authority (cert 3) x509_two).trust_domain ≡ td_a)
    × ((j : Certificate)
        → X509.has_x509_authority j (X509.add_x509_authority (cert 3) x509_two)
          ≡ (equal (cert 3) j || X509.has_x509_authority j x509_two))
add_x509_authority_lem_example = add_x509_authority_lem (cert 3) x509_two certs-IsDistinct

remove_x509_authority_lem_example :
    IsValidX509 (X509.remove_x509_authority (cert 1) x509_two)
    × ((X509.remove_x509_authority (cert 1) x509_two).trust_domain ≡ td_a)
    × ((j : Certificate)
        → X509.has_x509_authority j (X509.remove_x509_authority (cert 1) x509_two)
          ≡ (not (equal (cert 1) j) && X509.has_x509_authority j x509_two))
remove_x509_authority_lem_example = remove_x509_authority_lem (cert 1) x509_two certs-IsDistinct

abbrev doubled : X509.Bundle
doubled = record { trust_domain = td_a; x509_authorities = cert 1 ∷ cert 1 ∷ [] }

doubled-count : 2 ≤ count (cert 1) doubled.x509_authorities
unfolding equal bytes_eq
doubled-count = omega arith

has-remove_twice_example :
    X509.has_x509_authority (cert 1) (X509.remove_x509_authority (cert 1) doubled) ≡ true
has-remove_twice_example = has-remove_twice (cert 1) doubled doubled-count

-- a parser of one certificate for each byte
abbrev parse_bytes : Bytes → Result ℕ (List Certificate)
parse_bytes bytes = ok (map cert bytes)

abbrev two_bytes : Bytes
two_bytes = 1 ∷ 2 ∷ []

parses : X509.parse_raw parse_bytes td_a two_bytes ≡ ok x509_two
unfolding X509.parse_raw X509.add_all X509.new X509.add_x509_authority add_authority has_authority
    equal bytes_eq
parses = refl

abbrev keys : Keys
keys = (codes "k1", key) ∷ (codes "k2", key) ∷ []

keys-IsMap : IsMap keys
unfolding has bytes_eq
keys-IsMap = (refl, (refl, tt))

abbrev jwt_two : Jwt.Bundle
jwt_two = record { trust_domain = td_a; jwt_authorities = keys }

jwt_two-IsValid : IsValidJwt jwt_two
jwt_two-IsValid = record { is_map = keys-IsMap; no_empty = (unfold has bytes_eq in refl) }

add_jwt_authority_lem_example :
    ((codes "k3" ≡ []) × (Jwt.add_jwt_authority (codes "k3") key jwt_two ≡ err empty_key_id))
    ⊎ ((codes "k3" ≢ [])
        × ((b' : Jwt.Bundle) × (Jwt.add_jwt_authority (codes "k3") key jwt_two ≡ ok b')
            × IsValidJwt b'
            × (b'.trust_domain ≡ td_a)
            × ((j : Bytes)
                → Jwt.find_jwt_authority j b' ≡ (
                    if bytes_eq (codes "k3") j
                    then some key
                    else Jwt.find_jwt_authority j jwt_two))))
add_jwt_authority_lem_example = add_jwt_authority_lem (codes "k3") key jwt_two jwt_two-IsValid

jwt_authorities_equal_iff_example :
    (jwt_authorities_equal keys keys ≡ true) ↔ (SameMap keys keys × AllSupported keys)
jwt_authorities_equal_iff_example = jwt_authorities_equal_iff keys keys keys-IsMap keys-IsMap

-- an encoding that keeps the document as it is
abbrev keep : {A : Type 0} → A → Result ℕ A
keep a = ok a

keep-back : {A : Type 0} (a b : A) → keep a ≡ ok b → keep b ≡ ok a
keep-back a b h = sym h

parse-marshal_example : Jwt.parse keep td_a (Jwt.keys_of keys) ≡ ok jwt_two
parse-marshal_example =
    parse-marshal keep keep keep-back jwt_two jwt_two-IsValid (unfold Jwt.marshal in refl)

abbrev unnamed : Keys
unnamed = ([], key) ∷ []

abbrev spiffe_two : Spiffe.Bundle
spiffe_two = record {
  trust_domain = td_a;
  refresh_hint = some (pos 1_500_000_000);
  sequence_number = some 7;
  jwt_authorities = keys;
  wit_authorities = keys;
  x509_authorities = certs;
}

spiffe_two-IsValid : RoundTrip.IsValid spiffe_two
spiffe_two-IsValid = record {
  distinct = certs-IsDistinct;
  jwt_map = keys-IsMap;
  jwt_ids = (unfold has bytes_eq in refl);
  wit_map = keys-IsMap;
  wit_ids = (unfold has bytes_eq in refl);
  hint_fits = omega arith;
}

parse-marshal_spiffe_example :
    Document.parse keep td_a (Document.document spiffe_two)
    ≡ ok (record spiffe_two { refresh_hint = some (pos 2_000_000_000) })
parse-marshal_spiffe_example =
    parse-marshal_spiffe keep keep keep-back spiffe_two spiffe_two-IsValid
      (unfold Spiffe.is_empty_bundle in refl) (unfold Document.marshal in refl)

parse-marshal_empty_example :
    Document.parse keep td_a (Document.document (Spiffe.set_sequence_number 7 (Spiffe.new td_a)))
    ≡ err Document.no_authorities_found
unfolding Spiffe.set_sequence_number Spiffe.new
parse-marshal_empty_example =
    parse-marshal_empty keep keep keep-back (Spiffe.set_sequence_number 7 (Spiffe.new td_a))
      (unfold Spiffe.is_empty_bundle in refl) (unfold Document.marshal in refl)

abbrev bundle_of : X509.Bundle → TrustDomain
bundle_of b = b.trust_domain

abbrev x509_b : X509.Bundle
x509_b = record { trust_domain = td_b; x509_authorities = [] }

abbrev given : List (Option X509.Bundle)
given = some x509_b ∷ none ∷ some x509_two ∷ some doubled ∷ []

abbrev the_set : Set.Set X509.Bundle
the_set = (td_b, x509_b) ∷ (td_a, doubled) ∷ []

abbrev other_order : Set.Set X509.Bundle
other_order = (td_a, doubled) ∷ (td_b, x509_b) ∷ []

given-the_set : Set.new_set bundle_of given ≡ the_set
unfolding Set.new_set put trust_domain_eq bytes_eq
given-the_set = refl

new_set_lem_example :
    IsValidSet bundle_of (Set.new_set bundle_of given)
    × ((td : TrustDomain)
        → Set.get td (Set.new_set bundle_of given) ≡ last_for bundle_of td none given)
new_set_lem_example = new_set_lem bundle_of given

the_set-IsValid : IsValidSet bundle_of the_set
unfolding has trust_domain_eq bytes_eq
the_set-IsValid = record { is_map = (refl, (refl, tt)); keyed = (refl, (refl, tt)) }

other_order-IsValid : IsValidSet bundle_of other_order
unfolding has trust_domain_eq bytes_eq
other_order-IsValid = record { is_map = (refl, (refl, tt)); keyed = (refl, (refl, tt)) }

same_look_ups : (td : TrustDomain) → Set.get td the_set ≡ Set.get td other_order
unfolding Set.get lookup
same_look_ups td = elim (Bool-cases (trust_domain_eq td_a td)) [
  | inl e ↦
      let td_is = (trust_domain_eq_iff td_a td).0 e in
      rw (← td_is) (unfold trust_domain_eq bytes_eq in refl)
  | inr e ↦ rw e refl
]

bundles_canonical_example : Set.bundles bundle_of the_set ≡ Set.bundles bundle_of other_order
bundles_canonical_example =
    bundles_canonical bundle_of the_set other_order the_set-IsValid other_order-IsValid
      same_look_ups

abbrev spiffe_set : Set.Set Spiffe.Bundle
spiffe_set = (td_a, spiffe_two) ∷ []

spiffe_set-IsValid : IsValidSet SpiffeSet.trust_domain_of spiffe_set
unfolding has
spiffe_set-IsValid = record { is_map = (refl, tt); keyed = (refl, tt) }

spiffe_set_lookups_example :
    let missing = Set.no_bundle td_a in
    ((SpiffeSet.has_bundle td_a spiffe_set ≡ false)
      × (SpiffeSet.get_bundle_for_trust_domain td_a spiffe_set ≡ err missing)
      × (SpiffeSet.get_x509_bundle_for_trust_domain td_a spiffe_set ≡ err missing)
      × (SpiffeSet.get_jwt_bundle_for_trust_domain td_a spiffe_set ≡ err missing)
      × (SpiffeSet.get_wit_bundle_for_trust_domain td_a spiffe_set ≡ err missing))
    ⊎ ((b : Spiffe.Bundle) × (SpiffeSet.get td_a spiffe_set ≡ some b)
        × (SpiffeSet.get_bundle_for_trust_domain td_a spiffe_set ≡ ok b)
        × (SpiffeSet.get_x509_bundle_for_trust_domain td_a spiffe_set ≡ ok (Spiffe.x509_bundle b))
        × (SpiffeSet.get_jwt_bundle_for_trust_domain td_a spiffe_set ≡ ok (Spiffe.jwt_bundle b))
        × (SpiffeSet.get_wit_bundle_for_trust_domain td_a spiffe_set ≡ ok (Spiffe.wit_bundle b))
        × (b.trust_domain ≡ td_a)
        × ((Spiffe.x509_bundle b).trust_domain ≡ td_a)
        × ((Spiffe.jwt_bundle b).trust_domain ≡ td_a)
        × ((Spiffe.wit_bundle b).trust_domain ≡ td_a))
spiffe_set_lookups_example = spiffe_set_lookups td_a spiffe_set spiffe_set-IsValid

spiffe_two-HasMaps : HasMaps spiffe_two
spiffe_two-HasMaps = record { jwt_map = keys-IsMap; wit_map = keys-IsMap }

spiffe_methods_parts_example :
    let b = spiffe_two in
    (parts (Spiffe.add_x509_authority (cert 3) b) ≡ (
      X509.add_x509_authority (cert 3) (Spiffe.x509_bundle b),
      Spiffe.jwt_bundle b,
      Spiffe.wit_bundle b,
    ))
    × (parts (Spiffe.remove_x509_authority (cert 3) b) ≡ (
      X509.remove_x509_authority (cert 3) (Spiffe.x509_bundle b),
      Spiffe.jwt_bundle b,
      Spiffe.wit_bundle b,
    ))
    × (Spiffe.has_x509_authority (cert 3) b
        ≡ X509.has_x509_authority (cert 3) (Spiffe.x509_bundle b))
    × (parts_of (Spiffe.add_jwt_authority (codes "k1") key b)
        ≡ with_jwt b (Jwt.add_jwt_authority (codes "k1") key (Spiffe.jwt_bundle b)))
    × (parts (Spiffe.remove_jwt_authority (codes "k1") b) ≡ (
      Spiffe.x509_bundle b,
      Jwt.remove_jwt_authority (codes "k1") (Spiffe.jwt_bundle b),
      Spiffe.wit_bundle b,
    ))
    × (Spiffe.find_jwt_authority (codes "k1") b
        ≡ Jwt.find_jwt_authority (codes "k1") (Spiffe.jwt_bundle b))
    × (parts_of (Spiffe.add_wit_authority (codes "k1") key b)
        ≡ with_wit b (Wit.add_wit_authority (codes "k1") key (Spiffe.wit_bundle b)))
    × (parts (Spiffe.remove_wit_authority (codes "k1") b) ≡ (
      Spiffe.x509_bundle b,
      Spiffe.jwt_bundle b,
      Wit.remove_wit_authority (codes "k1") (Spiffe.wit_bundle b),
    ))
    × (Spiffe.find_wit_authority (codes "k1") b
        ≡ Wit.find_wit_authority (codes "k1") (Spiffe.wit_bundle b))
spiffe_methods_parts_example =
    spiffe_methods_parts spiffe_two (cert 3) (codes "k1") key spiffe_two-HasMaps
