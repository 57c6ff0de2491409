-- ===== src/Spiffeid/TrustDomain.antt =====
-- spiffeid/trustdomain.go
pub mod Text
pub mod Order
use Prim.Native.Nat.{compare, Ordering}
use go_spiffe.Prelude.{
  ◌>>=◌, if◌then◌else◌, Result, ok, err, ◌>>◌, Bytes, is_empty, contains, not, Option, none, some,
  [], ◌∷◌,
}
use go_spiffe.Spiffeid.Charset.{
  Error, bad_trust_domain_char, missing_trust_domain, Build, is_valid_trust_domain_char,
}
use go_spiffe.Spiffeid.Identifier.{
  TrustDomain, SpiffeId, zero_trust_domain, zero_id, is_zero_trust_domain, make_id, from_string,
  trust_domain,
}

-- ":/"
abbrev pub scheme_separator : Bytes
scheme_separator = b':' ∷ b'/' ∷ []

-- the loop of the default case
unfoldable pub validate_name : Build → Bytes → Result Error (Unit {0})
validate_name b [] = ok tt
validate_name b (c ∷ rest) =
    let later = validate_name b rest in
    if not (is_valid_trust_domain_char b c) then err bad_trust_domain_char else later

unfoldable pub trust_domain_from_string : Build → Bytes → Result Error TrustDomain
trust_domain_from_string b id_or_name =
    if is_empty id_or_name
    then err missing_trust_domain
    else if contains id_or_name scheme_separator
    then (do id ← from_string b id_or_name; ok (trust_domain id))
    else (validate_name b id_or_name >> ok (record { name = id_or_name }))

-- `TrustDomain.ID`
unfoldable pub trust_domain_id : TrustDomain → SpiffeId
trust_domain_id td = elim (make_id td []) [ ok id ↦ id | err e ↦ zero_id ]

unfoldable pub id_string : TrustDomain → Bytes
unfolding trust_domain_id
id_string td = (trust_domain_id td).id

-- `strings.Compare`: `lt`, `eq` and `gt` are -1, 0 and +1
unfoldable pub compare_bytes : Bytes → Bytes → Ordering
compare_bytes [] [] = Ordering.eq
compare_bytes [] (y ∷ ys) = Ordering.lt
compare_bytes (x ∷ xs) [] = Ordering.gt
compare_bytes (x ∷ xs) (y ∷ ys) =
    let later = compare_bytes xs ys in
    elim (compare x y) [
      | Ordering.lt ↦ Ordering.lt
      | Ordering.gt ↦ Ordering.gt
      | Ordering.eq ↦ later
    ]

-- `TrustDomain.Compare`
unfoldable pub compare_trust_domain : TrustDomain → TrustDomain → Ordering
unfolding compare_bytes
compare_trust_domain td other = compare_bytes td.name other.name

-- `nil` for the zero value; the error is always nil
unfoldable pub marshal_text : TrustDomain → Option Bytes
unfolding is_zero_trust_domain
marshal_text td = if is_zero_trust_domain td then none else some td.name

-- `UnmarshalText` writes through its receiver: the new value of it, and the error.
unfoldable pub unmarshal_text : Build → TrustDomain → Bytes → TrustDomain × Result Error (Unit {0})
unmarshal_text b old text =
    if is_empty text
    then (zero_trust_domain, ok tt)
    else elim (trust_domain_from_string b text) [ ok td ↦ (td, ok tt) | err e ↦ (old, err e) ]
