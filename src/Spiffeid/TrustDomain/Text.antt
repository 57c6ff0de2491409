-- ===== src/Spiffeid/TrustDomain/Text.antt =====
-- Trust domains and their texts: parsing, the ID of a trust domain, and the text encoding.
use go_spiffe.Prelude.{
  or_nil, Bool-cases, &&-eq-true, all, ok, >>=-eq-ok, >>-eq-ok, Bytes, is_empty, has_prefix,
  contains, ◌≡◌, refl, ap, ◌∙◌, ◌↔◌, ◌⊎◌, inl, inr, true, false, [], ◌∷◌, arith, ok-injective,
}
use go_spiffe.Spiffeid.Charset.{Build, is_valid_trust_domain_char, trust_domain_char-ne-colon}
use go_spiffe.Spiffeid.Paths.{validate_path}
use go_spiffe.Spiffeid.Identifier.{
  TrustDomain, SpiffeId, zero_trust_domain, from_string, trust_domain,
}
use go_spiffe.Spiffeid.Identifier.Valid.{
  IsValid, IsValidTrustDomain, from_string-IsValid, IsValid-of_from_string,
}
use go_spiffe.Spiffeid.Identifier.Edit.{
  HasParts, make_id-eq-ok, make_id-HasParts, trust_domain-IsValidTrustDomain,
}
use go_spiffe.Spiffeid.TrustDomain.{
  scheme_separator, validate_name, trust_domain_from_string, trust_domain_id, id_string,
  marshal_text, unmarshal_text,
}

validate_name_iff :
    (b : Build) (s : Bytes)
    → (validate_name b s ≡ ok tt) ↔ (all (is_valid_trust_domain_char b) s ≡ true)
unfolding validate_name
validate_name_iff b [] = ground arith
validate_name_iff b (c ∷ s) = ground (arith, validate_name_iff b s)

-- A name holds no colon, so it is never taken for an ID.
contains-IsName :
    (b : Build) (s : Bytes)
    → all (is_valid_trust_domain_char b) s ≡ true
    → contains s scheme_separator ≡ false
unfolding contains has_prefix
contains-IsName b [] h = refl
contains-IsName b (c ∷ s) h =
    let (hc, hs) =
      &&-eq-true (is_valid_trust_domain_char b c) (all (is_valid_trust_domain_char b) s) h in
    rw (trust_domain_char-ne-colon b c hc) (contains-IsName b s hs)

-- `TrustDomainFromString` on the name of a conformant trust domain returns the trust domain.
pub trust_domain_from_string-name :
    (b : Build) (td : TrustDomain)
    → IsValidTrustDomain b td
    → trust_domain_from_string b td.name ≡ ok td
unfolding trust_domain_from_string
trust_domain_from_string-name b td t = rw (
  t.name_valid.ne_empty,
  contains-IsName b td.name t.name_valid.chars,
  (validate_name_iff b td.name).1 t.name_valid.chars,
)

-- `TrustDomainFromString` on the text of a valid ID returns the trust domain of the ID.
pub trust_domain_from_string-id :
    (b : Build) {x : SpiffeId} → IsValid b x → trust_domain_from_string b x.id ≡ ok (trust_domain x)
unfolding trust_domain_from_string contains has_prefix
trust_domain_from_string-id b {x} v =
    let head : is_empty x.id ≡ false = rw v.id_is in
    let marked : contains x.id scheme_separator ≡ true = rw v.id_is in
    rw (head, marked, from_string-IsValid b v)

-- Whatever `TrustDomainFromString` returns is a conformant trust domain.
trust_domain_from_string-IsValid :
    (b : Build) (s : Bytes) {td : TrustDomain}
    → trust_domain_from_string b s ≡ ok td
    → IsValidTrustDomain b td
unfolding trust_domain_from_string
trust_domain_from_string-IsValid b [] h = cc
trust_domain_from_string-IsValid b (c ∷ s) h =
    elim (Bool-cases (contains (c ∷ s) scheme_separator)) [
      | inl e ↦
          let (x, parsed, made) =
            >>=-eq-ok (from_string b (c ∷ s)) (λ x. ok (trust_domain x)) (rw e at h) in
          rw (← ok-injective made)
            (trust_domain-IsValidTrustDomain b (IsValid-of_from_string b (c ∷ s) parsed).0)
      | inr e ↦
          let (valid, made) = >>-eq-ok (validate_name b (c ∷ s)) _ (rw e at h) in
          rw (← ok-injective made) (record {
            name_valid = record { ne_empty = refl; chars = (validate_name_iff b (c ∷ s)).0 valid };
          })
    ]

-- The ID of a trust domain is conformant, has no path, and leads back to the trust domain.
pub trust_domain_id-HasParts :
    (b : Build) (td : TrustDomain) → IsValidTrustDomain b td → HasParts b td [] (trust_domain_id td)
unfolding trust_domain_id
trust_domain_id-HasParts b td t =
    let makes = make_id-eq-ok b td [] t.name_valid in
    rw (makes, trust_domain_id)
      (make_id-HasParts b td [] t.name_valid (unfold validate_path in refl) makes)

-- `TrustDomainFromString` on the `IDString` of a conformant trust domain returns the trust domain.
trust_domain_from_string-id_string :
    (b : Build) (td : TrustDomain)
    → IsValidTrustDomain b td
    → trust_domain_from_string b (id_string td) ≡ ok td
unfolding id_string
trust_domain_from_string-id_string b td t =
    let h = trust_domain_id-HasParts b td t in
    trust_domain_from_string-id b h.valid ∙ ap ok h.trust_domain_is

-- A trust domain that is zero or conformant, written by `MarshalText` and read by `UnmarshalText`
-- into any receiver, is the same trust domain, with no error.
unmarshal_text-marshal_text_trust_domain :
    (b : Build) (td old : TrustDomain)
    → (td ≡ zero_trust_domain) ⊎ IsValidTrustDomain b td
    → unmarshal_text b old (or_nil (marshal_text td)) ≡ (td, ok tt)
unfolding unmarshal_text marshal_text
unmarshal_text-marshal_text_trust_domain b td old (inl z) = rw z
unmarshal_text-marshal_text_trust_domain b td old (inr t) =
    rw (t.name_valid.ne_empty, t.name_valid.ne_empty, trust_domain_from_string-name b td t)
