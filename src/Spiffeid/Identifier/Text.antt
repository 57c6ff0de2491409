-- ===== src/Spiffeid/Identifier/Text.antt =====
-- The text encoding of IDs, and the order of the two builds.
use go_spiffe.Prelude.{
  ok, Result-cases, Bytes, is_empty, ◌≡◌, refl, ◌≢◌, ◌⊎◌, inl, inr, false, [], ◌∷◌, or_nil,
}
use go_spiffe.Spiffeid.Charset.{Build}
use go_spiffe.Spiffeid.Identifier.{
  SpiffeId, zero_id, from_string, string, marshal_text, unmarshal_text,
}
use go_spiffe.Spiffeid.Identifier.Valid.{IsValid, from_string-IsValid, IsValid-of_from_string}

-- An ID that is zero or valid, written by `MarshalText` and read by `UnmarshalText` into any
-- receiver, is the same ID, with no error.
pub unmarshal_text-marshal_text :
    (b : Build) (x old : SpiffeId)
    → (x ≡ zero_id) ⊎ IsValid b x
    → unmarshal_text b old (or_nil (marshal_text x)) ≡ (x, ok tt)
unfolding unmarshal_text marshal_text string
unmarshal_text-marshal_text b x old (inl z) = rw z
unmarshal_text-marshal_text b x old (inr v) =
    let head : is_empty x.id ≡ false = rw v.id_is in rw (head, head, from_string-IsValid b v)

-- `UnmarshalText` either succeeds and leaves a zero or valid ID with the given text in its
-- receiver, or reports an error and leaves the receiver as it was.
pub unmarshal_text-cases :
    (b : Build) (old : SpiffeId) (text : Bytes)
    → let r = unmarshal_text b old text in
      ((r.1 ≡ ok tt) × ((r.0 ≡ zero_id) ⊎ IsValid b r.0) × (r.0.id ≡ text))
      ⊎ ((r.1 ≢ ok tt) × (r.0 ≡ old))
unfolding unmarshal_text
unmarshal_text-cases b old [] = inl (refl, inl refl, refl)
unmarshal_text-cases b old (c ∷ s) = elim (Result-cases (from_string b (c ∷ s))) [
  | inl (x, e) ↦
      let (v, text_is) = IsValid-of_from_string b (c ∷ s) e in rw e (inl (refl, inr v, text_is))
  | inr (f, e) ↦ rw e (inr (λ k. cc, refl))
]
