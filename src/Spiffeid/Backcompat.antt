-- ===== src/Spiffeid/Backcompat.antt =====
-- The build with the wider character set accepts what the standard build accepts.
use go_spiffe.Prelude.{
  &&-eq-true, all, All, ok, Bytes, ℕ, ◌≡◌, refl, Bool, true, List, [], ◌∷◌, arith,
}
use go_spiffe.Spiffeid.Charset.{
  standard, backcompat, is_valid_path_segment_char, is_valid_trust_domain_char,
  path_char-backcompat, trust_domain_char-backcompat,
}
use go_spiffe.Spiffeid.Paths.{validate_path, validate_path_segment}
use go_spiffe.Spiffeid.Paths.Segments.{
  IsSegment, validate_chars_iff, Segmented-of_validate_path, validate_path-joined,
}
use go_spiffe.Spiffeid.Identifier.{SpiffeId, from_string}
use go_spiffe.Spiffeid.Identifier.Valid.{IsValid, from_string_iff}

all_mono :
    (p q : ℕ → Bool)
    → ((c : ℕ) → p c ≡ true → q c ≡ true)
    → (s : Bytes) → all p s ≡ true
    → all q s ≡ true
all_mono p q f [] h = refl
all_mono p q f (c ∷ s) h =
    let (hc, hs) = &&-eq-true (p c) (all p s) h in rw (f c hc) (all_mono p q f s hs)

IsSegment-backcompat : (s : Bytes) → IsSegment standard s → IsSegment backcompat s
unfolding validate_path_segment
IsSegment-backcompat s h = ground (
  arith,
  validate_chars_iff standard s,
  validate_chars_iff backcompat s,
  all_mono (is_valid_path_segment_char standard) (is_valid_path_segment_char backcompat)
      path_char-backcompat s,
)

All-backcompat : (ss : List Bytes) → All (IsSegment standard) ss → All (IsSegment backcompat) ss
All-backcompat [] h = tt
All-backcompat (s ∷ ss) h = (IsSegment-backcompat s h.0, All-backcompat ss h.1)

validate_path-backcompat :
    (p : Bytes) → validate_path standard p ≡ ok tt → validate_path backcompat p ≡ ok tt
validate_path-backcompat p h =
    let (ss, e, hs) = Segmented-of_validate_path standard p h in
    rw e (validate_path-joined backcompat ss (All-backcompat ss hs))

IsValid-backcompat : (x : SpiffeId) → IsValid standard x → IsValid backcompat x
IsValid-backcompat x v = record {
  name = v.name;
  rest = v.rest;
  id_is = v.id_is;
  pathidx_is = v.pathidx_is;
  name_valid = record {
    ne_empty = v.name_valid.ne_empty;
    chars =
        all_mono (is_valid_trust_domain_char standard) (is_valid_trust_domain_char backcompat)
          trust_domain_char-backcompat v.name v.name_valid.chars;
  };
  path_valid = validate_path-backcompat v.rest v.path_valid;
}

-- A text that `FromString` parses in the standard build it parses to the same ID in the build with
-- tag `spiffeid_charset_backcompat`.
from_string-backcompat :
    (s : Bytes) {x : SpiffeId} → from_string standard s ≡ ok x → from_string backcompat s ≡ ok x
from_string-backcompat s {x} h =
    let (v, text) = (from_string_iff standard s x).0 h in
    (from_string_iff backcompat s x).1 (IsValid-backcompat x v, text)
