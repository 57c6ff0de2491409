-- ===== src/Spiffeid/Identifier/Valid.antt =====
-- Conformant SPIFFE IDs, and `FromString`, which accepts their texts and no others.
use go_spiffe.Prelude.{
  >>=-eq-ok, >>-eq-ok, eq-append_of_has_prefix, Bytes-cases, ok-injective, ◌==◌, Bool-cases,
  &&-eq-true, length, drop, all, length-append, drop-append, ok, Bytes, is_empty, has_prefix,
  slice-append, ℕ, ◌+◌, ◌≡◌, refl, sym, ap, ◌∙◌, ◌↔◌, inl, inr, true, false, [], ◌∷◌, ◌++◌, arith,
}
use go_spiffe.Spiffeid.Charset.{Build, is_valid_trust_domain_char, trust_domain_char-ne-slash}
use go_spiffe.Spiffeid.Paths.{validate_path}
use go_spiffe.Spiffeid.Identifier.{
  scheme_prefix, scheme_prefix_len, TrustDomain, SpiffeId, is_zero, trust_domain_end,
  from_string_at, from_string, trust_domain, path,
}

-- What stands between the scheme and the path.
pub record IsName (b : Build) (name : Bytes) : Type 0 where
  pub ne_empty : is_empty name ≡ false
  pub chars : all (is_valid_trust_domain_char b) name ≡ true

-- The text is the scheme, a trust domain name and a path, and the index points at the path.
pub record IsValid (b : Build) (x : SpiffeId) : Type 0 where
  pub name : Bytes
  pub rest : Bytes
  pub id_is : x.id ≡ scheme_prefix ++ (name ++ rest)
  pub pathidx_is : x.pathidx ≡ scheme_prefix_len + length name
  pub name_valid : IsName b name
  pub path_valid : validate_path b rest ≡ ok tt

pub record IsValidTrustDomain (b : Build) (td : TrustDomain) : Type 0 where
  pub name_valid : IsName b td.name

-- A path is empty or begins with a slash.
pub validate_path-head :
    (b : Build) (c : ℕ) (rest : Bytes) → validate_path b (c ∷ rest) ≡ ok tt → (c == b'/') ≡ true
unfolding validate_path
validate_path-head b c rest h = elim (Bool-cases (c == b'/')) [
  | inl e ↦ e
  | inr e ↦ absurd (let k = rw e at h in cc)
]

trust_domain_end-append :
    (b : Build) (name rest : Bytes) (i : ℕ)
    → all (is_valid_trust_domain_char b) name ≡ true
    → validate_path b rest ≡ ok tt
    → trust_domain_end b i (name ++ rest) ≡ ok (i + length name)
unfolding trust_domain_end
trust_domain_end-append b [] [] i h v = ap ok (omega arith)
trust_domain_end-append b [] (c ∷ rest) i h v =
    rw (validate_path-head b c rest v) (ap ok (omega arith))
trust_domain_end-append b (c ∷ name) rest i h v =
    let (hc, hs) =
      &&-eq-true (is_valid_trust_domain_char b c) (all (is_valid_trust_domain_char b) name) h in
    rw (trust_domain_char-ne-slash b c hc, hc)
      (trust_domain_end-append b name rest (i + 1) hs v ∙ ap ok (omega arith))

-- Where the loop of `FromString` stops.
record Ends (b : Build) (i j : ℕ) (s : Bytes) : Type 0 where
  name : Bytes
  rest : Bytes
  splits : s ≡ name ++ rest
  index : j ≡ i + length name
  chars : all (is_valid_trust_domain_char b) name ≡ true

Ends-of_trust_domain_end :
    (b : Build) (s : Bytes) (i : ℕ) {j : ℕ} → trust_domain_end b i s ≡ ok j → Ends b i j s
unfolding trust_domain_end
Ends-of_trust_domain_end b [] i h = record {
  name = [];
  rest = [];
  splits = refl;
  index = ground arith;
  chars = refl;
}
Ends-of_trust_domain_end b (c ∷ s) i {j} h = elim (Bool-cases (c == b'/')) [
  | inl e ↦ record {
    name = [];
    rest = c ∷ s;
    splits = refl;
    index = omega (arith, ok-injective (rw e at h));
    chars = refl;
  }
  | inr e ↦ elim (Bool-cases (is_valid_trust_domain_char b c)) [
    | inl v ↦
        let r = Ends-of_trust_domain_end b s (i + 1) (rw (e, v) at h) in
        record {
          name = c ∷ r.name;
          rest = r.rest;
          splits = ap (◌∷◌ c) r.splits;
          index = omega (arith, r.index);
          chars = ground (arith, r.chars);
        }
    | inr bad ↦ absurd (let k = rw (e, bad) at h in cc)
  ]
]

drop_name :
    (name rest : Bytes)
    → drop (scheme_prefix_len + length name) (scheme_prefix ++ (name ++ rest)) ≡ rest
drop_name name rest =
    let e : scheme_prefix_len + length name ≡ length (scheme_prefix ++ name) =
      omega (arith, length-append scheme_prefix name) in
    rw e (drop-append (scheme_prefix ++ name) rest)

module _ (b : Build) {x : SpiffeId} (v : IsValid b x) where
  rest_at : drop x.pathidx x.id ≡ v.rest
  rest_at = rw (v.id_is, v.pathidx_is) (drop_name v.name v.rest)

  pub is_zero-IsValid : is_zero x ≡ false
  unfolding is_zero
  is_zero-IsValid = rw v.id_is

  -- The accessors cut a valid ID where its parts meet.
  pub trust_domain-IsValid : trust_domain x ≡ record { name = v.name }
  unfolding trust_domain
  trust_domain-IsValid =
      rw (v.id_is, v.pathidx_is)
        (ap (λ n. record { name = n }) (slice-append scheme_prefix v.name v.rest))

  pub path-IsValid : path x ≡ v.rest
  unfolding path
  path-IsValid = rest_at

  past_scheme : (x.pathidx == scheme_prefix_len) ≡ false
  past_scheme = elim (Bytes-cases v.name) [
    | inl e ↦ absurd (let k = rw e at v.name_valid.ne_empty in cc)
    | inr (c, s, e) ↦ ground (arith, v.pathidx_is, ap length e)
  ]

  from_string_at-IsValid : from_string_at b x.id x.pathidx ≡ ok x
  unfolding from_string_at
  from_string_at-IsValid = rw (past_scheme, rest_at, v.path_valid)

  -- `FromString` reads back the text of a valid ID.
  pub from_string-IsValid : from_string b x.id ≡ ok x
  unfolding from_string has_prefix
  from_string-IsValid =
      let e : trust_domain_end b 9 (drop 9 x.id) ≡ ok x.pathidx = rw v.id_is (
        trust_domain_end-append b v.name v.rest 9 v.name_valid.chars v.path_valid
        ∙ ap ok (sym v.pathidx_is)) in
      let head : is_empty x.id ≡ false = rw v.id_is in
      let prefixed : has_prefix x.id scheme_prefix ≡ true = rw v.id_is in
      rw (head, prefixed, e) from_string_at-IsValid

from_string_at-eq-ok :
    (b : Build) (s : Bytes) (j : ℕ) {x : SpiffeId}
    → from_string_at b s j ≡ ok x
    → ((j == scheme_prefix_len) ≡ false)
      × (validate_path b (drop j s) ≡ ok tt)
      × (x ≡ record { id = s; pathidx = j })
unfolding from_string_at
from_string_at-eq-ok b s j h = elim (Bool-cases (j == scheme_prefix_len)) [
  | inl e ↦ absurd (let k = rw e at h in cc)
  | inr e ↦
      let (valid, made) = >>-eq-ok (validate_path b (drop j s)) _ (rw e at h) in
      (e, valid, sym (ok-injective made))
]

from_string-inv :
    (b : Build) (s : Bytes) {x : SpiffeId}
    → from_string b s ≡ ok x
    → (has_prefix s scheme_prefix ≡ true)
      × ((j : ℕ) × (trust_domain_end b 9 (drop 9 s) ≡ ok j) × (from_string_at b s j ≡ ok x))
unfolding from_string
from_string-inv b [] h = cc
from_string-inv b (c ∷ s) h = elim (Bool-cases (has_prefix (c ∷ s) scheme_prefix)) [
  | inl e ↦
      (e, >>=-eq-ok (trust_domain_end b 9 (drop 9 (c ∷ s))) (from_string_at b (c ∷ s)) (rw e at h))
  | inr e ↦ absurd (let k = rw e at h in cc)
]

name-ne-empty :
    (name : Bytes)
    → (scheme_prefix_len + length name == scheme_prefix_len) ≡ false
    → is_empty name ≡ false
name-ne-empty [] h = cc
name-ne-empty (c ∷ name) h = refl

pub IsValid-of_from_string :
    (b : Build) (s : Bytes) {x : SpiffeId} → from_string b s ≡ ok x → IsValid b x × (x.id ≡ s)
IsValid-of_from_string b s {x} h =
    let (prefixed, found) = from_string-inv b s h in
    let (j, loop, behind) = found in
    let (past, valid, made) = from_string_at-eq-ok b s j behind in
    let r = Ends-of_trust_domain_end b (drop 9 s) 9 loop in
    let text : s ≡ scheme_prefix ++ (r.name ++ r.rest) =
      eq-append_of_has_prefix s scheme_prefix prefixed ∙ ap (◌++◌ scheme_prefix) r.splits in
    let cut : drop j s ≡ r.rest = rw (text, r.index) (drop_name r.name r.rest) in
    (
      record {
        name = r.name;
        rest = r.rest;
        id_is = rw made text;
        pathidx_is = rw made r.index;
        name_valid = record {
          ne_empty = name-ne-empty r.name (rw r.index at past);
          chars = r.chars;
        };
        path_valid = rw cut at valid;
      },
      rw made,
    )

-- For each build, `FromString` returns an ID if and only if the ID is valid (its text is
-- "spiffe://", a non-empty name of trust domain characters and a path that `ValidatePath` accepts,
-- and its index points behind the name) and has the given text.
pub from_string_iff :
    (b : Build) (s : Bytes) (x : SpiffeId) → (from_string b s ≡ ok x) ↔ (IsValid b x × (x.id ≡ s))
from_string_iff b s x = (IsValid-of_from_string b s, λ h. rw (← h.1) (from_string-IsValid b h.0))
