-- ===== src/Spiffeid/Identifier/Edit.antt =====
-- IDs built from parts and edited: `FromPath`, `AppendPath`, `ReplacePath` and their relatives.
use go_spiffe.Prelude.{
  slice-append, is_empty, ==_iff, Bool-cases, length, All, ok, ◌>>◌, >>-eq-ok, Result-cases, Bytes,
  bytes_eq, bytes_eq_iff, ◌+◌, ◌≡◌, refl, sym, ap, ◌∙◌, inl, inr, List, ◌++◌, append_assoc,
  ok-injective,
}
use go_spiffe.Spiffeid.Charset.{Build}
use go_spiffe.Spiffeid.Paths.{validate_path, join_path_segments}
use go_spiffe.Spiffeid.Paths.Segments.{
  IsSegment, joined, validate_path-append, validate_path-join_path_segments, join_path_segments_iff,
}
use go_spiffe.Spiffeid.Identifier.{
  is_zero_trust_domain, scheme_prefix, scheme_prefix_len, TrustDomain, SpiffeId, id_eq, make_id,
  from_path, from_segments, from_string, trust_domain, path, append_path, append_segments,
  replace_path, replace_segments,
}
use go_spiffe.Spiffeid.Identifier.Valid.{
  IsName, IsValid, IsValidTrustDomain, is_zero-IsValid, trust_domain-IsValid, path-IsValid,
  from_string-IsValid,
}

-- `y` is a valid ID of that trust domain and path.
pub record HasParts (b : Build) (td : TrustDomain) (p : Bytes) (y : SpiffeId) : Type 0 where
  pub valid : IsValid b y
  pub trust_domain_is : trust_domain y ≡ td
  pub path_is : path y ≡ p

abbrev pub made : TrustDomain → Bytes → SpiffeId
made td p = record {
  id = (scheme_prefix ++ td.name) ++ p;
  pathidx = scheme_prefix_len + length td.name;
}

pub make_id-eq-ok :
    (b : Build) (td : TrustDomain) (p : Bytes) → IsName b td.name → make_id td p ≡ ok (made td p)
unfolding make_id
make_id-eq-ok b td p n = rw n.ne_empty

made-IsValid :
    (b : Build) (td : TrustDomain) (p : Bytes)
    → IsName b td.name
    → validate_path b p ≡ ok tt
    → IsValid b (made td p)
made-IsValid b td p n h = record {
  name = td.name;
  rest = p;
  id_is = append_assoc scheme_prefix td.name p;
  pathidx_is = refl;
  name_valid = n;
  path_valid = h;
}

pub make_id-HasParts :
    (b : Build) (td : TrustDomain) (p : Bytes) {y : SpiffeId}
    → IsName b td.name
    → validate_path b p ≡ ok tt
    → make_id td p ≡ ok y
    → HasParts b td p y
unfolding made-IsValid
make_id-HasParts b td p n h e =
    let y_is = ok-injective (sym (make_id-eq-ok b td p n) ∙ e) in
    rw (← y_is) (
      let v = made-IsValid b td p n h in
      record { valid = v; trust_domain_is = trust_domain-IsValid b v; path_is = path-IsValid b v })

-- Whatever the trust domain's name, `makeID` keeps it.
pub trust_domain-make_id :
    (td : TrustDomain) (p : Bytes) {y : SpiffeId} → make_id td p ≡ ok y → trust_domain y ≡ td
unfolding make_id is_zero_trust_domain trust_domain
trust_domain-make_id td p e = elim (Bool-cases (is_empty td.name)) [
  | inl z ↦ absurd (let k = rw z at e in cc)
  | inr z ↦
      rw (← ok-injective (rw z at e))
        (ap (λ n. record { name = n }) (slice-append scheme_prefix td.name p))
]

pub trust_domain-from_path :
    (b : Build) (td : TrustDomain) (p : Bytes) {y : SpiffeId}
    → from_path b td p ≡ ok y
    → trust_domain y ≡ td
unfolding from_path
trust_domain-from_path b td p e =
    trust_domain-make_id td p (>>-eq-ok (validate_path b p) (make_id td p) e).1

-- The ID that `FromPath` returns for a conformant trust domain is valid, and its trust domain and
-- path are the given ones.
pub from_path-HasParts :
    (b : Build) (td : TrustDomain) (p : Bytes) {y : SpiffeId}
    → IsValidTrustDomain b td
    → from_path b td p ≡ ok y
    → HasParts b td p y
unfolding from_path
from_path-HasParts b td p t e =
    let (valid, makes) = >>-eq-ok (validate_path b p) (make_id td p) e in
    make_id-HasParts b td p t.name_valid valid makes

-- `FromPath` on the trust domain and the path of a valid ID succeeds, and returns the ID.
pub from_path-trust_domain-path :
    (b : Build) {x : SpiffeId} → IsValid b x → from_path b (trust_domain x) (path x) ≡ ok x
unfolding from_path
from_path-trust_domain-path b {x} v =
    rw (trust_domain-IsValid b v, path-IsValid b v, v.path_valid)
      (make_id-eq-ok b (record { name = v.name }) v.rest v.name_valid
        ∙ ap ok (λ i. record {
          id = (append_assoc scheme_prefix v.name v.rest ∙ sym v.id_is) i;
          pathidx = (sym v.pathidx_is) i;
        }))

-- On segments, `FromSegments` does what `FromPath` does on their path.
pub from_segments-eq-from_path :
    (b : Build) (td : TrustDomain) (ss : List Bytes) {p : Bytes}
    → join_path_segments b ss ≡ ok p
    → from_segments b td ss ≡ from_path b td p
unfolding from_segments from_path
from_segments-eq-from_path b td ss h = rw (h, validate_path-join_path_segments b ss h)

-- Two valid IDs are equal with `==` if and only if their texts are.
pub id_eq-IsValid :
    (b : Build) (x y : SpiffeId) → IsValid b x → IsValid b y → id_eq x y ≡ bytes_eq x.id y.id
unfolding id_eq
id_eq-IsValid b x y vx vy = elim (Bool-cases (bytes_eq x.id y.id)) [
  | inl e ↦
      let same : x ≡ y = ok-injective (
        sym (from_string-IsValid b vx)
        ∙ ap (from_string b) ((bytes_eq_iff x.id y.id).0 e)
        ∙ from_string-IsValid b vy) in
      rw e ((==_iff x.pathidx y.pathidx).1 (ap (λ (z : SpiffeId). z.pathidx) same))
  | inr e ↦ rw e
]

-- On a valid ID `AppendPath` checks the new part as a path of its own, with the error of that
-- check, and then is `FromPath` in the ID's trust domain on the longer path.
pub append_path-eq-from_path :
    (b : Build) {x : SpiffeId} (p : Bytes)
    → IsValid b x
    → append_path b x p ≡ (validate_path b p >> from_path b (trust_domain x) (path x ++ p))
unfolding append_path from_path
append_path-eq-from_path b {x} p v = elim (Result-cases (validate_path b p)) [
  | inl (_, e) ↦
      let valid : validate_path b p ≡ ok tt = e in
      let text : x.id ++ p ≡ (scheme_prefix ++ v.name) ++ (v.rest ++ p) =
        ap (λ t. t ++ p) v.id_is ∙ ap (◌++◌ scheme_prefix) (append_assoc v.name v.rest p) in
      let longer = validate_path-append b v.rest p v.path_valid valid in
      rw (is_zero-IsValid b v, valid, trust_domain-IsValid b v, path-IsValid b v, longer)
        (ap ok (λ i. record { id = text i; pathidx = v.pathidx_is i })
          ∙ sym (make_id-eq-ok b (record { name = v.name }) (v.rest ++ p) v.name_valid))
  | inr (e, h) ↦ rw (is_zero-IsValid b v, h)
]

pub trust_domain-IsValidTrustDomain :
    (b : Build) {x : SpiffeId} → IsValid b x → IsValidTrustDomain b (trust_domain x)
trust_domain-IsValidTrustDomain b v =
    rw (trust_domain-IsValid b v) (record { name_valid = v.name_valid })

-- If `AppendPath` on a valid ID succeeds, the result is valid, with the trust domain of the ID and
-- the path of the ID followed by the new part.
pub append_path-HasParts :
    (b : Build) {x y : SpiffeId} (p : Bytes)
    → IsValid b x
    → append_path b x p ≡ ok y
    → HasParts b (trust_domain x) (path x ++ p) y
append_path-HasParts b {x} p v h =
    let (_, makes) = >>-eq-ok (validate_path b p) _ (sym (append_path-eq-from_path b p v) ∙ h) in
    from_path-HasParts b (trust_domain x) (path x ++ p) (trust_domain-IsValidTrustDomain b v) makes

pub append_segments-eq-append_path :
    (b : Build) {x : SpiffeId} (ss : List Bytes) {p : Bytes}
    → IsValid b x
    → join_path_segments b ss ≡ ok p
    → append_segments b x ss ≡ append_path b x p
unfolding append_segments append_path
append_segments-eq-append_path b ss v h =
    rw (is_zero-IsValid b v, h, validate_path-join_path_segments b ss h)

-- If `AppendSegments` on a valid ID succeeds, every segment is conformant, and the result is valid,
-- with the trust domain of the ID and the path of the ID followed by the joined segments.
append_segments-HasParts :
    (b : Build) {x y : SpiffeId} (ss : List Bytes)
    → IsValid b x
    → append_segments b x ss ≡ ok y
    → All (IsSegment b) ss × HasParts b (trust_domain x) (path x ++ joined ss) y
append_segments-HasParts b {x} ss v h = elim (Result-cases (join_path_segments b ss)) [
  | inl (p, e) ↦
      let (segments, p_is) = (join_path_segments_iff b ss p).0 e in
      (
        segments,
        rw p_is at (append_path-HasParts b p v (sym (append_segments-eq-append_path b ss v e) ∙ h)),
      )
  | inr (e, k) ↦ absurd (unfold append_segments in let c = rw (is_zero-IsValid b v, k) at h in cc)
]

-- If `ReplacePath` on a valid ID succeeds, the result is valid, with the trust domain of the ID and
-- the new path.
replace_path-HasParts :
    (b : Build) {x y : SpiffeId} (p : Bytes)
    → IsValid b x
    → replace_path b x p ≡ ok y
    → HasParts b (trust_domain x) p y
replace_path-HasParts b {x} p v h =
    from_path-HasParts b (trust_domain x) p (trust_domain-IsValidTrustDomain b v)
      (unfold replace_path in rw (is_zero-IsValid b v) at h)

-- If `ReplaceSegments` on a valid ID succeeds, every segment is conformant, and the result is
-- valid, with the trust domain of the ID and the joined segments as its path.
replace_segments-HasParts :
    (b : Build) {x y : SpiffeId} (ss : List Bytes)
    → IsValid b x
    → replace_segments b x ss ≡ ok y
    → All (IsSegment b) ss × HasParts b (trust_domain x) (joined ss) y
replace_segments-HasParts b {x} {y} ss v h =
    let k : from_segments b (trust_domain x) ss ≡ ok y =
      unfold replace_segments in rw (is_zero-IsValid b v) at h in
    elim (Result-cases (join_path_segments b ss)) [
      | inl (p, e) ↦
          let (segments, p_is) = (join_path_segments_iff b ss p).0 e in
          (
            segments,
            rw p_is at (
                from_path-HasParts b (trust_domain x) p (trust_domain-IsValidTrustDomain b v)
                  (sym (from_segments-eq-from_path b (trust_domain x) ss e) ∙ k)),
          )
      | inr (e, f) ↦ absurd (unfold from_segments in let c = rw f at k in cc)
    ]
