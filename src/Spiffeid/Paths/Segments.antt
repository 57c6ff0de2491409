-- ===== src/Spiffeid/Paths/Segments.antt =====
-- Which paths `ValidatePath` accepts: those that `JoinPathSegments` makes.
use go_spiffe.Prelude.{
  ◌==◌, if◌then◌else◌, ==_iff, Bool-cases, &&-eq-true, length, all, All, length-append, all-append,
  Result, ok, err, ◌>>◌, >>-eq-ok, Bytes, bytes_eq, slice, slice-append, ℕ, ◌+◌, ◌≡◌, refl, sym, ap,
  ◌∙◌, ◌↔◌, inl, inr, true, not, List, [], ◌∷◌, ◌++◌, append-nil, append_assoc, arith,
}
use go_spiffe.Spiffeid.Charset.{
  Error, bad_path_segment_char, empty_segment, trailing_slash, Build, is_valid_path_segment_char,
  path_char-ne-slash,
}
use go_spiffe.Spiffeid.Paths.{
  slash, check_segment, validate_path_loop, validate_path, validate_chars, validate_path_segment,
  join_loop, join_path_segments,
}

-- A conformant segment.
abbrev pub IsSegment : Build → Bytes → Type 0
IsSegment b s = validate_path_segment b s ≡ ok tt

-- The path of a list of segments, with no builder.
abbrev pub joined : List Bytes → Bytes
joined [] = []
joined (s ∷ ss) = b'/' ∷ (s ++ joined ss)

pub validate_chars_iff :
    (b : Build) (s : Bytes)
    → (validate_chars b s ≡ ok tt) ↔ (all (is_valid_path_segment_char b) s ≡ true)
unfolding validate_chars
validate_chars_iff b [] = ground arith
validate_chars_iff b (c ∷ s) = ground (arith, validate_chars_iff b s)

-- The loop with the slice in the place of its two indices.
scan : Build → Bytes → Bytes → Result Error (Unit {0})
scan b seg [] = check_segment trailing_slash seg
scan b seg (c ∷ rest) =
    let next = scan b (c ∷ []) rest in
    let same = scan b (seg ++ c ∷ []) rest in
    if c == b'/'
    then (check_segment empty_segment seg >> next)
    else if not (is_valid_path_segment_char b c)
    then err bad_path_segment_char
    else same

loop-eq-scan :
    (b : Build) (pre seg rest path : Bytes) (i j : ℕ)
    → path ≡ pre ++ (seg ++ rest)
    → i ≡ length pre
    → j ≡ length pre + length seg
    → validate_path_loop b path i j rest ≡ scan b seg rest
unfolding validate_path_loop scan
loop-eq-scan b pre seg [] path i j e ei ej = rw (e, ei, ej) (rw (slice-append pre seg []))
loop-eq-scan b pre seg (c ∷ rest) path i j e ei ej =
    let next =
      loop-eq-scan b (pre ++ seg) (c ∷ []) rest path j (j + 1)
        (e ∙ sym (append_assoc pre seg (c ∷ rest))) (omega (arith, length-append pre seg))
        (omega (arith, length-append pre seg)) in
    let same =
      loop-eq-scan b pre (seg ++ c ∷ []) rest path i (j + 1)
        (e ∙ ap (◌++◌ pre) (sym (append_assoc seg (c ∷ []) rest))) ei
        (omega (arith, length-append seg (c ∷ []))) in
    let cut : slice path i j ≡ seg = rw (e, ei, ej) (slice-append pre seg (c ∷ rest)) in
    rw (cut, next, same)

-- The switch lets a segment pass exactly when it is neither empty nor dots.
check_segment-of_IsSegment :
    (b : Build) (e : Error) (s : Bytes) → IsSegment b s → check_segment e (b'/' ∷ s) ≡ ok tt
unfolding check_segment validate_path_segment bytes_eq
check_segment-of_IsSegment b e [] h = cc
check_segment-of_IsSegment b e (c ∷ s) h = ground arith

IsSegment-of_check_segment :
    (b : Build) (e : Error) (s : Bytes)
    → check_segment e (b'/' ∷ s) ≡ ok tt
    → all (is_valid_path_segment_char b) s ≡ true
    → IsSegment b s
unfolding check_segment validate_path_segment bytes_eq
IsSegment-of_check_segment b e [] h v = cc
IsSegment-of_check_segment b e (c ∷ s) h v = ground (arith, validate_chars_iff b (c ∷ s))

pub IsSegment-chars :
    (b : Build) (s : Bytes) → IsSegment b s → all (is_valid_path_segment_char b) s ≡ true
unfolding validate_path_segment
IsSegment-chars b s h = ground (arith, validate_chars_iff b s)

scan-chars :
    (b : Build) (t seg rest : Bytes)
    → all (is_valid_path_segment_char b) t ≡ true
    → scan b seg (t ++ rest) ≡ scan b (seg ++ t) rest
unfolding scan
scan-chars b [] seg rest h = rw append-nil
scan-chars b (c ∷ t) seg rest h =
    let (v, vs) =
      &&-eq-true (is_valid_path_segment_char b c) (all (is_valid_path_segment_char b) t) h in
    rw (path_char-ne-slash b c v, v) (scan-chars b t (seg ++ c ∷ []) rest vs ∙ rw append_assoc)

scan-joined :
    (b : Build) (s : Bytes) (ss : List Bytes)
    → IsSegment b s
    → All (IsSegment b) ss
    → scan b slash (s ++ joined ss) ≡ ok tt
unfolding scan
scan-joined b s [] h hs =
    scan-chars b s slash [] (IsSegment-chars b s h)
    ∙ check_segment-of_IsSegment b trailing_slash s h
scan-joined b s (t ∷ ts) h hs =
    scan-chars b s slash (joined (t ∷ ts)) (IsSegment-chars b s h)
    ∙ rw (check_segment-of_IsSegment b empty_segment s h) (scan-joined b t ts hs.0 hs.1)

-- A list of conformant segments that a text joins.
abbrev pub Segmented : Build → Bytes → Type 0
Segmented b p = (ss : List Bytes) × (p ≡ joined ss) × All (IsSegment b) ss

Segmented-of_scan :
    (b : Build) (rest s : Bytes)
    → all (is_valid_path_segment_char b) s ≡ true
    → scan b (b'/' ∷ s) rest ≡ ok tt
    → Segmented b (b'/' ∷ (s ++ rest))
unfolding scan
Segmented-of_scan b [] s v h =
    (s ∷ [], refl, (IsSegment-of_check_segment b trailing_slash s h v, tt))
Segmented-of_scan b (c ∷ rest) s v h = elim (Bool-cases (c == b'/')) [
  | inl e ↦
      let c_is : c ≡ b'/' = (==_iff c b'/').0 e in
      let (here, later) =
        >>-eq-ok (check_segment empty_segment (b'/' ∷ s)) (scan b (c ∷ []) rest) (rw e at h) in
      let (ss, joins, valid) = Segmented-of_scan b rest [] refl (rw c_is at later) in
      (
        s ∷ ss,
        ap (λ t. b'/' ∷ (s ++ t)) (rw c_is joins),
        (IsSegment-of_check_segment b empty_segment s here v, valid),
      )
  | inr e ↦ elim (Bool-cases (is_valid_path_segment_char b c)) [
    | inl ok_char ↦
        let (ss, joins, valid) =
          Segmented-of_scan b rest (s ++ c ∷ [])
            (ground (arith, all-append (is_valid_path_segment_char b) s (c ∷ [])))
            (rw (e, ok_char) at h) in
        (ss, ap (◌∷◌ b'/') (sym (append_assoc s (c ∷ []) rest)) ∙ joins, valid)
    | inr bad_char ↦ absurd (let k = rw (e, bad_char) at h in cc)
  ]
]

-- The first round of the loop: the leading slash.
validate_path-slash : (b : Build) (rest : Bytes) → validate_path b (b'/' ∷ rest) ≡ scan b slash rest
unfolding validate_path check_segment bytes_eq
validate_path-slash b rest = loop-eq-scan b [] slash rest (b'/' ∷ rest) 0 1 refl refl refl

pub Segmented-of_validate_path : (b : Build) (p : Bytes) → validate_path b p ≡ ok tt → Segmented b p
Segmented-of_validate_path b [] h = ([], refl, tt)
Segmented-of_validate_path b (c ∷ rest) h = elim (Bool-cases (c == b'/')) [
  | inl e ↦
      let c_is : c ≡ b'/' = (==_iff c b'/').0 e in
      rw c_is (Segmented-of_scan b rest [] refl (sym (validate_path-slash b rest) ∙ (rw c_is at h)))
  | inr e ↦ absurd (unfold validate_path in let k = rw e at h in cc)
]

pub validate_path-joined :
    (b : Build) (ss : List Bytes) → All (IsSegment b) ss → validate_path b (joined ss) ≡ ok tt
validate_path-joined b [] hs = unfold validate_path in refl
validate_path-joined b (s ∷ ss) hs =
    validate_path-slash b (s ++ joined ss) ∙ scan-joined b s ss hs.0 hs.1

join_loop-eq-ok :
    (b : Build) (ss : List Bytes) (out : Bytes)
    → All (IsSegment b) ss
    → join_loop b out ss ≡ ok (out ++ joined ss)
unfolding join_loop
join_loop-eq-ok b [] out hs = rw append-nil
join_loop-eq-ok b (s ∷ ss) out hs = rw hs.0 (
    join_loop-eq-ok b ss ((out ++ slash) ++ s) hs.1
    ∙ ap ok (append_assoc (out ++ slash) s (joined ss) ∙ append_assoc out slash (s ++ joined ss)))

join_loop-All :
    (b : Build) (ss : List Bytes) (out : Bytes) {p : Bytes}
    → join_loop b out ss ≡ ok p
    → All (IsSegment b) ss
unfolding join_loop
join_loop-All b [] out h = tt
join_loop-All b (s ∷ ss) out h =
    let (here, later) =
      >>-eq-ok (validate_path_segment b s) (join_loop b ((out ++ slash) ++ s) ss) h in
    (here, join_loop-All b ss ((out ++ slash) ++ s) later)

-- `JoinPathSegments` succeeds exactly on conformant segments, and then with their path.
pub join_path_segments_iff :
    (b : Build) (ss : List Bytes) (p : Bytes)
    → (join_path_segments b ss ≡ ok p) ↔ (All (IsSegment b) ss × (p ≡ joined ss))
unfolding join_path_segments
join_path_segments_iff b ss p = (
  λ h. let hs = join_loop-All b ss [] h in (hs, (let k = sym h ∙ join_loop-eq-ok b ss [] hs in cc)),
  λ h. join_loop-eq-ok b ss [] h.0 ∙ ap ok (sym h.1),
)

-- `ValidatePath` accepts exactly the texts that `JoinPathSegments` returns for some list of
-- segments.
pub validate_path_iff_join :
    (b : Build) (p : Bytes)
    → (validate_path b p ≡ ok tt) ↔ ((ss : List Bytes) × (join_path_segments b ss ≡ ok p))
validate_path_iff_join b p = (
  λ h.
      let (ss, e, hs) = Segmented-of_validate_path b p h in
      (ss, (join_path_segments_iff b ss p).1 (hs, e)),
  λ h. let (hs, e) = (join_path_segments_iff b h.0 p).0 h.1 in rw e (validate_path-joined b h.0 hs),
)

-- What `JoinPathSegments` returns, `ValidatePath` accepts.
pub validate_path-join_path_segments :
    (b : Build) (ss : List Bytes) {p : Bytes}
    → join_path_segments b ss ≡ ok p
    → validate_path b p ≡ ok tt
validate_path-join_path_segments b ss {p} h = (validate_path_iff_join b p).1 (ss, h)

joined-append : (ss ts : List Bytes) → joined (ss ++ ts) ≡ joined ss ++ joined ts
joined-append [] ts = refl
joined-append (s ∷ ss) ts =
    ap (λ r. b'/' ∷ (s ++ r)) (joined-append ss ts)
    ∙ ap (◌∷◌ b'/') (sym (append_assoc s (joined ss) (joined ts)))

All-append :
    (b : Build) (ss ts : List Bytes)
    → All (IsSegment b) ss
    → All (IsSegment b) ts
    → All (IsSegment b) (ss ++ ts)
All-append b [] ts hs ht = ht
All-append b (s ∷ ss) ts hs ht = (hs.0, All-append b ss ts hs.1 ht)

-- A path behind a path is a path.
pub validate_path-append :
    (b : Build) (p q : Bytes)
    → validate_path b p ≡ ok tt
    → validate_path b q ≡ ok tt
    → validate_path b (p ++ q) ≡ ok tt
validate_path-append b p q hp hq =
    let (ss, es, hs) = Segmented-of_validate_path b p hp in
    let (ts, et, ht) = Segmented-of_validate_path b q hq in
    rw (es, et)
      (rw (← joined-append ss ts) (validate_path-joined b (ss ++ ts) (All-append b ss ts hs ht)))
