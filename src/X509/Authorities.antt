-- ===== src/X509/Authorities.antt =====
-- Lists of certificates as the packages x509bundle and spiffebundle keep them.
use go_spiffe.Prelude.{
  ltb, ◌==◌, if◌then◌else◌, ==_iff, Bool-cases, eq_of_iff_true, length, Bytes, bytes_eq,
  bytes_eq_iff, ℕ, suc, ◌+◌, ◌-◌, ◌≤◌, ◌≡◌, refl, sym, ap, ◌∙◌, ◌↔◌, inl, inr, true, not, ◌&&◌,
  ◌||◌, List, [], ◌∷◌, ◌++◌, append-nil, append_assoc, arith,
}
use go_spiffe.X509.{
  concat_loop, certs_loop, raw_certs_from_certs, certs_equal, has_authority, add_authority,
  remove_authority, copy_x509_authorities, Certificate, equal,
}

pub copy_x509_authorities-eq : (certs : List Certificate) → copy_x509_authorities certs ≡ certs
unfolding copy_x509_authorities
copy_x509_authorities-eq [] = refl
copy_x509_authorities-eq (cert ∷ certs) = ap (◌∷◌ cert) (copy_x509_authorities-eq certs)

-- How many of the certificates equal a given one.
abbrev pub count : Certificate → List Certificate → ℕ
count cert [] = 0
count cert (r ∷ rs) = (if equal r cert then 1 else 0) + count cert rs

-- No certificate twice.
abbrev pub IsDistinct : List Certificate → Type 0
IsDistinct certs = (cert : Certificate) → count cert certs ≤ 1

equal_laws : (a b c : Certificate) → equal a b ≡ true → equal a c ≡ equal b c
unfolding equal
equal_laws a b c h = rw ((bytes_eq_iff a.raw b.raw).0 h)

pub equal_refl : (a : Certificate) → equal a a ≡ true
unfolding equal
equal_refl a = (bytes_eq_iff a.raw a.raw).1 refl

pub equal_sym : (a b : Certificate) → equal a b ≡ equal b a
unfolding equal
equal_sym a b = eq_of_iff_true (bytes_eq a.raw b.raw) (bytes_eq b.raw a.raw) (
  λ h. (bytes_eq_iff b.raw a.raw).1 (sym ((bytes_eq_iff a.raw b.raw).0 h)),
  λ h. (bytes_eq_iff a.raw b.raw).1 (sym ((bytes_eq_iff b.raw a.raw).0 h)),
)

pub has_authority-count :
    (cert : Certificate) (rs : List Certificate) → has_authority cert rs ≡ ltb 0 (count cert rs)
unfolding has_authority
has_authority-count cert [] = refl
has_authority-count cert (r ∷ rs) = ground (arith, has_authority-count cert rs)

pub count-append :
    (cert : Certificate) (xs ys : List Certificate)
    → count cert (xs ++ ys) ≡ count cert xs + count cert ys
count-append cert [] ys = omega arith
count-append cert (x ∷ xs) ys = omega (arith, count-append cert xs ys)

count-equal :
    (a b : Certificate) (rs : List Certificate) → equal a b ≡ true → count a rs ≡ count b rs
count-equal a b [] h = refl
count-equal a b (r ∷ rs) h =
    ground (arith, count-equal a b rs h, equal_laws a b r h, equal_sym r a, equal_sym r b)

-- Adding changes the number of one certificate, from zero to one.
pub count-add_authority :
    (cert j : Certificate) (rs : List Certificate)
    → count j (add_authority cert rs)
      ≡ (if equal cert j && not (has_authority cert rs) then count j rs + 1 else count j rs)
unfolding add_authority
count-add_authority cert j rs = ground (arith, count-append j rs (cert ∷ []))

-- Removing takes one away, if there is one.
pub count-remove_authority :
    (cert j : Certificate) (rs : List Certificate)
    → count j (remove_authority cert rs) ≡ (if equal cert j then count j rs - 1 else count j rs)
unfolding remove_authority
count-remove_authority cert j [] = ground arith
count-remove_authority cert j (r ∷ rs) = elim (Bool-cases (equal r cert)) [
  | inl e ↦ rw (e, equal_laws r cert j e) (ground arith)
  | inr e ↦ ground (
    arith,
    e,
    count-remove_authority cert j rs,
    equal_laws cert j r,
    equal_sym cert r,
    equal_sym j r,
  )
]

pub IsDistinct-add_authority :
    (cert : Certificate) (rs : List Certificate)
    → IsDistinct rs
    → IsDistinct (add_authority cert rs)
IsDistinct-add_authority cert rs h j =
    ground (
      arith,
      h j,
      count-add_authority cert j rs,
      has_authority-count cert rs,
      count-equal cert j rs,
    )

pub IsDistinct-remove_authority :
    (cert : Certificate) (rs : List Certificate)
    → IsDistinct rs
    → IsDistinct (remove_authority cert rs)
IsDistinct-remove_authority cert rs h j = ground (arith, h j, count-remove_authority cert j rs)

pub has-add_authority :
    (cert j : Certificate) (rs : List Certificate)
    → has_authority j (add_authority cert rs) ≡ (equal cert j || has_authority j rs)
has-add_authority cert j rs = ground (
  arith,
  has_authority-count j (add_authority cert rs),
  has_authority-count j rs,
  has_authority-count cert rs,
  count-add_authority cert j rs,
  count-equal cert j rs,
)

pub has-remove_authority :
    (cert j : Certificate) (rs : List Certificate)
    → IsDistinct rs
    → has_authority j (remove_authority cert rs) ≡ (not (equal cert j) && has_authority j rs)
has-remove_authority cert j rs h = ground (
  arith,
  has_authority-count j (remove_authority cert rs),
  has_authority-count j rs,
  count-remove_authority cert j rs,
  h j,
)

raw-of_certs_loop :
    (a b : List Certificate)
    → length a ≡ length b
    → certs_loop a b ≡ true
    → raw_certs_from_certs a ≡ raw_certs_from_certs b
unfolding certs_loop raw_certs_from_certs equal
raw-of_certs_loop [] [] e h = refl
raw-of_certs_loop [] (y ∷ b) e h = absurd (omega arith)
raw-of_certs_loop (x ∷ a) [] e h = absurd (omega arith)
raw-of_certs_loop (x ∷ a) (y ∷ b) e h =
    ground (arith, bytes_eq_iff x.raw y.raw, raw-of_certs_loop a b)

certs_loop-of_raw :
    (a b : List Certificate)
    → raw_certs_from_certs a ≡ raw_certs_from_certs b
    → (length a ≡ length b) × (certs_loop a b ≡ true)
unfolding certs_loop raw_certs_from_certs equal
certs_loop-of_raw [] [] h = (refl, refl)
certs_loop-of_raw [] (y ∷ b) h = absurd (cc)
certs_loop-of_raw (x ∷ a) [] h = absurd (cc)
certs_loop-of_raw (x ∷ a) (y ∷ b) h =
    let (same_length, loop) = certs_loop-of_raw a b cc in
    (ap suc same_length, rw ((bytes_eq_iff x.raw y.raw).1 (cc), loop))

-- `CertsEqual` holds of two lists exactly when they have the same raw certificates, in one order.
pub certs_equal_iff :
    (a b : List Certificate)
    → (certs_equal a b ≡ true) ↔ (raw_certs_from_certs a ≡ raw_certs_from_certs b)
unfolding certs_equal
certs_equal_iff a b = (
  λ h. elim (Bool-cases (length a == length b)) [
    | inl e ↦ raw-of_certs_loop a b ((==_iff (length a) (length b)).0 e) (ground arith)
    | inr e ↦ absurd (ground arith)
  ],
  λ h.
      let (same_length, loop) = certs_loop-of_raw a b h in
      rw ((==_iff (length a) (length b)).1 same_length, loop),
)

concat_loop-append :
    (certs : List Certificate) (out : Bytes) → concat_loop out certs ≡ out ++ concat_loop [] certs
unfolding concat_loop
concat_loop-append [] out = sym (append-nil out)
concat_loop-append (c ∷ certs) out =
    concat_loop-append certs (out ++ c.raw)
    ∙ append_assoc out c.raw (concat_loop [] certs)
    ∙ ap (◌++◌ out) (sym (concat_loop-append certs c.raw))
