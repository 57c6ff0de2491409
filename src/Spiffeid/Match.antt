-- ===== src/Spiffeid/Match.antt =====
-- spiffeid/match.go. The set of `MatchOneOf` is a map from IDs to nothing: a list of IDs here.
use go_spiffe.Prelude.{
  ◌↔◌, refl, arith, inl, inr, Bool-cases, if◌then◌else◌, Result, ok, err, ◌≡◌, Bool, true, false,
  not, ◌||◌, List, [], ◌∷◌,
}
use mathlib.Core.Logic.Or
use mathlib.Core.List.{Mem, mem-cons, not-mem-nil}
use go_spiffe.Spiffeid.Charset.{Build}
use go_spiffe.Spiffeid.Identifier.Equal.{id_eq_iff, trust_domain_eq_iff}
use go_spiffe.Spiffeid.Identifier.Valid.{IsValid}
use go_spiffe.Spiffeid.Identifier.Edit.{trust_domain-from_path, from_path-trust_domain-path}
use go_spiffe.Spiffeid.Identifier.{
  from_path, path, TrustDomain, SpiffeId, id_eq, trust_domain, trust_domain_eq, member_of,
}

-- the `fmt.Errorf` values, with what they print
pub data MatchError : Type 0 where
  unexpected_id : SpiffeId → MatchError
  unexpected_trust_domain : TrustDomain → MatchError

abbrev pub Matcher : Type 0
Matcher = SpiffeId → Result MatchError (Unit {0})

unfoldable pub match_any : Matcher
match_any actual = ok tt

unfoldable pub match_id : SpiffeId → Matcher
match_id expected actual = if not (id_eq actual expected) then err (unexpected_id actual) else ok tt

-- `_, ok := set[actual]`
unfoldable pub in_set : SpiffeId → List SpiffeId → Bool
in_set actual [] = false
in_set actual (x ∷ xs) = id_eq actual x || in_set actual xs

unfoldable pub match_one_of : List SpiffeId → Matcher
unfolding in_set
match_one_of expected actual =
    if not (in_set actual expected) then err (unexpected_id actual) else ok tt

unfoldable pub match_member_of : TrustDomain → Matcher
match_member_of expected actual =
    if not (member_of actual expected)
    then err (unexpected_trust_domain (trust_domain actual))
    else ok tt

in_set_iff : (x : SpiffeId) (xs : List SpiffeId) → (in_set x xs ≡ true) ↔ Mem x xs
unfolding in_set
in_set_iff x [] = (λ h. cc, λ m. absurd (not-mem-nil m))
in_set_iff x (y ∷ ys) = (
  λ h. elim (Bool-cases (id_eq x y)) [
    | inl e ↦ mem-cons.1 (Or.inl ((id_eq_iff x y).0 e))
    | inr e ↦ mem-cons.1 (Or.inr ((in_set_iff x ys).0 (rw e at h)))
  ],
  λ m.
      Or.elim (hlevel) (mem-cons.0 m) (λ e. rw ((id_eq_iff x y).1 e))
        (λ m'. let k = (in_set_iff x ys).1 m' in ground arith),
)

-- `MatchOneOf` accepts an ID if and only if it is in the list, and any other ID it refuses with an
-- error that names it.
match_one_of_iff :
    (ids : List SpiffeId) (x : SpiffeId)
    → ((match_one_of ids x ≡ ok tt) ↔ Mem x ids)
      × ((¬ Mem x ids) → match_one_of ids x ≡ err (unexpected_id x))
unfolding match_one_of
match_one_of_iff ids x = elim (Bool-cases (in_set x ids)) [
  | inl e ↦
      rw e ((λ _. (in_set_iff x ids).0 e, λ _. refl), λ n. absurd (n ((in_set_iff x ids).0 e)))
  | inr e ↦ rw e ((λ h. cc, λ m. absurd (let k = (in_set_iff x ids).1 m in cc)), λ _. refl)
]

-- `MatchID` accepts one ID, which is what `MatchOneOf` does with a list of one.
pub match_id-eq-match_one_of : (x y : SpiffeId) → match_id x y ≡ match_one_of (x ∷ []) y
unfolding match_id match_one_of
match_id-eq-match_one_of x y = ground arith

-- `MatchMemberOf` accepts a valid ID if and only if `FromPath` makes the ID of its path in the
-- expected trust domain.
match_member_of_iff :
    (b : Build) (td : TrustDomain) (x : SpiffeId)
    → IsValid b x
    → (match_member_of td x ≡ ok tt) ↔ (from_path b td (path x) ≡ ok x)
unfolding match_member_of member_of
match_member_of_iff b td x v = (
  λ h. elim (Bool-cases (trust_domain_eq (trust_domain x) td)) [
    | inl e ↦ rw (← (trust_domain_eq_iff (trust_domain x) td).0 e) (from_path-trust_domain-path b v)
    | inr e ↦ absurd (let k = rw e at h in cc)
  ],
  λ h. rw ((trust_domain_eq_iff (trust_domain x) td).1 (trust_domain-from_path b td (path x) h)),
)
