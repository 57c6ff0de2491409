-- ===== src/Workloadapi/Hints.antt =====
-- Which SVIDs of a response the loop keeps.
use go_spiffe.Prelude.{
  if◌then◌else◌, Bool-cases, take, Result, ok, err, ◌>>=◌, Bytes, bytes_eq, bytes_eq_iff, is_empty,
  ◌≡◌, refl, ap, ◌∙◌, inl, inr, Bool, true, false, not, ◌&&◌, ◌||◌, List, [], ◌∷◌, arith,
}
use go_spiffe.GoMap.{GoMap, has, put, bytes_key}
use go_spiffe.GoMap.Laws.{has-put}
use go_spiffe.Workloadapi.Message.{is_repeated, parse_messages, parse_svids}

-- The elements that do not meet a test.
module _ {A : Type 0} where
  abbrev pub without : (A → Bool) → List A → List A
  without p [] = []
  without p (x ∷ xs) = let rest = without p xs in if p x then rest else x ∷ rest

  without-ext :
      (p q : A → Bool) → ((x : A) → p x ≡ q x) → (xs : List A) → without p xs ≡ without q xs
  without-ext p q h [] = refl
  without-ext p q h (x ∷ xs) = rw (h x, without-ext p q h xs) refl

  without-without :
      (p q : A → Bool) (xs : List A) → without p (without q xs) ≡ without (λ x. q x || p x) xs
  without-without p q [] = refl
  without-without p q (x ∷ xs) = elim (Bool-cases (q x)) [
    | inl e ↦ rw e (without-without p q xs)
    | inr e ↦ rw (e, without-without p q xs) refl
  ]

  without-nothing : (p : A → Bool) → ((x : A) → p x ≡ false) → (xs : List A) → without p xs ≡ xs
  without-nothing p h [] = refl
  without-nothing p h (x ∷ xs) = rw (h x, without-nothing p h xs) refl

module _ {M S E : Type 0} (hint_of : M → Bytes) (parse_message : M → Result E S) where
  -- Has a message that hint, and is it not empty?
  abbrev pub has_hint : Bytes → M → Bool
  has_hint hint m = bytes_eq hint (hint_of m) && not (is_empty (hint_of m))

  -- The first message with each hint, and every message without one.
  unfoldable pub first_of_hints : List M → List M
  first_of_hints [] = []
  first_of_hints (m ∷ messages) = m ∷ without (has_hint (hint_of m)) (first_of_hints messages)

  -- All messages parsed in order, or the error of the first that cannot be parsed.
  unfoldable pub parse_all : List M → Result E (List S)
  parse_all [] = ok []
  parse_all (m ∷ messages) =
      let rest = parse_all messages in do svid ← parse_message m; svids ← rest; ok (svid ∷ svids)

  is_repeated-put :
      (hints : GoMap Bytes (Unit {0})) (m x : M)
      → (has_hint (hint_of m) x || is_repeated hint_of parse_message hints x)
        ≡ is_repeated hint_of parse_message (put (hint_of m) tt hints) x
  unfolding is_repeated
  is_repeated-put hints m x = rw (has-put (hint_of m) (hint_of x) tt hints) (ground arith)

  is_repeated-absorb :
      (hints : GoMap Bytes (Unit {0})) (m : M)
      → is_repeated hint_of parse_message hints m ≡ true
      → (x : M)
      → (has_hint (hint_of m) x || is_repeated hint_of parse_message hints x)
        ≡ is_repeated hint_of parse_message hints x
  unfolding is_repeated
  is_repeated-absorb hints m e x = elim (Bool-cases (bytes_eq (hint_of m) (hint_of x))) [
    | inl same ↦
        let hints_same = (bytes_eq_iff (hint_of m) (hint_of x)).0 same in
        let repeated = rw hints_same at e in rw (same, repeated) (ground arith)
    | inr differ ↦ rw differ refl
  ]

  without-repeated :
      (hints : GoMap Bytes (Unit {0})) (m : M) (messages : List M)
      → is_repeated hint_of parse_message hints m ≡ true
      → without (is_repeated hint_of parse_message hints) (without (has_hint (hint_of m)) messages)
        ≡ without (is_repeated hint_of parse_message hints) messages
  without-repeated hints m messages e =
      without-without (is_repeated hint_of parse_message hints) (has_hint (hint_of m)) messages
      ∙ without-ext _ _ (is_repeated-absorb hints m e) messages

  without-put :
      (hints : GoMap Bytes (Unit {0})) (m : M) (messages : List M)
      → without (is_repeated hint_of parse_message hints) (without (has_hint (hint_of m)) messages)
        ≡ without (is_repeated hint_of parse_message (put (hint_of m) tt hints)) messages
  without-put hints m messages =
      without-without (is_repeated hint_of parse_message hints) (has_hint (hint_of m)) messages
      ∙ without-ext _ _ (is_repeated-put hints m) messages

  parse_messages-eq :
      (hints : GoMap Bytes (Unit {0})) (messages : List M)
      → parse_messages hint_of parse_message hints messages
        ≡ parse_all (without (is_repeated hint_of parse_message hints) (first_of_hints messages))
  unfolding parse_messages first_of_hints parse_all
  parse_messages-eq hints [] = refl
  parse_messages-eq hints (m ∷ messages) =
      elim (Bool-cases (is_repeated hint_of parse_message hints m)) [
        | inl e ↦
            rw
              (
                e,
                parse_messages-eq hints messages,
                without-repeated hints m (first_of_hints messages) e,
              )
              refl
        | inr e ↦
            rw
              (
                e,
                parse_messages-eq (put (hint_of m) tt hints) messages,
                without-put hints m (first_of_hints messages),
              )
              refl
      ]

  -- The messages that are parsed: the first alone, or the first with each hint.
  abbrev pub selected : List M → Bool → List M
  selected messages true = take 1 messages
  selected messages false = first_of_hints messages

  -- The loop over the SVIDs of a response returns an error for a response without SVIDs, and
  -- otherwise parses in order the first message alone, if only that is asked for, or each message
  -- without a hint and the first message with each hint, up to the first error.
  pub parse_svids-eq-parse_all :
      (no_svids : E)
      → ((first_only : Bool)
          → parse_svids hint_of parse_message no_svids [] first_only ≡ err no_svids)
        × ((m : M) (messages : List M) (first_only : Bool)
            → parse_svids hint_of parse_message no_svids (m ∷ messages) first_only
              ≡ parse_all (selected (m ∷ messages) first_only))
  unfolding parse_svids is_repeated has first_of_hints
  parse_svids-eq-parse_all no_svids = (λ first_only. refl, cons)
    where
      not_repeated : (x : M) → is_repeated hint_of parse_message [] x ≡ false
      not_repeated x = refl

      cons :
          (m : M) (messages : List M) (first_only : Bool)
          → parse_svids hint_of parse_message no_svids (m ∷ messages) first_only
            ≡ parse_all (selected (m ∷ messages) first_only)
      cons m messages true =
          parse_messages-eq [] (m ∷ []) ∙ ap parse_all (without-nothing _ not_repeated _)
      cons m messages false =
          parse_messages-eq [] (m ∷ messages) ∙ ap parse_all (without-nothing _ not_repeated _)
