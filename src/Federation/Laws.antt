-- ===== src/Federation/Laws.antt =====
-- What a watch reports.
use go_spiffe.Prelude.{
  Bool-cases, Result, ok, err, ◌≡◌, refl, ap, ◌∙◌, inl, inr, true, false, some, List, [], ◌∷◌, ◌++◌,
  if◌then◌else◌, append-nil, sym,
}
use go_spiffe.Bundle.Spiffe
use go_spiffe.Federation.Watch.{
  Turn, Ended, watcher_cannot_be_nil, Wait, Call, on_error, on_update, next_refresh, timer_fired,
  context_done, empty_bundle, take_over, hint_of, end_turn, watch_loop, watch_bundle,
}

-- the bundles of the updates
abbrev pub updated : {E : Type 0} → List (Call E) → List Spiffe.Bundle
updated [] = []
updated (on_update b ∷ calls) = b ∷ updated calls
updated (on_error e ∷ calls) = updated calls
updated (next_refresh hint ∷ calls) = updated calls

-- Each bundle differs, in the sense of `Equal`, from the one before it.
abbrev pub IsChanging : Spiffe.Bundle → List Spiffe.Bundle → Type 0
IsChanging latest [] = Unit
IsChanging latest (b ∷ bs) = (Spiffe.equal_bundle (some latest) (some b) ≡ false) × IsChanging b bs

-- the last bundle of a list, or the one before it
abbrev pub last_of : Spiffe.Bundle → List Spiffe.Bundle → Spiffe.Bundle
last_of latest [] = latest
last_of latest (b ∷ bs) = last_of b bs

IsChanging-append :
    (before : Spiffe.Bundle) (xs ys : List Spiffe.Bundle)
    → IsChanging before xs
    → IsChanging (last_of before xs) ys
    → IsChanging before (xs ++ ys) × (last_of before (xs ++ ys) ≡ last_of (last_of before xs) ys)
IsChanging-append before [] ys h k = (k, refl)
IsChanging-append before (x ∷ xs) ys (h, hs) k =
    let (later, last) = IsChanging-append x xs ys hs k in ((h, later), last)

-- the bundles that differ from the one before them
abbrev pub changes : Spiffe.Bundle → List Spiffe.Bundle → List Spiffe.Bundle
changes latest [] = []
changes latest (b ∷ bs) =
    let same = changes latest bs in
    let changed = changes b bs in
    if Spiffe.equal_bundle (some latest) (some b) then same else b ∷ changed

abbrev pub bundle_of : {E : Type 0} → Result E Spiffe.Bundle → List Spiffe.Bundle
bundle_of (err e) = []
bundle_of (ok bundle) = bundle ∷ []

-- what is left after a wait
abbrev pub if_goes_on : Wait → List Spiffe.Bundle → List Spiffe.Bundle
if_goes_on context_done later = []
if_goes_on timer_fired later = later

-- the bundles that are fetched until the context is canceled or done
abbrev pub reached : {E : Type 0} → List (Turn E) → List Spiffe.Bundle
reached [] = []
reached (turn ∷ turns) =
    let later = reached turns in
    if turn.canceled then [] else bundle_of turn.fetched ++ if_goes_on turn.wait later

module _ {E : Type 0} where
  updated-append : (xs ys : List (Call E)) → updated (xs ++ ys) ≡ updated xs ++ updated ys
  updated-append [] ys = refl
  updated-append (on_update b ∷ xs) ys = ap (λ l. b ∷ l) (updated-append xs ys)
  updated-append (on_error e ∷ xs) ys = updated-append xs ys
  updated-append (next_refresh hint ∷ xs) ys = updated-append xs ys

  -- The updates of some calls change at each step and end with the latest bundle.
  abbrev Follows : Spiffe.Bundle → List (Call E) → Spiffe.Bundle → Type 0
  Follows before calls after =
      IsChanging before (updated calls) × (last_of before (updated calls) ≡ after)

  Follows-append :
      (before middle after : Spiffe.Bundle) (xs ys : List (Call E))
      → Follows before xs middle
      → Follows middle ys after
      → Follows before (xs ++ ys) after
  Follows-append before middle after xs ys (h, last_is) k =
      let (k1, k2) = rw (← last_is) at k in
      let (changing, last) = IsChanging-append before (updated xs) (updated ys) h k1 in
      rw (updated-append xs ys) (changing, last ∙ k2)

  take_over-Follows :
      (fetched : Result E Spiffe.Bundle) (latest : Spiffe.Bundle)
      → Follows latest (take_over fetched latest).0 (take_over fetched latest).1
  unfolding take_over
  take_over-Follows (err e) latest = (tt, refl)
  take_over-Follows (ok bundle) latest =
      elim (Bool-cases (Spiffe.equal_bundle (some latest) (some bundle))) [
        | inl same ↦ rw same (tt, refl)
        | inr differ ↦ rw differ ((differ, tt), refl)
      ]

  end_turn-Follows :
      (w : Wait) (before latest : Spiffe.Bundle) (calls : List (Call E))
      (next : List (Call E) × Spiffe.Bundle × Ended)
      → Follows before calls latest
      → Follows latest next.0 next.1
      → Follows before (end_turn w calls latest next).0 (end_turn w calls latest next).1
  unfolding end_turn
  end_turn-Follows context_done before latest calls next h k = h
  end_turn-Follows timer_fired before latest calls (more, later, ended) h k =
      Follows-append before latest later calls more h k

  watch_loop-Follows :
      (turns : List (Turn E)) (latest : Spiffe.Bundle)
      → Follows latest (watch_loop turns latest).0 (watch_loop turns latest).1
  unfolding watch_loop
  watch_loop-Follows [] latest = (tt, refl)
  watch_loop-Follows (turn ∷ turns) latest = elim (Bool-cases turn.canceled) [
    | inl c ↦ rw c (tt, refl)
    | inr c ↦ rw c (
        end_turn-Follows turn.wait latest taken.1 asked (watch_loop turns taken.1) asked-Follows
          (watch_loop-Follows turns taken.1))
  ]
    where
      taken : List (Call E) × Spiffe.Bundle
      taken = take_over turn.fetched latest

      asked : List (Call E)
      asked = taken.0 ++ (next_refresh (hint_of (Spiffe.get_refresh_hint taken.1)) ∷ [])

      asked-Follows : Follows latest asked taken.1
      asked-Follows =
          Follows-append latest taken.1 taken.1 taken.0
            (next_refresh (hint_of (Spiffe.get_refresh_hint taken.1)) ∷ [])
            (take_over-Follows turn.fetched latest) (tt, refl)

  take_over-fetched :
      (fetched : Result E Spiffe.Bundle) (latest : Spiffe.Bundle) (later : List Spiffe.Bundle)
      → updated (take_over fetched latest).0 ++ changes (take_over fetched latest).1 later
        ≡ changes latest (bundle_of fetched ++ later)
  unfolding take_over
  take_over-fetched (err e) latest later = refl
  take_over-fetched (ok bundle) latest later =
      elim (Bool-cases (Spiffe.equal_bundle (some latest) (some bundle))) [
        | inl same ↦ rw same refl
        | inr differ ↦ rw differ refl
      ]

  end_turn-reached :
      (w : Wait) (latest : Spiffe.Bundle) (calls : List (Call E))
      (next : List (Call E) × Spiffe.Bundle × Ended) (later : List Spiffe.Bundle)
      → updated next.0 ≡ changes latest later
      → updated (end_turn w calls latest next).0
        ≡ updated calls ++ changes latest (if_goes_on w later)
  unfolding end_turn
  end_turn-reached context_done latest calls next later h = sym (append-nil (updated calls))
  end_turn-reached timer_fired latest calls (more, last, ended) later h =
      updated-append calls more ∙ ap (λ l. updated calls ++ l) h

  watch_loop-reached :
      (turns : List (Turn E)) (latest : Spiffe.Bundle)
      → updated (watch_loop turns latest).0 ≡ changes latest (reached turns)
  unfolding watch_loop
  watch_loop-reached [] latest = refl
  watch_loop-reached (turn ∷ turns) latest =
      let taken = take_over turn.fetched latest in
      let hint : List (Call E) = next_refresh (hint_of (Spiffe.get_refresh_hint taken.1)) ∷ [] in
      elim (Bool-cases turn.canceled) [
        | inl c ↦ rw c refl
        | inr c ↦ rw c (
            end_turn-reached turn.wait taken.1 (taken.0 ++ hint) (watch_loop turns taken.1)
              (reached turns) (watch_loop-reached turns taken.1)
            ∙ ap (λ l. l ++ changes taken.1 (if_goes_on turn.wait (reached turns)))
                (updated-append taken.0 hint ∙ append-nil (updated taken.0))
            ∙ take_over-fetched turn.fetched latest (if_goes_on turn.wait (reached turns)))
      ]

  -- With a nil watcher `WatchBundle` returns its error and calls nothing; with another one
  -- `OnUpdate` is called with exactly those of the fetched bundles, until the context is canceled
  -- or done, that differ, in the sense of `Equal`, from the one reported before them (at first from
  -- the empty bundle), so each differs from the one before it, and the last one is the latest
  -- bundle, whatever the endpoint, the context and the timer do.
  pub watch_bundle_lem :
      (turns : List (Turn E))
      → (watch_bundle true turns ≡ ([], empty_bundle, watcher_cannot_be_nil))
        × (updated (watch_bundle false turns).0 ≡ changes empty_bundle (reached turns))
        × IsChanging empty_bundle (updated (watch_bundle false turns).0)
        × (last_of empty_bundle (updated (watch_bundle false turns).0)
            ≡ (watch_bundle false turns).1)
  unfolding watch_bundle
  watch_bundle_lem turns =
      let (changing, last) = watch_loop-Follows turns empty_bundle in
      (refl, watch_loop-reached turns empty_bundle, changing, last)
