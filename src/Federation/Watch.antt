-- ===== src/Federation/Watch.antt =====
-- federation/watch.go. What the endpoint, the context and the timer do is a script: for each turn of the
-- loop, what `FetchBundle` returns, whether the context is canceled then, and how the wait ends.
use go_spiffe.Prelude.{if◌then◌else◌, Result, ok, err, Bool, not, some, List, [], ◌∷◌, ◌++◌}
use go_spiffe.GoTime.{ℤ, pos}
use go_spiffe.Bundle.Spiffe

pub data Wait : Type 0 where
  timer_fired context_done : Wait

pub record Turn (E : Type 0) : Type 0 where
  pub fetched : Result E Spiffe.Bundle
  pub canceled : Bool
  pub wait : Wait

-- the calls of the watcher; `next_refresh` with the hint that it is given
pub data Call (E : Type 0) : Type 0 where
  on_error : E → Call E
  on_update : Spiffe.Bundle → Call E
  next_refresh : ℤ → Call E

-- what the call has come to
pub data Ended : Type 0 where
  watching watcher_cannot_be_nil context_error : Ended

-- `&spiffebundle.Bundle{}`
abbrev pub empty_bundle : Spiffe.Bundle
empty_bundle = Spiffe.new (record { name = [] })

-- the hint that `NextRefresh` is called with
unfoldable pub hint_of : ℤ × Bool → ℤ
hint_of (refresh_hint, has_hint) = if has_hint then refresh_hint else pos 0

module _ {E : Type 0} where
  -- the switch: the calls and the latest bundle
  unfoldable pub take_over : Result E Spiffe.Bundle → Spiffe.Bundle → List (Call E) × Spiffe.Bundle
  take_over (err e) latest = (on_error e ∷ [], latest)
  take_over (ok bundle) latest =
      if not (Spiffe.equal_bundle (some latest) (some bundle))
      then (on_update bundle ∷ [], bundle)
      else ([], latest)

  -- the end of the `select`, with what the loop does next
  unfoldable pub end_turn :
      Wait
      → List (Call E)
      → Spiffe.Bundle
      → List (Call E) × Spiffe.Bundle × Ended
      → List (Call E) × Spiffe.Bundle × Ended
  end_turn context_done calls latest next = (calls, latest, context_error)
  end_turn timer_fired calls latest (more, later, returned) = (calls ++ more, later, returned)

  -- the loop: the calls, the latest bundle, and what it has come to
  unfoldable pub watch_loop : List (Turn E) → Spiffe.Bundle → List (Call E) × Spiffe.Bundle × Ended
  unfolding take_over end_turn hint_of
  watch_loop [] latest = ([], latest, watching)
  watch_loop (turn ∷ turns) latest =
      let taken = take_over turn.fetched latest in
      let next = watch_loop turns taken.1 in
      if turn.canceled
      then ([], latest, context_error)
      else end_turn turn.wait
          (taken.0 ++ (next_refresh (hint_of (Spiffe.get_refresh_hint taken.1)) ∷ [])) taken.1 next

  -- whether the watcher is nil, and the turns
  unfoldable pub watch_bundle : Bool → List (Turn E) → List (Call E) × Spiffe.Bundle × Ended
  unfolding watch_loop
  watch_bundle watcher_is_nil turns =
      if watcher_is_nil
      then ([], empty_bundle, watcher_cannot_be_nil)
      else watch_loop turns empty_bundle
