-- ===== src/Workloadapi/Watch/Laws.antt =====
-- What a watch hands to its watcher, when it ends, and how long it waits.
use go_spiffe.Prelude.{
  if◌then◌else◌, Result, ok, err, Result-cases, ◌*◌, ◌≤◌, ◌≡◌, refl, sym, ap, ◌∙◌, inl, inr, Bool,
  true, false, Option, none, some, List, [], ◌∷◌, ◌++◌, append-nil,
}
use go_spiffe.GoTime.{second}
use go_spiffe.Workloadapi.Backoff.{
  after_next, after_reset, Backoff, next, reset, IsReachable, next_times_lem,
}
use go_spiffe.Workloadapi.Watch.{
  Code, canceled, invalid_argument, unimplemented, other_code, Stream, refused, delivers, Wait,
  timer_fired, context_done, watch_error, Event, Outcome, update, response_error, waited, stopped,
  watching, receive, watch_stream, end_wait, handle_watch_error, handle_error, continue,
  watch_round, watch, event_of,
}

-- the codes that end a watch at once
abbrev pub ends : Bool → Code → Bool
ends wit canceled = true
ends wit invalid_argument = true
ends wit unimplemented = wit
ends wit (other_code n) = false

module _ {A P F : Type 0} where
  -- the updates among some events
  abbrev pub updates : List (Event A P F) → List A
  updates [] = []
  updates (update a ∷ events) = a ∷ updates events
  updates (_ ∷ events) = updates events

  -- Every wait is between one and thirty seconds.
  abbrev pub WaitsInBounds : List (Event A P F) → Type 0
  WaitsInBounds [] = Unit
  WaitsInBounds (waited d ∷ events) = (second ≤ d) × (d ≤ 30 * second) × WaitsInBounds events
  WaitsInBounds (_ ∷ events) = WaitsInBounds events

  updates-append : (xs ys : List (Event A P F)) → updates (xs ++ ys) ≡ updates xs ++ updates ys
  updates-append [] ys = refl
  updates-append (update a ∷ xs) ys = ap (λ l. a ∷ l) (updates-append xs ys)
  updates-append (response_error p ∷ xs) ys = updates-append xs ys
  updates-append (watch_error f ∷ xs) ys = updates-append xs ys
  updates-append (waited d ∷ xs) ys = updates-append xs ys

  WaitsInBounds-append :
      (xs ys : List (Event A P F)) → WaitsInBounds xs → WaitsInBounds ys → WaitsInBounds (xs ++ ys)
  WaitsInBounds-append [] ys h k = k
  WaitsInBounds-append (update a ∷ xs) ys h k = WaitsInBounds-append xs ys h k
  WaitsInBounds-append (response_error p ∷ xs) ys h k = WaitsInBounds-append xs ys h k
  WaitsInBounds-append (watch_error f ∷ xs) ys h k = WaitsInBounds-append xs ys h k
  WaitsInBounds-append (waited d ∷ xs) ys (low, high, h) k =
      (low, high, WaitsInBounds-append xs ys h k)

module _ {F : Type 0} where
  -- the error of an outcome
  abbrev pub outcome_error : Outcome F → Option F
  outcome_error (stopped f) = some f
  outcome_error (watching b) = none

  abbrev pub OutcomeReachable : Outcome F → Type 0
  OutcomeReachable (stopped f) = Unit
  OutcomeReachable (watching b) = IsReachable b

  -- the first of two errors
  abbrev pub or_error : Option F → Option F → Option F
  or_error (some f) later = some f
  or_error none later = later

module _ {R F : Type 0} where
  abbrev pub responses_of : Stream R F → List R
  responses_of (refused f) = []
  responses_of (delivers responses f) = responses

  abbrev pub error_of : Stream R F → F
  error_of (refused f) = f
  error_of (delivers responses f) = f

  -- The error with which a round ends the watch.
  abbrev pub round_error : (F → Code) → Bool → Stream R F → Wait F → Option F
  round_error code_of wit stream wait =
      if ends wit (code_of (error_of stream))
      then some (error_of stream)
      else elim wait [ context_done f ↦ some f | timer_fired ↦ none ]

  -- nothing after an error
  abbrev pub unless_error : Option F → List R → List R
  unless_error (some f) later = []
  unless_error none later = later

  -- the responses up to the end of the round that ends the watch, and the error of that round
  unfoldable pub delivered : (F → Code) → Bool → List (Stream R F × Wait F) → List R
  delivered code_of wit [] = []
  delivered code_of wit ((stream, wait) ∷ script) =
      responses_of stream
      ++ unless_error (round_error code_of wit stream wait) (delivered code_of wit script)

  unfoldable pub final_error : (F → Code) → Bool → List (Stream R F × Wait F) → Option F
  final_error code_of wit [] = none
  final_error code_of wit ((stream, wait) ∷ script) =
      or_error (round_error code_of wit stream wait) (final_error code_of wit script)

module _ {A P : Type 0} where
  -- a value in front of others, unless it could not be parsed
  abbrev pub cons_ok : Result P A → List A → List A
  cons_ok (ok a) rest = a ∷ rest
  cons_ok (err p) rest = rest

module _ {R A P : Type 0} where
  -- the values of the responses that can be parsed
  abbrev pub parsed : (R → Result P A) → List R → List A
  parsed parse [] = []
  parsed parse (r ∷ responses) = cons_ok (parse r) (parsed parse responses)

  parsed-append :
      (parse : R → Result P A) (xs ys : List R)
      → parsed parse (xs ++ ys) ≡ parsed parse xs ++ parsed parse ys
  parsed-append parse [] ys = refl
  parsed-append parse (r ∷ xs) ys = elim (Result-cases (parse r)) [
    | inl (a, e) ↦ rw (e, parsed-append parse xs ys) refl
    | inr (p, e) ↦ rw (e, parsed-append parse xs ys) refl
  ]

module _ {R A P : Type 0} (F : Type 0) (parse : R → Result P A) where
  receive_lem :
      (responses : List R) (b : Backoff)
      → IsReachable b
      → (updates (receive {F = F} parse responses b).0 ≡ parsed parse responses)
        × WaitsInBounds (receive {F = F} parse responses b).0
        × IsReachable (receive {F = F} parse responses b).1
  unfolding receive event_of
  receive_lem [] b reached = (refl, tt, reached)
  receive_lem (r ∷ responses) b reached =
      let (us, ws, rs) = receive_lem responses (reset b) (after_reset reached) in
      elim (Result-cases (parse r)) [
        | inl (a, e) ↦ rw e (ap (λ l. a ∷ l) us, ws, rs)
        | inr (p, e) ↦ rw e (us, ws, rs)
      ]

  -- What a round does to the watcher's updates, the waits, the outcome and the backoff.
  abbrev RoundIs : List A → Option F → List (Event A P F) × Outcome F → Type 0
  RoundIs values error (events, outcome) =
      (updates events ≡ values)
      × WaitsInBounds events
      × (outcome_error outcome ≡ error)
      × OutcomeReachable outcome

  handle_error_lem :
      (wit : Bool) (code : Code) (f : F) (wait : Wait F) (b : Backoff)
      → IsReachable b
      → RoundIs []
          (if ends wit code
            then some f
            else elim wait [ context_done g ↦ some g | timer_fired ↦ none ])
          (handle_error parse wit code f wait b)
  unfolding handle_error handle_watch_error end_wait
  handle_error_lem wit code f wait b reached = cases wit code wait
    where
      bounds : (second ≤ (next b).0) × ((next b).0 ≤ 30 * second)
      bounds = let (_, low, high) = next_times_lem b reached 0 in (low, high)

      waits :
          (w : Wait F)
          → RoundIs []
              (elim w [ context_done g ↦ some g | timer_fired ↦ none ])
              (waited (next b).0 ∷ [], end_wait parse w (next b).1)
      waits timer_fired = (refl, (bounds.0, bounds.1, tt), refl, after_next reached)
      waits (context_done g) = (refl, (bounds.0, bounds.1, tt), refl, tt)

      cases :
          (v : Bool) (c : Code) (w : Wait F)
          → RoundIs []
              (if ends v c then some f else elim w [ context_done g ↦ some g | timer_fired ↦ none ])
              (handle_error parse v c f w b)
      cases true canceled w = (refl, tt, refl, tt)
      cases false canceled w = (refl, tt, refl, tt)
      cases true invalid_argument w = (refl, tt, refl, tt)
      cases false invalid_argument w = (refl, tt, refl, tt)
      cases true unimplemented w = (refl, tt, refl, tt)
      cases false unimplemented w = waits w
      cases true (other_code n) w = waits w
      cases false (other_code n) w = waits w

  stream_lem :
      (stream : Stream R F) (b : Backoff)
      → IsReachable b
      → (updates (watch_stream parse stream b).0 ≡ parsed parse (responses_of stream))
        × WaitsInBounds (watch_stream parse stream b).0
        × ((watch_stream parse stream b).1 ≡ error_of stream)
        × IsReachable (watch_stream parse stream b).2
  unfolding watch_stream
  stream_lem (refused f) b reached = (refl, tt, refl, reached)
  stream_lem (delivers responses f) b reached =
      let (us, ws, rs) = receive_lem responses b reached in (us, ws, refl, rs)

  round_lem :
      (code_of : F → Code) (wit : Bool) (stream : Stream R F) (wait : Wait F) (b : Backoff)
      → IsReachable b
      → RoundIs
          (parsed parse (responses_of stream))
          (round_error code_of wit stream wait)
          (watch_round parse code_of wit stream wait b)
  unfolding watch_round
  round_lem code_of wit stream wait b reached =
      let (us, ws, f_is, rs) = stream_lem stream b reached in
      let (no_updates, hws, error_is, hrs) =
        handle_error_lem wit (code_of (error_of stream)) (error_of stream) wait
          (watch_stream parse stream b).2 rs in
      rw f_is (
        updates-append (watch_stream parse stream b).0 _
            ∙ rw (us, no_updates) (append-nil (parsed parse (responses_of stream))),
        WaitsInBounds-append (watch_stream parse stream b).0 _ ws hws,
        error_is,
        hrs,
      )

  continue_lem :
      (loop : Backoff → List (Event A P F) × Outcome F) (responses later : List R)
      (error later_error : Option F) (r : List (Event A P F) × Outcome F)
      → RoundIs (parsed parse responses) error r
      → ((b : Backoff) → IsReachable b → RoundIs (parsed parse later) later_error (loop b))
      → RoundIs
          (parsed parse (responses ++ unless_error error later))
          (or_error error later_error)
          (continue parse loop r)
  unfolding continue
  continue_lem loop responses later error later_error (events, stopped f) (us, ws, error_is, rs)
        next_is =
      rw (← error_is, append-nil responses) (us, ws, refl, tt)
  continue_lem loop responses later error later_error (events, watching b) (us, ws, error_is, rs)
        next_is =
      let (us2, ws2, error_is2, rs2) = next_is b rs in
      rw (← error_is) (
        updates-append events (loop b).0 ∙ rw (us, us2) (sym (parsed-append parse responses later)),
        WaitsInBounds-append events (loop b).0 ws ws2,
        error_is2,
        rs2,
      )

  watch-RoundIs :
      (code_of : F → Code) (wit : Bool) (script : List (Stream R F × Wait F)) (b : Backoff)
      → IsReachable b
      → RoundIs
          (parsed parse (delivered code_of wit script))
          (final_error code_of wit script)
          (watch parse code_of wit script b)
  unfolding watch continue delivered final_error
  watch-RoundIs code_of wit [] b reached = (refl, tt, refl, reached)
  watch-RoundIs code_of wit ((stream, wait) ∷ script) b reached =
      continue_lem (watch parse code_of wit script) (responses_of stream)
        (delivered code_of wit script) (round_error code_of wit stream wait)
        (final_error code_of wit script) (watch_round parse code_of wit stream wait b)
        (round_lem code_of wit stream wait b reached) (watch-RoundIs code_of wit script)

  -- From a reachable backoff, and for any script of streams and waits, a watch hands to its
  -- watcher, in order, what can be parsed of all responses up to the end of the first round that
  -- ends it; it ends only with an error of code Canceled or InvalidArgument, or Unimplemented for
  -- WIT, or when the context is done during a wait, and then with that error; otherwise it goes on,
  -- with a reachable backoff; and every wait is between one and thirty seconds.
  pub watch_lem :
      (code_of : F → Code) (wit : Bool) (script : List (Stream R F × Wait F)) (b : Backoff)
      → IsReachable b
      → (updates (watch parse code_of wit script b).0 ≡ parsed parse (delivered code_of wit script))
        × WaitsInBounds (watch parse code_of wit script b).0
        × (outcome_error (watch parse code_of wit script b).1 ≡ final_error code_of wit script)
        × OutcomeReachable (watch parse code_of wit script b).1
  watch_lem = watch-RoundIs
