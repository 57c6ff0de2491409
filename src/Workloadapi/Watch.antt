-- ===== src/Workloadapi/Watch.antt =====
-- workloadapi/client.go: the watches. Each `Watch...` calls its `watch...` again and again; the five pairs
-- differ in the response, and in whether the code Unimplemented ends the watch. What the server and the
-- timers do is a script: for each round, how the stream goes and how the wait after it ends.
pub mod Laws
use go_spiffe.Prelude.{
  ltb, leb, ◌==◌, if◌then◌else◌, ==_iff, Bool-cases, Option-cases, &&-eq-true, eq_of_iff_true,
  length, take, drop, all, All, length-append, drop-append, take-append, take-length, all-append,
  append-left_cancel, Result, ok, err, ◌>>=◌, ◌>>◌, map_err, >>=-eq-ok, >>-eq-ok, Result-cases,
  Bytes, bytes_eq, bytes_eq_iff, is_empty, has_prefix, contains, slice, has_prefix-append,
  eq-append_of_has_prefix, slice-append, ℕ, zero, suc, ◌+◌, ◌-◌, ◌*◌, ◌/◌, ◌%◌, ◌^◌, ◌≤◌, ◌<◌, ◌≡◌,
  refl, sym, ap, ◌∙◌, ◌≢◌, ◌↔◌, ◌⊎◌, inl, inr, Bool, true, false, not, ◌&&◌, ◌||◌, Option, none,
  some, List, [], ◌∷◌, ◌++◌, map, append-nil, append_assoc, arith, ok-injective, err-injective,
  Bytes-cases, or_nil, codes, map_err-eq-ok, if-eq-ok, required, required-eq-ok, check-eq-ok,
}
use go_spiffe.GoMap.{GoMap}
use go_spiffe.Bundle.X509
use go_spiffe.Bundle.Jwt
use go_spiffe.Bundle.Wit
use go_spiffe.Bundle.Set
use go_spiffe.Svid.WitSvid
use go_spiffe.Workloadapi.Message.{X509SvidResponse, WitSvidMessage}
use go_spiffe.Workloadapi.Response.{
  Libraries, ResponseError, X509Context, parse_x509_bundles_response, parse_x509_context,
  parse_jwt_svid_bundles, parse_wit_svids, parse_wit_bundles,
}
use go_spiffe.Workloadapi.Backoff.{Backoff, next, reset, new_linear_backoff}

-- the codes of package grpc/codes that the client tells apart
pub data Code : Type 0 where
  canceled invalid_argument unimplemented : Code
  other_code : ℕ → Code

-- A stream: refused, or the responses that it delivers before its error.
pub data Stream (R F : Type 0) : Type 0 where
  refused : F → Stream R F
  delivers : List R → F → Stream R F

-- How `select` ends: the timer fires, or the context is done.
pub data Wait (F : Type 0) : Type 0 where
  timer_fired : Wait F
  context_done : F → Wait F

-- the calls of the watcher, and the waits between streams
pub data Event (A P F : Type 0) : Type 0 where
  update : A → Event A P F
  response_error : P → Event A P F
  watch_error : F → Event A P F
  waited : ℕ → Event A P F

-- the error that the watch returns, or its backoff while it goes on
pub data Outcome (F : Type 0) : Type 0 where
  stopped : F → Outcome F
  watching : Backoff → Outcome F

module _ {R A P F : Type 0} (parse : R → Result P A) where
  -- the calls of the watcher for a response
  unfoldable pub event_of : Result P A → Event A P F
  event_of (ok a) = update a
  event_of (err p) = response_error p

  -- the loop over the responses
  unfoldable pub receive : List R → Backoff → List (Event A P F) × Backoff
  unfolding event_of
  receive [] b = ([], b)
  receive (r ∷ responses) b =
      let rest = receive responses (reset b) in (event_of (parse r) ∷ rest.0, rest.1)

  -- `watch...`: the events, the error and the backoff
  unfoldable pub watch_stream : Stream R F → Backoff → List (Event A P F) × F × Backoff
  unfolding receive
  watch_stream (refused f) b = ([], f, b)
  watch_stream (delivers responses f) b = let r = receive responses b in (r.0, f, r.1)

  -- the `select`
  unfoldable pub end_wait : Wait F → Backoff → Outcome F
  end_wait timer_fired b = watching b
  end_wait (context_done f) b = stopped f

  unfoldable pub handle_watch_error : Code → F → Wait F → Backoff → List (Event A P F) × Outcome F
  unfolding end_wait
  handle_watch_error canceled f wait b = ([], stopped f)
  handle_watch_error invalid_argument f wait b = ([], stopped f)
  handle_watch_error _ f wait b = (waited (next b).0 ∷ [], end_wait wait (next b).1)

  -- the return of the WIT watches, in front of `handleWatchError`
  unfoldable pub handle_error : Bool → Code → F → Wait F → Backoff → List (Event A P F) × Outcome F
  unfolding handle_watch_error
  handle_error true unimplemented f wait b = ([], stopped f)
  handle_error wit code f wait b = handle_watch_error code f wait b

  -- goes on after a turn of the loop
  unfoldable pub continue :
      (Backoff → List (Event A P F) × Outcome F)
      → List (Event A P F) × Outcome F
      → List (Event A P F) × Outcome F
  continue loop (events, stopped f) = (events, stopped f)
  continue loop (events, watching b) = let rest = loop b in (events ++ rest.0, rest.1)

  -- one turn of the loop of `Watch...`
  unfoldable pub watch_round :
      (F → Code) → Bool → Stream R F → Wait F → Backoff → List (Event A P F) × Outcome F
  unfolding watch_stream handle_error
  watch_round code_of wit stream wait b =
      let (events, f, b1) = watch_stream stream b in
      let (waits, outcome) = handle_error wit (code_of f) f wait b1 in
      (events ++ (watch_error f ∷ waits), outcome)

  -- the loop, on a script
  unfoldable pub watch :
      (F → Code) → Bool → List (Stream R F × Wait F) → Backoff → List (Event A P F) × Outcome F
  unfolding watch_round continue
  watch code_of wit [] b = ([], watching b)
  watch code_of wit ((stream, wait) ∷ script) b =
      continue (watch code_of wit script) (watch_round code_of wit stream wait b)

module _ {Token E F : Type 0} (lib : Libraries Token E) (code_of : F → Code) where
  abbrev pub Watched : Type 0 → Type 0
  Watched A = List (Event A (ResponseError E) F) × Outcome F

  unfoldable pub watch_x509_context_stream :
      Stream X509SvidResponse F
      → Backoff
      → List (Event X509Context (ResponseError E) F) × F × Backoff
  watch_x509_context_stream stream b = watch_stream (parse_x509_context lib) stream b

  unfoldable pub watch_x509_context :
      List (Stream X509SvidResponse F × Wait F) → Watched X509Context
  watch_x509_context script = watch (parse_x509_context lib) code_of false script new_linear_backoff

  unfoldable pub watch_x509_bundles_stream :
      Stream (GoMap Bytes Bytes) F
      → Backoff
      → List (Event (Set.Set X509.Bundle) (ResponseError E) F) × F × Backoff
  watch_x509_bundles_stream stream b = watch_stream (parse_x509_bundles_response lib) stream b

  unfoldable pub watch_x509_bundles :
      List (Stream (GoMap Bytes Bytes) F × Wait F) → Watched (Set.Set X509.Bundle)
  watch_x509_bundles script =
      watch (parse_x509_bundles_response lib) code_of false script new_linear_backoff

  unfoldable pub watch_jwt_bundles_stream :
      Stream (GoMap Bytes Bytes) F
      → Backoff
      → List (Event (Set.Set Jwt.Bundle) (ResponseError E) F) × F × Backoff
  watch_jwt_bundles_stream stream b = watch_stream (parse_jwt_svid_bundles lib) stream b

  unfoldable pub watch_jwt_bundles :
      List (Stream (GoMap Bytes Bytes) F × Wait F) → Watched (Set.Set Jwt.Bundle)
  watch_jwt_bundles script =
      watch (parse_jwt_svid_bundles lib) code_of false script new_linear_backoff

  -- `parseWITSVIDs` with `firstOnly` false
  abbrev pub all_wit_svids : List WitSvidMessage → Result (ResponseError E) (List WitSvid.Svid)
  all_wit_svids messages = parse_wit_svids lib messages false

  unfoldable pub watch_wit_svids_stream :
      Stream (List WitSvidMessage) F
      → Backoff
      → List (Event (List WitSvid.Svid) (ResponseError E) F) × F × Backoff
  watch_wit_svids_stream stream b = watch_stream all_wit_svids stream b

  unfoldable pub watch_wit_svids :
      List (Stream (List WitSvidMessage) F × Wait F) → Watched (List WitSvid.Svid)
  watch_wit_svids script = watch all_wit_svids code_of true script new_linear_backoff

  unfoldable pub watch_wit_bundles_stream :
      Stream (GoMap Bytes Bytes) F
      → Backoff
      → List (Event (Set.Set Wit.Bundle) (ResponseError E) F) × F × Backoff
  watch_wit_bundles_stream stream b = watch_stream (parse_wit_bundles lib) stream b

  unfoldable pub watch_wit_bundles :
      List (Stream (GoMap Bytes Bytes) F × Wait F) → Watched (Set.Set Wit.Bundle)
  watch_wit_bundles script = watch (parse_wit_bundles lib) code_of true script new_linear_backoff
