-- ===== src/Workloadapi/Watcher.antt =====
-- workloadapi/watcher.go: the state of a watcher and the steps that it makes. `updated` says whether the
-- channel of one place holds a value, `x509_context_set` and `jwt_bundles_set` whether those channels are
-- closed; `watching` says whether the goroutines of the watches, which the wait group counts, run. The
-- callbacks change a state of type S, the source's.
pub mod Laws
use go_spiffe.Prelude.{
  ltb, leb, ◌==◌, if◌then◌else◌, ==_iff, Bool-cases, Option-cases, &&-eq-true, eq_of_iff_true,
  length, take, drop, all, All, length-append, drop-append, take-append, take-length, all-append,
  append-left_cancel, Result, ok, err, ◌>>=◌, ◌>>◌, map_err, >>=-eq-ok, >>-eq-ok, Result-cases,
  Bytes, bytes_eq, bytes_eq_iff, is_empty, has_prefix, contains, slice, has_prefix-append,
  eq-append_of_has_prefix, slice-append, ℕ, zero, suc, ◌+◌, ◌-◌, ◌*◌, ◌/◌, ◌%◌, ◌^◌, ◌≤◌, ◌<◌, ◌≡◌,
  refl, sym, ap, ◌∙◌, ◌≢◌, ◌↔◌, ◌⊎◌, inl, inr, Bool, true, false, not, ◌&&◌, ◌||◌, Option, none,
  some, List, [], ◌∷◌, ◌++◌, map, append-nil, append_assoc, arith, ok-injective, err-injective,
  Bytes-cases, or_nil, codes, map_err-eq-ok, if-eq-ok, required, required-eq-ok, check-eq-ok,
}
use go_spiffe.Bundle.Jwt
use go_spiffe.Bundle.Set
use go_spiffe.Workloadapi.Response.{X509Context}

-- `watcher` with its `watcherBase`; `client_closes` counts the calls of the client's `Close`
pub record Watcher (S E : Type 0) : Type 0 where
  pub source : S
  pub cancelled : Bool
  pub watching : Bool
  pub closed : Bool
  pub close_error : Option E
  pub updated : Bool
  pub has_client : Bool
  pub owns_client : Bool
  pub x509_context_set : Bool
  pub jwt_bundles_set : Bool
  pub client_closes : ℕ

module _ {S E : Type 0} where
  -- `newWatcherBase` and the record that `newWatcher` starts with
  unfoldable pub new_watcher : S → Bool → Watcher S E
  new_watcher source has_client = record {
    source = source;
    cancelled = false;
    watching = false;
    closed = false;
    close_error = none;
    updated = false;
    has_client = has_client;
    owns_client = false;
    x509_context_set = false;
    jwt_bundles_set = false;
    client_closes = 0;
  }

  -- `New` has made the client
  unfoldable pub own_client : Watcher S E → Watcher S E
  own_client w = record w { has_client = true; owns_client = true }

  -- `wg.Add`, with the goroutines of the watches
  unfoldable pub start_watches : Watcher S E → Watcher S E
  start_watches w = record w { watching = true }

  unfoldable pub drain_updated : Watcher S E → Watcher S E
  drain_updated w = record w { updated = false }

  unfoldable pub trigger_updated : Watcher S E → Watcher S E
  trigger_updated w = record w { updated = true }

  -- `waitUntilUpdated` when nothing is in the channel: the context's end
  unfoldable pub wait_until_updated : E → Watcher S E → Result E (Unit {0}) × Watcher S E
  wait_until_updated done w =
      if w.updated then (ok tt, record w { updated = false }) else (err done, w)

  -- `cancel` and `wg.Wait`, which returns once the watches have ended; what they still call before that
  -- comes before the step
  unfoldable pub cancel_and_wait : Watcher S E → Watcher S E
  cancel_and_wait w = record w { cancelled = true; watching = false }

  -- `closeBase`, with what the client's `Close` returns if it is called
  unfoldable pub close_base : Bool → Option E → Watcher S E → Option E × Watcher S E
  unfolding cancel_and_wait
  close_base has_closer client_error w =
      if w.closed
      then (w.close_error, w)
      else if has_closer
      then (
        client_error,
        record (cancel_and_wait w) {
          close_error = client_error;
          closed = true;
          client_closes = w.client_closes + 1;
        },
      )
      else (w.close_error, record (cancel_and_wait w) { closed = true })

  unfoldable pub close : Option E → Watcher S E → Option E × Watcher S E
  unfolding close_base
  close client_error w = close_base (w.has_client && w.owns_client) client_error w

  unfoldable pub on_x509_context_update :
      (X509Context → S → S) → X509Context → Watcher S E → Watcher S E
  unfolding trigger_updated
  on_x509_context_update x509_context_fn x509_context w =
      record (trigger_updated (record w { source = x509_context_fn x509_context w.source })) {
        x509_context_set = true;
      }

  unfoldable pub on_jwt_bundles_update :
      (Set.Set Jwt.Bundle → S → S) → Set.Set Jwt.Bundle → Watcher S E → Watcher S E
  unfolding trigger_updated
  on_jwt_bundles_update jwt_bundles_fn bundles w =
      record (trigger_updated (record w { source = jwt_bundles_fn bundles w.source })) {
        jwt_bundles_set = true;
      }

module _ {S E : Type 0} (x509_context_fn : X509Context → S → S)
    (jwt_bundles_fn : Set.Set Jwt.Bundle → S → S) where
  -- The steps of a watcher. `newWatcher` starts the watches, which call back while they run and may end
  -- by themselves; nothing starts them on a closed watcher.
  pub data Step : Watcher S E → Watcher S E → Type 0 where
    x509_update :
        {w : Watcher S E} (x509_context : X509Context)
        → w.watching ≡ true
        → Step w (on_x509_context_update x509_context_fn x509_context w)
    jwt_update :
        {w : Watcher S E} (bundles : Set.Set Jwt.Bundle)
        → w.watching ≡ true
        → Step w (on_jwt_bundles_update jwt_bundles_fn bundles w)
    starts : {w : Watcher S E} → w.closed ≡ false → Step w (start_watches w)
    ends : {w : Watcher S E} → Step w (record w { watching = false })
    drains : {w : Watcher S E} → Step w (drain_updated w)
    waits : {w : Watcher S E} (done : E) → Step w (wait_until_updated done w).1
    closes : {w : Watcher S E} (client_error : Option E) → Step w (close client_error w).1

  pub data Reachable (start : Watcher S E) : Watcher S E → Type 0 where
    here : Reachable start start
    step : {v w : Watcher S E} → Reachable start v → Step v w → Reachable start w
