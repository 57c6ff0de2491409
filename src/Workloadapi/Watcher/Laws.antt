-- ===== src/Workloadapi/Watcher/Laws.antt =====
-- Invariants of a watcher, and `Close`.
use go_spiffe.Prelude.{
  if◌then◌else◌, Bool-cases, ℕ, ◌≤◌, ◌≡◌, refl, ◌∙◌, ◌⊎◌, inl, inr, Bool, true, false, ◌&&◌, Option,
  arith,
}
use go_spiffe.Bundle.Jwt
use go_spiffe.Bundle.Set
use go_spiffe.Workloadapi.Response.{X509Context}
use go_spiffe.Workloadapi.Watcher.{
  Watcher, Step, Reachable, x509_update, jwt_update, starts, ends, drains, waits, closes, here,
  step, new_watcher, own_client, start_watches, cancel_and_wait, drain_updated, trigger_updated,
  wait_until_updated, close_base, close, on_x509_context_update, on_jwt_bundles_update,
}

module _ {S E : Type 0} where
  -- A client is owned only if there is one. A closed watcher is cancelled, and its watches
  -- have ended. The client is closed at most
  -- once: by the close of a watcher that owns it.
  pub record IsValid (w : Watcher S E) : Type 0 where
    pub owned : w.owns_client ≡ true → w.has_client ≡ true
    pub cancelled_is : w.cancelled ≡ w.closed
    pub ended : w.closed ≡ true → w.watching ≡ false
    pub closes_is : w.client_closes ≡ (if w.closed && w.owns_client then 1 else 0)

  IsValid-close : (e : Option E) (w : Watcher S E) → IsValid w → IsValid (close e w).1
  unfolding close close_base cancel_and_wait
  IsValid-close e w v =
      let owned = v.owned in
      let cancelled_is = v.cancelled_is in
      let ended = v.ended in
      let closes_is = v.closes_is in
      elim (Bool-cases w.closed) [
        | inl c ↦ rw c (record {
          owned = owned;
          cancelled_is = cancelled_is ∙ c;
          ended = λ h. ended c;
          closes_is = rw c at closes_is;
        })
        | inr c ↦ elim (Bool-cases w.owns_client) [
          | inl o ↦
              let has = owned o in
              let none_yet : w.client_closes ≡ 0 = rw c at closes_is in
              rw (c, has, o)
                (record {
                  owned = λ h. refl;
                  cancelled_is = refl;
                  ended = λ h. refl;
                  closes_is = rw none_yet refl;
                })
          | inr o ↦
              let none_yet : w.client_closes ≡ 0 = rw c at closes_is in
              elim (Bool-cases w.has_client) [
                | inl has ↦
                    rw (c, has, o)
                      (record {
                        owned = λ h. refl;
                        cancelled_is = refl;
                        ended = λ h. refl;
                        closes_is = none_yet;
                      })
                | inr has ↦
                    rw (c, has, o)
                      (record {
                        owned = λ h. absurd cc;
                        cancelled_is = refl;
                        ended = λ h. refl;
                        closes_is = none_yet;
                      })
              ]
        ]
      ]

  IsValid-wait : (done : E) (w : Watcher S E) → IsValid w → IsValid (wait_until_updated done w).1
  unfolding wait_until_updated
  IsValid-wait done w v =
      let owned = v.owned in
      let cancelled_is = v.cancelled_is in
      let ended = v.ended in
      let closes_is = v.closes_is in
      elim (Bool-cases w.updated) [
        | inl u ↦ rw u (record {
          owned = owned;
          cancelled_is = cancelled_is;
          ended = ended;
          closes_is = closes_is;
        })
        | inr u ↦ rw u (record {
          owned = owned;
          cancelled_is = cancelled_is;
          ended = ended;
          closes_is = closes_is;
        })
      ]

  close-closed :
      (e : Option E) (w : Watcher S E)
      → ((close e w).1.closed ≡ true)
        × ((close e w).1.source ≡ w.source)
        × ((close e w).1.owns_client ≡ w.owns_client)
  unfolding close close_base cancel_and_wait
  close-closed e w = elim (Bool-cases w.closed) [
    | inl c ↦ rw c (refl, refl, refl)
    | inr c ↦ elim (Bool-cases (w.has_client && w.owns_client)) [
      | inl owned ↦ rw (c, owned) (refl, refl, refl)
      | inr not_owned ↦ rw (c, not_owned) (refl, refl, refl)
    ]
  ]

  close_lem :
      (first second : Option E) (w : Watcher S E)
      → close second (close first w).1 ≡ ((close first w).0, (close first w).1)
  unfolding close close_base cancel_and_wait
  close_lem first second w = elim (Bool-cases w.closed) [
    | inl c ↦ rw c refl
    | inr c ↦ elim (Bool-cases (w.has_client && w.owns_client)) [
      | inl owned ↦ rw (c, owned) refl
      | inr not_owned ↦ rw (c, not_owned) refl
    ]
  ]

module _ {S E : Type 0} (x509_context_fn : X509Context → S → S)
    (jwt_bundles_fn : Set.Set Jwt.Bundle → S → S) where
  IsValid-step :
      {v w : Watcher S E} → Step x509_context_fn jwt_bundles_fn v w → IsValid v → IsValid w
  unfolding on_x509_context_update on_jwt_bundles_update trigger_updated drain_updated start_watches
  IsValid-step (x509_update x509_context running) v = record {
    owned = v.owned;
    cancelled_is = v.cancelled_is;
    ended = v.ended;
    closes_is = v.closes_is;
  }
  IsValid-step (jwt_update bundles running) v = record {
    owned = v.owned;
    cancelled_is = v.cancelled_is;
    ended = v.ended;
    closes_is = v.closes_is;
  }
  IsValid-step (starts open_is) v = record {
    owned = v.owned;
    cancelled_is = v.cancelled_is;
    ended = λ h. absurd cc;
    closes_is = v.closes_is;
  }
  IsValid-step ends v = record {
    owned = v.owned;
    cancelled_is = v.cancelled_is;
    ended = λ h. refl;
    closes_is = v.closes_is;
  }
  IsValid-step drains v = record {
    owned = v.owned;
    cancelled_is = v.cancelled_is;
    ended = v.ended;
    closes_is = v.closes_is;
  }
  IsValid-step {v} (waits done) valid = IsValid-wait done v valid
  IsValid-step {v} (closes e) valid = IsValid-close e v valid

  IsValid-reachable :
      {start w : Watcher S E}
      → Reachable x509_context_fn jwt_bundles_fn start w
      → IsValid start
      → IsValid w
  IsValid-reachable here v = v
  IsValid-reachable (step r s) v = IsValid-step s (IsValid-reachable r v)

  -- Closed, with a given source and count of the client's closes.
  abbrev IsClosedAt : S → ℕ → Watcher S E → Type 0
  IsClosedAt source count w = (w.closed ≡ true) × (w.source ≡ source) × (w.client_closes ≡ count)

  IsClosedAt-Step :
      (source : S) (count : ℕ) {v w : Watcher S E}
      → Step x509_context_fn jwt_bundles_fn v w
      → IsValid v
      → IsClosedAt source count v
      → IsClosedAt source count w
  unfolding drain_updated wait_until_updated close close_base
  IsClosedAt-Step source count (x509_update x509_context running) v (closed, source_is, count_is) =
      absurd (let c = v.ended closed in cc)
  IsClosedAt-Step source count (jwt_update bundles running) v (closed, source_is, count_is) =
      absurd (let c = v.ended closed in cc)
  IsClosedAt-Step source count (starts open_is) v (closed, source_is, count_is) = absurd cc
  IsClosedAt-Step source count ends v h = h
  IsClosedAt-Step source count drains v h = h
  IsClosedAt-Step source count {v} (waits done) valid h = elim (Bool-cases v.updated) [
    | inl u ↦ rw u h
    | inr u ↦ rw u h
  ]
  IsClosedAt-Step source count {v} (closes e) valid (closed, source_is, count_is) =
      rw closed (refl, source_is, count_is)

  IsClosedAt-Reachable :
      (source : S) (count : ℕ) {v w : Watcher S E}
      → Reachable x509_context_fn jwt_bundles_fn v w
      → IsValid v
      → IsClosedAt source count v
      → IsClosedAt source count w
  IsClosedAt-Reachable source count here v h = h
  IsClosedAt-Reachable source count (step r s) v h =
      IsClosedAt-Step source count s (IsValid-reachable r v)
        (IsClosedAt-Reachable source count r v h)

  IsValid-new : (source : S) (has_client : Bool) → IsValid {E = E} (new_watcher source has_client)
  unfolding new_watcher
  IsValid-new source has_client = record {
    owned = λ h. absurd cc;
    cancelled_is = refl;
    ended = λ h. absurd cc;
    closes_is = refl;
  }

  IsValid-own : (source : S) → IsValid {E = E} (own_client (new_watcher source false))
  unfolding new_watcher own_client
  IsValid-own source = record {
    owned = λ h. refl;
    cancelled_is = refl;
    ended = λ h. absurd cc;
    closes_is = refl;
  }

  -- In every state that a watcher reaches by its steps from the start, with a given client, with
  -- none or with one of its own, an owned client is there, the watcher is cancelled exactly when it
  -- is closed, and has no watch running then, and the client is closed exactly if the watcher is
  -- closed and owns it, and then once; and after a close the watcher stays closed, its source keeps
  -- its value, and the client is not closed again.
  pub watcher_lem :
      (source : S) (has_client : Bool) (start w : Watcher S E)
      → (start ≡ new_watcher source has_client) ⊎ (start ≡ own_client (new_watcher source false))
      → Reachable x509_context_fn jwt_bundles_fn start w
      → IsValid w
        × (w.client_closes ≤ 1)
        × ((e : Option E) (later : Watcher S E)
            → Reachable x509_context_fn jwt_bundles_fn (close e w).1 later
            → (later.closed ≡ true)
              × (later.source ≡ w.source)
              × (later.client_closes ≡ (if w.owns_client then 1 else 0)))
  watcher_lem source has_client start w is_start r =
      let valid = IsValid-reachable r (start_valid is_start) in
      (
        valid,
        at_most_one valid,
        λ e later r2.
            IsClosedAt-Reachable w.source (if w.owns_client then 1 else 0) r2
              (IsValid-close e w valid) (closed_now e valid),
      )
    where
      start_valid :
          (start ≡ new_watcher source has_client) ⊎ (start ≡ own_client (new_watcher source false))
          → IsValid start
      start_valid (inl h) = rw h (IsValid-new source has_client)
      start_valid (inr h) = rw h (IsValid-own source)

      at_most_one : IsValid w → w.client_closes ≤ 1
      at_most_one valid = let closes_is = valid.closes_is in ground arith

      closed_now :
          (e : Option E)
          → IsValid w
          → IsClosedAt w.source (if w.owns_client then 1 else 0) (close e w).1
      closed_now e valid =
          let (closed, source_is, owner_is) = close-closed e w in
          (closed, source_is, (IsValid-close e w valid).closes_is ∙ rw (closed, owner_is) refl)
