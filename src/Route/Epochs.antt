-- ===== src/Route/Epochs.antt =====
-- A buffer enters only in the session in which it was allocated.
use hisi_rf_ws.Common.{
  ℕ, ◌≤◌, ◌<◌, ◌≡◌, ◌⊎◌, ◌↔◌, inl, inr, refl, Option, none, some, Bool, true, false, arith,
  Option-cases,
}
use hisi_rf_ws.Route.{
  Core, State, AllocationEpoch, claim, next_revision, is_some, allocation_epoch,
  enter_with_allocation, enter_allocated, close_admission, subscribe_close, enter_transmit,
  drop_transmit, commit_open, drop_registration, finish, begin_delivery, end_delivery,
  initial_bootstrap_complete, initial_connect_started, initial_association_started,
  initial_association_result,
}
use hisi_rf_ws.Route.Conservation.{
  System, Step, Reach, here, next, claim_step, enter_step, finish_step, close_step, subscribe_step,
  transmit_step, transmitted_step, commit_step, drop_step, delivery_step, delivered_step,
  bootstrap_step, connect_step, associate_step, result_step,
}

-- At least, or past, the revision `n`; an exhausted revision is past every number.
abbrev pub Reaches : ℕ → Option ℕ → Type 0
Reaches n none = Unit
Reaches n (some m) = n ≤ m

abbrev pub Passes : ℕ → Option ℕ → Type 0
Passes n none = Unit
Passes n (some m) = n < m

module _ (c : Core) where
  abbrev Moves : State c → State c → Type 0
  Moves s t =
      (t.close_revision ≡ s.close_revision) ⊎ (t.close_revision ≡ next_revision s.close_revision)

  Step-Moves : {s t : System c} → Step c s t → Moves s.state t.state
  unfolding claim enter_with_allocation finish close_admission subscribe_close enter_transmit
      drop_transmit commit_open drop_registration begin_delivery end_delivery
      initial_bootstrap_complete initial_connect_started initial_association_started
      initial_association_result
  Step-Moves (claim_step s i) = ground arith
  Step-Moves (enter_step s a room) = ground arith
  Step-Moves (finish_step s before after g queued abandoned e) = inl refl
  Step-Moves (close_step s) = inr refl
  Step-Moves (subscribe_step s w) = inl refl
  Step-Moves (transmit_step s g) = ground arith
  Step-Moves (transmitted_step s pos) = inl refl
  Step-Moves (commit_step s intent g t e) = ground arith
  Step-Moves (drop_step s) = inr refl
  Step-Moves (delivery_step s) = inl refl
  Step-Moves (delivered_step s r q pos) = inl refl
  Step-Moves (bootstrap_step s) = inl refl
  Step-Moves (connect_step s id) = inl refl
  Step-Moves (associate_step s) = inl refl
  Step-Moves (result_step s success) = inr refl

  -- The steps that end a session.
  abbrev pub closes : {s t : System c} → Step c s t → Bool
  closes (close_step s) = true
  closes (drop_step s) = true
  closes (result_step s success) = true
  closes _ = false

  pub Step-Passes :
      {s t : System c} (n : ℕ) (st : Step c s t)
      → closes st ≡ true
      → Reaches n s.state.close_revision
      → Passes n t.state.close_revision
  unfolding close_admission drop_registration initial_association_result
  Step-Passes n (close_step s) e h = ground arith
  Step-Passes n (drop_step s) e h = ground arith
  Step-Passes n (result_step s success) e h = ground arith
  Step-Passes n _ e h = absurd (cc)

  pub Reach-revision :
      {s t : System c} (n : ℕ)
      → Reach c s t
      → (Reaches n s.state.close_revision → Reaches n t.state.close_revision)
        × (Passes n s.state.close_revision → Passes n t.state.close_revision)
  Reach-revision n here = (λ h. h, λ h. h)
  Reach-revision n (next r st) = ground (arith, Reach-revision n r, Step-Moves st)

  passed_enter :
      (s : State c) (epoch : AllocationEpoch)
      → ((n : ℕ) → epoch.revision ≡ some n → Passes n s.close_revision)
      → (enter_allocated c s epoch).1 ≡ none
  unfolding enter_allocated
  passed_enter s epoch h = elim (Option-cases epoch.revision) [
    | inl e ↦ ground arith
    | inr r ↦ ground (arith, h r.0 r.1, r.1)
  ]

  -- If any context closes admission, drops the registration or reports an association result after
  -- a buffer's epoch was captured, then the buffer is never admitted, whatever other steps come
  -- before and after that, also if the route is opened again.
  pub stale_allocation :
      {s t u w : System c}
      → Reach c s t
      → (st : Step c t u) → closes st ≡ true
      → Reach c u w
      → (enter_allocated c w.state (allocation_epoch c s.state)).1 ≡ none
  unfolding allocation_epoch
  stale_allocation {s = s} {w = w} before st hit after =
      passed_enter w.state (allocation_epoch c s.state) (λ n e.
        (Reach-revision n after).1
          (Step-Passes n st hit ((Reach-revision n before).0 (ground (arith, e)))))

  -- An entry is admitted exactly when the route has an ingress and a session and the buffer, if its
  -- epoch is known, was allocated at the present close revision.
  pub enter_lem :
      (s : State c) (allocation : Option AllocationEpoch)
      → (is_some (enter_with_allocation c s allocation).1 ≡ true) ↔ (
          (is_some s.ingress ≡ true)
          × (is_some s.generation ≡ true)
          × ((allocation ≡ none)
              ⊎ ((n : ℕ) × (allocation ≡ some (record { revision = some n }))
                  × (s.close_revision ≡ some n))))
  unfolding enter_with_allocation
  enter_lem s allocation = (to, from)
    where
      to :
          is_some (enter_with_allocation c s allocation).1 ≡ true
          → (is_some s.ingress ≡ true)
            × (is_some s.generation ≡ true)
            × ((allocation ≡ none)
                ⊎ ((n : ℕ) × (allocation ≡ some (record { revision = some n }))
                    × (s.close_revision ≡ some n)))
      to h = (
        ground arith,
        ground arith,
        elim (Option-cases allocation) [
          | inl e ↦ inl e
          | inr r ↦ elim (Option-cases r.0.revision) [
            | inl e ↦ absurd (ground (arith, r.1))
            | inr q ↦ inr (q.0, ground (arith, r.1, q.1), ground (arith, r.1, q.1))
          ]
        ],
      )

      from :
          (is_some s.ingress ≡ true)
            × (is_some s.generation ≡ true)
            × ((allocation ≡ none)
                ⊎ ((n : ℕ) × (allocation ≡ some (record { revision = some n }))
                    × (s.close_revision ≡ some n)))
          → is_some (enter_with_allocation c s allocation).1 ≡ true
      from (a, b, inl e) = ground arith
      from (a, b, inr (n, e, f)) = ground arith
