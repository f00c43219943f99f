-- ===== src/SlotQueue/Association.antt =====
-- src/upstream_supplicant.rs: the association event of the one-shot session, which goes to the route of
-- src/netif_l2.rs as well as to the link queue.
use hisi_rf_ws.Common.{
  ℕ, ◌≡◌, ◌≢◌, ◌⊎◌, ◌↔◌, inl, inr, refl, sym, ◌∙◌, ap, subst, List, none, Bool, true, false, ◌&&◌,
  ◌==◌, arith, Bool-cases,
}
use hisi_rf_ws.InitialSession.{InitialSession, check, result}
use hisi_rf_ws.Route.{Core, State, initial_association_result, close_admission}
use hisi_rf_ws.SlotQueue.{Queue}
use hisi_rf_ws.SlotQueue.Queues.{
  LinkMeta, LinkContent, LinkKind, is_associate, is_disconnect, enqueue_with_admission,
}
use hisi_rf_ws.SlotQueue.Delivery.{link_loss_closes}

module _ (c : Core) where
  abbrev pub succeeded : Bool → LinkMeta → Bool
  succeeded ready meta = ready && is_associate meta.kind && (meta.status_or_reason == 0)

  -- The wakers that the two calls on the route take are woken by the caller.
  abbrev pub close_route : State c → State c
  close_route s = (close_admission c s).0

  unfoldable pub enqueue_initial_association :
      State c
      → Queue LinkContent
      → Bool
      → LinkMeta
      → List ℕ
      → List ℕ
      → State c × Queue LinkContent × Bool
  enqueue_initial_association s q ready meta first second =
      enqueue_with_admission close_route ((initial_association_result c s (succeeded ready meta)).0)
        q ready meta first second

  rejected_check :
      (id : c.OperationId) → ¬ (check c.same_operation InitialSession.rejected id ≡ true)
  rejected_check id h = ground (arith, h)

  -- The session is associated after a result exactly when it was associating and has succeeded.
  result-check :
      (i : InitialSession c.OperationId) (b : Bool) (id : c.OperationId)
      → check c.same_operation (result i b) id ≡ true
      → (b ≡ true)
        × ((other : c.OperationId) × (i ≡ InitialSession.associating other)
            × (c.same_operation other id ≡ true))
  unfolding result
  result-check (InitialSession.associating other) true id h = (refl, (other, refl, h))
  result-check (InitialSession.associating other) false id h = absurd (ground (arith, h))
  result-check InitialSession.uninitialized b id h = absurd (ground (arith, h))
  result-check InitialSession.bootstrapped b id h = absurd (ground (arith, h))
  result-check (InitialSession.armed other) b id h = absurd (ground (arith, h))
  result-check (InitialSession.associated other) b id h = absurd (ground (arith, h))
  result-check InitialSession.opened b id h = absurd (ground (arith, h))
  result-check InitialSession.rejected b id h = absurd (ground (arith, h))

  -- What the event must be, and what the session was.
  abbrev pub Admits : State c → Bool → LinkMeta → Bool → c.OperationId → Type 0
  Admits s ready meta queued id =
      (ready ≡ true)
      × (is_associate meta.kind ≡ true)
      × (meta.status_or_reason ≡ 0)
      × (queued ≡ true)
      × ((other : c.OperationId) × (s.initial ≡ InitialSession.associating other)
          × (c.same_operation other id ≡ true))

  associate-connected : (k : LinkKind) → is_associate k ≡ true → is_disconnect k ≡ false
  associate-connected LinkKind.other h = refl
  associate-connected LinkKind.associate h = refl
  associate-connected LinkKind.disconnect h = absurd (ground (arith, h))

  succeeded-true :
      (ready : Bool) (meta : LinkMeta)
      → ready ≡ true
      → is_associate meta.kind ≡ true
      → meta.status_or_reason ≡ 0
      → succeeded ready meta ≡ true
  succeeded-true ready meta r a z = ground (arith, r, a, z)

  admitted-check :
      (s : State c) (ready : Bool) (meta : LinkMeta) (queued : Bool) (id : c.OperationId)
      → Admits s ready meta queued id
      → check c.same_operation (result s.initial (succeeded ready meta)) id ≡ true
  unfolding result
  admitted-check s ready meta queued id (r, a, z, k, (other, was, same)) =
      ap (λ b. check c.same_operation (result s.initial b) id) (succeeded-true ready meta r a z)
      ∙ ap (λ i. check c.same_operation (result i true) id) was
      ∙ same

  refused-Admits :
      (s : State c) (ready : Bool) (meta : LinkMeta) (queued : Bool) (id : c.OperationId)
      → Admits s ready meta queued id
      → ¬ (
          (ready ≡ false)
          ⊎ (is_disconnect meta.kind ≡ true)
          ⊎ (meta.status_or_reason ≢ 0)
          ⊎ (queued ≡ false))
  refused-Admits s ready meta queued id (r, a, z, k, other) (inl h) = ground (arith, r, h)
  refused-Admits s ready meta queued id (r, a, z, k, other) (inr (inl h)) =
      ground (arith, associate-connected meta.kind a, h)
  refused-Admits s ready meta queued id (r, a, z, k, other) (inr (inr (inl h))) = h z
  refused-Admits s ready meta queued id (r, a, z, k, other) (inr (inr (inr h))) =
      ground (arith, k, h)

  -- After an event of the link, the admission is closed, and the one-shot session passes its check for
  -- an operation exactly when the port was ready, the event was an association with status 0 that
  -- was queued, and the session was associating for that operation.
  pub enqueue_initial_association-Admits :
      (s : State c) (q : Queue LinkContent) (ready : Bool) (meta : LinkMeta) (first second : List ℕ)
      (id : c.OperationId)
      → let (t, r, queued) = enqueue_initial_association s q ready meta first second in
        (t.generation ≡ none)
        × ((check c.same_operation t.initial id ≡ true) ↔ Admits s ready meta queued id)
  unfolding enqueue_initial_association initial_association_result close_admission
  enqueue_initial_association-Admits s q ready meta first second id =
      let u = (initial_association_result c s (succeeded ready meta)).0 in
      let queued_flag = (enqueue_with_admission close_route u q ready meta first second).2 in
      elim (link_loss_closes close_route u q ready meta first second) [
        | inl kept ↦ (
          ap (λ (x : State c). x.generation) kept.1,
          (
            λ h.
                let (won, other) =
                  result-check s.initial (succeeded ready meta) id (
                    subst (λ (x : State c). check c.same_operation x.initial id ≡ true) kept.1 h) in
                (kept.0.0, ground (arith, won, Bool-cases ready), kept.0.2, kept.0.3, other),
            λ a.
                subst (λ (x : State c). check c.same_operation x.initial id ≡ true) (sym kept.1)
                  (admitted-check s ready meta queued_flag id a),
          ),
        )
        | inr lost ↦ (
          ap (λ (x : State c). x.generation) lost.1,
          (
            λ h. absurd (
                rejected_check id
                  (subst (λ (x : State c). check c.same_operation x.initial id ≡ true) lost.1 h)),
            λ a. absurd (refused-Admits s ready meta queued_flag id a lost.0),
          ),
        )
      ]
