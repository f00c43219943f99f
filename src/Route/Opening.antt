-- ===== src/Route/Opening.antt =====
-- A session is opened only if nothing has closed admission or delivered a frame since the opening
-- was prepared.
use hisi_rf_ws.Common.{
  ℕ, ◌≤◌, ◌<◌, ◌≡◌, ◌⊎◌, ◌↔◌, refl, Option, none, some, Bool, true, false, arith, ok, is_ok,
}
use hisi_rf_ws.Route.{
  Core, State, OpenIntent, claim, next_revision, enter_with_allocation, close_admission,
  subscribe_close, enter_transmit, drop_transmit, prepare_open, commit_open, consume_initial,
  drop_registration, finish, begin_delivery, end_delivery, initial_bootstrap_complete,
  initial_connect_started, initial_association_started, initial_association_result,
}
use hisi_rf_ws.Route.Conservation.{
  System, Step, Reach, here, next, claim_step, enter_step, finish_step, close_step, subscribe_step,
  transmit_step, transmitted_step, commit_step, drop_step, delivery_step, delivered_step,
  bootstrap_step, connect_step, associate_step, result_step,
}

-- At least, or past, the revision `n`; an exhausted revision is past every number.
abbrev AtLeast : ℕ → Option ℕ → Type 0
AtLeast n none = Unit
AtLeast n (some m) = n ≤ m

abbrev Beyond : ℕ → Option ℕ → Type 0
Beyond n none = Unit
Beyond n (some m) = n < m

module _ (c : Core) (revision deliveries : ℕ) where
  -- Since a preparation at this close revision and delivery count.
  record Since (t : State c) : Type 0 where
    revision_kept : AtLeast revision t.close_revision
    deliveries_kept :
        (t.host_deliveries.exhausted ≡ true) ⊎ (deliveries ≤ t.host_deliveries.entered)

  -- Something has happened since.
  abbrev Past : State c → Type 0
  Past t =
      Beyond revision t.close_revision
      ⊎ ((t.host_deliveries.exhausted ≡ true) ⊎ (deliveries < t.host_deliveries.entered))

  record Onwards (t u : State c) : Type 0 where
    since : Since t → Since u
    past : Past t → Past u

  closing :
      (t u : State c)
      → u.close_revision ≡ (next_revision t.close_revision)
      → u.host_deliveries ≡ t.host_deliveries
      → Onwards t u × (Since t → Past u)
  closing t u e h = ground arith

  keeping :
      (t u : State c)
      → u.close_revision ≡ t.close_revision
      → u.host_deliveries ≡ t.host_deliveries
      → Onwards t u
  keeping t u e h = ground arith

  delivering :
      (t : State c) → Onwards t (begin_delivery c t).0 × (Since t → Past (begin_delivery c t).0)
  unfolding begin_delivery
  delivering t = ground arith

  ending : (t : State c) (r q : Option ℕ) → Onwards t (end_delivery c t r q)
  unfolding end_delivery
  ending t r q = ground arith

module _ (c : Core) where
  -- A closure of admission, a drop of the registration, an association result, or the entry of a
  -- host delivery.
  abbrev pub interrupts : {s t : System c} → Step c s t → Bool
  interrupts (close_step s) = true
  interrupts (drop_step s) = true
  interrupts (delivery_step s) = true
  interrupts (result_step s success) = true
  interrupts _ = false

  module _ (revision deliveries : ℕ) where
    Step-Onwards : {s t : System c} → Step c s t → Onwards c revision deliveries s.state t.state
    unfolding claim enter_with_allocation finish close_admission subscribe_close enter_transmit
        drop_transmit commit_open drop_registration initial_bootstrap_complete
        initial_connect_started initial_association_started initial_association_result
    Step-Onwards (claim_step s i) =
        keeping c revision deliveries s.state _ (ground arith) (ground arith)
    Step-Onwards (enter_step s a room) =
        keeping c revision deliveries s.state _ (ground arith) (ground arith)
    Step-Onwards (finish_step s before after g queued abandoned e) =
        keeping c revision deliveries s.state _ refl refl
    Step-Onwards (close_step s) =
        (closing c revision deliveries s.state (close_admission c s.state).0 refl refl).0
    Step-Onwards (subscribe_step s w) = keeping c revision deliveries s.state _ refl refl
    Step-Onwards (transmit_step s g) =
        keeping c revision deliveries s.state _ (ground arith) (ground arith)
    Step-Onwards (transmitted_step s pos) = keeping c revision deliveries s.state _ refl refl
    Step-Onwards (commit_step s intent g t e) =
        keeping c revision deliveries s.state t (ground arith) (ground arith)
    Step-Onwards (drop_step s) =
        (closing c revision deliveries s.state (drop_registration c s.state).0 refl refl).0
    Step-Onwards (delivery_step s) = (delivering c revision deliveries s.state).0
    Step-Onwards (delivered_step s r q pos) = ending c revision deliveries s.state r q
    Step-Onwards (bootstrap_step s) = keeping c revision deliveries s.state _ refl refl
    Step-Onwards (connect_step s id) = keeping c revision deliveries s.state _ refl refl
    Step-Onwards (associate_step s) = keeping c revision deliveries s.state _ refl refl
    Step-Onwards (result_step s success) =
        (closing c revision deliveries s.state (initial_association_result c s.state success).0 refl
          refl).0

    Step-Past :
        {s t : System c} (st : Step c s t)
        → interrupts st ≡ true
        → Since c revision deliveries s.state
        → Past c revision deliveries t.state
    unfolding close_admission drop_registration initial_association_result
    Step-Past (close_step s) e =
        (closing c revision deliveries s.state (close_admission c s.state).0 refl refl).1
    Step-Past (drop_step s) e =
        (closing c revision deliveries s.state (drop_registration c s.state).0 refl refl).1
    Step-Past (result_step s success) e =
        (closing c revision deliveries s.state (initial_association_result c s.state success).0 refl
          refl).1
    Step-Past (delivery_step s) e = (delivering c revision deliveries s.state).1
    Step-Past _ e = absurd (cc)

    Reach-Onwards : {s t : System c} → Reach c s t → Onwards c revision deliveries s.state t.state
    Reach-Onwards here = record { since = λ h. h; past = λ h. h }
    Reach-Onwards (next r st) =
        let a = Reach-Onwards r in
        let b = Step-Onwards st in
        record { since = λ h. b.since (a.since h); past = λ h. b.past (a.past h) }

  prepared-Since :
      (t : State c) (intent : OpenIntent c)
      → prepare_open c t ≡ ok intent
      → Since c intent.close_revision intent.host_delivery_revision t
  unfolding prepare_open
  prepared-Since t intent e = ground arith

  commit-Past :
      (t : State c) (intent : OpenIntent c) (g : c.Generation)
      → Past c intent.close_revision intent.host_delivery_revision t
      → is_ok (commit_open c t intent g) ≡ false
  unfolding commit_open
  commit-Past t intent g h = ground arith

  -- If, between the preparation of an opening and its commit, any context closes admission, drops
  -- the registration, reports an association result or starts a host delivery, then the commit is
  -- refused, whatever other steps come before and after that.
  pub open_interrupted :
      {s t u w : System c} (intent : OpenIntent c) (g : c.Generation)
      → prepare_open c s.state ≡ ok intent
      → Reach c s t
      → (st : Step c t u) → interrupts st ≡ true
      → Reach c u w
      → is_ok (commit_open c w.state intent g) ≡ false
  open_interrupted {w = w} intent g e before st hit after =
      let r = intent.close_revision in
      let d = intent.host_delivery_revision in
      commit-Past w.state intent g (
        (Reach-Onwards r d after).past
          (Step-Past r d st hit ((Reach-Onwards r d before).since (prepared-Since _ intent e))))

  -- A commit opens the session exactly when the close revision and the delivery count are those of
  -- the intent, no counter is full, the route is closed, no ticket is in flight, and the one-shot
  -- session of the intent, if it has one, still passes its check.
  pub commit_open_lem :
      (s : State c) (intent : OpenIntent c) (g : c.Generation)
      → (is_ok (commit_open c s intent g) ≡ true) ↔ (
          (s.close_revision ≡ some intent.close_revision)
          × (s.host_deliveries.entered ≡ intent.host_delivery_revision)
          × (s.host_deliveries.exhausted ≡ false)
          × (s.generation ≡ none)
          × (s.diagnostics.in_flight ≡ 0)
          × (s.diagnostics.transmits_in_flight ≡ 0)
          × (s.host_deliveries.in_flight ≡ 0)
          × (is_ok (consume_initial c s.initial intent.initial_operation) ≡ true))
  unfolding commit_open
  commit_open_lem s intent g = ground arith
