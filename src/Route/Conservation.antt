-- ===== src/Route/Conservation.antt =====
-- The route together with the tickets that are outstanding, as a step relation: any context may
-- take any step at any time.
use hisi_rf_ws.Common.{
  ℕ, ◌+◌, ◌-◌, ◌%◌, ◌<◌, ◌≡◌, ◌⊎◌, inl, inr, refl, subst, List, [], ◌∷◌, ◌++◌, Option, none, some,
  Bool, true, false, arith, ok, length, length-append, All, All-remove, All-of, u32_mod, u64_mod,
}
use hisi_rf_ws.Route.{
  Core, State, OpenIntent, CallbackTicket, AllocationEpoch, new, claim, enter_with_allocation,
  close_admission, subscribe_close, enter_transmit, drop_transmit, commit_open, drop_registration,
  finish, begin_delivery, end_delivery, initial_bootstrap_complete, initial_connect_started,
  initial_association_started, initial_association_result,
}

module _ (c : Core) where
  open c use {Generation, Ingress, Waker, OperationId, QueueError}

  -- The state with the generations of the outstanding callback tickets, and the numbers of
  -- outstanding transmit and delivery tickets.
  pub record System : Type 0 where
    pub state : State c
    pub tickets : List Generation
    pub transmits : ℕ
    pub deliveries : ℕ

  abbrev pub start : System
  start = record { state = new c; tickets = []; transmits = 0; deliveries = 0 }

  abbrev pub entered : System → State c × Option (CallbackTicket c) → System
  entered s (t, none) = record s { state = t }
  entered s (t, some ticket) = record s { state = t; tickets = ticket.generation ∷ s.tickets }

  abbrev pub transmitted : System → State c × Bool → System
  transmitted s (t, true) = record s { state = t; transmits = s.transmits + 1 }
  transmitted s (t, false) = record s { state = t }

  -- Memory holds fewer than 2^32 tickets, and fewer than 2^64 deliveries are ever under way.
  pub data Step : System → System → Type 0 where
    claim_step : (s : System) (i : Ingress) → Step s (record s { state = (claim c s.state i).0 })
    enter_step :
        (s : System) (allocation : Option AllocationEpoch)
        → length s.tickets + 1 < u32_mod
        → Step s (entered s (enter_with_allocation c s.state allocation))
    finish_step :
        (s : System) (before after : List Generation) (g : Generation) (queued abandoned : Bool)
        → s.tickets ≡ before ++ (g ∷ after)
        → Step s (record s { state = finish c s.state queued abandoned; tickets = before ++ after })
    close_step : (s : System) → Step s (record s { state = (close_admission c s.state).0 })
    subscribe_step :
        (s : System) (w : Waker) → Step s (record s { state = (subscribe_close c s.state w).0 })
    transmit_step :
        (s : System) (g : Generation) → Step s (transmitted s (enter_transmit c s.state g))
    transmitted_step :
        (s : System)
        → 0 < s.transmits
        → Step s (record s { state = drop_transmit c s.state; transmits = s.transmits - 1 })
    commit_step :
        (s : System) (intent : OpenIntent c) (g : Generation) (t : State c)
        → commit_open c s.state intent g ≡ ok t
        → Step s (record s { state = t })
    drop_step : (s : System) → Step s (record s { state = (drop_registration c s.state).0 })
    delivery_step :
        (s : System)
        → Step s (record s { state = (begin_delivery c s.state).0; deliveries = s.deliveries + 1 })
    delivered_step :
        (s : System) (revision returned : Option ℕ)
        → 0 < s.deliveries
        → Step s (record s {
          state = end_delivery c s.state revision returned;
          deliveries = s.deliveries - 1;
        })
    bootstrap_step :
        (s : System) → Step s (record s { state = initial_bootstrap_complete c s.state })
    connect_step :
        (s : System) (id : OperationId)
        → Step s (record s { state = initial_connect_started c s.state id })
    associate_step :
        (s : System) → Step s (record s { state = initial_association_started c s.state })
    result_step :
        (s : System) (success : Bool)
        → Step s (record s { state = (initial_association_result c s.state success).0 })

  pub data Reach (s : System) : System → Type 0 where
    here : Reach s s
    next : {t u : System} → Reach s t → Step t u → Reach s u

  -- The route is closed, or in the ticket's own session.
  abbrev pub OwnEpoch : State c → Generation → Type 0
  OwnEpoch t g = (t.generation ≡ none) ⊎ (t.generation ≡ some g)

  pub record IsValid (s : System) : Type 0 where
    pub in_flight_exact : s.state.diagnostics.in_flight ≡ length s.tickets
    pub tickets_fit : length s.tickets < u32_mod
    pub transmits_exact : s.state.diagnostics.transmits_in_flight ≡ s.transmits
    pub transmits_fit : s.transmits < u32_mod
    pub conserved :
        let d = s.state.diagnostics in (d.entered ≡ (d.queued + d.dropped + d.in_flight) % u64_mod)
    pub own_epoch : All (OwnEpoch s.state) s.tickets
    pub deliveries_conserved :
        let h = s.state.host_deliveries in
        h.exhausted ≡ false
        → (h.entered ≡ h.returned + h.abandoned + h.in_flight) × (h.in_flight ≡ s.deliveries)

  start-IsValid : IsValid start
  unfolding new
  start-IsValid = ground arith

  -- A closed route is in no ticket's way.
  closed_epochs : (t : State c) (gs : List Generation) → t.generation ≡ none → All (OwnEpoch t) gs
  closed_epochs t gs e = All-of (OwnEpoch t) gs (λ g. inl e)

  -- A step that leaves the generation leaves the epochs.
  same_epochs :
      (t u : State c) (gs : List Generation)
      → u.generation ≡ t.generation
      → All (OwnEpoch t) gs
      → All (OwnEpoch u) gs
  same_epochs t u [] e h = tt
  same_epochs t u (g ∷ gs) e h = (ground (arith, h.0), same_epochs t u gs e h.1)

  -- So does one that closes the route.
  kept_epochs :
      (t u : State c) (gs : List Generation)
      → (u.generation ≡ t.generation) ⊎ (u.generation ≡ none)
      → All (OwnEpoch t) gs
      → All (OwnEpoch u) gs
  kept_epochs t u gs (inl e) h = same_epochs t u gs e h
  kept_epochs t u gs (inr e) h = closed_epochs u gs e

  no_tickets : (t : State c) (gs : List Generation) → length gs ≡ 0 → All (OwnEpoch t) gs
  no_tickets t [] h = tt
  no_tickets t (g ∷ gs) h = absurd (omega arith)

  claim-IsValid :
      (s : System) (i : Ingress) → IsValid s → IsValid (record s { state = (claim c s.state i).0 })
  unfolding claim
  claim-IsValid s i v = record {
    in_flight_exact = ground (arith, v.in_flight_exact);
    tickets_fit = v.tickets_fit;
    transmits_exact = ground (arith, v.transmits_exact);
    transmits_fit = v.transmits_fit;
    conserved = ground (arith, v.conserved);
    own_epoch = kept_epochs s.state (claim c s.state i).0 s.tickets (ground arith) v.own_epoch;
    deliveries_conserved = λ h. ground (arith, v.deliveries_conserved);
  }

  enter-IsValid :
      (s : System) (allocation : Option AllocationEpoch)
      → length s.tickets + 1 < u32_mod
      → IsValid s
      → IsValid (entered s (enter_with_allocation c s.state allocation))
  unfolding enter_with_allocation
  enter-IsValid s allocation room v =
      let epochs =
        same_epochs s.state (enter_with_allocation c s.state allocation).0 s.tickets (ground arith)
          v.own_epoch in
      record {
        in_flight_exact = ground (arith, v.in_flight_exact);
        tickets_fit = ground (arith, v.tickets_fit);
        transmits_exact = ground (arith, v.transmits_exact);
        transmits_fit = ground (arith, v.transmits_fit);
        conserved = ground (arith, v.conserved, v.in_flight_exact);
        own_epoch = ground (arith, epochs);
        deliveries_conserved = ground (arith, v.deliveries_conserved);
      }

  finish-IsValid :
      (s : System) (before after : List Generation) (g : Generation) (queued abandoned : Bool)
      → s.tickets ≡ before ++ (g ∷ after)
      → IsValid s
      → IsValid (record s { state = finish c s.state queued abandoned; tickets = before ++ after })
  unfolding finish
  finish-IsValid s before after g queued abandoned e v =
      let size : length s.tickets ≡ length (before ++ after) + 1 =
        rw e (omega (arith, length-append before (g ∷ after), length-append before after)) in
      let fit = v.tickets_fit in
      record {
        in_flight_exact = ground (arith, v.in_flight_exact, size, fit);
        tickets_fit = omega arith;
        transmits_exact = ground (arith, v.transmits_exact);
        transmits_fit = v.transmits_fit;
        conserved = ground (arith, v.conserved, v.in_flight_exact, size, fit);
        own_epoch =
            same_epochs s.state (finish c s.state queued abandoned) (before ++ after) (ground arith)
              (All-remove (OwnEpoch s.state) before g after
                (subst (All (OwnEpoch s.state)) e v.own_epoch));
        deliveries_conserved = λ h. ground (arith, v.deliveries_conserved);
      }

  -- A step that counts nothing, and keeps or ends the session.
  quiet-IsValid :
      (s : System) (t : State c)
      → t.diagnostics ≡ s.state.diagnostics
      → t.host_deliveries ≡ s.state.host_deliveries
      → (t.generation ≡ s.state.generation) ⊎ (t.generation ≡ none)
      → IsValid s
      → IsValid (record s { state = t })
  quiet-IsValid s t d h g v = record {
    in_flight_exact = ground (arith, v.in_flight_exact);
    tickets_fit = v.tickets_fit;
    transmits_exact = ground (arith, v.transmits_exact);
    transmits_fit = v.transmits_fit;
    conserved = ground (arith, v.conserved);
    own_epoch = kept_epochs s.state t s.tickets g v.own_epoch;
    deliveries_conserved = λ q. ground (arith, v.deliveries_conserved);
  }

  transmit-IsValid :
      (s : System) (g : Generation)
      → IsValid s
      → IsValid (transmitted s (enter_transmit c s.state g))
  unfolding enter_transmit
  transmit-IsValid s g v =
      let epochs =
        same_epochs s.state (enter_transmit c s.state g).0 s.tickets (ground arith) v.own_epoch in
      record {
        in_flight_exact = ground (arith, v.in_flight_exact);
        tickets_fit = ground (arith, v.tickets_fit);
        transmits_exact = ground (arith, v.transmits_exact);
        transmits_fit = ground (arith, v.transmits_fit, v.transmits_exact);
        conserved = ground (arith, v.conserved);
        own_epoch = ground (arith, epochs);
        deliveries_conserved = ground (arith, v.deliveries_conserved);
      }

  transmitted-IsValid :
      (s : System)
      → 0 < s.transmits
      → IsValid s
      → IsValid (record s { state = drop_transmit c s.state; transmits = s.transmits - 1 })
  unfolding drop_transmit
  transmitted-IsValid s pos v = record {
    in_flight_exact = v.in_flight_exact;
    tickets_fit = v.tickets_fit;
    transmits_exact = omega (arith, v.transmits_exact, v.transmits_fit);
    transmits_fit = omega (arith, v.transmits_fit);
    conserved = v.conserved;
    own_epoch = same_epochs s.state (drop_transmit c s.state) s.tickets refl v.own_epoch;
    deliveries_conserved = v.deliveries_conserved;
  }

  commit-IsValid :
      (s : System) (intent : OpenIntent c) (g : Generation) (t : State c)
      → commit_open c s.state intent g ≡ ok t
      → IsValid s
      → IsValid (record s { state = t })
  unfolding commit_open
  commit-IsValid s intent g t e v =
      let idle : s.state.diagnostics.in_flight ≡ 0 = ground arith in
      record {
        in_flight_exact = ground (arith, v.in_flight_exact);
        tickets_fit = v.tickets_fit;
        transmits_exact = ground (arith, v.transmits_exact);
        transmits_fit = v.transmits_fit;
        conserved = ground (arith, v.conserved);
        own_epoch = no_tickets t s.tickets (omega (arith, v.in_flight_exact));
        deliveries_conserved = λ q. ground (arith, v.deliveries_conserved);
      }

  delivery-IsValid :
      (s : System)
      → IsValid s
      → IsValid (record s { state = (begin_delivery c s.state).0; deliveries = s.deliveries + 1 })
  unfolding begin_delivery
  delivery-IsValid s v = record {
    in_flight_exact = v.in_flight_exact;
    tickets_fit = v.tickets_fit;
    transmits_exact = v.transmits_exact;
    transmits_fit = v.transmits_fit;
    conserved = v.conserved;
    own_epoch = same_epochs s.state (begin_delivery c s.state).0 s.tickets refl v.own_epoch;
    deliveries_conserved = λ q. ground (arith, v.deliveries_conserved);
  }

  delivered-IsValid :
      (s : System) (revision returned : Option ℕ)
      → 0 < s.deliveries
      → IsValid s
      → IsValid (record s {
        state = end_delivery c s.state revision returned;
        deliveries = s.deliveries - 1;
      })
  unfolding end_delivery
  delivered-IsValid s revision returned pos v = record {
    in_flight_exact = v.in_flight_exact;
    tickets_fit = v.tickets_fit;
    transmits_exact = v.transmits_exact;
    transmits_fit = v.transmits_fit;
    conserved = v.conserved;
    own_epoch =
        same_epochs s.state (end_delivery c s.state revision returned) s.tickets refl v.own_epoch;
    deliveries_conserved = λ q. ground (arith, v.deliveries_conserved);
  }

  Step-IsValid : {s t : System} → Step s t → IsValid s → IsValid t
  unfolding close_admission subscribe_close drop_registration initial_bootstrap_complete
      initial_connect_started initial_association_started initial_association_result
  Step-IsValid (claim_step s i) v = claim-IsValid s i v
  Step-IsValid (enter_step s a room) v = enter-IsValid s a room v
  Step-IsValid (finish_step s before after g queued abandoned e) v =
      finish-IsValid s before after g queued abandoned e v
  Step-IsValid (close_step s) v =
      quiet-IsValid s (close_admission c s.state).0 refl refl (inr refl) v
  Step-IsValid (subscribe_step s w) v =
      quiet-IsValid s (subscribe_close c s.state w).0 refl refl (inl refl) v
  Step-IsValid (transmit_step s g) v = transmit-IsValid s g v
  Step-IsValid (transmitted_step s pos) v = transmitted-IsValid s pos v
  Step-IsValid (commit_step s intent g t e) v = commit-IsValid s intent g t e v
  Step-IsValid (drop_step s) v =
      quiet-IsValid s (drop_registration c s.state).0 refl refl (inr refl) v
  Step-IsValid (delivery_step s) v = delivery-IsValid s v
  Step-IsValid (delivered_step s revision returned pos) v =
      delivered-IsValid s revision returned pos v
  Step-IsValid (bootstrap_step s) v =
      quiet-IsValid s (initial_bootstrap_complete c s.state) refl refl (inl refl) v
  Step-IsValid (connect_step s id) v =
      quiet-IsValid s (initial_connect_started c s.state id) refl refl (inl refl) v
  Step-IsValid (associate_step s) v =
      quiet-IsValid s (initial_association_started c s.state) refl refl (inl refl) v
  Step-IsValid (result_step s success) v =
      quiet-IsValid s (initial_association_result c s.state success).0 refl refl (inr refl) v

  -- In every system that is reached from the start by steps of any contexts: the callbacks entered
  -- are those queued, dropped or in flight (modulo 2^64); `in_flight` and `transmits_in_flight`
  -- count the outstanding tickets; while a callback ticket is outstanding the route is closed or
  -- in the ticket's own session; and unless a counter is full the host deliveries entered are those
  -- returned, abandoned or in flight, and those in flight are the outstanding ones.
  pub Reach-IsValid : {s : System} → Reach start s → IsValid s
  Reach-IsValid here = start-IsValid
  Reach-IsValid (next r st) = Step-IsValid st (Reach-IsValid r)
