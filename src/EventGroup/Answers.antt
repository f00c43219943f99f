-- ===== src/EventGroup/Answers.antt =====
-- What a reader is told.
use hisi_rf_ws.Common.{
  ℕ, ◌≤◌, ◌<◌, ◌≡◌, ◌≢◌, ◌⊎◌, inl, inr, refl, sym, ◌∙◌, ap, List, [], ◌∷◌, Option, none, some, true,
  false, not, ◌&&◌, ◌==◌, arith, leb, saturating_inc32, Bool-cases, Option-cases, position, u32_max,
}
use hisi_rf_ws.EventGroup.{
  EventGroup, EventWaiter, Round, osal_nok, event_matches, matched_event, poll_event, read_section,
  register_at, register_polled, register_section, registered, missed, polled, read_round, read_on,
  osal_event_read, deadline, is_semaphore,
}

matched_event-answer :
    (e : EventGroup) (mask mode : ℕ) (o : Option ℕ) → (matched_event e mask mode o).1 ≡ o
matched_event-answer e mask mode none = refl
matched_event-answer e mask mode (some m) = refl

-- A poll answers with the match of the bits that the group has then.
poll_event-answer :
    (e : EventGroup) (mask mode v : ℕ)
    → (poll_event e mask mode).1 ≡ some v
    → event_matches e.bits mask mode ≡ some v
unfolding poll_event
poll_event-answer e mask mode v h =
    sym (matched_event-answer e mask mode (event_matches e.bits mask mode)) ∙ h

-- A poll leaves the table of the readers as it is.
matched_event-waiters :
    (e : EventGroup) (mask mode : ℕ) (o : Option ℕ)
    → (matched_event e mask mode o).0.waiters ≡ e.waiters
matched_event-waiters e mask mode none = refl
matched_event-waiters e mask mode (some m) = refl

poll_event-waiters :
    (e : EventGroup) (mask mode : ℕ) → (poll_event e mask mode).0.waiters ≡ e.waiters
unfolding poll_event
poll_event-waiters e mask mode = matched_event-waiters e mask mode (event_matches e.bits mask mode)

-- Why a registration ends the round: the second poll matches, or no place is free.
registered-answer :
    (mask mode : ℕ) (p : EventGroup × Option ℕ) (r : Round) (v : ℕ)
    → (registered (register_polled r.semaphore mask mode p) r).1 ≡ some v
    → (p.1 ≡ some v)
      ⊎ ((v ≡ osal_nok) × ((position (is_semaphore 0) p.0.waiters ≡ none) ⊎ (r.acquired ≡ false)))
registered-answer mask mode (e, some m) r v h = inl (ground (arith, h))
registered-answer mask mode (e, none) r v h =
    let waiter : EventWaiter = record { semaphore = r.semaphore; mask = mask; mode = mode } in
    let go = λ (o : Option ℕ). (registered (register_at e waiter o) r).1 in
    elim (Option-cases (position (is_semaphore 0) e.waiters)) [
      | inl full ↦
          let failed : some osal_nok ≡ some v = ap go (sym full) ∙ h in
          inr (ground (arith, failed), inl full)
      | inr (i, free) ↦
          let ended : go (some i) ≡ some v = ap go (sym free) ∙ h in
          elim (Bool-cases r.acquired) [
            | inl a ↦ absurd (ground (arith, ended, a))
            | inr a ↦ inr (ground (arith, ended, a), inr a)
          ]
    ]

module _ (mask timeout_ms mode start : ℕ) where
  -- The groups that a run of the reader polls, each in its round: at the start of a round, and, if
  -- that poll has no match, the deadline has not passed and the semaphore is made, again before the
  -- registration.
  pub data Polls : EventGroup → List Round → EventGroup → Round → Type 0 where
    first : (e : EventGroup) (r : Round) (rounds : List Round) → Polls e (r ∷ rounds) e r
    second :
        (e : EventGroup) (r : Round) (rounds : List Round)
        → (read_section e mask mode).1 ≡ none
        → (timeout_ms ≢ u32_max → r.now < deadline start timeout_ms)
        → r.semaphore_made ≡ true
        → Polls e (r ∷ rounds) (r.before_registration (read_section e mask mode).0) r
    later :
        (e g : EventGroup) (r q : Round) (rounds : List Round)
        → (read_round mask timeout_ms mode start e r).1 ≡ none
        → Polls ((read_round mask timeout_ms mode start e r).0) rounds g q
        → Polls e (r ∷ rounds) g q

  -- The reasons for an answer, in a round in which the reader polls the group `g`.
  abbrev pub Answers : ℕ → EventGroup → Round → Type 0
  Answers v g r =
      (event_matches g.bits mask mode ≡ some v)
      ⊎ ((v ≡ osal_nok)
          × ((r.semaphore_made ≡ false)
              ⊎ (position (is_semaphore 0) g.waiters ≡ none)
              ⊎ (r.acquired ≡ false)))
      ⊎ ((v ≡ 0) × (timeout_ms ≢ u32_max) × (deadline start timeout_ms ≤ r.now))

  abbrev Explained : EventGroup → List Round → ℕ → Type 0
  Explained e rounds v = (g : EventGroup) × (r : Round) × Polls e rounds g r × Answers v g r

  registered-Answers :
      (g : EventGroup) (r : Round) (v : ℕ)
      → (registered (register_section g r.semaphore mask mode) r).1 ≡ some v
      → Answers v g r
  unfolding register_section
  registered-Answers g r v h = elim (registered-answer mask mode (poll_event g mask mode) r v h) [
    | inl met ↦ inl (poll_event-answer g mask mode v met)
    | inr (bad, inl full) ↦ inr (
        inl (
          bad,
          inr (inl (ap (position (is_semaphore 0)) (sym (poll_event-waiters g mask mode)) ∙ full)),
        ))
    | inr (bad, inr lost) ↦ inr (inl (bad, inr (inr lost)))
  ]

  -- The middle of a round: an answer of its own, or the second poll.
  missed-Answers :
      (e g : EventGroup) (r : Round) (v : ℕ)
      → (missed mask timeout_ms mode start e r).1 ≡ some v
      → Answers v g r
        ⊎ ((timeout_ms ≢ u32_max → r.now < deadline start timeout_ms)
            × (r.semaphore_made ≡ true)
            × Answers v (r.before_registration e) r)
  unfolding missed
  missed-Answers e g r v h =
      elim (Bool-cases (not (timeout_ms == u32_max) && leb (deadline start timeout_ms) r.now)) [
        | inl late ↦
            inl (inr (inr (ground (arith, h, late), ground (arith, late), ground (arith, late))))
        | inr early ↦ elim (Bool-cases r.semaphore_made) [
          | inr bad ↦ inl (inr (inl (ground (arith, h, early, bad), inl bad)))
          | inl made ↦ inr (
            λ timed. ground (arith, early, timed),
            made,
            registered-Answers (r.before_registration e) r v (ground (arith, h, early, made)),
          )
        ]
      ]

  polled-Answers :
      (g : EventGroup) (p : EventGroup × Option ℕ) (r : Round) (v : ℕ)
      → (polled mask timeout_ms mode start r p).1 ≡ some v
      → (p.1 ≡ some v)
        ⊎ Answers v g r
        ⊎ ((p.1 ≡ none)
            × (timeout_ms ≢ u32_max → r.now < deadline start timeout_ms)
            × (r.semaphore_made ≡ true)
            × Answers v (r.before_registration p.0) r)
  polled-Answers g (e, some m) r v h = inl h
  polled-Answers g (e, none) r v h = elim (missed-Answers e g r v h) [
    | inl why ↦ inr (inl why)
    | inr (early, made, why) ↦ inr (inr (refl, early, made, why))
  ]

  read_section-answer :
      (e : EventGroup) (v : ℕ)
      → (read_section e mask mode).1 ≡ some v
      → event_matches e.bits mask mode ≡ some v
  unfolding read_section
  read_section-answer e v met =
      poll_event-answer
        (record e { reads = saturating_inc32 e.reads; last_read_mask = mask; last_mode = mode })
        mask mode v met

  round-Explained :
      (e : EventGroup) (r : Round) (rounds : List Round) (v : ℕ)
      → (read_round mask timeout_ms mode start e r).1 ≡ some v
      → Explained e (r ∷ rounds) v
  unfolding read_round
  round-Explained e r rounds v h = elim (polled-Answers e (read_section e mask mode) r v h) [
    | inl met ↦ (e, r, Polls.first e r rounds, inl (read_section-answer e v met))
    | inr (inl why) ↦ (e, r, Polls.first e r rounds, why)
    | inr (inr (miss, early, made, why)) ↦ (
      r.before_registration (read_section e mask mode).0,
      r,
      Polls.second e r rounds miss early made,
      why,
    )
  ]

  read_on-answer :
      (p : EventGroup × Option ℕ) (rounds : List Round) (v : ℕ)
      → (read_on (λ f. osal_event_read mask timeout_ms mode start f rounds) p).1 ≡ some v
      → (p.1 ≡ some v)
        ⊎ ((p.1 ≡ none) × ((osal_event_read mask timeout_ms mode start p.0 rounds).1 ≡ some v))
  read_on-answer (e, some m) rounds v h = inl h
  read_on-answer (e, none) rounds v h = inr (refl, h)

  -- A value that the reader returns has its reason in a round of this very run. It is the match of
  -- its mask and mode with the bits of the group that the round polls, whatever other contexts do
  -- in between; or OSAL_NOK, where the semaphore could not be made, the polled group had no free
  -- place, or the wait was not acquired, a timed-out wait included; or 0, with a finite timeout,
  -- where the deadline had passed when the clock was read.
  pub osal_event_read-Answers :
      (e : EventGroup) (rounds : List Round) (v : ℕ)
      → (osal_event_read mask timeout_ms mode start e rounds).1 ≡ some v
      → (g : EventGroup) × (r : Round) × Polls e rounds g r × Answers v g r
  unfolding osal_event_read
  osal_event_read-Answers e [] v h = absurd (ground (arith, h))
  osal_event_read-Answers e (r ∷ rounds) v h =
      elim (read_on-answer (read_round mask timeout_ms mode start e r) rounds v h) [
        | inl now ↦ round-Explained e r rounds v now
        | inr (on, more) ↦
            let (g, q, path, why) =
              osal_event_read-Answers ((read_round mask timeout_ms mode start e r).0) rounds v
                more in
            (g, q, Polls.later e g r q rounds on path, why)
      ]
