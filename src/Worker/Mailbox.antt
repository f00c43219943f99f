-- ===== src/Worker/Mailbox.antt =====
-- At most one command is under way, so that no response is overwritten.
use hisi_rf_ws.Common.{
  ℕ, ◌+◌, ◌≤◌, ◌≡◌, inl, inr, refl, sym, ◌∙◌, ap, Option, none, some, Bool, true, false, not, ◌||◌,
  arith, bit, is_none, Bool-cases, Result,
}
use hisi_rf_ws.Worker.{
  Core, WorkerCommand, WorkerResponse, WorkerMailbox, Taken, new, submit, request_cancel, copied,
  take_matching, take_some, take_response, copy_finished, arm_stale_completion_injection, injection,
  injected, take_work, respond, kept_response, publish, response_id,
}

-- The worker between the sections of a round, and the runner between those of `take_response`.
pub record System (c : Core) : Type 0 where
  pub mailbox : WorkerMailbox c
  pub working : Option (Taken c)
  pub copying : Bool

abbrev pub is_some {ℓ} : {A : Type ℓ} → Option A → Bool
is_some o = not (is_none o)

module _ {c : Core} where
  abbrev pub started : System c
  started = record { mailbox = new; working = none; copying = false }

  abbrev pub works : Option (Taken c) → Bool
  works none = false
  works (some t) = is_some t.command

  -- The commands on their way and the responses not yet taken.
  abbrev pub under_way : System c → ℕ
  under_way s =
      bit (is_some s.mailbox.command) + (bit (works s.working) + bit (is_some s.mailbox.response))

module _ (c : Core) where
  -- The runner does one thing at a time; the worker runs beside it.
  pub data Move : System c → System c → Type 0 where
    submit_command :
        (s : System c) (command : WorkerCommand c)
        → s.copying ≡ false
        → Move s (record s { mailbox = (submit s.mailbox command).0 })
    cancel :
        (s : System c) (id : c.OperationId)
        → Move s (record s { mailbox = request_cancel s.mailbox id })
    take :
        (s : System c) (id : c.OperationId) (room : ℕ)
        → s.copying ≡ false
        → Move s (record s {
          mailbox = (take_response s.mailbox id room).0;
          copying = is_some ((take_response s.mailbox id room).2);
        })
    finish_copy :
        (s : System c)
        → s.copying ≡ true
        → Move s (record s { mailbox = copy_finished s.mailbox; copying = false })
    arm :
        (s : System c)
        → Move s (record s { mailbox = (arm_stale_completion_injection s.mailbox).0 })
    begin_round :
        (s : System c)
        → s.working ≡ none
        → Move s (record s {
          mailbox = (take_work s.mailbox).0;
          working = some ((take_work s.mailbox).1);
        })
    end_round :
        (s : System c) (t : Taken c) (a : Result (Unit {0}) c.BackendError)
        (b : Result c.WorkReport c.BackendError) (next : c.OperationId → Option ℕ)
        → s.working ≡ some t
        → Move s (record s { mailbox = publish s.mailbox t (respond t a b) next; working = none })

  pub data Reaches : System c → System c → Type 0 where
    here : (s : System c) → Reaches s s
    later : (s t u : System c) → Move s t → Reaches t u → Reaches s u

module _ {c : Core} where
  pub record IsValid (s : System c) : Type 0 where
    pub single : under_way s ≤ 1
    pub guarded : (works s.working ≡ true) → s.mailbox.worker_busy ≡ true
    pub alone : (s.copying ≡ true) → under_way s ≡ 0

  submit-IsValid :
      (s : System c) (command : WorkerCommand c)
      → s.copying ≡ false
      → IsValid s
      → IsValid (record s { mailbox = (submit s.mailbox command).0 })
  unfolding submit
  submit-IsValid s command idle v =
      elim (Bool-cases
        (is_some s.mailbox.command || s.mailbox.worker_busy || is_some s.mailbox.response)) [
          | inl e ↦ rw e v
          | inr e ↦
              let off : works s.working ≡ false =
                ground (arith, e, v.guarded, Bool-cases (works s.working)) in
              rw e (record {
                single = ground (arith, e, off);
                guarded = v.guarded;
                alone = λ x. absurd (ground (arith, idle, x));
              })
        ]

  take_matching-IsValid :
      (s : System c) (room : ℕ) (r : WorkerResponse c) (o : Option ℕ)
      → under_way s ≡ 0
      → s.mailbox.response ≡ none
      → let m = take_matching room s.mailbox r o in
        IsValid (record s { mailbox = m.0; copying = is_some (m.2) })
  take_matching-IsValid s room r none clear empty = record {
    single = omega (arith, clear);
    guarded = λ x. absurd (ground (arith, clear, x));
    alone = λ x. absurd (ground (arith, x));
  }
  take_matching-IsValid s room r (some n) clear empty = record {
    single = omega (arith, clear);
    guarded = λ x. refl;
    alone = λ x. clear;
  }

  take_some-IsValid :
      (s : System c) (id : c.OperationId) (room : ℕ) (o : Option (WorkerResponse c))
      → s.mailbox.response ≡ o
      → s.copying ≡ false
      → IsValid s
      → let m = take_some id room (record s.mailbox { response = none }) o in
        IsValid (record s { mailbox = m.0; copying = is_some (m.2) })
  take_some-IsValid s id room none at idle v = record {
    single = ground (arith, at, v.single);
    guarded = v.guarded;
    alone = λ x. absurd (ground (arith, x));
  }
  take_some-IsValid s id room (some r) at idle v =
      let one : bit (is_some s.mailbox.response) ≡ 1 = ap (λ o. bit (is_some o)) at in
      let t : System c = record s { mailbox = record s.mailbox { response = none } } in
      let clear : under_way t ≡ 0 = omega (arith, one, v.single) in
      elim (Bool-cases (not (c.same_operation (response_id r) id))) [
        | inr e ↦ rw e (take_matching-IsValid t room r (copied room r) clear refl)
        | inl e ↦ rw e (record {
          single = omega (arith, clear);
          guarded = v.guarded;
          alone = λ x. absurd (ground (arith, x));
        })
      ]

  take-IsValid :
      (s : System c) (id : c.OperationId) (room : ℕ)
      → s.copying ≡ false
      → IsValid s
      → IsValid (record s {
        mailbox = (take_response s.mailbox id room).0;
        copying = is_some ((take_response s.mailbox id room).2);
      })
  unfolding take_response
  take-IsValid s id room idle v = take_some-IsValid s id room s.mailbox.response refl idle v

  injected-same :
      (m : WorkerMailbox c) (o : Option (c.OperationId × c.WorkBudget))
      → (injected m o).response ≡ m.response
  injected-same m none = refl
  injected-same m (some stale) = refl

  begin-IsValid :
      (s : System c)
      → s.working ≡ none
      → IsValid s
      → IsValid
          (record s { mailbox = (take_work s.mailbox).0; working = some ((take_work s.mailbox).1) })
  unfolding take_work
  begin-IsValid s idle v =
      let off : works s.working ≡ false = ap works idle in
      let same =
        ap (λ o. bit (is_some o))
          (injected-same s.mailbox
            (injection s.mailbox s.mailbox.command s.mailbox.last_terminal)) in
      let zero_work : bit (works s.working) ≡ 0 = ap bit off in
      record {
        single = omega (arith, same, zero_work, v.single);
        guarded = λ x. ground (arith, x, Bool-cases (is_some s.mailbox.cancellation));
        alone = λ x. omega (arith, same, zero_work, v.alone x);
      }

  respond-some :
      (t : Taken c) (a : Result (Unit {0}) c.BackendError) (b : Result c.WorkReport c.BackendError)
      → is_some (respond t a b) ≡ is_some t.command
  unfolding respond
  respond-some t a b = respond_by t.command t.injected_stale
    where
      respond_by :
          (o : Option (WorkerCommand c)) (stale : Option (c.OperationId × c.WorkBudget))
          → is_some (respond (record t { command = o; injected_stale = stale }) a b) ≡ is_some o
      respond_by none stale = refl
      respond_by (some (WorkerCommand.start id request)) stale = refl
      respond_by (some (WorkerCommand.poll id reason budget)) none = refl
      respond_by (some (WorkerCommand.poll id reason budget)) (some x) = refl

  -- At the end of a round that answers a command, the mailbox holds no response.
  end-clear :
      (s : System c) (t : Taken c)
      → s.working ≡ some t
      → IsValid s
      → is_some t.command ≡ true
      → is_some s.mailbox.response ≡ false
  end-clear s t on v has =
      let one : bit (works s.working) ≡ 1 = ap bit (ap works on ∙ has) in
      ground (arith, v.single, one, Bool-cases (is_some s.mailbox.response))

  kept_response-count :
      (old new_one : Option (WorkerResponse c)) (b : Bool)
      → is_some new_one ≡ b
      → (b ≡ true → is_some old ≡ false)
      → bit (is_some (kept_response old new_one)) ≡ bit b + bit (is_some old)
  kept_response-count old none b e clear = ground (arith, e)
  kept_response-count old (some r) b e clear = ground (arith, e, clear)

  end-IsValid :
      (s : System c) (t : Taken c) (a : Result (Unit {0}) c.BackendError)
      (b : Result c.WorkReport c.BackendError) (next : c.OperationId → Option ℕ)
      → s.working ≡ some t
      → IsValid s
      → IsValid (record s { mailbox = publish s.mailbox t (respond t a b) next; working = none })
  unfolding publish
  end-IsValid s t a b next on v =
      let count =
        kept_response-count s.mailbox.response (respond t a b) (is_some t.command)
          (respond-some t a b) (end-clear s t on v) in
      let work : bit (works s.working) ≡ bit (is_some t.command) = ap bit (ap works on) in
      record {
        single = omega (arith, v.single, count, work);
        guarded = λ x. absurd (ground (arith, x));
        alone = λ x. omega (arith, v.alone x, count, work);
      }

  arm-IsValid :
      (s : System c)
      → IsValid s
      → IsValid (record s { mailbox = (arm_stale_completion_injection s.mailbox).0 })
  unfolding arm_stale_completion_injection
  arm-IsValid s v =
      elim (Bool-cases (is_none s.mailbox.last_terminal || s.mailbox.stale_injection_armed)) [
        | inl e ↦ rw e v
        | inr e ↦ rw e (record { single = v.single; guarded = v.guarded; alone = v.alone })
      ]

  Move-IsValid : {s t : System c} → Move c s t → IsValid s → IsValid t
  unfolding request_cancel copy_finished
  Move-IsValid (Move.submit_command s command idle) v = submit-IsValid s command idle v
  Move-IsValid (Move.cancel s id) v = record {
    single = v.single;
    guarded = v.guarded;
    alone = v.alone;
  }
  Move-IsValid (Move.take s id room idle) v = take-IsValid s id room idle v
  Move-IsValid (Move.finish_copy s copying) v =
      let clear = v.alone copying in
      record {
        single = v.single;
        guarded = λ x. absurd (ground (arith, clear, x));
        alone = λ x. absurd (ground (arith, x));
      }
  Move-IsValid (Move.arm s) v = arm-IsValid s v
  Move-IsValid (Move.begin_round s idle) v = begin-IsValid s idle v
  Move-IsValid (Move.end_round s t a b next on) v = end-IsValid s t a b next on v

  pub Reaches-IsValid : {s t : System c} → Reaches c s t → IsValid s → IsValid t
  Reaches-IsValid (Reaches.here s) v = v
  Reaches-IsValid (Reaches.later s t u move rest) v = Reaches-IsValid rest (Move-IsValid move v)

  started-IsValid : IsValid (started {c = c})
  unfolding new
  started-IsValid = record {
    single = omega arith;
    guarded = λ x. absurd (ground (arith, x));
    alone = λ x. absurd (ground (arith, x));
  }

  -- However the rounds of the worker interleave with the submissions, cancellations and receptions of
  -- one runner, at most one command or response is under way, and when a round that took a command
  -- publishes, the mailbox holds no response that it could overwrite.
  pub response_kept :
      (s : System c) (t : Taken c) (a : Result (Unit {0}) c.BackendError)
      (b : Result c.WorkReport c.BackendError)
      → Reaches c started s
      → s.working ≡ some t
      → is_some (respond t a b) ≡ true
      → (under_way s ≡ 1)
        × (is_some s.mailbox.response ≡ false)
        × (is_some s.mailbox.command ≡ false)
  response_kept s t a b path on answers =
      let v = Reaches-IsValid path started-IsValid in
      let has : is_some t.command ≡ true = sym (respond-some t a b) ∙ answers in
      let one : bit (works s.working) ≡ 1 = ap bit (ap works on ∙ has) in
      (
        omega (arith, v.single, one),
        end-clear s t on v has,
        ground (arith, v.single, one, Bool-cases (is_some s.mailbox.command)),
      )
