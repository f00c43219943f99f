-- ===== src/HostTx/Native.antt =====
-- The linker wrappers of host_tx.rs round `frw_host_post_data`, `frw_netbuf_exec_callback` and
-- `oal_netbuf_free`. The native functions are a parameter: each returns its status and the
-- critical sections that other contexts enter on the tracker while it runs. The trace records
-- which native functions the wrapper itself calls.
use hisi_rf_ws.Common.{
  ℕ, ◌≡◌, inl, inr, List, ◌∷◌, Option, none, some, Bool, true, false, arith, ◌==◌, ℤ, as_i32,
  any_slot, if◌then◌else◌, Bool-cases,
}
use hisi_rf_ws.HostTx.{
  Tracker, Begun, Rejection, Op, Ticket, contract_error, queued_at, begin, post_returned, dispatch,
  before_free, complete, run,
}
use hisi_rf_ws.HostTx.Table.{IsValid}
use hisi_rf_ws.HostTx.Updates.{
  post_returned-IsValid, dispatch-IsValid, before_free-IsValid, complete-IsValid,
}
use hisi_rf_ws.HostTx.Admission.{begin-IsValid}
use hisi_rf_ws.HostTx.Invariant.{run-IsValid}
use hisi_rf_ws.HostTx.Drain.{is_admitted}
use hisi_rf_ws.HostTx.Tickets.{begin-ne-panicked}

-- A dispatched message: its length, and the word that its data pointer leads to (`none` for null).
pub record FrwMsg : Type 0 where
  pub data_len : ℕ
  pub word : Option ℕ

pub record Native : Type 0 where
  pub real_post : ℕ → ℕ → ℕ → List Op × ℤ
  pub real_dispatch : ℕ → ℕ → Option FrwMsg → List Op × ℤ
  pub real_free : ℕ → List Op × ℕ  -- u32

pub data Call : Type 0 where
  posted : ℕ → ℕ → ℕ → Call
  dispatched : ℕ → ℕ → Call
  released : ℕ → Call

pub record World : Type 0 where
  pub tracker : Tracker
  pub calls : List Call

abbrev pub word_or_null : Option ℕ → ℕ
word_or_null none = 0
word_or_null (some p) = p

-- The pointer-sized payload that the dispatch wrapper reads; 0 for any other shape of message.
abbrev pub payload_pointer : Option FrwMsg → ℕ
payload_pointer none = 0
payload_pointer (some m) = if m.data_len == 4 then word_or_null m.word else 0

abbrev pub complete_for : Tracker → Option Ticket → Bool → ℤ → Tracker
complete_for t none for_free status = t
complete_for t (some ticket) for_free status = complete t ticket for_free status

module _ (n : Native) where
  -- The status, and the world after the call.
  unfoldable pub call_post : World → ℕ → ℕ → ℕ → World × ℤ
  call_post w kind vap netbuf =
      let (others, status) = n.real_post kind vap netbuf in
      (
        record { tracker = run w.tracker others; calls = Call.posted kind vap netbuf ∷ w.calls },
        status,
      )

  unfoldable pub call_dispatch : World → ℕ → ℕ → Option FrwMsg → World × ℤ
  call_dispatch w kind vap msg =
      let (others, status) = n.real_dispatch kind vap msg in
      (
        record { tracker = run w.tracker others; calls = Call.dispatched kind vap ∷ w.calls },
        status,
      )

  unfoldable pub call_free : World → ℕ → World × ℕ
  call_free w netbuf =
      let (others, status) = n.real_free netbuf in
      (record { tracker = run w.tracker others; calls = Call.released netbuf ∷ w.calls }, status)

  -- The wrapper after its first critical section.
  unfoldable pub post_begun : World → ℕ → ℕ → ℕ → Begun → World × ℤ
  unfolding call_post call_free
  post_begun w kind vap netbuf (Begun.admitted ticket) =
      let (u, status) = call_post w kind vap netbuf in
      (record u { tracker = post_returned u.tracker ticket status }, status)
  post_begun w kind vap netbuf (Begun.refused Rejection.release) =
      let (u, _) = call_free w netbuf in (u, contract_error)
  post_begun w kind vap netbuf (Begun.refused Rejection.duplicate) = (w, contract_error)
  -- `begin` never returns this (`begin-ne-panicked`).
  post_begun w kind vap netbuf Begun.panicked = (w, contract_error)

  unfoldable pub post : World → ℕ → ℕ → ℕ → World × ℤ
  unfolding post_begun call_post
  post w kind vap netbuf =
      if kind == 4
      then (let (t, begun) = begin w.tracker netbuf in
          post_begun (record w { tracker = t }) kind vap netbuf begun)
      else call_post w kind vap netbuf

  -- Only a message of kind 4 is looked up.
  abbrev pub lookup_dispatch : Tracker → ℕ → Option FrwMsg → Tracker × Option Ticket
  lookup_dispatch t kind msg = if kind == 4 then dispatch t (payload_pointer msg) else (t, none)

  unfoldable pub dispatch_callback : World → ℕ → ℕ → Option FrwMsg → World × ℤ
  unfolding call_dispatch
  dispatch_callback w kind vap msg =
      let (t, ticket) = lookup_dispatch w.tracker kind msg in
      let (u, status) = call_dispatch (record w { tracker = t }) kind vap msg in
      (record u { tracker = complete_for u.tracker ticket false status }, status)

  unfoldable pub free : World → ℕ → World × ℕ
  unfolding call_free
  free w netbuf =
      let (t, ticket) = before_free w.tracker netbuf in
      let (u, status) = call_free (record w { tracker = t }) netbuf in
      (record u { tracker = complete_for u.tracker ticket true (as_i32 status) }, status)

  complete_for-IsValid :
      {t : Tracker} (ticket : Option Ticket) (for_free : Bool) (status : ℤ)
      → IsValid t
      → IsValid (complete_for t ticket for_free status)
  complete_for-IsValid none for_free status v = v
  complete_for-IsValid (some ticket) for_free status v = complete-IsValid ticket for_free status v

  post_begun-IsValid :
      (w : World) (kind vap netbuf : ℕ) (b : Begun)
      → IsValid w.tracker
      → IsValid (post_begun w kind vap netbuf b).0.tracker
  unfolding post_begun
  post_begun-IsValid w kind vap netbuf (Begun.admitted ticket) v =
      post_returned-IsValid ticket (n.real_post kind vap netbuf).1
        (run-IsValid (n.real_post kind vap netbuf).0 v)
  post_begun-IsValid w kind vap netbuf (Begun.refused Rejection.release) v =
      run-IsValid (n.real_free netbuf).0 v
  post_begun-IsValid w kind vap netbuf (Begun.refused Rejection.duplicate) v = v
  post_begun-IsValid w kind vap netbuf Begun.panicked v = v

  lookup-IsValid :
      {t : Tracker} (kind : ℕ) (msg : Option FrwMsg)
      → IsValid t
      → IsValid (lookup_dispatch t kind msg).0
  lookup-IsValid kind msg v = elim (Bool-cases (kind == 4)) [
    | inl e ↦ rw e (dispatch-IsValid (payload_pointer msg) v)
    | inr e ↦ rw e v
  ]

  -- Each of the three wrappers keeps the tracker valid, whatever status the native function
  -- returns and whatever other contexts do to the tracker while it runs.
  pub wrappers-IsValid :
      (w : World) (kind vap netbuf : ℕ) (msg : Option FrwMsg)
      → IsValid w.tracker
      → IsValid (post w kind vap netbuf).0.tracker
        × IsValid (dispatch_callback w kind vap msg).0.tracker
        × IsValid (free w netbuf).0.tracker
  unfolding post dispatch_callback free
  wrappers-IsValid w kind vap netbuf msg v = (posting, dispatching, freeing_it)
    where
      posting : IsValid (post w kind vap netbuf).0.tracker
      posting = elim (Bool-cases (kind == 4)) [
        | inl e ↦ rw e (
            post_begun-IsValid (record w { tracker = (begin w.tracker netbuf).0 }) kind vap netbuf
              (begin w.tracker netbuf).1 (begin-IsValid netbuf v))
        | inr e ↦ rw e (run-IsValid (n.real_post kind vap netbuf).0 v)
      ]

      dispatching : IsValid (dispatch_callback w kind vap msg).0.tracker
      dispatching =
          complete_for-IsValid (lookup_dispatch w.tracker kind msg).1 false
            (n.real_dispatch kind vap msg).1
            (run-IsValid (n.real_dispatch kind vap msg).0 (lookup-IsValid kind msg v))

      freeing_it : IsValid (free w netbuf).0.tracker
      freeing_it =
          complete_for-IsValid (before_free w.tracker netbuf).1 true (as_i32 (n.real_free netbuf).1)
            (run-IsValid (n.real_free netbuf).0 (before_free-IsValid netbuf v))

  -- A post to queue 4 hands its buffer over exactly once. If a queued frame already has the
  -- address, no native function is called; otherwise the wrapper makes exactly one native call: the
  -- post if the tracker admits the frame, and the free if it does not.
  pub post_once :
      (w : World) (vap netbuf : ℕ)
      → (post w 4 vap netbuf).0.calls ≡ (
          if any_slot (queued_at netbuf) w.tracker.slots
          then w.calls
          else (if is_admitted (begin w.tracker netbuf).1
              then Call.posted 4 vap netbuf ∷ w.calls
              else Call.released netbuf ∷ w.calls))
  unfolding post begin
  post_once w vap netbuf = ground (arith, begin-ne-panicked w.tracker netbuf)
