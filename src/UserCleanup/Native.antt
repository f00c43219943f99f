-- ===== src/UserCleanup/Native.antt =====
-- The linker wrappers of user_cleanup.rs round the native user deletion and the native free. The
-- native functions are a parameter: each returns its status and what other contexts, and the
-- native code itself, do to the trackers and to the route while it runs.
use mathlib.Core.List.{Memᴰ}
use hisi_rf_ws.Common.{
  ℕ, ◌≡◌, List, Option, none, some, Bool, true, false, arith, inl, inr, ◌==◌, ◌&&◌, Option-cases,
  if◌then◌else◌,
}
use hisi_rf_ws.Route.{Core, State, close_admission}
use hisi_rf_ws.HostTx
use hisi_rf_ws.HostTx.Table
use hisi_rf_ws.HostTx.Invariant
use hisi_rf_ws.UserCleanup.{Tracker, Ticket, Op, begin, begin_free, finish_free, finish, run, step}
use hisi_rf_ws.UserCleanup.Invariant.{IsValid, step-IsValid, run-IsValid}
use hisi_rf_ws.UserCleanup.Receipts.{finish_zero, certified_deletion}

-- What happens during a native call, and its status.
pub record During (c : Core) : Type 0 where
  pub cleanup_ops : List Op
  pub host_ops : List HostTx.Op
  pub on_route : State c → State c
  pub status : ℕ  -- u32

pub record Native (c : Core) : Type 0 where
  pub real_delete : ℕ → ℕ → During c
  pub real_free : ℕ → During c
  pub user_at : ℕ → ℕ
  pub inject_fault : Bool

pub record World (c : Core) : Type 0 where
  pub route : State c
  pub host : HostTx.Tracker
  pub cleanup : Tracker

module _ (c : Core) (n : Native c) where
  unfoldable pub pass : World c → During c → World c
  pass w d = record {
    route = d.on_route w.route;
    host = HostTx.run w.host d.host_ops;
    cleanup = run w.cleanup d.cleanup_ops;
  }

  -- The closures and the ticket, before the native deletion.
  unfoldable pub delete_entered : World c → ℕ → World c × Option Ticket
  delete_entered w user =
      let (t, ticket) = begin w.cleanup user in
      (
        record { route = (close_admission c w.route).0; host = HostTx.close w.host; cleanup = t },
        ticket,
      )

  unfoldable pub delete : World c → ℕ → ℕ → World c × ℕ
  unfolding delete_entered pass
  delete w vap user =
      let (u, ticket) = delete_entered w user in
      let d = n.real_delete vap user in
      let v = pass u d in
      let (t, status) = finish v.cleanup ticket d.status in (record v { cleanup = t }, status)

  abbrev pub is_tracked : Option Ticket → Bool
  is_tracked none = false
  is_tracked (some k) = true

  abbrev pub finish_free_for : Tracker → Option Ticket → ℕ → Tracker
  finish_free_for t none status = t
  finish_free_for t (some ticket) status = finish_free t ticket status

  -- The status 100 replaces a success where the build injects a fault.
  unfoldable pub free : World c → ℕ → World c × ℕ
  unfolding pass
  free w index =
      let (t, ticket) = begin_free w.cleanup (n.user_at index) in
      let d = n.real_free index in
      let v = pass (record w { cleanup = t }) d in
      let status =
        if n.inject_fault && is_tracked ticket && (d.status == 0) then 100 else d.status in
      (record v { cleanup = finish_free_for v.cleanup ticket status }, status)

  finish_free_for-IsValid :
      {t : Tracker} (ticket : Option Ticket) (status : ℕ)
      → IsValid t
      → IsValid (finish_free_for t ticket status)
  unfolding step
  finish_free_for-IsValid none status v = v
  finish_free_for-IsValid (some k) status v = step-IsValid (Op.finish_free_op k status) v

  -- Both wrappers keep both trackers valid, whatever the native functions return and whatever other
  -- contexts do while they run.
  pub cleanup_wrappers-IsValid :
      (w : World c) (vap user index : ℕ)
      → IsValid w.cleanup
      → HostTx.Table.IsValid w.host
      → (IsValid (delete w vap user).0.cleanup × HostTx.Table.IsValid (delete w vap user).0.host)
        × (IsValid (free w index).0.cleanup × HostTx.Table.IsValid (free w index).0.host)
  unfolding delete free step
  cleanup_wrappers-IsValid w vap user index v h =
      let d = n.real_delete vap user in
      let e = n.real_free index in
      let begun = step-IsValid (Op.begin_op user) v in
      let freeing = step-IsValid (Op.begin_free_op (n.user_at index)) v in
      (
        (
          step-IsValid (Op.finish_op (begin w.cleanup user).1 d.status)
              (run-IsValid d.cleanup_ops begun),
          HostTx.Invariant.run-IsValid d.host_ops (HostTx.Table.close-IsValid h),
        ),
        (
          finish_free_for-IsValid (begin_free w.cleanup (n.user_at index)).1 (free w index).1
              (run-IsValid e.cleanup_ops freeing),
          HostTx.Invariant.run-IsValid e.host_ops h,
        ),
      )

  -- If the deletion wrapper returns 0 on a valid tracker, then the native deletion returned 0, the
  -- wrapper's own ticket was issued, and while the native deletion ran a native free was completed
  -- under that ticket with status 0.
  pub delete_lem :
      (w : World c) (vap user : ℕ)
      → IsValid w.cleanup
      → (delete w vap user).1 ≡ 0
      → let d = n.real_delete vap user in
        (d.status ≡ 0)
        × ((k : Ticket) × ((begin w.cleanup user).1 ≡ some k)
            × Memᴰ (Op.finish_free_op k 0) d.cleanup_ops)
  unfolding delete
  delete_lem w vap user v z = elim (Option-cases (begin w.cleanup user).1) [
    | inl e ↦
        let d = n.real_delete vap user in
        let t = run (begin w.cleanup user).0 d.cleanup_ops in
        let (_, _, (i, a, hit, _)) = (finish_zero t (begin w.cleanup user).1 d.status).0 z in
        absurd (ground (arith, e, hit))
    | inr r ↦
        let d = n.real_delete vap user in
        let (clean, freed) =
          certified_deletion user r.0 d.cleanup_ops d.status v r.1 (rw (← r.1) z) in
        (clean, (r.0, r.1, freed))
  ]
