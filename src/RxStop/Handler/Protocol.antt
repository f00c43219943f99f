-- ===== src/RxStop/Handler/Protocol.antt =====
-- `handler` of rx_stop.rs as a protocol: which of its critical sections may follow which, and at which
-- stage it may call which native function.
use hisi_rf_ws.Common.{ℕ, ◌≡◌, [], ◌∷◌, Option, none, some, Bool, true, false, Result, ok, err, ℤ}
use hisi_rf_ws.RxStop.{
  Transaction, Op, Checkpoint, contract, queued_rx, fail, enter_at, check_deadline, observe,
  may_rebuild_at, report, finish_at, step, run,
}
use hisi_rf_ws.RxStop.Rebuild.{RxRebuildDiagnostics}
use hisi_rf_ws.RxStop.Handler.{Platform, World}
use hisi_rf_ws.RxStop.Certificate.{IsValid, run-IsValid}

-- What the handler has done so far.
pub data Stage : Type 0 where
  entering identifying checking disabling destroying measuring denied allowed initialized cleaned :
      Stage
  ended : ℤ → Stage

-- The stage after a section that may refuse.
abbrev pub or_ended : Stage → Result (Unit {0}) ℤ → Stage
or_ended next (ok done) = next
or_ended next (err status) = Stage.ended status

abbrev pub permitted : Bool → Stage
permitted true = Stage.allowed
permitted false = Stage.denied

-- A probe is reported once it was allowed, and only then.
abbrev pub may_finish : Stage → Option RxRebuildDiagnostics → Bool
may_finish Stage.measuring none = true
may_finish Stage.denied none = true
may_finish Stage.allowed (some r) = true
may_finish Stage.initialized (some r) = true
may_finish Stage.cleaned (some r) = true
may_finish _ _ = false

abbrev pub reported : Transaction → Option RxRebuildDiagnostics → Transaction
reported t none = t
reported t (some r) = report t r

-- The sections of the handler itself.
pub data Section : Stage → Transaction → Stage → Transaction → Type 0 where
  enter :
      (t : Transaction) (now : Option ℕ)
      → Section Stage.entering t
          (or_ended Stage.identifying (enter_at t now).1)
          ((enter_at t now).0)
  identify :
      (t : Transaction) (expected current : ℕ)
      → Section Stage.identifying t Stage.checking (step t (Op.tasks_op expected current))
  mismatched :
      (t : Transaction)
      → Section Stage.checking t (Stage.ended (fail t contract).diagnostic.fault) (fail t contract)
  queued :
      (t : Transaction)
      → Section Stage.checking t
          (Stage.ended (fail t queued_rx).diagnostic.fault)
          (fail t queued_rx)
  check :
      (t : Transaction) (now : Option ℕ)
      → Section Stage.checking t
          (or_ended Stage.disabling (check_deadline t now).1)
          ((check_deadline t now).0)
  disabled :
      (t : Transaction) (now : Option ℕ)
      → Section Stage.disabling t Stage.destroying (observe t Checkpoint.at_disabled now)
  destroyed :
      (t : Transaction) (now : Option ℕ)
      → Section Stage.destroying t Stage.measuring (observe t Checkpoint.at_destroyed now)
  absent :
      (t : Transaction)
      → Section Stage.measuring t (Stage.ended (fail t contract).diagnostic.fault) (fail t contract)
  rebuild :
      (t : Transaction) (now : Option ℕ)
      → Section Stage.measuring t (permitted (may_rebuild_at t now).1) ((may_rebuild_at t now).0)
  initialize :
      (t : Transaction) (now : Option ℕ)
      → Section Stage.allowed t Stage.initialized (observe t Checkpoint.at_initialized now)
  clean :
      (t : Transaction) (now : Option ℕ)
      → Section Stage.initialized t Stage.cleaned (observe t Checkpoint.at_cleaned now)
  finish :
      (stage : Stage) (t : Transaction) (r : Option RxRebuildDiagnostics) (now : Option ℕ)
      (before after empty : ℕ) (status : ℤ)
      → may_finish stage r ≡ true
      → Section stage t
          (Stage.ended (finish_at (reported t r) now before after empty status).diagnostic.fault)
          (finish_at (reported t r) now before after empty status)

reported-IsValid :
    (t : Transaction) (r : Option RxRebuildDiagnostics) → IsValid t → IsValid (reported t r)
unfolding run step
reported-IsValid t none valid = valid
reported-IsValid t (some r) valid = run-IsValid {t = t} (Op.report_op r ∷ []) valid

Section-IsValid :
    {a : Stage} {t : Transaction} {b : Stage} {u : Transaction}
    → Section a t b u
    → IsValid t
    → IsValid u
unfolding run step
Section-IsValid (Section.enter t now) valid = run-IsValid {t = t} (Op.enter_op now ∷ []) valid
Section-IsValid (Section.identify t expected current) valid =
    run-IsValid {t = t} (Op.tasks_op expected current ∷ []) valid
Section-IsValid (Section.mismatched t) valid = run-IsValid {t = t} (Op.fail_op contract ∷ []) valid
Section-IsValid (Section.queued t) valid = run-IsValid {t = t} (Op.fail_op queued_rx ∷ []) valid
Section-IsValid (Section.check t now) valid = run-IsValid {t = t} (Op.check_op now ∷ []) valid
Section-IsValid (Section.disabled t now) valid =
    run-IsValid {t = t} (Op.observe_op Checkpoint.at_disabled now ∷ []) valid
Section-IsValid (Section.destroyed t now) valid =
    run-IsValid {t = t} (Op.observe_op Checkpoint.at_destroyed now ∷ []) valid
Section-IsValid (Section.absent t) valid = run-IsValid {t = t} (Op.fail_op contract ∷ []) valid
Section-IsValid (Section.rebuild t now) valid = run-IsValid {t = t} (Op.rebuild_op now ∷ []) valid
Section-IsValid (Section.initialize t now) valid =
    run-IsValid {t = t} (Op.observe_op Checkpoint.at_initialized now ∷ []) valid
Section-IsValid (Section.clean t now) valid =
    run-IsValid {t = t} (Op.observe_op Checkpoint.at_cleaned now ∷ []) valid
Section-IsValid (Section.finish stage t r now before after empty status ready) valid =
    run-IsValid {t = reported t r} (Op.finish_op now before after empty status ∷ [])
      (reported-IsValid t r valid)

-- The native functions that are only asked.
pub data Reader : Type 0 where
  clock worker current rejected thruput mac_enabled counts has_device queue_empty : Reader

-- Where the MAC may be disabled, and then the descriptors destroyed.
abbrev pub may_disable : Stage → Bool
may_disable Stage.disabling = true
may_disable Stage.initialized = true
may_disable _ = false

abbrev pub may_destroy : Stage → Bool
may_destroy Stage.destroying = true
may_destroy Stage.initialized = true
may_destroy _ = false

module _ {S : Type 0} (p : Platform S) where
  -- The native state after the call.
  abbrev pub ask : Reader → S → S
  ask Reader.clock s = (p.clock s).0
  ask Reader.worker s = (p.worker s).0
  ask Reader.current s = (p.current s).0
  ask Reader.rejected s = (p.rejected s).0
  ask Reader.thruput s = (p.thruput s).0
  ask Reader.mac_enabled s = (p.mac_enabled s).0
  ask Reader.counts s = (p.counts s).0
  ask Reader.has_device s = (p.has_device s).0
  ask Reader.queue_empty s = (p.queue_empty s).0

  -- The native calls that a stage allows. The descriptors are destroyed only right after the MAC was
  -- read as disabled.
  pub data Call : Stage → S → S → Type 0 where
    reading : (a : Stage) (r : Reader) (s : S) → Call a s (ask r s)
    disabling_mac : (a : Stage) (s : S) → may_disable a ≡ true → Call a s (p.disable s)
    destroying_lists :
        (a : Stage) (s : S)
        → may_destroy a ≡ true
        → (p.mac_enabled s).1 ≡ 0
        → Call a s ((p.destroy (p.mac_enabled s).0).0)
    filling : (s : S) → Call Stage.allowed s ((p.initialize s).0)

  -- Native calls and sections of the handler, each section after those of other contexts.
  pub data Protocol : Stage → World S → Stage → World S → Type 0 where
    here : (a : Stage) (w : World S) → Protocol a w a w
    call :
        (a b : Stage) (s r : S) (t : Transaction) (w : World S)
        → Call a s r
        → Protocol a (record { native = r; transaction = t }) b w
        → Protocol a (record { native = s; transaction = t }) b w
    section :
        (a b c : Stage) (s : S) (t u : Transaction) (w : World S)
        → Section a (run t (p.others s).1) b u
        → Protocol b (record { native = (p.others s).0; transaction = u }) c w
        → Protocol a (record { native = s; transaction = t }) c w

  pub Protocol-trans :
      {a b c : Stage} {w u v : World S} → Protocol a w b u → Protocol b u c v → Protocol a w c v
  Protocol-trans (Protocol.here a w) more = more
  Protocol-trans {c = c} {v = v} (Protocol.call a b s r t u called rest) more =
      Protocol.call a c s r t v called (Protocol-trans rest more)
  Protocol-trans {c = c} {v = v} (Protocol.section a b _ s t u x ran rest) more =
      Protocol.section a b c s t u v ran (Protocol-trans rest more)

  pub Protocol-IsValid :
      {a b : Stage} {w u : World S}
      → Protocol a w b u
      → IsValid w.transaction
      → IsValid u.transaction
  Protocol-IsValid (Protocol.here a w) valid = valid
  Protocol-IsValid (Protocol.call a b s r t w called rest) valid = Protocol-IsValid rest valid
  Protocol-IsValid (Protocol.section a b c s t u w ran rest) valid =
      Protocol-IsValid rest (Section-IsValid ran (run-IsValid {t = t} ((p.others s).1) valid))
