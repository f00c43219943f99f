-- ===== src/HostTx/Invariant.antt =====
-- The invariant of the queue-4 tracker, over every interleaving of its critical sections.
use hisi_rf_ws.Common.{List, [], ◌∷◌}
use hisi_rf_ws.HostTx.{Tracker, Op, new, step, run}
use hisi_rf_ws.HostTx.Table.{
  IsValid, new-IsValid, fail-IsValid, close-IsValid, seal-IsValid, resume-IsValid,
}
use hisi_rf_ws.HostTx.Updates.{
  post_returned-IsValid, dispatch-IsValid, before_free-IsValid, complete-IsValid,
}
use hisi_rf_ws.HostTx.Admission.{begin-IsValid}

-- Every critical section keeps the tracker valid.
pub step-IsValid : {t : Tracker} (op : Op) → IsValid t → IsValid (step t op)
unfolding step
step-IsValid (Op.begin_op pointer) v = begin-IsValid pointer v
step-IsValid (Op.post_returned_op ticket status) v = post_returned-IsValid ticket status v
step-IsValid (Op.dispatch_op pointer) v = dispatch-IsValid pointer v
step-IsValid (Op.before_free_op pointer) v = before_free-IsValid pointer v
step-IsValid (Op.complete_op ticket for_free status) v = complete-IsValid ticket for_free status v
step-IsValid Op.close_op v = close-IsValid v
step-IsValid Op.seal_op v = seal-IsValid v
step-IsValid (Op.fail_op status) v = fail-IsValid status v
step-IsValid (Op.resume_op status) v = resume-IsValid status v

pub run-IsValid : {t : Tracker} (ops : List Op) → IsValid t → IsValid (run t ops)
unfolding run
run-IsValid [] v = v
run-IsValid {t = t} (op ∷ ops) v = run-IsValid {t = step t op} ops (step-IsValid op v)

-- From a new tracker, after any sequence of critical sections: the frames accepted are those
-- processed, dropped or pending; the pending ones are the occupied slots, of which no two have one
-- ticket and no two queued ones have one address; at most 32 are ever pending; and a fault or a
-- seal has closed admission.
pub host_tx-IsValid : (ops : List Op) → IsValid (run new ops)
host_tx-IsValid ops = run-IsValid ops new-IsValid
