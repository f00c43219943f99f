-- ===== src/UserCleanup/Tests.antt =====
-- The theorems on the user-cleanup tracker at concrete runs.
use mathlib.Core.List.{Memᴰ}
use hisi_rf_ws.Common.{
  ℕ, ◌≡◌, refl, List, [], ◌∷◌, some, arith, false, ◌==◌, find_slot, any_slot, free_slot,
}
use hisi_rf_ws.UserCleanup.{Op, new, begin, begin_free, finish_free, finish, run}
use hisi_rf_ws.UserCleanup.Invariant.{IsValid, new-IsValid, user_cleanup-IsValid}
use hisi_rf_ws.UserCleanup.Native.{Native, World, delete, delete_lem}
use hisi_rf_ws.Route
use hisi_rf_ws.Route.{Core}
use hisi_rf_ws.HostTx
use hisi_rf_ws.UserCleanup.Receipts.{certified_deletion}

abbrev nested_free : List Op
nested_free = Op.begin_free_op 9 ∷ Op.finish_free_op 1 0 ∷ []

abbrev deletion : List Op
deletion = Op.begin_op 9 ∷ nested_free

-- A free that fails.
abbrev failed_free : List Op
failed_free = Op.begin_op 9 ∷ Op.begin_free_op 9 ∷ Op.finish_free_op 1 7 ∷ []

user_cleanup-IsValid_example : IsValid (run new deletion)
user_cleanup-IsValid_example = user_cleanup-IsValid deletion

failed_free_fault : (run new failed_free).diagnostic.fault ≡ 7
unfolding new begin run finish finish_free begin_free find_slot any_slot free_slot
failed_free_fault = refl

begun : (begin new 9).1 ≡ some 1
unfolding new begin run finish finish_free begin_free find_slot any_slot free_slot
begun = refl

certified : (finish (run (begin new 9).0 nested_free) (some 1) 0).1 ≡ 0
unfolding new begin run finish finish_free begin_free find_slot any_slot free_slot
certified = refl

certified_deletion_example : (◌≡◌ {A = ℕ} 0 0) × Memᴰ (Op.finish_free_op 1 0) nested_free
certified_deletion_example = certified_deletion 9 1 nested_free 0 new-IsValid begun certified

abbrev core : Core
core = record {
  Generation = ℕ;
  Ingress = ℕ;
  Waker = ℕ;
  OperationId = ℕ;
  QueueError = ℕ;
  same_generation = λ a b. a == b;
  same_generation_iff = λ a b. ground arith;
  same_operation = λ a b. a == b;
  same_operation_iff = λ a b. ground arith;
}

-- A deletion whose nested free succeeds.
abbrev native : Native core
native = record {
  real_delete = λ vap user. record {
    cleanup_ops = nested_free;
    host_ops = [];
    on_route = λ s. s;
    status = 0;
  };
  real_free = λ index. record { cleanup_ops = []; host_ops = []; on_route = λ s. s; status = 0 };
  user_at = λ index. 9;
  inject_fault = false;
}

abbrev world : World core
world = record { route = Route.new core; host = HostTx.new; cleanup = new }

deleted : (delete core native world 1 9).1 ≡ 0
unfolding new begin run finish finish_free begin_free find_slot any_slot free_slot delete
deleted = refl

delete_lem_example :
    let d = native.real_delete 1 9 in
    (d.status ≡ 0)
    × ((k : ℕ) × ((begin world.cleanup 9).1 ≡ some k) × Memᴰ (Op.finish_free_op k 0) d.cleanup_ops)
delete_lem_example = delete_lem core native world 1 9 new-IsValid deleted
