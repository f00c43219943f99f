-- ===== src/InitialSession.antt =====
-- src/netif_l2/initial_session.rs: the one-shot bring-up policy, over opaque operation ids.
pub mod OneShot
mod Tests
use hisi_rf_ws.Common.{List, Bool, true, false}

pub data InitialSession (O : Type 0) : Type 0 where
  uninitialized : InitialSession O
  bootstrapped : InitialSession O
  armed : O → InitialSession O
  associating : O → InitialSession O
  associated : O → InitialSession O
  opened : InitialSession O
  rejected : InitialSession O

module _ {O : Type 0} where
  unfoldable pub bootstrap : InitialSession O → InitialSession O
  bootstrap InitialSession.uninitialized = InitialSession.bootstrapped
  bootstrap _ = InitialSession.rejected

  unfoldable pub connect : InitialSession O → O → InitialSession O
  connect InitialSession.bootstrapped id = InitialSession.armed id
  connect _ id = InitialSession.rejected

  unfoldable pub associate : InitialSession O → InitialSession O
  associate (InitialSession.armed id) = InitialSession.associating id
  associate _ = InitialSession.rejected

  unfoldable pub result : InitialSession O → Bool → InitialSession O
  result (InitialSession.associating id) true = InitialSession.associated id
  result _ success = InitialSession.rejected

-- `check` succeeds: the session is associated for this operation.
abbrev pub check : {O : Type 0} → (O → O → Bool) → InitialSession O → O → Bool
check same (InitialSession.associated other) id = same other id
check same _ id = false

-- What the driver reports to the policy; `close` is a native closure of admission.
pub data Event (O : Type 0) : Type 0 where
  bootstrap_event : Event O
  connect_event : O → Event O
  associate_event : Event O
  result_event : Bool → Event O
  close_event : Event O

module _ {O : Type 0} where
  unfoldable pub step : InitialSession O → Event O → InitialSession O
  step s Event.bootstrap_event = bootstrap s
  step s (Event.connect_event id) = connect s id
  step s Event.associate_event = associate s
  step s (Event.result_event success) = result s success
  step s Event.close_event = InitialSession.rejected

  unfoldable pub run : InitialSession O → List (Event O) → InitialSession O
  unfolding step
  run s List.[] = s
  run s (List.◌∷◌ e es) = run (step s e) es
