-- ===== src/EventGroup/Tests.antt =====
-- The theorems on the event groups at concrete groups.
use mathlib.Core.List.{Memᴰ}
use hisi_rf_ws.Common.{ℕ, ◌≡◌, ◌≢◌, refl, [], ◌∷◌, none, some, true, false, arith, position}
use hisi_rf_ws.EventGroup.{
  EventGroup, EventWaiter, Round, new_event_group, event_matches, osal_event_read, read_round,
  read_section, poll_event, missed, register_section, unregister_waiter, write_section, woken,
  register_event_group, unregister_event_group,
}
use hisi_rf_ws.EventGroup.Wakeups.{System, Move, Reaches, At}
use hisi_rf_ws.EventGroup.Covered.{no_lost_wakeup, blank_waiters}
use hisi_rf_ws.EventGroup.Answers.{Polls, Answers, osal_event_read-Answers}

abbrev start : System
start = record { group = new_event_group; raised = [] }

-- A reader of both of the two lowest bits.
abbrev both : EventWaiter
both = record { semaphore = 77; mask = 3; mode = 4 }

abbrev waiting : System
waiting = record start { group = (register_section start.group 77 3 4).0 }

-- One of the two bits is written.
abbrev half_set : System
half_set = record { group = (write_section waiting.group 1).0; raised = [] }

half_raised : (write_section waiting.group 1).1 ≡ []
unfolding write_section woken event_matches register_section poll_event new_event_group position
half_raised = refl

fresh : (i : ℕ) (w : EventWaiter) → At start.group i w → w.semaphore ≢ 77
unfolding new_event_group
fresh i w at same = omega (arith, same, blank_waiters 8 i w at)

half_reached : Reaches start half_set
unfolding write_section woken event_matches register_section poll_event new_event_group position
half_reached =
    Reaches.later start waiting half_set (Move.register start 77 3 4 (λ e. omega (arith, e)) fresh)
      (Reaches.later waiting half_set half_set (Move.write waiting 1) (Reaches.here half_set))

half-At : At half_set.group 0 both
unfolding write_section woken event_matches register_section poll_event new_event_group position
half-At = refl

asleep : ¬ Memᴰ 77 half_set.raised
asleep m = elim m [ ]

no_lost_wakeup_example : event_matches half_set.group.bits 3 4 ≡ none
no_lost_wakeup_example =
    no_lost_wakeup half_set 0 both half_reached half-At (λ e. omega (arith, e)) asleep

-- The second write completes the condition, and wakes the reader.
then_raised : (write_section half_set.group 2).1 ≡ 77 ∷ []
unfolding write_section woken event_matches register_section poll_event new_event_group position
then_raised = refl

-- A round in which the wait times out.
abbrev timed_out : Round
timed_out = record {
  now = 5;
  semaphore = 77;
  semaphore_made = true;
  acquired = false;
  before_registration = λ e. e;
  while_waiting = λ e. e;
}

-- The status of a timed-out wait is that of a match of the lowest bit.
timed_out_read : (osal_event_read 3 10 0 0 start.group (timed_out ∷ [])).1 ≡ some 1
unfolding osal_event_read read_round read_section missed register_section poll_event event_matches
    new_event_group position unregister_waiter
timed_out_read = refl

osal_event_read-Answers_example :
    (g : EventGroup) × (r : Round) × Polls 3 10 0 0 start.group (timed_out ∷ []) g r
    × Answers 3 10 0 0 1 g r
osal_event_read-Answers_example =
    osal_event_read-Answers 3 10 0 0 start.group (timed_out ∷ []) 1 timed_out_read

groups : unregister_event_group ((register_event_group (0 ∷ 0 ∷ []) 40).0) 40 ≡ 0 ∷ 0 ∷ []
unfolding unregister_event_group register_event_group position
groups = refl
