-- ===== src/Timer/Tests.antt =====
-- The theorems on the timers at a concrete table.
use mathlib.Core.List.{Memᴰ}
use hisi_rf_ws.Common.{
  subst, ℕ, ◌+◌, ◌≡◌, ◌↔◌, ◌≤◌, ◌≢◌, refl, length, [], ◌∷◌, some, true, false, arith, max,
  replicate,
}
use hisi_rf_ws.Timer.{
  Slot, World, OsalTimer, empty_slot, store, collect, osal_timer_mod, osal_timer_stop,
  osal_timer_init, next_delay_ms, slot_of, alloc_slot, init_running, ensure_timer_worker,
}
use hisi_rf_ws.Timer.Owners.{Owned}
use hisi_rf_ws.Timer.Firing.{mod_fires}
use hisi_rf_ws.Timer.Silence.{Unarmed, stopped_silent}
use hisi_rf_ws.Timer.Delay.{wakes_in_time}
use hisi_rf_ws.Timer.Lifecycle.{Move, Reaches, timers_own, reached-Owned, cleared-Owned}

abbrev blank : OsalTimer
blank = record { timer = 0; handler = some 9; argument = 5; interval = 10 }

abbrev empty : World
empty = record { slots = replicate 32 empty_slot; timers = λ p. blank; worker_started = true }

empty-Owned : Owned empty
empty-Owned i s at used = absurd (ground (arith, used, cleared-Owned empty 32 i s at))

-- The timer at address 64 owns the first slot.
abbrev mine : Slot
mine = record {
  used = true;
  active = false;
  periodic = false;
  timer = 64;
  deadline = 0;
  interval = 10;
}

abbrev one : World
one = record {
  slots = mine ∷ replicate 31 empty_slot;
  timers = store (λ p. blank) 64 (record blank { timer = 1 });
  worker_started = true;
}

one_made : (osal_timer_init empty 64 true).0 ≡ one
unfolding osal_timer_init init_running ensure_timer_worker alloc_slot
one_made = refl

one_reached : Reaches empty one
one_reached =
    Reaches.next empty one one (subst (Move empty) one_made (Move.init empty 64 true))
      (Reaches.here one)

one-Owned : Owned one
one-Owned = reached-Owned one_reached empty-Owned

timers_own_example : (◌≡◌ {A = ℕ} 0 0) × ((one.timers mine.timer).timer ≡ 0 + 1)
timers_own_example = timers_own empty-Owned one_reached 0 0 mine mine refl refl refl refl refl

-- It is armed for 22, stopped, and left alone by a collection and by a call on another timer.
abbrev running : World
running = (osal_timer_mod one 64 10 12).0

running-Owned : Owned running
running-Owned =
    reached-Owned
      (Reaches.next one running running (Move.rearm one 64 10 12) (Reaches.here running)) one-Owned

running_size : length running.slots ≡ 32
unfolding osal_timer_mod slot_of
running_size = refl

abbrev stopped : World
stopped = (osal_timer_stop running 64).0

abbrev collected : World
collected = record stopped { slots = (collect 1000 stopped.slots).0 }

abbrev left_alone : World
left_alone = (osal_timer_mod collected 32 5 7).0

other_unfound : (i : ℕ) → slot_of collected 32 ≡ some i → (collected.timers 64).timer ≢ i + 1
unfolding osal_timer_mod osal_timer_stop slot_of
other_unfound i found = absurd (ground (arith, found))

stopped_path : Unarmed 64 stopped left_alone
stopped_path = Unarmed.next stopped collected left_alone (Move.expire_due stopped 1000) tt (
    Unarmed.next collected left_alone left_alone (Move.rearm collected 32 5 7) other_unfound
      (Unarmed.here left_alone))

stopped_silent_example : ¬ Memᴰ 64 ((collect 2000 left_alone.slots).1)
stopped_silent_example =
    stopped_silent running left_alone 64 2000 running-Owned running_size (omega arith) stopped_path

mod_fires_example :
    Memᴰ 64 ((collect 25 ((osal_timer_mod one 64 10 12).0.slots)).1) ↔ (12 + 10 ≤ 25)
mod_fires_example =
    mod_fires one 64 0 10 12 mine one-Owned refl (omega arith) refl refl refl (omega arith)
      (omega arith) 25

abbrev armed : Slot
armed = record mine { active = true; deadline = 22 }

wakes_in_time_example :
    (1 ≤ next_delay_ms (armed ∷ []) 12)
    × (12 + next_delay_ms (armed ∷ []) 12 ≤ max armed.deadline (12 + 1))
wakes_in_time_example = wakes_in_time (armed ∷ []) 12 0 armed refl refl
