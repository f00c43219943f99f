-- ===== src/Timer.antt =====
-- src/timer.rs: the software timer service. The caller-owned `OsalTimer` objects are a memory from
-- addresses to records, with 0 for the null pointer. Each function that takes the lock is one step;
-- `osal_timer_init`, which takes it twice, is one step as well.
pub mod Owners
pub mod Firing
pub mod Delay
pub mod Lifecycle
pub mod Silence
mod Tests
use hisi_rf_ws.Common.{
  ℕ, zero, suc, ◌+◌, ◌-◌, ◌%◌, ◌^◌, List, [], ◌∷◌, Option, none, some, Bool, true, false, not, ◌||◌,
  ◌&&◌, ◌==◌, ltb, leb, min, max, if◌then◌else◌, ℤ, pos, u64_mod, u32_max, replicate, is_none,
}

abbrev pub osal_ok : ℤ
osal_ok = pos 0

abbrev pub osal_nok : ℤ
osal_nok = pos 1

abbrev pub max_timers : ℕ
max_timers = 32

pub record OsalTimer : Type 0 where
  pub timer : ℕ  -- the handle: the slot's index plus 1, or null
  pub handler : Option ℕ
  pub argument : ℕ
  pub interval : ℕ  -- u32

pub record Slot : Type 0 where
  pub used : Bool
  pub active : Bool
  pub periodic : Bool
  pub timer : ℕ
  pub deadline : ℕ  -- u64
  pub interval : ℕ  -- u64

abbrev pub empty_slot : Slot
empty_slot = record {
  used = false;
  active = false;
  periodic = false;
  timer = 0;
  deadline = 0;
  interval = 0;
}

pub record World : Type 0 where
  pub slots : List Slot
  pub timers : ℕ → OsalTimer
  pub worker_started : Bool

abbrev pub local_timer_init : World → World
local_timer_init w = record w { slots = replicate max_timers empty_slot }

-- A write through the pointer `p`.
abbrev pub store : (ℕ → OsalTimer) → ℕ → OsalTimer → ℕ → OsalTimer
store timers p t q = if q == p then t else timers q

abbrev later_slot : Slot → List Slot × Option ℕ → List Slot × Option ℕ
later_slot s (rest, none) = (s ∷ rest, none)
later_slot s (rest, some i) = (s ∷ rest, some (suc i))

unfoldable pub alloc_slot : List Slot → List Slot × Option ℕ
alloc_slot [] = ([], none)
alloc_slot (s ∷ rest) =
    let others = alloc_slot rest in
    if s.used then later_slot s others else (record empty_slot { used = true } ∷ rest, some 0)

-- A change of one slot in place.
abbrev pub update : List Slot → ℕ → (Slot → Slot) → List Slot
update [] i f = []
update (s ∷ rest) zero f = f s ∷ rest
update (s ∷ rest) (suc i) f = s ∷ update rest i f

-- `spawned` is whether the worker task could be created.
unfoldable pub ensure_timer_worker : World → Bool → World × Bool
ensure_timer_worker w spawned =
    if w.worker_started then (w, true) else (record w { worker_started = spawned }, spawned)

abbrev pub assign : World → ℕ → List Slot × Option ℕ → World × ℤ
assign w p (slots, none) = (w, osal_nok)
assign w p (slots, some i) = (
  record w {
    slots = update slots i (λ s. record s { timer = p; interval = (w.timers p).interval });
    timers = store w.timers p (record (w.timers p) { timer = i + 1 });
  },
  osal_ok,
)

-- The end of `osal_timer_init`, once the worker was asked for.
unfoldable pub init_running : ℕ → World × Bool → World × ℤ
unfolding alloc_slot
init_running p (v, false) = (v, osal_nok)
init_running p (v, true) = assign v p (alloc_slot v.slots)

unfoldable pub osal_timer_init : World → ℕ → Bool → World × ℤ
unfolding init_running ensure_timer_worker
osal_timer_init w p spawned =
    if p == 0
    then (w, osal_nok)
    else let t = w.timers p in
      if is_none t.handler || not (t.timer == 0) || (t.interval == 0)
      then (w, osal_nok)
      else init_running p (ensure_timer_worker w spawned)

unfoldable pub osal_adapt_timer_init : World → ℕ → ℕ → ℕ → ℕ → Bool → World × ℤ
unfolding osal_timer_init
osal_adapt_timer_init w p func argument interval spawned =
    if (p == 0) || (func == 0)
    then (w, osal_nok)
    else let t : OsalTimer = record {
      timer = 0;
      handler = some func;
      argument = argument;
      interval = interval;
    } in
      osal_timer_init (record w { timers = store w.timers p t }) p spawned

unfoldable pub slot_of : World → ℕ → Option ℕ
slot_of w p =
    if p == 0
    then none
    else let h = (w.timers p).timer in if (h == 0) || ltb max_timers h then none else some (h - 1)

abbrev pub slot_at : List Slot → ℕ → Slot
slot_at [] i = empty_slot
slot_at (s ∷ rest) zero = s
slot_at (s ∷ rest) (suc i) = slot_at rest i

abbrev pub arm : ℕ → ℕ → Slot → Slot
arm now interval s = record s {
  interval = interval;
  deadline = (now + interval) % u64_mod;
  active = true;
  periodic = false;
}

abbrev pub mod_at : World → ℕ → ℕ → ℕ → Option ℕ → World × ℤ
mod_at w p interval now none = (w, osal_nok)
mod_at w p interval now (some i) =
    let v = record w { timers = store w.timers p (record (w.timers p) { interval = interval }) } in
    if (slot_at w.slots i).used
    then (record v { slots = update w.slots i (arm now interval) }, osal_ok)
    else (v, osal_nok)

unfoldable pub osal_timer_mod : World → ℕ → ℕ → ℕ → World × ℤ
unfolding slot_of
osal_timer_mod w p interval now =
    if interval == 0 then (w, osal_nok) else mod_at w p interval now (slot_of w p)

abbrev pub stop_at : World → Option ℕ → World × ℤ
stop_at w none = (w, osal_nok)
stop_at w (some i) = (
  record w { slots = update w.slots i (λ s. record s { active = false }) },
  if (slot_at w.slots i).active then pos 1 else pos 0,
)

unfoldable pub osal_timer_stop : World → ℕ → World × ℤ
unfolding slot_of
osal_timer_stop w p = stop_at w (slot_of w p)

abbrev pub destroy_at : World → ℕ → Option ℕ → World × ℤ
destroy_at w p none = (w, osal_ok)
destroy_at w p (some i) = (
  record w {
    slots = update w.slots i (λ s. empty_slot);
    timers = store w.timers p (record (w.timers p) { timer = 0 });
  },
  osal_ok,
)

unfoldable pub osal_timer_destroy : World → ℕ → World × ℤ
unfolding slot_of
osal_timer_destroy w p = destroy_at w p (slot_of w p)

abbrev pub is_due : ℕ → Slot → Bool
is_due now s = s.used && s.active && leb s.deadline now

abbrev pub expire : ℕ → Slot → Slot
expire now s =
    if s.periodic
    then record s { deadline = (now + s.interval) % u64_mod }
    else record s { active = false }

-- The timers that are due, in the order of their slots, collected under the lock.
unfoldable pub collect : ℕ → List Slot → List Slot × List ℕ
collect now [] = ([], [])
collect now (s ∷ rest) =
    let (slots, due) = collect now rest in
    if is_due now s then (expire now s ∷ slots, s.timer ∷ due) else (s ∷ slots, due)

-- The handlers are called outside the lock, each with what its timer object holds by then. `call` is
-- what a handler does to the world.
abbrev pub fire_one : (ℕ → ℕ → World → World) → World → ℕ → World
fire_one call w p =
    if p == 0
    then w
    else elim ((w.timers p).handler) [ none ↦ w | some f ↦ call f (w.timers p).argument w ]

abbrev pub fire_all : (ℕ → ℕ → World → World) → World → List ℕ → World
fire_all call w [] = w
fire_all call w (p ∷ due) = fire_all call (fire_one call w p) due

unfoldable pub local_timer_timeout_proc : (ℕ → ℕ → World → World) → World → ℕ → World
unfolding collect
local_timer_timeout_proc call w now =
    let (slots, due) = collect now w.slots in fire_all call (record w { slots = slots }) due

abbrev pub nearer : Option ℕ → ℕ → Option ℕ
nearer none d = some d
nearer (some b) d = some (min b d)

unfoldable pub nearest : ℕ → List Slot → Option ℕ → Option ℕ
nearest now [] best = best
nearest now (s ∷ rest) best =
    nearest now rest (if s.used && s.active then nearer best (s.deadline - now) else best)

-- `d.clamp(1, u32::MAX as u64) as u32`, and `u32::MAX` without an armed timer.
abbrev pub clamped : Option ℕ → ℕ
clamped none = u32_max
clamped (some d) = min (max d 1) u32_max

unfoldable pub next_delay_ms : List Slot → ℕ → ℕ
unfolding nearest
next_delay_ms slots now = clamped (nearest now slots none)
