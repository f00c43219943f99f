-- ===== src/EventGroup.antt =====
-- src/osal_queue.rs: the OSAL event groups, a word of bits with at most eight registered readers. Each
-- function is one critical section, except the loop of `osal_event_read`, whose rounds are given what
-- the clock, the semaphore and the other contexts do.
pub mod Wakeups
pub mod Covered
pub mod Answers
mod Tests
use Prim.Native.Nat.{bit_and, bit_or}
use hisi_rf_ws.Common.{
  ℕ, zero, suc, ◌+◌, ◌-◌, ◌%◌, List, [], ◌∷◌, Option, none, some, Bool, true, false, not, ◌||◌,
  ◌&&◌, ◌==◌, leb, min, if◌then◌else◌, Result, ok, err, u32_max, u64_mod, saturating_inc32,
  position, set, replicate,
}

abbrev pub waitmode_and : ℕ
waitmode_and = 4

abbrev pub waitmode_clr : ℕ
waitmode_clr = 1

abbrev pub max_event_waiters : ℕ
max_event_waiters = 8

abbrev pub max_event_groups : ℕ
max_event_groups = 16

abbrev pub osal_nok : ℕ
osal_nok = 1

pub record EventWaiter : Type 0 where
  pub semaphore : ℕ
  pub mask : ℕ  -- u32
  pub mode : ℕ  -- u32

abbrev pub empty_waiter : EventWaiter
empty_waiter = record { semaphore = 0; mask = 0; mode = 0 }

pub record EventGroup : Type 0 where
  pub bits : ℕ  -- u32
  pub waiters : List EventWaiter
  pub reads : ℕ  -- u32
  pub writes : ℕ  -- u32
  pub matches : ℕ  -- u32
  pub last_read_mask : ℕ
  pub last_write_mask : ℕ
  pub last_mode : ℕ

unfoldable pub new_event_group : EventGroup
new_event_group = record {
  bits = 0;
  waiters = replicate max_event_waiters empty_waiter;
  reads = 0;
  writes = 0;
  matches = 0;
  last_read_mask = 0;
  last_write_mask = 0;
  last_mode = 0;
}

-- The table of the live groups' addresses, where 0 is a free place.
unfoldable pub register_event_group : List ℕ → ℕ → List ℕ × Bool
register_event_group groups group = elim (position (λ slot. slot == 0) groups) [
  | none ↦ (groups, false)
  | some i ↦ (set groups i group, true)
]

unfoldable pub unregister_event_group : List ℕ → ℕ → List ℕ
unregister_event_group groups group = elim (position (λ slot. slot == group) groups) [
  | none ↦ groups
  | some i ↦ set groups i 0
]

abbrev pub satisfied : ℕ → ℕ → ℕ → Bool
satisfied matched mask mode =
    if not (bit_and mode waitmode_and == 0)
    then (matched == mask) && not (mask == 0)
    else not (matched == 0)

unfoldable pub event_matches : ℕ → ℕ → ℕ → Option ℕ
event_matches bits mask mode =
    let matched = bit_and bits mask in if satisfied matched mask mode then some matched else none

-- `!value` on a u32.
abbrev pub complement : ℕ → ℕ
complement value = u32_max - value

abbrev pub matched_event : EventGroup → ℕ → ℕ → Option ℕ → EventGroup × Option ℕ
matched_event e mask mode none = (e, none)
matched_event e mask mode (some matched) = (
  record e {
    matches = saturating_inc32 e.matches;
    bits =
        if not (bit_and mode waitmode_clr == 0)
        then bit_and e.bits (complement matched)
        else e.bits;
  },
  some matched,
)

unfoldable pub poll_event : EventGroup → ℕ → ℕ → EventGroup × Option ℕ
unfolding event_matches
poll_event e mask mode = matched_event e mask mode (event_matches e.bits mask mode)

-- The first critical section of a round of `osal_event_read`.
unfoldable pub read_section : EventGroup → ℕ → ℕ → EventGroup × Option ℕ
unfolding poll_event
read_section e mask mode =
    poll_event
      (record e { reads = saturating_inc32 e.reads; last_read_mask = mask; last_mode = mode }) mask
      mode

abbrev pub is_semaphore : ℕ → EventWaiter → Bool
is_semaphore semaphore waiter = waiter.semaphore == semaphore

abbrev pub register_at :
    EventGroup → EventWaiter → Option ℕ → EventGroup × Result (Option ℕ) (Unit {0})
register_at e waiter none = (e, err tt)
register_at e waiter (some i) = (record e { waiters = set e.waiters i waiter }, ok none)

abbrev pub register_polled :
    ℕ → ℕ → ℕ → EventGroup × Option ℕ → EventGroup × Result (Option ℕ) (Unit {0})
register_polled semaphore mask mode (e, some matched) = (e, ok (some matched))
register_polled semaphore mask mode (e, none) =
    register_at e (record { semaphore = semaphore; mask = mask; mode = mode })
      (position (is_semaphore 0) e.waiters)

-- The second one: the reader polls again, and otherwise registers its semaphore.
unfoldable pub register_section : EventGroup → ℕ → ℕ → ℕ → EventGroup × Result (Option ℕ) (Unit {0})
unfolding poll_event
register_section e semaphore mask mode =
    register_polled semaphore mask mode (poll_event e mask mode)

abbrev pub clear_waiter : List EventWaiter → Option ℕ → List EventWaiter
clear_waiter waiters none = waiters
clear_waiter waiters (some i) = set waiters i empty_waiter

unfoldable pub unregister_waiter : EventGroup → ℕ → EventGroup
unregister_waiter e semaphore = record e {
  waiters = clear_waiter e.waiters (position (is_semaphore semaphore) e.waiters);
}

-- The semaphores that a write raises, in the order of the table.
unfoldable pub woken : ℕ → List EventWaiter → List ℕ
unfolding event_matches
woken bits [] = []
woken bits (w ∷ rest) =
    let others = woken bits rest in
    if not (w.semaphore == 0)
    then elim (event_matches bits w.mask w.mode) [
      | none ↦ others
      | some matched ↦ w.semaphore ∷ others
    ]
    else others

-- The critical section of `osal_event_write`, and the semaphores to raise after it.
unfoldable pub write_section : EventGroup → ℕ → EventGroup × List ℕ
unfolding woken
write_section e mask =
    let bits = bit_or e.bits mask in
    (
      record e { bits = bits; writes = saturating_inc32 e.writes; last_write_mask = mask },
      woken bits e.waiters,
    )

unfoldable pub osal_event_clear : EventGroup → ℕ → EventGroup
osal_event_clear e mask = record e { bits = bit_and e.bits (complement mask) }

-- One round of the reader: the clock where it is read, the address of its new semaphore and whether
-- it could be made, whether the wait was acquired, and what other contexts do to the group between
-- its critical sections.
pub record Round : Type 0 where
  pub now : ℕ
  pub semaphore : ℕ
  pub semaphore_made : Bool
  pub acquired : Bool
  pub before_registration : EventGroup → EventGroup
  pub while_waiting : EventGroup → EventGroup

abbrev pub deadline : ℕ → ℕ → ℕ
deadline start timeout_ms = (start + timeout_ms) % u64_mod

-- The end of a round, from the registration on: the reader returns a value, or goes on.
abbrev pub registered : EventGroup × Result (Option ℕ) (Unit {0}) → Round → EventGroup × Option ℕ
registered (e, ok (some matched)) r = (e, some matched)
registered (e, err failed) r = (e, some osal_nok)
registered (e, ok none) r =
    let f = unregister_waiter (r.while_waiting e) r.semaphore in
    (f, if r.acquired then none else some osal_nok)

-- The middle of a round, after a poll without a match.
unfoldable pub missed : ℕ → ℕ → ℕ → ℕ → EventGroup → Round → EventGroup × Option ℕ
unfolding register_section unregister_waiter
missed mask timeout_ms mode start e r =
    if not (timeout_ms == u32_max) && leb (deadline start timeout_ms) r.now
    then (e, some 0)
    else if not r.semaphore_made
    then (e, some osal_nok)
    else registered (register_section (r.before_registration e) r.semaphore mask mode) r

abbrev pub polled : ℕ → ℕ → ℕ → ℕ → Round → EventGroup × Option ℕ → EventGroup × Option ℕ
polled mask timeout_ms mode start r (e, some matched) = (e, some matched)
polled mask timeout_ms mode start r (e, none) = missed mask timeout_ms mode start e r

unfoldable pub read_round : ℕ → ℕ → ℕ → ℕ → EventGroup → Round → EventGroup × Option ℕ
unfolding read_section missed
read_round mask timeout_ms mode start e r =
    polled mask timeout_ms mode start r (read_section e mask mode)

abbrev pub read_on :
    (EventGroup → EventGroup × Option ℕ) → EventGroup × Option ℕ → EventGroup × Option ℕ
read_on go (e, some value) = (e, some value)
read_on go (e, none) = go e

-- `osal_event_read` on a live group, over the rounds given: `none` if it still waits after them.
unfoldable pub osal_event_read : ℕ → ℕ → ℕ → ℕ → EventGroup → List Round → EventGroup × Option ℕ
unfolding read_round
osal_event_read mask timeout_ms mode start e [] = (e, none)
osal_event_read mask timeout_ms mode start e (r ∷ rounds) =
    read_on (λ f. osal_event_read mask timeout_ms mode start f rounds)
      (read_round mask timeout_ms mode start e r)
