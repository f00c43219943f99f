-- ===== src/SlotQueue.antt =====
-- src/upstream_supplicant.rs: the queues from the vendor callbacks to the radio runner. Each has a
-- fixed array of slots that producers claim and a single consumer takes from, in the order of a
-- sequence number. What the four queues share is written once, over the content `A` of a slot.
pub mod Order
pub mod Queues
pub mod Room
pub mod Delivery
pub mod Association
pub mod Elements
mod Tests
use hisi_rf_ws.Common.{
  ℕ, zero, suc, ◌+◌, ◌-◌, ◌%◌, ◌^◌, List, [], ◌∷◌, Option, none, some, Bool, true, false, ◌||◌, ltb,
  if◌then◌else◌, inc32, u32_mod,
}

pub data SlotState : Type 0 where
  free writing ready reading : SlotState

pub record Slot {ℓ} (A : Type ℓ) : Type ℓ where
  pub state : SlotState
  pub sequence : ℕ  -- u32
  pub content : A

pub record Queue {ℓ} (A : Type ℓ) : Type ℓ where
  pub next_sequence : ℕ  -- u32
  pub dropped : ℕ  -- u32
  pub slots : List (Slot A)

abbrev pub is_free : SlotState → Bool
is_free SlotState.free = true
is_free _ = false

abbrev pub is_writing : SlotState → Bool
is_writing SlotState.writing = true
is_writing _ = false

abbrev pub is_ready : SlotState → Bool
is_ready SlotState.ready = true
is_ready _ = false

-- `(candidate.wrapping_sub(current) as i32) < 0`
unfoldable pub sequence_before : ℕ → ℕ → Bool
sequence_before candidate current =
    if ltb ((candidate + u32_mod - current) % u32_mod) (2 ^ 31) then false else true

module _ {ℓ} {A : Type ℓ} where
  -- The slots with a claimed and published entry in the first free slot, if there is one.
  unfoldable pub publish : ℕ → (A → A) → List (Slot A) → Option (List (Slot A))
  publish sequence write [] = none
  publish sequence write (s ∷ rest) =
      let others = publish sequence write rest in
      if is_free s.state
      then some (
          record { state = SlotState.ready; sequence = sequence; content = write s.content } ∷ rest)
      else elim others [ none ↦ none | some slots ↦ some (s ∷ slots) ]

module _ {ℓ} {A : Type ℓ} where
  abbrev pub published : Queue A → Option (List (Slot A)) → Queue A × Bool
  published q none = (record q { dropped = inc32 q.dropped }, false)
  published q (some slots) = (record q { slots = slots }, true)

  -- A sequence number is drawn first, then a slot is claimed, written and published: one step here,
  -- where the source does it without a lock.
  unfoldable pub enqueue : (A → A) → Queue A → Queue A × Bool
  unfolding publish
  enqueue write q =
      published (record q { next_sequence = inc32 q.next_sequence })
        (publish q.next_sequence write q.slots)

  -- `self.dropped.fetch_add(1, Ordering::Relaxed)` and `false`
  abbrev pub refused : Queue A → Queue A × Bool
  refused q = (record q { dropped = inc32 q.dropped }, false)

  unfoldable pub any_writing : List (Slot A) → Bool
  any_writing [] = false
  any_writing (s ∷ rest) = is_writing s.state || any_writing rest

  -- One round of the search: the slot at `index` against the best so far.
  abbrev pub older : Slot A → ℕ → Option (ℕ × ℕ) → Option (ℕ × ℕ)
  older s index none = if is_ready s.state then some (index, s.sequence) else none
  older s index (some (best, current)) =
      if is_ready s.state
      then (if sequence_before s.sequence current
          then some (index, s.sequence)
          else some (best, current))
      else some (best, current)

  unfoldable pub oldest_from : List (Slot A) → ℕ → Option (ℕ × ℕ) → Option (ℕ × ℕ)
  oldest_from [] index oldest = oldest
  oldest_from (s ∷ rest) index oldest = oldest_from rest (index + 1) (older s index oldest)

  abbrev pub set_state : List (Slot A) → ℕ → SlotState → List (Slot A)
  set_state [] index state = []
  set_state (s ∷ rest) zero state = record s { state = state } ∷ rest
  set_state (s ∷ rest) (suc index) state = s ∷ set_state rest index state

  abbrev pub claimed : List (Slot A) → Option (ℕ × ℕ) → List (Slot A) × Option ℕ
  claimed slots none = (slots, none)
  claimed slots (some (index, sequence)) = (set_state slots index SlotState.reading, some index)

  -- The slots and the index of the slot that the consumer now reads. The consumer is single, so
  -- that its claim of a ready slot succeeds.
  unfoldable pub take_oldest_slot : List (Slot A) → List (Slot A) × Option ℕ
  unfolding any_writing oldest_from
  take_oldest_slot slots =
      if any_writing slots then (slots, none) else claimed slots (oldest_from slots 0 none)

  -- The guard of a taken entry is dropped.
  unfoldable pub release : List (Slot A) → ℕ → List (Slot A)
  release slots index = set_state slots index SlotState.free
