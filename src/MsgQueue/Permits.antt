-- ===== src/MsgQueue/Permits.antt =====
-- Readers and writers of one queue, interleaved at their critical sections and at the semaphore. A
-- counting semaphore starts without permits; an `up` adds one, and a wait that is acquired takes one.
use native.Mathlib.Decide.{dec_lt}
use hisi_rf_ws.Common.{ℕ, ◌+◌, ◌-◌, ◌≤◌, ◌<◌, ◌≡◌, ap, List, ◌∷◌, Option, true, false, arith, bit}
use hisi_rf_ws.MsgQueue.{
  Row, MsgQueue, write_copy, read_copy, osal_read, copy, wanted, stored, osal_ok,
}
use hisi_rf_ws.MsgQueue.Fifo.{IsValid, messages, written-IsValid, write_some, taken, read_takes}

pub record System : Type 0 where
  pub queue : MsgQueue
  pub permits : ℕ
  pub raising : ℕ  -- writers between their critical section and the `up`
  pub readers : ℕ  -- readers between their wait and their critical section

abbrev pub started : MsgQueue → System
started m = record { queue = m; permits = 0; raising = 0; readers = 0 }

pub data Move : System → System → Type 0 where
  write_section :
      (s : System) (buffer : List ℕ) (size : ℕ)
      → Move s (record s {
        queue = (write_copy s.queue buffer size).0;
        raising = s.raising + bit ((write_copy s.queue buffer size).1);
      })
  up_done :
      (s : System)
      → 0 < s.raising
      → Move s (record s { raising = s.raising - 1; permits = s.permits + 1 })
  up_failed : (s : System) → 0 < s.raising → Move s (record s { raising = s.raising - 1 })
  down_acquired :
      (s : System)
      → 0 < s.permits
      → Move s (record s { permits = s.permits - 1; readers = s.readers + 1 })
  read_section :
      (s : System) (buffer : List ℕ) (size : Option ℕ)
      → 0 < s.readers
      → Move s (record s { queue = (read_copy s.queue buffer size).0; readers = s.readers - 1 })

pub data Reaches : System → System → Type 0 where
  here : (s : System) → Reaches s s
  later : (s t u : System) → Move s t → Reaches t u → Reaches s u

-- Every permit, and every reader that took one, stands for a queued message.
record IsCovered (s : System) : Type 0 where
  valid : IsValid s.queue
  covered : s.permits + s.raising + s.readers ≤ s.queue.count

write_full :
    (m : MsgQueue) (buffer : List ℕ) (size : ℕ)
    → m.cap ≤ m.count
    → write_copy m buffer size ≡ (m, false)
unfolding write_copy
write_full m buffer size full = ground arith

write-IsCovered :
    (s : System) (buffer : List ℕ) (size : ℕ)
    → IsCovered s
    → IsCovered (record s {
      queue = (write_copy s.queue buffer size).0;
      raising = s.raising + bit ((write_copy s.queue buffer size).1);
    })
write-IsCovered s buffer size c = elim (dec_lt s.queue.count s.queue.cap) [
  | yes room ↦ rw (write_some s.queue buffer size c.valid room) (record {
    valid = written-IsValid s.queue buffer size c.valid room;
    covered = omega (arith, c.covered);
  })
  | no full ↦
      rw (write_full s.queue buffer size (omega arith))
        (record { valid = c.valid; covered = omega (arith, c.covered) })
]

Move-IsCovered : {s t : System} → Move s t → IsCovered s → IsCovered t
Move-IsCovered (Move.write_section s buffer size) c = write-IsCovered s buffer size c
Move-IsCovered (Move.up_done s some_writer) c = record {
  valid = c.valid;
  covered = omega (arith, c.covered);
}
Move-IsCovered (Move.up_failed s some_writer) c = record {
  valid = c.valid;
  covered = omega (arith, c.covered);
}
Move-IsCovered (Move.down_acquired s permit) c = record {
  valid = c.valid;
  covered = omega (arith, c.covered);
}
Move-IsCovered (Move.read_section s buffer size reader) c =
    let (row, split, w, room, step) =
      read_takes s.queue buffer size c.valid (omega (arith, c.covered)) in
    rw step (record { valid = w; covered = omega (arith, c.covered) })

Reaches-IsCovered : {s t : System} → Reaches s t → IsCovered s → IsCovered t
Reaches-IsCovered (Reaches.here s) c = c
Reaches-IsCovered (Reaches.later s t u move rest) c = Reaches-IsCovered rest (Move-IsCovered move c)

-- However readers and writers of a new queue interleave, and even if some `up` calls fail, a reader
-- whose wait was acquired finds a message: it gets the oldest one, cut to the wanted size, and the
-- status is success.
pub reader_served :
    (m : MsgQueue) (s : System) (buffer : List ℕ) (size : Option ℕ)
    → IsValid m
    → Reaches (started m) s
    → 0 < s.readers
    → (row : Row) × (messages s.queue ≡ row ∷ messages (taken s.queue))
      × (osal_read s.queue buffer size true ≡ (
        taken s.queue,
        copy (wanted s.queue size) row buffer,
        stored (wanted s.queue size) size,
        osal_ok,
      ))
unfolding osal_read
reader_served m s buffer size v path reader =
    let c = Reaches-IsCovered path (record { valid = v; covered = omega arith }) in
    let (row, split, w, room, step) =
      read_takes s.queue buffer size c.valid (omega (arith, c.covered)) in
    (row, split, ap (λ (p : MsgQueue × List ℕ × Option ℕ). (p.0, p.1, p.2, osal_ok)) step)
