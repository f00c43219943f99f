-- ===== src/MsgQueue/Tests.antt =====
-- The theorems on the message queues at concrete queues.
use hisi_rf_ws.Common.{
  ℕ, zero, suc, ◌≡◌, ◌<◌, refl, List, [], ◌∷◌, none, some, true, false, arith, length, pos, get_or,
}
use hisi_rf_ws.MsgQueue.{
  Row, MsgQueue, create, write_copy, read_copy, osal_write, osal_read, copy, wanted, stored,
  osal_ok, osal_nok, is_full, get_msg_num,
}
use hisi_rf_ws.MsgQueue.Fifo.{
  IsValid, messages, taken, take, written, write_appends, create-IsValid, reads,
  write_read_roundtrip,
}
use hisi_rf_ws.MsgQueue.Permits.{System, Move, Reaches, started, reader_served}

abbrev blank : List Row
blank = (0 ∷ 0 ∷ 0 ∷ []) ∷ (0 ∷ 0 ∷ 0 ∷ []) ∷ []

abbrev empty : MsgQueue
empty = record { ring = blank; item_size = 3; cap = 2; head = 0; count = 0 }

empty_created : create false 2 3 (some blank) true ≡ (some empty, false)
unfolding create
empty_created = refl

blank_rows : (i : ℕ) → i < 2 → length (get_or blank i []) ≡ 3
blank_rows zero h = refl
blank_rows (suc zero) h = refl
blank_rows (suc (suc i)) h = absurd (omega arith)

empty-IsValid : IsValid empty
empty-IsValid = (create-IsValid 2 3 blank empty refl blank_rows empty_created).0

abbrev short : List ℕ
short = 7 ∷ 9 ∷ []

write_appends_example :
    (write_copy empty short 2 ≡ (written empty short 2 empty-IsValid (omega arith), true))
    × IsValid (written empty short 2 empty-IsValid (omega arith))
    × (messages (written empty short 2 empty-IsValid (omega arith)) ≡ (7 ∷ 9 ∷ 0 ∷ []) ∷ [])
    × (take 2 (7 ∷ 9 ∷ 0 ∷ []) ≡ short)
write_appends_example = write_appends empty short 2 empty-IsValid (omega arith) (omega arith)

write_read_roundtrip_example :
    take 2 ((read_copy (reads 0 ((write_copy empty short 2).0)) (1 ∷ 1 ∷ 1 ∷ 1 ∷ []) (some 4)).1)
    ≡ short
write_read_roundtrip_example =
    write_read_roundtrip empty short (1 ∷ 1 ∷ 1 ∷ 1 ∷ []) empty-IsValid (omega arith) (omega arith)
      (omega arith)

abbrev one_queued : MsgQueue
one_queued = record {
  ring = (7 ∷ 9 ∷ 0 ∷ []) ∷ (0 ∷ 0 ∷ 0 ∷ []) ∷ [];
  item_size = 3;
  cap = 2;
  head = 0;
  count = 1;
}

one_written : write_copy empty short 2 ≡ (one_queued, true)
unfolding write_copy
one_written = refl

abbrev served : System
served = record { queue = one_queued; permits = 0; raising = 0; readers = 1 }

abbrev raised : System
raised = record { queue = one_queued; permits = 1; raising = 0; readers = 0 }

abbrev half_written : System
half_written = record { queue = one_queued; permits = 0; raising = 1; readers = 0 }

served_reached : Reaches (started empty) served
unfolding write_copy
served_reached =
    Reaches.later (started empty) half_written served (Move.write_section (started empty) short 2) (
      Reaches.later half_written raised served (Move.up_done half_written (omega arith)) (
        Reaches.later raised served served (Move.down_acquired raised (omega arith))
          (Reaches.here served)))

reader_served_example :
    (row : Row) × (messages one_queued ≡ row ∷ messages (taken one_queued))
    × (osal_read one_queued (1 ∷ 1 ∷ []) none true ≡ (
      taken one_queued,
      copy (wanted one_queued none) row (1 ∷ 1 ∷ []),
      stored (wanted one_queued none) none,
      osal_ok,
    ))
reader_served_example =
    reader_served empty served (1 ∷ 1 ∷ []) none empty-IsValid served_reached (omega arith)

-- A write to a full queue fails and changes nothing.
full_refuses :
    let q = (osal_write ((osal_write empty (some short) 2 true).0) (some (5 ∷ [])) 1 true).0 in
    osal_write q (some (6 ∷ [])) 1 true ≡ (q, osal_nok)
unfolding osal_write write_copy
full_refuses = refl

counts : (is_full (some empty) ≡ pos 0) × (get_msg_num none ≡ 4294967295)
unfolding is_full get_msg_num
counts = (refl, refl)
