-- ===== src/MsgQueue.antt =====
-- src/osal_queue.rs: the OSAL message queues, a ring of fixed rows beside a counting semaphore.
-- A row is the `item_size` bytes at `ring + slot * item_size`, which is how every access addresses
-- the ring. The semaphore belongs to the RTOS driver: its answers are arguments. A queue handle is
-- `none` where it is null.
pub mod Fifo
pub mod Permits
mod Tests
use hisi_rf_ws.Common.{
  ℕ, zero, suc, ◌+◌, ◌-◌, ◌%◌, ◌^◌, List, [], ◌∷◌, Option, none, some, Bool, true, false, ◌||◌,
  ◌==◌, leb, min, if◌then◌else◌, ℤ, pos, set, get_or,
}

abbrev pub osal_ok : ℤ
osal_ok = pos 0

abbrev pub osal_nok : ℤ
osal_nok = pos 1

abbrev pub Row : Type 0
Row = List ℕ

pub record MsgQueue : Type 0 where
  pub ring : List Row
  pub item_size : ℕ
  pub cap : ℕ
  pub head : ℕ
  pub count : ℕ

-- `osal_msg_queue_create`: the queue or a failure, and whether the ring was freed again. `ring` is
-- the fresh memory, if that allocation succeeded, and `queue_allocated` tells of the other one.
abbrev create_in : ℕ → ℕ → Bool → Option (List Row) → Option MsgQueue × Bool
create_in len size queue_allocated none = (none, false)
create_in len size queue_allocated (some memory) =
    if queue_allocated
    then (some (record { ring = memory; item_size = size; cap = len; head = 0; count = 0 }), false)
    else (none, true)

unfoldable pub create : Bool → ℕ → ℕ → Option (List Row) → Bool → Option MsgQueue × Bool
create id_is_null len size ring queue_allocated =
    if id_is_null || (len == 0) || (size == 0)
    then (none, false)
    else create_in len size queue_allocated ring

-- `copy_nonoverlapping(src, dst, n)`
abbrev pub copy : ℕ → List ℕ → List ℕ → List ℕ
copy (suc n) (b ∷ src) (c ∷ dst) = b ∷ copy n src dst
copy (suc n) [] dst = dst
copy (suc n) (b ∷ src) [] = []
copy zero src dst = dst

-- The critical section of `osal_msg_queue_write_copy`.
unfoldable pub write_copy : MsgQueue → List ℕ → ℕ → MsgQueue × Bool
write_copy m buffer buffer_size =
    if leb m.cap m.count
    then (m, false)
    else let n = min buffer_size m.item_size in
      let slot = (m.head + m.count) % m.cap in
      (
        record m {
          ring = set m.ring slot (copy n buffer (get_or m.ring slot []));
          count = m.count + 1;
        },
        true,
      )

-- `osal_msg_queue_write_copy`: `up_ok` is whether the semaphore could be raised.
unfoldable pub osal_write : MsgQueue → Option (List ℕ) → ℕ → Bool → MsgQueue × ℤ
unfolding write_copy
osal_write m none buffer_size up_ok = (m, osal_nok)
osal_write m (some buffer) buffer_size up_ok =
    let (q, written) = write_copy m buffer buffer_size in
    (q, if written then (if up_ok then osal_ok else osal_nok) else osal_nok)

-- The number of bytes to read: `none` is a null size pointer.
abbrev pub wanted : MsgQueue → Option ℕ → ℕ
wanted m none = m.item_size
wanted m (some size) = min size m.item_size

abbrev pub stored : ℕ → Option ℕ → Option ℕ
stored want none = none
stored want (some size) = some want

-- The critical section of `osal_msg_queue_read_copy`: the queue, the caller's buffer, its size.
unfoldable pub read_copy : MsgQueue → List ℕ → Option ℕ → MsgQueue × List ℕ × Option ℕ
read_copy m buffer size =
    if m.count == 0
    then (m, buffer, size)
    else let want = wanted m size in
      (
        record m { head = (m.head + 1) % m.cap; count = m.count - 1 },
        copy want (get_or m.ring m.head []) buffer,
        stored want size,
      )

-- `osal_msg_queue_read_copy`: `acquired` is the outcome of the wait on the semaphore.
unfoldable pub osal_read : MsgQueue → List ℕ → Option ℕ → Bool → MsgQueue × List ℕ × Option ℕ × ℤ
unfolding read_copy
osal_read m buffer size acquired =
    if acquired
    then (let (q, out, n) = read_copy m buffer size in (q, out, n, osal_ok))
    else (m, buffer, size, osal_nok)

unfoldable pub is_full : Option MsgQueue → ℤ
is_full none = pos 0
is_full (some m) = if leb m.cap m.count then pos 1 else pos 0

unfoldable pub get_msg_num : Option MsgQueue → ℕ
get_msg_num none = 2 ^ 32 - 1
get_msg_num (some m) = m.count % 2 ^ 32

unfoldable pub queue_item_size : Option MsgQueue → ℕ
queue_item_size none = 0
queue_item_size (some m) = m.item_size % 2 ^ 32
