-- ===== src/MsgQueue/Fifo.antt =====
-- The ring as a first-in first-out list of messages.
use mathlib.Core.Path.{ap₂}
use native.Mathlib.Decide.{ℕ_discrete}
use native.Mathlib.Nat.{mod-lt}
use hisi_rf_ws.Common.{
  subst, get_or-set_same, get_or-set_other, ℕ, zero, suc, ◌+◌, ◌-◌, ◌%◌, ◌≤◌, ◌<◌, ◌≡◌, refl, sym,
  ap, ◌∙◌, List, [], ◌∷◌, ◌++◌, Option, none, some, Bool, true, false, arith, min, length,
  length-set, set, get_or, ring_items, ring_items-push, ring_items-pop, tabulate,
}
use hisi_rf_ws.MsgQueue.{Row, MsgQueue, create, copy, write_copy, wanted, stored, read_copy}

pub record IsValid (m : MsgQueue) : Type 0 where
  pub room : length m.ring ≡ m.cap
  pub some_room : 0 < m.cap
  pub head_fits : m.head < m.cap
  pub count_fits : m.count ≤ m.cap
  pub rows : (i : ℕ) → i < m.cap → length (get_or m.ring i []) ≡ m.item_size

-- The queued messages, the oldest first: whole rows.
abbrev pub messages : MsgQueue → List Row
messages m = ring_items m.ring [] m.cap m.head m.count

abbrev pub take : ℕ → List ℕ → List ℕ
take zero xs = []
take (suc n) [] = []
take (suc n) (x ∷ xs) = x ∷ take n xs

length-tabulate : (n : ℕ) (f : ℕ → Row) → length (tabulate n f) ≡ n
length-tabulate zero f = refl
length-tabulate (suc n) f = ap suc (length-tabulate n (λ k. f (suc k)))

length-copy : (n : ℕ) (src dst : List ℕ) → length (copy n src dst) ≡ length dst
length-copy zero src dst = refl
length-copy (suc n) [] dst = refl
length-copy (suc n) (b ∷ src) [] = refl
length-copy (suc n) (b ∷ src) (c ∷ dst) = ap suc (length-copy n src dst)

-- What was copied can be read back, as long as both ends hold it.
take-copy :
    (k n : ℕ) (src dst : List ℕ)
    → k ≤ n
    → k ≤ length src
    → k ≤ length dst
    → take k (copy n src dst) ≡ take k src
take-copy zero n src dst f h g = refl
take-copy (suc k) zero src dst f h g = absurd (omega arith)
take-copy (suc k) (suc n) [] dst f h g = absurd (omega arith)
take-copy (suc k) (suc n) (b ∷ src) [] f h g = absurd (omega arith)
take-copy (suc k) (suc n) (b ∷ src) (c ∷ dst) f h g =
    ap (λ xs. b ∷ xs) (take-copy k n src dst (omega arith) (omega arith) (omega arith))

take-length : (xs : List ℕ) → take (length xs) xs ≡ xs
take-length [] = refl
take-length (x ∷ xs) = ap (λ ys. x ∷ ys) (take-length xs)

-- A created queue is valid and empty; the ring is freed again exactly when it was allocated and the
-- queue was not.
pub create-IsValid :
    (len size : ℕ) (memory : List Row) (m : MsgQueue)
    → length memory ≡ len
    → ((i : ℕ) → i < len → length (get_or memory i []) ≡ size)
    → create false len size (some memory) true ≡ (some m, false)
    → IsValid m × (messages m ≡ [])
unfolding create
create-IsValid len size memory m fits rows made =
    let room : 0 < len = ground (arith, made) in
    let start : MsgQueue = record {
      ring = memory;
      item_size = size;
      cap = len;
      head = 0;
      count = 0;
    } in
    let same : start ≡ m = ground (arith, made) in
    subst (λ q. IsValid q × (messages q ≡ [])) same
      (
        record {
          room = fits;
          some_room = room;
          head_fits = room;
          count_fits = omega arith;
          rows = rows;
        },
        refl,
      )

module _ (m : MsgQueue) (buffer : List ℕ) (size : ℕ) (v : IsValid m) (room : m.count < m.cap) where
  abbrev slot : ℕ
  slot = (m.head + m.count) % m.cap

  -- The row that a write leaves in the ring.
  abbrev pub message : Row
  message = copy (min size m.item_size) buffer (get_or m.ring slot [])

  abbrev pub written : MsgQueue
  written = record m { ring = set m.ring slot message; count = m.count + 1 }

  pub write_some : write_copy m buffer size ≡ (written, true)
  unfolding write_copy
  write_some = ground arith

  slot_fits : slot < m.cap
  slot_fits = mod-lt (m.head + m.count) {m = m.cap} v.some_room

  pub written-IsValid : IsValid written
  written-IsValid = record {
    room = length-set m.ring slot message ∙ v.room;
    some_room = v.some_room;
    head_fits = v.head_fits;
    count_fits = omega arith;
    rows = λ i p. elim (ℕ_discrete slot i) [
      | yes same ↦
          ap (λ j. length (get_or (set m.ring slot message) j [])) (sym same)
          ∙ ap length (get_or-set_same m.ring slot message [] (omega (arith, v.room, slot_fits)))
          ∙ length-copy (min size m.item_size) buffer (get_or m.ring slot [])
          ∙ v.rows slot slot_fits
      | no apart ↦ ap length (get_or-set_other m.ring slot i message [] apart) ∙ v.rows i p
    ];
  }

  -- A write to a valid queue with room adds one message behind all others. The message begins with
  -- the first `min size item_size` bytes of the buffer, if it holds as many.
  pub write_appends :
      min size m.item_size ≤ length buffer
      → (write_copy m buffer size ≡ (written, true))
        × IsValid written
        × (messages written ≡ messages m ++ (message ∷ []))
        × (take (min size m.item_size) message ≡ take (min size m.item_size) buffer)
  write_appends holds = (
    write_some,
    written-IsValid,
    ap (λ n. ring_items (set m.ring slot message) [] m.cap m.head n) {y = suc m.count} (omega arith)
        ∙ ring_items-push m.ring [] m.cap m.head m.count message (sym v.room) v.head_fits room,
    take-copy (min size m.item_size) (min size m.item_size) buffer (get_or m.ring slot [])
        (omega arith) holds (omega (arith, v.rows slot slot_fits)),
  )

-- The queue after a read.
abbrev pub taken : MsgQueue → MsgQueue
taken m = record m { head = (m.head + 1) % m.cap; count = m.count - 1 }

taken-IsValid : (m : MsgQueue) → IsValid m → IsValid (taken m)
taken-IsValid m v = record {
  room = v.room;
  some_room = v.some_room;
  head_fits = mod-lt (m.head + 1) {m = m.cap} v.some_room;
  count_fits = omega (arith, v.count_fits);
  rows = v.rows;
}

taken-messages :
    (m : MsgQueue)
    → IsValid m
    → 0 < m.count
    → messages m ≡ get_or m.ring m.head [] ∷ messages (taken m)
taken-messages m v some_message =
    let e : m.count ≡ suc (m.count - 1) = omega arith in
    ap (λ n. ring_items m.ring [] m.cap m.head n) e
    ∙ ring_items-pop m.ring [] m.cap m.head (m.count - 1) v.head_fits (omega (arith, v.count_fits))

-- A read of a valid queue that is not empty gives the oldest message, cut to the wanted size, and
-- takes exactly that message off the queue.
pub read_takes :
    (m : MsgQueue) (buffer : List ℕ) (size : Option ℕ)
    → IsValid m
    → 0 < m.count
    → (row : Row) × (messages m ≡ row ∷ messages (taken m))
      × IsValid (taken m)
      × (length row ≡ m.item_size)
      × (read_copy m buffer size
          ≡ (taken m, copy (wanted m size) row buffer, stored (wanted m size) size))
unfolding read_copy
read_takes m buffer size v some_message = (
  get_or m.ring m.head [],
  taken-messages m v some_message,
  taken-IsValid m v,
  v.rows m.head v.head_fits,
  ground arith,
)

abbrev tail_of : List Row → List Row
tail_of [] = []
tail_of (x ∷ xs) = xs

-- `n` reads of whole messages.
unfoldable pub reads : ℕ → MsgQueue → MsgQueue
reads zero m = m
reads (suc n) m = reads n ((read_copy m [] none).0)

-- After as many reads as messages stand before it, a message is the oldest one.
reads-messages :
    (before : List Row) (message : Row) (m : MsgQueue)
    → IsValid m
    → messages m ≡ before ++ (message ∷ [])
    → let r = reads (length before) m in
      IsValid r × (messages r ≡ message ∷ []) × (r.item_size ≡ m.item_size)
unfolding reads
reads-messages [] message m v e = (v, e, refl)
reads-messages (row ∷ before) message m v e =
    let full : 0 < m.count = omega (
      arith,
      ap length e,
      length-tabulate m.count (λ k. get_or m.ring ((m.head + k) % m.cap) []),
    ) in
    let (other, split, w, size, step) = read_takes m [] none v full in
    let rest = reads-messages before message (taken m) w (ap tail_of (sym split ∙ e)) in
    subst
      (λ q.
        let r = reads (length before) q in
        IsValid r × (messages r ≡ message ∷ []) × (r.item_size ≡ m.item_size))
      (sym (ap (λ (p : MsgQueue × List ℕ × Option ℕ). p.0) step)) rest

abbrev head_of : List Row → Row
head_of [] = []
head_of (x ∷ xs) = x

last_read :
    (q : MsgQueue) (last : Row) (sent buffer : List ℕ)
    → IsValid q
    → messages q ≡ last ∷ []
    → length sent ≤ q.item_size
    → length sent ≤ length buffer
    → take (length sent) last ≡ take (length sent) sent
    → take (length sent) ((read_copy q buffer (some (length buffer))).1) ≡ sent
last_read q last sent buffer v one fits holds start =
    let full : 0 < q.count = omega (
      arith,
      ap length one,
      length-tabulate q.count (λ k. get_or q.ring ((q.head + k) % q.cap) []),
    ) in
    let (row, split, w, size, step) = read_takes q buffer (some (length buffer)) v full in
    let same : row ≡ last = ap head_of (sym split ∙ one) in
    ap (λ (p : MsgQueue × List ℕ × Option ℕ). take (length sent) (p.1)) step
    ∙ take-copy (length sent) (min (length buffer) q.item_size) row buffer (omega arith)
        (omega (arith, size)) holds
    ∙ ap (take (length sent)) same
    ∙ start
    ∙ take-length sent

-- What is written comes back: after a write of at most `item_size` bytes into a valid queue with
-- room, and as many reads as messages were queued before it, a read into a buffer of at least that
-- size begins with the bytes written.
pub write_read_roundtrip :
    (m : MsgQueue) (sent buffer : List ℕ)
    → IsValid m
    → m.count < m.cap
    → length sent ≤ m.item_size
    → length sent ≤ length buffer
    → let q = reads m.count ((write_copy m sent (length sent)).0) in
      let got = (read_copy q buffer (some (length buffer))).1 in take (length sent) got ≡ sent
write_read_roundtrip m sent buffer v room fits holds =
    let n = length sent in
    let (e, w, more, start) = write_appends m sent n v room (omega arith) in
    let last = message m sent n v room in
    let t = written m sent n v room in
    let (u, one, same) = reads-messages (messages m) last t w more in
    let reach : reads (length (messages m)) t ≡ reads m.count ((write_copy m sent n).0) =
      ap₂ reads (length-tabulate m.count (λ k. get_or m.ring ((m.head + k) % m.cap) []))
        (sym (ap (λ (p : MsgQueue × Bool). p.0) e)) in
    subst (λ q. take n ((read_copy q buffer (some (length buffer))).1) ≡ sent) reach
      (last_read (reads (length (messages m)) t) last sent buffer u one (omega (arith, same)) holds
        (ap (λ k. take k last) (omega arith) ∙ start ∙ ap (λ k. take k sent) (omega arith)))
