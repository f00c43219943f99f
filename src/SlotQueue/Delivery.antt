-- ===== src/SlotQueue/Delivery.antt =====
-- What the consumer reads of an entry, and what becomes of the link when an event is lost.
use hisi_rf_ws.Common.{
  ℕ, ◌≤◌, ◌<◌, ◌≡◌, ◌≢◌, ◌⊎◌, inl, inr, refl, ap, List, [], ◌∷◌, some, Bool, true, false, ◌||◌,
  ◌==◌, arith, ltb, length, set, get_elem?, Bool-cases, ℤ, inc32, u32_mod, get_elem?-set_self,
  lt_of_get_elem?, All, All_get,
}
use hisi_rf_ws.SlotQueue.{Slot, Queue, is_free, is_ready, enqueue}
use hisi_rf_ws.SlotQueue.Order.{age}
use hisi_rf_ws.SlotQueue.Room.{used, entry, publish_lem}
use hisi_rf_ws.SlotQueue.Queues.{
  copy_prefix, prefix, MgmtMeta, MgmtContent, write_mgmt, enqueue_mgmt, mgmt_bytes, LinkMeta,
  LinkContent, is_disconnect, enqueue_link, enqueue_with_admission,
}

prefix-copy_prefix :
    (src bytes : List ℕ)
    → length src ≤ length bytes
    → prefix (length src) (copy_prefix src bytes) ≡ src
prefix-copy_prefix [] bytes h = refl
prefix-copy_prefix (b ∷ src) [] h = absurd (omega arith)
prefix-copy_prefix (b ∷ src) (c ∷ bytes) h =
    ap (λ xs. b ∷ xs) (prefix-copy_prefix src bytes (omega arith))

-- The entry that an enqueue adds.
module _ {ℓ} {A : Type ℓ} where
  abbrev pub Added : Queue A → (A → A) → Type ℓ
  Added q write =
      (i : ℕ) × (old : Slot A) × (get_elem? q.slots i ≡ some old)
      × (is_free old.state ≡ true)
      × (enqueue write q ≡ (
        record q {
          next_sequence = inc32 q.next_sequence;
          slots = set q.slots i (entry old q.next_sequence write);
        },
        true,
      ))

  -- An enqueue with a free slot fills it and no other.
  enqueue_adds : (q : Queue A) (write : A → A) → used q.slots < length q.slots → Added q write
  unfolding enqueue
  enqueue_adds q write room = elim (publish_lem q.slots q.next_sequence write) [
    | inr n ↦ absurd (omega (arith, n.1))
    | inl p ↦ let (i, old, at, f, made) = p in (i, old, at, f, rw made refl)
  ]

-- The buffer of each slot holds `limit` bytes.
abbrev Buffers : ℕ → List (Slot MgmtContent) → Type 0
Buffers limit = All (λ (s : Slot MgmtContent). length s.content.frame ≡ limit)

-- A management frame of 1 to 768 bytes that finds a free slot is queued there with its frequency and
-- signal strength, under a sequence number that makes it the youngest entry, and the runner reads
-- back exactly its bytes.
pub mgmt_roundtrip :
    (q : Queue MgmtContent) (frequency : ℕ) (rssi : ℤ) (frame : List ℕ)
    → Buffers 768 q.slots
    → q.next_sequence < u32_mod
    → used q.slots < length q.slots
    → 0 < length frame
    → length frame ≤ 768
    → let (t, queued) = enqueue_mgmt q frequency rssi frame in
      (queued ≡ true)
      × ((i : ℕ) × (s : Slot MgmtContent) × (t.slots ≡ set q.slots i s)
          × (get_elem? t.slots i ≡ some s)
          × (is_ready s.state ≡ true)
          × (age t.next_sequence s.sequence ≡ 1)
          × (mgmt_bytes s.content ≡ frame)
          × (s.content.meta.frequency_mhz ≡ frequency)
          × (s.content.meta.rssi_dbm ≡ rssi))
unfolding enqueue_mgmt
mgmt_roundtrip q frequency rssi frame buffers small room some_bytes fits =
    let m : MgmtMeta = record {
      frequency_mhz = frequency;
      rssi_dbm = rssi;
      frame_len = length frame;
    } in
    let guard : ((length frame == 0) || ltb 768 (length frame)) ≡ false = ground arith in
    let (i, old, at, f, made) = enqueue_adds q (write_mgmt m frame) room in
    let s = entry old q.next_sequence (write_mgmt m frame) in
    let wide =
      All_get (λ (s : Slot MgmtContent). length s.content.frame ≡ 768) q.slots i old at buffers in
    rw guard (
      rw made (
        refl,
        (
          i,
          s,
          refl,
          get_elem?-set_self q.slots i s (lt_of_get_elem? q.slots i at),
          refl,
          omega arith,
          prefix-copy_prefix frame old.content.frame (omega (arith, wide)),
          refl,
          refl,
        ),
      ))

-- When the port is ready and the event is no disconnection, has status 0 and is queued, the admission
-- is left alone. In every other case it is closed, once.
pub link_loss_closes {ℓ} :
    {S : Type ℓ} (close : S → S) (s : S) (q : Queue LinkContent) (ready : Bool) (meta : LinkMeta)
    (first second : List ℕ)
    → let (t, r, queued) = enqueue_with_admission close s q ready meta first second in
      (((ready ≡ true)
          × (is_disconnect meta.kind ≡ false)
          × (meta.status_or_reason ≡ 0)
          × (queued ≡ true))
        × (t ≡ s))
      ⊎ (((ready ≡ false)
            ⊎ (is_disconnect meta.kind ≡ true)
            ⊎ (meta.status_or_reason ≢ 0)
            ⊎ (queued ≡ false))
          × (t ≡ close s))
unfolding enqueue_with_admission
link_loss_closes close s q false meta first second = inr (inl refl, refl)
link_loss_closes close s q true meta first second = elim (Bool-cases (is_disconnect meta.kind)) [
  | inl d ↦ rw d (inr (inr (inl refl), ground arith))
  | inr d ↦ elim (Bool-cases (meta.status_or_reason == 0)) [
    | inr z ↦ rw d (rw z (inr (inr (inr (inl (ground (arith, z)))), ground arith)))
    | inl z ↦ elim (Bool-cases ((enqueue_link q meta first second).1)) [
      | inl y ↦ rw d (rw z (rw y (inl ((refl, refl, ground (arith, z), refl), refl))))
      | inr n ↦ rw d (rw z (rw n (inr (inr (inr (inr refl)), refl))))
    ]
  ]
]
