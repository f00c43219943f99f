-- ===== src/SlotQueue/Room.antt =====
-- How many slots are in use, and the room that the scan queue keeps for the terminal event.
use hisi_rf_ws.Common.{
  ℕ, zero, suc, ◌+◌, inc32, ◌≤◌, ◌<◌, ◌≡◌, ◌⊎◌, inl, inr, refl, sym, ap, ◌∙◌, List, [], ◌∷◌, Option,
  none, some, Bool, true, false, not, ◌||◌, ◌==◌, arith, ltb, length, length-set, set, get_elem?,
  bit, Bool-cases, Option-cases, ℤ,
}
use hisi_rf_ws.SlotQueue.{
  SlotState, Slot, Queue, is_free, is_ready, publish, enqueue, set_state, oldest_from, older,
  any_writing, take_oldest_slot, release, sequence_before,
}
use hisi_rf_ws.SlotQueue.Queues.{
  ScanMeta, ScanEventQueue, is_result, begin_transaction, enqueue_result, enqueue_done, with_queue,
  saturating_add, write_scan, done_meta,
}

ready_in_use : (state : SlotState) → is_ready state ≡ true → is_free state ≡ false
ready_in_use SlotState.free h = ground (arith, h)
ready_in_use SlotState.writing h = refl
ready_in_use SlotState.ready h = refl
ready_in_use SlotState.reading h = refl

older_skip {ℓ} :
    {A : Type ℓ} (x : Slot A) (index : ℕ) (best : Option (ℕ × ℕ))
    → is_ready x.state ≡ false
    → older x index best ≡ best
older_skip x index none h = rw h refl
older_skip x index (some b) h = rw h refl

older_cases {ℓ} :
    {A : Type ℓ} (x : Slot A) (index : ℕ) (best : Option (ℕ × ℕ))
    → (older x index best ≡ best) ⊎ (older x index best ≡ some (index, x.sequence))
older_cases x index none = elim (Bool-cases (is_ready x.state)) [
  | inl e ↦ inr (rw e refl)
  | inr e ↦ inl (rw e refl)
]
older_cases x index (some b) = elim (Bool-cases (is_ready x.state)) [
  | inr e ↦ inl (rw e refl)
  | inl e ↦ elim (Bool-cases (sequence_before x.sequence (b.1))) [
    | inl y ↦ inr (rw e (rw y refl))
    | inr n ↦ inl (rw e (rw n refl))
  ]
]

module _ {ℓ} {A : Type ℓ} where
  unfoldable pub used : List (Slot A) → ℕ
  used [] = 0
  used (s ∷ rest) = bit (not (is_free s.state)) + used rest

  -- The slot that a producer publishes in.
  abbrev pub entry : Slot A → ℕ → (A → A) → Slot A
  entry old sequence write = record {
    state = SlotState.ready;
    sequence = sequence;
    content = write old.content;
  }

  abbrev pub Publishes : List (Slot A) → ℕ → (A → A) → Type ℓ
  Publishes slots sequence write =
      (i : ℕ) × (old : Slot A) × (get_elem? slots i ≡ some old)
      × (is_free old.state ≡ true)
      × (publish sequence write slots ≡ some (set slots i (entry old sequence write)))

  -- An entry is published in a free slot, or every slot is in use.
  pub publish_lem :
      (slots : List (Slot A)) (sequence : ℕ) (write : A → A)
      → Publishes slots sequence write
        ⊎ ((publish sequence write slots ≡ none) × (used slots ≡ length slots))
  unfolding publish used
  publish_lem [] sequence write = inr (refl, refl)
  publish_lem (s ∷ rest) sequence write = elim (Bool-cases (is_free s.state)) [
    | inl e ↦ inl (0, s, refl, e, rw e refl)
    | inr e ↦ elim (publish_lem rest sequence write) [
      | inl p ↦ let (i, old, at, f, made) = p in inl (suc i, old, at, f, rw e (rw made refl))
      | inr n ↦ inr (rw e (rw (n.0) refl), rw e (omega (arith, n.1)))
    ]
  ]

  used-set :
      (slots : List (Slot A)) (i : ℕ) (old s : Slot A)
      → get_elem? slots i ≡ some old
      → used (set slots i s) + bit (not (is_free old.state))
        ≡ used slots + bit (not (is_free s.state))
  unfolding used
  used-set [] i old s h = ground arith
  used-set (x ∷ xs) zero old s h = ground arith
  used-set (x ∷ xs) (suc i) old s h = omega (arith, used-set xs i old s h)

  used-le-length : (slots : List (Slot A)) → used slots ≤ length slots
  unfolding used
  used-le-length [] = omega arith
  used-le-length (s ∷ rest) = ground (arith, used-le-length rest)

  pub used-enqueue :
      (q : Queue A) (write : A → A)
      → used q.slots < length q.slots
      → ((enqueue write q).1 ≡ true)
        × (used (enqueue write q).0.slots ≡ used q.slots + 1)
        × (length (enqueue write q).0.slots ≡ length q.slots)
        × ((enqueue write q).0.dropped ≡ q.dropped)
  unfolding enqueue
  used-enqueue q write room = elim (publish_lem q.slots q.next_sequence write) [
    | inr n ↦ absurd (omega (arith, n.1))
    | inl p ↦
        let (i, old, at, f, made) = p in
        let s = entry old q.next_sequence write in
        rw made (refl, ground (arith, used-set q.slots i old s at, f), length-set q.slots i s, refl)
  ]

  used-release : (slots : List (Slot A)) (i : ℕ) → used (release slots i) ≤ used slots
  unfolding used release
  used-release [] i = omega arith
  used-release (s ∷ rest) zero = omega arith
  used-release (s ∷ rest) (suc i) = omega (arith, used-release rest i)

  length-set_state :
      (slots : List (Slot A)) (i : ℕ) (state : SlotState)
      → length (set_state slots i state) ≡ length slots
  length-set_state [] i state = refl
  length-set_state (s ∷ rest) zero state = refl
  length-set_state (s ∷ rest) (suc i) state = ap suc (length-set_state rest i state)

  used-reading :
      (slots : List (Slot A)) (i : ℕ) (s : Slot A)
      → get_elem? slots i ≡ some s
      → is_ready s.state ≡ true
      → used (set_state slots i SlotState.reading) ≡ used slots
  unfolding used
  used-reading [] i s h e = ground (arith, h)
  used-reading (x ∷ xs) zero s h e = ground (arith, h, e, ready_in_use x.state)
  used-reading (x ∷ xs) (suc i) s h e = omega (arith, used-reading xs i s h e)

  -- The search ends at the entry it started from, or at a ready one.
  search_ready :
      (xs : List (Slot A)) (index : ℕ) (best : Option (ℕ × ℕ)) (i c : ℕ)
      → oldest_from xs index best ≡ some (i, c)
      → (best ≡ some (i, c))
        ⊎ ((k : ℕ) × (s : Slot A) × (i ≡ index + k)
            × (get_elem? xs k ≡ some s)
            × (is_ready s.state ≡ true))
  unfolding oldest_from
  search_ready [] index best i c h = inl h
  search_ready (x ∷ xs) index best i c h =
      elim (search_ready xs (index + 1) (older x index best) i c h) [
        | inr p ↦ let (k, s, e, at, ready) = p in inr (suc k, s, omega (arith, e), at, ready)
        | inl e ↦ elim (Bool-cases (is_ready x.state)) [
          | inr n ↦ inl (sym (older_skip x index best n) ∙ e)
          | inl y ↦ elim (older_cases x index best) [
            | inl same ↦ inl (sym same ∙ e)
            | inr new ↦ inr (0, x, ground (arith, e, new), refl, y)
          ]
        ]
      ]

  used-take :
      (slots : List (Slot A))
      → (used ((take_oldest_slot slots).0) ≡ used slots)
        × (length ((take_oldest_slot slots).0) ≡ length slots)
  unfolding take_oldest_slot
  used-take slots = elim (Bool-cases (any_writing slots)) [
    | inl e ↦ rw e (refl, refl)
    | inr e ↦ elim (Option-cases (oldest_from slots 0 none)) [
      | inl n ↦ rw e (rw n (refl, refl))
      | inr f ↦ elim (search_ready slots 0 none (f.0.0) (f.0.1) f.1) [
        | inl x ↦ absurd (ground (arith, x))
        | inr p ↦
            let (k, s, same, at, ready) = p in
            let here : f.0.0 ≡ k = omega (arith, same) in
            rw e (
              rw (f.1) (
                used-reading slots (f.0.0) s (ap (get_elem? slots) here ∙ at) ready,
                length-set_state slots (f.0.0) SlotState.reading,
              ))
      ]
    ]
  ]

-- The guard of `enqueue_result`.
abbrev pub malformed : ℕ → ScanMeta → List ℕ → Bool
malformed limit meta ies =
    not (is_result meta.kind)
    || not (saturating_add meta.ie_len meta.beacon_ie_len == length ies)
    || ltb limit (length ies)

-- What happens to the scan queue during one transaction.
pub data ScanOp : Type 0 where
  result_op : ScanMeta → List ℕ → ScanOp
  take_op : ScanOp
  release_op : ℕ → ScanOp

unfoldable pub scan_step : ℕ → ScanEventQueue → ScanOp → ScanEventQueue
scan_step limit s (ScanOp.result_op meta ies) = (enqueue_result limit s meta ies).0
scan_step limit s ScanOp.take_op = record s {
  queue = record s.queue { slots = (take_oldest_slot s.queue.slots).0 };
}
scan_step limit s (ScanOp.release_op i) = record s {
  queue = record s.queue { slots = release s.queue.slots i };
}

unfoldable pub scan_run : ℕ → ScanEventQueue → List ScanOp → ScanEventQueue
unfolding scan_step
scan_run limit s [] = s
scan_run limit s (op ∷ ops) = scan_run limit (scan_step limit s op) ops

record HasRoom (s : ScanEventQueue) : Type 0 where
  depth : length s.queue.slots ≡ 33
  few : used s.queue.slots ≤ s.accepted_results
  bounded : s.accepted_results ≤ 32

accept-HasRoom :
    (s : ScanEventQueue) (meta : ScanMeta) (ies : List ℕ)
    → HasRoom s
    → s.accepted_results < 32
    → HasRoom (
        (with_queue
          (record s { accepted_results = s.accepted_results + 1 })
          (enqueue (write_scan meta ies) s.queue)).0)
accept-HasRoom s meta ies h more =
    let (queued, taken, same, none_dropped) =
      used-enqueue s.queue (write_scan meta ies) (omega (arith, h.depth, h.few)) in
    record { depth = same ∙ h.depth; few = omega (arith, taken, h.few); bounded = omega arith }

enqueue_result-HasRoom :
    (limit : ℕ) (s : ScanEventQueue) (meta : ScanMeta) (ies : List ℕ)
    → HasRoom s
    → HasRoom ((enqueue_result limit s meta ies).0)
unfolding enqueue_result
enqueue_result-HasRoom limit s meta ies h = elim (Bool-cases (malformed limit meta ies)) [
  | inl e ↦ rw e (record { depth = h.depth; few = h.few; bounded = h.bounded })
  | inr e ↦ elim (Bool-cases (ltb s.accepted_results 32)) [
    | inl y ↦ rw e (rw y (accept-HasRoom s meta ies h (ground (arith, y))))
    | inr n ↦ rw e (rw n (record { depth = h.depth; few = h.few; bounded = h.bounded }))
  ]
]

step-HasRoom :
    (limit : ℕ) (s : ScanEventQueue) (op : ScanOp) → HasRoom s → HasRoom (scan_step limit s op)
unfolding scan_step release
step-HasRoom limit s (ScanOp.result_op meta ies) h = enqueue_result-HasRoom limit s meta ies h
step-HasRoom limit s ScanOp.take_op h =
    let (same, size) = used-take s.queue.slots in
    record { depth = size ∙ h.depth; few = omega (arith, same, h.few); bounded = h.bounded }
step-HasRoom limit s (ScanOp.release_op i) h = record {
  depth = length-set_state s.queue.slots i SlotState.free ∙ h.depth;
  few = omega (arith, used-release s.queue.slots i, h.few);
  bounded = h.bounded;
}

run-HasRoom :
    (limit : ℕ) (s : ScanEventQueue) (ops : List ScanOp)
    → HasRoom s
    → HasRoom (scan_run limit s ops)
unfolding scan_run
run-HasRoom limit s [] h = h
run-HasRoom limit s (op ∷ ops) h =
    run-HasRoom limit (scan_step limit s op) ops (step-HasRoom limit s op h)

-- After a transaction begins on a queue of 33 slots with none in use, whatever number of results is
-- enqueued and however many entries are taken and released, the terminal event is queued, and so is
-- every further well-formed result, unless it is beyond the 32 accepted ones and counted as
-- truncated.
pub scan_done_kept :
    (limit : ℕ) (s : ScanEventQueue) (ops : List ScanOp) (status : ℤ) (meta : ScanMeta)
    (ies : List ℕ)
    → length s.queue.slots ≡ 33
    → used s.queue.slots ≡ 0
    → malformed limit meta ies ≡ false
    → let t = scan_run limit (begin_transaction s) ops in
      ((enqueue_done t status).1 ≡ true)
      × (((enqueue_result limit t meta ies).1 ≡ true)
          × ((enqueue_result limit t meta ies).0.queue.dropped ≡ t.queue.dropped)
          × ((t.accepted_results < 32)
              ⊎ ((enqueue_result limit t meta ies).0.truncated_results
                  ≡ inc32 t.truncated_results)))
unfolding enqueue_done enqueue_result begin_transaction
scan_done_kept limit s ops status meta ies depth empty e =
    let h =
      run-HasRoom limit (begin_transaction s) ops
        (record { depth = depth; few = omega (arith, empty); bounded = omega arith }) in
    let t = scan_run limit (begin_transaction s) ops in
    let fits : used t.queue.slots < length t.queue.slots =
      omega (arith, h.depth, h.few, h.bounded) in
    let accepted = used-enqueue t.queue (write_scan meta ies) fits in
    (
      (used-enqueue t.queue (write_scan (done_meta status) []) fits).0,
      elim (Bool-cases (ltb t.accepted_results 32)) [
        | inl y ↦ rw e (rw y (accepted.0, accepted.3, inl (ground (arith, y))))
        | inr n ↦ rw e (rw n (refl, refl, inr refl))
      ],
    )
