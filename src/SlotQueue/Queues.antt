-- ===== src/SlotQueue/Queues.antt =====
-- src/upstream_supplicant.rs: the four queues, with their guards and the content of their slots.
-- `MAX_SCAN_IE_LEN` is a constant of the ws63-radio-sys crate, and so a parameter.
use hisi_rf_ws.Common.{
  ℕ, zero, suc, ◌+◌, ◌-◌, ◌^◌, List, [], ◌∷◌, none, some, Bool, true, false, not, ◌||◌, ◌&&◌, ◌==◌,
  ltb, if◌then◌else◌, ℤ, pos, length, replicate, inc32,
}
use hisi_rf_ws.SlotQueue.{
  SlotState, Slot, Queue, enqueue, refused, take_oldest_slot, release, is_free,
}

abbrev pub max_mgmt_frame_len : ℕ
max_mgmt_frame_len = 768

abbrev pub max_association_ie_len : ℕ
max_association_ie_len = 768

abbrev pub max_scan_results : ℕ
max_scan_results = 32

abbrev pub scan_event_queue_depth : ℕ
scan_event_queue_depth = 33

-- `bytes[..src.len()].copy_from_slice(src)`
abbrev pub copy_prefix : List ℕ → List ℕ → List ℕ
copy_prefix [] bytes = bytes
copy_prefix (b ∷ src) [] = []
copy_prefix (b ∷ src) (c ∷ bytes) = b ∷ copy_prefix src bytes

-- `&bytes[..len]`
abbrev pub prefix : ℕ → List ℕ → List ℕ
prefix zero bytes = []
prefix (suc n) [] = []
prefix (suc n) (b ∷ bytes) = b ∷ prefix n bytes

abbrev pub empty_queue {ℓ} : {A : Type ℓ} → ℕ → A → Queue A
empty_queue depth content = record {
  next_sequence = 0;
  dropped = 0;
  slots = replicate depth (record { state = SlotState.free; sequence = 0; content = content });
}

-- The management frames.
pub record MgmtMeta : Type 0 where
  pub frequency_mhz : ℕ  -- u32
  pub rssi_dbm : ℤ  -- i32
  pub frame_len : ℕ

pub record MgmtContent : Type 0 where
  pub meta : MgmtMeta
  pub frame : List ℕ

abbrev pub empty_mgmt : MgmtContent
empty_mgmt = record {
  meta = record { frequency_mhz = 0; rssi_dbm = pos 0; frame_len = 0 };
  frame = replicate max_mgmt_frame_len 0;
}

abbrev pub new_mgmt : Queue MgmtContent
new_mgmt = empty_queue 8 empty_mgmt

abbrev pub write_mgmt : MgmtMeta → List ℕ → MgmtContent → MgmtContent
write_mgmt meta frame old = record { meta = meta; frame = copy_prefix frame old.frame }

unfoldable pub enqueue_mgmt : Queue MgmtContent → ℕ → ℤ → List ℕ → Queue MgmtContent × Bool
enqueue_mgmt q frequency_mhz rssi_dbm frame =
    if (length frame == 0) || ltb max_mgmt_frame_len (length frame)
    then refused q
    else let m : MgmtMeta = record {
      frequency_mhz = frequency_mhz;
      rssi_dbm = rssi_dbm;
      frame_len = length frame;
    } in
      enqueue (write_mgmt m frame) q

-- `MgmtFrame::bytes`
abbrev pub mgmt_bytes : MgmtContent → List ℕ
mgmt_bytes c = prefix c.meta.frame_len c.frame

-- The scan events.
pub data ScanKind : Type 0 where
  other result done : ScanKind

pub record ScanMeta : Type 0 where
  pub kind : ScanKind
  pub capabilities : ℕ
  pub flags : ℕ
  pub bssid : List ℕ
  pub frequency_mhz : ℤ
  pub beacon_interval : ℕ
  pub quality : ℤ
  pub level_mbm : ℤ
  pub age_ms : ℕ
  pub ie_len : ℕ
  pub beacon_ie_len : ℕ
  pub status : ℤ

pub record ScanContent : Type 0 where
  pub meta : ScanMeta
  pub ies : List ℕ

pub record ScanEventQueue : Type 0 where
  pub queue : Queue ScanContent
  pub accepted_results : ℕ  -- u32
  pub truncated_results : ℕ  -- u32

abbrev pub is_result : ScanKind → Bool
is_result ScanKind.result = true
is_result _ = false

abbrev pub write_scan : ScanMeta → List ℕ → ScanContent → ScanContent
write_scan meta ies old = record { meta = meta; ies = copy_prefix ies old.ies }

unfoldable pub begin_transaction : ScanEventQueue → ScanEventQueue
begin_transaction s = record s { accepted_results = 0 }

abbrev pub with_queue : ScanEventQueue → Queue ScanContent × Bool → ScanEventQueue × Bool
with_queue s (q, queued) = (record s { queue = q }, queued)

-- `usize::saturating_add` on a 32-bit target
abbrev pub saturating_add : ℕ → ℕ → ℕ
saturating_add a b = if ltb (a + b) (2 ^ 32) then a + b else 2 ^ 32 - 1

unfoldable pub enqueue_result : ℕ → ScanEventQueue → ScanMeta → List ℕ → ScanEventQueue × Bool
enqueue_result max_scan_ie_len s meta ies =
    if not (is_result meta.kind)
      || not (saturating_add meta.ie_len meta.beacon_ie_len == length ies)
      || ltb max_scan_ie_len (length ies)
    then with_queue s (refused s.queue)
    else if ltb s.accepted_results max_scan_results
    then with_queue (record s { accepted_results = s.accepted_results + 1 })
        (enqueue (write_scan meta ies) s.queue)
    else (record s { truncated_results = inc32 s.truncated_results }, true)

abbrev pub done_meta : ℤ → ScanMeta
done_meta status = record {
  kind = ScanKind.done;
  capabilities = 0;
  flags = 0;
  bssid = replicate 6 0;
  frequency_mhz = pos 0;
  beacon_interval = 0;
  quality = pos 0;
  level_mbm = pos 0;
  age_ms = 0;
  ie_len = 0;
  beacon_ie_len = 0;
  status = status;
}

unfoldable pub enqueue_done : ScanEventQueue → ℤ → ScanEventQueue × Bool
enqueue_done s status = with_queue s (enqueue (write_scan (done_meta status) []) s.queue)

abbrev pub scan_ies : ScanContent → List ℕ
scan_ies c = prefix (c.meta.ie_len + c.meta.beacon_ie_len) c.ies

-- The link events.
pub data LinkKind : Type 0 where
  other associate disconnect : LinkKind

pub record LinkMeta : Type 0 where
  pub kind : LinkKind
  pub status_or_reason : ℕ  -- u16
  pub frequency_mhz : ℕ  -- u16
  pub bssid : List ℕ
  pub first_len : ℕ
  pub second_len : ℕ

pub record LinkContent : Type 0 where
  pub meta : LinkMeta
  pub first : List ℕ
  pub second : List ℕ

abbrev pub is_associate : LinkKind → Bool
is_associate LinkKind.associate = true
is_associate _ = false

abbrev pub is_disconnect : LinkKind → Bool
is_disconnect LinkKind.disconnect = true
is_disconnect _ = false

abbrev pub write_link : LinkMeta → List ℕ → List ℕ → LinkContent → LinkContent
write_link meta first second old = record {
  meta = meta;
  first = copy_prefix first old.first;
  second = copy_prefix second old.second;
}

unfoldable pub enqueue_link :
    Queue LinkContent → LinkMeta → List ℕ → List ℕ → Queue LinkContent × Bool
enqueue_link q meta first second =
    if not (length first == meta.first_len)
      || not (length second == meta.second_len)
      || ltb max_association_ie_len (length first)
      || ltb max_association_ie_len (length second)
    then refused q
    else enqueue (write_link meta first second) q

-- `enqueue_with_admission`, with the state `S` that `close` acts on. The calls of `close` are the
-- source's: before the event is published, or after it was lost.
module _ {ℓ} {S : Type ℓ} where
  unfoldable pub enqueue_with_admission :
      (S → S)
      → S
      → Queue LinkContent
      → Bool
      → LinkMeta
      → List ℕ
      → List ℕ
      → S × Queue LinkContent × Bool
  unfolding enqueue_link
  enqueue_with_admission close s q port_ready meta first second =
      let lost = not port_ready || is_disconnect meta.kind || not (meta.status_or_reason == 0) in
      let t = if lost then close s else s in
      if not port_ready
      then (t, q, false)
      else let (r, queued) = enqueue_link q meta first second in
        (if not queued && not lost then close t else t, r, queued)

-- The external authentication events, of the type `E` of the ws63-radio-sys crate.
unfoldable pub enqueue_external_auth {ℓ} : {E : Type ℓ} → Queue E → E → Queue E × Bool
enqueue_external_auth q event = enqueue (λ old. event) q

unfoldable pub has_pending {ℓ} : {A : Type ℓ} → List (Slot A) → Bool
has_pending [] = false
has_pending (s ∷ rest) = not (is_free s.state) || has_pending rest

-- `discard_pending`: entries are taken and dropped until none is taken.
unfoldable pub discard_pending {ℓ} : {A : Type ℓ} → ℕ → List (Slot A) → List (Slot A)
discard_pending zero slots = slots
discard_pending (suc fuel) slots =
    let (t, taken) = take_oldest_slot slots in
    elim taken [ none ↦ t | some index ↦ discard_pending fuel (release t index) ]
