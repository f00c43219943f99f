-- ===== src/RxStop/Rebuild.antt =====
-- src/netif_l2/rx_stop/rebuild.rs: the checked descriptor round trip of a stopped receiver.
-- The native operations are a parameter, over a native state that every call may change.
use hisi_rf_ws.Common.{
  ℕ, ◌≡◌, Bool, true, false, not, ◌&&◌, ◌||◌, ◌==◌, arith, if◌then◌else◌, ℤ, pos, negsuc, is_zero,
}

-- -0x1022
abbrev pub mac_is_enabled : ℤ
mac_is_enabled = negsuc 0x1021

abbrev pub precondition : ℤ
precondition = negsuc 0x1024

abbrev pub incomplete : ℤ
incomplete = negsuc 0x1025

abbrev pub config_changed : ℤ
config_changed = negsuc 0x1026

abbrev pub cleanup_failed : ℤ
cleanup_failed = negsuc 0x1027

-- `[u16; 3]`, in the native queue order.
pub record Lengths : Type 0 where
  pub normal : ℕ
  pub high : ℕ
  pub small : ℕ

abbrev pub no_counts : Lengths
no_counts = record { normal = 0; high = 0; small = 0 }

abbrev pub same_lengths : Lengths → Lengths → Bool
same_lengths a b = (a.normal == b.normal) && (a.high == b.high) && (a.small == b.small)

pub record Counts : Type 0 where
  pub actual : Lengths
  pub expected : Lengths

pub record RxRebuildDiagnostics : Type 0 where
  pub expected : Lengths
  pub actual : Lengths
  pub cleaned : Lengths
  pub mac_after_init : ℕ  -- u8
  pub mac_after_cleanup : ℕ  -- u8
  pub attempted : Bool
  pub cleanup_attempted : Bool
  pub init_status : ℤ  -- i32
  pub cleanup_status : ℤ  -- i32
  pub fault : ℤ  -- i32

pub record DescriptorOps (S : Type 0) : Type 0 where
  pub counts : S → S × Counts
  pub mac_enabled : S → S × ℕ
  pub initialize : S → S × ℤ
  pub disable : S → S
  pub destroy : S → S × ℤ

-- The fault of the first half, from the initialization and what is read after it.
abbrev pub init_fault : ℤ → ℕ → Counts → Counts → ℤ
init_fault status mac before after =
    if not (is_zero status)
    then status
    else if not (mac == 0)
    then mac_is_enabled
    else if not (same_lengths after.expected before.expected)
    then config_changed
    else if not (same_lengths after.actual before.expected)
    then incomplete
    else pos 0

-- The fault of the second half, which counts only if there is none so far.
abbrev pub cleanup_fault : ℤ → ℤ → ℕ → Counts → Counts → ℤ
cleanup_fault fault status mac before final =
    if not (is_zero fault)
    then fault
    else if not (is_zero status)
    then status
    else if not (mac == 0) || not (same_lengths final.actual no_counts)
    then cleanup_failed
    else if not (same_lengths final.expected before.expected)
    then config_changed
    else pos 0

module _ {S : Type 0} (ops : DescriptorOps S) where
  -- The lists are freed only while the MAC reads as disabled: whether they were, and the status.
  unfoldable pub clean_up : S → S × Bool × ℤ
  clean_up s =
      let (u, mac) = ops.mac_enabled (ops.disable s) in
      if mac == 0
      then (let (v, status) = ops.destroy u in (v, true, status))
      else (u, false, mac_is_enabled)

  -- `probe` past its precondition.
  unfoldable pub attempt : S → Counts → S × RxRebuildDiagnostics
  unfolding clean_up
  attempt s before =
      let (s1, init_status) = ops.initialize s in
      let (s2, mac_after_init) = ops.mac_enabled s1 in
      let (s3, after) = ops.counts s2 in
      let (s4, cleanup_attempted, cleanup_status) = clean_up s3 in
      let (s5, mac_after_cleanup) = ops.mac_enabled s4 in
      let (s6, final) = ops.counts s5 in
      (
        s6,
        record {
          expected = before.expected;
          actual = after.actual;
          cleaned = final.actual;
          mac_after_init = mac_after_init;
          mac_after_cleanup = mac_after_cleanup;
          attempted = true;
          cleanup_attempted = cleanup_attempted;
          init_status = init_status;
          cleanup_status = cleanup_status;
          fault =
              cleanup_fault (init_fault init_status mac_after_init before after) cleanup_status
                mac_after_cleanup before final;
        },
      )

  abbrev pub refused : Counts → RxRebuildDiagnostics
  refused before = record {
    expected = before.expected;
    actual = no_counts;
    cleaned = no_counts;
    mac_after_init = 0xff;
    mac_after_cleanup = 0xff;
    attempted = false;
    cleanup_attempted = false;
    init_status = pos 0;
    cleanup_status = pos 0;
    fault = precondition;
  }

  -- The MAC is read only if the counts allow an attempt.
  unfoldable pub probe : S → S × RxRebuildDiagnostics
  unfolding attempt
  probe s =
      let (t, before) = ops.counts s in
      if not (same_lengths before.actual no_counts) || same_lengths before.expected no_counts
      then (t, refused before)
      else (let (u, mac) = ops.mac_enabled t in
          if not (mac == 0) then (u, refused before) else attempt u before)

  -- A probe without a fault has attempted the round trip from a nonempty configuration: the
  -- initialization returned 0 with the MAC disabled and filled every list to its configured length,
  -- and then the cleanup was attempted, returned 0 with the MAC disabled and left every list empty.
  pub probe_lem :
      (s : S)
      → is_zero (probe s).1.fault ≡ true
      → let r = (probe s).1 in
        (r.attempted ≡ true)
        × (same_lengths r.expected no_counts ≡ false)
        × (is_zero r.init_status ≡ true)
        × (r.mac_after_init ≡ 0)
        × (same_lengths r.actual r.expected ≡ true)
        × (r.cleanup_attempted ≡ true)
        × (is_zero r.cleanup_status ≡ true)
        × (r.mac_after_cleanup ≡ 0)
        × (same_lengths r.cleaned no_counts ≡ true)
  unfolding probe
  probe_lem s h = ground arith
