-- ===== src/RxOrigin.antt =====
-- src/netif_l2/rx_origin.rs: the census of receive buffers by the epoch in which their
-- descriptor was bound. Columns of `n` entries; a netbuf of 0 marks an unused one.
pub mod Sweep
pub mod Invariant
pub mod Provenance
mod Tests
use hisi_rf_ws.Common.{
  ℕ, ◌+◌, List, [], ◌∷◌, Option, none, some, Bool, true, false, not, ◌&&◌, ◌||◌, ◌==◌, ltb, max,
  if◌then◌else◌, replicate, set, get_or, position, inc32, dec32, u64_max,
}
use hisi_rf_ws.Route.{AllocationEpoch}

pub record RxOriginDiagnostics : Type 0 where
  pub bindings : ℕ  -- u64
  pub failed_bindings : ℕ  -- u64
  pub replaced : ℕ  -- u64
  pub retired_on_free_attempt : ℕ  -- u64
  pub free_calls : ℕ  -- u64
  pub capacity_failures : ℕ  -- u64
  pub matched : ℕ  -- u64
  pub unmatched : ℕ  -- u64
  pub closed_origin : ℕ  -- u64
  pub current_origin : ℕ  -- u64
  pub stale_origin : ℕ  -- u64
  pub occupied : ℕ  -- usize, 32 bits on the target
  pub peak : ℕ  -- usize
  pub exhausted : Bool

pub record Tracker : Type 0 where
  pub descriptors : List ℕ
  pub netbufs : List ℕ
  pub revisions : List ℕ
  pub is_open : List Bool
  pub diagnostic : RxOriginDiagnostics

-- `increment`: the counter, and the flag that it raises when the counter is full.
abbrev pub bumped : ℕ → ℕ
bumped value = if ltb value u64_max then value + 1 else value

abbrev pub overflowed : ℕ → Bool → Bool
overflowed value exhausted = if ltb value u64_max then exhausted else true

unfoldable pub new : ℕ → Tracker
new n = record {
  descriptors = replicate n 0;
  netbufs = replicate n 0;
  revisions = replicate n 0;
  is_open = replicate n false;
  diagnostic = record {
    bindings = 0;
    failed_bindings = 0;
    replaced = 0;
    retired_on_free_attempt = 0;
    free_calls = 0;
    capacity_failures = 0;
    matched = 0;
    unmatched = 0;
    closed_origin = 0;
    current_origin = 0;
    stale_origin = 0;
    occupied = 0;
    peak = 0;
    exhausted = false;
  };
}

unfoldable pub free_route_valid : ℕ → ℕ → ℕ → Bool
free_route_valid current expected pbuf = not (expected == 0) && (current == expected) && (pbuf == 0)

abbrev pub count_replaced : RxOriginDiagnostics → RxOriginDiagnostics
count_replaced g = record g {
  occupied = dec32 g.occupied;
  replaced = bumped g.replaced;
  exhausted = overflowed g.replaced g.exhausted;
}

-- The old observation of either identity.
abbrev pub is_superseded : ℕ → ℕ → ℕ → ℕ → Bool
is_superseded descriptor netbuf d b = not (b == 0) && ((b == netbuf) || (d == descriptor))

-- The loop at the head of `bind`, over both columns.
unfoldable pub supersede :
    ℕ → ℕ → List ℕ → List ℕ → RxOriginDiagnostics → List ℕ × RxOriginDiagnostics
supersede descriptor netbuf (d ∷ ds) (b ∷ bs) g =
    let hit = is_superseded descriptor netbuf d b in
    let (rest, g') = supersede descriptor netbuf ds bs (if hit then count_replaced g else g) in
    ((if hit then 0 else b) ∷ rest, g')
supersede descriptor netbuf ds bs g = (bs, g)

abbrev pub count_failed : Tracker → Tracker
count_failed t =
    let g = t.diagnostic in
    record t {
      diagnostic = record g {
        failed_bindings = bumped g.failed_bindings;
        exhausted = overflowed g.failed_bindings g.exhausted;
      };
    }

abbrev pub count_full : Tracker → Tracker
count_full t =
    let g = t.diagnostic in
    record t {
      diagnostic = record g {
        capacity_failures = bumped g.capacity_failures;
        exhausted = overflowed g.capacity_failures g.exhausted;
      };
    }

abbrev pub is_some : Option ℕ → Bool
is_some none = false
is_some (some n) = true

abbrev pub or_zero : Option ℕ → ℕ
or_zero none = 0
or_zero (some n) = n

-- The end of `bind`, with the free slot.
unfoldable pub bind_at : Tracker → ℕ → ℕ → AllocationEpoch → Option ℕ → Tracker
bind_at t descriptor netbuf epoch none = count_full t
bind_at t descriptor netbuf epoch (some slot) =
    let g = t.diagnostic in
    record {
      descriptors = set t.descriptors slot descriptor;
      netbufs = set t.netbufs slot netbuf;
      is_open = set t.is_open slot (is_some epoch.revision);
      revisions = set t.revisions slot (or_zero epoch.revision);
      diagnostic = record g {
        bindings = bumped g.bindings;
        exhausted = overflowed g.bindings g.exhausted;
        occupied = inc32 g.occupied;
        peak = max g.peak (inc32 g.occupied);
      };
    }

unfoldable pub superseded : Tracker → ℕ → ℕ → Tracker
unfolding supersede
superseded t descriptor netbuf =
    let (netbufs, diagnostic) = supersede descriptor netbuf t.descriptors t.netbufs t.diagnostic in
    record t { netbufs = netbufs; diagnostic = diagnostic }

unfoldable pub bind : Tracker → ℕ → ℕ → AllocationEpoch → ℕ → Tracker
unfolding superseded bind_at
bind t descriptor netbuf epoch status =
    let u = superseded t descriptor netbuf in
    if not (status == 0) || (descriptor == 0) || (netbuf == 0)
    then count_failed u
    else bind_at u descriptor netbuf epoch (position (λ entry. entry == 0) u.netbufs)

-- `open[slot].then_some(revisions[slot])`
abbrev pub then_some : Bool → ℕ → Option ℕ
then_some true n = some n
then_some false n = none

abbrev pub is_revision : Option ℕ → ℕ → Bool
is_revision none n = false
is_revision (some m) n = m == n

-- The counter that a matched delivery raises.
abbrev pub count_origin : Option ℕ → AllocationEpoch → RxOriginDiagnostics → RxOriginDiagnostics
count_origin none current g = record g {
  closed_origin = bumped g.closed_origin;
  exhausted = overflowed g.closed_origin g.exhausted;
}
count_origin (some revision) current g =
    if is_revision current.revision revision
    then record g {
      current_origin = bumped g.current_origin;
      exhausted = overflowed g.current_origin g.exhausted;
    }
    else record g {
      stale_origin = bumped g.stale_origin;
      exhausted = overflowed g.stale_origin g.exhausted;
    }

abbrev pub count_matched : RxOriginDiagnostics → RxOriginDiagnostics
count_matched g = record g {
  occupied = dec32 g.occupied;
  matched = bumped g.matched;
  exhausted = overflowed g.matched g.exhausted;
}

unfoldable pub delivered_at : Tracker → AllocationEpoch → Option ℕ → Tracker
delivered_at t current none =
    let g = t.diagnostic in
    record t {
      diagnostic = record g {
        unmatched = bumped g.unmatched;
        exhausted = overflowed g.unmatched g.exhausted;
      };
    }
delivered_at t current (some slot) =
    let revision = then_some (get_or t.is_open slot false) (get_or t.revisions slot 0) in
    record t {
      netbufs = set t.netbufs slot 0;
      diagnostic = count_origin revision current (count_matched t.diagnostic);
    }

abbrev pub is_entry : ℕ → ℕ → Bool
is_entry netbuf entry = not (netbuf == 0) && (entry == netbuf)

unfoldable pub delivered : Tracker → ℕ → AllocationEpoch → Tracker
unfolding delivered_at
delivered t netbuf current = delivered_at t current (position (is_entry netbuf) t.netbufs)

abbrev pub count_retired : RxOriginDiagnostics → RxOriginDiagnostics
count_retired g = record g {
  occupied = dec32 g.occupied;
  retired_on_free_attempt = bumped g.retired_on_free_attempt;
  exhausted = overflowed g.retired_on_free_attempt g.exhausted;
}

-- The loop of `before_free`.
unfoldable pub retire_freed : ℕ → List ℕ → RxOriginDiagnostics → List ℕ × RxOriginDiagnostics
retire_freed netbuf [] g = ([], g)
retire_freed netbuf (b ∷ bs) g =
    let hit = is_entry netbuf b in
    let (rest, g') = retire_freed netbuf bs (if hit then count_retired g else g) in
    ((if hit then 0 else b) ∷ rest, g')

unfoldable pub before_free : Tracker → ℕ → Tracker
unfolding retire_freed
before_free t netbuf =
    let g = t.diagnostic in
    let counted = record g {
      free_calls = bumped g.free_calls;
      exhausted = overflowed g.free_calls g.exhausted;
    } in
    let (netbufs, diagnostic) = retire_freed netbuf t.netbufs counted in
    record t { netbufs = netbufs; diagnostic = diagnostic }

-- One critical section on the tracker.
pub data Op : Type 0 where
  bind_op : ℕ → ℕ → AllocationEpoch → ℕ → Op
  delivered_op : ℕ → AllocationEpoch → Op
  before_free_op : ℕ → Op

unfoldable pub step : Tracker → Op → Tracker
step t (Op.bind_op descriptor netbuf epoch status) = bind t descriptor netbuf epoch status
step t (Op.delivered_op netbuf current) = delivered t netbuf current
step t (Op.before_free_op netbuf) = before_free t netbuf

unfoldable pub run : Tracker → List Op → Tracker
unfolding step
run t [] = t
run t (op ∷ ops) = run (step t op) ops
