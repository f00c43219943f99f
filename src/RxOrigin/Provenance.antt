-- ===== src/RxOrigin/Provenance.antt =====
-- A delivery is classified by the epoch of its own binding.
use hisi_rf_ws.Common.{
  ℕ, zero, suc, ◌<◌, ◌≡◌, ◌≢◌, inl, inr, refl, sym, ap, ◌∙◌, List, [], ◌∷◌, Option, none, some,
  Bool, true, false, arith, ◌==◌, ◌||◌, not, length, get_elem?, set, position, count_if,
  position-some, position_of_unique, Option-cases, Bool-cases, get_or, if◌then◌else◌,
  get_elem?-set_self, get_elem?-set_ne, lt_of_get_elem?,
}
use hisi_rf_ws.Route.{AllocationEpoch}
use hisi_rf_ws.RxOrigin.{
  RxOriginDiagnostics, Tracker, Op, count_replaced, is_superseded, supersede, superseded, bind_at,
  bind, then_some, or_zero, is_some, count_origin, count_matched, delivered_at, delivered, is_entry,
  count_retired, retire_freed, bumped, before_free, step, run,
}
use hisi_rf_ws.RxOrigin.Sweep.{IsValid, live, superseded-IsValid, superseded-fewer}
use hisi_rf_ws.RxOrigin.Invariant.{run-IsValid, bind-IsValid}

-- Entry `i` observes `netbuf`, bound through `descriptor` in `epoch`.
pub record Observes (t : Tracker) (i descriptor netbuf : ℕ) (epoch : AllocationEpoch) : Type 0 where
  pub netbuf_at : get_elem? t.netbufs i ≡ some netbuf
  pub descriptor_at : get_elem? t.descriptors i ≡ some descriptor
  pub open_at : get_elem? t.is_open i ≡ some (is_some epoch.revision)
  pub revision_at : get_elem? t.revisions i ≡ some (or_zero epoch.revision)

-- Observations that name neither the buffer nor its descriptor.
abbrev pub Avoids : ℕ → ℕ → Op → Type 0
Avoids descriptor netbuf (Op.bind_op d b epoch status) = (d ≢ descriptor) × (b ≢ netbuf)
Avoids descriptor netbuf (Op.delivered_op b current) = b ≢ netbuf
Avoids descriptor netbuf (Op.before_free_op b) = b ≢ netbuf

abbrev pub AllAvoid : ℕ → ℕ → List Op → Type 0
AllAvoid descriptor netbuf [] = Unit {0}
AllAvoid descriptor netbuf (op ∷ ops) = Avoids descriptor netbuf op × AllAvoid descriptor netbuf ops

supersede-keeps :
    (d b i descriptor netbuf : ℕ) (ds bs : List ℕ) (g : RxOriginDiagnostics)
    → d ≢ descriptor
    → b ≢ netbuf
    → get_elem? bs i ≡ some netbuf
    → get_elem? ds i ≡ some descriptor
    → get_elem? (supersede d b ds bs g).0 i ≡ some netbuf
unfolding supersede
supersede-keeps d b i descriptor netbuf [] bs g nd nb hb hd = ground arith
supersede-keeps d b i descriptor netbuf (x ∷ ds) [] g nd nb hb hd = ground arith
supersede-keeps d b zero descriptor netbuf (x ∷ ds) (y ∷ bs) g nd nb hb hd = ground arith
supersede-keeps d b (suc i) descriptor netbuf (x ∷ ds) (y ∷ bs) g nd nb hb hd =
    supersede-keeps d b i descriptor netbuf ds bs
      (if is_superseded d b x y then count_replaced g else g) nd nb hb hd

retire_freed-keeps :
    (b i netbuf : ℕ) (bs : List ℕ) (g : RxOriginDiagnostics)
    → b ≢ netbuf
    → get_elem? bs i ≡ some netbuf
    → get_elem? (retire_freed b bs g).0 i ≡ some netbuf
unfolding retire_freed
retire_freed-keeps b i netbuf [] g nb h = ground arith
retire_freed-keeps b zero netbuf (y ∷ bs) g nb h = ground arith
retire_freed-keeps b (suc i) netbuf (y ∷ bs) g nb h =
    retire_freed-keeps b i netbuf bs (if is_entry b y then count_retired g else g) nb h

module _ (i descriptor netbuf : ℕ) (epoch : AllocationEpoch) (nz : netbuf ≢ 0) where
  -- A write to an entry that holds another netbuf.
  keeps_slot :
      {A : Type 0} (col : List A) (bs : List ℕ) (j x : ℕ) (v w : A)
      → get_elem? bs i ≡ some netbuf
      → get_elem? bs j ≡ some x
      → x ≢ netbuf
      → get_elem? col i ≡ some w
      → get_elem? (set col j v) i ≡ some w
  keeps_slot col bs j x v w at there other here =
      rw
        (get_elem?-set_ne col {i = j} {j = i} v
          (λ e. other (some-eq (sym there ∙ (ap (get_elem? bs) e ∙ at)))))
        here
    where
      some-eq : {a b : ℕ} → some a ≡ some b → a ≡ b
      some-eq e = cc

  bind_at-Observes :
      {t : Tracker} (d b : ℕ) (e : AllocationEpoch) (slot : Option ℕ)
      → ((j : ℕ) → slot ≡ some j → get_elem? t.netbufs j ≡ some 0)
      → Observes t i descriptor netbuf epoch
      → Observes (bind_at t d b e slot) i descriptor netbuf epoch
  unfolding bind_at
  bind_at-Observes d b e none free o = ground arith
  bind_at-Observes {t} d b e (some j) free o =
      let keep = λ (A : Type 0) (col : List A) (v w : A).
        keeps_slot col t.netbufs j 0 v w o.netbuf_at (free j refl) (λ z. nz (sym z)) in
      record {
        netbuf_at = keep ℕ t.netbufs b netbuf o.netbuf_at;
        descriptor_at = keep ℕ t.descriptors d descriptor o.descriptor_at;
        open_at = keep Bool t.is_open (is_some e.revision) (is_some epoch.revision) o.open_at;
        revision_at =
            keep ℕ t.revisions (or_zero e.revision) (or_zero epoch.revision) o.revision_at;
      }

  superseded-Observes :
      {t : Tracker} (d b : ℕ)
      → d ≢ descriptor
      → b ≢ netbuf
      → Observes t i descriptor netbuf epoch
      → Observes (superseded t d b) i descriptor netbuf epoch
  unfolding superseded
  superseded-Observes {t} d b nd nb o = record {
    netbuf_at =
        supersede-keeps d b i descriptor netbuf t.descriptors t.netbufs t.diagnostic nd nb
          o.netbuf_at o.descriptor_at;
    descriptor_at = o.descriptor_at;
    open_at = o.open_at;
    revision_at = o.revision_at;
  }

  zero_found :
      (bs : List ℕ) (j : ℕ) → position (λ entry. entry == 0) bs ≡ some j → get_elem? bs j ≡ some 0
  zero_found bs j h =
      let (x, at, hit) = position-some (λ entry. entry == 0) bs h in ground (arith, at, hit)

  bind-Observes :
      {t : Tracker} (d b : ℕ) (e : AllocationEpoch) (status : ℕ)
      → d ≢ descriptor
      → b ≢ netbuf
      → Observes t i descriptor netbuf epoch
      → Observes (bind t d b e status) i descriptor netbuf epoch
  unfolding bind
  bind-Observes {t} d b e status nd nb o =
      let w = superseded-Observes d b nd nb o in
      let u = superseded t d b in
      let placed =
        bind_at-Observes {t = u} d b e (position (λ entry. entry == 0) u.netbufs)
          (zero_found u.netbufs) w in
      elim (Bool-cases (not (status == 0) || (d == 0) || (b == 0))) [
        | inl q ↦ rw q (record {
          netbuf_at = w.netbuf_at;
          descriptor_at = w.descriptor_at;
          open_at = w.open_at;
          revision_at = w.revision_at;
        })
        | inr q ↦ rw q placed
      ]

  delivered_at-Observes :
      {t : Tracker} (current : AllocationEpoch) (slot : Option ℕ) (b : ℕ)
      → b ≢ netbuf
      → ((j : ℕ) → slot ≡ some j → get_elem? t.netbufs j ≡ some b)
      → Observes t i descriptor netbuf epoch
      → Observes (delivered_at t current slot) i descriptor netbuf epoch
  unfolding delivered_at
  delivered_at-Observes current none b nb hit o = ground arith
  delivered_at-Observes {t} current (some j) b nb hit o = record {
    netbuf_at = keeps_slot t.netbufs t.netbufs j b 0 netbuf o.netbuf_at (hit j refl) nb o.netbuf_at;
    descriptor_at = o.descriptor_at;
    open_at = o.open_at;
    revision_at = o.revision_at;
  }

  step-Observes :
      {t : Tracker} (op : Op)
      → Avoids descriptor netbuf op
      → Observes t i descriptor netbuf epoch
      → Observes (step t op) i descriptor netbuf epoch
  unfolding step delivered before_free
  step-Observes (Op.bind_op d b e status) away o = bind-Observes d b e status away.0 away.1 o
  step-Observes {t} (Op.delivered_op b current) away o =
      delivered_at-Observes current (position (is_entry b) t.netbufs) b away
        (λ j h.
          let (x, at, hit) = position-some (is_entry b) t.netbufs h in ground (arith, at, hit))
        o
  step-Observes {t} (Op.before_free_op b) away o = record {
    netbuf_at = retire_freed-keeps b i netbuf t.netbufs _ away o.netbuf_at;
    descriptor_at = o.descriptor_at;
    open_at = o.open_at;
    revision_at = o.revision_at;
  }

  run-Observes :
      {t : Tracker} (ops : List Op)
      → AllAvoid descriptor netbuf ops
      → Observes t i descriptor netbuf epoch
      → Observes (run t ops) i descriptor netbuf epoch
  unfolding run
  run-Observes [] away o = o
  run-Observes {t = t} (op ∷ ops) away o =
      run-Observes {t = step t op} ops away.1 (step-Observes op away.0 o)

-- Where a delivered buffer was bound, by its own epoch and the epoch of the delivery.
pub data Origin : Type 0 where
  closed current stale : Origin

abbrev pub origin : Option ℕ → Option ℕ → Origin
origin none delivery = Origin.closed
origin (some bound) none = Origin.stale
origin (some bound) (some delivery) = if delivery == bound then Origin.current else Origin.stale

abbrev pub is_closed : Origin → Bool
is_closed Origin.closed = true
is_closed _ = false

abbrev pub is_current : Origin → Bool
is_current Origin.current = true
is_current _ = false

abbrev pub is_stale : Origin → Bool
is_stale Origin.stale = true
is_stale _ = false

no_zero : (bs : List ℕ) → position (λ entry. entry == 0) bs ≡ none → count_if live bs ≡ length bs
unfolding position count_if
no_zero [] h = refl
no_zero (b ∷ bs) h = ground (arith, no_zero bs)

-- A successful binding while an entry is free is observed.
bind-Observes_new :
    {n : ℕ} {t : Tracker} (d b : ℕ) (epoch : AllocationEpoch)
    → IsValid n t
    → d ≢ 0
    → b ≢ 0
    → t.diagnostic.occupied < n
    → (i : ℕ) × Observes (bind t d b epoch 0) i d b epoch
unfolding bind bind_at
bind-Observes_new {n} {t} d b epoch v nd nb room =
    let u = superseded t d b in
    let w = superseded-IsValid d b v in
    let guard : ((d == 0) || (b == 0)) ≡ false = ground arith in
    elim (Option-cases (position (λ entry. entry == 0) u.netbufs)) [
      | inl e ↦ absurd (omega (arith, no_zero u.netbufs e, w.netbuf_size, superseded-fewer d b v))
      | inr r ↦
          let i = r.0 in
          let (x, at, hit) = position-some (λ entry. entry == 0) u.netbufs r.1 in
          let low = lt_of_get_elem? u.netbufs i at in
          (
            i,
            rw (guard, r.1)
                (record {
                  netbuf_at = get_elem?-set_self u.netbufs i b low;
                  descriptor_at =
                      get_elem?-set_self u.descriptors i d
                        (omega (arith, w.netbuf_size, w.descriptor_size));
                  open_at =
                      get_elem?-set_self u.is_open i (is_some epoch.revision)
                        (omega (arith, w.netbuf_size, w.open_size));
                  revision_at =
                      get_elem?-set_self u.revisions i (or_zero epoch.revision)
                        (omega (arith, w.netbuf_size, w.revision_size));
                }),
          )
    ]

get_or_of :
    {A : Type 0} (xs : List A) (i : ℕ) (d : A) {x : A} → get_elem? xs i ≡ some x → get_or xs i d ≡ x
get_or_of [] i d h = absurd (ground arith)
get_or_of (y ∷ xs) zero d h = ground arith
get_or_of (y ∷ xs) (suc i) d h = get_or_of xs i d h

entry_count : (b : ℕ) → b ≢ 0 → (bs : List ℕ) → count_if (is_entry b) bs ≡ count_if (λ x. x == b) bs
unfolding count_if
entry_count b nz [] = refl
entry_count b nz (x ∷ bs) = ground (arith, entry_count b nz bs)

revision_back : (r : Option ℕ) → then_some (is_some r) (or_zero r) ≡ r
revision_back none = refl
revision_back (some n) = refl

-- The delivery of an observed buffer empties its entry and counts it under the origin of its epoch.
delivered-Observes :
    {n : ℕ} {t : Tracker} (i d b : ℕ) (epoch delivery : AllocationEpoch)
    → IsValid n t
    → b ≢ 0
    → Observes t i d b epoch
    → let v = delivered t b delivery in
      (v.netbufs ≡ set t.netbufs i 0)
      × (v.diagnostic ≡ count_origin epoch.revision delivery (count_matched t.diagnostic))
unfolding delivered
delivered-Observes {n} {t} i d b epoch delivery v nz o =
    let found : position (is_entry b) t.netbufs ≡ some i =
      position_of_unique (is_entry b) t.netbufs i b o.netbuf_at (ground arith)
        (omega (arith, entry_count b nz t.netbufs, v.netbuf_once b nz)) in
    rw (found, delivered_at)
      (refl, ap (λ r. count_origin r delivery (count_matched t.diagnostic)) read)
  where
    read : then_some (get_or t.is_open i false) (get_or t.revisions i 0) ≡ epoch.revision
    read =
        rw (get_or_of t.is_open i false o.open_at, get_or_of t.revisions i 0 o.revision_at)
          (revision_back epoch.revision)

pub bump_if : Bool → ℕ → ℕ
bump_if b n = if b then bumped n else n

origin_counts :
    (bound : Option ℕ) (delivery : AllocationEpoch) (g : RxOriginDiagnostics)
    → let o = origin bound delivery.revision in
      let g' = count_origin bound delivery g in
      (g'.closed_origin ≡ bump_if (is_closed o) g.closed_origin)
      × (g'.current_origin ≡ bump_if (is_current o) g.current_origin)
      × (g'.stale_origin ≡ bump_if (is_stale o) g.stale_origin)
unfolding bump_if
origin_counts none delivery g = (refl, refl, refl)
origin_counts (some bound) delivery g = ground arith

-- A buffer that is bound in an epoch while a census entry is free, and that no other observation
-- names before its delivery (nor its descriptor), is counted at its delivery under the origin that
-- its own binding gives it, whatever happened in between: closed if it was bound while admission
-- was closed, current if the delivery is in the very epoch of the binding, and stale otherwise.
pub provenance :
    {n : ℕ} {t : Tracker} (d b : ℕ) (epoch delivery : AllocationEpoch) (ops : List Op)
    → IsValid n t
    → d ≢ 0
    → b ≢ 0
    → t.diagnostic.occupied < n
    → AllAvoid d b ops
    → let u = run (bind t d b epoch 0) ops in
      let v = delivered u b delivery in
      let o = origin epoch.revision delivery.revision in
      (v.diagnostic.matched ≡ bumped u.diagnostic.matched)
      × (v.diagnostic.closed_origin ≡ bump_if (is_closed o) u.diagnostic.closed_origin)
      × (v.diagnostic.current_origin ≡ bump_if (is_current o) u.diagnostic.current_origin)
      × (v.diagnostic.stale_origin ≡ bump_if (is_stale o) u.diagnostic.stale_origin)
provenance {n} {t} d b epoch delivery ops v nd nb room away =
    let (i, o) = bind-Observes_new d b epoch v nd nb room in
    let s = bind t d b epoch 0 in
    let u = run s ops in
    let w = run-IsValid {n = n} {t = s} ops (bind-IsValid d b epoch 0 v) in
    let (_, e) =
      delivered-Observes {n = n} {t = u} i d b epoch delivery w nb
        (run-Observes i d b epoch nb {t = s} ops away o) in
    let counts = origin_counts epoch.revision delivery (count_matched u.diagnostic) in
    ground (arith, e, counts)
