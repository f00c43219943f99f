-- ===== src/RxOrigin/Invariant.antt =====
-- The invariant of the census, over every sequence of observations.
use hisi_rf_ws.Common.{
  ℕ, ◌≤◌, ◌<◌, ◌≡◌, ◌≢◌, inl, inr, refl, sym, ◌∙◌, List, [], ◌∷◌, Option, none, some, Bool, false,
  arith, ◌==◌, ◌||◌, not, get_elem?, set, position, count_if, count_if-set, count_if-le-length,
  position-some, Bool-cases, length-set, u32_mod, get_or,
}
use hisi_rf_ws.Route.{AllocationEpoch}
use hisi_rf_ws.RxOrigin.{
  Tracker, Op, new, superseded, count_failed, count_full, bind_at, bind, then_some, or_zero,
  is_some, delivered_at, delivered, is_entry, step, run,
}
use hisi_rf_ws.RxOrigin.Sweep.{
  live, IsValid, new-IsValid, superseded-IsValid, before_free-IsValid, supersede-gone,
}

count_failed-IsValid : {n : ℕ} {t : Tracker} → IsValid n t → IsValid n (count_failed t)
count_failed-IsValid v = ground arith

count_full-IsValid : {n : ℕ} {t : Tracker} → IsValid n t → IsValid n (count_full t)
count_full-IsValid v = ground arith

bind_at-IsValid :
    {n : ℕ} {t : Tracker} (descriptor netbuf : ℕ) (epoch : AllocationEpoch) (slot : Option ℕ)
    → netbuf ≢ 0
    → count_if (λ b. b == netbuf) t.netbufs ≡ 0
    → ((i : ℕ) → slot ≡ some i → get_elem? t.netbufs i ≡ some 0)
    → IsValid n t
    → IsValid n (bind_at t descriptor netbuf epoch slot)
unfolding bind_at
bind_at-IsValid descriptor netbuf epoch none nz alone at v = count_full-IsValid v
bind_at-IsValid {n} {t} descriptor netbuf epoch (some i) nz alone at v =
    let law = λ (p : ℕ → Bool). count_if-set p t.netbufs i 0 netbuf (at i refl) in
    let room : count_if live (set t.netbufs i netbuf) ≤ n = omega (
      arith,
      count_if-le-length live (set t.netbufs i netbuf),
      length-set t.netbufs i netbuf,
      v.netbuf_size,
    ) in
    record {
      small = v.small;
      descriptor_size = length-set t.descriptors i descriptor ∙ v.descriptor_size;
      netbuf_size = length-set t.netbufs i netbuf ∙ v.netbuf_size;
      revision_size = length-set t.revisions i (or_zero epoch.revision) ∙ v.revision_size;
      open_size = length-set t.is_open i (is_some epoch.revision) ∙ v.open_size;
      occupied_exact = ground (arith, law live, room, v.small, v.occupied_exact);
      peak_above = omega arith;
      peak_bounded = ground (arith, law live, room, v.small, v.occupied_exact, v.peak_bounded);
      balanced = λ q. ground (arith, v.balanced, law live, room, v.small, v.occupied_exact);
      netbuf_once = λ x h. elim (Bool-cases (netbuf == x)) [
        | inl e ↦ ground (arith, law (λ b. b == x), alone, e)
        | inr e ↦ ground (arith, law (λ b. b == x), v.netbuf_once x h, e)
      ];
    }

delivered_at-IsValid :
    {n : ℕ} {t : Tracker} (current : AllocationEpoch) (slot : Option ℕ) (netbuf : ℕ)
    → ((i : ℕ) → slot ≡ some i → (get_elem? t.netbufs i ≡ some netbuf) × (netbuf ≢ 0))
    → IsValid n t
    → IsValid n (delivered_at t current slot)
unfolding delivered_at
delivered_at-IsValid current none netbuf at v = ground arith
delivered_at-IsValid {n} {t} current (some i) netbuf at v =
    let (here, nz) = at i refl in
    let law = λ (p : ℕ → Bool). count_if-set p t.netbufs i netbuf 0 here in
    let room = count_if-le-length live t.netbufs in
    let revision = then_some (get_or t.is_open i false) (get_or t.revisions i 0) in
    record {
      small = v.small;
      descriptor_size = v.descriptor_size;
      netbuf_size = length-set t.netbufs i 0 ∙ v.netbuf_size;
      revision_size = v.revision_size;
      open_size = v.open_size;
      occupied_exact = ground (arith, law live, room, v.small, v.occupied_exact);
      peak_above = ground (arith, law live, room, v.small, v.occupied_exact, v.peak_above);
      peak_bounded = ground (arith, v.peak_bounded);
      balanced = λ q. ground (arith, v.balanced, law live, room, v.small, v.occupied_exact);
      netbuf_once = λ x h. ground (arith, law (λ b. b == x), v.netbuf_once x h, h);
    }

pub bind-IsValid :
    {n : ℕ} {t : Tracker} (descriptor netbuf : ℕ) (epoch : AllocationEpoch) (status : ℕ)
    → IsValid n t
    → IsValid n (bind t descriptor netbuf epoch status)
unfolding bind superseded
bind-IsValid {n} {t} descriptor netbuf epoch status v =
    let u = superseded t descriptor netbuf in
    let w = superseded-IsValid descriptor netbuf v in
    elim (Bool-cases (not (status == 0) || (descriptor == 0) || (netbuf == 0))) [
      | inl e ↦ rw e (count_failed-IsValid w)
      | inr e ↦
          let nz : netbuf ≢ 0 = ground arith in
          rw e (
            bind_at-IsValid descriptor netbuf epoch (position (λ b. b == 0) u.netbufs) nz
              (supersede-gone descriptor netbuf t.descriptors t.netbufs t.diagnostic
                (v.descriptor_size ∙ sym v.netbuf_size) nz)
              (λ i h.
                let (x, at, zero_here) = position-some (λ b. b == 0) u.netbufs h in
                ground (arith, at, zero_here))
              w)
    ]

delivered-IsValid :
    {n : ℕ} {t : Tracker} (netbuf : ℕ) (current : AllocationEpoch)
    → IsValid n t
    → IsValid n (delivered t netbuf current)
unfolding delivered
delivered-IsValid {n} {t} netbuf current v =
    delivered_at-IsValid current (position (is_entry netbuf) t.netbufs) netbuf
      (λ i h.
        let (x, at, hit) = position-some (is_entry netbuf) t.netbufs h in
        (ground (arith, at, hit), ground (arith, hit)))
      v

-- Every observation keeps the census valid.
pub step-IsValid : {n : ℕ} {t : Tracker} (op : Op) → IsValid n t → IsValid n (step t op)
unfolding step
step-IsValid (Op.bind_op descriptor netbuf epoch status) v =
    bind-IsValid descriptor netbuf epoch status v
step-IsValid (Op.delivered_op netbuf current) v = delivered-IsValid netbuf current v
step-IsValid (Op.before_free_op netbuf) v = before_free-IsValid netbuf v

pub run-IsValid : {n : ℕ} {t : Tracker} (ops : List Op) → IsValid n t → IsValid n (run t ops)
unfolding run
run-IsValid [] v = v
run-IsValid {t = t} (op ∷ ops) v = run-IsValid {t = step t op} ops (step-IsValid op v)

-- From a new census of `n` entries, `n` a 32-bit number, after any sequence of observations: each
-- netbuf is observed at most once, `occupied` counts the observed ones and is at most `n`, and
-- unless a counter is full every binding was matched, replaced, retired or is still observed, and
-- every match is counted under exactly one origin.
pub census-IsValid : (n : ℕ) (ops : List Op) → n < u32_mod → IsValid n (run (new n) ops)
census-IsValid n ops small = run-IsValid ops (new-IsValid n small)
