-- ===== src/RxOrigin/Sweep.antt =====
-- The invariant of the census, and the two loops that empty entries.
use hisi_rf_ws.Common.{
  ℕ, suc, ◌+◌, ◌≤◌, ◌<◌, ◌≡◌, ◌≢◌, inl, inr, refl, sym, ap, ◌∙◌, List, [], ◌∷◌, Bool, false, arith,
  ◌==◌, not, length, bit, count_if, count_if-replicate, count_if-le-length, Bool-cases,
  length-replicate, u32_mod, if◌then◌else◌,
}
use hisi_rf_ws.RxOrigin.{
  RxOriginDiagnostics, Tracker, new, count_replaced, is_superseded, supersede, superseded, is_entry,
  bumped, overflowed, count_retired, retire_freed, before_free,
}

abbrev pub live : ℕ → Bool
live b = not (b == 0)

-- Unless a counter is full: each binding was matched, replaced, retired or is still observed, and
-- each match had a closed, current or stale origin.
abbrev pub IsBalanced : RxOriginDiagnostics → Type 0
IsBalanced g =
    g.exhausted ≡ false
    → (g.bindings ≡ g.matched + g.replaced + g.retired_on_free_attempt + g.occupied)
      × (g.matched ≡ g.closed_origin + g.current_origin + g.stale_origin)

pub record IsValid (n : ℕ) (t : Tracker) : Type 0 where
  pub small : n < u32_mod
  pub descriptor_size : length t.descriptors ≡ n
  pub netbuf_size : length t.netbufs ≡ n
  pub revision_size : length t.revisions ≡ n
  pub open_size : length t.is_open ≡ n
  pub occupied_exact : t.diagnostic.occupied ≡ count_if live t.netbufs
  pub peak_above : t.diagnostic.occupied ≤ t.diagnostic.peak
  pub peak_bounded : t.diagnostic.peak ≤ n
  pub balanced : IsBalanced t.diagnostic
  pub netbuf_once : (x : ℕ) → x ≢ 0 → count_if (λ b. b == x) t.netbufs ≤ 1

-- A new census is valid.
pub new-IsValid : (n : ℕ) → n < u32_mod → IsValid n (new n)
unfolding new
new-IsValid n small = record {
  small = small;
  descriptor_size = length-replicate n 0;
  netbuf_size = length-replicate n 0;
  revision_size = length-replicate n 0;
  open_size = length-replicate n false;
  occupied_exact = sym (count_if-replicate live n 0 refl);
  peak_above = omega arith;
  peak_bounded = omega arith;
  balanced = λ e. omega arith;
  netbuf_once = λ x h. omega (arith, count_if-replicate (λ b. b == x) n 0 (ground arith));
}

-- What a loop that empties some entries keeps, with `extra` live entries elsewhere.
record Swept (extra : ℕ) (bs : List ℕ) (g : RxOriginDiagnostics) (bs' : List ℕ)
    (g' : RxOriginDiagnostics) : Type 0 where
  size : length bs' ≡ length bs
  occupied : g'.occupied ≡ extra + count_if live bs'
  peak : g'.peak ≡ g.peak
  fewer : count_if live bs' ≤ count_if live bs
  balanced : IsBalanced g'
  once : (x : ℕ) → x ≢ 0 → count_if (λ b. b == x) bs' ≤ count_if (λ b. b == x) bs

unchanged :
    (extra : ℕ) (bs : List ℕ) (g : RxOriginDiagnostics)
    → g.occupied ≡ extra + count_if live bs
    → IsBalanced g
    → Swept extra bs g bs g
unchanged extra bs g o b = record {
  size = refl;
  occupied = o;
  peak = refl;
  fewer = omega arith;
  balanced = b;
  once = λ x h. omega arith;
}

sweep_supersede :
    (descriptor netbuf extra : ℕ) (ds bs : List ℕ) (g : RxOriginDiagnostics)
    → extra + length bs < u32_mod
    → g.occupied ≡ extra + count_if live bs
    → IsBalanced g
    → let (bs', g') = supersede descriptor netbuf ds bs g in Swept extra bs g bs' g'
unfolding supersede count_if
sweep_supersede descriptor netbuf extra [] bs g small o b = unchanged extra bs g o b
sweep_supersede descriptor netbuf extra (d ∷ ds) [] g small o b = unchanged extra [] g o b
sweep_supersede descriptor netbuf extra (d ∷ ds) (c ∷ bs) g small o b =
    elim (Bool-cases (is_superseded descriptor netbuf d c)) [
      | inl e ↦
          let w =
            sweep_supersede descriptor netbuf extra ds bs (count_replaced g) (omega arith)
              (ground (arith, count_if-le-length live bs))
              (λ q. ground (arith, count_if-le-length live bs)) in
          rw e (record {
            size = ap suc w.size;
            occupied = ground (arith, w.occupied);
            peak = w.peak;
            fewer = ground (arith, w.fewer);
            balanced = w.balanced;
            once = λ x h. ground (arith, w.once x h);
          })
      | inr e ↦
          let w =
            sweep_supersede descriptor netbuf (extra + bit (live c)) ds bs g (ground arith)
              (ground arith) b in
          rw e (record {
            size = ap suc w.size;
            occupied = ground (arith, w.occupied);
            peak = w.peak;
            fewer = ground (arith, w.fewer);
            balanced = w.balanced;
            once = λ x h. ground (arith, w.once x h);
          })
    ]

sweep_retire :
    (netbuf extra : ℕ) (bs : List ℕ) (g : RxOriginDiagnostics)
    → extra + length bs < u32_mod
    → g.occupied ≡ extra + count_if live bs
    → IsBalanced g
    → let (bs', g') = retire_freed netbuf bs g in Swept extra bs g bs' g'
unfolding retire_freed count_if
sweep_retire netbuf extra [] g small o b = unchanged extra [] g o b
sweep_retire netbuf extra (c ∷ bs) g small o b = elim (Bool-cases (is_entry netbuf c)) [
  | inl e ↦
      let w =
        sweep_retire netbuf extra bs (count_retired g) (omega arith)
          (ground (arith, count_if-le-length live bs))
          (λ q. ground (arith, count_if-le-length live bs)) in
      rw e (record {
        size = ap suc w.size;
        occupied = ground (arith, w.occupied);
        peak = w.peak;
        fewer = ground (arith, w.fewer);
        balanced = w.balanced;
        once = λ x h. ground (arith, w.once x h);
      })
  | inr e ↦
      let w = sweep_retire netbuf (extra + bit (live c)) bs g (ground arith) (ground arith) b in
      rw e (record {
        size = ap suc w.size;
        occupied = ground (arith, w.occupied);
        peak = w.peak;
        fewer = ground (arith, w.fewer);
        balanced = w.balanced;
        once = λ x h. ground (arith, w.once x h);
      })
]

-- After the loop of `bind` no entry has the netbuf that is about to be bound.
pub supersede-gone :
    (descriptor netbuf : ℕ) (ds bs : List ℕ) (g : RxOriginDiagnostics)
    → length ds ≡ length bs
    → netbuf ≢ 0
    → count_if (λ b. b == netbuf) (supersede descriptor netbuf ds bs g).0 ≡ 0
unfolding supersede count_if
supersede-gone descriptor netbuf [] [] g same nz = refl
supersede-gone descriptor netbuf [] (b ∷ bs) g same nz = absurd (omega arith)
supersede-gone descriptor netbuf (d ∷ ds) [] g same nz = refl
supersede-gone descriptor netbuf (d ∷ ds) (b ∷ bs) g same nz =
    let hit = is_superseded descriptor netbuf d b in
    let next = if hit then count_replaced g else g in
    let ih = supersede-gone descriptor netbuf ds bs next (omega arith) nz in ground (arith, ih)

pub superseded-IsValid :
    {n : ℕ} {t : Tracker} (descriptor netbuf : ℕ)
    → IsValid n t
    → IsValid n (superseded t descriptor netbuf)
unfolding superseded
superseded-IsValid {n} {t} descriptor netbuf v =
    let w =
      sweep_supersede descriptor netbuf 0 t.descriptors t.netbufs t.diagnostic
        (omega (arith, v.netbuf_size, v.small)) (omega (arith, v.occupied_exact)) v.balanced in
    record {
      small = v.small;
      descriptor_size = v.descriptor_size;
      netbuf_size = w.size ∙ v.netbuf_size;
      revision_size = v.revision_size;
      open_size = v.open_size;
      occupied_exact = w.occupied ∙ omega arith;
      peak_above = omega (arith, w.occupied, w.fewer, w.peak, v.peak_above, v.occupied_exact);
      peak_bounded = omega (arith, w.peak, v.peak_bounded);
      balanced = w.balanced;
      netbuf_once = λ x h. omega (arith, w.once x h, v.netbuf_once x h);
    }

pub superseded-fewer :
    {n : ℕ} {t : Tracker} (descriptor netbuf : ℕ)
    → IsValid n t
    → count_if live (superseded t descriptor netbuf).netbufs ≤ t.diagnostic.occupied
unfolding superseded
superseded-fewer {n} {t} descriptor netbuf v = omega (
  arith,
  (sweep_supersede descriptor netbuf 0 t.descriptors t.netbufs t.diagnostic
      (omega (arith, v.netbuf_size, v.small)) (omega (arith, v.occupied_exact)) v.balanced).fewer,
  v.occupied_exact,
)

pub before_free-IsValid :
    {n : ℕ} {t : Tracker} (netbuf : ℕ) → IsValid n t → IsValid n (before_free t netbuf)
unfolding before_free
before_free-IsValid {n} {t} netbuf v =
    let g = t.diagnostic in
    let counted : RxOriginDiagnostics = record g {
      free_calls = bumped g.free_calls;
      exhausted = overflowed g.free_calls g.exhausted;
    } in
    let w =
      sweep_retire netbuf 0 t.netbufs counted (omega (arith, v.netbuf_size, v.small))
        (omega (arith, v.occupied_exact)) (λ q. ground (arith, v.balanced)) in
    record {
      small = v.small;
      descriptor_size = v.descriptor_size;
      netbuf_size = w.size ∙ v.netbuf_size;
      revision_size = v.revision_size;
      open_size = v.open_size;
      occupied_exact = w.occupied ∙ omega arith;
      peak_above = omega (arith, w.occupied, w.fewer, w.peak, v.peak_above, v.occupied_exact);
      peak_bounded = omega (arith, w.peak, v.peak_bounded);
      balanced = w.balanced;
      netbuf_once = λ x h. omega (arith, w.once x h, v.netbuf_once x h);
    }
