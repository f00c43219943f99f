-- ===== src/SlotQueue/Order.antt =====
-- The consumer takes the entry that was enqueued first, across the wrap-around of the sequence.
use hisi_rf_ws.Common.{
  ℕ, suc, ◌+◌, ◌-◌, ◌%◌, ◌^◌, ◌≤◌, ◌<◌, ◌≡◌, ◌⊎◌, inl, inr, refl, sym, ap, ◌∙◌, subst, List, [],
  ◌∷◌, none, some, true, false, arith, u32_mod, All, get_elem?, Bool-cases,
}
use hisi_rf_ws.SlotQueue.{
  SlotState, Slot, is_ready, sequence_before, any_writing, oldest_from, set_state, claimed,
  take_oldest_slot,
}

-- How many sequence numbers ago `sequence` was drawn, where `next` is drawn next.
abbrev pub age : ℕ → ℕ → ℕ
age next sequence = (next + u32_mod - sequence) % u32_mod

-- A sequence number drawn within the last 2^31.
abbrev pub Recent : ℕ → ℕ → Type 0
Recent next sequence = (sequence < u32_mod) × (1 ≤ age next sequence) × (age next sequence ≤ 2 ^ 31)

module _ {ℓ} {A : Type ℓ} where
  abbrev pub Window : ℕ → List (Slot A) → Type 0
  Window next = All (λ (s : Slot A). is_ready s.state ≡ true → Recent next s.sequence)

  -- No ready entry is older than `oldest`.
  abbrev pub NoneOlder : ℕ → ℕ → List (Slot A) → Type 0
  NoneOlder next oldest =
      All (λ (s : Slot A). is_ready s.state ≡ true → age next s.sequence ≤ age next oldest)

before-age :
    (next x y : ℕ)
    → next < u32_mod
    → Recent next x
    → Recent next y
    → sequence_before x y ≡ true
    → age next y < age next x
unfolding sequence_before
before-age next x y h rx ry e =
    let far : 2 ^ 31 ≤ (x + u32_mod - y) % u32_mod = ground (arith, e) in
    omega (arith, far, rx.0, rx.1, rx.2, ry.0, ry.1, ry.2)

not_before-age :
    (next x y : ℕ)
    → next < u32_mod
    → Recent next x
    → Recent next y
    → sequence_before x y ≡ false
    → age next x ≤ age next y
unfolding sequence_before
not_before-age next x y h rx ry e =
    let near : (x + u32_mod - y) % u32_mod < 2 ^ 31 = ground (arith, e) in
    omega (arith, near, rx.0, rx.1, rx.2, ry.0, ry.1, ry.2)

module _ {ℓ} {A : Type ℓ} where
  -- The ready entry with sequence `c` stands at index `i`, where `xs` begins at index `index`.
  abbrev pub Stands : List (Slot A) → ℕ → ℕ → ℕ → Type ℓ
  Stands xs index i c =
      (k : ℕ) × (s : Slot A) × (i ≡ index + k)
      × (get_elem? xs k ≡ some s)
      × (is_ready s.state ≡ true)
      × (s.sequence ≡ c)

  -- What a search that starts from an entry with sequence `current` finds.
  abbrev Found : ℕ → List (Slot A) → ℕ → ℕ → ℕ → ℕ → ℕ → Type ℓ
  Found next xs index best current i c =
      Recent next c
      × (age next current ≤ age next c)
      × NoneOlder next c xs
      × (((i ≡ best) × (c ≡ current)) ⊎ Stands xs index i c)

  Stands-later :
      (x : Slot A) (xs : List (Slot A)) (index i c : ℕ)
      → Stands xs (index + 1) i c
      → Stands (x ∷ xs) index i c
  Stands-later x xs index i c (k, s, e, at, ready, same) = (suc k, s, omega arith, at, ready, same)

  Found-later :
      (next : ℕ) (x : Slot A) (xs : List (Slot A)) (index best current i c : ℕ)
      → (is_ready x.state ≡ true → age next x.sequence ≤ age next current)
      → Found next xs (index + 1) best current i c
      → Found next (x ∷ xs) index best current i c
  Found-later next x xs index best current i c h (r, more, none_older, place) = (
    r,
    more,
    (λ p. omega (arith, h p, more), none_older),
    elim place [ inl same ↦ inl same | inr s ↦ inr (Stands-later x xs index i c s) ],
  )

  Found-here :
      (next : ℕ) (x : Slot A) (xs : List (Slot A)) (index i c : ℕ)
      → is_ready x.state ≡ true
      → Found next xs (index + 1) index x.sequence i c
      → Stands (x ∷ xs) index i c
  Found-here next x xs index i c ready (r, more, none_older, place) = elim place [
    | inl same ↦ (0, x, omega (arith, same.0), refl, ready, sym same.1)
    | inr s ↦ Stands-later x xs index i c s
  ]

  search_some :
      (next : ℕ) (xs : List (Slot A)) (index best current : ℕ)
      → next < u32_mod
      → Window next xs
      → Recent next current
      → (i : ℕ) × (c : ℕ) × (oldest_from xs index (some (best, current)) ≡ some (i, c))
        × Found next xs index best current i c
  unfolding oldest_from
  search_some next [] index best current h w r =
      (best, current, refl, (r, omega arith, tt, inl (refl, refl)))
  search_some next (x ∷ xs) index best current h (wx, w) r = elim (Bool-cases (is_ready x.state)) [
    | inr e ↦
        let (i, c, found, f) = search_some next xs (index + 1) best current h w r in
        (
          i,
          c,
          rw e found,
          Found-later next x xs index best current i c (λ p. absurd (ground (arith, p, e))) f,
        )
    | inl e ↦ elim (Bool-cases (sequence_before x.sequence current)) [
      | inl b ↦
          let (i, c, found, f) = search_some next xs (index + 1) index x.sequence h w (wx e) in
          let older = before-age next x.sequence current h (wx e) r b in
          (
            i,
            c,
            rw e (rw b found),
            (
              f.0,
              omega (arith, older, f.1),
              (λ p. f.1, f.2),
              inr (Found-here next x xs index i c e f),
            ),
          )
      | inr b ↦
          let (i, c, found, f) = search_some next xs (index + 1) best current h w r in
          (
            i,
            c,
            rw e (rw b found),
            Found-later next x xs index best current i c
                (λ p. not_before-age next x.sequence current h (wx e) r b) f,
          )
    ]
  ]

  abbrev pub NoneReady : List (Slot A) → Type 0
  NoneReady = All (λ (s : Slot A). is_ready s.state ≡ false)

  search_none :
      (next : ℕ) (xs : List (Slot A)) (index : ℕ)
      → next < u32_mod
      → Window next xs
      → ((oldest_from xs index none ≡ none) × NoneReady xs)
        ⊎ ((i : ℕ) × (c : ℕ) × (oldest_from xs index none ≡ some (i, c))
            × NoneOlder next c xs
            × Stands xs index i c)
  unfolding oldest_from
  search_none next [] index h w = inl (refl, tt)
  search_none next (x ∷ xs) index h (wx, w) = elim (Bool-cases (is_ready x.state)) [
    | inl e ↦
        let (i, c, found, f) = search_some next xs (index + 1) index x.sequence h w (wx e) in
        inr (i, c, rw e found, (λ p. f.1, f.2), Found-here next x xs index i c e f)
    | inr e ↦ elim (search_none next xs (index + 1) h w) [
      | inl n ↦ inl (rw e n.0, (e, n.1))
      | inr s ↦
          let (i, c, found, none_older, place) = s in
          inr (
            i,
            c,
            rw e found,
            (λ p. absurd (ground (arith, p, e)), none_older),
            Stands-later x xs index i c place,
          )
    ]
  ]

  -- While no slot is being written and the ready entries were enqueued within the last 2^31
  -- sequence numbers, the consumer takes nothing exactly when no entry is ready. Otherwise it takes
  -- a ready entry such that no ready entry was enqueued before it, and marks just that slot.
  pub takes_oldest :
      (next : ℕ) (slots : List (Slot A))
      → next < u32_mod
      → Window next slots
      → any_writing slots ≡ false
      → ((take_oldest_slot slots ≡ (slots, none)) × NoneReady slots)
        ⊎ ((i : ℕ) × (s : Slot A) × (get_elem? slots i ≡ some s)
            × (is_ready s.state ≡ true)
            × NoneOlder next s.sequence slots
            × (take_oldest_slot slots ≡ (set_state slots i SlotState.reading, some i)))
  unfolding take_oldest_slot
  takes_oldest next slots h w quiet = elim (search_none next slots 0 h w) [
    | inl n ↦ inl (rw quiet (ap (claimed slots) (n.0)), n.1)
    | inr f ↦
        let (i, c, found, none_older, place) = f in
        let (k, s, e, at, ready, same) = place in
        inr (
          i,
          s,
          ap (get_elem? slots) {y = k} (omega (arith, e)) ∙ at,
          ready,
          subst (λ n. NoneOlder next n slots) (sym same) none_older,
          rw quiet (ap (claimed slots) found),
        )
  ]
