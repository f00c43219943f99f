-- ===== src/EventGroup/Covered.antt =====
-- Each critical section keeps the registered readers covered.
use Prim.Native.Nat.{bit_or}
use mathlib.Core.List.{Memᴰ}
use native.Mathlib.Decide.{ℕ_discrete}
use hisi_rf_ws.Common.{
  ℕ, zero, suc, ◌≡◌, ◌≢◌, ◌⊎◌, inl, inr, refl, sym, ◌∙◌, ap, subst, List, [], ◌∷◌, ◌++◌, Option,
  none, some, arith, get_elem?, Option-cases, position, position-some, position-none, replicate,
  set, get_elem?-set_self, get_elem?-set_ne, lt_of_get_elem?, length-set, ==→eq,
}
use hisi_rf_ws.EventGroup.{
  EventGroup, EventWaiter, empty_waiter, event_matches, matched_event, poll_event, read_section,
  register_polled, register_section, unregister_waiter, woken, write_section, osal_event_clear,
  complement, is_semaphore, new_event_group,
}
use hisi_rf_ws.EventGroup.Wakeups.{
  System, At, remove, Move, Reaches, Unmet, IsCovered, IsCovered-IsFewer, matched_event-IsFewer,
  read-IsFewer, woken_lem,
}

Memᴰ-append : (p : ℕ) (xs ys : List ℕ) → Memᴰ p ys → Memᴰ p (xs ++ ys)
Memᴰ-append p [] ys m = m
Memᴰ-append p (x ∷ xs) ys m = Memᴰ.tail (Memᴰ-append p xs ys m)

Memᴰ-append_left : (p : ℕ) (xs ys : List ℕ) → Memᴰ p xs → Memᴰ p (xs ++ ys)
Memᴰ-append_left p [] ys m = elim m [ ]
Memᴰ-append_left p (x ∷ xs) ys (Memᴰ.head e) = Memᴰ.head e
Memᴰ-append_left p (x ∷ xs) ys (Memᴰ.tail m) = Memᴰ.tail (Memᴰ-append_left p xs ys m)

remove_same : (y x : ℕ) (xs : List ℕ) → x ≡ y → remove y (x ∷ xs) ≡ remove y xs
remove_same y x xs e = ground (arith, e)

remove_other : (y x : ℕ) (xs : List ℕ) → x ≢ y → remove y (x ∷ xs) ≡ x ∷ remove y xs
remove_other y x xs h = ground (arith, h)

Memᴰ-remove : (p y : ℕ) (xs : List ℕ) → p ≢ y → Memᴰ p xs → Memᴰ p (remove y xs)
Memᴰ-remove p y [] apart m = elim m [ ]
Memᴰ-remove p y (x ∷ xs) apart (Memᴰ.head e) =
    subst (Memᴰ p) (sym (remove_other y x xs (λ z. apart (e ∙ z)))) (Memᴰ.head e)
Memᴰ-remove p y (x ∷ xs) apart (Memᴰ.tail m) = elim (ℕ_discrete x y) [
  | yes same ↦ subst (Memᴰ p) (sym (remove_same y x xs same)) (Memᴰ-remove p y xs apart m)
  | no other ↦
      subst (Memᴰ p) (sym (remove_other y x xs other)) (Memᴰ.tail (Memᴰ-remove p y xs apart m))
]

set-At :
    (e : EventGroup) (i j : ℕ) (w v : EventWaiter)
    → get_elem? (set e.waiters i w) j ≡ some v
    → ((i ≡ j) × (v ≡ w)) ⊎ ((i ≢ j) × At e j v)
set-At e i j w v at = elim (ℕ_discrete i j) [
  | no apart ↦ inr (apart, sym (get_elem?-set_ne e.waiters w apart) ∙ at)
  | yes same ↦
      let inside = lt_of_get_elem? (set e.waiters i w) j at in
      let self =
        get_elem?-set_self e.waiters i w (omega (arith, inside, same, length-set e.waiters i w)) in
      let both : some v ≡ some w = sym (ap (get_elem? (set e.waiters i w)) same ∙ at) ∙ self in
      inl (same, ground (arith, both))
]

-- A waiter is put at index `i` that is covered from the start and has a semaphore of its own.
set-IsCovered :
    (s : System) (i : ℕ) (w : EventWaiter)
    → ((w.semaphore ≡ 0)
        ⊎ (Unmet s.group.bits w
            × ((j : ℕ) (v : EventWaiter) → At s.group j v → v.semaphore ≢ w.semaphore)))
    → IsCovered s
    → IsCovered (record s { group = record s.group { waiters = set s.group.waiters i w } })
set-IsCovered s i w h c = record {
  covered = λ j v at live. elim (set-At s.group i j w v at) [
    | inl new ↦ elim h [
      | inl dead ↦ absurd (live (ap (λ (x : EventWaiter). x.semaphore) new.1 ∙ dead))
      | inr fresh ↦ inl (subst (λ x. Unmet s.group.bits x) (sym new.1) fresh.0)
    ]
    | inr old ↦ c.covered j v old.1 live
  ];
  unique = λ j k u v at there live same. elim (set-At s.group i j w u at) [
    | inl a ↦ elim (set-At s.group i k w v there) [
      | inl b ↦ sym a.0 ∙ b.0
      | inr b ↦ elim h [
        | inl dead ↦ absurd (live (ap (λ (x : EventWaiter). x.semaphore) a.1 ∙ dead))
        | inr fresh ↦
            absurd (fresh.1 k v b.1 (sym same ∙ ap (λ (x : EventWaiter). x.semaphore) a.1))
      ]
    ]
    | inr a ↦ elim (set-At s.group i k w v there) [
      | inl b ↦ elim h [
        | inl dead ↦ absurd (live (same ∙ ap (λ (x : EventWaiter). x.semaphore) b.1 ∙ dead))
        | inr fresh ↦ absurd (fresh.1 j u a.1 (same ∙ ap (λ (x : EventWaiter). x.semaphore) b.1))
      ]
      | inr b ↦ c.unique j k u v a.1 b.1 live same
    ]
  ];
}

-- The end of a registration.
register_polled-IsCovered :
    (s : System) (semaphore mask mode : ℕ)
    → ((i : ℕ) (w : EventWaiter) → At s.group i w → w.semaphore ≢ semaphore)
    → IsCovered s
    → (o : Option ℕ) → event_matches s.group.bits mask mode ≡ o
    → IsCovered (record s {
      group = (register_polled semaphore mask mode (matched_event s.group mask mode o)).0;
    })
register_polled-IsCovered s semaphore mask mode new c (some m) met =
    IsCovered-IsFewer s ((matched_event s.group mask mode (some m)).0)
      (matched_event-IsFewer s.group mask mode (some m)) c
register_polled-IsCovered s semaphore mask mode new c none unmet =
    let w : EventWaiter = record { semaphore = semaphore; mask = mask; mode = mode } in
    elim (Option-cases (position (is_semaphore 0) s.group.waiters)) [
      | inl n ↦ rw n c
      | inr f ↦ rw (f.1) (set-IsCovered s f.0 w (inr (unmet, new)) c)
    ]

-- A semaphore that no registered reader has may be taken off the raised ones.
remove-IsCovered :
    (s : System) (y : ℕ)
    → ((i : ℕ) (w : EventWaiter) → At s.group i w → w.semaphore ≢ 0 → w.semaphore ≢ y)
    → IsCovered s
    → IsCovered (record s { raised = remove y s.raised })
remove-IsCovered s y other c = record {
  covered = λ i w at live. elim (c.covered i w at live) [
    | inl u ↦ inl u
    | inr m ↦ inr (Memᴰ-remove w.semaphore y s.raised (other i w at live) m)
  ];
  unique = c.unique;
}

unregister-IsCovered :
    (s : System) (semaphore : ℕ)
    → semaphore ≢ 0
    → IsCovered s
    → IsCovered
        (record { group = unregister_waiter s.group semaphore; raised = remove semaphore s.raised })
unfolding unregister_waiter
unregister-IsCovered s semaphore live c =
    elim (Option-cases (position (is_semaphore semaphore) s.group.waiters)) [
      | inl n ↦ rw n (
          remove-IsCovered s semaphore
            (λ i w at alive same.
              ground (arith, same, position-none (is_semaphore semaphore) s.group.waiters i w n at))
            c)
      | inr f ↦
          let (v, there, e) = position-some (is_semaphore semaphore) s.group.waiters f.1 in
          let t : System = record s {
            group = record s.group { waiters = set s.group.waiters f.0 empty_waiter };
          } in
          let cleared = set-IsCovered s f.0 empty_waiter (inl refl) c in
          rw (f.1) (
            remove-IsCovered t semaphore
              (λ j w at alive same. elim (set-At s.group f.0 j empty_waiter w at) [
                | inl new ↦ alive (ap (λ (x : EventWaiter). x.semaphore) new.1)
                | inr old ↦
                    let mine : v.semaphore ≡ semaphore = ==→eq v.semaphore semaphore e in
                    old.0
                      (c.unique f.0 j v w there old.1 (λ z. live (sym mine ∙ z)) (mine ∙ sym same))
              ])
              cleared)
    ]

write-IsCovered :
    (s : System) (mask : ℕ)
    → IsCovered s
    → IsCovered (record {
      group = (write_section s.group mask).0;
      raised = (write_section s.group mask).1 ++ s.raised;
    })
unfolding write_section
write-IsCovered s mask c = record {
  covered = λ i w at live.
      let bits = bit_or s.group.bits mask in
      elim (woken_lem bits s.group.waiters i w at live) [
        | inl u ↦ inl u
        | inr m ↦ inr (Memᴰ-append_left w.semaphore (woken bits s.group.waiters) s.raised m)
      ];
  unique = c.unique;
}

Move-IsCovered : {s t : System} → Move s t → IsCovered s → IsCovered t
unfolding register_section poll_event osal_event_clear
Move-IsCovered (Move.read s mask mode) c =
    IsCovered-IsFewer s ((read_section s.group mask mode).0) (read-IsFewer s.group mask mode) c
Move-IsCovered (Move.register s semaphore mask mode live new) c =
    register_polled-IsCovered s semaphore mask mode new c (event_matches s.group.bits mask mode)
      refl
Move-IsCovered (Move.write s mask) c = write-IsCovered s mask c
Move-IsCovered (Move.clear s mask) c =
    IsCovered-IsFewer s (osal_event_clear s.group mask)
      (record { waiters = refl; bits = inr (complement mask, refl) }) c
Move-IsCovered (Move.unregister s semaphore live) c = unregister-IsCovered s semaphore live c

pub Reaches-IsCovered : {s t : System} → Reaches s t → IsCovered s → IsCovered t
Reaches-IsCovered (Reaches.here s) c = c
Reaches-IsCovered (Reaches.later s t u move rest) c = Reaches-IsCovered rest (Move-IsCovered move c)

pub blank_waiters :
    (n i : ℕ) (w : EventWaiter) → get_elem? (replicate n empty_waiter) i ≡ some w → w.semaphore ≡ 0
blank_waiters zero i w at = absurd (ground (arith, at))
blank_waiters (suc n) zero w at = ground (arith, at)
blank_waiters (suc n) (suc i) w at = blank_waiters n i w at

pub init-IsCovered : IsCovered (record { group = new_event_group; raised = [] })
unfolding new_event_group
init-IsCovered = record {
  covered = λ i w at live. absurd (live (blank_waiters 8 i w at));
  unique = λ i j v w at there live same. absurd (live (blank_waiters 8 i v at));
}

-- However polls, registrations, writes, clears and deregistrations on a new group interleave, as
-- long as each reader registers a semaphore of its own: a reader that is registered and has not been
-- woken since then waits for a condition that does not hold.
pub no_lost_wakeup :
    (s : System) (i : ℕ) (w : EventWaiter)
    → Reaches (record { group = new_event_group; raised = [] }) s
    → At s.group i w
    → w.semaphore ≢ 0
    → ¬ Memᴰ w.semaphore s.raised
    → event_matches s.group.bits w.mask w.mode ≡ none
no_lost_wakeup s i w path at live asleep =
    elim ((Reaches-IsCovered path init-IsCovered).covered i w at live) [
      | inl u ↦ u
      | inr m ↦ absurd (asleep m)
    ]
