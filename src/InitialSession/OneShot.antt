-- ===== src/InitialSession/OneShot.antt =====
-- The only history that lets a session be opened.
use hisi_rf_ws.Common.{◌≡◌, ◌↔◌, refl, List, [], ◌∷◌, Bool, true, false}
use hisi_rf_ws.InitialSession.{
  InitialSession, Event, uninitialized, bootstrapped, armed, associating, associated, rejected,
  bootstrap_event, connect_event, associate_event, result_event, close_event, bootstrap, connect,
  associate, result, check, run,
}

module _ {O : Type 0} where
  stay_rejected : (es : List (Event O)) → run rejected es ≡ rejected
  unfolding run bootstrap connect associate result
  stay_rejected [] = refl
  stay_rejected (bootstrap_event ∷ es) = stay_rejected es
  stay_rejected (connect_event id ∷ es) = stay_rejected es
  stay_rejected (associate_event ∷ es) = stay_rejected es
  stay_rejected (result_event success ∷ es) = stay_rejected es
  stay_rejected (close_event ∷ es) = stay_rejected es

  -- A rejected session is not associated.
  lost : {P : Type 0} (es : List (Event O)) {id : O} → run rejected es ≡ associated id → P
  lost es h = absurd (cc (stay_rejected es))

  from_associated :
      (es : List (Event O)) {i j : O} → run (associated i) es ≡ associated j → (es ≡ []) × (i ≡ j)
  unfolding run bootstrap connect associate result
  from_associated [] h = (refl, cc)
  from_associated (bootstrap_event ∷ es) h = lost es h
  from_associated (connect_event id ∷ es) h = lost es h
  from_associated (associate_event ∷ es) h = lost es h
  from_associated (result_event success ∷ es) h = lost es h
  from_associated (close_event ∷ es) h = lost es h

  from_associating :
      (es : List (Event O)) {i j : O}
      → run (associating i) es ≡ associated j
      → (es ≡ result_event true ∷ []) × (i ≡ j)
  unfolding run bootstrap connect associate result
  from_associating [] h = absurd (cc)
  from_associating (bootstrap_event ∷ es) h = lost es h
  from_associating (connect_event id ∷ es) h = lost es h
  from_associating (associate_event ∷ es) h = lost es h
  from_associating (result_event true ∷ es) h = let (e, same) = from_associated es h in (cc, same)
  from_associating (result_event false ∷ es) h = lost es h
  from_associating (close_event ∷ es) h = lost es h

  from_armed :
      (es : List (Event O)) {i j : O}
      → run (armed i) es ≡ associated j
      → (es ≡ associate_event ∷ result_event true ∷ []) × (i ≡ j)
  unfolding run bootstrap connect associate result
  from_armed [] h = absurd (cc)
  from_armed (bootstrap_event ∷ es) h = lost es h
  from_armed (connect_event id ∷ es) h = lost es h
  from_armed (associate_event ∷ es) h = let (e, same) = from_associating es h in (cc, same)
  from_armed (result_event success ∷ es) h = lost es h
  from_armed (close_event ∷ es) h = lost es h

  from_bootstrapped :
      (es : List (Event O)) {j : O}
      → run bootstrapped es ≡ associated j
      → es ≡ connect_event j ∷ associate_event ∷ result_event true ∷ []
  unfolding run bootstrap connect associate result
  from_bootstrapped [] h = absurd (cc)
  from_bootstrapped (bootstrap_event ∷ es) h = lost es h
  from_bootstrapped (connect_event id ∷ es) h = let (e, same) = from_armed es h in cc
  from_bootstrapped (associate_event ∷ es) h = lost es h
  from_bootstrapped (result_event success ∷ es) h = lost es h
  from_bootstrapped (close_event ∷ es) h = lost es h

  from_start :
      (es : List (Event O)) {j : O}
      → run uninitialized es ≡ associated j
      → es ≡ bootstrap_event ∷ connect_event j ∷ associate_event ∷ result_event true ∷ []
  unfolding run bootstrap connect associate result
  from_start [] h = absurd (cc)
  from_start (bootstrap_event ∷ es) h = let e = from_bootstrapped es h in cc
  from_start (connect_event id ∷ es) h = lost es h
  from_start (associate_event ∷ es) h = lost es h
  from_start (result_event success ∷ es) h = lost es h
  from_start (close_event ∷ es) h = lost es h

  accepted_check :
      (same : O → O → Bool) (s : InitialSession O) (id : O)
      → ((a b : O) → same a b ≡ true → a ≡ b)
      → check same s id ≡ true
      → s ≡ associated id
  accepted_check same (associated other) id sound h = cc (sound other id h)
  accepted_check same uninitialized id sound h = absurd (cc)
  accepted_check same bootstrapped id sound h = absurd (cc)
  accepted_check same (armed i) id sound h = absurd (cc)
  accepted_check same (associating i) id sound h = absurd (cc)
  accepted_check same InitialSession.opened id sound h = absurd (cc)
  accepted_check same rejected id sound h = absurd (cc)

  -- Where operation ids are compared correctly, a session that has seen the events `es` passes the
  -- check for operation `id` exactly when those events are one bootstrap, one connect of `id`, one
  -- association start and its success, in this order, and nothing else before, between or after.
  pub one_shot :
      (same : O → O → Bool) (es : List (Event O)) (id : O)
      → ((a b : O) → (same a b ≡ true) ↔ (a ≡ b))
      → (check same (run uninitialized es) id ≡ true)
        ↔ (es ≡ bootstrap_event ∷ connect_event id ∷ associate_event ∷ result_event true ∷ [])
  unfolding run bootstrap connect associate result
  one_shot same es id sound = (to, from)
    where
      to :
          check same (run uninitialized es) id ≡ true
          → es ≡ bootstrap_event ∷ connect_event id ∷ associate_event ∷ result_event true ∷ []
      to h = from_start es (accepted_check same (run uninitialized es) id (λ a b. (sound a b).0) h)

      from :
          es ≡ bootstrap_event ∷ connect_event id ∷ associate_event ∷ result_event true ∷ []
          → check same (run uninitialized es) id ≡ true
      from e = rw e ((sound id id).1 refl)
