-- ===== src/RxStop/Handler/Rebuilding.antt =====
-- The protocol of the stop handler: the sections and calls it is made of, and the rebuild probe.
use hisi_rf_ws.Common.{
  ℕ, ◌≡◌, refl, subst, Option, none, some, Bool, true, false, not, ◌||◌, ◌==◌, ℤ, arith, inl, inr,
  Bool-cases,
}
use hisi_rf_ws.RxStop.{Transaction, Checkpoint, fail, observe, may_rebuild_at, finish_at, run}
use hisi_rf_ws.RxStop.Rebuild.{
  Counts, RxRebuildDiagnostics, same_lengths, no_counts, probe, attempt, clean_up,
}
use hisi_rf_ws.RxStop.Handler.{
  Platform, World, call, critical, observe_now, descriptors, fail_section, report_some,
  handler_finish, handler_rebuild,
}
use hisi_rf_ws.RxStop.Handler.Protocol.{
  Stage, permitted, may_finish, reported, Section, Reader, ask, Call, Protocol, Protocol-trans,
}

module _ {S : Type 0} (p : Platform S) where
  -- The rest of the handler leads to its end, with the status that it returns.
  abbrev pub Ends : Stage → World S → World S × ℤ → Type 0
  Ends a w (u, status) = Protocol p a w (Stage.ended status) u

  pub asking :
      {a b : Stage} {w u : World S} (r : Reader)
      → Protocol p a (record w { native = ask p r w.native }) b u
      → Protocol p a w b u
  asking {a} {b} {w} {u} r rest =
      Protocol.call a b w.native (ask p r w.native) w.transaction u (Call.reading a r w.native) rest

  pub calling :
      {a b : Stage} {w u : World S} {r : S}
      → Call p a w.native r
      → Protocol p a (record w { native = r }) b u
      → Protocol p a w b u
  calling {a} {b} {w} {u} {r} called rest = Protocol.call a b w.native r w.transaction u called rest

  pub critical-Protocol :
      {A : Type 0} (a : Stage) (next : A → Stage) (f : Transaction → Transaction × A) (w : World S)
      → ((t : Transaction) → Section a t (next (f t).1) ((f t).0))
      → Protocol p a w (next (critical p f w).1) ((critical p f w).0)
  unfolding critical
  critical-Protocol a next f w section =
      let ops = (p.others w.native).1 in
      let (u, x) = f (run w.transaction ops) in
      let ended : World S = record { native = (p.others w.native).0; transaction = u } in
      Protocol.section a (next x) (next x) w.native w.transaction u ended
        (section (run w.transaction ops)) (Protocol.here (next x) ended)

  pub observe_now-Protocol :
      (a b : Stage) (checkpoint : Checkpoint) (w : World S)
      → ((t : Transaction) (now : Option ℕ) → Section a t b (observe t checkpoint now))
      → Protocol p a w b (observe_now p checkpoint w)
  unfolding observe_now
  observe_now-Protocol a b checkpoint w section =
      let (u, now) = call p p.clock w in
      asking Reader.clock (
        critical-Protocol a (λ done. b) (λ t. (observe t checkpoint now, tt)) u
          (λ t. section t now))

  pub fail_section-Ends :
      (a : Stage) (w : World S) (status : ℤ)
      → ((t : Transaction)
          → Section a t (Stage.ended (fail t status).diagnostic.fault) (fail t status))
      → Ends a w (fail_section p w status)
  unfolding fail_section
  fail_section-Ends a w status section =
      critical-Protocol a Stage.ended (λ t. (fail t status, (fail t status).diagnostic.fault)) w
        section

  report_some_lem :
      (t : Transaction) (r : Option RxRebuildDiagnostics) → reported t r ≡ report_some p t r
  report_some_lem t none = refl
  report_some_lem t (some r) = refl

  pub handler_finish-Ends :
      (a : Stage) (w : World S) (before after empty : ℕ) (status : ℤ)
      (r : Option RxRebuildDiagnostics)
      → may_finish a r ≡ true
      → Ends a w (handler_finish p w before after empty status r)
  unfolding handler_finish
  handler_finish-Ends a w before after empty status r ready =
      let (u, now) = call p p.clock w in
      let end = λ (t : Transaction). finish_at t now before after empty status in
      asking Reader.clock (
        critical-Protocol a Stage.ended
          (λ t. let v = end (report_some p t r) in (v, v.diagnostic.fault)) u
          (λ t.
            subst (λ v. Section a t (Stage.ended (end v).diagnostic.fault) (end v))
              (report_some_lem t r) (Section.finish a t r now before after empty status ready)))

  -- What comes before the last section leads to a stage that allows it.
  abbrev pub Readies : Stage → World S → World S → Option RxRebuildDiagnostics → Type 0
  Readies a w u r = (b : Stage) × Protocol p a w b u × (may_finish b r ≡ true)

  -- The cleanup destroys and is observed only if the MAC reads as disabled.
  clean_up-Readies :
      (w : World S) (r : RxRebuildDiagnostics)
      → Readies Stage.initialized w ((clean_up (descriptors p) w).0) (some r)
  unfolding clean_up descriptors
  clean_up-Readies w r =
      let s = p.disable w.native in
      let off : World S = record w { native = s } in
      let gone : World S = record w { native = (p.destroy (p.mac_enabled s).0).0 } in
      let disable = Call.disabling_mac Stage.initialized w.native refl in
      elim (Bool-cases ((p.mac_enabled s).1 == 0)) [
        | inl e ↦ rw e (
          Stage.cleaned,
          calling disable (
              calling (Call.destroying_lists Stage.initialized s refl (ground (arith, e))) (
                observe_now-Protocol Stage.initialized Stage.cleaned Checkpoint.at_cleaned gone
                  Section.clean)),
          refl,
        )
        | inr e ↦ rw e (
          Stage.initialized,
          calling disable (asking {w = off} Reader.mac_enabled (Protocol.here Stage.initialized _)),
          refl,
        )
      ]

  attempt-Readies :
      (w : World S) (before : Counts) (r : RxRebuildDiagnostics)
      → Readies Stage.allowed w ((attempt (descriptors p) w before).0) (some r)
  unfolding attempt descriptors
  attempt-Readies w before r =
      let w0 = (call p p.initialize w).0 in
      let w3 =
        (call p p.counts (call p p.mac_enabled (observe_now p Checkpoint.at_initialized w0)).0).0 in
      let (b, path, ready) = clean_up-Readies w3 r in
      let filled =
        observe_now-Protocol Stage.allowed Stage.initialized Checkpoint.at_initialized w0
          Section.initialize in
      let cleaned =
        Protocol-trans p path
          (asking Reader.mac_enabled (asking Reader.counts (Protocol.here b _))) in
      (
        b,
        calling (Call.filling w.native)
            (Protocol-trans p filled (asking Reader.mac_enabled (asking Reader.counts cleaned))),
        ready,
      )

  probe-Readies :
      (w : World S) (r : RxRebuildDiagnostics)
      → Readies Stage.allowed w ((probe (descriptors p) w).0) (some r)
  unfolding probe descriptors
  probe-Readies w r =
      let (u, before) = call p p.counts w in
      let (v, mac) = call p p.mac_enabled u in
      elim (Bool-cases
        (not (same_lengths before.actual no_counts) || same_lengths before.expected no_counts)) [
          | inl e ↦ rw e (Stage.allowed, asking Reader.counts (Protocol.here Stage.allowed u), refl)
          | inr e ↦ elim (Bool-cases (not (mac == 0))) [
            | inl f ↦
                rw (e, f)
                  (
                    Stage.allowed,
                    asking Reader.counts
                        (asking Reader.mac_enabled (Protocol.here Stage.allowed v)),
                    refl,
                  )
            | inr f ↦
                let (b, path, ready) = attempt-Readies v before r in
                rw (e, f) (b, asking Reader.counts (asking Reader.mac_enabled path), ready)
          ]
        ]

  pub handler_rebuild-Readies :
      (w : World S) (clean : Bool) (now : Option ℕ)
      → let (u, r) = handler_rebuild p w clean now in Readies Stage.measuring w u r
  unfolding handler_rebuild
  handler_rebuild-Readies w false now = (Stage.measuring, Protocol.here Stage.measuring w, refl)
  handler_rebuild-Readies w true now =
      let f = λ (t : Transaction). may_rebuild_at t now in
      let u = (critical p f w).0 in
      let asked = critical-Protocol Stage.measuring permitted f w (λ t. Section.rebuild t now) in
      elim (Bool-cases (critical p f w).1) [
        | inl e ↦
            let (b, path, ready) = probe-Readies u ((probe (descriptors p) u).1) in
            rw e (b, Protocol-trans p (rw e at asked) path, ready)
        | inr e ↦ rw e (Stage.denied, (rw e at asked), refl)
      ]
