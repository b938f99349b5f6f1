-- ===== src/Manager/Interleaving.antt =====
-- The invariant of the manager of pkg/manager/internal.go, whoever gets its mutex when.
use controller_runtime.Prelude.{
  String, ◌≡◌, ◌⊎◌, inl, inr, false, Comparable, [], ◌∷◌, arith, beq-cases, Bool-cases,
  Option-cases,
}
use controller_runtime.Manager.{
  Manager, Runnables, without_election, with_cache, with_election, group_of, add, put_in,
  serve_health_probes, run_health_probes, new_manager, add_healthz_check, add_readyz_check,
  add_metrics_extra_handler,
}
use controller_runtime.Manager.Starts.{runs-append}
use controller_runtime.Manager.Steps.{
  Running, Locking, Reachable, here, further, adding, without, elected, healthz, readyz, extra,
  probing, stopping, Accounted, tally, IsAccounted,
}
use controller_runtime.Manager.Tallies.{
  without-Accounted, elected-Accounted, put_in-Accounted, put-tally, tally-without, tally-elected,
}

module _ {R C H : Type 0} ⦃e : Comparable R⦄ where
  module _ {Err : Type 0} (k : Runnables R Err) where
    added-cases :
        (x : R) (m : Manager R C H)
        → ((add k x m).0 ≡ m) ⊎ ((add k x m).0 ≡ put_in (group_of k x) x m)
    unfolding add
    added-cases x m = elim (Bool-cases m.stop_procedure_engaged) [
      | inl e ↦ inl (simp e)
      | inr e ↦ elim (Option-cases (k.set_fields x)) [
        | inr (err, f) ↦ inl (simp (e, f))
        | inl f ↦ inr (simp (e, f))
      ]
    ]

    add-Accounted :
        (r x : R) (s : Running R C H)
        → Accounted (group_of k r) (tally r s)
        → Accounted (group_of k r) (tally r (record s { manager = (add k x s.manager).0 }))
    add-Accounted r x s h = elim (added-cases x s.manager) [
      | inl e ↦ rw e h
      | inr e ↦ elim (beq-cases x r) [
        | inl (t, same) ↦ rw e (rw same (put_in-Accounted k r r (group_of k r) s h))
        | inr (t, other) ↦ rw e (rw (put-tally k r x (group_of k x) s t) h)
      ]
    ]

    add_healthz-tally :
        (r : R) (name : String) (check : C) (s : Running R C H)
        → tally r (record s { manager = (add_healthz_check {Err = Err} name check s.manager).0 })
          ≡ tally r s
    unfolding add_healthz_check
    add_healthz-tally r name check s = ground arith

    add_readyz-tally :
        (r : R) (name : String) (check : C) (s : Running R C H)
        → tally r (record s { manager = (add_readyz_check {Err = Err} name check s.manager).0 })
          ≡ tally r s
    unfolding add_readyz_check
    add_readyz-tally r name check s = ground arith

    add_extra-tally :
        (r : R) (path : String) (handler : H) (s : Running R C H)
        → tally r (record s {
          manager = (add_metrics_extra_handler {Err = Err} path handler s.manager).0;
        })
          ≡ tally r s
    unfolding add_metrics_extra_handler
    add_extra-tally r path handler s = ground arith

    probing-tally :
        (r : R) (s : Running R C H)
        → tally r (record s { manager = serve_health_probes s.manager }) ≡ tally r s
    unfolding serve_health_probes
    probing-tally r s =
        let traced = runs-append r s.manager.trace (run_health_probes ∷ []) in
        ground (arith, traced)

    kept_by_step : {s u : Running R C H} → Locking k s u → IsAccounted k s → IsAccounted k u
    kept_by_step (adding x s) h r = add-Accounted r x s (h r)
    kept_by_step (without s fresh) h r =
        rw (tally-without k r s) (without-Accounted (group_of k r) (tally r s) (h r) fresh)
    kept_by_step (elected s fresh) h r =
        rw (tally-elected k r s) (elected-Accounted (group_of k r) (tally r s) (h r) fresh)
    kept_by_step (healthz name check s) h r = rw (add_healthz-tally r name check s) (h r)
    kept_by_step (readyz name check s) h r = rw (add_readyz-tally r name check s) (h r)
    kept_by_step (extra path handler s) h r = rw (add_extra-tally r path handler s) (h r)
    kept_by_step (probing s) h r = rw (probing-tally r s) (h r)
    kept_by_step (stopping s) h r = h r

    kept_along : {s u : Running R C H} → Reachable k s u → IsAccounted k s → IsAccounted k u
    kept_along here h = h
    kept_along (further t u reached step) h = kept_by_step step (kept_along reached h)

    -- Whatever the goroutines of `Start` and the callers of `Add` do, and in whatever order they get the
    -- mutex of a new manager: each runnable stands in the list of its group alone, and none but one
    -- that needs the election is started until one of the two goroutines has set `started`. One that
    -- needs no election is started at most twice for each time it was added, at most once until
    -- `startNonLeaderElectionRunnables` ran, and at least once after that; a cache at most once for
    -- each time; and one that needs the election exactly once for each time after
    -- `startLeaderElectionRunnables` ran, and not before.
    pub Reachable-IsAccounted :
        (u : Running R C H)
        → Reachable k (record { manager = new_manager; begun = false }) u
        → IsAccounted k u
    unfolding Accounted
    Reachable-IsAccounted u reached =
        let s : Running R C H = record { manager = new_manager; begun = false } in
        kept_along reached (λ r. elim (group_of k r) as (λ g. Accounted g (tally r s)) [
          | without_election ↦ ground arith
          | with_cache ↦ ground arith
          | with_election ↦ ground arith
        ])
