-- ===== src/Manager/Steps.antt =====
-- The goroutines of `Start` and the callers of `Add` of pkg/manager/internal.go, in any order: each
-- step is what one of them does while it holds the mutex.
use controller_runtime.Prelude.{
  String, ℕ, ◌*◌, ◌≤◌, ◌≡◌, Bool, true, false, Comparable, if◌then◌else◌,
}
use controller_runtime.Manager.{
  Manager, Runnables, Group, without_election, with_cache, with_election, group_of, add,
  start_leader_election_runnables, start_non_leader_election_runnables, serve_health_probes,
  add_healthz_check, add_readyz_check, add_metrics_extra_handler,
}
use controller_runtime.Manager.Starts.{times, runs}

-- the manager, and whether the goroutine that waits for no election has had the mutex
pub record Running (R C H : Type 0) : Type 0 where
  pub manager : Manager R C H
  pub begun : Bool

module _ {R C H Err : Type 0} (k : Runnables R Err) where
  -- `startNonLeaderElectionRunnables` and `startLeaderElectionRunnables` run at most once
  pub data Locking : Running R C H → Running R C H → Type 0 where
    adding : (r : R) (s : Running R C H) → Locking s (record s { manager = (add k r s.manager).0 })
    without :
        (s : Running R C H)
        → s.begun ≡ false
        → Locking s
            (record s { manager = start_non_leader_election_runnables k s.manager; begun = true })
    elected :
        (s : Running R C H)
        → s.manager.started_leader ≡ false
        → Locking s (record s { manager = start_leader_election_runnables s.manager })
    healthz :
        (name : String) (check : C) (s : Running R C H)
        → Locking s (record s { manager = (add_healthz_check {Err = Err} name check s.manager).0 })
    readyz :
        (name : String) (check : C) (s : Running R C H)
        → Locking s (record s { manager = (add_readyz_check {Err = Err} name check s.manager).0 })
    extra :
        (path : String) (handler : H) (s : Running R C H)
        → Locking s (record s {
          manager = (add_metrics_extra_handler {Err = Err} path handler s.manager).0;
        })
    probing : (s : Running R C H) → Locking s (record s { manager = serve_health_probes s.manager })
    stopping :
        (s : Running R C H)
        → Locking s (record s { manager = record (s.manager) { stop_procedure_engaged = true } })

  pub data Reachable (s : Running R C H) : Running R C H → Type 0 where
    here : Reachable s s
    further : (t u : Running R C H) → Reachable s t → Locking t u → Reachable s u

-- How often a runnable stands in each list and was started, and the flags of the manager.
pub record Tally : Type 0 where
  pub non_leader : ℕ
  pub caches : ℕ
  pub leader : ℕ
  pub started_times : ℕ
  pub started : Bool
  pub started_leader : Bool
  pub begun : Bool

-- What is promised for a runnable of each group. One that needs no election is listed nowhere else; it
-- is not started before the flag is set; it is started at most as often as it was added until
-- `startNonLeaderElectionRunnables` ran, and after that at least as often, and at most twice that. A
-- cache is not started before the flag is set, and at most as often as it was added. One that needs
-- the election is started as often as it was added once `startLeaderElectionRunnables` ran, and not
-- before.
unfoldable pub Accounted : Group → Tally → Type 0
Accounted without_election t =
    (t.caches ≡ 0)
    × (t.leader ≡ 0)
    × (t.started ≡ false → t.started_times ≡ 0)
    × (t.begun ≡ false → t.started_times ≤ t.non_leader)
    × (t.begun ≡ true → (t.non_leader ≤ t.started_times) × (t.started ≡ true))
    × (t.started_times ≤ 2 * t.non_leader)
Accounted with_cache t =
    (t.non_leader ≡ 0)
    × (t.leader ≡ 0)
    × (t.started_times ≤ t.caches)
    × (t.started ≡ false → t.started_times ≡ 0)
Accounted with_election t =
    (t.non_leader ≡ 0)
    × (t.caches ≡ 0)
    × (t.started_times ≡ (if t.started_leader then t.leader else 0))

module _ {R C H : Type 0} ⦃e : Comparable R⦄ where
  abbrev pub tally : R → Running R C H → Tally
  tally r s = record {
    non_leader = times r s.manager.non_leader_election_runnables;
    caches = times r s.manager.caches;
    leader = times r s.manager.leader_election_runnables;
    started_times = runs r s.manager.trace;
    started = s.manager.started;
    started_leader = s.manager.started_leader;
    begun = s.begun;
  }

  module _ {Err : Type 0} (k : Runnables R Err) where
    abbrev pub IsAccounted : Running R C H → Type 0
    IsAccounted s = (r : R) → Accounted (group_of k r) (tally r s)
