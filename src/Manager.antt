-- ===== src/Manager.antt =====
-- pkg/manager/internal.go: what the manager holds under its mutex, and the operations that lock it.
-- A runnable is of a type `R`, with what the type assertions say of it. The trace records, in order,
-- the runnables that `startRunnable` starts, the server of the health probes among them, and the
-- caches that are waited for.
pub mod Options
pub mod Shutdown
pub mod Starts
pub mod Order
pub mod Steps
pub mod Tallies
pub mod Interleaving
mod Examples
use controller_runtime.Prelude.{
  String, Bool, true, false, not, ◌&&◌, ◌==◌, string_eq, Option, none, some, List, [], ◌∷◌, ◌++◌,
  map, keep, contains, if◌then◌else◌,
}

pub data Act (R : Type 0) : Type 0 where
  run : R → Act R
  run_health_probes : Act R
  wait_for_sync : R → Act R

-- the lists a runnable can be put in
pub data Group : Type 0 where
  without_election with_cache with_election : Group

-- `needs_election` is `NeedLeaderElection()`, `none` for a runnable without that method; `set_fields`
-- is `cm.SetFields`, the injection of dependencies
pub record Runnables (R Err : Type 0) : Type 0 where
  pub needs_election : R → Option Bool
  pub has_cache : R → Bool
  pub is_webhook_server : R → Bool
  pub set_fields : R → Option Err

-- the fields of `controllerManager` that change. A map of checks or handlers is the list of its
-- entries, a handler that is nil is `none`; `C` are the checks and `H` the extra handlers.
pub record Manager (R C H : Type 0) : Type 0 where
  pub leader_election_runnables : List R
  pub non_leader_election_runnables : List R
  pub caches : List R
  pub started : Bool
  pub started_leader : Bool
  pub healthz_started : Bool
  pub stop_procedure_engaged : Bool
  pub healthz_handler : Option (List (String × C))
  pub readyz_handler : Option (List (String × C))
  pub metrics_extra_handlers : List (String × H)
  pub trace : List (Act R)

pub data AddError (Err : Type 0) : Type 0 where
  stop_engaged already_created builtin_path duplicate_path : AddError Err
  foreign : Err → AddError Err

module _ {R C H : Type 0} where
  -- what `New` returns: these fields have Go's zero values, and the map of handlers is empty
  abbrev pub new_manager : Manager R C H
  new_manager = record {
    leader_election_runnables = [];
    non_leader_election_runnables = [];
    caches = [];
    started = false;
    started_leader = false;
    healthz_started = false;
    stop_procedure_engaged = false;
    healthz_handler = none;
    readyz_handler = none;
    metrics_extra_handlers = [];
    trace = [];
  }

  unfoldable pub start_runnable : R → Manager R C H → Manager R C H
  start_runnable r m = record m { trace = m.trace ++ run r ∷ [] }

  abbrev pub started_if : Bool → R → Manager R C H → Manager R C H
  started_if should_start r m = if should_start then start_runnable r m else m

  -- the runnable is put into its list, and started if that has been started
  unfoldable pub put_in : Group → R → Manager R C H → Manager R C H
  unfolding start_runnable
  put_in without_election r m =
      started_if m.started r
        (record m { non_leader_election_runnables = m.non_leader_election_runnables ++ r ∷ [] })
  put_in with_cache r m = record m { caches = m.caches ++ r ∷ [] }
  put_in with_election r m =
      started_if m.started_leader r
        (record m { leader_election_runnables = m.leader_election_runnables ++ r ∷ [] })

  -- `for … { cm.startRunnable(…) }`
  unfoldable pub start_all : List R → Manager R C H → Manager R C H
  unfolding start_runnable
  start_all [] m = m
  start_all (r ∷ rs) m = start_all rs (start_runnable r m)

  -- the caches are started and waited for, once; what the wait answers is not read
  unfoldable pub wait_for_cache : Manager R C H → Manager R C H
  unfolding start_all
  wait_for_cache m =
      if m.started
      then m
      else let m' = start_all m.caches m in
        record m' { trace = m'.trace ++ map wait_for_sync m.caches; started = true }

  unfoldable pub start_leader_election_runnables : Manager R C H → Manager R C H
  unfolding start_all wait_for_cache
  start_leader_election_runnables m =
      let m' = start_all m.leader_election_runnables (wait_for_cache m) in
      record m' { started_leader = true }

  -- the part of `serveHealthProbes` that holds the mutex
  unfoldable pub serve_health_probes : Manager R C H → Manager R C H
  serve_health_probes m = record m {
    trace = m.trace ++ run_health_probes ∷ [];
    healthz_started = true;
  }

-- `AddHealthzCheck` and `AddReadyzCheck`: a check of a name that is there is replaced
abbrev pub set_check : {C : Type 0} → String → C → List (String × C) → List (String × C)
set_check name check [] = (name, check) ∷ []
set_check name check ((n, c) ∷ cs) =
    let rest = set_check name check cs in if n == name then (n, check) ∷ cs else (n, c) ∷ rest

abbrev pub checks_of : {C : Type 0} → Option (List (String × C)) → List (String × C)
checks_of none = []
checks_of (some cs) = cs

abbrev pub paths_of : {H : Type 0} → List (String × H) → List String
paths_of [] = []
paths_of ((path, handler) ∷ hs) = path ∷ paths_of hs

module _ {R C H Err : Type 0} where
  unfoldable pub add_healthz_check :
      String → C → Manager R C H → Manager R C H × Option (AddError Err)
  add_healthz_check name check m =
      if m.stop_procedure_engaged
      then (m, some stop_engaged)
      else if m.healthz_started
      then (m, some already_created)
      else (
        record m { healthz_handler = some (set_check name check (checks_of m.healthz_handler)) },
        none,
      )

  unfoldable pub add_readyz_check :
      String → C → Manager R C H → Manager R C H × Option (AddError Err)
  add_readyz_check name check m =
      if m.stop_procedure_engaged
      then (m, some stop_engaged)
      else if m.healthz_started
      then (m, some already_created)
      else (
        record m { readyz_handler = some (set_check name check (checks_of m.readyz_handler)) },
        none,
      )

  -- `defaultMetricsEndpoint` is "/metrics"
  unfoldable pub add_metrics_extra_handler :
      String → H → Manager R C H → Manager R C H × Option (AddError Err)
  add_metrics_extra_handler path handler m =
      if path == "/metrics"
      then (m, some builtin_path)
      else if contains path (paths_of m.metrics_extra_handlers)
      then (m, some duplicate_path)
      else (record m { metrics_extra_handlers = (path, handler) ∷ m.metrics_extra_handlers }, none)

module _ {R Err : Type 0} (k : Runnables R Err) where
  abbrev pub group_without : Bool → Group
  group_without true = with_cache
  group_without false = with_election

  -- the `if` of `Add`
  abbrev pub group_of : R → Group
  group_of r = elim (k.needs_election r) [
    | none ↦ group_without (k.has_cache r)
    | some needs ↦ if not needs then without_election else group_without (k.has_cache r)
  ]

  module _ {C H : Type 0} where
    unfoldable pub add : R → Manager R C H → Manager R C H × Option (AddError Err)
    unfolding put_in
    add r m = if m.stop_procedure_engaged then (m, some stop_engaged) else elim (k.set_fields r) [
      | some err ↦ (m, some (foreign err))
      | none ↦ (put_in (group_of r) r m, none)
    ]

    unfoldable pub start_non_leader_election_runnables : Manager R C H → Manager R C H
    unfolding start_all wait_for_cache
    start_non_leader_election_runnables m =
        let servers = keep k.is_webhook_server m.non_leader_election_runnables in
        let others = keep (λ r. not (k.is_webhook_server r)) m.non_leader_election_runnables in
        start_all others (wait_for_cache (start_all servers m))
