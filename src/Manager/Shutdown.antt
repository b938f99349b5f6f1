-- ===== src/Manager/Shutdown.antt =====
-- `Start`, `engageStopProcedure` and `waitForRunnableToEnd` of pkg/manager/internal.go: what `Start`
-- launches, how it ends, and in which order the manager is torn down.
use controller_runtime.Prelude.{
  ℤ, pos, ltb_ℤ, ◌==◌, int_eq, Bool, true, false, Option, none, some, ◌&&◌, List, [], ◌∷◌, ◌++◌,
  if◌then◌else◌,
}
use controller_runtime.Manager.{Manager, Runnables, AddError, add}

-- When the runnables have all returned, after they are told to stop: before the deadline, after it,
-- or never.
pub data Ending : Type 0 where
  in_time late never : Ending

pub data TearDown : Type 0 where
  stop_procedures cancel_internal drain_errors lock cancel_election wait_stopped_leading : TearDown
  stop_recorder unlock cancel_shutdown : TearDown

-- a call that returns an error or none, or that blocks
pub data StopOutcome : Type 0 where
  stopped timed_out blocked : StopOutcome

-- `<-cm.shutdownCtx.Done()` and `Err()`: the context is cancelled when all have returned, and has a
-- deadline if the timeout is positive
unfoldable pub shutdown_err : ℤ → Ending → StopOutcome
shutdown_err timeout in_time = stopped
shutdown_err timeout late = if ltb_ℤ (pos 0) timeout then timed_out else stopped
shutdown_err timeout never = if ltb_ℤ (pos 0) timeout then timed_out else blocked

-- whether `leaderElectionCancel` is set, and whether there is a goroutine that runs an elector: it
-- alone closes `leaderElectionStopped`, once its context is cancelled
pub record Election : Type 0 where
  pub cancel : Bool
  pub elector : Bool

abbrev pub no_election : Election
no_election = record { cancel = false; elector = false }

-- `startLeaderElection`, given what `NewLeaderElector` returns
unfoldable pub start_leader_election :
    {Err : Type 0} → Option Err → Election → Election × Option Err
start_leader_election elector_error e =
    let cancellable = record e { cancel = true } in
    elim elector_error [
      | some err ↦ (cancellable, some err)
      | none ↦ (record cancellable { elector = true }, none)
    ]

-- `<-cm.leaderElectionStopped`, where the context of the elector is cancelled
abbrev pub wait_stopped : Election → StopOutcome
wait_stopped e = if e.elector then stopped else blocked

-- the deferred function, where no error is returned
unfoldable pub cancel_leader_election : Election → List TearDown × StopOutcome
cancel_leader_election e =
    if e.cancel
    then (cancel_election ∷ wait_stopped_leading ∷ [], wait_stopped e)
    else ([], stopped)

unfoldable pub wait_for_runnable_to_end : ℤ → Election → Ending → List TearDown × StopOutcome
unfolding shutdown_err cancel_leader_election
wait_for_runnable_to_end timeout election ending = elim (shutdown_err timeout ending) [
  | stopped ↦ cancel_leader_election election
  | timed_out ↦ ([], timed_out)
  | blocked ↦ ([], blocked)
]

-- the deferred calls run last to first; none runs where the wait blocks
abbrev pub deferred : StopOutcome → List TearDown
deferred blocked = []
deferred _ = stop_recorder ∷ unlock ∷ cancel_shutdown ∷ []

module _ {R C H : Type 0} where
  unfoldable pub engage_stop_procedure :
      ℤ → Election → Ending → Manager R C H → Manager R C H × List TearDown × StopOutcome
  unfolding wait_for_runnable_to_end
  engage_stop_procedure timeout election ending m =
      let told = stop_procedures ∷ cancel_internal ∷ drain_errors ∷ [] in
      if timeout == pos 0
      then (m, told ++ cancel_shutdown ∷ [], stopped)
      else let w = wait_for_runnable_to_end timeout election ending in
        (record m { stop_procedure_engaged = true }, told ++ lock ∷ (w.0 ++ deferred w.1), w.1)

-- the goroutines that `Start` launches
pub data Goroutine : Type 0 where
  serve_metrics serve_probes start_non_leader elect start_leader : Goroutine

abbrev pub launched : (metrics_listener probe_listener resource_lock : Bool) → List Goroutine
launched metrics_listener probe_listener resource_lock =
    (if metrics_listener then serve_metrics ∷ [] else [])
    ++ ((if probe_listener then serve_probes ∷ [] else [])
        ++ (start_non_leader ∷ (if resource_lock then elect else start_leader) ∷ []))

-- what `Start` returns, if it returns: nil, the error of `Add`, the one that was received from a
-- runnable, the one of the stop procedure, or both of these
pub data StartOutcome (Err : Type 0) : Type 0 where
  finished : StartOutcome Err
  cluster_failed : AddError Err → StartOutcome Err
  run_failed : Err → StartOutcome Err
  stop_failed : StartOutcome Err
  aggregate : Err → StartOutcome Err
  hangs : StartOutcome Err

-- the deferred function of `Start`
abbrev pub aggregated : {Err : Type 0} → Option Err → StopOutcome → StartOutcome Err
aggregated none stopped = finished
aggregated (some err) stopped = run_failed err
aggregated none timed_out = stop_failed
aggregated (some err) timed_out = aggregate err
aggregated _ blocked = hangs

-- What `Start` meets: the listeners and the lock of the manager; whether the goroutine that elects has
-- run before the stop, and the error of `NewLeaderElector`, if any; what ends its `select`, and how
-- the manager is then.
pub record Setting (R C H Err : Type 0) : Type 0 where
  pub metrics_listener : Bool
  pub probe_listener : Bool
  pub resource_lock : Bool
  pub has_elected : Bool
  pub elector_error : Option Err
  pub timeout : ℤ
  pub ending : Ending
  pub received : Option Err
  pub running : Manager R C H → Manager R C H

pub record Started (R C H Err : Type 0) : Type 0 where
  pub manager : Manager R C H
  pub goroutines : List Goroutine
  pub torn_down : List TearDown
  pub outcome : StartOutcome Err

-- the election as it is when the manager is stopped
unfoldable pub election_at : {R C H Err : Type 0} → Setting R C H Err → Election
unfolding start_leader_election
election_at s =
    let elected = start_leader_election s.elector_error no_election in
    if s.resource_lock && s.has_elected then elected.0 else no_election

module _ {R C H Err : Type 0} (k : Runnables R Err) where
  unfoldable pub start : R → Setting R C H Err → Manager R C H → Started R C H Err
  unfolding engage_stop_procedure election_at
  start cluster s m =
      let (m', failed) = add k cluster m in
      elim failed [
        | some err ↦ record {
          manager = m';
          goroutines = [];
          torn_down = [];
          outcome = cluster_failed err;
        }
        | none ↦
            let stop = engage_stop_procedure s.timeout (election_at s) s.ending (s.running m') in
            record {
              manager = stop.0;
              goroutines = launched s.metrics_listener s.probe_listener s.resource_lock;
              torn_down = stop.1;
              outcome = aggregated s.received stop.2;
            }
      ]
