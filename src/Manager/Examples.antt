-- ===== src/Manager/Examples.antt =====
-- A manager with a webhook server, a cache and a controller: tests and concrete cases.
use controller_runtime.Prelude.{
  String, ◌==◌, string_eq, ◌≡◌, refl, true, false, none, some, List, [], ◌∷◌, ◌++◌, int_eq,
  if◌then◌else◌,
}
use controller_runtime.Manager.{
  Act, run, wait_for_sync, Manager, Runnables, add, new_manager, start_leader_election_runnables,
  start_non_leader_election_runnables, put_in, start_runnable, add_healthz_check,
  add_metrics_extra_handler, duplicate_path, already_created, AddError, serve_health_probes,
}
use controller_runtime.Manager.Starts.{runs}
use controller_runtime.Manager.Order.{start_orders, add-starts_twice}
use controller_runtime.Manager.Steps.{Running, here, further, adding, elected, IsAccounted}
use controller_runtime.Manager.Interleaving.{Reachable-IsAccounted}
use controller_runtime.Manager.Shutdown.{
  Setting, start, hangs, in_time, cancel_leader_election, election_at, start_leader_election,
  engage_stop_procedure, wait_for_runnable_to_end, shutdown_err, engage_stop_procedure,
  wait_for_runnable_to_end,
}
use controller_runtime.Manager.Options.{seconds}

abbrev kinds : Runnables String String
kinds = record {
  needs_election =
      λ r. if r == "hook" then some false else if r == "reporter" then some false else none;
  has_cache = λ r. r == "cluster";
  is_webhook_server = λ r. r == "hook";
  set_fields = λ r. if r == "broken" then some "no client" else none;
}

abbrev Small : Type 0
Small = Manager String String String

abbrev put : String → Small → Small
put r m = (add kinds r m).0

abbrev prepared : Small
prepared = record (new_manager {C = String} {H = String}) {
  leader_election_runnables = "pods" ∷ [];
  non_leader_election_runnables = "reporter" ∷ "hook" ∷ [];
  caches = "cluster" ∷ [];
}

adding_prepares : put "cluster" (put "hook" (put "reporter" (put "pods" new_manager))) ≡ prepared
unfolding add put_in start_runnable
adding_prepares = refl

refused : add kinds "broken" prepared ≡ (prepared, some (AddError.foreign "no client"))
unfolding add
refused = refl

served_twice :
    (add_metrics_extra_handler {Err = String} "/debug" "h2"
      (add_metrics_extra_handler {Err = String} "/debug" "h1" prepared).0).1
    ≡ some duplicate_path
unfolding add_metrics_extra_handler
served_twice = refl

too_late :
    (add_healthz_check {Err = String} "ping" "p" (serve_health_probes prepared)).1
    ≡ some already_created
unfolding add_healthz_check serve_health_probes
too_late = refl

start_orders_example :
    let caches : List (Act String) = run "cluster" ∷ wait_for_sync "cluster" ∷ [] in
    let all = record prepared { started = true; started_leader = true } in
    (start_leader_election_runnables (start_non_leader_election_runnables kinds prepared)
      ≡ record all { trace = run "hook" ∷ (caches ++ run "reporter" ∷ run "pods" ∷ []) })
    × (start_non_leader_election_runnables kinds (start_leader_election_runnables prepared)
        ≡ record all { trace = caches ++ (run "pods" ∷ run "hook" ∷ run "reporter" ∷ []) })
start_orders_example = start_orders kinds prepared refl

-- the goroutine that needs the election was first
abbrev half_started : Small
half_started = record prepared {
  started = true;
  started_leader = true;
  trace = run "cluster" ∷ wait_for_sync "cluster" ∷ run "pods" ∷ [];
  non_leader_election_runnables = [];
}

reporter_started_twice :
    runs "reporter"
      (start_non_leader_election_runnables kinds (add kinds "reporter" half_started).0).trace
    ≡ 2
reporter_started_twice =
    add-starts_twice kinds half_started "reporter" refl refl refl refl refl refl

abbrev begin : Running String String String
begin = record { manager = new_manager; begun = false }

abbrev loaded_system : Running String String String
loaded_system = record begin { manager = put "pods" new_manager }

Reachable-IsAccounted_example :
    IsAccounted kinds
      (record loaded_system { manager = start_leader_election_runnables (put "pods" new_manager) })
unfolding add put_in
Reachable-IsAccounted_example =
    Reachable-IsAccounted kinds
      (record loaded_system { manager = start_leader_election_runnables (put "pods" new_manager) })
      (further loaded_system _ (further begin _ here (adding "pods" begin))
        (elected loaded_system refl))

-- an elector that could not be made, as with a lease shorter than its renewal
abbrev unlucky : Setting String String String String
unlucky = record {
  metrics_listener = true;
  probe_listener = false;
  resource_lock = true;
  has_elected = true;
  elector_error = some "lease too short";
  timeout = seconds 30;
  ending = in_time;
  received = some "lease too short";
  running = λ m. m;
}

it_hangs : (start kinds "cluster" unlucky prepared).outcome ≡ hangs
unfolding start add engage_stop_procedure wait_for_runnable_to_end shutdown_err
    cancel_leader_election election_at start_leader_election
it_hangs = refl

abbrev lucky : Setting String String String String
lucky = record unlucky { elector_error = none }
