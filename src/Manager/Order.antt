-- ===== src/Manager/Order.antt =====
-- The two orders in which the goroutines of `Start` of pkg/manager/internal.go get the mutex.
use controller_runtime.Prelude.{◌≡◌, true, false, Comparable, none, [], ◌∷◌, ◌++◌, map, beq_refl}
use controller_runtime.Manager.{
  run, wait_for_sync, Manager, Runnables, without_election, group_of, add, put_in, start_runnable,
  started_if, start_leader_election_runnables, start_non_leader_election_runnables,
}
use controller_runtime.Manager.Starts.{
  times, runs, times-append, runs-append, servers, others, cache_acts, start_leader_lem,
  start_non_leader_lem, runs-non_leader,
}

module _ {R C H Err : Type 0} (k : Runnables R Err) where
  -- Of a manager that has started nothing, the two goroutines of `Start` leave the same state but for
  -- the trace. If the one that does not wait for an election is first, the webhook servers are started
  -- before every cache, the caches before the others, and the runnables that need an election last. If
  -- the other one is first, the caches are started and waited for before any webhook server is
  -- started, and so are the runnables that need an election.
  pub start_orders :
      (m : Manager R C H)
      → m.started ≡ false
      → let caches = map run m.caches ++ map wait_for_sync m.caches in
        let all = record m { started = true; started_leader = true } in
        (start_leader_election_runnables (start_non_leader_election_runnables k m) ≡ record all {
          trace =
              m.trace
              ++ (map run (servers k m) ++ (caches ++ map run (others k m)))
              ++ map run m.leader_election_runnables;
        })
        × (start_non_leader_election_runnables k (start_leader_election_runnables m) ≡ record all {
          trace =
              m.trace
              ++ (caches ++ map run m.leader_election_runnables)
              ++ (map run (servers k m) ++ map run (others k m));
        })
  start_orders m fresh =
      let begun : cache_acts m ≡ map run m.caches ++ map wait_for_sync m.caches = rw fresh in
      (
        rw (start_non_leader_lem k m, start_leader_lem _, begun),
        rw (start_leader_lem m, start_non_leader_lem k _, begun),
      )

module _ {R C H : Type 0} where
  abbrev pub listed : R → Manager R C H → Manager R C H
  listed r m = record m {
    non_leader_election_runnables = m.non_leader_election_runnables ++ r ∷ [];
  }

module _ {R C H Err : Type 0} ⦃e : Comparable R⦄ (k : Runnables R Err) where
  -- A runnable that needs no election, and that is added after the other goroutine has started the
  -- caches, is started by `Add` and again when the first goroutine gets the mutex: twice, if the
  -- manager had not started it, and it was in no list.
  pub add-starts_twice :
      (m : Manager R C H) (r : R)
      → m.stop_procedure_engaged ≡ false
      → k.set_fields r ≡ none
      → group_of k r ≡ without_election
      → m.started ≡ true
      → runs r m.trace ≡ 0
      → times r m.non_leader_election_runnables ≡ 0
      → runs r (start_non_leader_election_runnables k (add k r m).0).trace ≡ 2
  unfolding add put_in start_runnable
  add-starts_twice m r live injected group begun once unlisted =
      let added : (add k r m).0 ≡ started_if true r (listed r m) =
        simp (live, injected, group, put_in, begun) in
      let count = runs-non_leader k r (start_runnable r (listed r m)) in
      let more = times-append r m.non_leader_election_runnables (r ∷ []) in
      let traced = runs-append r m.trace (run r ∷ []) in
      rw added (rw count (rw (begun, more, traced, once, unlisted, beq_refl r)))
