-- ===== src/Manager/Tallies.antt =====
-- What each operation of pkg/manager/internal.go does to the tally of a runnable.
use controller_runtime.Prelude.{
  ◌+◌, ◌≡◌, true, false, ◌==◌, Comparable, [], ◌∷◌, arith, if◌then◌else◌,
}
use controller_runtime.Manager.{
  run, Runnables, Group, without_election, with_cache, with_election, put_in, start_runnable,
  start_leader_election_runnables, start_non_leader_election_runnables,
}
use controller_runtime.Manager.Starts.{
  times, runs, times-append, runs-append, runs-leader, runs-non_leader, start_leader_lem,
  start_non_leader_lem,
}
use controller_runtime.Manager.Steps.{Running, Tally, Accounted, tally}

pub without-Accounted :
    (g : Group) (t : Tally)
    → Accounted g t
    → t.begun ≡ false
    → Accounted g (record t {
      started_times = t.started_times + (if t.started then 0 else t.caches) + t.non_leader;
      started = true;
      begun = true;
    })
unfolding Accounted
without-Accounted without_election t h fresh = ground arith
without-Accounted with_cache t h fresh = ground arith
without-Accounted with_election t h fresh = ground arith

pub elected-Accounted :
    (g : Group) (t : Tally)
    → Accounted g t
    → t.started_leader ≡ false
    → Accounted g (record t {
      started_times = t.started_times + (if t.started then 0 else t.caches) + t.leader;
      started = true;
      started_leader = true;
    })
unfolding Accounted
elected-Accounted without_election t h fresh = ground arith
elected-Accounted with_cache t h fresh = ground arith
elected-Accounted with_election t h fresh = ground arith

module _ {R C H : Type 0} ⦃e : Comparable R⦄ where
  module _ {Err : Type 0} (k : Runnables R Err) where
    pub put_in-Accounted :
        (r x : R) (g : Group) (s : Running R C H)
        → Accounted g (tally r s)
        → Accounted g (tally r (record s { manager = put_in g x s.manager }))
    unfolding Accounted put_in start_runnable
    put_in-Accounted r x without_election s h =
        let more = times-append r s.manager.non_leader_election_runnables (x ∷ []) in
        let traced = runs-append r s.manager.trace (run x ∷ []) in ground (arith, more, traced)
    put_in-Accounted r x with_cache s h =
        let more = times-append r s.manager.caches (x ∷ []) in ground (arith, more)
    put_in-Accounted r x with_election s h =
        let more = times-append r s.manager.leader_election_runnables (x ∷ []) in
        let traced = runs-append r s.manager.trace (run x ∷ []) in ground (arith, more, traced)

    pub put-tally :
        (r x : R) (g : Group) (s : Running R C H)
        → (x == r) ≡ false
        → tally r (record s { manager = put_in g x s.manager }) ≡ tally r s
    unfolding put_in start_runnable
    put-tally r x without_election s other =
        let more = times-append r s.manager.non_leader_election_runnables (x ∷ []) in
        let traced = runs-append r s.manager.trace (run x ∷ []) in ground (arith, more, traced)
    put-tally r x with_cache s other =
        let more = times-append r s.manager.caches (x ∷ []) in ground (arith, more)
    put-tally r x with_election s other =
        let more = times-append r s.manager.leader_election_runnables (x ∷ []) in
        let traced = runs-append r s.manager.trace (run x ∷ []) in ground (arith, more, traced)

    pub tally-without :
        (r : R) (s : Running R C H)
        → tally r
            (record s { manager = start_non_leader_election_runnables k s.manager; begun = true })
          ≡ record (tally r s) {
            started_times =
                runs r s.manager.trace
                + (if s.manager.started then 0 else times r s.manager.caches)
                + times r s.manager.non_leader_election_runnables;
            started = true;
            begun = true;
          }
    tally-without r s = rw⁻¹ (runs-non_leader k r s.manager) (rw (start_non_leader_lem k s.manager))

    pub tally-elected :
        (r : R) (s : Running R C H)
        → tally r (record s { manager = start_leader_election_runnables s.manager })
          ≡ record (tally r s) {
            started_times =
                runs r s.manager.trace
                + (if s.manager.started then 0 else times r s.manager.caches)
                + times r s.manager.leader_election_runnables;
            started = true;
            started_leader = true;
          }
    tally-elected r s = rw⁻¹ (runs-leader r s.manager) (rw (start_leader_lem s.manager))
