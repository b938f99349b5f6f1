-- ===== src/Manager/Starts.antt =====
-- How often each operation of pkg/manager/internal.go starts a runnable.
use controller_runtime.Prelude.{
  ℕ, suc, ◌+◌, ◌≡◌, refl, sym, ap, ◌∙◌, Bool, true, not, ◌==◌, Comparable, List, [], ◌∷◌, ◌++◌, map,
  keep, arith, if◌then◌else◌,
}
use mathlib.Core.List.{append_assoc, append-nil}
use controller_runtime.Manager.{
  Act, run, wait_for_sync, run_health_probes, Manager, start_runnable, start_all, wait_for_cache,
  start_leader_election_runnables, start_non_leader_election_runnables, Runnables,
}

module _ {R : Type 0} ⦃e : Comparable R⦄ where
  -- how often a runnable stands in a list
  abbrev pub times : R → List R → ℕ
  times r [] = 0
  times r (x ∷ xs) = if x == r then suc (times r xs) else times r xs

  -- how often it was started
  abbrev pub runs : R → List (Act R) → ℕ
  runs r [] = 0
  runs r (run x ∷ acts) = if x == r then suc (runs r acts) else runs r acts
  runs r (_ ∷ acts) = runs r acts

  pub times-append : (r : R) (xs ys : List R) → times r (xs ++ ys) ≡ times r xs + times r ys
  times-append r [] ys = omega arith
  times-append r (x ∷ xs) ys = ground (arith, times-append r xs ys)

  pub runs-append : (r : R) (xs ys : List (Act R)) → runs r (xs ++ ys) ≡ runs r xs + runs r ys
  runs-append r [] ys = omega arith
  runs-append r (run x ∷ xs) ys = ground (arith, runs-append r xs ys)
  runs-append r (run_health_probes ∷ xs) ys = runs-append r xs ys
  runs-append r (wait_for_sync x ∷ xs) ys = runs-append r xs ys

  pub runs-run : (r : R) (xs : List R) → runs r (map run xs) ≡ times r xs
  runs-run r [] = refl
  runs-run r (x ∷ xs) = ground (arith, runs-run r xs)

  pub runs-wait : (r : R) (xs : List R) → runs r (map wait_for_sync xs) ≡ 0
  runs-wait r [] = refl
  runs-wait r (x ∷ xs) = runs-wait r xs

  pub times-split :
      (r : R) (p : R → Bool) (xs : List R)
      → times r (keep p xs) + times r (keep (λ x. not (p x)) xs) ≡ times r xs
  times-split r p [] = refl
  times-split r p (x ∷ xs) = ground (arith, times-split r p xs)

module _ {R C H : Type 0} where
  -- a loop of starts, at once
  pub start_all_lem :
      (rs : List R) (m : Manager R C H)
      → start_all rs m ≡ record m { trace = m.trace ++ map run rs }
  unfolding start_all
  start_all_lem [] m = ap (λ t. record m { trace = t }) (sym (append-nil m.trace))
  start_all_lem (r ∷ rs) m =
      start_all_lem rs (start_runnable r m)
      ∙ ap (λ t. record m { trace = t }) (append_assoc m.trace (run r ∷ []) (map run rs))

  -- what is traced when the caches are waited for
  abbrev pub cache_acts : Manager R C H → List (Act R)
  cache_acts m = if m.started then [] else map run m.caches ++ map wait_for_sync m.caches

  pub wait_for_cache_lem :
      (m : Manager R C H)
      → wait_for_cache m ≡ record m { trace = m.trace ++ cache_acts m; started = true }
  unfolding wait_for_cache
  wait_for_cache_lem m =
      let starts = start_all_lem m.caches m in
      ground (
        arith,
        starts,
        append-nil m.trace,
        append_assoc m.trace (map run m.caches) (map wait_for_sync m.caches),
      )

  pub start_leader_lem :
      (m : Manager R C H)
      → start_leader_election_runnables m ≡ record m {
        trace = m.trace ++ (cache_acts m ++ map run m.leader_election_runnables);
        started = true;
        started_leader = true;
      }
  unfolding start_leader_election_runnables
  start_leader_lem m =
      ap (λ (n : Manager R C H). record n { started_leader = true })
        (ap (start_all m.leader_election_runnables) (wait_for_cache_lem m)
          ∙ start_all_lem m.leader_election_runnables
              (record m { trace = m.trace ++ cache_acts m; started = true })
          ∙ ap (λ t. record m { trace = t; started = true })
              (append_assoc m.trace (cache_acts m) (map run m.leader_election_runnables)))

  module _ {Err : Type 0} (k : Runnables R Err) where
    abbrev pub servers : Manager R C H → List R
    servers m = keep k.is_webhook_server m.non_leader_election_runnables

    abbrev pub others : Manager R C H → List R
    others m = keep (λ r. not (k.is_webhook_server r)) m.non_leader_election_runnables

    pub start_non_leader_lem :
        (m : Manager R C H)
        → start_non_leader_election_runnables k m ≡ record m {
          trace = m.trace ++ (map run (servers m) ++ (cache_acts m ++ map run (others m)));
          started = true;
        }
    unfolding start_non_leader_election_runnables
    start_non_leader_lem m =
        let t₁ = m.trace ++ map run (servers m) in
        let m₁ = record m { trace = t₁ } in
        ap (λ n. start_all (others m) (wait_for_cache n)) (start_all_lem (servers m) m)
        ∙ ap (start_all (others m)) (wait_for_cache_lem m₁)
        ∙ start_all_lem (others m) (record m { trace = t₁ ++ cache_acts m; started = true })
        ∙ ap (λ t. record m { trace = t; started = true })
            (append_assoc t₁ (cache_acts m) (map run (others m))
              ∙ append_assoc m.trace (map run (servers m)) (cache_acts m ++ map run (others m)))

module _ {R C H : Type 0} ⦃e : Comparable R⦄ where
  pub runs-cache_acts :
      (r : R) (m : Manager R C H)
      → runs r (cache_acts m) ≡ (if m.started then 0 else times r m.caches)
  runs-cache_acts r m = ground (
    arith,
    runs-append r (map run m.caches) (map wait_for_sync m.caches),
    runs-run r m.caches,
    runs-wait r m.caches,
  )

  pub runs-leader :
      (r : R) (m : Manager R C H)
      → runs r (start_leader_election_runnables m).trace
        ≡ runs r m.trace
          + (if m.started then 0 else times r m.caches)
          + times r m.leader_election_runnables
  runs-leader r m =
      let all = map run m.leader_election_runnables in
      rw
        (
          start_leader_lem m,
          runs-append r m.trace (cache_acts m ++ all),
          runs-append r (cache_acts m) all,
          runs-run r m.leader_election_runnables,
          runs-cache_acts r m,
        )
        (omega arith)

  module _ {Err : Type 0} (k : Runnables R Err) where
    pub runs-non_leader :
        (r : R) (m : Manager R C H)
        → runs r (start_non_leader_election_runnables k m).trace
          ≡ runs r m.trace
            + (if m.started then 0 else times r m.caches)
            + times r m.non_leader_election_runnables
    runs-non_leader r m =
        let firsts = map run (servers k m) in
        let lasts = map run (others k m) in
        let split = times-split r k.is_webhook_server m.non_leader_election_runnables in
        rw
          (
            start_non_leader_lem k m,
            runs-append r m.trace (firsts ++ (cache_acts m ++ lasts)),
            runs-append r firsts (cache_acts m ++ lasts),
            runs-append r (cache_acts m) lasts,
            runs-run r (servers k m),
            runs-run r (others k m),
            runs-cache_acts r m,
          )
          (omega arith)
