-- ===== src/Controller.antt =====
-- pkg/internal/controller/controller.go, the work on one item: `reconcileHandler` and
-- `processNextWorkItem`, with the calls on the queue and the metrics of
-- pkg/internal/controller/metrics/metrics.go. The reconciler is the user's: a function over a state
-- `W` of its own. Contexts and log lines are left out; times are only counted.
pub mod Laws
pub mod Setup
pub mod SetupLaws
pub mod Workers
pub mod Exclusion
mod Examples
use controller_runtime.Prelude.{
  ℕ, ◌+◌, ◌-◌, ℤ, pos, ltb_ℤ, Bool, true, false, Option, none, some, List, [], ◌∷◌, ◌++◌,
  if◌then◌else◌,
}
use controller_runtime.Object.{Request}
use controller_runtime.Queue.{
  Item, request, invalid, Call, add_rate_limited, add_after, forget, done, call_reconciler,
}

-- `reconcile.Result`; a duration is in nanoseconds
pub record Result : Type 0 where
  pub requeue : Bool
  pub requeue_after : ℤ

-- the counters and gauges of one controller's name
pub record Metrics : Type 0 where
  pub reconcile_errors : ℕ
  pub total_error : ℕ
  pub total_requeue_after : ℕ
  pub total_requeue : ℕ
  pub total_success : ℕ
  pub reconcile_times : ℕ
  pub active_workers : ℕ
  pub worker_count : ℕ

-- `initMetrics` sets the two gauges, and adds 0 to the counters
unfoldable pub init_metrics : ℕ → Metrics → Metrics
init_metrics max_concurrent_reconciles m = record m {
  active_workers = 0;
  worker_count = max_concurrent_reconciles;
}

-- `updateMetrics`, deferred: one more observed time
unfoldable pub update_metrics : Metrics → Metrics
update_metrics m = record m { reconcile_times = m.reconcile_times + 1 }

-- the `switch` on what the reconciler returned
unfoldable pub settle :
    {Err : Type 0} → Request → Result → Option Err → Metrics → List Call × Metrics
settle req result (some err) m = (
  add_rate_limited req ∷ [],
  record m { reconcile_errors = m.reconcile_errors + 1; total_error = m.total_error + 1 },
)
settle req result none m =
    if ltb_ℤ (pos 0) result.requeue_after
    then (
      forget (request req) ∷ add_after req result.requeue_after ∷ [],
      record m { total_requeue_after = m.total_requeue_after + 1 },
    )
    else if result.requeue
    then (add_rate_limited req ∷ [], record m { total_requeue = m.total_requeue + 1 })
    else (forget (request req) ∷ [], record m { total_success = m.total_success + 1 })

module _ {W Err : Type 0} (do_reconcile : Request → W → (Result × Option Err) × W) where
  -- `Reconcile` hands the request on
  unfoldable pub reconcile : Request → W → (Result × Option Err) × W
  reconcile req w = do_reconcile req w

  unfoldable pub reconcile_handler : Item → W → Metrics → List Call × W × Metrics
  unfolding settle update_metrics
  reconcile_handler (invalid v) w m = (forget (invalid v) ∷ [], w, update_metrics m)
  reconcile_handler (request req) w m =
      let ((result, err), w') = do_reconcile req w in
      let (calls, m') = settle req result err m in
      (call_reconciler req ∷ calls, w', update_metrics m')

  -- what `Queue.Get` gives: an item, or `none` at the shutdown; whether the worker goes on
  unfoldable pub process_next_work_item : Option Item → W → Metrics → Bool × List Call × W × Metrics
  unfolding reconcile_handler
  process_next_work_item none w m = (false, [], w, m)
  process_next_work_item (some obj) w m =
      let m₁ = record m { active_workers = m.active_workers + 1 } in
      let (calls, w', m₂) = reconcile_handler obj w m₁ in
      (true, calls ++ done obj ∷ [], w', record m₂ { active_workers = m₂.active_workers - 1 })

  -- one worker's loop, over the answers of `Queue.Get`, up to the first shutdown
  unfoldable pub worker : List (Option Item) → W → Metrics → List Call × W × Metrics
  unfolding process_next_work_item
  worker [] w m = ([], w, m)
  worker (none ∷ gets) w m = ([], w, m)
  worker (some obj ∷ gets) w m =
      let (go_on, calls, w', m') = process_next_work_item (some obj) w m in
      let (more, w'', m'') = worker gets w' m' in (calls ++ more, w'', m'')
