-- ===== src/Controller/Examples.antt =====
-- pkg/internal/controller/controller.go: two workers over a small queue, and a controller with two
-- sources.
use controller_runtime.Prelude.{
  ℕ, suc, ◌+◌, pos, ◌≡◌, ◌≢◌, refl, inl, inr, String, Bool, true, false, not, ◌&&◌, ◌||◌, ◌==◌,
  if◌then◌else◌, Option, none, some, List, [], ◌∷◌, ◌++◌, any, contains, keep, length, arith,
  contains-keep_ne, nat_eq_class,
}
use controller_runtime.Object.{Request}
use controller_runtime.Queue.{
  Item, item_eq, request, invalid, Call, add, add_rate_limited, add_after, forget, done,
  call_reconciler,
}
use controller_runtime.Controller.{Result, Metrics, process_next_work_item, worker}
use controller_runtime.Controller.Laws.{
  is_requeue, is_forget, wants_again, backs_off, totals, taken, requests_of, done_of,
  process-request, worker_accounts,
}
use controller_runtime.Controller.Setup.{
  Controller, Sources, returned, started_twice, succeeded, deadlock, set_metrics, make_queue, start,
  watch, launch,
}
use controller_runtime.Controller.SetupLaws.{
  starts_of, waits_of, start_healthy, start_twice_deadlocks, Operation, watching, starting,
  operate_all, IsSetUp, operate_all-IsSetUp,
}
use controller_runtime.Controller.Workers.{
  WorkQueue, IsQueue, is_other, WorkerState, idle, pending, reconciling, held, update, System, take,
  enter, Reach, here, next,
}
use controller_runtime.Controller.Exclusion.{Reach-apart}
use controller_runtime.Samples.{request_to}

-- a reconciler that counts its calls and asks to be called again
abbrev again : Request → ℕ → (Result × Option String) × ℕ
again req n = ((record { requeue = true; requeue_after = pos 0 }, none), suc n)

abbrev fresh : Metrics
fresh = record {
  reconcile_errors = 0;
  total_error = 0;
  total_requeue_after = 0;
  total_requeue = 0;
  total_success = 0;
  reconcile_times = 0;
  active_workers = 0;
  worker_count = 2;
}

abbrev calls_of : List Call
calls_of = (process_next_work_item again (some (request (request_to "web"))) 0 fresh).1

process-request_example :
    (any (is_requeue (request_to "web")) calls_of ≡ wants_again (again (request_to "web") 0).0)
    × (any (is_forget (request (request_to "web"))) calls_of
        ≡ not (backs_off (again (request_to "web") 0).0))
    × ((front : List Call) × (calls_of ≡ front ++ done (request (request_to "web")) ∷ []))
process-request_example = process-request again (request_to "web") 0 fresh

abbrev gets : List (Option Item)
gets = some (request (request_to "web")) ∷ some (invalid "3") ∷ none ∷ []

worker_accounts_example :
    let (calls, w', m') = worker again gets 0 fresh in
    (done_of calls ≡ taken gets)
    × (totals m' ≡ totals fresh + length (requests_of (taken gets)))
    × (m'.reconcile_errors + fresh.total_error ≡ fresh.reconcile_errors + m'.total_error)
    × (m'.reconcile_times ≡ fresh.reconcile_times + length (taken gets))
    × (m'.active_workers ≡ fresh.active_workers)
worker_accounts_example = worker_accounts again gets 0 fresh

-- source 1 syncs, and source 2 is no syncing source
abbrev sources : Sources ℕ String
sources = record {
  set_fields = λ v. none;
  start_src = λ v. none;
  sync = λ v. if v == 1 then some none else none;
}

abbrev controller : Bool → List ℕ → Controller ℕ
controller started watches = record {
  max_concurrent_reconciles = 2;
  locked = false;
  started = started;
  start_watches = watches;
  trace = [];
}

start_healthy_example : start sources (controller false (1 ∷ 2 ∷ [])) ≡ (
  record (controller false (1 ∷ 2 ∷ [])) {
    locked = false;
    started = true;
    start_watches = [];
    trace =
        ([] ++ set_metrics ∷ make_queue ∷ [])
        ++ starts_of (1 ∷ 2 ∷ [])
        ++ waits_of sources (1 ∷ 2 ∷ [])
        ++ launch 2;
  },
  succeeded,
)
start_healthy_example =
    start_healthy sources (controller false (1 ∷ 2 ∷ [])) refl refl
      ((refl, inr refl), ((refl, inl refl), tt))

start_twice_deadlocks_example :
    let c' = (start sources (controller true [])).0 in
    ((start sources (controller true [])).1 ≡ returned started_twice)
    × (watch sources 1 c' ≡ (c', deadlock))
    × (start sources c' ≡ (c', deadlock))
start_twice_deadlocks_example = start_twice_deadlocks sources (controller true []) 1 refl refl

-- source 1 fails to start at first
abbrev failing : Sources ℕ String
failing = record sources { start_src = λ v. if v == 1 then some "no cache" else none }

abbrev history : List (Sources ℕ String × Operation ℕ)
history =
    (sources, watching 1) ∷ (failing, starting) ∷ (sources, watching 2) ∷ (sources, starting) ∷ []

operate_all-IsSetUp_example : IsSetUp (operate_all history (controller false []))
operate_all-IsSetUp_example =
    operate_all-IsSetUp history (controller false [])
      (record { none_held = λ e. refl; workers = refl })

-- A queue of waiting and of processed items. It gives the first one, unless that is being processed.
abbrev Items : Type 0
Items = List Item × List Item

abbrev first_fresh : Items → Option (Item × Items)
first_fresh ([], held_items) = none
first_fresh (i ∷ is, held_items) =
    if contains i held_items then none else some (i, (is, i ∷ held_items))

abbrev respond : Call → Items → Items
respond (add r) q = (q.0 ++ request r ∷ [], q.1)
respond (add_rate_limited r) q = (q.0 ++ request r ∷ [], q.1)
respond (add_after r d) q = (q.0 ++ request r ∷ [], q.1)
respond (forget i) q = q
respond (call_reconciler r) q = q
respond (done i) q = (q.0, keep (λ e. not (e == i)) q.1)

first_fresh-get :
    (q : Items) (i : Item) (q' : Items)
    → first_fresh q ≡ some (i, q')
    → (contains i q.1 ≡ false) × ((j : Item) → contains j q'.1 ≡ (i == j || contains j q.1))
first_fresh-get ([], h) i q' e = cc
first_fresh-get (x ∷ xs, h) i q' e = (ground arith, λ j. ground arith)

done-respond :
    (q : Items) (i j : Item) → contains j (respond (done i) q).1 ≡ (not (i == j) && contains j q.1)
done-respond q i j = ground (arith, contains-keep_ne j i q.1)

keeps_small : (c : Call) (q : Items) → is_other c ≡ true → (respond c q).1 ≡ q.1
keeps_small (done i) q e = cc
keeps_small (call_reconciler r) q e = cc
keeps_small (add r) q e = refl
keeps_small (add_rate_limited r) q e = refl
keeps_small (add_after r d) q e = refl
keeps_small (forget i) q e = refl

abbrev small_queue : WorkQueue
small_queue = record {
  Q = Items;
  get = first_fresh;
  call = respond;
  processing = λ q. q.1;
  get_fresh = first_fresh-get;
  done_frees = done-respond;
}

IsQueue-small_queue : IsQueue small_queue
IsQueue-small_queue = record { keeps = keeps_small }

abbrev web : Item
web = request (request_to "web")

abbrev api : Item
api = request (request_to "api")

abbrev waiting : System again small_queue
waiting = record { queue = (web ∷ api ∷ [], []); workers = λ w. idle }

-- what is left of the calls for a request when it is in the reconciler
abbrev left : Request → List Call
left req = add_rate_limited req ∷ done (request req) ∷ []

abbrev all_of : Request → List Call
all_of req = call_reconciler req ∷ left req

abbrev taken_by : ℕ → Request → (ℕ → WorkerState) → ℕ → WorkerState
taken_by w req f = update w (pending (all_of req)) f

abbrev reconciled_by : ℕ → Request → (ℕ → WorkerState) → ℕ → WorkerState
reconciled_by w req f = update w (reconciling req (left req)) (taken_by w req f)

abbrev state_of : List Item → List Item → (ℕ → WorkerState) → System again small_queue
state_of queued given workers = record { queue = (queued, given); workers = workers }

abbrev one_busy : ℕ → WorkerState
one_busy = reconciled_by 0 (request_to "web") (λ w. idle)

abbrev both_busy : System again small_queue
both_busy = state_of [] (api ∷ web ∷ []) (reconciled_by 1 (request_to "api") one_busy)

both_start : Reach again small_queue waiting both_busy
unfolding process_next_work_item
both_start =
    next
      (next
        (next (next here (take waiting 0 web (api ∷ [], web ∷ []) 0 fresh refl refl)) (
          enter (state_of (api ∷ []) (web ∷ []) (taken_by 0 (request_to "web") (λ w. idle))) 0
            (request_to "web") (left (request_to "web")) refl))
        (take (state_of (api ∷ []) (web ∷ []) one_busy) 1 api ([], api ∷ web ∷ []) 0 fresh refl
          refl))
      (enter (state_of [] (api ∷ web ∷ []) (taken_by 1 (request_to "api") one_busy)) 1
        (request_to "api") (left (request_to "api")) refl)

Reach-apart_example : held (both_busy.workers 1) ≢ some web
Reach-apart_example =
    Reach-apart again small_queue waiting both_busy IsQueue-small_queue (λ w. refl) both_start 0 1
      web (λ e. absurd (ground arith)) refl
