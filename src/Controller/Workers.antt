-- ===== src/Controller/Workers.antt =====
-- The workers of pkg/internal/controller/controller.go run side by side over one queue. The queue is
-- client-go's: an interface with what its documentation promises. A worker's item goes through
-- the calls of `processNextWorkItem`, one at a time and in their order: it is taken by `Queue.Get`,
-- the reconciler is entered and left, and calls are made on the queue, `Queue.Done` among them.
use controller_runtime.Prelude.{
  ℕ, ◌≡◌, Bool, true, false, not, ◌&&◌, ◌||◌, Option, none, some, List, [], ◌∷◌, ◌==◌, nat_eq_class,
  if◌then◌else◌, contains, ◌≢◌,
}
use controller_runtime.Object.{Request}
use controller_runtime.Queue.{Item, item_eq, Call, done, call_reconciler, request}
use controller_runtime.Controller.{Result, Metrics, process_next_work_item}
use controller_runtime.Controller.Laws.{done_of}

-- `processing` are the items that `Get` has given and `Done` has not had back
pub record WorkQueue : Type 1 where
  pub Q : Type 0
  pub get : Q → Option (Item × Q)
  pub call : Call → Q → Q
  pub processing : Q → List Item
  -- an item that is being processed is not given again
  pub get_fresh :
      (q : Q) (i : Item) (q' : Q)
      → get q ≡ some (i, q')
      → (contains i (processing q) ≡ false)
        × ((j : Item) → contains j (processing q') ≡ (i == j || contains j (processing q)))
  pub done_frees :
      (q : Q) (i j : Item)
      → contains j (processing (call (done i) q)) ≡ (not (i == j) && contains j (processing q))

-- a call on the queue that gives nothing back
abbrev pub is_other : Call → Bool
is_other (done i) = false
is_other (call_reconciler r) = false
is_other _ = true

-- the other calls leave the processed items alone
pub record IsQueue (k : WorkQueue) : Type 0 where
  pub keeps : (c : Call) (q : k.Q) → is_other c ≡ true → k.processing (k.call c q) ≡ k.processing q

-- A worker waits for `Get`, or has these calls left to make, or is in the reconciler and has these left
-- to make when it returns.
pub data WorkerState : Type 0 where
  idle : WorkerState
  pending : List Call → WorkerState
  reconciling : Request → List Call → WorkerState

abbrev pub first : List Item → Option Item
first [] = none
first (i ∷ is) = some i

-- the item that a worker reconciles, or that it has not given back yet
abbrev pub held : WorkerState → Option Item
held idle = none
held (pending calls) = first (done_of calls)
held (reconciling r calls) = some (request r)

abbrev pub update : ℕ → WorkerState → (ℕ → WorkerState) → ℕ → WorkerState
update w x f v = if v == w then x else f v

module _ {W Err : Type 0} (do_reconcile : Request → W → (Result × Option Err) × W)
    (k : WorkQueue) where
  pub record System : Type 0 where
    pub queue : k.Q
    pub workers : ℕ → WorkerState

  -- One step of the worker `w`, or of somebody else who adds to the queue. What the reconciler and the
  -- metrics hold when the item is reconciled is left open: the calls that `processNextWorkItem`
  -- makes for the item are those for some state of theirs.
  pub data Step : System → System → Type 0 where
    take :
        (s : System) (w : ℕ) (i : Item) (q : k.Q) (state : W) (m : Metrics)
        → s.workers w ≡ idle
        → k.get s.queue ≡ some (i, q)
        → Step s (record {
          queue = q;
          workers =
              update w (pending (process_next_work_item do_reconcile (some i) state m).1) s.workers;
        })
    make_call :
        (s : System) (w : ℕ) (c : Call) (calls : List Call)
        → ((r : Request) → c ≢ call_reconciler r)
        → s.workers w ≡ pending (c ∷ calls)
        → Step s (record { queue = k.call c s.queue; workers = update w (pending calls) s.workers })
    enter :
        (s : System) (w : ℕ) (r : Request) (calls : List Call)
        → s.workers w ≡ pending (call_reconciler r ∷ calls)
        → Step s (record s { workers = update w (reconciling r calls) s.workers })
    leave :
        (s : System) (w : ℕ) (r : Request) (calls : List Call)
        → s.workers w ≡ reconciling r calls
        → Step s (record s { workers = update w (pending calls) s.workers })
    repeat :
        (s : System) (w : ℕ)
        → s.workers w ≡ pending []
        → Step s (record s { workers = update w idle s.workers })
    elsewhere :
        (s : System) (c : Call) → is_other c ≡ true → Step s (record s { queue = k.call c s.queue })

  pub data Reach (s : System) : System → Type 0 where
    here : Reach s s
    next : {t u : System} → Reach s t → Step t u → Reach s u
