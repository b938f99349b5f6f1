-- ===== src/Controller/Setup.antt =====
-- pkg/internal/controller/controller.go: `Watch` and `Start`, with the mutex. A watch is of some type
-- `V`; what injection, starting and waiting for a source's cache answer is given by functions of it.
-- The trace records, in order, what is started; contexts and log lines are left out.
use controller_runtime.Prelude.{
  ℕ, zero, suc, Bool, true, false, Option, none, some, List, [], ◌∷◌, ◌++◌, if◌then◌else◌,
}

pub data Act {ℓ} (V : Type ℓ) : Type ℓ where
  set_metrics : Act V
  make_queue : Act V
  start_source : V → Act V
  wait_for_sync : V → Act V
  launch_worker : Act V

-- `locked` is the mutex `mu`
pub record Controller {ℓ} (V : Type ℓ) : Type ℓ where
  pub max_concurrent_reconciles : ℕ
  pub locked : Bool
  pub started : Bool
  pub start_watches : List V
  pub trace : List (Act V)

pub data SetupError {ℓ} (Err : Type ℓ) : Type ℓ where
  started_twice : SetupError Err
  failed : Err → SetupError Err

-- a call waits for the mutex forever, or returns an error or nothing; `Start` returns nothing only
-- when its context is done, here: when it has begun to wait for that
pub data Outcome {ℓ} (Err : Type ℓ) : Type ℓ where
  deadlock : Outcome Err
  returned : SetupError Err → Outcome Err
  succeeded : Outcome Err

-- what the watches answer to one call of `Watch` or `Start`: `set_fields` is the injection into the
-- source, the handler and the predicates of a watch, `start_src` the source's `Start`, and `sync` its
-- `WaitForSync`, `none` where the source is no `SyncingSource`
pub record Sources {ℓ} (V Err : Type ℓ) : Type ℓ where
  pub set_fields : V → Option Err
  pub start_src : V → Option Err
  pub sync : V → Option (Option Err)

abbrev pub outcome_of {ℓ} : {Err : Type ℓ} → Option Err → Outcome Err
outcome_of none = succeeded
outcome_of (some e) = returned (failed e)

abbrev pub launch {ℓ} : {V : Type ℓ} → ℕ → List (Act V)
launch zero = []
launch (suc n) = launch_worker ∷ launch n

module _ {ℓ} {V Err : Type ℓ} (s : Sources V Err) where
  -- `for _, watch := range c.startWatches { watch.src.Start(…) }`, with the first error
  unfoldable pub start_sources : List V → List (Act V) × Option Err
  start_sources [] = ([], none)
  start_sources (v ∷ vs) =
      let rest = start_sources vs in
      elim (s.start_src v) [
        | some err ↦ (start_source v ∷ [], some err)
        | none ↦ (start_source v ∷ rest.0, rest.1)
      ]

  -- the second loop: the syncing sources are waited for
  unfoldable pub wait_sources : List V → List (Act V) × Option Err
  wait_sources [] = ([], none)
  wait_sources (v ∷ vs) =
      let rest = wait_sources vs in
      elim (s.sync v) [
        | none ↦ rest
        | some (some err) ↦ (wait_for_sync v ∷ [], some err)
        | some none ↦ (wait_for_sync v ∷ rest.0, rest.1)
      ]

  -- the function literal that `Start` calls, and that unlocks the mutex when it returns
  unfoldable pub start_locked : Controller V → Controller V × Option Err
  unfolding start_sources wait_sources
  start_locked c =
      let (starts, err) = start_sources c.start_watches in
      elim err [
        | some e ↦ (record c { trace = c.trace ++ starts; locked = false }, some e)
        | none ↦
            let (waits, err') = wait_sources c.start_watches in
            elim err' [
              | some e ↦ (record c { trace = c.trace ++ starts ++ waits; locked = false }, some e)
              | none ↦ (
                record c {
                  trace = c.trace ++ starts ++ waits ++ launch c.max_concurrent_reconciles;
                  start_watches = [];
                  started = true;
                  locked = false;
                },
                none,
              )
            ]
      ]

  -- `c.mu.Lock()` comes first, and the early return for a started controller leaves it locked
  unfoldable pub start : Controller V → Controller V × Outcome Err
  unfolding start_locked
  start c =
      if c.locked
      then (c, deadlock)
      else if c.started
      then (record c { locked = true }, returned started_twice)
      else let (c', err) =
          start_locked
            (record c { locked = true; trace = c.trace ++ set_metrics ∷ make_queue ∷ [] }) in
        (c', outcome_of err)

  -- `Watch`, which unlocks the mutex on every return
  unfoldable pub watch : V → Controller V → Controller V × Outcome Err
  watch v c = if c.locked then (c, deadlock) else elim (s.set_fields v) [
    | some err ↦ (c, returned (failed err))
    | none ↦
        if c.started
        then (record c { trace = c.trace ++ start_source v ∷ [] }, outcome_of (s.start_src v))
        else (record c { start_watches = c.start_watches ++ v ∷ [] }, succeeded)
  ]
