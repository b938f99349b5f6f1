-- ===== src/Controller/SetupLaws.antt =====
-- What `Watch` and `Start` of pkg/internal/controller/controller.go do to a controller.
use controller_runtime.Prelude.{
  ℕ, zero, suc, ◌+◌, ◌≡◌, refl, ap, ◌⊎◌, true, false, none, some, List, [], ◌∷◌, ◌++◌, arith,
  if◌then◌else◌, All,
}
use controller_runtime.Controller.Setup.{
  Act, set_metrics, make_queue, start_source, wait_for_sync, launch_worker, Controller,
  started_twice, deadlock, returned, succeeded, Sources, start_sources, wait_sources, launch,
  start_locked, start, watch,
}

module _ {V : Type 0} where
  -- the workers that a trace launches
  abbrev pub launched : List (Act V) → ℕ
  launched [] = 0
  launched (launch_worker ∷ acts) = suc (launched acts)
  launched (_ ∷ acts) = launched acts

  launched-append : (xs ys : List (Act V)) → launched (xs ++ ys) ≡ launched xs + launched ys
  launched-append [] ys = omega arith
  launched-append (launch_worker ∷ xs) ys = omega (arith, launched-append xs ys)
  launched-append (set_metrics ∷ xs) ys = launched-append xs ys
  launched-append (make_queue ∷ xs) ys = launched-append xs ys
  launched-append (start_source v ∷ xs) ys = launched-append xs ys
  launched-append (wait_for_sync v ∷ xs) ys = launched-append xs ys

  abbrev pub starts_of : List V → List (Act V)
  starts_of [] = []
  starts_of (v ∷ vs) = start_source v ∷ starts_of vs

launched-launch : (V : Type 0) (n : ℕ) → launched (launch {V = V} n) ≡ n
launched-launch V zero = refl
launched-launch V (suc n) = ap suc (launched-launch V n)

-- the operations on a controller
pub data Operation (V : Type 0) : Type 0 where
  watching : V → Operation V
  starting : Operation V

-- no watch is held by a started controller; the workers are launched when it starts, and only then
pub record IsSetUp {V : Type 0} (c : Controller V) : Type 0 where
  pub none_held : c.started ≡ true → c.start_watches ≡ []
  pub workers : launched c.trace ≡ (if c.started then c.max_concurrent_reconciles else 0)

module _ {V Err : Type 0} (s : Sources V Err) where
  -- the waits for the sources that sync
  abbrev pub waits_of : List V → List (Act V)
  waits_of [] = []
  waits_of (v ∷ vs) =
      let rest = waits_of vs in elim (s.sync v) [ none ↦ rest | some r ↦ wait_for_sync v ∷ rest ]

  -- a source starts, and its cache syncs if it is a syncing source
  abbrev pub IsHealthy : V → Type 0
  IsHealthy v = (s.start_src v ≡ none) × ((s.sync v ≡ none) ⊎ (s.sync v ≡ some none))

  launched-start_sources : (vs : List V) → launched (start_sources s vs).0 ≡ 0
  unfolding start_sources
  launched-start_sources [] = refl
  launched-start_sources (v ∷ vs) = ground (arith, launched-start_sources vs)

  launched-wait_sources : (vs : List V) → launched (wait_sources s vs).0 ≡ 0
  unfolding wait_sources
  launched-wait_sources [] = refl
  launched-wait_sources (v ∷ vs) = ground (arith, launched-wait_sources vs)

  start_sources-healthy :
      (vs : List V) → All IsHealthy vs → start_sources s vs ≡ (starts_of vs, none)
  unfolding start_sources
  start_sources-healthy [] h = refl
  start_sources-healthy (v ∷ vs) h = ground (arith, h.0.0, start_sources-healthy vs h.1)

  wait_sources-healthy : (vs : List V) → All IsHealthy vs → wait_sources s vs ≡ (waits_of vs, none)
  unfolding wait_sources
  wait_sources-healthy [] h = refl
  wait_sources-healthy (v ∷ vs) h = ground (arith, h.0.1, wait_sources-healthy vs h.1)

  -- When every source that has been watched starts and syncs, `Start` of a controller that is not
  -- started and not locked succeeds. It sets the metrics and makes the queue first, then starts every source once and in
  -- order, only then waits for those that sync, and only then launches the configured number of
  -- workers; it drops the list of watches, sets `Started` and unlocks the mutex.
  pub start_healthy :
      (c : Controller V)
      → c.locked ≡ false
      → c.started ≡ false
      → All IsHealthy c.start_watches
      → start s c ≡ (
        record c {
          locked = false;
          started = true;
          start_watches = [];
          trace =
              (c.trace ++ set_metrics ∷ make_queue ∷ [])
              ++ starts_of c.start_watches
              ++ waits_of c.start_watches
              ++ launch c.max_concurrent_reconciles;
        },
        succeeded,
      )
  unfolding start start_locked
  start_healthy c unlocked fresh h =
      ground
        (arith, start_sources-healthy c.start_watches h, wait_sources-healthy c.start_watches h)

  -- A call of `Start` on a controller that is started and not locked returns an error and leaves the
  -- mutex locked: from then on every call of `Watch` and of `Start` waits for it forever, and changes
  -- nothing.
  pub start_twice_deadlocks :
      (c : Controller V) (v : V)
      → c.locked ≡ false
      → c.started ≡ true
      → let c' = (start s c).0 in
        ((start s c).1 ≡ returned started_twice)
        × (watch s v c' ≡ (c', deadlock))
        × (start s c' ≡ (c', deadlock))
  unfolding start watch
  start_twice_deadlocks c v unlocked again = ground arith

  abbrev pub operate : Operation V → Controller V → Controller V
  operate (watching v) c = (watch s v c).0
  operate starting c = (start s c).0

  operate-IsSetUp : (o : Operation V) (c : Controller V) → IsSetUp c → IsSetUp (operate o c)
  unfolding start start_locked watch
  operate-IsSetUp (watching v) c h = ground (arith, launched-append c.trace (start_source v ∷ []))
  operate-IsSetUp starting c h =
      let begun = c.trace ++ set_metrics ∷ make_queue ∷ [] in
      let starts = (start_sources s c.start_watches).0 in
      let waits = (wait_sources s c.start_watches).0 in
      ground (
        arith,
        launched-append c.trace (set_metrics ∷ make_queue ∷ []),
        launched-append begun starts,
        launched-append (begun ++ starts) waits,
        launched-append (begun ++ starts ++ waits) (launch c.max_concurrent_reconciles),
        launched-start_sources c.start_watches,
        launched-wait_sources c.start_watches,
        launched-launch V c.max_concurrent_reconciles,
      )

module _ {V Err : Type 0} where
  -- calls one after the other, each with what the sources answer to it
  abbrev pub operate_all : List (Sources V Err × Operation V) → Controller V → Controller V
  operate_all [] c = c
  operate_all ((s, o) ∷ os) c = operate_all os (operate s o c)

  -- Whatever calls of `Watch` and `Start` are made on it, and whatever fails at each of them, a
  -- controller that begins with no worker launched and not started has launched its workers exactly
  -- if it is started, as many as configured and never again, and holds no watch once it is started.
  pub operate_all-IsSetUp :
      (os : List (Sources V Err × Operation V)) (c : Controller V)
      → IsSetUp c
      → IsSetUp (operate_all os c)
  operate_all-IsSetUp [] c h = h
  operate_all-IsSetUp ((s, o) ∷ os) c h =
      operate_all-IsSetUp os (operate s o c) (operate-IsSetUp s o c h)
