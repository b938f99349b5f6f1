-- ===== src/Controller/Laws.antt =====
-- What becomes of an item that a worker takes from the queue (pkg/internal/controller/controller.go).
use controller_runtime.Prelude.{
  ℕ, ◌+◌, pos, ltb_ℤ, ◌≡◌, refl, Bool, true, false, not, ◌&&◌, ◌||◌, Option, none, some, List, [],
  ◌∷◌, ◌++◌, arith, ◌∙◌, length, ◌==◌, any, any-append, beq_refl,
}
use controller_runtime.Object.{Request, request_eq}
use controller_runtime.Queue.{
  Item, item_eq, request, invalid, Call, add, add_rate_limited, add_after, forget, done,
  call_reconciler,
}
use controller_runtime.Controller.{
  Result, Metrics, reconcile_handler, process_next_work_item, worker,
}

-- the call puts the request back
abbrev pub is_requeue : Request → Call → Bool
is_requeue req (add r) = r == req
is_requeue req (add_rate_limited r) = r == req
is_requeue req (add_after r d) = r == req
is_requeue req (forget i) = false
is_requeue req (done i) = false
is_requeue req (call_reconciler r) = false

-- the call resets the item's rate limiting
abbrev pub is_forget : Item → Call → Bool
is_forget item (forget i) = i == item
is_forget item _ = false

abbrev pub is_some : {A : Type 0} → Option A → Bool
is_some none = false
is_some (some a) = true

-- the reconciler wants the request again
abbrev pub wants_again : {Err : Type 0} → Result × Option Err → Bool
wants_again (result, err) = is_some err || (ltb_ℤ (pos 0) result.requeue_after || result.requeue)

-- the reconciler failed, or asked for a requeue with no delay: the request backs off
abbrev pub backs_off : {Err : Type 0} → Result × Option Err → Bool
backs_off (result, err) =
    is_some err || (not (ltb_ℤ (pos 0) result.requeue_after) && result.requeue)

-- all four totals
abbrev pub totals : Metrics → ℕ
totals m = m.total_error + m.total_requeue_after + m.total_requeue + m.total_success

-- the items that `Queue.Get` gave before the shutdown
abbrev pub taken : List (Option Item) → List Item
taken [] = []
taken (none ∷ gets) = []
taken (some obj ∷ gets) = obj ∷ taken gets

abbrev pub requests_of : List Item → List Request
requests_of [] = []
requests_of (request req ∷ items) = req ∷ requests_of items
requests_of (invalid v ∷ items) = requests_of items

length-requests_of :
    (obj : Item) (items : List Item)
    → length (requests_of (obj ∷ items))
      ≡ length (requests_of (obj ∷ [])) + length (requests_of items)
length-requests_of (request req) items = omega arith
length-requests_of (invalid v) items = omega arith

-- the items that are marked done
abbrev pub done_of : List Call → List Item
done_of [] = []
done_of (done i ∷ calls) = i ∷ done_of calls
done_of (_ ∷ calls) = done_of calls

done_of-append : (xs ys : List Call) → done_of (xs ++ ys) ≡ done_of xs ++ done_of ys
done_of-append [] ys = refl
done_of-append (done i ∷ xs) ys = rw (done_of-append xs ys)
done_of-append (add r ∷ xs) ys = done_of-append xs ys
done_of-append (add_rate_limited r ∷ xs) ys = done_of-append xs ys
done_of-append (add_after r d ∷ xs) ys = done_of-append xs ys
done_of-append (forget i ∷ xs) ys = done_of-append xs ys
done_of-append (call_reconciler r ∷ xs) ys = done_of-append xs ys

module _ {W Err : Type 0} (do_reconcile : Request → W → (Result × Option Err) × W) where
  -- A request that has been reconciled is put back on the queue exactly when the reconciler returned
  -- an error, a positive delay or `Requeue`; its back-off is reset exactly when it neither failed nor
  -- asked to be requeued with no delay; and the item is marked done, as the last of the calls.
  pub process-request :
      (req : Request) (w : W) (m : Metrics)
      → let outcome = (do_reconcile req w).0 in
        let calls = (process_next_work_item do_reconcile (some (request req)) w m).1 in
        (any (is_requeue req) calls ≡ wants_again outcome)
        × (any (is_forget (request req)) calls ≡ not (backs_off outcome))
        × ((front : List Call) × (calls ≡ front ++ done (request req) ∷ []))
  unfolding process_next_work_item
  process-request req w m = (
    ground (arith, beq_refl req, any-append (is_requeue req)),
    ground (arith, beq_refl req),
    (
      (reconcile_handler do_reconcile (request req) w
          (record m { active_workers = m.active_workers + 1 })).0,
      refl,
    ),
  )

  one_more :
      (obj : Item) (w : W) (m : Metrics)
      → let m' = (process_next_work_item do_reconcile (some obj) w m).3 in
        (totals m' ≡ totals m + length (requests_of (obj ∷ [])))
        × (m'.reconcile_errors + m.total_error ≡ m.reconcile_errors + m'.total_error)
        × (m'.reconcile_times ≡ m.reconcile_times + 1)
        × (m'.active_workers ≡ m.active_workers)
  unfolding process_next_work_item
  one_more (invalid v) w m = omega arith
  one_more (request req) w m = ground arith

  pub done_of-process :
      (obj : Item) (w : W) (m : Metrics)
      → done_of (process_next_work_item do_reconcile (some obj) w m).1 ≡ obj ∷ []
  unfolding process_next_work_item
  done_of-process (invalid v) w m = refl
  done_of-process (request req) w m = ground arith

  -- Over the items that it takes up to the shutdown a worker marks each item done, once and in the
  -- order in which it took them; it adds one to exactly one of the four totals for each request, and
  -- to none for an item that is no request; the error counter grows with the total of errors; one
  -- time is observed for each item; and the gauge of active workers ends where it began.
  pub worker_accounts :
      (gets : List (Option Item)) (w : W) (m : Metrics)
      → let (calls, w', m') = worker do_reconcile gets w m in
        (done_of calls ≡ taken gets)
        × (totals m' ≡ totals m + length (requests_of (taken gets)))
        × (m'.reconcile_errors + m.total_error ≡ m.reconcile_errors + m'.total_error)
        × (m'.reconcile_times ≡ m.reconcile_times + length (taken gets))
        × (m'.active_workers ≡ m.active_workers)
  unfolding worker
  worker_accounts [] w m = (refl, omega arith, refl, omega arith, refl)
  worker_accounts (none ∷ gets) w m = (refl, omega arith, refl, omega arith, refl)
  worker_accounts (some obj ∷ gets) w m =
      let step = process_next_work_item do_reconcile (some obj) w m in
      let more = worker do_reconcile gets step.2 step.3 in
      let ih = worker_accounts gets step.2 step.3 in
      let now = one_more obj w m in
      (
        rw (done_of-append step.1 more.0, done_of-process obj w m, ih.0),
        omega (arith, now.0, ih.1, length-requests_of obj (taken gets)),
        omega (arith, now.1, ih.2),
        omega (arith, now.2, ih.3),
        ih.4 ∙ now.3,
      )
