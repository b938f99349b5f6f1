-- ===== src/Handler/Laws.antt =====
-- What the handlers of pkg/handler/enqueue.go and enqueue_mapped.go add to the queue.
use controller_runtime.Prelude.{
  ◌≡◌, refl, inl, inr, not, ◌&&◌, ◌||◌, Option, List, [], ◌∷◌, ◌++◌, arith, contains,
  contains-append, Distinct, Distinct-append, beq-cases, Bool-cases,
}
use controller_runtime.Object.{Object, Request, request_eq}
use controller_runtime.Event.{Event, created, updated, deleted, other}
use controller_runtime.Queue.{Call, add, add_after, add_rate_limited, forget, done, call_reconciler}
use controller_runtime.Handler.{handle, enqueue_new, enqueue_requests_from_map_func}

-- the requests that a list of calls adds at once
abbrev pub added : List Call → List Request
added [] = []
added (add r ∷ calls) = r ∷ added calls
added (_ ∷ calls) = added calls

pub added-append : (xs ys : List Call) → added (xs ++ ys) ≡ added xs ++ added ys
added-append [] ys = refl
added-append (add r ∷ xs) ys = rw (added-append xs ys)
added-append (add_rate_limited r ∷ xs) ys = added-append xs ys
added-append (add_after r d ∷ xs) ys = added-append xs ys
added-append (call_reconciler r ∷ xs) ys = added-append xs ys
added-append (forget i ∷ xs) ys = added-append xs ys
added-append (done i ∷ xs) ys = added-append xs ys

-- the set afterwards, what was added, and that nothing was added twice
contains-seen :
    (x : Request) (rs reqs : List Request)
    → contains x (enqueue_new rs reqs).1 ≡ (contains x rs || contains x reqs)
unfolding enqueue_new
contains-seen x [] reqs = refl
contains-seen x (r ∷ rs) reqs =
    ground (arith, contains-seen x rs reqs, contains-seen x rs (r ∷ reqs), beq-cases r x)

contains-added :
    (x : Request) (rs reqs : List Request)
    → contains x (added (enqueue_new rs reqs).0) ≡ (contains x rs && not (contains x reqs))
unfolding enqueue_new
contains-added x [] reqs = refl
contains-added x (r ∷ rs) reqs =
    ground (arith, contains-added x rs reqs, contains-added x rs (r ∷ reqs), beq-cases r x)

Distinct-added : (rs reqs : List Request) → Distinct (added (enqueue_new rs reqs).0)
unfolding enqueue_new
Distinct-added [] reqs = tt
Distinct-added (r ∷ rs) reqs = elim (Bool-cases (contains r reqs)) [
  | inl old ↦ rw (old, enqueue_new) (Distinct-added rs reqs)
  | inr new ↦
      rw (new, enqueue_new)
        (
          ground (arith, contains-added r rs (r ∷ reqs), beq-cases r r),
          Distinct-added rs (r ∷ reqs),
        )
]

-- the objects of an event, the old one first
abbrev pub objects_of : Event → List (Option Object)
objects_of (created e) = e.object ∷ []
objects_of (updated e) = e.object_old ∷ e.object_new ∷ []
objects_of (deleted e) = e.object ∷ []
objects_of (other e) = e.object ∷ []

-- the requests that the function maps some objects to
abbrev pub mapped : (Option Object → List Request) → List (Option Object) → List Request
mapped f [] = []
mapped f (o ∷ os) = f o ++ mapped f os

-- the calls add these requests, each once
abbrev pub AddsOnce : List Call → List Request → Type 0
AddsOnce calls reqs =
    Distinct (added calls) × ((x : Request) → contains x (added calls) ≡ contains x reqs)

adds_one : (rs : List Request) → AddsOnce (enqueue_new rs []).0 (rs ++ [])
adds_one rs =
    (Distinct-added rs [], λ x. rw (contains-added x rs [], contains-append x rs []) (ground arith))

adds_two :
    (rs qs : List Request)
    → AddsOnce
        ((enqueue_new rs []).0 ++ (enqueue_new qs (enqueue_new rs []).1).0)
        (rs ++ (qs ++ []))
adds_two rs qs =
    let seen = (enqueue_new rs []).1 in
    let first = added (enqueue_new rs []).0 in
    let second = added (enqueue_new qs seen).0 in
    rw (added-append (enqueue_new rs []).0 (enqueue_new qs seen).0) (
      Distinct-append first second (Distinct-added rs []) (Distinct-added qs seen) (λ x m.
          ground (arith, contains-added x rs [], contains-added x qs seen, contains-seen x rs [])),
      λ x. ground (
        arith,
        contains-added x rs [],
        contains-added x qs seen,
        contains-seen x rs [],
        contains-append x first second,
        contains-append x rs (qs ++ []),
        contains-append x qs [],
      ),
    )

-- `EnqueueRequestsFromMapFunc` adds, for each of the four kinds of event, exactly the requests that the
-- function maps an object of the event to (for an update, both objects), and each of them once,
-- although both objects of an update may be mapped to it.
pub added-map_func :
    (f : Option Object → List Request) (e : Event)
    → AddsOnce (handle (enqueue_requests_from_map_func f) e) (mapped f (objects_of e))
unfolding enqueue_requests_from_map_func
added-map_func f (created e) = adds_one (f e.object)
added-map_func f (updated e) = adds_two (f e.object_old) (f e.object_new)
added-map_func f (deleted e) = adds_one (f e.object)
added-map_func f (other e) = adds_one (f e.object)
