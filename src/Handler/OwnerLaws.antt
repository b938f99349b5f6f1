-- ===== src/Handler/OwnerLaws.antt =====
-- Which requests the owner handler of pkg/handler/enqueue_owner.go adds.
use controller_runtime.Prelude.{
  Distinct, ◌≡◌, ◌↔◌, ◌⊎◌, inl, inr, true, string_eq, Option, List, [], ◌∷◌, map, contains, Any,
}
use controller_runtime.Object.{Object, Request, request_eq}
use controller_runtime.Event.{Event, created, updated, deleted, other}
use controller_runtime.Queue.{add}
use controller_runtime.Handler.Owner.{
  Machinery, EnqueueRequestForOwner, get_owner_reconcile_request, enqueue_request_for_owner,
}
use controller_runtime.Handler.{handle}
use controller_runtime.Handler.Laws.{added, objects_of}
use controller_runtime.Handler.OwnerRequests.{IsOwner, contains-IsOwner, Distinct-owners, added-map}

-- an order of ranging over a set leaves nothing out and repeats nothing
pub record IsRange (range : List Request → List Request) : Type 0 where
  pub same : (x : Request) (rs : List Request) → contains x (range rs) ≡ contains x rs
  pub once : (rs : List Request) → Distinct rs → Distinct (range rs)

module _ (m : Machinery) (e : EnqueueRequestForOwner) where
  module _ (range : List Request → List Request) (order : IsRange range) where
    calls-one :
        (x : Request) (o : Option Object) (reqs : List Request)
        → (contains x (added (map add (range (get_owner_reconcile_request m e o reqs)))) ≡ true)
          ↔ ((contains x reqs ≡ true) ⊎ IsOwner m e x o)
    calls-one x o reqs =
        let found = get_owner_reconcile_request m e o reqs in
        rw (added-map (range found), order.same x found) (contains-IsOwner m e x o reqs)

    Distinct-one :
        (o : Option Object) (reqs : List Request)
        → Distinct reqs
        → Distinct (added (map add (range (get_owner_reconcile_request m e o reqs))))
    Distinct-one o reqs d =
        let found = get_owner_reconcile_request m e o reqs in
        rw (added-map (range found)) (order.once found (Distinct-owners m e o reqs d))

    only :
        (x : Request) (o : Option Object)
        → (contains x (added (map add (range (get_owner_reconcile_request m e o [])))) ≡ true)
          ↔ Any (IsOwner m e x) (o ∷ [])
    only x o =
        let one = calls-one x o [] in
        (
          λ h. elim (one.0 h) [ inl p ↦ cc | inr q ↦ inl q ],
          λ h. elim h [ inl p ↦ one.1 (inr p) | inr q ↦ absurd q ],
        )

    both :
        (x : Request) (old new : Option Object)
        → (contains x (
              added (
                map add (
                  range (
                    get_owner_reconcile_request m e new (get_owner_reconcile_request m e old [])))))
            ≡ true)
          ↔ Any (IsOwner m e x) (old ∷ new ∷ [])
    both x old new =
        let first = contains-IsOwner m e x old [] in
        let second = calls-one x new (get_owner_reconcile_request m e old []) in
        (
          λ h. elim (second.0 h) [
            | inl p ↦ elim (first.0 p) [ inl q ↦ cc | inr q ↦ inl q ]
            | inr q ↦ inr (inl q)
          ],
          λ h. elim h [
            | inl p ↦ second.1 (inl (first.1 (inr p)))
            | inr q ↦ elim q [ inl p ↦ second.1 (inr p) | inr r ↦ absurd r ]
          ],
        )

    -- For each of the four kinds of event the owner handler adds each request at most once, and
    -- exactly the requests for the owners of the event's objects (for an update, both): those that a
    -- reference names whose group and kind are the handler's, of all references up to the first one
    -- that cannot be parsed or mapped, or of the controller's reference alone if the handler is one
    -- for controllers, provided that ranging over the set of requests leaves nothing out
    -- and repeats nothing.
    pub enqueue_request_for_owner_lem :
        (evt : Event)
        → let calls = handle (enqueue_request_for_owner m e range) evt in
          Distinct (added calls)
          × ((x : Request)
              → (contains x (added calls) ≡ true) ↔ Any (IsOwner m e x) (objects_of evt))
    unfolding enqueue_request_for_owner
    enqueue_request_for_owner_lem (created evt) =
        (Distinct-one evt.object [] tt, λ x. only x evt.object)
    enqueue_request_for_owner_lem (updated evt) = (
      Distinct-one evt.object_new (get_owner_reconcile_request m e evt.object_old [])
          (Distinct-owners m e evt.object_old [] tt),
      λ x. both x evt.object_old evt.object_new,
    )
    enqueue_request_for_owner_lem (deleted evt) =
        (Distinct-one evt.object [] tt, λ x. only x evt.object)
    enqueue_request_for_owner_lem (other evt) =
        (Distinct-one evt.object [] tt, λ x. only x evt.object)
