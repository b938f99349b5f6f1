-- ===== src/Handler/Examples.antt =====
-- The handlers of pkg/handler on the events of a pod.
use controller_runtime.Prelude.{
  ◌≡◌, refl, ◌↔◌, pos, true, false, none, some, Option, List, [], ◌∷◌, contains, Distinct, Any,
}
use controller_runtime.Object.{Object, Request, request_eq}
use controller_runtime.Event.{Event, updated}
use controller_runtime.Handler.{handle, enqueue_requests_from_map_func}
use controller_runtime.Handler.Owner.{Machinery, EnqueueRequestForOwner, enqueue_request_for_owner}
use controller_runtime.Handler.Laws.{AddsOnce, added, mapped, objects_of, added-map_func}
use controller_runtime.Handler.OwnerRequests.{IsOwner}
use controller_runtime.Handler.OwnerLaws.{IsRange, enqueue_request_for_owner_lem}
use controller_runtime.OwnerRefs.Upsert.{first_controller}
use controller_runtime.Samples.{pod, replica_set_ref, request_to, parse_sample}

-- the pod passes from one replica set to another
abbrev adopted : Event
adopted = updated (record {
  object_old = some (pod (pos 1) (replica_set_ref "web" (some true) ∷ []) [] none);
  object_new = some (pod (pos 1) (replica_set_ref "api" (some true) ∷ []) [] none);
})

-- one request for the shop, and one for the pod
abbrev to_shop : Option Object → List Request
to_shop none = []
to_shop (some o) = request_to "all" ∷ request_to o.name ∷ []

added-map_func_example :
    AddsOnce
      (handle (enqueue_requests_from_map_func to_shop) adopted)
      (mapped to_shop (objects_of adopted))
added-map_func_example = added-map_func to_shop adopted

abbrev machinery : Machinery
machinery = record {
  parse_group_version = parse_sample;
  is_root_scoped = λ k v. some false;
  get_controller_of = first_controller;
}

abbrev for_replica_sets : EnqueueRequestForOwner
for_replica_sets = record {
  is_controller = true;
  group_kind = record { group = "apps"; kind = "ReplicaSet" };
}

abbrev in_order : List Request → List Request
in_order rs = rs

IsRange-in_order : IsRange in_order
IsRange-in_order = record { same = λ x rs. refl; once = λ rs d. d }

enqueue_request_for_owner_lem_example :
    Distinct
      (added (handle (enqueue_request_for_owner machinery for_replica_sets in_order) adopted))
    × ((x : Request)
        → (contains x (
              added
                (handle (enqueue_request_for_owner machinery for_replica_sets in_order) adopted))
            ≡ true)
          ↔ Any (IsOwner machinery for_replica_sets x) (objects_of adopted))
enqueue_request_for_owner_lem_example =
    enqueue_request_for_owner_lem machinery for_replica_sets in_order IsRange-in_order adopted
