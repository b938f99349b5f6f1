-- ===== src/Handler/Owner.antt =====
-- pkg/handler/enqueue_owner.go. `schema.ParseGroupVersion`, `metav1.GetControllerOf` and the REST
-- mapper are apimachinery's, and the order in which Go ranges over a map is not fixed: parameters.
use controller_runtime.Prelude.{
  String, Bool, true, false, ◌==◌, ◌&&◌, string_eq, Option, none, some, List, [], ◌∷◌, ◌++◌, map,
  contains, if◌then◌else◌, ◌⊎◌, inl, inr,
}
use controller_runtime.Schema.{GroupKind, GroupVersion}
use controller_runtime.Object.{Object, OwnerReference, Request, request_eq}
use controller_runtime.Queue.{add}
use controller_runtime.Handler.{EventHandler}

-- what the handler reads of apimachinery
pub record Machinery : Type 0 where
  -- `schema.ParseGroupVersion`, `none` for an error
  pub parse_group_version : String → Option GroupVersion
  -- `mapper.RESTMapping`, `none` for an error, or else whether the scope is the root
  pub is_root_scoped : GroupKind → String → Option Bool
  -- `metav1.GetControllerOf`, of the owner references of the object
  pub get_controller_of : List OwnerReference → Option OwnerReference

pub record EnqueueRequestForOwner : Type 0 where
  pub is_controller : Bool
  pub group_kind : GroupKind

-- `parseOwnerTypeGroupKind` caches the group and kind of the one kind that the scheme gives
module _ {Err : Type 0} (bad_count : List GroupKind → Err) where
  unfoldable pub parse_owner_type_group_kind :
      EnqueueRequestForOwner → Err ⊎ List GroupKind → Option Err × EnqueueRequestForOwner
  parse_owner_type_group_kind e (inl err) = (some err, e)
  parse_owner_type_group_kind e (inr []) = (some (bad_count []), e)
  parse_owner_type_group_kind e (inr (k ∷ [])) = (none, record e { group_kind = k })
  parse_owner_type_group_kind e (inr (k ∷ j ∷ ks)) = (some (bad_count (k ∷ j ∷ ks)), e)

-- `result[request] = empty{}`
unfoldable pub insert : Request → List Request → List Request
insert req reqs = if contains req reqs then reqs else reqs ++ req ∷ []

-- what one turn of the loop does
pub data Turn : Type 0 where
  stop : Turn
  skip : Turn
  found : Request → Turn

module _ (m : Machinery) (e : EnqueueRequestForOwner) where
  abbrev pub owned_by : Object → OwnerReference → GroupVersion → Turn
  owned_by object ref ref_gv =
      if ref.kind == e.group_kind.kind && ref_gv.group == e.group_kind.group
      then elim (m.is_root_scoped e.group_kind ref_gv.version) [
        | none ↦ stop
        | some is_root ↦
            found (record { namespace = if is_root then "" else object.namespace; name = ref.name })
      ]
      else skip

  abbrev pub turn : Object → OwnerReference → Turn
  turn object ref = elim (m.parse_group_version ref.api_version) [
    | none ↦ stop
    | some ref_gv ↦ owned_by object ref ref_gv
  ]

  -- the loop of `getOwnerReconcileRequest`; an error ends it, and keeps what it has found
  unfoldable pub collect : Object → List OwnerReference → List Request → List Request
  unfolding insert
  collect object [] result = result
  collect object (ref ∷ refs) result = elim (turn object ref) [
    | stop ↦ result
    | skip ↦ collect object refs result
    | found req ↦ collect object refs (insert req result)
  ]

  unfoldable pub get_owners_references : Option Object → List OwnerReference
  get_owners_references none = []
  get_owners_references (some object) =
      if not_filtered
      then object.owner_references
      else elim (m.get_controller_of object.owner_references) [ none ↦ [] | some ref ↦ ref ∷ [] ]
    where
      not_filtered : Bool
      not_filtered = elim e.is_controller [ true ↦ false | false ↦ true ]

  unfoldable pub get_owner_reconcile_request : Option Object → List Request → List Request
  unfolding collect get_owners_references
  get_owner_reconcile_request none result = result
  get_owner_reconcile_request (some object) result =
      collect object (get_owners_references (some object)) result

  -- the four methods; `range` is the order in which Go ranges over the set
  unfoldable pub enqueue_request_for_owner : (List Request → List Request) → EventHandler
  unfolding get_owner_reconcile_request
  enqueue_request_for_owner range = record {
    create = λ evt. map add (range (get_owner_reconcile_request evt.object []));
    update = λ evt. map add (
        range (
          get_owner_reconcile_request evt.object_new
            (get_owner_reconcile_request evt.object_old [])));
    delete = λ evt. map add (range (get_owner_reconcile_request evt.object []));
    generic = λ evt. map add (range (get_owner_reconcile_request evt.object []));
  }
