-- ===== src/OwnerRefs.antt =====
-- pkg/controller/controllerutil/controllerutil.go: owner references. `schema.ParseGroupVersion`,
-- `GroupVersion.String` and `metav1.GetControllerOf` are apimachinery's: parameters. The functions
-- change the object in place: the model gives the error, if any, and the object afterwards.
pub mod Upsert
pub mod Counting
pub mod Idempotent
pub mod Laws
mod Examples
use controller_runtime.Prelude.{
  ℕ, zero, suc, String, ◌⊎◌, inl, inr, Bool, true, false, not, ◌&&◌, ◌==◌, ◌/=◌, string_eq, Option,
  none, some, List, [], ◌∷◌, ◌++◌, if◌then◌else◌,
}
use controller_runtime.Prelude.Lists.{set}
use controller_runtime.Object.{Object, OwnerReference}
use controller_runtime.Schema.{
  GroupVersion, GroupVersionKind, RuntimeObject, KindError, gvk_for_object,
}

-- `metav1.Object` as an owner: `as_runtime` is the type assertion to runtime.Object
pub record Owner (Err : Type 0) : Type 0 where
  pub object : Object
  pub as_runtime : Option (RuntimeObject Err)

pub data OwnerError (Err : Type 0) : Type 0 where
  not_runtime_object cluster_scoped cross_namespace : OwnerError Err
  no_kind : KindError Err → OwnerError Err
  -- `AlreadyOwnedError`
  already_owned : Object → OwnerReference → OwnerError Err

unfoldable pub validate_owner : {Err : Type 0} → Object → Object → Option (OwnerError Err)
validate_owner owner object =
    if owner.namespace /= ""
    then if object.namespace == ""
      then some cluster_scoped
      else if owner.namespace /= object.namespace
      then some cross_namespace
      else none
    else none

-- the checks that both functions begin with: the type assertion, `validateOwner`, `GVKForObject`
unfoldable pub checked_kind :
    {Err : Type 0} → Owner Err → Object → OwnerError Err ⊎ GroupVersionKind
unfolding validate_owner gvk_for_object
checked_kind owner object = elim owner.as_runtime [
  | none ↦ inl not_runtime_object
  | some ro ↦ elim (validate_owner owner.object object) [
    | some err ↦ inl err
    | none ↦ elim (gvk_for_object ro) [ inl err ↦ inl (no_kind err) | inr gvk ↦ inr gvk ]
  ]
]

pub record Api : Type 0 where
  -- `schema.ParseGroupVersion`, `none` for an error
  pub parse_group_version : String → Option GroupVersion
  -- `gvk.GroupVersion().String()`
  pub group_version_string : GroupVersion → String
  -- `metav1.GetControllerOf`, of the references
  pub get_controller_of : List OwnerReference → Option OwnerReference

module _ (api : Api) where
  -- both references have a version that parses, and name one object; the UID is not compared
  abbrev pub same_parsed :
      Option GroupVersion → Option GroupVersion → OwnerReference → OwnerReference → Bool
  same_parsed none b_gv a b = false
  same_parsed (some a_gv) none a b = false
  same_parsed (some a_gv) (some b_gv) a b =
      a_gv.group == b_gv.group && (a.kind == b.kind && a.name == b.name)

  unfoldable pub refer_same_object : OwnerReference → OwnerReference → Bool
  refer_same_object a b =
      same_parsed (api.parse_group_version a.api_version) (api.parse_group_version b.api_version) a
        b

  -- `none` stands for -1
  unfoldable pub index_owner_ref : List OwnerReference → OwnerReference → Option ℕ
  index_owner_ref [] ref = none
  index_owner_ref (r ∷ rs) ref =
      let rest = index_owner_ref rs ref in
      if refer_same_object r ref then some 0 else elim rest [ none ↦ none | some i ↦ some (suc i) ]

  unfoldable pub upsert_owner_ref : OwnerReference → Object → Object
  upsert_owner_ref ref object = record object {
    owner_references = elim (index_owner_ref object.owner_references ref) [
      | none ↦ object.owner_references ++ ref ∷ []
      | some idx ↦ set object.owner_references idx ref
    ];
  }

  abbrev pub api_version_of : GroupVersionKind → String
  api_version_of gvk =
      api.group_version_string (record { group = gvk.group; version = gvk.version })

  abbrev pub controller_ref : Object → GroupVersionKind → OwnerReference
  controller_ref owner gvk = record {
    api_version = api_version_of gvk;
    kind = gvk.kind;
    name = owner.name;
    uid = owner.uid;
    controller = some true;
    block_owner_deletion = some true;
  }

  abbrev pub owner_ref : Object → GroupVersionKind → OwnerReference
  owner_ref owner gvk = record {
    api_version = api_version_of gvk;
    kind = gvk.kind;
    name = owner.name;
    uid = owner.uid;
    controller = none;
    block_owner_deletion = none;
  }

  module _ {Err : Type 0} where
    -- the early return for an object that another owner controls, or else the change
    unfoldable pub take_control :
        OwnerReference → Object → Option OwnerReference → Option (OwnerError Err) × Object
    unfolding upsert_owner_ref
    take_control ref controlled none = (none, upsert_owner_ref ref controlled)
    take_control ref controlled (some existing) =
        if not (refer_same_object existing ref)
        then (some (already_owned controlled existing), controlled)
        else (none, upsert_owner_ref ref controlled)

    unfoldable pub set_controller_reference : Owner Err → Object → Option (OwnerError Err) × Object
    unfolding checked_kind take_control
    set_controller_reference owner controlled = elim (checked_kind owner controlled) [
      | inl err ↦ (some err, controlled)
      | inr gvk ↦
          take_control (controller_ref owner.object gvk) controlled
            (api.get_controller_of controlled.owner_references)
    ]

    unfoldable pub set_owner_reference : Owner Err → Object → Option (OwnerError Err) × Object
    unfolding checked_kind upsert_owner_ref
    set_owner_reference owner object = elim (checked_kind owner object) [
      | inl err ↦ (some err, object)
      | inr gvk ↦ (none, upsert_owner_ref (owner_ref owner.object gvk) object)
    ]
