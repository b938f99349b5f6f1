-- ===== src/OwnerRefs/Laws.antt =====
-- What `SetControllerReference` and `SetOwnerReference` of
-- pkg/controller/controllerutil/controllerutil.go keep and bring about.
use controller_runtime.Prelude.{
  ◌≤◌, ◌≡◌, ◌↔◌, ◌⊎◌, inl, inr, string_eq, none, some, List, arith, beq-cases,
}
use controller_runtime.Object.{Object, OwnerReference}
use controller_runtime.OwnerRefs.{Api, validate_owner}
use controller_runtime.OwnerRefs.Upsert.{controllers, first_controller, Apart, IsPlaced}

-- An owner is accepted exactly if it is cluster-scoped or lives in the namespace of the object.
pub validate_owner_iff :
    {Err : Type 0} (owner object : Object)
    → (validate_owner {Err = Err} owner object ≡ none)
      ↔ ((owner.namespace ≡ "") ⊎ (owner.namespace ≡ object.namespace))
unfolding validate_owner
validate_owner_iff owner object =
    let a = beq-cases owner.namespace "" in
    let b = beq-cases object.namespace "" in
    let c = beq-cases owner.namespace object.namespace in
    (
      λ h. elim a [ inl p ↦ inl p.1 | inr p ↦ inr (ground (arith, b, c)) ],
      λ h. elim h [ inl p ↦ ground (arith, a) | inr p ↦ ground (arith, a, b, c) ],
    )

module _ (api : Api) where
  -- no two references name one object, and at most one is the controller's
  pub record IsWellOwned (o : Object) : Type 0 where
    pub apart : Apart api o.owner_references
    pub one_controller : controllers o.owner_references ≤ 1

  -- what `metav1.GetControllerOf` is documented to do
  pub record GetsController : Type 0 where
    pub first : (rs : List OwnerReference) → api.get_controller_of rs ≡ first_controller rs

  -- the object has the reference of its new controller
  pub record IsControlled (ref : OwnerReference) (before after : Object) : Type 0 where
    pub well_owned : IsWellOwned after
    pub controller : first_controller after.owner_references ≡ some ref
    pub placed : IsPlaced api ref before.owner_references after.owner_references
    pub rest_kept : after ≡ record before { owner_references = after.owner_references }
