-- ===== src/OwnerRefs/Idempotent.antt =====
-- Setting one owner twice: `SetOwnerReference` of pkg/controller/controllerutil/controllerutil.go.
use controller_runtime.Prelude.{◌≡◌, ◌∙◌, refl, ap, inr, true, string_eq, none, List}
use controller_runtime.Object.{Object, OwnerReference}
use controller_runtime.Schema.{GroupVersionKind}
use controller_runtime.OwnerRefs.{
  Api, Owner, refer_same_object, set_owner_reference, checked_kind, owner_ref,
}
use controller_runtime.OwnerRefs.Upsert.{upsert, upsert_owner_ref_lem, upsert_twice}

module _ (api : Api) {Err : Type 0} where
  -- the checks do not read the references
  checked_kind-refs :
      (owner : Owner Err) (o : Object) (rs : List OwnerReference)
      → checked_kind owner (record o { owner_references = rs }) ≡ checked_kind owner o
  unfolding checked_kind
  checked_kind-refs owner o rs = refl

  once_lem :
      (owner : Owner Err) (o : Object) (gvk : GroupVersionKind)
      → checked_kind owner o ≡ inr gvk
      → set_owner_reference api owner o ≡ (
        none,
        record o {
          owner_references = upsert api (owner_ref api owner.object gvk) o.owner_references;
        },
      )
  unfolding set_owner_reference
  once_lem owner o gvk k =
      rw (k, set_owner_reference, upsert_owner_ref_lem api (owner_ref api owner.object gvk) o)

  -- Setting the same owner again changes nothing and returns nil, for `SetOwnerReference` of an
  -- owner that passes the checks (it is a runtime object, in scope, and has one kind) on any
  -- object, provided that the version which the reference is given parses.
  pub set_owner_reference-twice :
      (owner : Owner Err) (o : Object) (gvk : GroupVersionKind)
      → checked_kind owner o ≡ inr gvk
      → refer_same_object api (owner_ref api owner.object gvk) (owner_ref api owner.object gvk)
        ≡ true
      → let once = (set_owner_reference api owner o).1 in
        set_owner_reference api owner once ≡ (none, once)
  unfolding set_owner_reference
  set_owner_reference-twice owner o gvk k parses =
      let ref = owner_ref api owner.object gvk in
      let o' = record o { owner_references = upsert api ref o.owner_references } in
      rw (once_lem owner o gvk k) (
        once_lem owner o' gvk (checked_kind-refs owner o (upsert api ref o.owner_references) ∙ k)
        ∙ ap (λ rs. (none, record o { owner_references = rs }))
            (upsert_twice api ref o.owner_references parses))
