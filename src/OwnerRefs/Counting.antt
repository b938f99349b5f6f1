-- ===== src/OwnerRefs/Counting.antt =====
-- The controllers among the references that `upsertOwnerRef` of
-- pkg/controller/controllerutil/controllerutil.go leaves.
use controller_runtime.Prelude.{
  ◌≤◌, ◌≡◌, refl, inl, inr, true, false, string_eq, none, some, List, [], ◌∷◌, any, arith,
  Bool-cases,
}
use controller_runtime.Object.{OwnerReference}
use controller_runtime.OwnerRefs.{Api, refer_same_object}
use controller_runtime.OwnerRefs.Upsert.{
  is_controller, controllers, first_controller, upsert, Apart, refer_same-congr, refer_same-sym,
}

controllers-none : (rs : List OwnerReference) → first_controller rs ≡ none → controllers rs ≡ 0
controllers-none [] h = refl
controllers-none (r ∷ rs) h = ground (arith, controllers-none rs)

module _ (api : Api) where
  any-first :
      (a c : OwnerReference) (rs : List OwnerReference)
      → first_controller rs ≡ some c
      → refer_same_object api a c ≡ true
      → any (λ s. refer_same_object api a s) rs ≡ true
  any-first a c [] h e = cc
  any-first a c (r ∷ rs) h e = ground (arith, any-first a c rs)

  -- the controller's reference, put in where there was none or its own
  pub controllers-upsert_new :
      (ref : OwnerReference) (rs : List OwnerReference)
      → is_controller ref ≡ true
      → first_controller rs ≡ none
      → (first_controller (upsert api ref rs) ≡ some ref) × (controllers (upsert api ref rs) ≡ 1)
  controllers-upsert_new ref [] c h = ground arith
  controllers-upsert_new ref (r ∷ rs) c h =
      ground (arith, controllers-upsert_new ref rs c, controllers-none rs)

  pub controllers-upsert_own :
      (ref own : OwnerReference) (rs : List OwnerReference)
      → is_controller ref ≡ true
      → first_controller rs ≡ some own
      → refer_same_object api own ref ≡ true
      → Apart api rs
      → controllers rs ≤ 1
      → (first_controller (upsert api ref rs) ≡ some ref) × (controllers (upsert api ref rs) ≡ 1)
  controllers-upsert_own ref own [] c h same d n = cc
  controllers-upsert_own ref own (r ∷ rs) c h same d n = elim (Bool-cases (is_controller r)) [
    | inl first ↦
        let its : r ≡ own = ground arith in
        let hit : refer_same_object api r ref ≡ true = rw its same in ground (arith, hit)
    | inr later ↦
        let own_later : first_controller rs ≡ some own = ground arith in
        let miss : refer_same_object api r ref ≡ false = ground (
          arith,
          refer_same-congr api r ref own,
          refer_same-sym api own ref,
          any-first r own rs own_later,
          d.0,
        ) in
        ground (arith, miss, controllers-upsert_own ref own rs c own_later same d.1)
  ]

  pub controllers-upsert_plain :
      (ref : OwnerReference) (rs : List OwnerReference)
      → is_controller ref ≡ false
      → controllers (upsert api ref rs) ≤ controllers rs
  controllers-upsert_plain ref [] c = ground arith
  controllers-upsert_plain ref (r ∷ rs) c = ground (arith, controllers-upsert_plain ref rs c)
