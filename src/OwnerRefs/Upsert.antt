-- ===== src/OwnerRefs/Upsert.antt =====
-- How `upsertOwnerRef` of pkg/controller/controllerutil/controllerutil.go changes the references.
use controller_runtime.Prelude.{
  ℕ, suc, ◌≡◌, ◌∙◌, ◌⊎◌, refl, inl, inr, Bool, true, false, string_eq, Option, none, some, List, [],
  ◌∷◌, ◌++◌, if◌then◌else◌, any, arith, beq-cases, Bool-cases, beq_sym,
}
use controller_runtime.Prelude.Lists.{set}
use controller_runtime.Object.{Object, OwnerReference}
use controller_runtime.Schema.{GroupVersion}
use controller_runtime.OwnerRefs.{
  Api, same_parsed, refer_same_object, index_owner_ref, upsert_owner_ref,
}

-- the reference is a controller's
abbrev pub is_controller : OwnerReference → Bool
is_controller r = elim r.controller [ none ↦ false | some b ↦ b ]

abbrev pub controllers : List OwnerReference → ℕ
controllers [] = 0
controllers (r ∷ rs) = let rest = controllers rs in if is_controller r then suc rest else rest

-- what `metav1.GetControllerOf` is documented to give: the reference of the controller, the first one
abbrev pub first_controller : List OwnerReference → Option OwnerReference
first_controller [] = none
first_controller (r ∷ rs) =
    let rest = first_controller rs in if is_controller r then some r else rest

module _ (api : Api) where
  -- the same by recursion on the references
  abbrev pub upsert : OwnerReference → List OwnerReference → List OwnerReference
  upsert ref [] = ref ∷ []
  upsert ref (r ∷ rs) =
      let rest = upsert ref rs in if refer_same_object api r ref then ref ∷ rs else r ∷ rest

  -- no two references name one object
  abbrev pub Apart : List OwnerReference → Type 0
  Apart [] = Unit
  Apart (r ∷ rs) = (any (λ s. refer_same_object api r s) rs ≡ false) × Apart rs

  abbrev place : List OwnerReference → OwnerReference → Option ℕ → List OwnerReference
  place rs ref none = rs ++ ref ∷ []
  place rs ref (some idx) = set rs idx ref

  place-upsert :
      (ref : OwnerReference) (rs : List OwnerReference)
      → place rs ref (index_owner_ref api rs ref) ≡ upsert ref rs
  unfolding index_owner_ref
  place-upsert ref [] = refl
  place-upsert ref (r ∷ rs) = ground (arith, place-upsert ref rs)

  pub upsert_owner_ref_lem :
      (ref : OwnerReference) (o : Object)
      → upsert_owner_ref api ref o ≡ record o { owner_references = upsert ref o.owner_references }
  unfolding upsert_owner_ref
  upsert_owner_ref_lem ref o = ground (arith, place-upsert ref o.owner_references)

  -- references that name one object are told apart from others alike
  pub refer_same-congr :
      (a b c : OwnerReference)
      → refer_same_object api a b ≡ true
      → (refer_same_object api b c ≡ refer_same_object api a c)
        × (refer_same_object api c a ≡ refer_same_object api c b)
  unfolding refer_same_object
  refer_same-congr a b c h =
      by_parse (api.parse_group_version a.api_version) (api.parse_group_version b.api_version)
        (api.parse_group_version c.api_version) h
    where
      by_parse :
          (x y z : Option GroupVersion)
          → same_parsed api x y a b ≡ true
          → (same_parsed api y z b c ≡ same_parsed api x z a c)
            × (same_parsed api z x c a ≡ same_parsed api z y c b)
      by_parse none y z e = cc
      by_parse (some x) none z e = cc
      by_parse (some x) (some y) none e = (refl, refl)
      by_parse (some x) (some y) (some z) e =
          ground
            (arith, beq-cases x.group y.group, beq-cases a.kind b.kind, beq-cases a.name b.name)

  pub refer_same-sym :
      (a b : OwnerReference) → refer_same_object api a b ≡ refer_same_object api b a
  unfolding refer_same_object
  refer_same-sym a b =
      by_parse (api.parse_group_version a.api_version) (api.parse_group_version b.api_version)
    where
      by_parse : (x y : Option GroupVersion) → same_parsed api x y a b ≡ same_parsed api y x b a
      by_parse none none = refl
      by_parse none (some y) = refl
      by_parse (some x) none = refl
      by_parse (some x) (some y) =
          ground (arith, beq_sym x.group y.group, beq_sym a.kind b.kind, beq_sym a.name b.name)

  any-congr :
      (a b : OwnerReference) (rs : List OwnerReference)
      → refer_same_object api a b ≡ true
      → any (λ s. refer_same_object api b s) rs ≡ any (λ s. refer_same_object api a s) rs
  any-congr a b [] h = refl
  any-congr a b (c ∷ rs) h = ground (arith, refer_same-congr a b c h, any-congr a b rs h)

  -- an upsert adds no object but that of the reference
  any-upsert :
      (a ref : OwnerReference) (rs : List OwnerReference)
      → refer_same_object api a ref ≡ false
      → any (λ s. refer_same_object api a s) (upsert ref rs)
        ≡ any (λ s. refer_same_object api a s) rs
  any-upsert a ref [] h = rw h
  any-upsert a ref (r ∷ rs) h = ground (arith, any-upsert a ref rs h, refer_same-congr r ref a)

  pub Apart-upsert :
      (ref : OwnerReference) (rs : List OwnerReference) → Apart rs → Apart (upsert ref rs)
  Apart-upsert ref [] h = (refl, tt)
  Apart-upsert ref (r ∷ rs) h = elim (Bool-cases (refer_same_object api r ref)) [
    | inl same ↦ rw (same, upsert) (any-congr r ref rs same ∙ h.0, h.1)
    | inr other ↦ rw (other, upsert) (any-upsert r ref rs other ∙ h.0, Apart-upsert ref rs h.1)
  ]

  pub upsert_twice :
      (ref : OwnerReference) (rs : List OwnerReference)
      → refer_same_object api ref ref ≡ true
      → upsert ref (upsert ref rs) ≡ upsert ref rs
  upsert_twice ref [] h = rw h
  upsert_twice ref (r ∷ rs) h = ground (arith, upsert_twice ref rs h)

  -- the reference takes the place of the first one that names its object, or stands behind all others
  abbrev pub IsPlaced : OwnerReference → List OwnerReference → List OwnerReference → Type 0
  IsPlaced ref before after =
      (any (λ r. refer_same_object api r ref) before ≡ false) × (after ≡ before ++ ref ∷ [])
      ⊎ ((front : List OwnerReference) × (old : OwnerReference) × (back : List OwnerReference)
          × (any (λ r. refer_same_object api r ref) front ≡ false)
          × (refer_same_object api old ref ≡ true)
          × (before ≡ front ++ old ∷ back)
          × (after ≡ front ++ ref ∷ back))

  pub upsert-IsPlaced :
      (ref : OwnerReference) (rs : List OwnerReference) → IsPlaced ref rs (upsert ref rs)
  upsert-IsPlaced ref [] = inl (refl, refl)
  upsert-IsPlaced ref (r ∷ rs) = elim (Bool-cases (refer_same_object api r ref)) [
    | inl same ↦ inr ([], r, rs, refl, same, refl, rw same)
    | inr other ↦ elim (upsert-IsPlaced ref rs) [
      | inl (none_same, p) ↦ inl (rw other none_same, rw (other, p))
      | inr (front, old, back, f, same, p, q) ↦
          inr (r ∷ front, old, back, rw other f, same, rw p, rw (other, q))
    ]
  ]
