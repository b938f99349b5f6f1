-- ===== src/Cache/Listing.antt =====
-- What `List` of pkg/cache/internal/cache_reader.go makes of the items of its indexer.
use mathlib.Core.Path.{ap₂}
use controller_runtime.Prelude.{
  ◌≡◌, refl, ap, sym, ◌∙◌, inl, inr, ℕ, ℤ, pos, negsuc, ◌-◌, ◌≤◌, string_eq, true, ◌&&◌, Option,
  List, [], ◌∷◌, if◌then◌else◌, suc, zero, map, keep, leb, length, arith,
}
use controller_runtime.Prelude.Lists.{take}
use controller_runtime.Prelude.Int.{ltb_ℤ, leb_ℤ, pos_part}
use controller_runtime.Prelude.Fallible.{ok, Fallible-cases}
use controller_runtime.Schema.{GroupVersionKind}
use controller_runtime.ClientOptions.{ListOptions}
use controller_runtime.Cache.{
  Labels, Stored, object, not_object, Machinery, CacheReader, is_selected, list_items, by_namespace,
  read_items,
}

-- the items from index `i` on that the limit leaves; a limit that is not positive leaves them all
abbrev pub limited {ℓ} : {A : Type ℓ} → ℤ → ℕ → List A → List A
limited limit i xs = if ltb_ℤ (pos 0) limit then take (pos_part limit - i) xs else xs

take-[] {ℓ} : {A : Type ℓ} (n : ℕ) → take {A = A} n [] ≡ []
take-[] zero = refl
take-[] (suc n) = refl

take-∷ {ℓ} :
    {A : Type ℓ} (n : ℕ) (x : A) (xs : List A)
    → take n (x ∷ xs) ≡ (if leb n 0 then [] else x ∷ take (n - 1) xs)
take-∷ zero x xs = ground arith
take-∷ (suc n) x xs = ground arith

take_left {ℓ} :
    {A : Type ℓ} (n i : ℕ) (x : A) (xs : List A)
    → take (n - i) (x ∷ xs) ≡ (if leb n i then [] else x ∷ take (n - suc i) xs)
take_left n i x xs =
    let next : n - i - 1 ≡ n - suc i = omega arith in
    let same : leb (n - i) 0 ≡ leb n i = ground arith in
    take-∷ (n - i) x xs ∙ ap₂ (λ b m. if b then [] else x ∷ take m xs) same next

limited-[] {ℓ} : {A : Type ℓ} (limit : ℤ) (i : ℕ) → limited {A = A} limit i [] ≡ []
limited-[] {A = A} limit i = ground (arith, take-[] {A = A} (pos_part limit - i))

limited-∷ {ℓ} :
    {A : Type ℓ} (limit : ℤ) (i : ℕ) (x : A) (xs : List A)
    → limited limit i (x ∷ xs)
      ≡ (if ltb_ℤ (pos 0) limit && leb_ℤ limit (pos i) then [] else x ∷ limited limit (suc i) xs)
limited-∷ (pos n) i x xs = ground (arith, take_left n i x xs)
limited-∷ (negsuc n) i x xs = ground arith

module _ {T L F Out Err : Type 0} (k : Machinery T L F Out Err) where
  pub list_items_lem :
      (labels : T → Labels)
      → ((t : T) → k.accessor t ≡ ok (labels t))
      → (gvk : GroupVersionKind) (limit : ℤ) (sel : Option L) (i : ℕ) (ts : List T)
      → list_items k gvk limit sel i (map object ts)
        ≡ ok (map (k.set_kind gvk) (keep (λ t. is_selected k sel (labels t)) (limited limit i ts)))
  unfolding list_items
  list_items_lem labels h gvk limit sel i [] =
      ap (λ r. ok (map (k.set_kind gvk) (keep (λ t. is_selected k sel (labels t)) r)))
        (sym (limited-[] limit i))
  list_items_lem labels h gvk limit sel i (t ∷ ts) =
      let ih = list_items_lem labels h gvk limit sel (suc i) ts in
      ground (arith, ih, h t, limited-∷ limit i t ts)

  pub length-list_items :
      (gvk : GroupVersionKind) (limit : ℤ) (sel : Option L) (i : ℕ) (items : List (Stored T))
      (ts : List T)
      → ltb_ℤ (pos 0) limit ≡ true
      → list_items k gvk limit sel i items ≡ ok ts
      → length ts ≤ pos_part limit - i
  unfolding list_items
  length-list_items gvk limit sel i [] ts l h = ground (arith, h)
  length-list_items gvk limit sel i (not_object ∷ items) ts l h = ground (arith, l, h)
  length-list_items gvk limit sel i (object t ∷ items) ts l h =
      elim (Fallible-cases (list_items k gvk limit sel (suc i) items)) [
        | inl (us, p) ↦
            let ih = length-list_items gvk limit sel (suc i) items us l p in
            elim (Fallible-cases (k.accessor t)) [
              | inl (lbls, q) ↦ ground (arith, l, h, p, q, ih)
              | inr (e, q) ↦ ground (arith, l, h, p, q)
            ]
        | inr (e, p) ↦ elim (Fallible-cases (k.accessor t)) [
          | inl (lbls, q) ↦ ground (arith, l, h, p, q)
          | inr (e', q) ↦ ground (arith, l, h, p, q)
        ]
      ]

  -- `List` after the query of the indexer. With a positive limit it reads no more than so many of the
  -- items, and of these it returns the ones that the label selector matches, in order, with the kind
  -- of the cache; an item beyond the limit is not looked at, also where fewer match. This holds where
  -- every item is an object whose metadata can be read.
  pub read_items_lem :
      {X : Type 0} (labels : T → Labels) (c : CacheReader T Err) (opts : ListOptions L F X)
      (ts : List T)
      → ((t : T) → k.accessor t ≡ ok (labels t))
      → by_namespace k c.indexer opts.namespace opts.field_selector ≡ ok (map object ts)
      → read_items k c opts
        ≡ ok (
            map
              (k.set_kind c.gvk)
              (keep (λ t. is_selected k opts.label_selector (labels t)) (limited opts.limit 0 ts)))
  unfolding read_items
  read_items_lem labels c opts ts h q =
      rw (q, read_items) (list_items_lem labels h c.gvk opts.limit opts.label_selector 0 ts)

  pub length-read_items :
      {X : Type 0} (c : CacheReader T Err) (opts : ListOptions L F X) (ts : List T)
      → ltb_ℤ (pos 0) opts.limit ≡ true
      → read_items k c opts ≡ ok ts
      → length ts ≤ pos_part opts.limit
  unfolding read_items
  length-read_items c opts ts l h =
      elim (Fallible-cases (by_namespace k c.indexer opts.namespace opts.field_selector))
        as (λ x. length ts ≤ pos_part opts.limit) [
          | inr (e, p) ↦ ground (arith, h, p)
          | inl (objs, p) ↦
              let bound =
                length-list_items c.gvk opts.limit opts.label_selector 0 objs ts l
                  (ground (arith, p, h)) in
              omega (arith, bound)
        ]
