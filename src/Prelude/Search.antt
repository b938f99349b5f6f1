-- ===== src/Prelude/Search.antt =====
-- Loops over a slice that return at the first hit, and membership by Go's `==`.
use mathlib.Core.Path.{◌≡◌, refl}
use mathlib.Core.Logic.{◌↔◌, ◌⊎◌, inl, inr}
use mathlib.Core.Bool.{Bool, true, false, not, ◌&&◌, ◌||◌}
use mathlib.Core.List.{List, [], ◌∷◌, ◌++◌}
use native.Mathlib.Omega.{arith}
use controller_runtime.Prelude.Tests.{if◌then◌else◌, Bool-cases}
use controller_runtime.Prelude.Equality.{Comparable, ◌==◌, beq_refl, beq-cases}

-- every element satisfies `P`
abbrev pub All {ℓ κ} : {A : Type ℓ} → (A → Type κ) → List A → Type κ
All P [] = Unit
All P (x ∷ xs) = P x × All P xs

-- some element satisfies `P`
abbrev pub Any {ℓ} : {A : Type ℓ} → (A → Type 0) → List A → Type 0
Any P [] = ⊥
Any P (x ∷ xs) = P x ⊎ Any P xs

module _ {ℓ} {A : Type ℓ} where
  -- `for x in xs { if p(x) { return true } } return false`
  abbrev pub any : (A → Bool) → List A → Bool
  any p [] = false
  any p (x ∷ xs) = let rest = any p xs in if p x then true else rest

  -- `for x in xs { if !p(x) { return false } } return true`
  abbrev pub all : (A → Bool) → List A → Bool
  all p [] = true
  all p (x ∷ xs) = let rest = all p xs in if not (p x) then false else rest

  -- the elements that fail `p`, in order
  abbrev pub keep : (A → Bool) → List A → List A
  keep p [] = []
  keep p (x ∷ xs) = let rest = keep p xs in if p x then x ∷ rest else rest

  pub all_iff : (p : A → Bool) (xs : List A) → (all p xs ≡ true) ↔ All (λ x. p x ≡ true) xs
  all_iff p [] = (λ h. tt, λ h. refl)
  all_iff p (x ∷ xs) = let ih = all_iff p xs in ground (arith, ih)

  pub any_iff : (p : A → Bool) (xs : List A) → (any p xs ≡ true) ↔ Any (λ x. p x ≡ true) xs
  any_iff p [] = (λ h. cc, λ h. absurd h)
  any_iff p (x ∷ xs) =
      let ih = any_iff p xs in
      (
        (λ h. elim (Bool-cases (p x)) [ inl e ↦ inl e | inr e ↦ inr (ih.0 (rw e at h)) ]),
        λ h. elim h [ inl e ↦ rw e | inr e ↦ ground (arith, ih.1 e) ],
      )

  pub all-append : (p : A → Bool) (xs ys : List A) → all p (xs ++ ys) ≡ (all p xs && all p ys)
  all-append p [] ys = refl
  all-append p (x ∷ xs) ys = ground (arith, all-append p xs ys)

  pub any-append : (p : A → Bool) (xs ys : List A) → any p (xs ++ ys) ≡ (any p xs || any p ys)
  any-append p [] ys = refl
  any-append p (x ∷ xs) ys = ground (arith, any-append p xs ys)

module _ {ℓ} {A : Type ℓ} ⦃e : Comparable A⦄ where
  -- `for y in xs { if y == x { return true } } return false`
  abbrev pub contains : A → List A → Bool
  contains x xs = any (λ y. y == x) xs

  pub contains-append :
      (x : A) (xs ys : List A) → contains x (xs ++ ys) ≡ (contains x xs || contains x ys)
  contains-append x xs ys = any-append (λ y. y == x) xs ys

  pub contains-keep_ne :
      (x y : A) (xs : List A)
      → contains x (keep (λ z. not (z == y)) xs) ≡ (if y == x then false else contains x xs)
  contains-keep_ne x y [] = ground arith
  contains-keep_ne x y (z ∷ xs) =
      ground (arith, contains-keep_ne x y xs, beq-cases z y, beq-cases z x, beq-cases y x)

module _ {ℓ} {A : Type ℓ} ⦃e : Comparable A⦄ where
  -- no element stands twice
  abbrev pub Distinct : List A → Type 0
  Distinct [] = Unit
  Distinct (x ∷ xs) = (contains x xs ≡ false) × Distinct xs

  pub Distinct-append :
      (xs ys : List A)
      → Distinct xs
      → Distinct ys
      → ((x : A) → contains x xs ≡ true → contains x ys ≡ false)
      → Distinct (xs ++ ys)
  Distinct-append [] ys dx dy h = dy
  Distinct-append (x ∷ xs) ys dx dy h = (
    rw contains-append (rw (dx.0, h x (rw (beq_refl x)))),
    Distinct-append xs ys dx.1 dy
        (λ z m. h z (elim (Bool-cases (x == z)) [ inl t ↦ rw t | inr f ↦ rw f m ])),
  )

module _ {ℓ} {A : Type ℓ} where
  pub Any-map : {P Q : A → Type 0} → ((x : A) → P x → Q x) → (xs : List A) → Any P xs → Any Q xs
  Any-map f [] h = h
  Any-map f (x ∷ xs) h = elim h [ inl p ↦ inl (f x p) | inr r ↦ inr (Any-map f xs r) ]

  pub All-map : {P Q : A → Type 0} → ((x : A) → P x → Q x) → (xs : List A) → All P xs → All Q xs
  All-map f [] h = tt
  All-map f (x ∷ xs) h = (f x h.0, All-map f xs h.1)
