-- ===== src/ClientOptions/Overrides.antt =====
-- Structs of pkg/client/options.go that are applied to each other.
use controller_runtime.Prelude.{
  ℤ, pos, ltb_ℤ, leb_ℤ, String, ◌==◌, string_eq, ◌≡◌, refl, ap, sym, ◌∙◌, inl, inr, true, Option,
  none, some, negsuc, List, [], ◌∷◌, All, Bool-cases, beq-cases, arith,
}
use controller_runtime.ClientOptions.{
  over_pointer, over_string, over_limit, no_write_options, apply_to_write, no_patch_options,
  apply_to_patch, no_delete_options, apply_to_delete, Selectors, no_list_options, apply_to_list,
  apply_options,
}

-- Structs that are applied to each other: the empty one changes nothing, and to apply two one after
-- the other is to apply one.
pub record IsOverride {O : Type 0} (over : O → O → O) (empty : O) : Type 0 where
  pub empty_over : (o : O) → over empty o ≡ o
  pub over_over : (a b c : O) → over a (over b c) ≡ over (over a b) c

-- an option that does what a struct does
abbrev pub IsStruct : {A O : Type 0} → (O → O → O) → (A → O → O) → A → Type 0
IsStruct {O = O} over apply a = (s : O) × ((o : O) → apply a o ≡ over s o)

module _ {A O : Type 0} {over : O → O → O} {empty : O} (law : IsOverride over empty)
    (apply : A → O → O) where
  collected :
      (opts : List A)
      → All (IsStruct over apply) opts
      → (s : O) × ((o : O) → apply_options apply opts o ≡ over s o)
  collected [] h = (empty, λ o. sym (law.empty_over o))
  collected (a ∷ opts) h =
      let (s, e) = h.0 in
      let (t, f) = collected opts h.1 in
      (over t s, λ o. f (apply a o) ∙ ap (over t) (e o) ∙ law.over_over t s o)

  pub apply_options-over :
      (opts : List A)
      → All (IsStruct over apply) opts
      → (o : O) → apply_options apply opts o ≡ over (apply_options apply opts empty) o
  apply_options-over opts h o =
      let (s, e) = collected opts h in
      e o
      ∙ ap (over s) (sym (law.empty_over o))
      ∙ law.over_over s empty o
      ∙ ap (λ x. over x o) (sym (e empty))

pub over_pointer-over :
    {A : Type 0} (a b c : Option A)
    → over_pointer a (over_pointer b c) ≡ over_pointer (over_pointer a b) c
over_pointer-over none b c = refl
over_pointer-over (some a) b c = refl

pub over_string-over :
    (a b c : String) → over_string a (over_string b c) ≡ over_string (over_string a b) c
over_string-over a b c = ground (arith, Bool-cases (a == ""))

pub over_limit-over : (a b c : ℤ) → over_limit a (over_limit b c) ≡ over_limit (over_limit a b) c
over_limit-over a b c = elim (Bool-cases (ltb_ℤ (pos 0) a)) [ inl e ↦ rw (e, e) | inr e ↦ rw e ]

pub over_pointer-none : {A : Type 0} (a : Option A) → over_pointer a none ≡ a
over_pointer-none none = refl
over_pointer-none (some a) = refl

pub over_string-empty : (s : String) → over_string s "" ≡ s
over_string-empty s = ground (arith, beq-cases s "")

pub over_limit-zero : (l : ℤ) → leb_ℤ (pos 0) l ≡ true → over_limit l (pos 0) ≡ l
over_limit-zero (pos n) h = ground arith
over_limit-zero (negsuc n) h = ground arith

pub All-each : {A : Type 0} {P : A → Type 0} → ((a : A) → P a) → (xs : List A) → All P xs
All-each f [] = tt
All-each f (x ∷ xs) = (f x, All-each f xs)

pub write-IsOverride : {X : Type 0} → IsOverride (apply_to_write {X = X}) no_write_options
unfolding apply_to_write
write-IsOverride = record {
  empty_over = λ o. refl;
  over_over = λ a b c. simp (over_pointer-over, over_string-over);
}

pub patch-IsOverride : {X : Type 0} → IsOverride (apply_to_patch {X = X}) no_patch_options
unfolding apply_to_patch
patch-IsOverride = record {
  empty_over = λ o. refl;
  over_over = λ a b c. simp (over_pointer-over, over_string-over);
}

pub delete-IsOverride :
    {P Q X : Type 0} → IsOverride (apply_to_delete {P = P} {Q = Q} {X = X}) no_delete_options
unfolding apply_to_delete
delete-IsOverride = record { empty_over = λ o. refl; over_over = λ a b c. simp (over_pointer-over) }

pub list-IsOverride :
    {L F R X : Type 0} (k : Selectors L F R)
    → IsOverride (apply_to_list k {X = X}) (no_list_options k)
unfolding apply_to_list
list-IsOverride k = record {
  empty_over = λ o. refl;
  over_over = λ a b c. simp (over_pointer-over, over_string-over, over_limit-over);
}
