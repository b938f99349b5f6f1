-- ===== src/Arguments/Sorting.antt =====
-- How `SliceToArguments` of pkg/internal/testing/process/arguments.go sorts a command line.

use mathlib.Core.Path.{subst}
use controller_runtime.Prelude.{
  ◌≢◌, ap, sym, if◌then◌else◌, String, ◌≡◌, ◌∙◌, refl, inl, inr, ◌==◌, string_eq, nat_eq_class,
  Option, none, some, List, [], ◌∷◌, ◌++◌, arith, beq-cases, Bool-cases, Option-cases,
}
use mathlib.Core.List.{append_assoc, append-nil}
use controller_runtime.Arguments.{
  Arg, user_arg, append_to, or_else, find, Arguments, append_no_defaults, perform,
}
use controller_runtime.Arguments.Rendering.{find-put}
use controller_runtime.Arguments.Slicing.{parse_flag, slice_to_arguments}
use controller_runtime.Arguments.Flags.{IsFlag, parse_flag_iff}

-- the given arguments up to `--`, and those from it on
abbrev pub before_dashes : List String → List String
before_dashes [] = []
before_dashes (arg ∷ more) = let rest = before_dashes more in if arg == "--" then [] else arg ∷ rest

abbrev pub from_dashes : List String → List String
from_dashes [] = []
from_dashes (arg ∷ more) = let rest = from_dashes more in if arg == "--" then arg ∷ more else rest

-- the arguments that are no flags with a value
abbrev pub no_flags : List String → List String
no_flags [] = []
no_flags (arg ∷ more) =
    let rest = no_flags more in elim (parse_flag arg) [ none ↦ arg ∷ rest | some f ↦ rest ]

-- the values that are given for a flag
abbrev pub given : String → List String → List String
given key [] = []
given key (arg ∷ more) =
    let rest = given key more in
    elim (parse_flag arg) [
      | none ↦ rest
      | some (name, val) ↦ if name == key then val ∷ rest else rest
    ]

-- the setting of a flag that has been given these values
abbrev pub given_arg : List String → Option Arg
given_arg [] = none
given_arg (v ∷ vs) = some (user_arg (some (v ∷ vs)))

append_given :
    (vs : List String) (val : String)
    → some (append_to (or_else (user_arg (some [])) (given_arg vs)) (some (val ∷ [])))
      ≡ given_arg (vs ++ val ∷ [])
unfolding append_to
append_given [] val = refl
append_given (v ∷ vs) val = refl

-- the values, with one more for a flag
abbrev with_value : String → String → (String → List String) → String → List String
with_value name val before key = before key ++ (if name == key then val ∷ [] else [])

find-perform :
    (args : Arguments) (before : String → List String) (name val : String)
    → ((key : String) → find key args ≡ given_arg (before key))
    → (key : String)
    → find key (perform (append_no_defaults (some (val ∷ []))) name args)
      ≡ given_arg (with_value name val before key)
unfolding perform
find-perform args before name val h key =
    let arg = append_to (or_else (user_arg (some [])) (find name args)) (some (val ∷ [])) in
    let added : some arg ≡ given_arg (before name ++ val ∷ []) =
      rw (h name) (append_given (before name) val) in
    find-put name key arg args ∙ elim (beq-cases name key) [
      | inl same ↦ rw (same.0) (added ∙ rw same.1)
      | inr differ ↦ rw (differ.0, append-nil (before key)) (h key)
    ]

slice_given :
    (slice : List String) (args : Arguments) (before : String → List String)
    → ((key : String) → find key args ≡ given_arg (before key))
    → (key : String)
    → find key (slice_to_arguments slice args).1
      ≡ given_arg (before key ++ given key (before_dashes slice))
unfolding slice_to_arguments
slice_given [] args before h key = rw (append-nil (before key)) (h key)
slice_given (arg ∷ more) args before h key = elim (Bool-cases (arg == "--")) [
  | inl dashes ↦ ground (arith, append-nil (before key), h key)
  | inr other ↦ elim (Option-cases (parse_flag arg)) [
    | inl p ↦ ground (arith, slice_given more args before h key)
    | inr ((name, val), p) ↦
        let args' = perform (append_no_defaults (some (val ∷ []))) name args in
        let ih =
          slice_given more args' (with_value name val before) (find-perform args before name val h)
            key in
        ground (
          arith,
          ih,
          beq-cases name key,
          append_assoc (before key) (val ∷ []) (given key (before_dashes more)),
          append-nil (before key),
        )
  ]
]

slice_rest :
    (slice : List String) (args : Arguments)
    → (slice_to_arguments slice args).0 ≡ no_flags (before_dashes slice) ++ from_dashes slice
unfolding slice_to_arguments
slice_rest [] args = refl
slice_rest (arg ∷ more) args = elim (Bool-cases (arg == "--")) [
  | inl dashes ↦ ground arith
  | inr other ↦ elim (Option-cases (parse_flag arg)) [
    | inl p ↦ ground (arith, slice_rest more args)
    | inr ((name, val), p) ↦
        ground (arith, slice_rest more (perform (append_no_defaults (some (val ∷ []))) name args))
  ]
]

-- How a command line is sorted: the rest, and the flags with a value before `--`, in order.
pub data Sorts : List String → List String → List (String × String) → Type 0 where
  no_more : Sorts [] [] []
  dashes : {more : List String} → Sorts ("--" ∷ more) ("--" ∷ more) []
  flag :
      {arg name val : String} {more rest : List String} {fs : List (String × String)}
      → IsFlag arg name val
      → Sorts more rest fs
      → Sorts (arg ∷ more) rest ((name, val) ∷ fs)
  other :
      {arg : String} {more rest : List String} {fs : List (String × String)}
      → arg ≢ "--"
      → ((name val : String) → ¬ IsFlag arg name val)
      → Sorts more rest fs
      → Sorts (arg ∷ more) (arg ∷ rest) fs

-- the values of one flag
abbrev pub values_for : String → List (String × String) → List String
values_for key [] = []
values_for key ((name, val) ∷ fs) =
    let rest = values_for key fs in if name == key then val ∷ rest else rest

abbrev flags_of : List String → List (String × String)
flags_of [] = []
flags_of (arg ∷ more) =
    let rest = flags_of more in
    if arg == "--" then [] else elim (parse_flag arg) [ none ↦ rest | some f ↦ f ∷ rest ]

sorted_as :
    (slice rest rest' : List String) (fs fs' : List (String × String))
    → rest' ≡ rest
    → fs' ≡ fs
    → Sorts slice rest fs
    → Sorts slice rest' fs'
sorted_as slice rest rest' fs fs' r f h =
    subst (λ x. Sorts slice x fs') (sym r) (subst (Sorts slice rest) (sym f) h)

slice-Sorts :
    (slice : List String)
    → Sorts slice (no_flags (before_dashes slice) ++ from_dashes slice) (flags_of slice)
slice-Sorts [] = no_more
slice-Sorts (arg ∷ more) = elim (beq-cases arg "--") [
  | inl (e, same) ↦ rw (e, same) dashes
  | inr (e, differ) ↦
      let rest = no_flags (before_dashes more) ++ from_dashes more in
      elim (Option-cases (parse_flag arg)) [
        | inl p ↦
            let plain : (name val : String) → ¬ IsFlag arg name val =
              λ name val h. let q = (parse_flag_iff arg name val).1 h in cc in
            sorted_as (arg ∷ more) (arg ∷ rest) _ (flags_of more) _ (ground (arith, e, p))
              (ground (arith, e, p)) (other differ plain (slice-Sorts more))
        | inr ((name, val), p) ↦
            sorted_as (arg ∷ more) rest _ ((name, val) ∷ flags_of more) _ (ground (arith, e, p))
              (ground (arith, e, p)) (flag ((parse_flag_iff arg name val).0 p) (slice-Sorts more))
      ]
]

values_for-flags_of :
    (key : String) (slice : List String)
    → given key (before_dashes slice) ≡ values_for key (flags_of slice)
values_for-flags_of key [] = refl
values_for-flags_of key (arg ∷ more) = elim (Bool-cases (arg == "--")) [
  | inl e ↦ rw e refl
  | inr e ↦ elim (Option-cases (parse_flag arg)) [
    | inl p ↦ ground (arith, e, p, values_for-flags_of key more)
    | inr (f, p) ↦ ground (arith, e, p, values_for-flags_of key more)
  ]
]

-- Sorted into empty arguments, the given ones are not lost: each argument `--name=val` before the first
-- `--`, with the first `=` behind the name, is a value of its flag, the values of one flag in the order
-- given, and no flag gets another; and all else, with everything from `--` on, is returned, in order.
pub slice_to_arguments_lem :
    (slice : List String)
    → (fs : List (String × String)) × Sorts slice (slice_to_arguments slice []).0 fs
      × ((key : String) → find key (slice_to_arguments slice []).1 ≡ given_arg (values_for key fs))
slice_to_arguments_lem slice = (
  flags_of slice,
  subst (λ r. Sorts slice r (flags_of slice)) (sym (slice_rest slice [])) (slice-Sorts slice),
  λ key.
      slice_given slice [] (λ k. []) (λ k. refl) key ∙ ap given_arg (values_for-flags_of key slice),
)
