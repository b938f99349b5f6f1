-- ===== src/Arguments.antt =====
-- pkg/internal/testing/process/arguments.go: the structured arguments of a process. A slice may be
-- nil, which is not the same as empty here: `none`. A map is the list of its entries; `sort.Strings`
-- is a parameter. Templates are left out.
pub mod Rendering
pub mod Slicing
pub mod Flags
pub mod Sorting
mod Examples
use Prim.Native.String.{◌++◌ as text_append}
use controller_runtime.Prelude.{
  String, Bool, true, false, not, ◌==◌, string_eq, Option, none, some, List, [], ◌∷◌, ◌++◌, map,
  contains, keep, if◌then◌else◌,
}

abbrev pub Slice : Type 0
Slice = Option (List String)

-- Go's `append(s, vals...)`: nil stays nil where nothing is appended
abbrev pub extend : Slice → List String → Slice
extend none [] = none
extend none (v ∷ vs) = some (v ∷ vs)
extend (some xs) vs = some (xs ++ vs)

-- `vals...` of a slice
abbrev pub elements : Slice → List String
elements none = []
elements (some xs) = xs

-- the implementations of the interface `Arg`
pub data Arg : Type 0 where
  user_arg defaulted_arg : Slice → Arg
  dont_pass pass_as_name : Arg
  func_arg : (Slice → Slice) → Arg

-- `Arg.Append`
unfoldable pub append_to : Arg → Slice → Arg
append_to (user_arg a) vals = user_arg (extend a (elements vals))
append_to (defaulted_arg a) vals = defaulted_arg (extend a (elements vals))
append_to dont_pass vals = user_arg vals
append_to pass_as_name vals = pass_as_name
append_to (func_arg f) vals = func_arg f

-- `Arg.Get`
unfoldable pub values_of : Arg → Slice → Slice
values_of (user_arg a) defaults = a
values_of (defaulted_arg a) defaults = extend (extend none (elements defaults)) (elements a)
values_of dont_pass defaults = none
values_of pass_as_name defaults = some []
values_of (func_arg f) defaults = f defaults

-- a map with texts as keys
abbrev pub find : {A : Type 0} → String → List (String × A) → Option A
find key [] = none
find key ((k, a) ∷ m) = if k == key then some a else find key m

-- `m[key] = a`
abbrev pub put : {A : Type 0} → String → A → List (String × A) → List (String × A)
put key a [] = (key, a) ∷ []
put key a ((k, b) ∷ m) = let rest = put key a m in if k == key then (k, a) ∷ m else (k, b) ∷ rest

abbrev pub keys_of : {A : Type 0} → List (String × A) → List String
keys_of [] = []
keys_of ((k, a) ∷ m) = k ∷ keys_of m

-- the `values` of `Arguments`
abbrev pub Arguments : Type 0
Arguments = List (String × Arg)

abbrev pub or_else : Arg → Option Arg → Arg
or_else a none = a
or_else a (some b) = b

unfoldable pub get : Arguments → String → Arg
get a key = or_else (defaulted_arg none) (find key a)

-- the operations that set a flag; `append` and its like start from an empty slice, which is not nil
pub data Operation : Type 0 where
  enable disable : Operation
  append append_no_defaults set : Slice → Operation
  set_raw : Arg → Operation

unfoldable pub perform : Operation → String → Arguments → Arguments
unfolding append_to
perform enable key a = put key pass_as_name a
perform disable key a = put key dont_pass a
perform (append vals) key a =
    put key (append_to (or_else (defaulted_arg (some [])) (find key a)) vals) a
perform (append_no_defaults vals) key a =
    put key (append_to (or_else (user_arg (some [])) (find key a)) vals) a
perform (set vals) key a = put key (user_arg vals) a
perform (set_raw arg) key a = put key arg a

abbrev pub default_of : String → List (String × Slice) → Slice
default_of key defaults = elim (find key defaults) [ none ↦ none | some s ↦ s ]

abbrev pub flag : String → String
flag key = text_append "--" key

abbrev pub flag_with : String → String → String
flag_with key val = text_append (flag key) (text_append "=" val)

-- the `switch` on the values of a flag
unfoldable pub render : String → Slice → List String
render key none = []
render key (some []) = flag key ∷ []
render key (some (v ∷ vs)) = map (flag_with key) (v ∷ vs)

module _ (sort_strings : List String → List String) where
  -- the keys of the defaults that are not set, and those that are set
  abbrev pub keys_in_order : Arguments → List (String × Slice) → List String
  keys_in_order a defaults =
      sort_strings (keep (λ key. not (contains key (keys_of a))) (keys_of defaults) ++ keys_of a)

  unfoldable pub render_all : Arguments → List (String × Slice) → List String → List String
  unfolding get values_of render
  render_all a defaults [] = []
  render_all a defaults (key ∷ rest) =
      render key (values_of (get a key) (default_of key defaults)) ++ render_all a defaults rest

  unfoldable pub as_strings : Arguments → List (String × Slice) → List String
  unfolding render_all
  as_strings a defaults = render_all a defaults (keys_in_order a defaults)
