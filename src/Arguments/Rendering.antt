-- ===== src/Arguments/Rendering.antt =====
-- What the operations of pkg/internal/testing/process/arguments.go make of a flag, and what
-- `AsStrings` renders.
use Prim.Native.String.{◌++◌ as text_append}
use controller_runtime.Prelude.{
  String, ◌≡◌, refl, ◌==◌, string_eq, Option, none, some, List, [], ◌∷◌, ◌++◌, arith, beq-cases,
  if◌then◌else◌,
}
use controller_runtime.Arguments.{
  Slice, extend, elements, Arg, user_arg, defaulted_arg, dont_pass, pass_as_name, func_arg,
  append_to, values_of, find, put, Arguments, get, Operation, enable, disable, append,
  append_no_defaults, set, set_raw, perform, or_else,
}

pub find-put :
    {A : Type 0} (key j : String) (a : A) (m : List (String × A))
    → find j (put key a m) ≡ (if key == j then some a else find j m)
find-put key j a [] = refl
find-put key j a ((k, b) ∷ m) =
    ground (arith, find-put key j a m, beq-cases k key, beq-cases k j, beq-cases key j)

-- what is appended to: nothing yet, a flag's values, or a flag that is not passed, has no value, or
-- computes its values
abbrev pub appended : Slice → Option Arg → Slice → Slice → Slice
appended fresh none vals defaults = extend fresh (elements vals)
appended fresh (some (user_arg u)) vals defaults = extend u (elements vals)
appended fresh (some (defaulted_arg u)) vals defaults =
    extend (extend none (elements defaults)) (elements (extend u (elements vals)))
appended fresh (some dont_pass) vals defaults = vals
appended fresh (some pass_as_name) vals defaults = some []
appended fresh (some (func_arg f)) vals defaults = f defaults

-- the values that an operation leaves its flag with, by the flag's setting before and its defaults
abbrev pub left_with : Operation → Option Arg → Slice → Slice
left_with enable old defaults = some []
left_with disable old defaults = none
left_with (set vals) old defaults = vals
left_with (set_raw arg) old defaults = values_of arg defaults
left_with (append vals) old defaults = appended (extend none (elements defaults)) old vals defaults
left_with (append_no_defaults vals) old defaults = appended (some []) old vals defaults

appended_lem :
    (old : Option Arg) (vals defaults : Slice)
    → (values_of (append_to (or_else (defaulted_arg (some [])) old) vals) defaults
        ≡ appended (extend none (elements defaults)) old vals defaults)
      × (values_of (append_to (or_else (user_arg (some [])) old) vals) defaults
          ≡ appended (some []) old vals defaults)
unfolding values_of append_to
appended_lem none vals defaults = (refl, refl)
appended_lem (some (user_arg u)) vals defaults = (refl, refl)
appended_lem (some (defaulted_arg u)) vals defaults = (refl, refl)
appended_lem (some dont_pass) vals defaults = (refl, refl)
appended_lem (some pass_as_name) vals defaults = (refl, refl)
appended_lem (some (func_arg f)) vals defaults = (refl, refl)

-- An operation on a flag leaves the values of every other flag as they are, and its own flag with the
-- values that are documented: none passed after `Disable`, the name alone after `Enable`, the given
-- ones after `Set` and `SetRaw`; `Append` and `AppendNoDefaults` put the given values behind the
-- flag's own, or, if it was not set, behind its defaults or behind none.
pub perform_lem :
    (o : Operation) (key j : String) (a : Arguments) (defaults : Slice)
    → values_of (get (perform o key a) j) defaults
      ≡ (if key == j then left_with o (find key a) defaults else values_of (get a j) defaults)
unfolding perform get values_of
perform_lem enable key j a defaults = ground (arith, find-put key j pass_as_name a)
perform_lem disable key j a defaults = ground (arith, find-put key j dont_pass a)
perform_lem (set vals) key j a defaults = ground (arith, find-put key j (user_arg vals) a)
perform_lem (set_raw arg) key j a defaults = ground (arith, find-put key j arg a)
perform_lem (append vals) key j a defaults = ground (
  arith,
  find-put key j (append_to (or_else (defaulted_arg (some [])) (find key a)) vals) a,
  appended_lem (find key a) vals defaults,
)
perform_lem (append_no_defaults vals) key j a defaults = ground (
  arith,
  find-put key j (append_to (or_else (user_arg (some [])) (find key a)) vals) a,
  appended_lem (find key a) vals defaults,
)

-- the values, or nil where there are none
abbrev pub or_nil : List String → Slice
or_nil [] = none
or_nil (v ∷ vs) = some (v ∷ vs)

-- the values that a flag is documented to pass, by its setting and the entry of its defaults
abbrev pub passed : Option Arg → Option Slice → Slice
passed none none = none
passed none (some d) = or_nil (elements d)
passed (some (user_arg vals)) d = vals
passed (some (defaulted_arg vals)) none = or_nil (elements vals)
passed (some (defaulted_arg vals)) (some d) = or_nil (elements d ++ elements vals)
passed (some dont_pass) d = none
passed (some pass_as_name) d = some []
passed (some (func_arg f)) none = f none
passed (some (func_arg f)) (some d) = f d

-- `--key=val` for each value
abbrev pub with_values : String → List String → List String
with_values key [] = []
with_values key (val ∷ vals) =
    text_append (text_append "--" key) (text_append "=" val) ∷ with_values key vals

-- nothing for nil, the name for no values
abbrev pub lines : String → Slice → List String
lines key none = []
lines key (some []) = text_append "--" key ∷ []
lines key (some (v ∷ vs)) = with_values key (v ∷ vs)

abbrev pub all_lines : Arguments → List (String × Slice) → List String → List String
all_lines a defaults [] = []
all_lines a defaults (key ∷ keys) =
    lines key (passed (find key a) (find key defaults)) ++ all_lines a defaults keys
