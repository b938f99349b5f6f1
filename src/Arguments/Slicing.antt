-- ===== src/Arguments/Slicing.antt =====
-- `SliceToArguments` of pkg/internal/testing/process/arguments.go, which sorts given arguments into
-- flags and the rest.
use Prim.Native.Char.{code}
use controller_runtime.Prelude.{
  if◌then◌else◌, String, ◌==◌, string_eq, nat_eq_class, Option, none, some, List, [], ◌∷◌,
}
use controller_runtime.Arguments.{Arguments, append_no_defaults, perform}

-- `arg[1:]` of a text that begins with a dash
abbrev pub cut_dash : String → Option String
cut_dash String.[] = none
cut_dash (String.◌∷◌ c rest) = if code c == b'-' then some rest else none

-- the parts of a text before and behind its first `=`; `none` where it has none
abbrev pub split_equals : String → Option (String × String)
split_equals String.[] = none
split_equals (String.◌∷◌ c rest) =
    let more = split_equals rest in
    if code c == b'='
    then some ("", rest)
    else elim more [ none ↦ none | some (name, val) ↦ some (String.◌∷◌ c name, val) ]

abbrev pub split_option : Option String → Option (String × String)
split_option none = none
split_option (some s) = split_equals s

abbrev pub cut_option : Option String → Option String
cut_option none = none
cut_option (some s) = cut_dash s

-- `strings.HasPrefix(arg, "--")`, `strings.Contains(arg, "=")` and `strings.SplitN(arg[2:], "=", 2)`
unfoldable pub parse_flag : String → Option (String × String)
parse_flag arg = split_option (cut_option (cut_dash arg))

unfoldable pub slice_to_arguments : List String → Arguments → List String × Arguments
unfolding parse_flag perform
slice_to_arguments [] args = ([], args)
slice_to_arguments (arg ∷ more) args =
    let skipped = slice_to_arguments more args in
    if arg == "--" then (arg ∷ more, args) else elim (parse_flag arg) [
      | none ↦ (arg ∷ skipped.0, skipped.1)
      | some (name, val) ↦
          slice_to_arguments more (perform (append_no_defaults (some (val ∷ []))) name args)
    ]
