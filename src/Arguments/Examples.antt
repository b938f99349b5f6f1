-- ===== src/Arguments/Examples.antt =====
-- pkg/internal/testing/process/arguments.go: two flags, of which one has a default.
use controller_runtime.Prelude.{String, ◌≡◌, refl, string_eq, some, List, [], ◌∷◌}
use controller_runtime.Arguments.{
  Slice, Arguments, user_arg, get, find, values_of, render, render_all, as_strings,
}
use controller_runtime.Arguments.Slicing.{parse_flag, slice_to_arguments}
use controller_runtime.Arguments.Sorting.{Sorts, values_for, given_arg, slice_to_arguments_lem}

abbrev defaults : List (String × Slice)
defaults = ("port", some ("80" ∷ [])) ∷ []

abbrev arguments : Arguments
arguments = ("v", user_arg (some [])) ∷ []

abbrev in_order : List String → List String
in_order xs = xs

-- the default is passed with its value, the flag without values by its name
rendered : as_strings in_order arguments defaults ≡ "--port=80" ∷ "--v" ∷ []
unfolding as_strings render_all render get values_of
rendered = refl

abbrev port : String
port = "port"

abbrev command_line : List String
command_line = "--port=80" ∷ "run" ∷ "--port=a=b" ∷ "--" ∷ "--v=1" ∷ []

flag_is_split : parse_flag "--port=a=b" ≡ some ("port", "a=b")
unfolding parse_flag
flag_is_split = refl

slice_to_arguments_lem_example :
    (fs : List (String × String)) × Sorts command_line (slice_to_arguments command_line []).0 fs
    × ((key : String)
        → find key (slice_to_arguments command_line []).1 ≡ given_arg (values_for key fs))
slice_to_arguments_lem_example = slice_to_arguments_lem command_line
