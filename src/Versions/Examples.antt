-- ===== src/Versions/Examples.antt =====
-- Versions of tools/setup-envtest/versions: 1.19.3, and the expression "~1.19!".
use controller_runtime.Prelude.{
  ℤ, pos, String, ◌==◌, string_eq, int_eq, Option, none, some, if◌then◌else◌,
}
use controller_runtime.Versions.{
  Concrete, concrete_eq, PatchSelector, Selector, patch_selector, any_point,
}
use controller_runtime.Versions.Parse.{Match}

abbrev version : ℤ → ℤ → ℤ → Concrete
version major minor patch = record { major = major; minor = minor; patch = patch }

abbrev v1_19_3 : Concrete
v1_19_3 = version (pos 1) (pos 19) (pos 3)

abbrev v1_19_0 : Concrete
v1_19_0 = version (pos 1) (pos 19) (pos 0)

abbrev v1_16_4 : Concrete
v1_16_4 = version (pos 1) (pos 16) (pos 4)

-- 1.19, with any patch
abbrev minor_19 : PatchSelector
minor_19 = record { major = pos 1; minor = pos 19; patch = any_point }

abbrev exactly : Selector
exactly = patch_selector (record { major = pos 1; minor = pos 19; patch = pos 3 })

-- what the regular expression finds in "~1.19!"
abbrev groups : Match
groups = record { sel = "~"; major = "1"; minor = "19"; patch = ""; latest = "!" }

abbrev find_groups : String → Option Match
find_groups expr = if expr == "~1.19!" then some groups else none
