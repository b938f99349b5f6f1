-- ===== src/Versions.antt =====
-- tools/setup-envtest/versions/version.go and platform.go: versions, the selectors of versions, and
-- platforms. Go's ints are integers: the code compares them, and computes nothing with them.
-- Printing is left out.
pub mod Parse
pub mod Order
pub mod Selectors
pub mod Expressions
mod Examples
use controller_runtime.Prelude.{
  String, ℤ, pos, negsuc, ltb_ℤ, leb_ℤ, ◌≡◌, ◌↔◌, Bool, true, false, not, ◌&&◌, ◌||◌, ◌==◌, ◌/=◌,
  Comparable, int_eq, string_eq, Option, none, some, arith, if◌then◌else◌, beq-cases,
}

pub record Concrete : Type 0 where
  pub major : ℤ
  pub minor : ℤ
  pub patch : ℤ

abbrev pub concrete_beq : Concrete → Concrete → Bool
concrete_beq a b = a.major == b.major && (a.minor == b.minor && a.patch == b.patch)

pub concrete_beq_iff : (a b : Concrete) → (concrete_beq a b ≡ true) ↔ (a ≡ b)
concrete_beq_iff a b =
    ground (arith, beq-cases a.major b.major, beq-cases a.minor b.minor, beq-cases a.patch b.patch)

instance abbrev pub concrete_eq : Comparable Concrete
concrete_eq = record { equal = concrete_beq; equal_iff = concrete_beq_iff }

-- `c.NewerThan(other)`
unfoldable pub newer_than : Concrete → Concrete → Bool
newer_than c other =
    if c.major /= other.major
    then ltb_ℤ other.major c.major
    else if c.minor /= other.minor
    then ltb_ℤ other.minor c.minor
    else ltb_ℤ other.patch c.patch

-- `AnyPoint` is -1
abbrev pub any_point : ℤ
any_point = negsuc 0

-- `PointVersion.Matches`
abbrev pub point_matches : ℤ → ℤ → Bool
point_matches p other = if p == any_point then true else p == other

pub record PatchSelector : Type 0 where
  pub major : ℤ
  pub minor : ℤ
  pub patch : ℤ

-- the implementations of the interface `Selector`
pub data Selector : Type 0 where
  concrete : Concrete → Selector
  patch_selector : PatchSelector → Selector
  tilde : Concrete → Selector
  less_than : PatchSelector → Bool → Selector
  any_version : Selector

abbrev pub patch_as_concrete : PatchSelector → Option Concrete
patch_as_concrete s =
    if s.patch == any_point
    then none
    else some (record { major = s.major; minor = s.minor; patch = s.patch })

unfoldable pub as_concrete : Selector → Option Concrete
as_concrete (concrete c) = some c
as_concrete (patch_selector s) = patch_as_concrete s
as_concrete (tilde c) = none
as_concrete (less_than s or_equals) = none
as_concrete any_version = none

-- `LessThanSelector.Matches`
abbrev pub older_than : PatchSelector → Bool → Concrete → Bool
older_than s or_equals ver =
    if s.major /= ver.major
    then ltb_ℤ ver.major s.major
    else if s.minor /= ver.minor
    then ltb_ℤ ver.minor s.minor
    else if not (point_matches s.patch ver.patch)
    then ltb_ℤ ver.patch s.patch
    else or_equals

unfoldable pub matches : Selector → Concrete → Bool
matches (concrete c) ver = c == ver
matches (patch_selector s) ver =
    s.major == ver.major && (s.minor == ver.minor && point_matches s.patch ver.patch)
matches (tilde c) ver =
    if c == ver
    then true
    else ver.major == c.major && (ver.minor == c.minor && leb_ℤ c.patch ver.patch)
matches (less_than s or_equals) ver = older_than s or_equals ver
matches any_version ver = true

-- `Spec`, whose methods are its selector's
pub record Spec : Type 0 where
  pub selector : Selector
  pub check_latest : Bool

-- `MakeConcrete`
unfoldable pub make_concrete : Concrete → Spec → Spec
make_concrete ver s = record { selector = concrete ver; check_latest = false }

abbrev pub latest_version : Spec
latest_version = record { selector = any_version; check_latest = true }

-- platform.go
pub record Platform : Type 0 where
  pub os : String
  pub arch : String

unfoldable pub platform_matches : Platform → Platform → Bool
platform_matches p other =
    (p.os == other.os || (p.os == "*" || other.os == "*"))
    && (p.arch == other.arch || (p.arch == "*" || other.arch == "*"))

unfoldable pub is_wildcard : Platform → Bool
is_wildcard p = p.os == "*" || p.arch == "*"
