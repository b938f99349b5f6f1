-- ===== src/Versions/Parse.antt =====
-- tools/setup-envtest/versions/parse.go. The regular expressions run in Go's regexp package, so what
-- an expression matches is a parameter, with the texts of its groups. A panic is an outcome.
use Prim.Native.Char.{code}
use controller_runtime.Prelude.{
  negsuc, ℕ, ◌+◌, ◌-◌, ◌*◌, ◌^◌, leb, String, ℤ, pos, Bool, ◌&&◌, ◌||◌, ◌==◌, int_eq, string_eq,
  nat_eq_class, Option, none, some, if◌then◌else◌,
}
use controller_runtime.Versions.{
  Concrete, PatchSelector, Selector, patch_selector, tilde, less_than, Spec, any_point,
  patch_as_concrete, Platform,
}

-- the named groups of a match; one that did not take part is empty
pub record Match : Type 0 where
  pub sel : String
  pub major : String
  pub minor : String
  pub patch : String
  pub latest : String

pub data Outcome {ℓ} (A : Type ℓ) : Type ℓ where
  ok : A → Outcome A
  error : Outcome A
  panic : Outcome A

-- the value of a text of digits
unfoldable pub digits : ℕ → String → Option ℕ
digits n String.[] = some n
digits n (String.◌∷◌ c rest) =
    let more = digits (n * 10 + (code c - 48)) rest in
    if leb 48 (code c) && leb (code c) 57 then more else none

abbrev pub max_int : ℕ
max_int = 2 ^ 63 - 1

abbrev pub in_range : Option ℕ → Option ℤ
in_range none = none
in_range (some n) = if leb n max_int then some (pos n) else none

abbrev pub negated : Option ℕ → Option ℤ
negated none = none
negated (some n) =
    if n == 0 then some (pos 0) else if leb n (2 ^ 63) then some (negsuc (n - 1)) else none

-- digits, at least one
abbrev pub some_digits : String → Option ℕ
some_digits s = if s == "" then none else digits 0 s

-- `strconv.Atoi`: a sign or none, and digits; an error for any other text and for a value that is no
-- int64
unfoldable pub atoi : String → Option ℤ
unfolding digits
atoi String.[] = none
atoi (String.◌∷◌ c rest) =
    if code c == b'-'
    then negated (some_digits rest)
    else if code c == b'+'
    then in_range (some_digits rest)
    else in_range (digits 0 (String.◌∷◌ c rest))

-- `PointVersionFromValidString`; `none` for the panic
unfoldable pub point_version_from_valid_string : String → Option ℤ
unfolding atoi
point_version_from_valid_string str = if str == "*" || str == "x" then some any_point else atoi str

-- `patch` is any point where its group is empty
abbrev pub patch_of : String → Option ℤ
patch_of raw = if raw == "" then some any_point else point_version_from_valid_string raw

abbrev pub selector_of : Option ℤ → Option ℤ → Option ℤ → Option PatchSelector
selector_of (some x) (some y) (some z) = some (record { major = x; minor = y; patch = z })
selector_of none y z = none
selector_of (some x) none z = none
selector_of (some x) (some y) none = none

-- `PatchSelectorFromMatch`; `none` for the panic
unfoldable pub patch_selector_from_match : Match → Option PatchSelector
unfolding point_version_from_valid_string atoi
patch_selector_from_match m = selector_of (atoi m.major) (atoi m.minor) (patch_of m.patch)

-- the `switch` on the operator; `~` takes any point for zero
abbrev pub select : String → PatchSelector → Outcome Selector
select sel v =
    if sel == ""
    then ok (patch_selector v)
    else if sel == "<" || sel == "<="
    then ok (less_than v (sel == "<="))
    else if sel == "~"
    then ok (
        tilde (record {
          major = v.major;
          minor = v.minor;
          patch = if v.patch == any_point then pos 0 else v.patch;
        }))
    else panic

abbrev pub with_latest : Bool → Outcome Selector → Outcome Spec
with_latest latest (ok s) = ok (record { selector = s; check_latest = latest })
with_latest latest error = error
with_latest latest panic = panic

-- `FromExpr`, over `versionExprRE.FindStringSubmatch`
unfoldable pub from_expr : (String → Option Match) → String → Outcome Spec
unfolding patch_selector_from_match
from_expr find_submatch expr = elim (find_submatch expr) [
  | none ↦ error
  | some m ↦ elim (patch_selector_from_match m) [
    | none ↦ panic
    | some v ↦ with_latest (m.latest == "!") (select m.sel v)
  ]
]

-- `ExtractWithPlatform`, over `re.FindStringSubmatch`, with the groups `os` and `arch` beside; the
-- version is nil if nothing matches
unfoldable pub extract_with_platform :
    (String → Option (Match × Platform)) → String → Outcome (Option Concrete × Platform)
unfolding patch_selector_from_match
extract_with_platform find_submatch name = elim (find_submatch name) [
  | none ↦ ok (none, record { os = ""; arch = "" })
  | some (m, p) ↦ elim (patch_selector_from_match m) [
    | none ↦ panic
    | some v ↦ elim (patch_as_concrete v) [ none ↦ panic | some c ↦ ok (some c, p) ]
  ]
]
