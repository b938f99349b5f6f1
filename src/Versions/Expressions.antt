-- ===== src/Versions/Expressions.antt =====
-- What `FromExpr` of tools/setup-envtest/versions/parse.go makes of an expression.
use controller_runtime.Prelude.{
  String, pos, ◌≡◌, Bool, true, false, not, ◌&&◌, ◌||◌, ◌==◌, int_eq, string_eq, if◌then◌else◌,
}
use controller_runtime.Versions.{Concrete, concrete_eq, newer_than, PatchSelector, any_point}
use controller_runtime.Versions.Selectors.{next_minor, line}

-- the operators that the regular expression lets through
pub data IsOperator : String → Type 0 where
  plain : (s : String) → s ≡ "" → IsOperator s
  older : (s : String) → s ≡ "<" → IsOperator s
  older_or_same : (s : String) → s ≡ "<=" → IsOperator s
  from_here : (s : String) → s ≡ "~" → IsOperator s

-- `<` and `<=`: older than the version, or than its minor where the patch is a wildcard
abbrev pub older_meaning : PatchSelector → Bool → Concrete → Bool
older_meaning v or_equals ver =
    let own : Concrete = record { major = v.major; minor = v.minor; patch = v.patch } in
    if v.patch == any_point
    then newer_than (line v.major v.minor) (line ver.major ver.minor)
      || (or_equals && line v.major v.minor == line ver.major ver.minor)
    else newer_than own ver || (or_equals && own == ver)

-- `~`: from the version, patch 0 for a wildcard, up to the next minor
abbrev pub tilde_meaning : PatchSelector → Concrete → Bool
tilde_meaning v ver =
    let first : Concrete = record {
      major = v.major;
      minor = v.minor;
      patch = if v.patch == any_point then pos 0 else v.patch;
    } in
    not (newer_than first ver) && newer_than (next_minor first) ver

-- what the comment of `FromExpr` says that an operator and a version select
abbrev pub meaning : {s : String} → IsOperator s → PatchSelector → Concrete → Bool
meaning (plain s e) v ver =
    v.major == ver.major && (v.minor == ver.minor && (v.patch == any_point || v.patch == ver.patch))
meaning (older s e) v ver = older_meaning v false ver
meaning (older_or_same s e) v ver = older_meaning v true ver
meaning (from_here s e) v ver = tilde_meaning v ver
