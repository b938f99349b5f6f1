-- ===== src/Health.antt =====
-- pkg/healthz/healthz.go: the checks of a handler, over requests of a type `Q`. The map of checks is
-- the list of its entries in the order in which Go ranges over it; `sort.Slice` on the statuses and the
-- quoting of `%q` are arguments. A path comes in as `path.Clean` leaves it, without its slash.
pub mod Reports
pub mod Aggregation
pub mod Ranging
mod Examples
use Prim.Native.String.{String, ◌++◌ as append}
use controller_runtime.Prelude.{
  ℕ, Bool, true, false, not, ◌&&◌, ◌||◌, ◌==◌, string_eq, Option, none, some, List, [], ◌∷◌, keep,
  contains, if◌then◌else◌,
}

-- `Checker`; `none` is nil
abbrev pub Checker : Type 0 → Type 0 → Type 0
Checker Q Err = Q → Option Err

pub record CheckStatus : Type 0 where
  pub name : String
  pub healthy : Bool
  pub excluded : Bool

-- the status code and the text of a response
pub record HealthResponse : Type 0 where
  pub code : ℕ
  pub text : String

module _ {Q Err : Type 0} where
  -- `Ping`
  abbrev pub ping : Checker Q Err
  ping req = none

  -- the loop of `serveAggregated`: the parts, `failed`, and what is left of the excluded names
  unfoldable pub run_checks :
      Q → List (String × Checker Q Err) → List String → List CheckStatus × Bool × List String
  run_checks req [] excluded = ([], false, excluded)
  run_checks req ((name, check) ∷ checks) excluded =
      let skip = run_checks req checks (keep (λ n. not (n == name)) excluded) in
      let rest = run_checks req checks excluded in
      if contains name excluded
      then (record { name = name; healthy = true; excluded = true } ∷ skip.0, skip.1, skip.2)
      else elim (check req) [
        | some e ↦
            (record { name = name; healthy = false; excluded = false } ∷ rest.0, true, rest.2)
        | none ↦ (record { name = name; healthy = true; excluded = false } ∷ rest.0, rest.1, rest.2)
      ]

-- a check, if none is present
abbrev pub with_default : List CheckStatus → List CheckStatus
with_default [] = record { name = "ping"; healthy = true; excluded = false } ∷ []
with_default parts = parts

-- one line of the text
abbrev pub line_of : CheckStatus → String
line_of part =
    if part.excluded
    then append "[+]" (append part.name " excluded: ok\n")
    else if part.healthy
    then append "[+]" (append part.name " ok\n")
    else append "[-]" (append part.name " failed: reason withheld\n")

abbrev pub lines_of : List CheckStatus → String
lines_of [] = ""
lines_of (part ∷ parts) = append (line_of part) (lines_of parts)

-- `strings.Join(…, ",")`
abbrev pub join_commas : List String → String
join_commas [] = ""
join_commas (name ∷ []) = name
join_commas (name ∷ names) = append name (append "," (join_commas names))

abbrev pub quote_all : (String → String) → List String → List String
quote_all quote [] = []
quote_all quote (name ∷ names) = quote name ∷ quote_all quote names

-- `formatQuoted`
abbrev pub format_quoted : (String → String) → List String → String
format_quoted quote names = join_commas (quote_all quote names)

abbrev pub warning_of : (String → String) → List String → String
warning_of quote [] = ""
warning_of quote names =
    append "warn: some health checks cannot be excluded: no matches for "
      (append (format_quoted quote names) "\n")

unfoldable pub write_statuses_as_text :
    (String → String) → List CheckStatus → List String → Bool → Bool → HealthResponse
write_statuses_as_text quote parts unknown failed force_verbose = record {
  code = if failed then 500 else 200;
  text =
      if not failed && not force_verbose
      then "ok"
      else append (lines_of parts) (
          append (warning_of quote unknown)
            (if failed then "healthz check failed\n" else "healthz check passed\n"));
}

-- the arguments: `sorted` sorts the statuses, `listed` gives the names of a set in order
pub record Texts (Err : Type 0) : Type 0 where
  pub quote : String → String
  pub sorted : List CheckStatus → List CheckStatus
  pub listed : List String → List String
  pub error_text : Err → String

module _ {Err : Type 0} (k : Texts Err) where
  -- `CheckHandler.ServeHTTP`
  abbrev pub serve_check : Option Err → HealthResponse
  serve_check (some e) = record {
    code = 500;
    text = append "internal server error: " (append (k.error_text e) "\n");
  }
  serve_check none = record { code = 200; text = "ok" }

module _ {Q Err : Type 0} (k : Texts Err) where
  unfoldable pub serve_aggregated :
      List (String × Checker Q Err) → List String → Bool → Q → HealthResponse
  unfolding run_checks
  serve_aggregated checks excluded verbose req =
      let ran = run_checks req checks excluded in
      write_statuses_as_text k.quote (k.sorted (with_default ran.0)) (k.listed ran.2) ran.1 verbose

  abbrev pub find_check : String → List (String × Checker Q Err) → Option (Checker Q Err)
  find_check name [] = none
  find_check name ((n, check) ∷ checks) =
      let rest = find_check name checks in if n == name then some check else rest

  abbrev pub serve_found : Option (Checker Q Err) → Q → HealthResponse
  serve_found (some check) req = serve_check k (check req)
  serve_found none req = record { code = 404; text = "404 page not found\n" }

  abbrev pub has_none : List (String × Checker Q Err) → Bool
  has_none [] = true
  has_none (c ∷ cs) = false

  -- `Handler.ServeHTTP`, for the clean path `/name`
  unfoldable pub serve_health :
      String → List (String × Checker Q Err) → List String → Bool → Q → HealthResponse
  unfolding serve_aggregated
  serve_health name checks excluded verbose req =
      if name == ""
      then serve_aggregated checks excluded verbose req
      else if has_none checks && name == "ping"
      then serve_check k none
      else serve_found (find_check name checks) req
