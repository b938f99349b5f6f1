-- ===== src/Health/Reports.antt =====
-- The text that the handler of pkg/healthz/healthz.go writes of the statuses of its checks.
use Prim.Native.String.{String, ◌++◌ as append}
use mathlib.Core.Path.{ap₂}
use controller_runtime.Prelude.{◌≡◌, refl, ap, Bool, true, false, string_eq, List, [], ◌∷◌}
use controller_runtime.Health.{
  HealthResponse, CheckStatus, write_statuses_as_text, line_of, lines_of, format_quoted, warning_of,
}

-- the line for a check: its name, whether it is healthy, whether it is excluded
abbrev pub report_of : String → Bool → Bool → String
report_of name healthy true = append "[+]" (append name " excluded: ok\n")
report_of name true false = append "[+]" (append name " ok\n")
report_of name false false = append "[-]" (append name " failed: reason withheld\n")

abbrev pub reports_of : List CheckStatus → String
reports_of [] = ""
reports_of (part ∷ parts) =
    append (report_of part.name part.healthy part.excluded) (reports_of parts)

-- the quoted names with commas between them
abbrev pub enumerated : (String → String) → String → List String → String
enumerated quote name [] = quote name
enumerated quote name (next ∷ names) =
    append (quote name) (append "," (enumerated quote next names))

-- the warning for names that no check has, if there are any
abbrev pub warned : (String → String) → List String → String
warned quote [] = ""
warned quote (name ∷ names) =
    append "warn: some health checks cannot be excluded: no matches for "
      (append (enumerated quote name names) "\n")

abbrev pub verdict : Bool → String
verdict true = "healthz check failed\n"
verdict false = "healthz check passed\n"

lines_of-reports_of : (parts : List CheckStatus) → lines_of parts ≡ reports_of parts
lines_of-reports_of [] = refl
lines_of-reports_of (part ∷ parts) =
    ap₂ append (line part.name part.healthy part.excluded) (lines_of-reports_of parts)
  where
    line :
        (name : String) (healthy excluded : Bool)
        → line_of (record { name = name; healthy = healthy; excluded = excluded })
          ≡ report_of name healthy excluded
    line name true true = refl
    line name false true = refl
    line name true false = refl
    line name false false = refl

format_quoted-enumerated :
    (quote : String → String) (name : String) (names : List String)
    → format_quoted quote (name ∷ names) ≡ enumerated quote name names
format_quoted-enumerated quote name [] = refl
format_quoted-enumerated quote name (next ∷ names) =
    ap (λ t. append (quote name) (append "," t)) (format_quoted-enumerated quote next names)

warning_of-warned :
    (quote : String → String) (names : List String) → warning_of quote names ≡ warned quote names
warning_of-warned quote [] = refl
warning_of-warned quote (name ∷ names) =
    ap (λ t. append "warn: some health checks cannot be excluded: no matches for " (append t "\n"))
      (format_quoted-enumerated quote name names)

-- the response in full: the code, and "ok" alone or the report
abbrev pub response_of :
    (String → String) → List CheckStatus → List String → Bool → Bool → HealthResponse
response_of quote parts unknown false false = record { code = 200; text = "ok" }
response_of quote parts unknown false true = record {
  code = 200;
  text = append (reports_of parts) (append (warned quote unknown) (verdict false));
}
response_of quote parts unknown true verbose = record {
  code = 500;
  text = append (reports_of parts) (append (warned quote unknown) (verdict true));
}

pub write_statuses-response_of :
    (quote : String → String) (parts : List CheckStatus) (unknown : List String)
    (failed verbose : Bool)
    → write_statuses_as_text quote parts unknown failed verbose
      ≡ response_of quote parts unknown failed verbose
unfolding write_statuses_as_text
write_statuses-response_of quote parts unknown false false = refl
write_statuses-response_of quote parts unknown false true =
    rw (lines_of-reports_of parts, warning_of-warned quote unknown)
write_statuses-response_of quote parts unknown true true =
    rw (lines_of-reports_of parts, warning_of-warned quote unknown)
write_statuses-response_of quote parts unknown true false =
    rw (lines_of-reports_of parts, warning_of-warned quote unknown)
