-- ===== src/Health/Aggregation.antt =====
-- What the handler of pkg/healthz/healthz.go answers for all checks together.
use Prim.Native.String.{String}
use controller_runtime.Prelude.{
  ◌≡◌, refl, ap, sym, inl, inr, Bool, true, false, not, ◌&&◌, ◌||◌, ◌==◌, string_eq, Option, none,
  some, List, [], ◌∷◌, keep, contains, any, Distinct, contains-keep_ne, arith, if◌then◌else◌,
  Bool-cases, Option-cases, beq-cases, beq_sym,
}
use controller_runtime.Health.{
  Checker, CheckStatus, run_checks, with_default, write_statuses_as_text, Texts, serve_aggregated,
}
use mathlib.Core.Path.{◌∙◌}
use controller_runtime.Health.Reports.{response_of, write_statuses-response_of}

abbrev pub is_healthy : {Err : Type 0} → Option Err → Bool
is_healthy none = true
is_healthy (some e) = false

-- a name taken out of a list does not matter to the tests for another one
pub head_ne :
    (name n : String) (ns : List String) → contains name (n ∷ ns) ≡ false → (name == n) ≡ false
head_ne name n ns h = ground (arith, h, beq-cases name n, beq-cases n name)

pub tail_ne :
    (name n : String) (ns : List String) → contains name (n ∷ ns) ≡ false → contains name ns ≡ false
tail_ne name n ns h = ground (arith, h)

contains-keep_other :
    (name n : String) (ns excluded : List String)
    → contains name (n ∷ ns) ≡ false
    → contains n (keep (λ m. not (m == name)) excluded) ≡ contains n excluded
contains-keep_other name n ns excluded h =
    ground (arith, head_ne name n ns h, contains-keep_ne n name excluded)

keep_all : (excluded : List String) → keep (λ m. not false) excluded ≡ excluded
keep_all [] = refl
keep_all (m ∷ ms) = ap (λ r. m ∷ r) (keep_all ms)

-- the excluded names that are none of `name ∷ ns`, in two steps
keep-keep_ne :
    (name : String) (ns excluded : List String)
    → keep (λ m. not (contains m ns)) (keep (λ m. not (m == name)) excluded)
      ≡ keep (λ m. not (contains m (name ∷ ns))) excluded
keep-keep_ne name ns [] = refl
keep-keep_ne name ns (m ∷ ms) = ground (arith, keep-keep_ne name ns ms, beq_sym m name)

keep_absent :
    (name : String) (ns excluded : List String)
    → contains name excluded ≡ false
    → keep (λ m. not (contains m ns)) excluded ≡ keep (λ m. not (contains m (name ∷ ns))) excluded
keep_absent name ns [] h = refl
keep_absent name ns (m ∷ ms) h =
    let ih = keep_absent name ns ms (tail_ne name m ms h) in
    ground (arith, ih, head_ne name m ms h, beq_sym m name)

module _ {Q Err : Type 0} where
  abbrev pub names_of : List (String × Checker Q Err) → List String
  names_of [] = []
  names_of ((name, check) ∷ checks) = name ∷ names_of checks

  -- the status of a check, by itself
  abbrev pub status_of : Q → List String → String × Checker Q Err → CheckStatus
  status_of req excluded c = record {
    name = c.0;
    healthy = contains c.0 excluded || is_healthy (c.1 req);
    excluded = contains c.0 excluded;
  }

  abbrev pub statuses_of : Q → List String → List (String × Checker Q Err) → List CheckStatus
  statuses_of req excluded [] = []
  statuses_of req excluded (c ∷ cs) = status_of req excluded c ∷ statuses_of req excluded cs

  -- a check fails that is not excluded
  abbrev pub is_failing : Q → List String → List (String × Checker Q Err) → Bool
  is_failing req excluded cs =
      any (λ c. not (contains c.0 excluded) && not (is_healthy (c.1 req))) cs

  -- the excluded names that no check has
  abbrev pub unknown_of : List String → List (String × Checker Q Err) → List String
  unknown_of excluded cs = keep (λ n. not (contains n (names_of cs))) excluded

  -- to take a name out of the excluded ones does not matter to the other checks
  statuses-keep :
      (req : Q) (name : String) (excluded : List String) (cs : List (String × Checker Q Err))
      → contains name (names_of cs) ≡ false
      → (statuses_of req (keep (λ n. not (n == name)) excluded) cs ≡ statuses_of req excluded cs)
        × (is_failing req (keep (λ n. not (n == name)) excluded) cs ≡ is_failing req excluded cs)
  statuses-keep req name excluded [] h = (refl, refl)
  statuses-keep req name excluded ((n, check) ∷ cs) h =
      let ih = statuses-keep req name excluded cs (tail_ne name n (names_of cs) h) in
      let same = contains-keep_other name n (names_of cs) excluded h in
      (ground (arith, ih.0, same), ground (arith, ih.1, same))

  -- the loop gives the status of every check, whether one fails, and the names that none has
  pub run_checks_lem :
      (req : Q) (checks : List (String × Checker Q Err)) (excluded : List String)
      → Distinct (names_of checks)
      → run_checks req checks excluded ≡ (
        statuses_of req excluded checks,
        is_failing req excluded checks,
        unknown_of excluded checks,
      )
  unfolding run_checks
  run_checks_lem req [] excluded d = ap (λ us. ([], false, us)) (sym (keep_all excluded))
  run_checks_lem req ((name, check) ∷ cs) excluded d =
      let skip = run_checks_lem req cs (keep (λ n. not (n == name)) excluded) d.1 in
      let rest = run_checks_lem req cs excluded d.1 in
      let same = statuses-keep req name excluded cs d.0 in
      elim (Bool-cases (contains name excluded)) [
        | inl h ↦ ground (arith, h, skip, same.0, same.1, keep-keep_ne name (names_of cs) excluded)
        | inr h ↦ elim (Option-cases (check req)) [
          | inl e ↦ ground (arith, h, e, rest, keep_absent name (names_of cs) excluded h)
          | inr e ↦ ground (arith, h, e.1, rest, keep_absent name (names_of cs) excluded h)
        ]
      ]

  -- the statuses that are reported: a healthy "ping" where there are no checks
  abbrev pub reported : Q → List String → List (String × Checker Q Err) → List CheckStatus
  reported req excluded [] = record { name = "ping"; healthy = true; excluded = false } ∷ []
  reported req excluded (c ∷ cs) = statuses_of req excluded (c ∷ cs)

  with_default-reported :
      (req : Q) (excluded : List String) (cs : List (String × Checker Q Err))
      → with_default (statuses_of req excluded cs) ≡ reported req excluded cs
  with_default-reported req excluded [] = refl
  with_default-reported req excluded (c ∷ cs) = refl

  -- For checks of different names the handler answers with the code 500 if a check that is not
  -- excluded fails, else 200, and then with the text "ok" alone unless it is asked for more.
  -- Otherwise the text has, in this order: a line for the status of every check, or for "ping" if
  -- there is none; a warning with the excluded names that no check has, if any; and the verdict.
  pub serve_aggregated_lem :
      (k : Texts Err) (checks : List (String × Checker Q Err)) (excluded : List String)
      (verbose : Bool) (req : Q)
      → Distinct (names_of checks)
      → serve_aggregated k checks excluded verbose req
        ≡ response_of k.quote
            (k.sorted (reported req excluded checks))
            (k.listed (unknown_of excluded checks))
            (is_failing req excluded checks)
            verbose
  unfolding serve_aggregated
  serve_aggregated_lem k checks excluded verbose req d =
      let parts = k.sorted (reported req excluded checks) in
      let unknown = k.listed (unknown_of excluded checks) in
      ap
        (λ r.
          write_statuses_as_text k.quote (k.sorted (with_default r.0)) (k.listed r.2) r.1 verbose)
        (run_checks_lem req checks excluded d)
      ∙ ap
          (λ ps.
            write_statuses_as_text k.quote (k.sorted ps) unknown (is_failing req excluded checks)
              verbose)
          (with_default-reported req excluded checks)
      ∙ write_statuses-response_of k.quote parts unknown (is_failing req excluded checks) verbose

  pub code-serve_aggregated :
      (k : Texts Err) (checks : List (String × Checker Q Err)) (excluded : List String)
      (verbose : Bool) (req : Q)
      → Distinct (names_of checks)
      → (serve_aggregated k checks excluded verbose req).code
        ≡ (if is_failing req excluded checks then 500 else 200)
  code-serve_aggregated k checks excluded verbose req d =
      ap (λ r. r.code) (serve_aggregated_lem k checks excluded verbose req d)
      ∙ code-response_of (is_failing req excluded checks) verbose
    where
      code-response_of :
          (failing more : Bool)
          → (response_of k.quote
              (k.sorted (reported req excluded checks))
              (k.listed (unknown_of excluded checks))
              failing
              more).code
            ≡ (if failing then 500 else 200)
      code-response_of false false = refl
      code-response_of false true = refl
      code-response_of true more = refl
