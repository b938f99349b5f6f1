-- ===== src/Health/Examples.antt =====
-- A handler with three checks, one of which fails.
use Prim.Native.String.{String, ◌++◌ as append}
use mathlib.Core.List.{Permᴰ}
use mathlib.Core.List.Permᴰ.{swap}
use controller_runtime.Prelude.{
  ◌≡◌, refl, Bool, true, false, none, some, List, [], ◌∷◌, if◌then◌else◌,
}
use controller_runtime.Health.{
  Checker, run_checks, write_statuses_as_text, Texts, serve_aggregated, serve_health,
}
use controller_runtime.Health.Reports.{response_of}
use controller_runtime.Health.Aggregation.{reported, is_failing, unknown_of, serve_aggregated_lem}
use controller_runtime.Health.Ranging.{serve_aggregated-Perm}

-- a request says whether the cache has synced
abbrev cache_synced : Checker Bool String
cache_synced synced = if synced then none else some "not synced"

abbrev always : Checker Bool String
always synced = none

abbrev never : Checker Bool String
never synced = some "down"

abbrev checks : List (String × Checker Bool String)
checks = ("cache", cache_synced) ∷ ("ping", always) ∷ ("peer", never) ∷ []

abbrev other_order : List (String × Checker Bool String)
other_order = ("ping", always) ∷ ("cache", cache_synced) ∷ ("peer", never) ∷ []

abbrev texts : Texts String
texts = record {
  quote = λ s. append "\"" (append s "\"");
  sorted = λ parts. parts;
  listed = λ names. names;
  error_text = λ e. e;
}

-- one check fails that is not excluded, and one excluded name is no check's
failing_test : serve_health texts "" checks ("cache" ∷ "disk" ∷ []) false false ≡ record {
  code = 500;
  text =
      "[+]cache excluded: ok\n[+]ping ok\n[-]peer failed: reason withheld\nwarn: some health checks cannot be excluded: no matches for \"disk\"\nhealthz check failed\n";
}
unfolding serve_health serve_aggregated run_checks write_statuses_as_text
failing_test = refl

excluded_test :
    serve_health texts "" checks ("peer" ∷ []) false true ≡ record { code = 200; text = "ok" }
unfolding serve_health serve_aggregated run_checks write_statuses_as_text
excluded_test = refl

verbose_test :
    serve_health {Q = Bool} texts "" [] [] true true
    ≡ record { code = 200; text = "[+]ping ok\nhealthz check passed\n" }
unfolding serve_health serve_aggregated run_checks write_statuses_as_text
verbose_test = refl

single_test :
    serve_health texts "peer" checks [] false true
    ≡ record { code = 500; text = "internal server error: down\n" }
unfolding serve_health
single_test = refl

serve_aggregated_example :
    serve_aggregated texts checks ("cache" ∷ "disk" ∷ []) false false
    ≡ response_of texts.quote
        (texts.sorted (reported false ("cache" ∷ "disk" ∷ []) checks))
        (texts.listed (unknown_of ("cache" ∷ "disk" ∷ []) checks))
        (is_failing false ("cache" ∷ "disk" ∷ []) checks)
        false
serve_aggregated_example =
    serve_aggregated_lem texts checks ("cache" ∷ "disk" ∷ []) false false (refl, (refl, (refl, tt)))

ranging_example :
    ((serve_aggregated texts checks ("peer" ∷ []) false true).code
      ≡ (serve_aggregated texts other_order ("peer" ∷ []) false true).code)
    × ((run_checks true checks ("peer" ∷ [])).2 ≡ (run_checks true other_order ("peer" ∷ [])).2)
    × Permᴰ (run_checks true checks ("peer" ∷ [])).0 (run_checks true other_order ("peer" ∷ [])).0
ranging_example =
    serve_aggregated-Perm texts checks other_order ("peer" ∷ []) false true (swap refl refl)
      (refl, (refl, (refl, tt)))
