-- ===== src/Finalizer/Examples.antt =====
-- The registry of pkg/finalizer/finalizer.go on a pod that lives, and on one that is deleted.
use controller_runtime.Prelude.{
  ◌≡◌, refl, pos, String, true, false, not, ◌==◌, string_eq, none, some, List, [], ◌∷◌, keep,
}
use controller_runtime.Object.{Object}
use controller_runtime.Finalizer.{Finalizer, finalize, remove_finalizer}
use controller_runtime.Finalizer.Removal.{remove_finalizer-keep}
use controller_runtime.Finalizer.Laws.{Removes, KeepsMeta, finalize-Removes}
use controller_runtime.Samples.{pod}

-- one finalizer works, the other fails
abbrev works : Finalizer String
works o = ((record { updated = true; status_updated = false }, none), o)

abbrev fails : Finalizer String
fails o = ((record { updated = false; status_updated = false }, some "busy"), o)

abbrev registered : List (String × Finalizer String)
registered = ("shop/volume", works) ∷ ("shop/address", fails) ∷ []

abbrev living : Object
living = pod (pos 1) [] ("shop/volume" ∷ []) none

abbrev deleted : Object
deleted = pod (pos 1) [] ("shop/volume" ∷ "other" ∷ "shop/address" ∷ []) (some 9)

KeepsMeta-works : KeepsMeta works
KeepsMeta-works = record { deletion = λ o. refl; list = λ o. refl }

KeepsMeta-fails : KeepsMeta fails
KeepsMeta-fails = record { deletion = λ o. refl; list = λ o. refl }

finalize-Removes_example :
    Removes registered
      (record {
        res = record { updated = false; status_updated = false };
        errors = [];
        obj = deleted;
      })
      (finalize registered deleted)
finalize-Removes_example =
    finalize-Removes registered deleted refl (KeepsMeta-works, (KeepsMeta-fails, tt))
      (refl, (refl, tt))

remove_finalizer-keep_example :
    remove_finalizer deleted "other"
    ≡ record deleted { finalizers = keep (λ e. not (e == "other")) deleted.finalizers }
remove_finalizer-keep_example = remove_finalizer-keep deleted "other"
