-- ===== src/Predicate/Examples.antt =====
-- The predicates of pkg/predicate/predicate.go on an update of a pod.
use controller_runtime.Prelude.{◌≡◌, refl, pos, true, false, none, some, List, [], ◌∷◌}
use controller_runtime.Event.{updated, UpdateEvent}
use controller_runtime.Predicate.{
  Predicate, admits, and_of, or_of, generation_changed, annotation_changed,
  resource_version_changed,
}
use controller_runtime.Predicate.Maps.{deep_equal}
use controller_runtime.Samples.{pod}

-- the specification of the pod changed
abbrev respecified : UpdateEvent
respecified = record {
  object_old = some (pod (pos 1) [] [] none);
  object_new = some (pod (pos 2) [] [] none);
}

abbrev filters : List Predicate
filters = generation_changed ∷ resource_version_changed ∷ []

-- the generation differs, the resource version of the sample does not
filters_decide :
    (admits (and_of filters) (updated respecified) ≡ false)
    × (admits (or_of filters) (updated respecified) ≡ true)
unfolding and_of or_of generation_changed resource_version_changed
filters_decide = (refl, refl)

annotations_same : annotation_changed.update respecified ≡ false
unfolding annotation_changed deep_equal
annotations_same = refl
