-- ===== src/Source/Examples.antt =====
-- The callbacks of pkg/source/internal/eventsource.go for a pod whose deletion was missed.
use controller_runtime.Prelude.{◌≡◌, refl, pos, none, List, [], ◌∷◌}
use controller_runtime.Object.{request_for}
use controller_runtime.Queue.{add}
use controller_runtime.Predicate.{Predicate, generation_changed}
use controller_runtime.Handler.{enqueue_request_for_object}
use controller_runtime.Source.{EventSource, object, tombstone, on_delete}
use controller_runtime.Source.Laws.{
  Callback, removed, changed, notify, event_of, dispatch, notify-dispatch,
}
use controller_runtime.Samples.{pod, request_to}

abbrev filters : List Predicate
filters = generation_changed ∷ []

abbrev source : EventSource
source = record { handler = enqueue_request_for_object; predicates = filters }

abbrev missed : Callback
missed = removed (tombstone (object (pod (pos 1) [] [] none)))

abbrev rescaled : Callback
rescaled = changed (object (pod (pos 1) [] [] none)) (object (pod (pos 2) [] [] none))

missed_is_enqueued : notify source missed ≡ add (request_to "web-0") ∷ []
unfolding on_delete enqueue_request_for_object generation_changed request_for
missed_is_enqueued = refl

notify-dispatch_example : notify source missed ≡ dispatch source (event_of missed)
notify-dispatch_example = notify-dispatch source missed
