-- ===== src/Source/Laws.antt =====
-- What the callbacks of pkg/source/internal/eventsource.go hand to the event handler.
use controller_runtime.Prelude.{
  ◌≡◌, refl, false, Option, none, some, List, [], arith, if◌then◌else◌,
}
use controller_runtime.Event.{Event, created, updated, deleted}
use controller_runtime.Queue.{Call}
use controller_runtime.Predicate.{admits, and_of}
use controller_runtime.Handler.{handle}
use controller_runtime.Source.{
  Value, object, tombstone, unknown, EventSource, on_add, on_update, on_delete,
}

-- the callbacks of the informer
pub data Callback : Type 0 where
  added : Value → Callback
  changed : Value → Value → Callback
  removed : Value → Callback

abbrev pub notify : EventSource → Callback → List Call
notify s (added v) = on_add s v
notify s (changed v w) = on_update s v w
notify s (removed v) = on_delete s v

-- The event that a callback stands for, by what it is given: `none` where that is no object, or, for a
-- deletion, no object and no tombstone that holds one.
abbrev pub event_of : Callback → Option Event
event_of (added (object o)) = some (created (record { object = some o }))
event_of (added (tombstone v)) = none
event_of (added unknown) = none
event_of (changed (object old) (object new)) =
    some (updated (record { object_old = some old; object_new = some new }))
event_of (changed (object old) (tombstone v)) = none
event_of (changed (object old) unknown) = none
event_of (changed (tombstone v) new) = none
event_of (changed unknown new) = none
event_of (removed (object o)) =
    some (deleted (record { object = some o; delete_state_unknown = false }))
event_of (removed (tombstone (object o))) =
    some (deleted (record { object = some o; delete_state_unknown = false }))
event_of (removed (tombstone (tombstone v))) = none
event_of (removed (tombstone unknown)) = none
event_of (removed unknown) = none

-- what a source does with an event: one `And` of its predicates decides, and the handler is called once
abbrev pub dispatch : EventSource → Option Event → List Call
dispatch s none = []
dispatch s (some e) = if admits (and_of s.predicates) e then handle s.handler e else []

-- Each callback calls the handler, with the event that it stands for, exactly when the `And` of the
-- source's predicates admits that event, and does nothing where an object is missing: neither a
-- `client.Object` nor, for a deletion, a tombstone of one. The event of a deletion never says that the
-- final state is unknown.
pub notify-dispatch : (s : EventSource) (c : Callback) → notify s c ≡ dispatch s (event_of c)
unfolding on_add on_update on_delete and_of
notify-dispatch s (added (object o)) = ground arith
notify-dispatch s (added (tombstone v)) = refl
notify-dispatch s (added unknown) = refl
notify-dispatch s (changed (object old) (object new)) = ground arith
notify-dispatch s (changed (object old) (tombstone v)) = refl
notify-dispatch s (changed (object old) unknown) = refl
notify-dispatch s (changed (tombstone v) new) = refl
notify-dispatch s (changed unknown new) = refl
notify-dispatch s (removed (object o)) = ground arith
notify-dispatch s (removed (tombstone (object o))) = ground arith
notify-dispatch s (removed (tombstone (tombstone v))) = refl
notify-dispatch s (removed (tombstone unknown)) = refl
notify-dispatch s (removed unknown) = refl
