-- ===== src/Source.antt =====
-- pkg/source/internal/eventsource.go: the adapter from the informer's callbacks to predicates and an
-- event handler. Log lines are left out.
pub mod Laws
mod Examples
use controller_runtime.Prelude.{
  Bool, true, false, not, Option, none, some, List, [], ◌∷◌, if◌then◌else◌, all,
}
use controller_runtime.Object.{Object}
use controller_runtime.Event.{CreateEvent, UpdateEvent, DeleteEvent}
use controller_runtime.Queue.{Call}
use controller_runtime.Predicate.{Predicate}
use controller_runtime.Handler.{EventHandler}

-- an `interface{}`: a `client.Object`, a `cache.DeletedFinalStateUnknown` with its `Obj`, or neither
pub data Value : Type 0 where
  object : Object → Value
  tombstone : Value → Value
  unknown : Value

pub record EventSource : Type 0 where
  pub handler : EventHandler
  pub predicates : List Predicate

-- the type assertion `obj.(client.Object)`
abbrev pub as_object : Value → Option Object
as_object (object o) = some o
as_object (tombstone v) = none
as_object unknown = none

unfoldable pub on_add : EventSource → Value → List Call
on_add s obj = elim (as_object obj) [
  | none ↦ []
  | some o ↦
      let c : CreateEvent = record { object = some o } in
      if all (λ (p : Predicate). p.create c) s.predicates then s.handler.create c else []
]

unfoldable pub on_update : EventSource → Value → Value → List Call
on_update s old_obj new_obj = elim (as_object old_obj) [
  | none ↦ []
  | some old ↦ elim (as_object new_obj) [
    | none ↦ []
    | some new ↦
        let u : UpdateEvent = record { object_old = some old; object_new = some new } in
        if all (λ (p : Predicate). p.update u) s.predicates then s.handler.update u else []
  ]
]

-- the tombstone is opened once: its `Obj` has to be an object
abbrev pub final_object : Value → Option Object
final_object (object o) = some o
final_object (tombstone v) = as_object v
final_object unknown = none

-- `d` is a zero `DeleteEvent` of which only the object is set
unfoldable pub on_delete : EventSource → Value → List Call
on_delete s obj = elim (final_object obj) [
  | none ↦ []
  | some o ↦
      let d : DeleteEvent = record { object = some o; delete_state_unknown = false } in
      if all (λ (p : Predicate). p.delete d) s.predicates then s.handler.delete d else []
]
