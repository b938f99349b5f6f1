-- ===== src/Event.antt =====
-- The events of pkg/event/event.go; an object of an event may be nil.
use controller_runtime.Prelude.{Bool, Option}
use controller_runtime.Object.{Object}

pub record CreateEvent : Type 0 where
  pub object : Option Object

pub record UpdateEvent : Type 0 where
  pub object_old : Option Object
  pub object_new : Option Object

pub record DeleteEvent : Type 0 where
  pub object : Option Object
  pub delete_state_unknown : Bool

pub record GenericEvent : Type 0 where
  pub object : Option Object

-- one of the four kinds of event
pub data Event : Type 0 where
  created : CreateEvent → Event
  updated : UpdateEvent → Event
  deleted : DeleteEvent → Event
  other : GenericEvent → Event
