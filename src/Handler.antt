-- ===== src/Handler.antt =====
-- pkg/handler: the event handlers. A handler is the record of its four methods, each of which gives
-- the calls that it makes on the queue. Log lines and the injection of fields are left out.
pub mod Owner
pub mod Laws
pub mod OwnerRequests
pub mod OwnerLaws
mod Examples
use controller_runtime.Prelude.{
  Bool, true, false, Option, none, some, List, [], ◌∷◌, ◌++◌, contains, map,
}
use controller_runtime.Object.{Object, Request, request_eq, request_for}
use controller_runtime.Event.{
  Event, created, updated, deleted, other, CreateEvent, UpdateEvent, DeleteEvent, GenericEvent,
}
use controller_runtime.Queue.{Call, add}

pub record EventHandler : Type 0 where
  pub create : CreateEvent → List Call
  pub update : UpdateEvent → List Call
  pub delete : DeleteEvent → List Call
  pub generic : GenericEvent → List Call

-- the method that is called for an event
abbrev pub handle : EventHandler → Event → List Call
handle h (created e) = h.create e
handle h (updated e) = h.update e
handle h (deleted e) = h.delete e
handle h (other e) = h.generic e

-- `handler.Funcs`: a nil function does nothing
pub record HandlerFuncs : Type 0 where
  pub create_func : Option (CreateEvent → List Call)
  pub update_func : Option (UpdateEvent → List Call)
  pub delete_func : Option (DeleteEvent → List Call)
  pub generic_func : Option (GenericEvent → List Call)

abbrev pub run_func : {E : Type 0} → Option (E → List Call) → E → List Call
run_func none e = []
run_func (some f) e = f e

unfoldable pub handler_funcs : HandlerFuncs → EventHandler
handler_funcs h = record {
  create = run_func h.create_func;
  update = run_func h.update_func;
  delete = run_func h.delete_func;
  generic = run_func h.generic_func;
}

-- one `q.Add`, unless the object is nil
abbrev pub add_object : Option Object → List Call
add_object none = []
add_object (some o) = add (request_for o) ∷ []

-- the `switch` of `Update`: the new object, or else the old one
abbrev pub add_new_or_old : Option Object → Option Object → List Call
add_new_or_old (some new) old = add (request_for new) ∷ []
add_new_or_old none old = add_object old

unfoldable pub enqueue_request_for_object : EventHandler
unfolding request_for
enqueue_request_for_object = record {
  create = λ e. add_object e.object;
  update = λ e. add_new_or_old e.object_new e.object_old;
  delete = λ e. add_object e.object;
  generic = λ e. add_object e.object;
}

-- the loop of `mapAndEnqueue` over the mapped requests: a request that is not in the set `reqs` is
-- added to the queue and to the set
unfoldable pub enqueue_new : List Request → List Request → List Call × List Request
enqueue_new [] reqs = ([], reqs)
enqueue_new (req ∷ rest) reqs = elim (contains req reqs) [
  | true ↦ enqueue_new rest reqs
  | false ↦ let (calls, seen) = enqueue_new rest (req ∷ reqs) in (add req ∷ calls, seen)
]

-- `EnqueueRequestsFromMapFunc`; the function is handed the object as it stands in the event
module _ (to_requests : Option Object → List Request) where
  unfoldable pub map_and_enqueue : Option Object → List Request → List Call × List Request
  unfolding enqueue_new
  map_and_enqueue object reqs = enqueue_new (to_requests object) reqs

  unfoldable pub enqueue_requests_from_map_func : EventHandler
  unfolding map_and_enqueue
  enqueue_requests_from_map_func = record {
    create = λ e. (map_and_enqueue e.object []).0;
    update = λ e.
        let (calls, reqs) = map_and_enqueue e.object_old [] in
        calls ++ (map_and_enqueue e.object_new reqs).0;
    delete = λ e. (map_and_enqueue e.object []).0;
    generic = λ e. (map_and_enqueue e.object []).0;
  }
