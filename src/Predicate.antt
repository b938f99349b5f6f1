-- ===== src/Predicate.antt =====
-- pkg/predicate/predicate.go: the filters of events. A predicate is the record of its four methods;
-- `Funcs` are four function fields that may be nil. Log lines are left out.
pub mod Laws
pub mod Maps
mod Examples
use controller_runtime.Prelude.{
  inr, inl, ◌⊎◌, String, Bool, true, false, not, ◌==◌, ◌/=◌, string_eq, int_eq, Option, none, some,
  List, if◌then◌else◌, any, all,
}
use controller_runtime.Object.{Object}
use controller_runtime.Event.{
  Event, created, updated, deleted, other, CreateEvent, UpdateEvent, DeleteEvent, GenericEvent,
}
use controller_runtime.Predicate.Maps.{StringMap, deep_equal}

pub record Predicate : Type 0 where
  pub create : CreateEvent → Bool
  pub delete : DeleteEvent → Bool
  pub update : UpdateEvent → Bool
  pub generic : GenericEvent → Bool

-- the method that is called for an event
abbrev pub admits : Predicate → Event → Bool
admits p (created e) = p.create e
admits p (updated e) = p.update e
admits p (deleted e) = p.delete e
admits p (other e) = p.generic e

pub record Funcs : Type 0 where
  pub create_func : Option (CreateEvent → Bool)
  pub delete_func : Option (DeleteEvent → Bool)
  pub update_func : Option (UpdateEvent → Bool)
  pub generic_func : Option (GenericEvent → Bool)

-- a nil function admits the event
abbrev pub call_func : {E : Type 0} → Option (E → Bool) → E → Bool
call_func none e = true
call_func (some f) e = f e

unfoldable pub funcs : Funcs → Predicate
funcs p = record {
  create = call_func p.create_func;
  delete = call_func p.delete_func;
  update = call_func p.update_func;
  generic = call_func p.generic_func;
}

abbrev pub no_funcs : Funcs
no_funcs = record {
  create_func = none;
  delete_func = none;
  update_func = none;
  generic_func = none;
}

-- `NewPredicateFuncs`; the filter is handed the object as it stands in the event, nil or not
unfoldable pub new_predicate_funcs : (Option Object → Bool) → Funcs
new_predicate_funcs filter = record {
  create_func = some (λ e. filter e.object);
  delete_func = some (λ e. filter e.object);
  update_func = some (λ e. filter e.object_new);
  generic_func = some (λ e. filter e.object);
}

-- the two guards that the `Update` methods share, and their comparison
abbrev pub on_both : (Object → Object → Bool) → UpdateEvent → Bool
on_both changed e = elim e.object_old [
  | none ↦ false
  | some old ↦ elim e.object_new [ none ↦ false | some new ↦ changed new old ]
]

unfoldable pub resource_version_changed : Predicate
unfolding funcs
resource_version_changed = record (funcs no_funcs) {
  update = on_both (λ new old. new.resource_version /= old.resource_version);
}

unfoldable pub generation_changed : Predicate
unfolding funcs
generation_changed = record (funcs no_funcs) {
  update = on_both (λ new old. new.generation /= old.generation);
}

unfoldable pub annotation_changed : Predicate
unfolding funcs
annotation_changed = record (funcs no_funcs) {
  update = on_both (λ new old. not (deep_equal new.annotations old.annotations));
}

unfoldable pub label_changed : Predicate
unfolding funcs
label_changed = record (funcs no_funcs) {
  update = on_both (λ new old. not (deep_equal new.labels old.labels));
}

-- `And`: the loops return false at the first predicate that rejects
unfoldable pub and_of : List Predicate → Predicate
and_of ps = record {
  create = λ e. all (λ (p : Predicate). p.create e) ps;
  delete = λ e. all (λ (p : Predicate). p.delete e) ps;
  update = λ e. all (λ (p : Predicate). p.update e) ps;
  generic = λ e. all (λ (p : Predicate). p.generic e) ps;
}

-- `Or`: the loops return true at the first predicate that admits
unfoldable pub or_of : List Predicate → Predicate
or_of ps = record {
  create = λ e. any (λ (p : Predicate). p.create e) ps;
  delete = λ e. any (λ (p : Predicate). p.delete e) ps;
  update = λ e. any (λ (p : Predicate). p.update e) ps;
  generic = λ e. any (λ (p : Predicate). p.generic e) ps;
}

-- `LabelSelectorPredicate`. The selector language is apimachinery's: `as_selector` is
-- `metav1.LabelSelectorAsSelector`, which fails or gives what `selector.Matches` computes. The
-- filter reads the labels of the object, so a nil object is a nil dereference, here `nil_deref`.
module _ {S Err : Type 0} (as_selector : S → Err ⊎ (StringMap → Bool)) (nil_deref : Bool) where
  unfoldable pub label_selector_predicate : S → Err ⊎ Predicate
  unfolding funcs new_predicate_funcs
  label_selector_predicate s = elim (as_selector s) [
    | inl err ↦ inl err
    | inr matches ↦ inr (
        funcs
          (new_predicate_funcs (λ o. elim o [ none ↦ nil_deref | some obj ↦ matches obj.labels ])))
  ]
