-- ===== src/Predicate/Laws.antt =====
-- What the predicates of pkg/predicate/predicate.go admit.
use controller_runtime.Prelude.{
  ◌≡◌, refl, ◌↔◌, inl, inr, true, false, not, string_eq, int_eq, Option, none, some, List, [], ◌∷◌,
  arith, All, Any, all, all_iff, any_iff, beq-cases,
}
use controller_runtime.Object.{Object}
use controller_runtime.Event.{Event, created, updated, deleted, other, UpdateEvent}
use controller_runtime.Predicate.{
  Predicate, admits, and_of, or_of, generation_changed, annotation_changed,
}
use controller_runtime.Predicate.Maps.{StringMap, SameMap, IsStringMap, deep_equal, deep_equal_iff}

-- `And` admits an event, of any of the four kinds, exactly when every predicate admits it, and `Or`
-- exactly when some predicate does.
pub admits-and_of-or_of :
    (ps : List Predicate) (e : Event)
    → ((admits (and_of ps) e ≡ true) ↔ All (λ p. admits p e ≡ true) ps)
      × ((admits (or_of ps) e ≡ true) ↔ Any (λ p. admits p e ≡ true) ps)
unfolding and_of or_of
admits-and_of-or_of ps (created e) = (all_iff _ ps, any_iff _ ps)
admits-and_of-or_of ps (updated e) = (all_iff _ ps, any_iff _ ps)
admits-and_of-or_of ps (deleted e) = (all_iff _ ps, any_iff _ ps)
admits-and_of-or_of ps (other e) = (all_iff _ ps, any_iff _ ps)

-- A list of predicates, or one `And` of them, decide alike.
pub all-admits : (ps : List Predicate) (e : Event) → all (λ p. admits p e) ps ≡ admits (and_of ps) e
unfolding and_of
all-admits ps (created e) = refl
all-admits ps (updated e) = refl
all-admits ps (deleted e) = refl
all-admits ps (other e) = refl

deep_equal-false :
    (a b : StringMap) → IsStringMap a → IsStringMap b → (not (deep_equal a b) ≡ false) ↔ SameMap a b
deep_equal-false a b ma mb =
    let both = deep_equal_iff a b ma mb in (λ h. both.0 (ground arith), λ s. rw (both.1 s))

-- `P` of the old and the new object of an update, if it has both
abbrev pub OfBoth : (Object → Object → Type 0) → Option Object → Option Object → Type 0
OfBoth P none new = Unit
OfBoth P (some old) none = Unit
OfBoth P (some old) (some new) = P old new

-- the annotations are maps
abbrev pub HasMaps : UpdateEvent → Type 0
HasMaps e =
    OfBoth (λ old new. IsStringMap old.annotations × IsStringMap new.annotations) e.object_old
      e.object_new

-- one of the objects is missing, or both generation and annotations are as they were
abbrev pub IsUnchanged : UpdateEvent → Type 0
IsUnchanged e =
    OfBoth (λ old new. (new.generation ≡ old.generation) × SameMap new.annotations old.annotations)
      e.object_old e.object_new

generation_or_annotation :
    (old new : Option Object)
    → OfBoth (λ o n. IsStringMap o.annotations × IsStringMap n.annotations) old new
    → let e : UpdateEvent = record { object_old = old; object_new = new } in
      ((or_of (generation_changed ∷ annotation_changed ∷ [])).update e ≡ false) ↔ IsUnchanged e
unfolding or_of generation_changed annotation_changed
generation_or_annotation none new h = (λ p. tt, λ p. refl)
generation_or_annotation (some old) none h = (λ p. tt, λ p. refl)
generation_or_annotation (some old) (some new) h =
    let maps = deep_equal-false new.annotations old.annotations h.1 h.0 in
    elim (beq-cases new.generation old.generation) [
      | inl same ↦ rw same.0 (λ p. (same.1, maps.0 (ground arith)), λ p. rw (maps.1 p.1))
      | inr differ ↦ rw differ.0 (λ p. cc, λ p. absurd (differ.1 p.0))
    ]

-- The combination that the documentation recommends, `Or(GenerationChangedPredicate{},
-- AnnotationChangedPredicate{})`, drops an update exactly when one of its objects is missing or both
-- the generation is the same and the annotations are alike (each nil or not, with the same value at
-- every key), provided that the annotations are maps: no key stands twice.
pub or_of-generation-annotation :
    (e : UpdateEvent)
    → HasMaps e
    → ((or_of (generation_changed ∷ annotation_changed ∷ [])).update e ≡ false) ↔ IsUnchanged e
or_of-generation-annotation e h = generation_or_annotation e.object_old e.object_new h
