-- ===== src/FakeClient/Laws.antt =====
-- What an update and a deletion by pkg/client/fake/client.go do to an object that is stored.
use Prim.Native.String.{String}
use controller_runtime.Prelude.{
  ℕ, ◌+◌, ◌%◌, ◌^◌, ◌==◌, string_eq, ◌≡◌, refl, ap, inl, inr, Bool, true, false, ◌&&◌, ◌||◌, Option,
  none, some, arith, if◌then◌else◌, Bool-cases, beq_refl,
}
use controller_runtime.Prelude.Fallible.{Fallible, ok}
use controller_runtime.Schema.{GroupVersionKind}
use controller_runtime.FakeClient.Numerals.{parse_uint, format_uint}
use controller_runtime.FakeClient.{
  FakeObject, Tracker, conflict, foreign_of, allows_unconditional_update, is_empty_kind,
  with_version, is_released, with_default_version, stored, update_over, tracker_update,
}

-- The store that the calls of client-go read and write: one object for a resource, a namespace and a
-- name. An update writes a present object whose namespace is the one of the call; a deletion
-- takes a present one out.
pub record IsTracker {G D Err S : Type 0} (k : Tracker G D Err S)
    (lookup : S → G → String → String → Option (FakeObject D)) : Type 0 where
  pub get_found :
      (s : S) (g : G) (ns n : String) (o : FakeObject D)
      → lookup s g ns n ≡ some o
      → k.get g ns n s ≡ ok o
  pub update_found :
      (s : S) (g : G) (ns : String) (o old : FakeObject D)
      → lookup s g ns o.meta.name ≡ some old
      → o.meta.namespace ≡ ns
      → ((k.update g o ns s).1 ≡ none) × (lookup (k.update g o ns s).0 g ns o.meta.name ≡ some o)
  pub delete_found :
      (s : S) (g : G) (ns n : String) (old : FakeObject D)
      → lookup s g ns n ≡ some old
      → ((k.delete g ns n s).1 ≡ none) × (lookup (k.delete g ns n s).0 g ns n ≡ none)

-- the version after `n`, as it is printed
abbrev pub next_version : ℕ → String
next_version n = format_uint ((n + 1) % 2 ^ 64)

-- the number of a version, where none is zero
abbrev pub number_of : String → Option ℕ
number_of version = parse_uint (if version == "" then "0" else version)

module _ {D : Type 0} where
  -- the versions agree, or the object has none and its kind needs none
  abbrev pub is_current : GroupVersionKind → FakeObject D → FakeObject D → Bool
  is_current gvk obj old =
      obj.meta.resource_version == old.meta.resource_version
      || (obj.meta.resource_version == "" && allows_unconditional_update gvk)

module _ {G D Err S : Type 0} {k : Tracker G D Err S}
    {lookup : S → G → String → String → Option (FakeObject D)} (law : IsTracker k lookup) where
  stored_lem :
      (g : G) (o old : FakeObject D) (ns : String) (s : S)
      → lookup s g ns o.meta.name ≡ some old
      → o.meta.namespace ≡ ns
      → ((stored k g o ns s).2 ≡ none)
        × (lookup (stored k g o ns s).1 g ns o.meta.name ≡ (if is_released o then none else some o))
  unfolding stored
  stored_lem g o old ns s found here = elim (Bool-cases (is_released o)) [
    | inl r ↦
        let gone = law.delete_found s g ns o.meta.name old found in
        rw (r, here) (ap foreign_of gone.0, gone.1)
    | inr r ↦
        let there = law.update_found s g ns o old found here in
        rw r (ap foreign_of there.0, there.1)
  ]

module _ {D : Type 0} (gvk : GroupVersionKind) (obj old : FakeObject D) where
  defaulted-current :
      is_current gvk obj old ≡ true
      → let o = with_default_version gvk old.meta.resource_version obj in
        ((o.meta.resource_version == old.meta.resource_version) ≡ true)
        × ((v : String) → with_version v o ≡ with_version v obj)
  defaulted-current current =
      elim (Bool-cases (obj.meta.resource_version == "" && allows_unconditional_update gvk)) [
        | inl e ↦ rw e (beq_refl old.meta.resource_version, λ v. refl)
        | inr e ↦ rw e (ground (arith, current, e), λ v. refl)
      ]

  defaulted-stale :
      is_current gvk obj old ≡ false
      → (with_default_version gvk old.meta.resource_version obj ≡ obj)
        × ((obj.meta.resource_version == old.meta.resource_version) ≡ false)
  defaulted-stale stale =
      elim (Bool-cases (obj.meta.resource_version == "" && allows_unconditional_update gvk)) [
        | inl e ↦ ground (arith, stale, e)
        | inr e ↦ rw e (refl, ground (arith, stale, e))
      ]

module _ {G D Err S : Type 0} {k : Tracker G D Err S}
    {lookup : S → G → String → String → Option (FakeObject D)} (law : IsTracker k lookup) where
  module _ (of_scheme : Fallible Err GroupVersionKind) (gvk : GroupVersionKind) (g : G) where
    -- An update of an object that is stored, with a version that is a number of 64 bits: where its version
    -- is the stored one's, or is empty and its kind allows that, it succeeds, and the object is
    -- stored with the next version, which is zero after the last one, or is gone if it is being deleted and has no
    -- finalizer left. Otherwise it is a conflict, and nothing changes.
    pub tracker_update_lem :
        (obj old : FakeObject D) (ns : String) (s : S) (n : ℕ)
        → (obj.meta.name == "") ≡ false
        → (if is_empty_kind obj.kind then of_scheme else ok obj.kind) ≡ ok gvk
        → lookup s g ns obj.meta.name ≡ some old
        → obj.meta.namespace ≡ ns
        → number_of old.meta.resource_version ≡ some n
        → (is_current gvk obj old ≡ true
            → ((tracker_update k of_scheme g obj ns s).2 ≡ none)
              × (lookup (tracker_update k of_scheme g obj ns s).1 g ns obj.meta.name
                  ≡ (if is_released obj then none else some (with_version (next_version n) obj))))
          × (is_current gvk obj old ≡ false
              → tracker_update k of_scheme g obj ns s ≡ (obj, s, some conflict))
    unfolding tracker_update update_over
    tracker_update_lem obj old ns s n named kind found here version =
        let got = law.get_found s g ns obj.meta.name old found in
        (
          (λ current.
              let d = defaulted-current gvk obj old current in
              let done = stored_lem law g (with_version (next_version n) obj) old ns s found here in
              let update : tracker_update k of_scheme g obj ns s
                  ≡ stored k g (with_version (next_version n) obj) ns s =
                rw (named, kind, got, d.0, version, d.1 (next_version n)) in
              rw update done),
          λ stale. let d = defaulted-stale gvk obj old stale in rw (named, kind, got, d.0, d.1),
        )
