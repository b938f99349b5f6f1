-- ===== src/FakeClient/Histories.antt =====
-- Several calls of pkg/client/fake/client.go one after the other: two writers, and a deletion that
-- finalizers hold back.
use Prim.Native.String.{String}
use controller_runtime.Prelude.{
  nat_eq_class, ℕ, ◌+◌, ◌%◌, ◌^◌, ◌<◌, ◌==◌, string_eq, ◌≡◌, ◌≢◌, refl, ap, sym, ◌∙◌, inl, inr,
  true, false, Option, none, some, [], arith, if◌then◌else◌, Bool-cases, beq-cases, beq_refl,
}
use controller_runtime.Prelude.Fallible.{Fallible, ok}
use controller_runtime.Schema.{GroupVersionKind}
use controller_runtime.FakeClient.Numerals.{
  parse_uint-format_uint, format_uint-ne, parse_uint-bound,
}
use controller_runtime.FakeClient.{
  FakeObject, Tracker, conflict, foreign_of, is_empty_kind, with_version, is_released,
  tracker_update, is_empty, with_deletion_timestamp, delete_object,
}
use controller_runtime.FakeClient.Laws.{
  IsTracker, next_version, number_of, is_current, tracker_update_lem,
}

-- a printed version is the number it was printed from
number_of-next : (n : ℕ) → number_of (next_version n) ≡ some ((n + 1) % 2 ^ 64)
number_of-next n =
    rw (format_uint-ne ((n + 1) % 2 ^ 64)) (parse_uint-format_uint ((n + 1) % 2 ^ 64) (omega arith))

moves_on : (n : ℕ) → n < 2 ^ 64 → n ≢ (n + 1) % 2 ^ 64
moves_on n h e = omega arith

number_of-bound : (version : String) (n : ℕ) → number_of version ≡ some n → n < 2 ^ 64
number_of-bound version n h = parse_uint-bound _ n h

-- the next version is another text
next_version-ne :
    (version : String) (n : ℕ) → number_of version ≡ some n → (version == next_version n) ≡ false
next_version-ne version n h = elim (beq-cases version (next_version n)) [
  | inr e ↦ e.0
  | inl e ↦
      let same : some n ≡ some ((n + 1) % 2 ^ 64) = sym h ∙ ap number_of e.1 ∙ number_of-next n in
      absurd (moves_on n (number_of-bound version n h) cc)
]

module _ {G D Err S : Type 0} {k : Tracker G D Err S}
    {lookup : S → G → String → String → Option (FakeObject D)} (law : IsTracker k lookup) where
  module _ (of_scheme : Fallible Err GroupVersionKind) (gvk : GroupVersionKind) (g : G) where
    -- Two writers have read one version of an object, which is a number of 64 bits: the first update
    -- succeeds, and, unless it has taken the object out, the second one is a conflict and changes nothing.
    pub second_writer-conflict :
        (a b old : FakeObject D) (s : S) (n : ℕ)
        → (a.meta.name == "") ≡ false
        → b.meta.name ≡ a.meta.name
        → b.meta.namespace ≡ a.meta.namespace
        → (if is_empty_kind a.kind then of_scheme else ok a.kind) ≡ ok gvk
        → (if is_empty_kind b.kind then of_scheme else ok b.kind) ≡ ok gvk
        → lookup s g a.meta.namespace a.meta.name ≡ some old
        → number_of old.meta.resource_version ≡ some n
        → (old.meta.resource_version == "") ≡ false
        → a.meta.resource_version ≡ old.meta.resource_version
        → b.meta.resource_version ≡ old.meta.resource_version
        → is_released a ≡ false
        → let first = tracker_update k of_scheme g a a.meta.namespace s in
          (first.2 ≡ none)
          × (tracker_update k of_scheme g b a.meta.namespace first.1 ≡ (b, first.1, some conflict))
    second_writer-conflict a b old s n named name_b ns_b kind_a kind_b found version nonempty va vb
          kept =
        let ns = a.meta.namespace in
        let current : is_current gvk a old ≡ true = rw (va, beq_refl old.meta.resource_version) in
        let wrote =
          (tracker_update_lem law of_scheme gvk g a old ns s n named kind_a found refl version).0
            current in
        let s' = (tracker_update k of_scheme g a ns s).1 in
        let new = with_version (next_version n) a in
        let there : lookup s' g ns b.meta.name ≡ some new = rw name_b (wrote.1 ∙ rw kept) in
        let stale : is_current gvk b new ≡ false =
          rw (vb, next_version-ne old.meta.resource_version n version, nonempty) in
        let named_b : (b.meta.name == "") ≡ false = rw name_b named in
        (
          wrote.0,
          (tracker_update_lem law of_scheme gvk g b new ns s' ((n + 1) % 2 ^ 64) named_b kind_b
                there ns_b (number_of-next n)).1
              stale,
        )

module _ {D : Type 0} where
  abbrev pub without_finalizers : FakeObject D → FakeObject D
  without_finalizers o = record o { meta = record (o.meta) { finalizers = [] } }

  -- the object as a deletion that is held back leaves it
  abbrev pub marked : ℕ → ℕ → FakeObject D → FakeObject D
  marked now n old = with_version (next_version n) (with_deletion_timestamp now old)

module _ {G D Err S : Type 0} {k : Tracker G D Err S}
    {lookup : S → G → String → String → Option (FakeObject D)} (law : IsTracker k lookup) where
  module _ (of_stored : Fallible Err GroupVersionKind) (gvk : GroupVersionKind) (g : G) where
    -- A deletion, at a time that is not zero, of an object that is stored, with a version that is a
    -- number of 64 bits, succeeds. An object
    -- without finalizers is gone. Another one stays, with the time of the deletion and the next
    -- version; an update of it that takes its finalizers away succeeds, and then it is gone.
    pub delete_object_lem :
        (old : FakeObject D) (s : S) (now n : ℕ)
        → (old.meta.name == "") ≡ false
        → (if is_empty_kind old.kind then of_stored else ok old.kind) ≡ ok gvk
        → lookup s g old.meta.namespace old.meta.name ≡ some old
        → number_of old.meta.resource_version ≡ some n
        → (now == 0) ≡ false
        → let ns = old.meta.namespace in
          let deleted = delete_object k now of_stored g ns old.meta.name s in
          let released =
            tracker_update k of_stored g (without_finalizers (marked now n old)) ns deleted.0 in
          (deleted.1 ≡ none)
          × (is_empty old.meta.finalizers ≡ true → lookup deleted.0 g ns old.meta.name ≡ none)
          × (is_empty old.meta.finalizers ≡ false
              → (lookup deleted.0 g ns old.meta.name ≡ some (marked now n old))
                × (released.2 ≡ none)
                × (lookup released.1 g ns old.meta.name ≡ none))
    unfolding delete_object
    delete_object_lem old s now n named kind found version later =
        let ns = old.meta.namespace in
        let got = law.get_found s g ns old.meta.name old found in
        elim (Bool-cases (is_empty old.meta.finalizers)) [
          | inl e ↦
              let gone = law.delete_found s g ns old.meta.name old found in
              let plain : delete_object k now of_stored g ns old.meta.name s ≡ (
                (k.delete g ns old.meta.name s).0,
                foreign_of (k.delete g ns old.meta.name s).1,
              ) =
                rw (delete_object, got, e) in
              rw plain (ap foreign_of gone.0, (λ _. gone.1), λ h. cc)
          | inr e ↦
              let o = with_deletion_timestamp now old in
              let current : is_current gvk o old ≡ true = rw (beq_refl old.meta.resource_version) in
              let wrote =
                (tracker_update_lem law of_stored gvk g o old ns s n named kind found refl
                    version).0
                  current in
              let s' = (tracker_update k of_stored g o ns s).1 in
              let m = marked now n old in
              let kept : is_released o ≡ false = rw (later, e) in
              let there : lookup s' g ns old.meta.name ≡ some m = wrote.1 ∙ rw kept in
              let freed : is_released (without_finalizers m) ≡ true = rw later in
              let current' : is_current gvk (without_finalizers m) m ≡ true =
                rw (beq_refl (next_version n)) in
              let last =
                (tracker_update_lem law of_stored gvk g (without_finalizers m) m ns s'
                    ((n + 1) % 2 ^ 64) named kind there refl (number_of-next n)).0
                  current' in
              let held : delete_object k now of_stored g ns old.meta.name s
                  ≡ (s', (tracker_update k of_stored g o ns s).2) =
                rw (delete_object, got, e) in
              rw held (wrote.0, (λ h. cc), λ _. (there, last.0, last.1 ∙ rw freed))
        ]
