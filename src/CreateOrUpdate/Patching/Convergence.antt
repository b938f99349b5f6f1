-- ===== src/CreateOrUpdate/Patching/Convergence.antt =====
-- `CreateOrPatch` of pkg/controller/controllerutil/controllerutil.go brings an object and its status to
-- their desired state.
use controller_runtime.Prelude.{
  ◌≡◌, ◌∙◌, refl, ◌==◌, Comparable, Option, none, some, arith, beq-cases,
}
use controller_runtime.Object.{Request, request_eq}
use controller_runtime.CreateOrUpdate.{Client, mutate}
use controller_runtime.CreateOrUpdate.Patching.{
  Patches, compare_bodies, after_mutate, patch_existing, create_or_patch,
}
use controller_runtime.CreateOrUpdate.Patching.Stages.{
  IsPatchStore, result_of, Settles, parts, snapshot_lem, settled_at, bodies,
}

module _ {T W E U S : Type 0} ⦃eu : Comparable U⦄ ⦃es : Comparable (Option S)⦄ (c : Client T W E)
    (p : Patches T W E U S) (lookup : W → Request → Option T) (body : T → U) (status : T → Option S)
    (law : IsPatchStore c p lookup body status) where
  mutate_lem :
      (desired : T → T) (k : Request) (t : T) (w : W)
      → c.key_of (desired t) ≡ k
      → mutate c (λ o u. ((none, desired o), u)) k t w ≡ ((none, desired t), w)
  unfolding mutate
  mutate_lem desired k t w h = ground (arith, beq-cases k (c.key_of (desired t)), h)

  -- Over a client whose patches write a store as documented, with a `MutateFn` that sets a desired state
  -- and keeps the object's key: `CreateOrPatch` of an object that is stored returns no error,
  -- and what is stored then is the desired object with the desired status, but for what the server
  -- keeps itself, although the first patch answers with the old status. It returns which of the two had to be patched.
  pub create_or_patch_lem :
      (desired : T → T) (obj old : T) (w : W)
      → lookup w (c.key_of obj) ≡ some old
      → c.key_of (desired old) ≡ c.key_of old
      → Settles c p lookup body status law
          (c.key_of obj)
          (body (desired old))
          (status (desired old))
          (result_of (body old == body (desired old)) (status old == status (desired old)))
          (create_or_patch c p (some (λ o u. ((none, desired o), u))) obj w)
  unfolding create_or_patch patch_existing after_mutate
  create_or_patch_lem desired obj old w held same_key =
      let key = c.key_of obj in
      let f : Option (T → W → (Option E × T) × W) = some (λ o u. ((none, desired o), u)) in
      let at : c.key_of (desired old) ≡ key = same_key ∙ law.stored_key w key old held in
      let found : create_or_patch c p f obj w ≡ patch_existing c p f key old w =
        rw (create_or_patch, law.get_found w key obj old held) in
      let mutated : patch_existing c p f key old w
          ≡ after_mutate c p old (parts c p lookup body status law old) ((none, desired old), w) =
        rw (
          patch_existing,
          snapshot_lem c p lookup body status law old,
          mutate_lem desired key old w at,
        ) in
      let compared : after_mutate c p old (parts c p lookup body status law old)
            ((none, desired old), w)
          ≡ compare_bodies c p old (parts c p lookup body status law old)
              (parts c p lookup body status law (desired old)) (desired old) w =
        rw (after_mutate, snapshot_lem c p lookup body status law (desired old)) in
      rw (found ∙ mutated ∙ compared) (
        settled_at c p lookup body status law
          (compare_bodies c p old (parts c p lookup body status law old)
            (parts c p lookup body status law (desired old)) (desired old) w)
          at refl refl (bodies c p lookup body status law (desired old) old w (rw at held)))
