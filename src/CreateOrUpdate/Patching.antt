-- ===== src/CreateOrUpdate/Patching.antt =====
-- `CreateOrPatch` of pkg/controller/controllerutil/controllerutil.go, over a client and the conversion
-- of objects to unstructured data, of a type `U`, in which a status `S` is looked up.
pub mod Stages
pub mod Convergence
mod Examples
use controller_runtime.Prelude.{
  Bool, true, false, not, ◌&&◌, ◌||◌, ◌==◌, Comparable, Option, none, some, if◌then◌else◌,
}
use controller_runtime.Prelude.Fallible.{Fallible, ok, err, ◌>>=◌}
use controller_runtime.Object.{Request}
use controller_runtime.CreateOrUpdate.{
  Client, OperationResult, unchanged, was_created, was_updated, was_updated_status,
  was_updated_status_only, UpdateError, foreign, mutate, written,
}

-- `ToUnstructured`, `FromUnstructured`, the functions on the nested field "status", and the two
-- calls that patch: they take the copy that the patch was made from, and the object
pub record Patches (T W E U S : Type 0) : Type 0 where
  pub to_unstructured : T → Fallible E U
  pub from_unstructured : U → T → Option E × T
  pub nested_status : U → Fallible E (Option S)
  pub remove_status : U → U
  pub set_status : Option S → U → Fallible E U
  pub patch : T → T → W → (Option E × T) × W
  pub patch_status : T → T → W → (Option E × T) × W

-- an object without its status, and the status, if there is one
pub record Snapshot (U S : Type 0) : Type 0 where
  pub body : U
  pub status : Option S

abbrev pub is_found : {S : Type 0} → Option S → Bool
is_found none = false
is_found (some s) = true

module _ {T W E U S : Type 0} ⦃eu : Comparable U⦄ ⦃es : Comparable (Option S)⦄ (c : Client T W E)
    (p : Patches T W E U S) where
  -- the copy as unstructured data, without the status
  unfoldable pub snapshot : T → Fallible E (Snapshot U S)
  snapshot t = do
    u ← p.to_unstructured t
    s ← p.nested_status u
    ok (record { body = if is_found s then p.remove_status u else u; status = s })

  abbrev pub Answer : Type 0
  Answer = (OperationResult × Option (UpdateError E)) × T × W

  -- `mutate`, where the function is not nil
  abbrev pub mutate_if :
      Option (T → W → (Option E × T) × W) → Request → T → W → (Option (UpdateError E) × T) × W
  mutate_if none key obj w = ((none, obj), w)
  mutate_if (some f) key obj w = mutate c f key obj w

  -- what `c.Create` answers
  abbrev pub new_written : (Option E × T) × W → Answer
  new_written ((some e, obj), w) = ((unchanged, some (foreign e)), obj, w)
  new_written ((none, obj), w) = ((was_created, none), obj, w)

  -- the branch of an object that is not found
  abbrev pub created : (Option (UpdateError E) × T) × W → Answer
  created ((some e, obj), w) = ((unchanged, some e), obj, w)
  created ((none, obj), w) = new_written (c.create obj w)

  -- the status is put back into an object that the first patch has replaced
  unfoldable pub restored : Option S → T → Option E × T
  restored s obj = elim (p.to_unstructured obj >>= p.set_status s) [
    | err e ↦ (some e, obj)
    | ok u ↦ p.from_unstructured u obj
  ]

  abbrev pub status_result : Bool → OperationResult
  status_result patched = if patched then was_updated_status else was_updated_status_only

  abbrev pub body_result : Bool → OperationResult
  body_result patched = if patched then was_updated else unchanged

  -- what the patch of the status answers; `patched` is whether the object was patched before
  abbrev pub status_written : Bool → (Option E × T) × W → Answer
  status_written patched ((some e, obj), w) = ((body_result patched, some (foreign e)), obj, w)
  status_written patched ((none, obj), w) = ((status_result patched, none), obj, w)

  -- the patch of the status
  unfoldable pub patch_the_status : Bool → T → Option E × T → W → Answer
  patch_the_status patched base (some e, obj) w = ((body_result patched, some (foreign e)), obj, w)
  patch_the_status patched base (none, obj) w = status_written patched (p.patch_status base obj w)

  -- from the comparison of the statuses on
  unfoldable pub compare_statuses :
      Bool → T → Snapshot U S → Snapshot U S → (Option E × T) × W → Answer
  compare_statuses patched base before after ((some e, obj), w) =
      ((unchanged, some (foreign e)), obj, w)
  compare_statuses patched base before after ((none, obj), w) =
      let whole = if patched then restored after.status obj else (none, obj) in
      let status = patch_the_status patched base whole w in
      if (is_found before.status || is_found after.status) && not (before.status == after.status)
      then status
      else ((body_result patched, none), obj, w)

  -- from the comparison of the objects on
  unfoldable pub compare_bodies : T → Snapshot U S → Snapshot U S → T → W → Answer
  compare_bodies base before after obj w =
      if not (before.body == after.body)
      then compare_statuses true base before after (p.patch base obj w)
      else compare_statuses false base before after ((none, obj), w)

  -- from the mutation on
  unfoldable pub after_mutate : T → Snapshot U S → (Option (UpdateError E) × T) × W → Answer
  after_mutate base before ((some e, obj), w) = ((unchanged, some e), obj, w)
  after_mutate base before ((none, obj), w) = elim (snapshot obj) [
    | err e ↦ ((unchanged, some (foreign e)), obj, w)
    | ok after ↦ compare_bodies base before after obj w
  ]

  -- the branch of an object that exists
  unfoldable pub patch_existing : Option (T → W → (Option E × T) × W) → Request → T → W → Answer
  patch_existing f key obj w = elim (snapshot obj) [
    | err e ↦ ((unchanged, some (foreign e)), obj, w)
    | ok before ↦ after_mutate obj before (mutate_if f key obj w)
  ]

  -- what follows `c.Get`
  abbrev pub after_read :
      Option (T → W → (Option E × T) × W) → Request → (Option E × T) × W → Answer
  after_read f key ((none, obj), w) = patch_existing f key obj w
  after_read f key ((some e, obj), w) =
      if not (c.is_not_found e)
      then ((unchanged, some (foreign e)), obj, w)
      else created (mutate_if f key obj w)

  unfoldable pub create_or_patch : Option (T → W → (Option E × T) × W) → T → W → Answer
  create_or_patch f obj w = after_read f (c.key_of obj) (c.get (c.key_of obj) obj w)
