-- ===== src/CreateOrUpdate/Patching/Stages.antt =====
-- The steps of `CreateOrPatch` of pkg/controller/controllerutil/controllerutil.go over a store whose
-- objects have a status.
use controller_runtime.Prelude.{
  ◌≡◌, ◌∙◌, refl, sym, inl, inr, Bool, true, false, not, ◌&&◌, ◌||◌, ◌==◌, Comparable, Option, none,
  some, arith, beq-cases, beq_refl, if◌then◌else◌,
}
use controller_runtime.Prelude.Fallible.{ok}
use controller_runtime.Object.{Request, request_eq}
use controller_runtime.CreateOrUpdate.{
  Client, OperationResult, unchanged, was_updated, was_updated_status, was_updated_status_only,
  UpdateError,
}
use controller_runtime.CreateOrUpdate.Patching.{
  Patches, Snapshot, is_found, snapshot, restored, patch_the_status, compare_statuses,
  compare_bodies,
}

-- A client over a store whose objects have a status subresource, as it is documented. A patch holds the
-- changes from its base to the object: made from a base like what is stored, a patch of the object
-- brings all but the status to what the object has, but for what the server keeps itself (its
-- resource version), which `content` leaves out, and answers with the object as it is stored. A patch
-- of the status does so for the status alone, from a base with the stored status. Objects can be
-- converted, and a status that is set is there.
pub record IsPatchStore {T W E U S : Type 0} (c : Client T W E) (p : Patches T W E U S)
    (lookup : W → Request → Option T) (body : T → U) (status : T → Option S) : Type 0 where
  pub get_found :
      (w : W) (k : Request) (o t : T) → lookup w k ≡ some t → c.get k o w ≡ ((none, t), w)
  pub stored_key : (w : W) (k : Request) (t : T) → lookup w k ≡ some t → c.key_of t ≡ k
  pub whole : (t : T) → U
  pub converted : (t : T) → p.to_unstructured t ≡ ok (whole t)
  pub status_found : (t : T) → p.nested_status (whole t) ≡ ok (status t)
  pub body_left :
      (t : T) → (if is_found (status t) then p.remove_status (whole t) else whole t) ≡ body t
  pub content : U → U
  pub put_back :
      (s : Option S) (t : T)
      → (o : T) × (restored_from : U) × (p.set_status s (whole t) ≡ ok restored_from)
        × (p.from_unstructured restored_from t ≡ (none, o))
        × (c.key_of o ≡ c.key_of t)
        × (status o ≡ s)
  pub patched :
      (w : W) (base obj old : T)
      → lookup w (c.key_of obj) ≡ some old
      → content (body base) ≡ content (body old)
      → (w' : W) × (t : T) × (p.patch base obj w ≡ ((none, t), w'))
        × (lookup w' (c.key_of obj) ≡ some t)
        × (content (body t) ≡ content (body obj))
        × (status t ≡ status old)
        × (c.key_of t ≡ c.key_of obj)
  pub status_patched :
      (w : W) (base obj old : T)
      → lookup w (c.key_of obj) ≡ some old
      → status base ≡ status old
      → (w' : W) × (t : T) × (p.patch_status base obj w ≡ ((none, t), w'))
        × (lookup w' (c.key_of obj) ≡ some t)
        × (content (body t) ≡ content (body old))
        × (status t ≡ status obj)

-- the result, by whether the object and whether its status had to be patched
abbrev pub result_of : (body_same status_same : Bool) → OperationResult
result_of true true = unchanged
result_of true false = was_updated_status_only
result_of false true = was_updated
result_of false false = was_updated_status

module _ {T W E U S : Type 0} ⦃eu : Comparable U⦄ ⦃es : Comparable (Option S)⦄ (c : Client T W E)
    (p : Patches T W E U S) (lookup : W → Request → Option T) (body : T → U) (status : T → Option S)
    (law : IsPatchStore c p lookup body status) where
  abbrev pub parts : T → Snapshot U S
  parts t = record { body = body t; status = status t }

  pub snapshot_lem : (t : T) → snapshot c p t ≡ ok (parts t)
  unfolding snapshot
  snapshot_lem t = rw (law.converted t, law.status_found t, law.body_left t)

  -- the statuses are compared where there is one: where there is none, they are equal
  status_test : (a b : Option S) → ((is_found a || is_found b) && not (a == b)) ≡ not (a == b)
  status_test none none = ground (arith, beq_refl {A = Option S} none)
  status_test none (some b) = refl
  status_test (some a) b = refl

  restored_lem :
      (s : Option S) (t : T)
      → (o : T) × (restored c p s t ≡ (none, o)) × (c.key_of o ≡ c.key_of t) × (status o ≡ s)
  unfolding restored
  restored_lem s t =
      let (o, u, set, from, key, at) = law.put_back s t in
      (o, rw (restored, law.converted t, set) from, key, at)

  -- what is stored under the key of an object, and what the call answered
  abbrev pub Settles :
      Request
      → U
      → Option S
      → OperationResult
      → (OperationResult × Option (UpdateError E)) × T × W
      → Type 0
  Settles key b s result ((r, e), o, w) =
      (r ≡ result)
      × (e ≡ none)
      × ((t : T) × (lookup w key ≡ some t)
          × (law.content (body t) ≡ law.content b)
          × (status t ≡ s))

  pub settled_at :
      {k k' : Request} {b b' : U} {v v' : Option S} {r : OperationResult}
      (a : (OperationResult × Option (UpdateError E)) × T × W)
      → k ≡ k'
      → b ≡ b'
      → v ≡ v'
      → Settles k b v r a
      → Settles k' b' v' r a
  settled_at a ek eb ev h = rw⁻¹ (ek, eb, ev) h

  settled_like :
      {k k' : Request} {b b' : U} {v : Option S} {r : OperationResult}
      (a : (OperationResult × Option (UpdateError E)) × T × W)
      → k ≡ k'
      → law.content b ≡ law.content b'
      → Settles k b v r a
      → Settles k' b' v r a
  settled_like ((r, e), o, w) ek eb (p, q, (t, l, m, n)) = (p, q, (t, rw⁻¹ ek l, m ∙ eb, n))

  patch_the_status_lem :
      (patched : Bool) (base obj cur : T) (w : W)
      → lookup w (c.key_of obj) ≡ some cur
      → status base ≡ status cur
      → Settles
          (c.key_of obj)
          (body cur)
          (status obj)
          (result_of (not patched) false)
          (patch_the_status c p patched base (none, obj) w)
  unfolding patch_the_status
  patch_the_status_lem true base obj cur w held like =
      let (w', t, done, l, b, s) = law.status_patched w base obj cur held like in
      let run : patch_the_status c p true base (none, obj) w ≡ ((was_updated_status, none), t, w') =
        rw (patch_the_status, done) in
      rw run (refl, refl, (t, l, b, s))
  patch_the_status_lem false base obj cur w held like =
      let (w', t, done, l, b, s) = law.status_patched w base obj cur held like in
      let run : patch_the_status c p false base (none, obj) w
          ≡ ((was_updated_status_only, none), t, w') =
        rw (patch_the_status, done) in
      rw run (refl, refl, (t, l, b, s))

  -- where the statuses are the same, nothing is called
  same_statuses :
      (patched : Bool) (base obj : T) (before after : Snapshot U S) (w : W)
      → (before.status == after.status) ≡ true
      → compare_statuses c p patched base before after ((none, obj), w)
        ≡ ((if patched then was_updated else unchanged, none), obj, w)
  unfolding compare_statuses
  same_statuses patched base obj before after w e =
      rw (compare_statuses, status_test before.status after.status, e)

  other_statuses :
      (patched : Bool) (base obj : T) (before after : Snapshot U S) (w : W)
      → (before.status == after.status) ≡ false
      → compare_statuses c p patched base before after ((none, obj), w)
        ≡ patch_the_status c p patched base
            (if patched then restored c p after.status obj else (none, obj))
            w
  unfolding compare_statuses
  other_statuses patched base obj before after w e =
      rw (compare_statuses, status_test before.status after.status, e)

  statuses :
      (patched : Bool) (base obj cur : T) (before after : Snapshot U S) (w : W)
      → lookup w (c.key_of obj) ≡ some cur
      → status base ≡ status cur
      → before.status ≡ status cur
      → (patched ≡ false → status obj ≡ after.status)
      → Settles
          (c.key_of obj)
          (body cur)
          after.status
          (result_of (not patched) (before.status == after.status))
          (compare_statuses c p patched base before after ((none, obj), w))
  statuses patched base obj cur before after w held like sb so =
      elim (beq-cases before.status after.status) [
        | inl (e, same) ↦
            rw (same_statuses patched base obj before after w e, e)
              (unpatched patched, refl, (cur, held, refl, sym sb ∙ same))
        | inr (e, differ) ↦
            rw (other_statuses patched base obj before after w e, e) (last patched so)
      ]
    where
      unpatched : (q : Bool) → (if q then was_updated else unchanged) ≡ result_of (not q) true
      unpatched true = refl
      unpatched false = refl

      last :
          (q : Bool)
          → (q ≡ false → status obj ≡ after.status)
          → Settles (c.key_of obj) (body cur) after.status (result_of (not q) false) (
              patch_the_status c p q base
                (if q then restored c p after.status obj else (none, obj))
                w)
      last false so' =
          settled_at (patch_the_status c p false base (none, obj) w) refl refl (so' refl)
            (patch_the_status_lem false base obj cur w held like)
      last true so' =
          let (o, back, key, at) = restored_lem after.status obj in
          rw back (
            settled_at (patch_the_status c p true base (none, o) w) key refl at
              (patch_the_status_lem true base o cur w (rw key held) like))

  pub bodies :
      (obj old : T) (w : W)
      → lookup w (c.key_of obj) ≡ some old
      → Settles
          (c.key_of obj)
          (body obj)
          (status obj)
          (result_of (body old == body obj) (status old == status obj))
          (compare_bodies c p old (parts old) (parts obj) obj w)
  unfolding compare_bodies
  bodies obj old w held = elim (beq-cases (body old) (body obj)) [
    | inl (e, same) ↦
        let run : compare_bodies c p old (parts old) (parts obj) obj w
            ≡ compare_statuses c p false old (parts old) (parts obj) ((none, obj), w) =
          rw (compare_bodies, e) in
        rw (run, e)
          (settled_at (compare_statuses c p false old (parts old) (parts obj) ((none, obj), w)) refl
            same refl
            (statuses false old obj old (parts old) (parts obj) w held refl refl (λ _. refl)))
    | inr (e, differ) ↦
        let (w', t, done, l, b, s, key) = law.patched w old obj old held refl in
        let run : compare_bodies c p old (parts old) (parts obj) obj w
            ≡ compare_statuses c p true old (parts old) (parts obj) ((none, t), w') =
          rw (compare_bodies, e, done) in
        rw (run, e)
          (settled_like (compare_statuses c p true old (parts old) (parts obj) ((none, t), w')) key
            b
            (statuses true old t t (parts old) (parts obj) w' (rw key l) (sym s) (sym s) (λ h. cc)))
  ]
