-- ===== src/CreateOrUpdate/Convergence.antt =====
-- `CreateOrUpdate` of pkg/controller/controllerutil/controllerutil.go brings an object to its desired
-- state, and leaves it there.
use controller_runtime.Prelude.{
  Bool, ◌≡◌, ◌∙◌, refl, sym, ap, ◌⊎◌, inl, inr, true, false, Option, none, some, arith, beq-cases,
  Bool-cases, Option-cases,
}
use controller_runtime.Object.{Request, request_eq}
use controller_runtime.CreateOrUpdate.{
  Client, OperationResult, unchanged, was_created, was_updated, UpdateError, mutate, after_get,
  update_existing, create_new, create_or_update,
}

-- A client over a store, as it is documented: the store holds objects under their keys; `Get` reads
-- it, `Create` and `Update` write it where the object is missing or present, an update provided that
-- its object is fresh: it has the version of the stored one. The server stamps what it writes (its
-- resource version, its UID).
pub record IsStore {T W E : Type 0} (c : Client T W E) (lookup : W → Request → Option T)
    (stamp : T → T) : Type 0 where
  pub stored_key : (w : W) (k : Request) (t : T) → lookup w k ≡ some t → c.key_of t ≡ k
  pub stamp_key : (t : T) → c.key_of (stamp t) ≡ c.key_of t
  pub get_found :
      (w : W) (k : Request) (o t : T) → lookup w k ≡ some t → c.get k o w ≡ ((none, t), w)
  pub get_missing :
      (w : W) (k : Request) (o : T)
      → lookup w k ≡ none
      → (e : E) × (c.get k o w ≡ ((some e, o), w)) × (c.is_not_found e ≡ true)
  pub create_missing :
      (w : W) (t : T)
      → lookup w (c.key_of t) ≡ none
      → (w' : W) × (c.create t w ≡ ((none, stamp t), w'))
        × (lookup w' (c.key_of t) ≡ some (stamp t))
  pub is_fresh : T → T → Bool
  pub update_present :
      (w : W) (t old : T)
      → lookup w (c.key_of t) ≡ some old
      → is_fresh t old ≡ true
      → (w' : W) × (c.update t w ≡ ((none, stamp t), w'))
        × (lookup w' (c.key_of t) ≡ some (stamp t))

-- the desired state is a function of the object that keeps its key and its version, and that finds
-- nothing to change in an object that it has been applied to
pub record IsDesired {T W E : Type 0} (c : Client T W E) (stamp : T → T) (is_fresh : T → T → Bool)
    (desired : T → T) : Type 0 where
  pub same_version : (t : T) → is_fresh (desired t) t ≡ true
  pub same_key : (t : T) → c.key_of (desired t) ≡ c.key_of t
  pub settled : (t : T) → c.semantic_equal (stamp (desired t)) (desired (stamp (desired t))) ≡ true

module _ {T W E : Type 0} (c : Client T W E) (lookup : W → Request → Option T) (stamp : T → T)
    (desired : T → T) (store : IsStore c lookup stamp)
    (wanted : IsDesired c stamp store.is_fresh desired) where
  -- the `MutateFn` that sets the desired state
  abbrev pub set_desired : T → W → (Option E × T) × W
  set_desired t w = ((none, desired t), w)

  mutate-desired :
      (k : Request) (t : T) (w : W)
      → c.key_of t ≡ k
      → mutate c set_desired k t w ≡ ((none, desired t), w)
  unfolding mutate
  mutate-desired k t w h =
      let same : k ≡ c.key_of (desired t) = sym (wanted.same_key t ∙ h) in
      ground (arith, beq-cases k (c.key_of (desired t)))

  -- the result, the object and the store after a call, by what the store holds
  abbrev pub Reaches :
      Option T → T → W → (OperationResult × Option (UpdateError E)) × T × W → Type 0
  Reaches none obj w ((r, e), t, w') =
      (r ≡ was_created)
      × (e ≡ none)
      × (t ≡ stamp (desired obj))
      × (lookup w' (c.key_of obj) ≡ some (stamp (desired obj)))
  Reaches (some old) obj w ((r, e), t, w') =
      (e ≡ none)
      × (((c.semantic_equal old (desired old) ≡ true)
            × (r ≡ unchanged)
            × (t ≡ desired old)
            × (w' ≡ w))
          ⊎ ((c.semantic_equal old (desired old) ≡ false)
              × (r ≡ was_updated)
              × (t ≡ stamp (desired old))
              × (lookup w' (c.key_of obj) ≡ some (stamp (desired old)))))

  reach_found :
      (obj old : T) (w : W)
      → lookup w (c.key_of obj) ≡ some old
      → Reaches (some old) obj w (create_or_update c set_desired obj w)
  unfolding create_or_update
  reach_found obj old w h =
      let key = c.key_of obj in
      let old_key : c.key_of old ≡ key = store.stored_key w key old h in
      let next_key : c.key_of (desired old) ≡ key = wanted.same_key old ∙ old_key in
      let run : create_or_update c set_desired obj w
          ≡ update_existing c set_desired old ((none, desired old), w) =
        ap (after_get c set_desired key) (store.get_found w key obj old h)
        ∙ ap (update_existing c set_desired old) (mutate-desired key old w old_key) in
      rw run (elim (Bool-cases (c.semantic_equal old (desired old))) [
        | inl same ↦ rw (same, update_existing) (refl, inl (refl, refl, refl, refl))
        | inr differ ↦
            let (w', u, l) =
              store.update_present w (desired old) old (ap (lookup w) next_key ∙ h)
                (wanted.same_version old) in
            rw (differ, update_existing, u)
              (refl, inr (refl, refl, refl, sym (ap (lookup w') next_key) ∙ l))
      ])

  reach_missing :
      (obj : T) (w : W)
      → lookup w (c.key_of obj) ≡ none
      → Reaches none obj w (create_or_update c set_desired obj w)
  unfolding create_or_update
  reach_missing obj w h =
      let key = c.key_of obj in
      let (e, got, is) = store.get_missing w key obj h in
      let (w', made, l) =
        store.create_missing w (desired obj) (ap (lookup w) (wanted.same_key obj) ∙ h) in
      let run : create_or_update c set_desired obj w
          ≡ create_new c set_desired ((none, desired obj), w) =
        ap (after_get c set_desired key) got
        ∙ rw (is, after_get) (ap (create_new c set_desired) (mutate-desired key obj w refl)) in
      rw (run, made) (refl, refl, refl, sym (ap (lookup w') (wanted.same_key obj)) ∙ l)

  reaches :
      (obj : T) (w : W)
      → Reaches (lookup w (c.key_of obj)) obj w (create_or_update c set_desired obj w)
  reaches obj w = elim (Option-cases (lookup w (c.key_of obj))) [
    | inl missing ↦ rw missing (reach_missing obj w missing)
    | inr (old, held) ↦ rw held (reach_found obj old w held)
  ]

  -- a call on an object whose stored version is settled changes nothing
  stays :
      (obj settled : T) (w : W)
      → lookup w (c.key_of obj) ≡ some settled
      → c.semantic_equal settled (desired settled) ≡ true
      → ((create_or_update c set_desired obj w).0 ≡ (unchanged, none))
        × ((create_or_update c set_desired obj w).2 ≡ w)
  stays obj settled w h same =
      let (e, what) = reach_found obj settled w h in
      elim what [
        | inl (s, r, t, k) ↦ (cc, k)
        | inr (differ, r, t, l) ↦ absurd (let bad : true ≡ false = sym same ∙ differ in cc)
      ]

  second_stays :
      (obj again : T) (w : W)
      → c.key_of again ≡ c.key_of obj
      → let first = create_or_update c set_desired obj w in
        let second = create_or_update c set_desired again first.2 in
        (second.0 ≡ (unchanged, none)) × (second.2 ≡ first.2)
  second_stays obj again w k = elim (Option-cases (lookup w (c.key_of obj))) [
    | inl missing ↦
        let (r, e, t, l) = reach_missing obj w missing in
        stays again (stamp (desired obj)) _ (ap (lookup _) k ∙ l) (wanted.settled obj)
    | inr (old, held) ↦ elim (reach_found obj old w held).1 [
      | inl (same, r, t, kept) ↦
          stays again old _ (ap (lookup _) k ∙ ap (λ x. lookup x (c.key_of obj)) kept ∙ held) same
      | inr (differ, r, t, l) ↦
          stays again (stamp (desired old)) _ (ap (lookup _) k ∙ l) (wanted.settled old)
    ]
  ]

  -- Over a client that reads and writes a store as documented, with a `MutateFn` that sets a desired
  -- state which keeps the object's key and version and is settled once it is written: `CreateOrUpdate` creates a
  -- missing object in its desired state, updates a present one whose desired state differs, and
  -- leaves alone one that is in it; it returns which of these it did and no error. A second call, on
  -- any object of that key, answers `unchanged` and leaves the store as it is.
  pub create_or_update_lem :
      (obj again : T) (w : W)
      → c.key_of again ≡ c.key_of obj
      → let first = create_or_update c set_desired obj w in
        let second = create_or_update c set_desired again first.2 in
        Reaches (lookup w (c.key_of obj)) obj w first
        × (second.0 ≡ (unchanged, none))
        × (second.2 ≡ first.2)
  create_or_update_lem obj again w k =
      let two = second_stays obj again w k in (reaches obj w, two.0, two.1)
