-- ===== src/CreateOrUpdate.antt =====
-- `CreateOrUpdate` and `mutate` of pkg/controller/controllerutil/controllerutil.go, over a client.
-- What the client and the `MutateFn` do is theirs: each call gives its error, if any, the object as
-- it is afterwards, and the state `W` of the world afterwards.
pub mod Patching
pub mod Convergence
mod Examples
use controller_runtime.Prelude.{
  Bool, true, false, not, ◌==◌, ◌/=◌, Option, none, some, if◌then◌else◌,
}
use controller_runtime.Object.{Request, request_eq}

-- the results that the function returns
pub data OperationResult : Type 0 where
  unchanged was_created was_updated was_updated_status was_updated_status_only : OperationResult

pub data UpdateError (E : Type 0) : Type 0 where
  foreign : E → UpdateError E
  key_changed : UpdateError E

-- a `client.Object`, the calls of `client.Client`, and what `apierrors.IsNotFound` and
-- `equality.Semantic.DeepEqual` say; an object's key is its namespace and name
pub record Client (T W E : Type 0) : Type 0 where
  pub key_of : T → Request
  pub get : Request → T → W → (Option E × T) × W
  pub create : T → W → (Option E × T) × W
  pub update : T → W → (Option E × T) × W
  pub is_not_found : E → Bool
  pub semantic_equal : T → T → Bool

module _ {T W E : Type 0} (c : Client T W E) (f : T → W → (Option E × T) × W) where
  abbrev pub checked_key : Request → Option E × T → Option (UpdateError E)
  checked_key key (some e, obj) = some (foreign e)
  checked_key key (none, obj) = if key /= c.key_of obj then some key_changed else none

  -- `mutate`
  unfoldable pub mutate : Request → T → W → (Option (UpdateError E) × T) × W
  mutate key obj w = let (done, w') = f obj w in ((checked_key key done, done.1), w')

  -- what a call that writes the object returns
  abbrev pub written :
      OperationResult → (Option E × T) × W → (OperationResult × Option (UpdateError E)) × T × W
  written r ((some e, obj), w) = ((unchanged, some (foreign e)), obj, w)
  written r ((none, obj), w) = ((r, none), obj, w)

  -- the branch of an object that is not found
  abbrev pub create_new :
      (Option (UpdateError E) × T) × W → (OperationResult × Option (UpdateError E)) × T × W
  create_new ((some e, obj), w) = ((unchanged, some e), obj, w)
  create_new ((none, obj), w) = written was_created (c.create obj w)

  -- the branch of an object that exists, which is compared with its copy
  abbrev pub update_existing :
      T → (Option (UpdateError E) × T) × W → (OperationResult × Option (UpdateError E)) × T × W
  update_existing existing ((some e, obj), w) = ((unchanged, some e), obj, w)
  update_existing existing ((none, obj), w) =
      let write = written was_updated (c.update obj w) in
      if c.semantic_equal existing obj then ((unchanged, none), obj, w) else write

  -- what follows `c.Get`
  abbrev pub after_get :
      Request → (Option E × T) × W → (OperationResult × Option (UpdateError E)) × T × W
  after_get key ((some e, obj), w) =
      let create_it = create_new (mutate key obj w) in
      if not (c.is_not_found e) then ((unchanged, some (foreign e)), obj, w) else create_it
  after_get key ((none, obj), w) = update_existing obj (mutate key obj w)

  unfoldable pub create_or_update : T → W → (OperationResult × Option (UpdateError E)) × T × W
  unfolding mutate
  create_or_update obj w = after_get (c.key_of obj) (c.get (c.key_of obj) obj w)
