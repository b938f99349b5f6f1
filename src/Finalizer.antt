-- ===== src/Finalizer.antt =====
-- The finalizers of an object, of pkg/controller/controllerutil/controllerutil.go, and the registry of
-- pkg/finalizer/finalizer.go. A map of finalizers is a list of its entries in the order in which Go
-- happens to range over it.
pub mod Removal
pub mod Laws
mod Examples
use controller_runtime.Prelude.{
  ℕ, zero, suc, String, Bool, true, false, not, ◌&&◌, ◌||◌, ◌==◌, string_eq, nat_eq_class, Option,
  none, some, List, [], ◌∷◌, ◌++◌, if◌then◌else◌, contains, length, map,
}
use controller_runtime.Prelude.Lists.{get_elem?, take, drop}
use controller_runtime.Object.{Object}

unfoldable pub contains_finalizer : Object → String → Bool
contains_finalizer o finalizer = contains finalizer o.finalizers

-- an early return, or `append`
unfoldable pub add_finalizer : Object → String → Object
add_finalizer o finalizer =
    if contains finalizer o.finalizers
    then o
    else record o { finalizers = o.finalizers ++ finalizer ∷ [] }

-- The loop `for i := 0; i < len(f); i++`. Where `f[i]` is the finalizer it is cut out, and `i--` undoes
-- the `i++`; so each round shortens `f` or raises `i`, and `len(f)` rounds are enough.
unfoldable pub remove_loop : ℕ → List String → ℕ → String → List String
remove_loop zero f i finalizer = f
remove_loop (suc rounds) f i finalizer = elim (get_elem? f i) [
  | none ↦ f
  | some e ↦ elim (e == finalizer) [
    | true ↦ remove_loop rounds (take i f ++ drop (suc i) f) i finalizer
    | false ↦ remove_loop rounds f (suc i) finalizer
  ]
]

unfoldable pub remove_finalizer : Object → String → Object
unfolding remove_loop
remove_finalizer o finalizer = record o {
  finalizers = remove_loop (length o.finalizers) o.finalizers 0 finalizer;
}

-- `finalizer.Result`
pub record Result : Type 0 where
  pub updated : Bool
  pub status_updated : Bool

-- `metav1.Time.IsZero`: nil, or the zero time
abbrev pub is_zero : Option ℕ → Bool
is_zero none = true
is_zero (some t) = t == 0

-- `Finalizer.Finalize`, which may change the object
abbrev pub Finalizer : Type 0 → Type 0
Finalizer Err = Object → (Result × Option Err) × Object

-- an error of `Finalize` names the key and what its finalizer returned
pub record State (Err : Type 0) : Type 0 where
  pub res : Result
  pub errors : List (String × Err)
  pub obj : Object

module _ {Err : Type 0} where
  -- what is done with the answer of a finalizer
  unfoldable pub after_finalize : String → (Result × Option Err) × Object → State Err → State Err
  unfolding remove_finalizer
  after_finalize key ((r, some err), o) s = record {
    res = record {
      updated = s.res.updated || r.updated;
      status_updated = s.res.status_updated || r.status_updated;
    };
    errors = s.errors ++ (key, err) ∷ [];
    obj = o;
  }
  after_finalize key ((r, none), o) s = record {
    res = record { updated = true; status_updated = s.res.status_updated || r.status_updated };
    errors = s.errors;
    obj = remove_finalizer o key;
  }

  -- one turn of the loop of `Finalize`
  unfoldable pub finalize_one : String → Finalizer Err → State Err → State Err
  unfolding after_finalize contains_finalizer add_finalizer
  finalize_one key finalizer s =
      let dt = s.obj.deletion_timestamp in
      if is_zero dt && not (contains_finalizer s.obj key)
      then record s {
        obj = add_finalizer s.obj key;
        res = record { updated = true; status_updated = s.res.status_updated };
      }
      else if not (is_zero dt) && contains_finalizer s.obj key
      then after_finalize key (finalizer s.obj) s
      else s

  unfoldable pub finalize_all : List (String × Finalizer Err) → State Err → State Err
  unfolding finalize_one
  finalize_all [] s = s
  finalize_all ((key, finalizer) ∷ rest) s = finalize_all rest (finalize_one key finalizer s)

  unfoldable pub finalize : List (String × Finalizer Err) → Object → State Err
  unfolding finalize_all
  finalize f obj =
      finalize_all f (record {
        res = record { updated = false; status_updated = false };
        errors = [];
        obj = obj;
      })

  abbrev pub keys : List (String × Finalizer Err) → List String
  keys [] = []
  keys ((key, finalizer) ∷ rest) = key ∷ keys rest

  -- `Register`: an error for a key that is there, or a new entry
  unfoldable pub register :
      String → Finalizer Err → List (String × Finalizer Err) → Bool × List (String × Finalizer Err)
  register key finalizer f =
      if contains key (keys f) then (false, f) else (true, (key, finalizer) ∷ f)
