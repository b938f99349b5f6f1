-- ===== src/Finalizer/Laws.antt =====
-- What `Finalize` of pkg/finalizer/finalizer.go does to an object.
use mathlib.Core.List.{append_assoc, append-nil}
use controller_runtime.Prelude.{
  keep, String, ◌≡◌, ◌∙◌, refl, sym, ap, inl, inr, true, false, not, ◌&&◌, ◌||◌, ◌==◌, string_eq,
  Option, none, some, List, [], ◌∷◌, ◌++◌, if◌then◌else◌, All, all, contains, contains-append,
  contains-keep_ne, Distinct, arith, beq-cases, Bool-cases,
}
use controller_runtime.Object.{Object}
use controller_runtime.Finalizer.{
  Finalizer, Result, State, is_zero, remove_finalizer, after_finalize, finalize_one, finalize_all,
  finalize, keys,
}
use controller_runtime.Finalizer.Removal.{remove_finalizer-keep}

contains-added :
    (x y : String) (xs : List String)
    → contains x (if contains y xs then xs else xs ++ y ∷ []) ≡ (y == x || contains x xs)
contains-added x y xs =
    ground (arith, contains-append x xs (y ∷ []), beq-cases y x, Bool-cases (contains y xs))

module _ {Err : Type 0} where
  -- the state after all keys were looked at, on an object that is not being deleted
  pub record Adds (names : List String) (s t : State Err) : Type 0 where
    pub finalizers :
        (x : String)
        → contains x t.obj.finalizers ≡ (contains x s.obj.finalizers || contains x names)
    pub no_errors : t.errors ≡ s.errors
    pub updated :
        t.res.updated ≡ (s.res.updated || not (all (λ k. contains k s.obj.finalizers) names))
    pub status : t.res.status_updated ≡ s.res.status_updated
    pub rest_kept : t.obj ≡ record s.obj { finalizers = t.obj.finalizers }

  finalize_all-Adds :
      (f : List (String × Finalizer Err)) (s : State Err)
      → is_zero s.obj.deletion_timestamp ≡ true
      → Adds (keys f) s (finalize_all f s)
  unfolding finalize_all
  finalize_all-Adds [] s z = record {
    finalizers = λ x. ground arith;
    no_errors = refl;
    updated = ground arith;
    status = refl;
    rest_kept = refl;
  }
  finalize_all-Adds ((key, finalizer) ∷ f) s z = elim (Bool-cases (contains key s.obj.finalizers)) [
    | inl present ↦
        let same : finalize_one key finalizer s ≡ s = unfold finalize_one in rw (z, present) in
        let ih = finalize_all-Adds f s z in
        rw same (record {
          finalizers = λ x. ground (arith, ih.finalizers x, beq-cases key x);
          no_errors = ih.no_errors;
          updated = ground (arith, ih.updated);
          status = ih.status;
          rest_kept = ih.rest_kept;
        })
    | inr missing ↦
        let s' : State Err = record s {
          obj = record s.obj { finalizers = s.obj.finalizers ++ key ∷ [] };
          res = record { updated = true; status_updated = s.res.status_updated };
        } in
        let put : finalize_one key finalizer s ≡ s' = unfold finalize_one in rw (z, missing) in
        let ih = finalize_all-Adds f s' z in
        rw put (record {
          finalizers =
              λ x. ground (arith, ih.finalizers x, contains-append x s.obj.finalizers (key ∷ []));
          no_errors = ih.no_errors;
          updated = ground (arith, ih.updated);
          status = ih.status;
          rest_kept = ih.rest_kept;
        })
  ]

  -- On an object that is not being deleted `Finalize` runs no finalizer and returns no error. It adds
  -- the registered keys that the object lacks, keeps the finalizers that it has and all else of it,
  -- and reports an update exactly if a key was missing, and none of the status.
  pub finalize-Adds :
      (f : List (String × Finalizer Err)) (o : Object)
      → is_zero o.deletion_timestamp ≡ true
      → Adds
          (keys f)
          (record {
            res = record { updated = false; status_updated = false };
            errors = [];
            obj = o;
          })
          (finalize f o)
  unfolding finalize
  finalize-Adds f o z = finalize_all-Adds f _ z

  -- the finalizers leave alone what `Finalize` itself looks after
  pub record KeepsMeta (finalizer : Finalizer Err) : Type 0 where
    pub deletion : (o : Object) → (finalizer o).1.deletion_timestamp ≡ o.deletion_timestamp
    pub list : (o : Object) → (finalizer o).1.finalizers ≡ o.finalizers

  -- the keys that errors name
  abbrev pub failed : List (String × Err) → List String
  failed [] = []
  failed ((key, err) ∷ es) = key ∷ failed es

  -- The finalizers run in order, each on the object as the one before has left it, where the object
  -- has their key: one that succeeds loses its key, and one that fails keeps it and gives an error.
  -- These are the errors, and the object at the end.
  pub data Runs
      : List (String × Finalizer Err) → Object → List (String × Err) → Object → Type 0 where
    finished : {o : Object} → Runs [] o [] o
    skipped :
        {key : String} {finalizer : Finalizer Err} {f : List (String × Finalizer Err)}
        {o o' : Object} {es : List (String × Err)}
        → contains key o.finalizers ≡ false
        → Runs f o es o'
        → Runs ((key, finalizer) ∷ f) o es o'
    succeeded :
        {key : String} {finalizer : Finalizer Err} {f : List (String × Finalizer Err)}
        {o kept o' : Object} {es : List (String × Err)}
        → contains key o.finalizers ≡ true
        → (finalizer o).0.1 ≡ none
        → kept ≡ record (finalizer o).1 {
          finalizers = keep (λ k. not (k == key)) (finalizer o).1.finalizers;
        }
        → Runs f kept es o'
        → Runs ((key, finalizer) ∷ f) o es o'
    failing :
        {key : String} {finalizer : Finalizer Err} {f : List (String × Finalizer Err)}
        {o o' : Object} {err : Err} {es : List (String × Err)}
        → contains key o.finalizers ≡ true
        → (finalizer o).0.1 ≡ some err
        → Runs f (finalizer o).1 es o'
        → Runs ((key, finalizer) ∷ f) o ((key, err) ∷ es) o'

  -- the state after all keys were looked at, on an object that is being deleted
  pub record Removes (f : List (String × Finalizer Err)) (s t : State Err) : Type 0 where
    pub new_errors : List (String × Err)
    pub ran : Runs f s.obj new_errors t.obj
    pub errors : t.errors ≡ s.errors ++ new_errors
    pub known : (x : String) → contains x (failed new_errors) ≡ true → contains x (keys f) ≡ true
    pub finalizers :
        (x : String)
        → contains x t.obj.finalizers ≡ (
            contains x s.obj.finalizers
            && (not (contains x (keys f)) || contains x (failed new_errors)))

  deletion-after :
      (key : String) (ans : (Result × Option Err) × Object) (s : State Err)
      → (after_finalize key ans s).obj.deletion_timestamp ≡ ans.1.deletion_timestamp
  unfolding after_finalize
  deletion-after key ((r, none), o) s = refl
  deletion-after key ((r, some err), o) s = refl

  after_finalize-Removes :
      (key : String) (finalizer : Finalizer Err) (f : List (String × Finalizer Err)) (r : Result)
      (err : Option Err) (o : Object) (s t : State Err)
      → finalizer s.obj ≡ ((r, err), o)
      → contains key s.obj.finalizers ≡ true
      → o.finalizers ≡ s.obj.finalizers
      → contains key (keys f) ≡ false
      → Removes f (after_finalize key ((r, err), o) s) t
      → Removes ((key, finalizer) ∷ f) s t
  unfolding after_finalize
  after_finalize-Removes key finalizer f r (some err) o s t ran held kept apart ih = record {
    new_errors = (key, err) ∷ ih.new_errors;
    ran = failing held (rw ran) (rw ran ih.ran);
    errors = ih.errors ∙ append_assoc s.errors ((key, err) ∷ []) ih.new_errors;
    known = λ x h. ground (arith, ih.known x, beq-cases key x);
    finalizers = λ x. ground (arith, ih.finalizers x, beq-cases key x, ap (λ l. contains x l) kept);
  }
  after_finalize-Removes key finalizer f r none o s t ran held kept apart ih = record {
    new_errors = ih.new_errors;
    ran = succeeded held (rw ran) (rw ran (remove_finalizer-keep o key)) ih.ran;
    errors = ih.errors;
    known = λ x h. ground (arith, ih.known x);
    finalizers = λ x.
        let cut : contains x (remove_finalizer o key).finalizers
            ≡ (if key == x then false else contains x s.obj.finalizers) =
          ap (λ (z : Object). contains x z.finalizers) (remove_finalizer-keep o key)
          ∙ contains-keep_ne x key o.finalizers
          ∙ ap (λ l. if key == x then false else contains x l) kept in
        ground (arith, ih.finalizers x, ih.known x, cut, beq-cases key x);
  }

  finalize_all-Removes :
      (f : List (String × Finalizer Err)) (s : State Err)
      → is_zero s.obj.deletion_timestamp ≡ false
      → All (λ kf. KeepsMeta kf.1) f
      → Distinct (keys f)
      → Removes f s (finalize_all f s)
  unfolding finalize_all
  finalize_all-Removes [] s z m d = record {
    new_errors = [];
    ran = finished;
    errors = sym (append-nil s.errors);
    known = λ x h. h;
    finalizers = λ x. ground arith;
  }
  finalize_all-Removes ((key, finalizer) ∷ f) s z m d =
      elim (Bool-cases (contains key s.obj.finalizers)) [
        | inl present ↦
            let run : finalize_one key finalizer s ≡ after_finalize key (finalizer s.obj) s =
              unfold finalize_one in rw (z, present) in
            let o = (finalizer s.obj).1 in
            let next : is_zero (after_finalize key (finalizer s.obj) s).obj.deletion_timestamp
                ≡ false =
              rw (deletion-after key (finalizer s.obj) s, m.0.deletion s.obj) z in
            rw run (
              after_finalize-Removes key finalizer f (finalizer s.obj).0.0 (finalizer s.obj).0.1 o s
                _ refl present (m.0.list s.obj) d.0
                (finalize_all-Removes f (after_finalize key (finalizer s.obj) s) next m.1 d.1))
        | inr absent ↦
            let same : finalize_one key finalizer s ≡ s = unfold finalize_one in rw (z, absent) in
            let ih = finalize_all-Removes f s z m.1 d.1 in
            rw same (record {
              new_errors = ih.new_errors;
              ran = skipped absent ih.ran;
              errors = ih.errors;
              known = λ x h. ground (arith, ih.known x);
              finalizers = λ x. ground (arith, ih.finalizers x, ih.known x, beq-cases key x);
            })
      ]

  -- On an object that is being deleted, with finalizers that leave its deletion time and its list of
  -- finalizers alone, and with each key registered once: `Finalize` runs, in order and each on what the
  -- one before has left, exactly the registered finalizers whose key the object has; it collects the
  -- errors that they return, and takes out the key of each one that returns none. So the object has
  -- then those of its finalizers that are not registered, and those whose finalizer failed.
  pub finalize-Removes :
      (f : List (String × Finalizer Err)) (o : Object)
      → is_zero o.deletion_timestamp ≡ false
      → All (λ kf. KeepsMeta kf.1) f
      → Distinct (keys f)
      → Removes f
          (record {
            res = record { updated = false; status_updated = false };
            errors = [];
            obj = o;
          })
          (finalize f o)
  unfolding finalize
  finalize-Removes f o z m d = finalize_all-Removes f _ z m d
