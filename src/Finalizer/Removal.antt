-- ===== src/Finalizer/Removal.antt =====
-- The loop of `RemoveFinalizer` of pkg/controller/controllerutil/controllerutil.go.
use controller_runtime.Prelude.{
  inl, inr, ℕ, zero, suc, ◌≤◌, String, ◌≡◌, ◌∙◌, refl, sym, ap, not, ◌==◌, string_eq, none, some,
  List, [], ◌∷◌, ◌++◌, keep, length, length-append, arith, Bool-cases,
}
use mathlib.Core.List.{append_assoc, append-nil}
use controller_runtime.Prelude.Lists.{get_elem?, take, drop}
use controller_runtime.Object.{Object}
use controller_runtime.Finalizer.{remove_loop, remove_finalizer}

get_elem?-middle :
    (pre post : List String) (y : String) → get_elem? (pre ++ y ∷ post) (length pre) ≡ some y
get_elem?-middle [] post y = refl
get_elem?-middle (x ∷ pre) post y = get_elem?-middle pre post y

get_elem?-end : (pre : List String) → get_elem? (pre ++ []) (length pre) ≡ none
get_elem?-end [] = refl
get_elem?-end (x ∷ pre) = get_elem?-end pre

take-length : (pre post : List String) → take (length pre) (pre ++ post) ≡ pre
take-length [] post = refl
take-length (x ∷ pre) post = ap (λ xs. x ∷ xs) (take-length pre post)

drop-length :
    (pre post : List String) (y : String) → drop (suc (length pre)) (pre ++ y ∷ post) ≡ post
drop-length [] post y = refl
drop-length (x ∷ pre) post y = drop-length pre post y

-- the loop at the index behind `pre`
remove_loop-keep :
    (rounds : ℕ) (pre post : List String) (x : String)
    → length post ≤ rounds
    → remove_loop rounds (pre ++ post) (length pre) x ≡ pre ++ keep (λ e. not (e == x)) post
unfolding remove_loop
remove_loop-keep zero pre [] x h = refl
remove_loop-keep zero pre (y ∷ post) x h = absurd (omega arith)
remove_loop-keep (suc rounds) pre [] x h =
    rw (get_elem?-end pre, remove_loop) (append-nil pre ∙ sym (append-nil pre))
remove_loop-keep (suc rounds) pre (y ∷ post) x h = elim (Bool-cases (y == x)) [
  | inl hit ↦
      rw (get_elem?-middle pre post y, remove_loop, hit)
        (rw (take-length pre (y ∷ post), drop-length pre post y)
          (remove_loop-keep rounds pre post x (omega arith)))
  | inr miss ↦
      rw (get_elem?-middle pre post y, remove_loop, miss)
        (let longer : length (pre ++ y ∷ []) ≡ suc (length pre) =
            omega (arith, length-append pre (y ∷ [])) in
          let ih : remove_loop rounds ((pre ++ y ∷ []) ++ post) (length (pre ++ y ∷ [])) x
              ≡ (pre ++ y ∷ []) ++ keep (λ e. not (e == x)) post =
            remove_loop-keep rounds (pre ++ y ∷ []) post x (omega arith) in
          cc (
            longer,
            ih,
            append_assoc pre (y ∷ []) post,
            append_assoc pre (y ∷ []) (keep (λ e. not (e == x)) post),
          ))
]

-- `RemoveFinalizer` ends with all copies of the finalizer removed and the others as they stood, in
-- order: the loop, which changes the list under its index, computes the filter.
pub remove_finalizer-keep :
    (o : Object) (x : String)
    → remove_finalizer o x ≡ record o { finalizers = keep (λ e. not (e == x)) o.finalizers }
unfolding remove_finalizer
remove_finalizer-keep o x =
    ap (λ f. record o { finalizers = f })
      (remove_loop-keep (length o.finalizers) [] o.finalizers x (omega arith))
