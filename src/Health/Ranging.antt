-- ===== src/Health/Ranging.antt =====
-- The order in which Go ranges over the map of checks in pkg/healthz/healthz.go.
use Prim.Native.String.{String}
use mathlib.Core.List.{Permᴰ}
use mathlib.Core.List.Permᴰ.{nil, cons, swap, trans}
use mathlib.Core.Path.{ap₂, subst}
use controller_runtime.Prelude.{
  ◌≡◌, refl, ap, sym, ◌∙◌, Bool, true, not, ◌&&◌, ◌==◌, string_eq, List, [], ◌∷◌, keep, contains,
  any, Distinct, arith, if◌then◌else◌, beq_sym,
}
use controller_runtime.Health.{Checker, run_checks, Texts, serve_aggregated}
use controller_runtime.Health.Aggregation.{
  names_of, is_healthy, status_of, statuses_of, head_ne, tail_ne, run_checks_lem,
  code-serve_aggregated,
}

any-Perm {ℓ} : {A : Type ℓ} (p : A → Bool) (xs ys : List A) → Permᴰ xs ys → any p xs ≡ any p ys
any-Perm p xs ys nil = refl
any-Perm p xs ys (cons {l₁} {l₂} e d) = ap₂ (λ x b. if p x then true else b) e (any-Perm p l₁ l₂ d)
any-Perm p xs ys (swap {a} {b} {a'} {b'} {l} e₁ e₂) =
    let first = ap p e₁ in let second = ap p e₂ in ground (arith, first, second)
any-Perm p xs ys (trans {l₁} {l₂} {l₃} d₁ d₂) = any-Perm p l₁ l₂ d₁ ∙ any-Perm p l₂ l₃ d₂

module _ {Q Err : Type 0} where
  statuses-Perm :
      (req : Q) (excluded : List String) (cs ds : List (String × Checker Q Err))
      → Permᴰ cs ds
      → Permᴰ (statuses_of req excluded cs) (statuses_of req excluded ds)
  statuses-Perm req excluded cs ds nil = nil
  statuses-Perm req excluded cs ds (cons {l₁} {l₂} e d) =
      cons (ap (status_of req excluded) e) (statuses-Perm req excluded l₁ l₂ d)
  statuses-Perm req excluded cs ds (swap e₁ e₂) =
      swap (ap (status_of req excluded) e₁) (ap (status_of req excluded) e₂)
  statuses-Perm req excluded cs ds (trans {l₁} {l₂} {l₃} d₁ d₂) =
      trans (statuses-Perm req excluded l₁ l₂ d₁) (statuses-Perm req excluded l₂ l₃ d₂)

  names-Perm :
      (cs ds : List (String × Checker Q Err)) → Permᴰ cs ds → Permᴰ (names_of cs) (names_of ds)
  names-Perm cs ds nil = nil
  names-Perm cs ds (cons {l₁} {l₂} e d) = cons (ap (λ c. c.0) e) (names-Perm l₁ l₂ d)
  names-Perm cs ds (swap e₁ e₂) = swap (ap (λ c. c.0) e₁) (ap (λ c. c.0) e₂)
  names-Perm cs ds (trans {l₁} {l₂} {l₃} d₁ d₂) = trans (names-Perm l₁ l₂ d₁) (names-Perm l₂ l₃ d₂)

contains-Perm : (n : String) (xs ys : List String) → Permᴰ xs ys → contains n xs ≡ contains n ys
contains-Perm n xs ys d = any-Perm (λ y. y == n) xs ys d

Distinct-swap : (a b : String) (l : List String) → Distinct (a ∷ b ∷ l) → Distinct (b ∷ a ∷ l)
Distinct-swap a b l h =
    (ground (arith, head_ne a b l h.0, beq_sym a b, h.1.0), (tail_ne a b l h.0, h.1.1))

Distinct-Perm : (xs ys : List String) → Permᴰ xs ys → Distinct xs → Distinct ys
Distinct-Perm xs ys nil h = h
Distinct-Perm xs ys (cons {a} {b} {l₁} {l₂} e d) h = (
  ap (λ x. contains x l₂) (sym e) ∙ sym (any-Perm (λ y. y == a) l₁ l₂ d) ∙ h.0,
  Distinct-Perm l₁ l₂ d h.1,
)
Distinct-Perm xs ys (swap {a} {b} {a'} {b'} {l} e₁ e₂) h =
    subst (λ x. Distinct (x ∷ b' ∷ l)) e₂
      (subst (λ x. Distinct (b ∷ x ∷ l)) e₁ (Distinct-swap a b l h))
Distinct-Perm xs ys (trans {l₁} {l₂} {l₃} d₁ d₂) h =
    Distinct-Perm l₂ l₃ d₂ (Distinct-Perm l₁ l₂ d₁ h)

unknown-Perm :
    (excluded xs ys : List String)
    → Permᴰ xs ys
    → keep (λ n. not (contains n xs)) excluded ≡ keep (λ n. not (contains n ys)) excluded
unknown-Perm [] xs ys d = refl
unknown-Perm (n ∷ ns) xs ys d = ground (arith, unknown-Perm ns xs ys d, contains-Perm n xs ys d)

module _ {Q Err : Type 0} (k : Texts Err) where
  -- For checks of different names it does not matter in which order Go ranges over them: the handler
  -- answers with the same code, leaves over the same excluded names, and collects the same statuses
  -- in another order.
  pub serve_aggregated-Perm :
      (cs ds : List (String × Checker Q Err)) (excluded : List String) (verbose : Bool) (req : Q)
      → Permᴰ cs ds
      → Distinct (names_of cs)
      → ((serve_aggregated k cs excluded verbose req).code
          ≡ (serve_aggregated k ds excluded verbose req).code)
        × ((run_checks req cs excluded).2 ≡ (run_checks req ds excluded).2)
        × Permᴰ (run_checks req cs excluded).0 (run_checks req ds excluded).0
  serve_aggregated-Perm cs ds excluded verbose req perm d =
      let d' = Distinct-Perm (names_of cs) (names_of ds) (names-Perm cs ds perm) d in
      let left = run_checks_lem req cs excluded d in
      let right = run_checks_lem req ds excluded d' in
      let failing =
        any-Perm (λ c. not (contains c.0 excluded) && not (is_healthy (c.1 req))) cs ds perm in
      (
        code-serve_aggregated k cs excluded verbose req d
            ∙ ap (λ b. if b then 500 else 200) failing
            ∙ sym (code-serve_aggregated k ds excluded verbose req d'),
        ap (λ r. r.2) left
            ∙ unknown-Perm excluded (names_of cs) (names_of ds) (names-Perm cs ds perm)
            ∙ sym (ap (λ r. r.2) right),
        subst (λ r. Permᴰ r (run_checks req ds excluded).0) (sym (ap (λ r. r.0) left))
            (subst (λ r. Permᴰ (statuses_of req excluded cs) r) (sym (ap (λ r. r.0) right))
              (statuses-Perm req excluded cs ds perm)),
      )
