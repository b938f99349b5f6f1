-- ===== src/Prelude/Fallible.antt =====
-- A Go function that returns a value and an error: one of the two, and chains of such calls with
-- `if err != nil { return err }` as do blocks.
use mathlib.Core.Path.{◌≡◌, refl}
use mathlib.Core.Logic.{◌⊎◌, inl, inr}

pub data Fallible {ℓ} (E A : Type ℓ) : Type ℓ where
  ok : A → Fallible E A
  err : E → Fallible E A

infixl 5 ◌>>=◌
abbrev pub ◌>>=◌ {ℓ} : {E A B : Type ℓ} → Fallible E A → (A → Fallible E B) → Fallible E B
ok a >>= f = f a
err e >>= f = err e

-- the error, wrapped
abbrev pub map_err {ℓ} : {E F A : Type ℓ} → (E → F) → Fallible E A → Fallible F A
map_err f (ok a) = ok a
map_err f (err e) = err (f e)

pub Fallible-cases {ℓ} :
    {E A : Type ℓ} (r : Fallible E A) → ((a : A) × (r ≡ ok a)) ⊎ ((e : E) × (r ≡ err e))
Fallible-cases (ok a) = inl (a, refl)
Fallible-cases (err e) = inr (e, refl)
