-- ===== src/Prelude/Equality.antt =====
-- Go's `==` on comparable types, as an instance; the instances for texts, integers and natural numbers.
use Prim.Native.Nat.{ℕ}
use Prim.Native.String.{String}
use text.Mathlib.Text.{◌==◌ as str_eq}
use text.Mathlib.TextEquality.{eq_iff}
use mathlib.Core.Path.{◌≡◌, refl}
use mathlib.Core.Logic.{◌↔◌, ◌⊎◌, inl, inr}
use mathlib.Core.Bool.{Bool, true, false, not}
use native.Mathlib.Omega.{arith}
use controller_runtime.Prelude.Tests.{◌==◌ as nat_eq, ==_iff as nat_eq_iff, Bool-cases}
use controller_runtime.Prelude.Int.{ℤ, pos, negsuc}

pub record Comparable {ℓ} (A : Type ℓ) : Type ℓ where
  pub equal : A → A → Bool
  pub equal_iff : (a b : A) → (equal a b ≡ true) ↔ (a ≡ b)

infix 50 ◌==◌ ◌/=◌
module _ {ℓ} {A : Type ℓ} ⦃e : Comparable A⦄ where
  abbrev pub ◌/=◌ : A → A → Bool
  ◌/=◌ a b = not (e.equal a b)

  abbrev pub ◌==◌ : A → A → Bool
  ◌==◌ a b = e.equal a b

instance abbrev pub string_eq : Comparable String
string_eq = record { equal = str_eq; equal_iff = eq_iff }

abbrev pub int_beq : ℤ → ℤ → Bool
int_beq (pos a) (pos b) = nat_eq a b
int_beq (negsuc a) (negsuc b) = nat_eq a b
int_beq _ _ = false

pub int_beq_iff : (a b : ℤ) → (int_beq a b ≡ true) ↔ (a ≡ b)
int_beq_iff (pos a) (pos b) = ground arith
int_beq_iff (pos a) (negsuc b) = ground arith
int_beq_iff (negsuc a) (pos b) = ground arith
int_beq_iff (negsuc a) (negsuc b) = ground arith

instance abbrev pub int_eq : Comparable ℤ
int_eq = record { equal = int_beq; equal_iff = int_beq_iff }

instance abbrev pub nat_eq_class : Comparable ℕ
nat_eq_class = record { equal = nat_eq; equal_iff = nat_eq_iff }

module _ {ℓ} {A : Type ℓ} ⦃e : Comparable A⦄ where
  pub beq_refl : (a : A) → (a == a) ≡ true
  beq_refl a = (e.equal_iff a a).1 refl

  -- to split on a test and have the equation or its refutation
  pub beq-cases : (a b : A) → ((a == b) ≡ true) × (a ≡ b) ⊎ ((a == b) ≡ false) × (¬ (a ≡ b))
  beq-cases a b = elim (Bool-cases (a == b)) [
    | inl h ↦ inl (h, (e.equal_iff a b).0 h)
    | inr h ↦ inr (h, λ p. let t : (a == b) ≡ true = (e.equal_iff a b).1 p in cc)
  ]

  pub beq_sym : (a b : A) → (a == b) ≡ (b == a)
  beq_sym a b = ground (arith, beq-cases a b, beq-cases b a)
