-- ===== src/Versions/Order.antt =====
-- `NewerThan` of tools/setup-envtest/versions/version.go is a strict total order.
use controller_runtime.Prelude.{
  ℤ, pos, negsuc, ltb_ℤ, ◌≡◌, ◌⊎◌, true, false, not, ◌==◌, int_eq, arith, beq-cases, beq_sym, ◌&&◌,
}
use controller_runtime.Versions.{Concrete, concrete_eq, newer_than}

-- the test and the order of integers
pub ltb_ℤ-cases :
    (a b : ℤ)
    → ((ltb_ℤ a b ≡ true) × (ltb_ℤ b a ≡ false) × (¬ (a ≡ b)))
      ⊎ (((a ≡ b) × (ltb_ℤ a b ≡ false) × (ltb_ℤ b a ≡ false))
          ⊎ ((ltb_ℤ a b ≡ false) × (ltb_ℤ b a ≡ true) × (¬ (a ≡ b))))
ltb_ℤ-cases (pos a) (pos b) = grind arith
ltb_ℤ-cases (pos a) (negsuc b) = grind arith
ltb_ℤ-cases (negsuc a) (pos b) = grind arith
ltb_ℤ-cases (negsuc a) (negsuc b) = grind arith

pub ltb_ℤ-trans : (a b c : ℤ) → ltb_ℤ a b ≡ true → ltb_ℤ b c ≡ true → ltb_ℤ a c ≡ true
ltb_ℤ-trans a b c h k = ground arith

flip : (a b : ℤ) → (ltb_ℤ b a ≡ (not (ltb_ℤ a b) && not (a == b))) × ((a == b) ≡ (b == a))
flip a b = (ground (arith, ltb_ℤ-cases a b, beq-cases a b), beq_sym a b)

pub newer_than-total : (a b : Concrete) → newer_than b a ≡ (not (newer_than a b) && not (a == b))
unfolding newer_than
newer_than-total a b =
    ground (arith, flip a.major b.major, flip a.minor b.minor, flip a.patch b.patch)

pub newer_than_trans :
    (a b c : Concrete) → newer_than a b ≡ true → newer_than b c ≡ true → newer_than a c ≡ true
unfolding newer_than
newer_than_trans a b c h k = ground (
  arith,
  ltb_ℤ-cases a.major b.major,
  ltb_ℤ-cases b.major c.major,
  ltb_ℤ-cases a.minor b.minor,
  ltb_ℤ-cases b.minor c.minor,
  beq-cases a.major b.major,
  beq-cases b.major c.major,
  beq-cases a.major c.major,
  beq-cases a.minor b.minor,
  beq-cases b.minor c.minor,
  beq-cases a.minor c.minor,
  ltb_ℤ-trans c.major b.major a.major,
  ltb_ℤ-trans c.minor b.minor a.minor,
  ltb_ℤ-trans c.patch b.patch a.patch,
)

-- `NewerThan` is a strict total order: of two versions the second is newer exactly if the first is
-- neither newer nor equal; so of two different versions exactly one is newer, and no version is newer
-- than itself. A version that is newer than one that is newer than a third is newer than the third.
pub newer_than_lem :
    (a b c : Concrete)
    → (newer_than b a ≡ (not (newer_than a b) && not (a == b)))
      × (newer_than a b ≡ true → newer_than b c ≡ true → newer_than a c ≡ true)
newer_than_lem a b c = (newer_than-total a b, newer_than_trans a b c)
