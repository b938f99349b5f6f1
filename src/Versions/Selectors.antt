-- ===== src/Versions/Selectors.antt =====
-- The sets of versions that the selectors of tools/setup-envtest/versions/version.go select.
use controller_runtime.Prelude.{
  zero, suc, ℤ, pos, negsuc, ltb_ℤ, leb_ℤ, ◌≡◌, Bool, false, not, ◌&&◌, ◌||◌, ◌==◌, int_eq, some,
  arith, if◌then◌else◌, beq-cases,
}
use controller_runtime.Versions.{
  Concrete, concrete_eq, newer_than, PatchSelector, any_point, concrete, patch_selector, tilde,
  less_than, any_version, matches, as_concrete, Selector,
}
use controller_runtime.Versions.Order.{ltb_ℤ-cases}

abbrev pub next : ℤ → ℤ
next (pos n) = pos (suc n)
next (negsuc zero) = pos 0
next (negsuc (suc n)) = negsuc n

ltb_ℤ-next : (a b : ℤ) → ltb_ℤ a (next b) ≡ not (ltb_ℤ b a)
ltb_ℤ-next a (pos n) = ground arith
ltb_ℤ-next a (negsuc zero) = ground arith
ltb_ℤ-next a (negsuc (suc n)) = ground arith

leb_ℤ-ltb : (a b : ℤ) → leb_ℤ a b ≡ not (ltb_ℤ b a)
leb_ℤ-ltb a b = ground arith

-- the first version of the next minor
abbrev pub next_minor : Concrete → Concrete
next_minor c = record { major = c.major; minor = next c.minor; patch = pos 0 }

-- `~X.Y.Z` selects [X.Y.Z, X.(Y+1).0) as its comment says, among the versions whose patch is no
-- negative number: those that X.Y.Z is not newer than and that the next minor is newer than.
pub matches-tilde :
    (c ver : Concrete)
    → ltb_ℤ ver.patch (pos 0) ≡ false
    → matches (tilde c) ver ≡ (not (newer_than c ver) && newer_than (next_minor c) ver)
unfolding matches newer_than
matches-tilde c ver h = ground (
  arith,
  ltb_ℤ-cases c.major ver.major,
  ltb_ℤ-cases c.minor ver.minor,
  ltb_ℤ-cases c.patch ver.patch,
  ltb_ℤ-next ver.minor c.minor,
  leb_ℤ-ltb c.patch ver.patch,
  beq-cases c.major ver.major,
  beq-cases c.minor ver.minor,
  beq-cases c.patch ver.patch,
  beq-cases ver.major c.major,
  beq-cases ver.minor c.minor,
  beq-cases (next c.minor) ver.minor,
)

-- the version whose patch is left open
abbrev pub line : ℤ → ℤ → Concrete
line major minor = record { major = major; minor = minor; patch = pos 0 }

-- `<` selects the versions that the given one is newer than, and `<=` the given one besides. With any
-- patch, they compare major and minor alone, and `<=` selects the given minor besides.
pub matches-less_than :
    (p : PatchSelector) (or_equals : Bool) (ver : Concrete)
    → let own : Concrete = record { major = p.major; minor = p.minor; patch = p.patch } in
      let minors = line p.major p.minor in
      let theirs = line ver.major ver.minor in
      matches (less_than p or_equals) ver ≡ (
        if p.patch == any_point
        then newer_than minors theirs || (or_equals && minors == theirs)
        else newer_than own ver || (or_equals && own == ver))
unfolding matches newer_than
matches-less_than p or_equals ver = ground (
  arith,
  ltb_ℤ-cases p.major ver.major,
  ltb_ℤ-cases p.minor ver.minor,
  ltb_ℤ-cases p.patch ver.patch,
  beq-cases p.major ver.major,
  beq-cases p.minor ver.minor,
  beq-cases p.patch ver.patch,
  beq-cases p.patch any_point,
)

-- A selector that is a concrete version selects exactly that version.
pub matches-as_concrete :
    (s : Selector) (c ver : Concrete) → as_concrete s ≡ some c → matches s ver ≡ (c == ver)
unfolding matches as_concrete
matches-as_concrete (concrete d) c ver h = ground arith
matches-as_concrete (patch_selector p) c ver h = ground arith
matches-as_concrete (tilde d) c ver h = cc
matches-as_concrete (less_than p e) c ver h = cc
matches-as_concrete any_version c ver h = cc
