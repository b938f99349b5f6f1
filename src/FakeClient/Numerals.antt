-- ===== src/FakeClient/Numerals.antt =====
-- `strconv.ParseUint` and `FormatUint` in base 10 with 64 bits, which pkg/client/fake/client.go uses
-- on versions.
use Prim.Native.Char.{Char, char, code}
use Prim.Native.String.{String}
use controller_runtime.Prelude.{
  ℕ, zero, suc, ◌+◌, ◌-◌, ◌*◌, ◌/◌, ◌%◌, ◌^◌, ◌<◌, ltb, ◌==◌, string_eq, ◌≡◌, refl, ap, ◌∙◌, inl,
  inr, Option, none, some, arith, if◌then◌else◌, false, Bool-cases, beq-cases,
}
use controller_runtime.Prelude.Tests.{ltb→lt, lt→ltb}
use controller_runtime.Versions.Parse.{digits}

-- a value of at most 64 bits
abbrev pub uint_in_range : Option ℕ → Option ℕ
uint_in_range none = none
uint_in_range (some n) = if ltb n (2 ^ 64) then some n else none

unfoldable pub parse_uint : String → Option ℕ
unfolding digits
parse_uint s = if s == "" then none else uint_in_range (digits 0 s)

abbrev pub digit : ℕ → Char
digit zero = char 48 tt
digit (suc zero) = char 49 tt
digit (suc (suc zero)) = char 50 tt
digit (suc (suc (suc zero))) = char 51 tt
digit (suc (suc (suc (suc zero)))) = char 52 tt
digit (suc (suc (suc (suc (suc zero))))) = char 53 tt
digit (suc (suc (suc (suc (suc (suc zero)))))) = char 54 tt
digit (suc (suc (suc (suc (suc (suc (suc zero))))))) = char 55 tt
digit (suc (suc (suc (suc (suc (suc (suc (suc zero)))))))) = char 56 tt
digit _ = char 57 tt

-- the digits of a number, in front of a text
unfoldable pub format_digits : ℕ → ℕ → String → String
format_digits zero n acc = acc
format_digits (suc fuel) n acc =
    let more = format_digits fuel (n / 10) (String.◌∷◌ (digit (n % 10)) acc) in
    if ltb n 10 then String.◌∷◌ (digit (n % 10)) acc else more

-- twenty digits are enough for 64 bits
unfoldable pub format_uint : ℕ → String
unfolding format_digits
format_uint n = format_digits 20 n ""

code-digit : (d : ℕ) → d < 10 → code (digit d) ≡ 48 + d
code-digit zero h = refl
code-digit (suc zero) h = refl
code-digit (suc (suc zero)) h = refl
code-digit (suc (suc (suc zero))) h = refl
code-digit (suc (suc (suc (suc zero)))) h = refl
code-digit (suc (suc (suc (suc (suc zero))))) h = refl
code-digit (suc (suc (suc (suc (suc (suc zero)))))) h = refl
code-digit (suc (suc (suc (suc (suc (suc (suc zero))))))) h = refl
code-digit (suc (suc (suc (suc (suc (suc (suc (suc zero)))))))) h = refl
code-digit (suc (suc (suc (suc (suc (suc (suc (suc (suc zero))))))))) h = refl
code-digit (suc (suc (suc (suc (suc (suc (suc (suc (suc (suc d)))))))))) h = absurd (omega arith)

cancel : (d : ℕ) → 48 + d - 48 ≡ d
cancel d = omega arith

digits-digit :
    (n d : ℕ) (rest : String)
    → d < 10
    → digits n (String.◌∷◌ (digit d) rest) ≡ digits (n * 10 + d) rest
unfolding digits
digits-digit n d rest h =
    rw (code-digit d h) (ground (arith, ap (λ m. digits (n * 10 + m) rest) (cancel d)))

ends : (n : ℕ) → n < 10 → 0 * 10 + n % 10 ≡ n
ends n h = omega arith

splits : (n : ℕ) → n / 10 * 10 + n % 10 ≡ n
splits n = omega arith

last_digit :
    (n : ℕ) (acc : String) → n < 10 → digits 0 (String.◌∷◌ (digit (n % 10)) acc) ≡ digits n acc
last_digit n acc h = digits-digit 0 (n % 10) acc (omega arith) ∙ ap (λ m. digits m acc) (ends n h)

shorter : (fuel n : ℕ) → n < 10 ^ suc fuel → n / 10 < 10 ^ fuel
shorter fuel n h = omega arith

-- with fuel for all digits of a number, they are read back, in front of any text
digits-format_digits :
    (fuel n : ℕ) (acc : String)
    → n < 10 ^ suc fuel
    → digits 0 (format_digits (suc fuel) n acc) ≡ digits n acc
unfolding format_digits
digits-format_digits zero n acc small = rw (lt→ltb n 10 small) (last_digit n acc small)
digits-format_digits (suc fuel) n acc small = elim (Bool-cases (ltb n 10)) [
  | inl h ↦ rw h (last_digit n acc (ltb→lt n 10 h))
  | inr h ↦ rw h (
      digits-format_digits fuel (n / 10) (String.◌∷◌ (digit (n % 10)) acc)
        (shorter (suc fuel) n small)
      ∙ digits-digit (n / 10) (n % 10) acc (omega arith)
      ∙ ap (λ m. digits m acc) (splits n))
]

nonempty : (c : Char) (s : String) → (String.◌∷◌ c s == "") ≡ false
nonempty c s = elim (beq-cases (String.◌∷◌ c s) "") [ inl e ↦ absurd (cc) | inr e ↦ e.0 ]

format_digits-nonempty :
    (fuel n : ℕ) (c : Char) (s : String) → (format_digits fuel n (String.◌∷◌ c s) == "") ≡ false
unfolding format_digits
format_digits-nonempty zero n c s = nonempty c s
format_digits-nonempty (suc fuel) n c s = elim (Bool-cases (ltb n 10)) [
  | inl h ↦ rw h (nonempty (digit (n % 10)) (String.◌∷◌ c s))
  | inr h ↦ rw h (format_digits-nonempty fuel (n / 10) (digit (n % 10)) (String.◌∷◌ c s))
]

format_digits-ne : (fuel n : ℕ) (acc : String) → (format_digits (suc fuel) n acc == "") ≡ false
unfolding format_digits
format_digits-ne fuel n acc = elim (Bool-cases (ltb n 10)) [
  | inl h ↦ rw h (nonempty (digit (n % 10)) acc)
  | inr h ↦ rw h (format_digits-nonempty fuel (n / 10) (digit (n % 10)) acc)
]

-- what is printed of a number of 64 bits is read as that number
pub parse_uint-format_uint : (n : ℕ) → n < 2 ^ 64 → parse_uint (format_uint n) ≡ some n
unfolding parse_uint format_uint digits
parse_uint-format_uint n h =
    let back : digits 0 (format_digits 20 n "") ≡ some n =
      digits-format_digits 19 n "" (omega arith) in
    rw (format_digits-ne 19 n "", back, lt→ltb n (2 ^ 64) h)

pub format_uint-ne : (n : ℕ) → (format_uint n == "") ≡ false
unfolding format_uint
format_uint-ne n = format_digits-ne 19 n ""

pub parse_uint-bound : (s : String) (n : ℕ) → parse_uint s ≡ some n → n < 2 ^ 64
unfolding parse_uint
parse_uint-bound s n h = ground (arith, h)
