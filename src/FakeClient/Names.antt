-- ===== src/FakeClient/Names.antt =====
-- The names that `Create` of pkg/client/fake/client.go generates.
use Prim.Native.String.{String, count}
use text.Mathlib.TextLemmas.{length-cons, length-append}
use controller_runtime.Prelude.{ℕ, zero, suc, ◌+◌, ◌≤◌, ltb, ◌≡◌, arith, if◌then◌else◌}
use controller_runtime.FakeClient.{
  take_text, generated_name, max_name_length, max_generated_name_length, random_length,
}

-- a cut text has as many characters as are asked for, or all
count-take_text :
    (n : ℕ) (s : String) → count (take_text n s) ≡ (if ltb n (count s) then n else count s)
unfolding take_text
count-take_text zero s = ground arith
count-take_text (suc n) String.[] = ground arith
count-take_text (suc n) (String.◌∷◌ c s) =
    ground (arith, count-take_text n s, length-cons c s, length-cons c (take_text n s))

-- A name that is generated, with as many random characters as the code asks for, has at most the 63
-- characters that a name may have: five more than the text that it begins with, or all 63
-- where that text had to be cut.
pub count-generated_name :
    (base random : String)
    → count random ≡ random_length
    → (count (generated_name base random) ≤ max_name_length)
      × (count (generated_name base random) ≡ (
          if ltb max_generated_name_length (count base)
          then max_name_length
          else count base + random_length))
unfolding generated_name
count-generated_name base random h = ground (
  arith,
  h,
  count-take_text max_generated_name_length base,
  length-append (take_text max_generated_name_length base) random,
  length-append base random,
)
