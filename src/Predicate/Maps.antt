-- ===== src/Predicate/Maps.antt =====
-- `reflect.DeepEqual` on values of type `map[string]string`: both nil, or neither, of one length and
-- with one value at each key. A map that is not nil is the list of its entries, each key once.
use controller_runtime.Prelude.{
  ◌∙◌, sym, ◌↔◌, ◌≤◌, eq_iff, ap, suc, String, ◌≡◌, refl, inl, inr, Bool, true, false, ◌==◌,
  string_eq, nat_eq_class, ◌&&◌, Option, none, some, List, [], ◌∷◌, if◌then◌else◌, length, arith,
  beq-cases, Bool-cases, beq_refl,
}

abbrev pub StringMap : Type 0
StringMap = Option (List (String × String))

abbrev pub lookup : String → List (String × String) → Option String
lookup k [] = none
lookup k ((j, v) ∷ m) = if j == k then some v else lookup k m

abbrev pub is_value : String → Option String → Bool
is_value v none = false
is_value v (some w) = w == v

-- every entry of the first map is one of the second
abbrev pub within : List (String × String) → List (String × String) → Bool
within [] b = true
within ((k, v) ∷ a) b = let rest = within a b in if is_value v (lookup k b) then rest else false

unfoldable pub deep_equal : StringMap → StringMap → Bool
deep_equal none none = true
deep_equal none (some b) = false
deep_equal (some a) none = false
deep_equal (some a) (some b) = length a == length b && within a b

-- no key stands twice
abbrev pub IsMap : List (String × String) → Type 0
IsMap [] = Unit
IsMap ((k, v) ∷ m) = (lookup k m ≡ none) × IsMap m

-- the map without a key
abbrev without : String → List (String × String) → List (String × String)
without k [] = []
without k ((j, v) ∷ m) = let rest = without k m in if j == k then m else (j, v) ∷ rest

lookup-without :
    (k j : String) (m : List (String × String)) → lookup j m ≡ none → lookup j (without k m) ≡ none
lookup-without k j [] h = refl
lookup-without k j ((i, v) ∷ m) h =
    ground (arith, beq-cases i k, beq-cases i j, lookup-without k j m)

lookup-without_ne :
    (k j : String) (m : List (String × String))
    → (k == j) ≡ false
    → lookup j (without k m) ≡ lookup j m
lookup-without_ne k j [] h = refl
lookup-without_ne k j ((i, v) ∷ m) h =
    ground (arith, beq-cases i k, beq-cases i j, beq-cases k j, lookup-without_ne k j m h)

IsMap-without : (k : String) (m : List (String × String)) → IsMap m → IsMap (without k m)
IsMap-without k [] h = tt
IsMap-without k ((i, v) ∷ m) h = elim (Bool-cases (i == k)) [
  | inl e ↦ rw e h.1
  | inr e ↦ rw e (lookup-without k i m h.0, IsMap-without k m h.1)
]

length-without :
    (k v : String) (m : List (String × String))
    → lookup k m ≡ some v
    → suc (length (without k m)) ≡ length m
length-without k v [] h = cc
length-without k v ((i, w) ∷ m) h = ground (arith, length-without k v m)

lookup-without_self :
    (k : String) (m : List (String × String)) → IsMap m → lookup k (without k m) ≡ none
lookup-without_self k [] h = refl
lookup-without_self k ((i, w) ∷ m) h = ground (arith, beq-cases i k, lookup-without_self k m h.1)

-- the entries of a sub-map that does not hold `k` stay when `k` goes
within-without :
    (k : String) (a b : List (String × String))
    → lookup k a ≡ none
    → within a b ≡ true
    → within a (without k b) ≡ true
within-without k [] b n h = refl
within-without k ((j, v) ∷ a) b n h =
    ground (arith, beq-cases j k, beq-cases k j, lookup-without_ne k j b, within-without k a b)

some_of_is_value : (v : String) (o : Option String) → is_value v o ≡ true → o ≡ some v
some_of_is_value v none h = cc
some_of_is_value v (some w) h = ap some ((eq_iff w v).0 h)

value_of_within :
    (j v : String) (a b : List (String × String))
    → within a b ≡ true
    → lookup j a ≡ some v
    → lookup j b ≡ some v
value_of_within j v [] b w h = cc
value_of_within j v ((k, u) ∷ a) b w h = ground (
  arith,
  beq-cases k j,
  some_of_is_value u (lookup k b),
  value_of_within j v a b,
  λ (p : k ≡ j). ap (λ z. lookup z b) p,
)

agree_of_within :
    (a b : List (String × String))
    → IsMap a
    → IsMap b
    → length a ≡ length b
    → within a b ≡ true
    → (j : String) → lookup j a ≡ lookup j b
agree_of_within [] [] ma mb n w j = refl
agree_of_within [] (x ∷ b) ma mb n w j = absurd (omega arith)
agree_of_within ((k, v) ∷ a) b ma mb n w j =
    let here : lookup k b ≡ some v = value_of_within k v ((k, v) ∷ a) b w (rw (beq_refl k)) in
    let sub : within a b ≡ true = ground arith in
    let rest : lookup j a ≡ lookup j (without k b) =
      agree_of_within a (without k b) ma.1 (IsMap-without k b mb)
        (omega (arith, length-without k v b here)) (within-without k a b ma.0 sub) j in
    ground (arith, beq-cases k j, lookup-without_ne k j b, λ (p : k ≡ j). ap (λ z. lookup z b) p)

within_of_agree :
    (a b : List (String × String))
    → IsMap a
    → ((j : String) (v : String) → lookup j a ≡ some v → lookup j b ≡ some v)
    → within a b ≡ true
within_of_agree [] b m h = refl
within_of_agree ((k, v) ∷ a) b m h = rw (h k v (rw (beq_refl k))) (
    rw (beq_refl v) (
      within_of_agree a b m.1
        λ j u p. h j u (ground (arith, beq-cases k j, m.0, λ (p : k ≡ j). ap (λ z. lookup z a) p))))

length_of_within :
    (a b : List (String × String)) → IsMap a → within a b ≡ true → length a ≤ length b
length_of_within [] b m w = omega arith
length_of_within ((k, v) ∷ a) b m w =
    let here : lookup k b ≡ some v = value_of_within k v ((k, v) ∷ a) b w (rw (beq_refl k)) in
    let sub : within a b ≡ true = ground arith in
    omega (
      arith,
      length-without k v b here,
      length_of_within a (without k b) m.1 (within-without k a b m.0 sub),
    )

-- what two maps show alike: the same nilness and the same value at every key
abbrev pub SameMap : StringMap → StringMap → Type 0
SameMap none none = Unit
SameMap (some a) (some b) = (j : String) → lookup j a ≡ lookup j b
SameMap _ _ = ⊥

-- nil, or each key once
abbrev pub IsStringMap : StringMap → Type 0
IsStringMap none = Unit
IsStringMap (some a) = IsMap a

-- `reflect.DeepEqual` holds exactly of maps that look alike.
pub deep_equal_iff :
    (a b : StringMap) → IsStringMap a → IsStringMap b → (deep_equal a b ≡ true) ↔ SameMap a b
unfolding deep_equal
deep_equal_iff none none ma mb = (λ h. tt, λ h. refl)
deep_equal_iff none (some b) ma mb = (λ h. cc, λ h. absurd h)
deep_equal_iff (some a) none ma mb = (λ h. cc, λ h. absurd h)
deep_equal_iff (some a) (some b) ma mb = (
  λ h. agree_of_within a b ma mb (ground arith) (ground arith),
  λ same.
      let wa : within a b ≡ true = within_of_agree a b ma (λ j v p. sym (same j) ∙ p) in
      let wb : within b a ≡ true = within_of_agree b a mb (λ j v p. same j ∙ p) in
      ground (arith, length_of_within a b ma, length_of_within b a mb),
)
