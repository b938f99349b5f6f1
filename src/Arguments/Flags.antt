-- ===== src/Arguments/Flags.antt =====
-- Which arguments `SliceToArguments` of pkg/internal/testing/process/arguments.go takes for flags.
use Prim.Native.Char.{code}
use Prim.Native.String.append
use Prim.Native.String.{◌++◌ as text_append}
use text.Mathlib.TextEquality.{Char-path}
use mathlib.Core.Path.{ap₂, subst}
use controller_runtime.Prelude.{
  ◌≢◌, ◌↔◌, ap, sym, String, ◌≡◌, ◌∙◌, refl, inl, inr, string_eq, nat_eq_class, some, arith,
  beq-cases, Option-cases,
}
use controller_runtime.Arguments.Slicing.{cut_dash, split_equals, cut_option, parse_flag}

-- a text without `=`
abbrev pub NoEquals : String → Type 0
NoEquals String.[] = Unit
NoEquals (String.◌∷◌ c rest) = (code c ≢ b'=') × NoEquals rest

-- the argument is `--name=val`, where the name has no `=`
abbrev pub IsFlag : String → String → String → Type 0
IsFlag arg name val =
    (arg ≡ text_append "--" (text_append name (text_append "=" val))) × NoEquals name

equals_text : (val : String) → text_append "=" val ≡ String.◌∷◌ "=" val
equals_text val = append.cons "=" String.[] val ∙ ap (String.◌∷◌ "=") (append.nil val)

dashes_text : (rest : String) → text_append "--" rest ≡ String.◌∷◌ "-" (String.◌∷◌ "-" rest)
dashes_text rest =
    append.cons "-" "-" rest
    ∙ ap (String.◌∷◌ "-") (append.cons "-" String.[] rest ∙ ap (String.◌∷◌ "-") (append.nil rest))

split_sound :
    (s name val : String)
    → split_equals s ≡ some (name, val)
    → (s ≡ text_append name (text_append "=" val)) × NoEquals name
split_sound String.[] name val h = cc
split_sound (String.◌∷◌ c rest) name val h = elim (beq-cases (code c) b'=') [
  | inl (e, same) ↦
      let is_name : name ≡ "" = ground (arith, e, h) in
      let is_val : rest ≡ val = ground (arith, e, h) in
      (
        ap (λ d. String.◌∷◌ d rest) (Char-path c "=" same)
            ∙ ap (String.◌∷◌ "=") is_val
            ∙ sym (equals_text val)
            ∙ sym (append.nil (text_append "=" val))
            ∙ ap (λ n. text_append n (text_append "=" val)) (sym is_name),
        subst NoEquals (sym is_name) tt,
      )
  | inr (e, differ) ↦ elim (Option-cases (split_equals rest)) [
    | inl p ↦ absurd (ground (arith, e, h, p))
    | inr ((n, v), p) ↦
        let ih = split_sound rest n v p in
        let is_name : name ≡ String.◌∷◌ c n = ground (arith, e, h, p) in
        let is_val : val ≡ v = ground (arith, e, h, p) in
        (
          ap (String.◌∷◌ c) ih.0
              ∙ sym (append.cons c n (text_append "=" v))
              ∙ ap₂ (λ n' v'. text_append n' (text_append "=" v')) (sym is_name) (sym is_val),
          subst NoEquals (sym is_name) (differ, ih.1),
        )
  ]
]

split_complete :
    (name val : String)
    → NoEquals name
    → split_equals (text_append name (text_append "=" val)) ≡ some (name, val)
split_complete String.[] val h = rw (append.nil (text_append "=" val), equals_text val) refl
split_complete (String.◌∷◌ c name) val h =
    rw (append.cons c name (text_append "=" val))
      (ground (arith, beq-cases (code c) b'=', h.0, split_complete name val h.1))

dashes_cut :
    (arg rest : String) → (cut_option (cut_dash arg) ≡ some rest) ↔ (arg ≡ text_append "--" rest)
dashes_cut arg rest = (sound arg, λ h. rw (h ∙ dashes_text rest) refl)
  where
    once : (t r : String) → cut_dash t ≡ some r → t ≡ String.◌∷◌ "-" r
    once String.[] r h = cc
    once (String.◌∷◌ c t) r h = elim (beq-cases (code c) b'-') [
      | inl (e, same) ↦
          let is_rest : t ≡ r = ground (arith, e, h) in
          ap₂ (λ d u. String.◌∷◌ d u) (Char-path c "-" same) is_rest
      | inr (e, differ) ↦ absurd (ground (arith, e, h))
    ]

    sound : (t : String) → cut_option (cut_dash t) ≡ some rest → t ≡ text_append "--" rest
    sound t h = elim (Option-cases (cut_dash t)) [
      | inl p ↦ absurd (ground (arith, h, p))
      | inr (u, p) ↦
          let next : cut_dash u ≡ some rest = ground (arith, h, p) in
          once t u p ∙ ap (String.◌∷◌ "-") (once u rest next) ∙ sym (dashes_text rest)
    ]

pub parse_flag_iff :
    (arg name val : String) → (parse_flag arg ≡ some (name, val)) ↔ IsFlag arg name val
unfolding parse_flag
parse_flag_iff arg name val = (
  λ h. elim (Option-cases (cut_option (cut_dash arg))) [
    | inl p ↦ absurd (ground (arith, h, p))
    | inr (rest, p) ↦
        let parts = split_sound rest name val (ground (arith, h, p)) in
        ((dashes_cut arg rest).0 p ∙ ap (text_append "--") parts.0, parts.1)
  ],
  λ (h, n).
      let cut = (dashes_cut arg (text_append name (text_append "=" val))).1 h in
      rw cut (split_complete name val n),
)
