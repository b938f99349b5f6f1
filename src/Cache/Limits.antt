-- ===== src/Cache/Limits.antt =====
-- The limit of a `List` over several namespaces.
use controller_runtime.Prelude.{
  ◌≡◌, ap, sym, ◌∙◌, inl, inr, ℕ, ℤ, pos, negsuc, ◌+◌, ◌-◌, ◌≤◌, String, ◌==◌, string_eq, int_eq,
  true, false, none, List, [], ◌∷◌, ◌++◌, suc, zero, length, length-append, arith, Bool-cases, All,
  Option-cases,
}
use controller_runtime.Prelude.Int.{ltb_ℤ, pos_part}
use controller_runtime.Prelude.Fallible.{ok, Fallible-cases}
use controller_runtime.ClientOptions.{ListOptions}
use controller_runtime.Cache.Namespaces.{Cache, Lists, minus_ℤ, fetch, fetch_all, list_all}

-- `pos_part` of what is left of a limit that is not exceeded
pos_part-minus_ℤ :
    (limit : ℤ) (n : ℕ)
    → n ≤ pos_part limit
    → ltb_ℤ (pos 0) limit ≡ true
    → minus_ℤ limit n ≡ pos (pos_part limit - n)
pos_part-minus_ℤ (pos a) n h p = ground (arith, h)
pos_part-minus_ℤ (negsuc a) n h p = ground (arith, p)

pos_ne-positive : (m : ℕ) → (pos m == pos 0) ≡ false → ltb_ℤ (pos 0) (pos m) ≡ true
pos_ne-positive zero h = ground (arith, h)
pos_ne-positive (suc m) h = ground arith

left_positive :
    (limit : ℤ) (n : ℕ)
    → n ≤ pos_part limit
    → ltb_ℤ (pos 0) limit ≡ true
    → (minus_ℤ limit n == pos 0) ≡ false
    → ltb_ℤ (pos 0) (minus_ℤ limit n) ≡ true
left_positive limit n h p ne =
    let left = pos_part-minus_ℤ limit n h p in
    ap (λ z. ltb_ℤ (pos 0) z) left
    ∙ pos_ne-positive (pos_part limit - n) (ap (λ z. z == pos 0) (sym left) ∙ ne)

module _ {T L F X Out K I Err : Type 0} (lists : Lists T Out Err) where
  -- a cache returns no more items than a positive limit allows
  abbrev pub KeepsLimit : Cache T L F X Out K I Err → Type 0
  KeepsLimit c =
      (out got : Out) (opts : ListOptions L F X) (items : List T)
      → ltb_ℤ (pos 0) opts.limit ≡ true
      → c.list out opts ≡ ok got
      → lists.extract_list got ≡ ok items
      → length items ≤ pos_part opts.limit

  length-fetch :
      (c : Cache T L F X Out K I Err) (out : Out) (opts : ListOptions L F X) (items : List T)
      (v : String)
      → KeepsLimit c
      → ltb_ℤ (pos 0) opts.limit ≡ true
      → fetch lists c out opts ≡ ok (items, v)
      → length items ≤ pos_part opts.limit
  unfolding fetch
  length-fetch c out opts items v keeps l h = elim (Fallible-cases (c.list out opts)) [
    | inr (e, p) ↦ ground (arith, h, p)
    | inl (got, p) ↦ elim (Fallible-cases (lists.extract_list got)) [
      | inr (e, q) ↦ ground (arith, h, p, q)
      | inl (us, q) ↦
          let bound = keeps out got opts us l p q in
          elim (Option-cases (lists.accessor_error got)) [
            | inl r ↦ ground (arith, h, p, q, r, bound)
            | inr (e, r) ↦ ground (arith, h, p, q, r)
          ]
    ]
  ]

  length-fetch_all :
      (cs : List (String × Cache T L F X Out K I Err)) (out : Out) (opts : ListOptions L F X)
      (held found : List T) (v v' : String)
      → All (λ c. KeepsLimit c.1) cs
      → ltb_ℤ (pos 0) opts.limit ≡ true
      → fetch_all lists true cs out opts held v ≡ ok (found, v')
      → length found ≤ length held + pos_part opts.limit
  unfolding fetch_all
  length-fetch_all [] out opts held found v v' keeps l h = ground (arith, h)
  length-fetch_all ((ns, c) ∷ cs) out opts held found v v' keeps l h =
      elim (Fallible-cases (fetch lists c out opts))
        as (λ x. length found ≤ length held + pos_part opts.limit) [
          | inr (e, p) ↦ ground (arith, h, p)
          | inl ((items, version), p) ↦
              let bound = length-fetch c out opts items version keeps.0 l p in
              let left = pos_part-minus_ℤ opts.limit (length items) bound l in
              let ih =
                length-fetch_all cs out (record opts { limit = minus_ℤ opts.limit (length items) })
                  (held ++ items) found version v' keeps.1 in
              let total = length-append held items in
              elim (Bool-cases (minus_ℤ opts.limit (length items) == pos 0)) [
                | inl z ↦ ground (arith, h, p, z, total, bound)
                | inr z ↦
                    let positive = left_positive opts.limit (length items) bound l z in
                    let rest = ih positive (ground (arith, h, p, z)) in
                    omega (arith, rest, total, bound, ap pos_part left)
              ]
        ]

  -- `List` for all namespaces with a positive limit, over caches that keep one: it finds no more items
  -- beyond those that the list holds already than the limit allows, over all namespaces together.
  pub list_all-limit :
      (cs : List (String × Cache T L F X Out K I Err)) (out : Out) (opts : ListOptions L F X)
      (held found : List T) (v : String)
      → All (λ c. KeepsLimit c.1) cs
      → ltb_ℤ (pos 0) opts.limit ≡ true
      → list_all lists none (ok held) cs out opts ≡ ok (found, v)
      → length found ≤ length held + pos_part opts.limit
  list_all-limit cs out opts held found v keeps l h =
      length-fetch_all cs out opts held found "" v keeps l
        (ap (λ b. fetch_all lists b cs out opts held "") (sym l) ∙ h)
