-- ===== src/Conversion/Hubs.antt =====
-- `IsConvertible` and `getHub` of pkg/webhook/conversion/conversion.go agree.
use controller_runtime.Prelude.{
  suc, ◌≤◌, ◌≡◌, refl, inl, inr, true, not, Option, none, some, List, [], ◌∷◌, arith, if◌then◌else◌,
  Bool-cases,
}
use controller_runtime.Prelude.Fallible.{ok, err, ◌>>=◌, Fallible-cases}
use controller_runtime.Schema.{GroupVersionKind}
use controller_runtime.Conversion.{
  Types, find_hub, get_hub, count_roles, type_is_convertible, object_gvks, Roles, some_kinds,
  verdict, foreign,
}

module _ {T E Raw : Type 0} (s : Types T E Raw) where
  -- what the scheme makes of a kind is counted as one of the three
  abbrev counted : T → Roles s → Roles s
  counted t r =
      if s.is_hub t
      then record r { hubs = suc r.hubs }
      else if not (s.is_convertible t)
      then record r { non_spokes = suc r.non_spokes }
      else record r { spokes = suc r.spokes }

  hubs-le :
      (ks : List GroupVersionKind) (r r' : Roles s) → count_roles s ks r ≡ ok r' → r.hubs ≤ r'.hubs
  unfolding count_roles
  hubs-le [] r r' h = ground arith
  hubs-le (k ∷ ks) r r' h = elim (Fallible-cases (s.new k)) [
    | inl (t, e) ↦
        let ih = hubs-le ks (counted t r) r' (rw (e, count_roles) at h) in ground (arith, ih)
    | inr (x, e) ↦ let bad : err (foreign x) ≡ ok r' = rw (e, count_roles) at h in cc
  ]

  find_hub-none_more :
      (ks : List GroupVersionKind) (r r' : Roles s) (hub : Option T)
      → count_roles s ks r ≡ ok r'
      → r'.hubs ≡ r.hubs
      → find_hub s ks hub ≡ ok hub
  unfolding count_roles find_hub
  find_hub-none_more [] r r' hub h n = refl
  find_hub-none_more (k ∷ ks) r r' hub h n = elim (Fallible-cases (s.new k)) [
    | inl (t, e) ↦
        let h' : count_roles s ks (counted t r) ≡ ok r' = rw (e, count_roles) at h in
        elim (Bool-cases (s.is_hub t)) [
          | inl is ↦ absurd (ground (arith, hubs-le ks (counted t r) r' h'))
          | inr is_not ↦
              rw (e, find_hub, is_not)
                (find_hub-none_more ks (counted t r) r' hub h' (ground arith))
        ]
    | inr (x, e) ↦ let bad : err (foreign x) ≡ ok r' = rw (e, count_roles) at h in cc
  ]

  find_hub-one_more :
      (ks : List GroupVersionKind) (r r' : Roles s)
      → count_roles s ks r ≡ ok r'
      → r'.hubs ≡ suc r.hubs
      → (h : T) × (find_hub s ks none ≡ ok (some h)) × (s.is_hub h ≡ true)
  unfolding count_roles find_hub
  find_hub-one_more [] r r' h n = let same : r.hubs ≡ r'.hubs = ground arith in absurd (omega arith)
  find_hub-one_more (k ∷ ks) r r' h n = elim (Fallible-cases (s.new k)) [
    | inl (t, e) ↦
        let h' : count_roles s ks (counted t r) ≡ ok r' = rw (e, count_roles) at h in
        elim (Bool-cases (s.is_hub t)) [
          | inl is ↦ (
            t,
            rw (e, find_hub, is)
                (find_hub-none_more ks (counted t r) r' (some t) h' (ground arith)),
            is,
          )
          | inr is_not ↦
              let (found, f, hub) = find_hub-one_more ks (counted t r) r' h' (ground arith) in
              (found, rw (e, find_hub, is_not) f, hub)
        ]
    | inr (x, e) ↦ let bad : err (foreign x) ≡ ok r' = rw (e, count_roles) at h in cc
  ]

  abbrev no_roles : Roles s
  no_roles = record { hubs = 0; non_spokes = 0; spokes = 0 }

  verdict-true :
      (ks : List GroupVersionKind) (r : Roles s)
      → verdict s ks r ≡ ok true
      → (r.hubs ≡ 1) × (r.non_spokes ≡ 0)
  verdict-true ks r h = ground arith

  -- the hub, from the kinds that were found
  hub_of_kinds :
      (gvks : List GroupVersionKind)
      → ((some_kinds s gvks >>= λ found.
            count_roles s found no_roles >>= λ roles. verdict s found roles)
          ≡ ok true)
      → (h : T) × ((some_kinds s gvks >>= λ found. find_hub s found none) ≡ ok (some h))
        × (s.is_hub h ≡ true)
  hub_of_kinds [] h = cc
  hub_of_kinds (k ∷ ks) h = elim (Fallible-cases (count_roles s (k ∷ ks) no_roles)) [
    | inl (r, e) ↦
        let v : verdict s (k ∷ ks) r ≡ ok true = rw e at h in
        find_hub-one_more (k ∷ ks) no_roles r e (verdict-true (k ∷ ks) r v).0
    | inr (x, e) ↦ let bad : err x ≡ ok true = rw e at h in cc
  ]

  -- Where `IsConvertible` answers true for an object, `getHub` finds a hub for it and returns no
  -- error.
  pub get_hub_of_convertible :
      (obj : T)
      → type_is_convertible s obj ≡ ok true
      → (h : T) × (get_hub s obj ≡ ok (some h)) × (s.is_hub h ≡ true)
  unfolding type_is_convertible get_hub
  get_hub_of_convertible obj h = elim (Fallible-cases (object_gvks s obj)) [
    | inl (gvks, e) ↦
        let (hub, f, is) = hub_of_kinds gvks (rw (e, type_is_convertible) at h) in
        (hub, rw (e, get_hub) f, is)
    | inr (x, e) ↦ let bad : err x ≡ ok true = rw (e, type_is_convertible) at h in cc
  ]
