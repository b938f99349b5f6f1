-- ===== src/Handler/OwnerRequests.antt =====
-- Which requests the references of one object name to the owner handler of
-- pkg/handler/enqueue_owner.go (getOwnerReconcileRequest).
use mathlib.Core.Path.{subst}
use controller_runtime.Prelude.{
  ◌∙◌, Distinct-append, Distinct, sym, Option-cases, ◌≡◌, refl, ◌↔◌, ◌⊎◌, inl, inr, Bool, true,
  false, ◌||◌, ◌==◌, string_eq, Option, none, some, List, [], ◌∷◌, map, arith, contains,
  contains-append, beq-cases, Bool-cases, if◌then◌else◌,
}
use controller_runtime.Schema.{GroupVersion}
use controller_runtime.Object.{Object, OwnerReference, Request, request_eq}
use controller_runtime.Queue.{add}
use controller_runtime.Handler.Owner.{
  Machinery, EnqueueRequestForOwner, Turn, stop, skip, found, turn, collect, insert,
  get_owners_references, get_owner_reconcile_request,
}
use controller_runtime.Handler.Laws.{added}

contains-insert :
    (x r : Request) (rs : List Request) → contains x (insert r rs) ≡ (r == x || contains x rs)
unfolding insert
contains-insert x r rs =
    ground (arith, contains-append x rs (r ∷ []), beq-cases r x, Bool-cases (contains r rs))

Turn-cases : (t : Turn) → (t ≡ stop) ⊎ ((t ≡ skip) ⊎ ((r : Request) × (t ≡ found r)))
Turn-cases stop = inl refl
Turn-cases skip = inr (inl refl)
Turn-cases (found r) = inr (inr (r, refl))

-- the request for the owner that a reference of the object names
abbrev pub request_of : Bool → Object → OwnerReference → Request
request_of is_root object ref = record {
  namespace = if is_root then "" else object.namespace;
  name = ref.name;
}

pub added-map : (rs : List Request) → added (map add rs) ≡ rs
added-map [] = refl
added-map (r ∷ rs) = rw (added-map rs)

Distinct-insert : (r : Request) (rs : List Request) → Distinct rs → Distinct (insert r rs)
unfolding insert
Distinct-insert r rs h = elim (Bool-cases (contains r rs)) [
  | inl old ↦ rw (old, insert) h
  | inr new ↦
      rw (new, insert)
        (Distinct-append rs (r ∷ []) h (refl, tt)
          (λ x p. elim (beq-cases r x) [
            | inl same ↦ absurd (let bad : contains r rs ≡ true = rw same.1 p in cc)
            | inr ne ↦ rw ne.0
          ]))
]

module _ (m : Machinery) (e : EnqueueRequestForOwner) where
  -- `x` is the request for the owner that `ref` names: its group and kind are those of the handler,
  -- and its namespace is that of the object, or empty where the owner's kind is cluster-scoped
  pub record IsOwnerRequest (object : Object) (x : Request) (ref : OwnerReference) : Type 0 where
    pub gv : GroupVersion
    pub is_root : Bool
    pub parsed : m.parse_group_version ref.api_version ≡ some gv
    pub same_kind : ref.kind ≡ e.group_kind.kind
    pub same_group : gv.group ≡ e.group_kind.group
    pub scoped : m.is_root_scoped e.group_kind gv.version ≡ some is_root
    pub made : x ≡ request_of is_root object ref

  -- the reference cannot be parsed, or it is one to an owner whose kind cannot be mapped
  pub data IsUnreadable (ref : OwnerReference) : Type 0 where
    unparsed : m.parse_group_version ref.api_version ≡ none → IsUnreadable ref
    unmapped :
        {gv : GroupVersion}
        → m.parse_group_version ref.api_version ≡ some gv
        → ref.kind ≡ e.group_kind.kind
        → gv.group ≡ e.group_kind.group
        → m.is_root_scoped e.group_kind gv.version ≡ none
        → IsUnreadable ref

  -- `x` is the request for the owner that a reference names, and all before it can be read
  pub data IsNamed (object : Object) (x : Request) : List OwnerReference → Type 0 where
    first :
        {ref : OwnerReference} {refs : List OwnerReference}
        → IsOwnerRequest object x ref
        → IsNamed object x (ref ∷ refs)
    later :
        {ref : OwnerReference} {refs : List OwnerReference}
        → ¬ IsUnreadable ref
        → IsNamed object x refs
        → IsNamed object x (ref ∷ refs)

  -- what one turn does, by the reference
  abbrev TurnOf : Object → OwnerReference → Turn → Type 0
  TurnOf object ref stop = IsUnreadable ref × ((x : Request) → ¬ IsOwnerRequest object x ref)
  TurnOf object ref skip = (¬ IsUnreadable ref) × ((x : Request) → ¬ IsOwnerRequest object x ref)
  TurnOf object ref (found r) =
      (¬ IsUnreadable ref)
      × IsOwnerRequest object r ref
      × ((x : Request) → IsOwnerRequest object x ref → x ≡ r)

  turn_lem : (object : Object) (ref : OwnerReference) → TurnOf object ref (turn m e object ref)
  turn_lem object ref = elim (Option-cases (m.parse_group_version ref.api_version)) [
    | inl p ↦
        let now : turn m e object ref ≡ stop = ground (arith, p) in
        subst (TurnOf object ref) (sym now) (unparsed p, λ x h. cc (h.parsed, p))
    | inr (gv, p) ↦ elim (beq-cases ref.kind e.group_kind.kind) [
      | inr (k, differ) ↦
          let now : turn m e object ref ≡ skip = ground (arith, p, k) in
          subst (TurnOf object ref) (sym now) (
            λ u. elim u [ unparsed q ↦ cc | unmapped q same g r ↦ absurd (differ same) ],
            λ x h. differ h.same_kind,
          )
      | inl (k, same_kind) ↦ elim (beq-cases gv.group e.group_kind.group) [
        | inr (g, differ) ↦
            let now : turn m e object ref ≡ skip = ground (arith, p, k, g) in
            subst (TurnOf object ref) (sym now) (
              λ u. elim u [ unparsed q ↦ cc | unmapped q same h r ↦ differ (cc) ],
              λ x h. differ (cc (h.parsed, h.same_group)),
            )
        | inl (g, same_group) ↦ elim (Option-cases (m.is_root_scoped e.group_kind gv.version)) [
          | inl q ↦
              let now : turn m e object ref ≡ stop = ground (arith, p, k, g, q) in
              subst (TurnOf object ref) (sym now)
                (unmapped p same_kind same_group q, λ x h. cc (h.parsed, h.scoped))
          | inr (root, q) ↦
              let now : turn m e object ref ≡ found (request_of root object ref) =
                ground (arith, p, k, g, q) in
              subst (TurnOf object ref) (sym now) (
                λ u. elim u [ unparsed r ↦ cc | unmapped r same h n ↦ cc ],
                record {
                  gv = gv;
                  is_root = root;
                  parsed = p;
                  same_kind = same_kind;
                  same_group = same_group;
                  scoped = q;
                  made = refl;
                },
                λ x h. cc (h.parsed, h.scoped, h.made),
              )
        ]
      ]
    ]
  ]

  no_reference : (object : Object) (x : Request) → ¬ IsNamed object x []
  no_reference object x h = elim h [ ]

  named_or :
      (object : Object) (x : Request) (ref : OwnerReference) (refs : List OwnerReference)
      → IsNamed object x (ref ∷ refs)
      → IsOwnerRequest object x ref ⊎ (¬ IsUnreadable ref) × IsNamed object x refs
  named_or object x ref refs (first h) = inl h
  named_or object x ref refs (later n h) = inr (n, h)

  contains-collect :
      (x : Request) (object : Object) (refs : List OwnerReference) (result : List Request)
      → (contains x (collect m e object refs result) ≡ true)
        ↔ ((contains x result ≡ true) ⊎ IsNamed object x refs)
  unfolding collect
  contains-collect x object [] result =
      (inl, λ h. elim h [ inl p ↦ p | inr q ↦ absurd (no_reference object x q) ])
  contains-collect x object (ref ∷ refs) result =
      let law = turn_lem object ref in
      elim (Turn-cases (turn m e object ref)) [
        | inl p ↦
            let now : TurnOf object ref stop = subst (TurnOf object ref) p law in
            rw (p, collect)
              (
                inl,
                λ h. elim h [
                  | inl q ↦ q
                  | inr n ↦ elim (named_or object x ref refs n) [
                    | inl r ↦ absurd (now.1 x r)
                    | inr (readable, _) ↦ absurd (readable now.0)
                  ]
                ],
              )
        | inr (inl p) ↦
            let now : TurnOf object ref skip = subst (TurnOf object ref) p law in
            let ih = contains-collect x object refs result in
            rw (p, collect)
              (
                λ h. elim (ih.0 h) [ inl q ↦ inl q | inr n ↦ inr (later now.0 n) ],
                λ h. elim h [
                  | inl q ↦ ih.1 (inl q)
                  | inr n ↦ elim (named_or object x ref refs n) [
                    | inl r ↦ absurd (now.1 x r)
                    | inr (_, n') ↦ ih.1 (inr n')
                  ]
                ],
              )
        | inr (inr (r, p)) ↦
            let now : TurnOf object ref (found r) = subst (TurnOf object ref) p law in
            let ih = contains-collect x object refs (insert r result) in
            let put = contains-insert x r result in
            rw (p, collect)
              (
                λ h. elim (ih.0 h) [
                  | inl q ↦ elim (beq-cases r x) [
                    | inl (_, same) ↦
                        inr (first (subst (λ y. IsOwnerRequest object y ref) same now.1))
                    | inr (b, _) ↦ inl (ground (arith, put, b, q))
                  ]
                  | inr n ↦ inr (later now.0 n)
                ],
                λ h. elim h [
                  | inl q ↦ ih.1 (inl (ground (arith, put, q)))
                  | inr n ↦ elim (named_or object x ref refs n) [
                    | inl o ↦
                        let same : x ≡ r = now.2 x o in
                        ih.1 (inl (put ∙ ground (arith, beq-cases r x, same)))
                    | inr (_, n') ↦ ih.1 (inr n')
                  ]
                ],
              )
      ]

  -- The owner that `x` requests is named by a reference of the object: by the one that
  -- `metav1.GetControllerOf` gives, if the handler looks for controllers, or else by any.
  abbrev pub IsOwner : Request → Option Object → Type 0
  IsOwner x none = ⊥
  IsOwner x (some o) =
      (e.is_controller ≡ false) × IsNamed o x o.owner_references
      ⊎ (e.is_controller ≡ true)
        × ((ref : OwnerReference) × (m.get_controller_of o.owner_references ≡ some ref)
            × IsOwnerRequest o x ref)

  pub contains-IsOwner :
      (x : Request) (o : Option Object) (reqs : List Request)
      → (contains x (get_owner_reconcile_request m e o reqs) ≡ true)
        ↔ ((contains x reqs ≡ true) ⊎ IsOwner x o)
  unfolding get_owner_reconcile_request
  contains-IsOwner x none reqs = (inl, λ h. elim h [ inl p ↦ p | inr q ↦ absurd q ])
  contains-IsOwner x (some o) reqs = elim (Bool-cases e.is_controller) [
    | inr all ↦
        let law = contains-collect x o o.owner_references reqs in
        let refs : get_owners_references m e (some o) ≡ o.owner_references =
          unfold get_owners_references in ground (arith, all) in
        rw refs (
          λ h. elim (law.0 h) [ inl p ↦ inl p | inr n ↦ inr (inl (all, n)) ],
          λ h. elim h [
            | inl p ↦ law.1 (inl p)
            | inr (inl (_, n)) ↦ law.1 (inr n)
            | inr (inr (one, _)) ↦ cc
          ],
        )
    | inl one ↦ elim (Option-cases (m.get_controller_of o.owner_references)) [
      | inl none_found ↦
          let law = contains-collect x o [] reqs in
          let refs : get_owners_references m e (some o) ≡ [] =
            unfold get_owners_references in ground (arith, one, none_found) in
          rw refs (
            λ h. elim (law.0 h) [ inl p ↦ inl p | inr n ↦ absurd (no_reference o x n) ],
            λ h. elim h [
              | inl p ↦ law.1 (inl p)
              | inr (inl (all, _)) ↦ cc
              | inr (inr (_, (ref, f, _))) ↦ cc
            ],
          )
      | inr (ref, f) ↦
          let law = contains-collect x o (ref ∷ []) reqs in
          let refs : get_owners_references m e (some o) ≡ ref ∷ [] =
            unfold get_owners_references in ground (arith, one, f) in
          rw refs (
            λ h. elim (law.0 h) [
              | inl p ↦ inl p
              | inr n ↦ elim (named_or o x ref [] n) [
                | inl r ↦ inr (inr (one, (ref, f, r)))
                | inr (_, n') ↦ absurd (no_reference o x n')
              ]
            ],
            λ h. elim h [
              | inl p ↦ law.1 (inl p)
              | inr (inl (all, _)) ↦ cc
              | inr (inr (_, (other, g, r))) ↦
                  let same : other ≡ ref = cc in
                  law.1 (inr (first (subst (IsOwnerRequest o x) same r)))
            ],
          )
    ]
  ]

  Distinct-collect :
      (object : Object) (refs : List OwnerReference) (result : List Request)
      → Distinct result
      → Distinct (collect m e object refs result)
  unfolding collect
  Distinct-collect object [] result d = d
  Distinct-collect object (ref ∷ refs) result d = elim (Turn-cases (turn m e object ref)) [
    | inl p ↦ rw (p, collect) d
    | inr (inl p) ↦ rw (p, collect) (Distinct-collect object refs result d)
    | inr (inr (r, p)) ↦
        rw (p, collect)
          (Distinct-collect object refs (insert r result) (Distinct-insert r result d))
  ]

  pub Distinct-owners :
      (o : Option Object) (reqs : List Request)
      → Distinct reqs
      → Distinct (get_owner_reconcile_request m e o reqs)
  unfolding get_owner_reconcile_request
  Distinct-owners none reqs d = d
  Distinct-owners (some o) reqs d = Distinct-collect o (get_owners_references m e (some o)) reqs d
