-- ===== src/Controller/Exclusion.antt =====
-- Two workers never hold one item: the proof, step by step, for Controller/Workers.
use mathlib.Core.Path.{subst}
use controller_runtime.Prelude.{
  ℕ, suc, ◌≤◌, ◌≡◌, ◌≢◌, ◌∙◌, refl, sym, ap, ◌⊎◌, inl, inr, true, false, Option, none, some, List,
  [], ◌∷◌, arith, nat_eq_class, contains, beq-cases, length, Bool-cases, ◌+◌, ◌++◌, ltb_ℤ, pos,
}
use controller_runtime.Object.{Request}
use controller_runtime.Queue.{
  Item, item_eq, Call, add, add_after, add_rate_limited, forget, done, call_reconciler, request,
  invalid,
}
use controller_runtime.Controller.{Result, Metrics, settle, process_next_work_item}
use controller_runtime.Controller.Laws.{done_of, done_of-process}
use controller_runtime.Controller.Workers.{
  WorkQueue, IsQueue, WorkerState, idle, pending, reconciling, first, held, System, Step, take,
  make_call, enter, leave, repeat, elsewhere, Reach, here, next,
}

fewer :
    (c : Call) (calls : List Call) → length (done_of (c ∷ calls)) ≤ 1 → length (done_of calls) ≤ 1
fewer (done i) calls h = omega arith
fewer (add r) calls h = h
fewer (add_rate_limited r) calls h = h
fewer (add_after r d) calls h = h
fewer (forget i) calls h = h
fewer (call_reconciler r) calls h = h

nothing_left :
    (i : Item) (calls : List Call)
    → length (done_of (done i ∷ calls)) ≤ 1
    → first (done_of calls) ≡ none
nothing_left i calls h = go (done_of calls) h
  where
    go : (is : List Item) → suc (length is) ≤ 1 → first is ≡ none
    go [] h = refl
    go (j ∷ is) h = absurd (omega arith)

-- the item that is still to be given back was held before the call
held_before :
    (c : Call) (calls : List Call) (j : Item)
    → length (done_of (c ∷ calls)) ≤ 1
    → first (done_of calls) ≡ some j
    → first (done_of (c ∷ calls)) ≡ some j
held_before (done i) calls j h e = cc (nothing_left i calls h)
held_before (add r) calls j h e = e
held_before (add_rate_limited r) calls j h e = e
held_before (add_after r d) calls j h e = e
held_before (forget i) calls j h e = e
held_before (call_reconciler r) calls j h e = e

-- a request is given back after it has been reconciled
abbrev pub InOrder : List Call → Type 0
InOrder [] = Unit
InOrder (call_reconciler r ∷ calls) = (first (done_of calls) ≡ some (request r)) × InOrder calls
InOrder (add r ∷ calls) = InOrder calls
InOrder (add_rate_limited r ∷ calls) = InOrder calls
InOrder (add_after r d ∷ calls) = InOrder calls
InOrder (forget i ∷ calls) = InOrder calls
InOrder (done i ∷ calls) = InOrder calls

InOrder-tail : (c : Call) (calls : List Call) → InOrder (c ∷ calls) → InOrder calls
InOrder-tail (done i) calls h = h
InOrder-tail (add r) calls h = h
InOrder-tail (add_rate_limited r) calls h = h
InOrder-tail (add_after r d) calls h = h
InOrder-tail (forget i) calls h = h
InOrder-tail (call_reconciler r) calls h = h.1

-- the calls that are left give back one item at most, and only what has been reconciled
abbrev pub IsOrderly : WorkerState → Type 0
IsOrderly idle = Unit
IsOrderly (pending calls) = (length (done_of calls) ≤ 1) × InOrder calls
IsOrderly (reconciling r calls) =
    (first (done_of calls) ≡ some (request r)) × ((length (done_of calls) ≤ 1) × InOrder calls)

settle-InOrder :
    {Err : Type 0} (req : Request) (result : Result) (err : Option Err) (m : Metrics)
    → let calls = (settle req result err m).0 ++ done (request req) ∷ [] in
      (first (done_of calls) ≡ some (request req)) × InOrder calls
unfolding settle
settle-InOrder req result (some err) m = (refl, tt)
settle-InOrder req result none m = elim (Bool-cases (ltb_ℤ (pos 0) result.requeue_after)) [
  | inl late ↦ rw (late, settle) (refl, tt)
  | inr now ↦ elim (Bool-cases result.requeue) [
    | inl again ↦ rw (now, again, settle) (refl, tt)
    | inr enough ↦ rw (now, enough, settle) (refl, tt)
  ]
]

module _ {W Err : Type 0} (do_reconcile : Request → W → (Result × Option Err) × W) where
  InOrder-process :
      (obj : Item) (w : W) (m : Metrics)
      → InOrder (process_next_work_item do_reconcile (some obj) w m).1
  unfolding process_next_work_item
  InOrder-process (invalid v) w m = tt
  InOrder-process (request req) w m =
      settle-InOrder req (do_reconcile req w).0.0 (do_reconcile req w).0.1
        (record m { active_workers = m.active_workers + 1 })

module _ {W Err : Type 0} (do_reconcile : Request → W → (Result × Option Err) × W)
    (k : WorkQueue) where
  pub record IsExclusive (s : System do_reconcile k) : Type 0 where
    pub processed :
        (w : ℕ) (i : Item) → held (s.workers w) ≡ some i → contains i (k.processing s.queue) ≡ true
    pub apart :
        (v w : ℕ) (i : Item) → v ≢ w → held (s.workers v) ≡ some i → held (s.workers w) ≢ some i
    pub orderly : (w : ℕ) → IsOrderly (s.workers w)

  Step-IsOrderly :
      {s t : System do_reconcile k}
      → Step do_reconcile k s t
      → IsExclusive s
      → (w : ℕ) → IsOrderly (t.workers w)
  Step-IsOrderly (take s w i q state m f g) h v = elim (beq-cases v w) [
    | inl e ↦ rw e.0 (
      rw (done_of-process do_reconcile i state m) (omega arith),
      InOrder-process do_reconcile i state m,
    )
    | inr e ↦ rw e.0 (h.orderly v)
  ]
  Step-IsOrderly (make_call s w c calls n f) h v = elim (beq-cases v w) [
    | inl e ↦
        let before : IsOrderly (pending (c ∷ calls)) = subst IsOrderly f (h.orderly w) in
        rw e.0 (fewer c calls before.0, InOrder-tail c calls before.1)
    | inr e ↦ rw e.0 (h.orderly v)
  ]
  Step-IsOrderly (enter s w r calls f) h v = elim (beq-cases v w) [
    | inl e ↦
        let before : IsOrderly (pending (call_reconciler r ∷ calls)) =
          subst IsOrderly f (h.orderly w) in
        rw e.0 (before.1.0, (before.0, before.1.1))
    | inr e ↦ rw e.0 (h.orderly v)
  ]
  Step-IsOrderly (leave s w r calls f) h v = elim (beq-cases v w) [
    | inl e ↦
        let before : IsOrderly (reconciling r calls) = subst IsOrderly f (h.orderly w) in
        rw e.0 before.1
    | inr e ↦ rw e.0 (h.orderly v)
  ]
  Step-IsOrderly (repeat s w f) h v = elim (beq-cases v w) [
    | inl e ↦ rw e.0 tt
    | inr e ↦ rw e.0 (h.orderly v)
  ]
  Step-IsOrderly (elsewhere s c f) h v = h.orderly v

  Step-processed :
      {s t : System do_reconcile k}
      → Step do_reconcile k s t
      → IsQueue k
      → IsExclusive s
      → (v : ℕ) (j : Item) → held (t.workers v) ≡ some j
      → contains j (k.processing t.queue) ≡ true
  Step-processed (take s w i q state m f g) law h v j e = elim (beq-cases v w) [
    | inl p ↦
        let same : i ≡ j = ground (arith, done_of-process do_reconcile i state m) in
        ground (arith, (k.get_fresh s.queue i q g).1 j, beq-cases i j, same)
    | inr p ↦ ground (arith, (k.get_fresh s.queue i q g).1 j, h.processed v j)
  ]
  Step-processed (enter s w r calls f) law h v j e = elim (beq-cases v w) [
    | inl p ↦
        let before : IsOrderly (pending (call_reconciler r ∷ calls)) =
          subst IsOrderly f (h.orderly w) in
        h.processed w j (ap held f ∙ before.1.0 ∙ ground (arith, e, p.0))
    | inr p ↦ h.processed v j (ground (arith, e, p.0))
  ]
  Step-processed (leave s w r calls f) law h v j e = elim (beq-cases v w) [
    | inl p ↦
        let before : IsOrderly (reconciling r calls) = subst IsOrderly f (h.orderly w) in
        h.processed w j (ap held f ∙ sym before.0 ∙ ground (arith, e, p.0))
    | inr p ↦ h.processed v j (ground (arith, e, p.0))
  ]
  Step-processed (make_call s w (done i) calls n f) law h v j e = elim (beq-cases v w) [
    | inl p ↦
        let none_left : first (done_of calls) ≡ none =
          nothing_left i calls (subst IsOrderly f (h.orderly w)).0 in
        absurd (ground arith)
    | inr p ↦
        let other : held (s.workers v) ≡ some j = ground arith in
        let mine : held (s.workers w) ≡ some i = rw f in
        elim (beq-cases i j) [
          | inl q ↦ absurd (h.apart v w j p.1 other (mine ∙ ap some q.1))
          | inr q ↦ rw (k.done_frees s.queue i j, q.0) (h.processed v j other)
        ]
  ]
  Step-processed (make_call s w (add r) calls n f) law h v j e =
      rw (law.keeps (add r) s.queue refl) (ground (arith, h.processed v j, beq-cases v w))
  Step-processed (make_call s w (add_rate_limited r) calls n f) law h v j e =
      rw (law.keeps (add_rate_limited r) s.queue refl)
        (ground (arith, h.processed v j, beq-cases v w))
  Step-processed (make_call s w (add_after r d) calls n f) law h v j e =
      rw (law.keeps (add_after r d) s.queue refl) (ground (arith, h.processed v j, beq-cases v w))
  Step-processed (make_call s w (forget i) calls n f) law h v j e =
      rw (law.keeps (forget i) s.queue refl) (ground (arith, h.processed v j, beq-cases v w))
  Step-processed (make_call s w (call_reconciler r) calls n f) law h v j e = absurd (n r refl)
  Step-processed (repeat s w f) law h v j e = ground (arith, h.processed v j, beq-cases v w)
  Step-processed (elsewhere s c f) law h v j e = rw (law.keeps c s.queue f) (h.processed v j e)

  -- an item that a worker holds after a step that is no `take` was held by it before
  Step-held_before :
      {s t : System do_reconcile k}
      → Step do_reconcile k s t
      → IsExclusive s
      → (v : ℕ) (j : Item) → held (t.workers v) ≡ some j
      → (held (s.workers v) ≡ some j)
        ⊎ ((contains j (k.processing s.queue) ≡ false)
            × ((w : ℕ) → w ≢ v → t.workers w ≡ s.workers w))
  Step-held_before (take s u i q state m f g) h v j e = elim (beq-cases v u) [
    | inl p ↦
        let same : i ≡ j = ground (arith, done_of-process do_reconcile i state m) in
        inr (
          rw (← same) (k.get_fresh s.queue i q g).0,
          λ w ne. elim (beq-cases w u) [ inl x ↦ absurd (ne (x.1 ∙ sym p.1)) | inr x ↦ rw x.0 ],
        )
    | inr p ↦ inl (ground arith)
  ]
  Step-held_before (enter s u r calls f) h v j e = elim (beq-cases v u) [
    | inl p ↦
        let before : IsOrderly (pending (call_reconciler r ∷ calls)) =
          subst IsOrderly f (h.orderly u) in
        inl (rw p.1 (ap held f ∙ before.1.0 ∙ ground (arith, e, p.0)))
    | inr p ↦ inl (ground arith)
  ]
  Step-held_before (leave s u r calls f) h v j e = elim (beq-cases v u) [
    | inl p ↦
        let before : IsOrderly (reconciling r calls) = subst IsOrderly f (h.orderly u) in
        inl (rw p.1 (ap held f ∙ sym before.0 ∙ ground (arith, e, p.0)))
    | inr p ↦ inl (ground arith)
  ]
  Step-held_before (make_call s u c calls n f) h v j e = elim (beq-cases v u) [
    | inl p ↦
        let mine : first (done_of calls) ≡ some j = ground arith in
        inl (rw (p.1, f) (held_before c calls j (subst IsOrderly f (h.orderly u)).0 mine))
    | inr p ↦ inl (ground arith)
  ]
  Step-held_before (repeat s u f) h v j e = inl (ground (arith, beq-cases v u))
  Step-held_before (elsewhere s c f) h v j e = inl e

  Step-apart :
      {s t : System do_reconcile k}
      → Step do_reconcile k s t
      → IsExclusive s
      → (v w : ℕ) (j : Item) → v ≢ w
      → held (t.workers v) ≡ some j
      → held (t.workers w) ≢ some j
  Step-apart {s} {t} step h v w j ne a b = elim (Step-held_before step h v j a) [
    | inl old_v ↦ elim (Step-held_before step h w j b) [
      | inl old_w ↦ h.apart v w j ne old_v old_w
      | inr new ↦ cc (new.0, h.processed v j old_v)
    ]
    | inr new ↦
        let old_w : held (s.workers w) ≡ some j = rw (new.1 w (λ p. ne (sym p))) at b in
        cc (new.0, h.processed w j old_w)
  ]

  Reach-IsExclusive :
      {s t : System do_reconcile k}
      → IsQueue k
      → IsExclusive s
      → Reach do_reconcile k s t
      → IsExclusive t
  Reach-IsExclusive law h here = h
  Reach-IsExclusive law h (next r step) =
      let before = Reach-IsExclusive law h r in
      record {
        processed = Step-processed step law before;
        apart = Step-apart step before;
        orderly = Step-IsOrderly step before;
      }

  -- In every state that any number of workers reach from one in which all are idle, two workers never
  -- hold one item, in the order in which `processNextWorkItem` makes its calls: no request is in the
  -- reconciler twice at a time, and no item is taken again before `Queue.Done` was called for it, where
  -- the queue gives no item that is being processed.
  pub Reach-apart :
      (s t : System do_reconcile k)
      → IsQueue k
      → ((w : ℕ) → s.workers w ≡ idle)
      → Reach do_reconcile k s t
      → (v w : ℕ) (i : Item) → v ≢ w
      → held (t.workers v) ≡ some i
      → held (t.workers w) ≢ some i
  Reach-apart s t law start r =
      (Reach-IsExclusive law
        (record {
          processed = λ w i e. cc (ap held (start w));
          apart = λ v w i ne a b. cc (ap held (start v));
          orderly = λ w. rw (start w) tt;
        })
        r).apart
