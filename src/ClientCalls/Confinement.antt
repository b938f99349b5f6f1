-- ===== src/ClientCalls/Confinement.antt =====
-- What reaches the API server through the clients of pkg/client/namespaced_client.go and
-- pkg/client/dryrun.go.
use controller_runtime.Prelude.{
  ◌∙◌, ap, String, ◌==◌, string_eq, ◌≡◌, refl, ◌⊎◌, inl, inr, Bool, true, false, ◌||◌, some, List,
  [], ◌∷◌, ◌++◌, arith, Bool-cases, beq-cases,
}
use controller_runtime.Prelude.Fallible.{Fallible-cases, Fallible, ok, err}
use controller_runtime.Object.{Object}
use controller_runtime.ClientOptions.{
  Selectors, apply_options, apply_write_option, apply_patch_option, apply_delete_option,
  apply_list_option, dry_write, dry_patch, dry_delete, in_namespace, all_dry,
}
use controller_runtime.ClientCalls.{
  Call, create, update, patch, delete, delete_all, get, list, selecting, deleting, RestRequest,
  Payload, written, patched, deleted, all_deleted, listed, nothing, typed_client,
  apply_delete_all_option, as_write_options, as_patch_options, as_delete_options,
}
use controller_runtime.ClientCalls.Wrappers.{
  namespace_mismatch, with_namespace, with_key_namespace, namespaced_client, dry_run_client,
  pass_on,
}

apply_options-append :
    {A O : Type 0} (apply : A → O → O) (xs : List A) (x : A) (o : O)
    → apply_options apply (xs ++ x ∷ []) o ≡ apply x (apply_options apply xs o)
apply_options-append apply [] x o = refl
apply_options-append apply (y ∷ ys) x o = apply_options-append apply ys x (apply y o)

-- the payload, with the server told to change nothing
abbrev pub dried : {P Q X B : Type 0} → Payload P Q X B → Payload P Q X B
dried (written obj raw) = written obj (record raw { dry_run = all_dry })
dried (patched b raw) = patched b (record raw { dry_run = all_dry })
dried (deleted raw) = deleted (record raw { dry_run = all_dry })
dried (all_deleted l raw) = all_deleted l (record raw { dry_run = all_dry })
dried (listed l) = listed l
dried nothing = nothing

abbrev pub dried_request : {P Q X B : Type 0} → RestRequest P Q X B → RestRequest P Q X B
dried_request r = record r { payload = dried r.payload }

module _ {L F R : Type 0} (k : Selectors L F R) {P Q X B Err : Type 0} (empty : X) where
  -- For every call, the client of a dry run sends the request that is sent without it, with
  -- all of it to be run dry where it writes, whatever the options of the call say; a call that fails
  -- fails the same.
  pub typed_client-dry_run_client :
      (meta : Fallible Err Bool) (call : Call L F P Q X B Err)
      → typed_client k empty meta (dry_run_client call)
        ≡ pass_on (typed_client k empty meta call) dried_request
  unfolding typed_client dry_run_client as_write_options as_patch_options as_delete_options
      apply_write_option apply_patch_option apply_delete_option apply_delete_all_option
  typed_client-dry_run_client (err e) call = refl
  typed_client-dry_run_client (ok scoped) (create obj opts) =
      rw (apply_options-append apply_write_option opts dry_write _)
  typed_client-dry_run_client (ok scoped) (update target obj opts) =
      rw (apply_options-append apply_write_option opts dry_write _)
  typed_client-dry_run_client (ok scoped) (patch target obj data_of opts) =
      elim (Fallible-cases (data_of obj)) [
        | inl (b, p) ↦ rw (p, apply_options-append apply_patch_option opts dry_patch _)
        | inr (e, p) ↦ rw p
      ]
  typed_client-dry_run_client (ok scoped) (delete obj opts) =
      rw (apply_options-append apply_delete_option opts dry_delete _)
  typed_client-dry_run_client (ok scoped) (delete_all opts) =
      rw (apply_options-append (apply_delete_all_option k) opts (deleting dry_delete) _)
  typed_client-dry_run_client (ok scoped) (get key) = refl
  typed_client-dry_run_client (ok scoped) (list opts) = refl

-- the namespace that a call asks for, empty where it asks for none
abbrev pub asked : {L F P Q X B Err : Type 0} → Call L F P Q X B Err → String
asked (create obj opts) = obj.namespace
asked (update target obj opts) = obj.namespace
asked (patch target obj b opts) = obj.namespace
asked (delete obj opts) = obj.namespace
asked (delete_all opts) = ""
asked (get key) = key.namespace
asked (list opts) = ""

-- it asks for the namespace, or for none
abbrev pub is_asked : {L F P Q X B Err : Type 0} → String → Call L F P Q X B Err → Bool
is_asked ns call = asked call == "" || asked call == ns

module _ {Err : Type 0} (ns : String) where
  placed :
      (obj : Object)
      → (obj.namespace == "" || obj.namespace == ns) ≡ true
      → (o : Object) × (with_namespace {Err = Err} ns (ok true) obj ≡ ok o)
        × (o ≡ record obj { namespace = ns })
  unfolding with_namespace
  placed obj h = elim (beq-cases obj.namespace "") [
    | inl (e, _) ↦ (record obj { namespace = ns }, ground (arith, e), refl)
    | inr (e, _) ↦
        let here : (obj.namespace == ns) ≡ true = ground (arith, e, h) in
        (
          obj,
          ground (arith, e, here),
          ap (λ n. record obj { namespace = n }) ((string_eq.equal_iff obj.namespace ns).0 here),
        )
  ]

  misplaced :
      (obj : Object)
      → (obj.namespace == "" || obj.namespace == ns) ≡ false
      → with_namespace {Err = Err} ns (ok true) obj ≡ err namespace_mismatch
  unfolding with_namespace
  misplaced obj h = ground (arith, h)

-- a call, with the data of a patch computed of the object in the namespace
abbrev pub sent_for :
    {L F P Q X B Err : Type 0} → String → Call L F P Q X B Err → Call L F P Q X B Err
sent_for ns (patch target obj data_of opts) =
    patch target obj (λ o. data_of (record obj { namespace = ns })) opts
sent_for ns (create obj opts) = create obj opts
sent_for ns (update target obj opts) = update target obj opts
sent_for ns (delete obj opts) = delete obj opts
sent_for ns (delete_all opts) = delete_all opts
sent_for ns (get key) = get key
sent_for ns (list opts) = list opts

module _ {L F R : Type 0} (k : Selectors L F R) {P Q X B Err : Type 0} (empty : X) where
  abbrev Passes : String → Call L F P Q X B Err → Type 0
  Passes ns call =
      (passed : Call L F P Q X B Err) × (namespaced_client ns (ok true) call ≡ ok passed)
      × (pass_on (typed_client k empty (ok true) passed) (λ r. r.namespace)
          ≡ pass_on (typed_client k empty (ok true) (sent_for ns call)) (λ r. some ns))

  passes :
      (ns : String) (call : Call L F P Q X B Err)
      → (ns == "") ≡ false
      → is_asked ns call ≡ true
      → Passes ns call
  unfolding namespaced_client typed_client apply_delete_all_option apply_list_option
      with_key_namespace
  passes ns (create obj opts) h here =
      let (o, e, at) = placed {Err = Err} ns obj here in (create o opts, rw e, rw at)
  passes ns (update target obj opts) h here =
      let (o, e, at) = placed {Err = Err} ns obj here in (update target o opts, rw e, rw at)
  passes ns (patch target obj data_of opts) h here =
      let (o, e, at) = placed {Err = Err} ns obj here in
      (
        patch target o data_of opts,
        rw e,
        elim (Fallible-cases (data_of (record obj { namespace = ns }))) [
          | inl (b, p) ↦ rw (ap data_of at ∙ p, p) (ap (λ (z : Object). ok (some z.namespace)) at)
          | inr (x, p) ↦ rw (ap data_of at ∙ p, p)
        ],
      )
  passes ns (delete obj opts) h here =
      let (o, e, at) = placed {Err = Err} ns obj here in (delete o opts, rw e, rw at)
  passes ns (delete_all opts) h here = (
    delete_all (opts ++ selecting (in_namespace ns) ∷ []),
    refl,
    rw (apply_options-append (apply_delete_all_option k) opts (selecting (in_namespace ns)) _),
  )
  passes ns (get key) h here = (get (record key { namespace = ns }), ground (arith, here), refl)
  passes ns (list opts) h here = (
    list (opts ++ in_namespace ns ∷ []),
    rw h,
    rw (apply_options-append (apply_list_option k) opts (in_namespace ns) _),
  )

  refused :
      (ns : String) (call : Call L F P Q X B Err)
      → is_asked ns call ≡ false
      → namespaced_client ns (ok true) call ≡ err namespace_mismatch
  unfolding namespaced_client with_key_namespace
  refused ns (create obj opts) h = rw (misplaced ns obj h)
  refused ns (update target obj opts) h = rw (misplaced ns obj h)
  refused ns (patch target obj b opts) h = rw (misplaced ns obj h)
  refused ns (delete obj opts) h = rw (misplaced ns obj h)
  refused ns (delete_all opts) h = cc
  refused ns (get key) h = ground (arith, h)
  refused ns (list opts) h = cc

  -- A client that is confined to a namespace, which is not empty, passes on each call for a kind that is
  -- namespaced, if the call asks for that namespace or for none; and the request that is sent for
  -- it, where one is, is for that namespace, whatever the options say, and one is sent exactly where
  -- the call without the confinement sends one, the data of a patch being that of the object in the
  -- namespace. Any other call is refused.
  pub namespaced_client_lem :
      (ns : String) (call : Call L F P Q X B Err)
      → (ns == "") ≡ false
      → (is_asked ns call ≡ true)
          × ((passed : Call L F P Q X B Err) × (namespaced_client ns (ok true) call ≡ ok passed)
              × (pass_on (typed_client k empty (ok true) passed) (λ r. r.namespace)
                  ≡ pass_on (typed_client k empty (ok true) (sent_for ns call)) (λ r. some ns)))
        ⊎ (is_asked ns call ≡ false)
          × (namespaced_client ns (ok true) call ≡ err namespace_mismatch)
  namespaced_client_lem ns call h = elim (Bool-cases (is_asked ns call)) [
    | inl e ↦ inl (e, passes ns call h e)
    | inr e ↦ inr (e, refused ns call e)
  ]
