-- ===== src/ClientCalls/Wrappers.antt =====
-- The clients of pkg/client/namespaced_client.go and pkg/client/dryrun.go, which pass each call on to
-- another client: here, the call that they pass on.
use controller_runtime.Prelude.{
  String, ◌==◌, string_eq, Bool, not, ◌&&◌, [], ◌∷◌, ◌++◌, if◌then◌else◌,
}
use controller_runtime.Prelude.Fallible.{Fallible, ok, err}
use controller_runtime.Object.{Object, Request}
use controller_runtime.Schema.{GroupKind, GroupVersionKind, group_kind}
use controller_runtime.ClientOptions.{dry_write, dry_patch, dry_delete, in_namespace}
use controller_runtime.ClientCalls.{
  Call, create, update, patch, delete, delete_all, get, list, selecting, deleting,
}

pub data NamespaceError (Err : Type 0) : Type 0 where
  no_kind no_mapping : Err → NamespaceError Err
  empty_scope namespace_mismatch : NamespaceError Err

-- `isNamespaced`: `kind` is what `GVKForObject` returns, `mapping` the name of the scope that the
-- REST mapper has for a kind
unfoldable pub is_namespaced :
    {Err : Type 0}
    → Fallible Err GroupVersionKind
    → (GroupKind → Fallible Err String)
    → Fallible (NamespaceError Err) Bool
is_namespaced (err e) mapping = err (no_kind e)
is_namespaced (ok gvk) mapping = elim (mapping (group_kind gvk)) [
  | err e ↦ err (no_mapping e)
  | ok scope ↦ if scope == "" then err empty_scope else ok (not (scope == "root"))
]

module _ {Err : Type 0} (ns : String) where
  -- the check and the default that `Create`, `Update`, `Delete`, `Patch` and the status writer share
  unfoldable pub with_namespace :
      Fallible (NamespaceError Err) Bool → Object → Fallible (NamespaceError Err) Object
  with_namespace (err e) obj = err e
  with_namespace (ok scoped) obj =
      if not (obj.namespace == ns) && not (obj.namespace == "")
      then err namespace_mismatch
      else ok (if scoped && obj.namespace == "" then record obj { namespace = ns } else obj)

  -- the key that `Get` asks for
  unfoldable pub with_key_namespace :
      Fallible (NamespaceError Err) Bool → Request → Fallible (NamespaceError Err) Request
  with_key_namespace (err e) key = err e
  with_key_namespace (ok scoped) key =
      if scoped
      then if not (key.namespace == "") && not (key.namespace == ns)
        then err namespace_mismatch
        else ok (record key { namespace = ns })
      else ok key

-- `return n.client.F(…)`, with the object or key as it is now
abbrev pub pass_on : {E A B : Type 0} → Fallible E A → (A → B) → Fallible E B
pass_on (err e) f = err e
pass_on (ok a) f = ok (f a)

module _ {L F P Q X B Err : Type 0} where
  -- `namespacedClient` and `namespacedClientStatusWriter`
  unfoldable pub namespaced_client :
      String
      → Fallible (NamespaceError Err) Bool
      → Call L F P Q X B Err
      → Fallible (NamespaceError Err) (Call L F P Q X B Err)
  namespaced_client ns scope (create obj opts) =
      pass_on (with_namespace ns scope obj) (λ o. create o opts)
  namespaced_client ns scope (update target obj opts) =
      pass_on (with_namespace ns scope obj) (λ o. update target o opts)
  namespaced_client ns scope (patch target obj data_of opts) =
      pass_on (with_namespace ns scope obj) (λ o. patch target o data_of opts)
  namespaced_client ns scope (delete obj opts) =
      pass_on (with_namespace ns scope obj) (λ o. delete o opts)
  namespaced_client ns scope (delete_all opts) =
      pass_on scope
        (λ scoped. delete_all (if scoped then opts ++ selecting (in_namespace ns) ∷ [] else opts))
  namespaced_client ns scope (get key) = pass_on (with_key_namespace ns scope key) (λ k. get k)
  namespaced_client ns scope (list opts) =
      ok (list (if not (ns == "") then opts ++ in_namespace ns ∷ [] else opts))

  -- `dryRunClient` and `dryRunStatusWriter`
  unfoldable pub dry_run_client : Call L F P Q X B Err → Call L F P Q X B Err
  dry_run_client (create obj opts) = create obj (opts ++ dry_write ∷ [])
  dry_run_client (update target obj opts) = update target obj (opts ++ dry_write ∷ [])
  dry_run_client (patch target obj data_of opts) = patch target obj data_of (opts ++ dry_patch ∷ [])
  dry_run_client (delete obj opts) = delete obj (opts ++ dry_delete ∷ [])
  dry_run_client (delete_all opts) = delete_all (opts ++ deleting dry_delete ∷ [])
  dry_run_client (get key) = get key
  dry_run_client (list opts) = list opts
