-- ===== src/ClientCalls.antt =====
-- The calls of a client, and what pkg/client/typed_client.go sends for them, with the options as
-- pkg/client/options.go makes them raw options of apimachinery.
-- A patch carries its `Data`, which gives a value of a type `B` for the object.
pub mod Wrappers
pub mod Confinement
mod Examples
use controller_runtime.Prelude.{
  ℤ, pos, String, ◌==◌, string_eq, Bool, true, false, not, ◌&&◌, Option, none, some, List, [], ◌∷◌,
  ◌++◌, if◌then◌else◌,
}
use controller_runtime.Prelude.Fallible.{Fallible, ok, err}
use controller_runtime.Object.{Object, Request}
use controller_runtime.ClientOptions.{
  RawWrite, RawPatch, RawDelete, RawList, WriteOptions, PatchOptions, DeleteOptions, ListOptions,
  no_write_options, no_patch_options, no_delete_options, no_list_options, WriteOption, PatchOption,
  DeleteOption, ListOption, apply_write_option, apply_patch_option, apply_delete_option,
  apply_list_option, apply_options, Selectors, dry_write, dry_patch, dry_delete, in_namespace,
  apply_to_list, apply_to_delete,
}

-- the object itself or its status
pub data Target : Type 0 where
  whole status : Target

-- a `DeleteAllOfOption`; the file declares those that select and those of a deletion
pub data DeleteAllOption (L F P Q X : Type 0) : Type 0 where
  selecting : ListOption L F X → DeleteAllOption L F P Q X
  deleting : DeleteOption P Q X → DeleteAllOption L F P Q X
  delete_all_struct : ListOptions L F X → DeleteOptions P Q X → DeleteAllOption L F P Q X

pub data Call (L F P Q X B Err : Type 0) : Type 0 where
  create : Object → List (WriteOption X) → Call L F P Q X B Err
  update : Target → Object → List (WriteOption X) → Call L F P Q X B Err
  patch : Target → Object → (Object → Fallible Err B) → List (PatchOption X) → Call L F P Q X B Err
  delete : Object → List (DeleteOption P Q X) → Call L F P Q X B Err
  delete_all : List (DeleteAllOption L F P Q X) → Call L F P Q X B Err
  get : Request → Call L F P Q X B Err
  list : List (ListOption L F X) → Call L F P Q X B Err

-- what goes with a request
pub data Payload (P Q X B : Type 0) : Type 0 where
  written : Object → RawWrite X → Payload P Q X B
  patched : B → RawPatch X → Payload P Q X B
  deleted : RawDelete P Q X → Payload P Q X B
  all_deleted : RawList X → RawDelete P Q X → Payload P Q X B
  listed : RawList X → Payload P Q X B
  nothing : Payload P Q X B

pub data Method : Type 0 where
  post put_method patch_method delete_method get_method : Method

pub record RestRequest (P Q X B : Type 0) : Type 0 where
  pub method : Method
  pub namespace : Option String
  pub name : Option String
  pub target : Target
  pub payload : Payload P Q X B

abbrev pub rest_or : {A : Type 0} {X : Type 0} → (A → X) → X → Option A → X
rest_or rest empty none = empty
rest_or rest empty (some raw) = rest raw

-- `AsCreateOptions` and the others: `empty` is the rest of an empty raw record
module _ {X : Type 0} (empty : X) where
  unfoldable pub as_write_options : WriteOptions X → RawWrite X
  as_write_options o = record {
    dry_run = o.dry_run;
    field_manager = o.field_manager;
    rest = rest_or (λ (r : RawWrite X). r.rest) empty o.raw;
  }

  unfoldable pub as_patch_options : PatchOptions X → RawPatch X
  as_patch_options o = record {
    dry_run = o.dry_run;
    force = o.force;
    field_manager = o.field_manager;
    rest = rest_or (λ (r : RawPatch X). r.rest) empty o.raw;
  }

  unfoldable pub as_delete_options : {P Q : Type 0} → DeleteOptions P Q X → RawDelete P Q X
  as_delete_options {P = P} {Q = Q} o = record {
    grace_period_seconds = o.grace_period_seconds;
    preconditions = o.preconditions;
    propagation_policy = o.propagation_policy;
    dry_run = o.dry_run;
    rest = rest_or (λ (r : RawDelete P Q X). r.rest) empty o.raw;
  }

  abbrev pub empty_raw_list : RawList X
  empty_raw_list = record {
    label_selector = "";
    field_selector = "";
    watch = false;
    limit = pos 0;
    continue_token = "";
    rest = empty;
  }

abbrev pub raw_or : {A : Type 0} → A → Option A → A
raw_or empty none = empty
raw_or empty (some raw) = raw

abbrev pub text_or : {A : Type 0} → (A → String) → String → Option A → String
text_or text old none = old
text_or text old (some a) = text a

module _ {L F R X : Type 0} (k : Selectors L F R) (empty : X) where
  unfoldable pub as_list_options : ListOptions L F X → RawList X
  as_list_options o =
      let raw = raw_or (empty_raw_list empty) o.raw in
      let selected = record raw {
        label_selector = text_or k.label_text raw.label_selector o.label_selector;
        field_selector = text_or k.field_text raw.field_selector o.field_selector;
      } in
      if not raw.watch
      then record selected { limit = o.limit; continue_token = o.continue_token }
      else selected

module _ {L F R : Type 0} (k : Selectors L F R) {P Q X : Type 0} where
  -- `ApplyToDeleteAllOf`, on the two structs that `DeleteAllOfOptions` embeds
  unfoldable pub apply_delete_all_option :
      DeleteAllOption L F P Q X
      → ListOptions L F X × DeleteOptions P Q X
      → ListOptions L F X × DeleteOptions P Q X
  apply_delete_all_option (selecting o) d = (apply_list_option k o d.0, d.1)
  apply_delete_all_option (deleting o) d = (d.0, apply_delete_option o d.1)
  apply_delete_all_option (delete_all_struct l o) d = (apply_to_list k l d.0, apply_to_delete o d.1)

-- `NamespaceIfScoped`
abbrev pub if_scoped : String → Bool → Option String
if_scoped ns scoped = if scoped then some ns else none

module _ {L F R : Type 0} (k : Selectors L F R) {P Q X B Err : Type 0} (empty : X) where
  -- `typedClient`: `meta` is what the lookup of the resource returns, whether it is namespaced or an
  -- error
  unfoldable pub typed_client :
      Fallible Err Bool → Call L F P Q X B Err → Fallible Err (RestRequest P Q X B)
  typed_client (err e) call = err e
  typed_client (ok scoped) (create obj opts) = ok (record {
    method = post;
    namespace = if_scoped obj.namespace scoped;
    name = none;
    target = whole;
    payload =
        written obj
          (as_write_options empty (apply_options apply_write_option opts no_write_options));
  })
  typed_client (ok scoped) (update target obj opts) = ok (record {
    method = put_method;
    namespace = if_scoped obj.namespace scoped;
    name = some obj.name;
    target = target;
    payload =
        written obj
          (as_write_options empty (apply_options apply_write_option opts no_write_options));
  })
  typed_client (ok scoped) (patch target obj data_of opts) = elim (data_of obj) [
    | err e ↦ err e
    | ok data_of_patch ↦ ok (record {
      method = patch_method;
      namespace = if_scoped obj.namespace scoped;
      name = some obj.name;
      target = target;
      payload =
          patched data_of_patch
            (as_patch_options empty (apply_options apply_patch_option opts no_patch_options));
    })
  ]
  typed_client (ok scoped) (delete obj opts) = ok (record {
    method = delete_method;
    namespace = if_scoped obj.namespace scoped;
    name = some obj.name;
    target = whole;
    payload =
        deleted
          (as_delete_options empty (apply_options apply_delete_option opts no_delete_options));
  })
  typed_client (ok scoped) (delete_all opts) =
      let both =
        apply_options (apply_delete_all_option k) opts (no_list_options k, no_delete_options) in
      ok (record {
        method = delete_method;
        namespace = if_scoped both.0.namespace scoped;
        name = none;
        target = whole;
        payload = all_deleted (as_list_options k empty both.0) (as_delete_options empty both.1);
      })
  typed_client (ok scoped) (get key) = ok (record {
    method = get_method;
    namespace = if_scoped key.namespace scoped;
    name = some key.name;
    target = whole;
    payload = nothing;
  })
  typed_client (ok scoped) (list opts) =
      let o = apply_options (apply_list_option k) opts (no_list_options k) in
      ok (record {
        method = get_method;
        namespace = if_scoped o.namespace scoped;
        name = none;
        target = whole;
        payload = listed (as_list_options k empty o);
      })
