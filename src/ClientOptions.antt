-- ===== src/ClientOptions.antt =====
-- pkg/client/options.go: the options of the calls of a client, and how they are applied one after the
-- other. `X` is the rest of a raw record of apimachinery; selectors, preconditions and
-- policies are types. An option is one of those that the file declares, its struct among them.
pub mod Overrides
pub mod Bundles
mod Examples
use controller_runtime.Prelude.{
  ℤ, pos, ltb_ℤ, String, ◌==◌, string_eq, Bool, true, false, not, Option, none, some, List, [], ◌∷◌,
  if◌then◌else◌,
}

-- the fields of `metav1.CreateOptions` and `metav1.UpdateOptions` that are set
pub record RawWrite (X : Type 0) : Type 0 where
  pub dry_run : Option (List String)
  pub field_manager : String
  pub rest : X

pub record RawPatch (X : Type 0) : Type 0 where
  pub dry_run : Option (List String)
  pub force : Option Bool
  pub field_manager : String
  pub rest : X

pub record RawDelete (P Q X : Type 0) : Type 0 where
  pub grace_period_seconds : Option ℤ
  pub preconditions : Option P
  pub propagation_policy : Option Q
  pub dry_run : Option (List String)
  pub rest : X

pub record RawList (X : Type 0) : Type 0 where
  pub label_selector : String
  pub field_selector : String
  pub watch : Bool
  pub limit : ℤ
  pub continue_token : String
  pub rest : X

-- `CreateOptions` and `UpdateOptions`, which have the same fields
pub record WriteOptions (X : Type 0) : Type 0 where
  pub dry_run : Option (List String)
  pub field_manager : String
  pub raw : Option (RawWrite X)

pub record PatchOptions (X : Type 0) : Type 0 where
  pub dry_run : Option (List String)
  pub force : Option Bool
  pub field_manager : String
  pub raw : Option (RawPatch X)

pub record DeleteOptions (P Q X : Type 0) : Type 0 where
  pub grace_period_seconds : Option ℤ
  pub preconditions : Option P
  pub propagation_policy : Option Q
  pub raw : Option (RawDelete P Q X)
  pub dry_run : Option (List String)

pub record ListOptions (L F X : Type 0) : Type 0 where
  pub label_selector : Option L
  pub field_selector : Option F
  pub namespace : String
  pub limit : ℤ
  pub continue_token : String
  pub raw : Option (RawList X)

-- `if o.F != nil { co.F = o.F }`, and so for texts and for limits
abbrev pub over_pointer : {A : Type 0} → Option A → Option A → Option A
over_pointer none co = co
over_pointer (some a) co = some a

abbrev pub over_string : String → String → String
over_string o co = if not (o == "") then o else co

abbrev pub over_limit : ℤ → ℤ → ℤ
over_limit o co = if ltb_ℤ (pos 0) o then o else co

-- `DryRunAll`
abbrev pub all_dry : Option (List String)
all_dry = some ("All" ∷ [])

module _ {X : Type 0} where
  abbrev pub no_write_options : WriteOptions X
  no_write_options = record { dry_run = none; field_manager = ""; raw = none }

  -- `ApplyToCreate` and `ApplyToUpdate` of the struct
  unfoldable pub apply_to_write : WriteOptions X → WriteOptions X → WriteOptions X
  apply_to_write o co = record {
    dry_run = over_pointer o.dry_run co.dry_run;
    field_manager = over_string o.field_manager co.field_manager;
    raw = over_pointer o.raw co.raw;
  }

  abbrev pub no_patch_options : PatchOptions X
  no_patch_options = record { dry_run = none; force = none; field_manager = ""; raw = none }

  unfoldable pub apply_to_patch : PatchOptions X → PatchOptions X → PatchOptions X
  apply_to_patch o po = record {
    dry_run = over_pointer o.dry_run po.dry_run;
    force = over_pointer o.force po.force;
    field_manager = over_string o.field_manager po.field_manager;
    raw = over_pointer o.raw po.raw;
  }

-- a `CreateOption` or an `UpdateOption`
pub data WriteOption (X : Type 0) : Type 0 where
  dry_write : WriteOption X
  write_owner : String → WriteOption X
  write_struct : WriteOptions X → WriteOption X

pub data PatchOption (X : Type 0) : Type 0 where
  dry_patch force_ownership : PatchOption X
  patch_owner : String → PatchOption X
  patch_struct : PatchOptions X → PatchOption X

pub data DeleteOption (P Q X : Type 0) : Type 0 where
  dry_delete : DeleteOption P Q X
  with_grace_period : ℤ → DeleteOption P Q X
  with_preconditions : P → DeleteOption P Q X
  with_propagation_policy : Q → DeleteOption P Q X
  delete_struct : DeleteOptions P Q X → DeleteOption P Q X

pub data ListOption (L F X : Type 0) : Type 0 where
  matching_labels : List (String × String) → ListOption L F X
  has_labels : List String → ListOption L F X
  matching_labels_selector : L → ListOption L F X
  matching_fields : List (String × String) → ListOption L F X
  matching_fields_selector : F → ListOption L F X
  in_namespace : String → ListOption L F X
  with_limit : ℤ → ListOption L F X
  with_continue : String → ListOption L F X
  list_struct : ListOptions L F X → ListOption L F X

module _ {X : Type 0} where
  unfoldable pub apply_write_option : WriteOption X → WriteOptions X → WriteOptions X
  apply_write_option dry_write co = record co { dry_run = all_dry }
  apply_write_option (write_owner f) co = record co { field_manager = f }
  apply_write_option (write_struct o) co = apply_to_write o co

  unfoldable pub apply_patch_option : PatchOption X → PatchOptions X → PatchOptions X
  apply_patch_option dry_patch po = record po { dry_run = all_dry }
  apply_patch_option force_ownership po = record po { force = some true }
  apply_patch_option (patch_owner f) po = record po { field_manager = f }
  apply_patch_option (patch_struct o) po = apply_to_patch o po

module _ {P Q X : Type 0} where
  abbrev pub no_delete_options : DeleteOptions P Q X
  no_delete_options = record {
    grace_period_seconds = none;
    preconditions = none;
    propagation_policy = none;
    raw = none;
    dry_run = none;
  }

  unfoldable pub apply_to_delete : DeleteOptions P Q X → DeleteOptions P Q X → DeleteOptions P Q X
  apply_to_delete o d = record {
    grace_period_seconds = over_pointer o.grace_period_seconds d.grace_period_seconds;
    preconditions = over_pointer o.preconditions d.preconditions;
    propagation_policy = over_pointer o.propagation_policy d.propagation_policy;
    raw = over_pointer o.raw d.raw;
    dry_run = over_pointer o.dry_run d.dry_run;
  }

  unfoldable pub apply_delete_option :
      DeleteOption P Q X → DeleteOptions P Q X → DeleteOptions P Q X
  apply_delete_option dry_delete d = record d { dry_run = all_dry }
  apply_delete_option (with_grace_period secs) d = record d { grace_period_seconds = some secs }
  apply_delete_option (with_preconditions p) d = record d { preconditions = some p }
  apply_delete_option (with_propagation_policy q) d = record d { propagation_policy = some q }
  apply_delete_option (delete_struct o) d = apply_to_delete o d

-- the selectors of apimachinery: `SelectorFromValidatedSet`, `NewSelector`, `NewRequirement` for
-- a key that is to exist (`none` where it is no key), `Add`, `Set.AsSelector`, and their texts
pub record Selectors (L F R : Type 0) : Type 0 where
  pub from_validated_set : List (String × String) → L
  pub new_selector : L
  pub exists_requirement : String → Option R
  pub add_requirement : R → L → L
  pub fields_as_selector : List (String × String) → F
  pub label_text : L → String
  pub field_text : F → String

module _ {L F R : Type 0} (k : Selectors L F R) where
  abbrev pub add_if : Option R → L → L
  add_if none sel = sel
  add_if (some r) sel = k.add_requirement r sel

  -- the loop of `HasLabels.ApplyToList`
  abbrev pub require_all : List String → L → L
  require_all [] sel = sel
  require_all (label ∷ labels) sel = require_all labels (add_if (k.exists_requirement label) sel)

  module _ {X : Type 0} where
    abbrev pub no_list_options : ListOptions L F X
    no_list_options = record {
      label_selector = none;
      field_selector = none;
      namespace = "";
      limit = pos 0;
      continue_token = "";
      raw = none;
    }

    unfoldable pub apply_to_list : ListOptions L F X → ListOptions L F X → ListOptions L F X
    apply_to_list o lo = record {
      label_selector = over_pointer o.label_selector lo.label_selector;
      field_selector = over_pointer o.field_selector lo.field_selector;
      namespace = over_string o.namespace lo.namespace;
      limit = over_limit o.limit lo.limit;
      continue_token = over_string o.continue_token lo.continue_token;
      raw = over_pointer o.raw lo.raw;
    }

    unfoldable pub apply_list_option : ListOption L F X → ListOptions L F X → ListOptions L F X
    apply_list_option (matching_labels m) lo = record lo {
      label_selector = some (k.from_validated_set m);
    }
    apply_list_option (has_labels m) lo = record lo {
      label_selector = some (require_all m k.new_selector);
    }
    apply_list_option (matching_labels_selector sel) lo = record lo { label_selector = some sel }
    apply_list_option (matching_fields m) lo = record lo {
      field_selector = some (k.fields_as_selector m);
    }
    apply_list_option (matching_fields_selector sel) lo = record lo { field_selector = some sel }
    apply_list_option (in_namespace n) lo = record lo { namespace = n }
    apply_list_option (with_limit l) lo = record lo { limit = l }
    apply_list_option (with_continue c) lo = record lo { continue_token = c }
    apply_list_option (list_struct o) lo = apply_to_list o lo

-- `ApplyOptions`
abbrev pub apply_options : {A O : Type 0} → (A → O → O) → List A → O → O
apply_options apply [] o = o
apply_options apply (opt ∷ opts) o = apply_options apply opts (apply opt o)
