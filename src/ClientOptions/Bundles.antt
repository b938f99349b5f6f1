-- ===== src/ClientOptions/Bundles.antt =====
-- Options of pkg/client/options.go that are collected in a struct and applied at once.
use controller_runtime.Prelude.{
  pos, ltb_ℤ, leb_ℤ, ◌==◌, string_eq, ◌≡◌, refl, true, false, some, All-map, List, All,
}
use controller_runtime.ClientOptions.{
  WriteOptions, PatchOptions, DeleteOptions, ListOptions, no_write_options, apply_to_write,
  no_patch_options, apply_to_patch, WriteOption, PatchOption, DeleteOption, ListOption,
  apply_write_option, apply_patch_option, no_delete_options, apply_to_delete, apply_delete_option,
  Selectors, no_list_options, apply_to_list, apply_list_option, apply_options, dry_write,
  write_owner, write_struct, dry_patch, force_ownership, patch_owner, patch_struct, dry_delete,
  with_grace_period, with_preconditions, with_propagation_policy, delete_struct, matching_labels,
  has_labels, matching_labels_selector, matching_fields, matching_fields_selector, in_namespace,
  with_limit, with_continue, list_struct, require_all, all_dry,
}
use controller_runtime.ClientOptions.Overrides.{
  IsStruct, apply_options-over, over_pointer-none, over_string-empty, over_limit-zero, All-each,
  write-IsOverride, patch-IsOverride, delete-IsOverride, list-IsOverride,
}

-- an option that sets its field to what counts as set
unfoldable pub SetsWrite : {X : Type 0} → WriteOption X → Type 0
SetsWrite (write_owner f) = (f == "") ≡ false
SetsWrite _ = Unit

unfoldable pub SetsPatch : {X : Type 0} → PatchOption X → Type 0
SetsPatch (patch_owner f) = (f == "") ≡ false
SetsPatch _ = Unit

unfoldable pub SetsList : {L F X : Type 0} → ListOption L F X → Type 0
SetsList (in_namespace n) = (n == "") ≡ false
SetsList (with_limit l) = ltb_ℤ (pos 0) l ≡ true
SetsList (with_continue c) = (c == "") ≡ false
SetsList _ = Unit

write-IsStruct :
    {X : Type 0} (a : WriteOption X) → SetsWrite a → IsStruct apply_to_write apply_write_option a
unfolding SetsWrite apply_to_write apply_write_option
write-IsStruct dry_write h = (record no_write_options { dry_run = all_dry }, λ o. refl)
write-IsStruct (write_owner f) h = (record no_write_options { field_manager = f }, λ o. rw h)
write-IsStruct (write_struct s) h = (s, λ o. refl)

patch-IsStruct :
    {X : Type 0} (a : PatchOption X) → SetsPatch a → IsStruct apply_to_patch apply_patch_option a
unfolding SetsPatch apply_to_patch apply_patch_option
patch-IsStruct dry_patch h = (record no_patch_options { dry_run = all_dry }, λ o. refl)
patch-IsStruct force_ownership h = (record no_patch_options { force = some true }, λ o. refl)
patch-IsStruct (patch_owner f) h = (record no_patch_options { field_manager = f }, λ o. rw h)
patch-IsStruct (patch_struct s) h = (s, λ o. refl)

delete-IsStruct :
    {P Q X : Type 0} (a : DeleteOption P Q X) → IsStruct apply_to_delete apply_delete_option a
unfolding apply_to_delete apply_delete_option
delete-IsStruct dry_delete = (record no_delete_options { dry_run = all_dry }, λ o. refl)
delete-IsStruct (with_grace_period n) =
    (record no_delete_options { grace_period_seconds = some n }, λ o. refl)
delete-IsStruct (with_preconditions p) =
    (record no_delete_options { preconditions = some p }, λ o. refl)
delete-IsStruct (with_propagation_policy q) =
    (record no_delete_options { propagation_policy = some q }, λ o. refl)
delete-IsStruct (delete_struct s) = (s, λ o. refl)

module _ {L F R X : Type 0} (k : Selectors L F R) where
  abbrev none_listed : ListOptions L F X
  none_listed = no_list_options k

  list-IsStruct :
      (a : ListOption L F X) → SetsList a → IsStruct (apply_to_list k) (apply_list_option k) a
  unfolding SetsList apply_to_list apply_list_option
  list-IsStruct (matching_labels m) h =
      (record none_listed { label_selector = some (k.from_validated_set m) }, λ o. refl)
  list-IsStruct (has_labels m) h =
      (record none_listed { label_selector = some (require_all k m k.new_selector) }, λ o. refl)
  list-IsStruct (matching_labels_selector sel) h =
      (record none_listed { label_selector = some sel }, λ o. refl)
  list-IsStruct (matching_fields m) h =
      (record none_listed { field_selector = some (k.fields_as_selector m) }, λ o. refl)
  list-IsStruct (matching_fields_selector sel) h =
      (record none_listed { field_selector = some sel }, λ o. refl)
  list-IsStruct (in_namespace n) h = (record none_listed { namespace = n }, λ o. rw h)
  list-IsStruct (with_limit l) h = (record none_listed { limit = l }, λ o. rw h)
  list-IsStruct (with_continue c) h = (record none_listed { continue_token = c }, λ o. rw h)
  list-IsStruct (list_struct s) h = (s, λ o. refl)

  module _ {P Q : Type 0} where
    -- Options that are given one after the other, the structs among them, do the same as the struct that
    -- they are collected in, given once: for the calls that create or update, patch, delete and
    -- list, where a field owner, a namespace and a token are not empty and a limit is positive.
    pub apply_options-collected :
        (ws : List (WriteOption X)) (ps : List (PatchOption X)) (ds : List (DeleteOption P Q X))
        (ls : List (ListOption L F X)) (w : WriteOptions X) (p : PatchOptions X)
        (d : DeleteOptions P Q X) (l : ListOptions L F X)
        → All SetsWrite ws
        → All SetsPatch ps
        → All SetsList ls
        → (apply_options apply_write_option ws w
            ≡ apply_to_write (apply_options apply_write_option ws no_write_options) w)
          × (apply_options apply_patch_option ps p
              ≡ apply_to_patch (apply_options apply_patch_option ps no_patch_options) p)
          × (apply_options apply_delete_option ds d
              ≡ apply_to_delete (apply_options apply_delete_option ds no_delete_options) d)
          × (apply_options (apply_list_option k) ls l
              ≡ apply_to_list k (apply_options (apply_list_option k) ls none_listed) l)
    apply_options-collected ws ps ds ls w p d l sw sp sl = (
      apply_options-over write-IsOverride apply_write_option ws (All-map write-IsStruct ws sw) w,
      apply_options-over patch-IsOverride apply_patch_option ps (All-map patch-IsStruct ps sp) p,
      apply_options-over delete-IsOverride apply_delete_option ds (All-each delete-IsStruct ds) d,
      apply_options-over (list-IsOverride k) (apply_list_option k) ls (All-map list-IsStruct ls sl)
          l,
    )

    -- Options that are copied into an empty struct are what they were, for all four kinds of
    -- call, where the limit of a list is not negative.
    pub apply_to-empty :
        (w : WriteOptions X) (p : PatchOptions X) (d : DeleteOptions P Q X) (l : ListOptions L F X)
        → leb_ℤ (pos 0) l.limit ≡ true
        → (apply_to_write w no_write_options ≡ w)
          × (apply_to_patch p no_patch_options ≡ p)
          × (apply_to_delete d no_delete_options ≡ d)
          × (apply_to_list k l none_listed ≡ l)
    unfolding apply_to_write apply_to_patch apply_to_delete apply_to_list
    apply_to-empty w p d l h = (
      simp (over_pointer-none, over_string-empty),
      simp (over_pointer-none, over_string-empty),
      simp (over_pointer-none),
      simp (over_pointer-none, over_string-empty, over_limit-zero l.limit h),
    )
