-- ===== src/ClientOptions/Examples.antt =====
-- Options of a few calls: concrete cases.
use controller_runtime.Prelude.{
  String, ◌≡◌, refl, pos, ◌==◌, string_eq, none, some, List, [], ◌∷◌, if◌then◌else◌,
}
use controller_runtime.ClientOptions.{
  WriteOptions, PatchOptions, DeleteOptions, ListOptions, no_write_options, apply_to_write,
  no_patch_options, apply_to_patch, WriteOption, PatchOption, DeleteOption, ListOption,
  apply_write_option, apply_patch_option, no_delete_options, apply_to_delete, apply_delete_option,
  Selectors, no_list_options, apply_to_list, apply_list_option, apply_options, dry_write,
  write_owner, dry_patch, force_ownership, with_grace_period, in_namespace, has_labels, with_limit,
  all_dry, delete_struct,
}
use controller_runtime.ClientOptions.Bundles.{
  SetsWrite, SetsPatch, SetsList, apply_options-collected, apply_to-empty,
}

-- selectors are lists of keys; a key is not empty
abbrev keys : Selectors (List String) String String
keys = record {
  from_validated_set = λ m. [];
  new_selector = [];
  exists_requirement = λ key. if key == "" then none else some key;
  add_requirement = λ r sel. r ∷ sel;
  fields_as_selector = λ m. "fields";
  label_text = λ sel. "labels";
  field_text = λ sel. sel;
}

abbrev writes : List (WriteOption String)
writes = write_owner "me" ∷ dry_write ∷ []

abbrev patches : List (PatchOption String)
patches = force_ownership ∷ dry_patch ∷ []

abbrev deletions : List (DeleteOption String String String)
deletions =
    with_grace_period (pos 30)
    ∷ delete_struct (record no_delete_options { propagation_policy = some "Orphan" })
    ∷ with_grace_period (pos 5)
    ∷ []

abbrev lists : List (ListOption (List String) String String)
lists = in_namespace "shop" ∷ has_labels ("tier" ∷ "" ∷ []) ∷ with_limit (pos 10) ∷ []

abbrev nothing_listed : ListOptions (List String) String String
nothing_listed = no_list_options keys

abbrev ten_listed : ListOptions (List String) String String
ten_listed = record nothing_listed {
  limit = pos 10;
  label_selector = some ("tier" ∷ []);
  namespace = "shop";
}

bad_label_skipped : apply_options (apply_list_option keys) lists nothing_listed ≡ ten_listed
unfolding apply_list_option
bad_label_skipped = refl

later_period :
    apply_options apply_delete_option deletions no_delete_options ≡ record no_delete_options {
      grace_period_seconds = some (pos 5);
      propagation_policy = some "Orphan";
    }
unfolding apply_delete_option apply_to_delete
later_period = refl

apply_options-collected_example :
    (apply_options apply_write_option writes no_write_options
      ≡ apply_to_write (apply_options apply_write_option writes no_write_options) no_write_options)
    × (apply_options apply_patch_option patches no_patch_options
        ≡ apply_to_patch
            (apply_options apply_patch_option patches no_patch_options)
            no_patch_options)
    × (apply_options apply_delete_option deletions no_delete_options
        ≡ apply_to_delete
            (apply_options apply_delete_option deletions no_delete_options)
            no_delete_options)
    × (apply_options (apply_list_option keys) lists ten_listed
        ≡ apply_to_list keys
            (apply_options (apply_list_option keys) lists nothing_listed)
            ten_listed)
unfolding SetsWrite SetsPatch SetsList
apply_options-collected_example =
    apply_options-collected keys writes patches deletions lists no_write_options no_patch_options
      no_delete_options ten_listed (refl, (tt, tt)) (tt, (tt, tt)) (refl, (tt, (refl, tt)))

abbrev owned : WriteOptions String
owned = record no_write_options { field_manager = "me" }

abbrev dry : PatchOptions String
dry = record no_patch_options { dry_run = all_dry }

abbrev soon : DeleteOptions String String String
soon = record no_delete_options { grace_period_seconds = some (pos 5) }

apply_to-empty_example :
    (apply_to_write owned no_write_options ≡ owned)
    × (apply_to_patch dry no_patch_options ≡ dry)
    × (apply_to_delete soon no_delete_options ≡ soon)
    × (apply_to_list keys ten_listed nothing_listed ≡ ten_listed)
apply_to-empty_example = apply_to-empty keys owned dry soon ten_listed refl
