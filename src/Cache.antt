-- ===== src/Cache.antt =====
-- Reads of a cache: pkg/cache/internal/cache_reader.go, over an indexer of client-go.
-- An object that the code copies is a value of its own already. A `Get` gives what it writes to
-- its target.
pub mod Listing
pub mod Namespaces
pub mod Limits
mod Examples
use Prim.Native.String.{◌++◌ as append}
use controller_runtime.Prelude.{
  ℕ, ℤ, pos, String, ◌==◌, string_eq, Bool, true, false, not, ◌&&◌, ◌||◌, Option, none, some, List,
  [], ◌∷◌, if◌then◌else◌, suc,
}
use controller_runtime.Prelude.Int.{ltb_ℤ, leb_ℤ}
use controller_runtime.Prelude.Fallible.{Fallible, ok, err}
use controller_runtime.Object.{Request}
use controller_runtime.Schema.{GroupVersionKind}
use controller_runtime.ClientOptions.{
  ListOptions, ListOption, Selectors, no_list_options, apply_list_option, apply_options,
}

abbrev pub Labels : Type 0
Labels = Option (List (String × String))

-- an item of the indexer: an object of a type `T` or something else
pub data Stored (T : Type 0) : Type 0 where
  object : T → Stored T
  not_object : Stored T

pub record Indexer (T Err : Type 0) : Type 0 where
  pub get_by_key : String → Fallible Err (Option (Stored T))
  pub by_index : String → String → Fallible Err (List (Stored T))
  pub list_all : List (Stored T)

pub data Operator : Type 0 where
  equals double_equals other_operator : Operator

-- a requirement of a field selector
pub record Requirement : Type 0 where
  pub field : String
  pub operator : Operator
  pub value : String

-- what the reader calls of apimachinery, for lists of a type `Out`
pub record Machinery (T L F Out Err : Type 0) : Type 0 where
  pub accessor : T → Fallible Err Labels
  pub matches : L → Labels → Bool
  pub requirements : F → List Requirement
  pub assignable : T → T → Bool
  pub set_kind : GroupVersionKind → T → T
  pub set_list : Out → List T → Fallible Err Out

pub data ReadError (Err : Type 0) : Type 0 where
  not_found : GroupVersionKind → String → ReadError Err
  not_an_object wrong_type non_exact_match : ReadError Err
  failed : Err → ReadError Err

pub record CacheReader (T Err : Type 0) : Type 0 where
  pub indexer : Indexer T Err
  pub gvk : GroupVersionKind
  pub is_root : Bool

-- `objectKeyToStoreKey`
unfoldable pub object_key_to_store_key : Request → String
object_key_to_store_key k =
    if k.namespace == "" then k.name else append k.namespace (append "/" k.name)

abbrev pub is_exact : Operator → Bool
is_exact equals = true
is_exact double_equals = true
is_exact other_operator = false

-- `requiresExactMatch`, with none for false
unfoldable pub requires_exact_match : List Requirement → Option (String × String)
requires_exact_match [] = none
requires_exact_match (req ∷ []) =
    if is_exact req.operator then some (req.field, req.value) else none
requires_exact_match (req ∷ other ∷ reqs) = none

abbrev pub field_index_name : String → String
field_index_name field = append "field:" field

unfoldable pub key_to_namespaced_key : String → String → String
key_to_namespaced_key ns base =
    if not (ns == "") then append ns (append "/" base) else append "__all_namespaces/" base

abbrev pub wrap_failed : {Err A : Type 0} → Fallible Err A → Fallible (ReadError Err) A
wrap_failed (ok a) = ok a
wrap_failed (err e) = err (failed e)

module _ {T L F Out Err : Type 0} (k : Machinery T L F Out Err) where
  -- the part of `Get` that writes to `out`
  abbrev pub write_out : GroupVersionKind → T → Stored T → Fallible (ReadError Err) T
  write_out gvk out not_object = err not_an_object
  write_out gvk out (object t) =
      if not (k.assignable t out) then err wrong_type else ok (k.set_kind gvk t)

  abbrev pub root_key : Bool → Request → Request
  root_key is_root key = if is_root then record { namespace = ""; name = key.name } else key

  unfoldable pub get : CacheReader T Err → Request → T → Fallible (ReadError Err) T
  unfolding object_key_to_store_key
  get c key out = elim (c.indexer.get_by_key (object_key_to_store_key (root_key c.is_root key))) [
    | err e ↦ err (failed e)
    | ok none ↦ err (not_found c.gvk key.name)
    | ok (some item) ↦ write_out c.gvk out item
  ]

  -- an object that is listed is put before those that the loop finds afterwards
  abbrev pub listed_first :
      T → Fallible (ReadError Err) (List T) → Fallible (ReadError Err) (List T)
  listed_first t (ok ts) = ok (t ∷ ts)
  listed_first t (err e) = err e

  abbrev pub is_selected : Option L → Labels → Bool
  is_selected none lbls = true
  is_selected (some sel) lbls = k.matches sel lbls

  abbrev pub list_one :
      GroupVersionKind
      → Option L
      → T
      → Fallible Err Labels
      → Fallible (ReadError Err) (List T)
      → Fallible (ReadError Err) (List T)
  list_one gvk sel t (err e) rest = err (failed e)
  list_one gvk sel t (ok lbls) rest =
      if not (is_selected sel lbls) then rest else listed_first (k.set_kind gvk t) rest

  -- the loop of `List`, from its index on
  unfoldable pub list_items :
      GroupVersionKind → ℤ → Option L → ℕ → List (Stored T) → Fallible (ReadError Err) (List T)
  list_items gvk limit sel i [] = ok []
  list_items gvk limit sel i (item ∷ items) =
      let rest = list_items gvk limit sel (suc i) items in
      if ltb_ℤ (pos 0) limit && leb_ℤ limit (pos i) then ok [] else elim item [
        | not_object ↦ err not_an_object
        | object t ↦ list_one gvk sel t (k.accessor t) rest
      ]

  abbrev pub by_field :
      Indexer T Err → String → Option (String × String) → Fallible (ReadError Err) (List (Stored T))
  by_field ix ns none = err non_exact_match
  by_field ix ns (some (field, val)) =
      wrap_failed (ix.by_index (field_index_name field) (key_to_namespaced_key ns val))

  abbrev pub by_namespace :
      Indexer T Err → String → Option F → Fallible (ReadError Err) (List (Stored T))
  by_namespace ix ns (some sel) = by_field ix ns (requires_exact_match (k.requirements sel))
  by_namespace ix ns none =
      if not (ns == "") then wrap_failed (ix.by_index "namespace" ns) else ok ix.list_all

  -- `List` up to `apimeta.SetList`, for options that are applied
  unfoldable pub read_items :
      {X : Type 0} → CacheReader T Err → ListOptions L F X → Fallible (ReadError Err) (List T)
  unfolding list_items
  read_items c opts = elim (by_namespace c.indexer opts.namespace opts.field_selector) [
    | err e ↦ err e
    | ok objs ↦ list_items c.gvk opts.limit opts.label_selector 0 objs
  ]

  abbrev pub set_items : Out → Fallible (ReadError Err) (List T) → Fallible (ReadError Err) Out
  set_items out (err e) = err e
  set_items out (ok ts) = wrap_failed (k.set_list out ts)

  unfoldable pub list :
      {X R : Type 0}
      → Selectors L F R
      → CacheReader T Err
      → Out
      → List (ListOption L F X)
      → Fallible (ReadError Err) Out
  unfolding read_items
  list sels c out opts =
      set_items out
        (read_items c (apply_options (apply_list_option sels) opts (no_list_options sels)))
