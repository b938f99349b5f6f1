-- ===== src/Cache/Namespaces.antt =====
-- pkg/cache/multi_namespace_cache.go: a cache for each namespace and one for the cluster, over lists of
-- a type `Out`. The map of caches is the list of its entries in the order in which Go ranges over it;
-- a cache is given the options of a `List` as they are applied.
use controller_runtime.Prelude.{
  ℕ, ℤ, pos, negsuc, ◌+◌, ◌-◌, leb, String, ◌==◌, string_eq, int_eq, Bool, true, false, not, Option,
  none, some, List, [], ◌∷◌, ◌++◌, if◌then◌else◌, length,
}
use controller_runtime.Prelude.Int.{ltb_ℤ}
use controller_runtime.Prelude.Fallible.{Fallible, ok, err}
use controller_runtime.Object.{Request}
use controller_runtime.ClientOptions.{ListOptions}

-- what the code calls of a cache; `I` are informers, `K` what one is asked for by
pub record Cache (T L F X Out K I Err : Type 0) : Type 0 where
  pub get : Request → T → Fallible Err T
  pub list : Out → ListOptions L F X → Fallible Err Out
  pub get_informer : K → Fallible Err I
  pub is_synced : Bool

-- apimachinery's lists, with the error of `ListAccessor`, if any
pub record Lists (T Out Err : Type 0) : Type 0 where
  pub accessor_error : Out → Option Err
  pub extract_list : Out → Fallible Err (List T)
  pub set_list : Out → List T → Fallible Err Out
  pub resource_version : Out → String
  pub set_resource_version : String → Out → Out

pub data NamespacesError (Err : Type 0) : Type 0 where
  unknown_namespace : String → NamespacesError Err
  not_a_list : NamespacesError Err
  cache_error : Err → NamespacesError Err

pub record Namespaces (T L F X Out K I Err : Type 0) : Type 0 where
  pub caches : List (String × Cache T L F X Out K I Err)
  pub cluster : Cache T L F X Out K I Err

-- `int64` less a number of items
abbrev pub minus_ℤ : ℤ → ℕ → ℤ
minus_ℤ (pos a) n = if leb n a then pos (a - n) else negsuc (n - a - 1)
minus_ℤ (negsuc a) n = negsuc (a + n)

abbrev pub as_cache_error : {Err A : Type 0} → Fallible Err A → Fallible (NamespacesError Err) A
as_cache_error (ok a) = ok a
as_cache_error (err e) = err (cache_error e)

abbrev pub under_name :
    {I Err : Type 0} → String → Fallible Err I → Fallible Err (List (String × I))
under_name name (ok informer) = ok ((name, informer) ∷ [])
under_name name (err e) = err e

module _ {T L F X Out K I Err : Type 0} where
  abbrev pub find_cache :
      String → List (String × Cache T L F X Out K I Err) → Option (Cache T L F X Out K I Err)
  find_cache ns [] = none
  find_cache ns ((n, c) ∷ cs) = let rest = find_cache ns cs in if n == ns then some c else rest

  -- the loops of `GetInformer` and `GetInformerForKind`
  unfoldable pub get_informers :
      K → List (String × Cache T L F X Out K I Err) → Fallible Err (List (String × I))
  get_informers obj [] = ok []
  get_informers obj ((ns, c) ∷ cs) = elim (c.get_informer obj) [
    | err e ↦ err e
    | ok informer ↦ elim (get_informers obj cs) [
      | err e ↦ err e
      | ok informers ↦ ok ((ns, informer) ∷ informers)
    ]
  ]

  -- `GetInformer` and `GetInformerForKind`, given what `IsAPINamespaced` says
  unfoldable pub get_informer :
      Fallible Err Bool → K → Namespaces T L F X Out K I Err → Fallible Err (List (String × I))
  unfolding get_informers
  get_informer (err e) obj c = err e
  get_informer (ok is_namespaced) obj c =
      if not is_namespaced
      then under_name "_cluster-scope" (c.cluster.get_informer obj)
      else get_informers obj c.caches

  -- the loop of `WaitForCacheSync`
  abbrev pub all_synced : Bool → List (String × Cache T L F X Out K I Err) → Bool
  all_synced synced [] = synced
  all_synced synced ((ns, c) ∷ cs) = all_synced (if not c.is_synced then false else synced) cs

  unfoldable pub wait_for_cache_sync : Namespaces T L F X Out K I Err → Bool
  wait_for_cache_sync c =
      let synced = all_synced true c.caches in if not c.cluster.is_synced then false else synced

  abbrev pub get_from :
      String → Option (Cache T L F X Out K I Err) → Request → T → Fallible (NamespacesError Err) T
  get_from ns none key out = err (unknown_namespace ns)
  get_from ns (some c) key out = as_cache_error (c.get key out)

  unfoldable pub get :
      Fallible Err Bool
      → Namespaces T L F X Out K I Err
      → Request
      → T
      → Fallible (NamespacesError Err) T
  get (err e) c key out = err (cache_error e)
  get (ok is_namespaced) c key out =
      if not is_namespaced
      then as_cache_error (c.cluster.get key out)
      else get_from key.namespace (find_cache key.namespace c.caches) key out

module _ {T Out Err : Type 0} (lists : Lists T Out Err) where
  abbrev pub items_of :
      Out → Fallible Err (List T) → Option Err → Fallible (NamespacesError Err) (List T × String)
  items_of got (err e) accessor = err (cache_error e)
  items_of got (ok items) (some e) = err not_a_list
  items_of got (ok items) none = ok (items, lists.resource_version got)

  abbrev pub set_found :
      Out → Fallible (NamespacesError Err) (List T × String) → Fallible (NamespacesError Err) Out
  set_found out (err e) = err e
  set_found out (ok (found, version)) =
      as_cache_error (lists.set_list (lists.set_resource_version version out) found)

module _ {T L F X Out K I Err : Type 0} (lists : Lists T Out Err) where
  -- one turn of the loop of `List`: the items of a namespace and their resource version
  unfoldable pub fetch :
      Cache T L F X Out K I Err
      → Out
      → ListOptions L F X
      → Fallible (NamespacesError Err) (List T × String)
  fetch c out opts = elim (c.list out opts) [
    | err e ↦ err (cache_error e)
    | ok got ↦ items_of lists got (lists.extract_list got) (lists.accessor_error got)
  ]

  -- the loop, with `allItems` and `resourceVersion`
  unfoldable pub fetch_all :
      Bool
      → List (String × Cache T L F X Out K I Err)
      → Out
      → ListOptions L F X
      → List T
      → String
      → Fallible (NamespacesError Err) (List T × String)
  fetch_all limit_set [] out opts found version = ok (found, version)
  fetch_all limit_set ((ns, c) ∷ cs) out opts found version = elim (fetch c out opts) [
    | err e ↦ err e
    | ok (items, v) ↦
        let left = minus_ℤ opts.limit (length items) in
        let rest = fetch_all limit_set cs out (record opts { limit = left }) (found ++ items) v in
        let unlimited = fetch_all limit_set cs out opts (found ++ items) v in
        if limit_set then if left == pos 0 then ok (found ++ items, v) else rest else unlimited
  ]

  -- `List` for all namespaces: what it finds goes behind what the list holds already
  abbrev pub list_all :
      Option Err
      → Fallible Err (List T)
      → List (String × Cache T L F X Out K I Err)
      → Out
      → ListOptions L F X
      → Fallible (NamespacesError Err) (List T × String)
  list_all (some e) held cs out opts = err (cache_error e)
  list_all none (err e) cs out opts = err (cache_error e)
  list_all none (ok held) cs out opts = fetch_all (ltb_ℤ (pos 0) opts.limit) cs out opts held ""

  abbrev pub list_from :
      String
      → Option (Cache T L F X Out K I Err)
      → Out
      → ListOptions L F X
      → Fallible (NamespacesError Err) Out
  list_from ns none out opts = err (unknown_namespace ns)
  list_from ns (some c) out opts = as_cache_error (c.list out opts)

  unfoldable pub list :
      Fallible Err Bool
      → Namespaces T L F X Out K I Err
      → Out
      → ListOptions L F X
      → Fallible (NamespacesError Err) Out
  unfolding fetch_all
  list (err e) c out opts = err (cache_error e)
  list (ok is_namespaced) c out opts =
      if not is_namespaced
      then as_cache_error (c.cluster.list out opts)
      else if not (opts.namespace == "")
      then list_from opts.namespace (find_cache opts.namespace c.caches) out opts
      else set_found lists out
          (list_all (lists.accessor_error out) (lists.extract_list out) c.caches out opts)
