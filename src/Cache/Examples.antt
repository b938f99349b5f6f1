-- ===== src/Cache/Examples.antt =====
-- Caches of numbers in two namespaces, with an index for each namespace. The label of a number says
-- whether it is even.
use controller_runtime.Prelude.{
  ◌≡◌, ◌∙◌, refl, ℕ, ℤ, pos, ◌%◌, ◌+◌, ◌≤◌, String, ◌==◌, string_eq, nat_eq_class, Bool, true,
  false, Option, none, some, List, [], ◌∷◌, if◌then◌else◌, map, keep, length,
}
use controller_runtime.Prelude.Int.{pos_part}
use controller_runtime.Prelude.Fallible.{ok, err}
use controller_runtime.Schema.{GroupVersionKind}
use controller_runtime.ClientOptions.{ListOptions}
use controller_runtime.Cache.{
  Labels, Stored, object, Machinery, Indexer, ReadError, not_found, CacheReader, equals,
  is_selected, read_items, get, list_items, object_key_to_store_key, requires_exact_match,
  key_to_namespaced_key,
}
use controller_runtime.Cache.Listing.{limited, read_items_lem, length-read_items}
use controller_runtime.Cache.Namespaces.{
  Cache, Lists, unknown_namespace, fetch, fetch_all, list_all, list,
}
use controller_runtime.Cache.Limits.{KeepsLimit, list_all-limit}

abbrev labels_of : ℕ → Labels
labels_of n = some ((if n % 2 == 0 then "even" else "odd", "") ∷ [])

abbrev has_label : String → Labels → Bool
has_label key none = false
has_label key (some []) = false
has_label key (some ((k, v) ∷ kvs)) = k == key

abbrev machinery : Machinery ℕ String String (List ℕ) String
machinery = record {
  accessor = λ n. ok (labels_of n);
  matches = has_label;
  requirements = λ field. record { field = field; operator = equals; value = "x" } ∷ [];
  assignable = λ a b. true;
  set_kind = λ gvk n. n;
  set_list = λ out ts. ok ts;
}

abbrev stored_number : String → Option (Stored ℕ)
stored_number key = if key == "a/two" then some (object 2) else none

abbrev indexer : List (Stored ℕ) → Indexer ℕ String
indexer items = record {
  get_by_key = λ key. ok (stored_number key);
  by_index = λ name key. if name == "namespace" then ok items else err "no index";
  list_all = items;
}

abbrev numbers : GroupVersionKind
numbers = record { group = ""; version = "v1"; kind = "Number" }

abbrev reader : List ℕ → CacheReader ℕ String
reader ns = record { indexer = indexer (map object ns); gvk = numbers; is_root = false }

abbrev options : ℤ → Option String → ListOptions String String String
options limit sel = record {
  label_selector = sel;
  field_selector = none;
  namespace = "";
  limit = limit;
  continue_token = "";
  raw = none;
}

get_test :
    get machinery (reader []) (record { namespace = "a"; name = "one" }) 0
    ≡ err (not_found numbers "one")
unfolding get object_key_to_store_key
get_test = refl

found_test : get machinery (reader []) (record { namespace = "a"; name = "two" }) 0 ≡ ok 2
unfolding get object_key_to_store_key
found_test = refl

field_test :
    read_items machinery
      (reader [])
      (record (options (pos 0) none) { field_selector = some "size" })
    ≡ err (ReadError.failed "no index")
unfolding read_items requires_exact_match key_to_namespaced_key
field_test = refl

-- one even number is stored and asked for, and none is found
limit_test : read_items machinery (reader (1 ∷ 2 ∷ [])) (options (pos 1) (some "even")) ≡ ok []
unfolding read_items list_items
limit_test = refl

read_items_example :
    read_items machinery (reader (1 ∷ 2 ∷ 3 ∷ 4 ∷ [])) (options (pos 3) (some "even"))
    ≡ ok (
        map (machinery.set_kind numbers) (
          keep
            (λ t. is_selected machinery (some "even") (labels_of t))
            (limited (pos 3) 0 (1 ∷ 2 ∷ 3 ∷ 4 ∷ []))))
read_items_example =
    read_items_lem machinery labels_of (reader (1 ∷ 2 ∷ 3 ∷ 4 ∷ [])) (options (pos 3) (some "even"))
      (1 ∷ 2 ∷ 3 ∷ 4 ∷ []) (λ t. refl) refl

abbrev cache_of :
    CacheReader ℕ String → Cache ℕ String String String (List ℕ) ℕ ℕ (ReadError String)
cache_of c = record {
  get = get machinery c;
  list = λ out opts. read_items machinery c opts;
  get_informer = λ n. ok n;
  is_synced = true;
}

abbrev lists : Lists ℕ (List ℕ) (ReadError String)
lists = record {
  accessor_error = λ out. none;
  extract_list = λ out. ok out;
  set_list = λ out ts. ok ts;
  resource_version = λ out. "1";
  set_resource_version = λ v out. out;
}

cache_of-KeepsLimit : (c : CacheReader ℕ String) → KeepsLimit lists (cache_of c)
cache_of-KeepsLimit c out got opts items l h e = length-read_items machinery c opts items l (h ∙ e)

abbrev caches : List (String × Cache ℕ String String String (List ℕ) ℕ ℕ (ReadError String))
caches =
    ("a", cache_of (reader (1 ∷ 2 ∷ [])))
    ∷ ("b", cache_of (reader (3 ∷ 4 ∷ 5 ∷ [])))
    ∷ ("c", cache_of (reader (6 ∷ [])))
    ∷ []

found_numbers :
    list_all lists none (ok []) caches [] (options (pos 4) none) ≡ ok (1 ∷ 2 ∷ 3 ∷ 4 ∷ [], "1")
unfolding fetch_all fetch read_items list_items
found_numbers = refl

list_all-limit_example : length {A = ℕ} (1 ∷ 2 ∷ 3 ∷ 4 ∷ []) ≤ length {A = ℕ} [] + pos_part (pos 4)
list_all-limit_example =
    list_all-limit lists caches [] (options (pos 4) none) [] (1 ∷ 2 ∷ 3 ∷ 4 ∷ []) "1"
      (
        cache_of-KeepsLimit (reader (1 ∷ 2 ∷ [])),
        (
          cache_of-KeepsLimit (reader (3 ∷ 4 ∷ 5 ∷ [])),
          (cache_of-KeepsLimit (reader (6 ∷ [])), tt),
        ),
      )
      refl found_numbers

-- what the list holds already is kept, and does not count
held_test :
    list {K = ℕ} {I = ℕ} lists
      (ok true)
      (record { caches = caches; cluster = cache_of (reader []) })
      (9 ∷ 9 ∷ [])
      (options (pos 1) none)
    ≡ ok (9 ∷ 9 ∷ 1 ∷ [])
unfolding list fetch_all fetch read_items list_items
held_test = refl

unknown_test :
    list {K = ℕ} {I = ℕ} lists
      (ok true)
      (record { caches = caches; cluster = cache_of (reader []) })
      []
      (record (options (pos 1) none) { namespace = "d" })
    ≡ err (unknown_namespace "d")
unfolding list
unknown_test = refl
