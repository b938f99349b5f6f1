-- ===== src/FakeClient/Examples.antt =====
-- The fake client over a small store of configuration maps: tests and concrete cases.
use Prim.Native.String.{String, count}
use controller_runtime.Prelude.{
  ℕ, ◌+◌, ◌≤◌, ◌==◌, ltb, string_eq, ◌≡◌, refl, true, false, ◌&&◌, Option, none, some, List, [],
  ◌∷◌, beq_refl, pos, if◌then◌else◌,
}
use controller_runtime.Prelude.Fallible.{Fallible, ok, err}
use controller_runtime.Schema.{GroupVersionKind}
use controller_runtime.Samples.{pod}
use controller_runtime.FakeClient.Numerals.{parse_uint, format_uint, format_digits}
use controller_runtime.FakeClient.Names.{count-generated_name}
use controller_runtime.FakeClient.Laws.{IsTracker, next_version, is_current, tracker_update_lem}
use controller_runtime.FakeClient.Histories.{
  second_writer-conflict, delete_object_lem, marked, without_finalizers,
}
use controller_runtime.FakeClient.{
  FakeObject, Tracker, conflict, is_released, tracker_update, tracker_add, is_empty, delete_object,
  with_version, generated_name, stored, update_over, allows_unconditional_update,
}

abbrev Thing : Type 0
Thing = FakeObject ℕ

abbrev Store : Type 0
Store = String → String → Option Thing

abbrev put : String → String → Option Thing → Store → Store
put ns n v s a b = if a == ns && b == n then v else s a b

abbrev found_or : Option Thing → Fallible String Thing
found_or none = err "not found"
found_or (some o) = ok o

abbrev if_there : Option Thing → Store → Store → Store × Option String
if_there none s s' = (s, some "not found")
if_there (some o) s s' = (s', none)

abbrev if_free : Option Thing → Store → Store → Store × Option String
if_free none s s' = (s', none)
if_free (some o) s s' = (s, some "already exists")

abbrev server : Tracker String ℕ String Store
server = record {
  get = λ g ns n s. found_or (s ns n);
  add = λ o s. (put o.meta.namespace o.meta.name (some o) s, none);
  create = λ g o ns s. if_free (s ns o.meta.name) s (put ns o.meta.name (some o) s);
  update = λ g o ns s. if_there (s ns o.meta.name) s (put ns o.meta.name (some o) s);
  delete = λ g ns n s. if_there (s ns n) s (put ns n none s);
  is_not_found = λ e. e == "not found";
}

put-there : (ns n : String) (v : Option Thing) (s : Store) → put ns n v s ns n ≡ v
put-there ns n v s = rw (beq_refl ns, beq_refl n)

server-IsTracker : IsTracker server (λ s g ns n. s ns n)
server-IsTracker = record {
  get_found = λ s g ns n o h. rw h;
  update_found = λ s g ns o old h here. rw h (refl, put-there ns o.meta.name (some o) s);
  delete_found = λ s g ns n old h. rw h (refl, put-there ns n none s);
}

abbrev config_map : GroupVersionKind
config_map = record { group = ""; version = "v1"; kind = "ConfigMap" }

abbrev thing : ℕ → List String → Thing
thing content finalizers = record {
  kind = config_map;
  meta = pod (pos 1) [] finalizers none;
  generate_name = "";
  content = content;
}

abbrev filled : List String → Store
filled finalizers = put "shop" "web-0" (some (thing 1 finalizers)) (λ ns n. none)

abbrev no_kind : Fallible String GroupVersionKind
no_kind = err "no kind"

after_41 : next_version 41 ≡ "42"
unfolding format_uint format_digits
after_41 = refl

after_last : next_version 18446744073709551615 ≡ "0"
unfolding format_uint format_digits
after_last = refl

-- an object that was added without a version has version 999
added_version :
    (tracker_update server no_kind "configmaps"
      (with_version "" (thing 7 []))
      "shop"
      (tracker_add server (ok (with_version "" (thing 1 [])) ∷ []) (λ ns n. none)).0).0
    ≡ with_version "1000" (thing 7 [])
unfolding tracker_update tracker_add update_over stored allows_unconditional_update parse_uint
    format_uint format_digits
added_version = refl

tracker_update_lem_example :
    let obj = thing 2 [] in
    let old = thing 1 [] in
    let s = filled [] in
    (is_current config_map obj old ≡ true
      → ((tracker_update server no_kind "configmaps" obj "shop" s).2 ≡ none)
        × ((tracker_update server no_kind "configmaps" obj "shop" s).1 "shop" "web-0"
            ≡ (if is_released obj then none else some (with_version (next_version 41) obj))))
    × (is_current config_map obj old ≡ false
        → tracker_update server no_kind "configmaps" obj "shop" s ≡ (obj, s, some conflict))
unfolding parse_uint
tracker_update_lem_example =
    tracker_update_lem server-IsTracker no_kind config_map "configmaps" (thing 2 []) (thing 1 [])
      "shop" (filled []) 41 refl refl refl refl refl

second_writer-conflict_example :
    let first = tracker_update server no_kind "configmaps" (thing 2 []) "shop" (filled []) in
    (first.2 ≡ none)
    × (tracker_update server no_kind "configmaps" (thing 3 []) "shop" first.1
        ≡ (thing 3 [], first.1, some conflict))
unfolding parse_uint
second_writer-conflict_example =
    second_writer-conflict server-IsTracker no_kind config_map "configmaps" (thing 2 [])
      (thing 3 []) (thing 1 []) (filled []) 41 refl refl refl refl refl refl refl refl refl refl
      refl

delete_object_lem_example :
    let old = thing 1 ("keep" ∷ []) in
    let deleted =
      delete_object server 5 no_kind "configmaps" "shop" "web-0" (filled ("keep" ∷ [])) in
    let released =
      tracker_update server no_kind "configmaps"
        (without_finalizers (marked 5 41 old))
        "shop"
        deleted.0 in
    (deleted.1 ≡ none)
    × (is_empty old.meta.finalizers ≡ true → deleted.0 "shop" "web-0" ≡ none)
    × (is_empty old.meta.finalizers ≡ false
        → (deleted.0 "shop" "web-0" ≡ some (marked 5 41 old))
          × (released.2 ≡ none)
          × (released.1 "shop" "web-0" ≡ none))
unfolding parse_uint
delete_object_lem_example =
    delete_object_lem server-IsTracker no_kind config_map "configmaps" (thing 1 ("keep" ∷ []))
      (filled ("keep" ∷ [])) 5 41 refl refl refl refl refl

count-generated_name_example :
    (count (generated_name "web-" "abcde") ≤ 63)
    × (count (generated_name "web-" "abcde")
        ≡ (if ltb 58 (count "web-") then 63 else count "web-" + 5))
count-generated_name_example = count-generated_name "web-" "abcde" refl
