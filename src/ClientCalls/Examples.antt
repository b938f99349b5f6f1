-- ===== src/ClientCalls/Examples.antt =====
-- Calls through the wrapping clients: concrete cases.
use controller_runtime.Prelude.{
  String, ◌≡◌, refl, ◌⊎◌, true, false, string_eq, none, some, [], ◌∷◌, pos,
}
use controller_runtime.Prelude.Fallible.{ok, err}
use controller_runtime.Samples.{pod}
use controller_runtime.ClientOptions.{Selectors, write_owner, in_namespace}
use controller_runtime.ClientCalls.{Call, create, delete_all, selecting, typed_client}
use controller_runtime.ClientCalls.Wrappers.{
  namespace_mismatch, namespaced_client, dry_run_client, pass_on, with_namespace,
}
use controller_runtime.ClientCalls.Confinement.{
  dried_request, is_asked, typed_client-dry_run_client, namespaced_client_lem,
}

abbrev keys : Selectors String String String
keys = record {
  from_validated_set = λ m. "set";
  new_selector = "all";
  exists_requirement = λ key. some key;
  add_requirement = λ r sel. r;
  fields_as_selector = λ m. "fields";
  label_text = λ sel. sel;
  field_text = λ sel. sel;
}

abbrev Sample : Type 0
Sample = Call String String String String String String String

abbrev creation : Sample
creation = create (pod (pos 1) [] [] none) (write_owner "me" ∷ [])

-- it asks for another namespace in its options
abbrev clearance : Sample
clearance = delete_all (selecting (in_namespace "bank") ∷ [])

typed_client-dry_run_client_example :
    typed_client keys "" (ok true) (dry_run_client creation)
    ≡ pass_on (typed_client keys "" (ok true) creation) dried_request
typed_client-dry_run_client_example = typed_client-dry_run_client keys "" (ok true) creation

namespaced_client_lem_example :
    (is_asked "shop" clearance ≡ true)
      × ((passed : Sample) × (namespaced_client {Err = String} "shop" (ok true) clearance
            ≡ ok passed)
          × (pass_on (typed_client keys "" (ok true) passed) (λ r. r.namespace)
              ≡ pass_on (typed_client keys "" (ok true) clearance) (λ r. some "shop")))
    ⊎ (is_asked "shop" clearance ≡ false)
      × (namespaced_client "shop" (ok true) clearance ≡ err namespace_mismatch)
namespaced_client_lem_example = namespaced_client_lem keys "" "shop" clearance refl

elsewhere : namespaced_client {Err = String} "bank" (ok true) creation ≡ err namespace_mismatch
unfolding namespaced_client with_namespace
elsewhere = refl
