-- ===== src/OwnerRefs/Examples.antt =====
-- The owner references of pkg/controller/controllerutil/controllerutil.go, of a pod.
use controller_runtime.Prelude.{inr, pos, String, true, false, none, some, [], ◌∷◌, string_eq}
use controller_runtime.Object.{Object}
use controller_runtime.OwnerRefs.{Api, Owner}
use controller_runtime.OwnerRefs.Upsert.{first_controller}
use controller_runtime.Samples.{pod, parse_sample, replica_set_kind, replica_set_ref}

abbrev api : Api
api = record {
  parse_group_version = parse_sample;
  group_version_string = λ gv. "apps/v1";
  get_controller_of = first_controller;
}

-- the replica set "web", as the owner
abbrev web : Owner String
web = record {
  object = record (pod (pos 3) [] [] none) { name = "web" };
  as_runtime = some (record {
    is_partial = false;
    own_kind = replica_set_kind;
    object_kinds = inr (replica_set_kind ∷ [], false);
  });
}

-- a pod that "api" owns, and "web" controls
abbrev owned : Object
owned = pod (pos 1) (replica_set_ref "api" none ∷ replica_set_ref "web" (some true) ∷ []) [] none
