-- ===== src/Samples.antt =====
-- Objects and kinds of a small cluster, which the examples of the components share.
use controller_runtime.Prelude.{
  ℕ, ℤ, String, ◌==◌, string_eq, Bool, Option, none, some, List, [], ◌∷◌, if◌then◌else◌,
}
use controller_runtime.Object.{Object, OwnerReference, Request}
use controller_runtime.Schema.{GroupVersion, GroupVersionKind}

-- a pod, with its generation, owners, finalizers and deletion time
abbrev pub pod : ℤ → List OwnerReference → List String → Option ℕ → Object
pod generation owners finalizers deleted = record {
  name = "web-0";
  namespace = "shop";
  uid = "u-7";
  resource_version = "41";
  generation = generation;
  labels = none;
  annotations = some (("tier", "front") ∷ []);
  deletion_timestamp = deleted;
  finalizers = finalizers;
  owner_references = owners;
}

-- the reference to a replica set of some name
abbrev pub replica_set_ref : String → Option Bool → OwnerReference
replica_set_ref name controller = record {
  api_version = "apps/v1";
  kind = "ReplicaSet";
  name = name;
  uid = "u-3";
  controller = controller;
  block_owner_deletion = controller;
}

abbrev pub replica_set_kind : GroupVersionKind
replica_set_kind = record { group = "apps"; version = "v1"; kind = "ReplicaSet" }

abbrev pub request_to : String → Request
request_to name = record { namespace = "shop"; name = name }

-- parses the one version that the samples use
abbrev pub parse_sample : String → Option GroupVersion
parse_sample v = if v == "apps/v1" then some (record { group = "apps"; version = "v1" }) else none
