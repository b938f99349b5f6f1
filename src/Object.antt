-- ===== src/Object.antt =====
-- What the accessors of a `client.Object` return (pkg/client/object.go), and the requests that are
-- made from it (pkg/reconcile/reconcile.go). A map of the metadata is a list of its entries, `none`
-- where the map is nil; the API server sends each key once.
use controller_runtime.Prelude.{
  ℕ, ℤ, String, ◌≡◌, ◌↔◌, Bool, true, ◌&&◌, Option, List, arith, Comparable, ◌==◌, string_eq,
  beq-cases,
}

pub record OwnerReference : Type 0 where
  pub api_version : String
  pub kind : String
  pub name : String
  pub uid : String
  pub controller : Option Bool
  pub block_owner_deletion : Option Bool

pub record Object : Type 0 where
  pub name : String
  pub namespace : String
  pub uid : String
  pub resource_version : String
  pub generation : ℤ
  pub labels : Option (List (String × String))
  pub annotations : Option (List (String × String))
  pub deletion_timestamp : Option ℕ
  pub finalizers : List String
  pub owner_references : List OwnerReference

-- `types.NamespacedName`, embedded in `reconcile.Request`
pub record Request : Type 0 where
  pub namespace : String
  pub name : String

abbrev pub request_beq : Request → Request → Bool
request_beq a b = a.namespace == b.namespace && a.name == b.name

pub request_beq_iff : (a b : Request) → (request_beq a b ≡ true) ↔ (a ≡ b)
request_beq_iff a b = ground (arith, beq-cases a.namespace b.namespace, beq-cases a.name b.name)

instance abbrev pub request_eq : Comparable Request
request_eq = record { equal = request_beq; equal_iff = request_beq_iff }

-- the request for an object itself
unfoldable pub request_for : Object → Request
request_for o = record { namespace = o.namespace; name = o.name }
