-- ===== src/Queue.antt =====
-- The calls that the code makes on a `workqueue.RateLimitingInterface`, in order, and between them those
-- of the reconciler. The queue itself is
-- client-go's; what the controller needs of it is the interface of Controller/Workers.
use controller_runtime.Prelude.{
  ℤ, String, ◌≡◌, ◌↔◌, Bool, true, false, ◌==◌, Comparable, string_eq, arith, beq-cases,
}
use controller_runtime.Object.{Request, request_eq}

-- an item is an `interface{}`: a request, or some other value (by its print)
pub data Item : Type 0 where
  request : Request → Item
  invalid : String → Item

abbrev pub item_beq : Item → Item → Bool
item_beq (request a) (request b) = a == b
item_beq (invalid a) (invalid b) = a == b
item_beq _ _ = false

pub item_beq_iff : (a b : Item) → (item_beq a b ≡ true) ↔ (a ≡ b)
item_beq_iff (request a) (request b) = ground (arith, beq-cases a b)
item_beq_iff (request a) (invalid b) = ground arith
item_beq_iff (invalid a) (request b) = ground arith
item_beq_iff (invalid a) (invalid b) = ground (arith, beq-cases a b)

instance abbrev pub item_eq : Comparable Item
item_eq = record { equal = item_beq; equal_iff = item_beq_iff }

pub data Call : Type 0 where
  add : Request → Call
  add_rate_limited : Request → Call
  add_after : Request → ℤ → Call
  forget : Item → Call
  done : Item → Call
  call_reconciler : Request → Call
