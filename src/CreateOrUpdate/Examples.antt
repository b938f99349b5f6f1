-- ===== src/CreateOrUpdate/Examples.antt =====
-- `CreateOrUpdate` over a small store: a set of replicas is to have three.
use controller_runtime.Prelude.{
  Bool, false, ℕ, suc, String, ◌≡◌, refl, true, ◌==◌, nat_eq_class, Option, none, some, beq_refl,
  if◌then◌else◌,
}
use controller_runtime.Object.{Request, request_eq}
use controller_runtime.CreateOrUpdate.{Client, unchanged, create_or_update}
use controller_runtime.CreateOrUpdate.Convergence.{
  IsStore, IsDesired, Reaches, set_desired, create_or_update_lem,
}
use controller_runtime.Samples.{request_to}

-- the key, the number of replicas and the resource version
abbrev Replicas : Type 0
Replicas = Request × (ℕ × ℕ)

abbrev World : Type 0
World = Request → Option (ℕ × ℕ)

abbrev with_key : Request → Option (ℕ × ℕ) → Option Replicas
with_key k none = none
with_key k (some s) = some (k, s)

abbrev lookup : World → Request → Option Replicas
lookup w k = with_key k (w k)

abbrev stamp : Replicas → Replicas
stamp t = (t.0, (t.1.0, suc t.1.1))

abbrev put : Replicas → World → World
put t w k = if t.0 == k then some (stamp t).1 else w k

abbrev answer : Replicas → World → Option Replicas → (Option String × Replicas) × World
answer o w none = ((some "not found", o), w)
answer o w (some t) = ((none, t), w)

abbrev is_fresh : Replicas → Replicas → Bool
is_fresh t old = t.1.1 == old.1.1

abbrev write_fresh : Bool → Replicas → World → (Option String × Replicas) × World
write_fresh true t w = ((none, stamp t), put t w)
write_fresh false t w = ((some "conflict", t), w)

abbrev write_over : Replicas → World → Option Replicas → (Option String × Replicas) × World
write_over t w none = ((some "not found", t), w)
write_over t w (some old) = write_fresh (is_fresh t old) t w

abbrev server : Client Replicas World String
server = record {
  key_of = λ t. t.0;
  get = λ k o w. answer o w (lookup w k);
  create = λ t w. ((none, stamp t), put t w);
  update = λ t w. write_over t w (lookup w t.0);
  is_not_found = λ e. true;
  semantic_equal = λ a b. a.1.0 == b.1.0;
}

with_key-key : (k : Request) (s : Option (ℕ × ℕ)) (t : Replicas) → with_key k s ≡ some t → t.0 ≡ k
with_key-key k none t h = cc
with_key-key k (some s) t h = cc

lookup-put : (t : Replicas) (w : World) → lookup (put t w) t.0 ≡ some (stamp t)
lookup-put t w = rw (beq_refl t.0)

abbrev IsStore-server : IsStore server lookup stamp
IsStore-server = record {
  stored_key = λ w k t h. with_key-key k (w k) t h;
  stamp_key = λ t. refl;
  get_found = λ w k o t h. rw h;
  get_missing = λ w k o h. ("not found", rw h, refl);
  create_missing = λ w t h. (put t w, refl, lookup-put t w);
  is_fresh = is_fresh;
  update_present = λ w t old h fresh. (put t w, rw (h, fresh), lookup-put t w);
}

abbrev three : Replicas → Replicas
three t = (t.0, (3, t.1.1))

IsDesired-three : IsDesired server stamp is_fresh three
IsDesired-three = record {
  same_version = λ t. beq_refl t.1.1;
  same_key = λ t. refl;
  settled = λ t. refl;
}

abbrev web : Replicas
web = (request_to "web", (1, 0))

abbrev empty : World
empty k = none

create_or_update_lem_example :
    let set_three = set_desired server lookup stamp three IsStore-server IsDesired-three in
    let first = create_or_update server set_three web empty in
    let second = create_or_update server set_three web first.2 in
    Reaches server lookup stamp three IsStore-server IsDesired-three
      (lookup empty (request_to "web"))
      web
      empty
      first
    × (second.0 ≡ (unchanged, none))
    × (second.2 ≡ first.2)
create_or_update_lem_example =
    create_or_update_lem server lookup stamp three IsStore-server IsDesired-three web web empty refl
