-- ===== src/CreateOrUpdate/Patching/Examples.antt =====
-- `CreateOrPatch` over a small store whose objects have a status: a concrete case.
use controller_runtime.Prelude.{
  ℕ, suc, nat_eq_class, sym, ◌∙◌, ap, inl, inr, String, ◌≡◌, ◌↔◌, refl, Bool, true, false, ◌==◌,
  ◌&&◌, string_eq, Comparable, Option, none, some, beq_refl, beq-cases, if◌then◌else◌, arith,
}
use controller_runtime.Prelude.Fallible.{ok}
use controller_runtime.Object.{Request, request_eq}
use controller_runtime.CreateOrUpdate.{Client}
use controller_runtime.CreateOrUpdate.Patching.{Patches, create_or_patch, is_found}
use controller_runtime.CreateOrUpdate.Patching.Stages.{IsPatchStore, Settles, result_of}
use controller_runtime.CreateOrUpdate.Patching.Convergence.{create_or_patch_lem}
use controller_runtime.Samples.{request_to}

-- a text with the version that the server keeps, and a status, which may be missing
abbrev Data : Type 0
Data = (String × ℕ) × Option String

abbrev same_option : Option String → Option String → Bool
same_option none none = true
same_option (some a) (some b) = a == b
same_option _ _ = false

same_option_iff : (a b : Option String) → (same_option a b ≡ true) ↔ (a ≡ b)
same_option_iff none none = (λ h. refl, λ h. refl)
same_option_iff none (some b) = (λ h. cc, λ h. cc)
same_option_iff (some a) none = (λ h. cc, λ h. cc)
same_option_iff (some a) (some b) = ground (arith, beq-cases a b)

instance abbrev option_eq : Comparable (Option String)
option_eq = record { equal = same_option; equal_iff = same_option_iff }

abbrev same_data : Data → Data → Bool
same_data a b = a.0.0 == b.0.0 && (a.0.1 == b.0.1 && same_option a.1 b.1)

same_data_iff : (a b : Data) → (same_data a b ≡ true) ↔ (a ≡ b)
same_data_iff a b =
    ground (arith, beq-cases a.0.0 b.0.0, beq-cases a.0.1 b.0.1, same_option_iff a.1 b.1)

instance abbrev data_eq : Comparable Data
data_eq = record { equal = same_data; equal_iff = same_data_iff }

abbrev Thing : Type 0
Thing = Request × Data

abbrev World : Type 0
World = Request → Option Data

abbrev put : Request → Data → World → World
put k d w j = if k == j then some d else w j

put-there : (k : Request) (d : Data) (w : World) → put k d w k ≡ some d
put-there k d w = rw (beq_refl k)

abbrev with_key : Request → Option Data → Option Thing
with_key k none = none
with_key k (some d) = some (k, d)

abbrev lookup : World → Request → Option Thing
lookup w k = with_key k (w k)

abbrev read : Thing → World → Option Thing → (Option String × Thing) × World
read o w none = ((some "not found", o), w)
read o w (some t) = ((none, t), w)

abbrev client : Client Thing World String
client = record {
  key_of = λ t. t.0;
  get = λ k o w. read o w (lookup w k);
  create = λ t w. ((none, t), put t.0 t.1 w);
  update = λ t w. ((none, t), put t.0 t.1 w);
  is_not_found = λ e. true;
  semantic_equal = λ a b. a.1 == b.1;
}

-- the stored text with the change from one text to another
abbrev changed : String → String → String → String
changed base new old = if base == new then old else new

abbrev changed_status : Option String → Option String → Option String → Option String
changed_status base new old = if same_option base new then old else new

abbrev patch_data : Thing → Thing → World → Option Data → (Option String × Thing) × World
patch_data base o w none = ((some "not found", o), w)
patch_data base o w (some d) =
    let d' : Data = ((changed base.1.0.0 o.1.0.0 d.0.0, suc d.0.1), d.1) in
    ((none, (o.0, d')), put o.0 d' w)

abbrev patch_state : Thing → Thing → World → Option Data → (Option String × Thing) × World
patch_state base o w none = ((some "not found", o), w)
patch_state base o w (some d) =
    let d' : Data = ((d.0.0, suc d.0.1), changed_status base.1.1 o.1.1 d.1) in
    ((none, (o.0, d')), put o.0 d' w)

changed-same : (base new old : String) → base ≡ old → changed base new old ≡ new
changed-same base new old h = ground (arith, beq-cases base new, h)

changed_status-same :
    (base new old : Option String) → base ≡ old → changed_status base new old ≡ new
changed_status-same base new old h = elim (beq-cases base new) [
  | inl (e, same) ↦ rw e (sym h ∙ same)
  | inr (e, differ) ↦ rw e
]

abbrev patches : Patches Thing World String Data String
patches = record {
  to_unstructured = λ t. ok t.1;
  from_unstructured = λ u t. (none, (t.0, u));
  nested_status = λ u. ok u.1;
  remove_status = λ u. (u.0, none);
  set_status = λ s u. ok (u.0, s);
  patch = λ base o w. patch_data base o w (w o.0);
  patch_status = λ base o w. patch_state base o w (w o.0);
}

abbrev body : Thing → Data
body t = (t.1.0, none)

abbrev status : Thing → Option String
status t = t.1.1

left : (d : Data) → (if is_found d.1 then (d.0, none) else d) ≡ (d.0, none)
left (b, none) = refl
left (b, some s) = refl

key_lem : (k : Request) (d : Option Data) (t : Thing) → with_key k d ≡ some t → t.0 ≡ k
key_lem k none t h = cc
key_lem k (some d) t h = cc

data_lem : (k : Request) (d : Option Data) (t : Thing) → with_key k d ≡ some t → d ≡ some t.1
data_lem k none t h = cc
data_lem k (some d) t h = cc

patches-IsPatchStore : IsPatchStore client patches lookup body status
patches-IsPatchStore = record {
  get_found = λ w k o t h. rw h;
  stored_key = λ w k t h. key_lem k (w k) t h;
  whole = λ t. t.1;
  converted = λ t. refl;
  status_found = λ t. refl;
  body_left = λ t. left t.1;
  put_back = λ s t. ((t.0, (t.1.0, s)), (t.1.0, s), refl, refl, refl, refl);
  content = λ u. ((u.0.0, 0), none);
  patched = λ w base obj old h like.
      let d : w obj.0 ≡ some old.1 = data_lem obj.0 (w obj.0) old h in
      let d' : Data = ((changed base.1.0.0 obj.1.0.0 old.1.0.0, suc old.1.0.1), old.1.1) in
      let text : changed base.1.0.0 obj.1.0.0 old.1.0.0 ≡ obj.1.0.0 =
        changed-same base.1.0.0 obj.1.0.0 old.1.0.0 (ap (λ (u : Data). u.0.0) like) in
      (
        put obj.0 d' w,
        (obj.0, d'),
        rw d,
        rw (put-there obj.0 d' w),
        ap (λ (t : String). ((t, 0), none)) text,
        refl,
        refl,
      );
  status_patched = λ w base obj old h like.
      let d : w obj.0 ≡ some old.1 = data_lem obj.0 (w obj.0) old h in
      let d' : Data = ((old.1.0.0, suc old.1.0.1), changed_status base.1.1 obj.1.1 old.1.1) in
      (
        put obj.0 d' w,
        (obj.0, d'),
        rw d,
        rw (put-there obj.0 d' w),
        refl,
        changed_status-same base.1.1 obj.1.1 old.1.1 like,
      );
}

abbrev ready : Thing → Thing
ready t = (t.0, (("three", t.1.0.1), some "ready"))

abbrev web : Thing
web = (request_to "web", (("one", 7), some "starting"))

abbrev held : World
held = put (request_to "web") web.1 (λ k. none)

create_or_patch_lem_example :
    Settles client patches lookup body status patches-IsPatchStore
      (request_to "web")
      (("three", 7), none)
      (some "ready")
      (result_of (body web == body (ready web)) (status web == status (ready web)))
      (create_or_patch client patches (some (λ o u. ((none, ready o), u))) web held)
create_or_patch_lem_example =
    create_or_patch_lem client patches lookup body status patches-IsPatchStore ready web web held
      refl refl
