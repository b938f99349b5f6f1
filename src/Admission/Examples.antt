-- ===== src/Admission/Examples.antt =====
-- pkg/webhook/admission on an object that is its name: names are defaulted, and have to be there.
use controller_runtime.Prelude.{
  ℕ, suc, pos, String, ◌≡◌, ◌↔◌, ◌⊎◌, Bool, true, false, ◌==◌, string_eq, Option, none, some, List,
  [], ◌∷◌, if◌then◌else◌,
}
use controller_runtime.Prelude.Fallible.{Fallible, ok, err}
use controller_runtime.Admission.{
  Library, Request, Response, Handler, change, errored, unable_to_encode, patched, deny,
  multi_mutating, webhook_handle,
}
use controller_runtime.Admission.Multi.{Merges, Accepts, Stops, multi_mutating_lem}
use controller_runtime.Admission.Complete.{IsComplete, webhook_handle-IsComplete}
use controller_runtime.Admission.Objects.{Objects, DecodeError, validating_handle}
use controller_runtime.Admission.Verdicts.{IsValid, validating_handle-IsValid}

-- a patch is a text, and so are the bytes of many
abbrev library : Library String (List String) (DecodeError String)
library = record {
  json_patch = "JSONPatch";
  marshal_patches = λ ps. ok ps;
  create_patch = λ original current. ok ("replace" ∷ []);
}

abbrev Answer : Type 0
Answer = Response String (List String) (DecodeError String)

abbrev request : Request (List String)
request = record { uid = "r-1"; operation = change; object = "web" ∷ []; old_object = "old" ∷ [] }

-- each handler counts its call
abbrev labels : Handler String (List String) (DecodeError String) ℕ
labels req n = (patched "" ("add" ∷ []), suc n)

abbrev refuses : Handler String (List String) (DecodeError String) ℕ
refuses req n = (deny "no", suc n)

multi_mutating_lem_example :
    ((ps : List String) × (w' : ℕ) × Merges library request (labels ∷ refuses ∷ []) 0 ps w'
      × Accepts library ps (multi_mutating library (labels ∷ refuses ∷ []) request 0).0
      × ((multi_mutating library (labels ∷ refuses ∷ []) request 0).1 ≡ w'))
    ⊎ ((r : Answer) × (w' : ℕ) × Stops library request (labels ∷ refuses ∷ []) 0 r w'
        × (multi_mutating library (labels ∷ refuses ∷ []) request 0 ≡ (r, w')))
multi_mutating_lem_example = multi_mutating_lem library request (labels ∷ refuses ∷ []) 0

webhook_handle-IsComplete_example :
    IsComplete library request (labels request 0).0 (webhook_handle library labels request 0).0
    ⊎ ((e : DecodeError String) × (library.marshal_patches (labels request 0).0.patches ≡ err e)
        × ((webhook_handle library labels request 0).0 ≡ errored (pos 500) unable_to_encode))
webhook_handle-IsComplete_example = webhook_handle-IsComplete library labels request 0

abbrev is_nil : List String → Bool
is_nil [] = true
is_nil (x ∷ xs) = false

-- the object is the first text
abbrev first_text : List String → Fallible String String
first_text [] = err "no text"
first_text (t ∷ ts) = ok t

abbrev check : String → Option String
check name = if name == "" then some "no name" else none

abbrev names : Objects String (List String) String
names = record {
  object_is_empty = is_nil;
  decode_into = λ raw into. first_text raw;
  deep_copy = λ name. name;
  validate_create = check;
  validate_update = λ new old. check new;
  validate_delete = λ old. none;
  default = λ name. if name == "" then "default" else name;
  marshal = λ name. ok (name ∷ []);
  api_status = λ e. none;
  error_string = λ e. e;
}

validating_handle-IsValid_example :
    (r : Answer) × (validating_handle names library (some "") request ≡ some r)
    × ((r.allowed ≡ true) ↔ IsValid names library "" request change)
validating_handle-IsValid_example = validating_handle-IsValid names library "" request
