-- ===== src/Admission.antt =====
-- pkg/webhook/admission: the responses of response.go and webhook.go, the handlers that multi.go
-- combines, and the handlers of validator.go and defaulter.go. The JSON and patch libraries, the
-- deserializer and the user's objects are parameters. A handler may keep a state `W` of its own.
-- Fields of a response that the code neither reads nor writes are left out.
pub mod Multi
pub mod Complete
pub mod Objects
pub mod Verdicts
mod Examples
use controller_runtime.Prelude.{
  ℤ, pos, String, Bool, true, false, not, ◌==◌, ◌/=◌, string_eq, int_eq, Option, none, some, List,
  [], ◌∷◌, ◌++◌, if◌then◌else◌,
}
use controller_runtime.Prelude.Fallible.{Fallible, ok, err, ◌>>=◌}

-- what a status says: a text, an error's text, or one of the texts that the package makes
pub data Message (Err : Type 0) : Type 0 where
  text : String → Message Err
  error_text : Err → Message Err
  unexpected_patch_type : Option String → Message Err
  cannot_marshal : Err → Message Err
  unable_to_encode : Message Err

-- `metav1.Status`
pub record Status (Err : Type 0) : Type 0 where
  pub code : ℤ
  pub message : Message Err
  pub reason : String

pub data Operation : Type 0 where
  creation change deletion other_operation : Operation

pub record Request (Bytes : Type 0) : Type 0 where
  pub uid : String
  pub operation : Operation
  pub object : Bytes
  pub old_object : Bytes

-- `Response`, with the embedded `AdmissionResponse`; a nil `Patch` is `none`
pub record Response (Patch Bytes Err : Type 0) : Type 0 where
  pub patches : List Patch
  pub uid : String
  pub allowed : Bool
  pub result : Option (Status Err)
  pub patch : Option Bytes
  pub patch_type : Option String
  pub warnings : List String

-- `PatchTypeJSONPatch`, `json.Marshal` of patches, and `jsonpatch.CreatePatch`
pub record Library (Patch Bytes Err : Type 0) : Type 0 where
  pub json_patch : String
  pub marshal_patches : List Patch → Fallible Err Bytes
  pub create_patch : Bytes → Bytes → Fallible Err (List Patch)

abbrev pub Handler : (Patch Bytes Err W : Type 0) → Type 0
Handler Patch Bytes Err W = Request Bytes → W → Response Patch Bytes Err × W

abbrev pub no_message : {Err : Type 0} → Message Err
no_message = text ""

module _ {Patch Bytes Err : Type 0} where
  -- the zero value
  abbrev pub empty_response : Response Patch Bytes Err
  empty_response = record {
    patches = [];
    uid = "";
    allowed = false;
    result = none;
    patch = none;
    patch_type = none;
    warnings = [];
  }

  unfoldable pub errored : ℤ → Message Err → Response Patch Bytes Err
  errored code message = record empty_response {
    allowed = false;
    result = some (record { code = code; message = message; reason = "" });
  }

  -- the reason is set where it is not empty, and is empty before
  unfoldable pub validation_response : Bool → String → Response Patch Bytes Err
  validation_response is_allowed reason = record empty_response {
    allowed = is_allowed;
    result = some (record {
      code = if is_allowed then pos 200 else pos 403;
      message = no_message;
      reason = reason;
    });
  }

  unfoldable pub allow : String → Response Patch Bytes Err
  unfolding validation_response
  allow reason = validation_response true reason

  unfoldable pub deny : String → Response Patch Bytes Err
  unfolding validation_response
  deny reason = validation_response false reason

  unfoldable pub patched : String → List Patch → Response Patch Bytes Err
  unfolding allow
  patched reason patches = record (allow reason) { patches = patches }

  unfoldable pub validation_response_from_status : Bool → Status Err → Response Patch Bytes Err
  validation_response_from_status is_allowed status = record empty_response {
    allowed = is_allowed;
    result = some status;
  }

  unfoldable pub with_warnings : Response Patch Bytes Err → List String → Response Patch Bytes Err
  with_warnings r warnings = record r { warnings = r.warnings ++ warnings }

module _ {Patch Bytes Err : Type 0} (lib : Library Patch Bytes Err) where
  -- the patch type is set where there are patches
  abbrev pub type_of_patches : List Patch → Option String
  type_of_patches [] = none
  type_of_patches (p ∷ ps) = some lib.json_patch

  unfoldable pub patch_response_from_raw : Bytes → Bytes → Response Patch Bytes Err
  unfolding errored
  patch_response_from_raw original current = elim (lib.create_patch original current) [
    | err e ↦ errored (pos 500) (error_text e)
    | ok patches ↦ record empty_response {
      patches = patches;
      allowed = true;
      patch_type = type_of_patches patches;
    }
  ]

  -- the result with a status code: 200 for none
  abbrev pub valid_result : Option (Status Err) → Status Err
  valid_result none = record { code = pos 200; message = no_message; reason = "" }
  valid_result (some s) = if s.code == pos 0 then record s { code = pos 200 } else s

  -- the response with the patches marshalled, if there are any
  abbrev pub filled :
      Response Patch Bytes Err → List Patch → Fallible Err (Response Patch Bytes Err)
  filled r [] = ok r
  filled r (p ∷ ps) = elim (lib.marshal_patches (p ∷ ps)) [
    | err e ↦ err e
    | ok bytes ↦ ok (record r { patch = some bytes; patch_type = some lib.json_patch })
  ]

  -- `Complete`, which gives the response afterwards or the error
  unfoldable pub complete :
      Request Bytes → Response Patch Bytes Err → Fallible Err (Response Patch Bytes Err)
  complete req r =
      filled (record r { uid = req.uid; result = some (valid_result r.result) }) r.patches

  -- the response after the loop of `multiMutating.Handle`
  abbrev pub merged : List Patch → Response Patch Bytes Err
  merged patches = elim (lib.marshal_patches patches) [
    | err e ↦ errored (pos 400) (cannot_marshal e)
    | ok bytes ↦ record empty_response {
      allowed = true;
      result = some (record { code = pos 200; message = no_message; reason = "" });
      patch = some bytes;
      patch_type = some lib.json_patch;
    }
  ]

  -- a type other than the JSON patch's
  abbrev pub other_type : Option String → Bool
  other_type none = false
  other_type (some t) = t /= lib.json_patch

  module _ {W : Type 0} where
    abbrev pub completed :
        Fallible Err (Response Patch Bytes Err) → W → Response Patch Bytes Err × W
    completed (ok r) w = (r, w)
    completed (err e) w = (errored (pos 500) unable_to_encode, w)

    -- `Webhook.Handle`
    unfoldable pub webhook_handle : Handler Patch Bytes Err W → Handler Patch Bytes Err W
    unfolding complete errored
    webhook_handle handler req w =
        let (resp, w') = handler req w in completed (complete req resp) w'

    -- the loop, with the patches so far
    unfoldable pub mutate_all :
        List (Handler Patch Bytes Err W) → List Patch → Handler Patch Bytes Err W
    unfolding errored
    mutate_all [] patches req w = (merged patches, w)
    mutate_all (handler ∷ hs) patches req w =
        let (resp, w') = handler req w in
        let rest = mutate_all hs (patches ++ resp.patches) req w' in
        if not resp.allowed
        then (resp, w')
        else if other_type resp.patch_type
        then (errored (pos 500) (unexpected_patch_type resp.patch_type), w')
        else rest

    unfoldable pub multi_mutating : List (Handler Patch Bytes Err W) → Handler Patch Bytes Err W
    unfolding mutate_all
    multi_mutating hs req w = mutate_all hs [] req w

    unfoldable pub multi_validating : List (Handler Patch Bytes Err W) → Handler Patch Bytes Err W
    multi_validating [] req w = (
      record empty_response {
        allowed = true;
        result = some (record { code = pos 200; message = no_message; reason = "" });
      },
      w,
    )
    multi_validating (handler ∷ hs) req w =
        let (resp, w') = handler req w in
        let rest = multi_validating hs req w' in if not resp.allowed then (resp, w') else rest
