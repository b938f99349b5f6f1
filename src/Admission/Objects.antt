-- ===== src/Admission/Objects.antt =====
-- pkg/webhook/admission: the decoder (decode.go), and the handlers that validate and default the
-- objects of a type `T` (validator.go, defaulter.go). What deserializing, copying, validating and
-- defaulting an object gives is the user's and apimachinery's; `object_is_empty` says of the raw
-- bytes that there are none. A nil validator or defaulter makes the handlers panic: `none`.
use controller_runtime.Prelude.{pos, String, Bool, false, Option, none, some, if◌then◌else◌}
use controller_runtime.Prelude.Fallible.{Fallible, ok, err}
use controller_runtime.Admission.{
  Library, Request, Response, Status, Operation, creation, change, deletion, other_operation,
  errored, deny, allow, error_text, validation_response_from_status, patch_response_from_raw,
}

pub data DecodeError (Err : Type 0) : Type 0 where
  no_content : DecodeError Err
  foreign : Err → DecodeError Err

-- the objects of a type; `E` are the errors of decoding and of the user
pub record Objects (T Bytes E : Type 0) : Type 0 where
  pub object_is_empty : Bytes → Bool
  -- deserializes into a copy of the template
  pub decode_into : Bytes → T → Fallible E T
  pub deep_copy : T → T
  pub validate_create : T → Option E
  pub validate_update : T → T → Option E
  pub validate_delete : T → Option E
  pub default : T → T
  pub marshal : T → Fallible E Bytes
  -- `goerrors.As(err, &apiStatus)`, and what `err.Error()` says
  pub api_status : E → Option (Status (DecodeError E))
  pub error_string : E → String

module _ {T Patch Bytes E : Type 0} (objects : Objects T Bytes E)
    (lib : Library Patch Bytes (DecodeError E)) where
  open objects use {
    object_is_empty, decode_into, deep_copy, validate_create, validate_update, validate_delete,
    default, marshal, api_status, error_string,
  }

  abbrev pub wrapped : Fallible E T → Fallible (DecodeError E) T
  wrapped (ok t) = ok t
  wrapped (err e) = err (foreign e)

  -- `DecodeRaw`
  unfoldable pub decode_raw : Bytes → T → Fallible (DecodeError E) T
  decode_raw raw into =
      if object_is_empty raw then err no_content else wrapped (decode_into raw into)

  -- `Decode`
  unfoldable pub decode : Request Bytes → T → Fallible (DecodeError E) T
  unfolding decode_raw
  decode req into =
      if object_is_empty req.object then err no_content else decode_raw req.object into

  -- the answer to what a validation returned: a denial, with the status that the error carries
  abbrev pub denial : E → Option (Status (DecodeError E)) → Response Patch Bytes (DecodeError E)
  denial e (some s) = validation_response_from_status false s
  denial e none = deny (error_string e)

  abbrev pub verdict : Option E → Response Patch Bytes (DecodeError E)
  verdict none = allow ""
  verdict (some e) = denial e (api_status e)

  -- `if err != nil { return Errored(http.StatusBadRequest, err) }`, and what comes then
  abbrev pub if_decoded :
      Fallible (DecodeError E) T
      → (T → Response Patch Bytes (DecodeError E))
      → Response Patch Bytes (DecodeError E)
  if_decoded (err e) then_do = errored (pos 400) (error_text e)
  if_decoded (ok t) then_do = then_do t

  -- the three `if`s on the operation, of which one at most is taken
  unfoldable pub validate_operation :
      T → Request Bytes → Operation → Response Patch Bytes (DecodeError E)
  unfolding decode
  validate_operation obj req creation =
      if_decoded (decode req obj) (λ new. verdict (validate_create new))
  validate_operation obj req change = if_decoded (decode_raw req.object obj) (λ new.
      if_decoded (decode_raw req.old_object (deep_copy obj))
        (λ old. verdict (validate_update new old)))
  validate_operation obj req deletion =
      if_decoded (decode_raw req.old_object obj) (λ old. verdict (validate_delete old))
  validate_operation obj req other_operation = allow ""

  -- `validatingHandler.Handle`
  unfoldable pub validating_handle :
      Option T → Request Bytes → Option (Response Patch Bytes (DecodeError E))
  unfolding validate_operation
  validating_handle none req = none
  validating_handle (some validator) req =
      some (validate_operation (deep_copy validator) req req.operation)

  -- `mutatingHandler.Handle`
  unfoldable pub defaulting_handle :
      Option T → Request Bytes → Option (Response Patch Bytes (DecodeError E))
  unfolding decode errored patch_response_from_raw
  defaulting_handle none req = none
  defaulting_handle (some defaulter) req = elim (decode req (deep_copy defaulter)) [
    | err e ↦ some (errored (pos 400) (error_text e))
    | ok obj ↦ elim (marshal (default obj)) [
      | err e ↦ some (errored (pos 500) (error_text (foreign e)))
      | ok bytes ↦ some (patch_response_from_raw lib req.object bytes)
    ]
  ]
