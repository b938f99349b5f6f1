-- ===== src/Admission/Verdicts.antt =====
-- What the handlers of pkg/webhook/admission/validator.go and defaulter.go admit.
use controller_runtime.Prelude.{
  ◌≡◌, refl, sym, List, ◌∙◌, ◌↔◌, inl, inr, true, false, Option, none, some, arith, Bool-cases,
  Option-cases,
}
use controller_runtime.Prelude.Fallible.{ok, Fallible-cases}
use controller_runtime.Admission.{
  Library, Request, Response, Operation, creation, change, deletion, other_operation, errored, deny,
  allow, validation_response, validation_response_from_status, patch_response_from_raw,
  empty_response, type_of_patches,
}
use controller_runtime.Admission.Objects.{
  Objects, DecodeError, decode, decode_raw, if_decoded, verdict, validate_operation,
  validating_handle, defaulting_handle,
}

module _ {T Patch Bytes E : Type 0} (objects : Objects T Bytes E)
    (lib : Library Patch Bytes (DecodeError E)) where
  -- the bytes are not empty and deserialize into a copy of the template, to this object
  abbrev pub Decodes : T → Bytes → T → Type 0
  Decodes obj raw t = (objects.object_is_empty raw ≡ false) × (objects.decode_into raw obj ≡ ok t)

  -- the objects of the request decode, and their validation returns no error
  abbrev pub IsValid : T → Request Bytes → Operation → Type 0
  IsValid obj req creation =
      (new : T) × Decodes obj req.object new × (objects.validate_create new ≡ none)
  IsValid obj req change =
      (new : T) × (old : T) × Decodes obj req.object new
      × Decodes (objects.deep_copy obj) req.old_object old
      × (objects.validate_update new old ≡ none)
  IsValid obj req deletion =
      (old : T) × Decodes obj req.old_object old × (objects.validate_delete old ≡ none)
  IsValid obj req other_operation = Unit

  decode_raw_iff :
      (raw : Bytes) (obj t : T) → (decode_raw objects lib raw obj ≡ ok t) ↔ Decodes obj raw t
  unfolding decode_raw
  decode_raw_iff raw obj t = elim (Bool-cases (objects.object_is_empty raw)) [
    | inl empty ↦ (λ h. absurd (ground arith), λ h. cc)
    | inr full ↦ elim (Fallible-cases (objects.decode_into raw obj)) [
      | inl (u, d) ↦ (λ h. (full, ground arith), λ h. rw (full, decode_raw, h.1))
      | inr (e, d) ↦ (λ h. absurd (ground arith), λ h. cc)
    ]
  ]

  -- what is done only with a decoded object
  if_decoded-allowed :
      (raw : Bytes) (obj : T) (then_do : T → Response Patch Bytes (DecodeError E))
      → ((if_decoded objects lib (decode_raw objects lib raw obj) then_do).allowed ≡ true)
        ↔ ((t : T) × Decodes obj raw t × ((then_do t).allowed ≡ true))
  unfolding errored
  if_decoded-allowed raw obj then_do = elim (Fallible-cases (decode_raw objects lib raw obj)) [
    | inl (t, d) ↦ (
      λ h. (t, (decode_raw_iff raw obj t).0 d, rw d at h),
      λ h.
          let same : ok t ≡ decode_raw objects lib raw obj = sym d in
          rw ((decode_raw_iff raw obj h.0).1 h.1) h.2,
    )
    | inr (e, d) ↦ (
      λ h. let bad : false ≡ true = rw d at h in cc,
      λ h. let made = (decode_raw_iff raw obj h.0).1 h.1 in cc,
    )
  ]

  verdict-allowed : (m : Option E) → ((verdict objects lib m).allowed ≡ true) ↔ (m ≡ none)
  unfolding allow deny validation_response validation_response_from_status
  verdict-allowed none = (λ h. refl, λ h. refl)
  verdict-allowed (some e) = elim (Option-cases (objects.api_status e)) [
    | inl p ↦ (λ h. let bad : false ≡ true = rw p at h in cc, λ h. cc)
    | inr (s, p) ↦ (λ h. let bad : false ≡ true = rw p at h in cc, λ h. cc)
  ]

  decode-object :
      (req : Request Bytes) (obj : T)
      → decode objects lib req obj ≡ decode_raw objects lib req.object obj
  unfolding decode
  decode-object req obj = ground arith

  -- an object that decodes, and passes a check
  verdict_of_decoded :
      (raw : Bytes) (obj : T) (check : T → Option E)
      → ((if_decoded objects lib
            (decode_raw objects lib raw obj)
            (λ t. verdict objects lib (check t))).allowed
          ≡ true)
        ↔ ((t : T) × Decodes obj raw t × (check t ≡ none))
  verdict_of_decoded raw obj check =
      let one = if_decoded-allowed raw obj (λ t. verdict objects lib (check t)) in
      (
        λ h. let (t, d, v) = one.0 h in (t, d, (verdict-allowed (check t)).0 v),
        λ (t, d, v). one.1 (t, d, (verdict-allowed (check t)).1 v),
      )

  validate_operation-IsValid :
      (obj : T) (req : Request Bytes) (op : Operation)
      → ((validate_operation objects lib obj req op).allowed ≡ true) ↔ IsValid obj req op
  unfolding validate_operation
  validate_operation-IsValid obj req creation =
      rw (decode-object req obj, validate_operation)
        (verdict_of_decoded req.object obj objects.validate_create)
  validate_operation-IsValid obj req change =
      let inner = λ (new : T).
        verdict_of_decoded req.old_object (objects.deep_copy obj) (objects.validate_update new) in
      let outer = if_decoded-allowed req.object obj (λ new.
        if_decoded objects lib (decode_raw objects lib req.old_object (objects.deep_copy obj))
          (λ old. verdict objects lib (objects.validate_update new old))) in
      (
        λ h.
            let (new, d, rest) = outer.0 h in
            let (old, d', v) = (inner new).0 rest in (new, old, d, d', v),
        λ (new, old, d, d', v). outer.1 (new, d, (inner new).1 (old, d', v)),
      )
  validate_operation-IsValid obj req deletion =
      verdict_of_decoded req.old_object obj objects.validate_delete
  validate_operation-IsValid obj req other_operation =
      (λ h. tt, λ h. unfold allow validation_response in refl)

  -- With a validator, the validating handler answers every request, and allows it exactly if the
  -- objects of the request that the operation needs (the new one to create, both to update, the old
  -- one to delete) are not empty and decode, and their validation returns no error; any other
  -- operation it allows.
  pub validating_handle-IsValid :
      (validator : T) (req : Request Bytes)
      → (r : Response Patch Bytes (DecodeError E)) × (validating_handle objects lib
            (some validator)
            req
          ≡ some r)
        × ((r.allowed ≡ true) ↔ IsValid (objects.deep_copy validator) req req.operation)
  unfolding validating_handle
  validating_handle-IsValid validator req = (
    validate_operation objects lib (objects.deep_copy validator) req req.operation,
    refl,
    validate_operation-IsValid (objects.deep_copy validator) req req.operation,
  )

  -- the defaulted object, as bytes
  abbrev pub Defaults : T → Request Bytes → Bytes → Type 0
  Defaults obj req bytes =
      (t : T) × Decodes obj req.object t × (objects.marshal (objects.default t) ≡ ok bytes)

  -- With a defaulter, the mutating handler answers, where the object of the request is not empty and
  -- decodes, and the defaulted object can be marshalled and compared: it allows the request with the
  -- patches from the bytes of the request to those of the defaulted object, as a JSON patch if there
  -- are any.
  pub defaulting_handle-Defaults :
      (defaulter : T) (req : Request Bytes) (bytes : Bytes) (patches : List Patch)
      → Defaults (objects.deep_copy defaulter) req bytes
      → lib.create_patch req.object bytes ≡ ok patches
      → defaulting_handle objects lib (some defaulter) req
        ≡ some (record empty_response {
          patches = patches;
          allowed = true;
          patch_type = type_of_patches lib patches;
        })
  unfolding defaulting_handle patch_response_from_raw
  defaulting_handle-Defaults defaulter req bytes patches (t, d, made) c =
      let obj = objects.deep_copy defaulter in
      let decoded : decode objects lib req obj ≡ ok t =
        decode-object req obj ∙ (decode_raw_iff req.object obj t).1 d in
      rw (decoded, defaulting_handle, made) (rw (c, patch_response_from_raw))
