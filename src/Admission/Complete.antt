-- ===== src/Admission/Complete.antt =====
-- What `Webhook.Handle` of pkg/webhook/admission/webhook.go makes of a handler's response.
use controller_runtime.Prelude.{
  pos, ◌≡◌, ◌≢◌, refl, ◌⊎◌, inl, inr, int_eq, Option, none, some, List, [], ◌∷◌, arith, beq-cases,
}
use controller_runtime.Prelude.Fallible.{ok, err, Fallible-cases}
use controller_runtime.Admission.{
  Library, Request, Response, Status, Handler, errored, unable_to_encode, complete, webhook_handle,
  valid_result, filled,
}

module _ {Patch Bytes Err : Type 0} (lib : Library Patch Bytes Err) where
  valid_result-code : (s : Option (Status Err)) → (valid_result lib s).code ≢ pos 0
  valid_result-code none h = cc
  valid_result-code (some s) h = ground (arith, beq-cases s.code (pos 0))

  -- the patch of the answer, and its type, are those of the patches, or are the handler's own where
  -- there are no patches
  abbrev pub HasPatch : (given answer : Response Patch Bytes Err) → List Patch → Type 0
  HasPatch given answer [] = (answer.patch ≡ given.patch) × (answer.patch_type ≡ given.patch_type)
  HasPatch given answer (p ∷ ps) =
      (bytes : Bytes) × (lib.marshal_patches (p ∷ ps) ≡ ok bytes)
      × (answer.patch ≡ some bytes)
      × (answer.patch_type ≡ some lib.json_patch)

  -- the answer to a request that a handler gave a response to
  pub record IsComplete (req : Request Bytes) (given answer : Response Patch Bytes Err)
      : Type 0 where
    pub same_uid : answer.uid ≡ req.uid
    pub same_verdict : answer.allowed ≡ given.allowed
    pub same_warnings : answer.warnings ≡ given.warnings
    pub status : (s : Status Err) × (answer.result ≡ some s) × (s.code ≢ pos 0)
    pub patch : HasPatch given answer given.patches

  -- the response before the patches are marshalled
  abbrev with_status : Request Bytes → Response Patch Bytes Err → Response Patch Bytes Err
  with_status req r = record r { uid = req.uid; result = some (valid_result lib r.result) }

  filled-cases :
      (req : Request Bytes) (r : Response Patch Bytes Err) (ps : List Patch)
      → r.patches ≡ ps
      → ((answer : Response Patch Bytes Err) × (filled lib (with_status req r) ps ≡ ok answer)
          × IsComplete req r answer)
        ⊎ ((e : Err) × (filled lib (with_status req r) ps ≡ err e)
            × (lib.marshal_patches ps ≡ err e))
  filled-cases req r [] h = inl (
    with_status req r,
    refl,
    record {
      same_uid = refl;
      same_verdict = refl;
      same_warnings = refl;
      status = (valid_result lib r.result, refl, valid_result-code r.result);
      patch = rw h (refl, refl);
    },
  )
  filled-cases req r (p ∷ ps) h = elim (Fallible-cases (lib.marshal_patches (p ∷ ps))) [
    | inl (bytes, m) ↦ inl (
      record (with_status req r) { patch = some bytes; patch_type = some lib.json_patch },
      rw (m, filled),
      record {
        same_uid = refl;
        same_verdict = refl;
        same_warnings = refl;
        status = (valid_result lib r.result, refl, valid_result-code r.result);
        patch = rw h (bytes, m, refl, refl);
      },
    )
    | inr (e, m) ↦ inr (e, rw (m, filled), m)
  ]

  -- For every handler, `Webhook.Handle` answers with the request's UID, with a status whose code is
  -- not 0, with the handler's verdict and warnings, and with the marshalled patches of its response,
  -- marked as a JSON patch (or, if there are none, with the patch and type that it set itself); only
  -- where the patches cannot be marshalled it answers an error with code 500 that says so.
  pub webhook_handle-IsComplete :
      {W : Type 0} (handler : Handler Patch Bytes Err W) (req : Request Bytes) (w : W)
      → let given = (handler req w).0 in
        let answer = (webhook_handle lib handler req w).0 in
        IsComplete req given answer
        ⊎ ((e : Err) × (lib.marshal_patches given.patches ≡ err e)
            × (answer ≡ errored (pos 500) unable_to_encode))
  unfolding webhook_handle complete
  webhook_handle-IsComplete handler req w =
      let r = (handler req w).0 in
      elim (filled-cases req r r.patches refl) [
        | inl (answer, c, is) ↦ inl (rw (c, webhook_handle, complete) is)
        | inr (e, c, m) ↦ inr (e, m, rw (c, webhook_handle, complete))
      ]
