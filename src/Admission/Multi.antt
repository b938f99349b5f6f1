-- ===== src/Admission/Multi.antt =====
-- What the handlers that pkg/webhook/admission/multi.go combines answer together.
use mathlib.Core.List.{append_assoc, append-nil}
use controller_runtime.Prelude.{
  pos, ◌≡◌, ◌∙◌, sym, ap, refl, ◌⊎◌, inl, inr, true, false, string_eq, some, List, [], ◌∷◌, ◌++◌,
  Bool-cases, beq-cases, ◌≢◌, String, Option, none,
}
use mathlib.Core.Path.{subst}
use controller_runtime.Prelude.Fallible.{ok, err, Fallible-cases}
use controller_runtime.Admission.{
  cannot_marshal, Library, Request, Response, Handler, errored, unexpected_patch_type,
  empty_response, no_message, merged, other_type, mutate_all, multi_mutating, multi_validating,
}

module _ {Patch Bytes Err : Type 0} (lib : Library Patch Bytes Err) where
  -- the type of the patches is that of a JSON patch, or there is none
  abbrev pub IsJson : Option String → Type 0
  IsJson pt = (pt ≡ none) ⊎ (pt ≡ some lib.json_patch)

  -- the patches are of another type
  abbrev pub IsOther : Option String → Type 0
  IsOther pt = (t : String) × (pt ≡ some t) × (t ≢ lib.json_patch)

  IsJson-or-IsOther :
      (pt : Option String)
      → (other_type lib pt ≡ false) × IsJson pt ⊎ (other_type lib pt ≡ true) × IsOther pt
  IsJson-or-IsOther none = inl (refl, inl refl)
  IsJson-or-IsOther (some t) = elim (beq-cases t lib.json_patch) [
    | inl (e, same) ↦ inl (rw e, inr (ap some same))
    | inr (e, differ) ↦ inr (rw e, (t, refl, differ))
  ]

  -- the response to patches that all handlers have allowed: it allows the request with the marshalled
  -- patches, or denies it with code 400 and the error of marshalling them
  pub data Accepts (ps : List Patch) : Response Patch Bytes Err → Type 0 where
    patched :
        {bytes : Bytes}
        → lib.marshal_patches ps ≡ ok bytes
        → Accepts ps (record {
          patches = [];
          uid = "";
          allowed = true;
          result = some (record { code = pos 200; message = no_message; reason = "" });
          patch = some bytes;
          patch_type = some lib.json_patch;
          warnings = [];
        })
    unmarshalled :
        {e : Err}
        → lib.marshal_patches ps ≡ err e
        → Accepts ps (record {
          patches = [];
          uid = "";
          allowed = false;
          result = some (record { code = pos 400; message = cannot_marshal e; reason = "" });
          patch = none;
          patch_type = none;
          warnings = [];
        })

  merged-Accepts : (ps : List Patch) → Accepts ps (merged lib ps)
  unfolding errored
  merged-Accepts ps = elim (Fallible-cases (lib.marshal_patches ps)) [
    | inl (bytes, p) ↦ rw (p, merged) (patched p)
    | inr (e, p) ↦ rw (p, merged) (unmarshalled p)
  ]

module _ {Patch Bytes Err W : Type 0} (lib : Library Patch Bytes Err) (req : Request Bytes) where
  -- the handlers are called in order, from one state to another, and each allows the request with
  -- patches of no other type than JSON; these are all the patches
  pub data Merges : List (Handler Patch Bytes Err W) → W → List Patch → W → Type 0 where
    done : {w : W} → Merges [] w [] w
    next :
        {handler : Handler Patch Bytes Err W} {hs : List (Handler Patch Bytes Err W)} {w w' : W}
        {ps : List Patch}
        → (handler req w).0.allowed ≡ true
        → IsJson lib (handler req w).0.patch_type
        → Merges hs (handler req w).1 ps w'
        → Merges (handler ∷ hs) w ((handler req w).0.patches ++ ps) w'

  -- the handlers are called in order up to the first one that does not, and this is the answer to it
  pub data Stops
      : List (Handler Patch Bytes Err W) → W → Response Patch Bytes Err → W → Type 0 where
    denied :
        {handler : Handler Patch Bytes Err W} {hs : List (Handler Patch Bytes Err W)} {w : W}
        → (handler req w).0.allowed ≡ false
        → Stops (handler ∷ hs) w (handler req w).0 (handler req w).1
    other_patch :
        {handler : Handler Patch Bytes Err W} {hs : List (Handler Patch Bytes Err W)} {w : W}
        → (handler req w).0.allowed ≡ true
        → IsOther lib (handler req w).0.patch_type
        → Stops
            (handler ∷ hs)
            w
            (record {
              patches = [];
              uid = "";
              allowed = false;
              result = some (record {
                code = pos 500;
                message = unexpected_patch_type (handler req w).0.patch_type;
                reason = "";
              });
              patch = none;
              patch_type = none;
              warnings = [];
            })
            (handler req w).1
    later :
        {handler : Handler Patch Bytes Err W} {hs : List (Handler Patch Bytes Err W)} {w w' : W}
        {r : Response Patch Bytes Err}
        → (handler req w).0.allowed ≡ true
        → IsJson lib (handler req w).0.patch_type
        → Stops hs (handler req w).1 r w'
        → Stops (handler ∷ hs) w r w'

  mutate_all-cases :
      (hs : List (Handler Patch Bytes Err W)) (before : List Patch) (w : W)
      → ((ps : List Patch) × (w' : W) × Merges hs w ps w'
          × (mutate_all lib hs before req w ≡ (merged lib (before ++ ps), w')))
        ⊎ ((r : Response Patch Bytes Err) × (w' : W) × Stops hs w r w'
            × (mutate_all lib hs before req w ≡ (r, w')))
  unfolding mutate_all errored
  mutate_all-cases [] before w =
      inl ([], w, done, ap (λ l. (merged lib l, w)) (sym (append-nil before)))
  mutate_all-cases (handler ∷ hs) before w = elim (Bool-cases (handler req w).0.allowed) [
    | inr refuses ↦
        inr ((handler req w).0, (handler req w).1, denied refuses, rw (refuses, mutate_all))
    | inl allows ↦ elim (IsJson-or-IsOther lib (handler req w).0.patch_type) [
      | inr (is_bad, bad) ↦ inr (
        errored (pos 500) (unexpected_patch_type (handler req w).0.patch_type),
        (handler req w).1,
        other_patch allows bad,
        rw (allows, is_bad, mutate_all),
      )
      | inl (is_good, good) ↦
          elim (mutate_all-cases hs (before ++ (handler req w).0.patches) (handler req w).1) [
            | inl (ps, w', m, p) ↦ inl (
              (handler req w).0.patches ++ ps,
              w',
              next allows good m,
              rw (allows, is_good, mutate_all)
                  (p
                    ∙ ap (λ l. (merged lib l, w'))
                        (append_assoc before (handler req w).0.patches ps)),
            )
            | inr (r, w', s, p) ↦
                inr (r, w', later allows good s, rw (allows, is_good, mutate_all) p)
          ]
    ]
  ]

  -- A multi mutating handler calls its handlers in order. Either all of them are called and allow the
  -- request, with patches of no other type than JSON: then its response allows the request with
  -- code 200 and the marshalled patches of all of them, in order, without their warnings, or denies it
  -- with code 400 where these cannot be marshalled. Or it stops at the first handler that denies the request,
  -- whose response it gives, or whose patches are of another type, and then it gives an error with
  -- code 500.
  pub multi_mutating_lem :
      (hs : List (Handler Patch Bytes Err W)) (w : W)
      → ((ps : List Patch) × (w' : W) × Merges hs w ps w'
          × Accepts lib ps (multi_mutating lib hs req w).0
          × ((multi_mutating lib hs req w).1 ≡ w'))
        ⊎ ((r : Response Patch Bytes Err) × (w' : W) × Stops hs w r w'
            × (multi_mutating lib hs req w ≡ (r, w')))
  unfolding multi_mutating
  multi_mutating_lem hs w = elim (mutate_all-cases hs [] w) [
    | inl (ps, w', m, p) ↦ inl (
      ps,
      w',
      m,
      subst (Accepts lib ps) (sym (ap (λ a. a.0) p)) (merged-Accepts lib ps),
      ap (λ a. a.1) p,
    )
    | inr stopped ↦ inr stopped
  ]

  -- all handlers are called, in order, and allow the request
  pub data AllAllow : List (Handler Patch Bytes Err W) → W → W → Type 0 where
    all_done : {w : W} → AllAllow [] w w
    allow_next :
        {handler : Handler Patch Bytes Err W} {hs : List (Handler Patch Bytes Err W)} {w w' : W}
        → (handler req w).0.allowed ≡ true
        → AllAllow hs (handler req w).1 w'
        → AllAllow (handler ∷ hs) w w'

  -- the handlers are called up to the first one that denies the request, with this response
  pub data Denies
      : List (Handler Patch Bytes Err W) → W → Response Patch Bytes Err → W → Type 0 where
    denies :
        {handler : Handler Patch Bytes Err W} {hs : List (Handler Patch Bytes Err W)} {w : W}
        → (handler req w).0.allowed ≡ false
        → Denies (handler ∷ hs) w (handler req w).0 (handler req w).1
    denies_later :
        {handler : Handler Patch Bytes Err W} {hs : List (Handler Patch Bytes Err W)} {w w' : W}
        {r : Response Patch Bytes Err}
        → (handler req w).0.allowed ≡ true
        → Denies hs (handler req w).1 r w'
        → Denies (handler ∷ hs) w r w'

  -- A multi validating handler calls its handlers in order. Either all are called and allow the
  -- request, and then it answers that the request is allowed, with code 200, no reason and no
  -- warnings; or it stops at the first that denies the request and gives its response.
  pub multi_validating_lem :
      (hs : List (Handler Patch Bytes Err W)) (w : W)
      → ((w' : W) × AllAllow hs w w'
          × (multi_validating lib hs req w ≡ (
            record empty_response {
              allowed = true;
              result = some (record { code = pos 200; message = no_message; reason = "" });
            },
            w',
          )))
        ⊎ ((r : Response Patch Bytes Err) × (w' : W) × Denies hs w r w'
            × (multi_validating lib hs req w ≡ (r, w')))
  unfolding multi_validating
  multi_validating_lem [] w = inl (w, all_done, refl)
  multi_validating_lem (handler ∷ hs) w = elim (Bool-cases (handler req w).0.allowed) [
    | inr refuses ↦
        inr ((handler req w).0, (handler req w).1, denies refuses, rw (refuses, multi_validating))
    | inl allows ↦ elim (multi_validating_lem hs (handler req w).1) [
      | inl (w', a, p) ↦ inl (w', allow_next allows a, rw (allows, multi_validating) p)
      | inr (r, w', d, p) ↦ inr (r, w', denies_later allows d, rw (allows, multi_validating) p)
    ]
  ]
