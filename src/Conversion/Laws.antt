-- ===== src/Conversion/Laws.antt =====
-- What the conversion webhook of pkg/webhook/conversion/conversion.go converts, and what it answers.
use mathlib.Core.List.{append-nil, append_assoc}
use controller_runtime.Prelude.{
  ◌↔◌, String, ◌≡◌, ◌∙◌, refl, sym, ap, ◌⊎◌, inl, inr, true, false, ◌==◌, Option, none, some, List,
  [], ◌∷◌, ◌++◌,
}
use controller_runtime.Prelude.Fallible.{ok, err, ◌>>=◌, map_err, Fallible-cases}
use controller_runtime.Schema.{group_kind, group_kind_eq, gvk_eq}
use controller_runtime.Conversion.{
  ConversionError, Types, convert_object, convert_via_hub, type_is_convertible, to_hub_failed,
  from_hub_failed, convert_one, convert_all, ConversionRequest, serve_http, nil_dereference, review,
}
use controller_runtime.Conversion.Hubs.{get_hub_of_convertible}

module _ {T E Raw : Type 0} (s : Types T E Raw) where
  -- Two versions of a type for which `IsConvertible` answers true, neither of them the hub, are
  -- converted through one hub: the source to the hub, and the hub to the destination, with the first
  -- error that one of the two returns.
  pub convert_object-spokes :
      (src dst : T)
      → (group_kind (s.kind_of src) == group_kind (s.kind_of dst)) ≡ true
      → (s.kind_of src == s.kind_of dst) ≡ false
      → s.is_hub src ≡ false
      → s.is_hub dst ≡ false
      → s.is_convertible src ≡ true
      → s.is_convertible dst ≡ true
      → type_is_convertible s src ≡ ok true
      → (hub : T) × (s.is_hub hub ≡ true)
        × (convert_object s src dst ≡ (do
          hub' ← map_err to_hub_failed (s.convert_to src hub)
          map_err from_hub_failed (s.convert_from dst hub')))
  unfolding convert_object
  convert_object-spokes src dst same differ src_hub dst_hub src_c dst_c t =
      let (hub, found, is) = get_hub_of_convertible s src t in
      (
        hub,
        is,
        rw (same, differ, src_hub, dst_hub, src_c, dst_c, convert_object)
            (rw (found, convert_via_hub)),
      )

  -- the objects are converted one by one, in order
  pub data Converts (desired : String) : List Raw → List T → Type 0 where
    none_left : Converts desired [] []
    one_more :
        {raw : Raw} {t : T} {raws : List Raw} {ts : List T}
        → convert_one s desired raw ≡ ok t
        → Converts desired raws ts
        → Converts desired (raw ∷ raws) (t ∷ ts)

  -- the first object that is not converted fails with this error
  pub data Fails (desired : String) : List Raw → ConversionError E → Type 0 where
    here :
        {raw : Raw} {raws : List Raw} {e : ConversionError E}
        → convert_one s desired raw ≡ err e
        → Fails desired (raw ∷ raws) e
    later :
        {raw : Raw} {t : T} {raws : List Raw} {e : ConversionError E}
        → convert_one s desired raw ≡ ok t
        → Fails desired raws e
        → Fails desired (raw ∷ raws) e

  convert_all-Converts :
      (desired : String) (raws : List Raw) (before : List T)
      → ((ts : List T) × Converts desired raws ts
          × (convert_all s desired raws before ≡ ok (before ++ ts)))
        ⊎ ((e : ConversionError E) × Fails desired raws e
            × (convert_all s desired raws before ≡ err e))
  unfolding convert_all
  convert_all-Converts desired [] before = inl ([], none_left, ap ok (sym (append-nil before)))
  convert_all-Converts desired (raw ∷ raws) before =
      elim (Fallible-cases (convert_one s desired raw)) [
        | inl (t, c) ↦ elim (convert_all-Converts desired raws (before ++ t ∷ [])) [
          | inl (ts, cs, p) ↦ inl (
            t ∷ ts,
            one_more c cs,
            rw (c, convert_all) (p ∙ ap ok (append_assoc before (t ∷ []) ts)),
          )
          | inr (e, f, p) ↦ inr (e, later c f, rw (c, convert_all) p)
        ]
        | inr (e, c) ↦ inr (e, here c, rw (c, convert_all))
      ]

  pub serve_http-request :
      (req : ConversionRequest s)
      → ((ts : List T) × Converts req.desired_api_version req.objects ts
          × (serve_http s (some (some req))
              ≡ review (record { uid = req.uid; converted_objects = ts; failure = none })))
        ⊎ ((e : ConversionError E) × Fails req.desired_api_version req.objects e
            × (serve_http s (some (some req))
                ≡ review (record { uid = req.uid; converted_objects = []; failure = some e })))
  unfolding serve_http
  serve_http-request req = elim (convert_all-Converts req.desired_api_version req.objects []) [
    | inl (ts, c, p) ↦ inl (ts, c, rw (p, serve_http))
    | inr (e, f, p) ↦ inr (e, f, rw (p, serve_http))
  ]

  -- `ServeHTTP` dereferences a nil pointer exactly for a review that decodes and has no request,
  -- although `handleConvertRequest` returns an error for that.
  pub serve_http-nil :
      (r : Option (Option (ConversionRequest s)))
      → (serve_http s r ≡ nil_dereference) ↔ (r ≡ some none)
  unfolding serve_http
  serve_http-nil none = (λ h. cc, λ h. cc)
  serve_http-nil (some none) = (λ h. refl, λ h. refl)
  serve_http-nil (some (some req)) =
      (λ h. elim (serve_http-request req) [ inl (ts, c, p) ↦ cc | inr (e, f, p) ↦ cc ], λ h. cc)
