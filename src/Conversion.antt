-- ===== src/Conversion.antt =====
-- pkg/webhook/conversion/conversion.go: the conversion webhook. A Kubernetes object is of a type `T`
-- that the user gives, with what Go's type assertions and the methods `ConvertTo` and `ConvertFrom`
-- say of it; the scheme and the decoder are apimachinery's. `E` are the errors of all those. A
-- conversion fills the object that it is called with: the model gives the object afterwards.
pub mod Laws
pub mod Hubs
mod Examples
use controller_runtime.Prelude.{
  ℕ, suc, String, Bool, true, false, not, ◌&&◌, ◌==◌, Option, none, some, List, [], ◌∷◌, ◌++◌,
  if◌then◌else◌, length, leb,
}
use controller_runtime.Prelude.Tests.{◌==◌ as nat_eq}
use controller_runtime.Prelude.Fallible.{Fallible, ok, err, ◌>>=◌, map_err}
use controller_runtime.Schema.{GroupVersionKind, group_kind, group_kind_eq, gvk_eq}

pub data ConversionError (E : Type 0) : Type 0 where
  nil_request different_group same_type not_convertible no_hub multiple_hubs no_kinds not_one_kind :
      ConversionError E
  foreign : E → ConversionError E
  to_hub_failed : E → ConversionError E
  from_hub_failed : E → ConversionError E
  -- `PartialImplementationError`, with how many hubs, other types and spokes there are
  partial_implementation : ℕ → ℕ → ℕ → ConversionError E

pub record Types (T E Raw : Type 0) : Type 0 where
  -- `obj.GetObjectKind().GroupVersionKind()`
  pub kind_of : T → GroupVersionKind
  pub is_hub : T → Bool
  pub is_convertible : T → Bool
  -- `src.ConvertTo(hub)` fills the hub; `dst.ConvertFrom(hub)` fills `dst`
  pub convert_to : T → T → Fallible E T
  pub convert_from : T → T → Fallible E T
  -- `scheme.ObjectKinds`, the keys of `scheme.AllKnownTypes` as Go ranges over them, `scheme.New`
  pub object_kinds : T → Fallible E (List GroupVersionKind)
  pub known_types : List GroupVersionKind
  pub new : GroupVersionKind → Fallible E T
  -- `decoder.Decode`, `schema.FromAPIVersionAndKind`, and the type accessor that sets the two
  pub decode : Raw → Fallible E (T × GroupVersionKind)
  pub from_api_version : String → String → GroupVersionKind
  pub set_type : T → String → String → Fallible E T

module _ {T E Raw : Type 0} (s : Types T E Raw) where
  open s use {
    kind_of, is_hub, is_convertible, convert_to, convert_from, object_kinds, known_types, new,
    decode, from_api_version, set_type,
  }

  abbrev pub same_group_kinds : GroupVersionKind → List GroupVersionKind → List GroupVersionKind
  same_group_kinds k [] = []
  same_group_kinds k (j ∷ js) =
      let rest = same_group_kinds k js in if group_kind k == group_kind j then j ∷ rest else rest

  abbrev pub only_kind : List GroupVersionKind → Fallible (ConversionError E) GroupVersionKind
  only_kind [] = err not_one_kind
  only_kind (k ∷ []) = ok k
  only_kind (k ∷ j ∷ ks) = err not_one_kind

  unfoldable pub object_gvks : T → Fallible (ConversionError E) (List GroupVersionKind)
  object_gvks obj = do
    kinds ← map_err foreign (object_kinds obj)
    kind ← only_kind kinds
    ok (same_group_kinds kind known_types)

  -- the loop of `getHub`, with the hub that was found already
  unfoldable pub find_hub :
      List GroupVersionKind → Option T → Fallible (ConversionError E) (Option T)
  find_hub [] hub = ok hub
  find_hub (k ∷ ks) hub = elim (new k) [
    | err e ↦ err (foreign e)
    | ok instance_ ↦ elim (is_hub instance_) [
      | false ↦ find_hub ks hub
      | true ↦ elim hub [ some h ↦ err multiple_hubs | none ↦ find_hub ks (some instance_) ]
    ]
  ]

  abbrev pub some_kinds :
      List GroupVersionKind → Fallible (ConversionError E) (List GroupVersionKind)
  some_kinds [] = err no_kinds
  some_kinds (k ∷ ks) = ok (k ∷ ks)

  unfoldable pub get_hub : T → Fallible (ConversionError E) (Option T)
  unfolding object_gvks find_hub
  get_hub obj = do gvks ← object_gvks obj; found ← some_kinds gvks; find_hub found none

  abbrev pub hub_or_error : Option T → Fallible (ConversionError E) T
  hub_or_error none = err no_hub
  hub_or_error (some h) = ok h

  unfoldable pub convert_via_hub : T → T → Fallible (ConversionError E) T
  unfolding get_hub
  convert_via_hub src dst = do
    found ← get_hub src
    hub ← hub_or_error found
    hub' ← map_err to_hub_failed (convert_to src hub)
    map_err from_hub_failed (convert_from dst hub')

  -- `convertObject`, which gives `dst` afterwards. In its second case the hub `dst` is filled.
  unfoldable pub convert_object : T → T → Fallible (ConversionError E) T
  unfolding convert_via_hub
  convert_object src dst =
      if not (group_kind (kind_of src) == group_kind (kind_of dst))
      then err different_group
      else if kind_of src == kind_of dst
      then err same_type
      else if is_hub src && is_convertible dst
      then map_err foreign (convert_from dst src)
      else if is_hub dst && is_convertible src
      then map_err foreign (convert_to src dst)
      else if is_convertible src && is_convertible dst
      then convert_via_hub src dst
      else err not_convertible

  unfoldable pub allocate_dst_object : String → String → Fallible (ConversionError E) T
  allocate_dst_object api_version kind = do
    obj ← map_err foreign (new (from_api_version api_version kind))
    map_err foreign (set_type obj api_version kind)

  unfoldable pub convert_one : String → Raw → Fallible (ConversionError E) T
  unfolding allocate_dst_object convert_object
  convert_one desired raw = do
    decoded ← map_err foreign (decode raw)
    dst ← allocate_dst_object desired decoded.1.kind
    convert_object decoded.0 dst

  -- the loop over the objects, with those that are converted already
  unfoldable pub convert_all : String → List Raw → List T → Fallible (ConversionError E) (List T)
  unfolding convert_one
  convert_all desired [] objects = ok objects
  convert_all desired (raw ∷ raws) objects = elim (convert_one desired raw) [
    | err e ↦ err e
    | ok dst ↦ convert_all desired raws (objects ++ dst ∷ [])
  ]

  -- the counts of hubs, of types that are neither, and of spokes; `IsConvertible` collects lists
  pub record Roles : Type 0 where
    pub hubs : ℕ
    pub non_spokes : ℕ
    pub spokes : ℕ

  unfoldable pub count_roles : List GroupVersionKind → Roles → Fallible (ConversionError E) Roles
  count_roles [] r = ok r
  count_roles (k ∷ ks) r = elim (new k) [
    | err e ↦ err (foreign e)
    | ok instance_ ↦ count_roles ks (
        if is_hub instance_
        then record r { hubs = suc r.hubs }
        else if not (is_convertible instance_)
        then record r { non_spokes = suc r.non_spokes }
        else record r { spokes = suc r.spokes })
  ]

  abbrev pub verdict : List GroupVersionKind → Roles → Fallible (ConversionError E) Bool
  verdict gvks r =
      if nat_eq (length gvks) 1
      then ok false
      else if nat_eq r.hubs 0 && nat_eq r.spokes 0
      then ok false
      else if nat_eq r.hubs 1 && nat_eq r.non_spokes 0
      then ok true
      else err (partial_implementation r.hubs r.non_spokes r.spokes)

  -- `IsConvertible`
  unfoldable pub type_is_convertible : T → Fallible (ConversionError E) Bool
  unfolding object_gvks count_roles
  type_is_convertible obj = do
    gvks ← object_gvks obj
    found ← some_kinds gvks
    roles ← count_roles found (record { hubs = 0; non_spokes = 0; spokes = 0 })
    verdict found roles

  -- the parts of an `apix.ConversionReview` that the handler reads and writes
  pub record ConversionRequest : Type 0 where
    pub uid : String
    pub desired_api_version : String
    pub objects : List Raw

  pub record ConversionResponse : Type 0 where
    pub uid : String
    pub converted_objects : List T
    pub failure : Option (ConversionError E)

  unfoldable pub handle_convert_request :
      Option ConversionRequest → Fallible (ConversionError E) ConversionResponse
  unfolding convert_all
  handle_convert_request none = err nil_request
  handle_convert_request (some req) = do
    objects ← convert_all req.desired_api_version req.objects []
    ok (record { uid = req.uid; converted_objects = objects; failure = none })

  abbrev pub errored : ConversionError E → ConversionResponse
  errored e = record { uid = ""; converted_objects = []; failure = some e }

  -- what the client of the HTTP handler gets; `nil_dereference` is a panic
  pub data Reply : Type 0 where
    bad_request nil_dereference : Reply
    review : ConversionResponse → Reply

  -- from `convertReview.Request.UID` on: the request of the review is read, nil or not
  abbrev pub with_uid : Option ConversionRequest → ConversionResponse → Reply
  with_uid none resp = nil_dereference
  with_uid (some req) resp = review (record resp { uid = req.uid })

  -- `ServeHTTP`; `none` where the body does not decode, else the review's request, which may be nil.
  -- Writing the answer is left out.
  unfoldable pub serve_http : Option (Option ConversionRequest) → Reply
  unfolding handle_convert_request
  serve_http none = bad_request
  serve_http (some req) = elim (handle_convert_request req) [
    | err e ↦ with_uid req (errored e)
    | ok resp ↦ with_uid req resp
  ]
