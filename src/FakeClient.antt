-- ===== src/FakeClient.antt =====
-- pkg/client/fake/client.go: the tracker that keeps versions, and what the client does with it. The
-- `ObjectTracker` of client-go is a record of its calls, over a state `S`; objects carry a `D` beside
-- their metadata. A character of a name is one byte.
pub mod Numerals
pub mod Names
pub mod Laws
pub mod Histories
mod Examples
use Prim.Native.String.{String, count, ◌++◌ as append}
use controller_runtime.Prelude.{
  not, ℕ, zero, suc, ◌+◌, ◌%◌, ◌^◌, ltb, ◌==◌, string_eq, Bool, true, false, not, ◌&&◌, ◌||◌,
  Option, none, some, List, [], ◌∷◌, contains, if◌then◌else◌,
}
use controller_runtime.Prelude.Fallible.{Fallible, ok, err}
use controller_runtime.Finalizer.{is_zero}
use controller_runtime.Object.{Object}
use controller_runtime.Schema.{GroupVersionKind}
use controller_runtime.FakeClient.Numerals.{parse_uint, format_uint}

-- the kind in the object itself, which may be empty; the metadata; the rest
pub record FakeObject (D : Type 0) : Type 0 where
  pub kind : GroupVersionKind
  pub meta : Object
  pub generate_name : String
  pub content : D

-- the calls take the resource, and a namespace and a name where they need them
pub record Tracker (G D Err S : Type 0) : Type 0 where
  pub get : G → String → String → S → Fallible Err (FakeObject D)
  pub add : FakeObject D → S → S × Option Err
  pub create : G → FakeObject D → String → S → S × Option Err
  pub update : G → FakeObject D → String → S → S × Option Err
  pub delete : G → String → String → S → S × Option Err
  pub is_not_found : Err → Bool

pub data FakeError (Err : Type 0) : Type 0 where
  name_required version_set conflict unparsable : FakeError Err
  foreign : Err → FakeError Err

abbrev pub foreign_of : {Err : Type 0} → Option Err → Option (FakeError Err)
foreign_of none = none
foreign_of (some e) = some (foreign e)

unfoldable pub allows_unconditional_update : GroupVersionKind → Bool
allows_unconditional_update k =
    let of = λ (kinds : List String). contains k.kind kinds in
    if k.group == "apps"
    then of ("ControllerRevision" ∷ "DaemonSet" ∷ "Deployment" ∷ "ReplicaSet" ∷ "StatefulSet" ∷ [])
    else if k.group == "autoscaling"
    then of ("HorizontalPodAutoscaler" ∷ [])
    else if k.group == "batch"
    then of ("CronJob" ∷ "Job" ∷ [])
    else if k.group == "certificates"
    then of ("Certificates" ∷ [])
    else if k.group == "flowcontrol"
    then of ("FlowSchema" ∷ "PriorityLevelConfiguration" ∷ [])
    else if k.group == "networking"
    then of ("Ingress" ∷ "IngressClass" ∷ "NetworkPolicy" ∷ [])
    else if k.group == "policy"
    then of ("PodSecurityPolicy" ∷ [])
    else if k.group == "rbac"
    then of ("ClusterRole" ∷ "ClusterRoleBinding" ∷ "Role" ∷ "RoleBinding" ∷ [])
    else if k.group == "scheduling"
    then of ("PriorityClass" ∷ [])
    else if k.group == "settings"
    then of ("PodPreset" ∷ [])
    else if k.group == "storage"
    then of ("StorageClass" ∷ [])
    else if k.group == ""
    then of (
        "ConfigMap" ∷ "Endpoint" ∷ "Event" ∷ "LimitRange" ∷ "Namespace" ∷ "Node"
        ∷ "PersistentVolume" ∷ "PersistentVolumeClaim" ∷ "Pod" ∷ "PodTemplate"
        ∷ "ReplicationController" ∷ "ResourceQuota" ∷ "Secret" ∷ "Service" ∷ "ServiceAccount"
        ∷ "EndpointSlice" ∷ [])
    else false

unfoldable pub allows_create_on_update : GroupVersionKind → Bool
allows_create_on_update k =
    let of = λ (kinds : List String). contains k.kind kinds in
    if k.group == "coordination"
    then of ("Lease" ∷ [])
    else if k.group == "node"
    then of ("RuntimeClass" ∷ [])
    else if k.group == "rbac"
    then of ("ClusterRole" ∷ "ClusterRoleBinding" ∷ "Role" ∷ "RoleBinding" ∷ [])
    else if k.group == ""
    then of ("Endpoint" ∷ "Event" ∷ "LimitRange" ∷ "Service" ∷ [])
    else false

abbrev pub is_empty_kind : GroupVersionKind → Bool
is_empty_kind k = k.group == "" && (k.version == "" && k.kind == "")

abbrev pub is_some : {A : Type 0} → Option A → Bool
is_some none = false
is_some (some a) = true

abbrev pub is_empty : {A : Type 0} → List A → Bool
is_empty [] = true
is_empty (x ∷ xs) = false

module _ {D : Type 0} where
  -- `accessor.SetResourceVersion`
  abbrev pub with_version : String → FakeObject D → FakeObject D
  with_version v o = record o { meta = record (o.meta) { resource_version = v } }

  abbrev pub with_name : String → FakeObject D → FakeObject D
  with_name n o = record o { meta = record (o.meta) { name = n } }

  abbrev pub with_deletion_timestamp : ℕ → FakeObject D → FakeObject D
  with_deletion_timestamp now o = record o {
    meta = record (o.meta) { deletion_timestamp = some now };
  }

  -- it is being deleted, and nothing holds it back
  abbrev pub is_released : FakeObject D → Bool
  is_released o = not (is_zero o.meta.deletion_timestamp) && is_empty o.meta.finalizers

  -- an object without a version takes the stored one's, for the kinds that allow it
  abbrev pub with_default_version : GroupVersionKind → String → FakeObject D → FakeObject D
  with_default_version gvk version o =
      if o.meta.resource_version == "" && allows_unconditional_update gvk
      then with_version version o
      else o

module _ {G D Err S : Type 0} (k : Tracker G D Err S) where
  -- `versionedTracker.Add`, of the objects of a list or of one object; an item that is no object is
  -- an error
  unfoldable pub tracker_add : List (Fallible Err (FakeObject D)) → S → S × Option (FakeError Err)
  tracker_add [] s = (s, none)
  tracker_add (err e ∷ os) s = (s, some (foreign e))
  tracker_add (ok o ∷ os) s =
      let o' = if o.meta.resource_version == "" then with_version "999" o else o in
      let added = k.add o' s in
      let rest = tracker_add os added.0 in
      elim added.1 [ some e ↦ (added.0, some (foreign e)) | none ↦ rest ]

  -- `versionedTracker.Create`; the object is given as it is afterwards
  unfoldable pub tracker_create :
      G → FakeObject D → String → S → FakeObject D × S × Option (FakeError Err)
  tracker_create gvr obj ns s =
      if obj.meta.name == ""
      then (obj, s, some name_required)
      else if not (obj.meta.resource_version == "")
      then (obj, s, some version_set)
      else let created = k.create gvr (with_version "1" obj) ns s in
        elim created.1 [
          | some e ↦ (with_version "" obj, created.0, some (foreign e))
          | none ↦ (with_version "1" obj, created.0, none)
        ]

  -- what is written in the end: an object that is released is deleted
  unfoldable pub stored : G → FakeObject D → String → S → FakeObject D × S × Option (FakeError Err)
  stored gvr obj ns s =
      let written =
        if is_released obj
        then k.delete gvr obj.meta.namespace obj.meta.name s
        else k.update gvr obj ns s in
      (obj, written.0, foreign_of written.1)

  -- `Update` from the check of the versions on; `version` is the old object's
  unfoldable pub update_over :
      String → G → FakeObject D → String → S → FakeObject D × S × Option (FakeError Err)
  update_over version gvr obj ns s =
      if not (obj.meta.resource_version == version)
      then (obj, s, some conflict)
      else elim (parse_uint (if version == "" then "0" else version)) [
        | none ↦ (obj, s, some unparsable)
        | some n ↦ stored gvr (with_version (format_uint ((n + 1) % 2 ^ 64)) obj) ns s
      ]

  -- `versionedTracker.Update`; `of_scheme` is what `GVKForObject` returns for the object
  unfoldable pub tracker_update :
      Fallible Err GroupVersionKind
      → G
      → FakeObject D
      → String
      → S
      → FakeObject D × S × Option (FakeError Err)
  tracker_update of_scheme gvr obj ns s =
      if obj.meta.name == ""
      then (obj, s, some name_required)
      else elim (if is_empty_kind obj.kind then of_scheme else ok obj.kind) [
        | err e ↦ (obj, s, some (foreign e))
        | ok gvk ↦ elim (k.get gvr ns obj.meta.name s) [
          | err e ↦
              if k.is_not_found e && allows_create_on_update gvk
              then tracker_create gvr obj ns s
              else (obj, s, some (foreign e))
          | ok old ↦
              let version = old.meta.resource_version in
              update_over version gvr (with_default_version gvk version obj) ns s
        ]
      ]

abbrev pub max_name_length : ℕ
max_name_length = 63

abbrev pub random_length : ℕ
random_length = 5

abbrev pub max_generated_name_length : ℕ
max_generated_name_length = 58

-- `base[:n]`
unfoldable pub take_text : ℕ → String → String
take_text zero s = String.[]
take_text (suc n) String.[] = String.[]
take_text (suc n) (String.◌∷◌ c s) = String.◌∷◌ c (take_text n s)

-- the name that is generated, with a random text
unfoldable pub generated_name : String → String → String
generated_name base random =
    let cut = take_text max_generated_name_length base in
    append (if ltb max_generated_name_length (count base) then cut else base) random

module _ {G D Err S : Type 0} (k : Tracker G D Err S) where
  -- `deleteObject`, at the time `now`; `of_stored` is the kind of the object that is stored
  unfoldable pub delete_object :
      ℕ → Fallible Err GroupVersionKind → G → String → String → S → S × Option (FakeError Err)
  delete_object now of_stored gvr ns name s =
      let deleted = k.delete gvr ns name s in
      elim (k.get gvr ns name s) [
        | err e ↦ (deleted.0, foreign_of deleted.1)
        | ok old ↦
            if is_empty old.meta.finalizers
            then (deleted.0, foreign_of deleted.1)
            else let updated =
                tracker_update k of_stored gvr (with_deletion_timestamp now old) ns s in
              (updated.1, updated.2)
      ]

  -- the loop of `DeleteAllOf`
  unfoldable pub delete_all :
      ℕ → Fallible Err GroupVersionKind → G → List (FakeObject D) → S → S × Option (FakeError Err)
  delete_all now of_stored gvr [] s = (s, none)
  delete_all now of_stored gvr (o ∷ os) s =
      let deleted = delete_object now of_stored gvr o.meta.namespace o.meta.name s in
      let rest = delete_all now of_stored gvr os deleted.0 in
      elim deleted.1 [ some e ↦ (deleted.0, some e) | none ↦ rest ]

module _ {G D Err S : Type 0} (k : Tracker G D Err S) (guess : GroupVersionKind → G) where
  -- `Create`; `dry_run` is whether an option asks for `DryRunAll`
  unfoldable pub fake_create :
      Bool
      → String
      → Fallible Err GroupVersionKind
      → FakeObject D
      → S
      → FakeObject D × S × Option (FakeError Err)
  fake_create dry_run random of_scheme obj s = if dry_run then (obj, s, none) else elim of_scheme [
    | err e ↦ (obj, s, some (foreign e))
    | ok gvk ↦
        let named =
          if obj.meta.name == "" && not (obj.generate_name == "")
          then with_name (generated_name obj.generate_name random) obj
          else obj in
        tracker_create k (guess gvk) named named.meta.namespace s
  ]

  -- `Update`
  unfoldable pub fake_update :
      Bool
      → Fallible Err GroupVersionKind
      → FakeObject D
      → S
      → FakeObject D × S × Option (FakeError Err)
  fake_update dry_run of_scheme obj s = if dry_run then (obj, s, none) else elim of_scheme [
    | err e ↦ (obj, s, some (foreign e))
    | ok gvk ↦ tracker_update k (ok gvk) (guess gvk) obj obj.meta.namespace s
  ]

  -- `Delete`
  unfoldable pub fake_delete :
      ℕ → Fallible Err GroupVersionKind → FakeObject D → S → S × Option (FakeError Err)
  fake_delete now of_scheme obj s = elim of_scheme [
    | err e ↦ (s, some (foreign e))
    | ok gvk ↦ delete_object k now (ok gvk) (guess gvk) obj.meta.namespace obj.meta.name s
  ]
