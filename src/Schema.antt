-- ===== src/Schema.antt =====
-- The names of kinds (apimachinery's schema package, by what the code reads of it), and
-- `GVKForObject` of pkg/client/apiutil/apimachinery.go.
use controller_runtime.Prelude.{
  String, ◌≡◌, ◌↔◌, ◌⊎◌, inl, inr, Bool, true, ◌==◌, ◌&&◌, string_eq, Comparable, List, [], ◌∷◌,
  arith, if◌then◌else◌, beq-cases,
}

pub record GroupKind : Type 0 where
  pub group : String
  pub kind : String

pub record GroupVersion : Type 0 where
  pub group : String
  pub version : String

pub record GroupVersionKind : Type 0 where
  pub group : String
  pub version : String
  pub kind : String

abbrev pub group_kind : GroupVersionKind → GroupKind
group_kind k = record { group = k.group; kind = k.kind }

abbrev pub group_kind_beq : GroupKind → GroupKind → Bool
group_kind_beq a b = a.group == b.group && a.kind == b.kind

pub group_kind_beq_iff : (a b : GroupKind) → (group_kind_beq a b ≡ true) ↔ (a ≡ b)
group_kind_beq_iff a b = ground (arith, beq-cases a.group b.group, beq-cases a.kind b.kind)

instance abbrev pub group_kind_eq : Comparable GroupKind
group_kind_eq = record { equal = group_kind_beq; equal_iff = group_kind_beq_iff }

abbrev pub gvk_beq : GroupVersionKind → GroupVersionKind → Bool
gvk_beq a b = a.group == b.group && (a.version == b.version && a.kind == b.kind)

pub gvk_beq_iff : (a b : GroupVersionKind) → (gvk_beq a b ≡ true) ↔ (a ≡ b)
gvk_beq_iff a b =
    ground
      (arith, beq-cases a.group b.group, beq-cases a.version b.version, beq-cases a.kind b.kind)

instance abbrev pub gvk_eq : Comparable GroupVersionKind
gvk_eq = record { equal = gvk_beq; equal_iff = gvk_beq_iff }

-- what `GVKForObject` reads of a runtime.Object: whether it is a PartialObjectMetadata or a list of
-- those, the kind that it carries, and what `scheme.ObjectKinds` says of it (kinds, unversioned)
pub record RuntimeObject (Err : Type 0) : Type 0 where
  pub is_partial : Bool
  pub own_kind : GroupVersionKind
  pub object_kinds : Err ⊎ List GroupVersionKind × Bool

pub data KindError (Err : Type 0) : Type 0 where
  missing_kind missing_version unversioned no_kinds multiple_kinds : KindError Err
  scheme_error : Err → KindError Err

abbrev pub the_one : {Err : Type 0} → List GroupVersionKind → KindError Err ⊎ GroupVersionKind
the_one [] = inl no_kinds
the_one (k ∷ []) = inr k
the_one (k ∷ j ∷ ks) = inl multiple_kinds

unfoldable pub gvk_for_object :
    {Err : Type 0} → RuntimeObject Err → KindError Err ⊎ GroupVersionKind
gvk_for_object obj =
    if obj.is_partial
    then if obj.own_kind.kind == ""
      then inl missing_kind
      else if obj.own_kind.version == ""
      then inl missing_version
      else inr obj.own_kind
    else elim obj.object_kinds [
      | inl err ↦ inl (scheme_error err)
      | inr (kinds, is_unversioned) ↦ if is_unversioned then inl unversioned else the_one kinds
    ]
