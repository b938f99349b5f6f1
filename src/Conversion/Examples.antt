-- ===== src/Conversion/Examples.antt =====
-- The conversion webhook of pkg/webhook/conversion/conversion.go for a kind with three versions, of
-- which the second is the hub.
use controller_runtime.Prelude.{ℕ, ◌≡◌, refl, String, Bool, true, not, ◌==◌, string_eq, [], ◌∷◌}
use controller_runtime.Prelude.Fallible.{ok, ◌>>=◌, map_err}
use controller_runtime.Schema.{GroupVersionKind}
use controller_runtime.Conversion.{
  Types, convert_object, to_hub_failed, from_hub_failed, type_is_convertible, object_gvks,
  count_roles, ConversionRequest,
}
use controller_runtime.Conversion.Laws.{convert_object-spokes}

abbrev cart_kind : String → GroupVersionKind
cart_kind version = record { group = "shop"; version = version; kind = "Cart" }

-- a cart with a number of things in it
abbrev Cart : Type 0
Cart = GroupVersionKind × ℕ

abbrev is_hub_version : Cart → Bool
is_hub_version c = c.0.version == "v2"

abbrev carts : Types Cart String Cart
carts = record {
  kind_of = λ c. c.0;
  is_hub = is_hub_version;
  is_convertible = λ c. not (is_hub_version c);
  convert_to = λ src hub. ok (hub.0, src.1);
  convert_from = λ dst hub. ok (dst.0, hub.1);
  object_kinds = λ c. ok (c.0 ∷ []);
  known_types = cart_kind "v1" ∷ cart_kind "v2" ∷ cart_kind "v3" ∷ [];
  new = λ k. ok (k, 0);
  decode = λ raw. ok (raw, raw.0);
  from_api_version = λ version kind. record { group = "shop"; version = version; kind = kind };
  set_type = λ c version kind. ok c;
}

abbrev old_cart : Cart
old_cart = (cart_kind "v1", 5)

abbrev new_cart : Cart
new_cart = (cart_kind "v3", 0)

carts_convert : type_is_convertible carts old_cart ≡ ok true
unfolding type_is_convertible object_gvks count_roles
carts_convert = refl

convert_object-spokes_example :
    (hub : Cart) × (is_hub_version hub ≡ true)
    × (convert_object carts old_cart new_cart ≡ (do
      hub' ← map_err to_hub_failed (carts.convert_to old_cart hub)
      map_err from_hub_failed (carts.convert_from new_cart hub')))
convert_object-spokes_example =
    convert_object-spokes carts old_cart new_cart refl refl refl refl refl refl carts_convert

abbrev conversion : ConversionRequest carts
conversion = record { uid = "r-1"; desired_api_version = "v3"; objects = old_cart ∷ [] }
