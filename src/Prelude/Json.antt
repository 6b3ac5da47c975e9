-- ===== src/Prelude/Json.antt =====
-- `serde_json::Value`, with its arrays and objects as lists of the block, and what is
-- read of it.
use Prim.Native.Nat.{ℕ}
use Prim.Native.String.{String}
use mathlib.Core.Path.{◌≡◌, refl}
use mathlib.Core.Logic.{inl, inr}
use mathlib.Core.Bool.{Bool, true, not, ◌&&◌}
use mathlib.Core.Option.{Option, none, some}
use mathlib.Core.List.{List, [], ◌∷◌}
use text.Mathlib.Text.{◌==◌}
use vynil.Prelude.Tests.{if◌then◌else◌, is_some, Bool-cases}
use native.Mathlib.Omega.{arith}
use text.Mathlib.TextEquality.{eq_iff}
use text.Mathlib.TextPositions.{eq_refl}

mutual
  pub data Json : Type 0 where
    null : Json
    bool : Bool → Json
    number : ℕ → Json
    string : String → Json
    array : Items → Json
    object : Fields → Json

  pub data Items : Type 0 where
    nil : Items
    cons : Json → Items → Items

  pub data Fields : Type 0 where
    end : Fields
    field : String → Json → Fields → Fields

unfoldable pub lookup_field : String → Fields → Option Json
lookup_field key end = none
lookup_field key (field name value fields) =
    let rest = lookup_field key fields in if name == key then some value else rest

-- `Value::get(key)`, of an object only.
unfoldable pub get : String → Json → Option Json
unfolding lookup_field
get key (object fields) = lookup_field key fields
get key value = none

items_of : Items → List Json
items_of nil = []
items_of (cons value items) = value ∷ items_of items

-- `Value::as_array`, with no items where it is none.
unfoldable pub array_items : Option Json → List Json
unfolding items_of
array_items (some (array items)) = items_of items
array_items value = []

-- `Map::insert`: a key that is there gets the value in its place.
unfoldable pub put_field : String → Json → Fields → Fields
put_field key value end = field key value end
put_field key value (field name held fields) =
    let rest = put_field key value fields in
    if name == key then field key value fields else field name held rest

unfoldable pub as_string : Option Json → Option String
as_string (some (string s)) = some s
as_string value = none

-- Whether a map holds each key once, as every map of the code does.
unfoldable pub has_unique_keys : Fields → Bool
unfolding lookup_field
has_unique_keys end = true
has_unique_keys (field name value fields) =
    not (is_some (lookup_field name fields)) && has_unique_keys fields

pub lookup_field-put_field :
    (key asked : String) (value : Json) (fields : Fields)
    → lookup_field asked (put_field key value fields)
      ≡ (if key == asked then some value else lookup_field asked fields)
unfolding lookup_field put_field
lookup_field-put_field key asked value end = refl
lookup_field-put_field key asked value (field name held fields) = ground (
  arith,
  eq_iff key asked,
  eq_iff name key,
  eq_iff name asked,
  lookup_field-put_field key asked value fields,
)

pub has_unique_keys-put_field :
    (key : String) (value : Json) (fields : Fields)
    → has_unique_keys fields ≡ true
    → has_unique_keys (put_field key value fields) ≡ true
unfolding has_unique_keys put_field lookup_field
has_unique_keys-put_field key value end unique = refl
has_unique_keys-put_field key value (field name held fields) unique =
    elim (Bool-cases (name == key)) [
      | inl same ↦ rw ((eq_iff name key).0 same, eq_refl) (rw ((eq_iff name key).0 same) at unique)
      | inr other ↦
          rw (other, lookup_field-put_field)
            (ground (
              arith,
              unique,
              eq_iff name key,
              eq_iff key name,
              has_unique_keys-put_field key value fields,
            ))
    ]
