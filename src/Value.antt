-- ===== src/Value.antt =====
-- graphrun/src/value.rs: payload values, JSON, and JSON pointers. A `serde_json::Value` has its
-- numbers split into those that are 64-bit integers and the others. Both kinds of object are
-- ordered maps: a copy has the same entries in the same order.
pub mod RoundTrip
pub mod Pointer
pub mod Equality
pub mod Canonical
use graphrun.Prelude.{ℕ, ◌+◌, String, Bool, Option, none, some, ℤ, ltb, if◌then◌else◌}
use graphrun.Error.{Result, ok, err, panic, invalid, ◌>>=◌}

mutual
  pub data Value : Type 0 where
    null : Value
    bool : Bool → Value
    int : ℤ → Value
    string : String → Value
    array : Values → Value
    object : Fields → Value

  pub data Values : Type 0 where
    nil : Values
    cons : Value → Values → Values

  pub data Fields : Type 0 where
    end : Fields
    field : String → Value → Fields → Fields

mutual
  pub data Json : Type 0 where
    null : Json
    bool : Bool → Json
    number : ℤ → Json
    other_number : ℕ → Json
    string : String → Json
    array : JsonItems → Json
    object : JsonFields → Json

  pub data JsonItems : Type 0 where
    nil : JsonItems
    cons : Json → JsonItems → JsonItems

  pub data JsonFields : Type 0 where
    end : JsonFields
    field : String → Json → JsonFields → JsonFields

abbrev pub max_data_depth : ℕ
max_data_depth = 32

unfoldable mutual
  pub to_json : Value → Json
  to_json Value.null = Json.null
  to_json (Value.bool v) = Json.bool v
  to_json (Value.int v) = Json.number v
  to_json (Value.string v) = Json.string v
  to_json (Value.array items) = Json.array (items_to_json items)
  to_json (Value.object fields) = Json.object (fields_to_json fields)

  pub items_to_json : Values → JsonItems
  items_to_json Values.nil = JsonItems.nil
  items_to_json (Values.cons v vs) = JsonItems.cons (to_json v) (items_to_json vs)

  pub fields_to_json : Fields → JsonFields
  fields_to_json Fields.end = JsonFields.end
  fields_to_json (Fields.field k v fs) = JsonFields.field k (to_json v) (fields_to_json fs)

abbrev pub too_deep {ℓ} : {A : Type ℓ} → ℕ → Result A → Result A
too_deep depth r =
    if ltb max_data_depth depth then invalid "value exceeds maximum nesting depth" else r

-- The test on the depth comes first in the source; here each constructor repeats it.
unfoldable mutual
  pub from_json : Json → ℕ → Result Value
  from_json Json.null depth = too_deep depth (ok Value.null)
  from_json (Json.bool v) depth = too_deep depth (ok (Value.bool v))
  from_json (Json.number v) depth = too_deep depth (ok (Value.int v))
  from_json (Json.other_number n) depth =
      too_deep depth (invalid "non-integer number {n} is not supported")
  from_json (Json.string v) depth = too_deep depth (ok (Value.string v))
  from_json (Json.array items) depth =
      too_deep depth (do out ← items_from_json items (depth + 1); ok (Value.array out))
  from_json (Json.object fields) depth =
      too_deep depth (do out ← fields_from_json fields (depth + 1); ok (Value.object out))

  pub items_from_json : JsonItems → ℕ → Result Values
  items_from_json JsonItems.nil depth = ok Values.nil
  items_from_json (JsonItems.cons v vs) depth = do
    x ← from_json v depth
    xs ← items_from_json vs depth
    ok (Values.cons x xs)

  pub fields_from_json : JsonFields → ℕ → Result Fields
  fields_from_json JsonFields.end depth = ok Fields.end
  fields_from_json (JsonFields.field k v fs) depth = do
    x ← from_json v depth
    xs ← fields_from_json fs depth
    ok (Fields.field k x xs)
