-- ===== src/Catalog.antt =====
-- graphrun/src/catalog.rs: activity contracts and schemas. `jsonschema::is_valid` belongs to a
-- package, and is a parameter of what calls it.
pub mod Schemas
use graphrun.Prelude.{
  ℕ, String, not, Bool, true, false, Option, none, some, List, [], ◌∷◌, map, ◌==◌, string_eq,
  if◌then◌else◌, find, filter,
}
use graphrun.Map.{Map}
use graphrun.Map
use graphrun.Error.{
  Result, ok, err, panic, invalid, invalid_argument, or_fail, ◌>>=◌, ◌>>◌, refuse_if,
}
use graphrun.Ids.{ActivityKey, activity_key_eq}
use graphrun.Schema.{SchemaKey, SchemaRef, SchemaRefs, schema_key_eq}
use graphrun.Value.{Value, Json, JsonItems, JsonFields, to_json}

pub data ExecutionKind : Type 0 where
  async blocking : ExecutionKind

pub data EffectKind : Type 0 where
  pure external : EffectKind

pub data Recovery : Type 0 where
  retry_safe manual : Recovery

pub record ErrorCode : Type 0 where
  pub code : String
  pub retryable : Bool

pub record ActivityContract : Type 0 where
  pub key : ActivityKey
  pub input_schema : SchemaRef
  pub output_schema : SchemaRef
  pub execution : ExecutionKind
  pub effects : EffectKind
  pub recovery : Recovery
  pub error_codes : List ErrorCode
  pub reconciler : Option ActivityKey

unfoldable pub retryable_codes : ActivityContract → List String
retryable_codes c = map (λ e. e.code) (filter (λ e. e.retryable) c.error_codes)

unfoldable pub known_code : ActivityContract → String → Option ErrorCode
known_code c code = find (λ e. e.code == code) c.error_codes

pub record ReconcilerContract : Type 0 where
  pub key : ActivityKey
  pub forward : ActivityKey

pub record Catalog : Type 0 where
  pub schemas : Map SchemaKey Json
  pub activities : Map ActivityKey ActivityContract
  pub reconcilers : Map ActivityKey ReconcilerContract

-- `catalog.activity(key)`.
unfoldable pub activity : Catalog → ActivityKey → Result ActivityContract
activity c key = or_fail (Map.get key c.activities) invalid_argument "unknown activity {}/v{}"

abbrev pub typed : String → Json
typed name = Json.object (JsonFields.field "type" (Json.string name) JsonFields.end)

abbrev pub array_of : Json → Json
array_of items =
    Json.object (
      JsonFields.field "items" items (JsonFields.field "type" (Json.string "array") JsonFields.end))

unfoldable mutual
  pub schema_json : Catalog → SchemaRef → Result Json
  schema_json c (SchemaRef.named key) =
      or_fail (Map.get key c.schemas) invalid_argument "unknown schema {key}"
  schema_json c (SchemaRef.array element) = do items ← schema_json c element; ok (array_of items)
  schema_json c (SchemaRef.tuple elements) = do
    items ← schemas_json c elements
    ok (array_of (Json.array items))
  schema_json c SchemaRef.integer = ok (typed "integer")
  schema_json c SchemaRef.string = ok (typed "string")
  schema_json c SchemaRef.boolean = ok (typed "boolean")
  schema_json c SchemaRef.null = ok (typed "null")

  pub schemas_json : Catalog → SchemaRefs → Result JsonItems
  schemas_json c SchemaRefs.nil = ok JsonItems.nil
  schemas_json c (SchemaRefs.cons s ss) = do
    x ← schema_json c s
    xs ← schemas_json c ss
    ok (JsonItems.cons x xs)

-- `require_schema`: every name in the reference is a schema of the catalog.
unfoldable mutual
  pub require_schema : Catalog → SchemaRef → Result (Unit {0})
  require_schema c (SchemaRef.named key) =
      refuse_if (not (Map.contains_key key c.schemas)) invalid_argument "unknown schema {key}"
  require_schema c (SchemaRef.array element) = require_schema c element
  require_schema c (SchemaRef.tuple elements) = require_schemas c elements
  require_schema c _ = ok tt

  pub require_schemas : Catalog → SchemaRefs → Result (Unit {0})
  require_schemas c SchemaRefs.nil = ok tt
  require_schemas c (SchemaRefs.cons s ss) = do require_schema c s; require_schemas c ss

-- `validate_value`, over the package's `is_valid`, which panics if the schema is not valid itself.
unfoldable pub validate_value :
    (Json → Json → Result Bool) → Catalog → SchemaRef → Value → Result (Unit {0})
validate_value is_valid c schema value = do
  json_schema ← schema_json c schema
  matches ← is_valid json_schema (to_json value)
  refuse_if (not matches) invalid_argument "output does not match activity schema"
