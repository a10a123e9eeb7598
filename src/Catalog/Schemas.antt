-- ===== src/Catalog/Schemas.antt =====
-- graphrun/src/catalog.rs: `require_schema` against `schema_json`.
use graphrun.Prelude.{◌≡◌, ◌↔◌, refl, arith, Option-cases, inl, inr}
use graphrun.Map
use graphrun.Error.{Result, ok, ◌>>=◌, >>=-eq-ok}
use graphrun.Schema.{SchemaRef, SchemaRefs, schema_key_eq}
use graphrun.Value.{Json, JsonItems}
use graphrun.Catalog.{
  Catalog, schema_json, schemas_json, require_schema, require_schemas, typed, array_of,
}

-- What a reference resolves to.
abbrev Resolves {ℓ} : {A : Type ℓ} → Result A → Type ℓ
Resolves {A = A} r = (a : A) × (r ≡ ok a)

mutual
  unfolding schema_json schemas_json require_schema require_schemas Map.contains_key

  require_schema-Resolves :
      (c : Catalog) (s : SchemaRef) → require_schema c s ≡ ok tt → Resolves (schema_json c s)
  require_schema-Resolves c (SchemaRef.named key) h = elim (Option-cases (Map.get key c.schemas)) [
    | inl missing ↦ ground arith
    | inr (j, found) ↦ (j, rw found refl)
  ]
  require_schema-Resolves c (SchemaRef.array element) h =
      let (j, e) = require_schema-Resolves c element h in (array_of j, rw e refl)
  require_schema-Resolves c (SchemaRef.tuple elements) h =
      let (j, e) = all_resolve c elements h in (array_of (Json.array j), rw e refl)
  require_schema-Resolves c SchemaRef.integer h = (typed "integer", refl)
  require_schema-Resolves c SchemaRef.string h = (typed "string", refl)
  require_schema-Resolves c SchemaRef.boolean h = (typed "boolean", refl)
  require_schema-Resolves c SchemaRef.null h = (typed "null", refl)

  all_resolve :
      (c : Catalog) (ss : SchemaRefs) → require_schemas c ss ≡ ok tt → Resolves (schemas_json c ss)
  all_resolve c SchemaRefs.nil h = (JsonItems.nil, refl)
  all_resolve c (SchemaRefs.cons s ss) h =
      let (u, hs, hss) = >>=-eq-ok (require_schema c s) (λ _. require_schemas c ss) h in
      let (j, e) = require_schema-Resolves c s hs in
      let (js, es) = all_resolve c ss hss in (JsonItems.cons j js, rw (e, es) refl)

mutual
  unfolding schema_json schemas_json require_schema require_schemas Map.contains_key

  required_of_resolves :
      (c : Catalog) (s : SchemaRef) (j : Json) → schema_json c s ≡ ok j → require_schema c s ≡ ok tt
  required_of_resolves c (SchemaRef.named key) j h = ground arith
  required_of_resolves c (SchemaRef.array element) j h =
      let (i, e, r) = >>=-eq-ok (schema_json c element) (λ items. ok (array_of items)) h in
      required_of_resolves c element i e
  required_of_resolves c (SchemaRef.tuple elements) j h =
      let (i, e, r) =
        >>=-eq-ok (schemas_json c elements) (λ items. ok (array_of (Json.array items))) h in
      all_required c elements i e
  required_of_resolves c SchemaRef.integer j h = refl
  required_of_resolves c SchemaRef.string j h = refl
  required_of_resolves c SchemaRef.boolean j h = refl
  required_of_resolves c SchemaRef.null j h = refl

  all_required :
      (c : Catalog) (ss : SchemaRefs) (js : JsonItems)
      → schemas_json c ss ≡ ok js
      → require_schemas c ss ≡ ok tt
  all_required c SchemaRefs.nil js h = refl
  all_required c (SchemaRefs.cons s ss) js h =
      let (x, ex, rest) =
        >>=-eq-ok (schema_json c s) (λ x. do xs ← schemas_json c ss; ok (JsonItems.cons x xs)) h in
      let (xs, exs, last) = >>=-eq-ok (schemas_json c ss) (λ xs. ok (JsonItems.cons x xs)) rest in
      cc (required_of_resolves c s x ex, all_required c ss xs exs)

-- `require_schema` accepts a reference exactly when `schema_json` resolves it.
pub require_schema_exact :
    (c : Catalog) (s : SchemaRef)
    → (require_schema c s ≡ ok tt) ↔ ((j : Json) × (schema_json c s ≡ ok j))
require_schema_exact c s = (require_schema-Resolves c s, (λ r. required_of_resolves c s r.0 r.1))
