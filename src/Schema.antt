-- ===== src/Schema.antt =====
-- graphrun/src/schema.rs: references to payload schemas.
use graphrun.Prelude.{ℕ, ◌≡◌, ◌↔◌, String, Bool, true, ◌&&◌, Eq, ◌==◌, nat_eq, string_eq, arith}
use text.Mathlib.TextEquality.{eq_iff}

pub record SchemaKey : Type 0 where
  pub name : String
  pub version : ℕ

abbrev pub schema_key_beq : SchemaKey → SchemaKey → Bool
schema_key_beq a b = a.name == b.name && a.version == b.version

pub schema_key_beq_iff : (a b : SchemaKey) → (schema_key_beq a b ≡ true) ↔ (a ≡ b)
schema_key_beq_iff a b =
    ((λ h. ground (arith, eq_iff a.name b.name)), (λ h. ground (arith, eq_iff a.name b.name)))

instance abbrev pub schema_key_eq : Eq SchemaKey
schema_key_eq = record { beq = schema_key_beq; beq_iff = schema_key_beq_iff }

mutual
  pub data SchemaRef : Type 0 where
    named : SchemaKey → SchemaRef
    array : SchemaRef → SchemaRef
    tuple : SchemaRefs → SchemaRef
    integer string boolean null : SchemaRef

  pub data SchemaRefs : Type 0 where
    nil : SchemaRefs
    cons : SchemaRef → SchemaRefs → SchemaRefs
