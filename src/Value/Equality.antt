-- ===== src/Value/Equality.antt =====
-- The derived `PartialEq` of `Value` in graphrun/src/value.rs.
use graphrun.Prelude.{
  ◌≡◌, ◌↔◌, refl, Bool, true, false, ◌&&◌, Eq, ◌==◌, string_eq, int_eq, int_beq_iff, arith,
}
use graphrun.Value.{Value, Values, Fields}
use text.Mathlib.TextEquality.{eq_iff}

abbrev bool_beq : Bool → Bool → Bool
bool_beq true b = b
bool_beq false true = false
bool_beq false false = true

unfoldable mutual
  pub value_beq : Value → Value → Bool
  value_beq Value.null Value.null = true
  value_beq (Value.bool a) (Value.bool b) = bool_beq a b
  value_beq (Value.int a) (Value.int b) = a == b
  value_beq (Value.string a) (Value.string b) = a == b
  value_beq (Value.array a) (Value.array b) = items_beq a b
  value_beq (Value.object a) (Value.object b) = fields_beq a b
  value_beq _ _ = false

  pub items_beq : Values → Values → Bool
  items_beq Values.nil Values.nil = true
  items_beq (Values.cons a as') (Values.cons b bs) = value_beq a b && items_beq as' bs
  items_beq _ _ = false

  pub fields_beq : Fields → Fields → Bool
  fields_beq Fields.end Fields.end = true
  fields_beq (Fields.field j a as') (Fields.field k b bs) =
      j == k && (value_beq a b && fields_beq as' bs)
  fields_beq _ _ = false

both : (a b : Bool) → (a && b) ≡ true → (a ≡ true) × (b ≡ true)
both a b h = ground arith

mutual
  unfolding value_beq items_beq fields_beq

  value_beq→eq : (a b : Value) → value_beq a b ≡ true → a ≡ b
  value_beq→eq Value.null Value.null h = refl
  value_beq→eq (Value.bool a) (Value.bool b) h = ground arith
  value_beq→eq (Value.int a) (Value.int b) h = cc ((int_beq_iff a b).0 h)
  value_beq→eq (Value.string a) (Value.string b) h = cc ((eq_iff a b).0 h)
  value_beq→eq (Value.array a) (Value.array b) h = cc (items_beq→eq a b h)
  value_beq→eq (Value.object a) (Value.object b) h = cc (fields_beq→eq a b h)
  value_beq→eq _ _ h = cc

  items_beq→eq : (a b : Values) → items_beq a b ≡ true → a ≡ b
  items_beq→eq Values.nil Values.nil h = refl
  items_beq→eq (Values.cons a as') (Values.cons b bs) h =
      let (p, q) = both (value_beq a b) (items_beq as' bs) h in
      cc (value_beq→eq a b p, items_beq→eq as' bs q)
  items_beq→eq _ _ h = cc

  fields_beq→eq : (a b : Fields) → fields_beq a b ≡ true → a ≡ b
  fields_beq→eq Fields.end Fields.end h = refl
  fields_beq→eq (Fields.field j a as') (Fields.field k b bs) h =
      let (p, qr) = both (j == k) (value_beq a b && fields_beq as' bs) h in
      let (q, r) = both (value_beq a b) (fields_beq as' bs) qr in
      cc ((eq_iff j k).0 p, value_beq→eq a b q, fields_beq→eq as' bs r)
  fields_beq→eq _ _ h = cc

mutual
  unfolding value_beq items_beq fields_beq

  value_beq_refl : (a : Value) → value_beq a a ≡ true
  value_beq_refl Value.null = refl
  value_beq_refl (Value.bool a) = ground arith
  value_beq_refl (Value.int a) = (int_beq_iff a a).1 refl
  value_beq_refl (Value.string a) = (eq_iff a a).1 refl
  value_beq_refl (Value.array a) = items_beq_refl a
  value_beq_refl (Value.object a) = fields_beq_refl a

  items_beq_refl : (a : Values) → items_beq a a ≡ true
  items_beq_refl Values.nil = refl
  items_beq_refl (Values.cons a as') = ground (arith, value_beq_refl a, items_beq_refl as')

  fields_beq_refl : (a : Fields) → fields_beq a a ≡ true
  fields_beq_refl Fields.end = refl
  fields_beq_refl (Fields.field k a as') =
      ground (arith, eq_iff k k, value_beq_refl a, fields_beq_refl as')

pub value_beq_iff : (a b : Value) → (value_beq a b ≡ true) ↔ (a ≡ b)
value_beq_iff a b = (value_beq→eq a b, (λ h. rw h (value_beq_refl b)))

instance abbrev pub value_eq : Eq Value
value_eq = record { beq = value_beq; beq_iff = value_beq_iff }
