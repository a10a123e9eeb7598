-- ===== src/Value/RoundTrip.antt =====
-- graphrun/src/value.rs: a value survives `to_json` and `from_json` exactly within the depth limit.
use graphrun.Prelude.{ℕ, ◌+◌, ◌≤◌, max, ◌≡◌, arith, leb, ltb, if◌then◌else◌, Bool-cases, inl, inr}
use graphrun.Error.{Result, ok, invalid, ◌>>=◌}
use graphrun.Value.{
  Value, Values, Fields, to_json, items_to_json, fields_to_json, from_json, items_from_json,
  fields_from_json, too_deep,
}

-- How deep a value nests: a scalar and an empty container are at depth 0.
unfoldable mutual
  pub height : Value → ℕ
  height (Value.array items) = height_items items
  height (Value.object fields) = height_fields fields
  height _ = 0

  pub height_items : Values → ℕ
  height_items Values.nil = 0
  height_items (Values.cons v vs) = max (height v + 1) (height_items vs)

  pub height_fields : Fields → ℕ
  height_fields Fields.end = 0
  height_fields (Fields.field k v fs) = max (height v + 1) (height_fields fs)

abbrev limited {ℓ} : {A : Type ℓ} → ℕ → A → Result A
limited n a = if leb n 32 then ok a else invalid "value exceeds maximum nesting depth"

-- One container around what was read.
wrapped :
    {X : Type 0} (k : X → Value) (d h : ℕ) (r : Result X) (x : X)
    → (d ≤ 32 → r ≡ limited (d + h) x)
    → too_deep d (do out ← r; ok (k out)) ≡ limited (d + h) (k x)
wrapped k d h r x e = elim (Bool-cases (ltb 32 d)) [
  | inl deep ↦ ground arith
  | inr shallow ↦ rw (shallow, e (ground arith)) (ground arith)
]

pair_limited :
    {X Y Z : Type 0} (k : X → Y → Z) (d a b : ℕ) (x : X) (y : Y)
    → (do u ← limited (d + 1 + a) x; v ← limited (d + b) y; ok (k u v))
      ≡ limited (d + max (a + 1) b) (k x y)
pair_limited k d a b x y = ground arith

mutual
  unfolding to_json items_to_json fields_to_json from_json items_from_json fields_from_json height
      height_items height_fields

  from_json-to_json_at : (v : Value) (d : ℕ) → from_json (to_json v) d ≡ limited (d + height v) v
  from_json-to_json_at Value.null d = ground arith
  from_json-to_json_at (Value.bool b) d = ground arith
  from_json-to_json_at (Value.int n) d = ground arith
  from_json-to_json_at (Value.string s) d = ground arith
  from_json-to_json_at (Value.array items) d =
      wrapped Value.array d (height_items items) _ items (items_at items d)
  from_json-to_json_at (Value.object fields) d =
      wrapped Value.object d (height_fields fields) _ fields (fields_at fields d)

  items_at :
      (vs : Values) (d : ℕ)
      → d ≤ 32
      → items_from_json (items_to_json vs) (d + 1) ≡ limited (d + height_items vs) vs
  items_at Values.nil d h = ground arith
  items_at (Values.cons v vs) d h =
      rw (from_json-to_json_at v (d + 1), items_at vs d h)
        (pair_limited Values.cons d (height v) (height_items vs) v vs)

  fields_at :
      (fs : Fields) (d : ℕ)
      → d ≤ 32
      → fields_from_json (fields_to_json fs) (d + 1) ≡ limited (d + height_fields fs) fs
  fields_at Fields.end d h = ground arith
  fields_at (Fields.field k v fs) d h =
      rw (from_json-to_json_at v (d + 1), fields_at fs d h)
        (pair_limited (Fields.field k) d (height v) (height_fields fs) v fs)

-- Writing a value as JSON and reading it back gives the value, exactly if it nests at most 32 deep;
-- a deeper one is refused.
pub from_json-to_json :
    (v : Value)
    → from_json (to_json v) 0
      ≡ (if leb (height v) 32 then ok v else invalid "value exceeds maximum nesting depth")
from_json-to_json v = ground (arith, from_json-to_json_at v 0)
