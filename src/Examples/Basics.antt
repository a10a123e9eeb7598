-- ===== src/Examples/Basics.antt =====
-- Runs of the clock, durations, policies, schemas and values.
use graphrun.Prelude.{
  ℕ, String, ◌≡◌, ◌≢◌, ◌↔◌, refl, true, false, none, List, [], ◌∷◌, ◌++◌, ◌*◌, pos, nat_eq, arith,
  contains, leb, ltb, if◌then◌else◌, u64_max, filter, all,
}
use graphrun.Error.{ok, invalid, ◌>>=◌, or_fail, invalid_argument}
use graphrun.Time.{parse_duration, duration_to_millis, digits_value}
use graphrun.Time.Durations.{parse_duration_exact, hours}
use graphrun.Policy.{forward_default, validate, IsWithinLimits, validate_exact}
use graphrun.Clock.{create, sample, acknowledge, read}
use graphrun.Clock.Latch.{Call, sampled, acknowledged, IsCoherent, sample_latched, calls-IsCoherent}
use graphrun.Clock.Quorum.{joint_quorum, joint_quorum_intersects}
use graphrun.Schema.{SchemaRef, SchemaRefs}
use graphrun.Value.{Value, Values, Fields, Json, to_json, from_json}
use graphrun.Value.RoundTrip.{from_json-to_json, height}
use graphrun.Value.Pointer.{
  escape, unescape_pointer, unescape_pointer-escape, pointer, pointer_field, get_field,
}
use graphrun.Catalog.{require_schema, schema_json}
use graphrun.Catalog.Schemas.{require_schema_exact}
use graphrun.Examples.Claims.{catalog}

-- Five healthy samples, two seconds apart, after a fault of the process before, and between them an
-- acknowledgement that comes too early.
abbrev pub calls : List Call
calls =
    sampled (read 113000 13000) 0 none
    ∷ sampled (read 111000 11000) 0 none
    ∷ sampled (read 109000 9000) 0 none
    ∷ acknowledged false (read 108000 8000) (ok 0) none
    ∷ sampled (read 107000 7000) 0 none
    ∷ sampled (read 105000 5000) 0 none
    ∷ []

sample_latched_example :
    ((sample (create true) (read 105000 5000) 0 none).0.monitor.faulted ≡ true)
    × ((sample (create true) (read 105000 5000) 0 none).1 ≢ ok (105000, 5000))
sample_latched_example =
    sample_latched (create true) (read 105000 5000) 0 none (105000, 5000) (unfold create in refl)

calls-IsCoherent_example :
    IsCoherent (sample (create true) (read 105000 5000) 0 none).0
    × IsCoherent (acknowledge (create true) false (read 105000 5000) (ok 0) none).0
calls-IsCoherent_example =
    calls-IsCoherent (create true) (read 105000 5000) 0 (ok 0) false none
      (unfold create in record { signal = refl; recorded = refl; recorded_fault = refl })

-- The voters move from 1, 2, 3 to 3, 4, 5.
abbrev pub configs : List (List ℕ)
configs = (1 ∷ 2 ∷ 3 ∷ []) ∷ (3 ∷ 4 ∷ 5 ∷ []) ∷ []

quorum_a : joint_quorum configs (1 ∷ 3 ∷ 4 ∷ []) ≡ true
unfolding joint_quorum all filter contains
quorum_a = refl

quorum_b : joint_quorum configs (2 ∷ 3 ∷ 5 ∷ []) ≡ true
unfolding joint_quorum all filter contains
quorum_b = refl

joint_quorum_intersects_example :
    (v : ℕ) × (contains (3 ∷ 4 ∷ 5 ∷ []) v ≡ true)
    × (contains (1 ∷ 3 ∷ 4 ∷ []) v ≡ true)
    × (contains (2 ∷ 3 ∷ 5 ∷ []) v ≡ true)
joint_quorum_intersects_example =
    joint_quorum_intersects configs (1 ∷ 3 ∷ 4 ∷ []) (2 ∷ 3 ∷ 5 ∷ []) 1 (3 ∷ 4 ∷ 5 ∷ []) quorum_a
      quorum_b refl

-- "36h".
parse_duration_exact_example :
    (do dur ← parse_duration (b'3' ∷ b'6' ∷ [] ++ b'h' ∷ []); duration_to_millis dur) ≡ (
      if ltb u64_max (digits_value 0 (b'3' ∷ b'6' ∷ []) * 3600000)
      then invalid "duration is out of range"
      else ok (digits_value 0 (b'3' ∷ b'6' ∷ []) * 3600000))
parse_duration_exact_example =
    parse_duration_exact b'3' (b'6' ∷ []) hours (refl, (refl, tt))
      (unfold digits_value in omega arith) (unfold digits_value in omega arith)

validate_exact_example : (validate forward_default ≡ ok tt) ↔ IsWithinLimits forward_default
validate_exact_example = validate_exact forward_default

abbrev pub pair_schema : SchemaRef
pair_schema =
    SchemaRef.tuple
      (SchemaRefs.cons SchemaRef.integer (SchemaRefs.cons SchemaRef.string SchemaRefs.nil))

require_schema_exact_example :
    (require_schema catalog pair_schema ≡ ok tt)
    ↔ ((j : Json) × (schema_json catalog pair_schema ≡ ok j))
require_schema_exact_example = require_schema_exact catalog pair_schema

abbrev pub order : Value
order =
    Value.object
      (Fields.field "a/b" (Value.array (Values.cons (Value.int (pos 7)) Values.nil)) Fields.end)

from_json-to_json_example :
    from_json (to_json order) 0
    ≡ (if leb (height order) 32 then ok order else invalid "value exceeds maximum nesting depth")
from_json-to_json_example = from_json-to_json order

unescape_pointer-escape_example : unescape_pointer (escape "a/b~1") ≡ "a/b~1"
unescape_pointer-escape_example = unescape_pointer-escape "a/b~1"

pointer_field_example :
    pointer order (String.◌∷◌ "/" (escape "a/b"))
    ≡ or_fail
        (get_field "a/b" (
          Fields.field "a/b" (Value.array (Values.cons (Value.int (pos 7)) Values.nil)) Fields.end))
        invalid_argument
        "missing object field {token} at {path}"
pointer_field_example =
    pointer_field "a/b"
      (Fields.field "a/b" (Value.array (Values.cons (Value.int (pos 7)) Values.nil)) Fields.end)
