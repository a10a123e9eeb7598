-- ===== src/WorkerContract.antt =====
-- graphrun/src/worker_contract.rs: the capability that a worker must hold to run an activity in a
-- role. Digests go over the package's SHA-256 and hexadecimal text.
use graphrun.Prelude.{
  ℕ, String, Bool, true, not, ◌&&◌, some, ◌∷◌, ◌++◌, ◌==◌, nat_eq, option_eq, string_eq,
  if◌then◌else◌, Eq, ◌≡◌, ◌↔◌, arith, refl,
}
use graphrun.Map
use text.Mathlib.TextEquality.{eq_iff}
use graphrun.Error.{Result, ok, invalid, invalid_argument, or_fail, refuse_if, ◌>>=◌, ◌>>◌}
use graphrun.Ids.{
  ExecutionRole, forward, compensation, reconciliation, role_eq, role_beq_iff, ActivityKey,
  activity_key_eq,
}
use graphrun.Schema.{SchemaRef}
use graphrun.Value.{Json}
use graphrun.Value.Canonical.{canonical_json}
use graphrun.Catalog.{Catalog, ReconcilerContract, activity, schema_json}
use graphrun.Externals.{Externals, ascii}
use graphrun.Domain.Event.{WorkerCapability}

abbrev pub codec_version : ℕ
codec_version = 1

abbrev pub protocol_version : ℕ
protocol_version = 1

abbrev pub role_name : ExecutionRole → String
role_name forward = "forward"
role_name compensation = "compensation"
role_name reconciliation = "reconciliation"

unfoldable pub parse_role : String → Result ExecutionRole
parse_role role =
    if role == "forward"
    then ok forward
    else if role == "compensation"
    then ok compensation
    else if role == "reconciliation"
    then ok reconciliation
    else invalid "unknown execution role {role}"

-- Reading the name of a role gives the role back.
parse_role-role_name : (r : ExecutionRole) → parse_role (role_name r) ≡ ok r
unfolding parse_role
parse_role-role_name forward = refl
parse_role-role_name compensation = refl
parse_role-role_name reconciliation = refl

unfoldable pub reconciler_of : Catalog → ActivityKey → String → Result ReconcilerContract
reconciler_of catalog key message =
    or_fail (Map.get key catalog.reconcilers) invalid_argument message

-- The activity whose schemas a role works on: a reconciler's is its forward activity.
unfoldable pub schema_owner : Catalog → ActivityKey → ExecutionRole → Result ActivityKey
unfolding reconciler_of
schema_owner catalog key reconciliation = do
  r ← reconciler_of catalog key "unknown reconciler {}"
  ok r.forward
schema_owner catalog key _ = ok key

unfoldable pub contract_schemas :
    Catalog → ActivityKey → ExecutionRole → Result (SchemaRef × SchemaRef)
unfolding schema_owner
contract_schemas catalog key role = do
  owner ← schema_owner catalog key role
  contract ← activity catalog owner
  ok (contract.input_schema, contract.output_schema)

module _ (ext : Externals) where
  unfoldable pub digest : String → Json → Result String
  digest domain value = do
    bytes ← canonical_json ext.json_text value
    ok (ext.hex (ext.sha256 (ascii domain ++ (0 ∷ bytes))))

  unfoldable pub contract_json : Catalog → ActivityKey → ExecutionRole → Result Json
  unfolding reconciler_of
  contract_json catalog key reconciliation = do
    recon ← reconciler_of catalog key "unknown reconciliation contract"
    contract ← activity catalog recon.forward
    refuse_if (not (contract.reconciler == some key)) invalid_argument
        "reconciler is not bound to its forward contract"
    ok (ext.bound_json contract recon)
  contract_json catalog key _ = do contract ← activity catalog key; ok (ext.activity_json contract)

  unfoldable pub capability_for : Catalog → ActivityKey → ExecutionRole → Result WorkerCapability
  unfolding contract_schemas contract_json digest
  capability_for catalog key role = do
    (input, output) ← contract_schemas catalog key role
    contract ← contract_json catalog key role
    input_json ← schema_json catalog input
    input_digest ← digest "graphrun.worker-schema/v1" input_json
    output_json ← schema_json catalog output
    output_digest ← digest "graphrun.worker-schema/v1" output_json
    contract_digest ← digest "graphrun.worker-contract/v1" contract
    ok (record {
      activity_name = key.name;
      activity_version = key.version;
      role = role;
      codec_version = codec_version;
      input_schema_digest = input_digest;
      output_schema_digest = output_digest;
      contract_digest = contract_digest;
    })

-- The derived `PartialEq` of `WorkerCapability`.
abbrev pub capability_beq : WorkerCapability → WorkerCapability → Bool
capability_beq a b =
    a.activity_name == b.activity_name
    && (a.activity_version == b.activity_version
        && (a.role == b.role
            && (a.codec_version == b.codec_version
                && (a.input_schema_digest == b.input_schema_digest
                    && (a.output_schema_digest == b.output_schema_digest
                        && a.contract_digest == b.contract_digest)))))

pub capability_beq_iff : (a b : WorkerCapability) → (capability_beq a b ≡ true) ↔ (a ≡ b)
capability_beq_iff a b = (
  (λ h. ground (
    arith,
    role_beq_iff a.role b.role,
    eq_iff a.activity_name b.activity_name,
    eq_iff a.input_schema_digest b.input_schema_digest,
    eq_iff a.output_schema_digest b.output_schema_digest,
    eq_iff a.contract_digest b.contract_digest,
  )),
  (λ h. ground (
    arith,
    role_beq_iff a.role b.role,
    eq_iff a.activity_name b.activity_name,
    eq_iff a.input_schema_digest b.input_schema_digest,
    eq_iff a.output_schema_digest b.output_schema_digest,
    eq_iff a.contract_digest b.contract_digest,
  )),
)

instance abbrev pub capability_eq : Eq WorkerCapability
capability_eq = record { beq = capability_beq; beq_iff = capability_beq_iff }
