-- ===== src/Domain/Tombstones.antt =====
-- graphrun/src/history.rs: references to artifacts, and the tombstone that `append` keeps of every
-- accepted signal; graphrun/src/domain.rs: how `decide_signal` answers from it. `hex::decode` is a
-- parameter. The other entries of `append` are left out, with the errors on the way to them.
use graphrun.Prelude.{
  ℕ, String, ◌≡◌, ◌↔◌, Eq, Bool, true, false, not, ◌&&◌, Option, none, some, List, [], ◌∷◌, ◌++◌,
  ◌==◌, nat_eq, string_eq, arith, length, if◌then◌else◌,
}
use text.Mathlib.TextEquality.{eq_iff}
use graphrun.Map
use graphrun.Error.{Result, ok, err, panic, refuse_if, failed_precondition, ◌>>=◌, ◌>>◌}
use graphrun.Value.{Value, to_json}
use graphrun.Value.Canonical.{canonical_json}
use graphrun.Externals.{Externals, ascii}
use graphrun.Domain.Event.{DomainEvent, event_accepted}
use graphrun.Domain.State.{State}
use graphrun.Domain.Evolve.{evolve, event_owner}

pub record ArtifactRef : Type 0 where
  pub cluster_id : String
  pub format : String
  pub schema : String
  pub byte_len : ℕ
  pub sha256 : String

abbrev pub artifact_ref_beq : ArtifactRef → ArtifactRef → Bool
artifact_ref_beq a b =
    a.cluster_id == b.cluster_id
    && (a.format == b.format
        && (a.schema == b.schema && (a.byte_len == b.byte_len && a.sha256 == b.sha256)))

pub artifact_ref_beq_iff : (a b : ArtifactRef) → (artifact_ref_beq a b ≡ true) ↔ (a ≡ b)
artifact_ref_beq_iff a b = (
  (λ h. ground (
    arith,
    eq_iff a.cluster_id b.cluster_id,
    eq_iff a.format b.format,
    eq_iff a.schema b.schema,
    eq_iff a.sha256 b.sha256,
  )),
  (λ h. ground (
    arith,
    eq_iff a.cluster_id b.cluster_id,
    eq_iff a.format b.format,
    eq_iff a.schema b.schema,
    eq_iff a.sha256 b.sha256,
  )),
)

instance abbrev pub artifact_ref_eq : Eq ArtifactRef
artifact_ref_eq = record { beq = artifact_ref_beq; beq_iff = artifact_ref_beq_iff }

-- A tombstone stands under the text of its run and its event; here under the two ids.
pub record SignalKey : Type 0 where
  pub run : ℕ
  pub event_id : ℕ

abbrev pub signal_key_beq : SignalKey → SignalKey → Bool
signal_key_beq a b = a.run == b.run && a.event_id == b.event_id

pub signal_key_beq_iff : (a b : SignalKey) → (signal_key_beq a b ≡ true) ↔ (a ≡ b)
signal_key_beq_iff a b = ((λ h. ground arith), (λ h. ground arith))

instance abbrev pub signal_key_eq : Eq SignalKey
signal_key_eq = record { beq = signal_key_beq; beq_iff = signal_key_beq_iff }

pub record SignalTombstone : Type 0 where
  pub run : ℕ
  pub event_id : ℕ
  pub signal : String
  pub key : String
  pub payload : ArtifactRef

abbrev pub Tombstones : Type 0
Tombstones = Map.Map SignalKey SignalTombstone

abbrev pub payload_schema : String
payload_schema = "graphrun.signal-payload/v1"

-- The kind that an error takes on the way out.
abbrev pub as_precondition {ℓ} : {A : Type ℓ} → Result A → Result A
as_precondition (ok a) = ok a
as_precondition (err e) = err (record e { kind = failed_precondition })
as_precondition panic = panic

module _ (ext : Externals) (unhex : String → Result (List ℕ)) where
  -- `ClusterId::from_hex`, with the error that `capture_in` makes of its own.
  abbrev pub cluster_from_hex : String → Result (Unit {0})
  cluster_from_hex text = do
    bytes ← as_precondition (unhex text)
    refuse_if (not (length bytes == 16)) failed_precondition "expected 16 bytes"

  -- `capture_in` of a value, under a schema of ASCII characters.
  unfoldable pub capture_in : String → String → Value → Result ArtifactRef
  capture_in cluster_id schema value = do
    refuse_if (cluster_id == "") failed_precondition "artifact origin cluster ID is required"
    cluster_from_hex cluster_id
    bytes ← as_precondition (canonical_json ext.json_text (to_json value))
    ok (record {
      cluster_id = cluster_id;
      format = "graphrun-artifact/v1";
      schema = schema;
      byte_len = length bytes;
      sha256 =
          ext.hex (ext.sha256 (ascii "graphrun-artifact/v1" ++ (0 ∷ ascii schema ++ (0 ∷ bytes))));
    })

  -- The tombstone that `append` keeps of an event.
  unfoldable pub note_signal : String → DomainEvent → Tombstones → Result Tombstones
  unfolding capture_in
  note_signal cluster_id (event_accepted a) tombstones = do
    payload ← capture_in cluster_id payload_schema a.payload
    ok (
        Map.insert (record { run = a.run; event_id = a.event_id })
          (record {
            run = a.run;
            event_id = a.event_id;
            signal = a.signal;
            key = a.key;
            payload = payload;
          })
          tombstones)
  note_signal cluster_id _ tombstones = ok tombstones

  -- `apply_events` with the tombstones that the history keeps.
  unfoldable pub apply_noting :
      String → State → Tombstones → List DomainEvent → Result (State × Tombstones)
  unfolding note_signal
  apply_noting cluster_id s tombstones [] = ok (s, tombstones)
  apply_noting cluster_id s tombstones (e ∷ es) = do
    owner ← event_owner s e
    t ← evolve s e
    noted ← note_signal cluster_id e tombstones
    apply_noting cluster_id t noted es

  -- Whether a signal is the one of a tombstone. Its payload is captured only for the same address.
  abbrev pub same_payload : ArtifactRef → Value → Result Bool
  same_payload existing payload = do
    captured ← capture_in existing.cluster_id payload_schema payload
    ok (existing == captured)

  abbrev pub matches_tombstone : SignalTombstone → String → String → Value → Result Bool
  matches_tombstone existing signal key payload =
      let compared = same_payload existing.payload payload in
      if existing.signal == signal && existing.key == key then compared else ok false

  abbrev pub answer_of : Option SignalTombstone → String → String → Value → Option (Result Bool)
  answer_of none signal key payload = none
  answer_of (some existing) signal key payload =
      some (matches_tombstone existing signal key payload)

  -- What the tombstones say of a signal, where there is one of its event.
  unfoldable pub tombstone_answer :
      Tombstones → ℕ → ℕ → String → String → Value → Option (Result Bool)
  unfolding capture_in
  tombstone_answer tombstones run event_id signal key payload =
      answer_of (Map.get (record { run = run; event_id = event_id }) tombstones) signal key payload
