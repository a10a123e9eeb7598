-- ===== src/Examples/SignalRuns.antt =====
-- A signal that is accepted, and what is answered to the same event id afterwards.
use graphrun.Prelude.{ℕ, String, ◌≡◌, refl, List, [], ◌∷◌, pos, nat_eq, string_eq, filter, find}
use graphrun.Map
use graphrun.Error.{Result, ok}
use graphrun.Value.{Value, to_json}
use graphrun.Value.Canonical.{canonical_json, write_canonical, integer_text, decimal}
use graphrun.Schema.{SchemaRef}
use graphrun.Domain.Event.{DomainEvent, event_accepted}
use graphrun.Domain.State.{State, RunState}
use graphrun.Domain.Evolve.{evolve, event_owner}
use graphrun.Domain.Tombstones.{
  ArtifactRef, Tombstones, payload_schema, capture_in, note_signal, apply_noting, tombstone_answer,
}
use graphrun.Domain.Evolve.Waits.{accept_event}
use graphrun.Domain.Signals.{decide_signal, decide_known, accept, pending_wait}
use graphrun.Domain.Signals.Covered.{IsCovered, apply_noting-IsCovered}
use graphrun.Domain.Signals.Once.{answered_by, decide_signal_once}
use graphrun.Examples.Claims.{ext, idle, run}

abbrev pub name : String
name = "paid"

abbrev pub address : String
address = "k"

abbrev pub five : Value
five = Value.int (pos 5)

abbrev pub six : Value
six = Value.int (pos 6)

abbrev pub hearing : RunState
hearing = record run {
  definition = record run.definition { signals = ("paid", SchemaRef.integer) ∷ [] };
}

abbrev pub listening : State
listening = record idle { runs = (1, hearing) ∷ [] }

abbrev pub paid : List DomainEvent
paid =
    event_accepted (record {
      run = 1;
      event_id = 77;
      signal = "paid";
      key = "k";
      payload = Value.int (pos 5);
      sequence = 0;
      accepted_ms = 1000;
      expires_ms = 604801000;
    })
    ∷ []

abbrev pub heard : State
heard = accept_event listening (record {
  run = 1;
  event_id = 77;
  signal = "paid";
  key = "k";
  payload = Value.int (pos 5);
  sequence = 0;
  accepted_ms = 1000;
  expires_ms = 604801000;
})

-- Every text of the example is a cluster's id.
abbrev pub unhex : String → Result (List ℕ)
unhex text = ok (1 ∷ 2 ∷ 3 ∷ 4 ∷ 5 ∷ 6 ∷ 7 ∷ 8 ∷ 9 ∷ 10 ∷ 11 ∷ 12 ∷ 13 ∷ 14 ∷ 15 ∷ 16 ∷ [])

abbrev pub five_ref : ArtifactRef
five_ref = record {
  cluster_id = "c1";
  format = "graphrun-artifact/v1";
  schema = "graphrun.signal-payload/v1";
  byte_len = 1;
  sha256 = "00";
}

abbrev pub noted : Tombstones
noted =
    (
      record { run = 1; event_id = 77 },
      record { run = 1; event_id = 77; signal = "paid"; key = "k"; payload = five_ref },
    )
    ∷ []

the_signal :
    decide_signal listening
      (tombstone_answer ext unhex [] 1 77 name address five)
      1
      77
      name
      address
      five
      1000
    ≡ ok paid
unfolding decide_signal decide_known accept pending_wait tombstone_answer Map.get Map.contains_key
    Map.values filter find
the_signal = refl

the_hearing : apply_noting ext unhex "c1" listening [] paid ≡ ok (heard, noted)
unfolding apply_noting note_signal capture_in canonical_json write_canonical integer_text decimal
    to_json evolve event_owner Map.insert
the_hearing = refl

unheard : IsCovered listening []
unheard = tt

apply_noting-IsCovered_example : IsCovered heard noted
apply_noting-IsCovered_example =
    apply_noting-IsCovered ext unhex "c1" listening heard [] noted paid unheard the_hearing

decide_signal_once_example :
    (reference : ArtifactRef) × (capture_in ext unhex reference.cluster_id payload_schema five
      ≡ ok reference)
    × (decide_signal heard
          (tombstone_answer ext unhex noted 1 77 name address six)
          1
          77
          name
          address
          six
          2000
        ≡ answered_by ext unhex name address reference name address six)
decide_signal_once_example =
    decide_signal_once ext unhex "c1" listening heard [] noted 1 77 name address five 1000 paid name
      address six 2000 unheard the_signal the_hearing
