-- ===== src/Domain/Signals/Once.antt =====
-- graphrun/src/domain.rs, `decide_signal`, and graphrun/src/history.rs, `append`: a signal is accepted
-- once under its event id, by the tombstone that its acceptance leaves.
use graphrun.Prelude.{
  ℕ, String, ◌≡◌, refl, sym, ap, ◌∙◌, ◌&&◌, Option, none, some, List, [], ◌==◌, nat_eq, string_eq,
  option_eq, arith, if◌then◌else◌, find, Bool-cases, Option-cases, inl, inr,
}
use mathlib.Core.Path.{subst}
use graphrun.Map
use graphrun.Error.{Result, ok, err, panic, or_fail, already_exists, ◌>>=◌, >>=-eq-ok}
use graphrun.Value.{Value}
use graphrun.Externals.{Externals}
use graphrun.Domain.State.{State}
use graphrun.Domain.Sessions.{Decision}
use graphrun.Domain.Evolve.Waits.{is_event}
use graphrun.Domain.Signals.{decide_signal, decide_known, accept, conflict, pending_wait}
use graphrun.Domain.Tombstones.{
  ArtifactRef, artifact_ref_eq, signal_key_eq, SignalTombstone, Tombstones, payload_schema,
  capture_in, apply_noting, matches_tombstone, answer_of, tombstone_answer,
}
use graphrun.Domain.Signals.Covered.{IsCovered, unnoted_fresh}
use graphrun.Domain.Signals.Noted.{
  ok_injective, the_key, IsNoted, matched, accept_shape, accepted-IsNoted,
}

-- The refusal of another signal under a known event id.
abbrev pub payload_conflict : Result Decision
payload_conflict = err (record { kind = already_exists; message = "event id payload conflict" })

module _ (ext : Externals) (unhex : String → Result (List ℕ)) where
  module _ (run event_id : ℕ) (signal key : String) (payload : Value) where
    abbrev Noted : Tombstones → Type 0
    Noted ts = IsNoted ext unhex run event_id signal key payload ts

    -- The answer to the signal with what is known of its event.
    abbrev answers_as : State → Option SignalTombstone → ℕ → Result Decision
    answers_as s o time =
        decide_signal s (answer_of ext unhex o signal key payload) run event_id signal key payload
          time

    module _ (cluster_id : String) (s t : State) (ts ts1 : Tombstones) (time : ℕ)
        (events : Decision)
        (applied : apply_noting ext unhex cluster_id s ts events ≡ ok (t, ts1)) where
      known-IsNoted :
          (x : SignalTombstone)
          → Map.get (the_key ext unhex run event_id signal key payload) ts ≡ some x
          → decide_signal s
              (some (matches_tombstone ext unhex x signal key payload))
              run
              event_id
              signal
              key
              payload
              time
            ≡ ok events
          → Noted ts1
      unfolding decide_signal apply_noting
      known-IsNoted x there e =
          let (hit, matches, e1) =
            >>=-eq-ok (matches_tombstone ext unhex x signal key payload) _ {b = events} e in
          elim (Bool-cases hit) [
            | inr differs ↦ ground (arith, e1, differs)
            | inl same ↦
                let (same_signal, same_key, captured) =
                  matched ext unhex run event_id signal key payload x (matches ∙ ap ok same) in
                let none_left : events ≡ [] =
                  sym (ok_injective (subst (λ b. conflict b ≡ ok events) same e1)) in
                let kept : ok (s, ts) ≡ ok (t, ts1) =
                  subst (λ es. apply_noting ext unhex cluster_id s ts es ≡ ok (t, ts1)) none_left
                    applied in
                subst Noted (ap (λ p. p.1) (ok_injective kept)) (record {
                  tombstone = x;
                  there = there;
                  same_signal = same_signal;
                  same_key = same_key;
                  captured = captured;
                })
          ]

      fresh-IsNoted :
          find (is_event (some run) event_id) s.inbox ≡ none
          → decide_signal s none run event_id signal key payload time ≡ ok events
          → Noted ts1
      unfolding decide_signal decide_known
      fresh-IsNoted fresh e =
          let (r, found, e1) = >>=-eq-ok (or_fail (Map.get run s.runs) _ _) _ {b = events} e in
          let accepted : accept s r run event_id signal key payload time ≡ ok events =
            subst (λ o. decide_known s r o run event_id signal key payload time ≡ ok events) fresh
              e1 in
          let (expires, shape) =
            accept_shape ext unhex run event_id signal key payload s r time events accepted in
          accepted-IsNoted ext unhex run event_id signal key payload cluster_id s t ts ts1
            r.next_sequence time expires (pending_wait s run signal key)
            (subst (λ es. apply_noting ext unhex cluster_id s ts es ≡ ok (t, ts1)) shape applied)

      decided-IsNoted :
          (Map.get (the_key ext unhex run event_id signal key payload) ts ≡ none
            → find (is_event (some run) event_id) s.inbox ≡ none)
          → decide_signal s
              (tombstone_answer ext unhex ts run event_id signal key payload)
              run
              event_id
              signal
              key
              payload
              time
            ≡ ok events
          → Noted ts1
      unfolding tombstone_answer
      decided-IsNoted covered e =
          elim (Option-cases (Map.get (the_key ext unhex run event_id signal key payload) ts)) [
            | inl none_yet ↦
                fresh-IsNoted (covered none_yet)
                  (subst (λ o. answers_as s o time ≡ ok events) none_yet e)
            | inr (x, there) ↦
                known-IsNoted x there (subst (λ o. answers_as s o time ≡ ok events) there e)
          ]

  -- The answer to a signal whose event has a tombstone.
  abbrev pub answered_by : String → String → ArtifactRef → String → String → Value → Result Decision
  answered_by signal key reference signal' key' payload' =
      if signal == signal' && key == key'
      then (capture_in ext unhex reference.cluster_id payload_schema payload' >>= λ other.
          if reference == other then ok [] else payload_conflict)
      else payload_conflict

  tombstone_answers :
      (x : SignalTombstone) (signal' key' : String) (payload' : Value)
      → (matches_tombstone ext unhex x signal' key' payload' >>= conflict)
        ≡ answered_by x.signal x.key x.payload signal' key' payload'
  tombstone_answers x signal' key' payload' =
      elim (Bool-cases (x.signal == signal' && x.key == key')) [
        | inr other ↦ rw (other) refl
        | inl same ↦
            rw (same)
              (by_capture (capture_in ext unhex x.payload.cluster_id payload_schema payload'))
      ]
    where
      by_capture :
          (r : Result ArtifactRef)
          → ((r >>= λ captured. ok (x.payload == captured)) >>= conflict)
            ≡ (r >>= λ other. if x.payload == other then ok [] else payload_conflict)
      by_capture (ok captured) = elim (Bool-cases (x.payload == captured)) [
        | inl hit ↦ rw (hit) refl
        | inr miss ↦ rw (miss) refl
      ]
      by_capture (err e) = refl
      by_capture panic = refl

  module _ (run event_id : ℕ) (signal key : String) (payload : Value) where
    known_answer :
        (t : State) (ts : Tombstones) (h : IsNoted ext unhex run event_id signal key payload ts)
        (signal' key' : String) (payload' : Value) (later : ℕ)
        → decide_signal t
            (tombstone_answer ext unhex ts run event_id signal' key' payload')
            run
            event_id
            signal'
            key'
            payload'
            later
          ≡ answered_by signal key h.tombstone.payload signal' key' payload'
    unfolding decide_signal tombstone_answer
    known_answer t ts h signal' key' payload' later = rw (h.there) (
        subst
          (λ (c : String × String).
            (matches_tombstone ext unhex h.tombstone signal' key' payload' >>= conflict)
            ≡ answered_by c.0 c.1 h.tombstone.payload signal' key' payload')
          (cc (h.same_signal, h.same_key)) (tombstone_answers h.tombstone signal' key' payload'))

  -- Where every entry of the inbox that is of a run has a tombstone: once a signal is decided on by
  -- the tombstones and the decided events are applied, with the tombstone that an acceptance leaves,
  -- the payload has a reference such that any signal with the same event id for the same run is
  -- answered by signal, key and reference alone. The same ones are accepted without an event, others
  -- are refused as a conflict, and a payload of the same signal and key that cannot be captured is
  -- an error.
  pub decide_signal_once :
      (cluster_id : String) (s t : State) (ts ts1 : Tombstones) (run event_id : ℕ)
      (signal key : String) (payload : Value) (time : ℕ) (events : Decision) (signal' key' : String)
      (payload' : Value) (later : ℕ)
      → IsCovered s ts
      → decide_signal s
          (tombstone_answer ext unhex ts run event_id signal key payload)
          run
          event_id
          signal
          key
          payload
          time
        ≡ ok events
      → apply_noting ext unhex cluster_id s ts events ≡ ok (t, ts1)
      → (reference : ArtifactRef) × (capture_in ext unhex reference.cluster_id payload_schema
            payload
          ≡ ok reference)
        × (decide_signal t
              (tombstone_answer ext unhex ts1 run event_id signal' key' payload')
              run
              event_id
              signal'
              key'
              payload'
              later
            ≡ answered_by signal key reference signal' key' payload')
  decide_signal_once cluster_id s t ts ts1 run event_id signal key payload time events signal' key'
        payload' later covered e applied =
      let h =
        decided-IsNoted run event_id signal key payload cluster_id s t ts ts1 time events applied
          (unnoted_fresh s ts run event_id covered) e in
      (
        h.tombstone.payload,
        h.captured,
        known_answer run event_id signal key payload t ts1 h signal' key' payload' later,
      )
