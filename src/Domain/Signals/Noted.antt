-- ===== src/Domain/Signals/Noted.antt =====
-- graphrun/src/domain.rs, `decide_signal`, and graphrun/src/history.rs, `append`: the tombstone that the
-- acceptance of a signal leaves.
use graphrun.Prelude.{
  ℕ, String, ◌≡◌, refl, sym, ap, ◌∙◌, true, ◌&&◌, Option, none, some, List, ◌∷◌, ◌==◌, nat_eq,
  string_eq, option_eq, arith, Bool-cases, saturating_add, saturating_mul, inl, inr,
}
use mathlib.Core.Path.{subst}
use text.Mathlib.TextEquality.{eq_iff}
use graphrun.Map
use graphrun.Map.Laws.{get-insert_self}
use graphrun.Error.{Result, ok, refuse_if, >>=-eq-ok}
use graphrun.Limits.{day_ms}
use graphrun.Value.{Value, to_json}
use graphrun.Value.Canonical.{canonical_json}
use graphrun.Externals.{Externals}
use graphrun.Domain.Event.{Acceptance, event_accepted, event_reserved}
use graphrun.Domain.State.{State, RunState, WaitState}
use graphrun.Domain.Sessions.{Decision}
use graphrun.Domain.Evolve.{evolve, event_owner}
use graphrun.Domain.Signals.{accept, reserve, pending_wait}
use graphrun.Domain.Tombstones.{
  ArtifactRef, artifact_ref_eq, SignalKey, signal_key_eq, SignalTombstone, Tombstones,
  payload_schema, as_precondition, cluster_from_hex, capture_in, note_signal, apply_noting,
  same_payload, matches_tombstone,
}

pub ok_injective {ℓ} : {A : Type ℓ} {a b : A} → ok a ≡ ok b → a ≡ b
ok_injective e = cc e

module _ (ext : Externals) (unhex : String → Result (List ℕ)) where
  capture-cluster :
      (cluster_id schema : String) (value : Value) (ref : ArtifactRef)
      → capture_in ext unhex cluster_id schema value ≡ ok ref
      → ref.cluster_id ≡ cluster_id
  unfolding capture_in
  capture-cluster cluster_id schema value ref e =
      let (given, is_given, e1) = >>=-eq-ok (refuse_if (cluster_id == "") _ _) _ {b = ref} e in
      let (known, is_known, e2) =
        >>=-eq-ok (cluster_from_hex ext unhex cluster_id) _ {b = ref} e1 in
      let (bytes, written, e3) =
        >>=-eq-ok (as_precondition (canonical_json ext.json_text (to_json value))) _ {b = ref} e2 in
      let same = ok_injective e3 in sym (ap (λ x. x.cluster_id) same)

  module _ (run event_id : ℕ) (signal key : String) (payload : Value) where
    abbrev pub the_key : SignalKey
    the_key = record { run = run; event_id = event_id }

    -- There is a tombstone of the event, for this signal and the reference of its payload.
    pub record IsNoted (ts : Tombstones) : Type 0 where
      pub tombstone : SignalTombstone
      pub there : Map.get the_key ts ≡ some tombstone
      pub same_signal : tombstone.signal ≡ signal
      pub same_key : tombstone.key ≡ key
      pub captured :
          capture_in ext unhex tombstone.payload.cluster_id payload_schema payload
          ≡ ok tombstone.payload

    pub matched :
        (x : SignalTombstone)
        → matches_tombstone ext unhex x signal key payload ≡ ok true
        → (x.signal ≡ signal)
          × (x.key ≡ key)
          × (capture_in ext unhex x.payload.cluster_id payload_schema payload ≡ ok x.payload)
    matched x e = elim (Bool-cases (x.signal == signal && x.key == key)) [
      | inr other ↦ ground (arith, other)
      | inl same ↦
          let compared : same_payload ext unhex x.payload payload ≡ ok true =
            ground (arith, same) in
          let (ref, made, e1) =
            >>=-eq-ok (capture_in ext unhex x.payload.cluster_id payload_schema payload) _
              {b = true} compared in
          let hit : (x.payload == ref) ≡ true = ok_injective e1 in
          (
            ground (arith, same, eq_iff x.signal signal),
            ground (arith, same, eq_iff x.key key),
            made ∙ ap ok (sym ((artifact_ref_eq.beq_iff x.payload ref).0 hit)),
          )
    ]

    abbrev pub acceptance : ℕ → ℕ → ℕ → Acceptance
    acceptance sequence accepted_ms expires_ms = record {
      run = run;
      event_id = event_id;
      signal = signal;
      key = key;
      payload = payload;
      sequence = sequence;
      accepted_ms = accepted_ms;
      expires_ms = expires_ms;
    }

    note_signal-IsNoted :
        (cluster_id : String) (sequence accepted_ms expires_ms : ℕ) (ts ts1 : Tombstones)
        → note_signal ext unhex cluster_id
            (event_accepted (acceptance sequence accepted_ms expires_ms))
            ts
          ≡ ok ts1
        → IsNoted ts1
    unfolding note_signal
    note_signal-IsNoted cluster_id sequence accepted_ms expires_ms ts ts1 e =
        let (ref, made, e1) =
          >>=-eq-ok (capture_in ext unhex cluster_id payload_schema payload) _ {b = ts1} e in
        let of_cluster = capture-cluster cluster_id payload_schema payload ref made in
        let tombstone : SignalTombstone = record {
          run = run;
          event_id = event_id;
          signal = signal;
          key = key;
          payload = ref;
        } in
        subst IsNoted (ok_injective e1) (record {
          tombstone = tombstone;
          there = get-insert_self the_key tombstone ts;
          same_signal = refl;
          same_key = refl;
          captured =
              subst (λ c. capture_in ext unhex c payload_schema payload ≡ ok ref) (sym of_cluster)
                made;
        })

    reserve_keeps :
        (cluster_id : String) (s t : State) (ts ts1 : Tombstones) (wait : Option WaitState)
        → apply_noting ext unhex cluster_id s ts (reserve wait event_id) ≡ ok (t, ts1)
        → ts ≡ ts1
    unfolding apply_noting note_signal
    reserve_keeps cluster_id s t ts ts1 none e = ap (λ x. x.1) (ok_injective e)
    reserve_keeps cluster_id s t ts ts1 (some w) e =
        let reserved = event_reserved w.id event_id in
        let (owner, owned, e1) = >>=-eq-ok (event_owner s reserved) _ {b = (t, ts1)} e in
        let (u, evolved, e2) = >>=-eq-ok (evolve s reserved) _ {b = (t, ts1)} e1 in
        ap (λ x. x.1) (ok_injective e2)

    pub accept_shape :
        (s : State) (r : RunState) (time : ℕ) (events : Decision)
        → accept s r run event_id signal key payload time ≡ ok events
        → (expires : ℕ) × (events
            ≡ event_accepted (acceptance r.next_sequence time expires)
              ∷ reserve (pending_wait s run signal key) event_id)
    unfolding accept
    accept_shape s r time events e =
        (saturating_add time (saturating_mul r.policy.unreserved_event_days day_ms), ground arith)

    pub accepted-IsNoted :
        (cluster_id : String) (s t : State) (ts ts1 : Tombstones) (sequence time expires : ℕ)
        (wait : Option WaitState)
        → apply_noting ext unhex cluster_id s ts
            (event_accepted (acceptance sequence time expires) ∷ reserve wait event_id)
          ≡ ok (t, ts1)
        → IsNoted ts1
    unfolding apply_noting
    accepted-IsNoted cluster_id s t ts ts1 sequence time expires wait e =
        let first = event_accepted (acceptance sequence time expires) in
        let (owner, owned, e1) = >>=-eq-ok (event_owner s first) _ {b = (t, ts1)} e in
        let (u, evolved, e2) = >>=-eq-ok (evolve s first) _ {b = (t, ts1)} e1 in
        let (us, noted, e3) =
          >>=-eq-ok (note_signal ext unhex cluster_id first ts) _ {b = (t, ts1)} e2 in
        subst IsNoted (reserve_keeps cluster_id u t us ts1 wait e3)
          (note_signal-IsNoted cluster_id sequence time expires ts us noted)
