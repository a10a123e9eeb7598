-- ===== src/Domain/Commands/Answers.antt =====
-- graphrun/src/domain.rs: what the receipts answer once a command has been applied.
use graphrun.Prelude.{
  ℕ, String, ◌≡◌, refl, sym, ap, ◌∙◌, Bool, true, Option, none, some, List, ◌∷◌, ◌++◌, ◌==◌, nat_eq,
  string_eq, option_eq, arith, ==_refl, starts_with, starts_with-join_text,
}
use mathlib.Core.Path.{subst}
use graphrun.Map
use graphrun.Map.Laws.{get-insert_self}
use graphrun.Error.{Result, ok, err, panic, ◌>>◌, >>=-eq-ok}
use graphrun.Externals.{Externals, ascii}
use graphrun.Value.Canonical.{canonical_json}
use graphrun.Domain.Event.{DomainEvent}
use graphrun.Domain.State.{State}
use graphrun.Domain.Commands.{Command, Receipts, Machine}
use graphrun.Domain.Commands.Identity.{
  Requests, prepared_for, verify_command_identity, verify_worker_retry, worker_request_digest,
  authenticated_request_digest, authenticated_command_id, request_format, logical,
}
use graphrun.Domain.Commands.Dispatch.{decide}
use graphrun.Domain.Commands.Apply.{
  Cause, with_receipt, record_applied, record_decision, from_receipt, with_worker_digest,
  apply_command_with_actor, apply_each, note_terminal, owners_known, advanced, at_watermark,
}

-- A command with another time.
abbrev pub sent_at : ℕ → Command → Command
sent_at time c = record c { time = time }

-- What the receipts say of the request that an id stands for.
pub record Answers (r : Receipts) (id : ℕ) (actor : Option String) (external_id : ℕ)
    (digest worker_digest : Option String) (events : List DomainEvent) : Type 0 where
  pub receipt : Map.get id r.commands ≡ some events
  pub identity : verify_command_identity r id actor external_id digest ≡ ok tt
  pub retry : verify_worker_retry r id worker_digest ≡ ok tt

module _ (ext : Externals) (rq : Requests) where
  -- A digest is one that a request can have: none without a principal, and of the format with one.
  pub data IsDigest : Option String → Option String → Type 0 where
    anonymous : IsDigest none none
    of_request :
        {actor digest : String}
        → starts_with digest request_format ≡ true
        → IsDigest (some actor) (some digest)

  module _ (m : Machine) (tombstone : Option (Result Bool)) where
    -- With a receipt at hand the command changes nothing and returns what it returned.
    pub answered_again :
        (c : Command) (cause : Cause) (worker_digest : Option String) (events : List DomainEvent)
        → Answers m.receipts c.id cause.actor cause.external_id cause.digest worker_digest events
        → worker_request_digest ext rq c.body ≡ ok worker_digest
        → apply_command_with_actor ext rq m tombstone c cause ≡ (m, ok events)
    unfolding apply_command_with_actor
    answered_again c cause worker_digest events h w =
        rw (w, apply_command_with_actor, h.receipt, h.retry) refl

  abbrev pub caused : Option String → ℕ → Option String → Cause
  caused actor external_id digest = record {
    actor = actor;
    external_id = external_id;
    digest = digest;
  }

  module _ (r : Receipts) (c : Command) (worker_digest : Option String)
      (events : List DomainEvent) where
    receipt_kept :
        (cause : Cause)
        → Map.get c.id (with_receipt r c cause worker_digest events).commands ≡ some events
    unfolding with_receipt
    receipt_kept cause = get-insert_self c.id events r.commands

    retry_kept :
        (cause : Cause)
        → Map.get c.id r.worker_command_digests ≡ none
        → verify_worker_retry (with_receipt r c cause worker_digest events) c.id worker_digest
          ≡ ok tt
    unfolding verify_worker_retry with_receipt
    retry_kept cause w = by_digest worker_digest
      where
        by_digest :
            (o : Option String)
            → verify_worker_retry (with_receipt r c cause o events) c.id o ≡ ok tt
        by_digest none = rw (w) refl
        by_digest (some d) =
            let same : (d == d) ≡ true = ==_refl d in
            rw (get-insert_self c.id d r.worker_command_digests, same) refl

    identity_kept :
        (actor : Option String) (external_id : ℕ) (digest : Option String)
        → IsDigest actor digest
        → Map.get c.id r.commands ≡ none
        → verify_command_identity r c.id actor external_id digest ≡ ok tt
        → verify_command_identity
            (with_receipt r c (caused actor external_id digest) worker_digest events)
            c.id
            actor
            external_id
            digest
          ≡ ok tt
    unfolding verify_command_identity with_receipt Map.contains_key
    identity_kept actor external_id digest anonymous none_yet v =
        ground (arith, none_yet, v, get-insert_self c.id events r.commands)
    identity_kept actor external_id digest (of_request {actor = a} {digest = d} known) none_yet v =
        let by_actor : (some a == some a) ≡ true = ==_refl (some a) in
        let by_id : (some external_id == some external_id) ≡ true = ==_refl (some external_id) in
        let by_digest : (some d == some d) ≡ true = ==_refl (some d) in
        rw
          (
            get-insert_self c.id events r.commands,
            get-insert_self c.id a r.command_actors,
            get-insert_self c.id external_id r.command_external_ids,
            get-insert_self c.id d r.authenticated_request_digests,
            by_actor,
            by_id,
            by_digest,
            known,
          )
          refl

  same_text :
      {x d : String}
      → ok x ≡ ok d
      → starts_with x request_format ≡ true
      → starts_with d request_format ≡ true
  same_text {x} {d} e h =
      let same : x ≡ d = cc e in subst (λ y. starts_with y request_format ≡ true) same h

  of_format :
      (c : Command) (d : String)
      → authenticated_request_digest ext rq c.body ≡ ok d
      → starts_with d request_format ≡ true
  unfolding authenticated_request_digest
  of_format c d e =
      let (bytes, written, done) =
        >>=-eq-ok (canonical_json ext.json_text (logical ext rq c.body).0) _ {b = d} e in
      same_text done (
        starts_with-join_text request_format (
          ext.hex (
            ext.sha256 (
              ascii "graphrun.authenticated-request/v1"
              ++ (0 ∷ ascii (logical ext rq c.body).1 ++ (0 ∷ bytes))))))

  pub IsDigest-of :
      (r : Receipts) (c p : Command) (actor digest : Option String)
      → prepared_for ext rq r c actor ≡ ok (p, digest)
      → IsDigest actor digest
  IsDigest-of r c p none digest e =
      let same : none ≡ digest = cc e in subst (IsDigest none) same anonymous
  IsDigest-of r c p (some a) digest e =
      let (d, made, e1) =
        >>=-eq-ok (authenticated_request_digest ext rq c.body) _ {b = (p, digest)} e in
      let (id, found, e2) =
        >>=-eq-ok (authenticated_command_id ext rq a c.id) _ {b = (p, digest)} e1 in
      let same : some d ≡ digest = cc e2 in
      subst (IsDigest (some a)) same (of_request (of_format c d made))

  pub later_prepared :
      (r r1 : Receipts) (c p : Command) (actor digest : Option String) (time : ℕ)
      → prepared_for ext rq r c actor ≡ ok (p, digest)
      → prepared_for ext rq r1 (sent_at time c) actor ≡ ok (sent_at time p, digest)
  later_prepared r r1 c p none digest time e = cc e
  later_prepared r r1 c p (some a) digest time e =
      let (d, made, e1) =
        >>=-eq-ok (authenticated_request_digest ext rq c.body) _ {b = (p, digest)} e in
      let (id, found, e2) =
        >>=-eq-ok (authenticated_command_id ext rq a c.id) _ {b = (p, digest)} e1 in
      rw (made, found) (cc e2)

  -- An application that succeeds leaves an answer for its request.
  module _ (m m1 : Machine) (tombstone : Option (Result Bool)) (events : List DomainEvent) where
    abbrev after : Command → Cause → Option String → List DomainEvent → Receipts
    after c cause wd es =
        with_receipt (advanced ext rq m tombstone c).receipts (at_watermark ext rq m tombstone c)
          cause wd es

    applied_receipts :
        (c : Command) (cause : Cause) (wd : Option String) (es : List DomainEvent)
        (a : State × Result (Unit {0}))
        → record_applied ext rq m tombstone c cause wd es a ≡ (m1, ok events)
        → m1.receipts ≡ after c cause wd events
    applied_receipts c cause wd es (s, ok passed) e =
        let returned : (owners_known (note_terminal (at_watermark ext rq m tombstone c).time es s)
                es
              >> ok es)
            ≡ ok events =
          ap (λ x. x.1) e in
        let (known, checked, done) =
          >>=-eq-ok (owners_known (note_terminal (at_watermark ext rq m tombstone c).time es s) es)
            _ {b = events} returned in
        let same : es ≡ events = cc done in
        sym (ap (λ x. x.0.receipts) e) ∙ ap (after c cause wd) same
    applied_receipts c cause wd es (s, err failure) e =
        let clash : err failure ≡ ok events = ap (λ x. x.1) e in cc clash
    applied_receipts c cause wd es (s, panic) e =
        let clash : panic ≡ ok events = ap (λ x. x.1) e in cc clash

    decided_receipts :
        (c : Command) (cause : Cause) (wd : Option String) (d : Result (List DomainEvent))
        → record_decision ext rq m tombstone c cause wd d ≡ (m1, ok events)
        → m1.receipts ≡ after c cause wd events
    decided_receipts c cause wd (ok es) e = applied_receipts c cause wd es (apply_each m.state es) e
    decided_receipts c cause wd (err failure) e =
        let clash : err failure ≡ ok events = ap (λ x. x.1) e in cc clash
    decided_receipts c cause wd panic e =
        let clash : panic ≡ ok events = ap (λ x. x.1) e in cc clash

    abbrev AnswersIt : Command → Cause → Option String → Receipts → Type 0
    AnswersIt c cause wd r = Answers r c.id cause.actor cause.external_id cause.digest wd events

    answers_new :
        (c : Command) (actor : Option String) (external_id : ℕ) (digest wd : Option String)
        → IsDigest actor digest
        → Map.get c.id m.receipts.commands ≡ none
        → Map.get c.id m.receipts.worker_command_digests ≡ none
        → verify_command_identity m.receipts c.id actor external_id digest ≡ ok tt
        → from_receipt ext rq m tombstone c (caused actor external_id digest) wd none
          ≡ (m1, ok events)
        → AnswersIt c (caused actor external_id digest) wd m1.receipts
    answers_new c actor external_id digest wd d fresh unused v e =
        let cause = caused actor external_id digest in
        let r = (advanced ext rq m tombstone c).receipts in
        let at = at_watermark ext rq m tombstone c in
        let reached =
          decided_receipts c cause wd (decide ext (advanced ext rq m tombstone c) tombstone at) e in
        subst (AnswersIt c cause wd) (sym reached) (record {
          receipt = receipt_kept r at wd events cause;
          identity =
              identity_kept r at wd events actor external_id digest d fresh
                (unfold verify_command_identity in v);
          retry = retry_kept r at wd events cause unused;
        })

    answers_old :
        (c : Command) (cause : Cause) (wd : Option String) (es : List DomainEvent)
        → Map.get c.id m.receipts.commands ≡ some es
        → verify_command_identity m.receipts c.id cause.actor cause.external_id cause.digest ≡ ok tt
        → from_receipt ext rq m tombstone c cause wd (some es) ≡ (m1, ok events)
        → AnswersIt c cause wd m1.receipts
    answers_old c cause wd es found v e =
        let returned : (verify_worker_retry m.receipts c.id wd >> ok es) ≡ ok events =
          ap (λ x. x.1) e in
        let (passed, retried, done) =
          >>=-eq-ok (verify_worker_retry m.receipts c.id wd) _ {b = events} returned in
        let same : es ≡ events = cc done in
        let unchanged : m ≡ m1 = ap (λ x. x.0) e in
        subst (λ x. AnswersIt c cause wd x.receipts) unchanged
          (record { receipt = cc (found, same); identity = v; retry = retried })

    pub answers :
        (c : Command) (actor : Option String) (external_id : ℕ) (digest : Option String)
        → IsDigest actor digest
        → (Map.get c.id m.receipts.commands ≡ none
            → Map.get c.id m.receipts.worker_command_digests ≡ none)
        → verify_command_identity m.receipts c.id actor external_id digest ≡ ok tt
        → apply_command_with_actor ext rq m tombstone c (caused actor external_id digest)
          ≡ (m1, ok events)
        → (wd : Option String) × (worker_request_digest ext rq c.body ≡ ok wd)
          × AnswersIt c (caused actor external_id digest) wd m1.receipts
    unfolding apply_command_with_actor
    answers c actor external_id digest d unused v e =
        by_digest (worker_request_digest ext rq c.body) refl e
      where
        by_receipt :
            (wd : Option String) (o : Option (List DomainEvent))
            → Map.get c.id m.receipts.commands ≡ o
            → from_receipt ext rq m tombstone c (caused actor external_id digest) wd o
              ≡ (m1, ok events)
            → AnswersIt c (caused actor external_id digest) wd m1.receipts
        by_receipt wd none found e =
            answers_new c actor external_id digest wd d found (unused found) v e
        by_receipt wd (some es) found e =
            answers_old c (caused actor external_id digest) wd es found v e

        by_digest :
            (w : Result (Option String))
            → worker_request_digest ext rq c.body ≡ w
            → with_worker_digest ext rq m tombstone c (caused actor external_id digest) w
              ≡ (m1, ok events)
            → (wd : Option String) × (worker_request_digest ext rq c.body ≡ ok wd)
              × AnswersIt c (caused actor external_id digest) wd m1.receipts
        by_digest (ok wd) made e =
            (wd, made, by_receipt wd (Map.get c.id m.receipts.commands) refl e)
        by_digest (err failure) made e =
            let clash : err failure ≡ ok events = ap (λ x. x.1) e in cc clash
        by_digest panic made e = let clash : panic ≡ ok events = ap (λ x. x.1) e in cc clash
