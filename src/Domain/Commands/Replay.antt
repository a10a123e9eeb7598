-- ===== src/Domain/Commands/Replay.antt =====
-- graphrun/src/domain.rs: a command that was applied is answered from its receipt.
use graphrun.Prelude.{
  ℕ, String, ◌≡◌, refl, ap, Bool, Option, none, List, nat_eq, string_eq, option_eq,
}
use mathlib.Core.Path.{subst}
use graphrun.Map
use graphrun.Error.{Result, ok, err, panic, >>=-eq-ok}
use graphrun.Externals.{Externals}
use graphrun.Domain.Event.{DomainEvent}
use graphrun.Domain.Commands.{Command, Receipts, Machine}
use graphrun.Domain.Commands.Identity.{
  Requests, into_cause, prepare_command, prepared_for, verify_command_identity,
  worker_request_digest,
}
use graphrun.Domain.Commands.Apply.{
  apply_command_with_actor, apply_prepared, apply_caused, apply_command,
}
use graphrun.Domain.Commands.Answers.{
  sent_at, Answers, answered_again, caused, IsDigest-of, later_prepared, answers,
}

module _ (ext : Externals) (rq : Requests) where
  abbrev Prepared : Type 0
  Prepared = Command × ℕ × Option String

  same_prepared : (P : Prepared → Type 0) {q t : Prepared} → ok q ≡ ok t → P q → P t
  same_prepared P {q} {t} e h = let same : q ≡ t = cc e in subst P same h

  record IsPreparation (r : Receipts) (c : Command) (actor : Option String) (q : Prepared)
      : Type 0 where
    made : prepared_for ext rq r c actor ≡ ok (q.0, q.2)
    same_id : q.1 ≡ c.id
    verified : verify_command_identity r q.0.id actor c.id q.2 ≡ ok tt

  prepare-IsPreparation :
      (r : Receipts) (c : Command) (actor : Option String) (q : Prepared)
      → prepare_command ext rq r c actor ≡ ok q
      → IsPreparation r c actor q
  unfolding prepare_command
  prepare-IsPreparation r c actor q e =
      let (made, for_it, e1) = >>=-eq-ok (prepared_for ext rq r c actor) _ {b = q} e in
      let (passed, verified, done) =
        >>=-eq-ok (verify_command_identity r made.0.id actor c.id made.1) _ {b = q} e1 in
      let built : IsPreparation r c actor (made.0, c.id, made.1) = record {
        made = for_it;
        same_id = refl;
        verified = verified;
      } in
      same_prepared (IsPreparation r c actor) done built

  -- A command that is sent again to the state that its application left.
  module _ (m m1 : Machine) (tombstone tombstone1 : Option (Result Bool))
      (events : List DomainEvent) (time : ℕ) where
    prepared_again :
        (c p : Command) (actor : Option String) (digest wd : Option String)
        → prepared_for ext rq m.receipts c actor ≡ ok (p, digest)
        → worker_request_digest ext rq p.body ≡ ok wd
        → Answers m1.receipts p.id actor c.id digest wd events
        → apply_prepared ext rq m1 tombstone1 actor
            (prepare_command ext rq m1.receipts (sent_at time c) actor)
          ≡ (m1, ok events)
    unfolding prepare_command
    prepared_again c p actor digest wd made w h =
        let again = later_prepared ext rq m.receipts m1.receipts c p actor digest time made in
        rw (again, h.identity)
          (answered_again ext rq m1 tombstone1 (sent_at time p) (caused ext rq actor c.id digest) wd
            events (record { receipt = h.receipt; identity = h.identity; retry = h.retry }) w)

    replay :
        (c : Command) (actor : Option String)
        (consistent : (id : ℕ)
          → Map.get id m.receipts.commands ≡ none
          → Map.get id m.receipts.worker_command_digests ≡ none)
        → apply_prepared ext rq m tombstone actor (prepare_command ext rq m.receipts c actor)
          ≡ (m1, ok events)
        → apply_prepared ext rq m1 tombstone1 actor
            (prepare_command ext rq m1.receipts (sent_at time c) actor)
          ≡ (m1, ok events)
    replay c actor consistent e = by_prepared (prepare_command ext rq m.receipts c actor) refl e
      where
        by_prepared :
            (q : Result (Command × ℕ × Option String))
            → prepare_command ext rq m.receipts c actor ≡ q
            → apply_prepared ext rq m tombstone actor q ≡ (m1, ok events)
            → apply_prepared ext rq m1 tombstone1 actor
                (prepare_command ext rq m1.receipts (sent_at time c) actor)
              ≡ (m1, ok events)
        by_prepared (ok (p, external_id, digest)) made e =
            let q = prepare-IsPreparation m.receipts c actor (p, external_id, digest) made in
            let (wd, w, h) =
              answers ext rq m m1 tombstone events p actor c.id digest
                (IsDigest-of ext rq m.receipts c p actor digest q.made) (consistent p.id) q.verified
                (subst
                  (λ x.
                    apply_command_with_actor ext rq m tombstone p (caused ext rq actor x digest)
                    ≡ (m1, ok events))
                  q.same_id e) in
            prepared_again c p actor digest wd q.made w h
        by_prepared (err failure) made e =
            let clash : err failure ≡ ok events = ap (λ x. x.1) e in cc clash
        by_prepared panic made e = let clash : panic ≡ ok events = ap (λ x. x.1) e in cc clash

  -- Where no worker digest is kept without a receipt, and two commands have the same id, the same
  -- body and the same principal: once the first was applied with success, the second is answered
  -- with the same events and changes nothing, whenever it is sent.
  pub apply_command-replays :
      (m m1 : Machine) (tombstone tombstone1 : Option (Result Bool)) (events : List DomainEvent)
      (first second c : Command) (time : ℕ) (actor : Option String)
      (consistent : (id : ℕ)
        → Map.get id m.receipts.commands ≡ none
        → Map.get id m.receipts.worker_command_digests ≡ none)
      → into_cause first ≡ ok (c, actor)
      → into_cause second ≡ ok (sent_at time c, actor)
      → apply_command ext rq m tombstone first ≡ (m1, ok events)
      → apply_command ext rq m1 tombstone1 second ≡ (m1, ok events)
  unfolding apply_command
  apply_command-replays m m1 tombstone tombstone1 events first second c time actor consistent cause
        cause1 applied =
      rw (cause1) (
        replay m m1 tombstone tombstone1 events time c actor consistent
          (subst (λ x. apply_caused ext rq m tombstone x ≡ (m1, ok events)) cause applied))
