-- ===== src/Domain/Commands/Identity.antt =====
-- graphrun/src/domain.rs: which request a command id stands for, and `PrincipalId::parse` of
-- graphrun/src/tls.rs. The derived serialisers of requests are a parameter. The bytes of a name
-- that is not ASCII are its code points here: either are refused.
use graphrun.Prelude.{
  ℕ, String, Bool, true, false, not, ◌&&◌, ◌||◌, Option, none, some, List, [], ◌∷◌, ◌++◌, all,
  length, ◌==◌, nat_eq, string_eq, option_eq, leb, is_some, if◌then◌else◌, join_text, starts_with,
}
use graphrun.Map
use graphrun.Error.{
  Result, ok, refuse_if, invalid_argument, failed_precondition, already_exists, ◌>>=◌, ◌>>◌,
}
use graphrun.Value.{Value, Json}
use graphrun.Value.Canonical.{canonical_json}
use graphrun.Ir.{Definition}
use graphrun.Catalog.{Catalog}
use graphrun.Externals.{Externals, ascii, le_bytes, be_bytes, digest16}
use graphrun.Domain.Commands.{
  CommandBody, Command, Receipts, authenticated, publication, prune_history, start, progress,
  resolve_timer, register_worker, renew_worker_session, claim, renew, report_assigned,
  report_worker, reconcile, reconcile_worker,
}

-- `serde_json::to_value` of a request, and of the contents of a start.
pub record Requests : Type 0 where
  pub body_json : CommandBody → Json
  pub start_json : Definition → Value → Catalog → Json

abbrev is_alphanumeric : ℕ → Bool
is_alphanumeric b =
    (leb b'0' b && leb b b'9') || ((leb b'a' b && leb b b'z') || (leb b'A' b && leb b b'Z'))

abbrev is_segment_byte : ℕ → Bool
is_segment_byte b = is_alphanumeric b || (b == b'-' || (b == b'_' || b == b'.'))

abbrev starts_alphanumeric : List ℕ → Bool
starts_alphanumeric [] = false
starts_alphanumeric (b ∷ bs) = is_alphanumeric b

-- `validate_identity_segment`.
unfoldable pub is_principal : String → Bool
is_principal name = starts_alphanumeric (ascii name) && all is_segment_byte (ascii name)

-- The bodies that no principal may send.
abbrev is_internal : CommandBody → Bool
is_internal (authenticated principal body) = true
is_internal publication = true
is_internal prune_history = true
is_internal (progress run) = true
is_internal (resolve_timer run wait) = true
is_internal _ = false

unfoldable pub into_cause : Command → Result (Command × Option String)
unfolding is_principal
into_cause c = elim c.body [
  | authenticated principal body ↦ (do
    refuse_if (not (is_principal principal) || is_internal body) invalid_argument
        "invalid authenticated command cause"
    ok (record { id = c.id; body = body; time = c.time }, some principal))
  | _ ↦ ok (c, none)
]

-- A receipt answers the command that it was made for, from the same principal, and no other.
abbrev pub other_identity : Receipts → ℕ → Option String → ℕ → Bool
other_identity r id none external_id =
    is_some (Map.get id r.command_actors)
    || (Map.contains_key id r.command_external_ids
        || Map.contains_key id r.authenticated_request_digests)
other_identity r id (some actor) external_id =
    not (Map.get id r.command_actors == some actor)
    || not (Map.get id r.command_external_ids == some external_id)

abbrev pub request_format : String
request_format = "graphrun.authenticated-request/v1:"

abbrev unknown_format : Option String → Bool
unknown_format none = false
unknown_format (some digest) = not (starts_with digest request_format)

abbrev verify_request : Option String → Option String → Option String → Result (Unit {0})
verify_request none expected digest = ok tt
verify_request (some actor) expected digest = do
  refuse_if (unknown_format expected) failed_precondition
      "unsupported authenticated request digest format"
  refuse_if (not (expected == digest)) already_exists
      "command ID reused with different authenticated request"

abbrev left_over : Receipts → ℕ → Bool
left_over r id =
    Map.contains_key id r.command_actors
    || (Map.contains_key id r.command_external_ids
        || Map.contains_key id r.authenticated_request_digests)

unfoldable pub verify_command_identity :
    Receipts → ℕ → Option String → ℕ → Option String → Result (Unit {0})
verify_command_identity r id actor external_id digest =
    let fresh =
      refuse_if (left_over r id) failed_precondition "command identity has no retained receipt" in
    let retained =
      refuse_if (other_identity r id actor external_id) already_exists
        "command ID collides with another command identity"
      >> verify_request actor (Map.get id r.authenticated_request_digests) digest in
    if Map.contains_key id r.commands then retained else fresh

abbrev pub verify_retry_of : Option String → Option String → Bool
verify_retry_of none none = true
verify_retry_of (some expected) (some actual) = expected == actual
verify_retry_of _ _ = false

unfoldable pub verify_worker_retry : Receipts → ℕ → Option String → Result (Unit {0})
verify_worker_retry r id digest =
    refuse_if (not (verify_retry_of (Map.get id r.worker_command_digests) digest)) already_exists
      "worker command ID reused with different request"

-- The commands of workers, which are compared when they are sent again.
abbrev is_worker_request : CommandBody → Bool
is_worker_request (register_worker session principal capabilities capacity low high) = true
is_worker_request (renew_worker_session session revision) = true
is_worker_request (claim session capacity) = true
is_worker_request (renew session activation generation revision) = true
is_worker_request (report_assigned run activation output owner) = true
is_worker_request (report_worker run activation owner digest result) = true
is_worker_request (reconcile run activation owner outcome output) = true
is_worker_request (reconcile_worker run activation owner digest result) = true
is_worker_request _ = false

module _ (ext : Externals) (rq : Requests) where
  unfoldable pub worker_request_digest : CommandBody → Result (Option String)
  worker_request_digest body = do
    let digest = do
      bytes ← canonical_json ext.json_text (rq.body_json body)
      ok (some (ext.hex (ext.sha256 bytes)))
    if is_worker_request body then digest else ok none

  abbrev pub logical : CommandBody → Json × String
  logical (start run definition input catalog) = (rq.start_json definition input catalog, "start")
  logical body = (rq.body_json body, "body")

  unfoldable pub authenticated_request_digest : CommandBody → Result String
  authenticated_request_digest body = do
    bytes ← canonical_json ext.json_text (logical body).0
    ok (
        join_text request_format (
          ext.hex (
            ext.sha256 (
              ascii "graphrun.authenticated-request/v1"
              ++ (0 ∷ ascii (logical body).1 ++ (0 ∷ bytes))))))

  unfoldable pub authenticated_command_id : String → ℕ → Result ℕ
  unfolding is_principal
  authenticated_command_id actor external_id = do
    refuse_if (not (is_principal actor)) invalid_argument "invalid certificate identity segment"
    ok (
        digest16 ext (
          ascii "graphrun.authenticated-command-id/v1"
          ++ (0 ∷ le_bytes 8 (length (ascii actor)) ++ (ascii actor ++ be_bytes 16 external_id))))

  -- The id, the id that was asked for, and the digest of a command.
  abbrev pub prepared_for : Receipts → Command → Option String → Result (Command × Option String)
  prepared_for r c none = ok (c, none)
  prepared_for r c (some actor) = do
    digest ← authenticated_request_digest c.body
    id ← authenticated_command_id actor c.id
    ok (record c { id = id }, some digest)

  unfoldable pub prepare_command :
      Receipts → Command → Option String → Result (Command × ℕ × Option String)
  unfolding verify_command_identity
  prepare_command r c actor = do
    p ← prepared_for r c actor
    verify_command_identity r p.0.id actor c.id p.1
    ok (p.0, c.id, p.1)
