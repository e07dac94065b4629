-- ===== src/Safety/Participants.antt =====
-- src/safety.rs: validate_participants_and_routing, validate_synchronization, validate_tls_templates.
use tak_bench.Prelude.{
  ℕ, zero, suc, ◌+◌, Bool, false, ◌&&◌, ◌||◌, not, Option, List, [], ◌∷◌, ◌++◌, map, is_some,
  is_none_or, is_empty, any, find, if◌then◌else◌, Result, ok, fail_if, ◌>>◌, is_err,
}
use tak_bench.Prelude.Bytes.{Str, bytes, str_eq}
use tak_bench.Config.Enums.{role_eq, send_only, receive_only}
use tak_bench.Config.Types.{ParticipantConfig, RoutingAssertion, AppConfig}
use tak_bench.Config.Text.{decimal}
use tak_bench.Config.Tls.{is_safe_participant_id, for_participant}
use tak_bench.Safety.Errors.{
  SafetyError, invalid_participant_id, invalid_routing_assertion, invalid_synchronization,
  invalid_tls_templates,
}

-- `HashSet<&str>` as the list of what was inserted
abbrev pub member : Str → List Str → Bool
member id ids = any (λ other. str_eq other id) ids

-- The participants' `any`, with the set of ids that `insert` grows.
unfoldable pub has_bad_id : List Str → List ParticipantConfig → Bool
has_bad_id ids [] = false
has_bad_id ids (participant ∷ rest) =
    not (is_safe_participant_id participant.id)
    || member participant.id ids
    || has_bad_id (participant.id ∷ ids) rest

unfoldable pub find_participant : List ParticipantConfig → Str → Option ParticipantConfig
find_participant participants id = find (λ participant. str_eq participant.id id) participants

-- One assertion's condition
unfoldable pub is_bad_assertion : List ParticipantConfig → RoutingAssertion → Bool
is_bad_assertion participants assertion =
    is_none_or (find_participant participants assertion.sender)
      (λ participant. role_eq participant.role receive_only)
    || is_empty assertion.receivers && is_empty assertion.forbidden_receivers
    || any
        (λ id.
          is_none_or (find_participant participants id)
            (λ participant. role_eq participant.role send_only))
        (assertion.receivers ++ assertion.forbidden_receivers)

unfoldable pub validate_routing :
    List ParticipantConfig → List RoutingAssertion → Result SafetyError Unit
validate_routing participants [] = ok tt
validate_routing participants (assertion ∷ rest) =
    fail_if (is_bad_assertion participants assertion) invalid_routing_assertion
    >> validate_routing participants rest

-- One readiness alias after another, with the set of those seen
unfoldable pub has_bad_alias : List ParticipantConfig → List Str → List Str → Bool
has_bad_alias participants required [] = false
has_bad_alias participants required (id ∷ rest) =
    member id required
    || not (any (λ participant. str_eq participant.id id) participants)
    || has_bad_alias participants (id ∷ required) rest

-- `format!("client-{index}")` for index, index + 1, ..
unfoldable pub client_ids : ℕ → ℕ → List Str
unfolding decimal
client_ids index zero = []
client_ids index (suc n) = (bytes "client-" ++ decimal index) ∷ client_ids (index + 1) n

module _ {F64 : Type 0} where
  unfoldable pub validate_participants_and_routing : AppConfig F64 → Result SafetyError Unit
  validate_participants_and_routing config =
      if is_empty config.participants
      then fail_if (not (is_empty config.scenario.routing)) invalid_routing_assertion
      else (fail_if (has_bad_id [] config.participants) invalid_participant_id
          >> validate_routing config.participants config.scenario.routing)

  unfoldable pub validate_synchronization : AppConfig F64 → Result SafetyError Unit
  validate_synchronization config =
      if is_empty config.synchronization.wait_for_ready
      then fail_if (is_some config.synchronization.timeout) invalid_synchronization
      else (fail_if (is_empty config.participants || not (is_some config.synchronization.timeout))
            invalid_synchronization
          >> fail_if (has_bad_alias config.participants [] config.synchronization.wait_for_ready)
              invalid_synchronization)

  unfoldable pub validate_tls_templates : AppConfig F64 → Result SafetyError Unit
  validate_tls_templates config =
      fail_if
        (any (λ id. is_err (for_participant config.tls id))
          (if is_empty config.participants
            then client_ids 0 config.run.clients
            else map (λ participant. participant.id) config.participants))
        invalid_tls_templates
