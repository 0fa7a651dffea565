-- ===== src/Examples/Retries.antt =====
-- Tests: a listing that was not submitted is tried again after its cooldown.
use event_lead_ops_agent.Prelude.{
  ◌+◌, String, ◌≡◌, ◌≢◌, refl, none, some, [], ◌∷◌, ◌++◌, ok, find, update_where, ◌==◌,
  if◌then◌else◌,
}
use event_lead_ops_agent.Json.{Json, null, text, object, field, end_fields}
use event_lead_ops_agent.Host.{Host}
use event_lead_ops_agent.Time.{hours, utc}
use event_lead_ops_agent.Models.{ProposedAction}
use event_lead_ops_agent.Schema.{ProposalStatus, ProposedRow, Db, empty}
use event_lead_ops_agent.Proposals.Retry.{
  retry_row, existing_retry, create_retry_proposed_action, retry, retry_cooldown, evidenced_failure,
}
use event_lead_ops_agent.Proposals.Retry.Evidenced.{Retried, create_retry_returns}
use event_lead_ops_agent.Proposals.Retry.Blocked.{open_retry_blocks}
use event_lead_ops_agent.Proposals.{new_proposed_row}
use event_lead_ops_agent.Schema.Constraints.{proposal_by_id}
use event_lead_ops_agent.Executions.Finish.{FinishRequest}
use event_lead_ops_agent.Examples.{
  digest, request, payload, host, files, sites, finish_request, proposed, to_begun,
}
use event_lead_ops_agent.Schema.Constraints.{
  is_token_hash, insert_proposed_action, insert_approval, is_authorized, insert_action,
  set_proposal_status, consume_approval, set_outcome,
}
use event_lead_ops_agent.Executions.Begin.{
  begin_approved_action, checked_approval, checked_certification, checked_proposal, reserve,
  reserve_or_resume, stored_envelope,
}
use event_lead_ops_agent.Approvals.{checked_expiry, create_approval}
use event_lead_ops_agent.Proposals.{
  create_proposed_action, propose, listing_blocks, listing_cooldown, has_recent_terminal,
}
use event_lead_ops_agent.Json.{canonical_json, dumps}
use event_lead_ops_agent.Host.{decimal}
use event_lead_ops_agent.Policy.{make_idempotency_key, payload_hash, assert_write_allowed}
use event_lead_ops_agent.ProfileLock.{
  assert_owned, lease_id, lease_marker_matches, kernel_owner_matches, same_private_file,
}
use event_lead_ops_agent.Models.{as_dict, fingerprint}
use event_lead_ops_agent.Time.{iso, parse_database_timestamp}
use event_lead_ops_agent.Registry.{
  certify, record_authorized_approver, record_source_health, record_source_policy, upsert,
  upsert_campaign,
}
use event_lead_ops_agent.System.{perform, run}
use event_lead_ops_agent.Executions.Finish.{checked_outcome, finish_action, joined, terminal_of}
use event_lead_ops_agent.Executions.Evidence.{
  validate_action_evidence, checked_link, is_inside, matches_manifest,
}
use event_lead_ops_agent.System.{finish}

abbrev no_submit : Json
no_submit = object (
    field "source" (text "craigslist") (
      field "account_alias" (text "main") (
        field "proposed_action_id" (text "p1") (
          field "action_id" (text "a1") (
            field "runtime_fingerprint"
              (text "3333333333333333333333333333333333333333333333333333333333333333")
              (field "outcome" (text "confirmed_no_submit")
                (field "platform_external_id" null end_fields)))))))

-- The key of the second attempt has a digest of its own.
abbrev second_digest : String → String
second_digest t =
    if t
      == "craigslist\nmain\nc1\npublish_listing\n2222222222222222222222222222222222222222222222222222222222222222\n2"
    then "5555555555555555555555555555555555555555555555555555555555555555"
    else digest t

abbrev retry_host : Host
retry_host = record host { sha256 = second_digest; loads_bytes = λ bytes. some no_submit }

abbrev failure : FinishRequest
failure = record finish_request {
  status = "failed";
  platform_external_id = none;
  platform_url = none;
  error_class = some "confirmed_no_submit";
}

abbrev failed_db : Db
failed_db = run retry_host sites (to_begun ++ (finish files failure ∷ [])) empty

abbrev second : ProposedAction
second = record proposed {
  id = "p2";
  idempotency_key = "5555555555555555555555555555555555555555555555555555555555555555";
  attempt = 2;
  retry_of = some "p1";
}

retried :
    (create_retry_proposed_action retry_host files "p1" "p2" 20 (16 + hours 48) failed_db).0
    ≡ ok second
unfolding is_token_hash insert_proposed_action insert_approval is_authorized insert_action
    set_proposal_status consume_approval set_outcome begin_approved_action checked_approval
    checked_certification checked_proposal reserve reserve_or_resume stored_envelope checked_expiry
    create_approval create_proposed_action propose listing_blocks listing_cooldown
    has_recent_terminal canonical_json dumps decimal make_idempotency_key payload_hash
    assert_write_allowed assert_owned lease_id lease_marker_matches kernel_owner_matches
    same_private_file as_dict fingerprint iso parse_database_timestamp certify
    record_authorized_approver record_source_health record_source_policy upsert upsert_campaign
    perform run checked_outcome finish_action joined terminal_of validate_action_evidence
    checked_link is_inside matches_manifest find update_where create_retry_proposed_action retry
    retry_cooldown evidenced_failure
retried = refl

create_retry_returns_example :
    Retried retry_host files "p1" "p2" 20
      (16 + hours 48)
      second
      failed_db
      (create_retry_proposed_action retry_host files "p1" "p2" 20 (16 + hours 48) failed_db).1
create_retry_returns_example =
    create_retry_returns retry_host files "p1" "p2" 20 (16 + hours 48) failed_db retried

abbrev retried_db : Db
retried_db =
    (create_retry_proposed_action retry_host files "p1" "p2" 20 (16 + hours 48) failed_db).1

abbrev failed_row : ProposedRow
failed_row = record (new_proposed_row retry_host request "p1" 5 (some 48)) {
  status = ProposalStatus.failed;
  updated_at = utc 16;
}

abbrev retried_row : ProposedRow
retried_row = retry_row retry_host failed_row payload "p2" 20

failed_stored : proposal_by_id "p1" retried_db ≡ some failed_row
unfolding is_token_hash insert_proposed_action insert_approval is_authorized insert_action
    set_proposal_status consume_approval set_outcome begin_approved_action checked_approval
    checked_certification checked_proposal reserve reserve_or_resume stored_envelope checked_expiry
    create_approval create_proposed_action propose listing_blocks listing_cooldown
    has_recent_terminal canonical_json dumps decimal make_idempotency_key payload_hash
    assert_write_allowed assert_owned lease_id lease_marker_matches kernel_owner_matches
    same_private_file as_dict fingerprint iso parse_database_timestamp certify
    record_authorized_approver record_source_health record_source_policy upsert upsert_campaign
    perform run checked_outcome finish_action joined terminal_of validate_action_evidence
    checked_link is_inside matches_manifest find update_where create_retry_proposed_action retry
    retry_cooldown evidenced_failure
failed_stored = refl

retry_stored : existing_retry "p1" retried_db ≡ some retried_row
unfolding is_token_hash insert_proposed_action insert_approval is_authorized insert_action
    set_proposal_status consume_approval set_outcome begin_approved_action checked_approval
    checked_certification checked_proposal reserve reserve_or_resume stored_envelope checked_expiry
    create_approval create_proposed_action propose listing_blocks listing_cooldown
    has_recent_terminal canonical_json dumps decimal make_idempotency_key payload_hash
    assert_write_allowed assert_owned lease_id lease_marker_matches kernel_owner_matches
    same_private_file as_dict fingerprint iso parse_database_timestamp certify
    record_authorized_approver record_source_health record_source_policy upsert upsert_campaign
    perform run checked_outcome finish_action joined terminal_of validate_action_evidence
    checked_link is_inside matches_manifest find update_where create_retry_proposed_action retry
    retry_cooldown evidenced_failure
retry_stored = refl

open_retry_blocks_example :
    (create_retry_proposed_action retry_host files "p1" "p3" 30 (30 + hours 48) retried_db).0
    ≢ ok second
open_retry_blocks_example =
    open_retry_blocks retry_host files "p1" "p3" 30 (30 + hours 48) retried_db failed_row
      retried_row second failed_stored retry_stored refl refl
