-- ===== src/Examples/Runs.antt =====
-- Tests: runs of the store, and what begin_approved_action does in them.
use event_lead_ops_agent.Prelude.{
  ◌≤◌, ◌≡◌, ◌⊎◌, refl, none, some, [], ◌∷◌, ok, err, runtime_error, find, update_where,
}
use event_lead_ops_agent.Schema.{ActionRow, Db, empty}
use event_lead_ops_agent.Schema.Constraints.{action_by_id}
use event_lead_ops_agent.Examples.{
  host, sites, begin_request, reservation, submit_request, to_approved, to_begun, life,
}
use event_lead_ops_agent.Schema.Constraints.{
  is_token_hash, insert_proposed_action, insert_approval, is_authorized, insert_action,
  set_proposal_status, consume_approval, set_submission_started,
}
use event_lead_ops_agent.Executions.Begin.{
  begin_approved_action, checked_approval, checked_certification, checked_proposal, reserve,
  reserve_or_resume, resume, stored_envelope,
}
use event_lead_ops_agent.Executions.Submit.{
  mark_action_submitting, snapshot_payload, reservation_payload,
}
use event_lead_ops_agent.Approvals.{checked_expiry, create_approval}
use event_lead_ops_agent.Proposals.{
  create_proposed_action, propose, listing_blocks, listing_cooldown, has_recent_terminal,
}
use event_lead_ops_agent.Json.{canonical_json, dumps}
use event_lead_ops_agent.Host.{decimal}
use event_lead_ops_agent.Policy.{make_idempotency_key, payload_hash, assert_write_allowed}
use event_lead_ops_agent.ProfileLock.{
  assert_owned, lease_id, lease_marker_matches, kernel_owner_matches, same_private_file,
}
use event_lead_ops_agent.Models.{as_dict, fingerprint}
use event_lead_ops_agent.Time.{iso, parse_database_timestamp}
use event_lead_ops_agent.Registry.{
  certify, record_authorized_approver, record_source_health, record_source_policy, upsert,
  upsert_campaign,
}
use event_lead_ops_agent.System.{perform, run, submits, submissions}
use event_lead_ops_agent.System.{begin, mark}
use event_lead_ops_agent.System.Steps.{perform-Change, run-WellFormed, empty-WellFormed}
use event_lead_ops_agent.System.Once.{submitted_once, run-Later}
use event_lead_ops_agent.Lifecycle.{view, Change}
use event_lead_ops_agent.Lifecycle.History.{Later}
use event_lead_ops_agent.Lifecycle.Statements.{WellFormed}
use event_lead_ops_agent.Executions.Begin.{BeginRequest, new_action_row, replayed}
use event_lead_ops_agent.Executions.Begin.Granted.{Granted, begin_grants}
use event_lead_ops_agent.Executions.Begin.Again.{
  Replayed, PutAside, begin_again_without_token, begin_replays, begin_raises,
}

submitted_once_example : submissions host sites "p1" life empty ≤ 1
submitted_once_example = submitted_once host sites "p1" life

life_submits : submissions host sites "p1" life empty ≡ 1
unfolding is_token_hash insert_proposed_action insert_approval is_authorized insert_action
    set_proposal_status consume_approval set_submission_started begin_approved_action
    checked_approval checked_certification checked_proposal reserve reserve_or_resume
    stored_envelope mark_action_submitting snapshot_payload reservation_payload checked_expiry
    create_approval create_proposed_action propose listing_blocks listing_cooldown
    has_recent_terminal canonical_json dumps decimal make_idempotency_key payload_hash
    assert_write_allowed assert_owned lease_id lease_marker_matches kernel_owner_matches
    same_private_file as_dict fingerprint iso parse_database_timestamp certify
    record_authorized_approver record_source_health record_source_policy upsert upsert_campaign
    perform submits submissions find update_where
life_submits = refl

run-WellFormed_example : WellFormed (run host sites life empty)
run-WellFormed_example = run-WellFormed host sites life empty empty-WellFormed

abbrev approved_db : Db
approved_db = run host sites to_approved empty

abbrev begun_db : Db
begun_db = (begin_approved_action host begin_request approved_db).1

approved_db-WellFormed : WellFormed approved_db
approved_db-WellFormed = run-WellFormed host sites to_approved empty empty-WellFormed

perform-Change_example :
    Change (view approved_db) (view (perform host sites (begin begin_request) approved_db))
perform-Change_example =
    perform-Change host sites (begin begin_request) approved_db approved_db-WellFormed

begun_db-WellFormed : WellFormed (run host sites to_begun empty)
begun_db-WellFormed = run-WellFormed host sites to_begun empty empty-WellFormed

abbrev begun_row : ActionRow
begun_row = new_action_row host begin_request "{\"title\":\"Two chairs\"}" "lease" 12

begun_there : action_by_id "a1" (run host sites to_begun empty) ≡ some begun_row
unfolding is_token_hash insert_proposed_action insert_approval is_authorized insert_action
    set_proposal_status consume_approval begin_approved_action checked_approval
    checked_certification checked_proposal reserve reserve_or_resume stored_envelope checked_expiry
    create_approval create_proposed_action propose listing_blocks listing_cooldown
    has_recent_terminal canonical_json dumps decimal make_idempotency_key payload_hash
    assert_write_allowed assert_owned lease_id lease_marker_matches kernel_owner_matches
    same_private_file as_dict fingerprint iso parse_database_timestamp certify
    record_authorized_approver record_source_health record_source_policy upsert upsert_campaign
    perform run find update_where
begun_there = refl

run-Later_example :
    (b : ActionRow) × (action_by_id "a1"
        (run host sites (mark submit_request ∷ []) (run host sites to_begun empty))
      ≡ some b)
    × Later begun_row b
run-Later_example =
    run-Later host sites (mark submit_request ∷ []) (run host sites to_begun empty) "a1" begun_row
      begun_db-WellFormed begun_there

begin_reserves : (begin_approved_action host begin_request approved_db).0 ≡ ok reservation
unfolding is_token_hash insert_proposed_action insert_approval is_authorized insert_action
    set_proposal_status begin_approved_action checked_approval checked_certification
    checked_proposal reserve reserve_or_resume stored_envelope checked_expiry create_approval
    create_proposed_action propose listing_blocks listing_cooldown has_recent_terminal
    canonical_json dumps decimal make_idempotency_key payload_hash assert_write_allowed assert_owned
    lease_id lease_marker_matches kernel_owner_matches same_private_file as_dict fingerprint iso
    parse_database_timestamp certify record_authorized_approver record_source_health
    record_source_policy upsert upsert_campaign perform run find update_where
begin_reserves = refl

begin_grants_example : Granted host begin_request approved_db reservation begun_db
begin_grants_example = begin_grants host begin_request approved_db begin_reserves refl

-- Another executor, later, with a token of its own.
abbrev second_request : BeginRequest
second_request = record begin_request {
  action_id = "a2";
  execution_token = "another token";
  clock = 500000000;
}

second_is_replayed :
    (begin_approved_action host second_request begun_db).0 ≡ ok (replayed begun_row)
unfolding is_token_hash insert_proposed_action insert_approval is_authorized insert_action
    set_proposal_status consume_approval begin_approved_action checked_approval
    checked_certification checked_proposal reserve reserve_or_resume resume stored_envelope
    checked_expiry create_approval create_proposed_action propose listing_blocks listing_cooldown
    has_recent_terminal canonical_json dumps decimal make_idempotency_key payload_hash
    assert_write_allowed assert_owned lease_id lease_marker_matches kernel_owner_matches
    same_private_file as_dict fingerprint iso parse_database_timestamp certify
    record_authorized_approver record_source_health record_source_policy upsert upsert_campaign
    perform run find update_where
second_is_replayed = refl

begin_again_without_token_example : (replayed begun_row).execution_token ≡ none
begin_again_without_token_example =
    begin_again_without_token host host begin_request second_request approved_db begin_reserves refl
      refl second_is_replayed

begin_replays_example :
    Replayed host second_request begun_db
      (replayed begun_row)
      (begin_approved_action host second_request begun_db).1
begin_replays_example = begin_replays host second_request begun_db second_is_replayed refl

-- One that comes 17 minutes after the first.
abbrev late_request : BeginRequest
late_request = record second_request { clock = 1020000000 }

late_is_stale :
    (begin_approved_action host late_request begun_db).0
    ≡ err (runtime_error "stale execution requires reconciliation")
unfolding is_token_hash insert_proposed_action insert_approval is_authorized insert_action
    set_proposal_status consume_approval begin_approved_action checked_approval
    checked_certification checked_proposal reserve reserve_or_resume resume stored_envelope
    checked_expiry create_approval create_proposed_action propose listing_blocks listing_cooldown
    has_recent_terminal canonical_json dumps decimal make_idempotency_key payload_hash
    assert_write_allowed assert_owned lease_id lease_marker_matches kernel_owner_matches
    same_private_file as_dict fingerprint iso parse_database_timestamp certify
    record_authorized_approver record_source_health record_source_policy upsert upsert_campaign
    perform run find update_where
late_is_stale = refl

begin_raises_example :
    ((begin_approved_action host late_request begun_db).1 ≡ begun_db)
    ⊎ PutAside host late_request begun_db (begin_approved_action host late_request begun_db).1
begin_raises_example = begin_raises host late_request begun_db late_is_stale
