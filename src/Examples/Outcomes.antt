-- ===== src/Examples/Outcomes.antt =====
-- Tests: the ends of actions, evidence, approvals, proposals and policies.
use event_lead_ops_agent.Prelude.{
  ◌≤◌, ◌≡◌, ◌≢◌, refl, none, some, [], ◌∷◌, ok, find, update_where, eq_iff,
}
use event_lead_ops_agent.Json.{Json, text, object, field, end_fields}
use event_lead_ops_agent.Host.{Host, decimal}
use event_lead_ops_agent.Models.{observe, ProposedAction}
use event_lead_ops_agent.Schema.{ProposedRow, PolicyRow, Db, empty}
use event_lead_ops_agent.Schema.Constraints.{proposal_by_id, action_by_key}
use event_lead_ops_agent.Examples.{
  payload, host, files, sites, policy, request, proposed, approval_request, envelope, begin_request,
  reservation, submit_request, finish_request, setup, to_proposed, to_begun, to_marked,
}
use event_lead_ops_agent.Schema.Constraints.{
  is_token_hash, insert_proposed_action, insert_approval, is_authorized, insert_action,
  set_proposal_status, consume_approval, set_submission_started,
}
use event_lead_ops_agent.Executions.Begin.{
  begin_approved_action, checked_approval, checked_certification, checked_proposal, reserve,
  reserve_or_resume, stored_envelope,
}
use event_lead_ops_agent.Executions.Submit.{
  mark_action_submitting, snapshot_payload, reservation_payload,
}
use event_lead_ops_agent.Approvals.{checked_expiry, create_approval}
use event_lead_ops_agent.Proposals.{
  create_proposed_action, propose, listing_blocks, listing_cooldown, has_recent_terminal,
}
use event_lead_ops_agent.Json.{canonical_json, dumps}
use event_lead_ops_agent.Host.{decimal}
use event_lead_ops_agent.Policy.{make_idempotency_key, payload_hash, assert_write_allowed}
use event_lead_ops_agent.ProfileLock.{
  assert_owned, lease_id, lease_marker_matches, kernel_owner_matches, same_private_file,
}
use event_lead_ops_agent.Models.{as_dict, fingerprint}
use event_lead_ops_agent.Time.{iso, parse_database_timestamp}
use event_lead_ops_agent.Registry.{
  certify, record_authorized_approver, record_source_health, record_source_policy, upsert,
  upsert_campaign,
}
use event_lead_ops_agent.System.{perform, run}
use event_lead_ops_agent.Executions.Finish.{
  checked_url, checked_outcome, finish_action, joined, terminal_of,
}
use event_lead_ops_agent.Executions.Evidence.{
  validate_action_evidence, checked_link, is_inside, matches_manifest,
}
use event_lead_ops_agent.Executions.Submit.Checks.{Marked}
use event_lead_ops_agent.Executions.Submit.Marking.{mark_returns, mark_again_fails}
use event_lead_ops_agent.Executions.Finish.Checks.{Finished}
use event_lead_ops_agent.Executions.Finish.Closing.{Recorded, finish_returns, finish_closes}
use event_lead_ops_agent.Executions.Evidence.{Expected}
use event_lead_ops_agent.Executions.Evidence.Sound.{Evidenced, validate_action_evidence_sound}
use event_lead_ops_agent.Executions.Begin.{BeginRequest, policy_of}
use event_lead_ops_agent.Executions.Begin.Again.{begin_refuses_text}
use event_lead_ops_agent.Proposals.{ProposalRequest, new_proposed_row}
use event_lead_ops_agent.Proposals.{proposal_by_key}
use event_lead_ops_agent.Proposals.Cooldown.{Spaced, new_listing_is_spaced}
use event_lead_ops_agent.Registry.{
  record_source_policy_body, record_authorized_approver, record_authorized_approver_body,
  record_source_health, record_source_health_body, certificate, certify, upsert_campaign,
  upsert_campaign_body, campaign_status_of, upsert,
}
use event_lead_ops_agent.Time.{iso}
use event_lead_ops_agent.System.{run, perform}
use event_lead_ops_agent.Policy.{make_idempotency_key}
use event_lead_ops_agent.ProfileLock.{
  attest, assert_owned, lease_marker_matches, kernel_owner_matches, kernel_lock_owner_pid,
  same_private_file, descriptor_is_private_regular_file,
}
use event_lead_ops_agent.Proposals.Again.{create_proposed_action_again}
use event_lead_ops_agent.Approvals.Granting.{Approved, create_approval_returns}
use event_lead_ops_agent.Registry.Policies.{record_source_policy_lookup}

abbrev begun : Db
begun = run host sites to_begun empty

abbrev marked : Db
marked = run host sites to_marked empty

mark_hands_over : (mark_action_submitting host submit_request begun).0 ≡ ok payload
unfolding is_token_hash insert_proposed_action insert_approval is_authorized insert_action
    set_proposal_status consume_approval set_submission_started begin_approved_action
    checked_approval checked_certification checked_proposal reserve reserve_or_resume
    stored_envelope mark_action_submitting snapshot_payload reservation_payload checked_expiry
    create_approval create_proposed_action propose listing_blocks listing_cooldown
    has_recent_terminal canonical_json dumps decimal make_idempotency_key payload_hash
    assert_write_allowed assert_owned lease_id lease_marker_matches kernel_owner_matches
    same_private_file as_dict fingerprint iso parse_database_timestamp certify
    record_authorized_approver record_source_health record_source_policy upsert upsert_campaign
    perform run find update_where
mark_hands_over = refl

mark_returns_example :
    Marked host submit_request begun payload (mark_action_submitting host submit_request begun).1
mark_returns_example = mark_returns host submit_request begun mark_hands_over

mark_again_fails_example :
    (mark_action_submitting host submit_request
      (mark_action_submitting host submit_request begun).1).0
    ≢ ok payload
mark_again_fails_example =
    mark_again_fails host host submit_request submit_request begun payload mark_hands_over refl

finish_succeeds : (finish_action host files sites finish_request marked).0 ≡ ok tt
unfolding is_token_hash insert_proposed_action insert_approval is_authorized insert_action
    set_proposal_status consume_approval set_submission_started begin_approved_action
    checked_approval checked_certification checked_proposal reserve reserve_or_resume
    stored_envelope mark_action_submitting snapshot_payload reservation_payload checked_expiry
    create_approval create_proposed_action propose listing_blocks listing_cooldown
    has_recent_terminal canonical_json dumps decimal make_idempotency_key payload_hash
    assert_write_allowed assert_owned lease_id lease_marker_matches kernel_owner_matches
    same_private_file as_dict fingerprint iso parse_database_timestamp certify
    record_authorized_approver record_source_health record_source_policy upsert upsert_campaign
    perform run checked_url checked_outcome finish_action joined terminal_of
    validate_action_evidence checked_link is_inside matches_manifest find update_where
finish_succeeds = refl

finish_returns_example :
    (f : Finished host files sites finish_request marked
      (finish_action host files sites finish_request marked).1)
    × Recorded finish_request f.terminal f.digest f.error_class f.row marked
        (finish_action host files sites finish_request marked).1
finish_returns_example = finish_returns host files sites finish_request marked finish_succeeds

finish_closes_example :
    ((finish_action host files sites finish_request
        (finish_action host files sites finish_request marked).1).0
      ≢ ok tt)
    × ((mark_action_submitting host submit_request
          (finish_action host files sites finish_request marked).1).0
        ≢ ok payload)
finish_closes_example =
    finish_closes host host files files sites finish_request finish_request submit_request marked
      payload finish_succeeds refl refl

abbrev expected : Expected
expected = ("outcome", some "succeeded") ∷ ("action_id", some "a1") ∷ ("note", none) ∷ []

evidence_passes :
    validate_action_evidence host files (some "/evidence/a1.json") "/evidence" expected
    ≡ ok "4444444444444444444444444444444444444444444444444444444444444444"
unfolding validate_action_evidence checked_link is_inside matches_manifest
evidence_passes = refl

validate_action_evidence_sound_example :
    Evidenced host files
      (some "/evidence/a1.json")
      "/evidence"
      expected
      "4444444444444444444444444444444444444444444444444444444444444444"
validate_action_evidence_sound_example =
    validate_action_evidence_sound host files (some "/evidence/a1.json") "/evidence" expected
      evidence_passes

abbrev pending : Db
pending = run host sites to_proposed empty

approval_granted : (create_approval approval_request "ok1" 7 8 pending).0 ≡ ok envelope
unfolding insert_proposed_action insert_approval checked_expiry create_approval
    create_proposed_action propose listing_blocks listing_cooldown has_recent_terminal
    canonical_json decimal payload_hash assert_owned lease_marker_matches kernel_owner_matches
    same_private_file iso certify record_authorized_approver record_source_health
    record_source_policy upsert upsert_campaign perform run find
approval_granted = refl

create_approval_returns_example :
    Approved approval_request "ok1" 7 8 envelope pending
      (create_approval approval_request "ok1" 7 8 pending).1
create_approval_returns_example =
    create_approval_returns approval_request "ok1" 7 8 pending approval_granted

abbrev ready : Db
ready = run host sites setup empty

proposal_stored : (create_proposed_action host request "p1" 5 6 ready).0 ≡ ok proposed
unfolding insert_proposed_action create_proposed_action propose listing_blocks listing_cooldown
    has_recent_terminal canonical_json decimal make_idempotency_key payload_hash assert_owned
    lease_marker_matches kernel_owner_matches same_private_file iso certify
    record_authorized_approver record_source_health record_source_policy upsert upsert_campaign
    perform run find
proposal_stored = refl

key_is_new :
    proposal_by_key
      (make_idempotency_key host request.source request.account_alias request.campaign_id
        request.action_type request.payload 1)
      ready
    ≡ none
unfolding run perform find record_source_policy record_source_policy_body record_authorized_approver
    record_authorized_approver_body record_source_health record_source_health_body certificate
    certify upsert_campaign upsert_campaign_body campaign_status_of attest assert_owned
    lease_marker_matches kernel_owner_matches kernel_lock_owner_pid same_private_file
    descriptor_is_private_regular_file iso upsert decimal
key_is_new = refl

new_listing_is_spaced_example :
    (s : Spaced host request "p1" 5 6 ready) × (insert_proposed_action
        (new_proposed_row host request "p1" 5 (some s.campaign.cooldown_hours))
        ready
      ≡ ok (create_proposed_action host request "p1" 5 6 ready).1)
new_listing_is_spaced_example =
    new_listing_is_spaced host request "p1" 5 6 ready refl key_is_new proposal_stored

text_decodes : host.loads (dumps request.payload) ≡ some payload
unfolding dumps
text_decodes = refl

create_proposed_action_again_example :
    (again : ProposedAction) × (create_proposed_action host request "p2" 20 21
        (create_proposed_action host request "p1" 5 6 ready).1
      ≡ (ok again, (create_proposed_action host request "p1" 5 6 ready).1))
    × (again.id ≡ "p1")
create_proposed_action_again_example =
    create_proposed_action_again host request "p1" "p2" 5 6 20 21 ready payload text_decodes
      proposal_stored

abbrev observing : PolicyRow
observing = record policy { mode = observe }

policy_recorded : (record_source_policy observing ready).0 ≡ ok tt
unfolding record_source_policy
policy_recorded = refl

record_source_policy_lookup_example :
    (1 ≤ 24)
    × (24 ≤ 24)
    × (1 ≤ 15)
    × (policy_of "craigslist" "main" (record_source_policy observing ready).1 ≡ some observing)
record_source_policy_lookup_example =
    record_source_policy_lookup observing ready "craigslist" "main" policy_recorded

-- A payload with a letter outside ASCII: the stored text and the canonical one differ.
abbrev cafe : Json
cafe = object (field "title" (text "café") end_fields)

abbrev cafe_host : Host
cafe_host = record host { loads = λ t. some cafe }

abbrev cafe_request : ProposalRequest
cafe_request = record request { payload = cafe; action_type = "reply" }

abbrev cafe_row : ProposedRow
cafe_row = new_proposed_row cafe_host cafe_request "p9" 5 none

abbrev cafe_begin : BeginRequest
cafe_begin = record begin_request {
  proposed = record proposed { id = "p9"; payload = cafe; action_type = "reply" };
  current_payload = cafe;
}

abbrev cafe_db : Db
cafe_db = (create_proposed_action cafe_host cafe_request "p9" 5 6 ready).1

cafe_stored : proposal_by_id "p9" cafe_db ≡ some cafe_row
unfolding insert_proposed_action create_proposed_action propose listing_blocks listing_cooldown
    decimal assert_owned lease_marker_matches kernel_owner_matches same_private_file iso certify
    record_authorized_approver record_source_health record_source_policy upsert upsert_campaign
    perform run find
cafe_stored = refl

cafe_differs : cafe_row.payload_json ≢ canonical_json cafe
unfolding canonical_json dumps
cafe_differs e = cc ((eq_iff cafe_row.payload_json (canonical_json cafe)).1 e)

cafe_unclaimed : action_by_key cafe_row.idempotency_key cafe_db ≡ none
unfolding insert_proposed_action create_proposed_action propose listing_blocks listing_cooldown
    decimal assert_owned lease_marker_matches kernel_owner_matches same_private_file iso certify
    record_authorized_approver record_source_health record_source_policy upsert upsert_campaign
    perform run find
cafe_unclaimed = refl

begin_refuses_text_example : (begin_approved_action cafe_host cafe_begin cafe_db).0 ≢ ok reservation
begin_refuses_text_example =
    begin_refuses_text cafe_host cafe_begin cafe_db cafe_row cafe reservation cafe_stored refl
      cafe_differs cafe_unclaimed
