-- ===== src/Examples/Identities.antt =====
-- Tests of finish_action with the repository's own sites.
use event_lead_ops_agent.Prelude.{◌≡◌, refl, some, ok, find, update_where}
use event_lead_ops_agent.Json.{Json, text, object, field, end_fields}
use event_lead_ops_agent.Host.{Host, decimal}
use event_lead_ops_agent.Schema.{Db, empty}
use event_lead_ops_agent.Examples.{host, files, sites, finish_request, to_marked}
use event_lead_ops_agent.Schema.Constraints.{
  is_token_hash, insert_proposed_action, insert_approval, is_authorized, insert_action,
  set_proposal_status, consume_approval, set_submission_started,
}
use event_lead_ops_agent.Executions.Begin.{
  begin_approved_action, checked_approval, checked_certification, checked_proposal, reserve,
  reserve_or_resume, stored_envelope,
}
use event_lead_ops_agent.Executions.Submit.{
  mark_action_submitting, snapshot_payload, reservation_payload,
}
use event_lead_ops_agent.Approvals.{checked_expiry, create_approval}
use event_lead_ops_agent.Proposals.{
  create_proposed_action, propose, listing_blocks, listing_cooldown, has_recent_terminal,
}
use event_lead_ops_agent.Json.{canonical_json, dumps}
use event_lead_ops_agent.Host.{decimal}
use event_lead_ops_agent.Policy.{make_idempotency_key, payload_hash, assert_write_allowed}
use event_lead_ops_agent.ProfileLock.{
  assert_owned, lease_id, lease_marker_matches, kernel_owner_matches, same_private_file,
}
use event_lead_ops_agent.Models.{as_dict, fingerprint}
use event_lead_ops_agent.Time.{iso, parse_database_timestamp}
use event_lead_ops_agent.Registry.{
  certify, record_authorized_approver, record_source_health, record_source_policy, upsert,
  upsert_campaign,
}
use event_lead_ops_agent.System.{perform, run}
use event_lead_ops_agent.Executions.Finish.{
  checked_url, checked_outcome, finish_action, joined, terminal_of,
}
use event_lead_ops_agent.Executions.Evidence.{
  validate_action_evidence, checked_link, is_inside, matches_manifest,
}
use event_lead_ops_agent.Registry.{
  record_authorized_approver, record_source_health, certify, upsert_campaign, upsert,
}
use event_lead_ops_agent.Time.{iso}
use event_lead_ops_agent.System.{run, perform}
use event_lead_ops_agent.Policy.{make_idempotency_key}
use event_lead_ops_agent.ProfileLock.{
  assert_owned, lease_marker_matches, kernel_owner_matches, same_private_file,
}
use event_lead_ops_agent.Schema.{ActionRow}
use event_lead_ops_agent.Schema.Constraints.{action_by_id}
use event_lead_ops_agent.Executions.Finish.{FinishRequest}
use event_lead_ops_agent.Texts.{
  all_chars, has_char, starts_with, drop, span, partition, after_last, lower, is_decimal,
  same_chars,
}
use event_lead_ops_agent.Urls.{urlsplit, hostname, https_url}
use event_lead_ops_agent.Sources.{sites_of}
use event_lead_ops_agent.Sources.Craigslist
use event_lead_ops_agent.Sources.Craigslist.{matches_host}
use event_lead_ops_agent.Sources.Identity.{Identified, succeeded-Identified}
use event_lead_ops_agent.Examples.Urls.{ascii}
use event_lead_ops_agent.Models.Identity.{Accepted, new_runtime_identity, new_runtime_identity_iff}
use event_lead_ops_agent.Prelude.{◌↔◌, Result, err, value_error, String}
use event_lead_ops_agent.Examples.{runtime}

abbrev published : FinishRequest
published = record finish_request {
  platform_external_id = some "12345678";
  platform_url = some "https://tampa.craigslist.org/12345678.html";
}

abbrev published_manifest : Json
published_manifest = object (
    field "source" (text "craigslist") (
      field "account_alias" (text "main") (
        field "proposed_action_id" (text "p1") (
          field "action_id" (text "a1") (
            field "runtime_fingerprint"
              (text "3333333333333333333333333333333333333333333333333333333333333333")
              (field "outcome" (text "succeeded") (
                field "platform_external_id" (text "12345678") (
                  field "platform_url" (text "https://tampa.craigslist.org/12345678.html")
                    end_fields))))))))

abbrev publishing_host : Host
publishing_host = record host { loads_bytes = λ bytes. some published_manifest }

abbrev marked : Db
marked = run host sites to_marked empty

publishes : (finish_action publishing_host files (sites_of ascii) published marked).0 ≡ ok tt
unfolding is_token_hash insert_proposed_action insert_approval is_authorized insert_action
    set_proposal_status consume_approval set_submission_started begin_approved_action
    checked_approval checked_certification checked_proposal reserve reserve_or_resume
    stored_envelope mark_action_submitting snapshot_payload reservation_payload checked_expiry
    create_approval create_proposed_action propose listing_blocks listing_cooldown
    has_recent_terminal canonical_json dumps decimal make_idempotency_key payload_hash
    assert_write_allowed assert_owned lease_id lease_marker_matches kernel_owner_matches
    same_private_file as_dict fingerprint iso parse_database_timestamp certify
    record_authorized_approver record_source_health record_source_policy upsert upsert_campaign
    perform run checked_url checked_outcome finish_action joined terminal_of
    validate_action_evidence checked_link is_inside matches_manifest find update_where
    Craigslist.canonicalize_url Craigslist.listing_id_from_url urlsplit has_char starts_with
    partition all_chars span drop same_chars lower matches_host hostname after_last https_url
    is_decimal
publishes = refl

succeeded-Identified_example :
    (row : ActionRow) × (action_by_id "a1" marked ≡ some row)
    × Identified ascii row.source published
succeeded-Identified_example =
    succeeded-Identified ascii published publishing_host files marked refl publishes

abbrev resolve : String → Result String
resolve path = ok (host.resolve path)

runtime_identity_is_made : new_runtime_identity resolve runtime ≡ ok runtime
unfolding new_runtime_identity
runtime_identity_is_made = refl

new_runtime_identity_iff_example :
    (new_runtime_identity resolve runtime ≡ ok runtime) ↔ Accepted resolve runtime runtime
new_runtime_identity_iff_example = new_runtime_identity_iff resolve runtime runtime

refuses_unresolved :
    new_runtime_identity (λ path. err (value_error "embedded null byte")) runtime
    ≡ err (value_error "embedded null byte")
unfolding new_runtime_identity
refuses_unresolved = refl
