-- ===== src/Examples.antt =====
-- A small world for tests: a host, a source with its policy, approver and health, one campaign, and
-- the calls that take one listing from its proposal to its end.
mod Gates
mod Runs
mod Outcomes
mod Retries
mod Urls
mod Configs
mod Records
mod Upgrades
mod Locks
mod Identities
mod Commands
use event_lead_ops_agent.Prelude.{
  ℕ, String, Bool, true, false, Option, none, some, List, [], ◌∷◌, ◌++◌, Result, ok, err, ◌==◌,
  if◌then◌else◌,
}
use event_lead_ops_agent.Json.{Json, text, object, Fields, field, end_fields, canonical_json}
use event_lead_ops_agent.Host.{Host, Files, LinkStat}
use event_lead_ops_agent.Time.{DateTime, aware, hours, minutes, utc}
use event_lead_ops_agent.Models.{
  OperationMode, approved_write, HealthStatus, healthy, RuntimeIdentity, ProposedAction,
  ExecutionReservation,
}
use event_lead_ops_agent.Policy.{ApprovalEnvelope, payload_hash, make_idempotency_key}
use event_lead_ops_agent.ProfileLock.{
  FileStat, KernelLock, Sighting, ProfileLock, LockView, marker_text,
}
use event_lead_ops_agent.Schema.{PolicyRow, ApproverRow, Db, empty}
use event_lead_ops_agent.Proposals.{ProposalRequest}
use event_lead_ops_agent.Approvals.{ApprovalRequest}
use event_lead_ops_agent.Executions.Begin.{BeginRequest}
use event_lead_ops_agent.Executions.Submit.{SubmitRequest}
use event_lead_ops_agent.Executions.Finish.{Site, Sites, FinishRequest}
use event_lead_ops_agent.Registry.{HealthInput, CampaignInput}
use event_lead_ops_agent.System.{
  Call, propose, approve, begin, mark, finish, set_policy, set_approver, set_health, set_campaign,
  run,
}

abbrev pub payload : Json
payload = object (field "title" (text "Two chairs") end_fields)

-- The payload's hash and the token's, and one digest for every other text.
abbrev pub digest : String → String
digest t =
    if t == "token"
    then "1111111111111111111111111111111111111111111111111111111111111111"
    else if t == "{\"title\":\"Two chairs\"}"
    then "2222222222222222222222222222222222222222222222222222222222222222"
    else "3333333333333333333333333333333333333333333333333333333333333333"

abbrev pub manifest : Json
manifest = object (
    field "source" (text "craigslist") (
      field "account_alias" (text "main") (
        field "proposed_action_id" (text "p1") (
          field "action_id" (text "a1") (
            field "runtime_fingerprint"
              (text "3333333333333333333333333333333333333333333333333333333333333333")
              (field "outcome" (text "succeeded") (
                field "platform_external_id" (text "77")
                  (field "platform_url" (text "https://craigslist.org/77.html") end_fields))))))))

abbrev pub host : Host
host = record {
  sha256 = digest;
  sha256_bytes = λ bytes. "4444444444444444444444444444444444444444444444444444444444444444";
  loads = λ t. if t == "{\"title\":\"Two chairs\"}" then some payload else none;
  loads_bytes = λ bytes. some manifest;
  json_valid = λ t. true;
  resolve = λ t. t;
}

abbrev pub files : Files
files = record {
  lstat = λ t. some (record { is_symlink = false; is_regular = true; mode = 33152 });
  is_file = λ t. true;
  is_dir = λ t. true;
  read_bytes = λ t. some (123 ∷ 125 ∷ []);
}

abbrev site : Site
site = record { canonicalize_url = λ u. ok u; listing_id_from_url = λ u. ok "77" }

abbrev pub sites : Sites
sites = record { craigslist = site; facebook_marketplace = site }

abbrev pub runtime : RuntimeIdentity
runtime = record {
  source = "craigslist";
  account_alias = "main";
  route = "home";
  provider = "local";
  egress_identity = "egress";
  proxy_identity = "none";
  profile_dir = "/profiles/main";
  browser_major_version = "131";
  display_mode = "headed";
  viewport = "1280x800";
  evidence_root = "/evidence";
}

abbrev stat : FileStat
stat = record { is_regular = true; nlink = 1; dev = 1; ino = 9 }

abbrev pub sighting : Sighting
sighting = record {
  descriptor_stat = stat;
  pathname_stat = some stat;
  marker = some "pid=7\nlease_id=lease\n";
  owner_runs = true;
  kernel_lock = some (record { is_write_lock = true; owner_pid = 7 });
}

abbrev pub profile_lock : ProfileLock
profile_lock = record {
  profile_dir = "/profiles/main";
  file_open = true;
  lease = some "lease";
  owner_pid = some 7;
}

abbrev pub lock : LockView
lock = record { lock = profile_lock; sight = λ round. sighting }

abbrev pub policy : PolicyRow
policy = record {
  source = "craigslist";
  account_alias = "main";
  mode = approved_write;
  certification_ttl_hours = 24;
  execution_timeout_minutes = 15;
  updated_at = utc 1;
}

abbrev approver : ApproverRow
approver = record {
  provider = "telegram";
  external_user_id = "u1";
  operator_alias = "owner";
  active = true;
  created_at = utc 1;
  updated_at = utc 1;
}

abbrev health : HealthInput
health = record {
  source = "craigslist";
  status = healthy;
  account_alias = "main";
  route = some "home";
  detail = none;
  evidence_path = none;
  checked_at = none;
  certified_at = some (aware 2);
  runtime = some runtime;
  profile_lock = some lock;
}

abbrev campaign : CampaignInput
campaign = record {
  campaign_id = "c1";
  name = "Chairs";
  business_alias = "shop";
  offer_id = "o1";
  status = "active";
  cooldown_hours = 48;
  config = object end_fields;
}

abbrev pub request : ProposalRequest
request = record {
  source = "craigslist";
  action_type = "publish_listing";
  payload = payload;
  account_alias = "main";
  campaign_id = some "c1";
}

abbrev pub proposed : ProposedAction
proposed = record {
  id = "p1";
  source = "craigslist";
  action_type = "publish_listing";
  payload = payload;
  payload_hash = "2222222222222222222222222222222222222222222222222222222222222222";
  idempotency_key = "3333333333333333333333333333333333333333333333333333333333333333";
  account_alias = "main";
  campaign_id = some "c1";
  attempt = 1;
  retry_of = none;
}

abbrev pub approval_request : ApprovalRequest
approval_request = record {
  proposed = proposed;
  approver = "u1";
  expires_at = aware 1800000000;
  provider = "telegram";
}

abbrev pub envelope : ApprovalEnvelope
envelope = record {
  approval_id = "ok1";
  proposed_action_id = "p1";
  approved_payload_hash = "2222222222222222222222222222222222222222222222222222222222222222";
  approver = "telegram:u1:owner";
  expires_at = aware 1800000000;
  status = "approved";
}

abbrev pub begin_request : BeginRequest
begin_request = record {
  proposed = proposed;
  current_payload = payload;
  approval = envelope;
  runtime = runtime;
  lock = lock;
  now = none;
  clock = 12;
  action_id = "a1";
  execution_token = "token";
}

abbrev pub reservation : ExecutionReservation
reservation = record {
  action_id = "a1";
  payload_json = "{\"title\":\"Two chairs\"}";
  payload_hash = "2222222222222222222222222222222222222222222222222222222222222222";
  execution_token = some "token";
}

abbrev pub submit_request : SubmitRequest
submit_request = record { reservation = reservation; runtime = runtime; lock = lock; clock = 14 }

abbrev pub finish_request : FinishRequest
finish_request = record {
  action_id = "a1";
  status = "succeeded";
  platform_external_id = some "77";
  platform_url = some "https://craigslist.org/77.html";
  evidence_path = some "/evidence/a1.json";
  error_class = none;
  error_detail = none;
  runtime = runtime;
  lock = lock;
  clock = 16;
}

-- The calls of the operators, and those of a listing's life up to each of its stages.
abbrev pub setup : List Call
setup =
    set_policy policy
    ∷ set_approver approver
    ∷ set_health files health 3
    ∷ set_campaign campaign 4
    ∷ []

abbrev pub to_proposed : List Call
to_proposed = setup ++ (propose request "p1" 5 6 ∷ [])

abbrev pub to_approved : List Call
to_approved = to_proposed ++ (approve approval_request "ok1" 7 8 ∷ [])

abbrev pub to_begun : List Call
to_begun = to_approved ++ (begin begin_request ∷ [])

abbrev pub to_marked : List Call
to_marked = to_begun ++ (mark submit_request ∷ [])

-- A life in which the executor submits twice and the outcome is recorded twice.
abbrev pub life : List Call
life =
    to_marked
    ++ (mark submit_request
        ∷ finish files finish_request
        ∷ finish files finish_request
        ∷ begin begin_request
        ∷ [])
