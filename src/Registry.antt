-- ===== src/Registry.antt =====
-- The tables that operators keep: record_source_policy, record_authorized_approver,
-- record_source_health, upsert_campaign and status_summary of db.py. None of them raises after its
-- statement, so each commits what it returns or leaves the database as it was.
pub mod Policies
use event_lead_ops_agent.Prelude.{
  ℕ, String, Bool, true, false, not, ◌&&◌, ◌||◌, Option, none, some, List, [], ◌∷◌, map, Result, ok,
  err, ◌>>=◌, ◌>>◌, raise_if, ensure, or_raise, value_error, ◌==◌, truthy, ltb, leb, nat_eq,
  if◌then◌else◌, update_where, count,
}
use event_lead_ops_agent.Json.{Json, dumps}
use event_lead_ops_agent.Host.{Host, Files}
use event_lead_ops_agent.Time.{DateTime, aware, Stamp, utc, iso, require_aware}
use event_lead_ops_agent.Models.{
  OperationMode, HealthStatus, is_healthy, RuntimeIdentity, as_dict, fingerprint,
}
use event_lead_ops_agent.ProfileLock.{LockView, assert_owned}
use event_lead_ops_agent.Schema.{
  PolicyRow, ApproverRow, HealthRow, CampaignRow, CampaignStatus, ProposedRow, ActionRow, Db,
  is_pending, is_succeeded, ActionStatus,
}
use event_lead_ops_agent.Schema.Constraints.{exists}
use event_lead_ops_agent.Transaction.{transaction}

-- INSERT … ON CONFLICT(key) DO UPDATE SET …: the row with the key is changed, or the new one added.
unfoldable pub upsert {ℓ} : {A : Type ℓ} → (A → Bool) → (A → A) → A → List A → List A
upsert same_key change row rows =
    if exists same_key rows then update_where same_key change rows else row ∷ rows

abbrev pub policy_key : String → String → PolicyRow → Bool
policy_key source account_alias r = r.source == source && r.account_alias == account_alias

-- `row.updated_at` holds the clock's reading; the other fields are the arguments.
unfoldable pub record_source_policy_body : PolicyRow → Db → Result (Unit {0} × Db)
record_source_policy_body row db = do
  ensure (leb 1 row.certification_ttl_hours && leb row.certification_ttl_hours 24)
      (value_error "certification TTL must be at most 24 hours and positive")
  raise_if (nat_eq row.execution_timeout_minutes 0)
      (value_error "policy durations must be positive")
  ok (
    tt,
    record db {
      source_policies =
          upsert (policy_key row.source row.account_alias)
            (λ r. record r {
              mode = row.mode;
              certification_ttl_hours = row.certification_ttl_hours;
              execution_timeout_minutes = row.execution_timeout_minutes;
              updated_at = row.updated_at;
            })
            row db.source_policies;
    },
  )

unfoldable pub record_source_policy : PolicyRow → Db → Result (Unit {0}) × Db
unfolding record_source_policy_body
record_source_policy row = transaction (record_source_policy_body row)

abbrev pub approver_key : String → String → ApproverRow → Bool
approver_key provider user r = r.provider == provider && r.external_user_id == user

-- `row.created_at` and `row.updated_at` hold the clock's reading.
unfoldable pub record_authorized_approver_body : ApproverRow → Db → Result (Unit {0} × Db)
record_authorized_approver_body row db = do
  raise_if (row.external_user_id == "" || row.operator_alias == "")
      (value_error "approver ID and alias are required")
  ok (
    tt,
    record db {
      authorized_approvers =
          upsert (approver_key row.provider row.external_user_id)
            (λ r. record r {
              operator_alias = row.operator_alias;
              active = row.active;
              updated_at = row.updated_at;
            })
            row db.authorized_approvers;
    },
  )

unfoldable pub record_authorized_approver : ApproverRow → Db → Result (Unit {0}) × Db
unfolding record_authorized_approver_body
record_authorized_approver row = transaction (record_authorized_approver_body row)

-- The keyword arguments of record_source_health.
pub record HealthInput : Type 0 where
  pub source : String
  pub status : HealthStatus
  pub account_alias : String
  pub route : Option String
  pub detail : Option String
  pub evidence_path : Option String
  pub checked_at : Option DateTime
  pub certified_at : Option DateTime
  pub runtime : Option RuntimeIdentity
  pub profile_lock : Option LockView

-- What the healthy branch establishes: the certification time in UTC, and the runtime.
unfoldable pub certify :
    Host → Files → HealthInput → DateTime → RuntimeIdentity → LockView → ℕ → Result ℕ
certify h files q certified_at runtime lock clock = do
  ensure
      (runtime.source == q.source
        && (runtime.account_alias == q.account_alias
            && (elim q.route [ none ↦ false | some r ↦ runtime.route == r ])))
      (value_error "runtime identity does not match health identity")
  certified ← require_aware certified_at "health certification time must be timezone-aware"
  raise_if (ltb clock certified) (value_error "health certification time cannot be in the future")
  assert_owned h lock.lock runtime.profile_dir none (lock.sight 0) (lock.sight 1)
  ensure (files.is_dir runtime.evidence_root)
      (value_error "runtime evidence root must be an existing directory")
  ok certified

abbrev pub all_given : HealthInput → Option (DateTime × RuntimeIdentity × LockView)
all_given q = if not (truthy q.route) then none else elim q.certified_at [
  | none ↦ none
  | some c ↦ elim q.runtime [
    | none ↦ none
    | some r ↦ elim q.profile_lock [ none ↦ none | some l ↦ some (c, r, l) ]
  ]
]

-- The columns that only a healthy source fills, and the time that is stored as `certified_at`.
abbrev pub Certificate : Type 0
Certificate = Option String × Option String × Option DateTime

unfoldable pub certificate : Host → Files → HealthInput → ℕ → Result Certificate
certificate h files q clock =
    if is_healthy q.status
    then (do
      (certified_at, runtime, lock) ← or_raise (all_given q) (
          value_error
            "healthy status requires route, certification time, runtime, and profile lock")
      certified ← certify h files q certified_at runtime lock clock
      ok (some (fingerprint h runtime), some (dumps (as_dict runtime)), some (aware certified)))
    else ok (none, none, q.certified_at)

-- `iso(value)` of an optional time; where there is none, `otherwise`.
abbrev pub iso_or : Option DateTime → Option Stamp → Result (Option Stamp)
iso_or none otherwise = ok otherwise
iso_or (some t) otherwise = iso t >>= λ s. ok (some s)

abbrev pub health_key : String → String → HealthRow → Bool
health_key source account_alias r = r.source == source && r.account_alias == account_alias

abbrev pub runtime_field : (RuntimeIdentity → String) → Option RuntimeIdentity → Option String
runtime_field f none = none
runtime_field f (some r) = some (f r)

unfoldable pub health_row : HealthInput → Certificate → Stamp → Option Stamp → HealthRow
health_row q c checked_at certified_at = record {
  source = q.source;
  account_alias = q.account_alias;
  status = q.status;
  route = q.route;
  browser_version = runtime_field (λ r. r.browser_major_version) q.runtime;
  checked_at = checked_at;
  certified_at = certified_at;
  detail = q.detail;
  evidence_path = q.evidence_path;
  runtime_fingerprint = c.0;
  runtime_json = c.1;
  evidence_root = runtime_field (λ r. r.evidence_root) q.runtime;
}

abbrev pub now_or_time : Option DateTime → ℕ → DateTime
now_or_time none clock = aware clock
now_or_time (some t) clock = t

-- The UPDATE sets every column but the key, which the new row shares.
unfoldable pub record_source_health_body :
    Host → Files → HealthInput → ℕ → Db → Result (Unit {0} × Db)
unfolding certificate health_row
record_source_health_body h files q clock db = do
  c ← certificate h files q clock
  checked_at ← iso (now_or_time q.checked_at clock)
  certified_at ← iso_or c.2 none
  let row = health_row q c checked_at certified_at
  ok (
    tt,
    record db {
      source_health = upsert (health_key q.source q.account_alias) (λ r. row) row db.source_health;
    },
  )

unfoldable pub record_source_health : Host → Files → HealthInput → ℕ → Db → Result (Unit {0}) × Db
unfolding record_source_health_body
record_source_health h files q clock = transaction (record_source_health_body h files q clock)

unfoldable pub campaign_status_of : String → Option CampaignStatus
campaign_status_of status =
    if status == "draft"
    then some CampaignStatus.draft
    else if status == "active"
    then some CampaignStatus.active
    else if status == "paused"
    then some CampaignStatus.paused
    else if status == "archived"
    then some CampaignStatus.archived
    else none

-- The keyword arguments of upsert_campaign; `config` is `{}` where none is given.
pub record CampaignInput : Type 0 where
  pub campaign_id : String
  pub name : String
  pub business_alias : String
  pub offer_id : String
  pub status : String
  pub cooldown_hours : ℕ
  pub config : Json

abbrev pub campaign_row : CampaignInput → CampaignStatus → ℕ → CampaignRow
campaign_row q status now = record {
  id = q.campaign_id;
  name = q.name;
  business_alias = q.business_alias;
  offer_id = q.offer_id;
  status = status;
  config_json = dumps q.config;
  cooldown_hours = q.cooldown_hours;
  created_at = utc now;
  updated_at = utc now;
}

unfoldable pub upsert_campaign_body : CampaignInput → ℕ → Db → Result (Unit {0} × Db)
unfolding campaign_status_of
upsert_campaign_body q now db = do
  status ← or_raise (campaign_status_of q.status) (value_error "invalid campaign status")
  raise_if (nat_eq q.cooldown_hours 0)
      (value_error "campaign cooldown_hours must be a positive integer")
  let row = campaign_row q status now
  ok (
    tt,
    record db {
      campaigns =
          upsert (λ r. r.id == q.campaign_id) (λ r. record row { created_at = r.created_at }) row
            db.campaigns;
    },
  )

unfoldable pub upsert_campaign : CampaignInput → ℕ → Db → Result (Unit {0}) × Db
unfolding upsert_campaign_body
upsert_campaign q now = transaction (upsert_campaign_body q now)

abbrev pub needs_reconciliation : ActionStatus → Bool
needs_reconciliation ActionStatus.needs_reconciliation = true
needs_reconciliation _ = false

pub record HealthView : Type 0 where
  pub source : String
  pub account_alias : String
  pub status : HealthStatus
  pub route : Option String
  pub checked_at : Stamp
  pub certified_at : Option Stamp

abbrev pub health_view : HealthRow → HealthView
health_view r = record {
  source = r.source;
  account_alias = r.account_alias;
  status = r.status;
  route = r.route;
  checked_at = r.checked_at;
  certified_at = r.certified_at;
}

-- The counts of status_summary but that of `source_records`, which Cli adds, and its health rows.
pub record Summary : Type 0 where
  pub pending_approvals : ℕ
  pub actions_succeeded : ℕ
  pub actions_needing_reconciliation : ℕ
  pub health : List HealthView

unfoldable pub status_summary : Db → Summary
status_summary db = record {
  pending_approvals = count (λ r. is_pending r.status) db.proposed_actions;
  actions_succeeded = count (λ r. is_succeeded r.status) db.actions;
  actions_needing_reconciliation = count (λ r. needs_reconciliation r.status) db.actions;
  health = map health_view db.source_health;
}
