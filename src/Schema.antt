-- ===== src/Schema.antt =====
-- The tables of migrations/*.sql that the store reads and writes, one record type for each row.
-- A status column is an enumeration of what its CHECK constraint admits.
pub mod Constraints
pub mod Searches
use event_lead_ops_agent.Prelude.{ℕ, String, Bool, true, false, Option, List, []}
use event_lead_ops_agent.Time.{Stamp}
use event_lead_ops_agent.Models.{OperationMode, HealthStatus}

pub data ProposalStatus : Type 0 where
  draft pending_approval approved executing succeeded rejected expired failed needs_reconciliation :
      ProposalStatus

pub data ApprovalStatus : Type 0 where
  approved rejected expired consumed : ApprovalStatus

pub data ActionStatus : Type 0 where
  executing succeeded failed needs_reconciliation : ActionStatus

pub data CampaignStatus : Type 0 where
  draft active paused archived : CampaignStatus

pub record PolicyRow : Type 0 where
  pub source : String
  pub account_alias : String
  pub mode : OperationMode
  pub certification_ttl_hours : ℕ
  pub execution_timeout_minutes : ℕ
  pub updated_at : Stamp

pub record ApproverRow : Type 0 where
  pub provider : String
  pub external_user_id : String
  pub operator_alias : String
  pub active : Bool
  pub created_at : Stamp
  pub updated_at : Stamp

pub record HealthRow : Type 0 where
  pub source : String
  pub account_alias : String
  pub status : HealthStatus
  pub route : Option String
  pub browser_version : Option String
  pub checked_at : Stamp
  pub certified_at : Option Stamp
  pub detail : Option String
  pub evidence_path : Option String
  pub runtime_fingerprint : Option String
  pub runtime_json : Option String
  pub evidence_root : Option String

pub record CampaignRow : Type 0 where
  pub id : String
  pub name : String
  pub business_alias : String
  pub offer_id : String
  pub status : CampaignStatus
  pub config_json : String
  pub cooldown_hours : ℕ
  pub created_at : Stamp
  pub updated_at : Stamp

pub record ProposedRow : Type 0 where
  pub id : String
  pub source : String
  pub account_alias : String
  pub campaign_id : Option String
  pub action_type : String
  pub payload_json : String
  pub payload_hash : String
  pub idempotency_key : String
  pub status : ProposalStatus
  pub created_at : Stamp
  pub updated_at : Stamp
  pub attempt : ℕ
  pub retry_of : Option String
  pub cooldown_hours : Option ℕ

pub record ApprovalRow : Type 0 where
  pub id : String
  pub proposed_action_id : String
  pub payload_hash : String
  pub approver : String
  pub status : ApprovalStatus
  pub created_at : Stamp
  pub expires_at : Stamp
  pub consumed_at : Option Stamp

pub record ActionRow : Type 0 where
  pub id : String
  pub proposed_action_id : String
  pub approval_id : String
  pub source : String
  pub action_type : String
  pub idempotency_key : String
  pub payload_json : String
  pub payload_hash : String
  pub execution_token_hash : Option String
  pub status : ActionStatus
  pub platform_external_id : Option String
  pub platform_url : Option String
  pub evidence_path : Option String
  pub evidence_sha256 : Option String
  pub started_at : Stamp
  pub submission_started_at : Option Stamp
  pub finished_at : Option Stamp
  pub error_class : Option String
  pub error_detail : Option String
  pub runtime_fingerprint : Option String
  pub profile_lock_lease_id : Option String
  pub evidence_root : Option String

pub record Db : Type 0 where
  pub source_policies : List PolicyRow
  pub authorized_approvers : List ApproverRow
  pub source_health : List HealthRow
  pub campaigns : List CampaignRow
  pub proposed_actions : List ProposedRow
  pub approvals : List ApprovalRow
  pub actions : List ActionRow

abbrev pub empty : Db
empty = record {
  source_policies = [];
  authorized_approvers = [];
  source_health = [];
  campaigns = [];
  proposed_actions = [];
  approvals = [];
  actions = [];
}

abbrev pub is_pending : ProposalStatus → Bool
is_pending ProposalStatus.pending_approval = true
is_pending _ = false

abbrev pub is_failed : ProposalStatus → Bool
is_failed ProposalStatus.failed = true
is_failed _ = false

-- `status IN ('pending_approval', 'approved', 'executing', 'needs_reconciliation')`
abbrev pub is_unresolved : ProposalStatus → Bool
is_unresolved ProposalStatus.pending_approval = true
is_unresolved ProposalStatus.approved = true
is_unresolved ProposalStatus.executing = true
is_unresolved ProposalStatus.needs_reconciliation = true
is_unresolved _ = false

abbrev pub is_proposal_approved : ProposalStatus → Bool
is_proposal_approved ProposalStatus.approved = true
is_proposal_approved _ = false

abbrev pub is_approved : ApprovalStatus → Bool
is_approved ApprovalStatus.approved = true
is_approved _ = false

-- `status in {"approved", "consumed"}`
abbrev pub is_available : ApprovalStatus → Bool
is_available ApprovalStatus.approved = true
is_available ApprovalStatus.consumed = true
is_available _ = false

abbrev pub is_executing : ActionStatus → Bool
is_executing ActionStatus.executing = true
is_executing _ = false

abbrev pub is_action_failed : ActionStatus → Bool
is_action_failed ActionStatus.failed = true
is_action_failed _ = false

abbrev pub is_succeeded : ActionStatus → Bool
is_succeeded ActionStatus.succeeded = true
is_succeeded _ = false
