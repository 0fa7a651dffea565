-- ===== src/Models.antt =====
-- The data types of models.py.
pub mod Identity
use event_lead_ops_agent.Prelude.{ℤ, ℕ, String, Bool, true, false, Option, none, some}
use event_lead_ops_agent.Json.{Json, text, object, field, end_fields, dumps}
use event_lead_ops_agent.Host.{Host}
use event_lead_ops_agent.Time.{DateTime}

pub data OperationMode : Type 0 where
  disabled observe draft approved_write template_reply : OperationMode

pub data HealthStatus : Type 0 where
  unverified healthy challenged blocked_auth rate_limited paused waiting_for_reauth error :
      HealthStatus

abbrev pub is_approved_write : OperationMode → Bool
is_approved_write approved_write = true
is_approved_write _ = false

abbrev pub is_healthy : HealthStatus → Bool
is_healthy healthy = true
is_healthy _ = false

pub record RuntimeIdentity : Type 0 where
  pub source : String
  pub account_alias : String
  pub route : String
  pub provider : String
  pub egress_identity : String
  pub proxy_identity : String
  pub profile_dir : String
  pub browser_major_version : String
  pub display_mode : String
  pub viewport : String
  pub evidence_root : String

unfoldable pub as_dict : RuntimeIdentity → Json
as_dict r = object (
    field "source" (text r.source) (
      field "account_alias" (text r.account_alias) (
        field "route" (text r.route) (
          field "provider" (text r.provider) (
            field "egress_identity" (text r.egress_identity) (
              field "proxy_identity" (text r.proxy_identity) (
                field "profile_dir" (text r.profile_dir) (
                  field "browser_major_version" (text r.browser_major_version) (
                    field "display_mode" (text r.display_mode) (
                      field "viewport" (text r.viewport)
                        (field "evidence_root" (text r.evidence_root) end_fields)))))))))))

unfoldable pub fingerprint : Host → RuntimeIdentity → String
fingerprint h r = h.sha256 (dumps (as_dict r))

pub record ProposedAction : Type 0 where
  pub id : String
  pub source : String
  pub action_type : String
  pub payload : Json
  pub payload_hash : String
  pub idempotency_key : String
  pub account_alias : String
  pub campaign_id : Option String
  pub attempt : ℕ
  pub retry_of : Option String

pub record ExecutionReservation : Type 0 where
  pub action_id : String
  pub payload_json : String
  pub payload_hash : String
  pub execution_token : Option String

abbrev pub should_execute : ExecutionReservation → Bool
should_execute r = elim r.execution_token [ none ↦ false | some t ↦ true ]

pub record SourceRecord : Type 0 where
  pub source : String
  pub external_id : String
  pub record_type : String
  pub canonical_url : String
  pub title : String
  pub body : String
  pub location : String
  pub price_minor : Option ℤ
  pub currency : Option String
  pub posted_at : Option DateTime
  pub metadata : Json
  pub raw_evidence_path : Option String
