-- ===== src/Policy.antt =====
-- policy.py: the fail-closed gates in front of reads and external writes, payload hashes and
-- idempotency keys.
pub mod Gates
use Prim.Native.String.{◌++◌}
use event_lead_ops_agent.Prelude.{
  ℕ, String, Bool, true, false, not, Option, none, some, Result, ok, err, ◌>>=◌, ◌>>◌, raise_if,
  ensure, policy_violation, ◌==◌, truthy, if◌then◌else◌,
}
use event_lead_ops_agent.Json.{Json, canonical_json}
use event_lead_ops_agent.Host.{Host, decimal}
use event_lead_ops_agent.Time.{DateTime, aware, le_datetime}
use event_lead_ops_agent.Models.{
  OperationMode, disabled, observe, draft, approved_write, template_reply, HealthStatus, unverified,
  healthy, challenged, blocked_auth, rate_limited, paused, waiting_for_reauth, error,
  is_approved_write, is_healthy,
}

-- `BLOCKING_HEALTH`
abbrev pub is_blocking : HealthStatus → Bool
is_blocking unverified = true
is_blocking healthy = false
is_blocking challenged = true
is_blocking blocked_auth = true
is_blocking rate_limited = true
is_blocking paused = true
is_blocking waiting_for_reauth = true
is_blocking error = true

unfoldable pub payload_hash : Host → Json → String
payload_hash h payload = h.sha256 (canonical_json payload)

-- `campaign_id or "no-campaign"`
abbrev pub campaign_part : Option String → String
campaign_part none = "no-campaign"
campaign_part (some c) = if c == "" then "no-campaign" else c

unfoldable pub make_idempotency_key :
    Host → String → String → Option String → String → Json → ℕ → String
make_idempotency_key h source account_alias campaign_id action_type payload attempt = h.sha256 (
    source
    ++ ("\n"
        ++ (account_alias
            ++ ("\n"
                ++ (campaign_part campaign_id
                    ++ ("\n"
                        ++ (action_type
                            ++ ("\n"
                                ++ (payload_hash h payload ++ ("\n" ++ decimal attempt))))))))))

pub record ApprovalEnvelope : Type 0 where
  pub approval_id : String
  pub proposed_action_id : String
  pub approved_payload_hash : String
  pub approver : String
  pub expires_at : DateTime
  pub status : String

abbrev pub reads_allowed : OperationMode → Bool
reads_allowed observe = true
reads_allowed draft = true
reads_allowed approved_write = true
reads_allowed _ = false

unfoldable pub assert_read_allowed : OperationMode → HealthStatus → Result (Unit {0})
assert_read_allowed mode health = do
  ensure (reads_allowed mode) (policy_violation "read blocked in mode")
  raise_if (is_blocking health) (policy_violation "source health blocks read")
  ok tt

-- `now or datetime.now(UTC)`, the clock's reading being the last argument.
abbrev pub now_or : Option DateTime → ℕ → DateTime
now_or none clock = aware clock
now_or (some now) clock = now

unfoldable pub assert_write_allowed :
    Host
    → OperationMode
    → HealthStatus
    → String
    → Json
    → ApprovalEnvelope
    → Option DateTime
    → ℕ
    → Result (Unit {0})
assert_write_allowed h mode health proposed_action_id current_payload approval now clock = do
  let now' = now_or now clock
  ensure (is_approved_write mode) (policy_violation "external write blocked in mode")
  ensure (is_healthy health) (policy_violation "external write blocked by source health")
  ensure (approval.status == "approved") (policy_violation "approval status is")
  ensure (approval.proposed_action_id == proposed_action_id)
      (policy_violation "approval belongs to a different proposed action")
  expired ← le_datetime approval.expires_at now'
  raise_if expired (policy_violation "approval expired")
  ensure (approval.approved_payload_hash == payload_hash h current_payload)
      (policy_violation "payload changed after approval")
  ok tt
