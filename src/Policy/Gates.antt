-- ===== src/Policy/Gates.antt =====
-- The gates of policy.py against what they ask for.
use event_lead_ops_agent.Prelude.{ℕ, ◌<◌, String, ◌≡◌, ◌↔◌, ◌⊎◌, Option, ok, arith, eq_iff}
use event_lead_ops_agent.Json.{Json}
use event_lead_ops_agent.Host.{Host}
use event_lead_ops_agent.Time.{DateTime, naive, aware}
use event_lead_ops_agent.Models.{
  OperationMode, observe, draft, approved_write, HealthStatus, healthy,
}
use event_lead_ops_agent.Policy.{
  assert_read_allowed, assert_write_allowed, ApprovalEnvelope, payload_hash, now_or,
}

-- A time that lies after another, both aware or both naive.
abbrev pub IsBefore : DateTime → DateTime → Type 0
IsBefore (naive a) (naive b) = a < b
IsBefore (aware a) (aware b) = a < b
IsBefore (naive a) (aware b) = ⊥
IsBefore (aware a) (naive b) = ⊥

-- A read passes exactly in the modes observe, draft and approved_write of a healthy source.
pub assert_read_allowed_iff :
    (mode : OperationMode) (health : HealthStatus)
    → (assert_read_allowed mode health ≡ ok tt)
      ↔ ((health ≡ healthy) × ((mode ≡ observe) ⊎ ((mode ≡ draft) ⊎ (mode ≡ approved_write))))
unfolding assert_read_allowed
assert_read_allowed_iff mode state = ground arith

module _ (h : Host) (mode : OperationMode) (health : HealthStatus) (id : String) (payload : Json)
    (approval : ApprovalEnvelope) (now : Option DateTime) (clock : ℕ) where
  -- What an external write needs.
  pub record MayWrite : Type 0 where
    pub mode_approved : mode ≡ approved_write
    pub health_healthy : health ≡ healthy
    pub is_approved : approval.status ≡ "approved"
    pub same_proposal : approval.proposed_action_id ≡ id
    pub unexpired : IsBefore (now_or now clock) approval.expires_at
    pub same_payload : approval.approved_payload_hash ≡ payload_hash h payload

  -- A write passes exactly if the mode is approved_write, the source is healthy, and the approval
  -- is approved, belongs to the proposal, has not expired and carries the payload's hash.
  pub assert_write_allowed_iff :
      (assert_write_allowed h mode health id payload approval now clock ≡ ok tt) ↔ MayWrite
  unfolding assert_write_allowed
  assert_write_allowed_iff = ground (
    arith,
    eq_iff approval.status "approved",
    eq_iff approval.proposed_action_id id,
    eq_iff approval.approved_payload_hash (payload_hash h payload),
  )
