-- ===== src/Approvals.antt =====
-- create_approval of db.py.
pub mod Granting
use Prim.Native.String.{◌++◌}
use event_lead_ops_agent.Prelude.{
  ℕ, ◌+◌, String, Bool, ◌&&◌, Option, none, some, Result, ok, err, ◌>>=◌, ◌>>◌, raise_if, ensure,
  or_raise, value_error, runtime_error, key_error, permission_error, ◌==◌, ltb, leb, find,
}
use event_lead_ops_agent.Host.{Host}
use event_lead_ops_agent.Time.{DateTime, aware, Stamp, utc, minutes, require_aware}
use event_lead_ops_agent.Models.{ProposedAction}
use event_lead_ops_agent.Policy.{ApprovalEnvelope}
use event_lead_ops_agent.Schema.{
  ProposalStatus, ApprovalStatus, ApproverRow, ApprovalRow, Db, is_pending,
}
use event_lead_ops_agent.Schema.Constraints.{proposal_by_id, insert_approval, set_proposal_status}
use event_lead_ops_agent.Transaction.{transaction}

-- The keyword arguments of create_approval.
pub record ApprovalRequest : Type 0 where
  pub proposed : ProposedAction
  pub approver : String
  pub expires_at : DateTime
  pub provider : String

-- SELECT … FROM authorized_approvers WHERE provider=? AND external_user_id=? AND active=1
abbrev pub active_approver : String → String → Db → Option ApproverRow
active_approver provider user db =
    find (λ r. r.provider == provider && (r.external_user_id == user && r.active))
      db.authorized_approvers

abbrev pub audit_name : ApprovalRequest → ApproverRow → String
audit_name q a = q.provider ++ (":" ++ (q.approver ++ (":" ++ a.operator_alias)))

abbrev pub new_approval_row : ApprovalRequest → ApproverRow → String → ℕ → ℕ → ApprovalRow
new_approval_row q a approval_id created_at expires_at = record {
  id = approval_id;
  proposed_action_id = q.proposed.id;
  payload_hash = q.proposed.payload_hash;
  approver = audit_name q a;
  status = ApprovalStatus.approved;
  created_at = utc created_at;
  expires_at = utc expires_at;
  consumed_at = none;
}

abbrev pub new_envelope : ApprovalRequest → ApproverRow → String → ℕ → ApprovalEnvelope
new_envelope q a approval_id expires_at = record {
  approval_id = approval_id;
  proposed_action_id = q.proposed.id;
  approved_payload_hash = q.proposed.payload_hash;
  approver = audit_name q a;
  expires_at = aware expires_at;
  status = "approved";
}

-- The expiry, if it lies in the future by at most 30 minutes.
unfoldable pub checked_expiry : ApprovalRequest → ℕ → Result ℕ
checked_expiry q created_at = do
  expires_at ← require_aware q.expires_at "approval expiry must be timezone-aware"
  raise_if (leb expires_at created_at) (value_error "approval expiry must be in the future")
  raise_if (ltb (created_at + minutes 30) expires_at)
      (value_error "approval expiry cannot exceed 30 minutes")
  ok expires_at

unfoldable pub create_approval_body :
    ApprovalRequest → String → ℕ → ℕ → Db → Result (ApprovalEnvelope × Db)
create_approval_body q approval_id created_at now db = do
  expires_at ← checked_expiry q created_at
  authorized ←
      or_raise (active_approver q.provider q.approver db)
        (permission_error "approver is not authorized")
  stored ← or_raise (proposal_by_id q.proposed.id db) (key_error q.proposed.id)
  ensure (stored.payload_hash == q.proposed.payload_hash)
      (runtime_error "proposed action does not match stored payload")
  ensure (is_pending stored.status) (runtime_error "proposed action is not pending approval")
  db' ← insert_approval (new_approval_row q authorized approval_id created_at expires_at) db
  ok (
    new_envelope q authorized approval_id expires_at,
    set_proposal_status q.proposed.id ProposalStatus.approved now db',
  )

-- `approval_id` is the drawn UUID; `created_at` and `now` are the clock's readings at the start and
-- at the UPDATE.
unfoldable pub create_approval :
    ApprovalRequest → String → ℕ → ℕ → Db → Result ApprovalEnvelope × Db
unfolding create_approval_body
create_approval q approval_id created_at now =
    transaction (create_approval_body q approval_id created_at now)
