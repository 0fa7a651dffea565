-- ===== src/Lifecycle.antt =====
-- The machine of proposals, approvals and actions: partial maps by ID, whose changes are the writes that
-- calls of db.py make to these tables.
pub mod Invariant
pub mod Statements
pub mod History
pub mod Refines
use event_lead_ops_agent.Prelude.{
  ℕ, String, ◌≡◌, Bool, true, false, Option, none, some, put, truthy,
}
use event_lead_ops_agent.Time.{Stamp, utc}
use event_lead_ops_agent.Schema.{
  ProposalStatus, ApprovalStatus, ActionStatus, ProposedRow, ApprovalRow, ActionRow, Db,
  is_executing, is_succeeded, is_action_failed,
}
use event_lead_ops_agent.Schema.Constraints.{Outcome, proposal_by_id, approval_by_id, action_by_id}
use event_lead_ops_agent.Executions.Submit.{is_set}

-- The three tables, as maps from IDs.
pub record View : Type 0 where
  pub proposals : String → Option ProposedRow
  pub approvals : String → Option ApprovalRow
  pub actions : String → Option ActionRow

abbrev pub view : Db → View
view db = record {
  proposals = λ k. proposal_by_id k db;
  approvals = λ k. approval_by_id k db;
  actions = λ k. action_by_id k db;
}

-- The status that an action's proposal shares with it.
abbrev pub mirrored : ActionStatus → ProposalStatus
mirrored ActionStatus.executing = ProposalStatus.executing
mirrored ActionStatus.succeeded = ProposalStatus.succeeded
mirrored ActionStatus.failed = ProposalStatus.failed
mirrored ActionStatus.needs_reconciliation = ProposalStatus.needs_reconciliation

-- An action carries what its proposal and its approval say.
pub record Authorized (a : ActionRow) (p : ProposedRow) (ap : ApprovalRow) : Type 0 where
  pub of_proposal : a.proposed_action_id ≡ p.id
  pub of_approval : a.approval_id ≡ ap.id
  pub for_proposal : ap.proposed_action_id ≡ p.id
  pub same_source : a.source ≡ p.source
  pub same_type : a.action_type ≡ p.action_type
  pub same_key : a.idempotency_key ≡ p.idempotency_key
  pub same_json : a.payload_json ≡ p.payload_json
  pub same_hash : a.payload_hash ≡ p.payload_hash
  pub approved_hash : ap.payload_hash ≡ p.payload_hash

-- What an action's flags say of its life: a capability is there until the submission or the end;
-- success follows a submission and has evidence; failure is an evidenced `confirmed_no_submit`.
pub record Flags (a : ActionRow) : Type 0 where
  pub capable :
      is_executing a.status ≡ true
      → is_set a.submission_started_at ≡ false
      → truthy a.execution_token_hash ≡ true
  pub spent : is_set a.submission_started_at ≡ true → a.execution_token_hash ≡ none
  pub ended : is_executing a.status ≡ false → a.execution_token_hash ≡ none
  pub success :
      is_succeeded a.status ≡ true
      → (is_set a.submission_started_at ≡ true) × (is_set a.finished_at ≡ true)
  pub failure :
      is_action_failed a.status ≡ true
      → (is_set a.submission_started_at ≡ false) × (a.error_class ≡ some "confirmed_no_submit")

-- The columns of an action that a trigger keeps as the reservation wrote them, and the marker.
pub record SameReservation (a b : ActionRow) : Type 0 where
  pub id : b.id ≡ a.id
  pub proposed_action_id : b.proposed_action_id ≡ a.proposed_action_id
  pub approval_id : b.approval_id ≡ a.approval_id
  pub source : b.source ≡ a.source
  pub action_type : b.action_type ≡ a.action_type
  pub idempotency_key : b.idempotency_key ≡ a.idempotency_key
  pub payload_json : b.payload_json ≡ a.payload_json
  pub payload_hash : b.payload_hash ≡ a.payload_hash
  pub started_at : b.started_at ≡ a.started_at
  pub submission_started_at : b.submission_started_at ≡ a.submission_started_at
  pub runtime_fingerprint : b.runtime_fingerprint ≡ a.runtime_fingerprint
  pub profile_lock_lease_id : b.profile_lock_lease_id ≡ a.profile_lock_lease_id
  pub evidence_root : b.evidence_root ≡ a.evidence_root

-- Rows after the statements that change them.
abbrev pub with_status : ProposalStatus → ℕ → ProposedRow → ProposedRow
with_status status now r = record r { status = status; updated_at = utc now }

abbrev pub consumed_at : ℕ → ApprovalRow → ApprovalRow
consumed_at now r = record r { status = ApprovalStatus.consumed; consumed_at = some (utc now) }

abbrev pub submitted_at : ℕ → ActionRow → ActionRow
submitted_at now r = record r {
  submission_started_at = some (utc now);
  execution_token_hash = none;
}

-- One change, by the call that makes it. `end` covers an outcome and a stale execution: the action
-- is no longer executing, nothing of its reservation or its submission changes, and its flags are
-- those of its new status.
pub data Change (v w : View) : Type 0 where
  stay : w ≡ v → Change v w
  propose :
      (row : ProposedRow)
      → v.proposals row.id ≡ none
      → row.status ≡ ProposalStatus.pending_approval
      → w ≡ record v { proposals = put row.id row v.proposals }
      → Change v w
  approve :
      (p : ProposedRow) (row : ApprovalRow) (now : ℕ)
      → v.proposals p.id ≡ some p
      → p.status ≡ ProposalStatus.pending_approval
      → v.approvals row.id ≡ none
      → row.status ≡ ApprovalStatus.approved
      → row.proposed_action_id ≡ p.id
      → row.payload_hash ≡ p.payload_hash
      → w ≡ record v {
        proposals = put p.id (with_status ProposalStatus.approved now p) v.proposals;
        approvals = put row.id row v.approvals;
      }
      → Change v w
  reserve :
      (p : ProposedRow) (ap : ApprovalRow) (a : ActionRow) (now : ℕ)
      → v.proposals p.id ≡ some p
      → p.status ≡ ProposalStatus.approved
      → v.approvals ap.id ≡ some ap
      → ap.status ≡ ApprovalStatus.approved
      → v.actions a.id ≡ none
      → a.status ≡ ActionStatus.executing
      → a.submission_started_at ≡ none
      → truthy a.execution_token_hash ≡ true
      → Authorized a p ap
      → w ≡ record {
        proposals = put p.id (with_status ProposalStatus.executing now p) v.proposals;
        approvals = put ap.id (consumed_at now ap) v.approvals;
        actions = put a.id a v.actions;
      }
      → Change v w
  submit :
      (a : ActionRow) (now : ℕ)
      → v.actions a.id ≡ some a
      → a.status ≡ ActionStatus.executing
      → a.submission_started_at ≡ none
      → w ≡ record v { actions = put a.id (submitted_at now a) v.actions }
      → Change v w
  end :
      (a b : ActionRow) (p : ProposedRow) (now : ℕ)
      → v.actions a.id ≡ some a
      → a.status ≡ ActionStatus.executing
      → is_executing b.status ≡ false
      → v.proposals p.id ≡ some p
      → a.proposed_action_id ≡ p.id
      → SameReservation a b
      → Flags b
      → w ≡ record v {
        proposals = put p.id (with_status (mirrored b.status) now p) v.proposals;
        actions = put a.id b v.actions;
      }
      → Change v w
