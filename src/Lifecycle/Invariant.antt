-- ===== src/Lifecycle/Invariant.antt =====
-- The invariant of the proposal, approval and action tables.
pub mod Grows
pub mod Moves
pub mod Ends
pub mod Changes
use event_lead_ops_agent.Prelude.{
  ℕ, String, ◌≡◌, refl, sym, ap, ◌∙◌, subst, Bool, true, false, Option, none, some, arith, eq_iff,
  ◌==◌, put, truthy, Bool-cases, inl, inr, Option-cases,
}
use event_lead_ops_agent.Schema.{
  ProposalStatus, ApprovalStatus, ActionStatus, ProposedRow, ApprovalRow, ActionRow, is_executing,
  is_pending, is_proposal_approved,
}
use event_lead_ops_agent.Lifecycle.{
  View, mirrored, Authorized, Flags, with_status, consumed_at, submitted_at, Change,
}

-- An action stands under its own ID, beside its proposal, which mirrors its status, and its
-- approval, which is consumed.
pub record ActionOk (v : View) (k : String) (a : ActionRow) : Type 0 where
  pub named : a.id ≡ k
  pub proposal : ProposedRow
  pub proposal_there : v.proposals a.proposed_action_id ≡ some proposal
  pub mirrors : proposal.status ≡ mirrored a.status
  pub approval : ApprovalRow
  pub approval_there : v.approvals a.approval_id ≡ some approval
  pub is_consumed : approval.status ≡ ApprovalStatus.consumed
  pub authorized : Authorized a proposal approval
  pub flags : Flags a

-- An approval stands under its own ID, and its proposal is no longer pending; while it is approved,
-- so is the proposal.
pub record ApprovalOk (v : View) (k : String) (a : ApprovalRow) : Type 0 where
  pub named : a.id ≡ k
  pub proposal : ProposedRow
  pub proposal_there : v.proposals a.proposed_action_id ≡ some proposal
  pub decided : is_pending proposal.status ≡ false
  pub in_step : a.status ≡ ApprovalStatus.approved → proposal.status ≡ ProposalStatus.approved
  pub same_hash : a.payload_hash ≡ proposal.payload_hash

pub record Inv (v : View) : Type 0 where
  pub proposal_named : (k : String) (p : ProposedRow) → v.proposals k ≡ some p → p.id ≡ k
  pub approval_ok : (k : String) (a : ApprovalRow) → v.approvals k ≡ some a → ApprovalOk v k a
  pub action_ok : (k : String) (a : ActionRow) → v.actions k ≡ some a → ActionOk v k a
  pub one_approval :
      (j k : String) (a b : ApprovalRow)
      → v.approvals j ≡ some a
      → v.approvals k ≡ some b
      → a.proposed_action_id ≡ b.proposed_action_id
      → j ≡ k
  pub one_action :
      (j k : String) (a b : ActionRow)
      → v.actions j ≡ some a
      → v.actions k ≡ some b
      → a.proposed_action_id ≡ b.proposed_action_id
      → j ≡ k

module _ {v : View} (w : View) where
  -- What stands beside an action or an approval is enough to keep it in order.
  pub ActionOk-carry :
      {k : String} {a : ActionRow}
      → ActionOk v k a
      → w.proposals a.proposed_action_id ≡ v.proposals a.proposed_action_id
      → w.approvals a.approval_id ≡ v.approvals a.approval_id
      → ActionOk w k a
  ActionOk-carry ok ep ea = record {
    named = ok.named;
    proposal = ok.proposal;
    proposal_there = ep ∙ ok.proposal_there;
    mirrors = ok.mirrors;
    approval = ok.approval;
    approval_there = ea ∙ ok.approval_there;
    is_consumed = ok.is_consumed;
    authorized = ok.authorized;
    flags = ok.flags;
  }

  pub ApprovalOk-carry :
      {k : String} {a : ApprovalRow}
      → ApprovalOk v k a
      → w.proposals a.proposed_action_id ≡ v.proposals a.proposed_action_id
      → ApprovalOk w k a
  ApprovalOk-carry ok ep = record {
    named = ok.named;
    proposal = ok.proposal;
    proposal_there = ep ∙ ok.proposal_there;
    decided = ok.decided;
    in_step = ok.in_step;
    same_hash = ok.same_hash;
  }

pub not_pending : (s : ActionStatus) → is_pending (mirrored s) ≡ false
not_pending s = ground arith

pub not_approved : (s : ActionStatus) → is_proposal_approved (mirrored s) ≡ false
not_approved s = ground arith
