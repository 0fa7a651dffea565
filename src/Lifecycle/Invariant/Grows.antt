-- ===== src/Lifecycle/Invariant/Grows.antt =====
-- The invariant across new proposals and new approvals.
use event_lead_ops_agent.Prelude.{
  ℕ, String, ◌≡◌, refl, sym, ap, ◌∙◌, true, false, none, some, arith, eq_iff, put, put_self,
  put_fresh, put_apart, put_cases, inl, inr,
}
use mathlib.Core.Path.{subst₂}
use event_lead_ops_agent.Schema.{
  ProposalStatus, ApprovalStatus, ProposedRow, ApprovalRow, ActionRow, is_pending,
}
use event_lead_ops_agent.Lifecycle.{View, with_status}
use event_lead_ops_agent.Lifecycle.Invariant.{
  ActionOk, ApprovalOk, Inv, ActionOk-carry, ApprovalOk-carry, not_pending,
}

module _ {v : View} (inv : Inv v) (row : ProposedRow) (new : v.proposals row.id ≡ none) where
  abbrev proposed : View
  proposed = record v { proposals = put row.id row v.proposals }

  pub propose-Inv : Inv proposed
  propose-Inv = record {
    proposal_named = λ k p h. ground (arith, eq_iff row.id k, inv.proposal_named k p);
    approval_ok = λ k a h.
        let ok = inv.approval_ok k a h in
        ApprovalOk-carry proposed ok
          (put_fresh row.id a.proposed_action_id row v.proposals new ok.proposal_there);
    action_ok = λ k a h.
        let ok = inv.action_ok k a h in
        ActionOk-carry proposed ok
          (put_fresh row.id a.proposed_action_id row v.proposals new ok.proposal_there) refl;
    one_approval = inv.one_approval;
    one_action = inv.one_action;
  }

module _ {v : View} (inv : Inv v) (p : ProposedRow) (row : ApprovalRow) (now : ℕ)
    (there : v.proposals p.id ≡ some p) (pending : p.status ≡ ProposalStatus.pending_approval)
    (new : v.approvals row.id ≡ none) (fresh : row.status ≡ ApprovalStatus.approved)
    (for_it : row.proposed_action_id ≡ p.id) (hash : row.payload_hash ≡ p.payload_hash) where
  abbrev approved_row : ProposedRow
  approved_row = with_status ProposalStatus.approved now p

  abbrev approved : View
  approved = record v {
    proposals = put p.id approved_row v.proposals;
    approvals = put row.id row v.approvals;
  }

  still_pending : is_pending p.status ≡ true
  still_pending = ap is_pending pending

  -- What is decided is not the proposal that is pending.
  decided_apart :
      (k : String) {q : ProposedRow}
      → v.proposals k ≡ some q
      → is_pending q.status ≡ false
      → put p.id approved_row v.proposals k ≡ v.proposals k
  decided_apart k h d =
      put_apart (λ r. is_pending r.status) p.id k approved_row v.proposals there h still_pending d

  -- No approval stands for it yet.
  unapproved :
      (k : String) (a : ApprovalRow) → v.approvals k ≡ some a → a.proposed_action_id ≡ p.id → ⊥
  unapproved k a h e =
      let ok = inv.approval_ok k a h in
      cc (still_pending, ok.decided, ok.proposal_there, there, ap v.proposals e)

  new_ApprovalOk : ApprovalOk approved row.id row
  new_ApprovalOk = record {
    named = refl;
    proposal = approved_row;
    proposal_there =
        ap (put p.id approved_row v.proposals) for_it ∙ put_self p.id approved_row v.proposals;
    decided = refl;
    in_step = λ _. refl;
    same_hash = hash;
  }

  approvals_ok :
      (k : String) (a : ApprovalRow) → approved.approvals k ≡ some a → ApprovalOk approved k a
  approvals_ok k a h = elim (put_cases row.id k row v.approvals h) [
    | inl (same, it) ↦ subst₂ (ApprovalOk approved) same it new_ApprovalOk
    | inr (other, old) ↦
        let ok = inv.approval_ok k a old in
        ApprovalOk-carry approved ok
          (decided_apart a.proposed_action_id ok.proposal_there ok.decided)
  ]

  actions_ok : (k : String) (a : ActionRow) → v.actions k ≡ some a → ActionOk approved k a
  actions_ok k a h =
      let ok = inv.action_ok k a h in
      ActionOk-carry approved ok
        (decided_apart a.proposed_action_id ok.proposal_there
          (ap is_pending ok.mirrors ∙ not_pending a.status))
        (put_fresh row.id a.approval_id row v.approvals new ok.approval_there)

  one_approval_each :
      (j k : String) (a b : ApprovalRow)
      → approved.approvals j ≡ some a
      → approved.approvals k ≡ some b
      → a.proposed_action_id ≡ b.proposed_action_id
      → j ≡ k
  one_approval_each j k a b hj hk e = elim (put_cases row.id j row v.approvals hj) [
    | inl (sj, ij) ↦ elim (put_cases row.id k row v.approvals hk) [
      | inl (sk, ik) ↦ sym sj ∙ sk
      | inr (ok, old) ↦ absurd (unapproved k b old (cc (e, ij, for_it)))
    ]
    | inr (oj, oldj) ↦ elim (put_cases row.id k row v.approvals hk) [
      | inl (sk, ik) ↦ absurd (unapproved j a oldj (cc (e, ik, for_it)))
      | inr (ok, oldk) ↦ inv.one_approval j k a b oldj oldk e
    ]
  ]

  pub approve-Inv : Inv approved
  approve-Inv = record {
    proposal_named = λ k q h. ground (arith, eq_iff p.id k, inv.proposal_named k q);
    approval_ok = approvals_ok;
    action_ok = actions_ok;
    one_approval = one_approval_each;
    one_action = inv.one_action;
  }
