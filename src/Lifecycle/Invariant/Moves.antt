-- ===== src/Lifecycle/Invariant/Moves.antt =====
-- The invariant across a reservation.
use mathlib.Core.Path.{subst₂}
use event_lead_ops_agent.Prelude.{
  ℕ, String, ◌≡◌, ◌≢◌, refl, sym, ap, ◌∙◌, true, none, some, arith, eq_iff, put, put_self, put_ne,
  put_apart, put_cases, inl, inr, truthy,
}
use event_lead_ops_agent.Schema.{
  ProposalStatus, ApprovalStatus, ActionStatus, ProposedRow, ApprovalRow, ActionRow,
  is_proposal_approved, is_approved,
}
use event_lead_ops_agent.Lifecycle.{View, mirrored, Authorized, with_status, consumed_at}
use event_lead_ops_agent.Lifecycle.Invariant.{
  ActionOk, ApprovalOk, Inv, ActionOk-carry, ApprovalOk-carry, not_approved,
}

module _ {v : View} (inv : Inv v) (p : ProposedRow) (y : ApprovalRow) (a : ActionRow) (now : ℕ)
    (p_there : v.proposals p.id ≡ some p) (p_approved : p.status ≡ ProposalStatus.approved)
    (y_there : v.approvals y.id ≡ some y) (y_approved : y.status ≡ ApprovalStatus.approved)
    (new : v.actions a.id ≡ none) (runs : a.status ≡ ActionStatus.executing)
    (unsubmitted : a.submission_started_at ≡ none) (capable : truthy a.execution_token_hash ≡ true)
    (auth : Authorized a p y) where
  abbrev running : ProposedRow
  running = with_status ProposalStatus.executing now p

  abbrev reserved : View
  reserved = record {
    proposals = put p.id running v.proposals;
    approvals = put y.id (consumed_at now y) v.approvals;
    actions = put a.id a v.actions;
  }

  p_test : is_proposal_approved p.status ≡ true
  p_test = ap is_proposal_approved p_approved

  y_test : is_approved y.status ≡ true
  y_test = ap is_approved y_approved

  -- No action stands for the proposal yet.
  unreserved : (k : String) (b : ActionRow) → v.actions k ≡ some b → b.proposed_action_id ≡ p.id → ⊥
  unreserved k b h e =
      let ok = inv.action_ok k b h in
      cc (
        p_test,
        ap is_proposal_approved ok.mirrors ∙ not_approved b.status,
        ok.proposal_there,
        p_there,
        ap v.proposals e,
      )

  new_ActionOk : ActionOk reserved a.id a
  new_ActionOk = record {
    named = refl;
    proposal = running;
    proposal_there =
        ap (put p.id running v.proposals) auth.of_proposal ∙ put_self p.id running v.proposals;
    mirrors = ap mirrored (sym runs);
    approval = consumed_at now y;
    approval_there =
        ap (put y.id (consumed_at now y) v.approvals) auth.of_approval
        ∙ put_self y.id (consumed_at now y) v.approvals;
    is_consumed = refl;
    authorized = record {
      of_proposal = auth.of_proposal;
      of_approval = auth.of_approval;
      for_proposal = auth.for_proposal;
      same_source = auth.same_source;
      same_type = auth.same_type;
      same_key = auth.same_key;
      same_json = auth.same_json;
      same_hash = auth.same_hash;
      approved_hash = auth.approved_hash;
    };
    flags = ground arith;
  }

  old_action : (k : String) (b : ActionRow) → v.actions k ≡ some b → ActionOk reserved k b
  old_action k b h =
      let ok = inv.action_ok k b h in
      ActionOk-carry reserved ok
        (put_apart (λ r. is_proposal_approved r.status) p.id b.proposed_action_id running
          v.proposals p_there ok.proposal_there p_test
          (ap is_proposal_approved ok.mirrors ∙ not_approved b.status))
        (put_apart (λ r. is_approved r.status) y.id b.approval_id (consumed_at now y) v.approvals
          y_there ok.approval_there y_test (ap is_approved ok.is_consumed))

  reserved_actions_ok :
      (k : String) (b : ActionRow) → reserved.actions k ≡ some b → ActionOk reserved k b
  reserved_actions_ok k b h = elim (put_cases a.id k a v.actions h) [
    | inl (same, it) ↦ subst₂ (ActionOk reserved) same it new_ActionOk
    | inr (other, old) ↦ old_action k b old
  ]

  used_ApprovalOk : ApprovalOk reserved y.id (consumed_at now y)
  used_ApprovalOk = record {
    named = refl;
    proposal = running;
    proposal_there =
        ap (put p.id running v.proposals) auth.for_proposal ∙ put_self p.id running v.proposals;
    decided = refl;
    in_step = λ e. cc;
    same_hash = auth.approved_hash;
  }

  old_approval :
      (k : String) (b : ApprovalRow) → y.id ≢ k → v.approvals k ≡ some b → ApprovalOk reserved k b
  old_approval k b ne h = ApprovalOk-carry reserved (inv.approval_ok k b h) (
      put_ne p.id b.proposed_action_id running v.proposals
        (λ e. ne (inv.one_approval y.id k y b y_there h (auth.for_proposal ∙ e))))

  reserved_approvals_ok :
      (k : String) (b : ApprovalRow) → reserved.approvals k ≡ some b → ApprovalOk reserved k b
  reserved_approvals_ok k b h = elim (put_cases y.id k (consumed_at now y) v.approvals h) [
    | inl (same, it) ↦ subst₂ (ApprovalOk reserved) same it used_ApprovalOk
    | inr (other, old) ↦ old_approval k b other old
  ]

  one_action_each :
      (j k : String) (b c : ActionRow)
      → reserved.actions j ≡ some b
      → reserved.actions k ≡ some c
      → b.proposed_action_id ≡ c.proposed_action_id
      → j ≡ k
  one_action_each j k b c hj hk e = elim (put_cases a.id j a v.actions hj) [
    | inl (sj, ij) ↦ elim (put_cases a.id k a v.actions hk) [
      | inl (sk, ik) ↦ sym sj ∙ sk
      | inr (ok, old) ↦ absurd (unreserved k c old (cc (e, ij, auth.of_proposal)))
    ]
    | inr (oj, oldj) ↦ elim (put_cases a.id k a v.actions hk) [
      | inl (sk, ik) ↦ absurd (unreserved j b oldj (cc (e, ik, auth.of_proposal)))
      | inr (ok, oldk) ↦ inv.one_action j k b c oldj oldk e
    ]
  ]

  -- The approval that is consumed keeps its proposal.
  kept_approval :
      (k : String) (b : ApprovalRow)
      → reserved.approvals k ≡ some b
      → (c : ApprovalRow) × (v.approvals k ≡ some c) × (c.proposed_action_id ≡ b.proposed_action_id)
  kept_approval k b h = elim (put_cases y.id k (consumed_at now y) v.approvals h) [
    | inl (same, it) ↦ (y, ap v.approvals (sym same) ∙ y_there, ap (λ r. r.proposed_action_id) it)
    | inr (other, old) ↦ (b, old, refl)
  ]

  reserved_one_approval :
      (j k : String) (b c : ApprovalRow)
      → reserved.approvals j ≡ some b
      → reserved.approvals k ≡ some c
      → b.proposed_action_id ≡ c.proposed_action_id
      → j ≡ k
  reserved_one_approval j k b c hj hk e =
      let (b', oldj, ej) = kept_approval j b hj in
      let (c', oldk, ek) = kept_approval k c hk in
      inv.one_approval j k b' c' oldj oldk (ej ∙ (e ∙ sym ek))

  pub reserve-Inv : Inv reserved
  reserve-Inv = record {
    proposal_named = λ k q h. ground (arith, eq_iff p.id k, inv.proposal_named k q);
    approval_ok = reserved_approvals_ok;
    action_ok = reserved_actions_ok;
    one_approval = reserved_one_approval;
    one_action = one_action_each;
  }
