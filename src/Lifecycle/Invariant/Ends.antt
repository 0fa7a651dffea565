-- ===== src/Lifecycle/Invariant/Ends.antt =====
-- The invariant across submissions and ends of actions.
use mathlib.Core.Path.{subst₂}
use event_lead_ops_agent.Prelude.{
  ℕ, String, ◌≡◌, refl, sym, ap, ◌∙◌, subst, false, some, arith, eq_iff, ◌==◌, put, put_self,
  put_ne, put_cases, inl, inr, Bool-cases, ==→eq, eq→==,
}
use event_lead_ops_agent.Schema.{
  ProposalStatus, ActionStatus, ProposedRow, ApprovalRow, ActionRow, is_executing,
}
use event_lead_ops_agent.Lifecycle.{
  View, mirrored, Authorized, Flags, SameReservation, with_status, submitted_at,
}
use event_lead_ops_agent.Lifecycle.Invariant.{
  ActionOk, ApprovalOk, Inv, ActionOk-carry, ApprovalOk-carry, not_pending,
}

-- An action is replaced by one of the same proposal.
module _ {v : View} (inv : Inv v) (a b : ActionRow) (there : v.actions a.id ≡ some a)
    (same : b.proposed_action_id ≡ a.proposed_action_id) where
  replaced_from :
      (k : String) (c : ActionRow)
      → put a.id b v.actions k ≡ some c
      → (d : ActionRow) × (v.actions k ≡ some d) × (d.proposed_action_id ≡ c.proposed_action_id)
  replaced_from k c h = elim (put_cases a.id k b v.actions h) [
    | inl (e, it) ↦ (a, ap v.actions (sym e) ∙ there, sym same ∙ ap (λ r. r.proposed_action_id) it)
    | inr (other, old) ↦ (c, old, refl)
  ]

  replaced_one_action :
      (j k : String) (c d : ActionRow)
      → put a.id b v.actions j ≡ some c
      → put a.id b v.actions k ≡ some d
      → c.proposed_action_id ≡ d.proposed_action_id
      → j ≡ k
  replaced_one_action j k c d hj hk e =
      let (c', oldj, ej) = replaced_from j c hj in
      let (d', oldk, ek) = replaced_from k d hk in
      inv.one_action j k c' d' oldj oldk (ej ∙ (e ∙ sym ek))

module _ {v : View} (inv : Inv v) (a : ActionRow) (now : ℕ) (there : v.actions a.id ≡ some a)
    (runs : a.status ≡ ActionStatus.executing) where
  abbrev submitted : View
  submitted = record v { actions = put a.id (submitted_at now a) v.actions }

  submitted_ActionOk : ActionOk submitted a.id (submitted_at now a)
  submitted_ActionOk =
      let ok = inv.action_ok a.id a there in
      record {
        named = refl;
        proposal = ok.proposal;
        proposal_there = ok.proposal_there;
        mirrors = ok.mirrors;
        approval = ok.approval;
        approval_there = ok.approval_there;
        is_consumed = ok.is_consumed;
        authorized = record {
          of_proposal = ok.authorized.of_proposal;
          of_approval = ok.authorized.of_approval;
          for_proposal = ok.authorized.for_proposal;
          same_source = ok.authorized.same_source;
          same_type = ok.authorized.same_type;
          same_key = ok.authorized.same_key;
          same_json = ok.authorized.same_json;
          same_hash = ok.authorized.same_hash;
          approved_hash = ok.authorized.approved_hash;
        };
        flags = ground arith;
      }

  submitted_actions_ok :
      (k : String) (c : ActionRow) → submitted.actions k ≡ some c → ActionOk submitted k c
  submitted_actions_ok k c h = elim (put_cases a.id k (submitted_at now a) v.actions h) [
    | inl (same, it) ↦ subst₂ (ActionOk submitted) same it submitted_ActionOk
    | inr (other, old) ↦ ActionOk-carry submitted (inv.action_ok k c old) refl refl
  ]

  pub submit-Inv : Inv submitted
  submit-Inv = record {
    proposal_named = inv.proposal_named;
    approval_ok = λ k c h. ApprovalOk-carry submitted (inv.approval_ok k c h) refl;
    action_ok = submitted_actions_ok;
    one_approval = inv.one_approval;
    one_action = replaced_one_action inv a (submitted_at now a) there refl;
  }

module _ {v : View} (inv : Inv v) (a b : ActionRow) (p : ProposedRow) (now : ℕ)
    (there : v.actions a.id ≡ some a) (runs : a.status ≡ ActionStatus.executing)
    (over : is_executing b.status ≡ false) (p_there : v.proposals p.id ≡ some p)
    (of_p : a.proposed_action_id ≡ p.id) (same : SameReservation a b) (flags : Flags b) where
  abbrev ended_row : ProposedRow
  ended_row = with_status (mirrored b.status) now p

  abbrev ended : View
  ended = record v { proposals = put p.id ended_row v.proposals; actions = put a.id b v.actions }

  was : ActionOk v a.id a
  was = inv.action_ok a.id a there

  -- The proposal that the invariant gives is the one that the change names.
  found : was.proposal ≡ p
  found = cc (was.proposal_there, p_there, ap v.proposals of_p)

  b_auth : Authorized b was.proposal was.approval
  b_auth = ground arith

  b_of_p : b.proposed_action_id ≡ p.id
  b_of_p = b_auth.of_proposal ∙ ap (λ r. r.id) found

  b_approval : b.approval_id ≡ a.approval_id
  b_approval = b_auth.of_approval ∙ sym was.authorized.of_approval

  p_runs : p.status ≡ ProposalStatus.executing
  p_runs = ap (λ r. r.status) (sym found) ∙ (was.mirrors ∙ ap mirrored runs)

  ended_ActionOk : ActionOk ended a.id b
  ended_ActionOk = record {
    named = same.id;
    proposal = ended_row;
    proposal_there =
        ap (put p.id ended_row v.proposals) b_of_p ∙ put_self p.id ended_row v.proposals;
    mirrors = refl;
    approval = was.approval;
    approval_there = ap v.approvals b_approval ∙ was.approval_there;
    is_consumed = was.is_consumed;
    authorized =
        let au = subst (λ q. Authorized b q was.approval) found b_auth in
        record {
          of_proposal = au.of_proposal;
          of_approval = au.of_approval;
          for_proposal = au.for_proposal;
          same_source = au.same_source;
          same_type = au.same_type;
          same_key = au.same_key;
          same_json = au.same_json;
          same_hash = au.same_hash;
          approved_hash = au.approved_hash;
        };
    flags = flags;
  }

  ended_actions_ok : (k : String) (c : ActionRow) → ended.actions k ≡ some c → ActionOk ended k c
  ended_actions_ok k c h = elim (put_cases a.id k b v.actions h) [
    | inl (at_id, it) ↦ subst₂ (ActionOk ended) at_id it ended_ActionOk
    | inr (other, old) ↦
        ActionOk-carry ended (inv.action_ok k c old)
          (put_ne p.id c.proposed_action_id ended_row v.proposals
            (λ e. other (inv.one_action a.id k a c there old (of_p ∙ e))))
          refl
  ]

  -- An approval of the proposal is consumed already.
  ended_approval :
      (k : String) (y : ApprovalRow)
      → v.approvals k ≡ some y
      → p.id ≡ y.proposed_action_id
      → ApprovalOk ended k y
  ended_approval k y h e =
      let ok = inv.approval_ok k y h in
      let is_p : ok.proposal ≡ p = cc (ok.proposal_there, p_there, ap v.proposals e) in
      record {
        named = ok.named;
        proposal = ended_row;
        proposal_there =
            ap (put p.id ended_row v.proposals) (sym e) ∙ put_self p.id ended_row v.proposals;
        decided = not_pending b.status;
        in_step = λ s. cc (ok.in_step s, ap (λ r. r.status) is_p, p_runs);
        same_hash = ok.same_hash ∙ ap (λ r. r.payload_hash) is_p;
      }

  ended_approvals_ok :
      (k : String) (y : ApprovalRow) → v.approvals k ≡ some y → ApprovalOk ended k y
  ended_approvals_ok k y h = elim (Bool-cases (p.id == y.proposed_action_id)) [
    | inl equal ↦ ended_approval k y h (==→eq p.id y.proposed_action_id equal)
    | inr other ↦ ApprovalOk-carry ended (inv.approval_ok k y h) (
        put_ne p.id y.proposed_action_id ended_row v.proposals
          (λ e. cc (other, eq→== p.id y.proposed_action_id e)))
  ]

  pub end-Inv : Inv ended
  end-Inv = record {
    proposal_named = λ k q h. ground (arith, eq_iff p.id k, inv.proposal_named k q);
    approval_ok = ended_approvals_ok;
    action_ok = ended_actions_ok;
    one_approval = inv.one_approval;
    one_action = replaced_one_action inv a b there (b_of_p ∙ sym of_p);
  }
