-- ===== src/Lifecycle/Refines.antt =====
-- The calls of db.py that write proposals and approvals, against the lifecycle machine.
pub mod Execution
pub mod Outcomes
use event_lead_ops_agent.Prelude.{
  ℕ, String, ◌≡◌, refl, sym, ap, ◌∙◌, Bool, true, false, Option, none, some, ◌∷◌, Result, ok, err,
  arith, eq_iff, ◌==◌, put, ◌>>=◌, >>=-eq_ok, raise_if-eq_ok, ensure-eq_ok, or_raise-eq_ok,
  by_key-found, subst, ==→eq, find, Option-cases, inl, inr,
}
use event_lead_ops_agent.Json.{Json}
use event_lead_ops_agent.Host.{Host, Files}
use event_lead_ops_agent.Time.{Stamp}
use event_lead_ops_agent.Models.{ProposedAction}
use event_lead_ops_agent.Policy.{ApprovalEnvelope}
use event_lead_ops_agent.Schema.{
  ProposalStatus, ApprovalStatus, ActionStatus, ProposedRow, ApprovalRow, ActionRow, ApproverRow,
  Db,
}
use event_lead_ops_agent.Schema.Constraints.{
  proposal_by_id, approval_by_id, action_by_id, insert_proposed_action, insert_approval,
  set_proposal_status,
}
use event_lead_ops_agent.Lifecycle.{View, view, Change, stay, propose, approve, with_status}
use event_lead_ops_agent.Lifecycle.Statements.{
  View-path, Keyed, Step, Step-same, Step-transaction, set_proposal_status-Keyed,
  set_proposal_status-put, insert_proposed_action-eq_ok, insert_approval-eq_ok,
}
use event_lead_ops_agent.Proposals
use event_lead_ops_agent.Proposals.{
  ProposalRequest, new_proposed_row, create_proposed_action, create_proposed_action_body,
  listing_cooldown,
}
use event_lead_ops_agent.Proposals.Retry.{
  retry, retry_row, evidenced_failure, retry_cooldown, create_retry_proposed_action,
  create_retry_body,
}
use event_lead_ops_agent.Approvals.{
  ApprovalRequest, new_approval_row, create_approval, create_approval_body, checked_expiry,
  active_approver,
}

-- A row that is inserted pending is a proposal.
inserted-Step :
    (row : ProposedRow) (db : Db) {db' : Db}
    → row.status ≡ ProposalStatus.pending_approval
    → insert_proposed_action row db ≡ ok db'
    → Step db db'
unfolding find
inserted-Step row db pending h =
    let (fresh, key, same) = insert_proposed_action-eq_ok db row h in
    record {
      keeps = λ k. subst Keyed (sym same) (record {
        proposals = (fresh, k.proposals);
        proposal_keys = (key, k.proposal_keys);
        approvals = k.approvals;
        actions = k.actions;
        action_keys = k.action_keys;
      });
      changes = λ wf. propose row fresh pending (ap view same);
    }

propose-Step :
    (h : Host) (q : ProposalRequest) (id : String) (now clock : ℕ) (cooldown : Option ℕ)
    (existing : Option ProposedRow) (db : Db) {a : ProposedAction} {db' : Db}
    → Proposals.propose h q id now clock cooldown existing db ≡ ok (a, db')
    → Step db db'
unfolding Proposals.propose
propose-Step h q id now clock cooldown (some existing) db {a} {db'} e =
    let same : db' ≡ db = ground arith in Step-same same
propose-Step h q id now clock cooldown none db {a} {db'} e =
    inserted-Step (new_proposed_row h q id now cooldown) db {db' = db'} refl (ground arith)

pub create_proposed_action-Step :
    (h : Host) (q : ProposalRequest) (id : String) (now clock : ℕ) (db : Db)
    → Step db (create_proposed_action h q id now clock db).1
unfolding create_proposed_action
create_proposed_action-Step h q id now clock db =
    Step-transaction (create_proposed_action_body h q id now clock) db λ a db' e.
      let (cooldown, found, rest) = >>=-eq_ok (listing_cooldown q db) _ e in
      propose-Step h q id now clock cooldown _ db rest

retry-Step :
    (h : Host) (row : ProposedRow) (id : String) (now : ℕ) (existing : Option ProposedRow) (db : Db)
    {a : ProposedAction} {db' : Db}
    → retry h row id now existing db ≡ ok (a, db')
    → Step db db'
unfolding retry
retry-Step h row id now (some existing) db {a} {db'} e =
    let same : db' ≡ db = ground arith in Step-same same
retry-Step h row id now none db {a} {db'} e =
    let (payload, read, rest) = or_raise-eq_ok (h.loads row.payload_json) _ _ e in
    inserted-Step (retry_row h row payload id now) db {db' = db'} refl (ground arith)

pub create_retry_proposed_action-Step :
    (h : Host) (files : Files) (failed id : String) (now clock : ℕ) (db : Db)
    → Step db (create_retry_proposed_action h files failed id now clock db).1
unfolding create_retry_proposed_action
create_retry_proposed_action-Step h files failed id now clock db =
    Step-transaction (create_retry_body h files failed id now clock) db λ a db' e.
      let (row, found, e1) = or_raise-eq_ok (proposal_by_id failed db) _ _ e in
      let (is_failed, e2) = ensure-eq_ok _ _ _ e1 in
      let (action, evidenced, e3) = >>=-eq_ok (evidenced_failure h files failed db) _ e2 in
      let (u, cooled, e4) = >>=-eq_ok (retry_cooldown row action clock db) _ e3 in
      retry-Step h row id now _ db e4

-- A pending proposal is approved by an approval that is inserted for it.
approved-Step :
    (p : ProposedRow) (row : ApprovalRow) (now : ℕ) (db : Db) {mid : Db}
    → proposal_by_id p.id db ≡ some p
    → p.status ≡ ProposalStatus.pending_approval
    → row.status ≡ ApprovalStatus.approved
    → row.proposed_action_id ≡ p.id
    → row.payload_hash ≡ p.payload_hash
    → insert_approval row db ≡ ok mid
    → Step db (set_proposal_status p.id ProposalStatus.approved now mid)
unfolding find set_proposal_status
approved-Step p row now db {mid} there pending fresh for_it hash h =
    let (new, same) = insert_approval-eq_ok db row h in
    record {
      keeps = λ k. set_proposal_status-Keyed p.id ProposalStatus.approved now (
          subst Keyed (sym same) (record {
            proposals = k.proposals;
            proposal_keys = k.proposal_keys;
            approvals = (new, k.approvals);
            actions = k.actions;
            action_keys = k.action_keys;
          }));
      changes = λ wf. approve p row now there pending new fresh for_it hash (
          View-path _ _
            (λ k.
              ap (λ d. proposal_by_id k (set_proposal_status p.id ProposalStatus.approved now d))
                same
              ∙ set_proposal_status-put db p ProposalStatus.approved now k there)
            (λ k. ap (λ d. approval_by_id k d) same) (λ k. ap (λ d. action_by_id k d) same));
    }

pub create_approval-Step :
    (q : ApprovalRequest) (id : String) (created now : ℕ) (db : Db)
    → Step db (create_approval q id created now db).1
unfolding create_approval
create_approval-Step q id created now db =
    Step-transaction (create_approval_body q id created now) db λ a db' e.
      let (expires, checked, e1) = >>=-eq_ok (checked_expiry q created) _ e in
      let (who, active, e2) = or_raise-eq_ok (active_approver q.provider q.approver db) _ _ e1 in
      let (p, there, e3) = or_raise-eq_ok (proposal_by_id q.proposed.id db) _ _ e2 in
      let (hash, e4) = ensure-eq_ok _ _ _ e3 in
      let (pending, e5) = ensure-eq_ok _ _ _ e4 in
      let (mid, inserted, e6) =
        >>=-eq_ok (insert_approval (new_approval_row q who id created expires) db) _ e5 in
      let named : p.id ≡ q.proposed.id =
        by_key-found (λ r. r.id) db.proposed_actions q.proposed.id there in
      let last : db' ≡ set_proposal_status p.id ProposalStatus.approved now mid = cc (e6, named) in
      subst (Step db) (sym last) (
        approved-Step p (new_approval_row q who id created expires) now db
          (ap (λ k. proposal_by_id k db) named ∙ there) (ground arith) refl (sym named)
          (sym (==→eq _ _ hash)) inserted)
