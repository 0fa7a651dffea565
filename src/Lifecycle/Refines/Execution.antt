-- ===== src/Lifecycle/Refines/Execution.antt =====
-- begin_approved_action against the lifecycle machine.
use event_lead_ops_agent.Prelude.{
  ℕ, String, ◌≡◌, refl, sym, ap, ◌∙◌, subst, Bool, true, Option, none, some, Result, ok, err, arith,
  ◌==◌, ==→eq, >>=-eq_ok, by_key-found, find-by_key, find, inl, inr, truthy, ◌⊎◌,
  by_key-update_where, Bool-cases,
}
use event_lead_ops_agent.Host.{Host}
use event_lead_ops_agent.Time.{require_aware}
use event_lead_ops_agent.Policy.{now_or}
use event_lead_ops_agent.ProfileLock.{assert_owned}
use event_lead_ops_agent.Schema.{
  ProposalStatus, ActionStatus, ProposedRow, ApprovalRow, ActionRow, Db, is_executing,
}
use event_lead_ops_agent.Schema.Constraints.{
  proposal_by_id, approval_by_id, action_by_id, action_by_key, is_token_hash, insert_action,
  set_proposal_status, consume_approval, set_stale, made_stale,
}
use event_lead_ops_agent.Lifecycle.{Authorized, Flags, reserve, end}
use event_lead_ops_agent.Lifecycle.Statements.{
  View-path, Keyed, WellFormed, Step, Step-same, set_proposal_status-Keyed, consume_approval-Keyed,
  update_actions-Keyed, set_proposal_status-put, consume_approval-put, insert_action-eq_ok,
  is_authorized-rows,
}
use event_lead_ops_agent.Executions.Begin.{
  BeginRequest, Begun, reserved, stale, checked_proposal, checked_approval, new_action_row,
  replayed, reserve_or_resume, begin_body, settle, begin_approved_action,
}
use event_lead_ops_agent.Executions.Begin.Checks.{
  SameProposal, checked_proposal-eq_ok, checked_approval-eq_ok, reserve-eq_ok, resume-eq_ok,
}

-- A digest is not the empty text.
token_hash-truthy : (o : Option String) → is_token_hash o ≡ true → truthy o ≡ true
unfolding is_token_hash
token_hash-truthy none h = cc
token_hash-truthy (some s) h = elim (Bool-cases (s == "")) [
  | inl e ↦ absurd (empty_refused (ap (λ t. is_token_hash (some t)) (sym (==→eq s "" e)) ∙ h))
  | inr e ↦ rw e
]
  where
    empty_refused : is_token_hash (some "") ≡ true → ⊥
    empty_refused no_digits = cc

-- The three statements of a reservation.
reserved-Step :
    (json_valid : String → Bool) (p : ProposedRow) (y : ApprovalRow) (a : ActionRow) (now : ℕ)
    (db : Db) {mid : Db}
    → proposal_by_id p.id db ≡ some p
    → a.proposed_action_id ≡ p.id
    → approval_by_id y.id db ≡ some y
    → a.approval_id ≡ y.id
    → a.status ≡ ActionStatus.executing
    → a.submission_started_at ≡ none
    → insert_action json_valid a db ≡ ok mid
    → Step db
        (set_proposal_status p.id ProposalStatus.executing now (consume_approval y.id now mid))
unfolding find set_proposal_status consume_approval
reserved-Step json_valid p y a now db {mid} p_there of_p y_there of_y runs free h =
    let (new, permitted, token, key, same) = insert_action-eq_ok db json_valid a h in
    let (z, z_there, p_ok, z_ok, auth) =
      is_authorized-rows db a (ap (λ k. proposal_by_id k db) of_p ∙ p_there) permitted in
    let z_is_y : z ≡ y = cc (z_there, y_there, ap (λ k. approval_by_id k db) of_y) in
    record {
      keeps = λ k. set_proposal_status-Keyed p.id ProposalStatus.executing now (
          consume_approval-Keyed y.id now (
            subst Keyed (sym same) (record {
              proposals = k.proposals;
              proposal_keys = k.proposal_keys;
              approvals = k.approvals;
              actions = (new, k.actions);
              action_keys = (key, k.action_keys);
            })));
      changes = λ wf.
          reserve p y a now p_there p_ok y_there
            (ap (λ (r : ApprovalRow). r.status) (sym z_is_y) ∙ z_ok) new runs free
            (token_hash-truthy a.execution_token_hash token) (subst (Authorized a p) z_is_y auth)
            (View-path _ _
              (λ k.
                ap
                  (λ (d : Db). proposal_by_id k (
                    set_proposal_status p.id ProposalStatus.executing now
                      (consume_approval y.id now d)))
                  same
                ∙ set_proposal_status-put db p ProposalStatus.executing now k p_there)
              (λ k.
                ap (λ (d : Db). approval_by_id k (consume_approval y.id now d)) same
                ∙ consume_approval-put db y now k y_there)
              (λ k. ap (λ (d : Db). action_by_id k d) same));
    }

-- An executing action that is put aside for reconciliation.
stale-Flags :
    (a : ActionRow) (now : ℕ) → Flags a → is_executing a.status ≡ true → Flags (made_stale now a)
stale-Flags a now f runs = ground arith

stale-Step :
    (p : ProposedRow) (a : ActionRow) (id : String) (now : ℕ) (db : Db)
    → proposal_by_id p.id db ≡ some p
    → id ≡ p.id
    → is_executing a.status ≡ true
    → action_by_key a.idempotency_key db ≡ some a
    → (WellFormed db → a.proposed_action_id ≡ p.id)
    → Step db
        (set_proposal_status id ProposalStatus.needs_reconciliation now (set_stale a.id now db))
unfolding find set_stale set_proposal_status
stale-Step p a id now db p_there named runs found of_p = record {
  keeps = λ k.
      set_proposal_status-Keyed id ProposalStatus.needs_reconciliation now
        (update_actions-Keyed (λ r. r.id == a.id) (made_stale now) (λ x. refl) (λ x. refl) k);
  changes = λ wf.
      let there : action_by_id a.id db ≡ some a =
        find-by_key (λ r. r.id) _ db.actions wf.keyed.actions found in
      end a (made_stale now a) p now there (ground arith) refl p_there (of_p wf) (ground arith)
        (stale-Flags a now (wf.inv.action_ok a.id a there).flags runs)
        (View-path _ _
          (λ k.
            ap
              (λ i. proposal_by_id k (
                set_proposal_status i ProposalStatus.needs_reconciliation now
                  (set_stale a.id now db)))
              named
            ∙ set_proposal_status-put db p ProposalStatus.needs_reconciliation now k p_there)
          (λ k. refl)
          (λ k.
            by_key-update_where (λ r. r.id) db.actions a.id (made_stale now) (λ x. refl) k there));
}

-- The proposal that an action stands for is that of its approval.
same_proposal_of :
    {db : Db} (wf : WellFormed db) (a : ActionRow) (y : ApprovalRow) (id : String)
    → action_by_key a.idempotency_key db ≡ some a
    → approval_by_id a.approval_id db ≡ some y
    → y.proposed_action_id ≡ id
    → a.proposed_action_id ≡ id
unfolding find
same_proposal_of {db} wf a y id found y_there of_id =
    let ok =
      wf.inv.action_ok a.id a (find-by_key (λ r. r.id) _ db.actions wf.keyed.actions found) in
    let same : ok.approval ≡ y = cc (ok.approval_there, y_there) in
    ok.authorized.of_proposal
    ∙ (sym ok.authorized.for_proposal
        ∙ (ap (λ (r : ApprovalRow). r.proposed_action_id) same ∙ of_id))

module _ (h : Host) (q : BeginRequest) (db : Db) (now : ℕ) {stored : ProposedRow}
    {text : String} where
  resumed-Step :
      (sp : SameProposal h q db stored text) (row : ApprovalRow) (existing : ActionRow) {b : Begun}
      {db' : Db}
      → approval_by_id q.approval.approval_id db ≡ some row
      → row.proposed_action_id ≡ q.proposed.id
      → action_by_key stored.idempotency_key db ≡ some existing
      → existing.approval_id ≡ q.approval.approval_id
      → ((b ≡ reserved (replayed existing)) × (db' ≡ db))
        ⊎ ((is_executing existing.status ≡ true)
            × (b ≡ stale)
            × (db'
                ≡ set_proposal_status q.proposed.id ProposalStatus.needs_reconciliation now
                    (set_stale existing.id now db)))
      → Step db db'
  resumed-Step sp row existing row_there belongs found mine (inl (b_is, same)) = Step-same same
  resumed-Step sp row existing row_there belongs found mine (inr (runs, b_is, same)) =
      let named : stored.id ≡ q.proposed.id =
        by_key-found (λ r. r.id) db.proposed_actions q.proposed.id sp.there in
      let key : existing.idempotency_key ≡ stored.idempotency_key =
        by_key-found (λ r. r.idempotency_key) db.actions stored.idempotency_key found in
      let by_own : action_by_key existing.idempotency_key db ≡ some existing =
        ap (λ k. action_by_key k db) key ∙ found in
      subst (Step db) (sym same) (
        stale-Step stored existing q.proposed.id now db
          (ap (λ k. proposal_by_id k db) named ∙ sp.there) (sym named) runs by_own
          (λ wf.
            same_proposal_of wf existing row q.proposed.id by_own
              (ap (λ k. approval_by_id k db) mine ∙ row_there) belongs
            ∙ sym named))

  reserve_or_resume-Step :
      (sp : SameProposal h q db stored text) (row : ApprovalRow) (found : Option ActionRow)
      {b : Begun} {db' : Db}
      → approval_by_id q.approval.approval_id db ≡ some row
      → row.proposed_action_id ≡ q.proposed.id
      → action_by_key stored.idempotency_key db ≡ found
      → reserve_or_resume h q stored text row now found db ≡ ok (b, db')
      → Step db db'
  unfolding reserve_or_resume
  reserve_or_resume-Step sp row (some existing) row_there belongs found e =
      let (mine, cases) = resume-eq_ok h q db stored existing now e in
      resumed-Step sp row existing row_there belongs found mine cases
  reserve_or_resume-Step sp row none {b} {db'} row_there belongs found e =
      let r = reserve-eq_ok h q db stored text row now e in
      let named : stored.id ≡ q.proposed.id =
        by_key-found (λ r. r.id) db.proposed_actions q.proposed.id sp.there in
      let y_named : row.id ≡ q.approval.approval_id =
        by_key-found (λ r. r.id) db.approvals q.approval.approval_id row_there in
      let last : db'
          ≡ set_proposal_status stored.id ProposalStatus.executing now
              (consume_approval row.id now r.mid) =
        cc (r.committed, named, y_named) in
      subst (Step db) (sym last) (
        reserved-Step h.json_valid stored row (new_action_row h q text r.lease now) now db
          (ap (λ k. proposal_by_id k db) named ∙ sp.there) (sym named)
          (ap (λ k. approval_by_id k db) y_named ∙ row_there) (sym y_named) refl refl r.inserted)

begin_body-Step :
    (h : Host) (q : BeginRequest) (db : Db) {b : Begun} {db' : Db}
    → begin_body h q db ≡ ok (b, db')
    → Step db db'
unfolding begin_body
begin_body-Step h q db e =
    let (now, aware, e1) =
      >>=-eq_ok (require_aware (now_or q.now q.clock) "execution clock must be timezone-aware") _
        e in
    let (u, owned, e2) =
      >>=-eq_ok
        (assert_owned h q.lock.lock q.runtime.profile_dir none (q.lock.sight 0) (q.lock.sight 1)) _
        e1 in
    let (stored, same, e3) = >>=-eq_ok (checked_proposal h q db) _ e2 in
    let (row, available, e4) = >>=-eq_ok (checked_approval h q db) _ e3 in
    let (there, status, belongs, hash) = checked_approval-eq_ok h q db available in
    reserve_or_resume-Step h q db now (checked_proposal-eq_ok h q db same) row _ there belongs refl
      e4

pub begin_approved_action-Step :
    (h : Host) (q : BeginRequest) (db : Db) → Step db (begin_approved_action h q db).1
unfolding begin_approved_action
begin_approved_action-Step h q db = go (begin_body h q db) refl
  where
    go : (r : Result (Begun × Db)) → begin_body h q db ≡ r → Step db (settle db r).1
    go (ok (reserved r, db')) e = begin_body-Step h q db e
    go (ok (stale, db')) e = begin_body-Step h q db e
    go (err x) e = Step-same refl
