-- ===== src/Approvals/Granting.antt =====
-- create_approval of db.py: the checks and the writes behind a returned envelope.
use event_lead_ops_agent.Prelude.{
  ℕ, ◌+◌, ◌<◌, ◌≤◌, String, ◌≡◌, refl, sym, ap, ◌∙◌, none, some, ok, arith, ◌==◌, eq→==, ==→eq,
  >>=-eq_ok, or_raise-eq_ok, ensure-eq_ok, unok, find, by_key-update_where, put_self, if◌then◌else◌,
  ◌∷◌,
}
use event_lead_ops_agent.Time.{aware, minutes}
use event_lead_ops_agent.Policy.{ApprovalEnvelope}
use event_lead_ops_agent.Schema.{
  ProposalStatus, ApproverRow, ProposedRow, ApprovalRow, Db, is_pending,
}
use event_lead_ops_agent.Schema.Constraints.{
  proposal_by_id, approval_by_id, insert_approval, set_proposal_status,
}
use event_lead_ops_agent.Lifecycle.{with_status}
use event_lead_ops_agent.Transaction.{concluded-eq_ok}
use event_lead_ops_agent.Approvals.{
  ApprovalRequest, active_approver, new_approval_row, new_envelope, checked_expiry,
  create_approval_body, create_approval,
}

module _ (q : ApprovalRequest) (id : String) (created_at now : ℕ) where
  pub record Approved (envelope : ApprovalEnvelope) (db db' : Db) : Type 0 where
    pub expires_at : ℕ
    pub asked : q.expires_at ≡ aware expires_at
    pub in_future : created_at < expires_at
    pub within_30_minutes : expires_at ≤ created_at + minutes 30
    pub approver : ApproverRow
    pub active : active_approver q.provider q.approver db ≡ some approver
    pub stored : ProposedRow
    pub there : proposal_by_id q.proposed.id db ≡ some stored
    pub same_hash : stored.payload_hash ≡ q.proposed.payload_hash
    pub was_pending : stored.status ≡ ProposalStatus.pending_approval
    pub fresh : approval_by_id id db ≡ none
    pub is_envelope : envelope ≡ new_envelope q approver id expires_at
    pub recorded :
        approval_by_id id db' ≡ some (new_approval_row q approver id created_at expires_at)
    pub moved :
        proposal_by_id q.proposed.id db' ≡ some (with_status ProposalStatus.approved now stored)

  expiry_in_range :
      {t : ℕ}
      → checked_expiry q created_at ≡ ok t
      → (q.expires_at ≡ aware t) × (created_at < t) × (t ≤ created_at + minutes 30)
  unfolding checked_expiry
  expiry_in_range e = ground arith

  insert_approval-grows :
      (row : ApprovalRow) (db : Db) {db' : Db}
      → insert_approval row db ≡ ok db'
      → (approval_by_id row.id db ≡ none) × (db' ≡ record db { approvals = row ∷ db.approvals })
  unfolding insert_approval
  insert_approval-grows row db e = ground arith

  approval_recorded :
      (row : ApprovalRow) {db mid db' : Db}
      → db' ≡ set_proposal_status q.proposed.id ProposalStatus.approved now mid
      → mid ≡ record db { approvals = row ∷ db.approvals }
      → approval_by_id row.id db' ≡ some row
  unfolding find set_proposal_status
  approval_recorded row {db} moved grown =
      ap (λ (d : Db). approval_by_id row.id d) moved
      ∙ ap (λ (d : Db). approval_by_id row.id d) grown
      ∙ ap (λ b. if b then some row else approval_by_id row.id db) (eq→== row.id row.id refl)

  proposal_moved :
      (row : ApprovalRow) (stored : ProposedRow) {db mid db' : Db}
      → db' ≡ set_proposal_status q.proposed.id ProposalStatus.approved now mid
      → mid ≡ record db { approvals = row ∷ db.approvals }
      → proposal_by_id q.proposed.id db ≡ some stored
      → proposal_by_id q.proposed.id db' ≡ some (with_status ProposalStatus.approved now stored)
  unfolding set_proposal_status
  proposal_moved row stored {db} moved grown there =
      ap (λ (d : Db). proposal_by_id q.proposed.id d) moved
      ∙ ap
          (λ (d : Db).
            proposal_by_id q.proposed.id
              (set_proposal_status q.proposed.id ProposalStatus.approved now d))
          grown
      ∙ (by_key-update_where (λ r. r.id) db.proposed_actions q.proposed.id
            (with_status ProposalStatus.approved now) (λ x. refl) q.proposed.id there
          ∙ put_self q.proposed.id (with_status ProposalStatus.approved now stored)
              (λ k. proposal_by_id k db))

  create_approval_body-eq_ok :
      (db : Db) {envelope : ApprovalEnvelope} {db' : Db}
      → create_approval_body q id created_at now db ≡ ok (envelope, db')
      → Approved envelope db db'
  unfolding create_approval_body
  create_approval_body-eq_ok db e =
      let (t, expiry, e1) = >>=-eq_ok (checked_expiry q created_at) _ e in
      let (a, active, e2) = or_raise-eq_ok (active_approver q.provider q.approver db) _ _ e1 in
      let (stored, there, e3) = or_raise-eq_ok (proposal_by_id q.proposed.id db) _ _ e2 in
      let (same, e4) = ensure-eq_ok (stored.payload_hash == q.proposed.payload_hash) _ _ e3 in
      let (pending, e5) = ensure-eq_ok (is_pending stored.status) _ _ e4 in
      let (mid, inserted, e6) =
        >>=-eq_ok (insert_approval (new_approval_row q a id created_at t) db) _ e5 in
      let (asked, future, bounded) = expiry_in_range expiry in
      let (fresh, grown) =
        insert_approval-grows (new_approval_row q a id created_at t) db inserted in
      let moved = ap (λ t. t.1) (sym (unok e6)) in
      record {
        expires_at = t;
        asked = asked;
        in_future = future;
        within_30_minutes = bounded;
        approver = a;
        active = active;
        stored = stored;
        there = there;
        same_hash = ==→eq _ _ same;
        was_pending = ground arith;
        fresh = fresh;
        is_envelope = ap (λ t. t.0) (sym (unok e6));
        recorded = approval_recorded (new_approval_row q a id created_at t) moved grown;
        moved = proposal_moved (new_approval_row q a id created_at t) stored moved grown there;
      }

  -- Where create_approval returns an envelope, everything of `Approved` holds: the expiry asked for
  -- is aware, lies in the future and by at most 30 minutes; an active approver of the provider has
  -- the user's ID; the stored proposal was pending and has the caller's payload hash; the
  -- approval's ID was unused; the envelope and the recorded approval are the ones of that approver
  -- and expiry; and the proposal is approved.
  pub create_approval_returns :
      (db : Db) {envelope : ApprovalEnvelope}
      → (create_approval q id created_at now db).0 ≡ ok envelope
      → Approved envelope db (create_approval q id created_at now db).1
  unfolding create_approval
  create_approval_returns db e =
      create_approval_body-eq_ok db
        (concluded-eq_ok db (create_approval_body q id created_at now db) e)
