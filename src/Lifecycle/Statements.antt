-- ===== src/Lifecycle/Statements.antt =====
-- What the statements of Schema/Constraints do to the maps from IDs.
use event_lead_ops_agent.Prelude.{
  ℕ, String, ◌≡◌, refl, sym, ap, Bool, true, none, some, ◌∷◌, Result, ok, err, arith, eq_iff, ◌==◌,
  put, by_key-found, by_key-update_where, Unique, update_where-Unique, subst, find, update_where,
  Option-cases, inl, inr,
}
use event_lead_ops_agent.Schema.{
  ProposalStatus, ApprovalStatus, ProposedRow, ApprovalRow, ActionRow, Db,
}
use event_lead_ops_agent.Schema.Constraints.{
  proposal_by_id, approval_by_id, action_by_id, insert_proposed_action, insert_approval,
  is_authorized, is_token_hash, insert_action, set_proposal_status, consume_approval,
  set_submission_started,
}
use event_lead_ops_agent.Lifecycle.{
  View, view, Authorized, Change, stay, with_status, consumed_at, submitted_at,
}
use event_lead_ops_agent.Lifecycle.Invariant.{Inv}
use event_lead_ops_agent.Transaction.{concluded, transaction}

pub View-path :
    (v w : View)
    → ((k : String) → v.proposals k ≡ w.proposals k)
    → ((k : String) → v.approvals k ≡ w.approvals k)
    → ((k : String) → v.actions k ≡ w.actions k)
    → v ≡ w
View-path v w p a c =
    λ i. record { proposals = λ k. p k i; approvals = λ k. a k i; actions = λ k. c k i }

-- No two rows share a primary key or an idempotency key.
pub record Keyed (db : Db) : Type 0 where
  pub proposals : Unique (λ r. r.id) db.proposed_actions
  pub proposal_keys : Unique (λ r. r.idempotency_key) db.proposed_actions
  pub approvals : Unique (λ r. r.id) db.approvals
  pub actions : Unique (λ r. r.id) db.actions
  pub action_keys : Unique (λ r. r.idempotency_key) db.actions

-- What the tables are between two calls.
pub record WellFormed (db : Db) : Type 0 where
  pub keyed : Keyed db
  pub inv : Inv (view db)

-- From tables in order, a call makes one change of the machine, and keeps the keys unique.
pub record Step (db db' : Db) : Type 0 where
  pub keeps : Keyed db → Keyed db'
  pub changes : WellFormed db → Change (view db) (view db')

pub Step-same : {db db' : Db} → db' ≡ db → Step db db'
Step-same {db} same = record { keeps = subst Keyed (sym same); changes = λ wf. stay (ap view same) }

-- A transaction does what its body commits, and nothing if it raises.
pub Step-transaction {ℓ} :
    {A : Type ℓ} (body : Db → Result (A × Db)) (db : Db)
    → ((a : A) (db' : Db) → body db ≡ ok (a, db') → Step db db')
    → Step db (transaction body db).1
Step-transaction {A = A} body db commits = go (body db) refl
  where
    go : (r : Result (A × Db)) → body db ≡ r → Step db (concluded db r).1
    go (ok (a, db')) e = commits a db' e
    go (err x) e = Step-same refl

pub set_proposal_status-Keyed :
    (id : String) (status : ProposalStatus) (now : ℕ) {db : Db}
    → Keyed db
    → Keyed (set_proposal_status id status now db)
unfolding set_proposal_status
set_proposal_status-Keyed id status now {db} k = record {
  proposals = update_where-Unique (λ r. r.id) db.proposed_actions _ _ (λ x. refl) k.proposals;
  proposal_keys =
      update_where-Unique (λ r. r.idempotency_key) db.proposed_actions _ _ (λ x. refl)
        k.proposal_keys;
  approvals = k.approvals;
  actions = k.actions;
  action_keys = k.action_keys;
}

pub consume_approval-Keyed :
    (id : String) (now : ℕ) {db : Db} → Keyed db → Keyed (consume_approval id now db)
unfolding consume_approval
consume_approval-Keyed id now {db} k = record {
  proposals = k.proposals;
  proposal_keys = k.proposal_keys;
  approvals = update_where-Unique (λ r. r.id) db.approvals _ _ (λ x. refl) k.approvals;
  actions = k.actions;
  action_keys = k.action_keys;
}

-- An UPDATE of actions that leaves their keys.
pub update_actions-Keyed :
    (p : ActionRow → Bool) (f : ActionRow → ActionRow) {db : Db}
    → ((x : ActionRow) → (f x).id ≡ x.id)
    → ((x : ActionRow) → (f x).idempotency_key ≡ x.idempotency_key)
    → Keyed db
    → Keyed (record db { actions = update_where p f db.actions })
update_actions-Keyed p f {db} id key k = record {
  proposals = k.proposals;
  proposal_keys = k.proposal_keys;
  approvals = k.approvals;
  actions = update_where-Unique (λ r. r.id) db.actions p f id k.actions;
  action_keys = update_where-Unique (λ r. r.idempotency_key) db.actions p f key k.action_keys;
}

module _ (db : Db) where
  pub set_proposal_status-put :
      (p : ProposedRow) (status : ProposalStatus) (now : ℕ) (k : String)
      → proposal_by_id p.id db ≡ some p
      → proposal_by_id k (set_proposal_status p.id status now db)
        ≡ put p.id (with_status status now p) (view db).proposals k
  unfolding set_proposal_status
  set_proposal_status-put p status now k there =
      by_key-update_where (λ r. r.id) db.proposed_actions p.id (with_status status now) (λ x. refl)
        k there

  pub consume_approval-put :
      (y : ApprovalRow) (now : ℕ) (k : String)
      → approval_by_id y.id db ≡ some y
      → approval_by_id k (consume_approval y.id now db)
        ≡ put y.id (consumed_at now y) (view db).approvals k
  unfolding consume_approval
  consume_approval-put y now k there =
      by_key-update_where (λ r. r.id) db.approvals y.id (consumed_at now) (λ x. refl) k there

  pub insert_proposed_action-eq_ok :
      (row : ProposedRow) {db' : Db}
      → insert_proposed_action row db ≡ ok db'
      → (proposal_by_id row.id db ≡ none)
        × (find (λ r. r.idempotency_key == row.idempotency_key) db.proposed_actions ≡ none)
        × (db' ≡ record db { proposed_actions = row ∷ db.proposed_actions })
  unfolding insert_proposed_action
  insert_proposed_action-eq_ok row h = ground arith

  pub insert_approval-eq_ok :
      (row : ApprovalRow) {db' : Db}
      → insert_approval row db ≡ ok db'
      → (approval_by_id row.id db ≡ none) × (db' ≡ record db { approvals = row ∷ db.approvals })
  unfolding insert_approval
  insert_approval-eq_ok row h = ground arith

  pub insert_action-eq_ok :
      (json_valid : String → Bool) (row : ActionRow) {db' : Db}
      → insert_action json_valid row db ≡ ok db'
      → (action_by_id row.id db ≡ none)
        × (is_authorized row db ≡ true)
        × (is_token_hash row.execution_token_hash ≡ true)
        × (find (λ r. r.idempotency_key == row.idempotency_key) db.actions ≡ none)
        × (db' ≡ record db { actions = row ∷ db.actions })
  unfolding insert_action
  insert_action-eq_ok json_valid row h = ground arith

  -- The trigger's rows: an approved proposal and an approved approval that authorize the action.
  pub is_authorized-rows :
      (row : ActionRow) {p : ProposedRow}
      → proposal_by_id row.proposed_action_id db ≡ some p
      → is_authorized row db ≡ true
      → (y : ApprovalRow) × (approval_by_id row.approval_id db ≡ some y)
        × (p.status ≡ ProposalStatus.approved)
        × (y.status ≡ ApprovalStatus.approved)
        × Authorized row p y
  unfolding is_authorized
  is_authorized-rows row {p} there h = elim (Option-cases (approval_by_id row.approval_id db)) [
    | inl gone ↦ absurd (ground arith)
    | inr (y, y_there) ↦ (
      y,
      y_there,
      ground arith,
      ground arith,
      record {
        of_proposal =
            sym (by_key-found (λ r. r.id) db.proposed_actions row.proposed_action_id there);
        of_approval = sym (by_key-found (λ r. r.id) db.approvals row.approval_id y_there);
        for_proposal = ground (arith, eq_iff y.proposed_action_id p.id);
        same_source = ground (arith, eq_iff p.source row.source);
        same_type = ground (arith, eq_iff p.action_type row.action_type);
        same_key = ground (arith, eq_iff p.idempotency_key row.idempotency_key);
        same_json = ground (arith, eq_iff p.payload_json row.payload_json);
        same_hash = ground (arith, eq_iff p.payload_hash row.payload_hash);
        approved_hash = ground (arith, eq_iff y.payload_hash p.payload_hash);
      },
    )
  ]

  pub set_submission_started-eq_ok :
      (a : ActionRow) (now : ℕ) {db' : Db}
      → action_by_id a.id db ≡ some a
      → set_submission_started a.id now db ≡ ok db'
      → (a.submission_started_at ≡ none)
        × (db' ≡ record db {
          actions = update_where (λ r. r.id == a.id) (submitted_at now) db.actions;
        })
  unfolding set_submission_started
  set_submission_started-eq_ok a now there h = ground arith
