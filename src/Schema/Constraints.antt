-- ===== src/Schema/Constraints.antt =====
-- The statements that write proposals, approvals and actions, with the keys, foreign keys and
-- triggers of migrations/001, 002 and 004 that SQLite checks for them. Each table is a list with
-- the newest row first; every SELECT of the program is by a unique key or asks whether a row exists.
use Prim.Native.Char.{code}
use event_lead_ops_agent.Prelude.{
  ℕ, zero, suc, String, Bool, true, false, ◌&&◌, ◌||◌, Option, none, some, List, ◌∷◌, Result, ok,
  ◌>>◌, raise_if, ensure, integrity_error, ◌==◌, is_text, leb, nat_eq, find, update_where,
}
use event_lead_ops_agent.Time.{utc}
use event_lead_ops_agent.Schema.{
  ProposalStatus, ApprovalStatus, ActionStatus, ProposedRow, ApprovalRow, ActionRow, Db,
  is_proposal_approved, is_approved, is_executing,
}

abbrev pub exists {ℓ} : {A : Type ℓ} → (A → Bool) → List A → Bool
exists p rows = elim (find p rows) [ none ↦ false | some r ↦ true ]

abbrev pub proposal_by_id : String → Db → Option ProposedRow
proposal_by_id id db = find (λ r. r.id == id) db.proposed_actions

abbrev pub approval_by_id : String → Db → Option ApprovalRow
approval_by_id id db = find (λ r. r.id == id) db.approvals

abbrev pub action_by_id : String → Db → Option ActionRow
action_by_id id db = find (λ r. r.id == id) db.actions

abbrev pub action_by_key : String → Db → Option ActionRow
action_by_key key db = find (λ r. r.idempotency_key == key) db.actions

-- A foreign key that may be NULL.
abbrev references {ℓ} : {A : Type ℓ} → Option String → (A → String) → List A → Bool
references none key rows = true
references (some id) key rows = exists (λ r. key r == id) rows

abbrev retried_already : Option String → List ProposedRow → Bool
retried_already none rows = false
retried_already (some id) rows = exists (λ r. is_text r.retry_of id) rows

-- INSERT INTO proposed_actions
unfoldable pub insert_proposed_action : ProposedRow → Db → Result Db
insert_proposed_action row db = do
  raise_if (exists (λ r. r.id == row.id) db.proposed_actions)
      (integrity_error "UNIQUE constraint failed: proposed_actions.id")
  raise_if (exists (λ r. r.idempotency_key == row.idempotency_key) db.proposed_actions)
      (integrity_error "UNIQUE constraint failed: proposed_actions.idempotency_key")
  raise_if (retried_already row.retry_of db.proposed_actions)
      (integrity_error "UNIQUE constraint failed: proposed_actions.retry_of")
  ensure (references row.campaign_id (λ c. c.id) db.campaigns)
      (integrity_error "FOREIGN KEY constraint failed")
  ensure (references row.retry_of (λ p. p.id) db.proposed_actions)
      (integrity_error "FOREIGN KEY constraint failed")
  ok (record db { proposed_actions = row ∷ db.proposed_actions })

-- INSERT INTO approvals
unfoldable pub insert_approval : ApprovalRow → Db → Result Db
insert_approval row db = do
  raise_if (exists (λ r. r.id == row.id) db.approvals)
      (integrity_error "UNIQUE constraint failed: approvals.id")
  ensure (exists (λ p. p.id == row.proposed_action_id) db.proposed_actions)
      (integrity_error "FOREIGN KEY constraint failed")
  ok (record db { approvals = row ∷ db.approvals })

is_hex : ℕ → Bool
is_hex c = (leb b'0' c && leb c b'9') || (leb b'a' c && leb c b'f')

all_hex : ℕ → String → Bool
unfolding is_hex
all_hex n String.[] = nat_eq n 0
all_hex zero (String.◌∷◌ c s) = false
all_hex (suc n) (String.◌∷◌ c s) = is_hex (code c) && all_hex n s

-- `length(token) = 64 AND token NOT GLOB '*[^0-9a-f]*'`
unfoldable pub is_token_hash : Option String → Bool
unfolding all_hex
is_token_hash none = false
is_token_hash (some s) = all_hex 64 s

-- The trigger `actions_authorization_identity_required`: the rows that an action is inserted for.
abbrev authorizes : ActionRow → ProposedRow → ApprovalRow → Bool
authorizes new p a =
    is_proposal_approved p.status
    && (is_approved a.status
        && (a.payload_hash == p.payload_hash
            && (p.source == new.source
                && (p.action_type == new.action_type
                    && (p.idempotency_key == new.idempotency_key
                        && (p.payload_json == new.payload_json
                            && p.payload_hash == new.payload_hash))))))

unfoldable pub is_authorized : ActionRow → Db → Bool
is_authorized new db = elim (proposal_by_id new.proposed_action_id db) [
  | none ↦ false
  | some p ↦ elim (approval_by_id new.approval_id db) [
    | none ↦ false
    | some a ↦ a.proposed_action_id == p.id && authorizes new p a
  ]
]

-- INSERT INTO actions. `json_valid` is SQLite's function.
unfoldable pub insert_action : (String → Bool) → ActionRow → Db → Result Db
insert_action json_valid new db = do
  ensure
      (is_executing new.status
        && (json_valid new.payload_json && is_token_hash new.execution_token_hash))
      (integrity_error "action requires valid payload JSON and execution capability")
  ensure (is_authorized new db)
      (integrity_error "action authorization must match stored proposal and approval")
  raise_if (exists (λ r. r.id == new.id) db.actions)
      (integrity_error "UNIQUE constraint failed: actions.id")
  raise_if (exists (λ r. r.idempotency_key == new.idempotency_key) db.actions)
      (integrity_error "UNIQUE constraint failed: actions.idempotency_key")
  ok (record db { actions = new ∷ db.actions })

-- UPDATE proposed_actions SET status=?, updated_at=? WHERE id=?
unfoldable pub set_proposal_status : String → ProposalStatus → ℕ → Db → Db
set_proposal_status id status now db = record db {
  proposed_actions =
      update_where (λ r. r.id == id) (λ r. record r { status = status; updated_at = utc now })
        db.proposed_actions;
}

-- UPDATE approvals SET status='consumed', consumed_at=? WHERE id=?
unfoldable pub consume_approval : String → ℕ → Db → Db
consume_approval id now db = record db {
  approvals =
      update_where (λ r. r.id == id)
        (λ r. record r { status = ApprovalStatus.consumed; consumed_at = some (utc now) })
        db.approvals;
}

-- The trigger `actions_submission_marker_monotonic`, on the row as it stands.
abbrev marker_is_free : Option ActionRow → Bool
marker_is_free none = true
marker_is_free (some old) = elim old.submission_started_at [ none ↦ true | some t ↦ false ]

-- UPDATE actions SET submission_started_at=?, execution_token_hash=NULL WHERE id=?
unfoldable pub set_submission_started : String → ℕ → Db → Result Db
set_submission_started id now db = do
  ensure (marker_is_free (action_by_id id db))
      (integrity_error "action submission marker can only be set once")
  ok (record db {
    actions =
        update_where (λ r. r.id == id)
          (λ r. record r { submission_started_at = some (utc now); execution_token_hash = none })
          db.actions;
  })

-- What the UPDATE statements that end an action set, beside `execution_token_hash=NULL`.
pub record Outcome : Type 0 where
  pub status : ActionStatus
  pub platform_external_id : Option String
  pub platform_url : Option String
  pub evidence_path : Option String
  pub evidence_sha256 : Option String
  pub finished_at : ℕ
  pub error_class : Option String
  pub error_detail : Option String

abbrev pub with_outcome : Outcome → ActionRow → ActionRow
with_outcome o r = record r {
  status = o.status;
  platform_external_id = o.platform_external_id;
  platform_url = o.platform_url;
  evidence_path = o.evidence_path;
  evidence_sha256 = o.evidence_sha256;
  finished_at = some (utc o.finished_at);
  error_class = o.error_class;
  error_detail = o.error_detail;
  execution_token_hash = none;
}

-- UPDATE actions SET status=?, …, execution_token_hash=NULL WHERE id=?: the triggers on `status` ask
-- for a consumed capability, which this statement provides, and that no action is reopened.
unfoldable pub set_outcome : String → Outcome → Db → Db
set_outcome id o db = record db {
  actions = update_where (λ r. r.id == id) (with_outcome o) db.actions;
}

abbrev pub made_stale : ℕ → ActionRow → ActionRow
made_stale now r = record r {
  status = ActionStatus.needs_reconciliation;
  finished_at = some (utc now);
  execution_token_hash = none;
  error_class = some "stale_execution";
  error_detail = some "execution timeout; verify platform before retry";
}

-- UPDATE actions SET status='needs_reconciliation', …, error_class='stale_execution', …
unfoldable pub set_stale : String → ℕ → Db → Db
set_stale id now db = record db {
  actions = update_where (λ r. r.id == id) (made_stale now) db.actions;
}
