-- ===== src/Proposals/Retry.antt =====
-- create_retry_proposed_action of db.py.
pub mod Evidenced
pub mod Blocked
use event_lead_ops_agent.Prelude.{
  ℕ, ◌+◌, String, Bool, not, ◌&&◌, Option, none, some, Result, ok, ◌>>=◌, ◌>>◌, raise_if, ensure,
  or_raise, value_error, runtime_error, key_error, os_error, ◌==◌, is_text, truthy, ltb, nat_eq,
  if◌then◌else◌, find,
}
use event_lead_ops_agent.Json.{Json}
use event_lead_ops_agent.Host.{Host, Files}
use event_lead_ops_agent.Time.{Stamp, utc, hours, parse_database_timestamp}
use event_lead_ops_agent.Models.{ProposedAction}
use event_lead_ops_agent.Policy.{make_idempotency_key}
use event_lead_ops_agent.Schema.{
  ProposalStatus, ProposedRow, ActionRow, Db, is_failed, is_unresolved, is_action_failed,
}
use event_lead_ops_agent.Schema.Constraints.{exists, proposal_by_id, insert_proposed_action}
use event_lead_ops_agent.Transaction.{transaction}
use event_lead_ops_agent.Proposals.{is_listing, same_campaign_listing, stored_proposal}

-- SELECT … FROM actions WHERE proposed_action_id=? AND status='failed'
abbrev pub failed_action : String → Db → Option ActionRow
failed_action id db = find (λ a. a.proposed_action_id == id && is_action_failed a.status) db.actions

abbrev pub or_empty : Option String → String
or_empty none = ""
or_empty (some s) = s

-- The failed action, if it is an evidenced `confirmed_no_submit` and its evidence is as it was.
unfoldable pub evidenced_failure : Host → Files → String → Db → Result ActionRow
evidenced_failure h files id db = do
  action ←
      or_raise (failed_action id db) (runtime_error "retry requires evidenced confirmed_no_submit")
  ensure
      (is_text action.error_class "confirmed_no_submit"
        && (truthy action.evidence_path
            && (truthy action.evidence_sha256 && files.is_file (or_empty action.evidence_path))))
      (runtime_error "retry requires evidenced confirmed_no_submit")
  bytes ← or_raise (files.read_bytes (or_empty action.evidence_path)) (os_error "read_bytes")
  ensure (is_text action.evidence_sha256 (h.sha256_bytes bytes))
      (runtime_error "retry evidence changed after terminal recording")
  ok action

-- A listing proposal of the same campaign, source and account, other than the row, is unresolved.
abbrev pub competes : ProposedRow → ProposedRow → Bool
competes row r =
    not (r.id == row.id)
    && (same_campaign_listing row.source row.account_alias row.campaign_id r
        && is_unresolved r.status)

abbrev pub positive_cooldown : Option ℕ → Option ℕ
positive_cooldown none = none
positive_cooldown (some n) = if nat_eq n 0 then none else some n

abbrev pub or_unreadable : Option Stamp → Stamp
or_unreadable none = Stamp.unreadable
or_unreadable (some t) = t

-- The cooldown of a listing: no other listing of the campaign is unresolved, and the cooldown that
-- the row carries has passed since the failed action finished.
unfoldable pub retry_cooldown : ProposedRow → ActionRow → ℕ → Db → Result (Unit {0})
retry_cooldown row action clock db = if not (is_listing row.action_type) then ok tt else do
  cooldown_hours ←
      or_raise (positive_cooldown row.cooldown_hours)
        (runtime_error "listing retry is missing persisted campaign cooldown")
  raise_if (exists (competes row) db.proposed_actions)
      (runtime_error "another listing proposal already blocks retry")
  finished_at ← parse_database_timestamp (or_unreadable action.finished_at)
  raise_if (ltb clock (finished_at + hours cooldown_hours))
      (runtime_error "campaign cooldown blocks listing retry")
  ok tt

abbrev pub retry_key : Host → ProposedRow → Json → String
retry_key h row payload =
    make_idempotency_key h row.source row.account_alias row.campaign_id row.action_type payload
      (row.attempt + 1)

abbrev pub retry_row : Host → ProposedRow → Json → String → ℕ → ProposedRow
retry_row h row payload retry_id now = record row {
  id = retry_id;
  idempotency_key = retry_key h row payload;
  status = ProposalStatus.pending_approval;
  created_at = utc now;
  updated_at = utc now;
  attempt = row.attempt + 1;
  retry_of = some row.id;
}

abbrev pub retry_proposal : Host → ProposedRow → Json → String → ProposedAction
retry_proposal h row payload retry_id = record {
  id = retry_id;
  source = row.source;
  action_type = row.action_type;
  payload = payload;
  payload_hash = row.payload_hash;
  idempotency_key = retry_key h row payload;
  account_alias = row.account_alias;
  campaign_id = row.campaign_id;
  attempt = row.attempt + 1;
  retry_of = some row.id;
}

-- SELECT * FROM proposed_actions WHERE retry_of=?
abbrev pub existing_retry : String → Db → Option ProposedRow
existing_retry id db = find (λ r. is_text r.retry_of id) db.proposed_actions

-- The body once the existing retry has been looked up.
unfoldable pub retry :
    Host → ProposedRow → String → ℕ → Option ProposedRow → Db → Result (ProposedAction × Db)
retry h row retry_id now (some existing) db = do
  stored ← stored_proposal h existing
  ok (stored, db)
retry h row retry_id now none db = do
  payload ← or_raise (h.loads row.payload_json) (value_error "JSONDecodeError")
  db' ← insert_proposed_action (retry_row h row payload retry_id now) db
  ok (retry_proposal h row payload retry_id, db')

unfoldable pub create_retry_body :
    Host → Files → String → String → ℕ → ℕ → Db → Result (ProposedAction × Db)
create_retry_body h files failed_id retry_id now clock db = do
  row ← or_raise (proposal_by_id failed_id db) (key_error failed_id)
  ensure (is_failed row.status) (runtime_error "only a confirmed failed action can be retried")
  action ← evidenced_failure h files failed_id db
  retry_cooldown row action clock db
  retry h row retry_id now (existing_retry failed_id db) db

-- `retry_id` is the drawn UUID, `now` and `clock` the clock's readings at the start and at the
-- cooldown test.
unfoldable pub create_retry_proposed_action :
    Host → Files → String → String → ℕ → ℕ → Db → Result ProposedAction × Db
unfolding create_retry_body
create_retry_proposed_action h files failed_id retry_id now clock =
    transaction (create_retry_body h files failed_id retry_id now clock)
