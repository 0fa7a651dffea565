-- ===== src/Proposals.antt =====
-- create_proposed_action and get_proposed_action of db.py.
pub mod Retry
pub mod Again
pub mod Cooldown
use event_lead_ops_agent.Prelude.{
  ℕ, ◌+◌, ◌-◌, ◌≡◌, refl, String, Bool, true, false, not, ◌&&◌, ◌||◌, Option, none, some, Result,
  ok, err, ◌>>=◌, ◌>>◌, raise_if, ensure, or_raise, value_error, runtime_error, key_error, os_error,
  ◌==◌, is_text, truthy, ltb, leb, nat_eq, if◌then◌else◌, find,
}
use event_lead_ops_agent.Json.{Json, dumps}
use event_lead_ops_agent.Host.{Host, Files}
use event_lead_ops_agent.Time.{Stamp, utc, hours, at_or_after, parse_database_timestamp}
use event_lead_ops_agent.Models.{ProposedAction}
use event_lead_ops_agent.Policy.{payload_hash, make_idempotency_key}
use event_lead_ops_agent.Schema.{
  ProposalStatus, ProposedRow, ActionRow, CampaignRow, Db, is_failed, is_unresolved,
  is_action_failed, is_succeeded,
}
use event_lead_ops_agent.Schema.Constraints.{exists, proposal_by_id, insert_proposed_action}
use event_lead_ops_agent.Transaction.{transaction}

-- `action_type in {"publish_listing", "repost_listing"}`
abbrev pub is_listing : String → Bool
is_listing action_type = action_type == "publish_listing" || action_type == "repost_listing"

-- The keyword arguments of create_proposed_action.
pub record ProposalRequest : Type 0 where
  pub source : String
  pub action_type : String
  pub payload : Json
  pub account_alias : String
  pub campaign_id : Option String

-- The `ProposedAction` of a stored row.
unfoldable pub stored_proposal : Host → ProposedRow → Result ProposedAction
stored_proposal h row = do
  payload ← or_raise (h.loads row.payload_json) (value_error "JSONDecodeError")
  ok (record {
    id = row.id;
    source = row.source;
    action_type = row.action_type;
    payload = payload;
    payload_hash = row.payload_hash;
    idempotency_key = row.idempotency_key;
    account_alias = row.account_alias;
    campaign_id = row.campaign_id;
    attempt = row.attempt;
    retry_of = row.retry_of;
  })

-- SQL's `column = ?` where both may be NULL: NULL equals nothing.
abbrev pub sql_eq : Option String → Option String → Bool
sql_eq none o = false
sql_eq (some s) o = is_text o s

-- The listing proposals of one campaign, source and account.
abbrev pub same_campaign_listing : String → String → Option String → ProposedRow → Bool
same_campaign_listing source account_alias campaign_id r =
    r.source == source
    && (r.account_alias == account_alias
        && (sql_eq r.campaign_id campaign_id && is_listing r.action_type))

-- The listing's campaign, and its cooldown; no other action has one.
unfoldable pub listing_cooldown : ProposalRequest → Db → Result (Option ℕ)
listing_cooldown q db = if not (is_listing q.action_type) then ok none else do
  raise_if (not (truthy q.campaign_id)) (value_error "listing publication requires campaign_id")
  campaign ←
      or_raise (find (λ c. is_text q.campaign_id c.id) db.campaigns)
        (value_error "listing publication requires a stored campaign")
  ok (some campaign.cooldown_hours)

abbrev pub is_terminal_for_cooldown : ActionRow → Bool
is_terminal_for_cooldown a =
    is_succeeded a.status
    || (is_action_failed a.status && is_text a.error_class "confirmed_no_submit")

-- A terminal action of the campaign that finished at the cutoff or after it.
unfoldable pub has_recent_terminal : ProposalRequest → ℕ → Db → Bool
has_recent_terminal q cutoff db =
    exists
      (λ pa.
        same_campaign_listing q.source q.account_alias q.campaign_id pa
        && exists
            (λ a.
              a.proposed_action_id == pa.id
              && (is_terminal_for_cooldown a && at_or_after a.finished_at cutoff))
            db.actions)
      db.proposed_actions

-- The checks that hold back a listing while its campaign is busy or cools down.
unfoldable pub listing_blocks : ProposalRequest → Option ℕ → ℕ → Db → Result (Unit {0})
listing_blocks q none clock db = ok tt
listing_blocks q (some cooldown_hours) clock db = do
  raise_if
      (exists
        (λ r.
          same_campaign_listing q.source q.account_alias q.campaign_id r && is_unresolved r.status)
        db.proposed_actions)
      (runtime_error "campaign cooldown blocks new listing action")
  raise_if (has_recent_terminal q (clock - hours cooldown_hours) db)
      (runtime_error "campaign cooldown blocks new listing action")
  ok tt

abbrev pub new_proposed_row : Host → ProposalRequest → String → ℕ → Option ℕ → ProposedRow
new_proposed_row h q action_id now cooldown_hours = record {
  id = action_id;
  source = q.source;
  account_alias = q.account_alias;
  campaign_id = q.campaign_id;
  action_type = q.action_type;
  payload_json = dumps q.payload;
  payload_hash = payload_hash h q.payload;
  idempotency_key =
      make_idempotency_key h q.source q.account_alias q.campaign_id q.action_type q.payload 1;
  status = ProposalStatus.pending_approval;
  created_at = utc now;
  updated_at = utc now;
  attempt = 1;
  retry_of = none;
  cooldown_hours = cooldown_hours;
}

abbrev pub new_proposal : Host → ProposalRequest → String → ProposedAction
new_proposal h q action_id = record {
  id = action_id;
  source = q.source;
  action_type = q.action_type;
  payload = q.payload;
  payload_hash = payload_hash h q.payload;
  idempotency_key =
      make_idempotency_key h q.source q.account_alias q.campaign_id q.action_type q.payload 1;
  account_alias = q.account_alias;
  campaign_id = q.campaign_id;
  attempt = 1;
  retry_of = none;
}

abbrev pub proposal_by_key : String → Db → Option ProposedRow
proposal_by_key key db = find (λ r. r.idempotency_key == key) db.proposed_actions

-- The body of the transaction once the idempotency key has been looked up. `now` and `clock` are
-- the clock's readings at the start and at the cutoff.
unfoldable pub propose :
    Host
    → ProposalRequest
    → String
    → ℕ
    → ℕ
    → Option ℕ
    → Option ProposedRow
    → Db
    → Result (ProposedAction × Db)
propose h q action_id now clock cooldown (some existing) db = do
  stored ← stored_proposal h existing
  ok (stored, db)
propose h q action_id now clock cooldown none db = do
  listing_blocks q cooldown clock db
  db' ← insert_proposed_action (new_proposed_row h q action_id now cooldown) db
  ok (new_proposal h q action_id, db')

unfoldable pub create_proposed_action_body :
    Host → ProposalRequest → String → ℕ → ℕ → Db → Result (ProposedAction × Db)
create_proposed_action_body h q action_id now clock db = do
  cooldown ← listing_cooldown q db
  propose h q action_id now clock cooldown
      (proposal_by_key
        (make_idempotency_key h q.source q.account_alias q.campaign_id q.action_type q.payload 1)
        db)
      db

-- `action_id` is the drawn UUID.
unfoldable pub create_proposed_action :
    Host → ProposalRequest → String → ℕ → ℕ → Db → Result ProposedAction × Db
unfolding create_proposed_action_body
create_proposed_action h q action_id now clock =
    transaction (create_proposed_action_body h q action_id now clock)

unfoldable pub get_proposed_action : Host → String → Db → Result ProposedAction
get_proposed_action h id db = do
  row ← or_raise (proposal_by_id id db) (key_error id)
  stored_proposal h row
