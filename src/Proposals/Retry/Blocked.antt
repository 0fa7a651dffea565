-- ===== src/Proposals/Retry/Blocked.antt =====
-- create_retry_proposed_action of db.py where a listing's retry is open.
use event_lead_ops_agent.Prelude.{ℕ, String, ◌≡◌, ◌≢◌, sym, ap, ◌∙◌, true, some, ok, unsome}
use event_lead_ops_agent.Host.{Host, Files}
use event_lead_ops_agent.Models.{ProposedAction}
use event_lead_ops_agent.Schema.{ProposedRow, Db}
use event_lead_ops_agent.Schema.Constraints.{proposal_by_id}
use event_lead_ops_agent.Schema.Searches.{found_exists}
use event_lead_ops_agent.Proposals.{is_listing}
use event_lead_ops_agent.Proposals.Retry.{competes, existing_retry, create_retry_proposed_action}
use event_lead_ops_agent.Proposals.Retry.Evidenced.{create_retry_returns}

-- Where a failed listing has a retry that is an open listing of its campaign, source and account
-- under another ID, create_retry_proposed_action never returns a proposal.
pub open_retry_blocks :
    (h : Host) (files : Files) (failed_id retry_id : String) (now clock : ℕ) (db : Db)
    (row pending : ProposedRow) (p : ProposedAction)
    → proposal_by_id failed_id db ≡ some row
    → existing_retry failed_id db ≡ some pending
    → is_listing row.action_type ≡ true
    → competes row pending ≡ true
    → (create_retry_proposed_action h files failed_id retry_id now clock db).0 ≢ ok p
open_retry_blocks h files failed_id retry_id now clock db row pending p there retried listing
      open_one e =
    let r = create_retry_returns h files failed_id retry_id now clock db e in
    let is_row : r.row ≡ row = unsome (sym r.there ∙ there) in
    let cooled = r.cooled (ap (λ (x : ProposedRow). is_listing x.action_type) is_row ∙ listing) in
    cc (
      cooled.alone,
      found_exists (competes r.row) _ db.proposed_actions retried
          (ap (λ (x : ProposedRow). competes x pending) is_row ∙ open_one),
    )
