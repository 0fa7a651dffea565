-- ===== src/System.antt =====
-- Runs of the store: every call of db.py that writes is one IMMEDIATE transaction or one statement,
-- so whatever processes do at once is a sequence of calls.
pub mod Steps
pub mod Once
use event_lead_ops_agent.Prelude.{
  ℕ, suc, String, Bool, true, false, Option, none, some, List, [], ◌∷◌, Result, ok, err, is_text,
  if◌then◌else◌,
}
use event_lead_ops_agent.Json.{Json}
use event_lead_ops_agent.Host.{Host, Files}
use event_lead_ops_agent.Schema.{ActionRow, PolicyRow, ApproverRow, Db}
use event_lead_ops_agent.Schema.Constraints.{action_by_id}
use event_lead_ops_agent.Proposals.{ProposalRequest, create_proposed_action}
use event_lead_ops_agent.Proposals.Retry.{create_retry_proposed_action}
use event_lead_ops_agent.Approvals.{ApprovalRequest, create_approval}
use event_lead_ops_agent.Executions.Begin.{BeginRequest, begin_approved_action}
use event_lead_ops_agent.Executions.Submit.{SubmitRequest, mark_action_submitting}
use event_lead_ops_agent.Executions.Finish.{Sites, FinishRequest, finish_action}
use event_lead_ops_agent.Registry.{
  HealthInput, CampaignInput, record_source_policy, record_authorized_approver,
  record_source_health, upsert_campaign,
}

-- A call with its arguments, its UUID and its readings of the clock; `files` are what it finds.
pub data Call : Type 0 where
  propose : ProposalRequest → String → ℕ → ℕ → Call
  retry : Files → String → String → ℕ → ℕ → Call
  approve : ApprovalRequest → String → ℕ → ℕ → Call
  begin : BeginRequest → Call
  mark : SubmitRequest → Call
  finish : Files → FinishRequest → Call
  set_policy : PolicyRow → Call
  set_approver : ApproverRow → Call
  set_health : Files → HealthInput → ℕ → Call
  set_campaign : CampaignInput → ℕ → Call

abbrev pub succeeds {ℓ} : {A : Type ℓ} → Result A → Bool
succeeds (ok a) = true
succeeds (err e) = false

module _ (h : Host) (sites : Sites) where
  -- The database after a call.
  unfoldable pub perform : Call → Db → Db
  perform (propose q id now clock) db = (create_proposed_action h q id now clock db).1
  perform (retry files failed id now clock) db =
      (create_retry_proposed_action h files failed id now clock db).1
  perform (approve q id created now) db = (create_approval q id created now db).1
  perform (begin q) db = (begin_approved_action h q db).1
  perform (mark q) db = (mark_action_submitting h q db).1
  perform (finish files q) db = (finish_action h files sites q db).1
  perform (set_policy row) db = (record_source_policy row db).1
  perform (set_approver row) db = (record_authorized_approver row db).1
  perform (set_health files q clock) db = (record_source_health h files q clock db).1
  perform (set_campaign q now) db = (upsert_campaign q now db).1

  unfoldable pub run : List Call → Db → Db
  run [] db = db
  run (c ∷ calls) db = run calls (perform c db)

  -- The proposal of the action that a call hands to the platform: mark_action_submitting returns
  -- the payload that the adapter then submits.
  unfoldable pub submits : Call → Db → Option String
  submits (mark q) db =
      if succeeds (mark_action_submitting h q db).0
      then elim (action_by_id q.reservation.action_id db) [
        | none ↦ none
        | some row ↦ some row.proposed_action_id
      ]
      else none
  submits _ db = none

  -- How often a run hands an action of the proposal to the platform.
  unfoldable pub submissions : String → List Call → Db → ℕ
  submissions proposal [] db = 0
  submissions proposal (c ∷ calls) db =
      let rest = submissions proposal calls (perform c db) in
      if is_text (submits c db) proposal then suc rest else rest
