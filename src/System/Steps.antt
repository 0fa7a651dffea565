-- ===== src/System/Steps.antt =====
-- Calls of the store and runs of them, against the lifecycle machine.
use event_lead_ops_agent.Prelude.{
  ℕ, ◌≡◌, sym, ap, none, List, [], ◌∷◌, arith, ◌==◌, find, >>=-eq_ok, or_raise-eq_ok,
  raise_if-eq_ok, unok, nat_eq,
}
use event_lead_ops_agent.Host.{Host, Files}
use event_lead_ops_agent.Time.{iso}
use event_lead_ops_agent.Schema.{Db, PolicyRow, ApproverRow, empty}
use event_lead_ops_agent.Lifecycle.{view, Change, stay}
use event_lead_ops_agent.Lifecycle.Invariant.Changes.{Change-Inv, empty-Inv}
use event_lead_ops_agent.Lifecycle.Statements.{View-path, WellFormed, Step, Step-transaction}
use event_lead_ops_agent.Lifecycle.Refines.{
  create_proposed_action-Step, create_retry_proposed_action-Step, create_approval-Step,
}
use event_lead_ops_agent.Lifecycle.Refines.Execution.{begin_approved_action-Step}
use event_lead_ops_agent.Lifecycle.Refines.Outcomes.{
  mark_action_submitting-Step, finish_action-Step,
}
use event_lead_ops_agent.Executions.Finish.{Sites}
use event_lead_ops_agent.Registry.{
  HealthInput, CampaignInput, record_source_policy, record_source_policy_body,
  record_authorized_approver, record_authorized_approver_body, record_source_health,
  record_source_health_body, upsert_campaign, upsert_campaign_body, campaign_status_of, certificate,
  iso_or, now_or_time,
}
use event_lead_ops_agent.System.{
  Call, propose, retry, approve, begin, mark, finish, set_policy, set_approver, set_health,
  set_campaign, perform, run,
}

-- A call that leaves the three tables.
kept-Step :
    {db db' : Db}
    → db'.proposed_actions ≡ db.proposed_actions
    → db'.approvals ≡ db.approvals
    → db'.actions ≡ db.actions
    → Step db db'
unfolding find
kept-Step {db} {db'} p a c = record {
  keeps = λ k. record {
    proposals = rw p k.proposals;
    proposal_keys = rw p k.proposal_keys;
    approvals = rw a k.approvals;
    actions = rw c k.actions;
    action_keys = rw c k.action_keys;
  };
  changes = λ wf. stay (
      View-path _ _ (λ k. ap (λ rows. find (λ r. r.id == k) rows) p)
        (λ k. ap (λ rows. find (λ r. r.id == k) rows) a)
        (λ k. ap (λ rows. find (λ r. r.id == k) rows) c));
}

pub record_source_policy-Step :
    (row : PolicyRow) (db : Db) → Step db (record_source_policy row db).1
unfolding record_source_policy
record_source_policy-Step row db =
    Step-transaction (record_source_policy_body row) db
      λ u db' e. kept-Step (ground arith) (ground arith) (ground arith)

pub record_authorized_approver-Step :
    (row : ApproverRow) (db : Db) → Step db (record_authorized_approver row db).1
unfolding record_authorized_approver
record_authorized_approver-Step row db =
    Step-transaction (record_authorized_approver_body row) db
      λ u db' e. kept-Step (ground arith) (ground arith) (ground arith)

pub record_source_health-Step :
    (h : Host) (files : Files) (q : HealthInput) (clock : ℕ) (db : Db)
    → Step db (record_source_health h files q clock db).1
unfolding record_source_health
record_source_health-Step h files q clock db =
    Step-transaction (record_source_health_body h files q clock) db λ u db' e.
      let (c, ce, e1) = >>=-eq_ok (certificate h files q clock) _ e in
      let (checked, he, e2) = >>=-eq_ok (iso (now_or_time q.checked_at clock)) _ e1 in
      let (certified, xe, e3) = >>=-eq_ok (iso_or c.2 none) _ e2 in
      let same = ap (λ t. t.1) (sym (unok e3)) in
      kept-Step (ap (λ (d : Db). d.proposed_actions) same) (ap (λ (d : Db). d.approvals) same)
        (ap (λ (d : Db). d.actions) same)

pub upsert_campaign-Step :
    (q : CampaignInput) (now : ℕ) (db : Db) → Step db (upsert_campaign q now db).1
unfolding upsert_campaign
upsert_campaign-Step q now db = Step-transaction (upsert_campaign_body q now) db λ u db' e.
    let (status, se, e1) = or_raise-eq_ok (campaign_status_of q.status) _ _ e in
    let (positive, e2) = raise_if-eq_ok (nat_eq q.cooldown_hours 0) _ _ e1 in
    let same = ap (λ t. t.1) (sym (unok e2)) in
    kept-Step (ap (λ (d : Db). d.proposed_actions) same) (ap (λ (d : Db). d.approvals) same)
      (ap (λ (d : Db). d.actions) same)

Step-WellFormed : {db db' : Db} → Step db db' → WellFormed db → WellFormed db'
Step-WellFormed s wf = record { keyed = s.keeps wf.keyed; inv = Change-Inv wf.inv (s.changes wf) }

pub empty-WellFormed : WellFormed empty
empty-WellFormed = record {
  keyed = record {
    proposals = tt;
    proposal_keys = tt;
    approvals = tt;
    actions = tt;
    action_keys = tt;
  };
  inv = empty-Inv;
}

module _ (h : Host) (sites : Sites) where
  pub perform-Step : (c : Call) (db : Db) → Step db (perform h sites c db)
  unfolding perform
  perform-Step (propose q id now clock) db = create_proposed_action-Step h q id now clock db
  perform-Step (retry files failed id now clock) db =
      create_retry_proposed_action-Step h files failed id now clock db
  perform-Step (approve q id created now) db = create_approval-Step q id created now db
  perform-Step (begin q) db = begin_approved_action-Step h q db
  perform-Step (mark q) db = mark_action_submitting-Step h q db
  perform-Step (finish files q) db = finish_action-Step h files sites q db
  perform-Step (set_policy row) db = record_source_policy-Step row db
  perform-Step (set_approver row) db = record_authorized_approver-Step row db
  perform-Step (set_health files q clock) db = record_source_health-Step h files q clock db
  perform-Step (set_campaign q now) db = upsert_campaign-Step q now db

  -- In tables that are in order, every call makes one change of the machine, or none: the calls
  -- implement the machine of proposals, approvals and actions.
  pub perform-Change :
      (c : Call) (db : Db) → WellFormed db → Change (view db) (view (perform h sites c db))
  perform-Change c db wf = (perform-Step c db).changes wf

  pub perform-WellFormed : (c : Call) (db : Db) → WellFormed db → WellFormed (perform h sites c db)
  perform-WellFormed c db wf = Step-WellFormed (perform-Step c db) wf

  -- Whatever calls a run makes, failing ones included, tables that are in order stay in order: keys
  -- are unique; every action stands beside its proposal, which shares its status, its payload, its
  -- idempotency key and its payload hash, and beside an approval of that proposal and hash, which
  -- is consumed; a proposal has at most one approval and at most one action; an approval's proposal
  -- is not pending; and an action's token, marker and status agree.
  pub run-WellFormed :
      (calls : List Call) (db : Db) → WellFormed db → WellFormed (run h sites calls db)
  unfolding run
  run-WellFormed [] db wf = wf
  run-WellFormed (c ∷ calls) db wf =
      run-WellFormed calls (perform h sites c db) (perform-WellFormed c db wf)
