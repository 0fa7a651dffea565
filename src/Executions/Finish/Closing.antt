-- ===== src/Executions/Finish/Closing.antt =====
-- finish_action of db.py: a call that returns, and later calls for the same action.
use event_lead_ops_agent.Prelude.{
  unsome, eq_iff, put_ne, String, ◌≡◌, ◌≢◌, refl, sym, ap, ◌∙◌, subst, false, Option, none, some,
  ok, arith, by_key-update_where, put_self,
}
use event_lead_ops_agent.Json.{Json}
use event_lead_ops_agent.Host.{Host, Files}
use event_lead_ops_agent.Schema.{
  ActionStatus, ActionRow, ProposalStatus, ProposedRow, Db, is_executing,
}
use event_lead_ops_agent.Schema.Constraints.{
  action_by_id, proposal_by_id, set_proposal_status, set_outcome, with_outcome,
}
use event_lead_ops_agent.Time.{utc}
use event_lead_ops_agent.Transaction.{concluded-eq_ok}
use event_lead_ops_agent.Executions.Submit.{SubmitRequest, mark_action_submitting}
use event_lead_ops_agent.Executions.Submit.Marking.{mark_returns}
use event_lead_ops_agent.Executions.Finish.{
  Sites, Terminal, succeeded, failed, needs_reconciliation, FinishRequest, terminal_of, new_outcome,
  action_status, proposal_status, finish_body, finish_action,
}
use event_lead_ops_agent.Executions.Finish.Checks.{Finished, finish_body-eq_ok}

pub Finished-finish_action :
    (h : Host) (files : Files) (sites : Sites) (q : FinishRequest) (db : Db) {u : Unit {0}}
    → (finish_action h files sites q db).0 ≡ ok u
    → Finished h files sites q db (finish_action h files sites q db).1
unfolding finish_action
Finished-finish_action h files sites q db e =
    finish_body-eq_ok h files sites q db (concluded-eq_ok db (finish_body h files sites q db) e)

-- The status that the caller named, in both rows
abbrev pub IsNamed : String → Terminal → ActionStatus → ProposalStatus → Type 0
IsNamed status succeeded a p =
    (status ≡ "succeeded") × (a ≡ ActionStatus.succeeded) × (p ≡ ProposalStatus.succeeded)
IsNamed status failed a p =
    (status ≡ "failed") × (a ≡ ActionStatus.failed) × (p ≡ ProposalStatus.failed)
IsNamed status needs_reconciliation a p =
    (status ≡ "needs_reconciliation")
    × (a ≡ ActionStatus.needs_reconciliation)
    × (p ≡ ProposalStatus.needs_reconciliation)

-- What the two rows hold, column by column, after an action and its proposal have ended.
pub record Recorded (q : FinishRequest) (t : Terminal) (digest error_class : Option String)
    (before : ActionRow) (db db' : Db) : Type 0 where
  pub row : ActionRow
  pub there : action_by_id q.action_id db' ≡ some row
  pub proposal : ProposedRow
  pub proposal_there : proposal_by_id before.proposed_action_id db' ≡ some proposal
  pub named : IsNamed q.status t row.status proposal.status
  pub platform_external_id : row.platform_external_id ≡ q.platform_external_id
  pub platform_url : row.platform_url ≡ q.platform_url
  pub evidence_path : row.evidence_path ≡ q.evidence_path
  pub evidence_sha256 : row.evidence_sha256 ≡ digest
  pub class : row.error_class ≡ error_class
  pub error_detail : row.error_detail ≡ q.error_detail
  pub finished_at : row.finished_at ≡ some (utc q.clock)
  pub updated_at : proposal.updated_at ≡ utc q.clock
  pub no_token : row.execution_token_hash ≡ none
  pub same_payload : row.payload_json ≡ before.payload_json
  pub same_marker : row.submission_started_at ≡ before.submission_started_at
  pub other_actions : (k : String) → q.action_id ≢ k → action_by_id k db' ≡ action_by_id k db
  pub other_proposals :
      (k : String) → before.proposed_action_id ≢ k → proposal_by_id k db' ≡ proposal_by_id k db

IsNamed-terminal_of :
    (s : String) (t : Terminal)
    → terminal_of s ≡ some t
    → IsNamed s t (action_status t) (proposal_status t)
unfolding terminal_of
IsNamed-terminal_of s succeeded e = (ground (arith, eq_iff s "succeeded"), refl, refl)
IsNamed-terminal_of s failed e = (ground (arith, eq_iff s "failed"), refl, refl)
IsNamed-terminal_of s needs_reconciliation e =
    (ground (arith, eq_iff s "needs_reconciliation"), refl, refl)

Recorded-of_Finished :
    {h : Host} {files : Files} {sites : Sites} {q : FinishRequest} {db db' : Db}
    → (f : Finished h files sites q db db')
    → Recorded q f.terminal f.digest f.error_class f.row db db'
unfolding set_outcome set_proposal_status
Recorded-of_Finished {q = q} {db = db} f =
    let o = new_outcome q f.terminal f.digest f.error_class in
    let id = f.row.proposed_action_id in
    let set = λ (r : ProposedRow). record r {
      status = proposal_status f.terminal;
      updated_at = utc q.clock;
    } in
    let actions = λ (k : String).
      ap (λ (d : Db). action_by_id k d) f.committed
      ∙ by_key-update_where (λ r. r.id) db.actions q.action_id (with_outcome o) (λ x. refl) k
          f.there in
    let proposals = λ (k : String).
      ap (λ (d : Db). proposal_by_id k d) f.committed
      ∙ by_key-update_where (λ r. r.id) db.proposed_actions id set (λ x. refl) k f.proposal_there in
    record {
      row = with_outcome o f.row;
      there =
          actions q.action_id
          ∙ put_self q.action_id (with_outcome o f.row) (λ k. action_by_id k db);
      proposal = set f.proposal;
      proposal_there = proposals id ∙ put_self id (set f.proposal) (λ k. proposal_by_id k db);
      named = IsNamed-terminal_of q.status f.terminal f.asked;
      platform_external_id = refl;
      platform_url = refl;
      evidence_path = refl;
      evidence_sha256 = refl;
      class = refl;
      error_detail = refl;
      finished_at = refl;
      updated_at = refl;
      no_token = refl;
      same_payload = refl;
      same_marker = refl;
      other_actions = λ k other.
          actions k ∙ put_ne q.action_id k (with_outcome o f.row) (λ k. action_by_id k db) other;
      other_proposals =
          λ k other. proposals k ∙ put_ne id k (set f.proposal) (λ k. proposal_by_id k db) other;
    }

-- Where finish_action returns, everything of `Finished` and `Recorded` holds: the terminal state is
-- the one of the three that is named; the action is executing, its lock owned and its runtime the
-- reserved one; the demands of the state are met (success: a marker, a platform identity that the
-- site confirms and evidence; failure: no marker, no platform identity, `confirmed_no_submit` and
-- evidence; reconciliation: both parts of the identity or none, and evidence if any is given that
-- validates). The action and its proposal have the named status and the clock's time; the action has
-- the caller's platform identity, evidence path and error detail, the digest of the evidence (none
-- where a reconciliation gives none), the caller's error class (`ambiguous_outcome` where a
-- reconciliation gives none) and no token; its payload and marker, and every other action and
-- proposal, are the same.
pub finish_returns :
    (h : Host) (files : Files) (sites : Sites) (q : FinishRequest) (db : Db) {u : Unit {0}}
    → (finish_action h files sites q db).0 ≡ ok u
    → (f : Finished h files sites q db (finish_action h files sites q db).1) × Recorded q f.terminal
        f.digest f.error_class f.row db
        (finish_action h files sites q db).1
finish_returns h files sites q db e =
    let f = Finished-finish_action h files sites q db e in (f, Recorded-of_Finished f)

not_executing : (t : Terminal) → is_executing (action_status t) ≡ false
not_executing t = ground arith

Finished-there :
    {h : Host} {files : Files} {sites : Sites} {q : FinishRequest} {db db' : Db}
    → (f : Finished h files sites q db db')
    → (b : ActionRow) × (action_by_id q.action_id db' ≡ some b) × (is_executing b.status ≡ false)
unfolding set_outcome set_proposal_status
Finished-there {q = q} {db = db} f =
    let o = new_outcome q f.terminal f.digest f.error_class in
    (
      with_outcome o f.row,
      ap (λ (d : Db). action_by_id q.action_id d) f.committed
          ∙ (by_key-update_where (λ r. r.id) db.actions q.action_id (with_outcome o) (λ x. refl)
                q.action_id f.there
              ∙ put_self q.action_id (with_outcome o f.row) (λ k. action_by_id k db)),
      not_executing f.terminal,
    )

-- An action that is not executing is not the one of a call that asks for an executing one.
ended_differs :
    (db : Db) (k : String) (a b : ActionRow)
    → action_by_id k db ≡ some b
    → is_executing b.status ≡ false
    → a.status ≡ ActionStatus.executing
    → action_by_id k db ≢ some a
ended_differs db k a b there ended runs e = cc (ended, runs, unsome (sym there ∙ e))

-- After a call has ended an action, no other call ends it and none submits it, whatever its host,
-- files, lock, token and clock are.
pub finish_closes :
    (h h2 : Host) (files files2 : Files) (sites : Sites) (q q2 : FinishRequest) (s : SubmitRequest)
    (db : Db) (payload : Json)
    → (finish_action h files sites q db).0 ≡ ok tt
    → q2.action_id ≡ q.action_id
    → s.reservation.action_id ≡ q.action_id
    → ((finish_action h2 files2 sites q2 (finish_action h files sites q db).1).0 ≢ ok tt)
      × ((mark_action_submitting h2 s (finish_action h files sites q db).1).0 ≢ ok payload)
finish_closes h h2 files files2 sites q q2 s db payload e same same_s =
    let db' = (finish_action h files sites q db).1 in
    let (b, there, ended) = Finished-there (Finished-finish_action h files sites q db e) in
    (
      λ e2.
          let f = Finished-finish_action h2 files2 sites q2 db' e2 in
          ended_differs db' q.action_id f.row b there ended f.runs
            (subst (λ k. action_by_id k db' ≡ some f.row) same f.there),
      λ e2.
          let m = mark_returns h2 s db' e2 in
          ended_differs db' q.action_id m.row b there ended m.runs
            (subst (λ k. action_by_id k db' ≡ some m.row) same_s m.there),
    )
