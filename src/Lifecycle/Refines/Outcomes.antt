-- ===== src/Lifecycle/Refines/Outcomes.antt =====
-- mark_action_submitting and finish_action against the lifecycle machine.
use event_lead_ops_agent.Prelude.{
  ℕ, String, ◌≡◌, refl, sym, ap, ◌∙◌, subst, false, Option, some, ok, arith, ◌==◌, by_key-found,
  find, by_key-update_where,
}
use event_lead_ops_agent.Host.{Host, Files}
use event_lead_ops_agent.Schema.{ActionStatus, ActionRow, Db, is_executing}
use event_lead_ops_agent.Schema.Constraints.{
  proposal_by_id, action_by_id, set_proposal_status, set_outcome, with_outcome,
  set_submission_started,
}
use event_lead_ops_agent.Lifecycle.{Flags, submit, end, mirrored, submitted_at}
use event_lead_ops_agent.Lifecycle.Statements.{
  View-path, Step, Step-transaction, set_proposal_status-Keyed, update_actions-Keyed,
  set_proposal_status-put, set_submission_started-eq_ok,
}
use event_lead_ops_agent.Executions.Submit.{SubmitRequest, mark_body, mark_action_submitting}
use event_lead_ops_agent.Executions.Submit.Checks.{mark_body-eq_ok}
use event_lead_ops_agent.Executions.Finish.{
  Sites, Terminal, succeeded, failed, needs_reconciliation, action_status, proposal_status,
  FinishRequest, new_outcome, finish_body, finish_action,
}
use event_lead_ops_agent.Executions.Finish.Checks.{Demands, Finished, finish_body-eq_ok}

submitted-Step :
    (a : ActionRow) (now : ℕ) (db : Db) {db' : Db}
    → action_by_id a.id db ≡ some a
    → a.status ≡ ActionStatus.executing
    → set_submission_started a.id now db ≡ ok db'
    → Step db db'
unfolding find
submitted-Step a now db {db'} there runs h =
    let (free, same) = set_submission_started-eq_ok db a now there h in
    subst (Step db) (sym same) (record {
      keeps = update_actions-Keyed (λ r. r.id == a.id) (submitted_at now) (λ x. refl) (λ x. refl);
      changes = λ wf. submit a now there runs free (
          View-path _ _ (λ k. refl) (λ k. refl)
            (λ k.
              by_key-update_where (λ r. r.id) db.actions a.id (submitted_at now) (λ x. refl) k
                there));
    })

pub mark_action_submitting-Step :
    (h : Host) (q : SubmitRequest) (db : Db) → Step db (mark_action_submitting h q db).1
unfolding mark_action_submitting
mark_action_submitting-Step h q db = Step-transaction (mark_body h q) db λ payload db' e.
    let m = mark_body-eq_ok h q db e in
    let named : m.row.id ≡ q.reservation.action_id =
      by_key-found (λ r. r.id) db.actions q.reservation.action_id m.there in
    submitted-Step m.row q.clock db (ap (λ k. action_by_id k db) named ∙ m.there) m.runs
      (ap (λ k. set_submission_started k q.clock db) named ∙ m.written)

-- The flags of an action whose outcome meets what the terminal state demands.
outcome-Flags :
    (h : Host) (files : Files) (sites : Sites) (q : FinishRequest) (row : ActionRow)
    (account_alias root : String) (digest error_class : Option String) (t : Terminal)
    → Demands h files sites q row account_alias root digest error_class t
    → Flags (with_outcome (new_outcome q t digest error_class) row)
outcome-Flags h files sites q row account_alias root digest error_class succeeded d = record {
  capable = λ runs. cc;
  spent = λ _. refl;
  ended = λ _. refl;
  success = λ _. (d.0, refl);
  failure = λ no. absurd (cc no);
}
outcome-Flags h files sites q row account_alias root digest error_class failed d = record {
  capable = λ runs. cc;
  spent = λ _. refl;
  ended = λ _. refl;
  success = λ no. absurd (cc no);
  failure = λ _. (d.0, d.3);
}
outcome-Flags h files sites q row account_alias root digest error_class needs_reconciliation d =
    record {
      capable = λ runs. cc;
      spent = λ _. refl;
      ended = λ _. refl;
      success = λ no. absurd (cc no);
      failure = λ no. absurd (cc no);
    }

mirrored-terminal : (t : Terminal) → proposal_status t ≡ mirrored (action_status t)
mirrored-terminal t = ground arith

terminal-over : (t : Terminal) → is_executing (action_status t) ≡ false
terminal-over t = ground arith

Finished-Step :
    (h : Host) (files : Files) (sites : Sites) (q : FinishRequest) (db : Db) {db' : Db}
    → Finished h files sites q db db'
    → Step db db'
unfolding find set_proposal_status set_outcome
Finished-Step h files sites q db {db'} f =
    let b = with_outcome (new_outcome q f.terminal f.digest f.error_class) f.row in
    let named : f.row.id ≡ q.action_id = by_key-found (λ r. r.id) db.actions q.action_id f.there in
    let p_named : f.proposal.id ≡ f.row.proposed_action_id =
      by_key-found (λ r. r.id) db.proposed_actions f.row.proposed_action_id f.proposal_there in
    let o = new_outcome q f.terminal f.digest f.error_class in
    let last : db'
        ≡ set_proposal_status f.proposal.id (mirrored b.status) q.clock
            (set_outcome f.row.id o db) =
      cc (f.committed, named, p_named, mirrored-terminal f.terminal) in
    let there : action_by_id f.row.id db ≡ some f.row =
      ap (λ k. action_by_id k db) named ∙ f.there in
    let p_there : proposal_by_id f.proposal.id db ≡ some f.proposal =
      ap (λ k. proposal_by_id k db) p_named ∙ f.proposal_there in
    subst (Step db) (sym last) (record {
      keeps = λ k.
          set_proposal_status-Keyed f.proposal.id (mirrored b.status) q.clock (
            update_actions-Keyed (λ r. r.id == f.row.id) (with_outcome o) (λ x. refl) (λ x. refl)
              k);
      changes = λ wf.
          end f.row b f.proposal q.clock there f.runs (terminal-over f.terminal) p_there
            (sym p_named) (ground arith)
            (outcome-Flags h files sites q f.row f.proposal.account_alias (h.resolve f.root)
              f.digest f.error_class f.terminal f.demands)
            (View-path _ _
              (λ k. set_proposal_status-put db f.proposal (mirrored b.status) q.clock k p_there)
              (λ k. refl)
              (λ k.
                by_key-update_where (λ r. r.id) db.actions f.row.id (with_outcome o) (λ x. refl) k
                  there));
    })

pub finish_action-Step :
    (h : Host) (files : Files) (sites : Sites) (q : FinishRequest) (db : Db)
    → Step db (finish_action h files sites q db).1
unfolding finish_action
finish_action-Step h files sites q db =
    Step-transaction (finish_body h files sites q) db
      λ u db' e. Finished-Step h files sites q db (finish_body-eq_ok h files sites q db e)
