-- ===== src/System/Once.antt =====
-- Runs of the store, seen from one action and from one proposal.
use event_lead_ops_agent.Prelude.{
  ◌≤◌, String, ◌≡◌, refl, sym, ap, ◌∙◌, subst, true, Option, none, some, List, [], ◌∷◌, Result, ok,
  err, arith, is_text, by_key-found, by_key-update_where, find, Bool-cases, inl, inr, if◌then◌else◌,
  put_self, eq_iff,
}
use event_lead_ops_agent.Json.{Json}
use event_lead_ops_agent.Host.{Host}
use event_lead_ops_agent.Schema.{Db, ActionRow, empty}
use event_lead_ops_agent.Schema.Constraints.{action_by_id, set_submission_started}
use event_lead_ops_agent.Lifecycle.{submitted_at}
use event_lead_ops_agent.Lifecycle.History.{Later, Later-refl, Later-trans, Change-Later}
use event_lead_ops_agent.Lifecycle.Statements.{WellFormed, set_submission_started-eq_ok}
use event_lead_ops_agent.Executions.Submit.{
  SubmitRequest, is_set, mark_body, mark_action_submitting,
}
use event_lead_ops_agent.Executions.Submit.Checks.{mark_body-eq_ok}
use event_lead_ops_agent.Executions.Finish.{Sites}
use event_lead_ops_agent.Transaction.{concluded}
use event_lead_ops_agent.System.{Call, mark, perform, run, submits, submissions, succeeds}
use event_lead_ops_agent.System.Steps.{empty-WellFormed, perform-Change, perform-WellFormed}

-- An action of the proposal carries the submission marker.
pub record IsSubmitted (proposal : String) (db : Db) : Type 0 where
  pub key : String
  pub row : ActionRow
  pub there : action_by_id key db ≡ some row
  pub of_proposal : row.proposed_action_id ≡ proposal
  pub marked : is_set row.submission_started_at ≡ true

module _ (h : Host) (sites : Sites) where
  -- From tables in order, an action that a run begins with is there at its end: the columns that
  -- its reservation wrote are the same, a marker that was set is the same, and an action that had
  -- ended is the same in every column.
  pub run-Later :
      (calls : List Call) (db : Db) (k : String) (a : ActionRow)
      → WellFormed db
      → action_by_id k db ≡ some a
      → (b : ActionRow) × (action_by_id k (run h sites calls db) ≡ some b) × Later a b
  unfolding run
  run-Later [] db k a wf there = (a, there, Later-refl a)
  run-Later (c ∷ calls) db k a wf there =
      let (b, b_there, ab) = Change-Later (perform-Change h sites c db wf) k a there in
      let (d, d_there, bd) =
        run-Later calls (perform h sites c db) k b (perform-WellFormed h sites c db wf) b_there in
      (d, d_there, Later-trans ab bd)

  IsSubmitted-perform :
      (c : Call) (db : Db) {proposal : String}
      → WellFormed db
      → IsSubmitted proposal db
      → IsSubmitted proposal (perform h sites c db)
  IsSubmitted-perform c db wf s =
      let (b, b_there, later) = Change-Later (perform-Change h sites c db wf) s.key s.row s.there in
      record {
        key = s.key;
        row = b;
        there = b_there;
        of_proposal = later.proposed_action_id ∙ s.of_proposal;
        marked = ap is_set (later.marker s.marked) ∙ s.marked;
      }

  -- A call that hands an action of the proposal over.
  record Handover (c : Call) (db : Db) (proposal : String) : Type 0 where
    request : SubmitRequest
    is_mark : c ≡ mark request
    payload : Json
    after : Db
    marks : mark_body h request db ≡ ok (payload, after)
    performed : perform h sites c db ≡ after
    row : ActionRow
    there : action_by_id request.reservation.action_id db ≡ some row
    of_proposal : row.proposed_action_id ≡ proposal

  abbrev submits_of : SubmitRequest → Db → Result (Json × Db) → Option String
  submits_of q db r =
      if succeeds (concluded db r).0
      then elim (action_by_id q.reservation.action_id db) [
        | none ↦ none
        | some row ↦ some row.proposed_action_id
      ]
      else none

  mark-Handover :
      (q : SubmitRequest) (db : Db) (proposal : String) (r : Result (Json × Db))
      → mark_body h q db ≡ r
      → is_text (submits_of q db r) proposal ≡ true
      → Handover (mark q) db proposal
  unfolding perform mark_action_submitting
  mark-Handover q db proposal (err x) e s = absurd (cc s)
  mark-Handover q db proposal (ok (payload, db')) e s =
      let m = mark_body-eq_ok h q db e in
      record {
        request = q;
        is_mark = refl;
        payload = payload;
        after = db';
        marks = e;
        performed = ap (λ (r : Result (Json × Db)). (concluded db r).1) e;
        row = m.row;
        there = m.there;
        of_proposal = ground (arith, m.there, eq_iff m.row.proposed_action_id proposal);
      }

  submits-Handover :
      (c : Call) (db : Db) (proposal : String)
      → is_text (submits h sites c db) proposal ≡ true
      → Handover c db proposal
  unfolding submits mark_action_submitting
  submits-Handover (mark q) db proposal s = mark-Handover q db proposal (mark_body h q db) refl s
  submits-Handover _ db proposal s = absurd (cc s)

  -- Before a handover the proposal has not been submitted, and afterwards it has.
  Handover-before :
      {c : Call} {db : Db} {proposal : String}
      → WellFormed db
      → Handover c db proposal
      → IsSubmitted proposal db
      → ⊥
  Handover-before {db = db} wf o s =
      let m = mark_body-eq_ok h o.request db o.marks in
      let same_row : m.row ≡ o.row = cc (m.there, o.there) in
      let one =
        wf.inv.one_action o.request.reservation.action_id s.key o.row s.row o.there s.there
          (o.of_proposal ∙ sym s.of_proposal) in
      let rows : o.row ≡ s.row = cc (o.there, s.there, ap (λ k. action_by_id k db) one) in
      cc (m.unsubmitted, same_row, rows, s.marked)

  Handover-after :
      {c : Call} {db : Db} {proposal : String}
      → (o : Handover c db proposal) → IsSubmitted proposal o.after
  unfolding find
  Handover-after {db = db} o =
      let m = mark_body-eq_ok h o.request db o.marks in
      let same_row : m.row ≡ o.row = cc (m.there, o.there) in
      let named : m.row.id ≡ o.request.reservation.action_id =
        by_key-found (λ r. r.id) db.actions o.request.reservation.action_id m.there in
      let there : action_by_id m.row.id db ≡ some m.row =
        ap (λ k. action_by_id k db) named ∙ m.there in
      let written : set_submission_started m.row.id o.request.clock db ≡ ok o.after =
        ap (λ k. set_submission_started k o.request.clock db) named ∙ m.written in
      let (free, same) = set_submission_started-eq_ok db m.row o.request.clock there written in
      record {
        key = m.row.id;
        row = submitted_at o.request.clock m.row;
        there =
            ap (λ (d : Db). action_by_id m.row.id d) same
            ∙ (by_key-update_where (λ r. r.id) db.actions m.row.id (submitted_at o.request.clock)
                  (λ x. refl) m.row.id there
                ∙ put_self m.row.id (submitted_at o.request.clock m.row) (λ k. action_by_id k db));
        of_proposal = ap (λ (r : ActionRow). r.proposed_action_id) same_row ∙ o.of_proposal;
        marked = refl;
      }

  submissions-submitted :
      (proposal : String) (calls : List Call) (db : Db)
      → WellFormed db
      → IsSubmitted proposal db
      → submissions h sites proposal calls db ≡ 0
  unfolding submissions
  submissions-submitted proposal [] db wf s = refl
  submissions-submitted proposal (c ∷ calls) db wf s =
      elim (Bool-cases (is_text (submits h sites c db) proposal)) [
        | inl now ↦ absurd (Handover-before wf (submits-Handover c db proposal now) s)
        | inr other ↦ rw other (
            submissions-submitted proposal calls (perform h sites c db)
              (perform-WellFormed h sites c db wf) (IsSubmitted-perform c db wf s))
      ]

  submissions-le-one :
      (proposal : String) (calls : List Call) (db : Db)
      → WellFormed db
      → submissions h sites proposal calls db ≤ 1
  unfolding submissions
  submissions-le-one proposal [] db wf = omega arith
  submissions-le-one proposal (c ∷ calls) db wf =
      elim (Bool-cases (is_text (submits h sites c db) proposal)) [
        | inl now ↦
            let o = submits-Handover c db proposal now in
            rw now (
              omega (
                arith,
                submissions-submitted proposal calls (perform h sites c db)
                    (perform-WellFormed h sites c db wf)
                    (subst (IsSubmitted proposal) (sym o.performed) (Handover-after o)),
              ))
        | inr other ↦ rw other (
            submissions-le-one proposal calls (perform h sites c db)
              (perform-WellFormed h sites c db wf))
      ]

  -- From an empty database, however calls interleave, retry, fail or repeat, an action of one
  -- proposal is handed to the platform at most once.
  pub submitted_once :
      (proposal : String) (calls : List Call) → submissions h sites proposal calls empty ≤ 1
  submitted_once proposal calls = submissions-le-one proposal calls empty empty-WellFormed
