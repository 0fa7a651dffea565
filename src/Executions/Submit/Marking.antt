-- ===== src/Executions/Submit/Marking.antt =====
-- mark_action_submitting of db.py: a call that returns, and later calls for the same action.
use event_lead_ops_agent.Prelude.{
  ◌≡◌, ◌≢◌, refl, sym, ap, ◌∙◌, subst, Bool, false, Option, none, some, ok, by_key-update_where,
  put_self, by_key-found,
}
use event_lead_ops_agent.Json.{Json}
use event_lead_ops_agent.Host.{Host}
use event_lead_ops_agent.Schema.{ActionRow, Db}
use event_lead_ops_agent.Schema.Constraints.{action_by_id, set_submission_started}
use event_lead_ops_agent.Lifecycle.{submitted_at}
use event_lead_ops_agent.Lifecycle.Statements.{set_submission_started-eq_ok}
use event_lead_ops_agent.Transaction.{concluded-eq_ok}
use event_lead_ops_agent.Executions.Submit.{
  SubmitRequest, is_set, mark_body, mark_action_submitting,
}
use event_lead_ops_agent.Executions.Submit.Checks.{Marked, mark_body-eq_ok}

-- Where mark_action_submitting returns a payload, everything of `Marked` holds of the call and of
-- the database it leaves: the action is executing, was not marked before and carries the hash of
-- the caller's token; the profile lock is owned under the action's lease and the runtime is the
-- reserved one; the stored payload, its hash and the reservation's agree; the payload is the object
-- that the stored text decodes to; and the marker's statement is what is committed.
pub mark_returns :
    (h : Host) (q : SubmitRequest) (db : Db) {payload : Json}
    → (mark_action_submitting h q db).0 ≡ ok payload
    → Marked h q db payload (mark_action_submitting h q db).1
unfolding mark_action_submitting
mark_returns h q db e = mark_body-eq_ok h q db (concluded-eq_ok db (mark_body h q db) e)

-- The action that a call has marked carries the marker.
Marked-Marked :
    {h : Host} {q : SubmitRequest} {db db' : Db} {payload : Json}
    → (m : Marked h q db payload db')
    → action_by_id q.reservation.action_id db' ≡ some (submitted_at q.clock m.row)
Marked-Marked {q = q} {db = db} {db' = db'} m =
    let named : m.row.id ≡ q.reservation.action_id =
      by_key-found (λ r. r.id) db.actions q.reservation.action_id m.there in
    let (unset, changed) =
      set_submission_started-eq_ok db m.row q.clock (ap (λ k. action_by_id k db) named ∙ m.there)
        (ap (λ k. set_submission_started k q.clock db) named ∙ m.written) in
    subst (λ k. action_by_id k db' ≡ some (submitted_at q.clock m.row)) named
      (ap (λ (d : Db). action_by_id m.row.id d) changed
        ∙ (by_key-update_where (λ r. r.id) db.actions m.row.id (submitted_at q.clock) (λ x. refl)
              m.row.id (ap (λ k. action_by_id k db) named ∙ m.there)
            ∙ put_self m.row.id (submitted_at q.clock m.row) (λ k. action_by_id k db)))

-- After a call has marked an action, no call marks it again, whatever its host, token, lock and
-- clock are.
pub mark_again_fails :
    (h h2 : Host) (q q2 : SubmitRequest) (db : Db) {payload : Json} (other : Json)
    → (mark_action_submitting h q db).0 ≡ ok payload
    → q2.reservation.action_id ≡ q.reservation.action_id
    → (mark_action_submitting h2 q2 (mark_action_submitting h q db).1).0 ≢ ok other
mark_again_fails h h2 q q2 db other e same e2 =
    let m = mark_returns h q db e in
    let n = mark_returns h2 q2 (mark_action_submitting h q db).1 e2 in
    let there = Marked-Marked m in
    let is_row : some n.row ≡ some (submitted_at q.clock m.row) =
      sym n.there ∙ (ap (λ k. action_by_id k (mark_action_submitting h q db).1) same ∙ there) in
    cc (n.unsubmitted, ap (λ (r : Option ActionRow). marker r) is_row)
  where
    marker : Option ActionRow → Bool
    marker none = false
    marker (some r) = is_set r.submission_started_at
