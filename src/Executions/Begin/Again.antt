-- ===== src/Executions/Begin/Again.antt =====
-- begin_approved_action of db.py where an action exists already, and where its payload is refused.
use event_lead_ops_agent.Prelude.{
  ◌+◌, ◌≤◌, ensure-eq_ok, or_raise-eq_ok, >>=-eq_ok, Error, ◌⊎◌, unsome, ℕ, String, ◌≡◌, ◌≢◌, refl,
  sym, ap, ◌∙◌, true, Option, none, some, Result, ok, err, arith, eq_iff, ◌==◌, find, List, [],
  Option-cases, inl, inr, ◌∷◌,
}
use event_lead_ops_agent.Json.{Json, canonical_json}
use event_lead_ops_agent.Host.{Host}
use event_lead_ops_agent.Time.{utc, aware, minutes, parse_database_timestamp}
use event_lead_ops_agent.Policy.{now_or}
use event_lead_ops_agent.Models.{ExecutionReservation}
use event_lead_ops_agent.Schema.{
  ProposalStatus, ProposedRow, ApprovalRow, ActionRow, PolicyRow, Db, is_executing,
}
use event_lead_ops_agent.Schema.Constraints.{
  proposal_by_id, action_by_key, set_proposal_status, set_stale,
}
use event_lead_ops_agent.Executions.Begin.{
  BeginRequest, resume, policy_of, Begun, reserved, stale, replayed, reserve, reserve_or_resume,
  settle, begin_body, begin_approved_action,
}
use event_lead_ops_agent.Executions.Begin.Checks.{reserve-eq_ok, resume-eq_ok}
use event_lead_ops_agent.Executions.Begin.Granted.{
  Passed, begin_body-Passed, settled, unreserve, begin_grants,
}

-- A row that is found by its ID is one that a search for its key finds, or an earlier one.
key_taken :
    (rows : List ActionRow) (k key : String) {a : ActionRow}
    → find (λ r. r.id == k) rows ≡ some a
    → a.idempotency_key ≡ key
    → find (λ r. r.idempotency_key == key) rows ≢ none
unfolding find
key_taken [] k key there same e = cc
key_taken (x ∷ rows) k key {a} there same e =
    ground (arith, eq_iff x.idempotency_key key, key_taken rows k key {a = a})

-- After a call that was given an execution token, no call for the same idempotency key is given
-- one, whatever its host, lock, clock and approval are.
pub begin_again_without_token :
    (h h2 : Host) (q q2 : BeginRequest) (db : Db) {r r2 : ExecutionReservation} {t : String}
    → (begin_approved_action h q db).0 ≡ ok r
    → r.execution_token ≡ some t
    → q2.proposed.idempotency_key ≡ q.proposed.idempotency_key
    → (begin_approved_action h2 q2 (begin_approved_action h q db).1).0 ≡ ok r2
    → r2.execution_token ≡ none
begin_again_without_token h h2 q q2 db {r} {r2} e is_t same e2 =
    elim (Option-cases r2.execution_token) [
      | inl without ↦ without
      | inr (t2, is_t2) ↦
          let db' = (begin_approved_action h q db).1 in
          let g = begin_grants h q db e is_t in
          let g2 = begin_grants h2 q2 db' e2 is_t2 in
          absurd (
            key_taken db'.actions r.action_id g2.stored.idempotency_key g.recorded
              (sym (g2.same.key ∙ same)) g2.unclaimed)
    ]

-- A token is given only where the stored text is the canonical text of the payload.
token_text :
    (h : Host) (q : BeginRequest) (db : Db) {r : ExecutionReservation} {t : String}
    (stored : ProposedRow) (payload : Json)
    → proposal_by_id q.proposed.id db ≡ some stored
    → h.loads stored.payload_json ≡ some payload
    → (begin_approved_action h q db).0 ≡ ok r
    → r.execution_token ≡ some t
    → stored.payload_json ≡ canonical_json payload
token_text h q db stored payload there read e is_t =
    let g = begin_grants h q db e is_t in
    let is_row = unsome (sym g.same.there ∙ there) in
    let is_payload =
      unsome (sym g.same.read ∙ (ap (λ (p : ProposedRow). h.loads p.payload_json) is_row ∙ read)) in
    ap (λ (p : ProposedRow). p.payload_json) (sym is_row)
    ∙ (g.stored_text ∙ (g.same.canonical ∙ ap canonical_json is_payload))

module _ (h : Host) (q : BeginRequest) (db : Db) where
  -- An action with the proposal's idempotency key exists, and belongs to the approval.
  pub record Existing : Type 0 where
    pub stored : ProposedRow
    pub there : proposal_by_id q.proposed.id db ≡ some stored
    pub existing : ActionRow
    pub found : action_by_key stored.idempotency_key db ≡ some existing
    pub same_approval : existing.approval_id ≡ q.approval.approval_id

  pub record Replayed (r : ExecutionReservation) (db' : Db) : Type 0 where
    pub of : Existing
    pub result : r ≡ replayed of.existing
    pub kept : db' ≡ db

  -- The action has been executing for the policy's timeout, or longer.
  pub record Overdue (stored : ProposedRow) (existing : ActionRow) (now : ℕ) : Type 0 where
    pub policy : PolicyRow
    pub policy_there : policy_of stored.source stored.account_alias db ≡ some policy
    pub started : ℕ
    pub started_at : existing.started_at ≡ utc started
    pub timed_out : started + minutes policy.execution_timeout_minutes ≤ now

  resume-Overdue :
      (stored : ProposedRow) (existing : ActionRow) (now : ℕ) {db' : Db}
      → resume q stored existing now db ≡ ok (stale, db')
      → is_executing existing.status ≡ true
      → Overdue stored existing now
  unfolding resume
  resume-Overdue stored existing now e running =
      let (same, e1) = ensure-eq_ok (existing.approval_id == q.approval.approval_id) _ _ e in
      let (policy, there, e2) =
        or_raise-eq_ok (policy_of stored.source stored.account_alias db) _ _ (rw running at e1) in
      let (t, parsed, e3) = >>=-eq_ok (parse_database_timestamp existing.started_at) _ e2 in
      record {
        policy = policy;
        policy_there = there;
        started = t;
        started_at = unfold parse_database_timestamp in ground arith;
        timed_out = ground arith;
      }

  pub record PutAside (db' : Db) : Type 0 where
    pub of : Existing
    pub now : ℕ
    pub clock_is_aware : now_or q.now q.clock ≡ aware now
    pub overdue : Overdue of.stored of.existing now
    pub running : is_executing of.existing.status ≡ true
    pub committed :
        db'
        ≡ set_proposal_status q.proposed.id ProposalStatus.needs_reconciliation now
            (set_stale of.existing.id now db)

  reserved-token :
      (p : ProposedRow) (text : String) (row : ApprovalRow) (now : ℕ) {r : ExecutionReservation}
      {db' : Db}
      → reserve h q p text row now db ≡ ok (reserved r, db')
      → r.execution_token ≢ none
  reserved-token p text row now e gone =
      let v = reserve-eq_ok h q db p text row now e in
      cc (gone, ap (λ (x : ExecutionReservation). x.execution_token) (unreserve h q db v.result))

  Replayed-of :
      {r : ExecutionReservation} {db' : Db} (p : Passed h q db (reserved r) db')
      (o : Option ActionRow)
      → action_by_key p.stored.idempotency_key db ≡ o
      → reserve_or_resume h q p.stored p.text p.row p.now o db ≡ ok (reserved r, db')
      → r.execution_token ≡ none
      → Replayed r db'
  unfolding reserve_or_resume
  Replayed-of p none found e gone = absurd (reserved-token p.stored p.text p.row p.now e gone)
  Replayed-of p (some existing) found e gone =
      let (same, ends) = resume-eq_ok h q db p.stored existing p.now e in
      let of : Existing = record {
        stored = p.stored;
        there = p.same.there;
        existing = existing;
        found = found;
        same_approval = same;
      } in
      elim ends [
        | inl (result, kept) ↦ record { of = of; result = unreserve h q db result; kept = kept }
        | inr (running, ended, moved) ↦ absurd (cc ended)
      ]

  -- A call that returns a reservation without a token has found an action with the proposal's
  -- idempotency key, which belongs to the call's approval: the reservation is that action's, and
  -- the database is as it was.
  pub begin_replays :
      {r : ExecutionReservation}
      → (begin_approved_action h q db).0 ≡ ok r
      → r.execution_token ≡ none
      → Replayed r (begin_approved_action h q db).1
  unfolding begin_approved_action
  begin_replays e gone =
      let p = begin_body-Passed h q db (settled h q db (begin_body h q db) e) in
      Replayed-of p (action_by_key p.stored.idempotency_key db) refl p.last gone

  PutAside-of :
      {db' : Db} (p : Passed h q db stale db') (o : Option ActionRow)
      → action_by_key p.stored.idempotency_key db ≡ o
      → reserve_or_resume h q p.stored p.text p.row p.now o db ≡ ok (stale, db')
      → PutAside db'
  unfolding reserve_or_resume
  PutAside-of p none found e =
      absurd (cc ((reserve-eq_ok h q db p.stored p.text p.row p.now e).result))
  PutAside-of p (some existing) found e =
      let (same, ends) = resume-eq_ok h q db p.stored existing p.now e in
      let of : Existing = record {
        stored = p.stored;
        there = p.same.there;
        existing = existing;
        found = found;
        same_approval = same;
      } in
      elim ends [
        | inl (result, kept) ↦ absurd (cc result)
        | inr (running, ended, moved) ↦ record {
          of = of;
          now = p.now;
          clock_is_aware = p.at;
          overdue = resume-Overdue p.stored existing p.now e running;
          running = running;
          committed = moved;
        }
      ]

  raised :
      {x : Error} (m : Result (Begun × Db))
      → begin_body h q db ≡ m
      → (settle db m).0 ≡ err x
      → ((settle db m).1 ≡ db) ⊎ PutAside (settle db m).1
  raised (err e) is_m raises = inl refl
  raised (ok (reserved r, db')) is_m raises = absurd (cc raises)
  raised (ok (stale, db')) is_m raises =
      let p = begin_body-Passed h q db is_m in
      inr (PutAside-of p (action_by_key p.stored.idempotency_key db) refl p.last)

  -- A call that raises leaves the database as it was, or has put aside an executing action with the
  -- proposal's idempotency key that started the policy's timeout before the clock, or earlier: the
  -- action is stale and the proposal needs reconciliation.
  pub begin_raises :
      {x : Error}
      → (begin_approved_action h q db).0 ≡ err x
      → ((begin_approved_action h q db).1 ≡ db) ⊎ PutAside (begin_approved_action h q db).1
  unfolding begin_approved_action
  begin_raises e = raised (begin_body h q db) refl e

-- A call for a stored proposal that has no action yet, and whose payload text is not the canonical
-- text of what it decodes to, never returns a reservation.
pub begin_refuses_text :
    (h : Host) (q : BeginRequest) (db : Db) (stored : ProposedRow) (payload : Json)
    (r : ExecutionReservation)
    → proposal_by_id q.proposed.id db ≡ some stored
    → h.loads stored.payload_json ≡ some payload
    → stored.payload_json ≢ canonical_json payload
    → action_by_key stored.idempotency_key db ≡ none
    → (begin_approved_action h q db).0 ≢ ok r
begin_refuses_text h q db stored payload r there read differs free e =
    elim (Option-cases r.execution_token) [
      | inl without ↦
          let of = (begin_replays h q db e without).of in
          let is_row = unsome (sym of.there ∙ there) in
          cc (free, of.found, ap (λ (p : ProposedRow). action_by_key p.idempotency_key db) is_row)
      | inr (t, is_t) ↦ differs (token_text h q db stored payload there read e is_t)
    ]
