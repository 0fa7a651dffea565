-- ===== src/Executions/Begin/Granted.antt =====
-- begin_approved_action of db.py: the checks and the writes behind an execution token.
use event_lead_ops_agent.Prelude.{
  ℕ, ◌<◌, String, ◌≡◌, refl, sym, ap, ◌∙◌, subst, Option, none, some, Result, ok, arith, >>=-eq_ok,
  find, eq→==, if◌then◌else◌, ◌≢◌, ◌∷◌, inl, inr,
}
use event_lead_ops_agent.Host.{Host}
use event_lead_ops_agent.Time.{DateTime, aware, utc, require_aware}
use event_lead_ops_agent.Models.{ExecutionReservation, approved_write}
use event_lead_ops_agent.Policy.{payload_hash, now_or}
use event_lead_ops_agent.Policy.Gates.{IsBefore, assert_write_allowed_iff}
use event_lead_ops_agent.ProfileLock.{assert_owned, lease_id}
use event_lead_ops_agent.Schema.{
  ApprovalStatus, ProposalStatus, ProposedRow, ApprovalRow, ActionRow, PolicyRow, HealthRow, Db,
}
use event_lead_ops_agent.Schema.Constraints.{
  approval_by_id, action_by_id, action_by_key, set_proposal_status, consume_approval,
}
use event_lead_ops_agent.Lifecycle.Statements.{insert_action-eq_ok, is_authorized-rows}
use event_lead_ops_agent.Executions.Begin.{
  BeginRequest, Begun, reserved, checked_proposal, checked_approval, policy_of, new_action_row,
  reserve_or_resume, begin_body, settle, resume, begin_approved_action,
}
use event_lead_ops_agent.Executions.Begin.Checks.{
  SameProposal, checked_proposal-eq_ok, checked_approval-eq_ok, Certified, Reservation,
  reserve-eq_ok, resume-eq_ok, stored_envelope-eq_ok,
}

module _ (h : Host) (q : BeginRequest) (db : Db) where
  -- Everything that holds where a token is given.
  pub record Granted (r : ExecutionReservation) (db' : Db) : Type 0 where
    pub now : ℕ
    pub clock_is_aware : now_or q.now q.clock ≡ aware now
    pub owned :
        assert_owned h q.lock.lock q.runtime.profile_dir none (q.lock.sight 0) (q.lock.sight 1)
        ≡ ok tt
    pub stored : ProposedRow
    pub same : SameProposal h q db stored r.payload_json
    pub stored_text : stored.payload_json ≡ r.payload_json
    pub unclaimed : action_by_key stored.idempotency_key db ≡ none
    pub approval : ApprovalRow
    pub approval_there : approval_by_id q.approval.approval_id db ≡ some approval
    pub unused : approval.status ≡ ApprovalStatus.approved
    pub belongs : approval.proposed_action_id ≡ q.proposed.id
    pub approved_hash : approval.payload_hash ≡ payload_hash h q.current_payload
    pub expires_at : ℕ
    pub expiry : approval.expires_at ≡ utc expires_at
    pub unexpired : now < expires_at
    pub policy : PolicyRow
    pub policy_there : policy_of stored.source stored.account_alias db ≡ some policy
    pub writes_approved : policy.mode ≡ approved_write
    pub health : HealthRow
    pub certified : Certified h q db policy stored now health
    pub token : r.execution_token ≡ some q.execution_token
    pub lease : String
    pub attested : lease_id h q.lock.lock (q.lock.sight 2) (q.lock.sight 3) ≡ ok lease
    pub recorded : action_by_id r.action_id db' ≡ some (new_action_row h q r.payload_json lease now)

  -- The phases that every return has passed.
  pub record Passed (b : Begun) (db' : Db) : Type 0 where
    pub now : ℕ
    pub at : now_or q.now q.clock ≡ aware now
    pub owned :
        assert_owned h q.lock.lock q.runtime.profile_dir none (q.lock.sight 0) (q.lock.sight 1)
        ≡ ok tt
    pub stored : ProposedRow
    pub text : String
    pub same : SameProposal h q db stored text
    pub row : ApprovalRow
    pub row_there : approval_by_id q.approval.approval_id db ≡ some row
    pub belongs : row.proposed_action_id ≡ q.proposed.id
    pub hash : row.payload_hash ≡ payload_hash h q.current_payload
    pub last :
        reserve_or_resume h q stored text row now (action_by_key stored.idempotency_key db) db
        ≡ ok (b, db')

  aware_of :
      (t : DateTime) (message : String) {now : ℕ} → require_aware t message ≡ ok now → t ≡ aware now
  aware_of t message e = ground arith

  pub begin_body-Passed : {b : Begun} {db' : Db} → begin_body h q db ≡ ok (b, db') → Passed b db'
  unfolding begin_body
  begin_body-Passed e =
      let (now, at, e1) =
        >>=-eq_ok (require_aware (now_or q.now q.clock) "execution clock must be timezone-aware") _
          e in
      let (u, owned, e2) =
        >>=-eq_ok
          (assert_owned h q.lock.lock q.runtime.profile_dir none (q.lock.sight 0) (q.lock.sight 1))
          _ e1 in
      let ((stored, text), same, e3) = >>=-eq_ok (checked_proposal h q db) _ e2 in
      let (row, available, e4) = >>=-eq_ok (checked_approval h q db) _ e3 in
      let (there, status, belongs, hash) = checked_approval-eq_ok h q db available in
      record {
        now = now;
        at = aware_of (now_or q.now q.clock) _ at;
        owned = owned;
        stored = stored;
        text = text;
        same = checked_proposal-eq_ok h q db same;
        row = row;
        row_there = there;
        belongs = belongs;
        hash = hash;
        last = e4;
      }

  pub unreserve : {a b : ExecutionReservation} → reserved a ≡ reserved b → a ≡ b
  unreserve e = cc

  -- The statements after the insertion leave the actions, whose newest is the reservation's.
  newest_recorded :
      {db' mid : Db} (lease text : String) (now : ℕ)
      → db'
        ≡ set_proposal_status q.proposed.id ProposalStatus.executing now
            (consume_approval q.approval.approval_id now mid)
      → mid ≡ record db { actions = new_action_row h q text lease now ∷ db.actions }
      → action_by_id q.action_id db' ≡ some (new_action_row h q text lease now)
  unfolding find set_proposal_status consume_approval
  newest_recorded lease text now committed grown =
      ap (λ (d : Db). action_by_id q.action_id d) committed
      ∙ ap (λ (d : Db). action_by_id q.action_id d) grown
      ∙ ap
          (λ b. if b then some (new_action_row h q text lease now) else action_by_id q.action_id db)
          (eq→== q.action_id q.action_id refl)

  Granted-of_Reservation :
      {r : ExecutionReservation} {db' : Db}
      → (p : Passed (reserved r) db') → action_by_key p.stored.idempotency_key db ≡ none
      → Reservation h q db p.stored p.text p.row p.now (reserved r) db'
      → Granted r db'
  unfolding find set_proposal_status consume_approval
  Granted-of_Reservation {r} {db'} p free v =
      let is_r = unreserve v.result in
      let (t, expiry, envelope_time, envelope_id, envelope_hash) =
        stored_envelope-eq_ok h q db p.row v.stored_approval in
      let may =
        (assert_write_allowed_iff h v.policy.mode v.health.status q.proposed.id q.current_payload
            v.envelope (some (aware p.now)) q.clock).0
          v.gate in
      let (new, permitted, token, key, grown) =
        insert_action-eq_ok db h.json_valid (new_action_row h q p.text v.lease p.now) v.inserted in
      let text_is : p.text ≡ r.payload_json =
        ap (λ (x : ExecutionReservation). x.payload_json) (sym is_r) in
      let id_is : q.action_id ≡ r.action_id =
        ap (λ (x : ExecutionReservation). x.action_id) (sym is_r) in
      record {
        now = p.now;
        clock_is_aware = p.at;
        owned = p.owned;
        stored = p.stored;
        same = subst (SameProposal h q db p.stored) text_is p.same;
        stored_text =
            (let (y, there, approved, unused, authorized) =
                is_authorized-rows db (new_action_row h q p.text v.lease p.now) p.same.there
                  permitted in
              sym authorized.same_json)
            ∙ text_is;
        unclaimed = free;
        approval = p.row;
        approval_there = p.row_there;
        unused = v.unused;
        belongs = p.belongs;
        approved_hash = p.hash;
        expires_at = t;
        expiry = expiry;
        unexpired = subst (IsBefore (aware p.now)) envelope_time may.unexpired;
        policy = v.policy;
        policy_there = v.policy_there;
        writes_approved = may.mode_approved;
        health = v.health;
        certified = v.certified;
        token = ap (λ (x : ExecutionReservation). x.execution_token) is_r;
        lease = v.lease;
        attested = v.attested;
        recorded =
            subst (λ i. action_by_id i db' ≡ some (new_action_row h q r.payload_json v.lease p.now))
              id_is
              (subst (λ t. action_by_id q.action_id db' ≡ some (new_action_row h q t v.lease p.now))
                text_is (newest_recorded v.lease p.text p.now v.committed grown));
      }

  -- A reservation of an action that exists carries no token.
  resumed_without_token :
      {r : ExecutionReservation} {db' : Db} {t : String} (stored : ProposedRow)
      (existing : ActionRow) (now : ℕ)
      → resume q stored existing now db ≡ ok (reserved r, db')
      → r.execution_token ≢ some t
  resumed_without_token stored existing now e is_t =
      elim (resume-eq_ok h q db stored existing now e).1 [
        | inl (same, kept) ↦
            cc (is_t, ap (λ (x : ExecutionReservation). x.execution_token) (unreserve same))
        | inr (running, ended, moved) ↦ cc
      ]

  token_of_Passed :
      {r : ExecutionReservation} {db' : Db} {t : String} (p : Passed (reserved r) db')
      (o : Option ActionRow)
      → action_by_key p.stored.idempotency_key db ≡ o
      → reserve_or_resume h q p.stored p.text p.row p.now o db ≡ ok (reserved r, db')
      → r.execution_token ≡ some t
      → Granted r db'
  unfolding reserve_or_resume
  token_of_Passed p none free e is_t =
      Granted-of_Reservation p free (reserve-eq_ok h q db p.stored p.text p.row p.now e)
  token_of_Passed p (some existing) there e is_t =
      absurd (resumed_without_token p.stored existing p.now e is_t)

  pub settled :
      {r : ExecutionReservation} (m : Result (Begun × Db))
      → (settle db m).0 ≡ ok r
      → m ≡ ok (reserved r, (settle db m).1)
  settled m e = ground arith

  -- Where begin_approved_action returns a reservation with an execution token, everything of
  -- `Granted` holds of the call and of the database it leaves: the clock is aware and the profile
  -- lock is owned; the stored proposal is the caller's and its payload, the caller's and the
  -- executor's have one canonical text, which is the stored text; no action had its idempotency key; the stored approval is
  -- unused, unexpired, and for this proposal and payload; the policy allows writes; the source's
  -- health has a route and is certified for this runtime, for an evidence root that resolves as the
  -- runtime's does, and the certification is in force; the profile lock attests the lease that is
  -- recorded; the token is the one drawn, and the action recorded under the reservation's id is
  -- executing with the token's hash.
  pub begin_grants :
      {r : ExecutionReservation} {t : String}
      → (begin_approved_action h q db).0 ≡ ok r
      → r.execution_token ≡ some t
      → Granted r (begin_approved_action h q db).1
  unfolding begin_approved_action
  begin_grants e is_t =
      let p = begin_body-Passed (settled (begin_body h q db) e) in
      token_of_Passed p (action_by_key p.stored.idempotency_key db) refl p.last is_t
