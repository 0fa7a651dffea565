-- ===== src/Executions/Begin/Checks.antt =====
-- begin_approved_action of db.py: the inversions of its phases.
use event_lead_ops_agent.Prelude.{
  ℕ, String, ◌≡◌, ◌<◌, ◌≤◌, ◌+◌, refl, sym, ap, ◌∙◌, true, Option, none, some, ok, arith, eq_iff,
  ◌==◌, ==→eq, >>=-eq_ok, raise_if-eq_ok, ensure-eq_ok, or_raise-eq_ok, is_text→eq, is_text, unok,
  ◌⊎◌, ltb, leb, truthy, ◌&&◌,
}
use event_lead_ops_agent.Json.{Json, canonical_json}
use event_lead_ops_agent.Host.{Host}
use event_lead_ops_agent.Time.{Stamp, utc, hours, aware, parse_database_timestamp}
use event_lead_ops_agent.Models.{fingerprint, healthy, is_healthy}
use event_lead_ops_agent.Policy.{payload_hash, assert_write_allowed, ApprovalEnvelope}
use event_lead_ops_agent.ProfileLock.{lease_id}
use event_lead_ops_agent.Schema.{
  ProposalStatus, ApprovalStatus, ProposedRow, ApprovalRow, ActionRow, PolicyRow, HealthRow, Db,
  is_available, is_executing, is_approved,
}
use event_lead_ops_agent.Schema.Constraints.{
  proposal_by_id, approval_by_id, insert_action, set_proposal_status, consume_approval, set_stale,
}
use event_lead_ops_agent.Executions.Begin.{
  BeginRequest, Begun, reserved, stale, checked_proposal, checked_approval, policy_of, health_of,
  checked_certification, stored_envelope, new_action_row, reserve, resume, replayed,
  stamp_or_unreadable, is_present, text_or_empty, same_proposal,
}

module _ (h : Host) (q : BeginRequest) (db : Db) where
  -- The stored proposal is the caller's, and all three payloads have one canonical text.
  pub record SameProposal (stored : ProposedRow) (text : String) : Type 0 where
    pub there : proposal_by_id q.proposed.id db ≡ some stored
    pub source : stored.source ≡ q.proposed.source
    pub account_alias : stored.account_alias ≡ q.proposed.account_alias
    pub action_type : stored.action_type ≡ q.proposed.action_type
    pub hash : stored.payload_hash ≡ q.proposed.payload_hash
    pub key : stored.idempotency_key ≡ q.proposed.idempotency_key
    pub payload : Json
    pub read : h.loads stored.payload_json ≡ some payload
    pub canonical : text ≡ canonical_json payload
    pub proposed_text : canonical_json q.proposed.payload ≡ text
    pub current_text : canonical_json q.current_payload ≡ text

  pub checked_proposal-eq_ok :
      {stored : ProposedRow} {text : String}
      → checked_proposal h q db ≡ ok (stored, text)
      → SameProposal stored text
  unfolding checked_proposal
  checked_proposal-eq_ok {stored} {text} e =
      let (row, there, e1) = or_raise-eq_ok (proposal_by_id q.proposed.id db) _ _ e in
      let (same, e2) = ensure-eq_ok (same_proposal q.proposed row) _ _ e1 in
      let (payload, read, e3) = or_raise-eq_ok (h.loads row.payload_json) _ _ e2 in
      let (texts, e4) =
        ensure-eq_ok
          (canonical_json q.proposed.payload == canonical_json payload
            && canonical_json q.current_payload == canonical_json payload)
          _ _ e3 in
      let is_row : row ≡ stored = cc e4 in
      let is_text : canonical_json payload ≡ text = cc e4 in
      record {
        there = there ∙ ap some is_row;
        source =
            ap (λ r. r.source) (sym is_row) ∙ ground (arith, eq_iff row.source q.proposed.source);
        account_alias =
            ap (λ r. r.account_alias) (sym is_row)
            ∙ ground (arith, eq_iff row.account_alias q.proposed.account_alias);
        action_type =
            ap (λ r. r.action_type) (sym is_row)
            ∙ ground (arith, eq_iff row.action_type q.proposed.action_type);
        hash =
            ap (λ r. r.payload_hash) (sym is_row)
            ∙ ground (arith, eq_iff row.payload_hash q.proposed.payload_hash);
        key =
            ap (λ r. r.idempotency_key) (sym is_row)
            ∙ ground (arith, eq_iff row.idempotency_key q.proposed.idempotency_key);
        payload = payload;
        read = ap (λ r. h.loads r.payload_json) (sym is_row) ∙ read;
        canonical = sym is_text;
        proposed_text =
            ground (arith, eq_iff (canonical_json q.proposed.payload) (canonical_json payload))
            ∙ is_text;
        current_text =
            ground (arith, eq_iff (canonical_json q.current_payload) (canonical_json payload))
            ∙ is_text;
      }

  pub checked_approval-eq_ok :
      {row : ApprovalRow}
      → checked_approval h q db ≡ ok row
      → (approval_by_id q.approval.approval_id db ≡ some row)
        × (is_available row.status ≡ true)
        × (row.proposed_action_id ≡ q.proposed.id)
        × (row.payload_hash ≡ payload_hash h q.current_payload)
  unfolding checked_approval
  checked_approval-eq_ok {row} e =
      let (y, there, e1) = or_raise-eq_ok (approval_by_id q.approval.approval_id db) _ _ e in
      let (available, e2) = ensure-eq_ok _ _ _ e1 in
      let (belongs, e3) = ensure-eq_ok _ _ _ e2 in
      let (same, e4) = ensure-eq_ok _ _ _ e3 in
      let is_row : y ≡ row = cc e4 in
      (
        there ∙ ap some is_row,
        ap (λ r. is_available r.status) (sym is_row) ∙ available,
        ap (λ r. r.proposed_action_id) (sym is_row) ∙ ==→eq _ _ belongs,
        ap (λ r. r.payload_hash) (sym is_row) ∙ ==→eq _ _ same,
      )

  -- A certification in force for the runtime.
  pub record Certified (policy : PolicyRow) (stored : ProposedRow) (now : ℕ) (health : HealthRow)
      : Type 0 where
    pub there : health_of stored.source stored.account_alias db ≡ some health
    pub is_fit : health.status ≡ healthy
    pub routed : truthy health.route ≡ true
    pub same_runtime : health.runtime_fingerprint ≡ some (fingerprint h q.runtime)
    pub fingerprint_given : truthy health.runtime_fingerprint ≡ true
    pub root : String
    pub rooted : health.evidence_root ≡ some root
    pub root_given : truthy health.evidence_root ≡ true
    pub same_root : h.resolve q.runtime.evidence_root ≡ h.resolve root
    pub certified_at : ℕ
    pub stamped : health.certified_at ≡ some (utc certified_at)
    pub not_future : certified_at ≤ now
    pub in_force : now < certified_at + hours policy.certification_ttl_hours

  certified_stamp :
      (s : Option Stamp) (t : ℕ)
      → parse_database_timestamp (stamp_or_unreadable s) ≡ ok t
      → s ≡ some (utc t)
  unfolding parse_database_timestamp
  certified_stamp s t e = ground arith

  given_text :
      (o : Option String) → truthy o ≡ true → (s : String) × (o ≡ some s) × (text_or_empty o ≡ s)
  given_text none e = cc e
  given_text (some s) e = (s, refl, refl)

  pub checked_certification-eq_ok :
      (policy : PolicyRow) (stored : ProposedRow) (now : ℕ) {health : HealthRow}
      → checked_certification h q policy stored now db ≡ ok health
      → Certified policy stored now health
  unfolding checked_certification
  checked_certification-eq_ok policy stored now {health} e =
      let (row, there, e1) =
        or_raise-eq_ok (health_of stored.source stored.account_alias db) _ _ e in
      let (fit, e2) =
        ensure-eq_ok
          (is_healthy row.status
            && (truthy row.route
                && (is_present row.certified_at
                    && (truthy row.runtime_fingerprint && truthy row.evidence_root))))
          _ _ e1 in
      let (runtime, e3) =
        ensure-eq_ok (is_text row.runtime_fingerprint (fingerprint h q.runtime)) _ _ e2 in
      let (root, e4) =
        ensure-eq_ok
          (h.resolve q.runtime.evidence_root == h.resolve (text_or_empty row.evidence_root)) _ _
          e3 in
      let (t, parsed, e5) =
        >>=-eq_ok (parse_database_timestamp (stamp_or_unreadable row.certified_at)) _ e4 in
      let (past, e6) = raise_if-eq_ok (ltb now t) _ _ e5 in
      let (valid, e7) =
        raise_if-eq_ok (leb (t + hours policy.certification_ttl_hours) now) _ _ e6 in
      let is_row : row ≡ health = cc e7 in
      let (text, rooted, is_text) = given_text row.evidence_root (ground arith) in
      record {
        there = there ∙ ap some is_row;
        is_fit = ap (λ r. r.status) (sym is_row) ∙ ground arith;
        routed = ap (λ r. truthy r.route) (sym is_row) ∙ ground arith;
        same_runtime =
            ap (λ r. r.runtime_fingerprint) (sym is_row)
            ∙ is_text→eq row.runtime_fingerprint _ runtime;
        fingerprint_given = ap (λ r. truthy r.runtime_fingerprint) (sym is_row) ∙ ground arith;
        root = text;
        rooted = ap (λ r. r.evidence_root) (sym is_row) ∙ rooted;
        root_given = ap (λ r. truthy r.evidence_root) (sym is_row) ∙ ground arith;
        same_root = ==→eq _ _ root ∙ ap h.resolve is_text;
        certified_at = t;
        stamped = ap (λ r. r.certified_at) (sym is_row) ∙ certified_stamp row.certified_at t parsed;
        not_future = ground arith;
        in_force = ground arith;
      }

  pub stored_envelope-eq_ok :
      (row : ApprovalRow) {envelope : ApprovalEnvelope}
      → stored_envelope q row ≡ ok envelope
      → (t : ℕ) × (row.expires_at ≡ utc t)
        × (envelope.expires_at ≡ aware t)
        × (envelope.proposed_action_id ≡ row.proposed_action_id)
        × (envelope.approved_payload_hash ≡ row.payload_hash)
  unfolding stored_envelope
  stored_envelope-eq_ok row {envelope} e =
      let (t, parsed, e1) = >>=-eq_ok (parse_database_timestamp row.expires_at) _ e in
      (
        t,
        unfold parse_database_timestamp in ground arith,
        ap (λ (v : ApprovalEnvelope). v.expires_at) (sym (unok e1)),
        ap (λ (v : ApprovalEnvelope). v.proposed_action_id) (sym (unok e1)),
        ap (λ (v : ApprovalEnvelope). v.approved_payload_hash) (sym (unok e1)),
      )

  -- A reservation: every gate has passed, and its three statements are what is committed.
  pub record Reservation (stored : ProposedRow) (text : String) (row : ApprovalRow) (now : ℕ)
      (b : Begun) (db' : Db) : Type 0 where
    pub unused : row.status ≡ ApprovalStatus.approved
    pub policy : PolicyRow
    pub policy_there : policy_of stored.source stored.account_alias db ≡ some policy
    pub health : HealthRow
    pub certified : Certified policy stored now health
    pub envelope : ApprovalEnvelope
    pub stored_approval : stored_envelope q row ≡ ok envelope
    pub gate :
        assert_write_allowed h policy.mode health.status q.proposed.id q.current_payload envelope
          (some (aware now))
          q.clock
        ≡ ok tt
    pub lease : String
    pub attested : lease_id h q.lock.lock (q.lock.sight 2) (q.lock.sight 3) ≡ ok lease
    pub mid : Db
    pub inserted : insert_action h.json_valid (new_action_row h q text lease now) db ≡ ok mid
    pub result :
        b
        ≡ reserved (record {
          action_id = q.action_id;
          payload_json = text;
          payload_hash = stored.payload_hash;
          execution_token = some q.execution_token;
        })
    pub committed :
        db'
        ≡ set_proposal_status q.proposed.id ProposalStatus.executing now
            (consume_approval q.approval.approval_id now mid)

  pub reserve-eq_ok :
      (stored : ProposedRow) (text : String) (row : ApprovalRow) (now : ℕ) {b : Begun} {db' : Db}
      → reserve h q stored text row now db ≡ ok (b, db')
      → Reservation stored text row now b db'
  unfolding reserve
  reserve-eq_ok stored text row now e =
      let (unused, e1) = ensure-eq_ok (is_approved row.status) _ _ e in
      let (policy, there, e2) =
        or_raise-eq_ok (policy_of stored.source stored.account_alias db) _ _ e1 in
      let (health, certified, e3) =
        >>=-eq_ok (checked_certification h q policy stored now db) _ e2 in
      let (envelope, stored_approval, e4) = >>=-eq_ok (stored_envelope q row) _ e3 in
      let (u, gate, e5) =
        >>=-eq_ok
          (assert_write_allowed h policy.mode health.status q.proposed.id q.current_payload envelope
            (some (aware now)) q.clock)
          _ e4 in
      let (lease, attested, e6) =
        >>=-eq_ok (lease_id h q.lock.lock (q.lock.sight 2) (q.lock.sight 3)) _ e5 in
      let (mid, inserted, e7) =
        >>=-eq_ok (insert_action h.json_valid (new_action_row h q text lease now) db) _ e6 in
      record {
        unused = ground arith;
        policy = policy;
        policy_there = there;
        health = health;
        certified = checked_certification-eq_ok policy stored now certified;
        envelope = envelope;
        stored_approval = stored_approval;
        gate = gate;
        lease = lease;
        attested = attested;
        mid = mid;
        inserted = inserted;
        result = sym (ap (λ t. t.0) (unok e7));
        committed = sym (ap (λ t. t.1) (unok e7));
      }

  -- An action with the key exists: it is the caller's, and nothing happens but to a stale one.
  pub resume-eq_ok :
      (stored : ProposedRow) (existing : ActionRow) (now : ℕ) {b : Begun} {db' : Db}
      → resume q stored existing now db ≡ ok (b, db')
      → (existing.approval_id ≡ q.approval.approval_id)
        × (((b ≡ reserved (replayed existing)) × (db' ≡ db))
            ⊎ ((is_executing existing.status ≡ true)
                × (b ≡ stale)
                × (db'
                    ≡ set_proposal_status q.proposed.id ProposalStatus.needs_reconciliation now
                        (set_stale existing.id now db))))
  unfolding resume
  resume-eq_ok stored existing now e =
      ground (arith, eq_iff existing.approval_id q.approval.approval_id)
