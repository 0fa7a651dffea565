-- ===== src/Executions/Submit/Checks.antt =====
-- mark_action_submitting of db.py: the checks and the writes behind a returned payload.
use event_lead_ops_agent.Prelude.{
  String, ◌≡◌, sym, ap, ◌∙◌, true, none, some, ok, arith, eq_iff, ◌==◌, ◌&&◌, >>=-eq_ok,
  raise_if-eq_ok, ensure-eq_ok, or_raise-eq_ok, is_text→eq, unok, is_text, Option-cases, inl, inr,
}
use event_lead_ops_agent.Json.{Json, canonical_json}
use event_lead_ops_agent.Host.{Host}
use event_lead_ops_agent.Models.{fingerprint}
use event_lead_ops_agent.Policy.{payload_hash}
use event_lead_ops_agent.ProfileLock.{assert_owned}
use event_lead_ops_agent.Schema.{ActionStatus, ActionRow, Db, is_executing}
use event_lead_ops_agent.Schema.Constraints.{action_by_id, set_submission_started}
use event_lead_ops_agent.Executions.Submit.{
  SubmitRequest, claims, is_object, is_set, snapshot_payload, reservation_payload, mark_body,
}

module _ (h : Host) (q : SubmitRequest) (db : Db) where
  -- The action that is submitted, the caller's capability for it, and the payload.
  pub record Marked (payload : Json) (db' : Db) : Type 0 where
    pub row : ActionRow
    pub there : action_by_id q.reservation.action_id db ≡ some row
    pub runs : row.status ≡ ActionStatus.executing
    pub owned :
        assert_owned h q.lock.lock q.runtime.profile_dir row.profile_lock_lease_id
          (q.lock.sight 0)
          (q.lock.sight 1)
        ≡ ok tt
    pub same_runtime : row.runtime_fingerprint ≡ some (fingerprint h q.runtime)
    pub token : String
    pub held : q.reservation.execution_token ≡ some token
    pub claimed : row.execution_token_hash ≡ some (h.sha256 token)
    pub unsubmitted : row.submission_started_at ≡ none
    pub stored : Json
    pub read : h.loads row.payload_json ≡ some stored
    pub stored_text : row.payload_json ≡ canonical_json stored
    pub stored_hash : row.payload_hash ≡ payload_hash h stored
    pub reserved_text : q.reservation.payload_json ≡ row.payload_json
    pub reserved_hash : q.reservation.payload_hash ≡ row.payload_hash
    pub decoded : h.loads row.payload_json ≡ some payload
    pub is_mapping : is_object payload ≡ true
    pub written : set_submission_started q.reservation.action_id q.clock db ≡ ok db'

  snapshot_payload-eq_ok :
      (row : ActionRow) {stored : Json}
      → snapshot_payload h q.reservation row ≡ ok stored
      → (h.loads row.payload_json ≡ some stored)
        × (row.payload_json ≡ canonical_json stored)
        × (row.payload_hash ≡ payload_hash h stored)
        × (q.reservation.payload_json ≡ row.payload_json)
        × (q.reservation.payload_hash ≡ row.payload_hash)
  unfolding snapshot_payload
  snapshot_payload-eq_ok row {stored} e =
      let (p, read, e1) = or_raise-eq_ok (h.loads row.payload_json) _ _ e in
      let (same, e2) =
        ensure-eq_ok
          (row.payload_json == canonical_json p
            && (row.payload_hash == payload_hash h p
                && (q.reservation.payload_json == canonical_json p
                    && q.reservation.payload_hash == row.payload_hash)))
          _ _ e1 in
      let is_p : p ≡ stored = unok e2 in
      (
        read ∙ ap some is_p,
        ground (arith, eq_iff row.payload_json (canonical_json p)) ∙ ap canonical_json is_p,
        ground (arith, eq_iff row.payload_hash (payload_hash h p)) ∙ ap (payload_hash h) is_p,
        ground (
          arith,
          eq_iff q.reservation.payload_json (canonical_json p),
          eq_iff row.payload_json (canonical_json p),
        ),
        ground (arith, eq_iff q.reservation.payload_hash row.payload_hash),
      )

  reservation_payload-eq_ok :
      (text : String) {payload : Json}
      → reservation_payload h text ≡ ok payload
      → (h.loads text ≡ some payload) × (is_object payload ≡ true)
  unfolding reservation_payload
  reservation_payload-eq_ok text {payload} e =
      let (p, read, e1) = or_raise-eq_ok (h.loads text) _ _ e in
      let (mapping, e2) = ensure-eq_ok (is_object p) _ _ e1 in
      (read ∙ ap some (unok e2), ap is_object (sym (unok e2)) ∙ mapping)

  claimed_token :
      (row : ActionRow)
      → claims h q.reservation row ≡ true
      → (t : String) × (q.reservation.execution_token ≡ some t)
        × (row.execution_token_hash ≡ some (h.sha256 t))
  claimed_token row e = elim (Option-cases q.reservation.execution_token) [
    | inl gone ↦ absurd (ground arith)
    | inr (t, held) ↦ (t, held, is_text→eq row.execution_token_hash (h.sha256 t) (ground arith))
  ]

  pub mark_body-eq_ok :
      {payload : Json} {db' : Db} → mark_body h q db ≡ ok (payload, db') → Marked payload db'
  unfolding mark_body
  mark_body-eq_ok {payload} {db'} e =
      let (row, there, e1) = or_raise-eq_ok (action_by_id q.reservation.action_id db) _ _ e in
      let (runs, e2) = ensure-eq_ok (is_executing row.status) _ _ e1 in
      let (u, owned, e3) =
        >>=-eq_ok
          (assert_owned h q.lock.lock q.runtime.profile_dir row.profile_lock_lease_id
            (q.lock.sight 0) (q.lock.sight 1))
          _ e2 in
      let (runtime, e4) =
        ensure-eq_ok (is_text row.runtime_fingerprint (fingerprint h q.runtime)) _ _ e3 in
      let (claim, e5) = ensure-eq_ok (claims h q.reservation row) _ _ e4 in
      let (stored, snapshot, e6) = >>=-eq_ok (snapshot_payload h q.reservation row) _ e5 in
      let (unset, e7) = raise_if-eq_ok (is_set row.submission_started_at) _ _ e6 in
      let (decoded, read, e8) = >>=-eq_ok (reservation_payload h (canonical_json stored)) _ e7 in
      let (after, written, e9) =
        >>=-eq_ok (set_submission_started q.reservation.action_id q.clock db) _ e8 in
      let (r, text, hash, rtext, rhash) = snapshot_payload-eq_ok row snapshot in
      let (t, held, claimed) = claimed_token row claim in
      let is_payload : decoded ≡ payload = ap (λ t. t.0) (unok e9) in
      let (loaded, mapping) = reservation_payload-eq_ok (canonical_json stored) read in
      record {
        row = row;
        there = there;
        runs = ground arith;
        owned = owned;
        same_runtime = is_text→eq row.runtime_fingerprint _ runtime;
        token = t;
        held = held;
        claimed = claimed;
        unsubmitted = ground arith;
        stored = stored;
        read = r;
        stored_text = text;
        stored_hash = hash;
        reserved_text = rtext;
        reserved_hash = rhash;
        decoded = ap h.loads text ∙ (loaded ∙ ap some is_payload);
        is_mapping = ap is_object (sym is_payload) ∙ mapping;
        written = written ∙ ap ok (ap (λ t. t.1) (unok e9));
      }
