-- ===== src/Executions/Begin.antt =====
-- begin_approved_action of db.py: an approval is consumed together with the reservation.
pub mod Checks
pub mod Granted
pub mod Again
use event_lead_ops_agent.Prelude.{
  ℕ, ◌+◌, String, Bool, true, false, not, ◌&&◌, ◌||◌, Option, none, some, Result, ok, err, ◌>>=◌,
  ◌>>◌, raise_if, ensure, or_raise, value_error, runtime_error, key_error, ◌==◌, is_text, truthy,
  ltb, leb, if◌then◌else◌, find,
}
use event_lead_ops_agent.Json.{Json, canonical_json}
use event_lead_ops_agent.Host.{Host}
use event_lead_ops_agent.Time.{
  DateTime, aware, Stamp, utc, hours, minutes, require_aware, parse_database_timestamp,
}
use event_lead_ops_agent.Models.{
  ProposedAction, RuntimeIdentity, ExecutionReservation, fingerprint, is_healthy,
}
use event_lead_ops_agent.Policy.{ApprovalEnvelope, payload_hash, assert_write_allowed, now_or}
use event_lead_ops_agent.ProfileLock.{LockView, assert_owned, lease_id}
use event_lead_ops_agent.Schema.{
  ProposalStatus, ApprovalStatus, ActionStatus, ProposedRow, ApprovalRow, ActionRow, PolicyRow,
  HealthRow, Db, is_approved, is_available, is_executing,
}
use event_lead_ops_agent.Schema.Constraints.{
  proposal_by_id, approval_by_id, action_by_key, insert_action, set_proposal_status,
  consume_approval, set_stale,
}

-- The keyword arguments, and what the call draws and reads: the action's UUID, the execution token,
-- and the clock where `now` is not given. `lock` is the profile lock with the four rounds in which
-- `assert_owned` and `lease_id` look at it.
pub record BeginRequest : Type 0 where
  pub proposed : ProposedAction
  pub current_payload : Json
  pub approval : ApprovalEnvelope
  pub runtime : RuntimeIdentity
  pub lock : LockView
  pub now : Option DateTime
  pub clock : ℕ
  pub action_id : String
  pub execution_token : String

-- The stored proposal is the caller's.
abbrev pub same_proposal : ProposedAction → ProposedRow → Bool
same_proposal p r =
    r.source == p.source
    && (r.account_alias == p.account_alias
        && (r.action_type == p.action_type
            && (r.payload_hash == p.payload_hash && r.idempotency_key == p.idempotency_key)))

-- The stored proposal, and the canonical text of its payload, which both payloads of the caller have.
unfoldable pub checked_proposal : Host → BeginRequest → Db → Result (ProposedRow × String)
checked_proposal h q db = do
  stored ← or_raise (proposal_by_id q.proposed.id db) (key_error q.proposed.id)
  ensure (same_proposal q.proposed stored)
      (runtime_error "proposed action does not match stored action")
  payload ← or_raise (h.loads stored.payload_json) (value_error "JSONDecodeError")
  ensure
      (canonical_json q.proposed.payload == canonical_json payload
        && canonical_json q.current_payload == canonical_json payload)
      (runtime_error "executor payload does not match stored approved payload")
  ok (stored, canonical_json payload)

-- The stored approval of the proposal, approved or consumed.
unfoldable pub checked_approval : Host → BeginRequest → Db → Result ApprovalRow
checked_approval h q db = do
  row ←
      or_raise (approval_by_id q.approval.approval_id db)
        (runtime_error "approval is not available")
  ensure (is_available row.status) (runtime_error "approval is not available")
  ensure (row.proposed_action_id == q.proposed.id)
      (runtime_error "stored approval belongs to a different proposed action")
  ensure (row.payload_hash == payload_hash h q.current_payload)
      (runtime_error "stored approval payload hash does not match")
  ok row

abbrev pub policy_of : String → String → Db → Option PolicyRow
policy_of source account_alias db =
    find (λ r. r.source == source && r.account_alias == account_alias) db.source_policies

abbrev pub health_of : String → String → Db → Option HealthRow
health_of source account_alias db =
    find (λ r. r.source == source && r.account_alias == account_alias) db.source_health

-- An outcome of the body: a reservation, or the commit of a stale execution, which then raises.
pub data Begun : Type 0 where
  reserved : ExecutionReservation → Begun
  stale : Begun

-- The reservation of an action that exists already carries no token.
abbrev pub replayed : ActionRow → ExecutionReservation
replayed existing = record {
  action_id = existing.id;
  payload_json = existing.payload_json;
  payload_hash = existing.payload_hash;
  execution_token = none;
}

-- An action with the idempotency key exists. It is given back with no token, unless it has been
-- executing for the policy's timeout: then it is put aside for reconciliation.
unfoldable pub resume : BeginRequest → ProposedRow → ActionRow → ℕ → Db → Result (Begun × Db)
resume q stored existing now db = do
  ensure (existing.approval_id == q.approval.approval_id)
      (runtime_error "existing action belongs to a different approval")
  if not (is_executing existing.status) then ok (reserved (replayed existing), db) else do
    policy ←
        or_raise (policy_of stored.source stored.account_alias db)
          (runtime_error "database source policy is missing")
    started_at ← parse_database_timestamp existing.started_at
    if leb (started_at + minutes policy.execution_timeout_minutes) now
        then ok (
          stale,
          set_proposal_status q.proposed.id ProposalStatus.needs_reconciliation now
              (set_stale existing.id now db),
        )
        else ok (reserved (replayed existing), db)

abbrev pub stamp_or_unreadable : Option Stamp → Stamp
stamp_or_unreadable none = Stamp.unreadable
stamp_or_unreadable (some t) = t

abbrev pub is_present : Option Stamp → Bool
is_present none = false
is_present (some t) = true

abbrev pub text_or_empty : Option String → String
text_or_empty none = ""
text_or_empty (some s) = s

-- The source's health is certified for this runtime, and the certification is in force.
unfoldable pub checked_certification :
    Host → BeginRequest → PolicyRow → ProposedRow → ℕ → Db → Result HealthRow
checked_certification h q policy stored now db = do
  health ←
      or_raise (health_of stored.source stored.account_alias db)
        (runtime_error "database source health is not healthy")
  ensure
      (is_healthy health.status
        && (truthy health.route
            && (is_present health.certified_at
                && (truthy health.runtime_fingerprint && truthy health.evidence_root))))
      (runtime_error "database source health is not healthy")
  ensure (is_text health.runtime_fingerprint (fingerprint h q.runtime))
      (runtime_error "current runtime does not match certified runtime")
  ensure (h.resolve q.runtime.evidence_root == h.resolve (text_or_empty health.evidence_root))
      (runtime_error "current evidence root does not match certification")
  certified_at ← parse_database_timestamp (stamp_or_unreadable health.certified_at)
  raise_if (ltb now certified_at) (runtime_error "database source certification is future-dated")
  raise_if (leb (certified_at + hours policy.certification_ttl_hours) now)
      (runtime_error "database source certification expired")
  ok health

-- The envelope that the stored approval stands for.
unfoldable pub stored_envelope : BeginRequest → ApprovalRow → Result ApprovalEnvelope
stored_envelope q row = do
  expires_at ← parse_database_timestamp row.expires_at
  ok (record {
    approval_id = q.approval.approval_id;
    proposed_action_id = row.proposed_action_id;
    approved_payload_hash = row.payload_hash;
    approver = row.approver;
    expires_at = aware expires_at;
    status = "approved";
  })

abbrev pub new_action_row : Host → BeginRequest → String → String → ℕ → ActionRow
new_action_row h q stored_payload_json lease now = record {
  id = q.action_id;
  proposed_action_id = q.proposed.id;
  approval_id = q.approval.approval_id;
  source = q.proposed.source;
  action_type = q.proposed.action_type;
  idempotency_key = q.proposed.idempotency_key;
  payload_json = stored_payload_json;
  payload_hash = q.proposed.payload_hash;
  execution_token_hash = some (h.sha256 q.execution_token);
  status = ActionStatus.executing;
  platform_external_id = none;
  platform_url = none;
  evidence_path = none;
  evidence_sha256 = none;
  started_at = utc now;
  submission_started_at = none;
  finished_at = none;
  error_class = none;
  error_detail = none;
  runtime_fingerprint = some (fingerprint h q.runtime);
  profile_lock_lease_id = some lease;
  evidence_root = some q.runtime.evidence_root;
}

-- No action has the idempotency key: the gates, and the three statements of the reservation.
unfoldable pub reserve :
    Host → BeginRequest → ProposedRow → String → ApprovalRow → ℕ → Db → Result (Begun × Db)
reserve h q stored stored_payload_json approval_row now db = do
  ensure (is_approved approval_row.status)
      (runtime_error "approval is not available for consumption")
  policy ←
      or_raise (policy_of stored.source stored.account_alias db)
        (runtime_error "database source policy is missing")
  health ← checked_certification h q policy stored now db
  envelope ← stored_envelope q approval_row
  assert_write_allowed h policy.mode health.status q.proposed.id q.current_payload envelope
      (some (aware now)) q.clock
  lease ← lease_id h q.lock.lock (q.lock.sight 2) (q.lock.sight 3)
  db' ← insert_action h.json_valid (new_action_row h q stored_payload_json lease now) db
  ok (
    reserved (record {
      action_id = q.action_id;
      payload_json = stored_payload_json;
      payload_hash = stored.payload_hash;
      execution_token = some q.execution_token;
    }),
    set_proposal_status q.proposed.id ProposalStatus.executing now
        (consume_approval q.approval.approval_id now db'),
  )

-- The body once the idempotency key has been looked up.
unfoldable pub reserve_or_resume :
    Host
    → BeginRequest
    → ProposedRow
    → String
    → ApprovalRow
    → ℕ
    → Option ActionRow
    → Db
    → Result (Begun × Db)
reserve_or_resume h q stored text approval_row now (some existing) db =
    resume q stored existing now db
reserve_or_resume h q stored text approval_row now none db =
    reserve h q stored text approval_row now db

unfoldable pub begin_body : Host → BeginRequest → Db → Result (Begun × Db)
begin_body h q db = do
  now ← require_aware (now_or q.now q.clock) "execution clock must be timezone-aware"
  assert_owned h q.lock.lock q.runtime.profile_dir none (q.lock.sight 0) (q.lock.sight 1)
  (stored, text) ← checked_proposal h q db
  approval_row ← checked_approval h q db
  reserve_or_resume h q stored text approval_row now (action_by_key stored.idempotency_key db) db

-- A stale execution is committed before it raises; every other exception is rolled back.
abbrev pub settle : Db → Result (Begun × Db) → Result ExecutionReservation × Db
settle db (ok (reserved r, db')) = (ok r, db')
settle db (ok (stale, db')) = (err (runtime_error "stale execution requires reconciliation"), db')
settle db (err e) = (err e, db)

unfoldable pub begin_approved_action : Host → BeginRequest → Db → Result ExecutionReservation × Db
unfolding begin_body
begin_approved_action h q db = settle db (begin_body h q db)
