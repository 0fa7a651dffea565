-- ===== src/Executions/Submit.antt =====
-- mark_action_submitting of db.py: the one-use capability is consumed and the marker is set.
pub mod Checks
pub mod Marking
use event_lead_ops_agent.Prelude.{
  ℕ, String, Bool, true, false, not, ◌&&◌, Option, none, some, Result, ok, err, ◌>>=◌, ◌>>◌,
  raise_if, ensure, or_raise, value_error, runtime_error, key_error, ◌==◌, is_text, truthy,
}
use event_lead_ops_agent.Json.{Json, object, canonical_json}
use event_lead_ops_agent.Host.{Host}
use event_lead_ops_agent.Time.{Stamp}
use event_lead_ops_agent.Models.{RuntimeIdentity, ExecutionReservation, fingerprint, should_execute}
use event_lead_ops_agent.Policy.{payload_hash}
use event_lead_ops_agent.ProfileLock.{LockView, assert_owned}
use event_lead_ops_agent.Schema.{ActionRow, Db, is_executing}
use event_lead_ops_agent.Schema.Constraints.{action_by_id, set_submission_started}
use event_lead_ops_agent.Transaction.{transaction}

-- The arguments, and the clock's reading for the marker.
pub record SubmitRequest : Type 0 where
  pub reservation : ExecutionReservation
  pub runtime : RuntimeIdentity
  pub lock : LockView
  pub clock : ℕ

abbrev pub token_or_empty : Option String → String
token_or_empty none = ""
token_or_empty (some s) = s

-- The caller holds the capability whose hash the row carries.
abbrev pub claims : Host → ExecutionReservation → ActionRow → Bool
claims h r row =
    should_execute r
    && (truthy row.execution_token_hash
        && is_text row.execution_token_hash (h.sha256 (token_or_empty r.execution_token)))

abbrev pub is_object : Json → Bool
is_object (object fields) = true
is_object _ = false

abbrev pub is_set : Option Stamp → Bool
is_set none = false
is_set (some t) = true

-- The row's payload, if the row and the reservation agree on its canonical text and its hash.
unfoldable pub snapshot_payload : Host → ExecutionReservation → ActionRow → Result Json
snapshot_payload h r row = do
  payload ← or_raise (h.loads row.payload_json) (value_error "JSONDecodeError")
  ensure
      (row.payload_json == canonical_json payload
        && (row.payload_hash == payload_hash h payload
            && (r.payload_json == canonical_json payload && r.payload_hash == row.payload_hash)))
      (runtime_error "execution reservation payload does not match database snapshot")
  ok payload

-- The property `payload` of the reservation that is rebuilt from the row: its text, decoded.
unfoldable pub reservation_payload : Host → String → Result Json
reservation_payload h payload_json = do
  decoded ← or_raise (h.loads payload_json) (value_error "JSONDecodeError")
  ensure (is_object decoded) (value_error "execution payload must be a JSON object")
  ok decoded

unfoldable pub mark_body : Host → SubmitRequest → Db → Result (Json × Db)
mark_body h q db = do
  row ← or_raise (action_by_id q.reservation.action_id db) (key_error q.reservation.action_id)
  ensure (is_executing row.status) (runtime_error "action is not executing")
  assert_owned h q.lock.lock q.runtime.profile_dir row.profile_lock_lease_id (q.lock.sight 0)
      (q.lock.sight 1)
  ensure (is_text row.runtime_fingerprint (fingerprint h q.runtime))
      (runtime_error "action runtime does not match reserved runtime")
  ensure (claims h q.reservation row) (runtime_error "execution claim is missing or invalid")
  stored_payload ← snapshot_payload h q.reservation row
  raise_if (is_set row.submission_started_at) (runtime_error "action submission was already marked")
  execution_payload ← reservation_payload h (canonical_json stored_payload)
  db' ← set_submission_started q.reservation.action_id q.clock db
  ok (execution_payload, db')

unfoldable pub mark_action_submitting : Host → SubmitRequest → Db → Result Json × Db
unfolding mark_body
mark_action_submitting h q = transaction (mark_body h q)
