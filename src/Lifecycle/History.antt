-- ===== src/Lifecycle/History.antt =====
-- Actions of the lifecycle machine, before and after changes.
use event_lead_ops_agent.Prelude.{
  ℕ, String, ◌≡◌, refl, sym, ap, ◌∙◌, subst, true, false, Option, none, some, arith, ◌==◌, ==→eq,
  eq→==, put, put_self, put_ne, put_fresh, inl, inr, Bool-cases,
}
use event_lead_ops_agent.Schema.{ActionStatus, ActionRow, is_executing}
use event_lead_ops_agent.Executions.Submit.{is_set}
use event_lead_ops_agent.Lifecycle.{
  View, Change, stay, propose, approve, reserve, submit, end, SameReservation, submitted_at,
}

-- `b` is what became of `a`.
pub record Later (a b : ActionRow) : Type 0 where
  pub id : b.id ≡ a.id
  pub proposed_action_id : b.proposed_action_id ≡ a.proposed_action_id
  pub approval_id : b.approval_id ≡ a.approval_id
  pub source : b.source ≡ a.source
  pub action_type : b.action_type ≡ a.action_type
  pub idempotency_key : b.idempotency_key ≡ a.idempotency_key
  pub payload_json : b.payload_json ≡ a.payload_json
  pub payload_hash : b.payload_hash ≡ a.payload_hash
  pub started_at : b.started_at ≡ a.started_at
  pub runtime_fingerprint : b.runtime_fingerprint ≡ a.runtime_fingerprint
  pub profile_lock_lease_id : b.profile_lock_lease_id ≡ a.profile_lock_lease_id
  pub evidence_root : b.evidence_root ≡ a.evidence_root
  pub marker :
      is_set a.submission_started_at ≡ true → b.submission_started_at ≡ a.submission_started_at
  pub ended : is_executing a.status ≡ false → b ≡ a

pub Later-refl : (a : ActionRow) → Later a a
Later-refl a = record {
  id = refl;
  proposed_action_id = refl;
  approval_id = refl;
  source = refl;
  action_type = refl;
  idempotency_key = refl;
  payload_json = refl;
  payload_hash = refl;
  started_at = refl;
  runtime_fingerprint = refl;
  profile_lock_lease_id = refl;
  evidence_root = refl;
  marker = λ _. refl;
  ended = λ _. refl;
}

pub Later-trans : {a b c : ActionRow} → Later a b → Later b c → Later a c
Later-trans f g = record {
  id = g.id ∙ f.id;
  proposed_action_id = g.proposed_action_id ∙ f.proposed_action_id;
  approval_id = g.approval_id ∙ f.approval_id;
  source = g.source ∙ f.source;
  action_type = g.action_type ∙ f.action_type;
  idempotency_key = g.idempotency_key ∙ f.idempotency_key;
  payload_json = g.payload_json ∙ f.payload_json;
  payload_hash = g.payload_hash ∙ f.payload_hash;
  started_at = g.started_at ∙ f.started_at;
  runtime_fingerprint = g.runtime_fingerprint ∙ f.runtime_fingerprint;
  profile_lock_lease_id = g.profile_lock_lease_id ∙ f.profile_lock_lease_id;
  evidence_root = g.evidence_root ∙ f.evidence_root;
  marker = λ s. g.marker (ap is_set (f.marker s) ∙ s) ∙ f.marker s;
  ended = λ s. g.ended (ap (λ (r : ActionRow). is_executing r.status) (f.ended s) ∙ s) ∙ f.ended s;
}

Later-submitted :
    (a : ActionRow) (now : ℕ)
    → a.status ≡ ActionStatus.executing
    → a.submission_started_at ≡ none
    → Later a (submitted_at now a)
Later-submitted a now runs free = record {
  id = refl;
  proposed_action_id = refl;
  approval_id = refl;
  source = refl;
  action_type = refl;
  idempotency_key = refl;
  payload_json = refl;
  payload_hash = refl;
  started_at = refl;
  runtime_fingerprint = refl;
  profile_lock_lease_id = refl;
  evidence_root = refl;
  marker = λ s. absurd (ground arith);
  ended = λ s. absurd (ground arith);
}

Later-ended :
    (a b : ActionRow) → a.status ≡ ActionStatus.executing → SameReservation a b → Later a b
Later-ended a b runs s = record {
  id = s.id;
  proposed_action_id = s.proposed_action_id;
  approval_id = s.approval_id;
  source = s.source;
  action_type = s.action_type;
  idempotency_key = s.idempotency_key;
  payload_json = s.payload_json;
  payload_hash = s.payload_hash;
  started_at = s.started_at;
  runtime_fingerprint = s.runtime_fingerprint;
  profile_lock_lease_id = s.profile_lock_lease_id;
  evidence_root = s.evidence_root;
  marker = λ _. s.submission_started_at;
  ended = λ over. absurd (ground arith);
}

-- A write over an action that is there.
Later-put :
    (f : String → Option ActionRow) (a b : ActionRow) (k : String) (c : ActionRow)
    → f a.id ≡ some a
    → Later a b
    → f k ≡ some c
    → (d : ActionRow) × (put a.id b f k ≡ some d) × Later c d
Later-put f a b k c there later h = elim (Bool-cases (a.id == k)) [
  | inl same ↦
      let e : a.id ≡ k = ==→eq a.id k same in
      let a_is_c : a ≡ c = cc (there, h, ap f e) in
      (b, ap (put a.id b f) (sym e) ∙ put_self a.id b f, subst (λ r. Later r b) a_is_c later)
  | inr other ↦ (c, put_ne a.id k b f (λ e. cc (other, eq→== a.id k e)) ∙ h, Later-refl c)
]

-- An action is never lost, and only moves on.
pub Change-Later :
    {v w : View}
    → Change v w
    → (k : String) (a : ActionRow) → v.actions k ≡ some a
    → (b : ActionRow) × (w.actions k ≡ some b) × Later a b
Change-Later (stay e) k a h = (a, ap (λ (u : View). u.actions k) e ∙ h, Later-refl a)
Change-Later (propose row new pending e) k a h =
    (a, ap (λ (u : View). u.actions k) e ∙ h, Later-refl a)
Change-Later (approve p row now there pending new fresh for_it hash e) k a h =
    (a, ap (λ (u : View). u.actions k) e ∙ h, Later-refl a)
Change-Later {v = v} (reserve p y c now pt ps yt ys new runs free cap auth e) k a h =
    (a, ap (λ (u : View). u.actions k) e ∙ (put_fresh c.id k c v.actions new h ∙ h), Later-refl a)
Change-Later {v = v} (submit c now there runs free e) k a h =
    let (d, d_there, later) =
      Later-put v.actions c (submitted_at now c) k a there (Later-submitted c now runs free) h in
    (d, ap (λ (u : View). u.actions k) e ∙ d_there, later)
Change-Later {v = v} (end c b p now there runs over pt of_p same flags e) k a h =
    let (d, d_there, later) = Later-put v.actions c b k a there (Later-ended c b runs same) h in
    (d, ap (λ (u : View). u.actions k) e ∙ d_there, later)
