-- ===== src/Proposals/Retry/Evidenced.antt =====
-- create_retry_proposed_action of db.py: the checks and the writes behind a returned proposal.
use event_lead_ops_agent.Prelude.{
  ℕ, ◌+◌, ◌≤◌, String, ◌≡◌, refl, sym, ap, ◌∙◌, true, false, ◌&&◌, Option, none, some, List, ok,
  arith, >>=-eq_ok, or_raise-eq_ok, ensure-eq_ok, raise_if-eq_ok, is_text→eq, is_text, unok, truthy,
  Option-cases, inl, inr, ◌⊎◌, ltb,
}
use event_lead_ops_agent.Json.{Json}
use event_lead_ops_agent.Host.{Host, Files}
use event_lead_ops_agent.Time.{Stamp, utc, hours, parse_database_timestamp}
use event_lead_ops_agent.Models.{ProposedAction}
use event_lead_ops_agent.Schema.{ProposalStatus, ProposedRow, ActionRow, Db, is_failed}
use event_lead_ops_agent.Schema.Constraints.{exists, proposal_by_id, insert_proposed_action}
use event_lead_ops_agent.Transaction.{concluded-eq_ok}
use event_lead_ops_agent.Proposals.{is_listing, stored_proposal}
use event_lead_ops_agent.Proposals.Retry.{
  failed_action, or_empty, evidenced_failure, competes, positive_cooldown, or_unreadable,
  retry_cooldown, retry_row, retry_proposal, existing_retry, retry, create_retry_body,
  create_retry_proposed_action,
}

module _ (h : Host) (files : Files) (failed_id : String) where
  -- The failed action, whose evidence is as it was recorded.
  pub record Failure (db : Db) (action : ActionRow) : Type 0 where
    pub there : failed_action failed_id db ≡ some action
    pub confirmed : action.error_class ≡ some "confirmed_no_submit"
    pub path : String
    pub at : action.evidence_path ≡ some path
    pub is_file : files.is_file path ≡ true
    pub bytes : List ℕ
    pub read : files.read_bytes path ≡ some bytes
    pub unchanged : action.evidence_sha256 ≡ some (h.sha256_bytes bytes)

  -- A listing may be retried: no other listing of its campaign is open, and it has cooled down.
  pub record Cooled (row : ProposedRow) (action : ActionRow) (clock : ℕ) (db : Db) : Type 0 where
    pub cooldown : ℕ
    pub stored : row.cooldown_hours ≡ some cooldown
    pub positive : 1 ≤ cooldown
    pub alone : exists (competes row) db.proposed_actions ≡ false
    pub finished : ℕ
    pub finished_at : action.finished_at ≡ some (utc finished)
    pub passed : finished + hours cooldown ≤ clock

  -- The existing retry, with the database as it was, or a new one, which is inserted.
  abbrev pub Answer : String → ℕ → ProposedRow → ProposedAction → Db → Db → Type 0
  Answer retry_id now row p db db' =
      ((existing : ProposedRow) × (existing_retry failed_id db ≡ some existing)
        × (stored_proposal h existing ≡ ok p)
        × (db' ≡ db))
      ⊎ ((payload : Json) × (existing_retry failed_id db ≡ none)
          × (h.loads row.payload_json ≡ some payload)
          × (p ≡ retry_proposal h row payload retry_id)
          × (insert_proposed_action (retry_row h row payload retry_id now) db ≡ ok db'))

  pub record Retried (retry_id : String) (now clock : ℕ) (p : ProposedAction) (db db' : Db)
      : Type 0 where
    pub row : ProposedRow
    pub there : proposal_by_id failed_id db ≡ some row
    pub has_failed : row.status ≡ ProposalStatus.failed
    pub action : ActionRow
    pub failure : Failure db action
    pub cooled : is_listing row.action_type ≡ true → Cooled row action clock db
    pub answer : Answer retry_id now row p db db'

  evidenced_failure-eq_ok :
      (db : Db) {action : ActionRow}
      → evidenced_failure h files failed_id db ≡ ok action
      → Failure db action
  unfolding evidenced_failure
  evidenced_failure-eq_ok db {action} e =
      let (a, there, e1) = or_raise-eq_ok (failed_action failed_id db) _ _ e in
      let (confirmed, e2) =
        ensure-eq_ok
          (is_text a.error_class "confirmed_no_submit"
            && (truthy a.evidence_path
                && (truthy a.evidence_sha256 && files.is_file (or_empty a.evidence_path))))
          _ _ e1 in
      let (bytes, read, e3) = or_raise-eq_ok (files.read_bytes (or_empty a.evidence_path)) _ _ e2 in
      let (same, e4) = ensure-eq_ok (is_text a.evidence_sha256 (h.sha256_bytes bytes)) _ _ e3 in
      let is_a : a ≡ action = unok e4 in
      elim (Option-cases a.evidence_path) [
        | inl gone ↦ absurd (ground arith)
        | inr (path, at) ↦
            let is_path : or_empty a.evidence_path ≡ path = ap or_empty at in
            record {
              there = there ∙ ap some is_a;
              confirmed =
                  ap (λ (x : ActionRow). x.error_class) (sym is_a)
                  ∙ is_text→eq a.error_class "confirmed_no_submit" (ground arith);
              path = path;
              at = ap (λ (x : ActionRow). x.evidence_path) (sym is_a) ∙ at;
              is_file = ap files.is_file (sym is_path) ∙ ground arith;
              bytes = bytes;
              read = ap files.read_bytes (sym is_path) ∙ read;
              unchanged =
                  ap (λ (x : ActionRow). x.evidence_sha256) (sym is_a)
                  ∙ is_text→eq a.evidence_sha256 (h.sha256_bytes bytes) same;
            }
      ]

  retry_cooldown-eq_ok :
      (row : ProposedRow) (action : ActionRow) (clock : ℕ) (db : Db) {u : Unit {0}}
      → retry_cooldown row action clock db ≡ ok u
      → is_listing row.action_type ≡ true
      → Cooled row action clock db
  unfolding retry_cooldown
  retry_cooldown-eq_ok row action clock db e listing =
      let (n, positive, e1) =
        or_raise-eq_ok (positive_cooldown row.cooldown_hours) _ _ (rw listing at e) in
      let (alone, e2) = raise_if-eq_ok (exists (competes row) db.proposed_actions) _ _ e1 in
      let (t, parsed, e3) =
        >>=-eq_ok (parse_database_timestamp (or_unreadable action.finished_at)) _ e2 in
      let (late, e4) = raise_if-eq_ok (ltb clock (t + hours n)) _ _ e3 in
      let (stored, at_least) = cooldown_of row.cooldown_hours n positive in
      record {
        cooldown = n;
        stored = stored;
        positive = at_least;
        alone = alone;
        finished = t;
        finished_at = stamp_of action.finished_at t parsed;
        passed = ground arith;
      }
    where
      cooldown_of : (o : Option ℕ) (n : ℕ) → positive_cooldown o ≡ some n → (o ≡ some n) × (1 ≤ n)
      cooldown_of o n e = ground arith

      stamp_of :
          (s : Option Stamp) (t : ℕ)
          → parse_database_timestamp (or_unreadable s) ≡ ok t
          → s ≡ some (utc t)
      stamp_of s t e = unfold parse_database_timestamp in ground arith

  module _ (retry_id : String) (now clock : ℕ) where
    retry-Answer :
        (row : ProposedRow) (o : Option ProposedRow) (db : Db) {p : ProposedAction} {db' : Db}
        → existing_retry failed_id db ≡ o
        → retry h row retry_id now o db ≡ ok (p, db')
        → Answer retry_id now row p db db'
    unfolding retry
    retry-Answer row (some existing) db there e =
        let (stored, read, e1) = >>=-eq_ok (stored_proposal h existing) _ e in
        inl (existing, there, read ∙ ap ok (ap (λ t. t.0) (unok e1)), ap (λ t. t.1) (sym (unok e1)))
    retry-Answer row none db free e =
        let (payload, read, e1) = or_raise-eq_ok (h.loads row.payload_json) _ _ e in
        let (after, inserted, e2) =
          >>=-eq_ok (insert_proposed_action (retry_row h row payload retry_id now) db) _ e1 in
        inr (
          payload,
          free,
          read,
          ap (λ t. t.0) (sym (unok e2)),
          inserted ∙ ap ok (ap (λ t. t.1) (unok e2)),
        )

    create_retry_body-eq_ok :
        (db : Db) {p : ProposedAction} {db' : Db}
        → create_retry_body h files failed_id retry_id now clock db ≡ ok (p, db')
        → Retried retry_id now clock p db db'
    unfolding create_retry_body
    create_retry_body-eq_ok db e =
        let (row, there, e1) = or_raise-eq_ok (proposal_by_id failed_id db) _ _ e in
        let (has_failed, e2) = ensure-eq_ok (is_failed row.status) _ _ e1 in
        let (action, evidenced, e3) = >>=-eq_ok (evidenced_failure h files failed_id db) _ e2 in
        let (u, cooled, e4) = >>=-eq_ok (retry_cooldown row action clock db) _ e3 in
        record {
          row = row;
          there = there;
          has_failed = ground arith;
          action = action;
          failure = evidenced_failure-eq_ok db evidenced;
          cooled = retry_cooldown-eq_ok row action clock db cooled;
          answer = retry-Answer row (existing_retry failed_id db) db refl e4;
        }

    -- Where create_retry_proposed_action returns a proposal, everything of `Retried` holds: the
    -- stored proposal has failed, with a `confirmed_no_submit` action whose evidence file is there
    -- and has the recorded digest; a listing has a positive cooldown that has passed since the
    -- action finished, and no other listing of its campaign is open; and the answer is the existing
    -- retry, with the database as it was, or a new one with the next attempt, which is inserted.
    pub create_retry_returns :
        (db : Db) {p : ProposedAction}
        → (create_retry_proposed_action h files failed_id retry_id now clock db).0 ≡ ok p
        → Retried retry_id now clock p db
            (create_retry_proposed_action h files failed_id retry_id now clock db).1
    unfolding create_retry_proposed_action
    create_retry_returns db e =
        create_retry_body-eq_ok db
          (concluded-eq_ok db (create_retry_body h files failed_id retry_id now clock db) e)
