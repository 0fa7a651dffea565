-- ===== src/Executions/Finish/Checks.antt =====
-- finish_action of db.py: the checks and the writes behind a return.
use event_lead_ops_agent.Prelude.{
  String, ◌≡◌, refl, sym, ap, ◌∙◌, Bool, true, false, not, Option, none, some, ok, arith, ◌&&◌,
  ◌||◌, >>=-eq_ok, raise_if-eq_ok, ensure-eq_ok, or_raise-eq_ok, is_text→eq, unok, is_text, truthy,
  if◌then◌else◌, Bool-cases, inl, inr,
}
use event_lead_ops_agent.Host.{Host, Files}
use event_lead_ops_agent.Models.{fingerprint}
use event_lead_ops_agent.ProfileLock.{assert_owned}
use event_lead_ops_agent.Schema.{ActionStatus, ActionRow, ProposedRow, Db, is_executing}
use event_lead_ops_agent.Schema.Constraints.{
  action_by_id, proposal_by_id, set_outcome, set_proposal_status,
}
use event_lead_ops_agent.Executions.Submit.{is_set}
use event_lead_ops_agent.Executions.Evidence.{validate_action_evidence}
use event_lead_ops_agent.Executions.Finish.{
  Sites, Terminal, succeeded, failed, needs_reconciliation, terminal_of, proposal_status,
  FinishRequest, checked_url, expected_manifest, evidence_if_given, checked_outcome, new_outcome,
  joined, finish_body,
}

module _ (h : Host) (files : Files) (sites : Sites) (q : FinishRequest) where
  -- What each terminal state demands of the action and of the arguments, with the evidence's digest
  -- and the error class that are stored.
  abbrev pub Demands :
      ActionRow → String → String → Option String → Option String → Terminal → Type 0
  Demands row account_alias root digest error_class succeeded =
      (is_set row.submission_started_at ≡ true)
      × (truthy q.platform_external_id ≡ true)
      × (truthy q.platform_url ≡ true)
      × (checked_url sites row.source q ≡ ok tt)
      × (error_class ≡ q.error_class)
      × (d : String) × (digest ≡ some d)
      × (validate_action_evidence h files q.evidence_path root (
            expected_manifest h q row account_alias "succeeded" q.platform_external_id
              q.platform_url)
          ≡ ok d)
  Demands row account_alias root digest error_class failed =
      (is_set row.submission_started_at ≡ false)
      × (truthy q.platform_external_id ≡ false)
      × (truthy q.platform_url ≡ false)
      × (error_class ≡ some "confirmed_no_submit")
      × (d : String) × (digest ≡ some d)
      × (validate_action_evidence h files q.evidence_path root
            (expected_manifest h q row account_alias "confirmed_no_submit" none none)
          ≡ ok d)
  Demands row account_alias root digest error_class needs_reconciliation =
      (truthy error_class ≡ true)
      × (truthy q.error_class ≡ true → error_class ≡ q.error_class)
      × (truthy q.error_class ≡ false → error_class ≡ some "ambiguous_outcome")
      × (truthy q.platform_url ≡ truthy q.platform_external_id)
      × (truthy q.platform_url ≡ true → checked_url sites row.source q ≡ ok tt)
      × (truthy q.evidence_path ≡ true
          → (d : String) × (digest ≡ some d)
            × (validate_action_evidence h files q.evidence_path root (
                  expected_manifest h q row account_alias "needs_reconciliation"
                    q.platform_external_id q.platform_url)
                ≡ ok d))
      × (truthy q.evidence_path ≡ false → digest ≡ none)

  given_or_ambiguous :
      (o : Option String) → truthy (if truthy o then o else some "ambiguous_outcome") ≡ true
  given_or_ambiguous o = elim (Bool-cases (truthy o)) [ inl e ↦ rw e e | inr e ↦ rw e refl ]

  evidence_if_given-eq_ok :
      (row : ActionRow) (account_alias root : String) {digest : Option String}
      → evidence_if_given h files q row account_alias root ≡ ok digest
      → truthy q.evidence_path ≡ true
      → (d : String) × (digest ≡ some d)
        × (validate_action_evidence h files q.evidence_path root (
              expected_manifest h q row account_alias "needs_reconciliation" q.platform_external_id
                q.platform_url)
            ≡ ok d)
  unfolding evidence_if_given
  evidence_if_given-eq_ok row account_alias root e given =
      let (d, valid, e1) =
        >>=-eq_ok
          (validate_action_evidence h files q.evidence_path root (
            expected_manifest h q row account_alias "needs_reconciliation" q.platform_external_id
              q.platform_url))
          (λ digest. ok (some digest)) (rw given at e) in
      (d, sym (unok e1), valid)

  no_evidence_given :
      (row : ActionRow) (account_alias root : String) {digest : Option String}
      → evidence_if_given h files q row account_alias root ≡ ok digest
      → truthy q.evidence_path ≡ false
      → digest ≡ none
  unfolding evidence_if_given
  no_evidence_given row account_alias root e missing = sym (unok (rw missing at e))

  url_if_given :
      (b : Bool) (source : String) {u : Unit {0}}
      → (if b then checked_url sites source q else ok tt) ≡ ok u
      → b ≡ true
      → checked_url sites source q ≡ ok tt
  url_if_given true source e given = e
  url_if_given false source e given = cc

  pub checked_outcome-eq_ok :
      (row : ActionRow) (account_alias root : String) (t : Terminal)
      {digest error_class : Option String}
      → checked_outcome h files sites q row account_alias root t ≡ ok (digest, error_class)
      → Demands row account_alias root digest error_class t
  unfolding checked_outcome
  checked_outcome-eq_ok row account_alias root succeeded {digest} {error_class} e =
      let (set, e1) = ensure-eq_ok (is_set row.submission_started_at) _ _ e in
      let (given, e2) =
        ensure-eq_ok (truthy q.platform_external_id && truthy q.platform_url) _ _ e1 in
      let (u, url, e3) = >>=-eq_ok (checked_url sites row.source q) _ e2 in
      let (d, valid, e4) =
        >>=-eq_ok
          (validate_action_evidence h files q.evidence_path root (
            expected_manifest h q row account_alias "succeeded" q.platform_external_id
              q.platform_url))
          _ e3 in
      (
        set,
        ground arith,
        ground arith,
        url,
        ap (λ t. t.1) (sym (unok e4)),
        d,
        ap (λ t. t.0) (sym (unok e4)),
        valid,
      )
  checked_outcome-eq_ok row account_alias root failed e =
      let (unset, e1) = raise_if-eq_ok (is_set row.submission_started_at) _ _ e in
      let (bare, e2) =
        raise_if-eq_ok (truthy q.platform_external_id || truthy q.platform_url) _ _ e1 in
      let (class, e3) = ensure-eq_ok (is_text q.error_class "confirmed_no_submit") _ _ e2 in
      let (d, valid, e4) =
        >>=-eq_ok
          (validate_action_evidence h files q.evidence_path root
            (expected_manifest h q row account_alias "confirmed_no_submit" none none))
          _ e3 in
      (
        unset,
        ground arith,
        ground arith,
        ap (λ t. t.1) (sym (unok e4)) ∙ is_text→eq q.error_class "confirmed_no_submit" class,
        d,
        ap (λ t. t.0) (sym (unok e4)),
        valid,
      )
  checked_outcome-eq_ok row account_alias root needs_reconciliation {digest} {error_class} e =
      let (both, e1) =
        ensure-eq_ok
          (if truthy q.platform_external_id
            then truthy q.platform_url
            else not (truthy q.platform_url))
          _ _ e in
      let (u, url, e2) =
        >>=-eq_ok (if truthy q.platform_url then checked_url sites row.source q else ok tt) _ e1 in
      let (d, valid, e3) = >>=-eq_ok (evidence_if_given h files q row account_alias root) _ e2 in
      let is_d : d ≡ digest = ap (λ t. t.0) (unok e3) in
      let is_class = ap (λ t. t.1) (sym (unok e3)) in
      (
        ap truthy is_class ∙ given_or_ambiguous q.error_class,
        λ given. is_class ∙ ap (λ b. if b then q.error_class else some "ambiguous_outcome") given,
        λ missing.
            is_class ∙ ap (λ b. if b then q.error_class else some "ambiguous_outcome") missing,
        ground arith,
        url_if_given (truthy q.platform_url) row.source url,
        evidence_if_given-eq_ok row account_alias root (valid ∙ ap ok is_d),
        no_evidence_given row account_alias root (valid ∙ ap ok is_d),
      )

  -- The action that ends, and what is committed.
  pub record Finished (db db' : Db) : Type 0 where
    pub terminal : Terminal
    pub asked : terminal_of q.status ≡ some terminal
    pub row : ActionRow
    pub there : action_by_id q.action_id db ≡ some row
    pub proposal : ProposedRow
    pub proposal_there : proposal_by_id row.proposed_action_id db ≡ some proposal
    pub runs : row.status ≡ ActionStatus.executing
    pub owned :
        assert_owned h q.lock.lock q.runtime.profile_dir row.profile_lock_lease_id
          (q.lock.sight 0)
          (q.lock.sight 1)
        ≡ ok tt
    pub same_runtime : row.runtime_fingerprint ≡ some (fingerprint h q.runtime)
    pub root : String
    pub rooted : row.evidence_root ≡ some root
    pub digest : Option String
    pub error_class : Option String
    pub demands : Demands row proposal.account_alias (h.resolve root) digest error_class terminal
    pub committed :
        db'
        ≡ set_proposal_status row.proposed_action_id
            (proposal_status terminal)
            q.clock
            (set_outcome q.action_id (new_outcome q terminal digest error_class) db)

  joined-eq_ok :
      (db : Db) {row : ActionRow} {proposal : ProposedRow}
      → joined q.action_id db ≡ ok (row, proposal)
      → (action_by_id q.action_id db ≡ some row)
        × (proposal_by_id row.proposed_action_id db ≡ some proposal)
  unfolding joined
  joined-eq_ok db {row} {proposal} e =
      let (a, there, e1) = or_raise-eq_ok (action_by_id q.action_id db) _ _ e in
      let (p, p_there, e2) = or_raise-eq_ok (proposal_by_id a.proposed_action_id db) _ _ e1 in
      let is_row : a ≡ row = ap (λ t. t.0) (unok e2) in
      (
        there ∙ ap some is_row,
        ap (λ (r : ActionRow). proposal_by_id r.proposed_action_id db) (sym is_row)
            ∙ (p_there ∙ ap some (ap (λ t. t.1) (unok e2))),
      )

  pub finish_body-eq_ok :
      (db : Db) {u : Unit {0}} {db' : Db}
      → finish_body h files sites q db ≡ ok (u, db')
      → Finished db db'
  unfolding finish_body
  finish_body-eq_ok db e =
      let (terminal, asked, e1) = or_raise-eq_ok (terminal_of q.status) _ _ e in
      let ((row, proposal), both, e2) = >>=-eq_ok (joined q.action_id db) _ e1 in
      let (there, p_there) = joined-eq_ok db both in
      let (runs, e3) = ensure-eq_ok (is_executing row.status) _ _ e2 in
      let (u, owned, e4) =
        >>=-eq_ok
          (assert_owned h q.lock.lock q.runtime.profile_dir row.profile_lock_lease_id
            (q.lock.sight 0) (q.lock.sight 1))
          _ e3 in
      let (runtime, e5) =
        ensure-eq_ok (is_text row.runtime_fingerprint (fingerprint h q.runtime)) _ _ e4 in
      let (root, rooted, e6) = or_raise-eq_ok row.evidence_root _ _ e5 in
      let ((digest, error_class), checked, e7) =
        >>=-eq_ok
          (checked_outcome h files sites q row proposal.account_alias (h.resolve root) terminal) _
          e6 in
      record {
        terminal = terminal;
        asked = asked;
        row = row;
        there = there;
        proposal = proposal;
        proposal_there = p_there;
        runs = ground arith;
        owned = owned;
        same_runtime = is_text→eq row.runtime_fingerprint _ runtime;
        root = root;
        rooted = rooted;
        digest = digest;
        error_class = error_class;
        demands =
            checked_outcome-eq_ok row proposal.account_alias (h.resolve root) terminal checked;
        committed = ap (λ t. t.1) (sym (unok e7));
      }
