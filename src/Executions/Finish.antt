-- ===== src/Executions/Finish.antt =====
-- finish_action of db.py: the outcome of an executing action, with its evidence.
pub mod Checks
pub mod Closing
use event_lead_ops_agent.Prelude.{
  ℕ, String, Bool, true, false, not, ◌&&◌, ◌||◌, Option, none, some, List, [], ◌∷◌, Result, ok, err,
  ◌>>=◌, ◌>>◌, raise_if, ensure, or_raise, value_error, runtime_error, key_error, type_error, ◌==◌,
  is_text, truthy, if◌then◌else◌,
}
use event_lead_ops_agent.Host.{Host, Files}
use event_lead_ops_agent.Time.{Stamp}
use event_lead_ops_agent.Models.{RuntimeIdentity, fingerprint}
use event_lead_ops_agent.ProfileLock.{LockView, assert_owned}
use event_lead_ops_agent.Schema.{
  ProposalStatus, ActionStatus, ProposedRow, ActionRow, Db, is_executing,
}
use event_lead_ops_agent.Schema.Constraints.{
  Outcome, proposal_by_id, action_by_id, set_outcome, set_proposal_status,
}
use event_lead_ops_agent.Transaction.{transaction}
use event_lead_ops_agent.Executions.Submit.{is_set}
use event_lead_ops_agent.Executions.Evidence.{Expected, validate_action_evidence}

-- What a source's adapter says of a URL: `canonicalize_url` and `listing_id_from_url`.
pub record Site : Type 0 where
  pub canonicalize_url : String → Result String
  pub listing_id_from_url : String → Result String

pub record Sites : Type 0 where
  pub craigslist : Site
  pub facebook_marketplace : Site

-- The terminal states that the argument `status` may name; any other text is refused.
pub data Terminal : Type 0 where
  succeeded failed needs_reconciliation : Terminal

unfoldable pub terminal_of : String → Option Terminal
terminal_of status =
    if status == "succeeded"
    then some succeeded
    else if status == "failed"
    then some failed
    else if status == "needs_reconciliation"
    then some needs_reconciliation
    else none

abbrev pub action_status : Terminal → ActionStatus
action_status succeeded = ActionStatus.succeeded
action_status failed = ActionStatus.failed
action_status needs_reconciliation = ActionStatus.needs_reconciliation

abbrev pub proposal_status : Terminal → ProposalStatus
proposal_status succeeded = ProposalStatus.succeeded
proposal_status failed = ProposalStatus.failed
proposal_status needs_reconciliation = ProposalStatus.needs_reconciliation

-- The arguments, and the clock's reading for `finished_at`.
pub record FinishRequest : Type 0 where
  pub action_id : String
  pub status : String
  pub platform_external_id : Option String
  pub platform_url : Option String
  pub evidence_path : Option String
  pub error_class : Option String
  pub error_detail : Option String
  pub runtime : RuntimeIdentity
  pub lock : LockView
  pub clock : ℕ

abbrev pub site_of : Sites → String → Option Site
site_of sites source =
    if source == "craigslist"
    then some sites.craigslist
    else if source == "facebook_marketplace"
    then some sites.facebook_marketplace
    else none

abbrev pub value_or_empty : Option String → String
value_or_empty none = ""
value_or_empty (some s) = s

-- The platform's URL is one of the source's, and it holds the listing's ID.
unfoldable pub checked_url : Sites → String → FinishRequest → Result (Unit {0})
checked_url sites source q = do
  site ← or_raise (site_of sites source) (value_error "no evidence validator for source")
  canonical ← site.canonicalize_url (value_or_empty q.platform_url)
  url_external_id ← site.listing_id_from_url (value_or_empty q.platform_url)
  ensure (is_text q.platform_external_id url_external_id)
      (value_error "platform external ID does not match platform URL")
  ok tt

-- The manifest that an outcome expects.
abbrev pub expected_manifest :
    Host → FinishRequest → ActionRow → String → String → Option String → Option String → Expected
expected_manifest h q row account_alias outcome external_id url =
    ("source", some row.source)
    ∷ ("account_alias", some account_alias)
    ∷ ("proposed_action_id", some row.proposed_action_id)
    ∷ ("action_id", some q.action_id)
    ∷ ("runtime_fingerprint", some (fingerprint h q.runtime))
    ∷ ("outcome", some outcome)
    ∷ ("platform_external_id", external_id)
    ∷ ("platform_url", url)
    ∷ []

-- The digest of the evidence for a reconciliation, if there is a path.
unfoldable pub evidence_if_given :
    Host → Files → FinishRequest → ActionRow → String → String → Result (Option String)
evidence_if_given h files q row account_alias root =
    if truthy q.evidence_path
    then (do
      digest ← validate_action_evidence h files q.evidence_path root (
          expected_manifest h q row account_alias "needs_reconciliation" q.platform_external_id
            q.platform_url)
      ok (some digest))
    else ok none

-- The branch of one terminal state, inside what the action row and its proposal give: it checks the
-- outcome and returns the evidence's digest and the error class to store.
unfoldable pub checked_outcome :
    Host
    → Files
    → Sites
    → FinishRequest
    → ActionRow
    → String
    → String
    → Terminal
    → Result (Option String × Option String)
checked_outcome h files sites q row account_alias root succeeded = do
  ensure (is_set row.submission_started_at)
      (value_error "successful action requires durable submission marker")
  ensure (truthy q.platform_external_id && truthy q.platform_url)
      (value_error "successful action requires evidence, platform ID, and HTTPS platform URL")
  checked_url sites row.source q
  digest ←
      validate_action_evidence h files q.evidence_path root
        (expected_manifest h q row account_alias "succeeded" q.platform_external_id q.platform_url)
  ok (some digest, q.error_class)
checked_outcome h files sites q row account_alias root failed = do
  raise_if (is_set row.submission_started_at)
      (value_error "submitted action cannot be recorded as confirmed_no_submit")
  raise_if (truthy q.platform_external_id || truthy q.platform_url)
      (value_error "confirmed_no_submit cannot include platform result identity")
  ensure (is_text q.error_class "confirmed_no_submit")
      (value_error "failed requires confirmed_no_submit evidence")
  digest ←
      validate_action_evidence h files q.evidence_path root
        (expected_manifest h q row account_alias "confirmed_no_submit" none none)
  ok (some digest, q.error_class)
checked_outcome h files sites q row account_alias root needs_reconciliation = do
  ensure
      (if truthy q.platform_external_id then truthy q.platform_url else not (truthy q.platform_url))
      (value_error "reconciliation result identity requires both platform ID and URL")
  if truthy q.platform_url then checked_url sites row.source q else ok tt
  digest ← evidence_if_given h files q row account_alias root
  ok (digest, if truthy q.error_class then q.error_class else some "ambiguous_outcome")

abbrev pub new_outcome : FinishRequest → Terminal → Option String → Option String → Outcome
new_outcome q t digest error_class = record {
  status = action_status t;
  platform_external_id = q.platform_external_id;
  platform_url = q.platform_url;
  evidence_path = q.evidence_path;
  evidence_sha256 = digest;
  finished_at = q.clock;
  error_class = error_class;
  error_detail = q.error_detail;
}

-- The SELECT's JOIN: the action and its proposal.
unfoldable pub joined : String → Db → Result (ActionRow × ProposedRow)
joined id db = do
  row ← or_raise (action_by_id id db) (key_error id)
  proposal ← or_raise (proposal_by_id row.proposed_action_id db) (key_error id)
  ok (row, proposal)

unfoldable pub finish_body : Host → Files → Sites → FinishRequest → Db → Result (Unit {0} × Db)
finish_body h files sites q db = do
  terminal ← or_raise (terminal_of q.status) (value_error "invalid terminal action status")
  (row, proposal) ← joined q.action_id db
  ensure (is_executing row.status) (runtime_error "action is not executing")
  assert_owned h q.lock.lock q.runtime.profile_dir row.profile_lock_lease_id (q.lock.sight 0)
      (q.lock.sight 1)
  ensure (is_text row.runtime_fingerprint (fingerprint h q.runtime))
      (runtime_error "action runtime does not match reserved runtime")
  root ← or_raise row.evidence_root (type_error "Path(None)")
  (digest, error_class) ←
      checked_outcome h files sites q row proposal.account_alias (h.resolve root) terminal
  ok (
    tt,
    set_proposal_status row.proposed_action_id (proposal_status terminal) q.clock
        (set_outcome q.action_id (new_outcome q terminal digest error_class) db),
  )

unfoldable pub finish_action : Host → Files → Sites → FinishRequest → Db → Result (Unit {0}) × Db
unfolding finish_body
finish_action h files sites q = transaction (finish_body h files sites q)
