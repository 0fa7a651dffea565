-- ===== src/Proposals/Again.antt =====
-- create_proposed_action of db.py, called again with the same arguments.
use event_lead_ops_agent.Prelude.{
  ℕ, String, ◌≡◌, refl, sym, ap, ◌∙◌, Option, none, some, ok, arith, eq→==, >>=-eq_ok,
  or_raise-eq_ok, unok, find, if◌then◌else◌, ◌∷◌,
}
use event_lead_ops_agent.Json.{Json, dumps}
use event_lead_ops_agent.Host.{Host}
use event_lead_ops_agent.Models.{ProposedAction}
use event_lead_ops_agent.Policy.{make_idempotency_key}
use event_lead_ops_agent.Schema.{ProposedRow, Db}
use event_lead_ops_agent.Schema.Constraints.{insert_proposed_action}
use event_lead_ops_agent.Transaction.{concluded, concluded-eq_ok}
use event_lead_ops_agent.Proposals.{
  ProposalRequest, stored_proposal, listing_cooldown, listing_blocks, new_proposed_row,
  new_proposal, proposal_by_key, propose, create_proposed_action_body, create_proposed_action,
}

module _ (h : Host) (q : ProposalRequest) where
  abbrev key_of_request : String
  key_of_request =
      make_idempotency_key h q.source q.account_alias q.campaign_id q.action_type q.payload 1

  -- A call that returned left a row with the request's key, of which the answer is the proposal.
  record Left (p : ProposedAction) (db db' : Db) : Type 0 where
    row : ProposedRow
    there : proposal_by_key key_of_request db' ≡ some row
    cooldown : Option ℕ
    cools : listing_cooldown q db ≡ ok cooldown
    same_campaigns : db'.campaigns ≡ db.campaigns
    named : p.id ≡ row.id
    read :
        (payload : Json)
        → h.loads (dumps q.payload) ≡ some payload
        → (again : ProposedAction) × (stored_proposal h row ≡ ok again) × (again.id ≡ p.id)

  insert-grows :
      (row : ProposedRow) (db : Db) {db' : Db}
      → insert_proposed_action row db ≡ ok db'
      → db' ≡ record db { proposed_actions = row ∷ db.proposed_actions }
  unfolding insert_proposed_action
  insert-grows row db e = ground arith

  found_first :
      (row : ProposedRow) (db : Db)
      → proposal_by_key row.idempotency_key
          (record db { proposed_actions = row ∷ db.proposed_actions })
        ≡ some row
  unfolding find
  found_first row db =
      ap (λ b. if b then some row else proposal_by_key row.idempotency_key db)
        (eq→== row.idempotency_key row.idempotency_key refl)

  stored_id :
      (row : ProposedRow) {p : ProposedAction} → stored_proposal h row ≡ ok p → p.id ≡ row.id
  unfolding stored_proposal
  stored_id row e =
      let (payload, read, e1) = or_raise-eq_ok (h.loads row.payload_json) _ _ e in
      ap (λ (p : ProposedAction). p.id) (sym (unok e1))

  stored_of_text :
      (row : ProposedRow) (payload : Json)
      → h.loads row.payload_json ≡ some payload
      → (p : ProposedAction) × (stored_proposal h row ≡ ok p) × (p.id ≡ row.id)
  unfolding stored_proposal
  stored_of_text row payload read = (
    record {
      id = row.id;
      source = row.source;
      action_type = row.action_type;
      payload = payload;
      payload_hash = row.payload_hash;
      idempotency_key = row.idempotency_key;
      account_alias = row.account_alias;
      campaign_id = row.campaign_id;
      attempt = row.attempt;
      retry_of = row.retry_of;
    },
    rw read refl,
    refl,
  )

  propose-Left :
      (id : String) (now clock : ℕ) (cooldown : Option ℕ) (o : Option ProposedRow) (db : Db)
      {p : ProposedAction} {db' : Db}
      → proposal_by_key key_of_request db ≡ o
      → listing_cooldown q db ≡ ok cooldown
      → propose h q id now clock cooldown o db ≡ ok (p, db')
      → Left p db db'
  unfolding propose
  propose-Left id now clock cooldown (some row) db {p} {db'} there cools e =
      let (stored, read, e1) = >>=-eq_ok (stored_proposal h row) _ e in
      let same : db ≡ db' = ap (λ t. t.1) (unok e1) in
      let is_p : stored ≡ p = ap (λ t. t.0) (unok e1) in
      record {
        row = row;
        there = ap (λ (d : Db). proposal_by_key key_of_request d) (sym same) ∙ there;
        cooldown = cooldown;
        cools = cools;
        same_campaigns = ap (λ (d : Db). d.campaigns) (sym same);
        named = ap (λ (x : ProposedAction). x.id) (sym is_p) ∙ stored_id row read;
        read = λ payload l. (p, read ∙ ap ok is_p, refl);
      }
  propose-Left id now clock cooldown none db {p} {db'} free cools e =
      let row = new_proposed_row h q id now cooldown in
      let (u, passed, e1) = >>=-eq_ok (listing_blocks q cooldown clock db) _ e in
      let (mid, inserted, e2) = >>=-eq_ok (insert_proposed_action row db) _ e1 in
      let grown = ap (λ t. t.1) (sym (unok e2)) ∙ insert-grows row db inserted in
      let is_p : p ≡ new_proposal h q id = ap (λ t. t.0) (sym (unok e2)) in
      record {
        row = row;
        there = ap (λ (d : Db). proposal_by_key key_of_request d) grown ∙ found_first row db;
        cooldown = cooldown;
        cools = cools;
        same_campaigns = ap (λ (d : Db). d.campaigns) grown;
        named = ap (λ (x : ProposedAction). x.id) is_p;
        read = λ payload l.
            let (again, is_again, named) = stored_of_text row payload l in
            (again, is_again, named ∙ ap (λ (x : ProposedAction). x.id) (sym is_p));
      }

  listing_cooldown-campaigns :
      (db db' : Db) → db'.campaigns ≡ db.campaigns → listing_cooldown q db' ≡ listing_cooldown q db
  unfolding listing_cooldown
  listing_cooldown-campaigns db db' same = rw same refl

  body-Left :
      (id : String) (now clock : ℕ) (db : Db) {p : ProposedAction} {db' : Db}
      → create_proposed_action_body h q id now clock db ≡ ok (p, db')
      → Left p db db'
  unfolding create_proposed_action_body
  body-Left id now clock db e =
      let (cooldown, cools, e1) = >>=-eq_ok (listing_cooldown q db) _ e in
      propose-Left id now clock cooldown (proposal_by_key key_of_request db) db refl cools e1

  body_again :
      (id : String) (now clock : ℕ) {db db' : Db} {p again : ProposedAction}
      → (l : Left p db db') → stored_proposal h l.row ≡ ok again
      → create_proposed_action_body h q id now clock db' ≡ ok (again, db')
  unfolding create_proposed_action_body propose
  body_again id now clock {db} {db'} l read =
      rw (listing_cooldown-campaigns db db' l.same_campaigns ∙ l.cools) (rw l.there (rw read refl))

  -- Where create_proposed_action returned a proposal, and the text it stores for the payload can be
  -- decoded, calling it again with the same arguments (at any time, with any drawn ID) returns a
  -- proposal with the same ID and leaves the database as it is.
  pub create_proposed_action_again :
      (id id2 : String) (now clock now2 clock2 : ℕ) (db : Db) {p : ProposedAction} (payload : Json)
      → h.loads (dumps q.payload) ≡ some payload
      → (create_proposed_action h q id now clock db).0 ≡ ok p
      → (again : ProposedAction) × (create_proposed_action h q id2 now2 clock2
            (create_proposed_action h q id now clock db).1
          ≡ (ok again, (create_proposed_action h q id now clock db).1))
        × (again.id ≡ p.id)
  unfolding create_proposed_action
  create_proposed_action_again id id2 now clock now2 clock2 db payload decodes e =
      let left =
        body-Left id now clock db
          (concluded-eq_ok db (create_proposed_action_body h q id now clock db) e) in
      let (again, read, named) = left.read payload decodes in
      (
        again,
        ap (concluded (concluded db (create_proposed_action_body h q id now clock db)).1)
            (body_again id2 now2 clock2 left read),
        named,
      )
