-- ===== src/Proposals/Cooldown.antt =====
-- create_proposed_action of db.py for a listing: the campaign's other listings.
use event_lead_ops_agent.Prelude.{
  ℕ, ◌-◌, String, ◌≡◌, sym, ap, ◌∙◌, Bool, true, false, not, ◌&&◌, Option, none, some, ok, arith,
  find, is_text, truthy, ◌==◌, eq→==, >>=-eq_ok, or_raise-eq_ok, raise_if-eq_ok, unok,
}
use event_lead_ops_agent.Host.{Host}
use event_lead_ops_agent.Time.{hours, at_or_after}
use event_lead_ops_agent.Models.{ProposedAction}
use event_lead_ops_agent.Policy.{make_idempotency_key}
use event_lead_ops_agent.Schema.{ProposedRow, ActionRow, CampaignRow, Db, is_unresolved}
use event_lead_ops_agent.Schema.Constraints.{
  exists, proposal_by_id, action_by_id, insert_proposed_action,
}
use event_lead_ops_agent.Schema.Searches.{found_fails}
use event_lead_ops_agent.Transaction.{concluded-eq_ok}
use event_lead_ops_agent.Proposals.{
  ProposalRequest, is_listing, same_campaign_listing, listing_cooldown, is_terminal_for_cooldown,
  has_recent_terminal, listing_blocks, new_proposed_row, proposal_by_key, propose,
  create_proposed_action_body, create_proposed_action,
}

right_fails : (a b : Bool) → (a && b) ≡ false → a ≡ true → b ≡ false
right_fails a b e holds = ground arith

module _ (h : Host) (q : ProposalRequest) (id : String) (now clock : ℕ) (db : Db) where
  abbrev in_campaign : ProposedRow → Bool
  in_campaign r = same_campaign_listing q.source q.account_alias q.campaign_id r

  -- The listing's campaign is stored, none of its listings is unresolved, and none ended within the
  -- cooldown.
  pub record Spaced : Type 0 where
    pub campaign : CampaignRow
    pub there : find (λ c. is_text q.campaign_id c.id) db.campaigns ≡ some campaign
    pub resolved :
        (k : String) (r : ProposedRow)
        → proposal_by_id k db ≡ some r
        → in_campaign r ≡ true
        → is_unresolved r.status ≡ false
    pub cooled :
        (k j : String) (r : ProposedRow) (a : ActionRow)
        → proposal_by_id k db ≡ some r
        → in_campaign r ≡ true
        → action_by_id j db ≡ some a
        → a.proposed_action_id ≡ r.id
        → is_terminal_for_cooldown a ≡ true
        → at_or_after a.finished_at (clock - hours campaign.cooldown_hours) ≡ false

  resolved_of :
      exists (λ r. in_campaign r && is_unresolved r.status) db.proposed_actions ≡ false
      → (k : String) (r : ProposedRow) → proposal_by_id k db ≡ some r
      → in_campaign r ≡ true
      → is_unresolved r.status ≡ false
  resolved_of free k r there same =
      right_fails (in_campaign r) (is_unresolved r.status)
        (found_fails (λ (x : ProposedRow). in_campaign x && is_unresolved x.status) (λ x. x.id == k)
          db.proposed_actions there free)
        same

  cooled_of :
      (cutoff : ℕ)
      → has_recent_terminal q cutoff db ≡ false
      → (k j : String) (r : ProposedRow) (a : ActionRow) → proposal_by_id k db ≡ some r
      → in_campaign r ≡ true
      → action_by_id j db ≡ some a
      → a.proposed_action_id ≡ r.id
      → is_terminal_for_cooldown a ≡ true
      → at_or_after a.finished_at cutoff ≡ false
  unfolding has_recent_terminal
  cooled_of cutoff free k j r a r_there same a_there of_r terminal =
      let ends =
        right_fails (in_campaign r) _
          (found_fails
            (λ (pa : ProposedRow).
              in_campaign pa
              && exists
                  (λ (x : ActionRow).
                    x.proposed_action_id == pa.id
                    && (is_terminal_for_cooldown x && at_or_after x.finished_at cutoff))
                  db.actions)
            (λ x. x.id == k) db.proposed_actions r_there free)
          same in
      let ended =
        found_fails
          (λ (x : ActionRow).
            x.proposed_action_id == r.id
            && (is_terminal_for_cooldown x && at_or_after x.finished_at cutoff))
          (λ x. x.id == j) db.actions a_there ends in
      right_fails (is_terminal_for_cooldown a) _
        (right_fails (a.proposed_action_id == r.id) _ ended (eq→== a.proposed_action_id r.id of_r))
        terminal

  listing_campaign :
      {cooldown : Option ℕ}
      → listing_cooldown q db ≡ ok cooldown
      → is_listing q.action_type ≡ true
      → (c : CampaignRow) × (find (λ c. is_text q.campaign_id c.id) db.campaigns ≡ some c)
        × (cooldown ≡ some c.cooldown_hours)
  unfolding listing_cooldown
  listing_campaign e listing =
      let (given, e1) = raise_if-eq_ok (not (truthy q.campaign_id)) _ _ (rw listing at e) in
      let (c, there, e2) =
        or_raise-eq_ok (find (λ c. is_text q.campaign_id c.id) db.campaigns) _ _ e1 in
      (c, there, sym (unok e2))

  blocks_passed :
      (cooldown_hours : ℕ) {u : Unit {0}}
      → listing_blocks q (some cooldown_hours) clock db ≡ ok u
      → (exists (λ r. in_campaign r && is_unresolved r.status) db.proposed_actions ≡ false)
        × (has_recent_terminal q (clock - hours cooldown_hours) db ≡ false)
  unfolding listing_blocks
  blocks_passed n e =
      let (free, e1) =
        raise_if-eq_ok (exists (λ r. in_campaign r && is_unresolved r.status) db.proposed_actions) _
          _ e in
      let (past, e2) = raise_if-eq_ok (has_recent_terminal q (clock - hours n) db) _ _ e1 in
      (free, past)

  new_listing :
      (cooldown : Option ℕ) {p : ProposedAction} {db' : Db}
      → listing_cooldown q db ≡ ok cooldown
      → is_listing q.action_type ≡ true
      → propose h q id now clock cooldown none db ≡ ok (p, db')
      → (s : Spaced) × (insert_proposed_action
            (new_proposed_row h q id now (some s.campaign.cooldown_hours))
            db
          ≡ ok db')
  unfolding propose
  new_listing cooldown cools listing e =
      let (c, there, is_c) = listing_campaign cools listing in
      let (u, blocks, e1) = >>=-eq_ok (listing_blocks q cooldown clock db) _ e in
      let (after, inserted, e2) =
        >>=-eq_ok (insert_proposed_action (new_proposed_row h q id now cooldown) db) _ e1 in
      let (free, past) =
        blocks_passed c.cooldown_hours
          (ap (λ o. listing_blocks q o clock db) (sym is_c) ∙ blocks) in
      (
        record {
          campaign = c;
          there = there;
          resolved = resolved_of free;
          cooled = cooled_of (clock - hours c.cooldown_hours) past;
        },
        ap (λ o. insert_proposed_action (new_proposed_row h q id now o) db) (sym is_c)
            ∙ (inserted ∙ ap ok (ap (λ t. t.1) (unok e2))),
      )

  -- Where create_proposed_action returns a listing whose idempotency key no proposal had, the
  -- campaign is stored, none of its listings of the same source and account is unresolved, none of
  -- them has a succeeded or `confirmed_no_submit` action that finished within the campaign's
  -- cooldown before the clock, and the
  -- new proposal, with the campaign's cooldown, is what is inserted.
  pub new_listing_is_spaced :
      {p : ProposedAction}
      → is_listing q.action_type ≡ true
      → proposal_by_key
          (make_idempotency_key h q.source q.account_alias q.campaign_id q.action_type q.payload 1)
          db
        ≡ none
      → (create_proposed_action h q id now clock db).0 ≡ ok p
      → (s : Spaced) × (insert_proposed_action
            (new_proposed_row h q id now (some s.campaign.cooldown_hours))
            db
          ≡ ok (create_proposed_action h q id now clock db).1)
  unfolding create_proposed_action create_proposed_action_body
  new_listing_is_spaced listing fresh e =
      let (cooldown, cools, e1) =
        >>=-eq_ok (listing_cooldown q db) _
          (concluded-eq_ok db (create_proposed_action_body h q id now clock db) e) in
      new_listing cooldown cools listing
        (ap (λ o. propose h q id now clock cooldown o db) (sym fresh) ∙ e1)
