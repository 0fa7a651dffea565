-- ===== src/Sources/Identity.antt =====
-- finish_action with the repository's own sites: the platform's identity of an action that succeeds.
use event_lead_ops_agent.Prelude.{
  String, ◌≡◌, refl, sym, ap, subst, ◌∙◌, ◌⊎◌, inl, inr, Bool, true, false, Option, none, some,
  Result, ok, value_error, ensure, or_raise, ◌>>=◌, ◌>>◌, ◌==◌, truthy, is_text, is_text→eq, ==→eq,
  >>=-eq_ok, ensure-eq_ok, unok, unsome, if◌then◌else◌,
}
use event_lead_ops_agent.Texts.{Chars, chars, string, Unicode}
use event_lead_ops_agent.Host.{Host, Files}
use event_lead_ops_agent.Schema.{ActionRow, Db}
use event_lead_ops_agent.Schema.Constraints.{action_by_id}
use event_lead_ops_agent.Executions.Finish.{
  succeeded, FinishRequest, terminal_of, value_or_empty, checked_url, finish_action,
}
use event_lead_ops_agent.Executions.Finish.Checks.{Demands}
use event_lead_ops_agent.Executions.Finish.Closing.{Finished-finish_action}
use event_lead_ops_agent.Sources.{on_texts, sites_of}
use event_lead_ops_agent.Sources.Craigslist
use event_lead_ops_agent.Sources.Craigslist.Ids.{HasId, listing_id_from_url-HasId}
use event_lead_ops_agent.Sources.Facebook

-- The URL and the ID of one site: the site takes the URL, and the ID is the one that it reads.
abbrev Reads :
    (Chars → Result Chars)
    → (Chars → Result Chars)
    → FinishRequest
    → (Chars → Chars → Type 0)
    → Type 0
Reads canonicalize listing_id q P =
    (url : String) × (digits : Chars) × (canonical : Chars) × (q.platform_url ≡ some url)
    × (q.platform_external_id ≡ some (string digits))
    × (canonicalize (chars url) ≡ ok canonical)
    × (listing_id (chars url) ≡ ok digits)
    × P (chars url) digits

abbrev pub Identified : Unicode → String → FinishRequest → Type 0
Identified u source q =
    ((source ≡ "craigslist")
      × Reads (Craigslist.canonicalize_url u) (Craigslist.listing_id_from_url u) q (HasId u))
    ⊎ ((source ≡ "facebook_marketplace")
        × Reads (Facebook.canonicalize_url u) (Facebook.listing_id_from_url u) q
            (λ url digits. Unit))

on_texts-eq_ok :
    (f : Chars → Result Chars) (s t : String)
    → on_texts f s ≡ ok t
    → (c : Chars) × (f (chars s) ≡ ok c) × (t ≡ string c)
on_texts-eq_ok f s t e =
    let (c, called, done) = >>=-eq_ok (f (chars s)) _ e in (c, called, sym (unok done))

truthy-some : (o : Option String) → truthy o ≡ true → o ≡ some (value_or_empty o)
truthy-some none e = cc
truthy-some (some s) e = refl

module _ (canonicalize listing_id : Chars → Result Chars) (q : FinishRequest) where
  -- What follows the choice of the site in checked_url
  abbrev called : Result (Unit {0})
  called = on_texts canonicalize (value_or_empty q.platform_url) >>= λ canonical.
      on_texts listing_id (value_or_empty q.platform_url) >>= λ url_external_id.
      ensure (is_text q.platform_external_id url_external_id)
        (value_error "platform external ID does not match platform URL")
      >> ok tt

  Reads-called :
      (P : Chars → Chars → Type 0)
      → ((url digits : Chars) → listing_id url ≡ ok digits → P url digits)
      → truthy q.platform_url ≡ true
      → called ≡ ok tt
      → Reads canonicalize listing_id q P
  Reads-called P sound given e =
      let url = value_or_empty q.platform_url in
      let (c, canonical, e1) = >>=-eq_ok (on_texts canonicalize url) _ e in
      let (i, id, e2) = >>=-eq_ok (on_texts listing_id url) _ e1 in
      let (same, done) = ensure-eq_ok (is_text q.platform_external_id i) _ _ e2 in
      let (canonical_chars, taken, is_c) = on_texts-eq_ok canonicalize url c canonical in
      let (digits, read, is_i) = on_texts-eq_ok listing_id url i id in
      (
        url,
        digits,
        canonical_chars,
        truthy-some q.platform_url given,
        is_text→eq q.platform_external_id i same ∙ ap some is_i,
        taken,
        read,
        sound (chars url) digits read,
      )

module _ (u : Unicode) (q : FinishRequest) where
  Identified-checked_url :
      (source : String)
      → truthy q.platform_url ≡ true
      → checked_url (sites_of u) source q ≡ ok tt
      → Identified u source q
  unfolding checked_url
  Identified-checked_url source given e =
      chosen (source == "craigslist") (source == "facebook_marketplace") refl refl e
    where
      chosen :
          (c f : Bool)
          → (source == "craigslist") ≡ c
          → (source == "facebook_marketplace") ≡ f
          → ((or_raise
                (if c
                  then some ((sites_of u).craigslist)
                  else if f
                  then some ((sites_of u).facebook_marketplace)
                  else none)
                (value_error "no evidence validator for source"))
              >>= λ site. site.canonicalize_url (value_or_empty q.platform_url) >>= λ canonical.
                  site.listing_id_from_url (value_or_empty q.platform_url) >>= λ url_external_id.
                  ensure
                    (is_text q.platform_external_id url_external_id)
                    (value_error "platform external ID does not match platform URL")
                  >> ok tt)
            ≡ ok (tt {0})
          → Identified u source q
      chosen true f is_c is_f e = inl (
        ==→eq source _ is_c,
        Reads-called (Craigslist.canonicalize_url u) (Craigslist.listing_id_from_url u) q (HasId u)
            (λ url digits read. listing_id_from_url-HasId u url digits read) given e,
      )
      chosen false true is_c is_f e = inr (
        ==→eq source _ is_f,
        Reads-called (Facebook.canonicalize_url u) (Facebook.listing_id_from_url u) q
            (λ url digits. Unit) (λ url digits read. tt) given e,
      )
      chosen false false is_c is_f e = absurd cc

  -- Where finish_action, with the repository's own sites, records a success, the action's source is
  -- craigslist or facebook_marketplace, whose canonicalize_url takes the platform's URL, and the
  -- platform's ID is the one that its listing_id_from_url reads from that URL: on Craigslist a run of
  -- at least eight decimal digits of it between a slash and `.html`.
  pub succeeded-Identified :
      (h : Host) (files : Files) (db : Db)
      → q.status ≡ "succeeded"
      → (finish_action h files (sites_of u) q db).0 ≡ ok tt
      → (row : ActionRow) × (action_by_id q.action_id db ≡ some row) × Identified u row.source q
  unfolding terminal_of
  succeeded-Identified h files db asked e =
      let f = Finished-finish_action h files (sites_of u) q db e in
      let demands : Demands h files (sites_of u) q f.row f.proposal.account_alias (h.resolve f.root)
          f.digest f.error_class succeeded =
        subst
          (λ t.
            Demands h files (sites_of u) q f.row f.proposal.account_alias (h.resolve f.root)
              f.digest f.error_class t)
          (unsome (sym f.asked ∙ ap terminal_of asked)) f.demands in
      let (submitted, named, given, checked, class, digest, is_digest, valid) = demands in
      (f.row, f.there, Identified-checked_url f.row.source given checked)
