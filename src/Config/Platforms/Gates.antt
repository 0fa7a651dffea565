-- ===== src/Config/Platforms/Gates.antt =====
-- What a platforms configuration that _validate_platforms accepts guarantees.
use event_lead_ops_agent.Prelude.{
  pos, ℕ, String, ◌≡◌, refl, sym, subst, ◌∙◌, ◌⊎◌, inl, inr, Bool, true, false, ◌||◌, ◌+++◌, List,
  ◌++◌, ok, ◌≤◌, leb, arith, unok, >>=-eq_ok, >>-eq_ok, ensure-eq_ok, ensure-eq_true, &&-both,
}
use event_lead_ops_agent.Texts.{Chars, chars, Unicode, same_chars, ends_with, lower}
use event_lead_ops_agent.Urls.{Parts, urlsplit, hostname}
use event_lead_ops_agent.Config.{
  Value, null, boolean, integer, other, text, list, mapping, Entries, get, is_true, is_one_of,
  as_mapping, positive_integer,
}
use event_lead_ops_agent.Config.Laws.{
  as_mapping-eq_ok, positive_integer-eq_ok, is_true→eq, is_false→eq,
}
use event_lead_ops_agent.Config.Platforms.{
  modes, member, expected_host, is_base_url, validate_base_url, validate_platform,
  validate_platforms,
}

-- A text that is one of the names
abbrev pub IsOneOf : List String → Value → Type 0
IsOneOf names v = (name : String) × (v ≡ text name) × (is_one_of name names ≡ true)

pub member-eq_true :
    (v : Value) (names : List String) {b : Bool}
    → member v names ≡ ok b
    → b ≡ true
    → IsOneOf names v
unfolding member
member-eq_true (text s) names e is = (s, refl, unok e ∙ is)
member-eq_true (list vs) names e is = absurd cc
member-eq_true (mapping entries) names e is = absurd cc
member-eq_true null names e is = absurd cc
member-eq_true (boolean b) names e is = absurd cc
member-eq_true (integer n) names e is = absurd cc
member-eq_true (other s) names e is = absurd cc

-- An HTTPS URL on the host or below it
abbrev pub BaseUrl : Unicode → Chars → Value → Type 0
BaseUrl u expected v =
    (url : String) × (parts : Parts) × (v ≡ text url)
    × (urlsplit u (chars url) ≡ ok parts)
    × (same_chars parts.scheme (chars "https") ≡ true)
    × ((same_chars (lower u (hostname u parts.netloc)) expected ≡ true)
        ⊎ (ends_with (lower u (hostname u parts.netloc)) (chars "." ++ expected) ≡ true))

or_cases : (a b : Bool) → (a || b) ≡ true → (a ≡ true) ⊎ (b ≡ true)
or_cases true b e = inl refl
or_cases false b e = inr e

BaseUrl-validate_base_url :
    (u : Unicode) (source : String) (expected : Chars) (v : Value)
    → expected_host source ≡ ok expected
    → validate_base_url u source v ≡ ok tt
    → BaseUrl u expected v
unfolding validate_base_url
BaseUrl-validate_base_url u source expected (text url) host e =
    let (parts, split, e1) = >>=-eq_ok (urlsplit u (chars url)) _ e in
    let (found, known, e2) = >>=-eq_ok (expected_host source) _ e1 in
    let here : found ≡ expected = unok (sym known ∙ host) in
    let (scheme, on) = &&-both _ _ (
      subst (λ x. is_base_url u x parts ≡ true) here
        (ensure-eq_true (is_base_url u found parts) _ e2)) in
    (url, parts, refl, split, scheme, or_cases _ _ on)
BaseUrl-validate_base_url u source expected null host e = absurd cc
BaseUrl-validate_base_url u source expected (boolean b) host e = absurd cc
BaseUrl-validate_base_url u source expected (integer n) host e = absurd cc
BaseUrl-validate_base_url u source expected (other s) host e = absurd cc
BaseUrl-validate_base_url u source expected (list vs) host e = absurd cc
BaseUrl-validate_base_url u source expected (mapping entries) host e = absurd cc

pub record ValidPlatform (u : Unicode) (expected : Chars) (v : Value) : Type 0 where
  pub platform : Entries
  pub given : v ≡ mapping platform
  pub mode : IsOneOf modes (get "mode" platform)
  pub base_url : BaseUrl u expected (get "base_url" platform)
  pub posting : Entries
  pub given_posting : get "posting" platform ≡ mapping posting
  pub confirmation : get "require_confirmation_artifact" posting ≡ boolean true
  pub cooldown_days : ℕ
  pub cooldown : get "duplicate_cooldown_days" posting ≡ integer (pos cooldown_days)
  pub some_days : 1 ≤ cooldown_days
  pub account : Entries
  pub given_account : get "account" platform ≡ mapping account
  pub posting_off : get "posting_enabled" account ≡ boolean false

ValidPlatform-validate_platform :
    (u : Unicode) (config : Entries) (source : String) (expected : Chars)
    → expected_host source ≡ ok expected
    → validate_platform u config source ≡ ok tt
    → ValidPlatform u expected (get source config)
unfolding validate_platform
ValidPlatform-validate_platform u config source expected host e =
    let (platform, p, e1) = >>=-eq_ok (as_mapping (get source config) source) _ e in
    let (is_mode, m, e2) = >>=-eq_ok (member (get "mode" platform) modes) _ e1 in
    let (mode, e3) = ensure-eq_ok is_mode _ _ e2 in
    let (based, e4) = >>-eq_ok (validate_base_url u source (get "base_url" platform)) _ e3 in
    let (posting, q, e5) =
      >>=-eq_ok (as_mapping (get "posting" platform) (source +++ ".posting")) _ e4 in
    let (confirmed, e6) =
      ensure-eq_ok (is_true (get "require_confirmation_artifact" posting)) _ _ e5 in
    let (days, d, e7) =
      >>=-eq_ok
        (positive_integer (get "duplicate_cooldown_days" posting)
          (source +++ ".posting.duplicate_cooldown_days"))
        _ e6 in
    let (account, a, e8) =
      >>=-eq_ok (as_mapping (get "account" platform) (source +++ ".account")) _ e7 in
    let (cooldown, some_days) = positive_integer-eq_ok _ _ days d in
    record {
      platform = platform;
      given = as_mapping-eq_ok _ _ platform p;
      mode = member-eq_true _ modes m mode;
      base_url = BaseUrl-validate_base_url u source expected _ host based;
      posting = posting;
      given_posting = as_mapping-eq_ok _ _ posting q;
      confirmation = is_true→eq _ confirmed;
      cooldown_days = days;
      cooldown = cooldown;
      some_days = some_days;
      account = account;
      given_account = as_mapping-eq_ok _ _ account a;
      posting_off = is_false→eq _ (ensure-eq_true _ _ e8);
    }

abbrev pub ValidDefaults : Entries → Type 0
ValidDefaults defaults =
    (get "external_writes_require_approval" defaults ≡ boolean true)
    × ((minutes : ℕ) × (get "approval_ttl_minutes" defaults ≡ integer (pos minutes))
        × (1 ≤ minutes)
        × (minutes ≤ 30))

abbrev pub ValidPlatforms : Unicode → Entries → Type 0
ValidPlatforms u config =
    ((defaults : Entries) × (get "defaults" config ≡ mapping defaults) × ValidDefaults defaults)
    × ValidPlatform u (chars "craigslist.org") (get "craigslist" config)
    × ValidPlatform u (chars "facebook.com") (get "facebook_marketplace" config)

-- In a platforms configuration that _validate_platforms accepts, external writes require approval
-- and an approval lives from 1 to 30 minutes. Both platforms have one of the five modes, an HTTPS
-- base URL on the platform's host or below it, a required confirmation artifact, a cooldown of at
-- least one day and posting disabled.
pub validate_platforms-ValidPlatforms :
    (u : Unicode) (config : Entries) → validate_platforms u config ≡ ok tt → ValidPlatforms u config
unfolding validate_platforms expected_host
validate_platforms-ValidPlatforms u config e =
    let (defaults, d, e1) = >>=-eq_ok (as_mapping (get "defaults" config) "defaults") _ e in
    let (approval, e2) =
      ensure-eq_ok (is_true (get "external_writes_require_approval" defaults)) _ _ e1 in
    let (minutes, m, e3) =
      >>=-eq_ok
        (positive_integer (get "approval_ttl_minutes" defaults) "defaults.approval_ttl_minutes") _
        e2 in
    let (short, e4) = ensure-eq_ok (leb minutes 30) _ _ e3 in
    let (craigslist, facebook) = >>-eq_ok (validate_platform u config "craigslist") _ e4 in
    let (given, lasting) = positive_integer-eq_ok _ _ minutes m in
    (
      (
        defaults,
        as_mapping-eq_ok _ _ defaults d,
        (is_true→eq _ approval, (minutes, given, lasting, ground arith)),
      ),
      ValidPlatform-validate_platform u config "craigslist" (chars "craigslist.org") refl
          craigslist,
      ValidPlatform-validate_platform u config "facebook_marketplace" (chars "facebook.com") refl
          facebook,
    )
