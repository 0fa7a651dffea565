-- ===== src/Config/Platforms.antt =====
-- _validate_base_url and _validate_platforms of config.py.
pub mod Gates
use event_lead_ops_agent.Prelude.{
  ℕ, String, Bool, true, false, not, ◌&&◌, ◌||◌, ◌==◌, ◌+++◌, List, [], ◌∷◌, ◌++◌, Result, ok, err,
  ◌>>=◌, ◌>>◌, ensure, value_error, type_error, key_error, leb, if◌then◌else◌,
}
use event_lead_ops_agent.Texts.{Chars, chars, Unicode, same_chars, ends_with, lower}
use event_lead_ops_agent.Urls.{Parts, urlsplit, hostname}
use event_lead_ops_agent.Config.{
  Value, text, list, mapping, Entries, get, is_true, is_false, is_one_of, as_mapping,
  positive_integer,
}

abbrev pub modes : List String
modes = "disabled" ∷ "observe" ∷ "draft" ∷ "approved_write" ∷ "template_reply" ∷ []

-- `value in names` of a set of texts, which asks for the value's hash
unfoldable pub member : Value → List String → Result Bool
member (text s) names = ok (is_one_of s names)
member (list vs) names = err (type_error "unhashable type: 'list'")
member (mapping entries) names = err (type_error "unhashable type: 'dict'")
member _ names = ok false

unfoldable pub expected_host : String → Result Chars
expected_host source =
    if source == "craigslist"
    then ok (chars "craigslist.org")
    else if source == "facebook_marketplace"
    then ok (chars "facebook.com")
    else err (key_error source)

abbrev pub is_base_url : Unicode → Chars → Parts → Bool
is_base_url u expected parts =
    let host = lower u (hostname u parts.netloc) in
    same_chars parts.scheme (chars "https")
    && (same_chars host expected || ends_with host (chars "." ++ expected))

unfoldable pub validate_base_url : Unicode → String → Value → Result (Unit {0})
unfolding expected_host
validate_base_url u source (text url) = do
  parts ← urlsplit u (chars url)
  expected ← expected_host source
  ensure (is_base_url u expected parts) (value_error (source +++ ".base_url must use HTTPS on "))
validate_base_url u source _ = err (value_error (source +++ ".base_url is required"))

-- The body of the loop over the sources
unfoldable pub validate_platform : Unicode → Entries → String → Result (Unit {0})
unfolding member validate_base_url
validate_platform u config source = do
  platform ← as_mapping (get source config) source
  is_mode ← member (get "mode" platform) modes
  ensure is_mode (value_error ("invalid mode for " +++ source))
  validate_base_url u source (get "base_url" platform)
  posting ← as_mapping (get "posting" platform) (source +++ ".posting")
  ensure (is_true (get "require_confirmation_artifact" posting))
      (value_error (source +++ " must require a confirmation artifact"))
  cooldown ←
      positive_integer (get "duplicate_cooldown_days" posting)
        (source +++ ".posting.duplicate_cooldown_days")
  account ← as_mapping (get "account" platform) (source +++ ".account")
  ensure (is_false (get "posting_enabled" account))
      (value_error (source +++ ".account.posting_enabled must default false"))

unfoldable pub validate_platforms : Unicode → Entries → Result (Unit {0})
unfolding validate_platform
validate_platforms u config = do
  defaults ← as_mapping (get "defaults" config) "defaults"
  ensure (is_true (get "external_writes_require_approval" defaults))
      (value_error "external writes must require approval")
  approval_ttl ←
      positive_integer (get "approval_ttl_minutes" defaults) "defaults.approval_ttl_minutes"
  ensure (leb approval_ttl 30) (value_error "defaults.approval_ttl_minutes cannot exceed 30")
  validate_platform u config "craigslist"
  validate_platform u config "facebook_marketplace"
