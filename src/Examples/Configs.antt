-- ===== src/Examples/Configs.antt =====
-- Tests of the configuration's validators.
use event_lead_ops_agent.Prelude.{
  pos, ◌≡◌, refl, ℕ, String, Result, ok, err, value_error, type_error, true, false, ◌==◌,
  if◌then◌else◌,
}
use event_lead_ops_agent.Texts.{chars, split_words}
use event_lead_ops_agent.Config.{
  Key, named, Value, null, boolean, integer, text, list, mapping, Values, end_values, value,
  Entries, end_entries, entry,
}
use event_lead_ops_agent.Config.Business.{Zone, found, not_found}
use event_lead_ops_agent.Config.Scoring.{validate_scoring}
use event_lead_ops_agent.Config.Scoring.Bounds.{ValidScoring, validate_scoring-ValidScoring}
use event_lead_ops_agent.Config.Platforms.{validate_platforms}
use event_lead_ops_agent.Config.Platforms.Gates.{ValidPlatforms, validate_platforms-ValidPlatforms}
use event_lead_ops_agent.Config.Schedules.{validate_schedules}
use event_lead_ops_agent.Config.Schedules.Jobs.{ValidSchedules, validate_schedules-ValidSchedules}
use event_lead_ops_agent.Config.Cron.{validate_cron, cron_ranges}
use event_lead_ops_agent.Config.Cron.Ranges.{Fields, validate_cron-Fields}
use event_lead_ops_agent.Config.Loading.{load_and_validate_config}
use event_lead_ops_agent.Config.Loading.Accepted.{Accepted, load_and_validate_config-Accepted}
use event_lead_ops_agent.Examples.Urls.{ascii}

abbrev with : String → Value → Entries → Entries
with name v entries = entry (named name) v entries

abbrev with_number : String → ℕ → Entries → Entries
with_number name n entries = entry (named name) (integer (pos n)) entries

abbrev weights : Entries
weights = with_number "explicit_event_intent" 25 (
    with_number "recency" 15 (
      with_number "service_area_fit" 15 (
        with_number "offer_fit" 15 (
          with_number "budget_or_price_signal" 10 (
            with_number "contactability" 10
              (with_number "cross_source_match" 5 (with_number "urgency" 5 end_entries)))))))

abbrev pub scoring : Entries
scoring = with "weights" (mapping weights) (
    with "thresholds"
      (mapping (
        with_number "hot" 80 (
          with_number "qualified" 60
            (with_number "review" 40 (with_number "archive_below" 40 end_entries)))))
      (with "recency_days"
        (mapping (with_number "maximum" 30 (with_number "full_score_through" 2 end_entries)))
        end_entries))

accepts_scoring : validate_scoring scoring ≡ ok tt
unfolding validate_scoring event_lead_ops_agent.Config.get event_lead_ops_agent.Config.has_key
    event_lead_ops_agent.Config.values
accepts_scoring = refl

validate_scoring-ValidScoring_example : ValidScoring scoring
validate_scoring-ValidScoring_example = validate_scoring-ValidScoring scoring accepts_scoring

abbrev platform : String → Value → Entries
platform url mode = with "mode" mode (
    with "base_url" (text url) (
      with "posting"
        (mapping (
          with "require_confirmation_artifact" (boolean true)
            (with_number "duplicate_cooldown_days" 30 end_entries)))
        (with "account" (mapping (with "posting_enabled" (boolean false) end_entries))
          end_entries)))

abbrev platforms : Value → Entries
platforms mode =
    with "defaults"
      (mapping (
        with "external_writes_require_approval" (boolean true)
          (with_number "approval_ttl_minutes" 30 end_entries)))
      (with "craigslist" (mapping (platform "https://tampa.craigslist.org" mode)) (
        with "facebook_marketplace"
          (mapping (platform "https://www.facebook.com/marketplace" (text "draft"))) end_entries))

accepts_platforms : validate_platforms ascii (platforms (text "observe")) ≡ ok tt
unfolding validate_platforms event_lead_ops_agent.Config.get event_lead_ops_agent.Config.is_one_of
    event_lead_ops_agent.Urls.urlsplit event_lead_ops_agent.Texts.has_char
    event_lead_ops_agent.Texts.starts_with event_lead_ops_agent.Texts.partition
    event_lead_ops_agent.Texts.all_chars event_lead_ops_agent.Texts.span
    event_lead_ops_agent.Texts.drop event_lead_ops_agent.Texts.same_chars
    event_lead_ops_agent.Texts.lower event_lead_ops_agent.Urls.hostname
    event_lead_ops_agent.Texts.after_last event_lead_ops_agent.Texts.ends_with
accepts_platforms = refl

validate_platforms-ValidPlatforms_example : ValidPlatforms ascii (platforms (text "observe"))
validate_platforms-ValidPlatforms_example =
    validate_platforms-ValidPlatforms ascii (platforms (text "observe")) accepts_platforms

-- A mode that is a list has no hash.
refuses_list :
    validate_platforms ascii (platforms (list end_values))
    ≡ err (type_error "unhashable type: 'list'")
unfolding validate_platforms event_lead_ops_agent.Config.get
refuses_list = refl

accepts_cron : validate_cron ascii (chars "*/15 8-18 1,15 * 1-5") "jobs[0].schedule" ≡ ok tt
unfolding validate_cron split_words event_lead_ops_agent.Texts.split_at
    event_lead_ops_agent.Texts.all_chars event_lead_ops_agent.Config.Cron.int_of
    event_lead_ops_agent.Texts.is_decimal event_lead_ops_agent.Texts.same_chars
accepts_cron = refl

validate_cron-Fields_example : Fields ascii (split_words (chars "*/15 8-18 1,15 * 1-5")) cron_ranges
validate_cron-Fields_example =
    validate_cron-Fields ascii (chars "*/15 8-18 1,15 * 1-5") "jobs[0].schedule" accepts_cron

refuses_reversed :
    validate_cron ascii (chars "0 18-8 * * *") "jobs[0].schedule"
    ≡ err (value_error "jobs[0].schedule cron range is reversed")
unfolding validate_cron split_words event_lead_ops_agent.Texts.split_at
    event_lead_ops_agent.Texts.same_chars event_lead_ops_agent.Texts.all_chars
    event_lead_ops_agent.Config.Cron.int_of event_lead_ops_agent.Texts.is_decimal
refuses_reversed = refl

abbrev pub zone_info : String → Zone
zone_info key = if key == "America/New_York" then found else not_found

abbrev schedules : Entries
schedules = with "timezone" (text "America/New_York") (
    with "jobs"
      (list (
        value
          (mapping (
            with "id" (text "observe-craigslist")
              (with "schedule" (text "0 8 * * 1-5") (with "mode" (text "observe") end_entries))))
          (value
            (mapping (
              with "id" (text "draft-replies") (
                with "schedule" (text "*/30 9-17 * * *") (with "mode" (text "draft") end_entries))))
            end_values)))
      end_entries)

accepts_schedules : validate_schedules ascii zone_info schedules ≡ ok tt
unfolding validate_schedules event_lead_ops_agent.Config.get event_lead_ops_agent.Config.listed
    event_lead_ops_agent.Config.is_one_of validate_cron split_words
    event_lead_ops_agent.Texts.split_at event_lead_ops_agent.Texts.same_chars
    event_lead_ops_agent.Texts.all_chars event_lead_ops_agent.Config.Cron.int_of
    event_lead_ops_agent.Texts.is_decimal event_lead_ops_agent.Config.Platforms.member
accepts_schedules = refl

validate_schedules-ValidSchedules_example : ValidSchedules ascii zone_info schedules
validate_schedules-ValidSchedules_example =
    validate_schedules-ValidSchedules ascii zone_info schedules accepts_schedules

abbrev safe_load : String → Result Value
safe_load path = ok (mapping schedules)

loads :
    load_and_validate_config ascii zone_info safe_load "config/schedules.yaml" "schedules"
    ≡ ok schedules
unfolding load_and_validate_config validate_schedules event_lead_ops_agent.Config.get
    event_lead_ops_agent.Config.listed event_lead_ops_agent.Config.is_one_of validate_cron
    split_words event_lead_ops_agent.Texts.split_at event_lead_ops_agent.Texts.same_chars
    event_lead_ops_agent.Texts.all_chars event_lead_ops_agent.Config.Cron.int_of
    event_lead_ops_agent.Texts.is_decimal event_lead_ops_agent.Config.Platforms.member
loads = refl

load_and_validate_config-Accepted_example :
    (safe_load "config/schedules.yaml" ≡ ok (mapping schedules))
    × Accepted ascii zone_info "schedules" schedules
load_and_validate_config-Accepted_example =
    load_and_validate_config-Accepted ascii zone_info safe_load "config/schedules.yaml" "schedules"
      schedules loads
