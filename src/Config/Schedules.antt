-- ===== src/Config/Schedules.antt =====
-- _validate_schedules of config.py.
pub mod Jobs
use event_lead_ops_agent.Prelude.{
  ℕ, suc, String, Bool, true, false, not, ◌&&◌, ◌||◌, ◌==◌, ◌+++◌, List, [], ◌∷◌, Result, ok, err,
  ◌>>=◌, ◌>>◌, ensure, value_error, if◌then◌else◌,
}
use event_lead_ops_agent.Host.{decimal}
use event_lead_ops_agent.Texts.{chars, Unicode}
use event_lead_ops_agent.Config.{Value, text, Entries, get, is_one_of, as_mapping}
use event_lead_ops_agent.Config.Platforms.{member}
use event_lead_ops_agent.Config.Business.{Zone, check_zone, text_of, as_filled_list}
use event_lead_ops_agent.Config.Cron.{validate_cron}

abbrev pub is_text_value : Value → Bool
is_text_value (text s) = true
is_text_value _ = false

-- `isinstance(value, str) and value`
abbrev pub is_nonempty_text : Value → Bool
is_nonempty_text (text s) = not (s == "")
is_nonempty_text _ = false

unfoldable pub validate_job : Unicode → ℕ → Entries → List String → Result (Unit {0})
unfolding decimal
validate_job u index job ids = do
  let name = "jobs[" +++ (decimal index +++ "].schedule")
  let id = get "id" job
  ensure (is_nonempty_text id && not (is_one_of (text_of id) ids))
      (value_error "schedule job IDs must be unique non-empty strings")
  let schedule = get "schedule" job
  ensure (is_nonempty_text schedule) (value_error (name +++ " is required"))
  validate_cron u (chars (text_of schedule)) name
  is_mode ← member (get "mode" job) ("observe" ∷ "draft" ∷ [])
  ensure is_mode (value_error "scheduled jobs may only use observe or draft mode")

-- The loop over the jobs, with the IDs seen so far
unfoldable pub validate_jobs : Unicode → ℕ → List Value → List String → Result (Unit {0})
unfolding decimal validate_job
validate_jobs u index [] ids = ok tt
validate_jobs u index (v ∷ jobs) ids = do
  job ← as_mapping v ("jobs[" +++ (decimal index +++ "]"))
  validate_job u index job ids
  validate_jobs u (suc index) jobs (text_of (get "id" job) ∷ ids)

unfoldable pub validate_schedules : Unicode → (String → Zone) → Entries → Result (Unit {0})
unfolding validate_jobs
validate_schedules u zone_info config = do
  let timezone = get "timezone" config
  ensure (is_text_value timezone) (value_error "timezone is required")
  check_zone (zone_info (text_of timezone)) "timezone must be a valid IANA timezone"
  jobs ← as_filled_list (get "jobs" config) "jobs must be a non-empty list"
  validate_jobs u 0 jobs []
