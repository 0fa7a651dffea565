-- ===== src/Config/Loading.antt =====
-- load_yaml and load_and_validate_config of config.py. `safe_load` stands for `Path.read_text` and
-- `yaml.safe_load` of a path.
pub mod Accepted
use event_lead_ops_agent.Prelude.{
  String, Bool, ◌==◌, Result, ok, err, Error, ◌>>=◌, ◌>>◌, value_error, if◌then◌else◌,
}
use event_lead_ops_agent.Texts.{Unicode}
use event_lead_ops_agent.Config.{Value, mapping, Entries}
use event_lead_ops_agent.Config.Business.{Zone, validate_business}
use event_lead_ops_agent.Config.Platforms.{validate_platforms}
use event_lead_ops_agent.Config.Scoring.{validate_scoring}
use event_lead_ops_agent.Config.Schedules.{validate_schedules}

abbrev pub expect_mapping : Value → Result Entries
expect_mapping (mapping entries) = ok entries
expect_mapping _ = err (value_error "expected a YAML mapping: ")

unfoldable pub load_yaml : (String → Result Value) → String → Result Entries
load_yaml safe_load path = do value ← safe_load path; expect_mapping value

unfoldable pub validate : Unicode → (String → Zone) → String → Entries → Result (Unit {0})
validate u zone_info kind config =
    if kind == "business"
    then validate_business zone_info config
    else if kind == "platforms"
    then validate_platforms u config
    else if kind == "scoring"
    then validate_scoring config
    else if kind == "schedules"
    then validate_schedules u zone_info config
    else err (value_error "unknown config kind: ")

unfoldable pub load_and_validate_config :
    Unicode → (String → Zone) → (String → Result Value) → String → String → Result Entries
unfolding load_yaml validate
load_and_validate_config u zone_info safe_load path kind = do
  config ← load_yaml safe_load path
  validate u zone_info kind config
  ok config
