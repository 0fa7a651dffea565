-- ===== src/Cli.antt =====
-- main of cli.py, after its arguments have been parsed; what it prints is its result.
use event_lead_ops_agent.Prelude.{
  ℕ, String, true, ◌==◌, Option, some, List, [], ◌∷◌, Result, ok, err, ◌>>=◌, if◌then◌else◌,
}
use event_lead_ops_agent.Texts.{Unicode, length}
use event_lead_ops_agent.Time.{utc}
use event_lead_ops_agent.Schema.{ApproverRow, Db}
use event_lead_ops_agent.Registry.{HealthView, Summary, status_summary, record_authorized_approver}
use event_lead_ops_agent.Records.{RecordRow}
use event_lead_ops_agent.Migrations.{Migration, Database, Engine, init_db}
use event_lead_ops_agent.Connection.{Disk, Answers, Attempt, connect}
use event_lead_ops_agent.Config.{Value, canonical_source}
use event_lead_ops_agent.Config.Business.{Zone}
use event_lead_ops_agent.Config.Loading.{load_and_validate_config}

pub data Command : Type 0 where
  init_database status : Command
  health : Option String → Command
  validate_config : String → String → Command
  add_approver : String → String → String → Command

-- The database's tables, those of the store and the records of the sources
pub record Stored : Type 0 where
  pub store : Db
  pub source_records : List RecordRow

pub record World : Type 0 where
  pub disk : Disk
  pub database : Database Stored

-- What a call takes from outside: the answers to connect and the journal's attempts, the migrations, SQLite, the files and the
-- clock.
pub record Surroundings : Type 0 where
  pub unicode : Unicode
  pub answers : Answers
  pub attempts : ℕ → Attempt
  pub migrations : List Migration
  pub engine : Engine Stored
  pub safe_load : String → Result Value
  pub zone_info : String → Zone
  pub now : ℕ

pub data Printed : Type 0 where
  valid : String → String → Printed
  initialized : Printed
  registered : String → Printed
  summary : ℕ → Summary → Printed

-- `[x for x in summary["health"] if x["source"] == source]`
unfoldable pub health_of : String → List HealthView → List HealthView
health_of source [] = []
health_of source (view ∷ views) =
    let rest = health_of source views in if view.source == source then view ∷ rest else rest

abbrev print_summary : Stored → List HealthView → Printed
print_summary tables views =
    summary (length tables.source_records) (record (status_summary tables.store) { health = views })

-- The command, on the database that connect and init_db have prepared
unfoldable pub perform_command :
    Surroundings → Command → Database Stored → Result Printed × Database Stored
unfolding status_summary record_authorized_approver health_of canonical_source
perform_command o (add_approver provider external_user_id operator_alias) d =
    let row : ApproverRow = record {
      provider = provider;
      external_user_id = external_user_id;
      operator_alias = operator_alias;
      active = true;
      created_at = utc o.now;
      updated_at = utc o.now;
    } in
    let (outcome, store) = record_authorized_approver row d.tables.store in
    (
      outcome >>= λ done. ok (registered provider),
      record d { tables = record d.tables { store = store } },
    )
perform_command o (health (some source)) d =
    let views = (status_summary d.tables.store).health in
    (
      if source == ""
          then ok (print_summary d.tables views)
          else canonical_source o.unicode source >>= λ name.
              ok (print_summary d.tables (health_of name views)),
      d,
    )
perform_command o (validate_config kind path) d = (ok (valid kind path), d)
perform_command o init_database d = (ok initialized, d)
perform_command o _ d = (ok (print_summary d.tables (status_summary d.tables.store).health), d)

abbrev pub on_database : World → Result Printed × Database Stored → Result Printed × World
on_database world (printed, database) = (printed, record world { database = database })

unfoldable pub after_init_db :
    Surroundings → Command → World → Result (Unit {0}) × Database Stored → Result Printed × World
unfolding perform_command
after_init_db o command world (ok done, database) =
    on_database world (perform_command o command database)
after_init_db o command world (err e, database) = (err e, record world { database = database })

unfoldable pub after_connect :
    Surroundings → Command → World → Result (Unit {0}) × Disk → Result Printed × World
unfolding after_init_db
after_connect o command world (ok done, disk) =
    after_init_db o command (record world { disk = disk })
      (init_db o.unicode o.engine o.migrations world.database)
after_connect o command world (err e, disk) = (err e, record world { disk = disk })

unfoldable pub main : Surroundings → Command → World → Result Printed × World
unfolding after_connect
main o (validate_config kind path) world = (
  load_and_validate_config o.unicode o.zone_info o.safe_load path kind >>= λ config.
      ok (valid kind path),
  world,
)
main o command world =
    after_connect o command world (connect o.unicode o.answers o.attempts world.disk)
