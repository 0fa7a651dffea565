-- ===== src/Examples/Commands.antt =====
-- Tests of the command line.
use event_lead_ops_agent.Prelude.{
  ◌≡◌, refl, Option, none, some, List, [], ◌∷◌, Result, ok, err, permission_error, value_error,
}
use event_lead_ops_agent.Schema.{empty}
use event_lead_ops_agent.Migrations.{Database, Engine, Migration}
use event_lead_ops_agent.Texts.{strip, chars, ends_with}
use event_lead_ops_agent.Config.{mapping}
use event_lead_ops_agent.Cli.{
  init_database, health, validate_config, add_approver, World, Surroundings, valid, initialized,
  registered, main,
}
use event_lead_ops_agent.Examples.Urls.{ascii}
use event_lead_ops_agent.Examples.Configs.{scoring, zone_info}
use event_lead_ops_agent.Examples.Upgrades.{answers, attempts, no_disk, initial}

abbrev surroundings : Surroundings
surroundings = record {
  unicode = ascii;
  answers = answers;
  attempts = attempts;
  migrations = initial ∷ [];
  engine = record {
    complete_statement = λ text. ends_with (strip text) (chars ";");
    begin = λ version. ok tt;
    execute = λ statement stored. ok stored;
    clock = λ version. 500;
  };
  safe_load = λ path. ok (mapping scoring);
  zone_info = zone_info;
  now = 600;
}

abbrev new_world : World
new_world = record {
  disk = no_disk;
  database = record {
    schema_migrations = [];
    tables = record { store = empty; source_records = [] };
  };
}

validates :
    main surroundings (validate_config "scoring" "config/scoring.yaml") new_world
    ≡ (ok (valid "scoring" "config/scoring.yaml"), new_world)
unfolding main event_lead_ops_agent.Config.Loading.load_and_validate_config
    event_lead_ops_agent.Config.Scoring.validate_scoring event_lead_ops_agent.Config.get
    event_lead_ops_agent.Config.has_key event_lead_ops_agent.Config.values
validates = refl

initializes : (main surroundings init_database new_world).0 ≡ ok initialized
unfolding main event_lead_ops_agent.Connection.connect event_lead_ops_agent.Migrations.init_db
    event_lead_ops_agent.Prelude.find ends_with
initializes = refl

registers :
    (main surroundings (add_approver "slack" "U1" "owner") new_world).0 ≡ ok (registered "slack")
unfolding main event_lead_ops_agent.Connection.connect event_lead_ops_agent.Migrations.init_db
    event_lead_ops_agent.Prelude.find ends_with
registers = refl

refuses_source :
    (main surroundings (health (some "myspace")) new_world).0 ≡ err (value_error "unknown source: ")
unfolding main event_lead_ops_agent.Connection.connect event_lead_ops_agent.Migrations.init_db
    event_lead_ops_agent.Prelude.find ends_with
refuses_source = refl

refuses_shared_directory :
    (main surroundings init_database
      (record new_world { disk = record { parent = some 493; file = none } })).0
    ≡ err (permission_error "database parent must be owner-only (0700 or stricter): ")
unfolding main event_lead_ops_agent.Connection.connect
refuses_shared_directory = refl
