-- ===== src/Examples/Upgrades.antt =====
-- Tests of connect and of init_db.
use event_lead_ops_agent.Prelude.{
  ℕ, zero, suc, String, ◌≡◌, ◌↔◌, refl, Bool, true, false, Option, none, some, List, [], ◌∷◌, ◌++◌,
  Result, ok, err, Error, runtime_error, operational_error, permission_error, if◌then◌else◌, inl,
  inr,
}
use event_lead_ops_agent.Texts.{Chars, chars, strip, ends_with, has_text}
use event_lead_ops_agent.Migrations.{Migration, Database, Engine, migration_statements, init_db}
use event_lead_ops_agent.Migrations.Upgrades.{Settled, Upgraded, init_db-Upgraded, init_db-again}
use event_lead_ops_agent.Connection.{Disk, Answers, Attempt, journal_mode, refused, connect}
use event_lead_ops_agent.Connection.Opening.{
  Admitted, Prepared, Opens, OwnerOnly, connect_iff, connect-OwnerOnly,
}
use event_lead_ops_agent.Examples.Urls.{ascii}

abbrev fails : Chars → Bool
fails statement = has_text (chars "broken") statement

-- A store of the statements that were run
abbrev engine : Engine (List Chars)
engine = record {
  complete_statement = λ text. ends_with (strip text) (chars ";");
  begin = λ version. ok tt;
  execute = λ statement tables.
      if fails statement then err (operational_error "syntax error") else ok (statement ∷ tables);
  clock = λ version. 500;
}

abbrev pub initial : Migration
initial = record {
  version = "001_initial";
  sql =
      chars
        "PRAGMA foreign_keys = ON;\n\nCREATE TABLE a (\n  id TEXT\n);\nCREATE TABLE b (id TEXT);\n";
}

abbrev broken : Migration
broken = record { version = "002_broken"; sql = chars "CREATE TABLE c (id TEXT);\nbroken;\n" }

splits :
    migration_statements ascii engine.complete_statement initial.sql
    ≡ ok (chars "CREATE TABLE a (\n  id TEXT\n);" ∷ chars "CREATE TABLE b (id TEXT);" ∷ [])
unfolding migration_statements ends_with
splits = refl

refuses_incomplete :
    migration_statements ascii engine.complete_statement (chars "CREATE TABLE a (\n")
    ≡ err (runtime_error "migration contains an incomplete SQL statement")
unfolding migration_statements ends_with
refuses_incomplete = refl

abbrev unmigrated : Database (List Chars)
unmigrated = record { schema_migrations = []; tables = [] }

migrated : Database (List Chars)
unfolding init_db
migrated = (init_db ascii engine (initial ∷ []) unmigrated).1

migrates : init_db ascii engine (initial ∷ []) unmigrated ≡ (ok tt, migrated)
unfolding init_db migrated event_lead_ops_agent.Prelude.find ends_with has_text
migrates = refl

init_db-again_example :
    Settled ascii engine (initial ∷ []) migrated
    × (init_db ascii engine (initial ∷ []) migrated ≡ (ok tt, migrated))
init_db-again_example = init_db-again ascii engine (initial ∷ []) unmigrated migrated migrates

init_db-Upgraded_example :
    Upgraded ascii engine
      (initial ∷ broken ∷ [])
      unmigrated
      (init_db ascii engine (initial ∷ broken ∷ []) unmigrated)
init_db-Upgraded_example = init_db-Upgraded ascii engine initial (broken ∷ []) unmigrated

-- The second migration fails, and its first statement leaves nothing.
keeps_first :
    init_db ascii engine (initial ∷ broken ∷ []) unmigrated
    ≡ (err (operational_error "syntax error"), migrated)
unfolding init_db migrated event_lead_ops_agent.Prelude.find ends_with has_text
keeps_first = refl

abbrev pub attempts : ℕ → Attempt
attempts zero = refused "database is locked"
attempts (suc n) = journal_mode "wal"

abbrev pub no_disk : Disk
no_disk = record { parent = none; file = none }

abbrev pub answers : Answers
answers = record {
  looks = none;
  makes_directory = none;
  made_mode = 448;
  sets_directory_mode = none;
  opens = none;
  created_mode = 384;
  sets_file_mode = none;
  connects = none;
  sets_timeout = none;
  sets_foreign_keys = none;
}

connects : (connect ascii answers attempts no_disk).0 ≡ ok tt
unfolding connect
connects = refl

connect_iff_example : ((connect ascii answers attempts no_disk).0 ≡ ok tt) ↔ (
    (answers.looks ≡ none)
    × Admitted ascii answers attempts no_disk
    × Prepared ascii answers attempts
    × Opens ascii attempts 29 0)
connect_iff_example = connect_iff ascii answers attempts no_disk

connect-OwnerOnly_example : OwnerOnly (connect ascii answers attempts no_disk).1
connect-OwnerOnly_example = connect-OwnerOnly ascii answers attempts no_disk connects

-- A directory that the owner cannot write is admitted, and the file is not made.
refuses_unwritable :
    connect ascii
      (record answers { opens = some (permission_error "unable to open") })
      attempts
      (record { parent = some 320; file = none })
    ≡ (err (permission_error "unable to open"), record { parent = some 320; file = none })
unfolding connect
refuses_unwritable = refl

refuses_shared : connect ascii answers attempts (record { parent = some 493; file = none }) ≡ (
  err (permission_error "database parent must be owner-only (0700 or stricter): "),
  record { parent = some 493; file = none },
)
unfolding connect
refuses_shared = refl
