-- ===== src/Migrations.antt =====
-- _migration_statements and init_db of db.py. The tables of the database other than
-- schema_migrations are a parameter `S`: the migrations do not write that table.
pub mod Upgrades
use event_lead_ops_agent.Prelude.{
  ℕ, String, Bool, true, false, not, ◌&&◌, ◌||◌, ◌==◌, List, [], ◌∷◌, ◌++◌, Result, ok, err, ◌>>=◌,
  ◌>>◌, raise_if, runtime_error, if◌then◌else◌,
}
use event_lead_ops_agent.Texts.{
  Chars, chars, Unicode, is_empty, same_chars, strip, upper, split_lines,
}
use event_lead_ops_agent.Time.{Stamp, utc}
use event_lead_ops_agent.Schema.Constraints.{exists}

-- A file of the directory: its stem, and its text. The list of them stands for
-- `sorted(directory.glob("*.sql"))`.
pub record Migration : Type 0 where
  pub version : String
  pub sql : Chars

pub record Applied : Type 0 where
  pub version : String
  pub applied_at : Stamp

pub record Database (S : Type 0) : Type 0 where
  pub schema_migrations : List Applied
  pub tables : S

-- What SQLite and the clock do while a migration runs, which is named by its version.
pub record Engine (S : Type 0) : Type 0 where
  -- `sqlite3.complete_statement`
  pub complete_statement : Chars → Bool
  -- `BEGIN IMMEDIATE`, which raises while another connection writes
  pub begin : String → Result (Unit {0})
  pub execute : Chars → S → Result S
  pub clock : String → ℕ

abbrev pub is_connection_pragma : Unicode → Chars → Bool
is_connection_pragma u line =
    let text = upper u (strip line) in
    same_chars text (chars "PRAGMA FOREIGN_KEYS = ON;")
    || same_chars text (chars "PRAGMA JOURNAL_MODE = WAL;")

abbrev unless_empty : Chars → List Chars → List Chars
unless_empty [] statements = statements
unless_empty (c ∷ s) statements = (c ∷ s) ∷ statements

-- The loop over the lines, with the text that is pending
unfoldable pub statements_from : Unicode → (Chars → Bool) → Chars → List Chars → Result (List Chars)
unfolding strip upper same_chars
statements_from u complete pending [] =
    if is_empty (strip pending)
    then ok []
    else err (runtime_error "migration contains an incomplete SQL statement")
statements_from u complete pending (line ∷ lines) =
    let next = pending ++ line in
    let skips = is_connection_pragma u line in
    let closes = not skips && complete next in
    let left = if skips then pending else if closes then [] else next in
    let statement = if closes then strip next else [] in
    statements_from u complete left lines >>= λ statements. ok (unless_empty statement statements)

unfoldable pub migration_statements : Unicode → (Chars → Bool) → Chars → Result (List Chars)
unfolding statements_from split_lines
migration_statements u complete sql = statements_from u complete [] (split_lines sql)

module _ {S : Type 0} (u : Unicode) (engine : Engine S) where
  unfoldable pub execute_all : List Chars → S → Result S
  execute_all [] tables = ok tables
  execute_all (statement ∷ statements) tables = do
    changed ← engine.execute statement tables
    execute_all statements changed

  abbrev pub is_applied : String → Database S → Bool
  is_applied version db = exists (λ row. row.version == version) db.schema_migrations

  abbrev pub with_version : String → S → Database S → Database S
  with_version version tables db = record {
    schema_migrations =
        record { version = version; applied_at = utc (engine.clock version) }
        ∷ db.schema_migrations;
    tables = tables;
  }

  -- The body of the transaction of one migration: a branch that rolls back gives back the database
  -- that it found.
  unfoldable pub migrate_body : Migration → Database S → Result (Database S)
  unfolding migration_statements execute_all
  migrate_body m db = do
    engine.begin m.version
    (if is_applied m.version db
        then ok db
        else (migration_statements u engine.complete_statement m.sql >>= λ statements.
            execute_all statements db.tables >>= λ tables. ok (with_version m.version tables db)))

  -- A migration that was committed, and the loop's rest; an exception rolls back and ends the loop.
  abbrev pub continued :
      Result (Database S)
      → (Database S → Result (Unit {0}) × Database S)
      → Database S
      → Result (Unit {0}) × Database S
  continued (ok changed) rest db = rest changed
  continued (err e) rest db = (err e, db)

  -- The loop over the migrations
  unfoldable pub migrate_all : List Migration → Database S → Result (Unit {0}) × Database S
  unfolding migrate_body
  migrate_all [] db = (ok tt, db)
  migrate_all (m ∷ migrations) db =
      continued (migrate_body m db) (λ changed. migrate_all migrations changed) db

  unfoldable pub init_db : List Migration → Database S → Result (Unit {0}) × Database S
  unfolding migrate_all
  init_db [] db = (err (runtime_error "no database migrations found in "), db)
  init_db (m ∷ migrations) db = migrate_all (m ∷ migrations) db
