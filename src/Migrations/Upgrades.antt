-- ===== src/Migrations/Upgrades.antt =====
-- What init_db of db.py leaves, and what a second call does.
use event_lead_ops_agent.Prelude.{
  String, ◌≡◌, refl, sym, ap, subst, ◌∙◌, ◌⊎◌, inl, inr, Bool, true, false, none, some, List, [],
  ◌∷◌, ◌++◌, Result, ok, err, ◌>>=◌, find, All, unok, >>=-eq_ok, >>-eq_ok, eq→==, Bool-cases,
  if◌then◌else◌,
}
use event_lead_ops_agent.Texts.{Chars, Unicode}
use event_lead_ops_agent.Schema.Constraints.{exists}
use event_lead_ops_agent.Records.Writing.{find-here, find-later}
use event_lead_ops_agent.Migrations.{
  Migration, Database, Engine, migration_statements, execute_all, is_applied, with_version,
  migrate_body, continued, migrate_all, init_db,
}

exists-cons {ℓ} :
    {A : Type ℓ} (p : A → Bool) (x : A) (rows : List A)
    → exists p rows ≡ true
    → exists p (x ∷ rows) ≡ true
unfolding find
exists-cons p x rows there = elim (Bool-cases (p x)) [
  | inl here ↦ ap (λ o. elim o [ none ↦ false | some r ↦ true ]) (find-here p x rows here)
  | inr away ↦ ap (λ o. elim o [ none ↦ false | some r ↦ true ]) (find-later p x rows away) ∙ there
]

module _ {S : Type 0} (u : Unicode) (engine : Engine S) where
  -- A migration that has been applied before changes nothing; another one runs all its statements
  -- and is recorded.
  abbrev pub Step : Migration → Database S → Database S → Type 0
  Step m db mid =
      ((is_applied u engine m.version db ≡ true) × (mid ≡ db))
      ⊎ ((is_applied u engine m.version db ≡ false)
          × ((statements : List Chars) × (tables : S) × (migration_statements u
                  engine.complete_statement m.sql
                ≡ ok statements)
              × (execute_all u engine statements db.tables ≡ ok tables)
              × (mid ≡ with_version u engine m.version tables db)))

  abbrev pub Steps : List Migration → Database S → Database S → Type 0
  Steps [] db db' = db' ≡ db
  Steps (m ∷ migrations) db db' = (mid : Database S) × Step m db mid × Steps migrations mid db'

  Step-migrate_body :
      (m : Migration) (db mid : Database S)
      → migrate_body u engine m db ≡ ok mid
      → (engine.begin m.version ≡ ok tt) × Step m db mid
  unfolding migrate_body
  Step-migrate_body m db mid e =
      let (begun, body) = >>-eq_ok (engine.begin m.version) _ e in
      (begun, ran (is_applied u engine m.version db) refl body)
    where
      ran :
          (b : Bool)
          → is_applied u engine m.version db ≡ b
          → (if b
              then ok db
              else (migration_statements u engine.complete_statement m.sql >>= λ statements.
                  execute_all u engine statements db.tables >>= λ tables.
                  ok (with_version u engine m.version tables db)))
            ≡ ok mid
          → Step m db mid
      ran true there e = inl (there, sym (unok e))
      ran false absent e =
          let (statements, split, e1) =
            >>=-eq_ok (migration_statements u engine.complete_statement m.sql) _ e in
          let (tables, run, done) = >>=-eq_ok (execute_all u engine statements db.tables) _ e1 in
          inr (absent, (statements, tables, split, run, sym (unok done)))

  with_version-is_applied :
      (version : String) (tables : S) (db : Database S)
      → is_applied u engine version (with_version u engine version tables db) ≡ true
  with_version-is_applied version tables db =
      ap (λ o. elim o [ none ↦ false | some r ↦ true ])
        (find-here _ _ db.schema_migrations (eq→== version version refl))

  Step-keeps :
      (m : Migration) (db mid : Database S) (version : String)
      → Step m db mid
      → is_applied u engine version db ≡ true
      → is_applied u engine version mid ≡ true
  Step-keeps m db mid version (inl (before, same)) there =
      subst (λ d. is_applied u engine version d ≡ true) (sym same) there
  Step-keeps m db mid version (inr (absent, (statements, tables, split, run, done))) there =
      subst (λ d. is_applied u engine version d ≡ true) (sym done)
        (exists-cons _ _ db.schema_migrations there)

  Step-applies :
      (m : Migration) (db mid : Database S)
      → Step m db mid
      → is_applied u engine m.version mid ≡ true
  Step-applies m db mid (inl (before, same)) =
      subst (λ d. is_applied u engine m.version d ≡ true) (sym same) before
  Step-applies m db mid (inr (absent, (statements, tables, split, run, done))) =
      subst (λ d. is_applied u engine m.version d ≡ true) (sym done)
        (with_version-is_applied m.version tables db)

  -- The migration that raised, if one did
  abbrev pub Stopped : Result (Unit {0}) → List Migration → Database S → Type 0
  Stopped (ok done) rest db = rest ≡ []
  Stopped (err e) [] db = ⊥
  Stopped (err e) (m ∷ rest) db = migrate_body u engine m db ≡ err e

  abbrev pub Upgraded : List Migration → Database S → Result (Unit {0}) × Database S → Type 0
  Upgraded migrations db (outcome, db') =
      (done : List Migration) × (rest : List Migration) × (migrations ≡ done ++ rest)
      × Steps done db db'
      × Stopped outcome rest db'

  continued-Upgraded :
      (m : Migration) (migrations : List Migration) (db : Database S) (r : Result (Database S))
      → migrate_body u engine m db ≡ r
      → ((mid : Database S) → Upgraded migrations mid (migrate_all u engine migrations mid))
      → Upgraded
          (m ∷ migrations)
          db
          (continued u engine r (λ changed. migrate_all u engine migrations changed) db)
  continued-Upgraded m migrations db (ok mid) ran later =
      let (done, rest, split, steps, stopped) = later mid in
      (
        m ∷ done,
        rest,
        ap (λ l. m ∷ l) split,
        (mid, (Step-migrate_body m db mid ran).1, steps),
        stopped,
      )
  continued-Upgraded m migrations db (err e) ran later = ([], m ∷ migrations, refl, refl, ran)

  Upgraded-migrate_all :
      (migrations : List Migration) (db : Database S)
      → Upgraded migrations db (migrate_all u engine migrations db)
  unfolding migrate_all
  Upgraded-migrate_all [] db = ([], [], refl, refl, refl)
  Upgraded-migrate_all (m ∷ migrations) db =
      continued-Upgraded m migrations db (migrate_body u engine m db) refl
        (λ mid. Upgraded-migrate_all migrations mid)

  -- init_db runs a prefix of the migrations completely, each once and in order, and a migration that
  -- the table already names not at all. If it returns, the prefix is the whole list; if it raises,
  -- the database is as the prefix left it, and the next migration raised that exception.
  pub init_db-Upgraded :
      (m : Migration) (migrations : List Migration) (db : Database S)
      → Upgraded (m ∷ migrations) db (init_db u engine (m ∷ migrations) db)
  unfolding init_db
  init_db-Upgraded m migrations db = Upgraded-migrate_all (m ∷ migrations) db

  -- Every migration has been applied, and none waits for a lock.
  abbrev pub Settled : List Migration → Database S → Type 0
  Settled migrations db =
      All (λ m. (engine.begin m.version ≡ ok tt) × (is_applied u engine m.version db ≡ true))
        migrations

  Steps-keeps :
      (migrations : List Migration) (db db' : Database S) (version : String)
      → Steps migrations db db'
      → is_applied u engine version db ≡ true
      → is_applied u engine version db' ≡ true
  Steps-keeps [] db db' version same there =
      subst (λ d. is_applied u engine version d ≡ true) (sym same) there
  Steps-keeps (m ∷ migrations) db db' version (mid, step, steps) there =
      Steps-keeps migrations mid db' version steps (Step-keeps m db mid version step there)

  migrate_body-applied :
      (m : Migration) (db : Database S)
      → engine.begin m.version ≡ ok tt
      → is_applied u engine m.version db ≡ true
      → migrate_body u engine m db ≡ ok db
  unfolding migrate_body
  migrate_body-applied m db begun there = rw (begun, there) refl

  migrate_all-Settled :
      (migrations : List Migration) (db : Database S)
      → Settled migrations db
      → migrate_all u engine migrations db ≡ (ok tt, db)
  unfolding migrate_all
  migrate_all-Settled [] db settled = refl
  migrate_all-Settled (m ∷ migrations) db ((begun, there), settled) =
      ap (λ r. continued u engine r (λ changed. migrate_all u engine migrations changed) db)
        (migrate_body-applied m db begun there)
      ∙ migrate_all-Settled migrations db settled

  Settled-migrate_all :
      (migrations : List Migration) (db db' : Database S)
      → migrate_all u engine migrations db ≡ (ok tt, db')
      → Settled migrations db' × Steps migrations db db'
  unfolding migrate_all
  Settled-migrate_all [] db db' e = (tt, ap (λ r. r.1) (sym e))
  Settled-migrate_all (m ∷ migrations) db db' e =
      continued-Settled (migrate_body u engine m db) refl
        (λ mid. Settled-migrate_all migrations mid db') e
    where
      continued-Settled :
          (r : Result (Database S))
          → migrate_body u engine m db ≡ r
          → ((mid : Database S)
              → migrate_all u engine migrations mid ≡ (ok tt, db')
              → Settled migrations db' × Steps migrations mid db')
          → continued u engine r (λ changed. migrate_all u engine migrations changed) db
            ≡ (ok tt, db')
          → Settled (m ∷ migrations) db' × Steps (m ∷ migrations) db db'
      continued-Settled (ok mid) ran later e =
          let (begun, step) = Step-migrate_body m db mid ran in
          let (settled, steps) = later mid e in
          (
            (
              (begun, Steps-keeps migrations mid db' m.version steps (Step-applies m db mid step)),
              settled,
            ),
            (mid, step, steps),
          )
      continued-Settled (err x) ran later e = absurd (cc (ap (λ r. r.0) e))

  -- After a call of init_db that returned, every migration is named in schema_migrations, and a
  -- second call with the same migrations returns and changes nothing.
  pub init_db-again :
      (migrations : List Migration) (db db' : Database S)
      → init_db u engine migrations db ≡ (ok tt, db')
      → Settled migrations db' × (init_db u engine migrations db' ≡ (ok tt, db'))
  unfolding init_db
  init_db-again [] db db' e = absurd (cc (ap (λ r. r.0) e))
  init_db-again (m ∷ migrations) db db' e =
      let (settled, steps) = Settled-migrate_all (m ∷ migrations) db db' e in
      (settled, migrate_all-Settled (m ∷ migrations) db' settled)
