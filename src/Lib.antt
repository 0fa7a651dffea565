-- ===== src/Lib.antt =====
-- The approval-gated action store of event-lead-ops: a proposed action on a marketplace (publishing a
-- listing, sending a reply) is approved by an operator, reserved by one executor, handed to the
-- platform, and ended with evidence. The store is a SQLite database that several processes use; its
-- module is src/event_lead_ops/db.py, with policy.py, profile_lock.py and models.py beside it and the
-- tables and triggers in migrations/*.sql.
--
-- The parts, in the order of an action's life:
--   * Proposals (create_proposed_action, get_proposed_action) and Proposals/Retry
--     (create_retry_proposed_action): payload hashes, idempotency keys, campaign cooldowns;
--   * Approvals (create_approval): an active approver, an expiry within 30 minutes;
--   * Executions/Begin (begin_approved_action): the gates, the reservation and its one-use token,
--     replays and stale executions; Executions/Submit (mark_action_submitting): the token is spent;
--     Executions/Finish (finish_action) with Executions/Evidence (_validate_action_evidence);
--   * Registry: the tables of the operators (record_source_policy, record_authorized_approver,
--     record_source_health, upsert_campaign) and status_summary;
--   * Policy (policy.py), ProfileLock (assert_owned and lease_id of profile_lock.py) and
--     ProfileLock/Entry (__enter__ and __exit__, over what the system answers: `Answers`), Models
--     (models.py), Json (json.dumps, as db.py and policy.py call it), Time (iso and
--     _parse_database_timestamp), Host (what the program takes from its environment);
--   * Sources (canonicalize_url and listing_id_from_url of sources/craigslist.py and
--     sources/facebook_marketplace.py), which finish_action calls on the platform's URL; Texts and
--     Urls: the methods of `str` and the parts of urllib.parse that the code calls;
--   * Records (upsert_source_record, with the table source_records) and its proofs in
--     Records/Writing;
--   * Connection (connect) and Migrations (_migration_statements, init_db): the database's file and
--     its schema;
--   * Config (config.py): the values of a YAML file, the validators of its four kinds
--     (Config/Business, Config/Platforms, Config/Scoring, Config/Schedules with Config/Cron) and
--     load_and_validate_config (Config/Loading);
--   * Cli (main of cli.py): a command on the database that Connection and Migrations prepare;
--   * Schema and Schema/Constraints: the rows, and the statements with the keys, foreign keys and
--     triggers that SQLite checks for them; Transaction: BEGIN IMMEDIATE with commit and rollback;
--   * Lifecycle: the abstract machine of proposals, approvals and actions, its invariant
--     (Lifecycle/Invariant), and that the calls implement it (Lifecycle/Statements,
--     Lifecycle/Refines), and how an action may change (Lifecycle/History);
--   * System: sequences of calls. Each call of the store is one immediate transaction or one
--     statement, so calls that run at once are a sequence of calls in some order;
--   * Prelude: Boolean tests, results with `do`, tables as lists of rows; Examples: a small world,
--     witnesses and tests.
--
-- How the code is modelled. A call is a function from its arguments, what it draws (UUIDs, tokens),
-- its readings of the clock and the database to a result and the database it leaves; an exception is
-- an `err` with its class and its message, less the values that an f-string appends. A table is a
-- list of rows with the newest first. SHA-256, json.loads, json_valid, the resolution of paths and
-- the files are parameters (`Host`, `Files`). The theorems on finish_action hold for any canonicalize_url and
-- listing_id_from_url of the two sources (`Sites`); Sources.sites_of fills in the repository's. The
-- tables of Unicode (`Unicode`), yaml.safe_load, ZoneInfo, isoformat, and SQLite's parser and
-- execution of statements (`Engine`) are parameters too. The profile lock is given by what each round of assert_owned sees of the
-- file, the process and the kernel (`Sighting`). An instant is a number of microseconds, and a stored
-- timestamp is the instant it names, a time without an offset, or a text that is no timestamp. A
-- duration is a natural number: a negative one takes the branch that the code gives zero. A cutoff
-- before the first instant is the first instant. Arguments have the types that the code declares,
-- so that the exact-type tests at the start of mark_action_submitting always pass.
--
-- The first steps of connect, and __post_init__ of RuntimeIdentity, have the exceptions of the calls
-- they make as parameters; elsewhere `resolve` of `Host` is the resolution of a path that resolves.
-- An action ends once: docs/operator-runbook.md lets an operator record succeeded or failed for an
-- action that was marked needs_reconciliation, and the store has no call that does so.
--
-- Bounds: `decimal`, Python's text of a number, recurses on one step more than the number's value,
-- which is at least its number of digits. Every other function is structurally recursive.
--
-- connect makes at most thirty attempts, which `enable_wal` counts down from 29.
--
-- Not modelled: the program of the profile lock's owner process; normalize_listing and
-- parse_price_minor, and scoring, which compute with floats on untyped dictionaries; the browser
-- runtime, which drives a browser; scripts/verify_repo.py, which searches the repository with
-- regular expressions; argparse and what is printed. The store takes a RuntimeIdentity as it is
-- after __post_init__, which Models/Identity models. The SQL text of a timestamp is abstract; the
-- triggers that forbid a change of identity columns are not written out, since no statement of the
-- store changes such a column. The table source_records is kept apart from the other tables, and
-- Cli adds the count of it to the summary; a price that does not fit SQLite's 64 bits is not
-- refused. A YAML file whose anchors make it contain itself has no value here.
pub mod Prelude
pub mod Json
pub mod Time
pub mod Texts
pub mod Urls
pub mod Sources
pub mod Config
pub mod Host
pub mod Models
pub mod Policy
pub mod ProfileLock
pub mod Schema
pub mod Transaction
pub mod Proposals
pub mod Approvals
pub mod Executions
pub mod Registry
pub mod Records
pub mod Migrations
pub mod Connection
pub mod Cli
pub mod Lifecycle
pub mod System
mod Examples
