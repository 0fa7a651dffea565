-- ===== src/Connection.antt =====
-- connect of db.py: the modes of the directory and of the file, and the loop that turns WAL on.
pub mod Opening
use event_lead_ops_agent.Prelude.{
  ℕ, zero, suc, ◌+◌, ◌%◌, String, Bool, true, false, not, ◌&&◌, ◌||◌, Option, none, some, Result,
  ok, err, Error, permission_error, runtime_error, operational_error, nat_eq, if◌then◌else◌,
}
use event_lead_ops_agent.Texts.{chars, Unicode, same_chars, lower, has_text}

-- The mode of the database's directory and of its file, where they exist
pub record Disk : Type 0 where
  pub parent : Option ℕ
  pub file : Option ℕ

-- What `PRAGMA journal_mode = WAL` gives at one attempt: a mode, OperationalError with a message, or
-- another exception
pub data Attempt : Type 0 where
  journal_mode : String → Attempt
  refused : String → Attempt
  fails : Error → Attempt

-- `str(mode).lower() == "wal"` and `"locked" in str(exc).lower()`
abbrev pub is_wal : Unicode → String → Bool
is_wal u mode = same_chars (lower u (chars mode)) (chars "wal")

abbrev pub is_locked : Unicode → String → Bool
is_locked u message = has_text (chars "locked") (lower u (chars message))

-- What one attempt decides: it returns, raises, or asks for another attempt.
abbrev pub after_attempt : Unicode → Attempt → (String → Result (Unit {0})) → Result (Unit {0})
after_attempt u (journal_mode mode) retry =
    if is_wal u mode then ok tt else err (runtime_error "failed to enable WAL mode: ")
after_attempt u (refused message) retry =
    if is_locked u message then retry message else err (operational_error message)
after_attempt u (fails e) retry = err e

-- The attempts from the number `attempt` on, of which `left` follow this one
unfoldable pub enable_wal : Unicode → (ℕ → Attempt) → ℕ → ℕ → Result (Unit {0})
unfolding same_chars lower has_text
enable_wal u attempts zero attempt =
    after_attempt u (attempts attempt) (λ message. err (operational_error message))
enable_wal u attempts (suc left) attempt =
    let later = enable_wal u attempts left (suc attempt) in
    after_attempt u (attempts attempt) (λ message. later)

-- What the operating system and SQLite answer during one call, each in the place where it is asked:
-- the exception that is raised, if one is.
pub record Answers : Type 0 where
  -- `parent.exists()` and `parent.stat()`
  pub looks : Option Error
  -- `parent.mkdir(mode=0o700)`, the mode that it leaves (the umask takes bits away), `parent.chmod`
  pub makes_directory : Option Error
  pub made_mode : ℕ
  pub sets_directory_mode : Option Error
  -- `os.open` and `os.close`, the mode of a file that is made, `os.chmod`
  pub opens : Option Error
  pub created_mode : ℕ
  pub sets_file_mode : Option Error
  -- `sqlite3.connect`, and the first two PRAGMAs
  pub connects : Option Error
  pub sets_timeout : Option Error
  pub sets_foreign_keys : Option Error

-- A call gives its result, and the disk after it.
abbrev pub Opened : Type 0
Opened = Result (Unit {0}) × Disk

-- What comes after a step that leaves the disk as it was where it raises
abbrev pub after : Option Error → Disk → Opened → Opened
after none disk next = next
after (some e) disk next = (err e, disk)

abbrev pub mode_or : ℕ → Option ℕ → ℕ
mode_or created none = created
mode_or created (some mode) = mode

-- The file, made where it is missing, and then with mode 0600 (384).
abbrev pub with_file : ℕ → Disk → Disk
with_file mode disk = record disk { file = some mode }

-- What follows the check of the directory
unfoldable pub opened : Unicode → Answers → (ℕ → Attempt) → Disk → Opened
unfolding enable_wal
opened u a attempts disk =
    let found = with_file (mode_or a.created_mode disk.file) disk in
    let private = with_file 384 disk in
    let enabled = enable_wal u attempts 29 0 in
    after a.opens disk (
      after a.sets_file_mode found (
        after a.connects private
          (after a.sets_timeout private (after a.sets_foreign_keys private (enabled, private)))))

-- The directory, made with mode 0700 where it is missing; 77 octal is 63, and 700 octal is 448.
abbrev pub check_mode : Unicode → Answers → (ℕ → Attempt) → Disk → Option ℕ → Opened
check_mode u a attempts disk none = after a.makes_directory disk (
    after a.sets_directory_mode (record disk { parent = some a.made_mode })
      (opened u a attempts (record disk { parent = some 448 })))
check_mode u a attempts disk (some mode) =
    if nat_eq (mode % 64) 0
    then opened u a attempts disk
    else (err (permission_error "database parent must be owner-only (0700 or stricter): "), disk)

unfoldable pub connect : Unicode → Answers → (ℕ → Attempt) → Disk → Opened
unfolding opened
connect u a attempts disk = after a.looks disk (check_mode u a attempts disk disk.parent)
