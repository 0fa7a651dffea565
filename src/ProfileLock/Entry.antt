-- ===== src/ProfileLock/Entry.antt =====
-- _open_lock_file, _start_owner_process, _stop_owner_process, __enter__ and __exit__ of
-- profile_lock.py, over what the operating system answers (`Answers`), and what the object and its
-- process hold (`Holding`).
pub mod Release
use event_lead_ops_agent.Prelude.{
  ℕ, String, Bool, true, false, not, ◌&&◌, ◌||◌, ◌==◌, Option, none, some, Result, ok, err, Error,
  ◌>>=◌, ◌>>◌, ensure, profile_lock_error, os_error, if◌then◌else◌,
}
use event_lead_ops_agent.Host.{Host}
use event_lead_ops_agent.ProfileLock.{
  FileStat, Sighting, ProfileLock, descriptor_is_private_regular_file, assert_owned,
}

-- The fields of the object (`file`: whether `_file` is set), and what its process has: the lock
-- file's descriptor, the ends of the pipe and the owner process.
pub record Holding : Type 0 where
  pub file : Bool
  pub descriptor : Bool
  pub controller : Bool
  pub owner_process : Option ℕ
  pub lease : Option String
  pub read_end : Bool
  pub write_end : Bool
  pub child : Option ℕ

abbrev pub released : Holding
released = record {
  file = false;
  descriptor = false;
  controller = false;
  owner_process = none;
  lease = none;
  read_end = false;
  write_end = false;
  child = none;
}

-- What the operating system answers during one call, each in the place where it is asked.
pub record Answers : Type 0 where
  -- `mkdir` and `chmod` of the profile's directory; `os.open` of the lock file, `fstat`, `fchmod`
  pub makes_directory : Bool
  pub opens : Bool
  pub stat : FileStat
  pub sets_mode : Bool
  -- `os.pipe()`; `Popen`, with the PID; the line that the owner prints in five seconds, stripped,
  -- or "" (`none`: reading it raises OSError)
  pub makes_pipe : Bool
  pub starts : Option ℕ
  pub status : Option String
  -- whether a busy owner ends in five seconds; whether the owner runs when `poll` asks after its
  -- line; whether one that is given up, and killed if it runs, is reaped in five seconds
  pub busy_ends : Bool
  pub runs : Bool
  pub reaped : Bool
  -- `uuid.uuid4().hex`; whether the marker is written and synchronized
  pub lease : String
  pub writes : Bool
  -- where it is not, whether `close` then writes what the failed write has left
  pub closes : Bool
  -- the rounds of assert_owned
  pub first : Sighting
  pub second : Sighting
  -- `_stop_owner_process`: whether the owner ends in five seconds, and else in five after the kill
  pub ends : Bool
  pub ends_killed : Bool

-- A call gives its result and what is held after it.
abbrev pub Call : Type 0
Call = Result (Unit {0}) × Holding

abbrev pub failed_to_start : Error
failed_to_start = profile_lock_error "profile lock owner failed to start"

-- `subprocess.TimeoutExpired`
abbrev pub timed_out : Error
timed_out = os_error "timed out"

unfoldable pub open_lock_file : Answers → Result (Unit {0})
unfolding descriptor_is_private_regular_file
open_lock_file a = do
  ensure a.opens (profile_lock_error "profile lock file cannot be opened safely")
  ensure (descriptor_is_private_regular_file a.stat)
      (profile_lock_error "profile lock file is not a private regular file")
  ensure a.sets_mode (os_error "fchmod")

-- `finally` of `_start_owner_process`, where it raises `e`: both ends of the pipe are closed, and an
-- owner that was started is killed if it runs, and reaped unless it has been. A wait that ends too
-- late raises.
unfoldable pub abandon : Answers → Bool → Error → Holding → Call
abandon a ended e s =
    let closed = record s { read_end = false; write_end = false } in
    elim s.child [
      | none ↦ (err e, closed)
      | some pid ↦
          if ended || a.reaped
          then (err e, record closed { child = none })
          else (err timed_out, closed)
    ]

-- What follows the owner's line
unfoldable pub judge : Answers → ℕ → String → Holding → Call
unfolding abandon
judge a pid status s =
    if status == "busy"
    then (if a.busy_ends
        then abandon a true (profile_lock_error "profile already owned: ") s
        else abandon a false failed_to_start s)
    else if not (status == "ready")
    then abandon a false failed_to_start s
    else if not a.runs
    then abandon a true failed_to_start s
    else (ok tt, record s { owner_process = some pid; controller = true })

-- What `Popen` and the reading of the line lead to, once there is a pipe
abbrev pub launched : Answers → Option ℕ → Option String → Holding → Call
launched a none line s = abandon a false failed_to_start s
launched a (some pid) none s =
    abandon a false failed_to_start (record s { child = some pid; read_end = false })
launched a (some pid) (some status) s =
    judge a pid status (record s { child = some pid; read_end = false })

unfoldable pub start_owner_process : Answers → Holding → Call
unfolding judge
start_owner_process a s =
    if a.makes_pipe
    then launched a a.starts a.status (record s { read_end = true; write_end = true })
    else (err (os_error "pipe"), s)

-- The controller's end is closed, which ends the owner; one that does not end is killed.
unfoldable pub stop_owner_process : Answers → Holding → Call
stop_owner_process a s =
    let closed = if s.controller then record s { controller = false; write_end = false } else s in
    elim s.owner_process [
      | none ↦ (ok tt, closed)
      | some pid ↦
          if a.ends || a.ends_killed
          then (ok tt, record closed { owner_process = none; child = none })
          else (err timed_out, closed)
    ]

-- The file is closed and the lease forgotten. A file with nothing left to write closes without an
-- error.
abbrev pub close_file : Holding → Holding
close_file s = record s { file = false; descriptor = false; lease = none }

-- `except (OSError, ProfileLockError)` of `__enter__`, after the owner was stopped and as a whole. A
-- `close` that cannot write what is left raises: the descriptor is closed, but the fields are kept.
abbrev pub after_stop : Bool → Error → Call → Call
after_stop closes e (ok done, stopped) =
    if closes
    then (err e, close_file stopped)
    else (err (os_error "close"), record stopped { descriptor = false })
after_stop closes e (err late, stopped) = (err late, stopped)

unfoldable pub undo : Answers → Bool → Error → Holding → Call
unfolding stop_owner_process
undo a closes e s = after_stop closes e (stop_owner_process a s)

-- The object as assert_owned reads it
abbrev pub lock_of : String → Holding → ProfileLock
lock_of profile_dir s = record {
  profile_dir = profile_dir;
  file_open = s.file && s.descriptor;
  lease = s.lease;
  owner_pid = s.owner_process;
}

abbrev pub attested : Answers → Holding → Result (Unit {0}) → Call
attested a leased (ok done) = (ok tt, leased)
attested a leased (err e) = undo a true e leased

-- The marker is written, and the lock attested.
unfoldable pub claim : Host → String → Answers → Holding → Call
unfolding undo assert_owned
claim h profile_dir a s =
    let leased = record s { lease = some a.lease } in
    if a.writes
    then attested a leased
        (assert_owned h (lock_of profile_dir leased) profile_dir (some a.lease) a.first a.second)
    else undo a a.closes (os_error "write") leased

abbrev pub started : Host → String → Answers → Call → Call
started h profile_dir a (ok done, s) = claim h profile_dir a s
started h profile_dir a (err e, s) = (err e, record s { file = false; descriptor = false })

abbrev pub file_opened : Host → String → Answers → Result (Unit {0}) → Call
file_opened h profile_dir a (ok done) =
    started h profile_dir a
      (start_owner_process a (record released { file = true; descriptor = true }))
file_opened h profile_dir a (err e) = (err e, released)

-- `__enter__` of an object that holds nothing
unfoldable pub enter : Host → String → Answers → Call
unfolding open_lock_file start_owner_process claim
enter h profile_dir a =
    if a.makes_directory
    then file_opened h profile_dir a (open_lock_file a)
    else (err (os_error "mkdir"), released)

abbrev pub exited : Call → Call
exited (ok done, stopped) = (ok tt, if stopped.file then close_file stopped else stopped)
exited (err late, stopped) = (err late, stopped)

-- `__exit__`
unfoldable pub exit : Answers → Holding → Call
unfolding stop_owner_process
exit a s = exited (stop_owner_process a s)
