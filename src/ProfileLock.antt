-- ===== src/ProfileLock.antt =====
-- profile_lock.py: what `ProfileLock.assert_owned` and the property `lease_id` accept. The calls to
-- the kernel are sightings: one for each of the two rounds in which `assert_owned` looks.
pub mod Attestation
pub mod Entry
use Prim.Native.String.{◌++◌}
use event_lead_ops_agent.Prelude.{
  ℕ, String, Bool, true, false, not, ◌&&◌, Option, none, some, Result, ok, err, ◌>>=◌, ◌>>◌,
  raise_if, ensure, or_raise, profile_lock_error, ◌==◌, nat_eq, is_text, if◌then◌else◌,
}
use event_lead_ops_agent.Host.{Host, decimal}

-- `os.stat_result`, as far as it is read.
pub record FileStat : Type 0 where
  pub is_regular : Bool
  pub nlink : ℕ
  pub dev : ℕ
  pub ino : ℕ

-- The answer of `fcntl(F_GETLK)`: whether the lock is a write lock, and its owner's PID (0 stands
-- for a PID that is not positive).
pub record KernelLock : Type 0 where
  pub is_write_lock : Bool
  pub owner_pid : ℕ

-- What one round of `assert_owned` sees: `fstat` of the open file, `lstat` of the pathname (`none`
-- for `FileNotFoundError`), the text of the file (`none` for `OSError`), whether the owner process
-- still runs, and the kernel's lock (`none` where the query fails or the platform has none).
pub record Sighting : Type 0 where
  pub descriptor_stat : FileStat
  pub pathname_stat : Option FileStat
  pub marker : Option String
  pub owner_runs : Bool
  pub kernel_lock : Option KernelLock

-- The object's fields: `profile_dir` is resolved, and `owner_pid` is that of `_owner_process`.
pub record ProfileLock : Type 0 where
  pub profile_dir : String
  pub file_open : Bool
  pub lease : Option String
  pub owner_pid : Option ℕ

-- A lock, and what the rounds of one call see through it.
pub record LockView : Type 0 where
  pub lock : ProfileLock
  pub sight : ℕ → Sighting

unfoldable pub descriptor_is_private_regular_file : FileStat → Bool
descriptor_is_private_regular_file s = s.is_regular && nat_eq s.nlink 1

abbrev pub marker_text : ℕ → String → String
marker_text pid lease = "pid=" ++ (decimal pid ++ ("\nlease_id=" ++ (lease ++ "\n")))

-- `_lease_marker_matches`
unfoldable pub lease_marker_matches : String → Option ℕ → Sighting → Bool
lease_marker_matches lease none s = false
lease_marker_matches lease (some pid) s = is_text s.marker (marker_text pid lease)

-- `_kernel_lock_owner_pid`
unfoldable pub kernel_lock_owner_pid : Sighting → Option ℕ
kernel_lock_owner_pid s = elim s.kernel_lock [
  | none ↦ none
  | some k ↦
      if not k.is_write_lock then none else if nat_eq k.owner_pid 0 then none else some k.owner_pid
]

abbrev pub is_pid : Option ℕ → ℕ → Bool
is_pid none pid = false
is_pid (some p) pid = nat_eq p pid

-- `_kernel_owner_matches`
unfoldable pub kernel_owner_matches : Option ℕ → Sighting → Bool
unfolding kernel_lock_owner_pid
kernel_owner_matches none s = false
kernel_owner_matches (some pid) s = s.owner_runs && is_pid (kernel_lock_owner_pid s) pid

-- The file that is open is a private regular file, and the pathname still leads to it.
unfoldable pub same_private_file : FileStat → FileStat → Bool
unfolding descriptor_is_private_regular_file
same_private_file d p =
    descriptor_is_private_regular_file d
    && (descriptor_is_private_regular_file p && (nat_eq d.dev p.dev && nat_eq d.ino p.ino))

-- Whether the object holds a lock at all: an open file, a lease and an owner process.
abbrev pub held_lease : ProfileLock → Option String
held_lease l = if l.file_open then elim l.owner_pid [ none ↦ none | some pid ↦ l.lease ] else none

abbrev pub lease_agrees : Option String → String → Bool
lease_agrees none lease = true
lease_agrees (some asked) lease = asked == lease

-- `assert_owned(profile_dir, lease_id=asked)`; the lease that is attested is returned.
unfoldable pub attest :
    Host → ProfileLock → String → Option String → Sighting → Sighting → Result String
attest h l profile_dir asked first second = do
  lease ← or_raise (held_lease l) (profile_lock_error "profile lock is not held")
  ensure (h.resolve profile_dir == l.profile_dir)
      (profile_lock_error "profile lock belongs to a different profile")
  ensure (lease_agrees asked lease) (profile_lock_error "profile lock lease does not match")
  path ← or_raise first.pathname_stat (profile_lock_error "profile lock pathname was removed")
  ensure (same_private_file first.descriptor_stat path)
      (profile_lock_error "profile lock pathname was replaced")
  ensure (kernel_owner_matches l.owner_pid first)
      (profile_lock_error "profile kernel lock is not owned")
  ensure (lease_marker_matches lease l.owner_pid first)
      (profile_lock_error "profile lock lease marker does not match")
  path' ←
      or_raise second.pathname_stat
        (profile_lock_error "profile lock pathname changed during attestation")
  ensure (same_private_file second.descriptor_stat path')
      (profile_lock_error "profile lock pathname changed during attestation")
  ensure (lease_marker_matches lease l.owner_pid second)
      (profile_lock_error "profile lock lease marker changed during attestation")
  ensure (kernel_owner_matches l.owner_pid second)
      (profile_lock_error "profile kernel lock changed during attestation")
  ok lease

unfoldable pub assert_owned :
    Host → ProfileLock → String → Option String → Sighting → Sighting → Result (Unit {0})
unfolding attest
assert_owned h l profile_dir asked first second = do
  lease ← attest h l profile_dir asked first second
  ok tt

-- The property `lease_id`
unfoldable pub lease_id : Host → ProfileLock → Sighting → Sighting → Result String
lease_id h l first second = attest h l l.profile_dir none first second
