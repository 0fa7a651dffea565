-- ===== src/ProfileLock/Attestation.antt =====
-- assert_owned of profile_lock.py against the state of a lock that is owned.
use event_lead_ops_agent.Prelude.{
  ℕ, ◌<◌, String, ◌≡◌, ◌↔◌, ◌⊎◌, true, Option, none, some, ok, arith, eq_iff, is_text→eq, inl, inr,
  Option-cases, refl, ap, ==→eq,
}
use event_lead_ops_agent.Host.{Host}
use event_lead_ops_agent.ProfileLock.{
  FileStat, KernelLock, Sighting, ProfileLock, attest, marker_text, lease_agrees, same_private_file,
  kernel_owner_matches, lease_marker_matches,
}

-- One round sees the profile's lock: the pathname leads to the open private file, the kernel names
-- the running owner process as the holder of a write lock, and the file names owner and lease.
pub record Sees (pid : ℕ) (lease : String) (s : Sighting) : Type 0 where
  pub path : FileStat
  pub path_there : s.pathname_stat ≡ some path
  pub open_regular : s.descriptor_stat.is_regular ≡ true
  pub open_private : s.descriptor_stat.nlink ≡ 1
  pub path_regular : path.is_regular ≡ true
  pub path_private : path.nlink ≡ 1
  pub same_dev : s.descriptor_stat.dev ≡ path.dev
  pub same_ino : s.descriptor_stat.ino ≡ path.ino
  pub runs : s.owner_runs ≡ true
  pub kernel : KernelLock
  pub kernel_there : s.kernel_lock ≡ some kernel
  pub write_lock : kernel.is_write_lock ≡ true
  pub owner : kernel.owner_pid ≡ pid
  pub positive : 0 < pid
  pub marked : s.marker ≡ some (marker_text pid lease)

-- A round of tests that passes sees the lock.
Sees-of_tests :
    (pid : ℕ) (lease : String) (s : Sighting) (path : FileStat)
    → s.pathname_stat ≡ some path
    → same_private_file s.descriptor_stat path ≡ true
    → kernel_owner_matches (some pid) s ≡ true
    → lease_marker_matches lease (some pid) s ≡ true
    → Sees pid lease s
unfolding same_private_file kernel_owner_matches lease_marker_matches
Sees-of_tests pid lease s path there same owner marked = elim (Option-cases s.kernel_lock) [
  | inl e ↦ absurd (ground arith)
  | inr (k, e) ↦ record {
    path = path;
    path_there = there;
    open_regular = ground arith;
    open_private = ground arith;
    path_regular = ground arith;
    path_private = ground arith;
    same_dev = ground arith;
    same_ino = ground arith;
    runs = ground arith;
    kernel = k;
    kernel_there = e;
    write_lock = ground arith;
    owner = ground arith;
    positive = ground arith;
    marked = is_text→eq s.marker (marker_text pid lease) marked;
  }
]

tests_of_Sees :
    (pid : ℕ) (lease : String) (s : Sighting)
    → (v : Sees pid lease s)
    → (same_private_file s.descriptor_stat v.path ≡ true)
      × (kernel_owner_matches (some pid) s ≡ true)
      × (lease_marker_matches lease (some pid) s ≡ true)
unfolding same_private_file kernel_owner_matches lease_marker_matches
tests_of_Sees pid lease s v = (
  ground arith,
  ground arith,
  ground (arith, eq_iff (marker_text pid lease) (marker_text pid lease)),
)

agreed_of_test :
    (asked : Option String) (lease : String)
    → lease_agrees asked lease ≡ true
    → (asked ≡ none) ⊎ (asked ≡ some lease)
agreed_of_test none lease h = inl refl
agreed_of_test (some a) lease h = inr (ap some (==→eq a lease h))

-- What `assert_owned` promises of the lock object and of both rounds.
pub record Owns (h : Host) (l : ProfileLock) (dir : String) (asked : Option String)
    (first second : Sighting) (lease : String) : Type 0 where
  pub pid : ℕ
  pub file_open : l.file_open ≡ true
  pub owner : l.owner_pid ≡ some pid
  pub leased : l.lease ≡ some lease
  pub profile : h.resolve dir ≡ l.profile_dir
  pub agreed : (asked ≡ none) ⊎ (asked ≡ some lease)
  pub seen_first : Sees pid lease first
  pub seen_second : Sees pid lease second

attest-Owns :
    (h : Host) (l : ProfileLock) (dir : String) (asked : Option String) (first second : Sighting)
    {lease : String}
    → attest h l dir asked first second ≡ ok lease
    → Owns h l dir asked first second lease
unfolding attest
attest-Owns h l dir asked first second {lease} e = elim (Option-cases l.owner_pid) [
  | inl no_owner ↦ absurd (ground arith)
  | inr (pid, owner) ↦ elim (Option-cases first.pathname_stat) [
    | inl gone ↦ absurd (ground arith)
    | inr (path, there) ↦ elim (Option-cases second.pathname_stat) [
      | inl gone ↦ absurd (ground arith)
      | inr (path2, there2) ↦ record {
        pid = pid;
        file_open = ground arith;
        owner = owner;
        leased = ground arith;
        profile = ground (arith, eq_iff (h.resolve dir) l.profile_dir);
        agreed = agreed_of_test asked lease (ground arith);
        seen_first =
            Sees-of_tests pid lease first path there (ground arith) (ground arith) (ground arith);
        seen_second =
            Sees-of_tests pid lease second path2 there2 (ground arith) (ground arith)
              (ground arith);
      }
    ]
  ]
]

Owns-attest :
    (h : Host) (l : ProfileLock) (dir : String) (asked : Option String) (first second : Sighting)
    (lease : String)
    → Owns h l dir asked first second lease
    → attest h l dir asked first second ≡ ok lease
unfolding attest
Owns-attest h l dir asked first second lease o = ground (
  arith,
  tests_of_Sees o.pid lease first o.seen_first,
  tests_of_Sees o.pid lease second o.seen_second,
  eq_iff (h.resolve dir) l.profile_dir,
  eq_iff lease lease,
)

-- `assert_owned` attests a lease exactly if the object holds an open lock file, a running owner and
-- that lease, the profile and the lease are those asked for, and in both of its rounds the pathname
-- leads to the open private file, the kernel names the owner as the holder of a write lock, and the
-- file's text names the owner and the lease.
pub attest_iff :
    (h : Host) (l : ProfileLock) (dir : String) (asked : Option String) (first second : Sighting)
    (lease : String)
    → (attest h l dir asked first second ≡ ok lease) ↔ Owns h l dir asked first second lease
attest_iff h l dir asked first second lease =
    (attest-Owns h l dir asked first second, Owns-attest h l dir asked first second lease)
