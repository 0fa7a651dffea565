-- ===== src/Examples/Locks.antt =====
-- Tests of the entry and the exit of the profile lock.
use event_lead_ops_agent.Prelude.{
  ◌≡◌, refl, true, false, some, ok, err, profile_lock_error, os_error,
}
use event_lead_ops_agent.ProfileLock.Entry.{Answers, released, enter, exit}
use event_lead_ops_agent.ProfileLock.Entry.Release.{held, exit-released}
use event_lead_ops_agent.Examples.{host, sighting, profile_lock}

abbrev answers : Answers
answers = record {
  makes_directory = true;
  opens = true;
  stat = sighting.descriptor_stat;
  sets_mode = true;
  makes_pipe = true;
  starts = profile_lock.owner_pid;
  status = some "ready";
  busy_ends = true;
  runs = true;
  reaped = true;
  lease = "lease";
  writes = true;
  closes = true;
  first = sighting;
  second = sighting;
  ends = true;
  ends_killed = true;
}

enters : enter host profile_lock.profile_dir answers ≡ (ok tt, held 7 (some "lease"))
unfolding enter event_lead_ops_agent.ProfileLock.same_private_file
    event_lead_ops_agent.ProfileLock.kernel_owner_matches
    event_lead_ops_agent.ProfileLock.lease_marker_matches event_lead_ops_agent.Host.decimal
enters = refl

exit-released_example : exit answers (held 7 (some "lease")) ≡ (ok tt, released)
exit-released_example =
    exit-released answers answers host profile_lock.profile_dir (held 7 (some "lease")) refl refl
      refl enters

busy :
    enter host profile_lock.profile_dir (record answers { status = some "busy" })
    ≡ (err (profile_lock_error "profile already owned: "), released)
unfolding enter
busy = refl

-- The marker is not written, and neither does closing the file write it: the fields stay set.
keeps_fields :
    enter host profile_lock.profile_dir (record answers { writes = false; closes = false })
    ≡ (err (os_error "close"), record released { file = true; lease = some "lease" })
unfolding enter
keeps_fields = refl
