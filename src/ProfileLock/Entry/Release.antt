-- ===== src/ProfileLock/Entry/Release.antt =====
-- What __enter__ of profile_lock.py holds where it returns and where it raises, and what __exit__
-- releases.
use event_lead_ops_agent.Prelude.{
  ℕ, String, ◌≡◌, refl, sym, ap, subst, ◌∙◌, Bool, true, false, not, ◌||◌, ◌==◌, Option, none, some,
  Result, ok, err, Error, profile_lock_error, if◌then◌else◌, ==→eq,
}
use event_lead_ops_agent.Host.{Host}
use event_lead_ops_agent.ProfileLock.{assert_owned}
use event_lead_ops_agent.ProfileLock.Entry.{
  Holding, Answers, Call, released, failed_to_start, abandon, judge, launched, start_owner_process,
  stop_owner_process, undo, after_stop, attested, lock_of, claim, started, file_opened,
  open_lock_file, enter, exited, exit, exited,
}

not-false : (b : Bool) → not b ≡ false → b ≡ true
not-false true e = refl
not-false false e = cc

-- A conditional has what both its branches have.
if-either {ℓ κ} :
    {A : Type ℓ} (P : A → Type κ) (b : Bool) (x y : A)
    → (b ≡ true → P x)
    → (b ≡ false → P y)
    → P (if b then x else y)
if-either P true x y f g = f refl
if-either P false x y f g = g refl

-- A lock that is held: an open file, an owner that runs and the pipe's end that controls it
abbrev pub held : ℕ → Option String → Holding
held pid lease = record released {
  file = true;
  descriptor = true;
  controller = true;
  owner_process = some pid;
  lease = lease;
  write_end = true;
  child = some pid;
}

abbrev pub file_only : Holding
file_only = record released { file = true; descriptor = true }

-- The owner that printed "ready" runs.
abbrev pub Ready : Answers → ℕ → Type 0
Ready a pid = (a.starts ≡ some pid) × (a.status ≡ some "ready") × (a.runs ≡ true)

abbrev Started : Answers → Call → Type 0
Started a (ok done, s) = (pid : ℕ) × Ready a pid × (s ≡ held pid none)
Started a (err e, s) = s ≡ file_only

-- What __enter__ leaves: where it returns, a lock that assert_owned has attested; where it raises,
-- no descriptor, no end of the pipe and no owner, and, if the file's close has not failed, no field.
abbrev pub Entered : Answers → Host → String → Call → Type 0
Entered a h profile_dir (ok done, s) =
    (pid : ℕ) × Ready a pid
    × (s ≡ held pid (some a.lease))
    × (assert_owned h (lock_of profile_dir s) profile_dir (some a.lease) a.first a.second ≡ ok tt)
Entered a h profile_dir (err e, s) =
    (s ≡ record released { file = s.file; lease = s.lease })
    × ((a.writes || a.closes) ≡ true → s ≡ released)

module _ (a : Answers) (reaped : a.reaped ≡ true) where
  abbrev started_with : ℕ → Holding
  started_with pid = record file_only { write_end = true; child = some pid }

  Started-abandon :
      (ended : Bool) (e : Error) (pid : ℕ) → Started a (abandon a ended e (started_with pid))
  unfolding abandon
  Started-abandon true e pid = refl
  Started-abandon false e pid =
      if-either (Started a) a.reaped _ _ (λ done. refl) (λ late. absurd (cc (reaped, late)))

  Started-judge :
      (pid : ℕ) (status : String)
      → a.starts ≡ some pid
      → a.status ≡ some status
      → Started a (judge a pid status (started_with pid))
  unfolding judge
  Started-judge pid status starts line =
      if-either (Started a) (status == "busy") _ _
        (λ busy.
          if-either (Started a) a.busy_ends _ _
            (λ ends. Started-abandon true (profile_lock_error "profile already owned: ") pid)
            (λ late. Started-abandon false failed_to_start pid))
        (λ other.
          if-either (Started a) (not (status == "ready")) _ _
            (λ bad. Started-abandon false failed_to_start pid)
            (λ good.
              if-either (Started a) (not a.runs) _ _
                (λ ended. Started-abandon true failed_to_start pid)
                (λ runs. (
                  pid,
                  (
                    starts,
                    line ∙ ap some (==→eq status "ready" (not-false _ good)),
                    not-false _ runs,
                  ),
                  refl,
                ))))

  Started-launched :
      (starts : Option ℕ) (line : Option String)
      → a.starts ≡ starts
      → a.status ≡ line
      → Started a (launched a starts line (record file_only { read_end = true; write_end = true }))
  unfolding abandon
  Started-launched none line starts read = refl
  Started-launched (some pid) none starts read = Started-abandon false failed_to_start pid
  Started-launched (some pid) (some status) starts read = Started-judge pid status starts read

  Started-start_owner_process : Started a (start_owner_process a file_only)
  unfolding start_owner_process
  Started-start_owner_process =
      if-either (Started a) a.makes_pipe _ _ (λ piped. Started-launched a.starts a.status refl refl)
        (λ none_there. refl)

  module _ (h : Host) (profile_dir : String) (ends : (a.ends || a.ends_killed) ≡ true) where
    Entered-undo :
        (closes : Bool) (e : Error) (pid : ℕ) (lease : Option String)
        → (closes ≡ false → (a.writes || a.closes) ≡ false)
        → Entered a h profile_dir (undo a closes e (held pid lease))
    unfolding undo stop_owner_process
    Entered-undo closes e pid lease fails =
        if-either (λ c. Entered a h profile_dir (after_stop closes e c)) (a.ends || a.ends_killed) _
          _
          (λ done.
            if-either (Entered a h profile_dir) closes _ _ (λ closed. (refl, λ _. refl))
              (λ failed. (refl, λ succeeds. absurd (cc (fails failed, succeeds)))))
          (λ late. absurd (cc (ends, late)))

    Entered-attested :
        (pid : ℕ) (r : Result (Unit {0}))
        → Ready a pid
        → assert_owned h
            (lock_of profile_dir (held pid (some a.lease)))
            profile_dir
            (some a.lease)
            a.first
            a.second
          ≡ r
        → Entered a h profile_dir (attested a (held pid (some a.lease)) r)
    Entered-attested pid (ok tt) ready owned = (pid, ready, refl, owned)
    Entered-attested pid (err e) ready lost =
        Entered-undo true e pid (some a.lease) (λ no. absurd (cc no))

    Entered-claim :
        (pid : ℕ) → Ready a pid → Entered a h profile_dir (claim h profile_dir a (held pid none))
    unfolding claim
    Entered-claim pid ready =
        if-either (Entered a h profile_dir) a.writes _ _
          (λ written. Entered-attested pid _ ready refl)
          (λ lost. Entered-undo a.closes _ pid _ (λ failed. ap (λ b. b || a.closes) lost ∙ failed))

    abbrev without_file : Holding → Holding
    without_file t = record t { file = false; descriptor = false }

    Entered-started : (c : Call) → Started a c → Entered a h profile_dir (started h profile_dir a c)
    Entered-started (ok done, s) (pid, ready, same) =
        subst (λ t. Entered a h profile_dir (claim h profile_dir a t)) (sym same)
          (Entered-claim pid ready)
    Entered-started (err e, s) same =
        let left : without_file s ≡ released = ap without_file same in
        (
          subst (λ t. t ≡ record released { file = t.file; lease = t.lease }) (sym left) refl,
          λ _. left,
        )

    Entered-file_opened :
        (r : Result (Unit {0})) → Entered a h profile_dir (file_opened h profile_dir a r)
    Entered-file_opened (ok done) =
        Entered-started (start_owner_process a file_only) Started-start_owner_process
    Entered-file_opened (err e) = (refl, λ _. refl)

    Entered-enter : Entered a h profile_dir (enter h profile_dir a)
    unfolding enter
    Entered-enter =
        if-either (Entered a h profile_dir) a.makes_directory _ _
          (λ made. Entered-file_opened (open_lock_file a)) (λ none_there. (refl, λ _. refl))

pub enter-Entered :
    (a : Answers) (h : Host) (profile_dir : String)
    → a.reaped ≡ true
    → (a.ends || a.ends_killed) ≡ true
    → Entered a h profile_dir (enter h profile_dir a)
enter-Entered a h profile_dir reaped ends = Entered-enter a reaped h profile_dir ends

-- __exit__ of a lock that __enter__ has returned releases the file, the pipe, the owner process and
-- the lease, where both calls' owners end and are reaped in time.
pub exit-released :
    (a later : Answers) (h : Host) (profile_dir : String) (s : Holding)
    → a.reaped ≡ true
    → (a.ends || a.ends_killed) ≡ true
    → (later.ends || later.ends_killed) ≡ true
    → enter h profile_dir a ≡ (ok tt, s)
    → exit later s ≡ (ok tt, released)
unfolding exit stop_owner_process
exit-released a later h profile_dir s reaped ends ends_later e =
    let (pid, ready, same, owned) =
      subst (Entered a h profile_dir) e (enter-Entered a h profile_dir reaped ends) in
    ap (λ t. exited (stop_owner_process later t)) same
    ∙ if-either (λ c. exited c ≡ (ok tt, released)) (later.ends || later.ends_killed) _ _
        (λ done. refl) (λ late. absurd (cc (ends_later, late)))
