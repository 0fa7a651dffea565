-- ===== src/Connection/Opening.antt =====
-- When connect of db.py returns, and what it leaves on the disk.
use event_lead_ops_agent.Prelude.{
  ℕ, zero, suc, ◌+◌, ◌%◌, ◌≤◌, ◌<◌, String, ◌≡◌, refl, sym, ap, subst, ◌∙◌, ◌⊎◌, ◌↔◌, inl, inr,
  Bool, true, false, Option, none, some, Result, ok, err, Error, operational_error, runtime_error,
  nat_eq, arith, Bool-cases, if◌then◌else◌, unsome, permission_error,
}
use event_lead_ops_agent.Texts.{Unicode}
use event_lead_ops_agent.Connection.{
  Disk, Answers, Opened, Attempt, journal_mode, refused, fails, is_wal, is_locked, after_attempt,
  enable_wal, after, with_file, opened, check_mode, connect,
}

module _ (u : Unicode) where
  abbrev pub Wal : Attempt → Type 0
  Wal a = (mode : String) × (a ≡ journal_mode mode) × (is_wal u mode ≡ true)

  abbrev pub Locked : Attempt → Type 0
  Locked a = (message : String) × (a ≡ refused message) × (is_locked u message ≡ true)

  -- One of the attempts from the number `attempt` on turns WAL on, and those before find a lock.
  abbrev pub Opens : (ℕ → Attempt) → ℕ → ℕ → Type 0
  Opens attempts left attempt =
      (n : ℕ) × (n ≤ left)
      × Wal (attempts (attempt + n))
      × ((m : ℕ) → m < n → Locked (attempts (attempt + m)))

  after_attempt-eq_ok :
      (a : Attempt) (retry : String → Result (Unit {0}))
      → after_attempt u a retry ≡ ok tt
      → Wal a
        ⊎ ((message : String) × (a ≡ refused message)
            × (is_locked u message ≡ true)
            × (retry message ≡ ok tt))
  after_attempt-eq_ok (journal_mode mode) retry e = elim (Bool-cases (is_wal u mode)) [
    | inl wal ↦ inl (mode, refl, wal)
    | inr other ↦ absurd (
        cc (
          sym
            (ap (λ b. if b then ok tt else err (runtime_error "failed to enable WAL mode: ")) other)
          ∙ e))
  ]
  after_attempt-eq_ok (refused message) retry e = elim (Bool-cases (is_locked u message)) [
    | inl locked ↦ inr (
      message,
      refl,
      locked,
      sym (ap (λ b. if b then retry message else err (operational_error message)) locked) ∙ e,
    )
    | inr other ↦ absurd (
        cc (sym (ap (λ b. if b then retry message else err (operational_error message)) other) ∙ e))
  ]
  after_attempt-eq_ok (fails x) retry e = absurd (cc e)

  is_wal_of : Attempt → Bool
  is_wal_of (journal_mode mode) = is_wal u mode
  is_wal_of (refused message) = false
  is_wal_of (fails e) = false

  is_locked_of : Attempt → Bool
  is_locked_of (journal_mode mode) = false
  is_locked_of (refused message) = is_locked u message
  is_locked_of (fails e) = false

  after_attempt-Wal :
      (a : Attempt) (retry : String → Result (Unit {0})) → Wal a → after_attempt u a retry ≡ ok tt
  unfolding is_wal_of
  after_attempt-Wal (journal_mode mode) retry (m, is, wal) =
      ap (λ b. if b then ok tt else err (runtime_error "failed to enable WAL mode: "))
        (ap (λ a. is_wal_of a) is ∙ wal)
  after_attempt-Wal (refused message) retry (m, is, wal) = cc is
  after_attempt-Wal (fails e) retry (m, is, wal) = cc is

  after_attempt-Locked :
      (a : Attempt) (retried : Result (Unit {0}))
      → Locked a
      → after_attempt u a (λ message. retried) ≡ retried
  unfolding is_locked_of
  after_attempt-Locked (refused message) retried (m, is, locked) =
      ap (λ b. if b then retried else err (operational_error message))
        (ap (λ a. is_locked_of a) is ∙ locked)
  after_attempt-Locked (journal_mode mode) retried (m, is, locked) = cc is
  after_attempt-Locked (fails e) retried (m, is, locked) = cc is

  module _ (attempts : ℕ → Attempt) where
    at_first : (attempt left : ℕ) → Wal (attempts attempt) → Opens attempts left attempt
    at_first attempt left wal = (
      0,
      ground arith,
      subst (λ k. Wal (attempts k)) (ground arith) wal,
      λ m below. absurd (ground arith),
    )

    Opens-enable_wal :
        (left attempt : ℕ)
        → enable_wal u attempts left attempt ≡ ok tt
        → Opens attempts left attempt
    unfolding enable_wal
    Opens-enable_wal zero attempt e = elim (after_attempt-eq_ok (attempts attempt) _ e) [
      | inl wal ↦ at_first attempt zero wal
      | inr (message, is, locked, retried) ↦ absurd (cc retried)
    ]
    Opens-enable_wal (suc left) attempt e = elim (after_attempt-eq_ok (attempts attempt) _ e) [
      | inl wal ↦ at_first attempt (suc left) wal
      | inr (message, is, locked, retried) ↦
          after (message, is, locked) (Opens-enable_wal left (suc attempt) retried)
    ]
      where
        after :
            Locked (attempts attempt)
            → Opens attempts left (suc attempt)
            → Opens attempts (suc left) attempt
        after first (n, few, wal, earlier) =
            (suc n, ground arith, subst (λ k. Wal (attempts k)) (ground arith) wal, before)
          where
            before : (m : ℕ) → m < suc n → Locked (attempts (attempt + m))
            before zero below = subst (λ k. Locked (attempts k)) (ground arith) first
            before (suc m) below =
                subst (λ k. Locked (attempts k)) (ground arith) (earlier m (ground arith))

    enable_wal-Opens :
        (left attempt : ℕ)
        → Opens attempts left attempt
        → enable_wal u attempts left attempt ≡ ok tt
    unfolding enable_wal
    enable_wal-Opens zero attempt (zero, few, wal, earlier) =
        after_attempt-Wal _ _ (subst (λ k. Wal (attempts k)) (ground arith) wal)
    enable_wal-Opens zero attempt (suc n, few, wal, earlier) = absurd (ground arith)
    enable_wal-Opens (suc left) attempt (zero, few, wal, earlier) =
        after_attempt-Wal _ _ (subst (λ k. Wal (attempts k)) (ground arith) wal)
    enable_wal-Opens (suc left) attempt (suc n, few, wal, earlier) =
        after_attempt-Locked _ _
          (subst (λ k. Locked (attempts k)) (ground arith) (earlier 0 (ground arith)))
        ∙ enable_wal-Opens left (suc attempt) (
          n,
          ground arith,
          subst (λ k. Wal (attempts k)) (ground arith) wal,
          λ m below.
              subst (λ k. Locked (attempts k)) (ground arith) (earlier (suc m) (ground arith)),
        )

-- No one but the owner reads the directory or the file.
abbrev pub OwnerOnly : Disk → Type 0
OwnerOnly disk = ((mode : ℕ) × (disk.parent ≡ some mode) × (mode % 64 ≡ 0)) × (disk.file ≡ some 384)

after-eq_ok :
    (o : Option Error) (disk : Disk) (next : Opened)
    → (after o disk next).0 ≡ ok tt
    → (o ≡ none) × (after o disk next ≡ next)
after-eq_ok none disk next e = (refl, refl)
after-eq_ok (some x) disk next e = absurd (cc e)

after-none : (o : Option Error) (disk : Disk) (next : Opened) → o ≡ none → after o disk next ≡ next
after-none none disk next e = refl
after-none (some x) disk next e = absurd (cc e)

module _ (u : Unicode) (a : Answers) (attempts : ℕ → Attempt) where
  -- The directory is the owner's only, or it is missing and is made.
  abbrev pub Admitted : Disk → Type 0
  Admitted disk =
      ((disk.parent ≡ none) × (a.makes_directory ≡ none) × (a.sets_directory_mode ≡ none))
      ⊎ ((mode : ℕ) × (disk.parent ≡ some mode) × (mode % 64 ≡ 0))

  -- No step after the check of the directory raises, up to the attempts.
  abbrev pub Prepared : Type 0
  Prepared =
      (a.opens ≡ none)
      × (a.sets_file_mode ≡ none)
      × (a.connects ≡ none)
      × (a.sets_timeout ≡ none)
      × (a.sets_foreign_keys ≡ none)

  opened-eq_ok :
      (disk : Disk)
      → (opened u a attempts disk).0 ≡ ok tt
      → Prepared × Opens u attempts 29 0 × ((opened u a attempts disk).1 ≡ with_file 384 disk)
  unfolding opened
  opened-eq_ok disk e =
      let (opens, same1) = after-eq_ok a.opens _ _ e in
      let e1 = ap (λ c. c.0) (sym same1) ∙ e in
      let (sets, same2) = after-eq_ok a.sets_file_mode _ _ e1 in
      let e2 = ap (λ c. c.0) (sym same2) ∙ e1 in
      let (connects, same3) = after-eq_ok a.connects _ _ e2 in
      let e3 = ap (λ c. c.0) (sym same3) ∙ e2 in
      let (timeout, same4) = after-eq_ok a.sets_timeout _ _ e3 in
      let e4 = ap (λ c. c.0) (sym same4) ∙ e3 in
      let (keys, same5) = after-eq_ok a.sets_foreign_keys _ _ e4 in
      (
        (opens, sets, connects, timeout, keys),
        Opens-enable_wal u attempts 29 0 (ap (λ c. c.0) (sym same5) ∙ e4),
        ap (λ c. c.1) (same1 ∙ (same2 ∙ (same3 ∙ (same4 ∙ same5)))),
      )

  opened-returns :
      (disk : Disk) → Prepared × Opens u attempts 29 0 → (opened u a attempts disk).0 ≡ ok tt
  unfolding opened
  opened-returns disk ((opens, sets, connects, timeout, keys), wal) =
      ap (λ c. c.0)
        (after-none a.opens _ _ opens
          ∙ (after-none a.sets_file_mode _ _ sets
              ∙ (after-none a.connects _ _ connects
                  ∙ (after-none a.sets_timeout _ _ timeout
                      ∙ after-none a.sets_foreign_keys _ _ keys))))
      ∙ enable_wal-Opens u attempts 29 0 wal

  if-ok :
      (b : Bool) (x : Opened) (e : Error) (disk : Disk)
      → (if b then x else (err e, disk)).0 ≡ ok tt
      → (b ≡ true) × ((if b then x else (err e, disk)) ≡ x)
  if-ok true x e disk h = (refl, refl)
  if-ok false x e disk h = absurd (cc h)

  check_mode-eq_ok :
      (disk : Disk) (mode : Option ℕ)
      → disk.parent ≡ mode
      → (check_mode u a attempts disk mode).0 ≡ ok tt
      → Admitted disk
        × Prepared
        × Opens u attempts 29 0
        × OwnerOnly (check_mode u a attempts disk mode).1
  check_mode-eq_ok disk none missing e =
      let (makes, same1) = after-eq_ok a.makes_directory _ _ e in
      let e1 = ap (λ c. c.0) (sym same1) ∙ e in
      let (sets, same2) = after-eq_ok a.sets_directory_mode _ _ e1 in
      let e2 = ap (λ c. c.0) (sym same2) ∙ e1 in
      let (prepared, opens, left) = opened-eq_ok (record disk { parent = some 448 }) e2 in
      (
        inl (missing, makes, sets),
        prepared,
        opens,
        subst OwnerOnly (sym (ap (λ c. c.1) (same1 ∙ same2) ∙ left)) ((448, refl, refl), refl),
      )
  check_mode-eq_ok disk (some mode) there e =
      let (private, same) = if-ok (nat_eq (mode % 64) 0) _ _ disk e in
      let (prepared, opens, left) = opened-eq_ok disk (ap (λ c. c.0) (sym same) ∙ e) in
      let own : mode % 64 ≡ 0 = ground arith in
      (
        inr (mode, there, own),
        prepared,
        opens,
        subst OwnerOnly (sym (ap (λ c. c.1) same ∙ left)) ((mode, there, own), refl),
      )

  check_mode-returns :
      (disk : Disk) (mode : Option ℕ)
      → disk.parent ≡ mode
      → Admitted disk
      → Prepared × Opens u attempts 29 0
      → (check_mode u a attempts disk mode).0 ≡ ok tt
  check_mode-returns disk none missing (inl (gone, makes, sets)) ready =
      ap (λ c. c.0)
        (after-none a.makes_directory _ _ makes ∙ after-none a.sets_directory_mode _ _ sets)
      ∙ opened-returns (record disk { parent = some 448 }) ready
  check_mode-returns disk none missing (inr (m, there, own)) ready = absurd (cc (missing, there))
  check_mode-returns disk (some mode) there (inl (gone, makes, sets)) ready =
      absurd (cc (there, gone))
  check_mode-returns disk (some mode) there (inr (m, given, own)) ready =
      let same : m ≡ mode = unsome (sym given ∙ there) in
      ap
        (λ b.
          (if b then opened u a attempts disk else (
            err (permission_error "database parent must be owner-only (0700 or stricter): "),
            disk,
          )).0)
        (subst (λ k. nat_eq (k % 64) 0 ≡ true) same (ground arith))
      ∙ opened-returns disk ready

  connect-eq_ok :
      (disk : Disk)
      → (connect u a attempts disk).0 ≡ ok tt
      → (a.looks ≡ none)
        × Admitted disk
        × Prepared
        × Opens u attempts 29 0
        × OwnerOnly (connect u a attempts disk).1
  unfolding connect
  connect-eq_ok disk e =
      let (looks, same) = after-eq_ok a.looks _ _ e in
      let (admitted, prepared, opens, left) =
        check_mode-eq_ok disk disk.parent refl (ap (λ c. c.0) (sym same) ∙ e) in
      (looks, admitted, prepared, opens, subst OwnerOnly (sym (ap (λ c. c.1) same)) left)

  -- connect returns if and only if the database's directory is found to give no permission to group
  -- and others, or is missing and is made; no call raises that opens the file, sets its mode,
  -- connects or sets the first two PRAGMAs; and one of the first thirty attempts turns WAL on, where
  -- every attempt before it finds the database locked.
  pub connect_iff :
      (disk : Disk)
      → ((connect u a attempts disk).0 ≡ ok tt)
        ↔ ((a.looks ≡ none) × Admitted disk × Prepared × Opens u attempts 29 0)
  unfolding connect
  connect_iff disk = (
    λ e.
        let (looks, admitted, prepared, opens, left) = connect-eq_ok disk e in
        (looks, admitted, prepared, opens),
    λ (looks, admitted, prepared, opens).
        ap (λ c. c.0) (after-none a.looks _ _ looks)
        ∙ check_mode-returns disk disk.parent refl admitted (prepared, opens),
  )

  -- A call of connect that returns leaves a directory that gives no permission to group and others
  -- and a database file of mode 0600.
  pub connect-OwnerOnly :
      (disk : Disk)
      → (connect u a attempts disk).0 ≡ ok tt
      → OwnerOnly (connect u a attempts disk).1
  connect-OwnerOnly disk e = let (l, m, p, o, left) = connect-eq_ok disk e in left
