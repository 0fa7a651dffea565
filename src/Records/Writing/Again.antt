-- ===== src/Records/Writing/Again.antt =====
-- A second upsert_source_record of the record that a call has just written.
use event_lead_ops_agent.Prelude.{
  ℕ, String, ◌≡◌, refl, sym, ap, subst, ◌∙◌, Bool, true, false, not, ◌&&◌, ◌||◌, Option, none, some,
  List, [], ◌∷◌, ◌==◌, map, ok, if◌then◌else◌, find, update_where, arith, eq→==, ==→eq, Bool-cases,
  Option-cases, unok, inl, inr, >>=-eq_ok, raise_if-eq_ok, raise_if, integrity_error, ◌>>◌, ◌>>=◌,
}
use event_lead_ops_agent.Schema.Constraints.{exists}
use event_lead_ops_agent.Models.{SourceRecord}
use event_lead_ops_agent.Time.{utc, unreadable}
use event_lead_ops_agent.Records.{
  RecordRow, Outside, Upserted, updated, duplicate, iso_or_none, row_of, record_values,
  is_same_listing, set_values, insert_conflicts, update_conflicts, insert_values, update_values,
  write_values, upsert_source_record,
}
use event_lead_ops_agent.Records.Writing.{
  WellKept, has_id, is_stray, stray-none, find-none-weaken, find-none-found, find-first, find-here,
  find-later, find-none-skip, find-none-head, exists-none, update_where-absent,
}
use event_lead_ops_agent.Records.Writing.Upsert.{changed, near_source}

-- A row without the time at which it was last seen
abbrev pub content : RecordRow → RecordRow
content row = record row { last_seen_at = unreadable }

-- The values of the same record at another time
abbrev restamped : ℕ → RecordRow → RecordRow
restamped now v = record v { first_seen_at = utc now; last_seen_at = utc now }

==-refl : (s : String) → (s == s) ≡ true
==-refl s = eq→== s s refl

pub find-holds :
    (p : RecordRow → Bool) (rows : List RecordRow) {r : RecordRow}
    → find p rows ≡ some r
    → p r ≡ true
unfolding find
find-holds p [] e = cc
find-holds p (x ∷ rows) {r} e = elim (Bool-cases (p x)) [
  | inl here ↦ ap p (sym (find-first p x rows here e)) ∙ here
  | inr away ↦ find-holds p rows (sym (find-later p x rows away) ∙ e)
]

pub find-other :
    (p q : RecordRow → Bool) (rows : List RecordRow) (r : RecordRow)
    → find p rows ≡ some r
    → q r ≡ true
    → (x : RecordRow) × (find q rows ≡ some x)
find-other p q rows r there holds = elim (Option-cases (find q rows)) [
  | inl gone ↦ absurd (cc (find-none-found p q rows r gone there, holds))
  | inr found ↦ found
]

cons_eq : {a b : RecordRow} {l m : List RecordRow} → a ≡ b → l ≡ m → a ∷ l ≡ b ∷ m
cons_eq {b = b} {l = l} e f = ap (λ z. z ∷ l) e ∙ ap (λ k. b ∷ k) f

-- The write finds a duplicate and changes only when it was last seen.
abbrev pub WrittenAgain : RecordRow → List RecordRow → Type 0
WrittenAgain v rows =
    (again : List RecordRow) × (write_values v rows ≡ ok (duplicate, again))
    × (map content again ≡ map content rows)

update_values-free :
    (w existing : RecordRow) (rows : List RecordRow) (id : String)
    → existing.id ≡ id
    → find (update_conflicts w id) rows ≡ none
    → (existing.content_hash == w.content_hash) ≡ true
    → update_values w existing rows ≡ ok (duplicate, changed w id rows)
update_values-free w existing rows id is_id free same =
    subst
      (λ k.
        find (update_conflicts w k) rows ≡ none
        → update_values w existing rows ≡ ok (duplicate, changed w k rows))
      is_id
      (λ none_there.
        ap
          (λ o.
            raise_if (elim o [ none ↦ false | some r ↦ true ])
              (integrity_error "UNIQUE constraint failed")
            >> ok (
              if existing.content_hash == w.content_hash then duplicate else updated,
              changed w existing.id rows,
            ))
          none_there
        ∙ ap (λ b. ok (if b then duplicate else updated, changed w existing.id rows)) same)
      free

module _ (v : RecordRow) (id : String) where
  is_same-set_values :
      (y : RecordRow) → (y.source == v.source) ≡ true → is_same_listing v (set_values v y) ≡ true
  is_same-set_values y near =
      ap (λ b. b && (v.external_id == v.external_id || v.canonical_url == v.canonical_url)) near
      ∙ ap (λ b. b || v.canonical_url == v.canonical_url) (==-refl v.external_id)

  find-changed :
      (rows : List RecordRow) (x : RecordRow)
      → find (is_stray v id) rows ≡ none
      → find (update_conflicts v id) rows ≡ none
      → find (has_id id) rows ≡ some x
      → find (is_same_listing v) (changed v id rows) ≡ some (set_values v x)
  unfolding find update_where
  find-changed [] x near free there = absurd cc
  find-changed (y ∷ rows) x near free there =
      let (settled, all_near) = find-none-head (is_stray v id) y rows near in
      let (alone, all_free) = find-none-head (update_conflicts v id) y rows free in
      step (has_id id y) refl settled alone (λ away.
        find-changed rows x all_near all_free (sym (find-later (has_id id) y rows away) ∙ there))
    where
      step :
          (b : Bool)
          → has_id id y ≡ b
          → is_stray v id y ≡ false
          → update_conflicts v id y ≡ false
          → (has_id id y ≡ false
              → find (is_same_listing v) (changed v id rows) ≡ some (set_values v x))
          → find (is_same_listing v) ((if b then set_values v y else y) ∷ changed v id rows)
            ≡ some (set_values v x)
      step true here settled alone later =
          find-here (is_same_listing v) (set_values v y) (changed v id rows)
            (is_same-set_values y (near_source _ _ settled here))
          ∙ ap (λ r. some (set_values v r)) (find-first (has_id id) y rows here there)
      step false away settled alone later =
          find-later (is_same_listing v) y (changed v id rows)
            (ap (λ b. not b && is_same_listing v y) (sym away) ∙ alone)
          ∙ later away

  changed-free :
      (rows : List RecordRow)
      → find (update_conflicts v id) rows ≡ none
      → find (update_conflicts v id) (changed v id rows) ≡ none
  unfolding find update_where
  changed-free [] free = refl
  changed-free (y ∷ rows) free =
      let (first, later) = find-none-head (update_conflicts v id) y rows free in
      find-none-skip (update_conflicts v id) _ (changed v id rows)
        (settled (has_id id y) refl first) (changed-free rows later)
    where
      settled :
          (b : Bool)
          → has_id id y ≡ b
          → update_conflicts v id y ≡ false
          → update_conflicts v id (if b then set_values v y else y) ≡ false
      settled true here first = ap (λ b. not b && is_same_listing v (set_values v y)) here
      settled false away first = first

  content-changed :
      (now : ℕ) (rows : List RecordRow)
      → map content (changed (restamped now v) id (changed v id rows))
        ≡ map content (changed v id rows)
  unfolding update_where
  content-changed now [] = refl
  content-changed now (y ∷ rows) = cons_eq (step (has_id id y) refl) (content-changed now rows)
    where
      step :
          (b : Bool)
          → has_id id y ≡ b
          → (let row = if b then set_values v y else y in
              content (if has_id id row then set_values (restamped now v) row else row)
              ≡ content row)
      step true here =
          ap
            (λ b.
              content (if b then set_values (restamped now v) (set_values v y) else set_values v y))
            here
      step false away = ap (λ b. content (if b then set_values (restamped now v) y else y)) away

  -- The rows that a write of `v` to the rows of an ID has left
  write_values-changed :
      (now : ℕ) (rows : List RecordRow) (x : RecordRow)
      → find (is_stray v id) rows ≡ none
      → find (update_conflicts v id) rows ≡ none
      → find (has_id id) rows ≡ some x
      → WrittenAgain (restamped now v) (changed v id rows)
  write_values-changed now rows x near free there =
      let rows' = changed v id rows in
      let w = restamped now v in
      (
        changed w id rows',
        ap
              (λ o. elim o [
                | none ↦ insert_values w rows'
                | some existing ↦ update_values w existing rows'
              ])
              (find-changed rows x near free there)
            ∙ update_values-free w (set_values v x) rows' id
                (==→eq x.id id (find-holds (has_id id) rows there)) (changed-free rows free)
                (==-refl v.content_hash),
        content-changed now rows,
      )

module _ (v : RecordRow) (now : ℕ) where
  again-inserted :
      (rows : List RecordRow)
      → find (insert_conflicts v) rows ≡ none
      → WrittenAgain (restamped now v) (v ∷ rows)
  unfolding update_where
  again-inserted rows apart =
      let absent : find (has_id v.id) rows ≡ none =
        find-none-weaken (insert_conflicts v) (has_id v.id) rows
          (λ y is. ap (λ b. b || is_same_listing v y) is) apart in
      subst (WrittenAgain (restamped now v))
        (ap (λ b. (if b then v else v) ∷ changed v v.id rows) (==-refl v.id)
          ∙ ap (λ l. v ∷ l) (update_where-absent (has_id v.id) (set_values v) rows absent))
        (write_values-changed v v.id now (v ∷ rows) v
          (find-none-skip (is_stray v v.id) v rows (ground (arith, ==-refl v.source)) (
            find-none-weaken (insert_conflicts v) (is_stray v v.id) rows (λ y is. ground arith)
              apart))
          (find-none-skip (update_conflicts v v.id) v rows (ground (arith, ==-refl v.id)) (
            find-none-weaken (insert_conflicts v) (update_conflicts v v.id) rows
              (λ y is. ground arith) apart))
          (find-here (has_id v.id) v rows (==-refl v.id)))

  again-written :
      (rows : List RecordRow) (outcome : Upserted) (rows' : List RecordRow)
      → WellKept rows
      → write_values v rows ≡ ok (outcome, rows')
      → WrittenAgain (restamped now v) rows'
  again-written rows outcome rows' kept e = written (find (is_same_listing v) rows) refl e
    where
      written :
          (o : Option RecordRow)
          → find (is_same_listing v) rows ≡ o
          → elim o [ none ↦ insert_values v rows | some existing ↦ update_values v existing rows ]
            ≡ ok (outcome, rows')
          → WrittenAgain (restamped now v) rows'
      written none absent e =
          let (free, done) = raise_if-eq_ok (exists (insert_conflicts v) rows) _ _ e in
          subst (WrittenAgain (restamped now v)) (ap (λ r. r.1) (unok done))
            (again-inserted rows (exists-none (insert_conflicts v) rows free))
      written (some existing) there e =
          let (free, done) = raise_if-eq_ok (exists (update_conflicts v existing.id) rows) _ _ e in
          let (x, has) =
            find-other (is_same_listing v) (has_id existing.id) rows existing there
              (==-refl existing.id) in
          subst (WrittenAgain (restamped now v)) (ap (λ r. r.1) (unok done)) (
            write_values-changed v existing.id now rows x (stray-none v existing rows kept there)
              (exists-none (update_conflicts v existing.id) rows free) has)

record_values-later :
    (o : Outside) (now later : ℕ) (r : SourceRecord) (v : RecordRow)
    → record_values o now r ≡ ok v
    → record_values o later r ≡ ok (restamped later v)
unfolding record_values
record_values-later o now later r v e =
    let (posted_at, posted, done) =
      >>=-eq_ok (iso_or_none r.posted_at) (λ p. ok (row_of o now r p)) e in
    ap (λ p. p >>= λ q. ok (row_of o later r q)) posted
    ∙ ap (λ w. ok (restamped later w)) (unok done)

-- After a call of upsert_source_record that returned, on a well kept table, a second call with the
-- same record returns "duplicate" at any later time, and changes no column but last_seen_at.
pub upsert_source_record-again :
    (o : Outside) (now later : ℕ) (r : SourceRecord) (rows rows' : List RecordRow)
    (outcome : Upserted)
    → WellKept rows
    → upsert_source_record o now r rows ≡ ok (outcome, rows')
    → (again : List RecordRow) × (upsert_source_record o later r rows' ≡ ok (duplicate, again))
      × (map content again ≡ map content rows')
unfolding upsert_source_record
upsert_source_record-again o now later r rows rows' outcome kept e =
    let (v, valued, written) = >>=-eq_ok (record_values o now r) (λ v. write_values v rows) e in
    let (again, done, same) = again-written v later rows outcome rows' kept written in
    (
      again,
      ap (λ w. w >>= λ v. write_values v rows') (record_values-later o now later r v valued) ∙ done,
      same,
    )
