-- ===== src/Records/Writing/Upsert.antt =====
-- What upsert_source_record keeps, and what a second call with the same record does.
use event_lead_ops_agent.Prelude.{
  ℕ, String, ◌≡◌, refl, sym, ap, subst, ◌∙◌, Bool, true, false, not, ◌&&◌, ◌||◌, Option, none, some,
  List, [], ◌∷◌, ◌==◌, ok, if◌then◌else◌, find, update_where, arith, eq_iff, ==→eq, ==-sym,
  ||-both_false, Bool-cases, unok, inl, inr, >>=-eq_ok, raise_if-eq_ok,
}
use event_lead_ops_agent.Schema.Constraints.{exists}
use event_lead_ops_agent.Models.{SourceRecord}
use event_lead_ops_agent.Records.{
  RecordRow, Outside, Upserted, record_values, is_same_listing, set_values, insert_conflicts,
  update_conflicts, insert_values, update_values, write_values, upsert_source_record,
}
use event_lead_ops_agent.Records.Writing.{
  WellKept, has_id, is_stray, stray-none, find-none-weaken, find-none-either, find-none-skip,
  find-none-head, exists-none, update_where-absent,
}

pub near_source : (a b : Bool) → (a && not b) ≡ false → a ≡ true → b ≡ true
near_source true true e h = refl
near_source true false e h = cc
near_source false b e h = cc

module _ (v : RecordRow) (id : String) where
  abbrev pub changed : List RecordRow → List RecordRow
  changed rows = update_where (has_id id) (set_values v) rows

  changed-apart_here :
      (x : RecordRow) (rows : List RecordRow)
      → has_id id x ≡ true
      → is_stray v id x ≡ false
      → find (insert_conflicts x) rows ≡ none
      → find (update_conflicts v id) rows ≡ none
      → find (insert_conflicts (set_values v x)) (changed rows) ≡ none
  changed-apart_here x rows here near apart free =
      let no_id : find (has_id id) rows ≡ none =
        find-none-weaken (insert_conflicts x) (has_id id) rows
          (λ y is. ground (arith, eq_iff x.id id, eq_iff y.id id, eq_iff y.id x.id)) apart in
      ap (λ l. find (insert_conflicts (set_values v x)) l)
        (update_where-absent (has_id id) (set_values v) rows no_id)
      ∙ find-none-weaken (λ y. insert_conflicts x y || update_conflicts v id y)
          (insert_conflicts (set_values v x)) rows
          (λ y clash. ground (
            arith,
            eq_iff y.source x.source,
            eq_iff x.source v.source,
            eq_iff y.source v.source,
            eq_iff x.id id,
            eq_iff y.id id,
            eq_iff y.id x.id,
          ))
          (find-none-either (insert_conflicts x) (update_conflicts v id) rows apart free)

  same_listing-turned :
      (x y : RecordRow)
      → is_same_listing v x ≡ false
      → (y.source == v.source) ≡ true
      → is_same_listing x (set_values v y) ≡ false
  same_listing-turned x y other near =
      ap
        (λ s.
          s == x.source && (v.external_id == x.external_id || v.canonical_url == x.canonical_url))
        (==→eq y.source v.source near)
      ∙ (rw
          (
            ==-sym v.source x.source,
            ==-sym v.external_id x.external_id,
            ==-sym v.canonical_url x.canonical_url,
          )
          other)

  changed-row_apart :
      (x y : RecordRow)
      → is_same_listing v x ≡ false
      → insert_conflicts x y ≡ false
      → is_stray v id y ≡ false
      → insert_conflicts x (if has_id id y then set_values v y else y) ≡ false
  changed-row_apart x y other apart near = elim (Bool-cases (has_id id y)) [
    | inl here ↦
        let turned = same_listing-turned x y other (near_source _ _ near here) in
        ap (λ b. insert_conflicts x (if b then set_values v y else y)) here
        ∙ (ap (λ b. b || is_same_listing x (set_values v y)) (||-both_false _ _ apart).0 ∙ turned)
    | inr away ↦ ap (λ b. insert_conflicts x (if b then set_values v y else y)) away ∙ apart
  ]

  changed-apart_there :
      (x : RecordRow) (rows : List RecordRow)
      → is_same_listing v x ≡ false
      → find (insert_conflicts x) rows ≡ none
      → find (is_stray v id) rows ≡ none
      → find (insert_conflicts x) (changed rows) ≡ none
  unfolding update_where
  changed-apart_there x [] other apart near = apart
  changed-apart_there x (y ∷ rows) other apart near =
      let (first, later) = find-none-head (insert_conflicts x) y rows apart in
      let (settled, all_near) = find-none-head (is_stray v id) y rows near in
      find-none-skip (insert_conflicts x) _ (changed rows)
        (changed-row_apart x y other first settled)
        (changed-apart_there x rows other later all_near)

  WellKept-changed :
      (rows : List RecordRow)
      → WellKept rows
      → find (is_stray v id) rows ≡ none
      → find (update_conflicts v id) rows ≡ none
      → WellKept (changed rows)
  unfolding update_where
  WellKept-changed [] kept near free = tt
  WellKept-changed (x ∷ rows) kept near free =
      let (first, all_near) = find-none-head (is_stray v id) x rows near in
      let (alone, all_free) = find-none-head (update_conflicts v id) x rows free in
      (
        row_apart (has_id id x) refl first alone all_near all_free,
        WellKept-changed rows kept.1 all_near all_free,
      )
    where
      row_apart :
          (b : Bool)
          → has_id id x ≡ b
          → is_stray v id x ≡ false
          → update_conflicts v id x ≡ false
          → find (is_stray v id) rows ≡ none
          → find (update_conflicts v id) rows ≡ none
          → find (insert_conflicts (if b then set_values v x else x)) (changed rows) ≡ none
      row_apart true here near free all_near all_free =
          changed-apart_here x rows here near kept.0 all_free
      row_apart false away near free all_near all_free =
          changed-apart_there x rows (ap (λ b. not b && is_same_listing v x) (sym away) ∙ free)
            kept.0 all_near

module _ (v : RecordRow) where
  WellKept-write_values :
      (rows : List RecordRow) (outcome : Upserted) (rows' : List RecordRow)
      → WellKept rows
      → write_values v rows ≡ ok (outcome, rows')
      → WellKept rows'
  WellKept-write_values rows outcome rows' kept e = written (find (is_same_listing v) rows) refl e
    where
      written :
          (o : Option RecordRow)
          → find (is_same_listing v) rows ≡ o
          → elim o [ none ↦ insert_values v rows | some existing ↦ update_values v existing rows ]
            ≡ ok (outcome, rows')
          → WellKept rows'
      written none absent e =
          let (free, done) = raise_if-eq_ok (exists (insert_conflicts v) rows) _ _ e in
          subst WellKept (ap (λ r. r.1) (unok done))
            (exists-none (insert_conflicts v) rows free, kept)
      written (some existing) there e =
          let (free, done) = raise_if-eq_ok (exists (update_conflicts v existing.id) rows) _ _ e in
          subst WellKept (ap (λ r. r.1) (unok done)) (
            WellKept-changed v existing.id rows kept (stray-none v existing rows kept there)
              (exists-none (update_conflicts v existing.id) rows free))

-- upsert_source_record keeps the table well kept: if no two rows have one ID, one source and external
-- ID, or one source and URL, then none have after a call that returns.
pub upsert_source_record-WellKept :
    (o : Outside) (now : ℕ) (r : SourceRecord) (rows rows' : List RecordRow) (outcome : Upserted)
    → WellKept rows
    → upsert_source_record o now r rows ≡ ok (outcome, rows')
    → WellKept rows'
unfolding upsert_source_record
upsert_source_record-WellKept o now r rows rows' outcome kept e =
    let (v, valued, written) = >>=-eq_ok (record_values o now r) _ e in
    WellKept-write_values v rows outcome rows' kept written
