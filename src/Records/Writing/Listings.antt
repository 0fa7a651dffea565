-- ===== src/Records/Writing/Listings.antt =====
-- What upsert_source_record of db.py finds in the table of the record's listing.
use event_lead_ops_agent.Prelude.{
  ℕ, String, ◌≡◌, refl, sym, ap, subst, ◌∙◌, ◌⊎◌, inl, inr, Bool, true, Option, none, some, List,
  [], ◌∷◌, ◌==◌, ok, find, by_key, arith, eq_iff, eq→==, ==→eq, Bool-cases, Option-cases, ◌>>=◌,
}
use event_lead_ops_agent.Models.{SourceRecord}
use event_lead_ops_agent.Time.{Stamp}
use event_lead_ops_agent.Records.{
  RecordRow, Outside, iso_or_none, row_of, record_id, record_values, is_same_listing,
  insert_conflicts, write_values, upsert_source_record,
}
use event_lead_ops_agent.Records.Writing.{
  WellKept, has_id, find-none-found, find-first, find-here, find-later,
}
use event_lead_ops_agent.Records.Writing.Again.{find-holds}

abbrev pub row_by_id : String → List RecordRow → Option RecordRow
row_by_id id rows = by_key (λ row. row.id) rows id

-- The row is of the record's listing: its source, with its ID or its URL.
abbrev pub IsListing : SourceRecord → RecordRow → Type 0
IsListing r row =
    (row.source ≡ r.source)
    × ((row.external_id ≡ r.external_id) ⊎ (row.canonical_url ≡ r.canonical_url))

-- What the table has of the listing before a call: nothing, and no row of its new ID; or one row
abbrev pub Found : Outside → SourceRecord → List RecordRow → Option RecordRow → Type 0
Found o r rows none =
    ((x : RecordRow) → row_by_id x.id rows ≡ some x → IsListing r x → ⊥)
    × (row_by_id (record_id o.host r.source r.external_id) rows ≡ none)
Found o r rows (some existing) =
    (row_by_id existing.id rows ≡ some existing)
    × IsListing r existing
    × ((x : RecordRow) → row_by_id x.id rows ≡ some x → IsListing r x → x.id ≡ existing.id)

-- In a table in order, a row that a search finds is the one of its ID.
pub found-by_id :
    (p : RecordRow → Bool) (rows : List RecordRow) (x : RecordRow)
    → WellKept rows
    → find p rows ≡ some x
    → row_by_id x.id rows ≡ some x
unfolding find
found-by_id p [] x kept e = cc e
found-by_id p (y ∷ rows) x kept e = elim (Bool-cases (p y)) [
  | inl here ↦
      subst (λ z. find (has_id z.id) (y ∷ rows) ≡ some z) (find-first p y rows here e)
        (find-here (has_id y.id) y rows (eq→== y.id y.id refl))
  | inr away ↦
      let later : find p rows ≡ some x = sym (find-later p y rows away) ∙ e in
      let apart = find-none-found p (insert_conflicts y) rows x kept.0 later in
      find-later (has_id x.id) y rows (ground (arith, eq_iff x.id y.id, eq_iff y.id x.id))
      ∙ found-by_id p rows x kept.1 later
]

pub not_found :
    (p : RecordRow → Bool) (rows : List RecordRow)
    → WellKept rows
    → ((x : RecordRow) → row_by_id x.id rows ≡ some x → p x ≡ true → ⊥)
    → find p rows ≡ none
not_found p rows kept never = elim (Option-cases (find p rows)) [
  | inl gone ↦ gone
  | inr (x, there) ↦ absurd (never x (found-by_id p rows x kept there) (find-holds p rows there))
]

module _ (o : Outside) (now : ℕ) (r : SourceRecord) (posted_at : Option Stamp) where
  abbrev pub value : RecordRow
  value = row_of o now r posted_at

  pub IsListing-of : (x : RecordRow) → is_same_listing value x ≡ true → IsListing r x
  unfolding row_of
  IsListing-of x e = elim (Bool-cases (x.external_id == r.external_id)) [
    | inl same ↦ (ground (arith, eq_iff x.source r.source), inl (==→eq _ _ same))
    | inr other ↦ (
      ground (arith, eq_iff x.source r.source),
      inr (ground (arith, eq_iff x.canonical_url r.canonical_url)),
    )
  ]

  pub listing-same : (x : RecordRow) → IsListing r x → is_same_listing value x ≡ true
  unfolding row_of
  listing-same x (source, inl id) =
      ground (arith, eq→== x.source r.source source, eq→== x.external_id r.external_id id)
  listing-same x (source, inr url) =
      ground (arith, eq→== x.source r.source source, eq→== x.canonical_url r.canonical_url url)

  pub upserts :
      (rows : List RecordRow)
      → iso_or_none r.posted_at ≡ ok posted_at
      → upsert_source_record o now r rows ≡ write_values value rows
  unfolding upsert_source_record record_values
  upserts rows posted =
      ap (λ p. (p >>= λ q. ok (row_of o now r q)) >>= λ v. write_values v rows) posted
