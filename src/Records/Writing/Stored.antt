-- ===== src/Records/Writing/Stored.antt =====
-- When upsert_source_record of db.py writes, and the row that it leaves.
use event_lead_ops_agent.Prelude.{
  ℕ, String, ◌≡◌, ◌≢◌, Option, none, some, List, ◌==◌, ok, if◌then◌else◌,
}
use event_lead_ops_agent.Json.{dumps}
use event_lead_ops_agent.Models.{SourceRecord}
use event_lead_ops_agent.Time.{Stamp, utc}
use event_lead_ops_agent.Records.{
  RecordRow, Outside, Upserted, inserted, updated, duplicate, iso_or_none, record_id,
  content_hash_of, dedupe_key_of, upsert_source_record,
}
use event_lead_ops_agent.Records.Writing.{WellKept}
use event_lead_ops_agent.Records.Writing.Listings.{row_by_id, value}

-- The columns that the record gives
pub record Carries (o : Outside) (now : ℕ) (r : SourceRecord) (posted_at : Option Stamp)
    (row : RecordRow) : Type 0 where
  pub source : row.source ≡ r.source
  pub external_id : row.external_id ≡ r.external_id
  pub record_type : row.record_type ≡ r.record_type
  pub canonical_url : row.canonical_url ≡ r.canonical_url
  pub title : row.title ≡ r.title
  pub body : row.body ≡ r.body
  pub location : row.location ≡ r.location
  pub price_minor : row.price_minor ≡ r.price_minor
  pub currency : row.currency ≡ r.currency
  pub posted : row.posted_at ≡ posted_at
  pub raw_evidence_path : row.raw_evidence_path ≡ r.raw_evidence_path
  pub last_seen_at : row.last_seen_at ≡ utc now
  pub content_hash : row.content_hash ≡ content_hash_of o r posted_at
  pub dedupe_key : row.dedupe_key ≡ dedupe_key_of o r
  pub metadata_json : row.metadata_json ≡ dumps r.metadata

-- The columns that a new row is given and that a row keeps, and the answer
abbrev pub Answered : Outside → ℕ → SourceRecord → Option RecordRow → RecordRow → Upserted → Type 0
Answered o now r none row outcome =
    (row.id ≡ record_id o.host r.source r.external_id)
    × (row.first_seen_at ≡ utc now)
    × (row.stage ≡ "new")
    × (outcome ≡ inserted)
Answered o now r (some existing) row outcome =
    (row.id ≡ existing.id)
    × (row.first_seen_at ≡ existing.first_seen_at)
    × (row.stage ≡ existing.stage)
    × (outcome ≡ (if existing.content_hash == row.content_hash then duplicate else updated))

-- The call returns, with the record's row in a table that is otherwise the same.
pub record Stored (o : Outside) (now : ℕ) (r : SourceRecord) (rows : List RecordRow)
    (posted_at : Option Stamp) (before : Option RecordRow) : Type 0 where
  pub outcome : Upserted
  pub rows' : List RecordRow
  pub returns : upsert_source_record o now r rows ≡ ok (outcome, rows')
  pub row : RecordRow
  pub there : row_by_id row.id rows' ≡ some row
  pub carries : Carries o now r posted_at row
  pub answered : Answered o now r before row outcome
  pub others : (k : String) → row.id ≢ k → row_by_id k rows' ≡ row_by_id k rows
  pub kept : WellKept rows'

module _ (o : Outside) (now : ℕ) (r : SourceRecord) (posted_at : Option Stamp)
    (rows : List RecordRow) (kept : WellKept rows)
    (posted : iso_or_none r.posted_at ≡ ok posted_at) where
  abbrev v : RecordRow
  v = value o now r posted_at
