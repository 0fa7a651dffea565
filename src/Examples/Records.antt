-- ===== src/Examples/Records.antt =====
-- Tests of the records of observed listings.
use event_lead_ops_agent.Prelude.{
  ℕ, pos, String, ◌≡◌, refl, Option, none, some, List, [], map, Result, ok, err, integrity_error,
}
use event_lead_ops_agent.Json.{Json, object, end_fields}
use event_lead_ops_agent.Time.{aware, utc}
use event_lead_ops_agent.Models.{SourceRecord}
use event_lead_ops_agent.Records.{
  RecordRow, Outside, Upserted, inserted, updated, duplicate, row_of, upsert_source_record,
}
use event_lead_ops_agent.Records.Writing.Stored.{Stored}
use event_lead_ops_agent.Records.Writing.Again.{content, upsert_source_record-again}
use event_lead_ops_agent.Examples.{host}
use event_lead_ops_agent.Examples.Urls.{ascii}

abbrev outside : Outside
outside = record {
  host = record host { sha256 = λ s. s };
  unicode = ascii;
  isoformat = λ t. "2026-07-01T00:00:00+00:00";
}

abbrev listing : String → String → String → SourceRecord
listing external_id url title = record {
  source = "craigslist";
  external_id = external_id;
  record_type = "listing";
  canonical_url = url;
  title = title;
  body = "Wedding DJ wanted";
  location = " Tampa  Bay ";
  price_minor = some (pos 50000);
  currency = some "USD";
  posted_at = some (aware 100);
  metadata = object end_fields;
  raw_evidence_path = none;
}

-- The table after a call, which stays as it was if the call raises
abbrev rows_after : Result (Upserted × List RecordRow) → List RecordRow → List RecordRow
rows_after (ok (outcome, rows)) before = rows
rows_after (err e) before = before

abbrev outcome_of : Result (Upserted × List RecordRow) → Result Upserted
outcome_of (ok (outcome, rows)) = ok outcome
outcome_of (err e) = err e

abbrev first : SourceRecord
first = listing "12345678" "https://tampa.craigslist.org/12345678.html" "DJ"

table : List RecordRow
unfolding upsert_source_record
table = rows_after (upsert_source_record outside 200 first []) []

inserts : upsert_source_record outside 200 first [] ≡ ok (inserted, table)
unfolding upsert_source_record table event_lead_ops_agent.Prelude.find
inserts = refl

upsert_source_record-again_example :
    (again : List RecordRow) × (upsert_source_record outside 300 first table
      ≡ ok (duplicate, again))
    × (map content again ≡ map content table)
upsert_source_record-again_example =
    upsert_source_record-again outside 200 300 first [] table inserted tt inserts

abbrev renamed : SourceRecord
renamed = listing "12345678" "https://tampa.craigslist.org/12345678.html" "DJ for a wedding"

renamed_table : List RecordRow
unfolding upsert_source_record
renamed_table = rows_after (upsert_source_record outside 300 renamed table) table

updates : upsert_source_record outside 300 renamed table ≡ ok (updated, renamed_table)
unfolding upsert_source_record table renamed_table event_lead_ops_agent.Prelude.find
    event_lead_ops_agent.Texts.take event_lead_ops_agent.Json.dumps
    event_lead_ops_agent.Host.decimal
updates = refl

abbrev first_row : RecordRow
first_row = row_of outside 200 first (some (utc 100))

-- A listing that keeps its URL and changes its external ID keeps the row's ID, which was made from
-- the former one. A new listing with that external ID is then refused.
abbrev moved : SourceRecord
moved = listing "87654321" "https://tampa.craigslist.org/12345678.html" "DJ"

abbrev relisted : SourceRecord
relisted = listing "12345678" "https://tampa.craigslist.org/x/12345678.html" "DJ"

refuses_former_id :
    outcome_of (
      upsert_source_record outside 400 relisted
        (rows_after (upsert_source_record outside 300 moved table) table))
    ≡ err (integrity_error "UNIQUE constraint failed")
unfolding upsert_source_record table event_lead_ops_agent.Prelude.find
    event_lead_ops_agent.Texts.take event_lead_ops_agent.Prelude.update_where
refuses_former_id = refl
