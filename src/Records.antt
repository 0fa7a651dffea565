-- ===== src/Records.antt =====
-- _record_id, _record_values and upsert_source_record of db.py, and the table source_records. No
-- other operation reads or writes that table but status_summary, which counts its rows.
pub mod Writing
use event_lead_ops_agent.Prelude.{
  ℕ, zero, suc, ◌+◌, ℤ, pos, negsuc, String, Bool, true, false, not, ◌&&◌, ◌||◌, Option, none, some,
  List, [], ◌∷◌, ◌+++◌, ◌==◌, Result, ok, err, ◌>>=◌, ◌>>◌, raise_if, integrity_error,
  if◌then◌else◌, find, update_where,
}
use event_lead_ops_agent.Json.{Json, null, number, text, object, field, end_fields, dumps}
use event_lead_ops_agent.Host.{Host, decimal}
use event_lead_ops_agent.Texts.{
  Chars, chars, string, Unicode, join, lower, strip, split_words, take,
}
use event_lead_ops_agent.Time.{DateTime, Stamp, utc, iso}
use event_lead_ops_agent.Models.{SourceRecord}
use event_lead_ops_agent.Schema.Constraints.{exists}

-- The columns score and score_explanation_json, which no statement sets, are left out.
pub record RecordRow : Type 0 where
  pub id : String
  pub source : String
  pub external_id : String
  pub record_type : String
  pub canonical_url : String
  pub title : String
  pub body : String
  pub location : String
  pub price_minor : Option ℤ
  pub currency : Option String
  pub posted_at : Option Stamp
  pub first_seen_at : Stamp
  pub last_seen_at : Stamp
  pub content_hash : String
  pub dedupe_key : String
  pub raw_evidence_path : Option String
  pub metadata_json : String
  pub stage : String

pub data Upserted : Type 0 where
  inserted updated duplicate : Upserted

-- What the calls take from outside: the host, the tables of Unicode, and `isoformat()` of an
-- instant in UTC.
pub record Outside : Type 0 where
  pub host : Host
  pub unicode : Unicode
  pub isoformat : ℕ → String

unfoldable pub record_id : Host → String → String → String
record_id h source external_id =
    string (take 32 (chars (h.sha256 (source +++ (":" +++ external_id)))))

abbrev integer_text : ℤ → String
integer_text (pos n) = decimal n
integer_text (negsuc n) = "-" +++ decimal (suc n)

abbrev number_or_null : Option ℤ → Json
number_or_null none = null
number_or_null (some n) = number (integer_text n)

abbrev text_or_null : Option String → Json
text_or_null none = null
text_or_null (some s) = text s

abbrev stamp_or_null : (ℕ → String) → Option Stamp → Json
stamp_or_null isoformat (some (utc t)) = text (isoformat t)
stamp_or_null isoformat _ = null

-- `iso(value) if value else None`
abbrev pub iso_or_none : Option DateTime → Result (Option Stamp)
iso_or_none none = ok none
iso_or_none (some t) = iso t >>= λ s. ok (some s)

-- `content_hash`
unfoldable pub content_hash_of : Outside → SourceRecord → Option Stamp → String
content_hash_of o r posted_at = o.host.sha256 (
    dumps (
      object (
        field "title" (text r.title) (
          field "body" (text r.body) (
            field "location" (text r.location) (
              field "price_minor" (number_or_null r.price_minor) (
                field "currency" (text_or_null r.currency) (
                  field "posted_at" (stamp_or_null o.isoformat posted_at)
                    (field "metadata" r.metadata end_fields)))))))))

abbrev tag_text : Unicode → String → Chars
tag_text u s = strip (lower u (chars s))

abbrev words_text : Unicode → String → Chars
words_text u s = join (chars " ") (split_words (lower u (chars s)))

-- `dedupe_key`
unfoldable pub dedupe_key_of : Outside → SourceRecord → String
dedupe_key_of o r = o.host.sha256 (
    string (
      join (chars "|") (
        tag_text o.unicode r.source
        ∷ tag_text o.unicode r.record_type
        ∷ words_text o.unicode r.title
        ∷ words_text o.unicode r.location
        ∷ [])))

-- The values of a new row; `now` is the clock's reading.
unfoldable pub row_of : Outside → ℕ → SourceRecord → Option Stamp → RecordRow
unfolding record_id content_hash_of dedupe_key_of
row_of o now r posted_at = record {
  id = record_id o.host r.source r.external_id;
  source = r.source;
  external_id = r.external_id;
  record_type = r.record_type;
  canonical_url = r.canonical_url;
  title = r.title;
  body = r.body;
  location = r.location;
  price_minor = r.price_minor;
  currency = r.currency;
  posted_at = posted_at;
  first_seen_at = utc now;
  last_seen_at = utc now;
  content_hash = content_hash_of o r posted_at;
  dedupe_key = dedupe_key_of o r;
  raw_evidence_path = r.raw_evidence_path;
  metadata_json = dumps r.metadata;
  stage = "new";
}

unfoldable pub record_values : Outside → ℕ → SourceRecord → Result RecordRow
unfolding iso row_of
record_values o now r = do posted_at ← iso_or_none r.posted_at; ok (row_of o now r posted_at)

-- `source=? AND (external_id=? OR canonical_url=?)`
abbrev pub is_same_listing : RecordRow → RecordRow → Bool
is_same_listing v row =
    row.source == v.source
    && (row.external_id == v.external_id || row.canonical_url == v.canonical_url)

-- `UPDATE source_records SET …`
abbrev pub set_values : RecordRow → RecordRow → RecordRow
set_values v row = record row {
  external_id = v.external_id;
  record_type = v.record_type;
  canonical_url = v.canonical_url;
  title = v.title;
  body = v.body;
  location = v.location;
  price_minor = v.price_minor;
  currency = v.currency;
  posted_at = v.posted_at;
  last_seen_at = v.last_seen_at;
  content_hash = v.content_hash;
  dedupe_key = v.dedupe_key;
  raw_evidence_path = v.raw_evidence_path;
  metadata_json = v.metadata_json;
}

-- The constraints that a new row, and the changed row of an ID, can break: PRIMARY KEY (id),
-- UNIQUE (source, external_id) and UNIQUE (source, canonical_url).
abbrev pub insert_conflicts : RecordRow → RecordRow → Bool
insert_conflicts v row = row.id == v.id || is_same_listing v row

abbrev pub update_conflicts : RecordRow → String → RecordRow → Bool
update_conflicts v id row = not (row.id == id) && is_same_listing v row

abbrev insert_values : RecordRow → List RecordRow → Result (Upserted × List RecordRow)
insert_values v rows = do
  raise_if (exists (insert_conflicts v) rows) (integrity_error "UNIQUE constraint failed")
  ok (inserted, v ∷ rows)

abbrev update_values : RecordRow → RecordRow → List RecordRow → Result (Upserted × List RecordRow)
update_values v existing rows = do
  raise_if (exists (update_conflicts v existing.id) rows)
      (integrity_error "UNIQUE constraint failed")
  ok (
    if existing.content_hash == v.content_hash then duplicate else updated,
    update_where (λ row. row.id == existing.id) (set_values v) rows,
  )

abbrev pub write_values : RecordRow → List RecordRow → Result (Upserted × List RecordRow)
write_values v rows = elim (find (is_same_listing v) rows) [
  | none ↦ insert_values v rows
  | some existing ↦ update_values v existing rows
]

unfoldable pub upsert_source_record :
    Outside → ℕ → SourceRecord → List RecordRow → Result (Upserted × List RecordRow)
unfolding record_values
upsert_source_record o now r rows = do v ← record_values o now r; write_values v rows
