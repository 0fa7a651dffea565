-- ===== src/Time.antt =====
-- Points in time, durations and the timestamps that the database stores (`iso` and
-- `_parse_database_timestamp` of db.py). An instant is a number of microseconds in UTC.
use event_lead_ops_agent.Prelude.{
  ℕ, ◌*◌, ◌/◌, String, Bool, false, Option, none, some, Result, ok, err, value_error, runtime_error,
  type_error, leb, ltb,
}

-- A `datetime`: with no UTC offset, or at an instant.
pub data DateTime : Type 0 where
  naive aware : ℕ → DateTime

-- A TEXT column that holds a timestamp: what `iso` writes for an instant, what SQLite's
-- CURRENT_TIMESTAMP writes (UTC, but with no offset in the text), or a text that is no timestamp.
pub data Stamp : Type 0 where
  utc zoneless : ℕ → Stamp
  unreadable : Stamp

abbrev pub hours : ℕ → ℕ
hours n = n * 3600000000

abbrev pub minutes : ℕ → ℕ
minutes n = n * 60000000

-- `iso(value)`
unfoldable pub iso : DateTime → Result Stamp
iso (naive t) = err (value_error "database timestamps must be timezone-aware")
iso (aware t) = ok (utc t)

-- `_parse_database_timestamp`
unfoldable pub parse_database_timestamp : Stamp → Result ℕ
parse_database_timestamp (utc t) = ok t
parse_database_timestamp (zoneless t) =
    err (runtime_error "database timestamp is not timezone-aware")
parse_database_timestamp unreadable = err (runtime_error "database timestamp is invalid")

-- `value.tzinfo is None or value.utcoffset() is None`, and else the instant of `astimezone(UTC)`.
abbrev pub require_aware : DateTime → String → Result ℕ
require_aware (naive t) message = err (value_error message)
require_aware (aware t) message = ok t

-- Python's `a <= b`; an aware and a naive time cannot be compared.
abbrev pub le_datetime : DateTime → DateTime → Result Bool
le_datetime (naive a) (naive b) = ok (leb a b)
le_datetime (aware a) (aware b) = ok (leb a b)
le_datetime (naive a) (aware b) =
    err (type_error "can't compare offset-naive and offset-aware datetimes")
le_datetime (aware a) (naive b) =
    err (type_error "can't compare offset-naive and offset-aware datetimes")

-- SQL's `column >= ?` on the texts, where the parameter is the text of `iso` for an instant. Texts
-- of `iso` are ordered as their instants. A text of CURRENT_TIMESTAMP has a blank where `iso` has
-- a `T`, so on one day it stands below every text of `iso`. NULL is never at or above a text.
-- No call of the store writes a text that is no timestamp.
abbrev pub at_or_after : Option Stamp → ℕ → Bool
at_or_after none cutoff = false
at_or_after (some (utc t)) cutoff = leb cutoff t
at_or_after (some (zoneless t)) cutoff = ltb (cutoff / 86400000000) (t / 86400000000)
at_or_after (some unreadable) cutoff = false
