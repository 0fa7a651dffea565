-- ===== src/Config/Business.antt =====
-- _validate_business of config.py. `ZoneInfo` is a parameter.
pub mod Offers
use event_lead_ops_agent.Prelude.{
  ℕ, suc, String, Bool, true, false, not, ◌&&◌, ◌||◌, ◌==◌, ◌+++◌, List, [], ◌∷◌, Result, ok, err,
  Error, ◌>>=◌, ◌>>◌, ensure, raise_if, value_error, if◌then◌else◌,
}
use event_lead_ops_agent.Host.{decimal}
use event_lead_ops_agent.Texts.{chars, is_empty, strip}
use event_lead_ops_agent.Config.{Value, text, list, Entries, get, listed, is_one_of, as_mapping}

-- What `ZoneInfo(key)` does: it returns, or raises ZoneInfoNotFoundError or another exception.
pub data Zone : Type 0 where
  found not_found : Zone
  raised : Error → Zone

abbrev pub check_zone : Zone → String → Result (Unit {0})
check_zone found message = ok tt
check_zone not_found message = err (value_error message)
check_zone (raised e) message = err e

-- `isinstance(value, str) and value.strip()`
abbrev pub is_filled_text : Value → Bool
is_filled_text (text s) = not (is_empty (strip (chars s)))
is_filled_text _ = false

-- The text of a value that is one
abbrev pub text_of : Value → String
text_of (text s) = s
text_of _ = ""

-- `list and value`: a list with an element
abbrev pub as_filled_list : Value → String → Result (List Value)
as_filled_list (list vs) message = elim (listed vs) [
  | [] ↦ err (value_error message)
  | v ∷ rest ↦ ok (v ∷ rest)
]
as_filled_list _ message = err (value_error message)

-- The loop over the offers: their IDs, in order
unfoldable pub offer_ids : ℕ → List Value → Result (List String)
unfolding decimal strip
offer_ids index [] = ok []
offer_ids index (v ∷ offers) = do
  let name = "offers[" +++ (decimal index +++ "]")
  offer ← as_mapping v name
  let id = get "id" offer
  ensure (is_filled_text id) (value_error (name +++ ".id is required"))
  ids ← offer_ids (suc index) offers
  ok (text_of id ∷ ids)

-- `len(ids) == len(set(ids))`
unfoldable pub all_distinct : List String → Bool
all_distinct [] = true
all_distinct (id ∷ ids) = not (is_one_of id ids) && all_distinct ids

unfoldable pub check_fields : Entries → List String → Result (Unit {0})
unfolding strip
check_fields business [] = ok tt
check_fields business (field ∷ fields) = do
  ensure (is_filled_text (get field business))
      (value_error ("business." +++ (field +++ " is required")))
  check_fields business fields

unfoldable pub validate_business : (String → Zone) → Entries → Result (Unit {0})
unfolding offer_ids all_distinct check_fields
validate_business zone_info config = do
  business ← as_mapping (get "business" config) "business"
  check_fields business ("name" ∷ "market" ∷ "timezone" ∷ [])
  check_zone (zone_info (text_of (get "timezone" business)))
      "business.timezone must be a valid IANA timezone"
  offers ← as_filled_list (get "offers" config) "offers must be a non-empty list"
  ids ← offer_ids 0 offers
  ensure (all_distinct ids) (value_error "offer IDs must be unique")
