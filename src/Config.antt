-- ===== src/Config.antt =====
-- The values that `yaml.safe_load` returns, and canonical_source, _mapping and _positive_integer of
-- config.py; the children are its validators.
pub mod Laws
pub mod Cron
pub mod Scoring
pub mod Platforms
pub mod Business
pub mod Schedules
pub mod Loading
use event_lead_ops_agent.Prelude.{
  ℤ, pos, negsuc, ℕ, zero, suc, String, Bool, true, false, not, ◌&&◌, ◌||◌, ◌==◌, ◌+++◌, List, [],
  ◌∷◌, Result, ok, err, ◌>>=◌, ◌>>◌, ensure, value_error, if◌then◌else◌,
}
use event_lead_ops_agent.Texts.{Chars, chars, Unicode, same_chars, strip, lower}

-- A key of a mapping that is not a text is kept as its representation.
pub data Key : Type 0 where
  named : String → Key
  other_key : String → Key

-- `other` is a value of another type (a float, a date, bytes, a set), kept as its representation.
mutual
  pub data Value : Type 0 where
    null : Value
    boolean : Bool → Value
    integer : ℤ → Value
    other : String → Value
    text : String → Value
    list : Values → Value
    mapping : Entries → Value

  pub data Values : Type 0 where
    end_values : Values
    value : Value → Values → Values

  pub data Entries : Type 0 where
    end_entries : Entries
    entry : Key → Value → Entries → Entries

abbrev pub is_key : String → Key → Bool
is_key name (named k) = k == name
is_key name (other_key k) = false

-- `config.get(name)`, which is `None` where there is no such key
unfoldable pub get : String → Entries → Value
get name end_entries = null
get name (entry key v entries) =
    let later = get name entries in if is_key name key then v else later

unfoldable pub has_key : String → Entries → Bool
has_key name end_entries = false
has_key name (entry key v entries) = is_key name key || has_key name entries

unfoldable pub listed : Values → List Value
listed end_values = []
listed (value v vs) = v ∷ listed vs

-- `value is True` and `value is False`
abbrev pub is_true : Value → Bool
is_true (boolean b) = b
is_true _ = false

abbrev pub is_false : Value → Bool
is_false (boolean b) = not b
is_false _ = false

unfoldable pub is_one_of : String → List String → Bool
is_one_of name [] = false
is_one_of name (n ∷ names) = (name == n) || is_one_of name names

-- `list(mapping.values())`
unfoldable pub values : Entries → List Value
values end_entries = []
values (entry key v entries) = v ∷ values entries

unfoldable pub canonical_source : Unicode → String → Result String
canonical_source u source =
    let key = lower u (strip (chars source)) in
    if same_chars key (chars "craigslist")
    then ok "craigslist"
    else if same_chars key (chars "facebook")
        || (same_chars key (chars "facebook-marketplace")
            || same_chars key (chars "facebook_marketplace"))
    then ok "facebook_marketplace"
    else err (value_error "unknown source: ")

-- `_mapping`
abbrev pub as_mapping : Value → String → Result Entries
as_mapping (mapping entries) name = ok entries
as_mapping _ name = err (value_error (name +++ " must be a mapping"))

-- `_positive_integer`
abbrev pub positive_integer : Value → String → Result ℕ
positive_integer (integer (pos (suc n))) name = ok (suc n)
positive_integer _ name = err (value_error (name +++ " must be a positive integer"))
