-- ===== src/Config/Scoring.antt =====
-- _validate_scoring of config.py.
pub mod Bounds
use event_lead_ops_agent.Prelude.{
  ℤ, pos, negsuc, ℕ, zero, suc, ◌+◌, String, Bool, true, false, not, ◌&&◌, ◌||◌, ◌==◌, List, [],
  ◌∷◌, map, Result, ok, err, ◌>>=◌, ◌>>◌, ensure, raise_if, value_error, ltb, leb, nat_eq,
  if◌then◌else◌,
}
use event_lead_ops_agent.Config.{
  Key, named, other_key, Value, integer, Entries, end_entries, entry, get, has_key, is_one_of,
  values, as_mapping, positive_integer,
}

abbrev pub scoring_weights : List String
scoring_weights =
    "explicit_event_intent" ∷ "recency" ∷ "service_area_fit" ∷ "offer_fit"
    ∷ "budget_or_price_signal" ∷ "contactability" ∷ "cross_source_match" ∷ "urgency" ∷ []

abbrev pub required : List String
required = "hot" ∷ "qualified" ∷ "review" ∷ "archive_below" ∷ []

abbrev pub is_name_of : List String → Key → Bool
is_name_of names (named k) = is_one_of k names
is_name_of names (other_key k) = false

unfoldable pub keys_within : List String → Entries → Bool
unfolding is_one_of
keys_within names end_entries = true
keys_within names (entry key v entries) = is_name_of names key && keys_within names entries

unfoldable pub has_keys : List String → Entries → Bool
has_keys [] entries = true
has_keys (name ∷ names) entries = has_key name entries && has_keys names entries

-- `set(mapping) == set(names)`
unfoldable pub has_exactly : List String → Entries → Bool
unfolding keys_within has_keys
has_exactly names entries = keys_within names entries && has_keys names entries

-- `isinstance(value, int) and not isinstance(value, bool) and value >= 0`
abbrev pub is_natural : Value → Bool
is_natural (integer (pos n)) = true
is_natural _ = false

-- The number of a value that is a natural number
abbrev pub natural : Value → ℕ
natural (integer (pos n)) = n
natural _ = 0

unfoldable pub all_natural : List Value → Bool
all_natural [] = true
all_natural (v ∷ vs) = is_natural v && all_natural vs

unfoldable pub sum : List Value → ℕ
sum [] = 0
sum (v ∷ vs) = natural v + sum vs

abbrev pub is_percentage : Value → Bool
is_percentage v = is_natural v && leb (natural v) 100

unfoldable pub percentages : List String → Entries → Bool
percentages [] thresholds = true
percentages (name ∷ names) thresholds =
    is_percentage (get name thresholds) && percentages names thresholds

-- `tuple(thresholds[name] for name in names)`
unfoldable pub numbers : List String → Entries → List ℕ
numbers [] thresholds = []
numbers (name ∷ names) thresholds = natural (get name thresholds) ∷ numbers names thresholds

-- `sorted(values, reverse=True)`, and `==` of two such lists
unfoldable pub insert : ℕ → List ℕ → List ℕ
insert n [] = n ∷ []
insert n (m ∷ rest) = let later = insert n rest in if leb m n then n ∷ m ∷ rest else m ∷ later

unfoldable pub sorted_reverse : List ℕ → List ℕ
unfolding insert
sorted_reverse [] = []
sorted_reverse (n ∷ rest) = insert n (sorted_reverse rest)

unfoldable pub same_numbers : List ℕ → List ℕ → Bool
same_numbers [] [] = true
same_numbers (n ∷ rest) (m ∷ other) = nat_eq n m && same_numbers rest other
same_numbers [] (m ∷ other) = false
same_numbers (n ∷ rest) [] = false

abbrev pub is_filled : Entries → Bool
is_filled end_entries = false
is_filled (entry key v entries) = true

-- The checks of `weights`, of `thresholds` and of `recency_days`
unfoldable pub check_weights : Entries → Result (Unit {0})
unfolding has_exactly all_natural sum
check_weights weights = do
  ensure (has_exactly scoring_weights weights && all_natural (values weights))
      (value_error "scoring weights must be the exact required set of non-negative integers")
  ensure (nat_eq (sum (values weights)) 100) (value_error "scoring weights must sum to 100")

unfoldable pub check_thresholds : Entries → Result (Unit {0})
unfolding has_exactly percentages numbers sorted_reverse same_numbers
check_thresholds thresholds = do
  ensure (has_exactly required thresholds && percentages required thresholds)
      (value_error "scoring thresholds must be integers between 0 and 100")
  let levels = numbers required thresholds
  ensure (same_numbers levels (sorted_reverse levels))
      (value_error "thresholds must satisfy hot >= qualified >= review >= archive_below")
  ensure (nat_eq (natural (get "archive_below" thresholds)) (natural (get "review" thresholds)))
      (value_error "archive_below must equal review")

unfoldable pub check_recency : Entries → Result (Unit {0})
check_recency recency = do
  maximum ← positive_integer (get "maximum" recency) "recency_days.maximum"
  let full = get "full_score_through" recency
  ensure (is_natural full && ltb (natural full) maximum)
      (value_error "recency_days.full_score_through must be non-negative and less than maximum")

unfoldable pub validate_scoring : Entries → Result (Unit {0})
unfolding check_weights check_thresholds check_recency
validate_scoring config = do
  weights ← as_mapping (get "weights" config) "weights"
  thresholds ← as_mapping (get "thresholds" config) "thresholds"
  ensure (is_filled weights && is_filled thresholds)
      (value_error "weights and thresholds are required")
  check_weights weights
  check_thresholds thresholds
  recency ← as_mapping (get "recency_days" config) "recency_days"
  check_recency recency
