-- ===== src/Config/Scoring/Bounds.antt =====
-- What a scoring configuration that _validate_scoring accepts has.
use event_lead_ops_agent.Prelude.{
  pos, negsuc, ℕ, String, ◌≡◌, refl, sym, ap, ◌∙◌, subst, Bool, true, ◌&&◌, List, [], ◌∷◌, ok, ◌≤◌,
  ◌<◌, ltb, leb, nat_eq, arith, >>=-eq_ok, ensure-eq_ok, ensure-eq_true, >>-eq_ok, Bool-cases,
  &&-both, inl, inr,
}
use event_lead_ops_agent.Config.{
  Value, null, boolean, integer, other, text, list, mapping, Entries, end_entries, entry, get,
  has_key, is_key, values, as_mapping, positive_integer,
}
use event_lead_ops_agent.Config.Laws.{nat_eq→eq, as_mapping-eq_ok, positive_integer-eq_ok}
use event_lead_ops_agent.Config.Scoring.{
  scoring_weights, required, has_keys, keys_within, has_exactly, is_natural, natural, all_natural,
  sum, percentages, numbers, insert, sorted_reverse, same_numbers, is_filled, check_weights,
  check_thresholds, check_recency, validate_scoring,
}

-- Sorting gives a list in descending order.
descends : List ℕ → Bool
descends [] = true
descends (n ∷ []) = true
descends (n ∷ m ∷ rest) = leb m n && descends (m ∷ rest)

descends-insert : (n : ℕ) (rest : List ℕ) → descends rest ≡ true → descends (insert n rest) ≡ true
unfolding descends insert
descends-insert n [] e = refl
descends-insert n (m ∷ []) e = ground arith
descends-insert n (m ∷ k ∷ rest) e = ground (arith, descends-insert n (k ∷ rest))

descends-sorted_reverse : (levels : List ℕ) → descends (sorted_reverse levels) ≡ true
unfolding sorted_reverse descends
descends-sorted_reverse [] = refl
descends-sorted_reverse (n ∷ rest) =
    descends-insert n (sorted_reverse rest) (descends-sorted_reverse rest)

same_numbers→eq : (a b : List ℕ) → same_numbers a b ≡ true → a ≡ b
unfolding same_numbers
same_numbers→eq [] [] e = refl
same_numbers→eq [] (m ∷ b) e = cc
same_numbers→eq (n ∷ a) [] e = cc
same_numbers→eq (n ∷ a) (m ∷ b) e =
    let here : n ≡ m = ground arith in
    ap (λ k. k ∷ a) here ∙ ap (λ rest. m ∷ rest) (same_numbers→eq a b (ground arith))

is_natural→eq : (v : Value) → is_natural v ≡ true → v ≡ integer (pos (natural v))
is_natural→eq (integer (pos n)) e = refl
is_natural→eq (integer (negsuc n)) e = cc
is_natural→eq null e = cc
is_natural→eq (boolean b) e = cc
is_natural→eq (other s) e = cc
is_natural→eq (text s) e = cc
is_natural→eq (list vs) e = cc
is_natural→eq (mapping entries) e = cc

weight_of :
    (name : String) (weights : Entries)
    → has_key name weights ≡ true
    → all_natural (values weights) ≡ true
    → (is_natural (get name weights) ≡ true) × (natural (get name weights) ≤ sum (values weights))
unfolding has_key get values sum all_natural
weight_of name end_entries there all = absurd cc
weight_of name (entry key v weights) there all = elim (Bool-cases (is_key name key)) [
  | inl here ↦ (rw here (ground arith), rw here (ground arith))
  | inr away ↦
      let (whole, below) = weight_of name weights (ground arith) (ground arith) in
      (rw away whole, rw away (ground arith))
]

-- The mapping binds the name to a natural number that is at most `bound`.
abbrev pub Binds : Entries → ℕ → String → Type 0
Binds entries bound name = (n : ℕ) × (get name entries ≡ integer (pos n)) × (n ≤ bound)

abbrev pub BindsAll : Entries → ℕ → List String → Type 0
BindsAll entries bound [] = Unit
BindsAll entries bound (name ∷ names) = Binds entries bound name × BindsAll entries bound names

BindsAll-weights :
    (names : List String) (weights : Entries)
    → has_keys names weights ≡ true
    → all_natural (values weights) ≡ true
    → BindsAll weights (sum (values weights)) names
unfolding has_keys
BindsAll-weights [] weights there all = tt
BindsAll-weights (name ∷ names) weights there all =
    let (whole, below) = weight_of name weights (ground arith) all in
    (
      (natural (get name weights), is_natural→eq _ whole, below),
      BindsAll-weights names weights (ground arith) all,
    )

ordered_levels :
    (hot qualified review archive : ℕ)
    → same_numbers
        (hot ∷ qualified ∷ review ∷ archive ∷ [])
        (sorted_reverse (hot ∷ qualified ∷ review ∷ archive ∷ []))
      ≡ true
    → (review ≤ qualified) × (qualified ≤ hot)
unfolding descends
ordered_levels hot qualified review archive e =
    let levels = hot ∷ qualified ∷ review ∷ archive ∷ [] in
    let ordered : descends levels ≡ true =
      subst (λ l. descends l ≡ true) (sym (same_numbers→eq levels (sorted_reverse levels) e))
        (descends-sorted_reverse levels) in
    (ground arith, ground arith)

percentage_of :
    (name : String) (names : List String) (thresholds : Entries)
    → percentages (name ∷ names) thresholds ≡ true
    → (get name thresholds ≡ integer (pos (natural (get name thresholds))))
      × (natural (get name thresholds) ≤ 100)
      × (percentages names thresholds ≡ true)
unfolding percentages
percentage_of name names thresholds e =
    (is_natural→eq (get name thresholds) (ground arith), ground arith, ground arith)

-- The names and no others, each with a natural number, and 100 in all.
abbrev pub ValidWeights : Entries → Type 0
ValidWeights weights =
    (keys_within scoring_weights weights ≡ true)
    × BindsAll weights 100 scoring_weights
    × (sum (values weights) ≡ 100)

ValidWeights-check_weights :
    (weights : Entries) → check_weights weights ≡ ok tt → ValidWeights weights
unfolding check_weights has_exactly
ValidWeights-check_weights weights e =
    let (exact, e1) =
      ensure-eq_ok (has_exactly scoring_weights weights && all_natural (values weights)) _ _ e in
    let total : sum (values weights) ≡ 100 =
      ground (arith, ensure-eq_true (nat_eq (sum (values weights)) 100) _ e1) in
    (
      ground arith,
      subst (λ bound. BindsAll weights bound scoring_weights) total
          (BindsAll-weights scoring_weights weights (ground arith) (ground arith)),
      total,
    )

pub record ValidThresholds (thresholds : Entries) : Type 0 where
  pub hot : ℕ
  pub qualified : ℕ
  pub review : ℕ
  pub is_hot : get "hot" thresholds ≡ integer (pos hot)
  pub is_qualified : get "qualified" thresholds ≡ integer (pos qualified)
  pub is_review : get "review" thresholds ≡ integer (pos review)
  pub is_archive : get "archive_below" thresholds ≡ integer (pos review)
  pub ordered : (review ≤ qualified) × (qualified ≤ hot) × (hot ≤ 100)

ValidThresholds-check_thresholds :
    (thresholds : Entries) → check_thresholds thresholds ≡ ok tt → ValidThresholds thresholds
unfolding check_thresholds numbers
ValidThresholds-check_thresholds thresholds e =
    let (levels, e1) =
      ensure-eq_ok (has_exactly required thresholds && percentages required thresholds) _ _ e in
    let (descending, e2) =
      ensure-eq_ok
        (same_numbers (numbers required thresholds) (sorted_reverse (numbers required thresholds)))
        _ _ e1 in
    let same =
      ensure-eq_true
        (nat_eq (natural (get "archive_below" thresholds)) (natural (get "review" thresholds))) _
        e2 in
    let (exact, passed) =
      &&-both (has_exactly required thresholds) (percentages required thresholds) levels in
    let (hot, h, l1) =
      percentage_of "hot" ("qualified" ∷ "review" ∷ "archive_below" ∷ []) thresholds passed in
    let (qualified, q, l2) =
      percentage_of "qualified" ("review" ∷ "archive_below" ∷ []) thresholds l1 in
    let (review, r, l3) = percentage_of "review" ("archive_below" ∷ []) thresholds l2 in
    let (archive, a, l4) = percentage_of "archive_below" [] thresholds l3 in
    let (low, high) = ordered_levels _ _ _ _ descending in
    record {
      hot = natural (get "hot" thresholds);
      qualified = natural (get "qualified" thresholds);
      review = natural (get "review" thresholds);
      is_hot = hot;
      is_qualified = qualified;
      is_review = review;
      is_archive = archive ∙ ap (λ n. integer (pos n)) (nat_eq→eq _ _ same);
      ordered = (low, high, h);
    }

abbrev pub ValidRecency : Entries → Type 0
ValidRecency recency =
    (maximum full : ℕ) × (get "maximum" recency ≡ integer (pos maximum))
    × (get "full_score_through" recency ≡ integer (pos full))
    × (full < maximum)

ValidRecency-check_recency :
    (recency : Entries) → check_recency recency ≡ ok tt → ValidRecency recency
unfolding check_recency
ValidRecency-check_recency recency e =
    let (maximum, m, e1) =
      >>=-eq_ok (positive_integer (get "maximum" recency) "recency_days.maximum") _ e in
    let full = get "full_score_through" recency in
    let below = ensure-eq_true (is_natural full && ltb (natural full) maximum) _ e1 in
    let (given, filled) = positive_integer-eq_ok _ _ maximum m in
    (maximum, natural full, given, is_natural→eq full (ground arith), ground arith)

pub record ValidScoring (config : Entries) : Type 0 where
  pub weights : Entries
  pub given_weights : get "weights" config ≡ mapping weights
  pub valid_weights : ValidWeights weights
  pub thresholds : Entries
  pub given_thresholds : get "thresholds" config ≡ mapping thresholds
  pub valid_thresholds : ValidThresholds thresholds
  pub recency : Entries
  pub given_recency : get "recency_days" config ≡ mapping recency
  pub valid_recency : ValidRecency recency

-- A scoring configuration that _validate_scoring accepts has exactly the eight weights, natural
-- numbers of at most 100 each and of 100 in all; natural thresholds of which review is at most
-- qualified, qualified at most hot, hot at most 100, and archive_below equal to review; and a
-- natural recency_days.full_score_through below recency_days.maximum.
pub validate_scoring-ValidScoring :
    (config : Entries) → validate_scoring config ≡ ok tt → ValidScoring config
unfolding validate_scoring
validate_scoring-ValidScoring config e =
    let (weights, w, e1) = >>=-eq_ok (as_mapping (get "weights" config) "weights") _ e in
    let (thresholds, t, e2) = >>=-eq_ok (as_mapping (get "thresholds" config) "thresholds") _ e1 in
    let (filled, e3) = ensure-eq_ok (is_filled weights && is_filled thresholds) _ _ e2 in
    let (weighed, e4) = >>-eq_ok (check_weights weights) _ e3 in
    let (levels, e5) = >>-eq_ok (check_thresholds thresholds) _ e4 in
    let (recency, r, e6) = >>=-eq_ok (as_mapping (get "recency_days" config) "recency_days") _ e5 in
    record {
      weights = weights;
      given_weights = as_mapping-eq_ok _ _ weights w;
      valid_weights = ValidWeights-check_weights weights weighed;
      thresholds = thresholds;
      given_thresholds = as_mapping-eq_ok _ _ thresholds t;
      valid_thresholds = ValidThresholds-check_thresholds thresholds levels;
      recency = recency;
      given_recency = as_mapping-eq_ok _ _ recency r;
      valid_recency = ValidRecency-check_recency recency e6;
    }
