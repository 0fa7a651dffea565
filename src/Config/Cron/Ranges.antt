-- ===== src/Config/Cron/Ranges.antt =====
-- The expressions that _validate_cron accepts: five fields, whose parts are `*`, a number or a
-- range of numbers, each with a step or without one.

use event_lead_ops_agent.Prelude.{
  ℕ, String, ◌≡◌, refl, ap, ◌∙◌, ◌⊎◌, inl, inr, Bool, true, false, ◌&&◌, ◌||◌, List, [], ◌∷◌, ok,
  ◌≤◌, ltb, nat_eq, if◌then◌else◌, arith, >>=-eq_ok, ensure-eq_ok, unok, ensure-eq_true,
  raise_if-eq_false, >>-eq_ok, sym, subst, suc,
}
use event_lead_ops_agent.Texts.{
  Chars, chars, Unicode, length, partition, same_chars, split_at, split_words,
}
use event_lead_ops_agent.Config.Cron.{
  int_of, ints_of, each, is_digits, check_step, in_range, is_reversed, check_bounds, check_part,
  check_parts, check_fields, cron_ranges, validate_cron,
}

abbrev pub Each {ℓ} : {A : Type ℓ} → (A → Type 0) → List A → Type 0
Each P [] = Unit
Each P (a ∷ rest) = P a × Each P rest

-- A number, or two in order, within the range of the field.
abbrev pub InRange : ℕ → ℕ → List ℕ → Type 0
InRange minimum maximum [] = ⊥
InRange minimum maximum (a ∷ []) = (minimum ≤ a) × (a ≤ maximum)
InRange minimum maximum (a ∷ b ∷ []) = (minimum ≤ a) × (a ≤ b) × (b ≤ maximum)
InRange minimum maximum (a ∷ b ∷ c ∷ rest) = ⊥

-- What the texts between the dashes read as.
abbrev pub Bounds : Unicode → ℕ → ℕ → List Chars → Type 0
Bounds u minimum maximum texts =
    (numbers : List ℕ) × (ints_of u texts ≡ ok numbers) × InRange minimum maximum numbers

abbrev pub Step : Unicode → Bool → Chars → Type 0
Step u false step = Unit
Step u true step = (n : ℕ) × (int_of u step ≡ ok n) × (1 ≤ n)

abbrev pub Part : Unicode → ℕ → ℕ → Chars → Type 0
Part u minimum maximum part =
    let (base, separator, step) = partition b'/' part in
    Step u separator step
    × ((same_chars base (chars "*") ≡ true) ⊎ Bounds u minimum maximum (split_at b'-' base))

abbrev pub Field : Unicode → ℕ × ℕ → Chars → Type 0
Field u (minimum, maximum) field = Each (Part u minimum maximum) (split_at b',' field)

abbrev pub Fields : Unicode → List Chars → List (ℕ × ℕ) → Type 0
Fields u [] [] = Unit
Fields u (field ∷ fields) (range ∷ ranges) = Field u range field × Fields u fields ranges
Fields u [] (range ∷ ranges) = ⊥
Fields u (field ∷ fields) [] = ⊥

module _ (u : Unicode) (name : String) where
  Step-check_step :
      (separator : Bool) (step : Chars)
      → check_step u name separator step ≡ ok tt
      → Step u separator step
  Step-check_step false step e = tt
  Step-check_step true step e =
      let (digits, e1) = ensure-eq_ok (is_digits u step) _ _ e in
      let (n, read, e2) = >>=-eq_ok (int_of u step) _ e1 in
      (n, read, ground (arith, ensure-eq_true (ltb 0 n) _ e2))

  length-ints_of :
      (texts : List Chars) (numbers : List ℕ)
      → ints_of u texts ≡ ok numbers
      → length numbers ≡ length texts
  unfolding ints_of
  length-ints_of [] numbers e = ap length (sym (unok e))
  length-ints_of (s ∷ texts) numbers e =
      let (n, read, e1) = >>=-eq_ok (int_of u s) _ e in
      let (later, reads, done) = >>=-eq_ok (ints_of u texts) _ e1 in
      ap length (sym (unok done)) ∙ ap suc (length-ints_of texts later reads)

  module _ (minimum maximum : ℕ) where
    InRange-checked :
        (numbers : List ℕ)
        → (nat_eq (length numbers) 1 || nat_eq (length numbers) 2) ≡ true
        → each (in_range minimum maximum) numbers ≡ true
        → is_reversed numbers ≡ false
        → InRange minimum maximum numbers
    InRange-checked [] shape inside order = ground arith
    InRange-checked (a ∷ []) shape inside order = (ground arith, ground arith)
    InRange-checked (a ∷ b ∷ []) shape inside order = (ground arith, ground arith, ground arith)
    InRange-checked (a ∷ b ∷ c ∷ rest) shape inside order = ground arith

    Bounds-check_bounds :
        (bounds : List Chars)
        → check_bounds u name minimum maximum bounds ≡ ok tt
        → Bounds u minimum maximum bounds
    unfolding check_bounds
    Bounds-check_bounds bounds e =
        let (shape, e1) =
          ensure-eq_ok
            ((nat_eq (length bounds) 1 || nat_eq (length bounds) 2) && each (is_digits u) bounds) _
            _ e in
        let (numbers, read, e2) = >>=-eq_ok (ints_of u bounds) _ e1 in
        let (inside, e3) = ensure-eq_ok (each (in_range minimum maximum) numbers) _ _ e2 in
        (
          numbers,
          read,
          InRange-checked numbers
              (subst (λ n. (nat_eq n 1 || nat_eq n 2) ≡ true)
                (sym (length-ints_of bounds numbers read)) (ground arith))
              inside (raise_if-eq_false (is_reversed numbers) _ e3),
        )

    unless_star :
        (star : Bool) (bounds : List Chars)
        → (if star then ok tt else check_bounds u name minimum maximum bounds) ≡ ok tt
        → (star ≡ true) ⊎ Bounds u minimum maximum bounds
    unless_star true bounds e = inl refl
    unless_star false bounds e = inr (Bounds-check_bounds bounds e)

    Part-check_part :
        (part : Chars)
        → check_part u name minimum maximum part ≡ ok tt
        → Part u minimum maximum part
    unfolding check_part
    Part-check_part part e =
        let (base, separator, step) = partition b'/' part in
        let (stepped, e1) = >>-eq_ok (check_step u name separator step) _ e in
        (
          Step-check_step separator step stepped,
          unless_star (same_chars base (chars "*")) (split_at b'-' base) e1,
        )

    Each-check_parts :
        (parts : List Chars)
        → check_parts u name minimum maximum parts ≡ ok tt
        → Each (Part u minimum maximum) parts
    unfolding check_parts
    Each-check_parts [] e = tt
    Each-check_parts (part ∷ parts) e =
        let (first, e1) = >>-eq_ok (check_part u name minimum maximum part) _ e in
        (Part-check_part part first, Each-check_parts parts e1)

  Fields-check_fields :
      (fields : List Chars) (ranges : List (ℕ × ℕ))
      → length fields ≡ length ranges
      → check_fields u name fields ranges ≡ ok tt
      → Fields u fields ranges
  unfolding check_fields
  Fields-check_fields [] [] same e = tt
  Fields-check_fields [] (range ∷ ranges) same e = cc
  Fields-check_fields (field ∷ fields) [] same e = cc
  Fields-check_fields (field ∷ fields) ((minimum, maximum) ∷ ranges) same e =
      let (first, e1) = >>-eq_ok (check_parts u name minimum maximum (split_at b',' field)) _ e in
      (
        Each-check_parts minimum maximum _ first,
        Fields-check_fields fields ranges (ground arith) e1,
      )

-- An expression that _validate_cron accepts splits at its spaces into five fields, for the minutes
-- (0 to 59), hours (0 to 23), days (1 to 31), months (1 to 12) and weekdays (0 to 7). Every part
-- between the commas of a field is `*`, a number within the field's range, or two such numbers in
-- order, joined by a dash; a step that follows the part's slash is a number and at least 1.
pub validate_cron-Fields :
    (u : Unicode) (expression : Chars) (name : String)
    → validate_cron u expression name ≡ ok tt
    → Fields u (split_words expression) cron_ranges
unfolding validate_cron
validate_cron-Fields u expression name e =
    let (five, e1) = ensure-eq_ok (nat_eq (length (split_words expression)) 5) _ _ e in
    Fields-check_fields u name (split_words expression) cron_ranges (ground arith) e1
