-- ===== src/Config/Cron.antt =====
-- _validate_cron of config.py.
pub mod Ranges
use Prim.Native.Char.{Char, code}
use event_lead_ops_agent.Prelude.{
  ℕ, ◌+◌, ◌-◌, ◌*◌, String, Bool, true, false, not, ◌&&◌, ◌||◌, ◌+++◌, List, [], ◌∷◌, Result, ok,
  err, ◌>>=◌, ◌>>◌, ensure, raise_if, value_error, ltb, nat_eq, if◌then◌else◌,
}
use event_lead_ops_agent.Texts.{
  Chars, chars, Unicode, all_chars, is_ascii_char, is_decimal, is_digit, is_empty, length,
  partition, same_chars, split_at, split_words,
}

-- `s.isdigit()`
abbrev pub is_digits : Unicode → Chars → Bool
is_digits u s = not (is_empty s) && all_chars (is_digit u) s

abbrev digit_value : Unicode → Char → ℕ
digit_value u c = if is_ascii_char c then code c - 48 else u.decimal_wide c

unfoldable pub decimal_from : Unicode → ℕ → Chars → ℕ
decimal_from u n [] = n
decimal_from u n (c ∷ s) = decimal_from u (n * 10 + digit_value u c) s

-- `int(s)` of a text of digits: a digit that is no decimal is refused, and so are more than 4300.
unfoldable pub int_of : Unicode → Chars → Result ℕ
unfolding all_chars decimal_from
int_of u s =
    if ltb 4300 (length s)
    then err (value_error "Exceeds the limit (4300 digits) for integer string conversion")
    else if all_chars (is_decimal u) s
    then ok (decimal_from u 0 s)
    else err (value_error "invalid literal for int() with base 10: ")

unfoldable pub ints_of : Unicode → List Chars → Result (List ℕ)
ints_of u [] = ok []
ints_of u (s ∷ texts) = do n ← int_of u s; numbers ← ints_of u texts; ok (n ∷ numbers)

abbrev pub each {ℓ} : {A : Type ℓ} → (A → Bool) → List A → Bool
each p [] = true
each p (a ∷ rest) = p a && each p rest

-- The step of a part, which `separator` says is there.
abbrev pub check_step : Unicode → String → Bool → Chars → Result (Unit {0})
check_step u name false step = ok tt
check_step u name true step = do
  ensure (is_digits u step) (value_error (name +++ " has an invalid cron step"))
  n ← int_of u step
  ensure (ltb 0 n) (value_error (name +++ " has an invalid cron step"))

abbrev pub is_reversed : List ℕ → Bool
is_reversed (a ∷ b ∷ []) = ltb b a
is_reversed _ = false

abbrev pub in_range : ℕ → ℕ → ℕ → Bool
in_range minimum maximum number = not (ltb number minimum || ltb maximum number)

unfoldable pub check_bounds : Unicode → String → ℕ → ℕ → List Chars → Result (Unit {0})
unfolding ints_of
check_bounds u name minimum maximum bounds = do
  ensure ((nat_eq (length bounds) 1 || nat_eq (length bounds) 2) && each (is_digits u) bounds)
      (value_error (name +++ " has an invalid cron field"))
  numbers ← ints_of u bounds
  ensure (each (in_range minimum maximum) numbers)
      (value_error (name +++ " cron value is out of range"))
  raise_if (is_reversed numbers) (value_error (name +++ " cron range is reversed"))

unfoldable pub check_part : Unicode → String → ℕ → ℕ → Chars → Result (Unit {0})
unfolding check_bounds
check_part u name minimum maximum part = do
  let (base, separator, step) = partition b'/' part
  check_step u name separator step
  (if same_chars base (chars "*")
      then ok tt
      else check_bounds u name minimum maximum (split_at b'-' base))

unfoldable pub check_parts : Unicode → String → ℕ → ℕ → List Chars → Result (Unit {0})
unfolding check_part
check_parts u name minimum maximum [] = ok tt
check_parts u name minimum maximum (part ∷ parts) = do
  check_part u name minimum maximum part
  check_parts u name minimum maximum parts

abbrev pub cron_ranges : List (ℕ × ℕ)
cron_ranges = (0, 59) ∷ (0, 23) ∷ (1, 31) ∷ (1, 12) ∷ (0, 7) ∷ []

unfoldable pub check_fields : Unicode → String → List Chars → List (ℕ × ℕ) → Result (Unit {0})
unfolding check_parts
check_fields u name (field ∷ fields) ((minimum, maximum) ∷ ranges) = do
  check_parts u name minimum maximum (split_at b',' field)
  check_fields u name fields ranges
check_fields u name [] _ = ok tt
check_fields u name (field ∷ fields) [] = ok tt

unfoldable pub validate_cron : Unicode → Chars → String → Result (Unit {0})
unfolding check_fields
validate_cron u expression name = do
  let fields = split_words expression
  ensure (nat_eq (length fields) 5) (value_error (name +++ " must be a five-field cron expression"))
  check_fields u name fields cron_ranges
