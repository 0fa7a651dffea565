-- ===== src/Texts.antt =====
-- Texts as lists of characters, and the methods of `str` that the program calls: strip, lstrip,
-- rstrip, split, partition, rpartition, startswith, endswith and lower. The tables of Unicode are
-- parameters (`Unicode`), and are asked only for characters above U+007F.
pub mod Laws
use Prim.Native.Char.{Char, code}
use Prim.Native.Nat.{compare, Ordering}
use event_lead_ops_agent.Prelude.{
  ℕ, zero, suc, ◌+◌, ◌-◌, String, Bool, true, false, not, ◌&&◌, ◌||◌, List, [], ◌∷◌, ◌++◌, ltb, leb,
  nat_eq, if◌then◌else◌,
}

abbrev pub Chars : Type 0
Chars = List Char

-- The characters of a text, and the text of them.
abbrev pub chars : String → Chars
chars String.[] = []
chars (String.◌∷◌ c s) = c ∷ chars s

abbrev pub string : Chars → String
string [] = String.[]
string (c ∷ s) = String.◌∷◌ c (string s)

-- What the interpreter's Unicode tables say of characters above U+007F.
pub record Unicode : Type 0 where
  -- `str.lower` of a text with such a character
  pub lower_wide : Chars → Chars
  -- `str.upper` of one
  pub upper_wide : Chars → Chars
  -- `str.isdecimal`, which is also `\d` of a regular expression; and `int` of the digit
  pub is_decimal_wide : Char → Bool
  pub decimal_wide : Char → ℕ
  -- `str.isdigit`
  pub is_digit_wide : Char → Bool
  -- `urllib.parse._checknetloc` and `_check_bracketed_netloc` find nothing wrong.
  pub netloc_is_safe : Chars → Bool
  pub brackets_are_safe : Chars → Bool

abbrev pub is_char : ℕ → Char → Bool
is_char n c = nat_eq (code c) n

unfoldable pub all_chars : (Char → Bool) → Chars → Bool
all_chars p [] = true
all_chars p (c ∷ s) = p c && all_chars p s

unfoldable pub has_char : ℕ → Chars → Bool
has_char n [] = false
has_char n (c ∷ s) = is_char n c || has_char n s

abbrev pub is_empty {ℓ} : {A : Type ℓ} → List A → Bool
is_empty [] = true
is_empty (c ∷ s) = false

abbrev pub length {ℓ} : {A : Type ℓ} → List A → ℕ
length [] = 0
length (c ∷ s) = suc (length s)

unfoldable pub same_chars : Chars → Chars → Bool
same_chars [] [] = true
same_chars (c ∷ s) (d ∷ t) = nat_eq (code c) (code d) && same_chars s t
same_chars [] (d ∷ t) = false
same_chars (c ∷ s) [] = false

unfoldable pub starts_with : Chars → Chars → Bool
starts_with s [] = true
starts_with [] (d ∷ t) = false
starts_with (c ∷ s) (d ∷ t) = nat_eq (code c) (code d) && starts_with s t

unfoldable pub ends_with : Chars → Chars → Bool
unfolding same_chars
ends_with [] t = is_empty t
ends_with (c ∷ s) t = same_chars (c ∷ s) t || ends_with s t

unfoldable pub drop : ℕ → Chars → Chars
drop zero s = s
drop (suc n) [] = []
drop (suc n) (c ∷ s) = drop n s

-- `s[:n]`
unfoldable pub take : ℕ → Chars → Chars
take zero s = []
take (suc n) [] = []
take (suc n) (c ∷ s) = c ∷ take n s

-- The longest prefix whose characters pass, and the rest.
unfoldable pub span : (Char → Bool) → Chars → Chars × Chars
span p [] = ([], [])
span p (c ∷ s) = let (front, rest) = span p s in if p c then (c ∷ front, rest) else ([], c ∷ s)

-- `s.partition(c)`: what stands before the first `c`, whether there is one, and what follows it.
unfoldable pub partition : ℕ → Chars → Chars × Bool × Chars
partition n [] = ([], false, [])
partition n (c ∷ s) =
    let (front, found, rest) = partition n s in
    if is_char n c then ([], true, s) else (c ∷ front, found, rest)

-- `s.rpartition(c)[2]`: what follows the last `c`, or the whole text if there is none.
unfoldable pub after_last : ℕ → Chars → Chars
unfolding has_char
after_last n [] = []
after_last n (c ∷ s) =
    let rest = after_last n s in if is_char n c then rest else if has_char n s then rest else c ∷ s

unfoldable pub drop_while : (Char → Bool) → Chars → Chars
drop_while p [] = []
drop_while p (c ∷ s) = if p c then drop_while p s else c ∷ s

unfoldable pub drop_last_while : (Char → Bool) → Chars → Chars
drop_last_while p [] = []
drop_last_while p (c ∷ s) =
    let rest = drop_last_while p s in if is_empty rest && p c then [] else c ∷ rest

unfoldable pub without : (Char → Bool) → Chars → Chars
without p [] = []
without p (c ∷ s) = let rest = without p s in if p c then rest else c ∷ rest

-- `s.split(c)`: the parts between the separators, at least one.
unfoldable pub split_at : ℕ → Chars → List Chars
unfolding partition
split_at n [] = [] ∷ []
split_at n (c ∷ s) = elim (split_at n s) [
  | [] ↦ []
  | part ∷ parts ↦ if is_char n c then [] ∷ part ∷ parts else (c ∷ part) ∷ parts
]

-- `str.isspace` of one character: the whitespace of Unicode and the separators U+001C to U+001F.
unfoldable pub is_space : Char → Bool
is_space c =
    let n = code c in
    (leb 9 n && leb n 13)
    || (leb 28 n && leb n 32)
    || nat_eq n 133
    || nat_eq n 160
    || nat_eq n 5760
    || (leb 8192 n && leb n 8202)
    || nat_eq n 8232
    || nat_eq n 8233
    || nat_eq n 8239
    || nat_eq n 8287
    || nat_eq n 12288

-- `s.strip()`
unfoldable pub strip : Chars → Chars
unfolding drop_while drop_last_while is_space
strip s = drop_last_while is_space (drop_while is_space s)

-- A word that a space or the end closes, in front of the words that follow.
abbrev pub close_word : Chars → List Chars → List Chars
close_word [] words = words
close_word (c ∷ word) words = (c ∷ word) ∷ words

-- The word at the front of a text, which is empty if a space is there, and the other words.
unfoldable pub words_from : Chars → Chars × List Chars
unfolding is_space
words_from [] = ([], [])
words_from (c ∷ s) =
    let (word, words) = words_from s in
    if is_space c then ([], close_word word words) else (c ∷ word, words)

-- `s.split()`
unfoldable pub split_words : Chars → List Chars
unfolding words_from
split_words s = let (word, words) = words_from s in close_word word words

-- The ends of lines of `str.splitlines`
abbrev is_line_end : Char → Bool
is_line_end c =
    let n = code c in
    (leb 10 n && leb n 13)
    || (leb 28 n && leb n 30)
    || nat_eq n 133
    || nat_eq n 8232
    || nat_eq n 8233

abbrev in_first_line : Char → List Chars → List Chars
in_first_line c [] = (c ∷ []) ∷ []
in_first_line c (line ∷ lines) = (c ∷ line) ∷ lines

-- `s.splitlines(keepends=True)`; `\r\n` ends one line.
unfoldable pub split_lines : Chars → List Chars
unfolding starts_with
split_lines [] = []
split_lines (c ∷ s) =
    let lines = split_lines s in
    if is_line_end c && not (is_char 13 c && starts_with s (chars "\n"))
    then (c ∷ []) ∷ lines
    else in_first_line c lines

-- `part in s`
unfoldable pub has_text : Chars → Chars → Bool
unfolding starts_with
has_text part [] = is_empty part
has_text part (c ∷ s) = starts_with (c ∷ s) part || has_text part s

-- `separator.join(parts)`
unfoldable pub join : Chars → List Chars → Chars
join sep [] = []
join sep (part ∷ []) = part
join sep (part ∷ next ∷ parts) = part ++ (sep ++ join sep (next ∷ parts))

abbrev pub is_ascii_char : Char → Bool
is_ascii_char c = ltb (code c) 128

abbrev is_upper : Char → Bool
is_upper c = leb b'A' (code c) && leb (code c) b'Z'

nth_char : Chars → ℕ → Char → Char
nth_char [] n c = c
nth_char (d ∷ s) zero c = d
nth_char (d ∷ s) (suc n) c = nth_char s n c

is_lower : Char → Bool
is_lower c = leb b'a' (code c) && leb (code c) b'z'

upper_char : Char → Char
unfolding nth_char is_lower
upper_char c =
    if is_lower c then nth_char (chars "ABCDEFGHIJKLMNOPQRSTUVWXYZ") (code c - 97) c else c

upper_chars : Chars → Chars
unfolding upper_char
upper_chars [] = []
upper_chars (c ∷ s) = upper_char c ∷ upper_chars s

unfoldable pub lower_char : Char → Char
unfolding nth_char
lower_char c =
    if is_upper c then nth_char (chars "abcdefghijklmnopqrstuvwxyz") (code c - 65) c else c

unfoldable pub lower_chars : Chars → Chars
unfolding lower_char
lower_chars [] = []
lower_chars (c ∷ s) = lower_char c ∷ lower_chars s

-- `s.lower()`
unfoldable pub lower : Unicode → Chars → Chars
unfolding all_chars lower_chars
lower u s = if all_chars is_ascii_char s then lower_chars s else u.lower_wide s

-- `s.upper()`
unfoldable pub upper : Unicode → Chars → Chars
unfolding all_chars upper_chars
upper u s = if all_chars is_ascii_char s then upper_chars s else u.upper_wide s

-- `\d` of a regular expression, and `str.isdecimal` of one character
unfoldable pub is_decimal : Unicode → Char → Bool
is_decimal u c =
    if is_ascii_char c then leb b'0' (code c) && leb (code c) b'9' else u.is_decimal_wide c

abbrev pub is_digit : Unicode → Char → Bool
is_digit u c = if is_ascii_char c then leb b'0' (code c) && leb (code c) b'9' else u.is_digit_wide c
