-- ===== src/Sources/Craigslist.antt =====
-- canonicalize_url and listing_id_from_url of sources/craigslist.py.
pub mod Ids
use Prim.Native.Char.{Char, code}
use event_lead_ops_agent.Prelude.{
  ℕ, Bool, true, false, not, ◌&&◌, ◌||◌, Option, none, some, List, [], ◌∷◌, ◌++◌, Result, ok, err,
  ◌>>=◌, ◌>>◌, ensure, or_raise, value_error, leb, nat_eq, if◌then◌else◌,
}
use event_lead_ops_agent.Texts.{
  Chars, chars, Unicode, is_char, is_empty, length, starts_with, same_chars, drop, span, lower,
  lower_char, is_decimal,
}
use event_lead_ops_agent.Urls.{Parts, urlsplit, hostname, https_url}

-- A letter of a pattern under `re.I`: the character's lower case, or one that Unicode folds to it.
abbrev pub folds_to : Char → Char → Bool
folds_to p c =
    nat_eq (code (lower_char c)) (code p)
    || ((is_char b'i' p && (is_char 0x130 c || is_char 0x131 c))
        || (is_char b's' p && is_char 0x17f c))

-- `$`: the end, or a newline at the end
unfoldable pub at_end : Chars → Bool
at_end s = is_empty s || same_chars s (chars "\n")

unfoldable pub folds_at : Chars → Chars → Bool
unfolding lower_char at_end
folds_at [] s = at_end s
folds_at (p ∷ pattern) [] = false
folds_at (p ∷ pattern) (c ∷ s) = folds_to p c && folds_at pattern s

abbrev pub domain : Chars
domain = chars "craigslist.org"

unfoldable pub after_dot : Chars → Bool
unfolding folds_at
after_dot [] = false
after_dot (c ∷ s) = (is_char b'.' c && folds_at domain s) || after_dot s

-- `_HOST_PATTERN.search(host)`
unfoldable pub matches_host : Chars → Bool
unfolding after_dot
matches_host host = folds_at domain host || after_dot host

-- What follows the ID: `\.html(?:$|[?#])`
unfoldable pub closes_id : Chars → Bool
closes_id rest =
    starts_with rest (chars ".html")
    && (at_end (drop 5 rest)
        || (starts_with (drop 5 rest) (chars "?") || starts_with (drop 5 rest) (chars "#")))

-- `_ID_PATTERN` at one place: its group
unfoldable pub id_at : Unicode → Chars → Option Chars
unfolding closes_id
id_at u [] = none
id_at u (c ∷ s) =
    let (digits, rest) = span (is_decimal u) s in
    if is_char b'/' c && (leb 8 (length digits) && closes_id rest) then some digits else none

-- `_ID_PATTERN.search(value)`
unfoldable pub search_id : Unicode → Chars → Option Chars
unfolding id_at
search_id u [] = none
search_id u (c ∷ s) = elim (id_at u (c ∷ s)) [ some digits ↦ some digits | none ↦ search_id u s ]

unfoldable pub listing_id_from_url : Unicode → Chars → Result Chars
unfolding search_id
listing_id_from_url u value =
    or_raise (search_id u value) (value_error "Craigslist URL does not contain a listing ID")

abbrev pub is_https_craigslist : Unicode → Parts → Bool
is_https_craigslist u parts =
    same_chars (lower u parts.scheme) (chars "https")
    && matches_host (lower u (hostname u parts.netloc))

unfoldable pub canonicalize_url : Unicode → Chars → Result Chars
canonicalize_url u value = do
  parts ← urlsplit u value
  ensure (is_https_craigslist u parts)
      (value_error "Craigslist URL must use HTTPS on craigslist.org")
  let canonical = https_url (lower u parts.netloc) parts.path
  id ← listing_id_from_url u canonical
  ok canonical
