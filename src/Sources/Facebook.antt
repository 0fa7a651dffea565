-- ===== src/Sources/Facebook.antt =====
-- canonicalize_url and listing_id_from_url of sources/facebook_marketplace.py.
pub mod RoundTrip
use Prim.Native.Char.{Char, code}
use event_lead_ops_agent.Prelude.{
  ℕ, Bool, true, false, not, ◌&&◌, ◌||◌, Option, none, some, List, [], ◌∷◌, ◌++◌, Result, ok, err,
  ◌>>=◌, ◌>>◌, ensure, or_raise, value_error, if◌then◌else◌,
}
use event_lead_ops_agent.Texts.{
  Chars, chars, Unicode, is_char, is_empty, starts_with, same_chars, drop, span, lower, is_decimal,
  drop_last_while, all_chars,
}
use event_lead_ops_agent.Urls.{Parts, urlsplit, hostname, https_url}

abbrev pub item_prefix : Chars
item_prefix = chars "/marketplace/item/"

abbrev pub is_facebook_host : Chars → Bool
is_facebook_host host =
    same_chars host (chars "facebook.com")
    || (same_chars host (chars "www.facebook.com") || same_chars host (chars "m.facebook.com"))

abbrev pub some_unless_empty : Chars → Option Chars
some_unless_empty [] = none
some_unless_empty (c ∷ s) = some (c ∷ s)

-- `_ID_PATTERN` at one place: its group
unfoldable pub id_at : Unicode → Chars → Option Chars
id_at u s =
    if starts_with s item_prefix
    then some_unless_empty (span (is_decimal u) (drop 18 s)).0
    else none

-- `_ID_PATTERN.search(value)`
unfoldable pub search_id : Unicode → Chars → Option Chars
unfolding id_at
search_id u [] = none
search_id u (c ∷ s) = elim (id_at u (c ∷ s)) [ some digits ↦ some digits | none ↦ search_id u s ]

-- `_ID_PATTERN.fullmatch(path)`
unfoldable pub full_id : Unicode → Chars → Option Chars
full_id u path =
    if starts_with path item_prefix && all_chars (is_decimal u) (drop 18 path)
    then some_unless_empty (drop 18 path)
    else none

unfoldable pub listing_id_from_url : Unicode → Chars → Result Chars
unfolding search_id
listing_id_from_url u value =
    or_raise (search_id u value) (value_error "Marketplace URL does not contain a listing ID")

abbrev pub is_https_facebook : Unicode → Parts → Bool
is_https_facebook u parts =
    same_chars (lower u parts.scheme) (chars "https")
    && is_facebook_host (lower u (hostname u parts.netloc))

unfoldable pub canonicalize_url : Unicode → Chars → Result Chars
unfolding full_id
canonicalize_url u value = do
  parts ← urlsplit u value
  ensure (is_https_facebook u parts) (value_error "Marketplace URL must use HTTPS on facebook.com")
  digits ←
      or_raise (full_id u (drop_last_while (is_char b'/') parts.path))
        (value_error "Marketplace URL must be an item URL")
  ok (https_url (chars "www.facebook.com") (item_prefix ++ (digits ++ chars "/")))
