-- ===== src/Urls.antt =====
-- `urllib.parse.urlsplit`, its property `hostname` and `urlunsplit`, as the program calls them.
use Prim.Native.Char.{Char, code}
use event_lead_ops_agent.Prelude.{
  Bool, false, not, ◌&&◌, ◌||◌, [], ◌∷◌, ◌++◌, Result, ok, ◌>>◌, raise_if, ensure, value_error, leb,
  if◌then◌else◌,
}
use event_lead_ops_agent.Texts.{
  Chars, chars, Unicode, is_char, all_chars, has_char, is_empty, starts_with, drop, span, partition,
  after_last, drop_while, without, lower, is_ascii_char,
}

pub record Parts : Type 0 where
  pub scheme : Chars
  pub netloc : Chars
  pub path : Chars
  pub query : Chars
  pub fragment : Chars

is_letter : Char → Bool
is_letter c = (leb b'a' (code c) && leb (code c) b'z') || (leb b'A' (code c) && leb (code c) b'Z')

is_scheme_char : Char → Bool
unfolding is_letter
is_scheme_char c =
    is_letter c
    || (leb b'0' (code c) && leb (code c) b'9')
    || is_char b'+' c
    || is_char b'-' c
    || is_char b'.' c

starts_with_letter : Chars → Bool
unfolding is_letter
starts_with_letter [] = false
starts_with_letter (c ∷ s) = is_letter c

abbrev is_control_or_space : Char → Bool
is_control_or_space c = leb (code c) 32

-- `\t`, `\r` and `\n` are removed.
abbrev pub is_unsafe : Char → Bool
is_unsafe c = is_char 9 c || is_char 10 c || is_char 13 c

unfoldable pub cleaned : Chars → Chars
unfolding without drop_while
cleaned url = without is_unsafe (drop_while is_control_or_space url)

-- The scheme, in lower case, and the rest; a text without one has the scheme "".
unfoldable pub split_scheme : Unicode → Chars → Chars × Chars
unfolding starts_with_letter is_scheme_char
split_scheme u url =
    let (front, found, rest) = partition b':' url in
    if found && (starts_with_letter front && all_chars is_scheme_char front)
    then (lower u front, rest)
    else ([], url)

abbrev ends_netloc : Char → Bool
ends_netloc c = is_char b'/' c || (is_char b'?' c || is_char b'#' c)

-- The network location after `//`, and the rest.
unfoldable pub split_netloc : Chars → Chars × Chars
split_netloc url =
    if starts_with url (chars "//") then span (λ c. not (ends_netloc c)) (drop 2 url) else ([], url)

-- The brackets of an IPv6 address, and characters that normalize to separators.
unfoldable pub check_netloc : Unicode → Chars → Result (Unit {0})
check_netloc u netloc = do
  ensure (if has_char b'[' netloc then has_char b']' netloc else not (has_char b']' netloc))
      (value_error "Invalid IPv6 URL")
  raise_if (has_char b'[' netloc && not (u.brackets_are_safe netloc))
      (value_error "invalid bracketed host")
  raise_if (not (all_chars is_ascii_char netloc) && not (u.netloc_is_safe netloc))
      (value_error "netloc contains invalid characters under NFKC normalization")
  ok tt

-- The path of what follows the location, without its query and fragment, and these.
unfoldable pub path_parts : Chars → Chars × Chars × Chars
path_parts rest =
    let (before, has_fragment, fragment) = partition b'#' rest in
    let (path, has_query, query) = partition b'?' before in (path, query, fragment)

unfoldable pub urlsplit : Unicode → Chars → Result Parts
unfolding cleaned split_scheme split_netloc check_netloc path_parts
urlsplit u url = do
  let (scheme, after_scheme) = split_scheme u (cleaned url)
  let (netloc, rest) = split_netloc after_scheme
  check_netloc u netloc
  let (path, query, fragment) = path_parts rest
  ok (record { scheme = scheme; netloc = netloc; path = path; query = query; fragment = fragment })

-- The host of a network location: without user, port and brackets.
unfoldable pub host_part : Chars → Chars
host_part netloc =
    let info = after_last b'@' netloc in
    let (front, is_bracketed, bracketed) = partition b'[' info in
    if is_bracketed then (partition b']' bracketed).0 else (partition b':' info).0

-- `parts.hostname or ""`; the zone of a scoped address keeps its case.
unfoldable pub hostname : Unicode → Chars → Chars
unfolding host_part
hostname u netloc =
    let (host, percent, zone) = partition b'%' (host_part netloc) in
    lower u host ++ (if percent then chars "%" ++ zone else [])

-- `urlunsplit(("https", netloc, path, "", ""))`
unfoldable pub https_url : Chars → Chars → Chars
https_url netloc path =
    chars "https:"
    ++ (if not (is_empty netloc) || not (starts_with path (chars "//"))
        then chars "//"
          ++ (netloc
              ++ (if is_empty path || starts_with path (chars "/")
                  then path
                  else chars "/" ++ path))
        else path)
