-- ===== src/Sources/Facebook/RoundTrip.antt =====
-- Canonical URLs of Marketplace items, read back.
use Prim.Native.Char.{Char}
use event_lead_ops_agent.Prelude.{
  ◌≡◌, refl, ap, subst, Bool, true, false, not, ◌&&◌, none, some, [], ◌∷◌, ◌++◌, ok, arith,
  >>=-eq_ok, or_raise-eq_ok, ensure-eq_ok, unok, unsome, if◌then◌else◌,
}
use event_lead_ops_agent.Texts.{
  is_empty, Chars, chars, Unicode, is_char, all_chars, has_char, starts_with, drop, span, partition,
  without, lower, is_decimal, drop_last_while, same_chars, after_last,
}
use event_lead_ops_agent.Texts.Laws.{
  all_chars-weaken, decimal_ne, partition-append, without-append, drop_last_while-append,
  drop_last_while-keeps, span-until,
}
use event_lead_ops_agent.Urls.{
  Parts, is_unsafe, cleaned, urlsplit, hostname, https_url, split_scheme, split_netloc, path_parts,
}
use event_lead_ops_agent.Sources.Facebook.{
  item_prefix, id_at, is_https_facebook, full_id, some_unless_empty, search_id, listing_id_from_url,
  canonicalize_url,
}

search_id-here :
    (u : Unicode) (c : Char) (s digits : Chars)
    → id_at u (c ∷ s) ≡ some digits
    → search_id u (c ∷ s) ≡ some digits
unfolding search_id
search_id-here u c s digits here =
    ap (λ r. elim r [ some found ↦ some found | none ↦ search_id u s ]) here

abbrev pub IsId : Unicode → Chars → Type 0
IsId u digits = (is_empty digits ≡ false) × (all_chars (is_decimal u) digits ≡ true)

full_id-some : (u : Unicode) (path digits : Chars) → full_id u path ≡ some digits → IsId u digits
unfolding full_id
full_id-some u path digits e =
    kept (starts_with path item_prefix) (all_chars (is_decimal u) (drop 18 path)) (drop 18 path)
      refl e
  where
    kept :
        (b passed : Bool) (s : Chars)
        → all_chars (is_decimal u) s ≡ passed
        → (if b && passed then some_unless_empty s else none) ≡ some digits
        → IsId u digits
    kept true true (c ∷ s) all found = subst (IsId u) (unsome found) (refl, all)
    kept true true [] all found = absurd cc
    kept true false s all found = absurd cc
    kept false passed s all found = absurd cc

abbrev pub item_url : Chars → Chars
item_url digits = https_url (chars "www.facebook.com") (item_prefix ++ (digits ++ chars "/"))

module _ (u : Unicode) (d : Char) (ds : Chars)
    (decimal : all_chars (is_decimal u) (d ∷ ds) ≡ true) where
  lacks :
      (p : Char → Bool)
      → ((c : Char) → is_decimal u c ≡ true → not (p c) ≡ true)
      → all_chars (λ c. not (p c)) (d ∷ ds) ≡ true
  lacks p f = all_chars-weaken (is_decimal u) (λ c. not (p c)) (d ∷ ds) f decimal

  cleaned-item_url : cleaned (item_url (d ∷ ds)) ≡ item_url (d ∷ ds)
  unfolding cleaned https_url starts_with without
  cleaned-item_url =
      ap (λ s. chars "https://www.facebook.com/marketplace/item/" ++ s)
        (without-append is_unsafe (d ∷ ds) (chars "/") (
          lacks is_unsafe (λ c e.
            ground (
              arith,
              decimal_ne u 9 c refl e,
              decimal_ne u 10 c refl e,
              decimal_ne u 13 c refl e,
            ))))

  partition_hash :
      partition b'#' (item_prefix ++ ((d ∷ ds) ++ chars "/"))
      ≡ (item_prefix ++ ((d ∷ ds) ++ chars "/"), false, [])
  unfolding partition
  partition_hash =
      ap (λ r. (item_prefix ++ r.0, r.1, r.2))
        (partition-append b'#' (d ∷ ds) (chars "/")
          (lacks (is_char b'#') (λ c. decimal_ne u b'#' c refl)))

  partition_question :
      partition b'?' (item_prefix ++ ((d ∷ ds) ++ chars "/"))
      ≡ (item_prefix ++ ((d ∷ ds) ++ chars "/"), false, [])
  unfolding partition
  partition_question =
      ap (λ r. (item_prefix ++ r.0, r.1, r.2))
        (partition-append b'?' (d ∷ ds) (chars "/")
          (lacks (is_char b'?') (λ c. decimal_ne u b'?' c refl)))

  path : Chars
  path = item_prefix ++ ((d ∷ ds) ++ chars "/")

  path_parts-path : path_parts path ≡ (path, [], [])
  unfolding path path_parts
  path_parts-path = rw (partition_hash, partition_question)

  split_scheme-item_url :
      split_scheme u (item_url (d ∷ ds)) ≡ (chars "https", chars "//www.facebook.com" ++ path)
  unfolding split_scheme partition path https_url starts_with all_chars lower
  split_scheme-item_url = refl

  split_netloc-item_url :
      split_netloc (chars "//www.facebook.com" ++ path) ≡ (chars "www.facebook.com", path)
  unfolding split_netloc span starts_with drop path
  split_netloc-item_url = refl

  abbrev split_with : Chars × Chars × Chars → Parts
  split_with (path, query, fragment) = record {
    scheme = chars "https";
    netloc = chars "www.facebook.com";
    path = path;
    query = query;
    fragment = fragment;
  }

  urlsplit-item_url : urlsplit u (item_url (d ∷ ds)) ≡ ok (split_with (path, [], []))
  unfolding urlsplit has_char all_chars path_parts
  urlsplit-item_url =
      rw (cleaned-item_url, split_scheme-item_url, split_netloc-item_url)
        (ap (λ r. ok (split_with r)) path_parts-path)

  rstrip-path : drop_last_while (is_char b'/') path ≡ item_prefix ++ (d ∷ ds)
  unfolding path drop_last_while
  rstrip-path = drop_last_while-keeps (is_char b'/') item_prefix ((d ∷ ds) ++ chars "/") ds d (
      drop_last_while-append (is_char b'/') (d ∷ ds) (chars "/")
        (lacks (is_char b'/') (λ c. decimal_ne u b'/' c refl)) refl)

  full_id-path : full_id u (item_prefix ++ (d ∷ ds)) ≡ some (d ∷ ds)
  unfolding full_id starts_with drop all_chars
  full_id-path = rw decimal refl

  pub canonicalize_url-item_url : canonicalize_url u (item_url (d ∷ ds)) ≡ ok (item_url (d ∷ ds))
  unfolding canonicalize_url hostname same_chars lower partition after_last
  canonicalize_url-item_url = rw (urlsplit-item_url, rstrip-path, full_id-path) refl

  span-item : span (is_decimal u) (d ∷ ds ++ chars "/") ≡ (d ∷ ds, chars "/")
  unfolding span is_decimal
  span-item = span-until (is_decimal u) (d ∷ ds) [] _ decimal refl

  id_at-path : id_at u path ≡ some (d ∷ ds)
  unfolding id_at path starts_with drop
  id_at-path = rw span-item refl

  search_id-path : search_id u path ≡ some (d ∷ ds)
  unfolding path
  search_id-path = search_id-here u _ _ _ id_at-path

  search_id-item_url : search_id u (item_url (d ∷ ds)) ≡ search_id u path
  unfolding search_id id_at starts_with https_url path
  search_id-item_url = refl

  pub listing_id_from_url-item_url : listing_id_from_url u (item_url (d ∷ ds)) ≡ ok (d ∷ ds)
  unfolding listing_id_from_url
  listing_id_from_url-item_url = rw (search_id-item_url, search_id-path) refl

abbrev pub ReadsBack : Unicode → Chars → Type 0
ReadsBack u canonical =
    (digits : Chars) × IsId u digits
    × (canonical ≡ item_url digits)
    × (canonicalize_url u canonical ≡ ok canonical)
    × (listing_id_from_url u canonical ≡ ok digits)

ReadsBack-item_url : (u : Unicode) (digits : Chars) → IsId u digits → ReadsBack u (item_url digits)
ReadsBack-item_url u [] (filled, decimal) = absurd cc
ReadsBack-item_url u (d ∷ ds) (filled, decimal) = (
  d ∷ ds,
  (filled, decimal),
  refl,
  canonicalize_url-item_url u d ds decimal,
  listing_id_from_url-item_url u d ds decimal,
)

-- A text that canonicalize_url of Marketplace accepts becomes the item URL of a nonempty listing ID
-- of decimal digits. canonicalize_url returns that URL unchanged, and listing_id_from_url reads the
-- ID back from it.
pub canonicalize_url-read_back :
    (u : Unicode) (value canonical : Chars)
    → canonicalize_url u value ≡ ok canonical
    → ReadsBack u canonical
unfolding canonicalize_url
canonicalize_url-read_back u value canonical e =
    let (parts, split, kept) = >>=-eq_ok (urlsplit u value) _ e in
    let (host, kept') = ensure-eq_ok (is_https_facebook u parts) _ _ kept in
    let (digits, found, done) =
      or_raise-eq_ok (full_id u (drop_last_while (is_char b'/') parts.path)) _ _ kept' in
    subst (ReadsBack u) (unok done) (ReadsBack-item_url u digits (full_id-some u _ digits found))
