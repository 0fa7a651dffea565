-- ===== src/Sources/Craigslist/Ids.antt =====
-- The listing IDs that listing_id_from_url of sources/craigslist.py finds.
use Prim.Native.Char.{Char}
use event_lead_ops_agent.Prelude.{
  ◌≡◌, refl, sym, ap, ◌∙◌, subst, Bool, true, false, ◌&&◌, Option, none, some, [], ◌∷◌, ◌++◌, ok,
  arith, leb, ◌≤◌, >>=-eq_ok, or_raise, value_error, ensure-eq_ok, unok, unsome, if◌then◌else◌,
}
use event_lead_ops_agent.Texts.{Chars, Unicode, is_char, all_chars, length, span, is_decimal, lower}
use event_lead_ops_agent.Texts.Laws.{span-split, span-all_chars}
use event_lead_ops_agent.Sources.Craigslist.{
  closes_id, id_at, search_id, listing_id_from_url, canonicalize_url, is_https_craigslist,
}
use event_lead_ops_agent.Urls.{urlsplit, https_url}

-- `value` is `before`, a slash, the digits of the ID and `after`, and `after` begins with `.html`.
abbrev pub HasId : Unicode → Chars → Chars → Type 0
HasId u value digits =
    (before : Chars) × (slash : Char) × (after : Chars) × (value
      ≡ before ++ (slash ∷ (digits ++ after)))
    × (is_char b'/' slash ≡ true)
    × (closes_id after ≡ true)
    × (all_chars (is_decimal u) digits ≡ true)
    × (8 ≤ length digits)

module _ (u : Unicode) where
  id_at-HasId : (s digits : Chars) → id_at u s ≡ some digits → HasId u s digits
  unfolding id_at
  id_at-HasId [] digits e = absurd cc
  id_at-HasId (c ∷ s) digits e =
      found (is_char b'/' c) (leb 8 (length (span (is_decimal u) s).0))
        (closes_id (span (is_decimal u) s).1) refl refl refl e
    where
      found :
          (slash long closes : Bool)
          → is_char b'/' c ≡ slash
          → leb 8 (length (span (is_decimal u) s).0) ≡ long
          → closes_id (span (is_decimal u) s).1 ≡ closes
          → (if slash && (long && closes) then some (span (is_decimal u) s).0 else none)
            ≡ some digits
          → HasId u (c ∷ s) digits
      found true true true slash long closes e = subst (HasId u (c ∷ s)) (unsome e) (
        [],
        c,
        (span (is_decimal u) s).1,
        ap (λ t. c ∷ t) (sym (span-split (is_decimal u) s)),
        slash,
        closes,
        span-all_chars (is_decimal u) s,
        ground arith,
      )
      found false long closes s l c e = absurd cc
      found true false closes s l c e = absurd cc
      found true true false s l c e = absurd cc

  search_id-HasId : (s digits : Chars) → search_id u s ≡ some digits → HasId u s digits
  unfolding search_id
  search_id-HasId [] digits e = absurd cc
  search_id-HasId (c ∷ s) digits e = found (search_id-HasId s digits) (id_at u (c ∷ s)) refl e
    where
      found :
          (search_id u s ≡ some digits → HasId u s digits)
          → (here : Option Chars) → id_at u (c ∷ s) ≡ here
          → elim here [ some digits ↦ some digits | none ↦ search_id u s ] ≡ some digits
          → HasId u (c ∷ s) digits
      found later (some ds) here e = id_at-HasId (c ∷ s) digits (here ∙ e)
      found later none here e =
          let (before, slash, after, split, is_slash, closes, decimal, long) = later e in
          (c ∷ before, slash, after, ap (λ t. c ∷ t) split, is_slash, closes, decimal, long)

  pub listing_id_from_url-HasId :
      (value digits : Chars) → listing_id_from_url u value ≡ ok digits → HasId u value digits
  unfolding listing_id_from_url
  listing_id_from_url-HasId value digits e =
      search_id-HasId value digits (found (search_id u value) e)
    where
      found :
          (o : Option Chars)
          → or_raise o (value_error "Craigslist URL does not contain a listing ID") ≡ ok digits
          → o ≡ some digits
      found (some ds) e = ap some (unok e)
      found none e = absurd cc

-- A URL that canonicalize_url of Craigslist returns has a listing ID: listing_id_from_url reads one
-- from it. In the URL the ID is a run of at least eight decimal digits, with a slash in front and
-- behind it `.html`, which ends the URL or is followed by a query or a fragment.
pub canonicalize_url-HasId :
    (u : Unicode) (value canonical : Chars)
    → canonicalize_url u value ≡ ok canonical
    → (digits : Chars) × (listing_id_from_url u canonical ≡ ok digits) × HasId u canonical digits
unfolding canonicalize_url
canonicalize_url-HasId u value canonical e =
    let (parts, split, kept) = >>=-eq_ok (urlsplit u value) _ e in
    let (host, kept') = ensure-eq_ok (is_https_craigslist u parts) _ _ kept in
    let (digits, found, done) =
      >>=-eq_ok (listing_id_from_url u (https_url (lower u parts.netloc) parts.path)) _ kept' in
    let read : listing_id_from_url u canonical ≡ ok digits =
      subst (λ c. listing_id_from_url u c ≡ ok digits) (unok done) found in
    (digits, read, listing_id_from_url-HasId u canonical digits read)
