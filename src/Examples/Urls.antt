-- ===== src/Examples/Urls.antt =====
-- Tests of the URLs of listings.
use event_lead_ops_agent.Prelude.{◌≡◌, refl, ok, true, false}
use event_lead_ops_agent.Texts.{
  Chars, chars, Unicode, all_chars, has_char, starts_with, drop, span, partition, after_last, lower,
  is_decimal, drop_last_while, same_chars,
}
use event_lead_ops_agent.Urls.{urlsplit, hostname, https_url}
use event_lead_ops_agent.Sources.Craigslist.{folds_at, at_end, matches_host, after_dot, closes_id}
use event_lead_ops_agent.Sources.Craigslist
use event_lead_ops_agent.Sources.Facebook
use event_lead_ops_agent.Sources.Craigslist.Ids.{HasId, canonicalize_url-HasId}
use event_lead_ops_agent.Sources.Facebook.RoundTrip.{ReadsBack, canonicalize_url-read_back}

-- Tables that know no character above U+007F.
abbrev pub ascii : Unicode
ascii = record {
  lower_wide = λ s. s;
  upper_wide = λ s. s;
  is_decimal_wide = λ c. false;
  decimal_wide = λ c. 0;
  is_digit_wide = λ c. false;
  netloc_is_safe = λ s. true;
  brackets_are_safe = λ s. false;
}

canonical_listing :
    Craigslist.canonicalize_url ascii (chars "HTTPS://Tampa.Craigslist.org/abc/d/12345678.html?x=1")
    ≡ ok (chars "https://tampa.craigslist.org/abc/d/12345678.html")
unfolding Craigslist.canonicalize_url urlsplit has_char starts_with partition all_chars span drop
    same_chars lower matches_host hostname after_last Craigslist.listing_id_from_url https_url
    is_decimal
canonical_listing = refl

-- The dotless i and the long s, which `re.I` folds to ASCII letters, make another domain.
other_domain :
    Craigslist.canonicalize_url ascii (chars "https://craıgſlist.org/12345678.html")
    ≡ ok (chars "https://craıgſlist.org/12345678.html")
unfolding Craigslist.canonicalize_url urlsplit has_char starts_with partition all_chars span drop
    same_chars lower matches_host hostname after_last Craigslist.listing_id_from_url https_url
    is_decimal
other_domain = refl

canonical_item :
    Facebook.canonicalize_url ascii (chars "https://m.facebook.com/marketplace/item/77//?ref=x")
    ≡ ok (chars "https://www.facebook.com/marketplace/item/77/")
unfolding Facebook.canonicalize_url urlsplit has_char starts_with partition all_chars span drop
    same_chars lower hostname after_last drop_last_while is_decimal https_url
canonical_item = refl

canonicalize_url-HasId_example :
    (digits : Chars) × (Craigslist.listing_id_from_url ascii
        (chars "https://tampa.craigslist.org/abc/d/12345678.html")
      ≡ ok digits)
    × HasId ascii (chars "https://tampa.craigslist.org/abc/d/12345678.html") digits
canonicalize_url-HasId_example =
    canonicalize_url-HasId ascii (chars "HTTPS://Tampa.Craigslist.org/abc/d/12345678.html?x=1")
      (chars "https://tampa.craigslist.org/abc/d/12345678.html") canonical_listing

canonicalize_url-read_back_example :
    ReadsBack ascii (chars "https://www.facebook.com/marketplace/item/77/")
canonicalize_url-read_back_example =
    canonicalize_url-read_back ascii (chars "https://m.facebook.com/marketplace/item/77//?ref=x")
      (chars "https://www.facebook.com/marketplace/item/77/") canonical_item

-- A tab inside the digits is dropped by urlsplit and ends the ID in the text as it stands.
tab_in_item : Chars
tab_in_item = chars "https://www.facebook.com/marketplace/item/1\t2/"

tab_is_dropped :
    Facebook.canonicalize_url ascii tab_in_item
    ≡ ok (chars "https://www.facebook.com/marketplace/item/12/")
unfolding Facebook.canonicalize_url tab_in_item urlsplit has_char starts_with partition all_chars
    span drop same_chars lower hostname after_last drop_last_while is_decimal https_url
tab_is_dropped = refl

tab_ends_id : Facebook.listing_id_from_url ascii tab_in_item ≡ ok (chars "1")
unfolding Facebook.listing_id_from_url tab_in_item starts_with span drop is_decimal
tab_ends_id = refl
