-- ===== src/Sources.antt =====
-- sources/*.py: the URLs of listings on the two sites.
pub mod Craigslist
pub mod Facebook
pub mod Identity
use event_lead_ops_agent.Prelude.{String, Result, ok, err, ◌>>=◌}
use event_lead_ops_agent.Texts.{Chars, chars, string, Unicode}
use event_lead_ops_agent.Executions.Finish.{Site, Sites}

-- A function of texts, from one of characters.
abbrev on_texts : (Chars → Result Chars) → String → Result String
on_texts f s = f (chars s) >>= λ t. ok (string t)

-- The sites of finish_action, with the repository's own functions.
abbrev pub sites_of : Unicode → Sites
sites_of u = record {
  craigslist = record {
    canonicalize_url = on_texts (Craigslist.canonicalize_url u);
    listing_id_from_url = on_texts (Craigslist.listing_id_from_url u);
  };
  facebook_marketplace = record {
    canonicalize_url = on_texts (Facebook.canonicalize_url u);
    listing_id_from_url = on_texts (Facebook.listing_id_from_url u);
  };
}
