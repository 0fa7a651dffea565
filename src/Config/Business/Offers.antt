-- ===== src/Config/Business/Offers.antt =====
-- What a business configuration that _validate_business accepts guarantees.
use event_lead_ops_agent.Prelude.{
  ℕ, suc, String, ◌≡◌, ◌≢◌, refl, subst, ◌∙◌, Bool, true, false, not, ◌+++◌, List, [], ◌∷◌, ok, err,
  value_error, unok, >>=-eq_ok, >>-eq_ok, ensure-eq_ok, ensure-eq_true, &&-both,
}
use event_lead_ops_agent.Host.{decimal}
use event_lead_ops_agent.Texts.{chars, is_empty, strip}
use event_lead_ops_agent.Config.{
  Value, null, boolean, integer, other, text, list, mapping, Values, Entries, get, listed,
  is_one_of, as_mapping,
}
use event_lead_ops_agent.Config.Laws.{as_mapping-eq_ok}
use event_lead_ops_agent.Config.Business.{
  Zone, found, not_found, raised, check_zone, text_of, is_filled_text, as_filled_list, offer_ids,
  all_distinct, check_fields, validate_business,
}

pub not-true : (b : Bool) → not b ≡ true → b ≡ false
not-true false e = refl
not-true true e = cc

-- The value is a list with an element, and these are its elements.
abbrev pub FilledList : Value → List Value → Type 0
FilledList v elements = (vs : Values) × (v ≡ list vs) × (listed vs ≡ elements) × (elements ≢ [])

pub as_filled_list-eq_ok :
    (v : Value) (message : String) (elements : List Value)
    → as_filled_list v message ≡ ok elements
    → FilledList v elements
as_filled_list-eq_ok (list vs) message elements e = filled (listed vs) refl e
  where
    filled :
        (items : List Value)
        → listed vs ≡ items
        → elim items [ [] ↦ err (value_error message) | v ∷ rest ↦ ok (v ∷ rest) ] ≡ ok elements
        → FilledList (list vs) elements
    filled [] same e = absurd cc
    filled (v ∷ rest) same e = (vs, refl, same ∙ unok e, λ empty. cc)
as_filled_list-eq_ok null message elements e = absurd cc
as_filled_list-eq_ok (boolean b) message elements e = absurd cc
as_filled_list-eq_ok (integer n) message elements e = absurd cc
as_filled_list-eq_ok (other s) message elements e = absurd cc
as_filled_list-eq_ok (text s) message elements e = absurd cc
as_filled_list-eq_ok (mapping entries) message elements e = absurd cc

pub check_zone-eq_ok : (z : Zone) (message : String) → check_zone z message ≡ ok tt → z ≡ found
check_zone-eq_ok found message e = refl
check_zone-eq_ok not_found message e = cc
check_zone-eq_ok (raised x) message e = cc

-- A text that is not blank
abbrev pub Filled : Value → String → Type 0
Filled v s = (v ≡ text s) × (is_empty (strip (chars s)) ≡ false)

is_filled_text-Filled : (v : Value) → is_filled_text v ≡ true → Filled v (text_of v)
is_filled_text-Filled (text s) e = (refl, not-true _ e)
is_filled_text-Filled null e = absurd cc
is_filled_text-Filled (boolean b) e = absurd cc
is_filled_text-Filled (integer n) e = absurd cc
is_filled_text-Filled (other s) e = absurd cc
is_filled_text-Filled (list vs) e = absurd cc
is_filled_text-Filled (mapping entries) e = absurd cc

-- The offers and their IDs, in one order
abbrev pub Offers : List Value → List String → Type 0
Offers [] [] = Unit
Offers (v ∷ offers) (id ∷ ids) =
    ((offer : Entries) × (v ≡ mapping offer) × Filled (get "id" offer) id) × Offers offers ids
Offers [] (id ∷ ids) = ⊥
Offers (v ∷ offers) [] = ⊥

Offers-offer_ids :
    (index : ℕ) (offers : List Value) (ids : List String)
    → offer_ids index offers ≡ ok ids
    → Offers offers ids
unfolding offer_ids
Offers-offer_ids index [] ids e = subst (Offers []) (unok e) tt
Offers-offer_ids index (v ∷ offers) ids e =
    let (offer, o, e1) = >>=-eq_ok (as_mapping v ("offers[" +++ (decimal index +++ "]"))) _ e in
    let (filled, e2) = ensure-eq_ok (is_filled_text (get "id" offer)) _ _ e1 in
    let (later, l, done) = >>=-eq_ok (offer_ids (suc index) offers) _ e2 in
    subst (Offers (v ∷ offers)) (unok done) (
      (offer, as_mapping-eq_ok _ _ offer o, is_filled_text-Filled _ filled),
      Offers-offer_ids (suc index) offers later l,
    )

abbrev pub FilledFields : Entries → List String → Type 0
FilledFields business [] = Unit
FilledFields business (field ∷ fields) =
    ((s : String) × Filled (get field business) s) × FilledFields business fields

FilledFields-check_fields :
    (business : Entries) (fields : List String)
    → check_fields business fields ≡ ok tt
    → FilledFields business fields
unfolding check_fields
FilledFields-check_fields business [] e = tt
FilledFields-check_fields business (field ∷ fields) e =
    let (filled, e1) = ensure-eq_ok (is_filled_text (get field business)) _ _ e in
    (
      (text_of (get field business), is_filled_text-Filled _ filled),
      FilledFields-check_fields business fields e1,
    )

-- No ID stands at two places.
abbrev pub Distinct : List String → Type 0
Distinct [] = Unit
Distinct (id ∷ ids) = (is_one_of id ids ≡ false) × Distinct ids

Distinct-all_distinct : (ids : List String) → all_distinct ids ≡ true → Distinct ids
unfolding all_distinct
Distinct-all_distinct [] e = tt
Distinct-all_distinct (id ∷ ids) e =
    let (new, later) = &&-both _ _ e in (not-true _ new, Distinct-all_distinct ids later)

abbrev pub ValidBusiness : (String → Zone) → Entries → Type 0
ValidBusiness zone_info config =
    ((business : Entries) × (get "business" config ≡ mapping business)
      × FilledFields business ("name" ∷ "market" ∷ "timezone" ∷ [])
      × (zone_info (text_of (get "timezone" business)) ≡ found))
    × ((offers : List Value) × (ids : List String) × FilledList (get "offers" config) offers
        × Offers offers ids
        × Distinct ids)

-- A business configuration that _validate_business accepts has a name, a market and a timezone that
-- are not blank, of which ZoneInfo finds the last; and a list of one or more offers, each with an ID
-- that is not blank, no two IDs alike.
pub validate_business-ValidBusiness :
    (zone_info : String → Zone) (config : Entries)
    → validate_business zone_info config ≡ ok tt
    → ValidBusiness zone_info config
unfolding validate_business
validate_business-ValidBusiness zone_info config e =
    let (business, b, e1) = >>=-eq_ok (as_mapping (get "business" config) "business") _ e in
    let (fields, e2) =
      >>-eq_ok (check_fields business ("name" ∷ "market" ∷ "timezone" ∷ [])) _ e1 in
    let (zone, e3) =
      >>-eq_ok
        (check_zone (zone_info (text_of (get "timezone" business)))
          "business.timezone must be a valid IANA timezone")
        _ e2 in
    let (offers, o, e4) =
      >>=-eq_ok (as_filled_list (get "offers" config) "offers must be a non-empty list") _ e3 in
    let (ids, i, e5) = >>=-eq_ok (offer_ids 0 offers) _ e4 in
    (
      (
        business,
        as_mapping-eq_ok _ _ business b,
        FilledFields-check_fields business ("name" ∷ "market" ∷ "timezone" ∷ []) fields,
        check_zone-eq_ok _ _ zone,
      ),
      (
        offers,
        ids,
        as_filled_list-eq_ok _ _ offers o,
        Offers-offer_ids 0 offers ids i,
        Distinct-all_distinct ids (ensure-eq_true _ _ e5),
      ),
    )
