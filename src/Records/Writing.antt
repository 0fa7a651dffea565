-- ===== src/Records/Writing.antt =====
-- The rows that an INSERT or an UPDATE of source_records leaves, and their constraints.
pub mod Upsert
pub mod Again
pub mod Listings
pub mod Stored
use event_lead_ops_agent.Prelude.{
  String, ◌≡◌, refl, sym, ap, subst, ◌∙◌, Bool, true, false, not, ◌&&◌, ◌||◌, Option, none, some,
  List, [], ◌∷◌, ◌==◌, if◌then◌else◌, find, update_where, arith, eq_iff, Bool-cases, Option-cases,
  unsome, inl, inr,
}
use event_lead_ops_agent.Schema.Constraints.{exists}
use event_lead_ops_agent.Records.{
  RecordRow, is_same_listing, set_values, insert_conflicts, update_conflicts,
}

module _ {ℓ} {A : Type ℓ} (p : A → Bool) (x : A) (rows : List A) where
  pub find-here : p x ≡ true → find p (x ∷ rows) ≡ some x
  unfolding find
  find-here here = ap (λ b. if b then some x else find p rows) here

  pub find-later : p x ≡ false → find p (x ∷ rows) ≡ find p rows
  unfolding find
  find-later away = ap (λ b. if b then some x else find p rows) away

  pub find-first : {r : A} → p x ≡ true → find p (x ∷ rows) ≡ some r → x ≡ r
  find-first here found = unsome (sym (find-here here) ∙ found)

module _ {ℓ} {A : Type ℓ} (p : A → Bool) where
  pub find-none-skip :
      (x : A) (rows : List A) → p x ≡ false → find p rows ≡ none → find p (x ∷ rows) ≡ none
  find-none-skip x rows away later = find-later p x rows away ∙ later

  pub find-none-head :
      (x : A) (rows : List A) → find p (x ∷ rows) ≡ none → (p x ≡ false) × (find p rows ≡ none)
  find-none-head x rows e = elim (Bool-cases (p x)) [
    | inl here ↦ absurd (cc (sym (find-here p x rows here) ∙ e))
    | inr away ↦ (away, sym (find-later p x rows away) ∙ e)
  ]

module _ {ℓ} {A : Type ℓ} (p q : A → Bool) where
  pub find-none-weaken :
      (rows : List A)
      → ((x : A) → q x ≡ true → p x ≡ true)
      → find p rows ≡ none
      → find q rows ≡ none
  unfolding find
  find-none-weaken [] f e = refl
  find-none-weaken (x ∷ rows) f e = ground (arith, f x, find-none-weaken rows f)

  pub find-none-either :
      (rows : List A) → find p rows ≡ none → find q rows ≡ none → find (λ x. p x || q x) rows ≡ none
  unfolding find
  find-none-either [] e f = refl
  find-none-either (x ∷ rows) e f = ground (arith, find-none-either rows)

  -- A row that a search finds is none of those that another search does not find.
  pub find-none-found :
      (rows : List A) (r : A) → find q rows ≡ none → find p rows ≡ some r → q r ≡ false
  unfolding find
  find-none-found [] r none_there e = cc
  find-none-found (x ∷ rows) r none_there e = elim (Bool-cases (p x)) [
    | inl here ↦ ap q (sym (find-first p x rows here e)) ∙ ground arith
    | inr away ↦ find-none-found rows r (ground arith) (ground arith)
  ]

pub exists-none {ℓ} :
    {A : Type ℓ} (p : A → Bool) (rows : List A) → exists p rows ≡ false → find p rows ≡ none
exists-none p rows e = elim (Option-cases (find p rows)) [
  | inl gone ↦ gone
  | inr (r, there) ↦ absurd (ground arith)
]

pub update_where-absent {ℓ} :
    {A : Type ℓ} (p : A → Bool) (f : A → A) (rows : List A)
    → find p rows ≡ none
    → update_where p f rows ≡ rows
unfolding find update_where
update_where-absent p f [] e = refl
update_where-absent p f (x ∷ rows) e = ground (arith, update_where-absent p f rows)

abbrev pub has_id : String → RecordRow → Bool
has_id id row = row.id == id

-- A row of the ID and another source
abbrev pub is_stray : RecordRow → String → RecordRow → Bool
is_stray v id row = row.id == id && not (row.source == v.source)

-- No two rows break a constraint.
abbrev pub WellKept : List RecordRow → Type 0
WellKept [] = Unit
WellKept (x ∷ rows) = (find (insert_conflicts x) rows ≡ none) × WellKept rows

stray-none-here :
    (v x : RecordRow) (rows : List RecordRow)
    → is_same_listing v x ≡ true
    → find (insert_conflicts x) rows ≡ none
    → find (is_stray v x.id) (x ∷ rows) ≡ none
unfolding find
stray-none-here v x rows here kept =
    let later : find (is_stray v x.id) rows ≡ none =
      find-none-weaken (insert_conflicts x) (is_stray v x.id) rows (λ y strays. ground arith)
        kept in
    ground arith

pub stray-none :
    (v e : RecordRow) (rows : List RecordRow)
    → WellKept rows
    → find (is_same_listing v) rows ≡ some e
    → find (is_stray v e.id) rows ≡ none
unfolding find
stray-none v e [] kept found = refl
stray-none v e (x ∷ rows) kept found = elim (Bool-cases (is_same_listing v x)) [
  | inl here ↦
      subst (λ r. find (is_stray v r.id) (x ∷ rows) ≡ none)
        (find-first (is_same_listing v) x rows here found) (stray-none-here v x rows here kept.0)
  | inr away ↦
      let later : find (is_same_listing v) rows ≡ some e = ground arith in
      let other = find-none-found (is_same_listing v) (insert_conflicts x) rows e kept.0 later in
      ground (arith, eq_iff e.id x.id, eq_iff x.id e.id, stray-none v e rows kept.1 later)
]
