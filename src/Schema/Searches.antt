-- ===== src/Schema/Searches.antt =====
-- Searches of a table: whether a row with a property exists, and the rows that any search finds.
use event_lead_ops_agent.Prelude.{
  ◌≡◌, Bool, true, false, some, List, [], ◌∷◌, arith, find, Bool-cases, inl, inr,
}
use event_lead_ops_agent.Schema.Constraints.{exists}

module _ {ℓ} {A : Type ℓ} (p q : A → Bool) where
  pub found_exists :
      (rows : List A) {r : A} → find q rows ≡ some r → p r ≡ true → exists p rows ≡ true
  unfolding find
  found_exists [] found holds = cc
  found_exists (x ∷ rows) {r} found holds = ground (arith, found_exists rows {r = r})

  pub found_fails :
      (rows : List A) {r : A} → find q rows ≡ some r → exists p rows ≡ false → p r ≡ false
  found_fails rows {r} found none_there = elim (Bool-cases (p r)) [
    | inl holds ↦ absurd (cc (none_there, found_exists rows found holds))
    | inr fails ↦ fails
  ]
