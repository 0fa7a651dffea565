-- ===== src/Prelude/Tables.antt =====
-- Tables as lists of rows: the first row that a WHERE clause selects, UPDATE, and their laws.
use Prim.Native.Nat.{ℕ, suc}
use mathlib.Core.Path.{◌≡◌, refl, ap, ◌∙◌}
use mathlib.Core.Logic.{◌≢◌, ◌⊎◌, inl, inr}
use mathlib.Core.Bool.{Bool, true, false}
use mathlib.Core.Option.{Option, none, some}
use mathlib.Core.List.{List, [], ◌∷◌}
use Prim.Native.String.{String}
use native.Mathlib.Omega.{arith}
use text.Mathlib.Text.{◌==◌}
use text.Mathlib.TextEquality.{eq_iff}
use event_lead_ops_agent.Prelude.Tests.{if◌then◌else◌, Bool-cases}

module _ {ℓ} {A : Type ℓ} where
  -- `SELECT … WHERE p` and `fetchone()`
  unfoldable pub find : (A → Bool) → List A → Option A
  find p [] = none
  find p (r ∷ rs) = if p r then some r else find p rs

  -- `UPDATE … SET … WHERE p`
  unfoldable pub update_where : (A → Bool) → (A → A) → List A → List A
  update_where p f [] = []
  update_where p f (r ∷ rs) = (if p r then f r else r) ∷ update_where p f rs

  -- `SELECT COUNT(*) … WHERE p`
  unfoldable pub count : (A → Bool) → List A → ℕ
  count p [] = 0
  count p (r ∷ rs) = if p r then suc (count p rs) else count p rs

  abbrev pub All {κ} : (A → Type κ) → List A → Type κ
  All P [] = Unit
  All P (r ∷ rs) = P r × All P rs

-- A finite map as a function, with one key set.
abbrev pub put {ℓ} : {A : Type ℓ} → String → A → (String → Option A) → String → Option A
put j a f k = if j == k then some a else f k

module _ {ℓ} {A : Type ℓ} (key : A → String) where
  -- The row with a given key.
  abbrev pub by_key : List A → String → Option A
  by_key rows k = find (λ r. key r == k) rows

  pub by_key-found : (rows : List A) (k : String) {r : A} → by_key rows k ≡ some r → key r ≡ k
  unfolding find
  by_key-found [] k h = cc
  by_key-found (x ∷ rows) k {r} h = ground (arith, eq_iff (key x) k, by_key-found rows k {r = r})

  -- An UPDATE by one key leaves the rows with other keys.
  by_key-update_where_ne :
      (rows : List A) (j : String) (f : A → A)
      → ((x : A) → key (f x) ≡ key x)
      → (k : String) → (j == k) ≡ false
      → by_key (update_where (λ x. key x == j) f rows) k ≡ by_key rows k
  unfolding find update_where
  by_key-update_where_ne [] j f same k ne = refl
  by_key-update_where_ne (x ∷ rows) j f same k ne = ground (
    arith,
    same x,
    eq_iff (key x) j,
    eq_iff (key (f x)) k,
    eq_iff (key x) k,
    eq_iff j k,
    by_key-update_where_ne rows j f same k,
  )

  -- An UPDATE by the key, of a row that is there, sets that key.
  pub by_key-update_where :
      (rows : List A) (j : String) (f : A → A) {r : A}
      → ((x : A) → key (f x) ≡ key x)
      → (k : String) → by_key rows j ≡ some r
      → by_key (update_where (λ x. key x == j) f rows) k ≡ put j (f r) (by_key rows) k
  unfolding find update_where
  by_key-update_where [] j f same k h = cc
  by_key-update_where (x ∷ rows) j f {r} same k h = ground (
    arith,
    same x,
    eq_iff (key x) j,
    eq_iff (key (f x)) k,
    eq_iff (key x) k,
    eq_iff j k,
    by_key-update_where_ne rows j f same k,
    by_key-update_where rows j f {r = r} same k,
  )

module _ {ℓ} {A : Type ℓ} where
  pub put_self : (j : String) (a : A) (f : String → Option A) → put j a f j ≡ some a
  put_self j a f = ground (arith, eq_iff j j)

  pub put_ne : (j k : String) (a : A) (f : String → Option A) → j ≢ k → put j a f k ≡ f k
  put_ne j k a f ne = ground (arith, eq_iff j k)

  -- A key that had no value is not one that has.
  pub put_fresh :
      (j k : String) (a : A) (f : String → Option A) {x : A}
      → f j ≡ none
      → f k ≡ some x
      → put j a f k ≡ f k
  put_fresh j k a f hj hk = put_ne j k a f (λ e. cc (hj, hk, ap f e))

  -- Two keys whose values a test tells apart are different.
  pub put_apart :
      (test : A → Bool) (j k : String) (a : A) (f : String → Option A) {x y : A}
      → f j ≡ some x
      → f k ≡ some y
      → test x ≡ true
      → test y ≡ false
      → put j a f k ≡ f k
  put_apart test j k a f hj hk tx ty = put_ne j k a f (λ e. cc (hj, hk, ap f e, tx, ty))

  -- What stands under a key after a write: the new value, or what stood there.
  pub put_cases :
      (j k : String) (a : A) (f : String → Option A) {x : A}
      → put j a f k ≡ some x
      → ((j ≡ k) × (a ≡ x)) ⊎ ((j ≢ k) × (f k ≡ some x))
  put_cases j k a f {x} h = elim (Bool-cases (j == k)) [
    | inl same ↦ inl ((eq_iff j k).0 same, ground arith)
    | inr other ↦ inr (λ e. ground (arith, eq_iff j k), ground arith)
  ]

module _ {ℓ} {A : Type ℓ} (key : A → String) where
  -- No two rows have one key: PRIMARY KEY or UNIQUE.
  abbrev pub Unique : List A → Type ℓ
  Unique [] = Unit
  Unique (x ∷ rows) = (by_key key rows (key x) ≡ none) × Unique rows

  by_key-of_find :
      (p : A → Bool) (rows : List A) (k : String) {r : A}
      → by_key key rows k ≡ none
      → find p rows ≡ some r
      → key r ≢ k
  unfolding find
  by_key-of_find p [] k none_there h e = cc
  by_key-of_find p (x ∷ rows) k {r} none_there h e =
      ground (arith, eq_iff (key x) k, by_key-of_find p rows k {r = r})

  -- A row that any search finds is the row with its key.
  pub find-by_key :
      (p : A → Bool) (rows : List A) {r : A}
      → Unique rows
      → find p rows ≡ some r
      → by_key key rows (key r) ≡ some r
  unfolding find
  find-by_key p [] u h = cc
  find-by_key p (x ∷ rows) {r} u h = ground (
    arith,
    eq_iff (key x) (key r),
    eq_iff (key x) (key x),
    find-by_key p rows {r = r} u.1,
    by_key-of_find p rows (key x) {r = r} u.0,
  )

  by_key-update_where-none :
      (rows : List A) (p : A → Bool) (f : A → A) (k : String)
      → ((x : A) → key (f x) ≡ key x)
      → by_key key rows k ≡ none
      → by_key key (update_where p f rows) k ≡ none
  unfolding find update_where
  by_key-update_where-none [] p f k same h = refl
  by_key-update_where-none (x ∷ rows) p f k same h = ground (
    arith,
    same x,
    eq_iff (key x) k,
    eq_iff (key (f x)) k,
    by_key-update_where-none rows p f k same,
  )

  key-if :
      (b : Bool) (f : A → A) (x : A)
      → ((x : A) → key (f x) ≡ key x)
      → key (if b then f x else x) ≡ key x
  key-if true f x same = same x
  key-if false f x same = refl

  pub update_where-Unique :
      (rows : List A) (p : A → Bool) (f : A → A)
      → ((x : A) → key (f x) ≡ key x)
      → Unique rows
      → Unique (update_where p f rows)
  unfolding update_where
  update_where-Unique [] p f same u = tt
  update_where-Unique (x ∷ rows) p f same u = (
    ap (by_key key (update_where p f rows)) (key-if (p x) f x same)
        ∙ by_key-update_where-none rows p f (key x) same u.0,
    update_where-Unique rows p f same u.1,
  )
