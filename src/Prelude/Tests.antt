-- ===== src/Prelude/Tests.antt =====
-- Boolean tests on numbers and optional texts, and the conditional.
use Prim.Native.Nat.{ℕ, compare, Ordering}
use Prim.Native.String.{String}
use mathlib.Core.Path.{◌≡◌, refl, sym, ◌∙◌}
use mathlib.Core.Logic.{◌⊎◌, inl, inr}
use mathlib.Core.Bool.{Bool, true, false, not, ◌&&◌, ◌||◌}
use mathlib.Core.Option.{Option, none, some}
use text.Mathlib.Text.{◌==◌}
use text.Mathlib.TextEquality.{eq_iff}

abbrev pub ltb : ℕ → ℕ → Bool
ltb a b = elim (compare a b) [ Ordering.lt ↦ true | _ ↦ false ]

abbrev pub leb : ℕ → ℕ → Bool
leb a b = elim (compare a b) [ Ordering.gt ↦ false | _ ↦ true ]

abbrev pub nat_eq : ℕ → ℕ → Bool
nat_eq a b = elim (compare a b) [ Ordering.eq ↦ true | _ ↦ false ]

infix 1 if◌then◌else◌
abbrev pub if◌then◌else◌ {ℓ} : {A : Type ℓ} → Bool → A → A → A
if true then x else y = x
if false then x else y = y

pub Bool-cases : (b : Bool) → (b ≡ true) ⊎ (b ≡ false)
Bool-cases true = inl refl
Bool-cases false = inr refl

pub Option-cases {ℓ} : {A : Type ℓ} (o : Option A) → (o ≡ none) ⊎ ((a : A) × (o ≡ some a))
Option-cases none = inl refl
Option-cases (some a) = inr (a, refl)

-- Python's truth value of `str | None`: `None` and the empty text are false.
abbrev pub truthy : Option String → Bool
truthy none = false
truthy (some s) = not (s == "")

-- `o == some s` for an optional text that SQL or Python compares with a text.
abbrev pub is_text : Option String → String → Bool
is_text none s = false
is_text (some t) s = t == s

-- Python's `==` between two values of type `str | None`.
abbrev pub same_text : Option String → Option String → Bool
same_text none none = true
same_text none (some s) = false
same_text (some t) o = is_text o t

pub is_text→eq : (o : Option String) (s : String) → is_text o s ≡ true → o ≡ some s
is_text→eq none s h = cc
is_text→eq (some t) s h = cc ((eq_iff t s).0 h)

pub ==→eq : (s t : String) → (s == t) ≡ true → s ≡ t
==→eq s t h = (eq_iff s t).0 h

pub eq→== : (s t : String) → s ≡ t → (s == t) ≡ true
eq→== s t h = (eq_iff s t).1 h

pub &&-both : (a b : Bool) → (a && b) ≡ true → (a ≡ true) × (b ≡ true)
&&-both true b e = (refl, e)
&&-both false b e = cc

pub ==-sym : (s t : String) → (s == t) ≡ (t == s)
==-sym s t = elim (Bool-cases (s == t)) [
  | inl same ↦ same ∙ sym (eq→== t s (sym (==→eq s t same)))
  | inr apart ↦ elim (Bool-cases (t == s)) [
    | inl same ↦ absurd (cc (apart, eq→== s t (sym (==→eq t s same))))
    | inr other ↦ apart ∙ sym other
  ]
]

pub ||-both_false : (a b : Bool) → (a || b) ≡ false → (a ≡ false) × (b ≡ false)
||-both_false true b e = cc
||-both_false false b e = (refl, e)
