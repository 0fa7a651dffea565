-- ===== src/Prelude/Errors.antt =====
-- Code that may raise: the exceptions of the program, and results with their `do` notation.
use Prim.Native.String.{String}
use mathlib.Core.Path.{◌≡◌, refl}
use mathlib.Core.Bool.{Bool, true, false}
use mathlib.Core.Option.{Option, none, some}

-- The exception's class, and its message without the values that an f-string appends to it.
pub data Error : Type 0 where
  value_error runtime_error key_error type_error permission_error policy_violation : String → Error
  profile_lock_error integrity_error operational_error os_error : String → Error

pub data Result {ℓ} (A : Type ℓ) : Type ℓ where
  ok : A → Result A
  err : Error → Result A

-- A call, and what follows it unless it raises.
abbrev pub ◌>>=◌ {ℓ κ} :
    {Out : Type κ} {In : Type ℓ} (call : Result In) (rest : In → Result Out) → Result Out
err raised >>= rest = err raised
ok value >>= rest = rest value

-- A check that returns nothing, and what follows it.
abbrev pub ◌>>◌ {ℓ} : {Out : Type ℓ} (check : Result (Unit {0})) (rest : Result Out) → Result Out
check >> rest = check >>= λ _. rest

infixl 5 ◌>>=◌ ◌>>◌
-- `if test: raise e`
abbrev pub raise_if : Bool → Error → Result (Unit {0})
raise_if true e = err e
raise_if false e = ok tt

-- `if not test: raise e`
abbrev pub ensure : Bool → Error → Result (Unit {0})
ensure true e = ok tt
ensure false e = err e

-- `if row is None: raise e`
abbrev pub or_raise {ℓ} : {A : Type ℓ} → Option A → Error → Result A
or_raise none e = err e
or_raise (some a) e = ok a

-- `ok` is injective.
pub unok {ℓ} : {A : Type ℓ} {a b : A} → ok a ≡ ok b → a ≡ b
unok e = cc

-- `some` is injective.
pub unsome {ℓ} : {A : Type ℓ} {a b : A} → some a ≡ some b → a ≡ b
unsome e = cc

module _ {ℓ} {B : Type ℓ} where
  -- Inversions: what a block that returned has passed.
  pub raise_if-eq_ok :
      (b : Bool) (e : Error) (k : Result B) {x : B}
      → (raise_if b e >> k) ≡ ok x
      → (b ≡ false) × (k ≡ ok x)
  raise_if-eq_ok true e k h = cc
  raise_if-eq_ok false e k h = (refl, h)

  pub ensure-eq_ok :
      (b : Bool) (e : Error) (k : Result B) {x : B}
      → (ensure b e >> k) ≡ ok x
      → (b ≡ true) × (k ≡ ok x)
  ensure-eq_ok true e k h = (refl, h)
  ensure-eq_ok false e k h = cc

  pub >>=-eq_ok {κ} :
      {In : Type κ} (call : Result In) (rest : In → Result B) {out : B}
      → (call >>= rest) ≡ ok out
      → (value : In) × (call ≡ ok value) × (rest value ≡ ok out)
  >>=-eq_ok (err raised) rest returned = cc
  >>=-eq_ok (ok value) rest returned = (value, refl, returned)

  pub >>-eq_ok :
      (check : Result (Unit {0})) (rest : Result B) {out : B}
      → (check >> rest) ≡ ok out
      → (check ≡ ok tt) × (rest ≡ ok out)
  >>-eq_ok (err raised) rest returned = cc
  >>-eq_ok (ok passed) rest returned = (refl, returned)

  pub or_raise-eq_ok {κ} :
      {A : Type κ} (o : Option A) (e : Error) (f : A → Result B) {b : B}
      → (or_raise o e >>= f) ≡ ok b
      → (a : A) × (o ≡ some a) × (f a ≡ ok b)
  or_raise-eq_ok (some a) e f h = (a, refl, h)
  or_raise-eq_ok none e f h = cc

-- What a check that returned has passed.
pub ensure-eq_true : (b : Bool) (e : Error) → ensure b e ≡ ok tt → b ≡ true
ensure-eq_true true e h = refl
ensure-eq_true false e h = cc

pub raise_if-eq_false : (b : Bool) (e : Error) → raise_if b e ≡ ok tt → b ≡ false
raise_if-eq_false true e h = cc
raise_if-eq_false false e h = refl
