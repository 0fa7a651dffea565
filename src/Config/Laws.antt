-- ===== src/Config/Laws.antt =====
-- What the values that a check of config.py let through are.
use event_lead_ops_agent.Prelude.{
  pos, negsuc, ℕ, zero, suc, String, ◌≡◌, refl, ap, subst, true, false, ok, ◌≤◌, nat_eq, arith,
  unok,
}
use event_lead_ops_agent.Config.{
  Value, null, boolean, integer, other, text, list, mapping, Entries, is_true, is_false, as_mapping,
  positive_integer,
}

pub nat_eq→eq : (m n : ℕ) → nat_eq m n ≡ true → m ≡ n
nat_eq→eq m n e = ground arith

pub as_mapping-eq_ok :
    (v : Value) (name : String) (entries : Entries)
    → as_mapping v name ≡ ok entries
    → v ≡ mapping entries
as_mapping-eq_ok (mapping found) name entries e = ap mapping (unok e)
as_mapping-eq_ok (integer n) name entries e = cc
as_mapping-eq_ok null name entries e = cc
as_mapping-eq_ok (boolean b) name entries e = cc
as_mapping-eq_ok (other s) name entries e = cc
as_mapping-eq_ok (text s) name entries e = cc
as_mapping-eq_ok (list vs) name entries e = cc

pub positive_integer-eq_ok :
    (v : Value) (name : String) (n : ℕ)
    → positive_integer v name ≡ ok n
    → (v ≡ integer (pos n)) × (1 ≤ n)
positive_integer-eq_ok (integer (pos zero)) name n e = absurd cc
positive_integer-eq_ok (integer (pos (suc m))) name n e =
    (ap (λ k. integer (pos k)) (unok e), subst (λ k. 1 ≤ k) (unok e) (ground arith))
positive_integer-eq_ok (integer (negsuc m)) name n e = absurd cc
positive_integer-eq_ok (mapping found) name n e = absurd cc
positive_integer-eq_ok null name n e = absurd cc
positive_integer-eq_ok (boolean b) name n e = absurd cc
positive_integer-eq_ok (other s) name n e = absurd cc
positive_integer-eq_ok (text s) name n e = absurd cc
positive_integer-eq_ok (list vs) name n e = absurd cc

pub is_true→eq : (v : Value) → is_true v ≡ true → v ≡ boolean true
is_true→eq (boolean true) e = refl
is_true→eq (boolean false) e = cc
is_true→eq (mapping found) e = cc
is_true→eq (integer n) e = cc
is_true→eq null e = cc
is_true→eq (other s) e = cc
is_true→eq (text s) e = cc
is_true→eq (list vs) e = cc

pub is_false→eq : (v : Value) → is_false v ≡ true → v ≡ boolean false
is_false→eq (boolean true) e = cc
is_false→eq (boolean false) e = refl
is_false→eq (mapping found) e = cc
is_false→eq (integer n) e = cc
is_false→eq null e = cc
is_false→eq (other s) e = cc
is_false→eq (text s) e = cc
is_false→eq (list vs) e = cc
