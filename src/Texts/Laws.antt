-- ===== src/Texts/Laws.antt =====
-- The functions of texts across an appended part whose characters all pass a test.
use Prim.Native.Char.{Char}
use event_lead_ops_agent.Prelude.{
  ℕ, ◌≡◌, refl, Bool, true, false, not, ◌&&◌, ◌||◌, [], ◌∷◌, ◌++◌, arith, ltb,
}
use event_lead_ops_agent.Texts.{
  Chars, Unicode, is_char, all_chars, has_char, span, partition, without, drop_last_while,
  is_decimal,
}

pub all_chars-weaken :
    (p q : Char → Bool) (s : Chars)
    → ((c : Char) → p c ≡ true → q c ≡ true)
    → all_chars p s ≡ true
    → all_chars q s ≡ true
unfolding all_chars
all_chars-weaken p q [] f e = refl
all_chars-weaken p q (c ∷ s) f e = ground (arith, f c, all_chars-weaken p q s f)

-- A decimal digit is none of the other ASCII characters.
pub decimal_ne :
    (u : Unicode) (n : ℕ) (c : Char)
    → (ltb n 48 || (ltb 57 n && ltb n 128)) ≡ true
    → is_decimal u c ≡ true
    → not (is_char n c) ≡ true
unfolding is_decimal
decimal_ne u n c apart e = ground arith

module _ (n : ℕ) where
  pub partition-append :
      (s t : Chars)
      → all_chars (λ c. not (is_char n c)) s ≡ true
      → partition n (s ++ t) ≡ (s ++ (partition n t).0, (partition n t).1, (partition n t).2)
  unfolding all_chars partition
  partition-append [] t e = refl
  partition-append (c ∷ s) t e = ground (arith, partition-append s t)

  pub has_char-append :
      (s t : Chars)
      → all_chars (λ c. not (is_char n c)) s ≡ true
      → has_char n (s ++ t) ≡ has_char n t
  unfolding all_chars has_char
  has_char-append [] t e = refl
  has_char-append (c ∷ s) t e = ground (arith, has_char-append s t)

module _ (p : Char → Bool) where
  pub span-append :
      (s t : Chars) → all_chars p s ≡ true → span p (s ++ t) ≡ (s ++ (span p t).0, (span p t).1)
  unfolding all_chars span
  span-append [] t e = refl
  span-append (c ∷ s) t e = ground (arith, span-append s t)

  pub without-append :
      (s t : Chars) → all_chars (λ c. not (p c)) s ≡ true → without p (s ++ t) ≡ s ++ without p t
  unfolding all_chars without
  without-append [] t e = refl
  without-append (c ∷ s) t e = ground (arith, without-append s t)

  pub drop_last_while-append :
      (s t : Chars)
      → all_chars (λ c. not (p c)) s ≡ true
      → drop_last_while p t ≡ []
      → drop_last_while p (s ++ t) ≡ s
  unfolding all_chars drop_last_while
  drop_last_while-append [] t e last = last
  drop_last_while-append (c ∷ s) t e last = ground (arith, drop_last_while-append s t)

  -- A character that stays keeps all in front of it.
  pub drop_last_while-keeps :
      (s t rest : Chars) (c : Char)
      → drop_last_while p t ≡ c ∷ rest
      → drop_last_while p (s ++ t) ≡ s ++ (c ∷ rest)
  unfolding drop_last_while
  drop_last_while-keeps [] t rest c e = e
  drop_last_while-keeps (b ∷ []) t rest c e = rw e refl
  drop_last_while-keeps (b ∷ a ∷ s) t rest c e = rw (drop_last_while-keeps (a ∷ s) t rest c e) refl

  pub span-until :
      (s t : Chars) (c : Char)
      → all_chars p s ≡ true
      → p c ≡ false
      → span p (s ++ (c ∷ t)) ≡ (s, c ∷ t)
  unfolding all_chars span
  span-until [] t c e stop = rw stop refl
  span-until (b ∷ s) t c e stop = ground (arith, span-until s t c)

  pub span-split : (s : Chars) → (span p s).0 ++ (span p s).1 ≡ s
  unfolding span
  span-split [] = refl
  span-split (c ∷ s) = ground (arith, span-split s)

  pub span-all_chars : (s : Chars) → all_chars p (span p s).0 ≡ true
  unfolding span all_chars
  span-all_chars [] = refl
  span-all_chars (c ∷ s) = ground (arith, span-all_chars s)
