-- ===== src/Models/Identity.antt =====
-- RuntimeIdentity.__post_init__ of models.py.
use Prim.Native.Char.{Char, code}
use event_lead_ops_agent.Prelude.{
  String, ◌≡◌, ◌↔◌, ◌⊎◌, inl, inr, refl, sym, ap, ◌∙◌, Bool, true, false, ◌&&◌, ◌||◌, List, [], ◌∷◌,
  Result, ok, ◌>>=◌, ◌>>◌, raise_if, ensure, value_error, unok, arith, Bool-cases, ensure-eq_ok,
  raise_if-eq_ok, >>=-eq_ok, ||-both_false,
}
use event_lead_ops_agent.Texts.{
  Chars, chars, is_empty, is_space, all_chars, drop_while, drop_last_while, starts_with, strip,
}
use event_lead_ops_agent.Models.{RuntimeIdentity}

-- `self.as_dict().values()`
abbrev pub field_texts : RuntimeIdentity → List String
field_texts r =
    r.source ∷ r.account_alias ∷ r.route ∷ r.provider ∷ r.egress_identity ∷ r.proxy_identity
    ∷ r.profile_dir ∷ r.browser_major_version ∷ r.display_mode ∷ r.viewport ∷ r.evidence_root ∷ []

-- `not value.strip()`
unfoldable pub is_blank : String → Bool
unfolding strip
is_blank s = is_empty (strip (chars s))

abbrev pub any_blank : List String → Bool
any_blank [] = false
any_blank (s ∷ texts) = is_blank s || any_blank texts

-- `Path(text).is_absolute()`, on POSIX
unfoldable pub is_absolute : String → Bool
unfolding starts_with
is_absolute s = starts_with (chars s) (chars "/")

-- A RuntimeIdentity as it is after `__post_init__`. `resolve` is `Path(text).resolve()`, with the
-- exception that it raises: ValueError for a null byte, OSError, RuntimeError for a loop of links.
unfoldable pub new_runtime_identity :
    (String → Result String) → RuntimeIdentity → Result RuntimeIdentity
unfolding is_blank is_absolute
new_runtime_identity resolve r = do
  raise_if (any_blank (field_texts r)) (value_error "runtime identity fields must be non-empty")
  ensure (is_absolute r.profile_dir) (value_error "runtime identity paths must be absolute")
  profile_dir ← resolve r.profile_dir
  ensure (is_absolute r.evidence_root) (value_error "runtime identity paths must be absolute")
  evidence_root ← resolve r.evidence_root
  ok (record r { profile_dir = profile_dir; evidence_root = evidence_root })

-- One of the characters is not white space.
abbrev pub HasInk : Chars → Type 0
HasInk [] = ⊥
HasInk (c ∷ s) = (is_space c ≡ false) ⊎ HasInk s

abbrev pub IsFilled : String → Type 0
IsFilled s = HasInk (chars s)

-- The path begins with a slash, U+002F.
abbrev pub IsAbsolute : String → Type 0
IsAbsolute s = (c : Char) × (rest : Chars) × (chars s ≡ c ∷ rest) × (code c ≡ 47)

-- The eleven fields
pub record Filled (r : RuntimeIdentity) : Type 0 where
  pub source : IsFilled r.source
  pub account_alias : IsFilled r.account_alias
  pub route : IsFilled r.route
  pub provider : IsFilled r.provider
  pub egress_identity : IsFilled r.egress_identity
  pub proxy_identity : IsFilled r.proxy_identity
  pub profile_dir : IsFilled r.profile_dir
  pub browser_major_version : IsFilled r.browser_major_version
  pub display_mode : IsFilled r.display_mode
  pub viewport : IsFilled r.viewport
  pub evidence_root : IsFilled r.evidence_root

module _ (p : Char → Bool) where
  is_empty-drop_last_while : (s : Chars) → is_empty (drop_last_while p s) ≡ all_chars p s
  unfolding drop_last_while all_chars
  is_empty-drop_last_while [] = refl
  is_empty-drop_last_while (c ∷ s) = ground (arith, is_empty-drop_last_while s)

  all_chars-drop_while : (s : Chars) → all_chars p (drop_while p s) ≡ all_chars p s
  unfolding drop_while all_chars
  all_chars-drop_while [] = refl
  all_chars-drop_while (c ∷ s) = ground (arith, all_chars-drop_while s)

is_empty-strip : (s : Chars) → is_empty (strip s) ≡ all_chars is_space s
unfolding strip
is_empty-strip s =
    is_empty-drop_last_while is_space (drop_while is_space s) ∙ all_chars-drop_while is_space s

HasInk-of : (s : Chars) → all_chars is_space s ≡ false → HasInk s
unfolding all_chars
HasInk-of [] e = absurd (cc e)
HasInk-of (c ∷ s) e = elim (Bool-cases (is_space c)) [
  | inl space ↦ inr (HasInk-of s (ap (λ b. b && all_chars is_space s) (sym space) ∙ e))
  | inr ink ↦ inl ink
]

HasInk-some : (s : Chars) → HasInk s → all_chars is_space s ≡ false
unfolding all_chars
HasInk-some [] never = absurd never
HasInk-some (c ∷ s) (inl ink) = ap (λ b. b && all_chars is_space s) ink
HasInk-some (c ∷ s) (inr later) = ground (arith, HasInk-some s later)

IsFilled-of : (s : String) → is_blank s ≡ false → IsFilled s
unfolding is_blank
IsFilled-of s e = HasInk-of (chars s) (sym (is_empty-strip (chars s)) ∙ e)

is_blank-none : (s : String) → IsFilled s → is_blank s ≡ false
unfolding is_blank
is_blank-none s filled = is_empty-strip (chars s) ∙ HasInk-some (chars s) filled

IsAbsolute-of : (s : String) → is_absolute s ≡ true → IsAbsolute s
unfolding is_absolute starts_with
IsAbsolute-of s e = slashed (chars s) refl e
  where
    slashed : (l : Chars) → chars s ≡ l → starts_with l (chars "/") ≡ true → IsAbsolute s
    slashed [] is e = absurd (cc e)
    slashed (c ∷ rest) is e = (c, rest, is, ground arith)

is_absolute-slashed : (s : String) → IsAbsolute s → is_absolute s ≡ true
unfolding is_absolute starts_with
is_absolute-slashed s (c, rest, is, slash) =
    ap (λ l. starts_with l (chars "/")) is ∙ ground (arith, slash)

module _ (r : RuntimeIdentity) where
  Filled-of : any_blank (field_texts r) ≡ false → Filled r
  Filled-of e =
      let (source, e1) = ||-both_false (is_blank r.source) _ e in
      let (account_alias, e2) = ||-both_false (is_blank r.account_alias) _ e1 in
      let (route, e3) = ||-both_false (is_blank r.route) _ e2 in
      let (provider, e4) = ||-both_false (is_blank r.provider) _ e3 in
      let (egress_identity, e5) = ||-both_false (is_blank r.egress_identity) _ e4 in
      let (proxy_identity, e6) = ||-both_false (is_blank r.proxy_identity) _ e5 in
      let (profile_dir, e7) = ||-both_false (is_blank r.profile_dir) _ e6 in
      let (browser, e8) = ||-both_false (is_blank r.browser_major_version) _ e7 in
      let (display_mode, e9) = ||-both_false (is_blank r.display_mode) _ e8 in
      let (viewport, e10) = ||-both_false (is_blank r.viewport) _ e9 in
      let (evidence_root, e11) = ||-both_false (is_blank r.evidence_root) _ e10 in
      record {
        source = IsFilled-of _ source;
        account_alias = IsFilled-of _ account_alias;
        route = IsFilled-of _ route;
        provider = IsFilled-of _ provider;
        egress_identity = IsFilled-of _ egress_identity;
        proxy_identity = IsFilled-of _ proxy_identity;
        profile_dir = IsFilled-of _ profile_dir;
        browser_major_version = IsFilled-of _ browser;
        display_mode = IsFilled-of _ display_mode;
        viewport = IsFilled-of _ viewport;
        evidence_root = IsFilled-of _ evidence_root;
      }

  any_blank-none : Filled r → any_blank (field_texts r) ≡ false
  any_blank-none f =
      rw
        (
          is_blank-none r.source f.source,
          is_blank-none r.account_alias f.account_alias,
          is_blank-none r.route f.route,
          is_blank-none r.provider f.provider,
          is_blank-none r.egress_identity f.egress_identity,
          is_blank-none r.proxy_identity f.proxy_identity,
          is_blank-none r.profile_dir f.profile_dir,
          is_blank-none r.browser_major_version f.browser_major_version,
          is_blank-none r.display_mode f.display_mode,
          is_blank-none r.viewport f.viewport,
          is_blank-none r.evidence_root f.evidence_root,
        )
        refl

module _ (resolve : String → Result String) (r : RuntimeIdentity) where
  -- What the fields must be, and the identity that is made of them
  pub record Accepted (made : RuntimeIdentity) : Type 0 where
    pub filled : Filled r
    pub profile_absolute : IsAbsolute r.profile_dir
    pub root_absolute : IsAbsolute r.evidence_root
    pub profile_dir : String
    pub profile_resolves : resolve r.profile_dir ≡ ok profile_dir
    pub evidence_root : String
    pub root_resolves : resolve r.evidence_root ≡ ok evidence_root
    pub same : made ≡ record r { profile_dir = profile_dir; evidence_root = evidence_root }

  Accepted-of : (made : RuntimeIdentity) → new_runtime_identity resolve r ≡ ok made → Accepted made
  unfolding new_runtime_identity
  Accepted-of made e =
      let (filled, e1) = raise_if-eq_ok (any_blank (field_texts r)) _ _ e in
      let (profile, e2) = ensure-eq_ok (is_absolute r.profile_dir) _ _ e1 in
      let (profile_dir, profile_resolves, e3) = >>=-eq_ok (resolve r.profile_dir) _ e2 in
      let (root, e4) = ensure-eq_ok (is_absolute r.evidence_root) _ _ e3 in
      let (evidence_root, root_resolves, e5) = >>=-eq_ok (resolve r.evidence_root) _ e4 in
      record {
        filled = Filled-of r filled;
        profile_absolute = IsAbsolute-of r.profile_dir profile;
        root_absolute = IsAbsolute-of r.evidence_root root;
        profile_dir = profile_dir;
        profile_resolves = profile_resolves;
        evidence_root = evidence_root;
        root_resolves = root_resolves;
        same = sym (unok e5);
      }

  accepts : (made : RuntimeIdentity) → Accepted made → new_runtime_identity resolve r ≡ ok made
  unfolding new_runtime_identity
  accepts made a =
      rw
        (
          any_blank-none r a.filled,
          is_absolute-slashed r.profile_dir a.profile_absolute,
          a.profile_resolves,
          is_absolute-slashed r.evidence_root a.root_absolute,
          a.root_resolves,
          a.same,
        )
        refl

  -- A RuntimeIdentity is made of given fields if and only if each of the eleven has a character that
  -- is not white space, the paths of the profile and of the evidence begin with a slash, and both
  -- resolve without an error; it then holds the paths as they resolve and the other fields as they
  -- were given.
  pub new_runtime_identity_iff :
      (made : RuntimeIdentity) → (new_runtime_identity resolve r ≡ ok made) ↔ Accepted made
  new_runtime_identity_iff made = (Accepted-of made, accepts made)
