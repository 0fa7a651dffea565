-- ===== src/Executions/Evidence/Sound.antt =====
-- _validate_action_evidence of db.py: the file and the manifest behind a returned digest.
use event_lead_ops_agent.Prelude.{
  ℕ, ◌%◌, ◌≤◌, String, ◌≡◌, refl, sym, ap, ◌∙◌, true, false, not, ◌||◌, Option, some, List, [], ◌∷◌,
  ok, arith, >>=-eq_ok, or_raise-eq_ok, ensure-eq_ok, raise_if-eq_ok, unok, Option-cases, inl, inr,
  truthy, ltb, nat_eq,
}
use event_lead_ops_agent.Json.{Json, object, Fields}
use event_lead_ops_agent.Host.{Host, Files, LinkStat}
use event_lead_ops_agent.Executions.Evidence.{
  Expected, get_field, is_value, matches_fields, matches_manifest, is_inside, byte_count,
  checked_link, validate_action_evidence, path_or_empty,
}

-- The field of an expected key holds the expected text; where no text is expected, it is missing or
-- null.
abbrev pub Binds : Fields → Expected → Type 0
Binds fields [] = Unit
Binds fields ((key, value) ∷ rest) =
    (is_value (get_field key fields) value ≡ true) × Binds fields rest

Binds-of_matches :
    (fields : Fields) (expected : Expected)
    → matches_fields fields expected ≡ true
    → Binds fields expected
unfolding matches_fields
Binds-of_matches fields [] e = tt
Binds-of_matches fields ((key, value) ∷ rest) e =
    (ground arith, Binds-of_matches fields rest (ground arith))

module _ (h : Host) (files : Files) (path : Option String) (evidence_root : String)
    (expected : Expected) where
  pub record Evidenced (digest : String) : Type 0 where
    pub named : String
    pub given : path ≡ some named
    pub link : LinkStat
    pub there : files.lstat named ≡ some link
    pub no_symlink : link.is_symlink ≡ false
    pub regular : link.is_regular ≡ true
    pub owner_only : link.mode % 64 ≡ 0
    pub inside : is_inside (h.resolve evidence_root) (h.resolve named) ≡ true
    pub bytes : List ℕ
    pub read : files.read_bytes (h.resolve named) ≡ some bytes
    pub small : byte_count bytes ≤ 1000000
    pub fields : Fields
    pub manifest : h.loads_bytes bytes ≡ some (object fields)
    pub binds : Binds fields expected
    pub is_digest : digest ≡ h.sha256_bytes bytes

  given_path : truthy path ≡ true → (s : String) × (path ≡ some s)
  given_path e = elim (Option-cases path) [ inl gone ↦ absurd (ground arith) | inr found ↦ found ]

  checked_link-eq_ok :
      (name : String) {u : Unit {0}}
      → checked_link files name ≡ ok u
      → (l : LinkStat) × (files.lstat name ≡ some l)
        × (l.is_symlink ≡ false)
        × (l.is_regular ≡ true)
        × (l.mode % 64 ≡ 0)
  unfolding checked_link
  checked_link-eq_ok name e =
      let (l, there, e1) = or_raise-eq_ok (files.lstat name) _ _ e in
      let (link, e2) = raise_if-eq_ok (l.is_symlink || not l.is_regular) _ _ e1 in
      let (owner, e3) = ensure-eq_ok (nat_eq (l.mode % 64) 0) _ _ e2 in
      (l, there, ground arith, ground arith, ground arith)

  manifest_fields :
      (manifest : Json)
      → matches_manifest manifest expected ≡ true
      → (fields : Fields) × (manifest ≡ object fields) × Binds fields expected
  unfolding matches_manifest
  manifest_fields (object fields) e = (fields, refl, Binds-of_matches fields expected e)
  manifest_fields _ e = cc

  -- Where the evidence passes, everything of `Evidenced` holds: the path is given, and it is a
  -- regular file, no symlink, that only its owner may touch, inside the evidence root; it has at
  -- most 1000000 bytes, which decode to a JSON object whose fields hold what is expected; and the
  -- digest is the SHA-256 of these bytes.
  pub validate_action_evidence_sound :
      {digest : String}
      → validate_action_evidence h files path evidence_root expected ≡ ok digest
      → Evidenced digest
  unfolding validate_action_evidence
  validate_action_evidence_sound e =
      let (given, e1) = ensure-eq_ok (truthy path) _ _ e in
      let (name, is_name) = given_path given in
      let is_path : path_or_empty path ≡ name = ap path_or_empty is_name in
      let (u, link, e2) = >>=-eq_ok (checked_link files (path_or_empty path)) _ e1 in
      let (l, there, no_symlink, regular, owner) = checked_link-eq_ok (path_or_empty path) link in
      let (inside, e3) =
        ensure-eq_ok (is_inside (h.resolve evidence_root) (h.resolve (path_or_empty path))) _ _
          e2 in
      let (bytes, read, e4) =
        or_raise-eq_ok (files.read_bytes (h.resolve (path_or_empty path))) _ _ e3 in
      let (small, e5) = raise_if-eq_ok (ltb 1000000 (byte_count bytes)) _ _ e4 in
      let (manifest, loaded, e6) = or_raise-eq_ok (h.loads_bytes bytes) _ _ e5 in
      let (matches, e7) = ensure-eq_ok (matches_manifest manifest expected) _ _ e6 in
      let (fields, is_object, binds) = manifest_fields manifest matches in
      record {
        named = name;
        given = is_name;
        link = l;
        there = ap files.lstat (sym is_path) ∙ there;
        no_symlink = no_symlink;
        regular = regular;
        owner_only = owner;
        inside = ap (λ p. is_inside (h.resolve evidence_root) (h.resolve p)) (sym is_path) ∙ inside;
        bytes = bytes;
        read = ap (λ p. files.read_bytes (h.resolve p)) (sym is_path) ∙ read;
        small = ground arith;
        fields = fields;
        manifest = loaded ∙ ap some is_object;
        binds = binds;
        is_digest = sym (unok e7);
      }
