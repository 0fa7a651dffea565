-- ===== src/Executions/Evidence.antt =====
-- _validate_action_evidence of db.py: the manifest that an outcome rests on.
pub mod Sound
use Prim.Native.String.{◌++◌}
use package.text.Mathlib.Text.{starts_with}
use event_lead_ops_agent.Prelude.{
  ℕ, suc, ◌%◌, String, Bool, true, false, not, ◌&&◌, ◌||◌, Option, none, some, List, [], ◌∷◌,
  Result, ok, err, ◌>>=◌, ◌>>◌, raise_if, ensure, or_raise, value_error, os_error, ◌==◌, truthy,
  ltb, nat_eq, if◌then◌else◌,
}
use event_lead_ops_agent.Json.{Json, null, text, object, Fields, field, end_fields}
use event_lead_ops_agent.Host.{Host, Files, LinkStat}

-- `dict.get(key)` of an object
unfoldable pub get_field : String → Fields → Option Json
get_field key end_fields = none
get_field key (field k v rest) = if k == key then some v else get_field key rest

-- `manifest.get(key) == value`, where a key that is missing gives `None`.
abbrev pub is_value : Option Json → Option String → Bool
is_value none none = true
is_value (some null) none = true
is_value (some (text t)) (some s) = t == s
is_value _ _ = false

abbrev pub Expected : Type 0
Expected = List (String × Option String)

unfoldable pub matches_fields : Fields → Expected → Bool
unfolding get_field
matches_fields fields [] = true
matches_fields fields ((key, value) ∷ rest) =
    is_value (get_field key fields) value && matches_fields fields rest

unfoldable pub matches_manifest : Json → Expected → Bool
unfolding matches_fields
matches_manifest (object fields) expected = matches_fields fields expected
matches_manifest _ expected = false

-- `path.parent == root or root in path.parents`, for resolved paths.
unfoldable pub is_inside : String → String → Bool
is_inside root path = starts_with path (root ++ "/") || (root == "/" && starts_with path "/")

-- `len(payload_bytes) > limit`
abbrev pub byte_count : List ℕ → ℕ
byte_count [] = 0
byte_count (b ∷ bytes) = suc (byte_count bytes)

abbrev pub path_or_empty : Option String → String
path_or_empty none = ""
path_or_empty (some s) = s

-- A regular file, not a symlink, that only its owner may touch.
unfoldable pub checked_link : Files → String → Result (Unit {0})
checked_link files path = do
  link ← or_raise (files.lstat path) (value_error "action requires an existing evidence file")
  raise_if (link.is_symlink || not link.is_regular)
      (value_error "action evidence must be a regular file, not a symlink")
  ensure (nat_eq (link.mode % 64) 0) (value_error "action evidence must be owner-only")
  ok tt

-- The digest of the manifest, which lies inside the root and binds what is expected.
unfoldable pub validate_action_evidence :
    Host → Files → Option String → String → Expected → Result String
validate_action_evidence h files path evidence_root expected = do
  ensure (truthy path) (value_error "action requires an existing evidence file")
  checked_link files (path_or_empty path)
  let evidence = h.resolve (path_or_empty path)
  ensure (is_inside (h.resolve evidence_root) evidence)
      (value_error "action evidence must be inside certified evidence root")
  bytes ← or_raise (files.read_bytes evidence) (os_error "read_bytes")
  raise_if (ltb 1000000 (byte_count bytes)) (value_error "action evidence manifest is too large")
  manifest ← or_raise (h.loads_bytes bytes) (value_error "action evidence must be a JSON manifest")
  ensure (matches_manifest manifest expected)
      (value_error "action evidence manifest does not match action")
  ok (h.sha256_bytes bytes)
