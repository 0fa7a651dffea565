-- ===== src/Json.antt =====
-- JSON values and their texts: `json.dumps(value, sort_keys=True, separators=(",", ":"))` with
-- `ensure_ascii` on (the default, which db.py and models.py use) or off (`canonical_json` of
-- policy.py). A number is kept as the text that Python prints for it.
use Prim.Native.Nat.{Ordering}
use Prim.Native.Char.{Char, code}
use Prim.Native.String.{compare, ◌++◌}
use event_lead_ops_agent.Prelude.{
  ℕ, ◌+◌, ◌-◌, ◌/◌, ◌%◌, String, Bool, true, false, ◌≡◌, refl, if◌then◌else◌, ltb, nat_eq,
}

mutual
  pub data Json : Type 0 where
    null : Json
    boolean : Bool → Json
    number : String → Json
    text : String → Json
    array : Items → Json
    object : Fields → Json

  pub data Items : Type 0 where
    end_items : Items
    item : Json → Items → Items

  pub data Fields : Type 0 where
    end_fields : Fields
    field : String → Json → Fields → Fields

hex_digit : ℕ → String
hex_digit d =
    if nat_eq d 0
    then "0"
    else if nat_eq d 1
    then "1"
    else if nat_eq d 2
    then "2"
    else if nat_eq d 3
    then "3"
    else if nat_eq d 4
    then "4"
    else if nat_eq d 5
    then "5"
    else if nat_eq d 6
    then "6"
    else if nat_eq d 7
    then "7"
    else if nat_eq d 8
    then "8"
    else if nat_eq d 9
    then "9"
    else if nat_eq d 10
    then "a"
    else if nat_eq d 11
    then "b"
    else if nat_eq d 12
    then "c"
    else if nat_eq d 13
    then "d"
    else if nat_eq d 14
    then "e"
    else "f"

-- `\uXXXX`
unicode_escape : ℕ → String
unfolding hex_digit
unicode_escape c =
    "\\u"
    ++ (hex_digit (c / 4096 % 16)
        ++ (hex_digit (c / 256 % 16) ++ (hex_digit (c / 16 % 16) ++ hex_digit (c % 16))))

-- A character above U+FFFF is written as a surrogate pair.
wide_escape : ℕ → String
unfolding unicode_escape
wide_escape c =
    if ltb c 65536
    then unicode_escape c
    else unicode_escape (55296 + (c - 65536) / 1024) ++ unicode_escape (56320 + (c - 65536) % 1024)

-- The encoder's table of escapes; what it does not list is kept if `ensure_ascii` is off.
escape_char : Bool → Char → String
unfolding wide_escape
escape_char ensure_ascii ch =
    let c = code ch in
    if nat_eq c 34
    then "\\\""
    else if nat_eq c 92
    then "\\\\"
    else if nat_eq c 10
    then "\\n"
    else if nat_eq c 13
    then "\\r"
    else if nat_eq c 9
    then "\\t"
    else if nat_eq c 12
    then "\\f"
    else if nat_eq c 8
    then "\\b"
    else if ltb c 32
    then unicode_escape c
    else if ltb c 127
    then String.◌∷◌ ch ""
    else if ensure_ascii
    then wide_escape c
    else String.◌∷◌ ch ""

escape : Bool → String → String
unfolding escape_char
escape a String.[] = ""
escape a (String.◌∷◌ ch s) = escape_char a ch ++ escape a s

quote : Bool → String → String
unfolding escape
quote a s = "\"" ++ (escape a s ++ "\"")

-- `sort_keys=True`: keys by their code points. A mapping has each key once.
insert_field : String → Json → Fields → Fields
insert_field k v end_fields = field k v end_fields
insert_field k v (field j w rest) = elim (compare k j) [
  | Ordering.lt ↦ field k v (field j w rest)
  | Ordering.eq ↦ field k v (field j w rest)
  | Ordering.gt ↦ field j w (insert_field k v rest)
]

unfoldable mutual
  unfolding insert_field

  pub sort_keys : Json → Json
  sort_keys null = null
  sort_keys (boolean b) = boolean b
  sort_keys (number n) = number n
  sort_keys (text s) = text s
  sort_keys (array xs) = array (sort_keys_items xs)
  sort_keys (object fs) = object (sort_keys_fields fs)

  pub sort_keys_items : Items → Items
  sort_keys_items end_items = end_items
  sort_keys_items (item x xs) = item (sort_keys x) (sort_keys_items xs)

  pub sort_keys_fields : Fields → Fields
  sort_keys_fields end_fields = end_fields
  sort_keys_fields (field k v rest) = insert_field k (sort_keys v) (sort_keys_fields rest)

-- The text of a value whose keys are in order already. `rest_items` and `rest_fields` begin with
-- the separator, so that the separators stand between the parts only.
unfoldable mutual
  unfolding quote

  pub render : Bool → Json → String
  render a null = "null"
  render a (boolean true) = "true"
  render a (boolean false) = "false"
  render a (number n) = n
  render a (text s) = quote a s
  render a (array end_items) = "[]"
  render a (array (item x xs)) = "[" ++ (render a x ++ (rest_items a xs ++ "]"))
  render a (object end_fields) = "{}"
  render a (object (field k v rest)) =
      "{" ++ (quote a k ++ (":" ++ (render a v ++ (rest_fields a rest ++ "}"))))

  pub rest_items : Bool → Items → String
  rest_items a end_items = ""
  rest_items a (item x xs) = "," ++ (render a x ++ rest_items a xs)

  pub rest_fields : Bool → Fields → String
  rest_fields a end_fields = ""
  rest_fields a (field k v rest) = "," ++ (quote a k ++ (":" ++ (render a v ++ rest_fields a rest)))

-- `json.dumps(value, sort_keys=True, separators=(",", ":"))`
unfoldable pub dumps : Json → String
unfolding sort_keys render
dumps v = render true (sort_keys v)

-- `json.dumps(value, sort_keys=True, separators=(",", ":"), ensure_ascii=False)`
unfoldable pub canonical_json : Json → String
unfolding sort_keys render
canonical_json v = render false (sort_keys v)

abbrev sample : Json
sample = object (
    field "b" (text "café\n")
      (field "a" (array (item null (item (boolean true) end_items))) end_fields))

dumps-sample : dumps sample ≡ "{\"a\":[null,true],\"b\":\"caf\\u00e9\\n\"}"
unfolding dumps
dumps-sample = refl

canonical_json-sample : canonical_json sample ≡ "{\"a\":[null,true],\"b\":\"café\\n\"}"
unfolding canonical_json
canonical_json-sample = refl
