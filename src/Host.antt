-- ===== src/Host.antt =====
-- What the program takes from its host: SHA-256, `json.loads`, SQLite's `json_valid`, the resolution
-- of paths and the files; and Python's text of a number.
use Prim.Native.String.{◌++◌}
use event_lead_ops_agent.Prelude.{
  ℕ, zero, suc, ◌+◌, ◌/◌, ◌%◌, String, Bool, Option, List, if◌then◌else◌, ltb, nat_eq,
}
use event_lead_ops_agent.Json.{Json}

pub record Host : Type 0 where
  -- `hashlib.sha256(text.encode()).hexdigest()`, and the same of bytes
  pub sha256 : String → String
  pub sha256_bytes : List ℕ → String
  -- `json.loads` of a text and of bytes; `none` stands for `JSONDecodeError` or `UnicodeDecodeError`.
  pub loads : String → Option Json
  pub loads_bytes : List ℕ → Option Json
  -- SQLite's function of that name
  pub json_valid : String → Bool
  -- `Path(text).resolve()`
  pub resolve : String → String

-- `os.stat_result` of `lstat`, as far as it is read; `mode` holds the permission bits.
pub record LinkStat : Type 0 where
  pub is_symlink : Bool
  pub is_regular : Bool
  pub mode : ℕ

-- The files, as a call finds them.
pub record Files : Type 0 where
  -- `Path(text).lstat()`; `none` stands for `FileNotFoundError`.
  pub lstat : String → Option LinkStat
  pub is_file : String → Bool
  pub is_dir : String → Bool
  -- `Path(text).read_bytes()`; `none` stands for `OSError`.
  pub read_bytes : String → Option (List ℕ)

digit : ℕ → String
digit d =
    if nat_eq d 0
    then "0"
    else if nat_eq d 1
    then "1"
    else if nat_eq d 2
    then "2"
    else if nat_eq d 3
    then "3"
    else if nat_eq d 4
    then "4"
    else if nat_eq d 5
    then "5"
    else if nat_eq d 6
    then "6"
    else if nat_eq d 7
    then "7"
    else if nat_eq d 8
    then "8"
    else "9"

decimal_fuel : ℕ → ℕ → String
unfolding digit
decimal_fuel zero n = ""
decimal_fuel (suc fuel) n =
    let front = decimal_fuel fuel (n / 10) in if ltb n 10 then digit n else front ++ digit (n % 10)

-- `str(n)`: a number has at most as many digits as its value plus one.
unfoldable pub decimal : ℕ → String
unfolding decimal_fuel
decimal n = decimal_fuel (n + 1) n
