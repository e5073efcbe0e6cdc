-- ===== src/Python/Runtime.antt =====
-- The interpreter's tables and codecs that the SDK calls and that are not written in the repository:
-- the Unicode character database behind `\d`, `isdigit`, `strip`, `lower` and `upper`, the limit of
-- `int` on long digit strings, `datetime.fromisoformat`, UTF-8 and the `json` module.
use mizan_client_sdks.Base.{
  ℕ, ◌-◌, ◌≤◌, ◌<◌, Char, code, String, ◌≡◌, ◌⊎◌, Bool, true, Option, none, some, List,
}
use mizan_client_sdks.Python.Value.{Value, Items, Fields, Result}

-- What `json.loads` does: it returns a value, raises `UnicodeDecodeError` or `JSONDecodeError`, or
-- raises another exception (`RecursionError` on deep nesting, `ValueError` on an integer with more
-- digits than the interpreter converts).
pub data Loads : Type 0 where
  loaded : Value → Loads
  malformed : Loads
  loads_raised : Loads

pub record Python : Type 0 where
  -- the value of a character that `\d` matches and `int` reads
  pub decimal : Char → Option ℕ
  -- c.isdigit(), which also holds of superscripts
  pub is_digit : Char → Bool
  -- c.isspace()
  pub is_space : Char → Bool
  pub lower : String → String
  pub upper : String → String
  -- sys.get_int_max_str_digits(), with 0 for no limit
  pub int_max_str_digits : ℕ
  -- the message of the `ValueError` that `int(s)` raises
  pub int_message : String → String
  -- `datetime.fromisoformat`: `none` for `ValueError`, else whether there is a timezone
  pub from_iso_format : String → Option Bool
  -- what `str` writes of a list or a dict behind its opening bracket
  pub repr_items : Items → String
  pub repr_fields : Fields → String
  -- repr(s) of a text
  pub repr : String → String
  -- json.loads(raw), and json.loads(raw.decode("utf-8"))
  pub loads : List ℕ → Loads
  pub loads_utf8 : List ℕ → Loads
  -- a < b and a <= b of two numbers, one of which is a float
  pub float_less : Value → Value → Bool
  pub float_at_most : Value → Value → Bool
  -- json.dumps(d, separators=(",", ":"), ensure_ascii=False).encode("utf-8"), for a value that it
  -- writes: it raises on an integer with more digits than the interpreter converts
  pub dumps : Fields → List ℕ
  -- json.dumps(d, separators=(",", ":")).encode("utf-8"), for such a value
  pub dumps_ascii : Fields → List ℕ
  -- dict(items) of a list that is not empty
  pub dict_of_items : Items → Result Fields
  -- s.encode("utf-8")
  pub encode : String → List ℕ

-- What the documentation of Python says of the tables that the theorems rely on.
pub record IsDocumented (py : Python) : Type 0 where
  pub decimal_lt : (c : Char) (d : ℕ) → py.decimal c ≡ some d → d < 10
  pub decimal_is_digit : (c : Char) (d : ℕ) → py.decimal c ≡ some d → py.is_digit c ≡ true
  pub decimal_ascii : (c : Char) → 48 ≤ code c → code c ≤ 57 → py.decimal c ≡ some (code c - 48)
  pub decimal_below : (c : Char) → code c < 48 → py.decimal c ≡ none
  -- the limit is off, or at least `sys.int_info.str_digits_check_threshold`
  pub limit_threshold : (py.int_max_str_digits ≡ 0) ⊎ (640 ≤ py.int_max_str_digits)
