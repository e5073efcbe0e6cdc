-- ===== src/Tests/Interpreter.antt =====
-- An interpreter with ASCII tables, for the tests.
use mathlib.Core.List.{[], ◌∷◌}
use mizan_client_sdks.Base.{
  ◌-◌, Char, code, inr, Bool, ◌&&◌, true, false, none, some, leb, nat_eq, arith, if◌then◌else◌,
}
use mizan_client_sdks.Python.Value.{bool, obj, end, field, err, type_error}
use mizan_client_sdks.Python.Runtime.{Python, IsDocumented, loaded, malformed}

abbrev pub ascii_digit : Char → Bool
ascii_digit c = leb 48 (code c) && leb (code c) 57

abbrev pub ascii : Python
ascii = record {
  decimal = λ c. if ascii_digit c then some (code c - 48) else none;
  is_digit = ascii_digit;
  is_space = λ c. nat_eq (code c) 32;
  lower = λ s. s;
  upper = λ s. s;
  int_max_str_digits = 4300;
  int_message = λ s. s;
  from_iso_format = λ s. some true;
  repr_items = λ xs. "]";
  repr_fields = λ fs. "}";
  repr = λ s. s;
  loads = λ raw. malformed;
  loads_utf8 = λ raw. loaded (obj (field "accepted" (bool true) end));
  float_less = λ a b. false;
  float_at_most = λ a b. true;
  dumps = λ fs. 123 ∷ 125 ∷ [];
  dumps_ascii = λ fs. 123 ∷ 125 ∷ [];
  dict_of_items = λ xs. err type_error;
  encode = λ s. [];
}

pub ascii-IsDocumented : IsDocumented ascii
ascii-IsDocumented = record {
  decimal_lt = λ c d h. ground arith;
  decimal_is_digit = λ c d h. ground arith;
  decimal_ascii = λ c l h. ground arith;
  decimal_below = λ c h. ground arith;
  limit_threshold = inr (omega arith);
}
