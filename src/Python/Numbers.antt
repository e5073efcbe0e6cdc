-- ===== src/Python/Numbers.antt =====
-- `int(s)` on a text of digits, `str(n)`, and `str` of any value.
pub mod Print
pub mod RoundTrip
use Prim.Native.String.{[], ◌∷◌}
use mizan_client_sdks.Base.{
  ℕ, ◌+◌, ◌*◌, String, Bool, ◌&&◌, not, Option, none, some, ltb, nat_eq, if◌then◌else◌,
}
use mizan_client_sdks.Base.Int.{ℤ, pos, negsuc, negate}
use mizan_client_sdks.Python.Value.{Exception, value_error, Result, ok, err, ◌>>=◌}
use mizan_client_sdks.Python.Text.{length, starts_minus, tail}
use mizan_client_sdks.Python.Runtime.{Python}

module _ (py : Python) where
  -- the number that a text of decimal digits writes behind `n`
  unfoldable pub digits_value : ℕ → String → Option ℕ
  digits_value n [] = some n
  digits_value n (c ∷ s) = elim (py.decimal c) [
    | none ↦ none
    | some d ↦ digits_value (n * 10 + d) s
  ]

  -- the interpreter refuses to convert a text with more digits than its limit
  abbrev pub too_long : String → Bool
  too_long s = not (nat_eq py.int_max_str_digits 0) && ltb py.int_max_str_digits (length s)

  -- int(s), for a text with no sign, space or underscore
  unfoldable pub int_text : String → Result ℕ
  unfolding digits_value
  int_text [] = err (value_error (py.int_message ""))
  int_text (c ∷ s) =
      if too_long (c ∷ s)
      then err (value_error (py.int_message (c ∷ s)))
      else elim (digits_value 0 (c ∷ s)) [
        | none ↦ err (value_error (py.int_message (c ∷ s)))
        | some n ↦ ok n
      ]

  -- int(s), for a text that may begin with "-"
  unfoldable pub int_signed : String → Result ℤ
  unfolding int_text
  int_signed s =
      if starts_minus s
      then (do n ← int_text (tail s); ok (negate n))
      else (do n ← int_text s; ok (pos n))
