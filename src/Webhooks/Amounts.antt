-- ===== src/Webhooks/Amounts.antt =====
-- The exact amounts of webhooks.py: canonical integer texts.
pub mod Canonical
use Prim.Native.String.{[], ◌∷◌}
use mizan_client_sdks.Base.{
  ◌-◌, ◌^◌, code, String, Bool, true, false, not, ◌&&◌, ◌||◌, leb, ◌==◌, if◌then◌else◌,
}
use mizan_client_sdks.Base.Int.{ℤ, pos_part, neg_part}
use mizan_client_sdks.Python.Value.{Value, str, Result, ok, ◌>>=◌}
use mizan_client_sdks.Python.Text.{is_empty, starts_minus, tail}
use mizan_client_sdks.Python.Runtime.{Python}
use mizan_client_sdks.Python.Numbers.{int_text, int_signed}

module _ (py : Python) where
  unfoldable pub all_digits : String → Bool
  all_digits [] = true
  all_digits (c ∷ s) = py.is_digit c && all_digits s

  -- s.isdigit()
  abbrev pub is_digits : String → Bool
  is_digits s = not (is_empty s) && all_digits s

-- s[0:1] in "123456789", which holds of the empty text too
unfoldable pub lead_positive : String → Bool
lead_positive [] = true
lead_positive (c ∷ s) = leb b'1' (code c) && leb (code c) b'9'

unfoldable pub unsigned_canonical_digits : Python → String → Bool
unsigned_canonical_digits py s = (s == "0") || (lead_positive s && is_digits py s)

-- -(2**63) <= n <= 2**63 - 1
abbrev pub fits_int64 : ℤ → Bool
fits_int64 n = leb (neg_part n) (2 ^ 63) && leb (pos_part n) (2 ^ 63 - 1)

-- `int` raises `ValueError` on a digit that is not decimal
unfoldable pub canonical_integer : Python → Value → Result Bool
canonical_integer py (str s) =
    let digits = if starts_minus s then tail s else s in
    if not (is_empty s) && unsigned_canonical_digits py digits
    then (do n ← int_signed py s; ok (fits_int64 n))
    else ok false
canonical_integer py _ = ok false

unfoldable pub unsigned_canonical_integer : Python → Value → Result Bool
unsigned_canonical_integer py (str s) =
    if unsigned_canonical_digits py s
    then (do n ← int_text py s; ok (leb n (2 ^ 63 - 1)))
    else ok false
unsigned_canonical_integer py _ = ok false
