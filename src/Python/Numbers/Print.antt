-- ===== src/Python/Numbers/Print.antt =====
-- `str(n)` of an integer, and `str` of any value.
use Prim.Native.String.{◌∷◌}
use mizan_client_sdks.Base.{◌≡◌, refl, ℕ, zero, suc, ◌/◌, ◌%◌, Char, String, true, false, ltb}
use mizan_client_sdks.Base.Int.{ℤ, pos, negsuc}
use mizan_client_sdks.Python.Value.{Value, null, bool, int, float, str, arr, obj}
use mizan_client_sdks.Python.Text.{append}
use mizan_client_sdks.Python.Runtime.{Python}

unfoldable pub digit : ℕ → Char
digit zero = "0"
digit (suc zero) = "1"
digit (suc (suc zero)) = "2"
digit (suc (suc (suc zero))) = "3"
digit (suc (suc (suc (suc zero)))) = "4"
digit (suc (suc (suc (suc (suc zero))))) = "5"
digit (suc (suc (suc (suc (suc (suc zero)))))) = "6"
digit (suc (suc (suc (suc (suc (suc (suc zero))))))) = "7"
digit (suc (suc (suc (suc (suc (suc (suc (suc zero)))))))) = "8"
digit (suc (suc (suc (suc (suc (suc (suc (suc (suc n))))))))) = "9"

-- the digits of `n` in front of `rest`
unfoldable pub show_onto : ℕ → ℕ → String → String
show_onto zero n rest = rest
show_onto (suc fuel) n rest = elim (ltb n 10) [
  | true ↦ digit n ∷ rest
  | false ↦ show_onto fuel (n / 10) (digit (n % 10) ∷ rest)
]

-- str(n) for n ≥ 0; a number has fewer digits than one more than its value
unfoldable pub show : ℕ → String
unfolding show_onto digit
show n = show_onto (suc n) n ""

unfoldable pub show_int : ℤ → String
unfolding show
show_int (pos n) = show n
show_int (negsuc n) = append "-" (show (suc n))

-- str(v)
unfoldable pub str_of : Python → Value → String
unfolding show_int
str_of py null = "None"
str_of py (bool true) = "True"
str_of py (bool false) = "False"
str_of py (int n) = show_int n
str_of py (float text finite) = text
str_of py (str s) = s
str_of py (arr xs) = append "[" (py.repr_items xs)
str_of py (obj fs) = append "{" (py.repr_fields fs)

show_tests : show 9223372036854775807 ≡ "9223372036854775807"
unfolding show
show_tests = refl
