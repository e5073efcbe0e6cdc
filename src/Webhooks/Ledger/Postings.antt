-- ===== src/Webhooks/Ledger/Postings.antt =====
-- The postings of a ledger event, described apart from the code that reads them.
pub mod Amounts
pub mod Reading
use Prim.Native.String.{[], ◌∷◌}
use text.Mathlib.TextEquality.{Char-path}
use mathlib.Core.Bool.{and-eq-true_iff, false≢true}
use mathlib.Core.List.{[], ◌∷◌}
use mizan_client_sdks.Base.{
  ℕ, ◌^◌, ◌≤◌, ◌<◌, Char, code, String, ◌≡◌, ◌≢◌, refl, sym, ap, ◌∙◌, ◌⊎◌, inl, inr, true, false,
  List, arith, eq_iff, eq_refl, ◌==◌, ◌||◌, ◌&&◌, not, if◌then◌else◌, Bool-cases,
}
use mizan_client_sdks.Base.Int.{ℤ, pos, negate}
use mizan_client_sdks.Python.Value.{
  Value, str, obj, Items, nil, cons, Fields, ok, get_or_null, Result-cases, in_set, contains, ◌>>=◌,
  ◌>>◌, require,
}
use mizan_client_sdks.Python.Text.{is_empty, starts_minus, tail}
use mizan_client_sdks.Python.Runtime.{Python}
use mizan_client_sdks.Python.Numbers.{int_text, int_signed}
use mizan_client_sdks.Webhooks.Amounts.{
  all_digits, lead_positive, unsigned_canonical_digits, fits_int64, canonical_integer,
}
use mizan_client_sdks.Webhooks.Ledger.{Posting, is_filled, text_of, read_posting}
use mizan_client_sdks.Webhooks.Ledger.Sums.{Reads, none_left, next}

-- a text that is not empty
abbrev pub Filled : Value → Type 0
Filled v = (s : String) × (v ≡ str s) × (s ≢ "")

module _ (py : Python) where
  -- str.isdigit of each character
  abbrev pub AllDigits : String → Type 0
  AllDigits [] = Unit
  AllDigits (c ∷ s) = (py.is_digit c ≡ true) × AllDigits s

  -- "0", or digits of which the first is one of 1 to 9
  pub data IsCanonical : String → Type 0 where
    zero_digit : IsCanonical "0"
    digits :
        (c : Char) (s : String)
        → 49 ≤ code c
        → code c ≤ 57
        → AllDigits (c ∷ s)
        → IsCanonical (c ∷ s)

  -- The text of an amount and its value: digits behind an optional sign, whose value by `int` fits 64
  -- bits. "-0" is one of these texts, and a digit behind the first may be of any script.
  pub data IsAmount : String → ℤ → Type 0 where
    plain :
        (s : String) (n : ℕ)
        → IsCanonical s
        → int_text py s ≡ ok n
        → n < 2 ^ 63
        → IsAmount s (pos n)
    minus :
        (s : String) (n : ℕ)
        → IsCanonical s
        → int_text py s ≡ ok n
        → n ≤ 2 ^ 63
        → IsAmount ("-" ∷ s) (negate n)

  -- The posting that a value is: it names a rail and a unit of the contract and an account, and its
  -- amount is an exact integer.
  pub record IsPosting (v : Value) (p : Posting) : Type 0 where
    pub posting : Fields
    pub posting_lem : v ≡ obj posting
    pub rail : get_or_null "rail" posting ≡ str p.rail
    pub known_rail : (p.rail ≡ "azeer_units") ⊎ (p.rail ≡ "provider_balance") ⊎ (p.rail ≡ "invoice")
    pub unit : get_or_null "unit" posting ≡ str p.unit
    pub known_unit : (p.unit ≡ "milliunit") ⊎ (p.unit ≡ "halala")
    pub account_code : Filled (get_or_null "account_code" posting)
    pub text : String
    pub text_lem : get_or_null "amount" posting ≡ str text
    pub amount : IsAmount text p.amount

  pub data ArePostings : Items → List Posting → Type 0 where
    no_more : ArePostings nil []
    one_more :
        {v : Value} {vs : Items} {p : Posting} {ps : List Posting}
        → IsPosting v p
        → ArePostings vs ps
        → ArePostings (cons v vs) (p ∷ ps)

nonempty : (s : String) → is_empty s ≡ false → s ≢ ""
nonempty s h e = false≢true (sym h ∙ ap is_empty e)

nonempty_of : (s : String) → s ≢ "" → is_empty s ≡ false
nonempty_of [] h = absurd (h refl)
nonempty_of (c ∷ s) h = refl

pub is_filled-Filled : (v : Value) → is_filled v ≡ true → Filled v
is_filled-Filled (str s) h = (s, refl, nonempty s (ground arith))
is_filled-Filled _ h = cc

pub Filled-is_filled : (v : Value) → Filled v → is_filled v ≡ true
Filled-is_filled v (s, e, h) = rw (e, nonempty_of s h)
