-- ===== src/Webhooks/Ledger/Postings/Amounts.antt =====
-- The amounts of postings, as webhooks.py tests and reads them.
use Prim.Native.String.{[], ◌∷◌}
use text.Mathlib.TextEquality.{Char-path}
use mathlib.Core.Bool.{and-eq-true_iff}
use mathlib.Core.List.{[], ◌∷◌}
use mizan_client_sdks.Base.{
  ℕ, ◌^◌, ◌≤◌, ◌<◌, String, ◌≡◌, refl, ap, inl, inr, true, false, arith, eq_iff, ◌==◌,
  if◌then◌else◌, Bool-cases,
}
use mizan_client_sdks.Base.Int.{ℤ, pos, negate}
use mizan_client_sdks.Python.Value.{str, ok, Result-cases}
use mizan_client_sdks.Python.Text.{is_empty, starts_minus, tail}
use mizan_client_sdks.Python.Runtime.{Python}
use mizan_client_sdks.Python.Numbers.{int_text, int_signed}
use mizan_client_sdks.Webhooks.Amounts.{
  all_digits, lead_positive, unsigned_canonical_digits, fits_int64, canonical_integer,
}
use mizan_client_sdks.Webhooks.Ledger.Postings.{
  AllDigits, IsCanonical, zero_digit, digits, IsAmount, plain, minus,
}

starts_minus-tail : (s : String) → starts_minus s ≡ true → s ≡ "-" ∷ tail s
unfolding starts_minus tail
starts_minus-tail [] h = cc
starts_minus-tail (c ∷ s) h = ap (λ d. d ∷ s) (Char-path c "-" (ground arith))

module _ (py : Python) where
  all_digits-AllDigits : (s : String) → all_digits py s ≡ true → AllDigits py s
  unfolding all_digits
  all_digits-AllDigits [] h = tt
  all_digits-AllDigits (c ∷ s) h =
      let (here, later) = (and-eq-true_iff _ _).0 h in (here, all_digits-AllDigits s later)

  AllDigits-all_digits : (s : String) → AllDigits py s → all_digits py s ≡ true
  unfolding all_digits
  AllDigits-all_digits [] h = refl
  AllDigits-all_digits (c ∷ s) (here, later) =
      (and-eq-true_iff _ _).1 (here, AllDigits-all_digits s later)

  digits-IsCanonical :
      (s : String)
      → lead_positive s ≡ true
      → is_empty s ≡ false
      → all_digits py s ≡ true
      → IsCanonical py s
  unfolding lead_positive
  digits-IsCanonical [] l e a = cc
  digits-IsCanonical (c ∷ s) l e a =
      digits c s (ground arith) (ground arith) (all_digits-AllDigits (c ∷ s) a)

  unsigned_canonical_digits-IsCanonical :
      (s : String) → unsigned_canonical_digits py s ≡ true → IsCanonical py s
  unfolding unsigned_canonical_digits
  unsigned_canonical_digits-IsCanonical s h = elim (Bool-cases (s == "0")) [
    | inl e ↦ rw ((eq_iff s "0").0 e) zero_digit
    | inr e ↦ digits-IsCanonical s (ground arith) (ground arith) (ground arith)
  ]

  IsCanonical-unsigned_canonical_digits :
      (s : String) → IsCanonical py s → unsigned_canonical_digits py s ≡ true
  unfolding unsigned_canonical_digits lead_positive
  IsCanonical-unsigned_canonical_digits s zero_digit = refl
  IsCanonical-unsigned_canonical_digits s (digits c t p q a) =
      let all = AllDigits-all_digits (c ∷ t) a in ground arith

  -- the code's tests of an amount, behind its sign
  canonical_parts :
      (s : String) (z : ℤ)
      → canonical_integer py (str s) ≡ ok true
      → int_signed py s ≡ ok z
      → (unsigned_canonical_digits py (if starts_minus s then tail s else s) ≡ true)
        × (fits_int64 z ≡ true)
  unfolding canonical_integer
  canonical_parts s z h run = ground arith

  int_signed_minus :
      (s : String)
      → starts_minus s ≡ true
      → (z : ℤ) → int_signed py s ≡ ok z
      → (n : ℕ) × (int_text py (tail s) ≡ ok n) × (z ≡ negate n)
  unfolding int_signed
  int_signed_minus s m z run = elim (Result-cases (int_text py (tail s))) [
    | inl (n, e) ↦ (n, e, ground arith)
    | inr (x, e) ↦ absurd (ground arith)
  ]

  int_signed_plain :
      (s : String)
      → starts_minus s ≡ false
      → (z : ℤ) → int_signed py s ≡ ok z
      → (n : ℕ) × (int_text py s ≡ ok n) × (z ≡ pos n)
  unfolding int_signed
  int_signed_plain s m z run = elim (Result-cases (int_text py s)) [
    | inl (n, e) ↦ (n, e, ground arith)
    | inr (x, e) ↦ absurd (ground arith)
  ]

  pub canonical_integer-IsAmount :
      (s : String) (z : ℤ)
      → canonical_integer py (str s) ≡ ok true
      → int_signed py s ≡ ok z
      → IsAmount py s z
  canonical_integer-IsAmount s z h run =
      let (shape, fits) = canonical_parts s z h run in
      elim (Bool-cases (starts_minus s)) [
        | inl m ↦
            let (n, e, same) = int_signed_minus s m z run in
            let canonical = unsigned_canonical_digits-IsCanonical (tail s) (rw m at shape) in
            rw same (rw (starts_minus-tail s m) (minus (tail s) n canonical e (ground arith)))
        | inr m ↦
            let (n, e, same) = int_signed_plain s m z run in
            let canonical = unsigned_canonical_digits-IsCanonical s (rw m at shape) in
            rw same (plain s n canonical e (ground arith))
      ]

  IsCanonical-not_minus : (s : String) → IsCanonical py s → starts_minus s ≡ false
  unfolding starts_minus
  IsCanonical-not_minus s zero_digit = refl
  IsCanonical-not_minus s (digits c t p q a) = ground arith

  IsCanonical-full : (s : String) → IsCanonical py s → is_empty s ≡ false
  IsCanonical-full s zero_digit = refl
  IsCanonical-full s (digits c t p q a) = refl

  plain-reads :
      (s : String) (n : ℕ)
      → unsigned_canonical_digits py s ≡ true
      → starts_minus s ≡ false
      → is_empty s ≡ false
      → int_text py s ≡ ok n
      → n < 2 ^ 63
      → (canonical_integer py (str s) ≡ ok true) × (int_signed py s ≡ ok (pos n))
  unfolding canonical_integer int_signed
  plain-reads s n d m full e f = (rw (m, d, full, e) (ground arith), rw (m, e) refl)

  minus-reads :
      (s : String) (n : ℕ)
      → unsigned_canonical_digits py s ≡ true
      → int_text py s ≡ ok n
      → n ≤ 2 ^ 63
      → (canonical_integer py (str ("-" ∷ s)) ≡ ok true) × (int_signed py ("-" ∷ s) ≡ ok (negate n))
  unfolding canonical_integer int_signed starts_minus tail
  minus-reads s n d e f = (rw (d, e) (ground arith), rw e refl)

  pub IsAmount-reads :
      (s : String) (z : ℤ)
      → IsAmount py s z
      → (canonical_integer py (str s) ≡ ok true) × (int_signed py s ≡ ok z)
  IsAmount-reads _ _ (plain s n canonical e f) =
      plain-reads s n (IsCanonical-unsigned_canonical_digits s canonical)
        (IsCanonical-not_minus s canonical) (IsCanonical-full s canonical) e f
  IsAmount-reads _ _ (minus s n canonical e f) =
      minus-reads s n (IsCanonical-unsigned_canonical_digits s canonical) e f
