-- ===== src/Webhooks/Amounts/Canonical.antt =====
-- Which texts the amounts of a webhook may be.
use Prim.Native.String.{◌∷◌}
use text.Mathlib.TextLemmas.{nil-append, cons-append}
use mizan_client_sdks.Base.{
  ℕ, zero, suc, ◌^◌, ◌≤◌, ◌<◌, code, String, ◌≡◌, refl, sym, ◌∙◌, ◌↔◌, inl, inr, true, false, arith,
  Bool-cases, if◌then◌else◌, ltb, ◌/◌, ◌%◌, Char,
}
use mizan_client_sdks.Base.Int.{ℤ, pos, negsuc}
use mizan_client_sdks.Python.Value.{Value, str, ok, ok-injective, Result-cases}
use mizan_client_sdks.Python.Text.{is_empty, starts_minus, tail}
use mizan_client_sdks.Python.Runtime.{Python, IsDocumented}
use mizan_client_sdks.Python.Numbers.{int_signed}
use mizan_client_sdks.Python.Numbers.Print.{digit, show_onto, show, show_int}
use mizan_client_sdks.Python.Numbers.RoundTrip.{
  code-digit, decimal-digit, show-lead, show-nonempty, int_text-show,
}
use mizan_client_sdks.Webhooks.Amounts.{
  all_digits, lead_positive, unsigned_canonical_digits, fits_int64, canonical_integer,
  unsigned_canonical_integer,
}

show_int-pos : (n : ℕ) → show_int (pos n) ≡ show n
unfolding show_int
show_int-pos n = refl

show_int-negsuc : (n : ℕ) → show_int (negsuc n) ≡ "-" ∷ show (suc n)
unfolding show_int
show_int-negsuc n = rw (cons-append, nil-append)

-- from −2^63 to 2^63 − 1
abbrev pub InInt64 : ℤ → Type 0
InInt64 (pos n) = n < 2 ^ 63
InInt64 (negsuc n) = n < 2 ^ 63

-- no more than 19 digits
abbrev pub IsShort : ℤ → Type 0
IsShort (pos n) = n < 10 ^ 19
IsShort (negsuc n) = suc n < 10 ^ 19

fits_int64-InInt64 : (z : ℤ) → fits_int64 z ≡ true → InInt64 z
fits_int64-InInt64 (pos n) h = ground arith
fits_int64-InInt64 (negsuc n) h = ground arith

InInt64-fits_int64 : (z : ℤ) → InInt64 z → fits_int64 z ≡ true
InInt64-fits_int64 (pos n) h = ground arith
InInt64-fits_int64 (negsuc n) h = ground arith

str-injective : {s t : String} → str s ≡ str t → s ≡ t
str-injective h = cc

module _ (py : Python) where
  -- An accepted amount is a text of an integer in the signed 64-bit range.
  canonical_integer-fits :
      (v : Value)
      → canonical_integer py v ≡ ok true
      → (s : String) × (n : ℤ) × (v ≡ str s) × (int_signed py s ≡ ok n) × (fits_int64 n ≡ true)
  unfolding canonical_integer
  canonical_integer-fits (str s) h = elim (Result-cases (int_signed py s)) [
    | inl (n, e) ↦ (s, n, refl, e, ground arith)
    | inr (x, e) ↦ ground arith
  ]
  canonical_integer-fits _ h = cc

  canonical_lead :
      (c : Char) (s : String)
      → 49 ≤ code c
      → code c ≤ 57
      → all_digits py (c ∷ s) ≡ true
      → unsigned_canonical_digits py (c ∷ s) ≡ true
  unfolding unsigned_canonical_digits lead_positive
  canonical_lead c s p q h = ground arith

module _ (py : Python) (doc : IsDocumented py) where
  digits-digit : (d : ℕ) → d < 10 → py.is_digit (digit d) ≡ true
  digits-digit d h = doc.decimal_is_digit (digit d) d (decimal-digit py doc d h)

  all_digits-show_onto :
      (fuel n : ℕ) (rest : String)
      → all_digits py rest ≡ true
      → all_digits py (show_onto fuel n rest) ≡ true
  unfolding show_onto all_digits
  all_digits-show_onto zero n rest h = h
  all_digits-show_onto (suc fuel) n rest h = elim (Bool-cases (ltb n 10)) [
    | inl small ↦ rw (small, show_onto) (ground (arith, digits-digit n))
    | inr big ↦
        rw (big, show_onto)
          (all_digits-show_onto fuel (n / 10) (digit (n % 10) ∷ rest)
            (rw (digits-digit (n % 10) (omega arith)) h))
  ]

  all_digits-show : (n : ℕ) → all_digits py (show n) ≡ true
  unfolding show
  all_digits-show n = all_digits-show_onto (suc n) n "" (unfold all_digits in refl)

  unsigned_canonical_digits-show : (n : ℕ) → unsigned_canonical_digits py (show n) ≡ true
  unsigned_canonical_digits-show zero = unfold unsigned_canonical_digits show in refl
  unsigned_canonical_digits-show (suc n) =
      let (d, t, p, q, e) = show-lead (suc n) (omega arith) in
      let c = code-digit d q in
      rw e (
        canonical_lead py (digit d) t (omega arith) (omega arith)
          (rw e at (all_digits-show (suc n))))

  -- A number up to 2^63 - 1 has an accepted text as a limit or a projection, for tables as
  -- documented.
  unsigned_canonical_integer-show :
      (n : ℕ) → n < 2 ^ 63 → unsigned_canonical_integer py (str (show n)) ≡ ok true
  unfolding unsigned_canonical_integer
  unsigned_canonical_integer-show n h =
      rw (unsigned_canonical_digits-show n)
        (rw (int_text-show py doc n (omega arith)) (ground arith))

  starts_minus-show : (n : ℕ) → starts_minus (show n) ≡ false
  starts_minus-show zero = unfold starts_minus show in refl
  starts_minus-show (suc n) =
      let (d, t, p, q, e) = show-lead (suc n) (omega arith) in
      let c = code-digit d q in rw e (unfold starts_minus in ground arith)

  int_signed-show : (n : ℕ) → n < 10 ^ 19 → int_signed py (show n) ≡ ok (pos n)
  unfolding int_signed
  int_signed-show n h = rw (starts_minus-show n, int_text-show py doc n h)

  int_signed-minus : (n : ℕ) → suc n < 10 ^ 19 → int_signed py ("-" ∷ show (suc n)) ≡ ok (negsuc n)
  unfolding int_signed starts_minus tail
  int_signed-minus n h = rw (int_text-show py doc (suc n) h) (ground arith)

  canonical_of_digits :
      (s : String) (n : ℤ)
      → is_empty s ≡ false
      → unsigned_canonical_digits py (if starts_minus s then tail s else s) ≡ true
      → int_signed py s ≡ ok n
      → fits_int64 n ≡ true
      → canonical_integer py (str s) ≡ ok true
  unfolding canonical_integer
  canonical_of_digits s n e d r f = rw (e, d, r, f)

  show_int-reads : (z : ℤ) → IsShort z → int_signed py (show_int z) ≡ ok z
  show_int-reads (pos n) h = rw show_int-pos (int_signed-show n h)
  show_int-reads (negsuc n) h = rw show_int-negsuc (int_signed-minus n h)

  show_int-accepted :
      (z : ℤ) → InInt64 z → IsShort z → canonical_integer py (str (show_int z)) ≡ ok true
  show_int-accepted (pos n) f h = rw show_int-pos (
      canonical_of_digits (show n) (pos n) (show-nonempty n)
        (rw (starts_minus-show n) (unsigned_canonical_digits-show n)) (int_signed-show n h)
        (InInt64-fits_int64 (pos n) f))
  show_int-accepted (negsuc n) f h = rw show_int-negsuc (
      canonical_of_digits ("-" ∷ show (suc n)) (negsuc n) refl
        (unfold starts_minus tail in unsigned_canonical_digits-show (suc n)) (int_signed-minus n h)
        (InInt64-fits_int64 (negsuc n) f))

  show_int-InInt64 :
      (z : ℤ) → IsShort z → canonical_integer py (str (show_int z)) ≡ ok true → InInt64 z
  show_int-InInt64 z h accepted =
      let (s, n, same, run, f) = canonical_integer-fits py (str (show_int z)) accepted in
      let read : int_signed py (show_int z) ≡ ok n = rw (str-injective same) run in
      rw (ok-injective (sym (show_int-reads z h) ∙ read)) (fits_int64-InInt64 n f)

  -- The decimal text of an integer of at most nineteen digits has that integer as its value, and is
  -- accepted as an amount exactly if the integer is from -2^63 to 2^63 - 1, for tables as
  -- documented.
  pub canonical_integer-show_int :
      (z : ℤ)
      → IsShort z
      → (int_signed py (show_int z) ≡ ok z)
        × ((canonical_integer py (str (show_int z)) ≡ ok true) ↔ InInt64 z)
  canonical_integer-show_int z h =
      (show_int-reads z h, (show_int-InInt64 z h, λ f. show_int-accepted z f h))
