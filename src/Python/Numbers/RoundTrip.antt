-- ===== src/Python/Numbers/RoundTrip.antt =====
-- `int(str(n))` is `n`, within the interpreter's limit on digits.
use Prim.Native.String.{[], ◌∷◌}
use Prim.Native.Nat.{◌≤◌}
use native.Mathlib.Nat.{pow-suc}
use mizan_client_sdks.Base.{
  ℕ, zero, suc, ◌+◌, ◌*◌, ◌/◌, ◌%◌, ◌^◌, ◌<◌, code, String, ◌≡◌, refl, inl, inr, ap, ◌∙◌, some,
  false, arith, ltb, Bool-cases,
}
use mizan_client_sdks.Python.Text.{length, is_empty}
use mizan_client_sdks.Python.Runtime.{Python, IsDocumented}
use mizan_client_sdks.Python.Value.{ok}
use mizan_client_sdks.Python.Numbers.{digits_value, int_text, too_long}
use mizan_client_sdks.Python.Numbers.Print.{digit, show_onto, show}

pub code-digit : (d : ℕ) → d < 10 → code (digit d) ≡ 48 + d
unfolding digit
code-digit zero h = refl
code-digit (suc zero) h = refl
code-digit (suc (suc zero)) h = refl
code-digit (suc (suc (suc zero))) h = refl
code-digit (suc (suc (suc (suc zero)))) h = refl
code-digit (suc (suc (suc (suc (suc zero))))) h = refl
code-digit (suc (suc (suc (suc (suc (suc zero)))))) h = refl
code-digit (suc (suc (suc (suc (suc (suc (suc zero))))))) h = refl
code-digit (suc (suc (suc (suc (suc (suc (suc (suc zero)))))))) h = refl
code-digit (suc (suc (suc (suc (suc (suc (suc (suc (suc n))))))))) h = omega arith

-- a text of at most `k` digits writes a number below 10 ^ k
length-show_onto :
    (fuel n k : ℕ) (rest : String)
    → n < 10 ^ suc k
    → length (show_onto fuel n rest) ≤ suc k + length rest
unfolding show_onto length
length-show_onto zero n k rest h = omega arith
length-show_onto (suc fuel) n zero rest h = elim (Bool-cases (ltb n 10)) [
  | inl small ↦ rw (small, show_onto) (omega arith)
  | inr big ↦ absurd (ground arith)
]
length-show_onto (suc fuel) n (suc k) rest h = elim (Bool-cases (ltb n 10)) [
  | inl small ↦ rw (small, show_onto) (omega arith)
  | inr big ↦
      let fits : n / 10 < 10 ^ suc k = omega (arith, pow-suc 10 (suc k)) in
      rw (big, show_onto)
        (omega (arith, length-show_onto fuel (n / 10) k (digit (n % 10) ∷ rest) fits))
]

-- a positive number begins with a digit other than 0
show_onto-lead :
    (fuel n : ℕ) (rest : String)
    → n < fuel
    → 0 < n
    → (d : ℕ) × (t : String) × (0 < d) × (d < 10) × (show_onto fuel n rest ≡ digit d ∷ t)
unfolding show_onto
show_onto-lead zero n rest h p = absurd (omega arith)
show_onto-lead (suc fuel) n rest h p = elim (Bool-cases (ltb n 10)) [
  | inl small ↦ (n, rest, p, ground arith, rw (small, show_onto))
  | inr big ↦
      let (d, t, q, r, e) =
        show_onto-lead fuel (n / 10) (digit (n % 10) ∷ rest) (ground arith) (ground arith) in
      (d, t, q, r, rw (big, show_onto) e)
]

pub show-lead :
    (n : ℕ) → 0 < n → (d : ℕ) × (t : String) × (0 < d) × (d < 10) × (show n ≡ digit d ∷ t)
unfolding show
show-lead n p = show_onto-lead (suc n) n "" (omega arith) p

pub show-nonempty : (n : ℕ) → is_empty (show n) ≡ false
unfolding show
show-nonempty zero = refl
show-nonempty (suc n) =
    let (d, t, _, _, e) = show_onto-lead (suc (suc n)) (suc n) "" (omega arith) (omega arith) in
    rw e

module _ (py : Python) (doc : IsDocumented py) where
  pub decimal-digit : (d : ℕ) → d < 10 → py.decimal (digit d) ≡ some d
  decimal-digit d h =
      let e = code-digit d h in
      doc.decimal_ascii (digit d) (omega arith) (omega arith) ∙ ap some (omega arith)

  digits_value-cons :
      (n d : ℕ) (s : String)
      → d < 10
      → digits_value py n (digit d ∷ s) ≡ digits_value py (n * 10 + d) s
  unfolding digits_value
  digits_value-cons n d s h = rw (decimal-digit d h, digits_value)

  digits_value-show_onto :
      (fuel n : ℕ) (rest : String)
      → n < fuel
      → digits_value py 0 (show_onto fuel n rest) ≡ digits_value py n rest
  unfolding show_onto
  digits_value-show_onto zero n rest h = absurd (omega arith)
  digits_value-show_onto (suc fuel) n rest h = elim (Bool-cases (ltb n 10)) [
    | inl small ↦
        rw (small, show_onto)
          (digits_value-cons 0 n rest (ground arith)
            ∙ ap (λ k. digits_value py k rest) (omega arith))
    | inr big ↦
        rw (big, show_onto)
          (digits_value-show_onto fuel (n / 10) (digit (n % 10) ∷ rest) (ground arith)
            ∙ digits_value-cons (n / 10) (n % 10) rest (omega arith)
            ∙ ap (λ k. digits_value py k rest) (omega arith))
  ]

  pub int_text_of :
      (s : String) (n : ℕ)
      → is_empty s ≡ false
      → too_long py s ≡ false
      → digits_value py 0 s ≡ some n
      → int_text py s ≡ ok n
  unfolding int_text
  int_text_of [] n e h p = cc
  int_text_of (c ∷ s) n e h p = rw (h, p)

  pub short-not-too_long : (s : String) → length s ≤ 640 → too_long py s ≡ false
  short-not-too_long s h = grind (arith, doc.limit_threshold)

  -- A number of at most nineteen digits is below every limit that the interpreter accepts.
  pub int_text-show : (n : ℕ) → n < 10 ^ 19 → int_text py (show n) ≡ ok n
  int_text-show n h =
      int_text_of (show n) n (show-nonempty n)
        (short-not-too_long (show n)
          (unfold show in unfold length in omega (arith, length-show_onto (suc n) n 18 "" h)))
        (unfold show in unfold digits_value in digits_value-show_onto (suc n) n "" (omega arith))
