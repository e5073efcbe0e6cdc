-- ===== src/Builders/Facts/Milli.antt =====
-- Decimal quantities in thousandths: what `_quantity` accepts, against the value of the decimal.
use Prim.Native.String.{[], ◌∷◌}
use text.Mathlib.TextEquality.{Char-path}
use text.Mathlib.TextLemmas.{nil-append, cons-append}
use mizan_client_sdks.Base.{
  ℕ, ◌+◌, ◌-◌, ◌*◌, ◌^◌, ◌≤◌, ◌<◌, Char, code, String, ◌≡◌, refl, sym, ap, ◌∙◌, inl, inr, true,
  false, none, some, arith, nat_eq, Bool-cases, Option-cases, ◌↔◌,
}
use mizan_client_sdks.Python.Value.{str, ok, Result-cases, ok-injective}
use mizan_client_sdks.Python.Text.{length, append, is_empty}
use mizan_client_sdks.Python.Runtime.{Python, IsDocumented}
use mizan_client_sdks.Python.Numbers.{int_text, digits_value}
use mizan_client_sdks.Python.Numbers.RoundTrip.{int_text_of, short-not-too_long}
use mizan_client_sdks.Builders.Facts.{
  max_int64, all_decimal, integer_match, before_point, after_point, fraction_match, fraction_text,
  ljust, quantity,
}
use mizan_client_sdks.Builders.Facts.Ranges.{Spells}

-- A decimal text with at most three places behind the point, and its value in thousandths.
pub data Milli (py : Python) : String → ℕ → Type 0 where
  whole : (w : String) (n : ℕ) → Spells py w n → Milli py w (n * 1_000)
  point :
      (w f : String) (n m : ℕ)
      → Spells py w n
      → Spells py f m
      → length f ≤ 3
      → Milli py (append w ("." ∷ f)) (n * 1_000 + m * 10 ^ (3 - length f))

split-none : (s : String) → after_point s ≡ none → before_point s ≡ s
unfolding after_point before_point
split-none [] h = refl
split-none (c ∷ s) h = elim (Bool-cases (nat_eq (code c) b'.')) [
  | inl dot ↦ absurd (cc (rw (dot, after_point) at h))
  | inr other ↦
      rw (other, before_point) (ap (λ t. c ∷ t) (split-none s (rw (other, after_point) at h)))
]

code-dot : (c : Char) → nat_eq (code c) b'.' ≡ true → c ≡ "."
code-dot c h = Char-path c "." (ground arith)

split-some : (s f : String) → after_point s ≡ some f → append (before_point s) ("." ∷ f) ≡ s
unfolding after_point before_point
split-some [] f h = cc
split-some (c ∷ s) f h = elim (Bool-cases (nat_eq (code c) b'.')) [
  | inl dot ↦
      let same : s ≡ f = cc (rw (dot, after_point) at h) in
      rw (dot, before_point) (nil-append _ ∙ (λ i. sym (code-dot c dot) i ∷ sym same i))
  | inr other ↦
      rw (other, before_point)
        (cons-append c _ _ ∙ ap (λ t. c ∷ t) (split-some s f (rw (other, after_point) at h)))
]

module _ (py : Python) (doc : IsDocumented py) where
  decimal-not-dot : (c : Char) (d : ℕ) → py.decimal c ≡ some d → nat_eq (code c) b'.' ≡ false
  decimal-not-dot c d h = elim (Bool-cases (nat_eq (code c) b'.')) [
    | inr e ↦ e
    | inl e ↦ absurd (cc (doc.decimal_below c (ground arith)))
  ]

  zero-decimal : py.decimal "0" ≡ some 0
  zero-decimal = doc.decimal_ascii "0" (omega arith) (omega arith)

  -- a decimal text is read up to the point
  split-digits :
      (w f : String)
      → all_decimal py w ≡ true
      → (before_point (append w ("." ∷ f)) ≡ w) × (after_point (append w ("." ∷ f)) ≡ some f)
  unfolding all_decimal before_point after_point
  split-digits [] f h = (rw nil-append refl, rw nil-append refl)
  split-digits (c ∷ w) f h = elim (Option-cases (py.decimal c)) [
    | inl e ↦ absurd (cc (rw (e, all_decimal) at h))
    | inr (d, e) ↦
        let (l, r) = split-digits w f (rw (e, all_decimal) at h) in
        let other = decimal-not-dot c d e in
        (
          rw (cons-append, before_point) (rw (other, l) refl),
          rw (cons-append, after_point) (rw other r),
        )
  ]

  split-whole :
      (w : String) → all_decimal py w ≡ true → (before_point w ≡ w) × (after_point w ≡ none)
  unfolding all_decimal before_point after_point
  split-whole [] h = (refl, refl)
  split-whole (c ∷ w) h = elim (Option-cases (py.decimal c)) [
    | inl e ↦ absurd (cc (rw (e, all_decimal) at h))
    | inr (d, e) ↦
        let (l, r) = split-whole w (rw (e, all_decimal) at h) in
        let other = decimal-not-dot c d e in
        (rw (other, before_point, l) refl, rw (other, after_point) r)
  ]

  first :
      (c : Char) (s : String)
      → all_decimal py (c ∷ s) ≡ true
      → (d : ℕ) × (py.decimal c ≡ some d) × (all_decimal py s ≡ true)
  unfolding all_decimal
  first c s h = elim (Option-cases (py.decimal c)) [
    | inl e ↦ absurd (cc (rw (e, all_decimal) at h))
    | inr (d, e) ↦ (d, e, rw (e, all_decimal) at h)
  ]

  triple :
      (a b c : Char) (x y z : ℕ)
      → py.decimal a ≡ some x
      → py.decimal b ≡ some y
      → py.decimal c ≡ some z
      → int_text py (a ∷ (b ∷ (c ∷ ""))) ≡ ok (x * 100 + y * 10 + z)
  unfolding digits_value length
  triple a b c x y z p q r =
      int_text_of py doc (a ∷ (b ∷ (c ∷ ""))) (x * 100 + y * 10 + z) refl
        (short-not-too_long py doc (a ∷ (b ∷ (c ∷ ""))) (omega arith))
        (rw (p, digits_value) (rw (q, digits_value) (rw (r, digits_value) (ap some (omega arith)))))

  -- what one to three places are worth once they are padded
  padded :
      (f : String)
      → integer_match py f ≡ true
      → length f ≤ 3
      → (m : ℕ) × (digits_value py 0 f ≡ some m)
        × (int_text py (ljust f) ≡ ok (m * 10 ^ (3 - length f)))
  unfolding integer_match length ljust digits_value
  padded [] h l = absurd (cc h)
  padded (a ∷ []) h l =
      let (x, p, _) = first a "" h in
      (
        x,
        rw (p, digits_value) (ap some (omega arith)),
        triple a "0" "0" x 0 0 p zero-decimal zero-decimal ∙ ap ok (omega arith),
      )
  padded (a ∷ (b ∷ [])) h l =
      let (x, p, g) = first a (b ∷ "") h in
      let (y, q, _) = first b "" g in
      (
        x * 10 + y,
        rw (p, digits_value) (rw (q, digits_value) (ap some (omega arith))),
        triple a b "0" x y 0 p q zero-decimal ∙ ap ok (omega arith),
      )
  padded (a ∷ (b ∷ (c ∷ []))) h l =
      let (x, p, g) = first a (b ∷ (c ∷ "")) h in
      let (y, q, k) = first b (c ∷ "") g in
      let (z, r, _) = first c "" k in
      (
        x * 100 + y * 10 + z,
        rw (p, digits_value) (rw (q, digits_value) (rw (r, digits_value) (ap some (omega arith)))),
        triple a b c x y z p q r ∙ ap ok (omega arith),
      )
  padded (a ∷ (b ∷ (c ∷ (d ∷ s)))) h l = absurd (omega arith)

  zero_padded : int_text py (ljust "") ≡ ok 0
  unfolding ljust
  zero_padded = triple "0" "0" "0" 0 0 0 zero-decimal zero-decimal zero-decimal

  decimal_of : (s : String) → integer_match py s ≡ true → all_decimal py s ≡ true
  unfolding integer_match
  decimal_of s h = ground arith

  nonempty_of : (s : String) → integer_match py s ≡ true → is_empty s ≡ false
  unfolding integer_match
  nonempty_of s h = ground arith

  places :
      (f : String)
      → integer_match py f ≡ true
      → length f ≤ 3
      → (m : ℕ) × Spells py f m × (int_text py (ljust f) ≡ ok (m * 10 ^ (3 - length f)))
  places f h l =
      let (m, v, p) = padded f h l in
      (
        m,
        record {
          digits = h;
          value =
              int_text_of py doc f m (nonempty_of f h) (short-not-too_long py doc f (omega arith))
                v;
        },
        p,
      )

  accepts :
      (s : String) (n m : ℕ)
      → integer_match py (before_point s) ≡ true
      → fraction_match py (after_point s) ≡ true
      → int_text py (before_point s) ≡ ok n
      → int_text py (ljust (fraction_text (after_point s))) ≡ ok m
      → 0 < n * 1_000 + m
      → n * 1_000 + m ≤ max_int64
      → quantity py (str s) ≡ ok tt
  unfolding quantity
  accepts s n m a b c d p q = rw (a, b, c, d) (ground arith)

  fraction_of :
      (f : String) → integer_match py f ≡ true → length f ≤ 3 → fraction_match py (some f) ≡ true
  unfolding fraction_match
  fraction_of f h l = ground arith

  of_fraction :
      (f : String)
      → fraction_match py (some f) ≡ true
      → (integer_match py f ≡ true) × (length f ≤ 3)
  unfolding fraction_match
  of_fraction f h = (ground arith, ground arith)

  complete :
      (s : String) (v : ℕ) → Milli py s v → 0 < v → v ≤ max_int64 → quantity py (str s) ≡ ok tt
  complete s v (whole w n sp) p q =
      let (l, r) = split-whole w (decimal_of w sp.digits) in
      accepts w n 0 (rw l sp.digits) (rw r (unfold fraction_match in refl)) (rw l sp.value)
        (rw r zero_padded) (omega arith) (omega arith)
  complete s v (point w f n m sp sf fits) p q =
      let (l, r) = split-digits w f (decimal_of w sp.digits) in
      let (k, sk, value) = places f sf.digits fits in
      let same : k ≡ m = ok-injective (sym sk.value ∙ sf.value) in
      accepts (append w ("." ∷ f)) n (m * 10 ^ (3 - length f)) (rw l sp.digits)
        (rw r (fraction_of f sf.digits fits)) (rw l sp.value)
        (rw r (value ∙ ap (λ i. ok (i * 10 ^ (3 - length f))) same)) p q

  passes :
      (s : String)
      → quantity py (str s) ≡ ok tt
      → (n m : ℕ) × (integer_match py (before_point s) ≡ true)
        × (fraction_match py (after_point s) ≡ true)
        × (int_text py (before_point s) ≡ ok n)
        × (int_text py (ljust (fraction_text (after_point s))) ≡ ok m)
        × (0 < n * 1_000 + m)
        × (n * 1_000 + m ≤ max_int64)
  unfolding quantity
  passes s h = elim (Result-cases (int_text py (before_point s))) [
    | inr (x, e) ↦ absurd (ground arith)
    | inl (n, e) ↦ elim (Result-cases (int_text py (ljust (fraction_text (after_point s))))) [
      | inr (x, g) ↦ absurd (ground arith)
      | inl (m, g) ↦ (n, m, ground arith, ground arith, e, g, ground arith, ground arith)
    ]
  ]

  sound :
      (s : String)
      → quantity py (str s) ≡ ok tt
      → (v : ℕ) × Milli py s v × (0 < v) × (v ≤ max_int64)
  sound s h =
      let (n, m, a, b, c, d, p, q) = passes s h in
      elim (Option-cases (after_point s)) [
        | inl e ↦
            let none_left : m ≡ 0 = ok-injective (sym (rw e at d) ∙ zero_padded) in
            (
              n * 1_000,
              whole s n
                  (record { digits = rw (split-none s e) at a; value = rw (split-none s e) at c }),
              omega arith,
              omega arith,
            )
        | inr (f, e) ↦
            let (g, l) = of_fraction f (rw e at b) in
            let (k, sk, value) = places f g l in
            let same : m ≡ k * 10 ^ (3 - length f) = ok-injective (sym (rw e at d) ∙ value) in
            let read = point (before_point s) f n k (record { digits = a; value = c }) sk l in
            (
              n * 1_000 + k * 10 ^ (3 - length f),
              rw (split-some s f e) at read,
              rw same at p,
              rw same at q,
            )
      ]

  -- A quantity is accepted exactly when its text is a decimal with at most three places whose value
  -- in thousandths is positive and fits a signed 64-bit integer, for tables as documented.
  pub quantity_iff :
      (s : String)
      → (quantity py (str s) ≡ ok tt) ↔ ((v : ℕ) × Milli py s v × (0 < v) × (v ≤ max_int64))
  quantity_iff s = (sound s, λ (v, milli, p, q). complete s v milli p q)
