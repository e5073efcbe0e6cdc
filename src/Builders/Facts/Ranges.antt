-- ===== src/Builders/Facts/Ranges.antt =====
-- Which texts the validators of counts and amounts accept.
use mizan_client_sdks.Base.{
  nat_eq, not, ◌&&◌, ◌⊎◌, ℕ, ◌*◌, ◌≤◌, ◌<◌, String, ◌≡◌, refl, ◌↔◌, inl, inr, Bool, true, false,
  arith,
}
use mizan_client_sdks.Python.Value.{str, ok, Result-cases}
use mizan_client_sdks.Python.Runtime.{Python}
use mizan_client_sdks.Python.Numbers.{int_text}
use mizan_client_sdks.Builders.Facts.{max_int64, integer_match, whole_count, integer}

-- the text is one or more digits that `int` reads as `n`
pub record Spells (py : Python) (s : String) (n : ℕ) : Type 0 where
  pub digits : integer_match py s ≡ true
  pub value : int_text py s ≡ ok n

module _ (py : Python) where
  whole_count_sound :
      (s : String)
      → whole_count py (str s) ≡ ok tt
      → (n : ℕ) × Spells py s n × (0 < n) × (n * 1_000 ≤ max_int64)
  unfolding whole_count
  whole_count_sound s h = elim (Result-cases (int_text py s)) [
    | inl (n, e) ↦ (n, record { digits = ground arith; value = e }, ground arith, ground arith)
    | inr (x, e) ↦ ground arith
  ]

  whole_count_complete :
      (s : String) (n : ℕ)
      → Spells py s n
      → 0 < n
      → n * 1_000 ≤ max_int64
      → whole_count py (str s) ≡ ok tt
  unfolding whole_count
  whole_count_complete s n sp p q = rw (sp.digits, sp.value) (ground arith)

  -- A count is accepted exactly when its text is one or more digits whose value is positive and,
  -- scaled to thousandths, fits a signed 64-bit integer.
  pub whole_count_iff :
      (s : String)
      → (whole_count py (str s) ≡ ok tt)
        ↔ ((n : ℕ) × Spells py s n × (0 < n) × (n * 1_000 ≤ max_int64))
  whole_count_iff s = (whole_count_sound s, λ (n, sp, p, q). whole_count_complete s n sp p q)

  allowed :
      (n : ℕ) (allow_zero : Bool)
      → nat_eq n 0 && not allow_zero ≡ false
      → (allow_zero ≡ true) ⊎ (0 < n)
  allowed n true h = inl refl
  allowed n false h = inr (ground arith)

  integer_sound :
      (s name : String) (allow_zero : Bool)
      → integer py (str s) name allow_zero ≡ ok tt
      → (n : ℕ) × Spells py s n × (n ≤ max_int64) × ((allow_zero ≡ true) ⊎ (0 < n))
  unfolding integer
  integer_sound s name allow_zero h = elim (Result-cases (int_text py s)) [
    | inl (n, e) ↦ (
      n,
      record { digits = ground arith; value = e },
      ground arith,
      allowed n allow_zero (ground arith),
    )
    | inr (x, e) ↦ ground arith
  ]

  integer_complete :
      (s name : String) (allow_zero : Bool) (n : ℕ)
      → Spells py s n
      → n ≤ max_int64
      → ((allow_zero ≡ true) ⊎ (0 < n))
      → integer py (str s) name allow_zero ≡ ok tt
  unfolding integer
  integer_complete s name allow_zero n sp p q = rw (sp.digits, sp.value) (ground arith)

  -- An integer fact is accepted exactly when its text is one or more digits whose value fits a
  -- signed 64-bit integer and is not 0, or may be 0.
  integer_iff :
      (s name : String) (allow_zero : Bool)
      → (integer py (str s) name allow_zero ≡ ok tt)
        ↔ ((n : ℕ) × Spells py s n × (n ≤ max_int64) × ((allow_zero ≡ true) ⊎ (0 < n)))
  integer_iff s name allow_zero = (
    integer_sound s name allow_zero,
    λ (n, sp, p, q). integer_complete s name allow_zero n sp p q,
  )
