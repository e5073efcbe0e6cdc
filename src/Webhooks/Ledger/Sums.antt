-- ===== src/Webhooks/Ledger/Sums.antt =====
-- The balance of a ledger event's postings: what the loop over `postings` computes, against the sum
-- of the amounts of each rail and unit.
use mathlib.Core.List.{[], ◌∷◌}
use mizan_client_sdks.Base.{
  String, ◌≡◌, refl, sym, ◌∙◌, ◌↔◌, inl, inr, Bool, true, false, ◌&&◌, List, arith, ◌==◌, eq_iff,
  eq_refl, Bool-cases, if◌then◌else◌,
}
use mizan_client_sdks.Base.Int.{ℤ, pos, ◌+ℤ◌, +ℤ_assoc, zero-+ℤ, +ℤ-zero, is_zero_iff, is_zero-zero}
use mizan_client_sdks.Python.Value.{Value, arr, Items, nil, cons, ok, Result-cases}
use mizan_client_sdks.Python.Runtime.{Python}
use mizan_client_sdks.Webhooks.Ledger.{
  Posting, read_posting, Balance, add, tally, all_zero, check_postings,
}

-- The items spell the postings: each item is a well-formed posting.
pub data Reads (py : Python) : Items → List Posting → Type 0 where
  none_left : Reads py nil []
  next :
      {v : Value} {vs : Items} {p : Posting} {ps : List Posting}
      → read_posting py v ≡ ok p
      → Reads py vs ps
      → Reads py (cons v vs) (p ∷ ps)

module _ (rail unit : String) where
  -- the sum of the amounts that are posted to the rail in the unit
  unfoldable pub total : List Posting → ℤ
  total [] = pos 0
  total (p ∷ ps) = if (p.rail == rail) && (p.unit == unit) then p.amount +ℤ total ps else total ps

  has : List Balance → Bool
  has [] = false
  has (b ∷ bs) = if (b.rail == rail) && (b.unit == unit) then true else has bs

  -- balances.get((rail, unit), 0)
  balance_at : List Balance → ℤ
  balance_at [] = pos 0
  balance_at (b ∷ bs) = if (b.rail == rail) && (b.unit == unit) then b.sum else balance_at bs

  balance_at-add :
      (p : Posting) (bs : List Balance)
      → balance_at (add p bs) ≡ (
          if (p.rail == rail) && (p.unit == unit) then balance_at bs +ℤ p.amount else balance_at bs)
  unfolding balance_at add
  balance_at-add p [] = refl
  balance_at-add p (b ∷ bs) = ground (
    arith,
    balance_at-add p bs,
    eq_iff b.rail p.rail,
    eq_iff b.unit p.unit,
    eq_iff b.rail rail,
    eq_iff b.unit unit,
    eq_iff p.rail rail,
    eq_iff p.unit unit,
  )

  balance_at-absent : (bs : List Balance) → has bs ≡ false → balance_at bs ≡ pos 0
  unfolding balance_at has
  balance_at-absent [] h = refl
  balance_at-absent (b ∷ bs) h = ground (arith, balance_at-absent bs)

  has-add :
      (p : Posting) (bs : List Balance)
      → has (add p bs) ≡ (if (p.rail == rail) && (p.unit == unit) then true else has bs)
  unfolding has add
  has-add p [] = refl
  has-add p (b ∷ bs) = ground (
    arith,
    has-add p bs,
    eq_iff b.rail p.rail,
    eq_iff b.unit p.unit,
    eq_iff b.rail rail,
    eq_iff b.unit unit,
    eq_iff p.rail rail,
    eq_iff p.unit unit,
  )

-- no rail and unit has two entries
abbrev Distinct : List Balance → Type 0
Distinct [] = Unit
Distinct (b ∷ bs) = (has b.rail b.unit bs ≡ false) × Distinct bs

Distinct-add : (p : Posting) (bs : List Balance) → Distinct bs → Distinct (add p bs)
unfolding add
Distinct-add p [] h = (unfold has in refl, tt)
Distinct-add p (b ∷ bs) (h, hs) = elim (Bool-cases ((b.rail == p.rail) && (b.unit == p.unit))) [
  | inl same ↦ rw (same, add) (h, hs)
  | inr other ↦
      rw (other, add)
        (
          ground (
            arith,
            has-add b.rail b.unit p bs,
            eq_iff b.rail p.rail,
            eq_iff b.unit p.unit,
            eq_iff p.rail b.rail,
            eq_iff p.unit b.unit,
          ),
          Distinct-add p bs hs,
        )
]

all_zero_sound : (bs : List Balance) (r u : String) → all_zero bs ≡ true → balance_at r u bs ≡ pos 0
unfolding all_zero balance_at
all_zero_sound [] r u h = refl
all_zero_sound (b ∷ bs) r u h = ground (arith, all_zero_sound bs r u, is_zero_iff b.sum)

balance_at-head : (b : Balance) (bs : List Balance) → balance_at b.rail b.unit (b ∷ bs) ≡ b.sum
unfolding balance_at
balance_at-head b bs = ground (arith, eq_refl b.rail, eq_refl b.unit)

balance_at-tail :
    (r u : String) (b : Balance) (bs : List Balance)
    → has b.rail b.unit bs ≡ false
    → balance_at r u (b ∷ bs) ≡ pos 0
    → balance_at r u bs ≡ pos 0
unfolding balance_at
balance_at-tail r u b bs h e = elim (Bool-cases ((b.rail == r) && (b.unit == u))) [
  | inl same ↦
      let absent = balance_at-absent b.rail b.unit bs h in
      ground (arith, absent, eq_iff b.rail r, eq_iff b.unit u)
  | inr other ↦ ground arith
]

all_zero_complete :
    (bs : List Balance)
    → Distinct bs
    → ((r u : String) → balance_at r u bs ≡ pos 0)
    → all_zero bs ≡ true
unfolding all_zero
all_zero_complete [] d h = refl
all_zero_complete (b ∷ bs) (d, ds) h = ground (
  arith,
  is_zero-zero b.sum (sym (balance_at-head b bs) ∙ h b.rail b.unit),
  all_zero_complete bs ds (λ r u. balance_at-tail r u b bs d (h r u)),
)

add_all : List Posting → List Balance → List Balance
add_all [] bs = bs
add_all (p ∷ ps) bs = add_all ps (add p bs)

Distinct-add_all : (ps : List Posting) (bs : List Balance) → Distinct bs → Distinct (add_all ps bs)
unfolding add_all
Distinct-add_all [] bs d = d
Distinct-add_all (p ∷ ps) bs d = Distinct-add_all ps (add p bs) (Distinct-add p bs d)

-- What the postings add to a balance is their total.
balance_at-add_all :
    (r u : String) (ps : List Posting) (bs : List Balance)
    → balance_at r u (add_all ps bs) ≡ balance_at r u bs +ℤ total r u ps
unfolding add_all total
balance_at-add_all r u [] bs = sym (+ℤ-zero _)
balance_at-add_all r u (p ∷ ps) bs =
    balance_at-add_all r u ps (add p bs)
    ∙ ground (arith, balance_at-add r u p bs, +ℤ_assoc (balance_at r u bs) p.amount (total r u ps))

all_zero-add_all :
    (ps : List Posting)
    → (all_zero (add_all ps []) ≡ true) ↔ ((r u : String) → total r u ps ≡ pos 0)
unfolding balance_at
all_zero-add_all ps = (
  λ h r u. sym (zero-+ℤ _) ∙ sym (sum r u) ∙ all_zero_sound (add_all ps []) r u h,
  λ h.
      all_zero_complete (add_all ps []) (Distinct-add_all ps [] tt)
        (λ r u. sum r u ∙ zero-+ℤ _ ∙ h r u),
)
  where
    sum : (r u : String) → balance_at r u (add_all ps []) ≡ pos 0 +ℤ total r u ps
    sum r u = balance_at-add_all r u ps []

module _ (py : Python) where
  tally_of_Reads :
      {vs : Items} {ps : List Posting} (bs : List Balance)
      → Reads py vs ps
      → tally py vs bs ≡ ok (add_all ps bs)
  unfolding tally add_all
  tally_of_Reads bs none_left = refl
  tally_of_Reads bs (next {p} e rs) = rw e (tally_of_Reads (add p bs) rs)

  tally-Reads :
      (vs : Items) (bs bs' : List Balance)
      → tally py vs bs ≡ ok bs'
      → (ps : List Posting) × Reads py vs ps
  unfolding tally
  tally-Reads nil bs bs' h = ([], none_left)
  tally-Reads (cons v vs) bs bs' h = elim (Result-cases (read_posting py v)) [
    | inl (p, e) ↦ let (ps, rs) = tally-Reads vs (add p bs) bs' (rw e at h) in (p ∷ ps, next e rs)
    | inr (x, e) ↦ cc
  ]

  balances_of :
      (vs : Items)
      → check_postings py (arr vs) ≡ ok tt
      → (bs : List Balance) × (tally py vs [] ≡ ok bs) × (all_zero bs ≡ true)
  unfolding check_postings
  balances_of vs h = elim (Result-cases (tally py vs [])) [
    | inl (bs, e) ↦ (bs, e, ground arith)
    | inr (x, e) ↦ ground arith
  ]

  sound :
      (vs : Items)
      → check_postings py (arr vs) ≡ ok tt
      → (ps : List Posting) × Reads py vs ps × ((r u : String) → total r u ps ≡ pos 0)
  sound vs h =
      let (bs, run, zero) = balances_of vs h in
      let (ps, rs) = tally-Reads vs [] bs run in
      let same : bs ≡ add_all ps [] = cc (tally_of_Reads [] rs) in
      (ps, rs, (all_zero-add_all ps).0 (rw same at zero))

  complete :
      (vs : Items) (ps : List Posting)
      → Reads py vs ps
      → ((r u : String) → total r u ps ≡ pos 0)
      → check_postings py (arr vs) ≡ ok tt
  unfolding check_postings
  complete vs ps rs h = rw (tally_of_Reads [] rs, (all_zero-add_all ps).1 h)

  -- The postings of an event pass exactly when every item is a well-formed posting and the amounts
  -- of each rail and unit sum to zero.
  pub check_postings_iff :
      (vs : Items)
      → (check_postings py (arr vs) ≡ ok tt)
        ↔ ((ps : List Posting) × Reads py vs ps × ((r u : String) → total r u ps ≡ pos 0))
  check_postings_iff vs = (sound vs, λ (ps, rs, h). complete vs ps rs h)
