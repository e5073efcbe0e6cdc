-- ===== src/Webhooks/Ledger/Postings/Reading.antt =====
-- What the loop over postings of webhooks.py reads.
use Prim.Native.String.{[], ◌∷◌}
use mathlib.Core.List.{[], ◌∷◌}
use mizan_client_sdks.Base.{String, ◌≡◌, refl, ◌⊎◌, inl, inr, true, List, arith, eq_iff}
use mizan_client_sdks.Python.Value.{
  Value, str, obj, Items, Fields, ok, get_or_null, Result-cases, in_set, contains,
}
use mizan_client_sdks.Python.Runtime.{Python}
use mizan_client_sdks.Python.Numbers.{int_signed}
use mizan_client_sdks.Webhooks.Amounts.{canonical_integer}
use mizan_client_sdks.Webhooks.Ledger.{Posting, is_filled, text_of, read_posting}
use mizan_client_sdks.Webhooks.Ledger.Sums.{Reads, none_left, next}
use mizan_client_sdks.Webhooks.Ledger.Postings.{
  is_filled-Filled, Filled-is_filled, IsPosting, ArePostings, no_more, one_more,
}
use mizan_client_sdks.Webhooks.Ledger.Postings.Amounts.{canonical_integer-IsAmount, IsAmount-reads}

module _ (py : Python) where
  known_rails :
      (v : Value)
      → in_set ("azeer_units" ∷ "provider_balance" ∷ "invoice" ∷ []) v ≡ ok true
      → (v ≡ str (text_of v))
        × ((text_of v ≡ "azeer_units") ⊎ (text_of v ≡ "provider_balance") ⊎ (text_of v ≡ "invoice"))
  unfolding in_set contains
  known_rails (str s) h = (
    refl,
    ground (arith, eq_iff "azeer_units" s, eq_iff "provider_balance" s, eq_iff "invoice" s),
  )
  known_rails _ h = absurd cc

  known_units :
      (v : Value)
      → in_set ("milliunit" ∷ "halala" ∷ []) v ≡ ok true
      → (v ≡ str (text_of v)) × ((text_of v ≡ "milliunit") ⊎ (text_of v ≡ "halala"))
  unfolding in_set contains
  known_units (str s) h = (refl, ground (arith, eq_iff "milliunit" s, eq_iff "halala" s))
  known_units _ h = absurd cc

  amount_text : (v : Value) → canonical_integer py v ≡ ok true → v ≡ str (text_of v)
  unfolding canonical_integer
  amount_text (str s) h = refl
  amount_text _ h = absurd cc

  read_posting-parts :
      (fs : Fields) (p : Posting)
      → read_posting py (obj fs) ≡ ok p
      → (in_set ("azeer_units" ∷ "provider_balance" ∷ "invoice" ∷ []) (get_or_null "rail" fs)
          ≡ ok true)
        × (in_set ("milliunit" ∷ "halala" ∷ []) (get_or_null "unit" fs) ≡ ok true)
        × (is_filled (get_or_null "account_code" fs) ≡ true)
        × (canonical_integer py (get_or_null "amount" fs) ≡ ok true)
  unfolding read_posting
  read_posting-parts fs p h = (ground arith, ground arith, ground arith, ground arith)

  read_posting-fields :
      (fs : Fields) (p : Posting)
      → read_posting py (obj fs) ≡ ok p
      → (p.rail ≡ text_of (get_or_null "rail" fs))
        × (p.unit ≡ text_of (get_or_null "unit" fs))
        × (int_signed py (text_of (get_or_null "amount" fs)) ≡ ok p.amount)
  unfolding read_posting
  read_posting-fields fs p h =
      elim (Result-cases (int_signed py (text_of (get_or_null "amount" fs)))) [
        | inl (n, e) ↦ ground arith
        | inr (x, e) ↦ absurd (ground arith)
      ]

  read_posting-IsPosting : (v : Value) (p : Posting) → read_posting py v ≡ ok p → IsPosting py v p
  unfolding read_posting
  read_posting-IsPosting (obj fs) p h =
      let (rail, unit, account, exact) = read_posting-parts fs p h in
      let (same_rail, same_unit, run) = read_posting-fields fs p h in
      let (rail_text, rail_known) = known_rails (get_or_null "rail" fs) rail in
      let (unit_text, unit_known) = known_units (get_or_null "unit" fs) unit in
      let text = amount_text (get_or_null "amount" fs) exact in
      record {
        posting = fs;
        posting_lem = refl;
        rail = rw same_rail rail_text;
        known_rail = rw same_rail rail_known;
        unit = rw same_unit unit_text;
        known_unit = rw same_unit unit_known;
        account_code = is_filled-Filled (get_or_null "account_code" fs) account;
        text = text_of (get_or_null "amount" fs);
        text_lem = text;
        amount =
            canonical_integer-IsAmount py (text_of (get_or_null "amount" fs)) p.amount
              (rw text at exact) run;
      }
  read_posting-IsPosting _ p h = absurd cc

  rail_in :
      (s : String)
      → (s ≡ "azeer_units") ⊎ (s ≡ "provider_balance") ⊎ (s ≡ "invoice")
      → contains ("azeer_units" ∷ "provider_balance" ∷ "invoice" ∷ []) s ≡ true
  unfolding contains
  rail_in s (inl e) = rw e refl
  rail_in s (inr (inl e)) = rw e refl
  rail_in s (inr (inr e)) = rw e refl

  unit_in :
      (s : String)
      → (s ≡ "milliunit") ⊎ (s ≡ "halala")
      → contains ("milliunit" ∷ "halala" ∷ []) s ≡ true
  unfolding contains
  unit_in s (inl e) = rw e refl
  unit_in s (inr e) = rw e refl

  IsPosting-read_posting : (v : Value) (p : Posting) → IsPosting py v p → read_posting py v ≡ ok p
  unfolding read_posting in_set
  IsPosting-read_posting v p i =
      let (exact, run) = IsAmount-reads py i.text p.amount i.amount in
      rw i.posting_lem (
        rw
          (
            i.rail,
            i.unit,
            i.text_lem,
            rail_in p.rail i.known_rail,
            unit_in p.unit i.known_unit,
            Filled-is_filled (get_or_null "account_code" i.posting) i.account_code,
            exact,
            run,
          )
          refl)

  pub Reads-ArePostings :
      {items : Items} {ps : List Posting} → Reads py items ps → ArePostings py items ps
  Reads-ArePostings none_left = no_more
  Reads-ArePostings (next {v} {p = p} e rs) =
      one_more (read_posting-IsPosting v p e) (Reads-ArePostings rs)

  pub ArePostings-Reads :
      {items : Items} {ps : List Posting} → ArePostings py items ps → Reads py items ps
  ArePostings-Reads no_more = none_left
  ArePostings-Reads (one_more {v} {p = p} i rs) =
      next (IsPosting-read_posting v p i) (ArePostings-Reads rs)
