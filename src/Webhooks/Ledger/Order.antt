-- ===== src/Webhooks/Ledger/Order.antt =====
-- The postings of an event in another order (`_validate_ledger` of webhooks.py).
use mathlib.Core.List.{[], ◌∷◌, Permᴰ}
use mathlib.Core.List.Permᴰ as Permᴰ
use mizan_client_sdks.Base.{String, ◌≡◌, refl, sym, ◌∙◌, ◌↔◌, List, arith}
use mizan_client_sdks.Base.Int.{ℤ, ◌+ℤ◌, int_laws}
use mizan_client_sdks.Python.Value.{Value, arr, Items, nil, cons, ok}
use mizan_client_sdks.Python.Runtime.{Python}
use mizan_client_sdks.Webhooks.Ledger.{Posting, check_postings}
use mizan_client_sdks.Webhooks.Ledger.Sums.{Reads, next, total, check_postings_iff}

abbrev pub values : Items → List Value
values nil = []
values (cons v vs) = v ∷ values vs

abbrev items : List Value → Items
items [] = nil
items (v ∷ vs) = cons v (items vs)

items-values : (vs : Items) → items (values vs) ≡ vs
items-values nil = refl
items-values (cons v vs) = λ i. cons v (items-values vs i)

swap_sums : (a b c : ℤ) → a +ℤ (b +ℤ c) ≡ b +ℤ (a +ℤ c)
swap_sums a b c = omega int_laws

total-cons :
    (p : Posting) (ps qs : List Posting) (r u : String)
    → total r u qs ≡ total r u ps
    → total r u (p ∷ qs) ≡ total r u (p ∷ ps)
unfolding total
total-cons p ps qs r u h = rw h refl

total-swap :
    (p q : Posting) (ps : List Posting) (r u : String)
    → total r u (q ∷ p ∷ ps) ≡ total r u (p ∷ q ∷ ps)
unfolding total
total-swap p q ps r u = ground (arith, swap_sums p.amount q.amount (total r u ps))

module _ (py : Python) where
  -- the postings that the values spell, with the same sums
  abbrev Reordered : List Value → List Posting → Type 0
  Reordered ws ps =
      (qs : List Posting) × Reads py (items ws) qs × ((r u : String) → total r u qs ≡ total r u ps)

  Reads-Reordered :
      (vs ws : List Value) (ps : List Posting)
      → Permᴰ vs ws
      → Reads py (items vs) ps
      → Reordered ws ps
  Reads-Reordered vs ws ps Permᴰ.nil rs = (ps, rs, λ r u. refl)
  Reads-Reordered vs ws ps (Permᴰ.cons {l₁} {l₂} same d) (next {p} {ps = rest} h rs) =
      let (qs, read, sums) = Reads-Reordered l₁ l₂ rest d rs in
      (p ∷ qs, next (rw (sym same) h) read, λ r u. total-cons p rest qs r u (sums r u))
  Reads-Reordered vs ws ps (Permᴰ.swap e f) (next {p} h (next {p = q} {ps = rest} k rs)) =
      (q ∷ p ∷ rest, next (rw (sym f) k) (next (rw (sym e) h) rs), total-swap p q rest)
  Reads-Reordered vs ws ps (Permᴰ.trans {l₁} {l₂} {l₃} d d') rs =
      let (qs, read, sums) = Reads-Reordered l₁ l₂ ps d rs in
      let (os, read', sums') = Reads-Reordered l₂ l₃ qs d' read in
      (os, read', λ r u. sums' r u ∙ sums r u)

  passes_reordered :
      (vs ws : Items)
      → Permᴰ (values vs) (values ws)
      → check_postings py (arr vs) ≡ ok tt
      → check_postings py (arr ws) ≡ ok tt
  passes_reordered vs ws d h =
      let (ps, read, balanced) = (check_postings_iff py vs).0 h in
      let (qs, read', sums) =
        Reads-Reordered (values vs) (values ws) ps d (rw (items-values vs) read) in
      (check_postings_iff py ws).1
        (qs, rw (items-values ws) at read', λ r u. sums r u ∙ balanced r u)

  -- Whether the postings of an event pass does not depend on their order.
  pub check_postings_reordered :
      (vs ws : Items)
      → Permᴰ (values vs) (values ws)
      → (check_postings py (arr vs) ≡ ok tt) ↔ (check_postings py (arr ws) ≡ ok tt)
  check_postings_reordered vs ws d =
      (passes_reordered vs ws d, passes_reordered ws vs (Permᴰ.symm d))
