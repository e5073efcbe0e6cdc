-- ===== src/Examples/Export/Whole.antt =====
-- An export of a served ledger counts each of its entries once.
use mathlib.Core.List.{[], ◌∷◌}
use mizan_client_sdks.Base.{
  ℕ, suc, ◌+◌, ◌≤◌, ◌<◌, String, ◌≡◌, refl, sym, ◌∙◌, ap, ◌⊎◌, inl, inr, Option, none, some, List,
  arith, ltb, if◌then◌else◌,
}
use mizan_client_sdks.Base.Int.{ℤ, pos, negsuc, ◌≤ℤ◌}
use mizan_client_sdks.Python.Value.{Value, null, int, Fields}
use mizan_client_sdks.Python.Runtime.{Python}
use mizan_client_sdks.Client.Retry.{MizanClient, Environment, returned}
use mizan_client_sdks.Examples.Export.{Exported, exported, read_page, call, export_ledger}
use mizan_client_sdks.Examples.Export.Walks.{
  Walk, last, stopped, misread, further, Bounded, advance, export-Walk,
}

-- how many of the sequence numbers are behind a cursor
unfoldable pub behind : List ℕ → ℕ → ℕ
behind [] a = 0
behind (s ∷ ss) a = let rest = behind ss a in if ltb a s then suc rest else rest

-- What a page behind the cursor `a` has, of a ledger with these sequence numbers: all entries behind
-- `a`, if its own cursor ends the export, and else those that are not behind its cursor.
abbrev pub Covers : List ℕ → ℕ → ℕ × Option ℤ → Type 0
Covers ledger a (more, none) = more ≡ behind ledger a
Covers ledger a (more, some (negsuc m)) = more ≡ behind ledger a
Covers ledger a (more, some (pos b)) =
    ((b ≤ a) × (more ≡ behind ledger a)) ⊎ ((a < b) × (more + behind ledger b ≡ behind ledger a))

-- the cursor of a page as Python decodes it
abbrev pub cursor_value : Option ℤ → Value
cursor_value none = null
cursor_value (some n) = int n

cursor_value-injective : (o o' : Option ℤ) → cursor_value o ≡ cursor_value o' → o ≡ o'
cursor_value-injective none none h = refl
cursor_value-injective (some n) (some m) h = cc
cursor_value-injective none (some m) h = cc
cursor_value-injective (some n) none h = cc

module _ (py : Python) (client : MizanClient) (business_id : String) (env : ℕ → Value → Environment)
    (ledger : List ℕ) where
  -- every call returns such a page
  abbrev pub Served : Type 0
  Served =
      (n a : ℕ)
      → (payload : Fields) × (page : ℕ × Option ℤ) × ((call py client business_id env n
            (int (pos a))).0
          ≡ returned payload)
        × (read_page payload ≡ some (page.0, cursor_value page.1))
        × Covers ledger a page

  module _ (served : Served) where
    -- the page that a call returned is the served one
    page_of :
        (n a : ℕ) (payload : Fields) (page : ℕ × Option ℤ)
        → (call py client business_id env n (int (pos a))).0 ≡ returned payload
        → read_page payload ≡ some (page.0, cursor_value page.1)
        → Covers ledger a page
    page_of n a payload page c e =
        let (known, full, c', e', covers) = served n a in
        let one : known ≡ payload = cc in
        let size : full.0 ≡ page.0 = cc in
        let cursor = cursor_value-injective full.1 page.1 cc in
        let two : full ≡ page = λ i. (size i, cursor i) in rw (sym two) covers

    last-count :
        (n a more : ℕ) (payload : Fields)
        → (call py client business_id env n (int (pos a))).0 ≡ returned payload
        → (read_page payload ≡ some (more, null))
          ⊎ ((next : ℤ) × (read_page payload ≡ some (more, int next)) × (next ≤ℤ pos a))
        → more ≡ behind ledger a
    last-count n a more payload c (inl e) = page_of n a payload (more, none) c e
    last-count n a more payload c (inr (negsuc m, e, l)) =
        page_of n a payload (more, some (negsuc m)) c e
    last-count n a more payload c (inr (pos b, e, l)) =
        elim (page_of n a payload (more, some (pos b)) c e) [
          | inl (k, same) ↦ same
          | inr (k, same) ↦ absurd (omega arith)
        ]

    further-count :
        (n a b more : ℕ) (payload : Fields)
        → (call py client business_id env n (int (pos a))).0 ≡ returned payload
        → read_page payload ≡ some (more, int (pos b))
        → a < b
        → more + behind ledger b ≡ behind ledger a
    further-count n a b more payload c e l = elim (page_of n a payload (more, some (pos b)) c e) [
      | inl (k, same) ↦ absurd (omega arith)
      | inr (k, same) ↦ same
    ]

    called :
        (n : ℕ) {a : ℕ} {after : ℤ} {payload : Fields}
        → after ≡ pos a
        → (call py client business_id env n (int after)).0 ≡ returned payload
        → (call py client business_id env n (int (pos a))).0 ≡ returned payload
    called n same c = ap (λ x. (call py client business_id env n (int x)).0) (sym same) ∙ c

    Walk-count :
        {n count : ℕ} {after : ℤ} {e : Exported} (a : ℕ)
        → after ≡ pos a
        → Walk py client business_id env n after count e
        → (end : ℤ) × (e ≡ exported (count + behind ledger a) (int end))
    Walk-count a same (last n after count more payload c ends) = (
      after,
      ap (λ k. exported (count + k) (int after))
          (last-count n a more payload (called n same c) (rw same at ends)),
    )
    Walk-count a same (stopped n after count other) =
        let (payload, page, c, e, covers) = served n a in
        absurd (other payload (ap (λ x. (call py client business_id env n (int x)).0) same ∙ c))
    Walk-count a same (misread n after count payload c e) =
        let (known, page, c', e', covers) = served n a in let here = called n same c in absurd cc
    Walk-count a same (further n after count more payload next e c p g rest) =
        let (b, next_lem, l) = advance a next (rw same at g) in
        let (end, whole) = Walk-count b next_lem rest in
        (
          end,
          whole
              ∙ ap (λ k. exported k (int end))
                  (omega (
                    arith,
                    further-count n a b more payload (called n same c) (rw next_lem at p) l,
                  )),
        )

    -- If every call returns the entries behind its cursor up to the page's own cursor, or all of
    -- them on a last page, and no cursor is behind a bound, then the ledger export succeeds within
    -- one call more than the bound and counts each entry with a positive sequence number once.
    pub export-count :
        (bound : ℕ)
        → Bounded py client business_id env bound
        → (fuel : ℕ) → bound < fuel
        → (end : ℤ) × ((export_ledger py client business_id env fuel).0
            ≡ exported (behind ledger 0) (int end))
    export-count bound bounded fuel h =
        let (end, whole) =
          Walk-count 0 refl (export-Walk py client business_id env bound bounded fuel h) in
        (end, whole ∙ ap (λ k. exported k (int end)) (omega arith))
