-- ===== src/Examples/Export/Walks.antt =====
-- The export ends.
use mizan_client_sdks.Base.{
  ℕ, zero, suc, ◌+◌, ◌≤◌, ◌<◌, String, ◌≡◌, ◌≢◌, refl, sym, ◌∙◌, ◌⊎◌, inl, inr, false, Option, none,
  some, arith, Bool-cases, List,
}
use mizan_client_sdks.Base.Int.{ℤ, pos, negsuc, ◌≤ℤ◌}
use mizan_client_sdks.Python.Value.{Value, null, int, Fields}
use mizan_client_sdks.Python.Runtime.{Python}
use mizan_client_sdks.Client.Retry.{
  MizanClient, Environment, Outcome, Effect, returned, api_error, transport_error, protocol_error,
  escaped,
}
use mizan_client_sdks.Examples.Export.{
  Exported, exported, failed, mistyped, read_page, int_leb, follow, turn_page, turn, call, at_most,
  export_from, export_ledger,
}

-- a cursor in front of which the loop does not stop
pub advance : (a : ℕ) (next : ℤ) → int_leb next (pos a) ≡ false → (b : ℕ) × (next ≡ pos b) × (a < b)
advance a (pos b) g = (b, refl, ground arith)
advance a (negsuc m) g = absurd (ground arith)

pub data BoundedCursor (bound : ℕ) : Value → Type 0 where
  no_cursor : BoundedCursor bound null
  cursor_to : (next : ℤ) → next ≤ℤ pos bound → BoundedCursor bound (int next)

module _ (py : Python) (client : MizanClient) (business_id : String)
    (env : ℕ → Value → Environment) where
  -- The way of an export from its n-th call, a cursor and a count, to its end.
  pub data Walk : ℕ → ℤ → ℕ → Exported → Type 0 where
    last :
        (n : ℕ) (after : ℤ) (count more : ℕ) (payload : Fields)
        → (call py client business_id env n (int after)).0 ≡ returned payload
        → (read_page payload ≡ some (more, null))
          ⊎ ((next : ℤ) × (read_page payload ≡ some (more, int next)) × (next ≤ℤ after))
        → Walk n after count (exported (count + more) (int after))
    stopped :
        (n : ℕ) (after : ℤ) (count : ℕ)
        → ((payload : Fields) → (call py client business_id env n (int after)).0 ≢ returned payload)
        → Walk n after count (failed (call py client business_id env n (int after)).0)
    misread :
        (n : ℕ) (after : ℤ) (count : ℕ) (payload : Fields)
        → (call py client business_id env n (int after)).0 ≡ returned payload
        → read_page payload ≡ none
        → Walk n after count mistyped
    further :
        (n : ℕ) (after : ℤ) (count more : ℕ) (payload : Fields) (next : ℤ) (e : Exported)
        → (call py client business_id env n (int after)).0 ≡ returned payload
        → read_page payload ≡ some (more, int next)
        → int_leb next after ≡ false
        → Walk (suc n) next (count + more) e
        → Walk n after count e

  -- the cursor of every page that a call returns is absent, or an integer that is not behind the
  -- bound
  abbrev pub Bounded : ℕ → Type 0
  Bounded bound =
      (n : ℕ) (after : ℤ) (payload : Fields) (more : ℕ) (cursor : Value)
      → (call py client business_id env n (int after)).0 ≡ returned payload
      → read_page payload ≡ some (more, cursor)
      → BoundedCursor bound cursor

  module _ (n a count : ℕ) (effects : List Effect) (rest : Value → ℕ → Exported × List Effect) where
    -- the rest of the loop, from each cursor that a page may lead to
    abbrev Onward : Type 0
    Onward =
        (payload : Fields) (next : ℤ) (more : ℕ)
        → (call py client business_id env n (int (pos a))).0 ≡ returned payload
        → read_page payload ≡ some (more, int next)
        → int_leb next (pos a) ≡ false
        → Walk (suc n) next (count + more) (rest (int next) (count + more)).0

    follow_cursor :
        (payload : Fields) (more : ℕ) (cursor : Value) {bound : ℕ}
        → (call py client business_id env n (int (pos a))).0 ≡ returned payload
        → read_page payload ≡ some (more, cursor)
        → BoundedCursor bound cursor
        → Onward
        → Walk n
            (pos a)
            count
            (follow effects rest (turn_page py (int (pos a)) count (some (more, cursor)))).0
    unfolding turn_page follow at_most
    follow_cursor payload more _ c e no_cursor onward = last n (pos a) count more payload c (inl e)
    follow_cursor payload more _ c e (cursor_to next within) onward =
        elim (Bool-cases (int_leb next (pos a))) [
          | inl l ↦
              rw (l, follow) (last n (pos a) count more payload c (inr (next, e, ground arith)))
          | inr g ↦
              rw (g, follow)
                (further n (pos a) count more payload next _ c e g (onward payload next more c e g))
        ]

    follow_page :
        (payload : Fields) (p : Option (ℕ × Value)) {bound : ℕ}
        → (call py client business_id env n (int (pos a))).0 ≡ returned payload
        → read_page payload ≡ p
        → Bounded bound
        → Onward
        → Walk n (pos a) count (follow effects rest (turn_page py (int (pos a)) count p)).0
    unfolding turn_page follow
    follow_page payload none c e bounded onward = misread n (pos a) count payload c e
    follow_page payload (some (more, cursor)) c e bounded onward =
        follow_cursor payload more cursor c e (bounded n (pos a) payload more cursor c e) onward

    stop :
        (o : Outcome)
        → (call py client business_id env n (int (pos a))).0 ≡ o
        → ((payload : Fields) → o ≢ returned payload)
        → Walk n (pos a) count (failed o)
    stop o c other = rw (sym c) (stopped n (pos a) count (λ payload h. other payload (sym c ∙ h)))

    follow-call :
        (o : Outcome) {bound : ℕ}
        → (call py client business_id env n (int (pos a))).0 ≡ o
        → Bounded bound
        → Onward
        → Walk n (pos a) count (follow effects rest (turn py (int (pos a)) count o)).0
    unfolding turn follow
    follow-call (returned payload) c bounded onward =
        follow_page payload (read_page payload) c refl bounded onward
    follow-call (api_error e) c bounded onward = stop (api_error e) c (λ payload h. cc)
    follow-call (transport_error m i k) c bounded onward =
        stop (transport_error m i k) c (λ payload h. cc)
    follow-call (protocol_error m i k) c bounded onward =
        stop (protocol_error m i k) c (λ payload h. cc)
    follow-call (escaped e) c bounded onward = stop (escaped e) c (λ payload h. cc)

  module _ (bound : ℕ) (bounded : Bounded bound) where
    within : {next : ℤ} (b : ℕ) → next ≡ pos b → BoundedCursor bound (int next) → b ≤ bound
    within b same (cursor_to next h) = ground arith

    walk :
        (fuel n a count : ℕ)
        → bound < fuel + a
        → a ≤ bound
        → Walk n (pos a) count (export_from py client business_id env fuel n (int (pos a)) count).0
    unfolding export_from
    walk zero n a count h k = absurd (omega arith)
    walk (suc fuel) n a count h k =
        follow-call n a count (call py client business_id env n (int (pos a))).1
          (export_from py client business_id env fuel (suc n))
          (call py client business_id env n (int (pos a))).0 refl bounded
          (λ payload next more c e g.
            let (b, same, far) = advance a next g in
            rw same (
              walk fuel (suc n) b (count + more) (omega arith)
                (within b same (bounded n (pos a) payload more (int next) c e))))

    -- If the cursor of every page that a call returns is absent, or an integer that is not behind a
    -- bound, the ledger export ends within one call more than the bound: at a page without a cursor
    -- or with one that does not advance, at a call that does not return, or at a page whose data or
    -- entries make Python raise; the calls in front of it each returned a page whose cursor
    -- advances, and the count adds up the sizes of their entries.
    pub export-Walk :
        (fuel : ℕ)
        → bound < fuel
        → Walk 0 (pos 0) 0 (export_ledger py client business_id env fuel).0
    unfolding export_ledger
    export-Walk fuel h = walk fuel 0 0 0 (omega arith) (omega arith)
