-- ===== src/Examples/Export.antt =====
-- `export_ledger` of examples/end_to_end.py, over the replies to its calls: the n-th call, from a cursor, runs in
-- an environment of its own. The loop is on fuel.
pub mod Walks
pub mod Whole
use mathlib.Core.List.{[]}
use mizan_client_sdks.Base.{
  ℕ, zero, suc, ◌+◌, String, Bool, true, false, Option, none, some, List, ◌++◌, leb, if◌then◌else◌,
}
use mizan_client_sdks.Base.Int.{ℤ, pos, pos_part, neg_part}
use mizan_client_sdks.Python.Value.{
  Value, null, bool, int, float, str, arr, obj, Items, nil, cons, Fields, get, get_or_null, size,
}
use mizan_client_sdks.Python.Text.{length}
use mizan_client_sdks.Python.Runtime.{Python}
use mizan_client_sdks.Client.Retry.{MizanClient, Environment, Effect, Outcome, returned, perform}
use mizan_client_sdks.Client.Commands.{get_ledger_from}

-- How the export ends. `mistyped` is a page on which Python raises a `KeyError` or a `TypeError`, and
-- `unfinished` the end of the fuel.
pub data Exported : Type 0 where
  exported : (count : ℕ) (after : Value) → Exported
  failed : Outcome → Exported
  mistyped unfinished : Exported

unfoldable pub count_items : Items → ℕ
count_items nil = 0
count_items (cons v vs) = suc (count_items vs)

-- len(v)
unfoldable pub size_of : Value → Option ℕ
size_of (str s) = some (length s)
size_of (arr xs) = some (count_items xs)
size_of (obj fs) = some (size fs)
size_of _ = none

unfoldable pub read_data : Option Value → Option (ℕ × Value)
read_data (some (obj page)) = elim (get "entries" page) [
  | none ↦ none
  | some entries ↦ elim (size_of entries) [
    | none ↦ none
    | some count ↦ some (count, get_or_null "next_after_sequence" page)
  ]
]
read_data _ = none

-- `len(page["entries"])` and `page.get("next_after_sequence")`
abbrev pub read_page : Fields → Option (ℕ × Value)
read_page payload = read_data (get "data" payload)

-- a <= b
abbrev pub int_leb : ℤ → ℤ → Bool
int_leb a b = leb (pos_part a + neg_part b) (pos_part b + neg_part a)

-- a <= b, where b is a number: `none` is a `TypeError`
unfoldable pub at_most : Python → Value → Value → Option Bool
at_most py (int a) (int b) = some (int_leb a b)
at_most py (int a) (bool b) = some (int_leb a (pos (if b then 1 else 0)))
at_most py (bool a) (int b) = some (int_leb (pos (if a then 1 else 0)) b)
at_most py (bool a) (bool b) = some (int_leb (pos (if a then 1 else 0)) (pos (if b then 1 else 0)))
at_most py (float text finite) b = some (py.float_at_most (float text finite) b)
at_most py (int a) b = some (py.float_at_most (int a) b)
at_most py (bool a) b = some (py.float_at_most (bool a) b)
at_most py _ b = none

-- The body of the loop: the end of the export, or the next cursor and the count so far.
pub data Turn : Type 0 where
  done : Exported → Turn
  again : (after : Value) (count : ℕ) → Turn

-- next_after <= after, behind the count so far
abbrev pub turn_compared : Value → ℕ → Value → Option Bool → Turn
turn_compared after count next none = done mistyped
turn_compared after count next (some true) = done (exported count after)
turn_compared after count next (some false) = again next count

unfoldable pub turn_page : Python → Value → ℕ → Option (ℕ × Value) → Turn
turn_page py after count none = done mistyped
turn_page py after count (some (n, null)) = done (exported (count + n) after)
turn_page py after count (some (n, next)) =
    turn_compared after (count + n) next (at_most py next after)

unfoldable pub turn : Python → Value → ℕ → Outcome → Turn
turn py after count (returned payload) = turn_page py after count (read_page payload)
turn py after count o = done (failed o)

-- what a turn comes to, behind its call's effects; `rest` is what the loop does from a cursor on
unfoldable pub follow :
    List Effect → (Value → ℕ → Exported × List Effect) → Turn → Exported × List Effect
follow effects rest (done e) = (e, effects)
follow effects rest (again after count) = let (e, more) = rest after count in (e, effects ++ more)

module _ (py : Python) (client : MizanClient) (business_id : String)
    (env : ℕ → Value → Environment) where
  -- client.get_ledger(business_id, after_sequence=after, limit=100)
  abbrev pub call : ℕ → Value → Outcome × List Effect
  call n after = perform py client (env n after) (get_ledger_from py client business_id after)

  -- the loop from the n-th call on, with what its calls do
  unfoldable pub export_from : ℕ → ℕ → Value → ℕ → Exported × List Effect
  export_from zero n after count = (unfinished, [])
  export_from (suc fuel) n after count =
      follow (call n after).1 (export_from fuel (suc n)) (turn py after count (call n after).0)

  unfoldable pub export_ledger : ℕ → Exported × List Effect
  export_ledger fuel = export_from fuel 0 (int (pos 0)) 0
