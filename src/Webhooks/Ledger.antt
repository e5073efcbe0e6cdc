-- ===== src/Webhooks/Ledger.antt =====
-- `_validate_ledger` of webhooks.py: identity, contract and balance of a ledger event.
pub mod Sums
pub mod Postings
pub mod Contract
pub mod Order
use mathlib.Core.List.{[], ◌∷◌}
use mizan_client_sdks.Base.{String, Bool, true, false, not, ◌&&◌, List, ltb, ◌==◌, if◌then◌else◌}
use mizan_client_sdks.Base.Int.{ℤ, pos, negsuc, ◌+ℤ◌, is_zero}
use mizan_client_sdks.Python.Value.{
  Value, null, int, str, arr, obj, Items, nil, cons, Fields, end, field, value_error, Result, ok,
  err, ◌>>=◌, ◌>>◌, require, get, get_or_null, contains, in_set, is_dict,
}
use mizan_client_sdks.Python.Text.{is_empty}
use mizan_client_sdks.Python.Runtime.{Python}
use mizan_client_sdks.Python.Numbers.{int_signed}
use mizan_client_sdks.Webhooks.Amounts.{canonical_integer}

abbrev pub ledger_types : List String
ledger_types =
    "subscription_activated" ∷ "subscription_change_scheduled"
    ∷ "subscription_cancellation_scheduled" ∷ "subscription_cancelled"
    ∷ "subscription_cancellation_revoked" ∷ "renewal_failed" ∷ "subscription_renewed"
    ∷ "azeer_units_topped_up" ∷ "provider_balance_topped_up" ∷ "provider_balance_refunded"
    ∷ "feature_budget_updated" ∷ "billing_account_depleted" ∷ "feature_paused_budget"
    ∷ "feature_paused_manual" ∷ "feature_resumed_manual" ∷ "usage_rejected" ∷ "usage_consumed"
    ∷ "included_units_expired" ∷ "purchased_units_expired" ∷ "promotional_units_expired"
    ∷ "promotional_units_granted" ∷ "monthly_included_units_granted" ∷ "outbox_retry_requested" ∷ []

-- isinstance(v, str) and v
abbrev pub is_filled : Value → Bool
is_filled (str s) = not (is_empty s)
is_filled _ = false

-- isinstance(v, int) and not isinstance(v, bool) and v >= 1
abbrev pub is_positive : Value → Bool
is_positive (int (pos n)) = ltb 0 n
is_positive _ = false

-- v == w, where one side is known to be a text
abbrev pub equal_text : Value → Value → Bool
equal_text (str s) (str t) = s == t
equal_text _ _ = false

-- all(isinstance(d.get(field), str) and d[field] for field in names)
unfoldable pub all_filled : List String → Fields → Bool
all_filled [] d = true
all_filled (name ∷ names) d = is_filled (get_or_null name d) && all_filled names d

abbrev pub entry_strings : List String
entry_strings =
    "id" ∷ "entry_type" ∷ "source_command" ∷ "source_event_id" ∷ "effective_at" ∷ "catalog_version"
    ∷ "policy_version" ∷ []

-- The facts of a posting that the balance uses.
pub record Posting : Type 0 where
  pub rail : String
  pub unit : String
  pub amount : ℤ

-- int(v), str(v) of a value that has passed the tests before it
abbrev pub text_of : Value → String
text_of (str s) = s
text_of _ = ""

-- the body of the loop over postings, up to the update of `balances`
unfoldable pub read_posting : Python → Value → Result Posting
read_posting py (obj posting) = do
  let rail = get_or_null "rail" posting
  let unit = get_or_null "unit" posting
  let amount = get_or_null "amount" posting
  known_rail ← in_set ("azeer_units" ∷ "provider_balance" ∷ "invoice" ∷ []) rail
  require known_rail (value_error "ledger posting fields do not match the contract")
  known_unit ← in_set ("milliunit" ∷ "halala" ∷ []) unit
  require known_unit (value_error "ledger posting fields do not match the contract")
  require (is_filled (get_or_null "account_code" posting))
      (value_error "ledger posting amounts must be exact integer strings")
  exact ← canonical_integer py amount
  require exact (value_error "ledger posting amounts must be exact integer strings")
  n ← int_signed py (text_of amount)
  ok (record { rail = text_of rail; unit = text_of unit; amount = n })
read_posting py _ = err (value_error "ledger posting fields do not match the contract")

-- `balances`: from a rail and a unit to their sum, in the order of insertion
pub record Balance : Type 0 where
  pub rail : String
  pub unit : String
  pub sum : ℤ

-- balances[key] = balances.get(key, 0) + amount
unfoldable pub add : Posting → List Balance → List Balance
add p [] = record { rail = p.rail; unit = p.unit; sum = pos 0 +ℤ p.amount } ∷ []
add p (b ∷ bs) =
    if (b.rail == p.rail) && (b.unit == p.unit)
    then record b { sum = b.sum +ℤ p.amount } ∷ bs
    else b ∷ add p bs

-- the loop over postings
unfoldable pub tally : Python → Items → List Balance → Result (List Balance)
tally py nil balances = ok balances
tally py (cons v vs) balances = do p ← read_posting py v; tally py vs (add p balances)

-- all(balance == 0 for balance in balances.values())
unfoldable pub all_zero : List Balance → Bool
all_zero [] = true
all_zero (b ∷ bs) = is_zero b.sum && all_zero bs

unfoldable pub check_postings : Python → Value → Result (Unit {0})
check_postings py (arr postings) = do
  balances ← tally py postings []
  require (all_zero balances) (value_error "ledger postings must balance to zero per rail and unit")
check_postings py _ = err (value_error "ledger postings must be an array")

-- `entry` is a dict whose id is the event's
abbrev pub entry_has_id : Value → Value → Bool
entry_has_id event_id (obj entry) = equal_text (get_or_null "id" entry) event_id
entry_has_id event_id _ = false

unfoldable pub check_entry : Value → Result (Unit {0})
check_entry (obj entry) = do
  require (all_filled entry_strings entry)
      (value_error "ledger entry fields do not match the contract")
  require
      (contains ledger_types (text_of (get_or_null "entry_type" entry))
        && is_dict (get_or_null "metadata" entry))
      (value_error "ledger entry fields do not match the contract")
check_entry _ = err (value_error "event_id must be equal to entry.id")

unfoldable pub validate_ledger : Python → Fields → Result Fields
validate_ledger py payload = do
  let event_id = get_or_null "event_id" payload
  let entry = get_or_null "entry" payload
  require (is_filled event_id && is_filled (get_or_null "business_id" payload))
      (value_error "ledger event_id and business_id are required")
  require (is_positive (get_or_null "business_sequence" payload))
      (value_error "business_sequence must be a positive integer")
  require (entry_has_id event_id entry) (value_error "event_id must be equal to entry.id")
  check_entry entry
  check_postings py (get_or_null "postings" payload)
  ok payload
