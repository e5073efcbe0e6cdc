-- ===== src/Webhooks/Notification.antt =====
-- `_validate_notification` of webhooks.py.
pub mod Contract
use mathlib.Core.List.{[], ◌∷◌}
use mizan_client_sdks.Base.{String, if◌then◌else◌}
use mizan_client_sdks.Python.Value.{
  Fields, value_error, Result, ok, ◌>>=◌, ◌>>◌, require, get_or_null, in_set, Value, str,
}
use mizan_client_sdks.Python.Runtime.{Python}
use mizan_client_sdks.Webhooks.Amounts.{unsigned_canonical_integer}
use mizan_client_sdks.Webhooks.Ledger.{is_filled, equal_text}

abbrev pub threshold_message : String
threshold_message = "budget threshold notifications require period, projected, and limit"

unfoldable pub check_threshold : Python → Fields → Result (Unit {0})
check_threshold py payload = do
  require (is_filled (get_or_null "period" payload)) (value_error threshold_message)
  projected ← unsigned_canonical_integer py (get_or_null "projected" payload)
  require projected (value_error threshold_message)
  limit ← unsigned_canonical_integer py (get_or_null "limit" payload)
  require limit (value_error threshold_message)

unfoldable pub check_paused : Fields → Result (Unit {0})
check_paused payload =
    require (is_filled (get_or_null "period" payload))
      (value_error "budget_paused notifications require period")

unfoldable pub check_manual : Value → Result (Unit {0})
check_manual event_type = do
  manual ← in_set ("feature_paused_manual" ∷ "feature_resumed_manual" ∷ []) event_type
  require manual (value_error "notification type is not supported")

unfoldable pub validate_notification : Python → Fields → Result Fields
validate_notification py payload = do
  let event_type = get_or_null "type" payload
  require (is_filled (get_or_null "business_id" payload))
      (value_error "notification business_id and feature_code are required")
  require (is_filled (get_or_null "feature_code" payload))
      (value_error "notification business_id and feature_code are required")
  threshold ← in_set ("budget_warning" ∷ "budget_breached" ∷ []) event_type
  (if threshold
      then check_threshold py payload
      else if equal_text event_type (str "budget_paused")
      then check_paused payload
      else check_manual event_type)
  ok payload
