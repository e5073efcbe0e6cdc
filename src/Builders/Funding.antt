-- ===== src/Builders/Funding.antt =====
-- The funding and budget builders of builders.py.
use mizan_client_sdks.Base.{Bool, false, not, ◌&&◌, leb}
use mizan_client_sdks.Python.Value.{
  Value, str, Fields, end, field, value_error, Result, ok, ◌>>◌, require,
}
use mizan_client_sdks.Python.Text.{length}
use mizan_client_sdks.Python.Runtime.{Python}
use mizan_client_sdks.Builders.Facts.{is_blank, payment_event, integer}

unfoldable pub confirmed_top_up : Python → Value → Value → Value → Result Fields
confirmed_top_up py amount_minor payment_event_id paid_total_minor = do
  integer py amount_minor "amount_minor" false
  integer py paid_total_minor "paid_total_minor" false
  payment_event payment_event_id
  ok (
      field "amount_minor" amount_minor (
        field "payment_event_id" payment_event_id (
          field "payment_status" (str "confirmed")
            (field "currency" (str "SAR") (field "paid_total_minor" paid_total_minor end)))))

-- isinstance(reason, str) and reason.strip() and len(reason) <= 1_000
unfoldable pub is_reason : Python → Value → Bool
is_reason py (str s) = not (is_blank py (str s)) && leb (length s) 1_000
is_reason py _ = false

unfoldable pub confirmed_refund : Python → Value → Value → Value → Value → Result Fields
confirmed_refund py amount_minor refunded_total_minor payment_event_id reason = do
  integer py amount_minor "amount_minor" false
  integer py refunded_total_minor "refunded_total_minor" false
  payment_event payment_event_id
  require (is_reason py reason) (value_error "reason must contain 1 to 1000 characters")
  ok (
      field "amount_minor" amount_minor (
        field "payment_event_id" payment_event_id (
          field "reason" reason (
            field "refund_status" (str "confirmed") (
              field "currency" (str "SAR")
                (field "refunded_total_minor" refunded_total_minor end))))))

unfoldable pub feature_budget : Value → Value → Value → Value → Value → Fields
feature_budget metric limit action warning_bps sensitive = field "metric" metric (
    field "period" (str "subscription_month") (
      field "limit" limit (
        field "warning_bps" warning_bps (field "action" action (field "sensitive" sensitive end)))))
