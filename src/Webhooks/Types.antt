-- ===== src/Webhooks/Types.antt =====
-- The types of what webhooks.py delivers, as shapes that a value may have.
pub mod Checked
use mathlib.Core.List.{[], ◌∷◌}
use mizan_client_sdks.Models.Shape.{
  Kind, Shape, text, integer, anything, nothing, literal, either, list_of, dict_of, typed, closed,
  required, optional,
}
use mizan_client_sdks.Models.Payments.{exact_amount}

-- `LedgerEntryType`
abbrev pub ledger_entry_type : Kind
ledger_entry_type = literal (
    "subscription_activated" ∷ "subscription_change_scheduled"
    ∷ "subscription_cancellation_scheduled" ∷ "subscription_cancelled"
    ∷ "subscription_cancellation_revoked" ∷ "renewal_failed" ∷ "subscription_renewed"
    ∷ "azeer_units_topped_up" ∷ "provider_balance_topped_up" ∷ "provider_balance_refunded"
    ∷ "feature_budget_updated" ∷ "billing_account_depleted" ∷ "feature_paused_budget"
    ∷ "feature_paused_manual" ∷ "feature_resumed_manual" ∷ "usage_rejected" ∷ "usage_consumed"
    ∷ "included_units_expired" ∷ "purchased_units_expired" ∷ "promotional_units_expired"
    ∷ "promotional_units_granted" ∷ "monthly_included_units_granted" ∷ "outbox_retry_requested"
    ∷ [])

-- `NotificationType`
abbrev pub notification_type : Kind
notification_type = literal (
    "budget_warning" ∷ "budget_breached" ∷ "budget_paused" ∷ "feature_paused_manual"
    ∷ "feature_resumed_manual" ∷ [])

-- `LedgerEntryWebhook`
unfoldable pub ledger_entry_webhook_shape : Shape
ledger_entry_webhook_shape = required "id" text (
    required "entry_type" ledger_entry_type (
      required "source_command" text (
        required "source_event_id" text (
          required "subscription_id" (either text nothing) (
            required "feature_code" (either text nothing) (
              required "effective_at" text (
                required "catalog_version" text (
                  required "policy_version" text
                    (required "metadata" (dict_of anything) closed)))))))))

-- `LedgerPostingWebhook`
unfoldable pub ledger_posting_webhook_shape : Shape
ledger_posting_webhook_shape =
    optional "rail" (literal ("azeer_units" ∷ "provider_balance" ∷ "invoice" ∷ [])) (
      optional "account_code" text (
        optional "amount" exact_amount (
          optional "unit" (literal ("milliunit" ∷ "halala" ∷ [])) (
            optional "lot_id" (either text nothing)
              (optional "metadata" (dict_of anything) closed)))))

-- `LedgerWebhook`
unfoldable pub ledger_webhook_shape : Shape
ledger_webhook_shape = required "event_id" text (
    required "business_id" text (
      required "business_sequence" integer (
        required "entry" (typed ledger_entry_webhook_shape)
          (required "postings" (list_of (typed ledger_posting_webhook_shape)) closed))))

-- `NotificationWebhook`
unfoldable pub notification_webhook_shape : Shape
notification_webhook_shape = optional "type" notification_type (
    optional "business_id" text (
      optional "feature_code" text (
        optional "period" text
          (optional "projected" exact_amount (optional "limit" exact_amount closed)))))
