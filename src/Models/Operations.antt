-- ===== src/Models/Operations.antt =====
-- The types of delivery, summaries, the ledger and the catalog in models.py.
use mathlib.Core.List.{[], ◌∷◌}
use mizan_client_sdks.Models.Shape.{
  Kind, Shape, text, integer, boolean, anything, nothing, literal, either, list_of, dict_of, typed,
  closed, required, optional, extend,
}
use mizan_client_sdks.Models.Decisions.{balance_shape, base_envelope_shape}
use mizan_client_sdks.Models.Payments.{exact_amount}
use mizan_client_sdks.Models.Previews.{consumption_result_shape}

-- `DeliveryEndpointInput`
unfoldable pub delivery_endpoint_input_shape : Shape
delivery_endpoint_input_shape = optional "endpoint_url" text (
    optional "auth_type" (literal ("none" ∷ "bearer" ∷ [])) (
      optional "auth_secret" text (
        optional "clear_auth_secret" boolean
          (optional "enabled" boolean (optional "reason" text closed)))))

-- `DeliveryEndpoint`
unfoldable pub delivery_endpoint_shape : Shape
delivery_endpoint_shape = optional "kind" (literal ("ledger" ∷ "notification" ∷ [])) (
    optional "scope" (literal ("business" ∷ "global" ∷ [])) (
      optional "source" (literal ("business" ∷ "global" ∷ [])) (
        optional "endpoint_url" text (
          optional "auth_type" (literal ("none" ∷ "bearer" ∷ [])) (
            optional "auth_secret_configured" boolean (
              optional "enabled" boolean (
                optional "revision" integer (
                  optional "updated_by" text
                    (optional "reason" text (optional "updated_at" text closed))))))))))

-- `DeliveryConfigurationResult`
unfoldable pub delivery_configuration_result_shape : Shape
delivery_configuration_result_shape = required "scope" (literal ("business" ∷ "global" ∷ [])) (
    required "ready" boolean
      (required "endpoints" (list_of (either (typed delivery_endpoint_shape) nothing)) closed))

-- `DeliveryConfigurationResponse`
unfoldable pub delivery_configuration_response_shape : Shape
delivery_configuration_response_shape =
    extend base_envelope_shape (required "data" (typed delivery_configuration_result_shape) closed)

-- `AddonRolloutInput`
unfoldable pub addon_rollout_input_shape : Shape
addon_rollout_input_shape = optional "display_name" text (
    optional "summary" text (
      optional "included_features" (list_of text) (
        optional "rollout_stage"
          (literal ("planned" ∷ "pilot" ∷ "available" ∷ "paused" ∷ "retired" ∷ []))
          (optional "enabled" boolean (
            optional "rollout_note" (either text nothing) (
              optional "documentation_url" (either text nothing)
                (optional "reason" text closed)))))))

-- `ConsumptionResponse`
unfoldable pub consumption_response_shape : Shape
consumption_response_shape =
    extend base_envelope_shape (required "data" (typed consumption_result_shape) closed)

-- `SubscriptionSummary`
unfoldable pub subscription_summary_shape : Shape
subscription_summary_shape = required "id" text (
    required "status" (literal ("active" ∷ "past_due" ∷ [])) (
      required "effective_status" (literal ("active" ∷ "past_due" ∷ "upcoming" ∷ "expired" ∷ [])) (
        required "snapshot" (dict_of anything) (
          required "current_period_start" text (
            required "current_period_end" text (required "cancel_at_period_end" boolean closed))))))

-- `BillingSummaryResult`
unfoldable pub billing_summary_result_shape : Shape
billing_summary_result_shape = required "business_id" text (
    required "as_of" text (
      required "account" (dict_of anything) (
        required "subscription" (either (typed subscription_summary_shape) nothing) (
          required "balances" (typed balance_shape) (
            required "credit_lots" (list_of (dict_of anything)) (
              required "budgets" (list_of (dict_of anything)) (
                required "pauses" (list_of (dict_of anything)) (
                  required "replication" (dict_of anything)
                    (required "delivery" (typed delivery_configuration_result_shape) closed)))))))))

-- `BillingSummaryResponse`
unfoldable pub billing_summary_response_shape : Shape
billing_summary_response_shape =
    extend base_envelope_shape (required "data" (typed billing_summary_result_shape) closed)

-- `LedgerResult`
unfoldable pub ledger_result_shape : Shape
ledger_result_shape =
    required "entries" (list_of (dict_of anything))
      (required "next_after_sequence" (either integer nothing) closed)

-- `LedgerResponse`
unfoldable pub ledger_response_shape : Shape
ledger_response_shape =
    extend base_envelope_shape (required "data" (typed ledger_result_shape) closed)

-- `CatalogResponse`
unfoldable pub catalog_response_shape : Shape
catalog_response_shape = required "catalog_version" text (
    required "policy_version" text (
      required "plans" (dict_of (dict_of anything)) (
        required "terms" (dict_of (dict_of integer)) (
          required "recurring_addons" (dict_of (dict_of anything)) (
            required "feature_prices" (dict_of (dict_of anything)) (
              required "unit_topups" (dict_of exact_amount)
                (required "contract_values" (dict_of (list_of text)) closed)))))))

-- `ApiResponse`
unfoldable pub api_response_kind : Kind
api_response_kind = dict_of anything
