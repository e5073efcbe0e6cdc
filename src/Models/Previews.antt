-- ===== src/Models/Previews.antt =====
-- The response types of budgets, previews, entitlements and decisions in models.py.
use mathlib.Core.List.{[], ◌∷◌}
use mizan_client_sdks.Models.Shape.{
  Kind, Shape, text, integer, boolean, anything, nothing, literal, either, list_of, dict_of, typed,
  closed, required, optional, extend,
}
use mizan_client_sdks.Vocabulary.Members.{values}
use mizan_client_sdks.Vocabulary.Commerce.{budget_action_enum, budget_metric_enum}
use mizan_client_sdks.Vocabulary.Capabilities.{capability_enum}
use mizan_client_sdks.Models.Decisions.{
  balance_shape, base_envelope_shape, consumption_charge_shape,
}
use mizan_client_sdks.Models.Payments.{exact_amount}

-- `BudgetResult`
unfoldable pub budget_result_shape : Shape
budget_result_shape = required "feature_code" text (
    required "metric" (literal (values budget_metric_enum)) (
      required "period" (literal ("subscription_month" ∷ [])) (
        required "limit" exact_amount (
          required "action" (literal (values budget_action_enum))
            (required "ledger_entry_id" text closed)))))

-- `BudgetResponse`
unfoldable pub budget_response_shape : Shape
budget_response_shape =
    extend base_envelope_shape (required "data" (typed budget_result_shape) closed)

-- `EligibilityResult`
unfoldable pub eligibility_result_shape : Shape
eligibility_result_shape = optional "eligible" boolean (
    optional "reason" text (
      optional "details" (dict_of anything)
        (optional "charges" (list_of (typed consumption_charge_shape)) closed)))

-- `EligibilityResponse`
unfoldable pub eligibility_response_shape : Shape
eligibility_response_shape =
    extend base_envelope_shape (required "data" (typed eligibility_result_shape) closed)

-- `BalanceImpactOperation`
unfoldable pub balance_impact_operation_kind : Kind
balance_impact_operation_kind = literal (
    "consume" ∷ "top_up_azeer_units" ∷ "top_up_provider_balance" ∷ "refund_provider_balance"
    ∷ "set_feature_budget" ∷ "promotional_grant" ∷ [])

-- `BalanceImpactPreviewRequest`
unfoldable pub balance_impact_preview_request_shape : Shape
balance_impact_preview_request_shape =
    required "operation" balance_impact_operation_kind
      (required "request" (dict_of anything) closed)

-- `BalanceImpact`
unfoldable pub balance_impact_shape : Shape
balance_impact_shape =
    required "code" (literal ("azeer_unit_millis" ∷ "provider_balance_minor" ∷ [])) (
      required "unit" (literal ("milliunit" ∷ "halala" ∷ [])) (
        required "before" exact_amount
          (required "delta" exact_amount (required "after" exact_amount closed))))

-- `BalanceImpactPreviewResult`
unfoldable pub balance_impact_preview_result_shape : Shape
balance_impact_preview_result_shape = optional "advisory" boolean (
    optional "operation" balance_impact_operation_kind (
      optional "eligible" boolean (
        optional "decision_code" text (
          optional "details" (dict_of anything) (
            optional "charges" (list_of (typed consumption_charge_shape)) (
              optional "balances" (list_of (typed balance_impact_shape)) (
                optional "payment" (either (dict_of anything) nothing) (
                  optional "budget" (either (dict_of anything) nothing) (
                    optional "warnings" (list_of text) (
                      optional "decision_revision" integer
                        (optional "evaluated_at" text (optional "expires_at" text closed))))))))))))

-- `BalanceImpactPreviewResponse`
unfoldable pub balance_impact_preview_response_shape : Shape
balance_impact_preview_response_shape =
    extend base_envelope_shape (required "data" (typed balance_impact_preview_result_shape) closed)

-- `EntitlementResult`
unfoldable pub entitlement_result_shape : Shape
entitlement_result_shape = optional "capability" (literal (values capability_enum)) (
    optional "enabled" boolean
      (optional "plan_id" text (optional "fair_use" (dict_of (either integer nothing)) closed)))

-- `EntitlementResponse`
unfoldable pub entitlement_response_shape : Shape
entitlement_response_shape =
    extend base_envelope_shape (required "data" (typed entitlement_result_shape) closed)

-- `ConsumptionResult`
unfoldable pub consumption_result_shape : Shape
consumption_result_shape = optional "accepted" boolean (
    optional "code" text (
      optional "source_event_id" text (
        optional "ledger_entry_id" text (
          optional "business_sequence" integer (
            optional "charges" (list_of (typed consumption_charge_shape)) (
              optional "allocations_by_feature" (list_of (dict_of anything)) (
                optional "totals" (dict_of exact_amount) (
                  optional "balances" (typed balance_shape)
                    (optional "details" (dict_of anything) closed)))))))))
