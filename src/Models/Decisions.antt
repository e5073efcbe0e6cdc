-- ===== src/Models/Decisions.antt =====
-- The response types of charges, subscriptions and funding in models.py.
use mathlib.Core.List.{[], ◌∷◌}
use mizan_client_sdks.Models.Shape.{
  Shape, text, boolean, nothing, literal, either, list_of, dict_of, typed, closed, required,
  optional, extend,
}
use mizan_client_sdks.Models.Payments.{exact_amount}

-- `AllowanceDecision`
unfoldable pub allowance_decision_shape : Shape
allowance_decision_shape = required "limit_quantity_millis" exact_amount (
    required "consumed_before_millis" exact_amount (
      required "consumed_after_millis" exact_amount
        (required "billable_quantity_millis" exact_amount closed)))

-- `ConsumptionCharge`
unfoldable pub consumption_charge_shape : Shape
consumption_charge_shape =
    required "rail" (literal ("azeer_units" ∷ "provider_balance" ∷ "included" ∷ [])) (
      required "quantity_millis" exact_amount (
        required "reported_quantity_millis" exact_amount (
          required "unit_millis" exact_amount (
            required "money_minor" exact_amount (
              required "treatment" (either text nothing)
                (required "allowance" (either (typed allowance_decision_shape) nothing) closed))))))

-- `BaseEnvelope`
unfoldable pub base_envelope_shape : Shape
base_envelope_shape =
    required "api_version" text
      (required "catalog_version" text (required "policy_version" text closed))

-- `Balance`
unfoldable pub balance_shape : Shape
balance_shape =
    required "azeer_unit_millis" exact_amount
      (required "provider_balance_minor" exact_amount closed)

-- `InvoiceLine`
unfoldable pub invoice_line_shape : Shape
invoice_line_shape = optional "code" text (
    optional "quantity" exact_amount (
      optional "net_minor" exact_amount (
        optional "discount_minor" exact_amount (
          optional "after_discount_minor" exact_amount (
            optional "vat_minor" exact_amount (
              optional "total_minor" exact_amount (
                optional "discountable" boolean (
                  optional "taxable" boolean (
                    optional "pricing_mode" text
                      (optional "approved_quote_id" (either text nothing) closed))))))))))

-- `Invoice`
unfoldable pub invoice_shape : Shape
invoice_shape = required "id" text (
    required "currency" text (
      required "eligible_gross_minor" exact_amount (
        required "discount_minor" exact_amount (
          required "subtotal_minor" exact_amount (
            required "vat_minor" exact_amount (
              required "total_minor" exact_amount
                (required "lines" (list_of (typed invoice_line_shape)) closed)))))))

-- `ActivationResult`
unfoldable pub activation_result_shape : Shape
activation_result_shape = required "subscription_id" text (
    required "cycle_id" text (
      required "status" (literal ("active" ∷ [])) (
        required "current_period_start" text (
          required "current_period_end" text (
            required "included_unit_millis_granted" exact_amount (
              required "invoice" (typed invoice_shape) (
                required "ledger_entry_id" text
                  (required "balances" (typed balance_shape) closed))))))))

-- `ActivationResponse`
unfoldable pub activation_response_shape : Shape
activation_response_shape =
    extend base_envelope_shape (required "data" (typed activation_result_shape) closed)

-- `ChangeResult`
unfoldable pub change_result_shape : Shape
change_result_shape = required "change_id" text (
    required "status" (literal ("pending" ∷ []))
      (required "effective_at" text (required "ledger_entry_id" text closed)))

-- `ChangeResponse`
unfoldable pub change_response_shape : Shape
change_response_shape =
    extend base_envelope_shape (required "data" (typed change_result_shape) closed)

-- `CancellationResult`
unfoldable pub cancellation_result_shape : Shape
cancellation_result_shape =
    required "status" (literal ("cancel_at_period_end" ∷ []))
      (required "effective_at" text (required "ledger_entry_id" text closed))

-- `CancellationResponse`
unfoldable pub cancellation_response_shape : Shape
cancellation_response_shape =
    extend base_envelope_shape (required "data" (typed cancellation_result_shape) closed)

-- `RenewalResult`
unfoldable pub renewal_result_shape : Shape
renewal_result_shape = optional "status" (literal ("active" ∷ "past_due" ∷ [])) (
    optional "subscription_id" text (
      optional "cycle_id" text (
        optional "current_period_start" text (
          optional "current_period_end" text
            (optional "invoice" (typed invoice_shape) (optional "ledger_entry_id" text closed))))))

-- `RenewalResponse`
unfoldable pub renewal_response_shape : Shape
renewal_response_shape =
    extend base_envelope_shape (required "data" (typed renewal_result_shape) closed)

-- `TopUpResult`
unfoldable pub top_up_result_shape : Shape
top_up_result_shape = optional "lot_id" text (
    optional "unit_millis_granted" exact_amount (
      optional "expires_at" text (
        optional "balance_unit_millis" exact_amount (
          optional "balance_before_minor" exact_amount (
            optional "balance_after_minor" exact_amount (
              optional "ledger_entry_id" text
                (optional "payment" (dict_of exact_amount) closed)))))))

-- `TopUpResponse`
unfoldable pub top_up_response_shape : Shape
top_up_response_shape =
    extend base_envelope_shape (required "data" (typed top_up_result_shape) closed)

-- `RefundResult`
unfoldable pub refund_result_shape : Shape
refund_result_shape =
    required "refund" (dict_of exact_amount)
      (required "balance_after_minor" exact_amount (required "ledger_entry_id" text closed))

-- `RefundResponse`
unfoldable pub refund_response_shape : Shape
refund_response_shape =
    extend base_envelope_shape (required "data" (typed refund_result_shape) closed)
