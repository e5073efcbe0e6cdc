-- ===== src/Models/Payments.antt =====
-- The request types of subscriptions, payments and budgets in models.py.
use mathlib.Core.List.{[], ◌∷◌}
use mizan_client_sdks.Models.Shape.{
  Kind, Shape, text, integer, boolean, literal, list_of, typed, closed, required, optional, extend,
}
use mizan_client_sdks.Vocabulary.Members.{values}
use mizan_client_sdks.Vocabulary.Commerce.{
  billing_term_enum, refund_status_enum, budget_action_enum, currency_enum, payment_status_enum,
  budget_metric_enum, plan_id_enum,
}
use mizan_client_sdks.Vocabulary.Usage.{recurring_addon_code_enum}

-- `ExactAmount`
abbrev pub exact_amount : Kind
exact_amount = text

-- `_RecurringAddonOptional`
unfoldable pub recurring_addon_optional_shape : Shape
recurring_addon_optional_shape =
    optional "quantity" exact_amount
      (optional "approved_quote_id" text (optional "approved_monthly_minor" exact_amount closed))

-- `RecurringAddon`
unfoldable pub recurring_addon_shape : Shape
recurring_addon_shape =
    extend recurring_addon_optional_shape
      (required "code" (literal (values recurring_addon_code_enum)) closed)

-- `_ActivationOptional`
unfoldable pub activation_optional_shape : Shape
activation_optional_shape = optional "plan_id" (literal (values plan_id_enum)) (
    optional "plan_configuration_id" text
      (optional "timezone" text (optional "addons" (list_of (typed recurring_addon_shape)) closed)))

-- `ActivationRequest`
unfoldable pub activation_request_shape : Shape
activation_request_shape = extend activation_optional_shape (
    required "catalog_version" text (
      required "term" (literal (values billing_term_enum)) (
        required "seats" integer (
          required "payment_status" (literal (values payment_status_enum)) (
            required "payment_event_id" text (
              required "currency" (literal (values currency_enum))
                (required "paid_total_minor" exact_amount closed)))))))

-- `_SubscriptionChangeOptional`
unfoldable pub subscription_change_optional_shape : Shape
subscription_change_optional_shape = optional "plan_id" (literal (values plan_id_enum)) (
    optional "plan_configuration_id" text (
      optional "term" (literal (values billing_term_enum)) (
        optional "seats" integer (
          optional "addons" (list_of (typed recurring_addon_shape))
            (optional "requested_by" text (optional "reason" text closed))))))

-- `SubscriptionChangeRequest`
unfoldable pub subscription_change_request_shape : Shape
subscription_change_request_shape =
    extend subscription_change_optional_shape (required "catalog_version" text closed)

-- `CancellationRequest`
unfoldable pub cancellation_request_shape : Shape
cancellation_request_shape = optional "event_id" text (optional "reason" text closed)

-- `_RenewalOptional`
unfoldable pub renewal_optional_shape : Shape
renewal_optional_shape =
    optional "currency" (literal (values currency_enum))
      (optional "paid_total_minor" exact_amount closed)

-- `RenewalEventRequest`
unfoldable pub renewal_event_request_shape : Shape
renewal_event_request_shape = extend renewal_optional_shape (
    required "payment_event_id" text
      (required "payment_status" (literal (values payment_status_enum)) closed))

-- `ConfirmedTopUp`
unfoldable pub confirmed_top_up_shape : Shape
confirmed_top_up_shape = required "amount_minor" exact_amount (
    required "payment_event_id" text (
      required "payment_status" (literal (values payment_status_enum)) (
        required "currency" (literal (values currency_enum))
          (required "paid_total_minor" exact_amount closed))))

-- `ProviderRefundRequest`
unfoldable pub provider_refund_request_shape : Shape
provider_refund_request_shape = required "amount_minor" exact_amount (
    required "payment_event_id" text (
      required "refund_status" (literal (values refund_status_enum)) (
        required "currency" (literal (values currency_enum))
          (required "refunded_total_minor" exact_amount (required "reason" text closed)))))

-- `_BudgetOptional`
unfoldable pub budget_optional_shape : Shape
budget_optional_shape = optional "warning_bps" integer (
    optional "sensitive" boolean
      (optional "absolute_reserve" exact_amount (optional "reserve_bps" integer closed)))

-- `BudgetRequest`
unfoldable pub budget_request_shape : Shape
budget_request_shape = extend budget_optional_shape (
    required "metric" (literal (values budget_metric_enum)) (
      required "period" (literal ("subscription_month" ∷ [])) (
        required "limit" exact_amount
          (required "action" (literal (values budget_action_enum)) closed))))
