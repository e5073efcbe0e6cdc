-- ===== src/Vocabulary/Commerce.antt =====
-- The vocabularies of subscriptions, payments and budgets in enums.py.
use mathlib.Core.List.{[], ◌∷◌}
use mizan_client_sdks.Base.{String, refl}
use mizan_client_sdks.Vocabulary.Members.{StrEnum, find, IsClosed}

-- `PlanId`
pub data PlanId : Type 0 where
  start growth command : PlanId

unfoldable pub plan_id_wire : PlanId → String
plan_id_wire PlanId.start = "start"
plan_id_wire PlanId.growth = "growth"
plan_id_wire PlanId.command = "command"

abbrev pub plan_id_enum : StrEnum PlanId
plan_id_enum = record {
  members = PlanId.start ∷ PlanId.growth ∷ PlanId.command ∷ [];
  wire = plan_id_wire;
}

pub plan_id_enum-IsClosed : IsClosed plan_id_enum
unfolding find plan_id_wire
plan_id_enum-IsClosed PlanId.start = refl
plan_id_enum-IsClosed PlanId.growth = refl
plan_id_enum-IsClosed PlanId.command = refl

-- `BillingTerm`
pub data BillingTerm : Type 0 where
  monthly quarterly semi_annual : BillingTerm
  annual : BillingTerm

unfoldable pub billing_term_wire : BillingTerm → String
billing_term_wire BillingTerm.monthly = "monthly"
billing_term_wire BillingTerm.quarterly = "quarterly"
billing_term_wire BillingTerm.semi_annual = "semi_annual"
billing_term_wire BillingTerm.annual = "annual"

abbrev pub billing_term_enum : StrEnum BillingTerm
billing_term_enum = record {
  members =
      BillingTerm.monthly ∷ BillingTerm.quarterly ∷ BillingTerm.semi_annual ∷ BillingTerm.annual
      ∷ [];
  wire = billing_term_wire;
}

pub billing_term_enum-IsClosed : IsClosed billing_term_enum
unfolding find billing_term_wire
billing_term_enum-IsClosed BillingTerm.monthly = refl
billing_term_enum-IsClosed BillingTerm.quarterly = refl
billing_term_enum-IsClosed BillingTerm.semi_annual = refl
billing_term_enum-IsClosed BillingTerm.annual = refl

-- `Currency`
pub data Currency : Type 0 where
  sar : Currency

unfoldable pub currency_wire : Currency → String
currency_wire Currency.sar = "SAR"

abbrev pub currency_enum : StrEnum Currency
currency_enum = record { members = Currency.sar ∷ []; wire = currency_wire }

pub currency_enum-IsClosed : IsClosed currency_enum
unfolding find currency_wire
currency_enum-IsClosed Currency.sar = refl

-- `PaymentStatus`
pub data PaymentStatus : Type 0 where
  confirmed failed : PaymentStatus

unfoldable pub payment_status_wire : PaymentStatus → String
payment_status_wire PaymentStatus.confirmed = "confirmed"
payment_status_wire PaymentStatus.failed = "failed"

abbrev pub payment_status_enum : StrEnum PaymentStatus
payment_status_enum = record {
  members = PaymentStatus.confirmed ∷ PaymentStatus.failed ∷ [];
  wire = payment_status_wire;
}

pub payment_status_enum-IsClosed : IsClosed payment_status_enum
unfolding find payment_status_wire
payment_status_enum-IsClosed PaymentStatus.confirmed = refl
payment_status_enum-IsClosed PaymentStatus.failed = refl

-- `RefundStatus`
pub data RefundStatus : Type 0 where
  confirmed : RefundStatus

unfoldable pub refund_status_wire : RefundStatus → String
refund_status_wire RefundStatus.confirmed = "confirmed"

abbrev pub refund_status_enum : StrEnum RefundStatus
refund_status_enum = record { members = RefundStatus.confirmed ∷ []; wire = refund_status_wire }

pub refund_status_enum-IsClosed : IsClosed refund_status_enum
unfolding find refund_status_wire
refund_status_enum-IsClosed RefundStatus.confirmed = refl

-- `BudgetMetric`
pub data BudgetMetric : Type 0 where
  azeer_unit_millis money_minor quantity : BudgetMetric

unfoldable pub budget_metric_wire : BudgetMetric → String
budget_metric_wire BudgetMetric.azeer_unit_millis = "azeer_unit_millis"
budget_metric_wire BudgetMetric.money_minor = "money_minor"
budget_metric_wire BudgetMetric.quantity = "quantity"

abbrev pub budget_metric_enum : StrEnum BudgetMetric
budget_metric_enum = record {
  members = BudgetMetric.azeer_unit_millis ∷ BudgetMetric.money_minor ∷ BudgetMetric.quantity ∷ [];
  wire = budget_metric_wire;
}

pub budget_metric_enum-IsClosed : IsClosed budget_metric_enum
unfolding find budget_metric_wire
budget_metric_enum-IsClosed BudgetMetric.azeer_unit_millis = refl
budget_metric_enum-IsClosed BudgetMetric.money_minor = refl
budget_metric_enum-IsClosed BudgetMetric.quantity = refl

-- `BudgetPeriod`
pub data BudgetPeriod : Type 0 where
  subscription_month : BudgetPeriod

unfoldable pub budget_period_wire : BudgetPeriod → String
budget_period_wire BudgetPeriod.subscription_month = "subscription_month"

abbrev pub budget_period_enum : StrEnum BudgetPeriod
budget_period_enum = record {
  members = BudgetPeriod.subscription_month ∷ [];
  wire = budget_period_wire;
}

pub budget_period_enum-IsClosed : IsClosed budget_period_enum
unfolding find budget_period_wire
budget_period_enum-IsClosed BudgetPeriod.subscription_month = refl

-- `BudgetAction`
pub data BudgetAction : Type 0 where
  alert pause : BudgetAction

unfoldable pub budget_action_wire : BudgetAction → String
budget_action_wire BudgetAction.alert = "alert"
budget_action_wire BudgetAction.pause = "pause"

abbrev pub budget_action_enum : StrEnum BudgetAction
budget_action_enum = record {
  members = BudgetAction.alert ∷ BudgetAction.pause ∷ [];
  wire = budget_action_wire;
}

pub budget_action_enum-IsClosed : IsClosed budget_action_enum
unfolding find budget_action_wire
budget_action_enum-IsClosed BudgetAction.alert = refl
budget_action_enum-IsClosed BudgetAction.pause = refl
