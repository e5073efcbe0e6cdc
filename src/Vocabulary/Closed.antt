-- ===== src/Vocabulary/Closed.antt =====
-- All the vocabularies together.
use mizan_client_sdks.Vocabulary.Members.{IsClosed}
use mizan_client_sdks.Vocabulary.Commerce.{
  plan_id_enum, plan_id_enum-IsClosed, billing_term_enum, billing_term_enum-IsClosed, currency_enum,
  currency_enum-IsClosed, payment_status_enum, payment_status_enum-IsClosed, refund_status_enum,
  refund_status_enum-IsClosed, budget_metric_enum, budget_metric_enum-IsClosed, budget_period_enum,
  budget_period_enum-IsClosed, budget_action_enum, budget_action_enum-IsClosed,
}
use mizan_client_sdks.Vocabulary.Usage.{
  channel_enum, channel_enum-IsClosed, feature_code_enum, feature_code_enum-IsClosed,
  recurring_addon_code_enum, recurring_addon_code_enum-IsClosed,
}
use mizan_client_sdks.Vocabulary.Capabilities.{capability_enum, capability_enum-IsClosed}

-- In each vocabulary every member is listed and is found by its wire value, so that no two members
-- share a wire value.
vocabularies-IsClosed :
    IsClosed plan_id_enum
    × IsClosed billing_term_enum
    × IsClosed currency_enum
    × IsClosed payment_status_enum
    × IsClosed refund_status_enum
    × IsClosed budget_metric_enum
    × IsClosed budget_period_enum
    × IsClosed budget_action_enum
    × IsClosed channel_enum
    × IsClosed feature_code_enum
    × IsClosed recurring_addon_code_enum
    × IsClosed capability_enum
vocabularies-IsClosed = (
  plan_id_enum-IsClosed, billing_term_enum-IsClosed, currency_enum-IsClosed,
  payment_status_enum-IsClosed, refund_status_enum-IsClosed, budget_metric_enum-IsClosed,
  budget_period_enum-IsClosed, budget_action_enum-IsClosed, channel_enum-IsClosed,
  feature_code_enum-IsClosed, recurring_addon_code_enum-IsClosed, capability_enum-IsClosed,
)
