-- ===== src/Examples/Lifecycle.antt =====
-- `main` of examples/end_to_end.py, up to what it prints: its result is the count and the cursor of the
-- export, and of the other printed values the subscripts and the methods that they need are kept.
-- `os.getenv` is an argument, and each call has an environment of its own.
pub mod Keys
pub mod Steps
pub mod Replays
pub mod Once
mod Typed
use mathlib.Core.List.{[], ◌∷◌}
use mizan_client_sdks.Base.{
  ℕ, String, Bool, true, false, not, ◌&&◌, ◌||◌, Option, none, some, List, ◌==◌, if◌then◌else◌,
}
use mizan_client_sdks.Base.Int.{ℤ, pos}
use mizan_client_sdks.Python.Value.{
  Value, null, bool, str, obj, int, Fields, end, field, Result, ok, err, get, get_or_null,
}
use mizan_client_sdks.Python.Text.{append}
use mizan_client_sdks.Python.Runtime.{Python}
use mizan_client_sdks.Python.Numbers.Print.{str_of}
use mizan_client_sdks.Vocabulary.Commerce.{
  plan_id_wire, billing_term_wire, payment_status_wire, currency_wire, PlanId, BillingTerm,
  PaymentStatus, Currency,
}
use mizan_client_sdks.Vocabulary.Usage.{channel_wire, feature_code_wire, Channel, FeatureCode}
use mizan_client_sdks.Vocabulary.Capabilities.{capability_wire, Capability}
use mizan_client_sdks.Webhooks.Ledger.{equal_text}
use mizan_client_sdks.Client.Http.{MizanApiError, truthy, get_or}
use mizan_client_sdks.Client.Retry.{
  MizanClient, Command, Environment, Effect, Outcome, returned, api_error, transport_error,
  protocol_error, escaped, request,
}
use mizan_client_sdks.Client.Commands.{
  SplitUrl, init, get_catalog, activate_subscription, get_entitlement, check_eligibility,
  get_billing_summary,
}
use mizan_client_sdks.Client.Consume.{consume_outbound_delivered_message}
use mizan_client_sdks.Examples.Flow.{
  Flow, Step, done, stopped, Stopped, failed, system_exit, runtime_error, raised, lookup_error,
  ◌>>=◌, ◌>>◌, ensure, finish, stop, step_of, run, lift, at_key, as_dict,
}
use mizan_client_sdks.Examples.Export.{Exported, exported, mistyped, unfinished, export_ledger}
use mizan_client_sdks.Examples.Export as Export
use mizan_client_sdks.Examples.Failures.{caught}
use mizan_client_sdks.Examples.Funding.{
  Required, present, required_env, Funded, skipped, misconfigured, refused, called,
  maybe_fund_provider,
}
use mizan_client_sdks.Examples.Funding as Funding

-- the environments of the calls, in the order of the calls
pub record Calls : Type 0 where
  pub catalog : Environment
  pub activation : Environment
  pub funding : Environment
  pub entitlement : Environment
  pub eligibility : Environment
  pub consumption : Environment
  pub replay : Environment
  pub summary : Environment
  pub ledger : ℕ → Value → Environment

-- os.getenv(name, default)
abbrev pub getenv_or : (String → Option String) → String → String → String
getenv_or getenv name default = elim (getenv name) [ none ↦ default | some v ↦ v ]

abbrev pub required_step : Required → Flow String
required_step (present v) = finish v
required_step (Funding.system_exit message) = stop (system_exit message)

-- required_env(name)
abbrev pub required : (String → Option String) → String → Flow String
required getenv name = required_step (required_env name (getenv name))

-- f"example-activation:{run_id}" and the like
abbrev pub activation_key : String → String → String
activation_key business_id run_id = append "activate:" (append business_id (append ":" run_id))

abbrev pub consume_key : String → String → String
consume_key business_id run_id = append "consume:" (append business_id (append ":" run_id))

unfoldable pub activation_request : Value → String → String → String → Fields
activation_request catalog_version timezone run_id paid_total =
    field "catalog_version" catalog_version (
      field "plan_id" (str (plan_id_wire PlanId.start)) (
        field "term" (str (billing_term_wire BillingTerm.monthly)) (
          field "seats" (int (pos 1)) (
            field "timezone" (str timezone) (
              field "payment_status" (str (payment_status_wire PaymentStatus.confirmed)) (
                field "payment_event_id" (str (append "example-activation:" run_id)) (
                  field "currency" (str (currency_wire Currency.sar))
                    (field "paid_total_minor" (str paid_total) end))))))))

abbrev pub usage_metadata : String → Fields
usage_metadata run_id =
    field "channel" (str (channel_wire Channel.whatsapp))
      (field "conversation_id" (str (append "example-conversation:" run_id)) end)

abbrev pub eligibility_request : String → Fields
eligibility_request run_id =
    field "quantity" (str "1") (field "metadata" (obj (usage_metadata run_id)) end)

-- how the optional funding goes on: `funded["data"]` is printed
abbrev pub funded_step : Funded × List Effect → Flow (Unit {0})
funded_step (skipped, es) = (done tt, es)
funded_step (misconfigured, es) = (
  stopped (
      runtime_error
        "MIZAN_PROVIDER_TOP_UP_MINOR and MIZAN_PROVIDER_TOP_UP_PAID_TOTAL_MINOR must be set together"),
  es,
)
funded_step (refused e, es) = (stopped (raised e), es)
funded_step (called o, es) = do payload ← (step_of o, es); at_key "data" (obj payload); finish tt

-- how the export goes on
abbrev pub exported_step : Exported × List Effect → Flow (ℕ × Value)
exported_step (exported count after, es) = (done (count, after), es)
exported_step (Export.failed o, es) = (stopped (failed o), es)
exported_step (mistyped, es) = (stopped lookup_error, es)
exported_step (unfinished, es) = (stopped lookup_error, es)

module _ (py : Python) (same : Value → Value → Bool) (getenv : String → Option String)
    (calls : Calls) (client : MizanClient) (business_id run_id : String) where
  unfoldable pub activate : String → Flow Value
  activate paid_total = do
    catalog ← run py client calls.catalog (ok get_catalog)
    catalog_version ← at_key "catalog_version" (obj catalog)
    activated ← run py client calls.activation (
        activate_subscription py client business_id
          (activation_request catalog_version
            (getenv_or getenv "MIZAN_BUSINESS_TIMEZONE" "Asia/Riyadh") run_id paid_total)
          (some (activation_key business_id run_id)))
    activation ← at_key "data" (obj activated)
    at_key "subscription_id" activation
    at_key "current_period_start" activation
    at_key "current_period_end" activation
    at_key "included_unit_millis_granted" activation
    finish activation

  unfoldable pub fund : Flow (Unit {0})
  fund = funded_step (
      maybe_fund_provider py client calls.funding business_id run_id
        (getenv "MIZAN_PROVIDER_TOP_UP_MINOR") (getenv "MIZAN_PROVIDER_TOP_UP_PAID_TOTAL_MINOR"))

  -- the entitlement and the advisory eligibility
  unfoldable pub check : Flow (Unit {0})
  check = do
    entitled ←
        run py client calls.entitlement
          (get_entitlement py client business_id (capability_wire Capability.basic_analytics))
    entitlement ← at_key "data" (obj entitled)
    as_dict entitlement
    checked ← run py client calls.eligibility (
        check_eligibility py client business_id
          (feature_code_wire FeatureCode.outbound_delivered_message) (eligibility_request run_id))
    answer ← at_key "data" (obj checked)
    eligibility ← as_dict answer
    ensure (truthy (get_or "eligible" (bool false) eligibility)) (
        runtime_error (
          append "advisory eligibility rejected usage: " (
            append (str_of py (get_or_null "reason" eligibility))
              (append " " (str_of py (get_or "details" (obj end) eligibility))))))

  -- the `data` of one delivered message, consumed from the start of the period
  unfoldable pub consume_once : Environment → Value → Flow Fields
  consume_once env occurred_at = do
    consumed ← run py client env (
        consume_outbound_delivered_message py client business_id
          (str (append "example-message:" run_id)) occurred_at (str "1")
          (some (usage_metadata run_id)) (some (consume_key business_id run_id)))
    decision ← at_key "data" (obj consumed)
    as_dict decision

  -- the consumption, and its replay
  unfoldable pub consume_twice : Value → Flow (Unit {0})
  consume_twice occurred_at = do
    decision ← consume_once calls.consumption occurred_at
    as_dict (get_or "balances" (obj end) decision)
    replay ← consume_once calls.replay occurred_at
    ensure
        (same (get_or_null "ledger_entry_id" replay) (get_or_null "ledger_entry_id" decision)
          && same (get_or_null "business_sequence" replay)
              (get_or_null "business_sequence" decision))
        (runtime_error "idempotent replay returned a different ledger identity")

  unfoldable pub report : ℕ → Flow (ℕ × Value)
  report fuel = do
    summarized ← run py client calls.summary (get_billing_summary py client business_id)
    summary ← at_key "data" (obj summarized)
    balances ← at_key "balances" summary
    at_key "azeer_unit_millis" balances
    at_key "provider_balance_minor" balances
    exported_step (export_ledger py client business_id calls.ledger fuel)

  -- the `try` block; the fuel is that of the export
  unfoldable pub lifecycle : ℕ → String → Flow (ℕ × Value)
  lifecycle fuel paid_total = do
    activation ← activate paid_total
    fund
    check
    occurred_at ← at_key "current_period_start" activation
    consume_twice occurred_at
    report fuel

unfoldable pub main :
    Python
    → (Value → Value → Bool)
    → (String → SplitUrl)
    → (String → Option String)
    → Calls
    → ℕ
    → Flow (ℕ × Value)
main py same urlsplit getenv calls fuel = do
  base_url ← required getenv "MIZAN_BASE_URL"
  token ← required getenv "MIZAN_API_TOKEN"
  business_id ← required getenv "MIZAN_BUSINESS_ID"
  paid_total ← required getenv "MIZAN_ACTIVATION_PAID_TOTAL_MINOR"
  client ← lift (init urlsplit base_url token (some business_id) true (pos 3))
  caught py (
      lifecycle py same getenv calls client business_id
        (getenv_or getenv "MIZAN_EXAMPLE_RUN_ID" "checkout-001") fuel paid_total)
