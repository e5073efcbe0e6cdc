-- ===== src/Tests/Scripts.antt =====
-- Runs of the scripts of calls.
use mathlib.Core.List.{[], ◌∷◌}
use mizan_client_sdks.Base.{
  String, Bool, true, Option, none, some, ◌==◌, ◌≡◌, refl, if◌then◌else◌, arith,
}
use mizan_client_sdks.Base.Lists.{length}
use mizan_client_sdks.Python.Value.{Value, int, str}
use mizan_client_sdks.Client.Http.{replied}
use mizan_client_sdks.Client.Commands.{SplitUrl}
use mizan_client_sdks.Client.Retry.{MizanClient, Environment}
use mizan_client_sdks.Client.Retry.Effects.{requests_of}
use mizan_client_sdks.Client.Retry.Identity.{Every}
use mizan_client_sdks.Examples.Failures.{caught}
use mizan_client_sdks.Examples.Lifecycle.{Calls, main, consume_twice}
use mizan_client_sdks.Examples.Lifecycle.Keys.{Replayable}
use mizan_client_sdks.Examples.Lifecycle.Replays.{main-Replayable}
use mizan_client_sdks.Examples.Lifecycle.Once.{Message, consume_twice-Message}
use mizan_client_sdks.Examples.Features.{consume_every_feature}
use mizan_client_sdks.Examples.Features.Keys.{Consumed, consume_every_feature-Consumed}
use mizan_client_sdks.Python.Value.{get, put, size, contains, in_set}
use mizan_client_sdks.Python.Text.{replace_z, lstrip, rstrip, strip, rstrip_slash}
use mizan_client_sdks.Python.Numbers.{digits_value, int_text}
use mizan_client_sdks.Python.Numbers.Print.{digit, show_onto, show, show_int, str_of}
use mizan_client_sdks.Builders.Facts.{
  is_bounded, is_blank, all_decimal, integer_match, before_point, after_point, fraction_match,
  ljust, event_time, event, quantity, whole_count, integer, required_metadata_string, payment_event,
}
use mizan_client_sdks.Builders.Metadata.{
  all_keys, check_channel, check_actor, is_null_or_bounded, check_bounded, check_original_amount,
  is_short, check_attributes, check_attribute_map, validate_metadata, provider_metadata,
}
use mizan_client_sdks.Builders.Usage.{
  is_currency, put_fx_rule, count_usage, other_provider_charge, conversation_24h,
  outbound_delivered_message, ai_assist_action_over_allowance, ai_assist_action, ai_reply_handling,
  voice_ai_started_minute, whatsapp_meta_marketing_message, telephony_voice_minute,
  inbound_voice_minute,
}
use mizan_client_sdks.Webhooks.Receiver.{lookup, insert}
use mizan_client_sdks.Client.Errors.{error_type, find_type}
use mizan_client_sdks.Client.Errors.Codes.{wire, code_of}
use mizan_client_sdks.Client.Paths.{utf8, hex, percent, is_unreserved, quote, business_path}
use mizan_client_sdks.Client.Http.{
  truthy, class_of, dict_from, find_header, read_error, read_payload, read_reply,
}
use mizan_client_sdks.Client.Retry.{
  choose_key, update, request_headers, backoff, request_at, pause, conclude, attempts, request,
  perform,
}
use mizan_client_sdks.Client.Commands.{
  get_ledger, get_ledger_from, init, get_catalog, activate_subscription,
  validate_payment_event_request, get_entitlement, check_eligibility, consume, get_billing_summary,
}
use mizan_client_sdks.Examples.Export.{
  count_items, size_of, at_most, read_data, turn_page, turn, follow, export_from, export_ledger,
}
use mizan_client_sdks.Examples.Funding.{fund_built, maybe_fund_provider, required_env}
use mizan_client_sdks.Client.Consume.{
  consume_conversation_24h, consume_outbound_delivered_message, consume_ai_assist_action,
  consume_ai_assist_action_over_allowance, consume_voice_ai_started_minute,
  consume_ai_reply_handling, consume_whatsapp_meta_marketing_message,
  consume_telephony_voice_minute, consume_inbound_voice_minute, consume_other_provider_charge,
}
use mizan_client_sdks.Examples.Flow.{◌>>=◌, run, ensure, at_key, as_dict}
use mizan_client_sdks.Examples.Lifecycle.{
  activation_request, activate, fund, check, consume_once, report, lifecycle,
}
use mizan_client_sdks.Vocabulary.Usage.{channel_wire, feature_code_wire}
use mizan_client_sdks.Vocabulary.Commerce.{
  plan_id_wire, billing_term_wire, payment_status_wire, currency_wire,
}
use mizan_client_sdks.Vocabulary.Capabilities.{capability_wire}
use mizan_client_sdks.Python.Value.{bool, arr, obj, nil, Fields, end, field}
use mizan_client_sdks.Python.Runtime.{Python, loaded}
use mizan_client_sdks.Base.Int.{pos}
use mizan_client_sdks.Examples.Flow.{done}
use mizan_client_sdks.Tests.Interpreter.{ascii}

-- what a run of a script opens
scripts : Unit {0}
unfolding get put size contains in_set replace_z lstrip rstrip strip rstrip_slash digits_value
    int_text digit show_onto show show_int str_of is_bounded is_blank all_decimal integer_match
    before_point after_point fraction_match ljust event_time event quantity whole_count integer
    required_metadata_string payment_event all_keys check_channel check_actor is_null_or_bounded
    check_bounded check_original_amount is_short check_attributes check_attribute_map
    validate_metadata provider_metadata is_currency put_fx_rule count_usage other_provider_charge
    conversation_24h outbound_delivered_message ai_assist_action_over_allowance ai_assist_action
    ai_reply_handling voice_ai_started_minute whatsapp_meta_marketing_message telephony_voice_minute
    inbound_voice_minute lookup insert error_type find_type wire code_of utf8 hex percent
    is_unreserved quote business_path truthy class_of dict_from find_header read_error read_payload
    read_reply choose_key update request_headers backoff request_at pause conclude attempts request
    perform requests_of get_ledger init get_catalog activate_subscription
    validate_payment_event_request get_entitlement check_eligibility consume get_billing_summary
    get_ledger_from count_items size_of at_most read_data turn_page turn follow export_from
    export_ledger fund_built maybe_fund_provider required_env consume_conversation_24h
    consume_outbound_delivered_message consume_ai_assist_action
    consume_ai_assist_action_over_allowance consume_voice_ai_started_minute
    consume_ai_reply_handling consume_whatsapp_meta_marketing_message consume_telephony_voice_minute
    consume_inbound_voice_minute consume_other_provider_charge ◌>>=◌ run ensure at_key as_dict
    activation_request activate fund check consume_once consume_twice report lifecycle main caught
    channel_wire feature_code_wire plan_id_wire billing_term_wire payment_status_wire currency_wire
    capability_wire consume_every_feature mizan_client_sdks.Python.Text.length
scripts = tt

abbrev client : MizanClient
client = record {
  base_url = "https://api.example";
  token = "t";
  business_id = some "b1";
  max_attempts = 3;
}

abbrev answering : Environment
answering = record {
  new_key = "generated";
  correlation_id = "r1";
  now = λ attempt. "2026-01-01T00:00:00Z";
  reply = λ attempt. replied 200 [] (123 ∷ []);
}

abbrev calls : Calls
calls = record {
  catalog = answering;
  activation = answering;
  funding = answering;
  entitlement = answering;
  eligibility = answering;
  consumption = answering;
  replay = answering;
  summary = answering;
  ledger = λ n after. answering;
}

abbrev variables : String → Option String
variables name =
    if name == "MIZAN_BASE_URL"
    then some "https://api.example"
    else if name == "MIZAN_API_TOKEN"
    then some "t"
    else if name == "MIZAN_BUSINESS_ID"
    then some "b1"
    else if name == "MIZAN_ACTIVATION_PAID_TOTAL_MINOR"
    then some "5000"
    else none

abbrev split : String → SplitUrl
split url = record { scheme = "https"; netloc = "api.example"; query = ""; fragment = "" }

abbrev same_value : Value → Value → Bool
same_value a b = true

-- the data of a reply that every call of the lifecycle can read
abbrev full_data : Fields
full_data = field "subscription_id" (str "s1") (
    field "current_period_start" (str "2026-01-01T00:00:00Z") (
      field "current_period_end" (str "2026-02-01T00:00:00Z") (
        field "included_unit_millis_granted" (str "1000") (
          field "eligible" (bool true) (
            field "balances"
              (obj (
                field "azeer_unit_millis" (str "0") (field "provider_balance_minor" (str "0") end)))
              (field "entries" (arr nil) end))))))

-- the interpreter that reads every reply as that data
abbrev serving : Python
serving = record ascii {
  loads_utf8 =
      λ raw. loaded (obj (field "catalog_version" (str "v1") (field "data" (obj full_data) end)));
}

-- the lifecycle runs to its end, with eight requests
whole_run : (main serving same_value split variables calls 3).0 ≡ done (0, int (pos 0))
unfolding scripts
whole_run = refl

eight_requests : length (requests_of (main serving same_value split variables calls 3).1) ≡ 8
unfolding scripts
eight_requests = refl

nine_requests :
    length (
      requests_of
        (consume_every_feature ascii (λ n. answering) client "b1" "2026-01-01T00:00:00Z").1)
    ≡ 9
unfolding scripts
nine_requests = refl

main-Replayable_example :
    Every
      (Replayable serving "b1" "checkout-001")
      (requests_of (main serving same_value split variables calls 3).1)
main-Replayable_example = main-Replayable serving same_value split variables calls 3

consume_twice-Message_example :
    Every (Message ascii client "b1" "checkout-001" (str "2026-01-01T00:00:00Z")) (
      requests_of
        (consume_twice ascii same_value variables calls client "b1" "checkout-001"
          (str "2026-01-01T00:00:00Z")).1)
consume_twice-Message_example =
    consume_twice-Message ascii client "b1" "checkout-001" (str "2026-01-01T00:00:00Z") same_value
      variables calls (omega arith) (omega arith)

consume_every_feature-Consumed_example : Every (Consumed ascii "2026-01-01T00:00:00Z") (
    requests_of (consume_every_feature ascii (λ n. answering) client "b1" "2026-01-01T00:00:00Z").1)
consume_every_feature-Consumed_example =
    consume_every_feature-Consumed ascii client "b1" "2026-01-01T00:00:00Z" (omega arith)
      (omega arith) (λ n. answering)
