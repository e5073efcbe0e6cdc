-- ===== src/Builders/Usage.antt =====
-- The usage builders of builders.py.
pub mod Built
pub mod Charge
use Prim.Native.String.{[], ◌∷◌}
use mizan_client_sdks.Base.{
  Char, code, String, Bool, true, false, not, ◌&&◌, ◌||◌, Option, none, some, leb, ◌==◌,
  if◌then◌else◌,
}
use mizan_client_sdks.Python.Value.{
  Value, null, str, obj, Fields, end, field, value_error, Result, ok, ◌>>=◌, ◌>>◌, require, put,
  contains,
}
use mizan_client_sdks.Python.Runtime.{Python}
use mizan_client_sdks.Python.Numbers.Print.{str_of}
use mizan_client_sdks.Builders.Facts.{
  is_blank, event, quantity, whole_count, integer, required_metadata_string,
}
use mizan_client_sdks.Builders.Metadata.{channels, validate_metadata, dict_of, provider_metadata}

-- `request["metadata"] = dict(metadata)` if it is not None
abbrev pub with_metadata : Option Fields → Fields
with_metadata none = end
with_metadata (some metadata) = field "metadata" (obj metadata) end

unfoldable pub count_usage :
    Python → String → Value → Value → Value → Option Fields → Bool → Result Fields
count_usage py feature_code source_event_id occurred_at count metadata is_whole = do
  event py source_event_id occurred_at
  (if is_whole then whole_count py count else quantity py count)
  validate_metadata py metadata
  ok (
      field "source_event_id" source_event_id (
        field "occurred_at" occurred_at (
          field "feature_code" (str feature_code)
            (field "quantity" count (with_metadata metadata)))))

unfoldable pub conversation_24h :
    Python → Value → Value → Value → Value → Option Fields → Result Fields
conversation_24h py source_event_id occurred_at conversation_id channel metadata = do
  validate_metadata py metadata
  require (contains channels (str_of py channel)) (value_error "channel is not a supported channel")
  conversation ← required_metadata_string py conversation_id "conversation_id"
  count_usage py "conversation_24h" source_event_id occurred_at (str "1")
      (some (
        put "channel" (str (str_of py channel))
          (put "conversation_id" (str conversation) (dict_of metadata))))
      true

unfoldable pub voice_ai_started_minute :
    Python → Value → Value → Value → Option Fields → Result Fields
voice_ai_started_minute py source_event_id occurred_at duration_seconds metadata = do
  event py source_event_id occurred_at
  integer py duration_seconds "duration_seconds" false
  validate_metadata py metadata
  ok (
      field "source_event_id" source_event_id (
        field "occurred_at" occurred_at (
          field "feature_code" (str "voice_ai_started_minute")
            (field "duration_seconds" duration_seconds (with_metadata metadata)))))

unfoldable pub outbound_delivered_message :
    Python → Value → Value → Value → Option Fields → Result Fields
outbound_delivered_message py source_event_id occurred_at count metadata =
    count_usage py "outbound_delivered_message" source_event_id occurred_at count metadata true

unfoldable pub ai_assist_action_over_allowance :
    Python → Value → Value → Value → Option Fields → Result Fields
ai_assist_action_over_allowance py source_event_id occurred_at count metadata =
    count_usage py "ai_assist_action_over_allowance" source_event_id occurred_at count metadata true

unfoldable pub ai_assist_action : Python → Value → Value → Value → Option Fields → Result Fields
ai_assist_action = ai_assist_action_over_allowance

unfoldable pub ai_reply_handling : Python → Value → Value → Value → Option Fields → Result Fields
ai_reply_handling py source_event_id occurred_at count metadata =
    count_usage py "ai_reply_handling" source_event_id occurred_at count metadata true

unfoldable pub whatsapp_meta_marketing_message :
    Python → Value → Value → Value → Value → Option Fields → Result Fields
whatsapp_meta_marketing_message py source_event_id occurred_at provider_event_id count metadata = do
  attribution ← provider_metadata py (str "Meta") provider_event_id metadata
  count_usage py "whatsapp_meta_marketing_msg" source_event_id occurred_at count (some attribution)
      true

unfoldable pub telephony_voice_minute :
    Python → Value → Value → Value → Value → Value → Option Fields → Result Fields
telephony_voice_minute py source_event_id occurred_at provider provider_event_id billable_minutes
      metadata =
    do
      attribution ← provider_metadata py provider provider_event_id metadata
      count_usage py "telephony_voice_minute" source_event_id occurred_at billable_minutes
          (some attribution) false

unfoldable pub inbound_voice_minute :
    Python → Value → Value → Value → Value → Value → Option Fields → Result Fields
inbound_voice_minute py source_event_id occurred_at provider provider_event_id billable_minutes
      metadata =
    do
      attribution ← provider_metadata py provider provider_event_id metadata
      count_usage py "inbound_voice_minute" source_event_id occurred_at billable_minutes
          (some attribution) false

is_upper : Char → Bool
is_upper c = leb b'A' (code c) && leb (code c) b'Z'

-- re.fullmatch(r"[A-Z]{3}", s)
unfoldable pub is_currency : String → Bool
unfolding is_upper
is_currency (a ∷ (b ∷ (c ∷ []))) = is_upper a && is_upper b && is_upper c
is_currency _ = false

-- a != b, for two arguments that are known to be texts
abbrev pub same_text : Value → Value → Bool
same_text (str s) (str t) = s == t
same_text _ _ = false

-- evidence["fx_rule"] = … if fx_rule is not None
unfoldable pub put_fx_rule : Python → Value → Fields → Result Fields
put_fx_rule py null evidence = ok evidence
put_fx_rule py fx_rule evidence = do
  rule ← required_metadata_string py fx_rule "fx_rule"
  ok (put "fx_rule" (str rule) evidence)

unfoldable pub other_provider_charge :
    Python
    → Value
    → Value
    → Value
    → Value
    → Value
    → Value
    → Value
    → Value
    → Value
    → Value
    → Option Fields
    → Result Fields
other_provider_charge py source_event_id occurred_at provider provider_event_id
      provider_amount_minor provider_invoice_id original_amount_minor original_currency
      tariff_version fx_rule metadata =
    do
      event py source_event_id occurred_at
      integer py provider_amount_minor "provider_amount_minor" true
      integer py original_amount_minor "original_amount_minor" true
      trimmed ← required_metadata_string py original_currency "original_currency"
      let currency = py.upper trimmed
      require (is_currency currency)
          (value_error "original_currency must be a three-letter ISO currency")
      require (not (currency == "SAR") || same_text original_amount_minor provider_amount_minor)
          (value_error "SAR provider_amount_minor must equal original_amount_minor")
      require ((currency == "SAR") || not (is_blank py fx_rule))
          (value_error "fx_rule is required when original_currency is not SAR")
      attribution ← provider_metadata py provider provider_event_id metadata
      invoice ← required_metadata_string py provider_invoice_id "provider_invoice_id"
      tariff ← required_metadata_string py tariff_version "tariff_version"
      evidence ← put_fx_rule py fx_rule (
          put "tariff_version" (str tariff) (
            put "original_currency" (str currency) (
              put "original_amount_minor" original_amount_minor
                (put "provider_invoice_id" (str invoice) attribution))))
      ok (
          field "source_event_id" source_event_id (
            field "occurred_at" occurred_at (
              field "feature_code" (str "other_provider_charge") (
                field "provider_amount_minor" provider_amount_minor
                  (field "metadata" (obj evidence) end)))))
