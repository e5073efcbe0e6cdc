-- ===== src/Models/Consumption.antt =====
-- The usage request types of models.py.
use mathlib.Core.List.{[], ◌∷◌}
use mizan_client_sdks.Models.Shape.{
  Kind, Shape, text, literal, either, list_of, typed, closed, required, optional, extend,
}
use mizan_client_sdks.Vocabulary.Members.{values}
use mizan_client_sdks.Vocabulary.Usage.{feature_code_enum}
use mizan_client_sdks.Models.Metadata.{
  conversation_usage_metadata_shape, pass_through_provider_usage_metadata_shape,
  provider_usage_metadata_shape, usage_metadata_shape,
}
use mizan_client_sdks.Models.Payments.{exact_amount}

-- `ChargeInput`
unfoldable pub charge_input_shape : Shape
charge_input_shape = optional "quantity" exact_amount (
    optional "duration_seconds" exact_amount (
      optional "provider_amount_minor" exact_amount
        (optional "metadata" (typed usage_metadata_shape) closed)))

-- `ConsumptionComponent`
unfoldable pub consumption_component_shape : Shape
consumption_component_shape =
    extend charge_input_shape (required "feature_code" (literal (values feature_code_enum)) closed)

-- `_UsageEventRequired`
unfoldable pub usage_event_required_shape : Shape
usage_event_required_shape = required "source_event_id" text (required "occurred_at" text closed)

-- `_QuantityOptional`
unfoldable pub quantity_optional_shape : Shape
quantity_optional_shape = optional "quantity" exact_amount closed

-- `_CountConsumptionOptional`
unfoldable pub count_consumption_optional_shape : Shape
count_consumption_optional_shape =
    extend quantity_optional_shape (optional "metadata" (typed usage_metadata_shape) closed)

-- `Conversation24HConsumptionRequest`
unfoldable pub conversation_24h_consumption_request_shape : Shape
conversation_24h_consumption_request_shape = extend usage_event_required_shape (
    extend quantity_optional_shape (
      required "feature_code" (literal ("conversation_24h" ∷ []))
        (required "metadata" (typed conversation_usage_metadata_shape) closed)))

-- `OutboundDeliveredMessageConsumptionRequest`
unfoldable pub outbound_delivered_message_consumption_request_shape : Shape
outbound_delivered_message_consumption_request_shape = extend usage_event_required_shape (
    extend count_consumption_optional_shape
      (required "feature_code" (literal ("outbound_delivered_message" ∷ [])) closed))

-- `AIAssistActionConsumptionRequest`
unfoldable pub ai_assist_action_consumption_request_shape : Shape
ai_assist_action_consumption_request_shape = extend usage_event_required_shape (
    extend count_consumption_optional_shape
      (required "feature_code" (literal ("ai_assist_action_over_allowance" ∷ [])) closed))

-- `AIAssistActionOverAllowanceConsumptionRequest`
abbrev pub ai_assist_action_over_allowance_consumption_request_shape : Shape
ai_assist_action_over_allowance_consumption_request_shape =
    ai_assist_action_consumption_request_shape

-- `AIReplyHandlingConsumptionRequest`
unfoldable pub ai_reply_handling_consumption_request_shape : Shape
ai_reply_handling_consumption_request_shape = extend usage_event_required_shape (
    extend count_consumption_optional_shape
      (required "feature_code" (literal ("ai_reply_handling" ∷ [])) closed))

-- `_StartedMinuteOptional`
unfoldable pub started_minute_optional_shape : Shape
started_minute_optional_shape = optional "metadata" (typed usage_metadata_shape) closed

-- `VoiceAIStartedMinuteConsumptionRequest`
unfoldable pub voice_ai_started_minute_consumption_request_shape : Shape
voice_ai_started_minute_consumption_request_shape = extend usage_event_required_shape (
    extend started_minute_optional_shape (
      required "feature_code" (literal ("voice_ai_started_minute" ∷ []))
        (required "duration_seconds" exact_amount closed)))

-- `_ProviderQuantityOptional`
unfoldable pub provider_quantity_optional_shape : Shape
provider_quantity_optional_shape = optional "quantity" exact_amount closed

-- `WhatsAppMetaMarketingMessageConsumptionRequest`
unfoldable pub whatsapp_meta_marketing_message_consumption_request_shape : Shape
whatsapp_meta_marketing_message_consumption_request_shape = extend usage_event_required_shape (
    extend provider_quantity_optional_shape (
      required "feature_code" (literal ("whatsapp_meta_marketing_msg" ∷ []))
        (required "metadata" (typed provider_usage_metadata_shape) closed)))

-- `TelephonyVoiceMinuteConsumptionRequest`
unfoldable pub telephony_voice_minute_consumption_request_shape : Shape
telephony_voice_minute_consumption_request_shape = extend usage_event_required_shape (
    extend provider_quantity_optional_shape (
      required "feature_code" (literal ("telephony_voice_minute" ∷ []))
        (required "metadata" (typed provider_usage_metadata_shape) closed)))

-- `InboundVoiceMinuteConsumptionRequest`
unfoldable pub inbound_voice_minute_consumption_request_shape : Shape
inbound_voice_minute_consumption_request_shape = extend usage_event_required_shape (
    extend provider_quantity_optional_shape (
      required "feature_code" (literal ("inbound_voice_minute" ∷ []))
        (required "metadata" (typed provider_usage_metadata_shape) closed)))

-- `OtherProviderChargeConsumptionRequest`
unfoldable pub other_provider_charge_consumption_request_shape : Shape
other_provider_charge_consumption_request_shape = extend usage_event_required_shape (
    required "feature_code" (literal ("other_provider_charge" ∷ [])) (
      required "provider_amount_minor" exact_amount
        (required "metadata" (typed pass_through_provider_usage_metadata_shape) closed)))

-- `_MultiFeatureOptional`
unfoldable pub multi_feature_optional_shape : Shape
multi_feature_optional_shape = optional "metadata" (typed usage_metadata_shape) closed

-- `MultiFeatureConsumptionRequest`
unfoldable pub multi_feature_consumption_request_shape : Shape
multi_feature_consumption_request_shape = extend usage_event_required_shape (
    extend multi_feature_optional_shape
      (required "components" (list_of (typed consumption_component_shape)) closed))

-- `ConsumptionRequest`
unfoldable pub consumption_request_kind : Kind
consumption_request_kind =
    either
      (either
        (either
          (either
            (either
              (either
                (either
                  (either
                    (either (typed conversation_24h_consumption_request_shape)
                      (typed outbound_delivered_message_consumption_request_shape))
                    (typed ai_assist_action_consumption_request_shape))
                  (typed ai_reply_handling_consumption_request_shape))
                (typed voice_ai_started_minute_consumption_request_shape))
              (typed whatsapp_meta_marketing_message_consumption_request_shape))
            (typed telephony_voice_minute_consumption_request_shape))
          (typed inbound_voice_minute_consumption_request_shape))
        (typed other_provider_charge_consumption_request_shape))
      (typed multi_feature_consumption_request_shape)

-- `EligibilityRequest`
unfoldable pub eligibility_request_shape : Shape
eligibility_request_shape =
    extend charge_input_shape
      (optional "components" (list_of (typed consumption_component_shape)) closed)
