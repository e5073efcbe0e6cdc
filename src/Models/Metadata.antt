-- ===== src/Models/Metadata.antt =====
-- The metadata types of models.py.
use mizan_client_sdks.Models.Shape.{
  Shape, text, integer, boolean, number, nothing, literal, either, dict_of, closed, required,
  optional, extend,
}
use mizan_client_sdks.Vocabulary.Members.{values}
use mizan_client_sdks.Vocabulary.Usage.{channel_enum}
use mizan_client_sdks.Models.Payments.{exact_amount}

-- `_ApplicationUsageMetadata`
unfoldable pub application_usage_metadata_shape : Shape
application_usage_metadata_shape = optional "actor" (dict_of text) (
    optional "channel_account_id" text (
      optional "campaign_id" text (
        optional "raw_quantity" text (
          optional "billable_quantity" text (
            optional "attributes"
              (dict_of (either (either (either (either text integer) number) boolean) nothing))
              closed)))))

-- `_OptionalConversationAttribution`
unfoldable pub optional_conversation_attribution_shape : Shape
optional_conversation_attribution_shape =
    optional "channel" (literal (values channel_enum)) (optional "conversation_id" text closed)

-- `_RequiredConversationAttribution`
unfoldable pub required_conversation_attribution_shape : Shape
required_conversation_attribution_shape =
    required "channel" (literal (values channel_enum)) (required "conversation_id" text closed)

-- `_OptionalProviderAttribution`
unfoldable pub optional_provider_attribution_shape : Shape
optional_provider_attribution_shape =
    optional "provider" text (optional "provider_event_id" text closed)

-- `_RequiredProviderAttribution`
unfoldable pub required_provider_attribution_shape : Shape
required_provider_attribution_shape =
    required "provider" text (required "provider_event_id" text closed)

-- `_OptionalProviderEvidence`
unfoldable pub optional_provider_evidence_shape : Shape
optional_provider_evidence_shape = optional "provider_invoice_id" text (
    optional "original_amount_minor" exact_amount (
      optional "original_currency" text
        (optional "fx_rule" text (optional "tariff_version" text closed))))

-- `_RequiredPassThroughEvidence`
unfoldable pub required_pass_through_evidence_shape : Shape
required_pass_through_evidence_shape = required "provider_invoice_id" text (
    required "original_amount_minor" exact_amount
      (required "original_currency" text (required "tariff_version" text closed)))

-- `_OptionalFXEvidence`
unfoldable pub optional_fx_evidence_shape : Shape
optional_fx_evidence_shape = optional "fx_rule" text closed

-- `UsageMetadata`
unfoldable pub usage_metadata_shape : Shape
usage_metadata_shape = extend application_usage_metadata_shape (
    extend optional_conversation_attribution_shape
      (extend optional_provider_attribution_shape (optional_provider_evidence_shape)))

-- `ProviderUsageMetadata`
unfoldable pub provider_usage_metadata_shape : Shape
provider_usage_metadata_shape = extend application_usage_metadata_shape (
    extend optional_conversation_attribution_shape
      (extend required_provider_attribution_shape (optional_provider_evidence_shape)))

-- `ConversationUsageMetadata`
unfoldable pub conversation_usage_metadata_shape : Shape
conversation_usage_metadata_shape = extend application_usage_metadata_shape (
    extend required_conversation_attribution_shape
      (extend optional_provider_attribution_shape (optional_provider_evidence_shape)))

-- `PassThroughProviderUsageMetadata`
unfoldable pub pass_through_provider_usage_metadata_shape : Shape
pass_through_provider_usage_metadata_shape = extend application_usage_metadata_shape (
    extend optional_conversation_attribution_shape (
      extend required_provider_attribution_shape
        (extend required_pass_through_evidence_shape (optional_fx_evidence_shape))))
