-- ===== src/Examples/Lifecycle/Typed.antt =====
-- The types that the lifecycle example annotates its request bodies with.
use mizan_client_sdks.Base.{String, ◌≡◌, refl, true}
use mizan_client_sdks.Python.Value.{str, get, contains}
use mizan_client_sdks.Builders.Metadata.{all_keys}
use mizan_client_sdks.Vocabulary.Members.{values}
use mizan_client_sdks.Vocabulary.Commerce.{
  plan_id_wire, billing_term_wire, payment_status_wire, currency_wire,
}
use mizan_client_sdks.Vocabulary.Usage.{channel_wire}
use mizan_client_sdks.Models.Shape.{has_kind, has_entries, has_shape, keys, extend}
use mizan_client_sdks.Models.Payments.{activation_optional_shape, activation_request_shape}
use mizan_client_sdks.Models.Metadata.{
  usage_metadata_shape, application_usage_metadata_shape, optional_conversation_attribution_shape,
  optional_provider_attribution_shape, optional_provider_evidence_shape,
}
use mizan_client_sdks.Models.Consumption.{charge_input_shape, eligibility_request_shape}
use mizan_client_sdks.Examples.Lifecycle.{activation_request, usage_metadata, eligibility_request}

-- The activation, with a catalog version that is a text, is an `ActivationRequest`.
activation_request-has_shape :
    (catalog_version timezone run_id paid_total : String)
    → has_shape activation_request_shape
        (activation_request (str catalog_version) timezone run_id paid_total)
      ≡ true
unfolding activation_request activation_request_shape activation_optional_shape extend keys has_kind
    has_entries all_keys get contains plan_id_wire billing_term_wire payment_status_wire
    currency_wire values
activation_request-has_shape catalog_version timezone run_id paid_total = refl

-- The metadata of the run is `UsageMetadata`, and the eligibility check an `EligibilityRequest`.
eligibility_request-has_shape :
    (run_id : String)
    → (has_shape usage_metadata_shape (usage_metadata run_id) ≡ true)
      × (has_shape eligibility_request_shape (eligibility_request run_id) ≡ true)
unfolding usage_metadata_shape application_usage_metadata_shape
    optional_conversation_attribution_shape optional_provider_attribution_shape
    optional_provider_evidence_shape charge_input_shape eligibility_request_shape extend keys
    has_kind has_entries all_keys get contains channel_wire values
eligibility_request-has_shape run_id = (refl, refl)
