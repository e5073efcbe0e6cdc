-- ===== src/Vocabulary/Capabilities.antt =====
-- The entitlement keys of enums.py.
use mathlib.Core.List.{[], ◌∷◌}
use mizan_client_sdks.Base.{String, refl}
use mizan_client_sdks.Vocabulary.Members.{StrEnum, find, IsClosed}

-- `Capability`
pub data Capability : Type 0 where
  whatsapp_number_1 instagram_account_1 website_widget : Capability
  voip ivr call_recording_30d : Capability
  call_monitoring ai_call_summary unified_inbox : Capability
  mobile_app ai_agent_builder basic_analytics : Capability
  basic_broadcasts basic_contacts quick_replies : Capability
  welcome_working_hours mentions private_notes : Capability
  ecommerce_store_1 ecommerce_app webhooks_api : Capability
  notification_log azeer_support security_baseline : Capability
  two_factor_authentication byol_sip custom_attributes : Capability
  advanced_contacts custom_inbox media_library : Capability
  closing_reasons bulk_history csat : Capability
  advanced_analytics whatsapp_flow segmented_campaigns : Capability
  segmented_routing whatsapp_catalog multi_store : Capability
  advanced_ecommerce masking advanced_ai_integrations : Capability
  whatsapp_flow_api custom_broadcast_logic external_attribute_sync : Capability
  advanced_attribute_types custom_automation_rules rbac_audit : Capability
  white_label local_hosting : Capability

unfoldable pub capability_wire : Capability → String
capability_wire Capability.whatsapp_number_1 = "whatsapp_number_1"
capability_wire Capability.instagram_account_1 = "instagram_account_1"
capability_wire Capability.website_widget = "website_widget"
capability_wire Capability.voip = "voip"
capability_wire Capability.ivr = "ivr"
capability_wire Capability.call_recording_30d = "call_recording_30d"
capability_wire Capability.call_monitoring = "call_monitoring"
capability_wire Capability.ai_call_summary = "ai_call_summary"
capability_wire Capability.unified_inbox = "unified_inbox"
capability_wire Capability.mobile_app = "mobile_app"
capability_wire Capability.ai_agent_builder = "ai_agent_builder"
capability_wire Capability.basic_analytics = "basic_analytics"
capability_wire Capability.basic_broadcasts = "basic_broadcasts"
capability_wire Capability.basic_contacts = "basic_contacts"
capability_wire Capability.quick_replies = "quick_replies"
capability_wire Capability.welcome_working_hours = "welcome_working_hours"
capability_wire Capability.mentions = "mentions"
capability_wire Capability.private_notes = "private_notes"
capability_wire Capability.ecommerce_store_1 = "ecommerce_store_1"
capability_wire Capability.ecommerce_app = "ecommerce_app"
capability_wire Capability.webhooks_api = "webhooks_api"
capability_wire Capability.notification_log = "notification_log"
capability_wire Capability.azeer_support = "azeer_support"
capability_wire Capability.security_baseline = "security_baseline"
capability_wire Capability.two_factor_authentication = "two_factor_authentication"
capability_wire Capability.byol_sip = "byol_sip"
capability_wire Capability.custom_attributes = "custom_attributes"
capability_wire Capability.advanced_contacts = "advanced_contacts"
capability_wire Capability.custom_inbox = "custom_inbox"
capability_wire Capability.media_library = "media_library"
capability_wire Capability.closing_reasons = "closing_reasons"
capability_wire Capability.bulk_history = "bulk_history"
capability_wire Capability.csat = "csat"
capability_wire Capability.advanced_analytics = "advanced_analytics"
capability_wire Capability.whatsapp_flow = "whatsapp_flow"
capability_wire Capability.segmented_campaigns = "segmented_campaigns"
capability_wire Capability.segmented_routing = "segmented_routing"
capability_wire Capability.whatsapp_catalog = "whatsapp_catalog"
capability_wire Capability.multi_store = "multi_store"
capability_wire Capability.advanced_ecommerce = "advanced_ecommerce"
capability_wire Capability.masking = "masking"
capability_wire Capability.advanced_ai_integrations = "advanced_ai_integrations"
capability_wire Capability.whatsapp_flow_api = "whatsapp_flow_api"
capability_wire Capability.custom_broadcast_logic = "custom_broadcast_logic"
capability_wire Capability.external_attribute_sync = "external_attribute_sync"
capability_wire Capability.advanced_attribute_types = "advanced_attribute_types"
capability_wire Capability.custom_automation_rules = "custom_automation_rules"
capability_wire Capability.rbac_audit = "rbac_audit"
capability_wire Capability.white_label = "white_label"
capability_wire Capability.local_hosting = "local_hosting"

abbrev pub capability_enum : StrEnum Capability
capability_enum = record {
  members =
      Capability.whatsapp_number_1 ∷ Capability.instagram_account_1 ∷ Capability.website_widget
      ∷ Capability.voip ∷ Capability.ivr ∷ Capability.call_recording_30d
      ∷ Capability.call_monitoring ∷ Capability.ai_call_summary ∷ Capability.unified_inbox
      ∷ Capability.mobile_app ∷ Capability.ai_agent_builder ∷ Capability.basic_analytics
      ∷ Capability.basic_broadcasts ∷ Capability.basic_contacts ∷ Capability.quick_replies
      ∷ Capability.welcome_working_hours ∷ Capability.mentions ∷ Capability.private_notes
      ∷ Capability.ecommerce_store_1 ∷ Capability.ecommerce_app ∷ Capability.webhooks_api
      ∷ Capability.notification_log ∷ Capability.azeer_support ∷ Capability.security_baseline
      ∷ Capability.two_factor_authentication ∷ Capability.byol_sip ∷ Capability.custom_attributes
      ∷ Capability.advanced_contacts ∷ Capability.custom_inbox ∷ Capability.media_library
      ∷ Capability.closing_reasons ∷ Capability.bulk_history ∷ Capability.csat
      ∷ Capability.advanced_analytics ∷ Capability.whatsapp_flow ∷ Capability.segmented_campaigns
      ∷ Capability.segmented_routing ∷ Capability.whatsapp_catalog ∷ Capability.multi_store
      ∷ Capability.advanced_ecommerce ∷ Capability.masking ∷ Capability.advanced_ai_integrations
      ∷ Capability.whatsapp_flow_api ∷ Capability.custom_broadcast_logic
      ∷ Capability.external_attribute_sync ∷ Capability.advanced_attribute_types
      ∷ Capability.custom_automation_rules ∷ Capability.rbac_audit ∷ Capability.white_label
      ∷ Capability.local_hosting ∷ [];
  wire = capability_wire;
}

pub capability_enum-IsClosed : IsClosed capability_enum
unfolding find capability_wire
capability_enum-IsClosed Capability.whatsapp_number_1 = refl
capability_enum-IsClosed Capability.instagram_account_1 = refl
capability_enum-IsClosed Capability.website_widget = refl
capability_enum-IsClosed Capability.voip = refl
capability_enum-IsClosed Capability.ivr = refl
capability_enum-IsClosed Capability.call_recording_30d = refl
capability_enum-IsClosed Capability.call_monitoring = refl
capability_enum-IsClosed Capability.ai_call_summary = refl
capability_enum-IsClosed Capability.unified_inbox = refl
capability_enum-IsClosed Capability.mobile_app = refl
capability_enum-IsClosed Capability.ai_agent_builder = refl
capability_enum-IsClosed Capability.basic_analytics = refl
capability_enum-IsClosed Capability.basic_broadcasts = refl
capability_enum-IsClosed Capability.basic_contacts = refl
capability_enum-IsClosed Capability.quick_replies = refl
capability_enum-IsClosed Capability.welcome_working_hours = refl
capability_enum-IsClosed Capability.mentions = refl
capability_enum-IsClosed Capability.private_notes = refl
capability_enum-IsClosed Capability.ecommerce_store_1 = refl
capability_enum-IsClosed Capability.ecommerce_app = refl
capability_enum-IsClosed Capability.webhooks_api = refl
capability_enum-IsClosed Capability.notification_log = refl
capability_enum-IsClosed Capability.azeer_support = refl
capability_enum-IsClosed Capability.security_baseline = refl
capability_enum-IsClosed Capability.two_factor_authentication = refl
capability_enum-IsClosed Capability.byol_sip = refl
capability_enum-IsClosed Capability.custom_attributes = refl
capability_enum-IsClosed Capability.advanced_contacts = refl
capability_enum-IsClosed Capability.custom_inbox = refl
capability_enum-IsClosed Capability.media_library = refl
capability_enum-IsClosed Capability.closing_reasons = refl
capability_enum-IsClosed Capability.bulk_history = refl
capability_enum-IsClosed Capability.csat = refl
capability_enum-IsClosed Capability.advanced_analytics = refl
capability_enum-IsClosed Capability.whatsapp_flow = refl
capability_enum-IsClosed Capability.segmented_campaigns = refl
capability_enum-IsClosed Capability.segmented_routing = refl
capability_enum-IsClosed Capability.whatsapp_catalog = refl
capability_enum-IsClosed Capability.multi_store = refl
capability_enum-IsClosed Capability.advanced_ecommerce = refl
capability_enum-IsClosed Capability.masking = refl
capability_enum-IsClosed Capability.advanced_ai_integrations = refl
capability_enum-IsClosed Capability.whatsapp_flow_api = refl
capability_enum-IsClosed Capability.custom_broadcast_logic = refl
capability_enum-IsClosed Capability.external_attribute_sync = refl
capability_enum-IsClosed Capability.advanced_attribute_types = refl
capability_enum-IsClosed Capability.custom_automation_rules = refl
capability_enum-IsClosed Capability.rbac_audit = refl
capability_enum-IsClosed Capability.white_label = refl
capability_enum-IsClosed Capability.local_hosting = refl
