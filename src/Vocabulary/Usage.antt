-- ===== src/Vocabulary/Usage.antt =====
-- The vocabularies of channels, metered features and add-ons in enums.py.
use mathlib.Core.List.{[], ◌∷◌}
use mizan_client_sdks.Base.{String, refl}
use mizan_client_sdks.Vocabulary.Members.{StrEnum, find, IsClosed}

-- `Channel`
pub data Channel : Type 0 where
  whatsapp instagram facebook : Channel
  tiktok telephony webchat : Channel

unfoldable pub channel_wire : Channel → String
channel_wire Channel.whatsapp = "whatsapp"
channel_wire Channel.instagram = "instagram"
channel_wire Channel.facebook = "facebook"
channel_wire Channel.tiktok = "tiktok"
channel_wire Channel.telephony = "telephony"
channel_wire Channel.webchat = "webchat"

abbrev pub channel_enum : StrEnum Channel
channel_enum = record {
  members =
      Channel.whatsapp ∷ Channel.instagram ∷ Channel.facebook ∷ Channel.tiktok ∷ Channel.telephony
      ∷ Channel.webchat ∷ [];
  wire = channel_wire;
}

pub channel_enum-IsClosed : IsClosed channel_enum
unfolding find channel_wire
channel_enum-IsClosed Channel.whatsapp = refl
channel_enum-IsClosed Channel.instagram = refl
channel_enum-IsClosed Channel.facebook = refl
channel_enum-IsClosed Channel.tiktok = refl
channel_enum-IsClosed Channel.telephony = refl
channel_enum-IsClosed Channel.webchat = refl

-- `FeatureCode`
pub data FeatureCode : Type 0 where
  conversation_24h outbound_delivered_message ai_assist_action_over_allowance : FeatureCode
  voice_ai_started_minute ai_reply_handling whatsapp_meta_marketing_msg : FeatureCode
  telephony_voice_minute inbound_voice_minute other_provider_charge : FeatureCode

unfoldable pub feature_code_wire : FeatureCode → String
feature_code_wire FeatureCode.conversation_24h = "conversation_24h"
feature_code_wire FeatureCode.outbound_delivered_message = "outbound_delivered_message"
feature_code_wire FeatureCode.ai_assist_action_over_allowance = "ai_assist_action_over_allowance"
feature_code_wire FeatureCode.voice_ai_started_minute = "voice_ai_started_minute"
feature_code_wire FeatureCode.ai_reply_handling = "ai_reply_handling"
feature_code_wire FeatureCode.whatsapp_meta_marketing_msg = "whatsapp_meta_marketing_msg"
feature_code_wire FeatureCode.telephony_voice_minute = "telephony_voice_minute"
feature_code_wire FeatureCode.inbound_voice_minute = "inbound_voice_minute"
feature_code_wire FeatureCode.other_provider_charge = "other_provider_charge"

abbrev pub feature_code_enum : StrEnum FeatureCode
feature_code_enum = record {
  members =
      FeatureCode.conversation_24h ∷ FeatureCode.outbound_delivered_message
      ∷ FeatureCode.ai_assist_action_over_allowance ∷ FeatureCode.voice_ai_started_minute
      ∷ FeatureCode.ai_reply_handling ∷ FeatureCode.whatsapp_meta_marketing_msg
      ∷ FeatureCode.telephony_voice_minute ∷ FeatureCode.inbound_voice_minute
      ∷ FeatureCode.other_provider_charge ∷ [];
  wire = feature_code_wire;
}

pub feature_code_enum-IsClosed : IsClosed feature_code_enum
unfolding find feature_code_wire
feature_code_enum-IsClosed FeatureCode.conversation_24h = refl
feature_code_enum-IsClosed FeatureCode.outbound_delivered_message = refl
feature_code_enum-IsClosed FeatureCode.ai_assist_action_over_allowance = refl
feature_code_enum-IsClosed FeatureCode.voice_ai_started_minute = refl
feature_code_enum-IsClosed FeatureCode.ai_reply_handling = refl
feature_code_enum-IsClosed FeatureCode.whatsapp_meta_marketing_msg = refl
feature_code_enum-IsClosed FeatureCode.telephony_voice_minute = refl
feature_code_enum-IsClosed FeatureCode.inbound_voice_minute = refl
feature_code_enum-IsClosed FeatureCode.other_provider_charge = refl

-- `RecurringAddonCode`
pub data RecurringAddonCode : Type 0 where
  whatsapp_011_landline whatsapp_05_mobile concurrent_calls_5 : RecurringAddonCode
  concurrent_calls_10 concurrent_calls_20 auto_dialer : RecurringAddonCode
  csat_start instagram_additional_accounts whatsapp_9200 : RecurringAddonCode
  toll_free_800 international_number outbound_minute_bundle_500 : RecurringAddonCode
  outbound_minute_bundle_1000 voice_broadcast recording_retention_extended : RecurringAddonCode

unfoldable pub recurring_addon_code_wire : RecurringAddonCode → String
recurring_addon_code_wire RecurringAddonCode.whatsapp_011_landline = "whatsapp_011_landline"
recurring_addon_code_wire RecurringAddonCode.whatsapp_05_mobile = "whatsapp_05_mobile"
recurring_addon_code_wire RecurringAddonCode.concurrent_calls_5 = "concurrent_calls_5"
recurring_addon_code_wire RecurringAddonCode.concurrent_calls_10 = "concurrent_calls_10"
recurring_addon_code_wire RecurringAddonCode.concurrent_calls_20 = "concurrent_calls_20"
recurring_addon_code_wire RecurringAddonCode.auto_dialer = "auto_dialer"
recurring_addon_code_wire RecurringAddonCode.csat_start = "csat_start"
recurring_addon_code_wire RecurringAddonCode.instagram_additional_accounts =
    "instagram_additional_accounts"
recurring_addon_code_wire RecurringAddonCode.whatsapp_9200 = "whatsapp_9200"
recurring_addon_code_wire RecurringAddonCode.toll_free_800 = "toll_free_800"
recurring_addon_code_wire RecurringAddonCode.international_number = "international_number"
recurring_addon_code_wire RecurringAddonCode.outbound_minute_bundle_500 =
    "outbound_minute_bundle_500"
recurring_addon_code_wire RecurringAddonCode.outbound_minute_bundle_1000 =
    "outbound_minute_bundle_1000"
recurring_addon_code_wire RecurringAddonCode.voice_broadcast = "voice_broadcast"
recurring_addon_code_wire RecurringAddonCode.recording_retention_extended =
    "recording_retention_extended"

abbrev pub recurring_addon_code_enum : StrEnum RecurringAddonCode
recurring_addon_code_enum = record {
  members =
      RecurringAddonCode.whatsapp_011_landline ∷ RecurringAddonCode.whatsapp_05_mobile
      ∷ RecurringAddonCode.concurrent_calls_5 ∷ RecurringAddonCode.concurrent_calls_10
      ∷ RecurringAddonCode.concurrent_calls_20 ∷ RecurringAddonCode.auto_dialer
      ∷ RecurringAddonCode.csat_start ∷ RecurringAddonCode.instagram_additional_accounts
      ∷ RecurringAddonCode.whatsapp_9200 ∷ RecurringAddonCode.toll_free_800
      ∷ RecurringAddonCode.international_number ∷ RecurringAddonCode.outbound_minute_bundle_500
      ∷ RecurringAddonCode.outbound_minute_bundle_1000 ∷ RecurringAddonCode.voice_broadcast
      ∷ RecurringAddonCode.recording_retention_extended ∷ [];
  wire = recurring_addon_code_wire;
}

pub recurring_addon_code_enum-IsClosed : IsClosed recurring_addon_code_enum
unfolding find recurring_addon_code_wire
recurring_addon_code_enum-IsClosed RecurringAddonCode.whatsapp_011_landline = refl
recurring_addon_code_enum-IsClosed RecurringAddonCode.whatsapp_05_mobile = refl
recurring_addon_code_enum-IsClosed RecurringAddonCode.concurrent_calls_5 = refl
recurring_addon_code_enum-IsClosed RecurringAddonCode.concurrent_calls_10 = refl
recurring_addon_code_enum-IsClosed RecurringAddonCode.concurrent_calls_20 = refl
recurring_addon_code_enum-IsClosed RecurringAddonCode.auto_dialer = refl
recurring_addon_code_enum-IsClosed RecurringAddonCode.csat_start = refl
recurring_addon_code_enum-IsClosed RecurringAddonCode.instagram_additional_accounts = refl
recurring_addon_code_enum-IsClosed RecurringAddonCode.whatsapp_9200 = refl
recurring_addon_code_enum-IsClosed RecurringAddonCode.toll_free_800 = refl
recurring_addon_code_enum-IsClosed RecurringAddonCode.international_number = refl
recurring_addon_code_enum-IsClosed RecurringAddonCode.outbound_minute_bundle_500 = refl
recurring_addon_code_enum-IsClosed RecurringAddonCode.outbound_minute_bundle_1000 = refl
recurring_addon_code_enum-IsClosed RecurringAddonCode.voice_broadcast = refl
recurring_addon_code_enum-IsClosed RecurringAddonCode.recording_retention_extended = refl
