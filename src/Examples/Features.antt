-- ===== src/Examples/Features.antt =====
-- examples/consume_features.py: one consumption of each feature. Each call has an environment of its own.
pub mod Keys
use mizan_client_sdks.Base.{ℕ, String, Option, none, some}
use mizan_client_sdks.Python.Value.{str, Fields, end, field, null, Result}
use mizan_client_sdks.Python.Runtime.{Python}
use mizan_client_sdks.Vocabulary.Usage.{channel_wire, Channel}
use mizan_client_sdks.Builders.Usage.{conversation_24h}
use mizan_client_sdks.Client.Retry.{MizanClient, Environment}
use mizan_client_sdks.Client.Consume.{
  consume_conversation_24h, consume_outbound_delivered_message, consume_ai_assist_action,
  consume_voice_ai_started_minute, consume_ai_reply_handling,
  consume_whatsapp_meta_marketing_message, consume_telephony_voice_minute,
  consume_inbound_voice_minute, consume_other_provider_charge,
}
use mizan_client_sdks.Examples.Flow.{Flow, ◌>>=◌, ◌>>◌, finish, run}

unfoldable pub queueable_conversation : Python → String → String → String → Result Fields
queueable_conversation py source_event_id occurred_at conversation_id =
    conversation_24h py (str source_event_id) (str occurred_at) (str conversation_id)
      (str (channel_wire Channel.whatsapp)) none

-- the metadata of the outbound call
abbrev pub call_metadata : Fields
call_metadata = field "raw_quantity" (str "83") (field "billable_quantity" (str "1.5") end)

unfoldable pub consume_every_feature :
    Python → (ℕ → Environment) → MizanClient → String → String → Flow (Unit {0})
consume_every_feature py env client business_id occurred_at = do
  run py client (env 0) (
      consume_conversation_24h py client business_id (str "conversation-1") (str occurred_at)
        (str "conversation-1") (str (channel_wire Channel.whatsapp)) none
        (some "consume:conversation-1"))
  run py client (env 1) (
      consume_outbound_delivered_message py client business_id (str "message-1") (str occurred_at)
        (str "1") none (some "consume:message-1"))
  run py client (env 2) (
      consume_ai_assist_action py client business_id (str "assist-action-1") (str occurred_at)
        (str "1") none (some "consume:assist-action-1"))
  run py client (env 3) (
      consume_voice_ai_started_minute py client business_id (str "voice-ai-1") (str occurred_at)
        (str "61") none (some "consume:voice-ai-1"))
  run py client (env 4) (
      consume_ai_reply_handling py client business_id (str "reply-1") (str occurred_at) (str "1")
        none (some "consume:reply-1"))
  run py client (env 5) (
      consume_whatsapp_meta_marketing_message py client business_id (str "meta-1") (str occurred_at)
        (str "wamid.meta-1") (str "1") none (some "consume:meta-1"))
  run py client (env 6) (
      consume_telephony_voice_minute py client business_id (str "outbound-call-1") (str occurred_at)
        (str "Twilio") (str "CA1") (str "1.5") (some call_metadata)
        (some "consume:outbound-call-1"))
  run py client (env 7) (
      consume_inbound_voice_minute py client business_id (str "inbound-call-1") (str occurred_at)
        (str "Carrier") (str "IN1") (str "1") none (some "consume:inbound-call-1"))
  run py client (env 8) (
      consume_other_provider_charge py client business_id (str "provider-fee-1") (str occurred_at)
        (str "Carrier") (str "INV1") (str "337") (str "INV-2026-08") (str "337") (str "SAR")
        (str "carrier-v4") null none (some "consume:provider-fee-1"))
  finish tt
