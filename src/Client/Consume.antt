-- ===== src/Client/Consume.antt =====
-- The `consume_*` methods of `MizanClient` in client.py: each hands the request of its builder to
-- `consume`. The aliases of a method stand under it.
use mizan_client_sdks.Base.{String, Option}
use mizan_client_sdks.Python.Value.{Value, Fields, Result, ◌>>=◌}
use mizan_client_sdks.Python.Runtime.{Python}
use mizan_client_sdks.Builders.Usage.{
  outbound_delivered_message, ai_assist_action_over_allowance, ai_reply_handling, conversation_24h,
  voice_ai_started_minute, whatsapp_meta_marketing_message, telephony_voice_minute,
  inbound_voice_minute, other_provider_charge,
}
use mizan_client_sdks.Client.Commands.{consume}
use mizan_client_sdks.Client.Retry.{MizanClient, Command}

module _ (py : Python) (client : MizanClient) (business_id : String) where
  -- self.consume(business_id, request, idempotency_key=key), for what the builder returned or raised
  abbrev pub consume_built : Result Fields → Option String → Result Command
  consume_built built key = do request ← built; consume py client business_id request key

  unfoldable pub consume_conversation_24h :
      Value → Value → Value → Value → Option Fields → Option String → Result Command
  consume_conversation_24h source_event_id occurred_at conversation_id channel metadata key =
      consume_built
        (conversation_24h py source_event_id occurred_at conversation_id channel metadata) key

  unfoldable pub consume_outbound_delivered_message :
      Value → Value → Value → Option Fields → Option String → Result Command
  consume_outbound_delivered_message source_event_id occurred_at quantity metadata key =
      consume_built (outbound_delivered_message py source_event_id occurred_at quantity metadata)
        key

  unfoldable pub consume_ai_assist_action_over_allowance :
      Value → Value → Value → Option Fields → Option String → Result Command
  consume_ai_assist_action_over_allowance source_event_id occurred_at quantity metadata key =
      consume_built
        (ai_assist_action_over_allowance py source_event_id occurred_at quantity metadata) key

  unfoldable pub consume_ai_assist_action :
      Value → Value → Value → Option Fields → Option String → Result Command
  consume_ai_assist_action = consume_ai_assist_action_over_allowance

  unfoldable pub consume_ai_assist_over_allowance :
      Value → Value → Value → Option Fields → Option String → Result Command
  consume_ai_assist_over_allowance = consume_ai_assist_action_over_allowance

  unfoldable pub consume_ai_reply_handling :
      Value → Value → Value → Option Fields → Option String → Result Command
  consume_ai_reply_handling source_event_id occurred_at quantity metadata key =
      consume_built (ai_reply_handling py source_event_id occurred_at quantity metadata) key

  unfoldable pub consume_voice_ai_started_minute :
      Value → Value → Value → Option Fields → Option String → Result Command
  consume_voice_ai_started_minute source_event_id occurred_at duration_seconds metadata key =
      consume_built
        (voice_ai_started_minute py source_event_id occurred_at duration_seconds metadata) key

  unfoldable pub consume_voice_ai :
      Value → Value → Value → Option Fields → Option String → Result Command
  consume_voice_ai = consume_voice_ai_started_minute

  unfoldable pub consume_whatsapp_meta_marketing_message :
      Value → Value → Value → Value → Option Fields → Option String → Result Command
  consume_whatsapp_meta_marketing_message source_event_id occurred_at provider_event_id quantity
        metadata key =
      consume_built
        (whatsapp_meta_marketing_message py source_event_id occurred_at provider_event_id quantity
          metadata)
        key

  unfoldable pub consume_telephony_voice_minute :
      Value → Value → Value → Value → Value → Option Fields → Option String → Result Command
  consume_telephony_voice_minute source_event_id occurred_at provider provider_event_id
        billable_minutes metadata key =
      consume_built
        (telephony_voice_minute py source_event_id occurred_at provider provider_event_id
          billable_minutes metadata)
        key

  unfoldable pub consume_telephony_voice :
      Value → Value → Value → Value → Value → Option Fields → Option String → Result Command
  consume_telephony_voice = consume_telephony_voice_minute

  unfoldable pub consume_inbound_voice_minute :
      Value → Value → Value → Value → Value → Option Fields → Option String → Result Command
  consume_inbound_voice_minute source_event_id occurred_at provider provider_event_id
        billable_minutes metadata key =
      consume_built
        (inbound_voice_minute py source_event_id occurred_at provider provider_event_id
          billable_minutes metadata)
        key

  unfoldable pub consume_inbound_voice :
      Value → Value → Value → Value → Value → Option Fields → Option String → Result Command
  consume_inbound_voice = consume_inbound_voice_minute

  unfoldable pub consume_other_provider_charge :
      Value
      → Value
      → Value
      → Value
      → Value
      → Value
      → Value
      → Value
      → Value
      → Value
      → Option Fields
      → Option String
      → Result Command
  consume_other_provider_charge source_event_id occurred_at provider provider_event_id
        provider_amount_minor provider_invoice_id original_amount_minor original_currency
        tariff_version fx_rule metadata key =
      consume_built
        (other_provider_charge py source_event_id occurred_at provider provider_event_id
          provider_amount_minor provider_invoice_id original_amount_minor original_currency
          tariff_version fx_rule metadata)
        key
