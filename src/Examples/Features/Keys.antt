-- ===== src/Examples/Features/Keys.antt =====
-- What the example of the nine features sends.
use mizan_client_sdks.Base.{ℕ, ◌≤◌, String, ◌≡◌, refl, sym, ap, ◌∙◌, Option, none, some, false}
use text.Mathlib.TextLemmas.{cons-append}
use mizan_client_sdks.Python.Value.{str, null, Fields, Result, ok, >>=-ok, ok-injective}
use mizan_client_sdks.Python.Text.{append, is_empty}
use mizan_client_sdks.Python.Runtime.{Python}
use mizan_client_sdks.Vocabulary.Usage.{channel_wire, Channel, FeatureCode}
use mizan_client_sdks.Webhooks.Receiver.{lookup}
use mizan_client_sdks.Client.Http.{Request}
use mizan_client_sdks.Client.Retry.{MizanClient, Environment, choose_key, encode_body}
use mizan_client_sdks.Client.Retry.Effects.{requests_of}
use mizan_client_sdks.Client.Retry.Identity.{Every, Every-map}
use mizan_client_sdks.Client.Consume.{
  consume_built, consume_conversation_24h, consume_outbound_delivered_message,
  consume_ai_assist_action, consume_ai_assist_action_over_allowance,
  consume_voice_ai_started_minute, consume_ai_reply_handling,
  consume_whatsapp_meta_marketing_message, consume_telephony_voice_minute,
  consume_inbound_voice_minute, consume_other_provider_charge,
}
use mizan_client_sdks.Builders.Usage.{ai_assist_action}
use mizan_client_sdks.Models.Built.Usage.{
  UsageCall, conversation, delivered_message, assist_action, reply_handling, started_minute,
  marketing_message, voice_minute, inbound_minute, provider_charge, build,
}
use mizan_client_sdks.Models.Built.Usage.Events.{Names, feature_of, build-Names}
use mizan_client_sdks.Client.Scope.{BusinessCall, consume_call, command_of}
use mizan_client_sdks.Client.Scope.Sent.{Carries, perform-chosen}
use mizan_client_sdks.Examples.Flow.{run}
use mizan_client_sdks.Examples.Flow.Sends.{Sends, Sends-then, Sends-run, Sends-quiet}
use mizan_client_sdks.Examples.Features.{call_metadata, consume_every_feature}

-- The events of the example, and the feature that each is to consume.
pub data Planned : String → FeatureCode → Type 0 where
  conversation_1 : Planned "conversation-1" FeatureCode.conversation_24h
  message_1 : Planned "message-1" FeatureCode.outbound_delivered_message
  assist_action_1 : Planned "assist-action-1" FeatureCode.ai_assist_action_over_allowance
  voice_ai_1 : Planned "voice-ai-1" FeatureCode.voice_ai_started_minute
  reply_1 : Planned "reply-1" FeatureCode.ai_reply_handling
  meta_1 : Planned "meta-1" FeatureCode.whatsapp_meta_marketing_msg
  outbound_call_1 : Planned "outbound-call-1" FeatureCode.telephony_voice_minute
  inbound_call_1 : Planned "inbound-call-1" FeatureCode.inbound_voice_minute
  provider_fee_1 : Planned "provider-fee-1" FeatureCode.other_provider_charge

key_full : (event : String) → is_empty (append "consume:" event) ≡ false
key_full event = ap is_empty (cons-append "c" "onsume:" event)

module _ (py : Python) (occurred_at : String) where
  -- The request consumes a feature for an event, under the event's key.
  pub record Consumed (q : Request) : Type 0 where
    pub event : String
    pub feature : FeatureCode
    pub planned : Planned event feature
    pub request : Fields
    pub names : Names py (str event) (str occurred_at) feature request
    pub key : lookup "Idempotency-Key" q.headers ≡ some (append "consume:" event)
    pub body : q.body ≡ some (py.dumps request)

module _ (py : Python) (client : MizanClient) (business_id occurred_at : String)
    (least : 1 ≤ client.max_attempts) (most : client.max_attempts ≤ 1025) where
  module _ (env : Environment) (event : String) (call : UsageCall) (metadata : Option Fields)
      (planned : Planned event (feature_of call)) where
    abbrev built : Result Fields
    built = build py (str event) (str occurred_at) metadata call

    abbrev event_call : BusinessCall
    event_call = consume_call built (some (append "consume:" event))

    Carries-Consumed :
        (q : Request)
        → Carries py event_call (some (append "consume:" event)) q
        → Consumed py occurred_at q
    Carries-Consumed q s =
        let (request, e, same) = >>=-ok built (λ r. ok (some r)) s.built in
        record {
          event = event;
          feature = feature_of call;
          planned = planned;
          request = request;
          names = build-Names py (str event) (str occurred_at) call metadata request e;
          key = s.key;
          body = s.body ∙ ap (λ g. encode_body py g) (sym (ok-injective same));
        }

    Sends-Consumed : Sends (Consumed py occurred_at) (
        run py client env
          (consume_built py client business_id built (some (append "consume:" event))))
    unfolding command_of choose_key
    Sends-Consumed = Sends-run _ py client env _ (
        Every-map Carries-Consumed _ (
          perform-chosen py client business_id env least most event_call _
            (rw (key_full event) refl) (key_full event)))

  -- With 1 to 1025 attempts, every request of the example of the nine features is for one of its
  -- nine events: it carries the key `consume:` and the event's id, and a body that names that event
  -- and the feature that is planned for it.
  pub consume_every_feature-Consumed :
      (env : ℕ → Environment)
      → Every
          (Consumed py occurred_at)
          (requests_of (consume_every_feature py env client business_id occurred_at).1)
  unfolding feature_of consume_every_feature build consume_conversation_24h
      consume_outbound_delivered_message consume_ai_assist_action
      consume_ai_assist_action_over_allowance consume_voice_ai_started_minute
      consume_ai_reply_handling consume_whatsapp_meta_marketing_message
      consume_telephony_voice_minute consume_inbound_voice_minute consume_other_provider_charge
      ai_assist_action
  consume_every_feature-Consumed env =
      (Sends-then _ _ _
        (Sends-Consumed (env 0) "conversation-1"
          (conversation (str "conversation-1") (str (channel_wire Channel.whatsapp))) none
          conversation_1)
        (λ _.
          Sends-then _ _ _
            (Sends-Consumed (env 1) "message-1" (delivered_message (str "1")) none message_1)
            (λ _.
              Sends-then _ _ _
                (Sends-Consumed (env 2) "assist-action-1" (assist_action (str "1")) none
                  assist_action_1)
                (λ _.
                  Sends-then _ _ _
                    (Sends-Consumed (env 3) "voice-ai-1" (started_minute (str "61")) none
                      voice_ai_1)
                    (λ _.
                      Sends-then _ _ _
                        (Sends-Consumed (env 4) "reply-1" (reply_handling (str "1")) none reply_1)
                        (λ _.
                          Sends-then _ _ _
                            (Sends-Consumed (env 5) "meta-1"
                              (marketing_message (str "wamid.meta-1") (str "1")) none meta_1)
                            (λ _.
                              Sends-then _ _ _
                                (Sends-Consumed (env 6) "outbound-call-1"
                                  (voice_minute (str "Twilio") (str "CA1") (str "1.5"))
                                  (some call_metadata) outbound_call_1)
                                (λ _.
                                  Sends-then _ _ _
                                    (Sends-Consumed (env 7) "inbound-call-1"
                                      (inbound_minute (str "Carrier") (str "IN1") (str "1")) none
                                      inbound_call_1)
                                    (λ _.
                                      Sends-then _ _ _
                                        (Sends-Consumed (env 8) "provider-fee-1"
                                          (provider_charge (str "Carrier") (str "INV1") (str "337")
                                            (str "INV-2026-08") (str "337") (str "SAR")
                                            (str "carrier-v4") null)
                                          none provider_fee_1)
                                        (λ _. Sends-quiet _ _)))))))))).every
