-- ===== src/Models/Built/Usage.antt =====
-- The types of the usage requests.
pub mod Events
use mizan_client_sdks.Base.{
  String, ◌≡◌, refl, Bool, true, false, Option, none, some, arith, inl, inr,
}
use mizan_client_sdks.Python.Value.{
  Value, str, obj, Fields, end, field, Result, ok, ◌>>=◌, >>=-ok, Result-cases, get, put, contains,
}
use mizan_client_sdks.Python.Runtime.{Python}
use mizan_client_sdks.Python.Numbers.Print.{str_of}
use mizan_client_sdks.Builders.Facts.{event, required_metadata_string}
use mizan_client_sdks.Builders.Metadata.{channels, all_keys, dict_of, provider_metadata}
use mizan_client_sdks.Builders.Usage.{
  with_metadata, count_usage, conversation_24h, voice_ai_started_minute, outbound_delivered_message,
  ai_assist_action, ai_assist_action_over_allowance, ai_reply_handling,
  whatsapp_meta_marketing_message, telephony_voice_minute, inbound_voice_minute,
  other_provider_charge,
}
use mizan_client_sdks.Builders.Usage.Charge.{charge_parts}
use mizan_client_sdks.Models.Shape.{Shape, extend, keys, has_kind, has_entries, has_shape}
use mizan_client_sdks.Models.Metadata.{usage_metadata_shape, provider_usage_metadata_shape}
use mizan_client_sdks.Models.Consumption.{
  usage_event_required_shape, quantity_optional_shape, count_consumption_optional_shape,
  conversation_24h_consumption_request_shape, outbound_delivered_message_consumption_request_shape,
  ai_assist_action_consumption_request_shape, ai_reply_handling_consumption_request_shape,
  started_minute_optional_shape, voice_ai_started_minute_consumption_request_shape,
  provider_quantity_optional_shape, whatsapp_meta_marketing_message_consumption_request_shape,
  telephony_voice_minute_consumption_request_shape, inbound_voice_minute_consumption_request_shape,
  other_provider_charge_consumption_request_shape,
}
use mizan_client_sdks.Models.Built.Funding.{
  IsText, is_bounded-IsText, integer-IsText, whole_count-IsText, quantity-IsText, event_time-IsText,
}
use mizan_client_sdks.Models.Built.Metadata.{
  has_usage_metadata, provider_metadata-has_shape, ChargeParts-has_shape, conversation-has_shape,
}

-- A call of a usage builder, but for the event's identity and time and the metadata.
pub data UsageCall : Type 0 where
  conversation : (conversation_id channel : Value) → UsageCall
  delivered_message assist_action reply_handling : (count : Value) → UsageCall
  started_minute : (duration_seconds : Value) → UsageCall
  marketing_message : (provider_event_id count : Value) → UsageCall
  voice_minute inbound_minute : (provider provider_event_id billable_minutes : Value) → UsageCall
  provider_charge :
      (provider provider_event_id provider_amount_minor provider_invoice_id original_amount_minor
        original_currency tariff_version fx_rule : Value)
      → UsageCall

unfoldable pub build : Python → Value → Value → Option Fields → UsageCall → Result Fields
build py s o metadata (conversation id channel) = conversation_24h py s o id channel metadata
build py s o metadata (delivered_message count) = outbound_delivered_message py s o count metadata
build py s o metadata (assist_action count) = ai_assist_action py s o count metadata
build py s o metadata (reply_handling count) = ai_reply_handling py s o count metadata
build py s o metadata (started_minute duration) = voice_ai_started_minute py s o duration metadata
build py s o metadata (marketing_message id count) =
    whatsapp_meta_marketing_message py s o id count metadata
build py s o metadata (voice_minute provider id minutes) =
    telephony_voice_minute py s o provider id minutes metadata
build py s o metadata (inbound_minute provider id minutes) =
    inbound_voice_minute py s o provider id minutes metadata
build py s o metadata (provider_charge provider id amount invoice original currency tariff fx) =
    other_provider_charge py s o provider id amount invoice original currency tariff fx metadata

-- the type that the builder's signature names
unfoldable pub request_shape : UsageCall → Shape
request_shape (conversation id channel) = conversation_24h_consumption_request_shape
request_shape (delivered_message count) = outbound_delivered_message_consumption_request_shape
request_shape (assist_action count) = ai_assist_action_consumption_request_shape
request_shape (reply_handling count) = ai_reply_handling_consumption_request_shape
request_shape (started_minute duration) = voice_ai_started_minute_consumption_request_shape
request_shape (marketing_message id count) =
    whatsapp_meta_marketing_message_consumption_request_shape
request_shape (voice_minute provider id minutes) = telephony_voice_minute_consumption_request_shape
request_shape (inbound_minute provider id minutes) = inbound_voice_minute_consumption_request_shape
request_shape (provider_charge provider id amount invoice original currency tariff fx) =
    other_provider_charge_consumption_request_shape

request_shapes : Unit {0}
unfolding has_kind has_entries all_keys get contains extend keys usage_event_required_shape
    quantity_optional_shape count_consumption_optional_shape
    conversation_24h_consumption_request_shape outbound_delivered_message_consumption_request_shape
    ai_assist_action_consumption_request_shape ai_reply_handling_consumption_request_shape
    started_minute_optional_shape voice_ai_started_minute_consumption_request_shape
    provider_quantity_optional_shape whatsapp_meta_marketing_message_consumption_request_shape
    telephony_voice_minute_consumption_request_shape inbound_voice_minute_consumption_request_shape
    other_provider_charge_consumption_request_shape
request_shapes = tt

module _ (py : Python) (s o : Value) where
  event-IsText : event py s o ≡ ok tt → IsText s × IsText o
  unfolding event
  event-IsText h = (is_bounded-IsText 128 s (ground arith), event_time-IsText py o (ground arith))

  count_parts :
      (code : String) (count : Value) (metadata : Option Fields) (is_whole : Bool) (r : Fields)
      → count_usage py code s o count metadata is_whole ≡ ok r
      → IsText s
        × IsText o
        × IsText count
        × (r
            ≡ field "source_event_id" s (
                field "occurred_at" o (
                  field "feature_code"
                    (str code)
                    (field "quantity" count (with_metadata metadata)))))
  unfolding count_usage
  count_parts code count metadata true r h =
      let (a, b) = event-IsText (ground arith) in
      (a, b, whole_count-IsText py count (ground arith), ground arith)
  count_parts code count metadata false r h =
      let (a, b) = event-IsText (ground arith) in
      (a, b, quantity-IsText py count (ground arith), ground arith)

  -- a counted request is of a type if it is for texts
  counted-has_shape :
      (shape : Shape) (code : String) (count : Value) (metadata : Option Fields) (is_whole : Bool)
      (r : Fields)
      → ((a b c : String)
          → has_shape shape (
              field "source_event_id" (str a) (
                field "occurred_at" (str b) (
                  field "feature_code"
                    (str code)
                    (field "quantity" (str c) (with_metadata metadata)))))
            ≡ true)
      → count_usage py code s o count metadata is_whole ≡ ok r
      → has_shape shape r ≡ true
  unfolding has_kind
  counted-has_shape shape code count metadata is_whole r texts h =
      let (a, b, c, same) = count_parts code count metadata is_whole r h in
      rw (same, a.1, b.1, c.1) (texts a.0 b.0 c.0)

  -- a counted request with attribution
  attributed-has_shape :
      (shape : Shape) (code : String) (provider provider_event_id count : Value)
      (metadata : Option Fields) (is_whole : Bool) (r : Fields)
      → ((attribution : Fields) (a b c : String)
          → has_shape provider_usage_metadata_shape attribution ≡ true
          → has_shape shape (
              field "source_event_id" (str a) (
                field "occurred_at" (str b) (
                  field "feature_code"
                    (str code)
                    (field "quantity" (str c) (with_metadata (some attribution))))))
            ≡ true)
      → (provider_metadata py provider provider_event_id metadata >>= λ attribution.
          count_usage py code s o count (some attribution) is_whole)
        ≡ ok r
      → has_usage_metadata metadata ≡ true
      → has_shape shape r ≡ true
  attributed-has_shape shape code provider id count metadata is_whole r texts h m =
      let (attribution, f, g) =
        >>=-ok (provider_metadata py provider id metadata)
          (λ attribution. count_usage py code s o count (some attribution) is_whole) h in
      let shaped = provider_metadata-has_shape py provider id metadata attribution f m in
      counted-has_shape shape code count (some attribution) is_whole r
        (λ a b c. texts attribution a b c shaped) g

  conversation_parts :
      (id channel : Value) (metadata : Option Fields) (r : Fields)
      → conversation_24h py s o id channel metadata ≡ ok r
      → (contains channels (str_of py channel) ≡ true)
        × (name : String) × (count_usage py "conversation_24h" s o
              (str "1")
              (some (
                put "channel"
                  (str (str_of py channel))
                  (put "conversation_id" (str name) (dict_of metadata))))
              true
            ≡ ok r)
  unfolding conversation_24h
  conversation_parts id channel metadata r h =
      elim (Result-cases (required_metadata_string py id "conversation_id")) [
        | inl (name, e) ↦ (ground arith, name, ground arith)
        | inr (x, e) ↦ absurd (ground arith)
      ]

  started_parts :
      (duration : Value) (metadata : Option Fields) (r : Fields)
      → voice_ai_started_minute py s o duration metadata ≡ ok r
      → IsText s
        × IsText o
        × IsText duration
        × (r
            ≡ field "source_event_id" s (
                field "occurred_at" o (
                  field "feature_code"
                    (str "voice_ai_started_minute")
                    (field "duration_seconds" duration (with_metadata metadata)))))
  unfolding voice_ai_started_minute
  started_parts duration metadata r h =
      let (a, b) = event-IsText (ground arith) in
      (a, b, integer-IsText py duration "duration_seconds" false (ground arith), ground arith)

  count-has_shape :
      (shape : Shape) (code : String) (count : Value) (metadata : Option Fields) (r : Fields)
      → ((given : Fields) (a b c : String)
          → has_shape usage_metadata_shape given ≡ true
          → has_shape shape (
              field "source_event_id" (str a) (
                field "occurred_at" (str b) (
                  field "feature_code"
                    (str code)
                    (field "quantity" (str c) (field "metadata" (obj given) end)))))
            ≡ true)
      → ((a b c : String)
          → has_shape shape (
              field "source_event_id" (str a) (
                field "occurred_at"
                  (str b)
                  (field "feature_code" (str code) (field "quantity" (str c) end))))
            ≡ true)
      → count_usage py code s o count metadata true ≡ ok r
      → has_usage_metadata metadata ≡ true
      → has_shape shape r ≡ true
  count-has_shape shape code count none r with without h m =
      counted-has_shape shape code count none true r without h
  count-has_shape shape code count (some given) r with without h m =
      counted-has_shape shape code count (some given) true r (λ a b c. with given a b c m) h

  -- A request that a usage builder returns has the type that the builder's signature names, if the
  -- caller's metadata, where there is any, has the type `UsageMetadata`.
  pub build-has_shape :
      (call : UsageCall) (metadata : Option Fields) (r : Fields)
      → has_usage_metadata metadata ≡ true
      → build py s o metadata call ≡ ok r
      → has_shape (request_shape call) r ≡ true
  unfolding build request_shape request_shapes outbound_delivered_message ai_assist_action
      ai_assist_action_over_allowance ai_reply_handling whatsapp_meta_marketing_message
      telephony_voice_minute inbound_voice_minute
  build-has_shape (conversation id channel) metadata r m h =
      let (c, name, g) = conversation_parts id channel metadata r h in
      let shaped = conversation-has_shape py (str_of py channel) name metadata c m in
      counted-has_shape conversation_24h_consumption_request_shape "conversation_24h" (str "1")
        (some (
          put "channel" (str (str_of py channel))
            (put "conversation_id" (str name) (dict_of metadata))))
        true r (λ a b d. rw shaped refl) g
  build-has_shape (delivered_message count) metadata r m h =
      count-has_shape outbound_delivered_message_consumption_request_shape
        "outbound_delivered_message" count metadata r (λ given a b c g. rw g refl) (λ a b c. refl) h
        m
  build-has_shape (assist_action count) metadata r m h =
      count-has_shape ai_assist_action_consumption_request_shape "ai_assist_action_over_allowance"
        count metadata r (λ given a b c g. rw g refl) (λ a b c. refl) h m
  build-has_shape (reply_handling count) metadata r m h =
      count-has_shape ai_reply_handling_consumption_request_shape "ai_reply_handling" count metadata
        r (λ given a b c g. rw g refl) (λ a b c. refl) h m
  build-has_shape (started_minute duration) none r m h =
      let (a, b, c, same) = started_parts duration none r h in rw (same, a.1, b.1, c.1) refl
  build-has_shape (started_minute duration) (some given) r m h =
      let (a, b, c, same) = started_parts duration (some given) r h in
      rw (same, a.1, b.1, c.1) (rw m refl)
  build-has_shape (marketing_message id count) metadata r m h =
      attributed-has_shape whatsapp_meta_marketing_message_consumption_request_shape
        "whatsapp_meta_marketing_msg" (str "Meta") id count metadata true r
        (λ given a b c g. rw g refl) h m
  build-has_shape (voice_minute provider id minutes) metadata r m h =
      attributed-has_shape telephony_voice_minute_consumption_request_shape "telephony_voice_minute"
        provider id minutes metadata false r (λ given a b c g. rw g refl) h m
  build-has_shape (inbound_minute provider id minutes) metadata r m h =
      attributed-has_shape inbound_voice_minute_consumption_request_shape "inbound_voice_minute"
        provider id minutes metadata false r (λ given a b c g. rw g refl) h m
  build-has_shape (provider_charge provider id amount invoice original currency tariff fx) metadata
        r m h =
      let p =
        charge_parts py s o provider id amount invoice original currency tariff fx metadata r h in
      let (a, b) = event-IsText p.happened in
      let c = integer-IsText py amount _ _ p.settled in
      let shaped = ChargeParts-has_shape py p m in rw (p.built, a.1, b.1, c.1) (rw shaped refl)
