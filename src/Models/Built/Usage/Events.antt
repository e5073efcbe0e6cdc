-- ===== src/Models/Built/Usage/Events.antt =====
-- The event and the feature that a usage request names.
use mizan_client_sdks.Base.{◌≡◌, refl, Bool, true, false, Option, some}
use mizan_client_sdks.Python.Value.{Value, str, Fields, ok, ◌>>=◌, >>=-ok, get}
use mizan_client_sdks.Python.Runtime.{Python}
use mizan_client_sdks.Vocabulary.Usage.{FeatureCode, feature_code_wire}
use mizan_client_sdks.Builders.Metadata.{provider_metadata}
use mizan_client_sdks.Builders.Usage.{
  count_usage, outbound_delivered_message, ai_assist_action, ai_assist_action_over_allowance,
  ai_reply_handling, whatsapp_meta_marketing_message, telephony_voice_minute, inbound_voice_minute,
}
use mizan_client_sdks.Builders.Usage.Charge.{charge_parts}
use mizan_client_sdks.Models.Built.Usage.{
  UsageCall, conversation, delivered_message, assist_action, reply_handling, started_minute,
  marketing_message, voice_minute, inbound_minute, provider_charge, build, count_parts,
  conversation_parts, started_parts,
}

-- the code of the feature that the call consumes
unfoldable pub feature_of : UsageCall → FeatureCode
feature_of (conversation id channel) = FeatureCode.conversation_24h
feature_of (delivered_message count) = FeatureCode.outbound_delivered_message
feature_of (assist_action count) = FeatureCode.ai_assist_action_over_allowance
feature_of (reply_handling count) = FeatureCode.ai_reply_handling
feature_of (started_minute duration) = FeatureCode.voice_ai_started_minute
feature_of (marketing_message id count) = FeatureCode.whatsapp_meta_marketing_msg
feature_of (voice_minute provider id minutes) = FeatureCode.telephony_voice_minute
feature_of (inbound_minute provider id minutes) = FeatureCode.inbound_voice_minute
feature_of (provider_charge provider id amount invoice original currency tariff fx) =
    FeatureCode.other_provider_charge

module _ (py : Python) (s o : Value) where
  -- The request names the event and the feature.
  abbrev pub Names : FeatureCode → Fields → Type 0
  Names code r =
      (get "source_event_id" r ≡ some s)
      × (get "feature_code" r ≡ some (str (feature_code_wire code)))

  counted-Names :
      (code : FeatureCode) (count : Value) (metadata : Option Fields) (is_whole : Bool) (r : Fields)
      → count_usage py (feature_code_wire code) s o count metadata is_whole ≡ ok r
      → Names code r
  unfolding get
  counted-Names code count metadata is_whole r h =
      let (a, b, c, same) =
        count_parts py s o (feature_code_wire code) count metadata is_whole r h in
      rw same (refl, refl)

  attributed-Names :
      (code : FeatureCode) (provider id count : Value) (metadata : Option Fields) (is_whole : Bool)
      (r : Fields)
      → (provider_metadata py provider id metadata >>= λ attribution.
          count_usage py (feature_code_wire code) s o count (some attribution) is_whole)
        ≡ ok r
      → Names code r
  attributed-Names code provider id count metadata is_whole r h =
      let (attribution, f, g) =
        >>=-ok (provider_metadata py provider id metadata)
          (λ attribution.
            count_usage py (feature_code_wire code) s o count (some attribution) is_whole)
          h in
      counted-Names code count (some attribution) is_whole r g

  -- A request that a usage builder returns names the event that it was built for and the builder's
  -- feature.
  pub build-Names :
      (call : UsageCall) (metadata : Option Fields) (r : Fields)
      → build py s o metadata call ≡ ok r
      → Names (feature_of call) r
  unfolding build feature_of feature_code_wire get outbound_delivered_message ai_assist_action
      ai_assist_action_over_allowance ai_reply_handling whatsapp_meta_marketing_message
      telephony_voice_minute inbound_voice_minute
  build-Names (conversation id channel) metadata r h =
      let (c, name, g) = conversation_parts py s o id channel metadata r h in
      counted-Names FeatureCode.conversation_24h (str "1") _ true r g
  build-Names (delivered_message count) metadata r h =
      counted-Names FeatureCode.outbound_delivered_message count metadata true r h
  build-Names (assist_action count) metadata r h =
      counted-Names FeatureCode.ai_assist_action_over_allowance count metadata true r h
  build-Names (reply_handling count) metadata r h =
      counted-Names FeatureCode.ai_reply_handling count metadata true r h
  build-Names (started_minute duration) metadata r h =
      let (a, b, c, same) = started_parts py s o duration metadata r h in rw same (refl, refl)
  build-Names (marketing_message id count) metadata r h =
      attributed-Names FeatureCode.whatsapp_meta_marketing_msg (str "Meta") id count metadata true r
        h
  build-Names (voice_minute provider id minutes) metadata r h =
      attributed-Names FeatureCode.telephony_voice_minute provider id minutes metadata false r h
  build-Names (inbound_minute provider id minutes) metadata r h =
      attributed-Names FeatureCode.inbound_voice_minute provider id minutes metadata false r h
  build-Names (provider_charge provider id amount invoice original currency tariff fx) metadata r
        h =
      let p =
        charge_parts py s o provider id amount invoice original currency tariff fx metadata r h in
      rw p.built (refl, refl)
