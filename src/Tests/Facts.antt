-- ===== src/Tests/Facts.antt =====
-- Runs of the builders.
use mizan_client_sdks.Base.{ℕ, ◌≤◌, ◌<◌, ◌≡◌, refl, ◌↔◌, true, none, some, ◌==◌, if◌then◌else◌}
use mizan_client_sdks.Python.Value.{
  str, obj, Fields, end, field, ok, get, put, size, contains, in_set,
}
use mizan_client_sdks.Python.Text.{length, replace_z, lstrip, rstrip, strip}
use mizan_client_sdks.Python.Numbers.{digits_value, int_text}
use mizan_client_sdks.Python.Numbers.Print.{digit, show_onto, show, show_int, str_of}
use mizan_client_sdks.Builders.Facts.{
  max_int64, is_bounded, is_blank, all_decimal, integer_match, before_point, after_point,
  fraction_match, ljust, event_time, event, quantity, whole_count, integer,
  required_metadata_string,
}
use mizan_client_sdks.Builders.Facts.Milli.{Milli, quantity_iff}
use mizan_client_sdks.Builders.Metadata.{
  all_keys, check_channel, check_actor, is_null_or_bounded, check_bounded, check_original_amount,
  is_short, check_attributes, check_attribute_map, validate_metadata, dict_of, stripped,
  provider_metadata,
}
use mizan_client_sdks.Builders.Metadata.{channels}
use mizan_client_sdks.Vocabulary.Members.{values}
use mizan_client_sdks.Vocabulary.Usage.{channel_wire, channel_enum}
use mizan_client_sdks.Builders.Usage.{is_currency, put_fx_rule, count_usage, other_provider_charge}
use mizan_client_sdks.Builders.Usage.Built.{Counted, count_usage_iff, provider_metadata-get}
use mizan_client_sdks.Builders.Usage.Charge.{ChargeEvidence, other_provider_charge-ChargeEvidence}
use mizan_client_sdks.Tests.Interpreter.{ascii, ascii-IsDocumented}

-- what a run of a builder opens
builders : Unit {0}
unfolding get put size contains in_set length replace_z lstrip rstrip strip digits_value int_text
    digit show_onto show show_int str_of is_bounded is_blank all_decimal integer_match before_point
    after_point fraction_match ljust event_time event quantity whole_count integer
    required_metadata_string all_keys check_channel check_actor is_null_or_bounded check_bounded
    check_original_amount is_short check_attributes check_attribute_map validate_metadata
    provider_metadata is_currency put_fx_rule count_usage other_provider_charge
builders = tt

quantity_run : quantity ascii (str "12.345") ≡ ok tt
unfolding builders
quantity_run = refl

abbrev given_metadata : Fields
given_metadata = field "provider" (str "someone") (field "channel" (str "whatsapp") end)

abbrev attributed : Fields
attributed =
    field "provider" (str "Meta")
      (field "channel" (str "whatsapp") (field "provider_event_id" (str "wamid") end))

attributed_run :
    provider_metadata ascii (str "Meta") (str " wamid ") (some given_metadata) ≡ ok attributed
unfolding builders
attributed_run = refl

provider_metadata-get_example : get "provider" attributed ≡ (
    if "provider_event_id" == "provider"
    then some (stripped ascii (str " wamid "))
    else if "provider" == "provider"
    then some (stripped ascii (str "Meta"))
    else get "provider" (dict_of (some given_metadata)))
provider_metadata-get_example =
    provider_metadata-get ascii (str "Meta") (str " wamid ") (some given_metadata) attributed
      "provider" attributed_run

abbrev counted : Fields
counted = field "source_event_id" (str "s1") (
    field "occurred_at" (str "2026-01-01T00:00:00Z")
      (field "feature_code" (str "ai_reply_handling") (field "quantity" (str "3") end)))

counted_run :
    count_usage ascii "ai_reply_handling"
      (str "s1")
      (str "2026-01-01T00:00:00Z")
      (str "3")
      none
      true
    ≡ ok counted
unfolding builders
counted_run = refl

count_usage_iff_example :
    (count_usage ascii "ai_reply_handling"
        (str "s1")
        (str "2026-01-01T00:00:00Z")
        (str "3")
        none
        true
      ≡ ok counted)
    ↔ Counted ascii "ai_reply_handling" (str "s1") (str "2026-01-01T00:00:00Z") "3" none counted
count_usage_iff_example =
    count_usage_iff ascii "ai_reply_handling" (str "s1") (str "2026-01-01T00:00:00Z") "3" none
      counted

abbrev charge : Fields
charge = field "source_event_id" (str "s1") (
    field "occurred_at" (str "2026-01-01T00:00:00Z") (
      field "feature_code" (str "other_provider_charge") (
        field "provider_amount_minor" (str "375") (
          field "metadata"
            (obj (
              field "provider" (str "Acme") (
                field "provider_event_id" (str "p1") (
                  field "provider_invoice_id" (str "i1") (
                    field "original_amount_minor" (str "100") (
                      field "original_currency" (str "USD")
                        (field "tariff_version" (str "v1") (field "fx_rule" (str "3.75") end))))))))
            end))))

charge_run :
    other_provider_charge ascii
      (str "s1")
      (str "2026-01-01T00:00:00Z")
      (str "Acme")
      (str "p1")
      (str "375")
      (str "i1")
      (str "100")
      (str "USD")
      (str "v1")
      (str "3.75")
      none
    ≡ ok charge
unfolding builders
charge_run = refl

other_provider_charge-ChargeEvidence_example :
    (evidence : Fields) × (get "metadata" charge ≡ some (obj evidence))
    × ChargeEvidence (str "100") (str "375") evidence
other_provider_charge-ChargeEvidence_example =
    other_provider_charge-ChargeEvidence ascii (str "s1") (str "2026-01-01T00:00:00Z") (str "Acme")
      (str "p1") (str "375") (str "i1") (str "100") (str "USD") (str "v1") (str "3.75") none charge
      charge_run

-- the channels that the metadata check spells out are those of the vocabulary
channels_run : values channel_enum ≡ channels
unfolding values channel_wire
channels_run = refl

quantity_iff_example :
    (quantity ascii (str "12.345") ≡ ok tt)
    ↔ ((v : ℕ) × Milli ascii "12.345" v × (0 < v) × (v ≤ max_int64))
quantity_iff_example = quantity_iff ascii ascii-IsDocumented "12.345"
