-- ===== src/Tests/Shapes.antt =====
-- Runs of the builders against the declared types of their results.
use mizan_client_sdks.Base.{◌≡◌, refl, true, Option, some}
use mizan_client_sdks.Python.Value.{
  str, obj, Fields, end, field, ok, get, put, size, contains, in_set,
}
use mizan_client_sdks.Python.Text.{length, replace_z, lstrip, rstrip, strip}
use mizan_client_sdks.Python.Numbers.{digits_value, int_text}
use mizan_client_sdks.Python.Numbers.Print.{digit, show_onto, show, show_int, str_of}
use mizan_client_sdks.Builders.Facts.{
  is_bounded, is_blank, all_decimal, integer_match, before_point, after_point, fraction_match,
  ljust, event_time, event, payment_event, quantity, whole_count, integer,
}
use mizan_client_sdks.Builders.Metadata.{
  all_keys, check_channel, check_actor, is_null_or_bounded, check_bounded, check_original_amount,
  is_short, check_attributes, check_attribute_map, validate_metadata,
}
use mizan_client_sdks.Builders.Usage.{count_usage, outbound_delivered_message}
use mizan_client_sdks.Builders.Funding.{confirmed_top_up, is_reason, confirmed_refund}
use mizan_client_sdks.Vocabulary.Members.{values}
use mizan_client_sdks.Vocabulary.Usage.{channel_wire}
use mizan_client_sdks.Models.Shape.{extend, keys, has_kind, has_entries, has_shape}
use mizan_client_sdks.Models.Metadata.{
  usage_metadata_shape, application_usage_metadata_shape, optional_conversation_attribution_shape,
  optional_provider_attribution_shape, optional_provider_evidence_shape,
}
use mizan_client_sdks.Models.Built.Metadata.{has_usage_metadata}
use mizan_client_sdks.Models.Built.Funding.{top_up, refund, fund, funding_shape, fund-has_shape}
use mizan_client_sdks.Models.Built.Usage.{delivered_message, build, request_shape, build-has_shape}
use mizan_client_sdks.Tests.Interpreter.{ascii}

-- what a run of a typed builder opens
shape_runs : Unit {0}
unfolding get put size contains in_set length replace_z lstrip rstrip strip digits_value int_text
    digit show_onto show show_int str_of is_bounded is_blank all_decimal integer_match before_point
    after_point fraction_match ljust event_time event payment_event quantity whole_count integer
    all_keys check_channel check_actor is_null_or_bounded check_bounded check_original_amount
    is_short check_attributes check_attribute_map validate_metadata count_usage
    outbound_delivered_message confirmed_top_up is_reason confirmed_refund channel_wire extend keys
    has_kind has_entries usage_metadata_shape build application_usage_metadata_shape
    optional_conversation_attribution_shape values optional_provider_attribution_shape
    optional_provider_evidence_shape fund
shape_runs = tt

abbrev given : Option Fields
given = some (field "channel" (str "whatsapp") end)

abbrev delivered : Fields
delivered = field "source_event_id" (str "m1") (
    field "occurred_at" (str "2026-01-01T00:00:00Z") (
      field "feature_code" (str "outbound_delivered_message") (
        field "quantity" (str "2")
          (field "metadata" (obj (field "channel" (str "whatsapp") end)) end))))

given-typed : has_usage_metadata given ≡ true
unfolding shape_runs
given-typed = refl

delivered-ok :
    build ascii (str "m1") (str "2026-01-01T00:00:00Z") given (delivered_message (str "2"))
    ≡ ok delivered
unfolding shape_runs
delivered-ok = refl

build-has_shape_example : has_shape (request_shape (delivered_message (str "2"))) delivered ≡ true
build-has_shape_example =
    build-has_shape ascii (str "m1") (str "2026-01-01T00:00:00Z") (delivered_message (str "2"))
      given delivered given-typed delivered-ok

abbrev topped_up : Fields
topped_up = field "amount_minor" (str "100") (
    field "payment_event_id" (str "p1") (
      field "payment_status" (str "confirmed")
        (field "currency" (str "SAR") (field "paid_total_minor" (str "115") end))))

top_up-ok : fund ascii (top_up (str "100") (str "p1") (str "115")) ≡ ok topped_up
unfolding shape_runs
top_up-ok = refl

abbrev refunded : Fields
refunded = field "amount_minor" (str "100") (
    field "payment_event_id" (str "p1") (
      field "reason" (str "duplicate") (
        field "refund_status" (str "confirmed")
          (field "currency" (str "SAR") (field "refunded_total_minor" (str "115") end)))))

refunded-ok : fund ascii (refund (str "100") (str "115") (str "p1") (str "duplicate")) ≡ ok refunded
unfolding shape_runs
refunded-ok = refl

fund-has_shape_example :
    has_shape (funding_shape (refund (str "100") (str "115") (str "p1") (str "duplicate"))) refunded
    ≡ true
fund-has_shape_example =
    fund-has_shape ascii (refund (str "100") (str "115") (str "p1") (str "duplicate")) refunded
      refunded-ok
