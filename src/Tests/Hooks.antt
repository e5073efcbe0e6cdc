-- ===== src/Tests/Hooks.antt =====
-- Runs of the webhook receiver.
use mathlib.Core.List.{[], ◌∷◌}
use mizan_client_sdks.Base.{ℕ, suc, String, ◌≡◌, refl, true, some, List, ◌↔◌}
use mizan_client_sdks.Base.Int.{pos, negsuc, ◌+ℤ◌}
use mizan_client_sdks.Python.Value.{
  Value, int, str, obj, arr, Items, nil, cons, Fields, end, field, ok, get, contains, in_set,
}
use mizan_client_sdks.Python.Text.{starts_minus, tail, lstrip, rstrip, strip, length}
use mizan_client_sdks.Python.Numbers.{digits_value, int_text, int_signed}
use mizan_client_sdks.Python.Numbers.Print.{digit, show_onto, show, show_int, str_of}
use mizan_client_sdks.Webhooks.Amounts.{
  all_digits, lead_positive, unsigned_canonical_digits, canonical_integer,
  unsigned_canonical_integer,
}
use mizan_client_sdks.Webhooks.Ledger.{
  all_filled, read_posting, add, tally, all_zero, check_postings, check_entry, validate_ledger,
}
use mizan_client_sdks.Webhooks.Ledger.Contract.{IsLedger, sound}
use mizan_client_sdks.Webhooks.Ledger.Sums.{check_postings_iff}
use mizan_client_sdks.Webhooks.Receiver.{
  Headers, lookup, insert, normalize, without_authorization, WebhookContext, mapping, returned,
  WebhookReceiver, authorized, decode_payload, error_response, receive_ledger, dispatch,
  receive_body, receive,
}
use mizan_client_sdks.Base.{arith}
use mizan_client_sdks.Python.Numbers.RoundTrip.{int_text-show}
use mizan_client_sdks.Webhooks.Amounts.Canonical.{InInt64, canonical_integer-show_int}
use mizan_client_sdks.Webhooks.Ledger.{Posting}
use mizan_client_sdks.Webhooks.Ledger.Sums.{Reads, total}
use mizan_client_sdks.Webhooks.Ledger.Postings.{Filled}
use mizan_client_sdks.Python.Value.{get_or_null}
use mizan_client_sdks.Webhooks.Notification.{validate_notification, check_manual}
use mizan_client_sdks.Webhooks.Notification.Contract.{Carries, validate_notification_iff}
use mizan_client_sdks.Webhooks.Receiver.Runs.{Admitted}
use mizan_client_sdks.Webhooks.Receiver.Delivery.{
  Applied, ack_of, status_of, Effect, Meaning, receive-acknowledged, receive-Effect,
  receive-Meaning,
}
use mizan_client_sdks.Webhooks.Receiver.Answers.{ack_for, status_for, receive-ledger}
use mizan_client_sdks.Webhooks.Types.Checked.{Checked, validate_ledger-Checked}
use mathlib.Core.List.Permᴰ as Permᴰ
use mizan_client_sdks.Webhooks.Ledger.Order.{check_postings_reordered}
use mizan_client_sdks.Tests.Interpreter.{ascii, ascii-IsDocumented}

-- what a run of the receiver opens
hooks : Unit {0}
unfolding ◌+ℤ◌ get contains in_set starts_minus tail lstrip rstrip strip digits_value int_text
    int_signed digit show_onto show show_int str_of all_digits lead_positive
    unsigned_canonical_digits canonical_integer unsigned_canonical_integer all_filled read_posting
    add tally all_zero check_postings check_entry validate_ledger lookup insert normalize
    without_authorization authorized decode_payload error_response receive_ledger dispatch
    receive_body receive length
hooks = tt

abbrev posting : String → String → Value
posting rail amount = obj (
    field "account_code" (str "cash")
      (field "rail" (str rail) (field "unit" (str "halala") (field "amount" (str amount) end))))

abbrev two_postings : Items
two_postings = cons (posting "invoice" "-250") (cons (posting "invoice" "250") nil)

abbrev entry : Fields
entry = field "id" (str "e1") (
    field "entry_type" (str "usage_consumed") (
      field "source_command" (str "consume") (
        field "source_event_id" (str "s1") (
          field "effective_at" (str "2026-01-01T00:00:00Z") (
            field "catalog_version" (str "1")
              (field "policy_version" (str "1") (field "metadata" (obj end) end)))))))

abbrev pub event : Fields
event = field "event_id" (str "e1") (
    field "business_id" (str "b1") (
      field "business_sequence" (int (pos 7))
        (field "entry" (obj entry) (field "postings" (arr two_postings) end))))

abbrev counting : WebhookReceiver ℕ
counting = record {
  on_ledger = λ fs context s. (returned, suc s);
  on_notification = λ fs context s. (returned, s);
  bearer_token = some "secret";
  max_body_bytes = 100;
}

abbrev pub received : Headers
received = ("x-mizan-outbox-id", "o1") ∷ ("authorization", "Bearer secret") ∷ []

event-valid : validate_ledger ascii event ≡ ok event
unfolding hooks
event-valid = refl

pub event-IsLedger : IsLedger ascii event
event-IsLedger = sound ascii event event-valid

-- the context of the event's callback
abbrev event_context : WebhookContext
event_context = record {
  outbox_id = "o1";
  headers = ("x-mizan-outbox-id", "o1") ∷ [];
  raw_body = 123 ∷ 125 ∷ [];
}

event-Admitted : Admitted ascii counting received (mapping event) event event_context
unfolding hooks
event-Admitted = record {
  credential = refl;
  outbox_id = refl;
  identified = refl;
  context_headers = refl;
  decodes = refl;
}

event-acked : ack_of (receive ascii counting received (mapping event) 0).0 ≡ some "7"
unfolding hooks
event-acked = refl

receive-acknowledged_example :
    (a : Applied ascii counting received
      (mapping event)
      0
      returned
      (receive ascii counting received (mapping event) 0).1)
    × ("7" ≡ show a.is_ledger.sequence)
receive-acknowledged_example =
    receive-acknowledged ascii counting received (mapping event) 0 "7" event-acked

check_postings_iff_example :
    (check_postings ascii (arr two_postings) ≡ ok tt)
    ↔ ((ps : List Posting) × Reads ascii two_postings ps × ((r u : String) → total r u ps ≡ pos 0))
check_postings_iff_example = check_postings_iff ascii two_postings

receive-ledger_example :
    ((receive ascii counting received (mapping event) 0).1 ≡ 1)
    × (ack_of (receive ascii counting received (mapping event) 0).0
        ≡ ack_for returned event-IsLedger.sequence)
    × (status_of (receive ascii counting received (mapping event) 0).0 ≡ status_for returned)
receive-ledger_example =
    receive-ledger ascii counting received (mapping event) 0 event event_context event-IsLedger
      returned 1 event-Admitted refl

receive-Effect_example :
    Effect ascii counting received
      (mapping event)
      0
      (receive ascii counting received (mapping event) 0).1
receive-Effect_example = receive-Effect ascii counting received (mapping event) 0

receive-Meaning_example :
    Meaning ascii counting received
      (mapping event)
      0
      (receive ascii counting received (mapping event) 0).1
      (status_of (receive ascii counting received (mapping event) 0).0)
receive-Meaning_example = receive-Meaning ascii counting received (mapping event) 0

canonical_integer-show_int_example :
    (int_signed ascii (show_int (negsuc 41)) ≡ ok (negsuc 41))
    × ((canonical_integer ascii (str (show_int (negsuc 41))) ≡ ok true) ↔ InInt64 (negsuc 41))
canonical_integer-show_int_example =
    canonical_integer-show_int ascii ascii-IsDocumented (negsuc 41) (omega arith)

minus-exact : canonical_integer ascii (str "-42") ≡ ok true
unfolding hooks
minus-exact = refl

int_text-show_example : int_text ascii (show 42) ≡ ok 42
int_text-show_example = int_text-show ascii ascii-IsDocumented 42 (omega arith)

abbrev manual_pause : Fields
manual_pause =
    field "type" (str "feature_paused_manual")
      (field "business_id" (str "b1") (field "feature_code" (str "f1") end))

manual_pause-valid : validate_notification ascii manual_pause ≡ ok manual_pause
unfolding hooks validate_notification check_manual
manual_pause-valid = refl

validate_notification_iff_example : (validate_notification ascii manual_pause ≡ ok manual_pause) ↔ (
    (manual_pause ≡ manual_pause)
    × Filled (get_or_null "business_id" manual_pause)
    × Filled (get_or_null "feature_code" manual_pause)
    × Carries ascii manual_pause (get_or_null "type" manual_pause))
validate_notification_iff_example = validate_notification_iff ascii manual_pause manual_pause

validate_ledger-Checked_example : Checked event
validate_ledger-Checked_example = validate_ledger-Checked ascii event event event-valid

abbrev swapped_postings : Items
swapped_postings = cons (posting "invoice" "250") (cons (posting "invoice" "-250") nil)

check_postings_reordered_example :
    (check_postings ascii (arr two_postings) ≡ ok tt)
    ↔ (check_postings ascii (arr swapped_postings) ≡ ok tt)
check_postings_reordered_example =
    check_postings_reordered ascii two_postings swapped_postings (Permᴰ.swap refl refl)
