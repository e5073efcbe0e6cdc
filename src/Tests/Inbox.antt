-- ===== src/Tests/Inbox.antt =====
-- Runs of the inbox.
use mathlib.Core.List.{[], ◌∷◌}
use mizan_client_sdks.Base.{◌≡◌, refl, some, List}
use mizan_client_sdks.Base.Lists.{length}
use mizan_client_sdks.Base.Int.{◌+ℤ◌}
use mizan_client_sdks.Python.Value.{int, ok, get, contains, in_set}
use mizan_client_sdks.Python.Text.{starts_minus, tail, lstrip, rstrip, strip}
use mizan_client_sdks.Python.Numbers.{digits_value, int_text, int_signed}
use mizan_client_sdks.Python.Numbers.Print.{digit, show_onto, show, show_int, str_of}
use mizan_client_sdks.Webhooks.Amounts.{
  all_digits, lead_positive, unsigned_canonical_digits, canonical_integer,
  unsigned_canonical_integer,
}
use mizan_client_sdks.Webhooks.Ledger.{
  all_filled, read_posting, add, tally, all_zero, check_postings, check_entry, validate_ledger,
}
use mizan_client_sdks.Webhooks.Receiver.{
  Headers, lookup, insert, normalize, without_authorization, Payload, mapping, WebhookReceiver,
  init, authorized, decode_payload, error_response, receive_ledger, dispatch, receive_body, receive,
}
use mizan_client_sdks.Webhooks.Receiver.Delivery.{ack_of, status_of}
use mizan_client_sdks.Examples.Inbox.{
  Inbox, same_bytes, same_identity, find_outbox, find_event, insert_row, resolve, persist_rows,
  access, ledger_row, notification_row, on_ledger, on_notification, inbox_receiver, deliver,
}
use mizan_client_sdks.Examples.Inbox.History.{Kept, acknowledged-Kept}
use mizan_client_sdks.Examples.Inbox.Redelivery.{redelivery}
use mizan_client_sdks.Tests.Interpreter.{ascii}
use mizan_client_sdks.Examples.Inbox.Retries.{retried-acknowledged}
use mizan_client_sdks.Webhooks.Receiver.{WebhookContext}
use mizan_client_sdks.Webhooks.Receiver.Runs.{Admitted}
use mizan_client_sdks.Webhooks.Amounts.{fits_int64}
use mizan_client_sdks.Base.Int.{pos}
use mizan_client_sdks.Base.{true, false}
use mizan_client_sdks.Examples.Inbox.{Row, is_taken}
use mizan_client_sdks.Tests.Hooks.{event, event-IsLedger, received}

-- what a run of the inbox opens
inbox_runs : Unit {0}
unfolding ◌+ℤ◌ get contains in_set starts_minus tail lstrip rstrip strip digits_value int_text
    int_signed digit show_onto show show_int str_of all_digits lead_positive
    unsigned_canonical_digits canonical_integer unsigned_canonical_integer all_filled read_posting
    add tally all_zero check_postings check_entry validate_ledger lookup insert normalize
    without_authorization authorized decode_payload error_response receive_ledger dispatch
    receive_body receive init same_bytes same_identity find_outbox find_event insert_row resolve
    persist_rows access ledger_row notification_row on_ledger on_notification inbox_receiver deliver
    mizan_client_sdks.Python.Text.length
inbox_runs = tt

abbrev writing : WebhookReceiver Inbox
writing = record {
  on_ledger = on_ledger;
  on_notification = on_notification;
  bearer_token = some "secret";
  max_body_bytes = 1_048_576;
}

writing-ok : inbox_receiver "secret" ≡ ok writing
unfolding inbox_runs
writing-ok = refl

abbrev empty_inbox : Inbox
empty_inbox = record { rows = []; faults = [] }

-- the event under another outbox id
abbrev repeated : Headers
repeated = ("x-mizan-outbox-id", "o2") ∷ ("authorization", "Bearer secret") ∷ []

abbrev twice : List (Headers × Payload)
twice = (received, mapping event) ∷ (repeated, mapping event) ∷ []

-- the event is stored once
one_row : length (deliver ascii writing twice empty_inbox).rows ≡ 1
unfolding inbox_runs
one_row = refl

first_acked : ack_of (receive ascii writing received (mapping event) empty_inbox).0 ≡ some "7"
unfolding inbox_runs
first_acked = refl

first_done : status_of (receive ascii writing received (mapping event) empty_inbox).0 ≡ some 204
unfolding inbox_runs
first_done = refl

no_fault_left : (receive ascii writing received (mapping event) empty_inbox).1.faults ≡ []
unfolding inbox_runs
no_fault_left = refl

acknowledged-Kept_example :
    Kept ascii writing received
      (mapping event)
      "7"
      (deliver ascii writing twice
        (receive ascii writing received (mapping event) empty_inbox).1).rows
acknowledged-Kept_example =
    acknowledged-Kept ascii writing "secret" writing-ok received (mapping event) empty_inbox "7"
      first_acked twice

redelivery_example :
    receive ascii writing received
      (mapping event)
      (receive ascii writing received (mapping event) empty_inbox).1
    ≡ receive ascii writing received (mapping event) empty_inbox
redelivery_example =
    redelivery ascii writing "secret" writing-ok received (mapping event) empty_inbox first_done
      no_fault_left

-- the database fails twice
abbrev broken_inbox : Inbox
broken_inbox = record { rows = []; faults = true ∷ (true ∷ []) }

abbrev writing_context : WebhookContext
writing_context = record {
  outbox_id = "o1";
  headers = ("x-mizan-outbox-id", "o1") ∷ [];
  raw_body = 123 ∷ 125 ∷ [];
}

writing-Admitted : Admitted ascii writing received (mapping event) event writing_context
unfolding inbox_runs
writing-Admitted = record {
  credential = refl;
  outbox_id = refl;
  identified = refl;
  context_headers = refl;
  decodes = refl;
}

seventh : event-IsLedger.sequence ≡ 7
unfolding inbox_runs
seventh =
    let read : int (pos 7) ≡ int (pos event-IsLedger.sequence) = event-IsLedger.sequence_lem in cc

seventh_fits : fits_int64 (pos event-IsLedger.sequence) ≡ true
unfolding inbox_runs
seventh_fits = rw seventh refl

abbrev stored : Row
stored = record {
  outbox_id = "o1";
  stream = "ledger";
  event_id = "e1";
  business_id = "b1";
  business_sequence = some (pos 7);
  payload = 123 ∷ 125 ∷ [];
}

stored_made : ledger_row event writing_context ≡ some stored
unfolding inbox_runs
stored_made = refl

nothing_taken : is_taken stored [] ≡ false
unfolding inbox_runs
nothing_taken = refl

retried-acknowledged_example :
    ack_of
      (receive ascii writing received (mapping event) (
        deliver ascii writing
          ((received, mapping event) ∷ ((received, mapping event) ∷ []))
          broken_inbox)).0
    ≡ some (show event-IsLedger.sequence)
retried-acknowledged_example =
    retried-acknowledged ascii writing "secret" writing-ok received (mapping event) event
      writing_context event-IsLedger writing-Admitted stored stored_made broken_inbox seventh_fits
      nothing_taken
