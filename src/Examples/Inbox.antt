-- ===== src/Examples/Inbox.antt =====
-- examples/webhook_receiver.py: the inbox that suppresses repeated deliveries, and the receiver that
-- writes it. The table is its rows in the order of insertion, under its two declared keys, `outbox_id`
-- and the pair of `stream` and `event_id`. `received_at` is not read.
pub mod Identity
pub mod Steps
pub mod History
pub mod Redelivery
pub mod Retries
use mathlib.Core.List.{[], ◌∷◌}
use mizan_client_sdks.Base.{
  ℕ, String, Bool, true, false, not, ◌&&◌, ◌||◌, Option, none, some, List, ◌++◌, nat_eq, ◌==◌,
  if◌then◌else◌,
}
use mizan_client_sdks.Base.Int.{ℤ, pos_part, neg_part}
use mizan_client_sdks.Python.Value.{Value, int, str, Fields, Result, get}
use mizan_client_sdks.Python.Runtime.{Python}
use mizan_client_sdks.Webhooks.Amounts.{fits_int64}
use mizan_client_sdks.Webhooks.Receiver.{
  Headers, WebhookContext, Payload, Called, returned, raised, WebhookReceiver, Outcome, init,
  receive,
}

-- a row of `mizan_webhook_inbox`
pub record Row : Type 0 where
  pub outbox_id : String
  pub stream : String
  pub event_id : String
  pub business_id : String
  pub business_sequence : Option ℤ
  pub payload : List ℕ

-- The database: its committed rows, and for each access to come whether it fails with an exception
-- (a lock or a full disk), which rolls the transaction back. No entry is no failure.
pub record Inbox : Type 0 where
  pub rows : List Row
  pub faults : List Bool

abbrev pub same_integer : ℤ → ℤ → Bool
same_integer a b = nat_eq (pos_part a) (pos_part b) && nat_eq (neg_part a) (neg_part b)

abbrev pub same_sequence : Option ℤ → Option ℤ → Bool
same_sequence none none = true
same_sequence (some a) (some b) = same_integer a b
same_sequence _ _ = false

unfoldable pub same_bytes : List ℕ → List ℕ → Bool
same_bytes [] [] = true
same_bytes (a ∷ as') (b ∷ bs) = nat_eq a b && same_bytes as' bs
same_bytes _ _ = false

-- existing == identity
unfoldable pub same_identity : Row → Row → Bool
same_identity a b =
    (a.stream == b.stream)
    && (a.event_id == b.event_id)
    && (a.business_id == b.business_id)
    && same_sequence a.business_sequence b.business_sequence
    && same_bytes a.payload b.payload

-- SELECT … WHERE outbox_id = ?
unfoldable pub find_outbox : String → List Row → Option Row
find_outbox outbox_id [] = none
find_outbox outbox_id (r ∷ rs) =
    if r.outbox_id == outbox_id then some r else find_outbox outbox_id rs

-- SELECT … WHERE stream = ? AND event_id = ?
unfoldable pub find_event : String → String → List Row → Option Row
find_event stream event_id [] = none
find_event stream event_id (r ∷ rs) =
    if (r.stream == stream) && (r.event_id == event_id)
    then some r
    else find_event stream event_id rs

abbrev pub is_some : Option Row → Bool
is_some none = false
is_some (some r) = true

-- a key of the row is taken
abbrev pub is_taken : Row → List Row → Bool
is_taken r rows =
    is_some (find_outbox r.outbox_id rows) || is_some (find_event r.stream r.event_id rows)

-- INSERT: `none` is an `IntegrityError`
unfoldable pub insert_row : Row → List Row → Option (List Row)
insert_row r rows = if is_taken r rows then none else some (rows ++ (r ∷ []))

abbrev pub compared : Row → Row → Called
compared old r = if same_identity old r then returned else raised

-- `except sqlite3.IntegrityError`
unfoldable pub resolve : Row → List Row → Called
resolve r rows = elim (find_outbox r.outbox_id rows) [
  | some old ↦ compared old r
  | none ↦ elim (find_event r.stream r.event_id rows) [ some old ↦ compared old r | none ↦ raised ]
]

-- an `int` that the database has no room for raises `OverflowError`
abbrev pub can_bind : Option ℤ → Bool
can_bind none = true
can_bind (some n) = fits_int64 n

unfoldable pub persist_rows : Row → List Row → Called × List Row
persist_rows r rows =
    if can_bind r.business_sequence
    then elim (insert_row r rows) [ some rows' ↦ (returned, rows') | none ↦ (resolve r rows, rows) ]
    else (raised, rows)

-- the transaction, under the faults to come
unfoldable pub access : List Bool → Row → List Row → Called × Inbox
access [] r rows =
    let (called, rows') = persist_rows r rows in (called, record { rows = rows'; faults = [] })
access (true ∷ faults) r rows = (raised, record { rows = rows; faults = faults })
access (false ∷ faults) r rows =
    let (called, rows') = persist_rows r rows in (called, record { rows = rows'; faults = faults })

-- SQLiteInbox.persist
abbrev pub persist : Row → Inbox → Called × Inbox
persist r inbox = access inbox.faults r inbox.rows

abbrev pub text_at : String → Fields → Option String
text_at key fs = elim (get key fs) [ some (str s) ↦ some s | _ ↦ none ]

abbrev pub int_at : String → Fields → Option ℤ
int_at key fs = elim (get key fs) [ some (int n) ↦ some n | _ ↦ none ]

-- the arguments of `persist` for an event; `none` is a key that is missing, or a value of another type
-- than a validated event has
unfoldable pub ledger_row : Fields → WebhookContext → Option Row
ledger_row event delivery = elim (text_at "event_id" event) [
  | none ↦ none
  | some event_id ↦ elim (text_at "business_id" event) [
    | none ↦ none
    | some business_id ↦ elim (int_at "business_sequence" event) [
      | none ↦ none
      | some n ↦ some (record {
        outbox_id = delivery.outbox_id;
        stream = "ledger";
        event_id = event_id;
        business_id = business_id;
        business_sequence = some n;
        payload = delivery.raw_body;
      })
    ]
  ]
]

unfoldable pub notification_row : Fields → WebhookContext → Option Row
notification_row event delivery = elim (text_at "business_id" event) [
  | none ↦ none
  | some business_id ↦ some (record {
    outbox_id = delivery.outbox_id;
    stream = "notification";
    event_id = delivery.outbox_id;
    business_id = business_id;
    business_sequence = none;
    payload = delivery.raw_body;
  })
]

abbrev pub persist_or_raise : Option Row → Inbox → Called × Inbox
persist_or_raise none inbox = (raised, inbox)
persist_or_raise (some r) inbox = persist r inbox

unfoldable pub on_ledger : Fields → WebhookContext → Inbox → Called × Inbox
on_ledger event delivery inbox = persist_or_raise (ledger_row event delivery) inbox

unfoldable pub on_notification : Fields → WebhookContext → Inbox → Called × Inbox
on_notification event delivery inbox = persist_or_raise (notification_row event delivery) inbox

-- receiver = WebhookReceiver(...), with the token of the environment
unfoldable pub inbox_receiver : String → Result (WebhookReceiver Inbox)
inbox_receiver token = init on_ledger on_notification (some token) 1_048_576

-- deliveries one behind the other
unfoldable pub deliver : Python → WebhookReceiver Inbox → List (Headers × Payload) → Inbox → Inbox
deliver py r [] inbox = inbox
deliver py r ((headers, payload) ∷ rest) inbox =
    deliver py r rest (receive py r headers payload inbox).1
