-- ===== src/Examples/Inbox/History.antt =====
-- The inbox is append-only, and what is acknowledged is in it.
use mathlib.Core.List.{[], ◌∷◌, mem-append_left, append-nil, append_assoc}
use mizan_client_sdks.Base.{
  ℕ, String, ◌≡◌, refl, sym, ◌∙◌, ap, inl, inr, Bool, true, false, Option, none, some, List, ◌++◌,
  arith, Option-cases,
}
use mizan_client_sdks.Base.Int.{pos, ℤ}
use mizan_client_sdks.Python.Value.{ok, Fields, str, int, get, get_or_null}
use mizan_client_sdks.Python.Numbers.Print.{show}
use mizan_client_sdks.Python.Runtime.{Python}
use mizan_client_sdks.Webhooks.Receiver.{
  Headers, WebhookContext, Payload, WebhookReceiver, Callback, Called, returned, receive,
}
use mizan_client_sdks.Webhooks.Ledger.Contract.{IsLedger}
use mizan_client_sdks.Webhooks.Receiver.Runs.{Admitted}
use mizan_client_sdks.Webhooks.Receiver.Delivery.{ack_of, receive-acknowledged}
use mizan_client_sdks.Examples.Inbox.{
  Row, Inbox, is_taken, deliver, inbox_receiver, persist_or_raise, access, ledger_row, on_ledger,
  text_at, int_at,
}
use mizan_client_sdks.Examples.Inbox.Steps.{deliver_keeps, ledger_callback}
use mizan_client_sdks.Examples.Inbox.Identity.{Recorded, persist_rows-Recorded}

abbrev pub Extends : List Row → List Row → Type 0
Extends rows rows' = (more : List Row) × (rows' ≡ rows ++ more)

-- With the example's receiver, deliveries only add rows behind those of the inbox.
deliver-Extends :
    (py : Python) (r : WebhookReceiver Inbox) (token : String)
    → inbox_receiver token ≡ ok r
    → (deliveries : List (Headers × Payload)) (inbox : Inbox)
    → Extends inbox.rows (deliver py r deliveries inbox).rows
deliver-Extends py r token e deliveries inbox =
    deliver_keeps (Extends inbox.rows)
      (λ row rows free (more, same). (
        more ++ (row ∷ []),
        ap (λ rows. rows ++ (row ∷ [])) same ∙ append_assoc inbox.rows more (row ∷ []),
      ))
      py r token e deliveries inbox ([], sym (append-nil inbox.rows))

Recorded-append :
    (r : Row) (rows : List Row) (row : Row) → Recorded r rows → Recorded r (rows ++ (row ∷ []))
Recorded-append r rows row (old, found, same) = (old, mem-append_left (row ∷ []) found, same)

access-Recorded :
    (faults : List Bool) (r : Row) (rows : List Row)
    → (access faults r rows).0 ≡ returned
    → Recorded r (access faults r rows).1.rows
unfolding access
access-Recorded [] r rows h = persist_rows-Recorded r rows h
access-Recorded (true ∷ faults) r rows h = cc
access-Recorded (false ∷ faults) r rows h = persist_rows-Recorded r rows h

-- a callback that returns has recorded its row
persist_or_raise-Recorded :
    (row : Option Row) (inbox : Inbox)
    → (persist_or_raise row inbox).0 ≡ returned
    → (r : Row) × (row ≡ some r) × Recorded r (persist_or_raise row inbox).1.rows
persist_or_raise-Recorded none inbox h = cc
persist_or_raise-Recorded (some r) inbox h = (r, refl, access-Recorded inbox.faults r inbox.rows h)

-- the row of a ledger event carries the event's identity and the received body
pub record LedgerRow (event : Fields) (context : WebhookContext) (r : Row) : Type 0 where
  pub stream : r.stream ≡ "ledger"
  pub event_id : get "event_id" event ≡ some (str r.event_id)
  pub business_id : get "business_id" event ≡ some (str r.business_id)
  pub business_sequence :
      (n : ℤ) × (get "business_sequence" event ≡ some (int n)) × (r.business_sequence ≡ some n)
  pub payload : r.payload ≡ context.raw_body

text_at-get :
    (key : String) (fs : Fields) (s : String) → text_at key fs ≡ some s → get key fs ≡ some (str s)
text_at-get key fs s h = ground arith

int_at-get :
    (key : String) (fs : Fields) (n : ℤ) → int_at key fs ≡ some n → get key fs ≡ some (int n)
int_at-get key fs n h = ground arith

pub ledger_row-LedgerRow :
    (event : Fields) (context : WebhookContext) (r : Row)
    → ledger_row event context ≡ some r
    → LedgerRow event context r
unfolding ledger_row
ledger_row-LedgerRow event context r h = elim (Option-cases (text_at "event_id" event)) [
  | inl e ↦ absurd (cc (rw (e, ledger_row) at h))
  | inr (event_id, e) ↦ elim (Option-cases (text_at "business_id" event)) [
    | inl b ↦ absurd (cc (rw (e, b, ledger_row) at h))
    | inr (business_id, b) ↦ elim (Option-cases (int_at "business_sequence" event)) [
      | inl n ↦ absurd (cc (rw (e, b, n, ledger_row) at h))
      | inr (sequence, n) ↦
          let same : record {
            outbox_id = context.outbox_id;
            stream = "ledger";
            event_id = event_id;
            business_id = business_id;
            business_sequence = some sequence;
            payload = context.raw_body;
          }
              ≡ r =
            cc (rw (e, b, n, ledger_row) at h) in
          rw (sym same) (record {
            stream = refl;
            event_id = text_at-get "event_id" event event_id e;
            business_id = text_at-get "business_id" event business_id b;
            business_sequence = (sequence, int_at-get "business_sequence" event sequence n, refl);
            payload = refl;
          })
    ]
  ]
]

on_ledger-Recorded :
    (event : Fields) (context : WebhookContext) (inbox inbox' : Inbox)
    → on_ledger event context inbox ≡ (returned, inbox')
    → (r : Row) × LedgerRow event context r × Recorded r inbox'.rows
unfolding on_ledger
on_ledger-Recorded event context inbox inbox' h =
    let (r, e, found) =
      persist_or_raise-Recorded (ledger_row event context) inbox
        (ap (λ (c : Called × Inbox). c.0) h) in
    (
      r,
      ledger_row-LedgerRow event context r e,
      rw (ap (λ (c : Called × Inbox). c.1.rows) h) at found,
    )

pub numbered :
    (event : Fields) (context : WebhookContext) (r : Row) (n : ℕ)
    → LedgerRow event context r
    → get_or_null "business_sequence" event ≡ int (pos n)
    → r.business_sequence ≡ some (pos n)
numbered event context r n row h =
    let (m, found, same) = row.business_sequence in
    let whole : int m ≡ int (pos n) = rw (found, get_or_null) at h in same ∙ cc

-- An acknowledged delivery is in the rows: the request was admitted and holds a ledger event, whose
-- identity, number and received body a row has, and the acknowledged text is the number's.
pub record Kept (py : Python) (r : WebhookReceiver Inbox) (headers : Headers) (payload : Payload)
    (v : String) (rows : List Row) : Type 0 where
  pub event : Fields
  pub context : WebhookContext
  pub admitted : Admitted py r headers payload event context
  pub is_ledger : IsLedger py event
  pub row : Row
  pub of_event : LedgerRow event context row
  pub number : row.business_sequence ≡ some (pos is_ledger.sequence)
  pub acknowledged : v ≡ show is_ledger.sequence
  pub recorded : Recorded row rows

module _ (py : Python) (r : WebhookReceiver Inbox) (token : String)
    (e : inbox_receiver token ≡ ok r) (headers : Headers) (payload : Payload) (inbox : Inbox)
    (v : String) where
  receive-Kept :
      ack_of (receive py r headers payload inbox).0 ≡ some v
      → Kept py r headers payload v (receive py r headers payload inbox).1.rows
  receive-Kept h =
      let (a, shown) = receive-acknowledged py r headers payload inbox v h in
      let (row, of_event, found) =
        on_ledger-Recorded a.event a.context inbox (receive py r headers payload inbox).1 (
          ap (λ (f : Callback Inbox). f a.event a.context inbox) (sym (ledger_callback token r e))
          ∙ a.applied) in
      record {
        event = a.event;
        context = a.context;
        admitted = a.admitted;
        is_ledger = a.is_ledger;
        row = row;
        of_event = of_event;
        number =
            numbered a.event a.context row a.is_ledger.sequence of_event a.is_ledger.sequence_lem;
        acknowledged = shown;
        recorded = found;
      }

  Kept-append :
      (row : Row) (rows : List Row)
      → is_taken row rows ≡ false
      → Kept py r headers payload v rows
      → Kept py r headers payload v (rows ++ (row ∷ []))
  Kept-append row rows free k = record {
    event = k.event;
    context = k.context;
    admitted = k.admitted;
    is_ledger = k.is_ledger;
    row = k.row;
    of_event = k.of_event;
    number = k.number;
    acknowledged = k.acknowledged;
    recorded = Recorded-append k.row rows row k.recorded;
  }

  -- With the example's receiver, if a delivery to any inbox is answered with an acknowledged
  -- sequence number, then after any further deliveries the table has a row with the event's
  -- identity, business, number and received body; the acknowledged text is that number's, and the
  -- request was admitted and holds an event that meets the ledger contract.
  pub acknowledged-Kept :
      ack_of (receive py r headers payload inbox).0 ≡ some v
      → (later : List (Headers × Payload))
      → Kept py r headers payload v (deliver py r later (receive py r headers payload inbox).1).rows
  acknowledged-Kept h later =
      deliver_keeps (Kept py r headers payload v) Kept-append py r token e later
        (receive py r headers payload inbox).1 (receive-Kept h)
