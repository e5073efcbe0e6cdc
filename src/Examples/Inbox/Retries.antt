-- ===== src/Examples/Inbox/Retries.antt =====
-- Deliveries of one event to the inbox of webhook_receiver.py while the database fails.
use mathlib.Core.List.{[], ◌∷◌}
use mizan_client_sdks.Base.{String, ◌≡◌, refl, ◌∙◌, ap, Bool, true, false, some, List}
use mizan_client_sdks.Base.Int.{pos}
use mizan_client_sdks.Base.Lists.{length, replicate}
use mizan_client_sdks.Python.Value.{ok, Fields}
use mizan_client_sdks.Python.Runtime.{Python}
use mizan_client_sdks.Python.Numbers.Print.{show}
use mizan_client_sdks.Webhooks.Amounts.{fits_int64}
use mizan_client_sdks.Webhooks.Ledger.Contract.{IsLedger}
use mizan_client_sdks.Webhooks.Receiver.{
  Headers, WebhookContext, Payload, WebhookReceiver, Called, Callback, returned, receive,
}
use mizan_client_sdks.Webhooks.Receiver.Runs.{Admitted}
use mizan_client_sdks.Webhooks.Receiver.Delivery.{ack_of}
use mizan_client_sdks.Webhooks.Receiver.Answers.{ack_for, receive-ledger}
use mizan_client_sdks.Examples.Inbox.{
  Row, Inbox, is_taken, can_bind, persist_rows, access, ledger_row, on_ledger, inbox_receiver,
  deliver,
}
use mizan_client_sdks.Examples.Inbox.Steps.{ledger_callback, persist_rows-free}
use mizan_client_sdks.Examples.Inbox.History.{numbered, ledger_row-LedgerRow}
use mizan_client_sdks.Examples.Inbox.Redelivery.{persist_rows_again}

-- an access without a fault would return
abbrev Welcome : Row → List Row → Type 0
Welcome r rows = (persist_rows r rows).0 ≡ returned

tail : List Bool → List Bool
tail [] = []
tail (b ∷ bs) = bs

access-faults :
    (faults : List Bool) (r : Row) (rows : List Row) → (access faults r rows).1.faults ≡ tail faults
unfolding access tail
access-faults [] r rows = refl
access-faults (true ∷ faults) r rows = refl
access-faults (false ∷ faults) r rows = refl

access-Welcome :
    (faults : List Bool) (r : Row) (rows : List Row)
    → Welcome r rows
    → Welcome r (access faults r rows).1.rows
unfolding access
access-Welcome [] r rows h = ap (λ (c : Called × List Row). c.0) (persist_rows_again r rows h)
access-Welcome (true ∷ faults) r rows h = h
access-Welcome (false ∷ faults) r rows h =
    ap (λ (c : Called × List Row). c.0) (persist_rows_again r rows h)

module _ (py : Python) (r : WebhookReceiver Inbox) (token : String)
    (e : inbox_receiver token ≡ ok r) (headers : Headers) (payload : Payload) (event : Fields)
    (context : WebhookContext) (l : IsLedger py event)
    (a : Admitted py r headers payload event context) (row : Row)
    (made : ledger_row event context ≡ some row) where
  called-access :
      (inbox : Inbox) → r.on_ledger event context inbox ≡ access inbox.faults row inbox.rows
  unfolding on_ledger
  called-access inbox =
      ap (λ (f : Callback Inbox). f event context inbox) (ledger_callback token r e) ∙ rw made refl

  calm_access :
      (faults : List Bool) (rows : List Row)
      → faults ≡ []
      → Welcome row rows
      → (access faults row rows).0 ≡ returned
  unfolding access
  calm_access faults rows calm h = rw calm h

  received :
      (inbox : Inbox)
      → (receive py r headers payload inbox).1 ≡ (access inbox.faults row inbox.rows).1
  received inbox =
      let (state, ack, status) =
        receive-ledger py r headers payload inbox event context l
          (access inbox.faults row inbox.rows).0 (access inbox.faults row inbox.rows).1 a
          (called-access inbox) in
      state

  drained :
      (faults : List Bool) (inbox : Inbox)
      → inbox.faults ≡ faults
      → Welcome row inbox.rows
      → ((deliver py r (replicate (length faults) (headers, payload)) inbox).faults ≡ [])
        × Welcome row (deliver py r (replicate (length faults) (headers, payload)) inbox).rows
  unfolding deliver tail
  drained [] inbox same h = (same, h)
  drained (b ∷ faults) inbox same h =
      drained faults (receive py r headers payload inbox).1
        (ap (λ (i : Inbox). i.faults) (received inbox)
          ∙ access-faults inbox.faults row inbox.rows
          ∙ ap tail same)
        (rw (received inbox) (access-Welcome inbox.faults row inbox.rows h))

  row-Welcome :
      (rows : List Row)
      → fits_int64 (pos l.sequence) ≡ true
      → is_taken row rows ≡ false
      → Welcome row rows
  row-Welcome rows fits free =
      let number =
        numbered event context row l.sequence (ledger_row-LedgerRow event context row made)
          l.sequence_lem in
      ap (λ (c : Called × List Row). c.0)
        (persist_rows-free row rows (ap can_bind number ∙ fits) free)

  -- without a fault to come, a welcome row is acknowledged
  acknowledged :
      (inbox : Inbox)
      → inbox.faults ≡ []
      → Welcome row inbox.rows
      → ack_of (receive py r headers payload inbox).0 ≡ some (show l.sequence)
  acknowledged inbox calm h =
      let (state, ack, status) =
        receive-ledger py r headers payload inbox event context l
          (access inbox.faults row inbox.rows).0 (access inbox.faults row inbox.rows).1 a
          (called-access inbox) in
      ack ∙ ap (λ c. ack_for c l.sequence) (calm_access inbox.faults inbox.rows calm h)

  -- With the example's receiver, an admitted ledger event whose row can be stored, whose sequence
  -- number fits 64 bits and which no stored row's keys take, is acknowledged with its sequence
  -- number once it has been delivered as often as the database has faults to come.
  pub retried-acknowledged :
      (inbox : Inbox)
      → fits_int64 (pos l.sequence) ≡ true
      → is_taken row inbox.rows ≡ false
      → ack_of
          (receive py r headers payload
            (deliver py r (replicate (length inbox.faults) (headers, payload)) inbox)).0
        ≡ some (show l.sequence)
  retried-acknowledged inbox fits free =
      let (calm, h) = drained inbox.faults inbox refl (row-Welcome inbox.rows fits free) in
      acknowledged (deliver py r (replicate (length inbox.faults) (headers, payload)) inbox) calm h
