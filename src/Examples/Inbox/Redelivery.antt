-- ===== src/Examples/Inbox/Redelivery.antt =====
-- A delivery that was answered with 204 is answered so again, and the table stays as it is.
use mathlib.Core.List.{[], ◌∷◌}
use mizan_client_sdks.Base.{
  String, ◌≡◌, refl, ◌∙◌, ap, inl, inr, Bool, true, false, Option, none, some, List, ◌++◌, arith,
  Bool-cases,
}
use mizan_client_sdks.Python.Value.{Value, str, ok, Fields, has_key, get_or_null}
use mizan_client_sdks.Python.Runtime.{Python}
use mizan_client_sdks.Webhooks.Receiver.{
  Headers, WebhookContext, Payload, WebhookReceiver, Called, returned, raised, cancelled, Outcome,
  after_call, acknowledgement, no_content, error_response, dispatch, receive_ledger,
  receive_notification, receive,
}
use mizan_client_sdks.Webhooks.Notification.{validate_notification}
use mizan_client_sdks.Webhooks.Notification.Contract.{
  Carries, threshold, paused, manual, validate_notification_iff,
}
use mizan_client_sdks.Webhooks.Receiver.Runs.{
  Run, refused, failed, ledger, notification, receive-Run,
}
use mizan_client_sdks.Webhooks.Receiver.Delivery.{status_of}
use mizan_client_sdks.Webhooks.Receiver.Answers.{receive-Admitted}
use mizan_client_sdks.Examples.Inbox.{
  Row, Inbox, find_outbox, is_some, is_taken, can_bind, resolve, inbox_receiver, persist_or_raise,
  persist_rows, access, ledger_row, notification_row, on_ledger, on_notification,
}
use mizan_client_sdks.Examples.Inbox.Steps.{
  ledger_callback, notification_callback, persist_rows-unbound, persist_rows-taken,
  persist_rows-free,
}
use mizan_client_sdks.Examples.Inbox.Identity.{find_outbox-fresh, same_identity_refl}

outbox_free :
    (r : Row) (rows : List Row)
    → is_taken r rows ≡ false
    → is_some (find_outbox r.outbox_id rows) ≡ false
outbox_free r rows h = ground arith

taken-fresh :
    (r : Row) (rows : List Row) → is_taken r rows ≡ false → is_taken r (rows ++ (r ∷ [])) ≡ true
taken-fresh r rows h = rw (find_outbox-fresh r rows (outbox_free r rows h)) refl

resolve-fresh :
    (r : Row) (rows : List Row) → is_taken r rows ≡ false → resolve r (rows ++ (r ∷ [])) ≡ returned
unfolding resolve
resolve-fresh r rows h =
    rw (find_outbox-fresh r rows (outbox_free r rows h), resolve, same_identity_refl r) refl

-- an access that has returned does nothing the next time
pub persist_rows_again :
    (r : Row) (rows : List Row)
    → (persist_rows r rows).0 ≡ returned
    → persist_rows r (persist_rows r rows).1 ≡ (returned, (persist_rows r rows).1)
persist_rows_again r rows h = elim (Bool-cases (can_bind r.business_sequence)) [
  | inr b ↦ absurd (cc (rw (persist_rows-unbound r rows b) at h))
  | inl b ↦ elim (Bool-cases (is_taken r rows)) [
    | inl e ↦
        let same = persist_rows-taken r rows b e in
        let known : resolve r rows ≡ returned = rw same at h in
        rw same (same ∙ ap (λ (c : Called). (c, rows)) known)
    | inr e ↦ rw (persist_rows-free r rows b e) (
        persist_rows-taken r (rows ++ (r ∷ [])) b (taken-fresh r rows e)
        ∙ ap (λ (c : Called). (c, rows ++ (r ∷ []))) (resolve-fresh r rows e))
  ]
]

access_again :
    (faults : List Bool) (r : Row) (rows : List Row)
    → (access faults r rows).0 ≡ returned
    → (access faults r rows).1.faults ≡ []
    → access (access faults r rows).1.faults r (access faults r rows).1.rows
      ≡ (returned, (access faults r rows).1)
unfolding access
access_again [] r rows h k =
    ap (λ (c : Called × List Row). (c.0, record { rows = c.1; faults = [] }))
      (persist_rows_again r rows h)
access_again (true ∷ faults) r rows h k = cc
access_again (false ∷ faults) r rows h k = rw k (
    ap (λ (c : Called × List Row). (c.0, record { rows = c.1; faults = [] }))
      (persist_rows_again r rows h))

persist_again :
    (row : Option Row) (inbox inbox' : Inbox)
    → persist_or_raise row inbox ≡ (returned, inbox')
    → inbox'.faults ≡ []
    → persist_or_raise row inbox' ≡ (returned, inbox')
persist_again none inbox inbox' h k = cc
persist_again (some r) inbox inbox' h k =
    let same = ap (λ (c : Called × Inbox). c.1) h in
    rw (← same) (
      access_again inbox.faults r inbox.rows (ap (λ (c : Called × Inbox). c.0) h)
        (ap (λ (i : Inbox). i.faults) same ∙ k))

Carries-text :
    (py : Python) (fs : Fields) (v : Value) → Carries py fs v → (t : String) × (v ≡ str t)
Carries-text py fs v (threshold t a b c d) = (t, refl)
Carries-text py fs v (paused a) = ("budget_paused", refl)
Carries-text py fs v (manual t a) = (t, refl)

text-has_key :
    (key : String) (fs : Fields) (t : String) → get_or_null key fs ≡ str t → has_key key fs ≡ true
text-has_key key fs t h = ground arith

typed :
    (py : Python) (fs event : Fields)
    → validate_notification py fs ≡ ok event
    → has_key "type" fs ≡ true
typed py fs event h =
    let (t, same) =
      Carries-text py fs (get_or_null "type" fs) ((validate_notification_iff py fs event).0 h).3 in
    text-has_key "type" fs t same

module _ (py : Python) (r : WebhookReceiver Inbox) (token : String)
    (e : inbox_receiver token ≡ ok r) (headers : Headers) (payload : Payload) where
  ledger_again :
      (event : Fields) (context : WebhookContext) (inbox inbox' : Inbox)
      → r.on_ledger event context inbox ≡ (returned, inbox')
      → inbox'.faults ≡ []
      → r.on_ledger event context inbox' ≡ (returned, inbox')
  unfolding on_ledger
  ledger_again event context inbox inbox' =
      rw (ledger_callback token r e) (persist_again (ledger_row event context) inbox inbox')

  notification_again :
      (event : Fields) (context : WebhookContext) (inbox inbox' : Inbox)
      → r.on_notification event context inbox ≡ (returned, inbox')
      → inbox'.faults ≡ []
      → r.on_notification event context inbox' ≡ (returned, inbox')
  unfolding on_notification
  notification_again event context inbox inbox' =
      rw (notification_callback token r e)
        (persist_again (notification_row event context) inbox inbox')

  Run-again :
      {inbox inbox' : Inbox} {o : Outcome}
      → Run py r headers payload inbox o inbox'
      → status_of o ≡ some 204
      → inbox'.faults ≡ []
      → receive py r headers payload inbox' ≡ (o, inbox')
  unfolding dispatch receive_ledger receive_notification error_response
  Run-again {inbox} (refused status message m) h k = absurd (ground arith)
  Run-again {inbox} (failed x) h k = cc
  Run-again {inbox} (ledger fs event context returned s' a key valid run) h k =
      receive-Admitted py r headers payload s' fs context a
      ∙ rw (key, valid, receive_ledger)
          (ap
            (λ (c : Called × Inbox). (
              after_call py (acknowledgement py event) "ledger webhook processing failed" c.0,
              c.1,
            ))
            (ledger_again event context inbox s' run k))
  Run-again {inbox} (ledger fs event context raised s' a key valid run) h k = absurd (ground arith)
  Run-again {inbox} (ledger fs event context cancelled s' a key valid run) h k = cc
  Run-again {inbox} (notification fs event context returned s' a key valid run) h k =
      receive-Admitted py r headers payload s' fs context a
      ∙ rw (key, typed py fs event valid, valid, receive_notification)
          (ap
            (λ (c : Called × Inbox).
              (after_call py no_content "notification webhook processing failed" c.0, c.1))
            (notification_again event context inbox s' run k))
  Run-again {inbox} (notification fs event context raised s' a key valid run) h k =
      absurd (ground arith)
  Run-again {inbox} (notification fs event context cancelled s' a key valid run) h k = cc

  -- With the example's receiver, a request that was answered with 204 and is received again, where
  -- the database has no further fault to come, gets the same answer and leaves the inbox as it is.
  pub redelivery :
      (inbox : Inbox)
      → status_of (receive py r headers payload inbox).0 ≡ some 204
      → (receive py r headers payload inbox).1.faults ≡ []
      → receive py r headers payload (receive py r headers payload inbox).1
        ≡ receive py r headers payload inbox
  redelivery inbox h k = Run-again (receive-Run py r headers payload inbox) h k
