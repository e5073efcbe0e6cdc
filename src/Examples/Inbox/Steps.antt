-- ===== src/Examples/Inbox/Steps.antt =====
-- What an access of the inbox does to its rows, and what any delivery keeps.
use mathlib.Core.List.{[], ◌∷◌}
use mizan_client_sdks.Base.{
  String, ◌≡◌, refl, ◌⊎◌, inl, inr, Bool, true, false, Option, none, some, List, ◌++◌, arith,
  Bool-cases,
}
use mizan_client_sdks.Python.Value.{Fields, ok}
use mizan_client_sdks.Python.Runtime.{Python}
use mizan_client_sdks.Webhooks.Receiver.{
  Headers, WebhookContext, Payload, returned, raised, WebhookReceiver, init, receive,
}
use mizan_client_sdks.Webhooks.Receiver.Keeps.{receive_keeps}
use mizan_client_sdks.Examples.Inbox.{
  Row, Inbox, is_taken, insert_row, persist_rows, access, persist, persist_or_raise, on_ledger,
  on_notification, ledger_row, notification_row, can_bind, resolve, deliver, inbox_receiver,
}

-- the rows stay, or a row with fresh keys is added behind them
abbrev pub Grows : Row → List Row → List Row → Type 0
Grows r rows rows' = (rows' ≡ rows) ⊎ ((is_taken r rows ≡ false) × (rows' ≡ rows ++ (r ∷ [])))

insert-free :
    (r : Row) (rows : List Row)
    → is_taken r rows ≡ false
    → insert_row r rows ≡ some (rows ++ (r ∷ []))
unfolding insert_row
insert-free r rows e = rw e refl

insert-taken : (r : Row) (rows : List Row) → is_taken r rows ≡ true → insert_row r rows ≡ none
unfolding insert_row
insert-taken r rows e = rw e refl

-- the three ways of an access without a fault
pub persist_rows-unbound :
    (r : Row) (rows : List Row)
    → can_bind r.business_sequence ≡ false
    → persist_rows r rows ≡ (raised, rows)
unfolding persist_rows
persist_rows-unbound r rows b = rw b refl

pub persist_rows-taken :
    (r : Row) (rows : List Row)
    → can_bind r.business_sequence ≡ true
    → is_taken r rows ≡ true
    → persist_rows r rows ≡ (resolve r rows, rows)
unfolding persist_rows
persist_rows-taken r rows b e = rw (b, insert-taken r rows e) refl

pub persist_rows-free :
    (r : Row) (rows : List Row)
    → can_bind r.business_sequence ≡ true
    → is_taken r rows ≡ false
    → persist_rows r rows ≡ (returned, rows ++ (r ∷ []))
unfolding persist_rows
persist_rows-free r rows b e = rw (b, insert-free r rows e) refl

persist_rows-Grows : (r : Row) (rows : List Row) → Grows r rows (persist_rows r rows).1
persist_rows-Grows r rows = elim (Bool-cases (can_bind r.business_sequence)) [
  | inr b ↦ rw (persist_rows-unbound r rows b) (inl refl)
  | inl b ↦ elim (Bool-cases (is_taken r rows)) [
    | inl e ↦ rw (persist_rows-taken r rows b e) (inl refl)
    | inr e ↦ rw (persist_rows-free r rows b e) (inr (e, refl))
  ]
]

access-Grows :
    (faults : List Bool) (r : Row) (rows : List Row) → Grows r rows (access faults r rows).1.rows
unfolding access
access-Grows [] r rows = persist_rows-Grows r rows
access-Grows (true ∷ faults) r rows = inl refl
access-Grows (false ∷ faults) r rows = persist_rows-Grows r rows

pub ledger_callback :
    (token : String) (r : WebhookReceiver Inbox)
    → inbox_receiver token ≡ ok r
    → r.on_ledger ≡ on_ledger
unfolding inbox_receiver init
ledger_callback token r e = ground arith

pub notification_callback :
    (token : String) (r : WebhookReceiver Inbox)
    → inbox_receiver token ≡ ok r
    → r.on_notification ≡ on_notification
unfolding inbox_receiver init
notification_callback token r e = ground arith

-- A predicate on the rows that a fresh row keeps.
module _ (P : List Row → Type 0)
    (grows : (r : Row) (rows : List Row)
      → is_taken r rows ≡ false
      → P rows
      → P (rows ++ (r ∷ []))) where
  persist_keeps : (r : Row) (inbox : Inbox) → P inbox.rows → P (persist r inbox).1.rows
  persist_keeps r inbox p = elim (access-Grows inbox.faults r inbox.rows) [
    | inl same ↦ rw same p
    | inr (free, more) ↦ rw more (grows r inbox.rows free p)
  ]

  persist_or_raise_keeps :
      (row : Option Row) (inbox : Inbox) → P inbox.rows → P (persist_or_raise row inbox).1.rows
  persist_or_raise_keeps none inbox p = p
  persist_or_raise_keeps (some r) inbox p = persist_keeps r inbox p

  on_ledger_keeps :
      (fs : Fields) (context : WebhookContext) (inbox : Inbox)
      → P inbox.rows
      → P (on_ledger fs context inbox).1.rows
  unfolding on_ledger
  on_ledger_keeps fs context inbox p = persist_or_raise_keeps (ledger_row fs context) inbox p

  on_notification_keeps :
      (fs : Fields) (context : WebhookContext) (inbox : Inbox)
      → P inbox.rows
      → P (on_notification fs context inbox).1.rows
  unfolding on_notification
  on_notification_keeps fs context inbox p =
      persist_or_raise_keeps (notification_row fs context) inbox p

  pub deliver_keeps :
      (py : Python) (r : WebhookReceiver Inbox) (token : String)
      → inbox_receiver token ≡ ok r
      → (deliveries : List (Headers × Payload)) (inbox : Inbox) → P inbox.rows
      → P (deliver py r deliveries inbox).rows
  unfolding deliver
  deliver_keeps py r token e [] inbox p = p
  deliver_keeps py r token e ((headers, payload) ∷ rest) inbox p =
      deliver_keeps py r token e rest (receive py r headers payload inbox).1 (
        receive_keeps py r (λ inbox. P inbox.rows) (rw (ledger_callback token r e) on_ledger_keeps)
          (rw (notification_callback token r e) on_notification_keeps) headers payload inbox p)
