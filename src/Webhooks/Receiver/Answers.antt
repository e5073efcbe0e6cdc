-- ===== src/Webhooks/Receiver/Answers.antt =====
-- The answer to an event that reaches the ledger callback.
use mathlib.Core.List.{[]}
use mizan_client_sdks.Base.{ℕ, String, ◌≡◌, refl, sym, ◌∙◌, ap, true, Option, none, some}
use mizan_client_sdks.Base.Int.{pos}
use mizan_client_sdks.Python.Value.{int, Fields, ok, get_or_null, has_key}
use mizan_client_sdks.Python.Runtime.{Python}
use mizan_client_sdks.Python.Numbers.Print.{show, str_of}
use mizan_client_sdks.Webhooks.Ledger.{validate_ledger}
use mizan_client_sdks.Webhooks.Ledger.Contract.{IsLedger, complete}
use mizan_client_sdks.Webhooks.Receiver.{
  Headers, lookup, normalize, outbox_id_of, WebhookContext, Payload, Called, returned, raised,
  cancelled, WebhookReceiver, Outcome, error_response, after_call, acknowledgement, receive,
  receive_body, dispatch, receive_ledger,
}
use mizan_client_sdks.Webhooks.Receiver.Runs.{Admitted}
use mizan_client_sdks.Webhooks.Receiver.Delivery.{str_of-pos, has_key_of, ack_of, status_of}

-- the acknowledgement that a finished callback earns
abbrev pub ack_for : Called → ℕ → Option String
ack_for returned n = some (show n)
ack_for raised n = none
ack_for cancelled n = none

abbrev pub status_for : Called → Option ℕ
status_for returned = some 204
status_for raised = some 500
status_for cancelled = none

ack_after :
    (py : Python) (event : Fields) (n : ℕ) (message : String) (called : Called)
    → get_or_null "business_sequence" event ≡ int (pos n)
    → (ack_of (after_call py (acknowledgement py event) message called) ≡ ack_for called n)
      × (status_of (after_call py (acknowledgement py event) message called) ≡ status_for called)
unfolding lookup error_response
ack_after py event n message returned e = (ap some (ap (str_of py) e ∙ str_of-pos py n), refl)
ack_after py event n message raised e = (refl, refl)
ack_after py event n message cancelled e = (refl, refl)

module _ {S : Type 0} (py : Python) (r : WebhookReceiver S) (headers : Headers)
    (payload : Payload) where
  receive_body-Admitted :
      (s : S) (fs : Fields) (context : WebhookContext)
      → Admitted py r headers payload fs context
      → receive_body py r
          (normalize py headers [])
          (outbox_id_of py r (normalize py headers []))
          payload
          s
        ≡ dispatch py r fs context s
  unfolding receive_body
  receive_body-Admitted s fs context a =
      rw (a.decodes, receive_body)
        (λ i.
          dispatch py r fs
            (record {
              outbox_id = sym a.outbox_id i;
              headers = sym a.context_headers i;
              raw_body = context.raw_body;
            })
            s)

  pub receive-Admitted :
      (s : S) (fs : Fields) (context : WebhookContext)
      → Admitted py r headers payload fs context
      → receive py r headers payload s ≡ dispatch py r fs context s
  unfolding receive
  receive-Admitted s fs context a =
      rw (a.credential, rw a.outbox_id at a.identified) (receive_body-Admitted s fs context a)

  receive_ledger_called :
      (s : S) (fs : Fields) (context : WebhookContext)
      → has_key "business_sequence" fs ≡ true
      → validate_ledger py fs ≡ ok fs
      → dispatch py r fs context s ≡ (
        after_call py
            (acknowledgement py fs)
            "ledger webhook processing failed"
            (r.on_ledger fs context s).0,
        (r.on_ledger fs context s).1,
      )
  unfolding dispatch receive_ledger
  receive_ledger_called s fs context k v = rw (k, v, receive_ledger)

  -- An admitted event that meets the ledger contract reaches the ledger callback, whose state is
  -- the final one; a return is answered 204 with the event's number acknowledged, an exception 500
  -- with none, and a cancelled callback not at all.
  pub receive-ledger :
      (s : S) (fs : Fields) (context : WebhookContext) (l : IsLedger py fs) (called : Called)
      (s' : S)
      → Admitted py r headers payload fs context
      → r.on_ledger fs context s ≡ (called, s')
      → ((receive py r headers payload s).1 ≡ s')
        × (ack_of (receive py r headers payload s).0 ≡ ack_for called l.sequence)
        × (status_of (receive py r headers payload s).0 ≡ status_for called)
  receive-ledger s fs context l called s' a run =
      let all =
        receive-Admitted s fs context a
        ∙ receive_ledger_called s fs context (has_key_of fs l.sequence_lem) (complete py fs l) in
      let whole =
        all
        ∙ ap
            (λ (p : Called × S).
              (after_call py (acknowledgement py fs) "ledger webhook processing failed" p.0, p.1))
            run in
      let marks =
        ack_after py fs l.sequence "ledger webhook processing failed" called l.sequence_lem in
      (
        ap (λ (p : Outcome × S). p.1) whole,
        ap (λ (p : Outcome × S). ack_of p.0) whole ∙ marks.0,
        ap (λ (p : Outcome × S). status_of p.0) whole ∙ marks.1,
      )
