-- ===== src/Webhooks/Receiver/Keeps.antt =====
-- What both callbacks keep, `receive` keeps.
use mizan_client_sdks.Base.{ap}
use mizan_client_sdks.Python.Value.{Fields}
use mizan_client_sdks.Python.Runtime.{Python}
use mizan_client_sdks.Webhooks.Receiver.{
  Headers, WebhookContext, Payload, Called, WebhookReceiver, Outcome, receive,
}
use mizan_client_sdks.Webhooks.Receiver.Runs.{
  Run, refused, failed, ledger, notification, receive-Run,
}

module _ {S : Type 0} (py : Python) (r : WebhookReceiver S) (P : S → Type 0)
    (on_ledger : (fs : Fields) (context : WebhookContext) (s : S)
      → P s
      → P (r.on_ledger fs context s).1)
    (on_notification : (fs : Fields) (context : WebhookContext) (s : S)
      → P s
      → P (r.on_notification fs context s).1) where
  Run_keeps :
      {headers : Headers} {payload : Payload} {s s' : S} {o : Outcome}
      → Run py r headers payload s o s'
      → P s
      → P s'
  Run_keeps (refused status message m) p = p
  Run_keeps (failed x) p = p
  Run_keeps {s} (ledger fs event context called s' a k valid run) p =
      rw (ap (λ (c : Called × S). c.1) run) at (on_ledger event context s p)
  Run_keeps {s} (notification fs event context called s' a k valid run) p =
      rw (ap (λ (c : Called × S). c.1) run) at (on_notification event context s p)

  pub receive_keeps :
      (headers : Headers) (payload : Payload) (s : S) → P s → P (receive py r headers payload s).1
  receive_keeps headers payload s p = Run_keeps (receive-Run py r headers payload s) p
