-- ===== src/Webhooks/Endpoint.antt =====
-- The endpoint of fastapi.py. Its request and its response are the framework's: what the endpoint reads
-- of the one and writes of the other is all that stands here.
use mizan_client_sdks.Base.{ℕ, List}
use mizan_client_sdks.Python.Runtime.{Python}
use mizan_client_sdks.Webhooks.Receiver.{Headers, bytes, WebhookReceiver, Outcome, receive}

pub record EndpointRequest : Type 0 where
  pub headers : Headers
  pub body : List ℕ

-- webhook_endpoint(receiver): the response is written as it is received, and an exception leaves the
-- endpoint as it leaves the receiver
unfoldable pub webhook_endpoint :
    {S : Type 0} → Python → WebhookReceiver S → EndpointRequest → S → Outcome × S
webhook_endpoint py receiver request s = receive py receiver request.headers (bytes request.body) s
