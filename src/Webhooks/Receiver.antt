-- ===== src/Webhooks/Receiver.antt =====
-- `WebhookReceiver` of webhooks.py. The callbacks are the application's: they act on its state and
-- return, raise an `Exception`, or are cancelled, which `except Exception` does not catch.
pub mod Runs
pub mod Keeps
pub mod Delivery
pub mod Answers
pub mod Redaction
use mathlib.Core.List.{[], ◌∷◌}
use mizan_client_sdks.Base.{
  ℕ, String, Bool, true, false, not, Option, none, some, List, ltb, ◌==◌, if◌then◌else◌,
}
use mizan_client_sdks.Base.Lists.{length}
use mizan_client_sdks.Python.Value.{
  Value, str, obj, Fields, end, field, Exception, value_error, foreign, Result, ok, err, get,
  get_or_null, has_key,
}
use mizan_client_sdks.Python.Text.{is_empty, append, strip}
use mizan_client_sdks.Python.Runtime.{Python, loaded, malformed, loads_raised}
use mizan_client_sdks.Python.Numbers.Print.{str_of}
use mizan_client_sdks.Webhooks.Ledger.{validate_ledger}
use mizan_client_sdks.Webhooks.Notification.{validate_notification}

abbrev pub Headers : Type 0
Headers = List (String × String)

-- headers.get(name)
unfoldable pub lookup : String → Headers → Option String
lookup name [] = none
lookup name ((k, v) ∷ hs) = if k == name then some v else lookup name hs

-- headers[name] = value
unfoldable pub insert : String → String → Headers → Headers
insert name value [] = (name, value) ∷ []
insert name value ((k, v) ∷ hs) =
    if k == name then (k, value) ∷ hs else (k, v) ∷ insert name value hs

-- {str(name).lower(): str(value) for name, value in headers.items()}, behind `seen`
unfoldable pub normalize : Python → Headers → Headers → Headers
normalize py [] seen = seen
normalize py ((name, value) ∷ hs) seen = normalize py hs (insert (py.lower name) value seen)

-- {name: value for name, value in headers.items() if name != "authorization"}
unfoldable pub without_authorization : Headers → Headers
without_authorization [] = []
without_authorization ((k, v) ∷ hs) =
    let rest = without_authorization hs in if k == "authorization" then rest else (k, v) ∷ rest

pub record WebhookContext : Type 0 where
  pub outbox_id : String
  pub headers : Headers
  pub raw_body : List ℕ

pub record WebhookResponse : Type 0 where
  pub status_code : ℕ
  pub headers : Headers
  pub body : List ℕ

pub data Payload : Type 0 where
  bytes : List ℕ → Payload
  text : String → Payload
  mapping : Fields → Payload

pub data Called : Type 0 where
  returned raised cancelled : Called

abbrev pub Callback : Type 0 → Type 0
Callback S = Fields → WebhookContext → S → Called × S

pub record WebhookReceiver (S : Type 0) : Type 0 where
  pub on_ledger : Callback S
  pub on_notification : Callback S
  pub bearer_token : Option String
  pub max_body_bytes : ℕ

abbrev is_empty_token : Option String → Bool
is_empty_token none = false
is_empty_token (some token) = token == ""

-- WebhookReceiver(...)
unfoldable pub init :
    {S : Type 0} → Callback S → Callback S → Option String → ℕ → Result (WebhookReceiver S)
init on_ledger on_notification bearer_token max_body_bytes =
    if is_empty_token bearer_token
    then err (value_error "bearer_token must not be empty")
    else if ltb max_body_bytes 1
    then err (value_error "max_body_bytes must be positive")
    else ok (record {
      on_ledger = on_ledger;
      on_notification = on_notification;
      bearer_token = bearer_token;
      max_body_bytes = max_body_bytes;
    })

-- self._authorized(authorization)
unfoldable pub authorized : Option String → Option String → Bool
authorized none authorization = true
authorized (some token) none = false
authorized (some token) (some authorization) = authorization == append "Bearer " token

-- a response, or an exception that leaves `receive`
pub data Outcome : Type 0 where
  responded : WebhookResponse → Outcome
  escaped : Exception → Outcome

pub data Decoded : Type 0 where
  decoded : List ℕ → Fields → Decoded
  rejected : ℕ → String → Decoded
  uncaught : Decoded

-- the tests behind the parse
abbrev pub bounded_object : List ℕ → ℕ → Value → Decoded
bounded_object raw limit v =
    if ltb limit (length raw)
    then rejected 413 "request body exceeds the configured limit"
    else elim v [ obj fs ↦ decoded raw fs | _ ↦ rejected 400 "request body must be a JSON object" ]

unfoldable pub decode_bytes : Python → List ℕ → ℕ → Decoded
decode_bytes py [] limit = rejected 400 "request body is required"
decode_bytes py (b ∷ bs) limit = elim (py.loads (b ∷ bs)) [
  | loaded v ↦ bounded_object (b ∷ bs) limit v
  | malformed ↦ rejected 400 "request body must be a JSON object"
  | loads_raised ↦ uncaught
]

unfoldable pub decode_payload : Python → Payload → ℕ → Decoded
decode_payload py (mapping fs) limit = bounded_object (py.dumps fs) limit (obj fs)
decode_payload py (text s) limit = decode_bytes py (py.encode s) limit
decode_payload py (bytes bs) limit = decode_bytes py bs limit

unfoldable pub error_response : Python → ℕ → String → WebhookResponse
error_response py status_code message = record {
  status_code = status_code;
  headers = ("content-type", "application/json") ∷ [];
  body = py.dumps_ascii (field "error" (obj (field "message" (str message) end)) end);
}

-- `except ValueError as error: return _error_response(422, str(error))`
abbrev pub unprocessable : Python → Exception → Outcome
unprocessable py (value_error message) = responded (error_response py 422 message)
unprocessable py e = escaped e

-- the outcome of a callback, with the response for its return
abbrev pub after_call : Python → WebhookResponse → String → Called → Outcome
after_call py done message returned = responded done
after_call py done message raised = responded (error_response py 500 message)
after_call py done message cancelled = escaped foreign

abbrev pub acknowledgement : Python → Fields → WebhookResponse
acknowledgement py event = record {
  status_code = 204;
  headers = ("x-mizan-ack-sequence", str_of py (get_or_null "business_sequence" event)) ∷ [];
  body = [];
}

abbrev pub no_content : WebhookResponse
no_content = record { status_code = 204; headers = []; body = [] }

module _ {S : Type 0} (py : Python) (r : WebhookReceiver S) where
  unfoldable pub receive_ledger : Fields → WebhookContext → S → Outcome × S
  receive_ledger payload context s = elim (validate_ledger py payload) [
    | err e ↦ (unprocessable py e, s)
    | ok event ↦
        let (called, s') = r.on_ledger event context s in
        (after_call py (acknowledgement py event) "ledger webhook processing failed" called, s')
  ]

  unfoldable pub receive_notification : Fields → WebhookContext → S → Outcome × S
  receive_notification payload context s = elim (validate_notification py payload) [
    | err e ↦ (unprocessable py e, s)
    | ok event ↦
        let (called, s') = r.on_notification event context s in
        (after_call py no_content "notification webhook processing failed" called, s')
  ]

  -- the choice of a stream by the shape of the decoded object
  unfoldable pub dispatch : Fields → WebhookContext → S → Outcome × S
  dispatch payload context s =
      if has_key "business_sequence" payload
      then receive_ledger payload context s
      else if has_key "type" payload
      then receive_notification payload context s
      else (responded (error_response py 422 "unknown Mizan webhook payload"), s)

  -- the part of `receive` behind the checks of the headers
  unfoldable pub receive_body : Headers → String → Payload → S → Outcome × S
  receive_body headers outbox_id payload s = elim (decode_payload py payload r.max_body_bytes) [
    | rejected status message ↦ (responded (error_response py status message), s)
    | uncaught ↦ (escaped foreign, s)
    | decoded raw fs ↦
        dispatch fs
          (record {
            outbox_id = outbox_id;
            headers = without_authorization headers;
            raw_body = raw;
          })
          s
  ]

  abbrev pub outbox_id_of : Headers → String
  outbox_id_of headers = elim (lookup "x-mizan-outbox-id" headers) [
    | none ↦ ""
    | some v ↦ strip py.is_space v
  ]

  unfoldable pub receive : Headers → Payload → S → Outcome × S
  receive headers payload s =
      let normalized = normalize py headers [] in
      if not (authorized r.bearer_token (lookup "authorization" normalized))
      then (responded (error_response py 401 "webhook authorization failed"), s)
      else if is_empty (outbox_id_of normalized)
      then (responded (error_response py 400 "X-Mizan-Outbox-Id is required"), s)
      else receive_body normalized (outbox_id_of normalized) payload s
