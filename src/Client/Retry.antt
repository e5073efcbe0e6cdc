-- ===== src/Client/Retry.antt =====
-- The retry loop of `_request` in client.py. What the loop takes from outside is an argument: the
-- clock, the generated identifiers, and the reply of the transport to each attempt. What it does is
-- a list of effects, in order.
pub mod Story
pub mod Effects
pub mod Identity
pub mod Progress
pub mod Secrecy
use mathlib.Core.List.{[], ◌∷◌}
use mizan_client_sdks.Base.{
  ℕ, zero, suc, ◌+◌, ◌-◌, ◌^◌, String, Bool, not, ◌||◌, Option, none, some, List, leb, nat_eq,
  if◌then◌else◌,
}
use Prim.Native.Nat.{min}
use mizan_client_sdks.Python.Value.{Fields, Exception, foreign, Result, ok, err}
use mizan_client_sdks.Python.Text.{is_empty, append}
use mizan_client_sdks.Python.Runtime.{Python}
use mizan_client_sdks.Python.Numbers.Print.{show}
use mizan_client_sdks.Webhooks.Receiver.{Headers, insert}
use mizan_client_sdks.Client.Http.{
  Request, Reply, MizanApiError, Answer, success, failure, protocol, uncertain, crash, read_reply,
}

pub record MizanClient : Type 0 where
  pub base_url : String
  pub token : String
  pub business_id : Option String
  pub max_attempts : ℕ

-- the arguments of `_request`
pub record Command : Type 0 where
  pub method : String
  pub path : String
  pub body : Option Fields
  pub business_id : String
  pub idempotency_key : Option String
  pub mutation : Bool
  pub extra_headers : Headers

pub record Environment : Type 0 where
  -- the two draws of `uuid.uuid4()`
  pub new_key : String
  pub correlation_id : String
  -- the time, and the reply of the transport to the request, at each attempt of the run at hand
  pub now : ℕ → String
  pub reply : ℕ → Reply

-- `slept n` is `time.sleep` of a draw between 0 and n tenths of a second.
pub data Effect : Type 0 where
  sent : Request → Effect
  logged_complete : (status attempt : ℕ) → String → Effect
  logged_retry : (attempt : ℕ) → String → Option String → Effect
  slept : ℕ → Effect

pub data Outcome : Type 0 where
  returned : Fields → Outcome
  api_error : MizanApiError → Outcome
  transport_error : (message request_id : String) (idempotency_key : Option String) → Outcome
  protocol_error : (message request_id : String) (idempotency_key : Option String) → Outcome
  -- any other exception that leaves the call
  escaped : Exception → Outcome

-- key = idempotency_key or (str(uuid.uuid4()) if mutation else None)
unfoldable pub choose_key : Option String → Bool → String → Option String
choose_key none mutation new_key = if mutation then some new_key else none
choose_key (some k) mutation new_key =
    if is_empty k then (if mutation then some new_key else none) else some k

-- headers.update(extra)
unfoldable pub update : Headers → Headers → Headers
update [] headers = headers
update ((k, v) ∷ extra) headers = update extra (insert k v headers)

abbrev pub content_type : Option (List ℕ) → Headers → Headers
content_type none headers = headers
content_type (some encoded) headers = insert "Content-Type" "application/json" headers

abbrev pub key_header : Option String → Headers → Headers
key_header none headers = headers
key_header (some k) headers = if is_empty k then headers else insert "Idempotency-Key" k headers

abbrev pub encode_body : Python → Option Fields → Option (List ℕ)
encode_body py none = none
encode_body py (some body) = some (py.dumps body)

-- the headers that every attempt sets
abbrev pub base_headers : MizanClient → Command → String → String → Headers
base_headers client command correlation_id now =
    ("Authorization", append "Bearer " client.token)
    ∷ ("Accept", "application/json")
    ∷ ("User-Agent", "mizan-python/1.8.0")
    ∷ ("X-Business-Id", command.business_id)
    ∷ ("X-Request-ID", correlation_id)
    ∷ ("X-Request-Timestamp", now)
    ∷ []

unfoldable pub request_headers :
    MizanClient → Command → Option (List ℕ) → Option String → String → String → Headers
request_headers client command encoded key correlation_id now =
    update command.extra_headers
      (key_header key (content_type encoded (base_headers client command correlation_id now)))

-- the sleep's bound in tenths of a second, unless `2 ** (attempt - 1)` does not fit a float
unfoldable pub backoff : ℕ → Option ℕ
backoff attempt = if leb 1024 (attempt - 1) then none else some (min 20 (2 ^ (attempt - 1)))

module _ (py : Python) (client : MizanClient) (command : Command) (env : Environment) where
  abbrev pub key_of : Option String
  key_of = choose_key command.idempotency_key command.mutation env.new_key

  unfoldable pub request_at : ℕ → Request
  request_at attempt =
      let encoded = encode_body py command.body in
      record {
        url = append client.base_url command.path;
        body = encoded;
        headers =
            request_headers client command encoded key_of env.correlation_id (env.now attempt);
        method = command.method;
      }

  abbrev pub is_last : ℕ → Bool
  is_last attempt = not command.mutation || nat_eq attempt client.max_attempts

  -- the end of the loop's body, in front of the next attempt
  unfoldable pub pause : ℕ → Outcome × List Effect → Outcome × List Effect
  pause attempt rest = elim (backoff attempt) [
    | none ↦ (escaped foreign, logged_retry attempt env.correlation_id key_of ∷ [])
    | some bound ↦ (rest.0, logged_retry attempt env.correlation_id key_of ∷ (slept bound ∷ rest.1))
  ]

  -- what the loop does on an answer; `rest` is what the attempts behind this one come to
  unfoldable pub conclude : ℕ → Answer → Outcome × List Effect → Outcome × List Effect
  conclude attempt (success status payload) rest =
      (returned payload, logged_complete status attempt env.correlation_id ∷ [])
  conclude attempt (protocol message) rest = (protocol_error message env.correlation_id key_of, [])
  conclude attempt (crash e) rest = (escaped e, [])
  conclude attempt (failure e) rest =
      if is_last attempt || not e.retryable then (api_error e, []) else pause attempt rest
  conclude attempt uncertain rest =
      if is_last attempt
      then (
        transport_error
            (append "Request outcome is unknown after " (append (show attempt) " attempt(s)"))
            env.correlation_id key_of,
        [],
      )
      else pause attempt rest

  -- the attempts from `attempt` on, `left` of them
  unfoldable pub attempts : ℕ → ℕ → Outcome × List Effect
  attempts zero attempt =
      (transport_error "Request outcome is unknown" env.correlation_id key_of, [])
  attempts (suc left) attempt =
      let rest = attempts left (attempt + 1) in
      let (outcome, effects) = conclude attempt (read_reply py key_of (env.reply attempt)) rest in
      (outcome, sent (request_at attempt) ∷ effects)

  unfoldable pub request : Outcome × List Effect
  request = attempts client.max_attempts 1

-- a method of the client: its own checks, then `_request`
unfoldable pub perform : Python → MizanClient → Environment → Result Command → Outcome × List Effect
perform py client env (err e) = (escaped e, [])
perform py client env (ok command) = request py client command env
