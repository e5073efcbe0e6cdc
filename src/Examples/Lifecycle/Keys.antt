-- ===== src/Examples/Lifecycle/Keys.antt =====
-- The requests of the lifecycle example that may be sent again, and the calls that send only such.
use text.Mathlib.TextLemmas.{cons-append}
use mizan_client_sdks.Base.{◌≤◌, String, ◌≡◌, refl, ap, false, Option, none, some}
use mizan_client_sdks.Python.Value.{ok}
use mizan_client_sdks.Python.Text.{is_empty, append}
use mizan_client_sdks.Python.Runtime.{Python}
use mizan_client_sdks.Webhooks.Receiver.{lookup}
use mizan_client_sdks.Client.Http.{Request}
use mizan_client_sdks.Client.Retry.{MizanClient, Environment, choose_key, perform}
use mizan_client_sdks.Client.Retry.Effects.{requests_of}
use mizan_client_sdks.Client.Retry.Identity.{Every, Every-map}
use mizan_client_sdks.Client.Scope.{BusinessCall, command_of}
use mizan_client_sdks.Client.Scope.Keys.{key_given, is_mutation, body_given}
use mizan_client_sdks.Client.Scope.Sent.{Carries, Carries-body, IsKey, perform-chosen}
use mizan_client_sdks.Examples.Flow.{Flow, run}
use mizan_client_sdks.Examples.Flow.Sends.{Sends, Sends-run}
use mizan_client_sdks.Examples.Funding.{funding_key}
use mizan_client_sdks.Examples.Lifecycle.{activation_key, consume_key, eligibility_request}

-- A request that may be sent again: under the run's key of its business, or a read, or the advisory
-- eligibility check.
pub data Replayable (py : Python) (business_id run_id : String) (q : Request) : Type 0 where
  activation :
      lookup "Idempotency-Key" q.headers ≡ some (activation_key business_id run_id)
      → Replayable py business_id run_id q
  funding :
      lookup "Idempotency-Key" q.headers ≡ some (funding_key business_id run_id)
      → Replayable py business_id run_id q
  consumption :
      lookup "Idempotency-Key" q.headers ≡ some (consume_key business_id run_id)
      → Replayable py business_id run_id q
  read :
      lookup "Idempotency-Key" q.headers ≡ none → q.body ≡ none → Replayable py business_id run_id q
  advisory :
      lookup "Idempotency-Key" q.headers ≡ none
      → q.body ≡ some (py.dumps (eligibility_request run_id))
      → Replayable py business_id run_id q

pub activation_full :
    (business_id run_id : String) → is_empty (activation_key business_id run_id) ≡ false
activation_full business_id run_id =
    ap is_empty (cons-append "a" "ctivate:" (append business_id (append ":" run_id)))

pub consume_full : (business_id run_id : String) → is_empty (consume_key business_id run_id) ≡ false
consume_full business_id run_id =
    ap is_empty (cons-append "c" "onsume:" (append business_id (append ":" run_id)))

module _ (py : Python) (client : MizanClient) (business_id run_id : String)
    (least : 1 ≤ client.max_attempts) (most : client.max_attempts ≤ 1025) where
  abbrev Safe : {A : Type 0} → Flow A → Type 0
  Safe m = Sends (Replayable py business_id run_id) m

  -- a call under a key of its own
  call-Every :
      (env : Environment) (call : BusinessCall) (key : Option String)
      → choose_key (key_given call) (is_mutation call) env.new_key ≡ key
      → IsKey key
      → ((q : Request) → Carries py call key q → Replayable py business_id run_id q)
      → Every
          (Replayable py business_id run_id)
          (requests_of (perform py client env (command_of py client business_id call)).1)
  call-Every env call key e full h =
      Every-map h _ (perform-chosen py client business_id env least most call key e full)

  pub call-Safe :
      (env : Environment) (call : BusinessCall) (key : Option String)
      → choose_key (key_given call) (is_mutation call) env.new_key ≡ key
      → IsKey key
      → ((q : Request) → Carries py call key q → Replayable py business_id run_id q)
      → Safe (run py client env (command_of py client business_id call))
  call-Safe env call key e full h = Sends-run _ py client env _ (call-Every env call key e full h)

  pub read-Every :
      (env : Environment) (call : BusinessCall)
      → key_given call ≡ none
      → is_mutation call ≡ false
      → body_given call ≡ ok none
      → Every
          (Replayable py business_id run_id)
          (requests_of (perform py client env (command_of py client business_id call)).1)
  unfolding choose_key
  read-Every env call k m b =
      call-Every env call none (rw (k, m) refl) tt (λ q s. read s.key (Carries-body s b))

  pub read-Safe :
      (env : Environment) (call : BusinessCall)
      → key_given call ≡ none
      → is_mutation call ≡ false
      → body_given call ≡ ok none
      → Safe (run py client env (command_of py client business_id call))
  read-Safe env call k m b = Sends-run _ py client env _ (read-Every env call k m b)

  pub keyed-Safe :
      (env : Environment) (call : BusinessCall) (key : String)
      → key_given call ≡ some key
      → is_empty key ≡ false
      → ((q : Request)
          → lookup "Idempotency-Key" q.headers ≡ some key
          → Replayable py business_id run_id q)
      → Safe (run py client env (command_of py client business_id call))
  unfolding choose_key
  keyed-Safe env call key k full h =
      call-Safe env call (some key) (rw k (rw full refl)) full (λ q s. h q s.key)
