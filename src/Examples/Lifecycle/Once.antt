-- ===== src/Examples/Lifecycle/Once.antt =====
-- The consumption of the lifecycle example and its replay.
use mizan_client_sdks.Base.{◌≤◌, String, ◌≡◌, refl, sym, ap, ◌∙◌, Bool, Option, some}
use mizan_client_sdks.Python.Value.{Value, str, obj, Fields, Result, ok, >>=-ok, ok-injective}
use mizan_client_sdks.Python.Text.{append}
use mizan_client_sdks.Python.Runtime.{Python}
use mizan_client_sdks.Webhooks.Receiver.{lookup}
use mizan_client_sdks.Builders.Usage.{outbound_delivered_message}
use mizan_client_sdks.Client.Http.{Request}
use mizan_client_sdks.Client.Retry.{MizanClient, Environment, choose_key, encode_body}
use mizan_client_sdks.Client.Retry.Effects.{requests_of}
use mizan_client_sdks.Client.Retry.Identity.{Every, Every-map}
use mizan_client_sdks.Client.Consume.{consume_outbound_delivered_message}
use mizan_client_sdks.Client.Scope.{BusinessCall, consume_call, command_of}
use mizan_client_sdks.Client.Scope.Sent.{Carries, perform-chosen}
use mizan_client_sdks.Examples.Flow.Sends.{
  Sends, Sends-then, Sends-as_dict, Sends-ensure, Sends-run, Sends-behind, Sends-dict_behind,
}
use mizan_client_sdks.Examples.Lifecycle.{
  Calls, usage_metadata, consume_key, consume_once, consume_twice,
}
use mizan_client_sdks.Examples.Lifecycle.Keys.{consume_full}

module _ (py : Python) (client : MizanClient) (business_id run_id : String)
    (occurred_at : Value) where
  -- what the message of the run is built into
  abbrev pub message : Result Fields
  message =
      outbound_delivered_message py (str (append "example-message:" run_id)) occurred_at (str "1")
        (some (usage_metadata run_id))

  -- The request is the consumption of the run's message: under its key, with its body.
  pub record Message (q : Request) : Type 0 where
    pub key : lookup "Idempotency-Key" q.headers ≡ some (consume_key business_id run_id)
    pub request : Fields
    pub built : message ≡ ok request
    pub body : q.body ≡ some (py.dumps request)

  abbrev message_call : BusinessCall
  message_call = consume_call message (some (consume_key business_id run_id))

  Carries-Message :
      (q : Request) → Carries py message_call (some (consume_key business_id run_id)) q → Message q
  Carries-Message q s =
      let (request, e, same) = >>=-ok message (λ r. ok (some r)) s.built in
      record {
        key = s.key;
        request = request;
        built = e;
        body = s.body ∙ ap (λ g. encode_body py g) (sym (ok-injective same));
      }

  module _ (same : Value → Value → Bool) (getenv : String → Option String) (calls : Calls)
      (least : 1 ≤ client.max_attempts) (most : client.max_attempts ≤ 1025) where
    Sends-consume_once :
        (env : Environment)
        → Sends Message
            (consume_once py same getenv calls client business_id run_id env occurred_at)
    unfolding consume_once command_of consume_outbound_delivered_message choose_key
    Sends-consume_once env =
        Sends-then _ _ _
          (Sends-run _ py client env _ (
            Every-map Carries-Message _ (
              perform-chosen py client business_id env least most message_call _
                (rw (consume_full business_id run_id) refl) (consume_full business_id run_id))))
          (λ p. Sends-behind _ "data" (obj p) _ (Sends-as_dict _))

    -- With 1 to 1025 attempts, every request of the consumption and of its replay in the lifecycle
    -- example carries the consumption's key of the business and the run, and as its body what the
    -- builder returned for the run's message.
    pub consume_twice-Message :
        Every Message
          (requests_of (consume_twice py same getenv calls client business_id run_id occurred_at).1)
    unfolding consume_twice
    consume_twice-Message =
        (Sends-then _ _ _ (Sends-consume_once calls.consumption) (λ decision.
          Sends-dict_behind _ _ _ (λ _.
            Sends-then _ _ _ (Sends-consume_once calls.replay)
              (λ replay. Sends-ensure _ _ _)))).every
