-- ===== src/Examples/Funding/Requests.antt =====
-- What the optional funding of the lifecycle example sends.
use mathlib.Core.List.{[]}
use text.Mathlib.TextLemmas.{cons-append}
use mizan_client_sdks.Base.{
  ◌≤◌, String, ◌≡◌, refl, ap, ◌⊎◌, inl, inr, true, false, Option, none, some, List, ◌||◌,
  if◌then◌else◌, Bool-cases,
}
use mizan_client_sdks.Python.Value.{str, Fields, Result, ok, err}
use mizan_client_sdks.Python.Text.{is_empty, append}
use mizan_client_sdks.Python.Runtime.{Python}
use mizan_client_sdks.Webhooks.Receiver.{lookup}
use mizan_client_sdks.Client.Retry.{MizanClient, Environment, Effect, perform, choose_key}
use mizan_client_sdks.Client.Retry.Effects.{requests_of}
use mizan_client_sdks.Client.Retry.Identity.{Every, Every-map}
use mizan_client_sdks.Client.Scope.{BusinessCall, top_up_provider, command_of}
use mizan_client_sdks.Client.Scope.Sent.{Carries, Carries-body, perform-chosen}
use mizan_client_sdks.Models.Shape.{has_shape}
use mizan_client_sdks.Models.Payments.{confirmed_top_up_shape}
use mizan_client_sdks.Models.Built.Funding.{fund, fund-has_shape}
use mizan_client_sdks.Models.Built.Funding as Built
use mizan_client_sdks.Examples.Funding.{
  Funded, misconfigured, is_unset, text_of, funding_key, top_up, fund_built, maybe_fund_provider,
}

module _ (py : Python) (client : MizanClient) (env : Environment)
    (business_id run_id : String) where
  -- The top-up that was sent: both amounts are given, the body is of the declared type, and every
  -- request carries it under the key of the business and the run.
  pub record Sent (amount paid_total : Option String) (effects : List Effect) : Type 0 where
    pub amount_set : is_unset amount ≡ false
    pub paid_set : is_unset paid_total ≡ false
    pub body : Fields
    pub built :
        top_up py client env business_id run_id (text_of amount) (text_of paid_total) ≡ ok body
    pub typed : has_shape confirmed_top_up_shape body ≡ true
    pub keyed :
        Every
          (λ q. lookup "Idempotency-Key" q.headers ≡ some (funding_key business_id run_id))
          (requests_of effects)
    pub carried : Every (λ q. q.body ≡ some (py.dumps body)) (requests_of effects)

  top_up_typed :
      (amount paid_total : Option String) (body : Fields)
      → top_up py client env business_id run_id (text_of amount) (text_of paid_total) ≡ ok body
      → has_shape confirmed_top_up_shape body ≡ true
  unfolding fund Built.funding_shape
  top_up_typed amount paid_total body h =
      fund-has_shape py
        (Built.top_up (str (text_of amount)) (str (append "example-provider-topup:" run_id))
          (str (text_of paid_total)))
        body h

  abbrev top_up_call : Fields → BusinessCall
  top_up_call body = top_up_provider body (some (funding_key business_id run_id))

  key_full : is_empty (funding_key business_id run_id) ≡ false
  key_full = ap is_empty (cons-append "p" "rovider-topup:" (append business_id (append ":" run_id)))

  module _ (least : 1 ≤ client.max_attempts) (most : client.max_attempts ≤ 1025) where
    top_up-Carries :
        (body : Fields)
        → Every (Carries py (top_up_call body) (some (funding_key business_id run_id))) (
            requests_of
              (perform py client env (command_of py client business_id (top_up_call body))).1)
    unfolding choose_key
    top_up-Carries body =
        perform-chosen py client business_id env least most (top_up_call body) _ (rw key_full refl)
          key_full

    fund_built-Sent :
        (amount paid_total : Option String)
        → is_unset amount ≡ false
        → is_unset paid_total ≡ false
        → (r : Result Fields)
        → top_up py client env business_id run_id (text_of amount) (text_of paid_total) ≡ r
        → (requests_of (fund_built py client env business_id run_id r).1 ≡ [])
          ⊎ Sent amount paid_total (fund_built py client env business_id run_id r).1
    unfolding fund_built requests_of command_of
    fund_built-Sent amount paid_total a b (err e) same = inl refl
    fund_built-Sent amount paid_total a b (ok body) same = inr (record {
      amount_set = a;
      paid_set = b;
      body = body;
      built = same;
      typed = top_up_typed amount paid_total body same;
      keyed = Every-map (λ q s. s.key) _ (top_up-Carries body);
      carried = Every-map (λ q s. Carries-body s refl) _ (top_up-Carries body);
    })

    guarded-Sent :
        (amount paid_total : Option String) (rest : Funded × List Effect)
        → rest ≡ (
            if is_unset amount || is_unset paid_total
            then (misconfigured, [])
            else fund_built py client env business_id run_id
                (top_up py client env business_id run_id (text_of amount) (text_of paid_total)))
        → (requests_of rest.1 ≡ []) ⊎ Sent amount paid_total rest.1
    unfolding requests_of
    guarded-Sent amount paid_total rest e = elim (Bool-cases (is_unset amount)) [
      | inl a ↦ let same : rest ≡ (misconfigured, []) = rw a at e in rw same (inl refl)
      | inr a ↦ elim (Bool-cases (is_unset paid_total)) [
        | inl b ↦ let same : rest ≡ (misconfigured, []) = rw (a, b) at e in rw same (inl refl)
        | inr b ↦
            let same : rest
                ≡ fund_built py client env business_id run_id (
                    top_up py client env business_id run_id (text_of amount) (text_of paid_total)) =
              rw (a, b) at e in
            rw same (fund_built-Sent amount paid_total a b _ refl)
      ]
    ]

    -- With 1 to 1025 attempts, the optional funding of the lifecycle example sends nothing, or both
    -- amounts are set, `confirmed_top_up` built the body of every request from them and the run's
    -- payment event, it has the type `ConfirmedTopUp`, and every request carries the key of the
    -- business and the run.
    pub fund-Sent :
        (amount paid_total : Option String)
        → (requests_of (maybe_fund_provider py client env business_id run_id amount paid_total).1
            ≡ [])
          ⊎ Sent amount paid_total
              (maybe_fund_provider py client env business_id run_id amount paid_total).1
    unfolding maybe_fund_provider requests_of
    fund-Sent none none = inl refl
    fund-Sent none (some paid_total) = guarded-Sent none (some paid_total) _ refl
    fund-Sent (some amount) paid_total = guarded-Sent (some amount) paid_total _ refl
