-- ===== src/Client/Scope.antt =====
-- Every business-scoped method of `MizanClient`, as one type of calls, and the business that a call
-- reaches.
pub mod Keys
pub mod Sent
use mathlib.Core.List.{[]}
use text.Mathlib.TextLemmas.{append_assoc}
use mizan_client_sdks.Base.{
  String, ◌≡◌, ◌≢◌, ◌⊎◌, sym, ◌∙◌, ap, Bool, true, false, Option, none, some, inl, inr,
}
use mizan_client_sdks.Base.Int.{ℤ, pos, negsuc}
use mizan_client_sdks.Python.Value.{
  Fields, Exception, Result, ok, err, ◌>>◌, >>-ok, >>=-ok, Result-cases, ok-injective,
}
use mizan_client_sdks.Python.Text.{append}
use mizan_client_sdks.Python.Runtime.{Python}
use mizan_client_sdks.Client.Paths.{quote, business_path}
use mizan_client_sdks.Client.Paths.Quoting.{IsSegment, business_path-ok}
use mizan_client_sdks.Client.Commands.{
  post, read, validate_payment_event_request, activate_subscription, change_subscription,
  cancel_subscription, apply_renewal_event, top_up_azeer_units, top_up_provider_balance,
  refund_provider_balance, set_feature_budget, check_eligibility, get_entitlement, consume,
  preview_balance_impact, get_billing_summary, get_ledger,
}
use mizan_client_sdks.Client.Consume.{consume_built}
use mizan_client_sdks.Client.Retry.{MizanClient, Command, Environment, escaped, perform}

-- A call of a method that takes a business. `consume_call` stands for the `consume_*` methods: each is
-- `consume` of what its builder returned or raised.
pub data BusinessCall : Type 0 where
  activate change cancel renew top_up_units top_up_provider refund :
      Fields → Option String → BusinessCall
  budget : (feature_code : String) → Fields → Option String → BusinessCall
  eligibility : (feature_code : String) → Fields → BusinessCall
  entitlement : (capability : String) → BusinessCall
  consume_call : Result Fields → Option String → BusinessCall
  preview : Fields → BusinessCall
  summary : BusinessCall
  ledger : (after_sequence limit : ℤ) → BusinessCall

module _ (py : Python) (client : MizanClient) (business_id : String) where
  unfoldable pub command_of : BusinessCall → Result Command
  command_of (activate request key) = activate_subscription py client business_id request key
  command_of (change request key) = change_subscription py client business_id request key
  command_of (cancel request key) = cancel_subscription py client business_id request key
  command_of (renew request key) = apply_renewal_event py client business_id request key
  command_of (top_up_units request key) = top_up_azeer_units py client business_id request key
  command_of (top_up_provider request key) =
      top_up_provider_balance py client business_id request key
  command_of (refund request key) = refund_provider_balance py client business_id request key
  command_of (budget code request key) = set_feature_budget py client business_id code request key
  command_of (eligibility code request) = check_eligibility py client business_id code request
  command_of (entitlement capability) = get_entitlement py client business_id capability
  command_of (consume_call built key) = consume_built py client business_id built key
  command_of (preview request) = preview_balance_impact py client business_id request
  command_of summary = get_billing_summary py client business_id
  command_of (ledger after_sequence limit) = get_ledger py client business_id after_sequence limit

  -- The command is for the business: its path is one of that business, and the client may reach it.
  pub record InScope (c : Command) : Type 0 where
    pub header : c.business_id ≡ business_id
    pub named : business_id ≢ ""
    pub own : (client.business_id ≡ none) ⊎ (client.business_id ≡ some business_id)
    pub suffix : String
    pub path : c.path ≡ append "/v1/businesses/" (append (quote business_id) (append "/" suffix))
    pub segment : IsSegment (quote business_id)
    pub no_extra : c.extra_headers ≡ []

  abbrev Scoped : Result Command → Type 0
  Scoped r = (c : Command) → r ≡ ok c → InScope c

  Scoped->> : (m : Result (Unit {0})) (k : Result Command) → Scoped k → Scoped (m >> k)
  Scoped->> m k h c e = h c (>>-ok m k e).1

  Scoped-post :
      (method suffix : String) (body : Fields) (key : Option String) (mutation : Bool)
      → Scoped (post py client business_id method suffix body key mutation)
  Scoped-post method suffix body key mutation c e =
      let (path, found, made) =
        >>=-ok (business_path py client.business_id business_id suffix)
          (λ path. ok (record {
            method = method;
            path = path;
            body = some body;
            business_id = business_id;
            idempotency_key = key;
            mutation = mutation;
            extra_headers = [];
          }))
          e in
      let (named, own, spelled, segment) =
        business_path-ok py client.business_id business_id suffix found in
      let same = sym (ok-injective made) in
      record {
        header = ap (λ (d : Command). d.business_id) same;
        named = named;
        own = own;
        suffix = suffix;
        path = ap (λ (d : Command). d.path) same ∙ spelled;
        segment = segment;
        no_extra = ap (λ (d : Command). d.extra_headers) same;
      }

  Scoped-read : (suffix query : String) → Scoped (read py client business_id suffix query)
  Scoped-read suffix query c e =
      let (path, found, made) =
        >>=-ok (business_path py client.business_id business_id suffix)
          (λ path. ok (record {
            method = "GET";
            path = append path query;
            body = none;
            business_id = business_id;
            idempotency_key = none;
            mutation = false;
            extra_headers = [];
          }))
          e in
      let (named, own, spelled, segment) =
        business_path-ok py client.business_id business_id suffix found in
      let same = sym (ok-injective made) in
      record {
        header = ap (λ (d : Command). d.business_id) same;
        named = named;
        own = own;
        suffix = append suffix query;
        path =
            ap (λ (d : Command). d.path) same
            ∙ ap (λ p. append p query) spelled
            ∙ simp append_assoc;
        segment = segment;
        no_extra = ap (λ (d : Command). d.extra_headers) same;
      }

  Scoped-err : (e : Exception) → Scoped (err e)
  Scoped-err e c h = cc

  Scoped-consume :
      (built : Result Fields) (key : Option String)
      → Scoped (consume_built py client business_id built key)
  Scoped-consume (ok request) key =
      unfold consume in Scoped-post "POST" "consumptions" request key true
  Scoped-consume (err e) key = Scoped-err e

  Scoped-ledger :
      (after_sequence limit : ℤ) → Scoped (get_ledger py client business_id after_sequence limit)
  unfolding get_ledger
  Scoped-ledger (negsuc n) limit = Scoped-err _
  Scoped-ledger (pos n) (negsuc m) = Scoped-err _
  Scoped-ledger (pos n) (pos m) = Scoped->> _ _ (Scoped-read "ledger" _)

  Scoped-call : (call : BusinessCall) → Scoped (command_of call)
  unfolding command_of activate_subscription change_subscription cancel_subscription
      apply_renewal_event top_up_azeer_units top_up_provider_balance refund_provider_balance
      set_feature_budget check_eligibility get_entitlement preview_balance_impact
      get_billing_summary
  Scoped-call (activate request key) =
      Scoped->> (validate_payment_event_request py client business_id request) _
        (Scoped->> _ _ (Scoped-post "POST" "subscriptions/activate" request key true))
  Scoped-call (change request key) = Scoped-post "POST" "subscriptions/change" request key true
  Scoped-call (cancel request key) = Scoped-post "POST" "subscriptions/cancel" request key true
  Scoped-call (renew request key) =
      Scoped->> (validate_payment_event_request py client business_id request) _
        (Scoped-post "POST" "subscriptions/renewal-events" request key true)
  Scoped-call (top_up_units request key) =
      Scoped->> (validate_payment_event_request py client business_id request) _
        (Scoped-post "POST" "azeer-units/top-ups" request key true)
  Scoped-call (top_up_provider request key) =
      Scoped->> (validate_payment_event_request py client business_id request) _
        (Scoped-post "POST" "provider-balance/top-ups" request key true)
  Scoped-call (refund request key) =
      Scoped->> (validate_payment_event_request py client business_id request) _
        (Scoped->> _ _ (Scoped-post "POST" "provider-balance/refunds" request key true))
  Scoped-call (budget code request key) = Scoped-post "PUT" _ request key true
  Scoped-call (eligibility code request) = Scoped-post "POST" _ request none false
  Scoped-call (entitlement capability) = Scoped-read _ ""
  Scoped-call (consume_call built key) = Scoped-consume built key
  Scoped-call (preview request) = Scoped-post "POST" "balance-impact-preview" request none false
  Scoped-call summary = Scoped-read "billing-summary" ""
  Scoped-call (ledger after_sequence limit) = Scoped-ledger after_sequence limit

  -- The command that a business-scoped method builds is for the business of the call, which is the
  -- client's own if the client is bound to one.
  pub command_of-InScope : (call : BusinessCall) {c : Command} → command_of call ≡ ok c → InScope c
  command_of-InScope call {c} h = Scoped-call call c h

  own_of :
      {own : String}
      → (client.business_id ≡ none) ⊎ (client.business_id ≡ some business_id)
      → client.business_id ≡ some own
      → business_id ≡ own
  own_of (inl free) bound = cc
  own_of (inr same) bound = cc

  -- A client that is bound to one business sends no request for another from any of the
  -- business-scoped methods of `MizanClient`, whatever the arguments: the call raises before any
  -- effect. The methods that `MizanAdminClient` adds are not among them.
  pub perform_other-silent :
      (env : Environment) (own : String) (call : BusinessCall)
      → client.business_id ≡ some own
      → business_id ≢ own
      → (e : Exception) × (perform py client env (command_of call) ≡ (escaped e, []))
  unfolding perform
  perform_other-silent env own call bound other = elim (Result-cases (command_of call)) [
    | inl (c, e) ↦ absurd (other (own_of ((command_of-InScope call e).own) bound))
    | inr (x, e) ↦ (x, rw (e, perform))
  ]
