-- ===== src/Client/Scope/Keys.antt =====
-- What a call of a business-scoped method sends: its key and its body.
use mathlib.Core.List.{[]}
use mizan_client_sdks.Base.{String, ◌≡◌, refl, sym, ap, ◌∙◌, Bool, true, false, Option, none, some}
use mizan_client_sdks.Base.Int.{pos, negsuc}
use mizan_client_sdks.Python.Value.{
  Fields, Result, ok, ◌>>=◌, >>-ok, >>=-ok, ok-injective, err-ne-ok,
}
use mizan_client_sdks.Python.Runtime.{Python}
use mizan_client_sdks.Client.Paths.{business_path}
use mizan_client_sdks.Client.Commands.{
  post, read, activate_subscription, change_subscription, cancel_subscription, apply_renewal_event,
  top_up_azeer_units, top_up_provider_balance, refund_provider_balance, set_feature_budget,
  check_eligibility, get_entitlement, consume, preview_balance_impact, get_billing_summary,
  get_ledger,
}
use mizan_client_sdks.Client.Retry.{MizanClient, Command}
use mizan_client_sdks.Client.Scope.{
  BusinessCall, activate, change, cancel, renew, top_up_units, top_up_provider, refund, budget,
  eligibility, entitlement, consume_call, preview, summary, ledger, command_of,
}

-- the key that the caller gives
abbrev pub key_given : BusinessCall → Option String
key_given (activate body key) = key
key_given (change body key) = key
key_given (cancel body key) = key
key_given (renew body key) = key
key_given (top_up_units body key) = key
key_given (top_up_provider body key) = key
key_given (refund body key) = key
key_given (budget code body key) = key
key_given (consume_call built key) = key
key_given call = none

abbrev pub is_mutation : BusinessCall → Bool
is_mutation (eligibility code body) = false
is_mutation (entitlement capability) = false
is_mutation (preview body) = false
is_mutation summary = false
is_mutation (ledger after_sequence limit) = false
is_mutation call = true

-- the request that the call sends as its body, if its builder returns one
abbrev pub body_given : BusinessCall → Result (Option Fields)
body_given (activate body key) = ok (some body)
body_given (change body key) = ok (some body)
body_given (cancel body key) = ok (some body)
body_given (renew body key) = ok (some body)
body_given (top_up_units body key) = ok (some body)
body_given (top_up_provider body key) = ok (some body)
body_given (refund body key) = ok (some body)
body_given (budget code body key) = ok (some body)
body_given (eligibility code body) = ok (some body)
body_given (consume_call built key) = do body ← built; ok (some body)
body_given (preview body) = ok (some body)
body_given call = ok none

pub record Made (call : BusinessCall) (c : Command) : Type 0 where
  pub key : c.idempotency_key ≡ key_given call
  pub mutates : c.mutation ≡ is_mutation call
  pub body : body_given call ≡ ok c.body
  pub no_extra : c.extra_headers ≡ []

module _ (py : Python) (client : MizanClient) (business_id : String) where
  post-Made :
      (call : BusinessCall) (method suffix : String) (body : Fields) (c : Command)
      → body_given call ≡ ok (some body)
      → post py client business_id method suffix body (key_given call) (is_mutation call) ≡ ok c
      → Made call c
  post-Made call method suffix body c e h =
      let (path, found, made) =
        >>=-ok (business_path py client.business_id business_id suffix) _ h in
      let same = sym (ok-injective made) in
      record {
        key = ap (λ (d : Command). d.idempotency_key) same;
        mutates = ap (λ (d : Command). d.mutation) same;
        body = e ∙ ap (λ (d : Command). ok d.body) (sym same);
        no_extra = ap (λ (d : Command). d.extra_headers) same;
      }

  pub read-Made :
      (call : BusinessCall) (suffix query : String) (c : Command)
      → body_given call ≡ ok none
      → key_given call ≡ none
      → is_mutation call ≡ false
      → read py client business_id suffix query ≡ ok c
      → Made call c
  read-Made call suffix query c e k m h =
      let (path, found, made) =
        >>=-ok (business_path py client.business_id business_id suffix) _ h in
      let same = sym (ok-injective made) in
      record {
        key = ap (λ (d : Command). d.idempotency_key) same ∙ sym k;
        mutates = ap (λ (d : Command). d.mutation) same ∙ sym m;
        body = e ∙ ap (λ (d : Command). ok d.body) (sym same);
        no_extra = ap (λ (d : Command). d.extra_headers) same;
      }

  pub command_of-Made :
      (call : BusinessCall) (c : Command)
      → command_of py client business_id call ≡ ok c
      → Made call c
  unfolding command_of activate_subscription change_subscription cancel_subscription
      apply_renewal_event top_up_azeer_units top_up_provider_balance refund_provider_balance
      set_feature_budget check_eligibility get_entitlement consume preview_balance_impact
      get_billing_summary get_ledger
  command_of-Made (activate body key) c h =
      post-Made (activate body key) "POST" "subscriptions/activate" body c refl
        (>>-ok _ _ (>>-ok _ _ h).1).1
  command_of-Made (change body key) c h = post-Made (change body key) _ _ body c refl h
  command_of-Made (cancel body key) c h = post-Made (cancel body key) _ _ body c refl h
  command_of-Made (renew body key) c h = post-Made (renew body key) _ _ body c refl (>>-ok _ _ h).1
  command_of-Made (top_up_units body key) c h =
      post-Made (top_up_units body key) _ _ body c refl (>>-ok _ _ h).1
  command_of-Made (top_up_provider body key) c h =
      post-Made (top_up_provider body key) _ _ body c refl (>>-ok _ _ h).1
  command_of-Made (refund body key) c h =
      post-Made (refund body key) _ _ body c refl (>>-ok _ _ (>>-ok _ _ h).1).1
  command_of-Made (budget code body key) c h = post-Made (budget code body key) _ _ body c refl h
  command_of-Made (eligibility code body) c h = post-Made (eligibility code body) _ _ body c refl h
  command_of-Made (entitlement capability) c h =
      read-Made (entitlement capability) _ _ c refl refl refl h
  command_of-Made (consume_call built key) c h =
      let (body, e, made) = >>=-ok built _ h in
      post-Made (consume_call built key) _ _ body c (rw e refl) made
  command_of-Made (preview body) c h = post-Made (preview body) _ _ body c refl h
  command_of-Made summary c h = read-Made summary _ _ c refl refl refl h
  command_of-Made (ledger (pos n) (pos m)) c h =
      read-Made (ledger (pos n) (pos m)) _ _ c refl refl refl (>>-ok _ _ h).1
  command_of-Made (ledger (negsuc n) limit) c h = absurd (err-ne-ok h)
  command_of-Made (ledger (pos n) (negsuc m)) c h = absurd (err-ne-ok h)
