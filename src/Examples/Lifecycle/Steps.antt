-- ===== src/Examples/Lifecycle/Steps.antt =====
-- What each step of the lifecycle example sends when it is run again.
use mizan_client_sdks.Base.{
  ℕ, suc, zero, ◌≤◌, String, ◌≡◌, refl, Bool, Option, none, some, List, inl, inr,
}
use mizan_client_sdks.Base.Int.{pos}
use mizan_client_sdks.Python.Value.{
  Value, int, bool, float, str, obj, ok, Result-cases, err-ne-ok, >>-ok,
}
use mizan_client_sdks.Python.Text.{append}
use mizan_client_sdks.Python.Runtime.{Python}
use mizan_client_sdks.Client.Retry.{MizanClient, Environment, Effect, choose_key, perform, Command}
use mizan_client_sdks.Client.Retry.Effects.{requests_of}
use mizan_client_sdks.Client.Retry.Identity.{Every, Every-map}
use mizan_client_sdks.Client.Commands.{get_catalog, get_ledger_from}
use mizan_client_sdks.Client.Scope.Keys.{Made, read-Made, command_of-Made}
use mizan_client_sdks.Client.Scope.{
  activate, eligibility, entitlement, consume_call, summary, ledger, command_of,
}
use mizan_client_sdks.Builders.Usage.{outbound_delivered_message}
use mizan_client_sdks.Client.Consume.{consume_outbound_delivered_message}
use mizan_client_sdks.Client.Scope.Sent.{Carries-body, request-Carries}
use mizan_client_sdks.Examples.Flow.{Flow, run}
use mizan_client_sdks.Examples.Flow.Sends.{
  Sends, Sends-then, Sends-as_dict, Every-append, Sends-ensure, Sends-run, Sends-quiet,
  Sends-behind, Sends-dict_behind,
}
use mizan_client_sdks.Examples.Funding.{Funded, skipped, misconfigured, refused, called}
use mizan_client_sdks.Examples.Funding.Requests.{fund-Sent}
use mizan_client_sdks.Examples.Export.{
  Exported, exported, mistyped, unfinished, Turn, again, follow, export_from, export_ledger,
}
use mizan_client_sdks.Examples.Export as Export
use mizan_client_sdks.Vocabulary.Usage.{feature_code_wire, FeatureCode}
use mizan_client_sdks.Vocabulary.Capabilities.{capability_wire, Capability}
use mizan_client_sdks.Examples.Lifecycle.{
  Calls, usage_metadata, activation_key, consume_key, getenv_or, activation_request,
  eligibility_request, funded_step, exported_step, check, consume_once, consume_twice, report,
  lifecycle, main, required_step, required, caught,
}
use mizan_client_sdks.Examples.Lifecycle as Lifecycle
use mizan_client_sdks.Examples.Lifecycle.Keys.{
  Replayable, read, advisory, funding, activation, consumption, activation_full, consume_full,
  call-Safe, keyed-Safe, read-Safe,
}

module _ (py : Python) (client : MizanClient) (business_id run_id : String)
    (least : 1 ≤ client.max_attempts) (most : client.max_attempts ≤ 1025)
    (same : Value → Value → Bool) (getenv : String → Option String) (calls : Calls) where
  abbrev Safe : {A : Type 0} → Flow A → Type 0
  Safe m = Sends (Replayable py business_id run_id) m

  Safe-consume_once :
      (env : Environment) (occurred_at : Value)
      → Safe (consume_once py same getenv calls client business_id run_id env occurred_at)
  unfolding consume_once command_of consume_outbound_delivered_message
  Safe-consume_once env occurred_at =
      Sends-then _ _ _
        (keyed-Safe py client business_id run_id least most env
          (consume_call
            (outbound_delivered_message py (str (append "example-message:" run_id)) occurred_at
              (str "1") (some (usage_metadata run_id)))
            (some (consume_key business_id run_id)))
          _ refl (consume_full business_id run_id) (λ q. consumption))
        (λ p. Sends-behind _ "data" (obj p) _ (Sends-as_dict _))

  Safe-consume_twice :
      (occurred_at : Value)
      → Safe (consume_twice py same getenv calls client business_id run_id occurred_at)
  unfolding consume_twice
  Safe-consume_twice occurred_at =
      Sends-then _ _ _ (Safe-consume_once calls.consumption occurred_at) (λ decision.
        Sends-dict_behind _ _ _ (λ _.
          Sends-then _ _ _ (Safe-consume_once calls.replay occurred_at)
            (λ replay. Sends-ensure _ _ _)))

  Safe-catalog : Safe (run py client calls.catalog (ok get_catalog))
  unfolding get_catalog choose_key perform
  Safe-catalog = Sends-run _ py client calls.catalog (ok get_catalog) (
      Every-map (λ q s. read s.key (Carries-body s refl)) _
        (request-Carries py client business_id calls.catalog least most summary none refl tt
          get_catalog (record { key = refl; mutates = refl; body = refl; no_extra = refl })))

  Safe-activate :
      (paid_total : String)
      → Safe (Lifecycle.activate py same getenv calls client business_id run_id paid_total)
  unfolding Lifecycle.activate command_of
  Safe-activate paid_total = Sends-then _ _ _ Safe-catalog (λ catalog.
      Sends-behind _ _ _ _ (λ version.
        Sends-then _ _ _
          (keyed-Safe py client business_id run_id least most calls.activation
            (activate
              (activation_request version (getenv_or getenv "MIZAN_BUSINESS_TIMEZONE" "Asia/Riyadh")
                run_id paid_total)
              (some (activation_key business_id run_id)))
            _ refl (activation_full business_id run_id) (λ q. activation))
          (λ activated. Sends-behind _ _ _ _ (λ a. Sends-behind _ _ _ _ (λ _.
            Sends-behind _ _ _ _
              (λ _. Sends-behind _ _ _ _ (λ _. Sends-behind _ _ _ _ (λ _. Sends-quiet _ _))))))))

  Safe-check : Safe (check py same getenv calls client business_id run_id)
  unfolding check command_of choose_key
  Safe-check =
      Sends-then _ _ _
        (read-Safe py client business_id run_id least most calls.entitlement
          (entitlement (capability_wire Capability.basic_analytics)) refl refl refl)
        (λ entitled. Sends-behind _ _ _ _ (λ e. Sends-dict_behind _ _ _ (λ _.
          Sends-then _ _ _
            (call-Safe py client business_id run_id least most calls.eligibility
              (eligibility (feature_code_wire FeatureCode.outbound_delivered_message)
                (eligibility_request run_id))
              none refl tt (λ q s. advisory s.key (Carries-body s refl)))
            (λ checked.
              Sends-behind _ _ _ _ (λ a. Sends-dict_behind _ _ _ (λ _. Sends-ensure _ _ _))))))

  Sends-funded_step :
      (r : Funded × List Effect)
      → Every (Replayable py business_id run_id) (requests_of r.1)
      → Safe (funded_step r)
  Sends-funded_step (skipped, es) h = record { every = h }
  Sends-funded_step (misconfigured, es) h = record { every = h }
  Sends-funded_step (refused e, es) h = record { every = h }
  Sends-funded_step (called o, es) h =
      Sends-then _ _ _ (record { every = h })
        (λ payload. Sends-behind _ _ _ _ (λ _. Sends-quiet _ _))

  Safe-fund : Safe (Lifecycle.fund py same getenv calls client business_id run_id)
  unfolding Lifecycle.fund
  Safe-fund =
      Sends-funded_step _
        (elim (fund-Sent py client calls.funding business_id run_id least most
          (getenv "MIZAN_PROVIDER_TOP_UP_MINOR")
          (getenv "MIZAN_PROVIDER_TOP_UP_PAID_TOTAL_MINOR")) [
            | inl e ↦ rw e tt
            | inr sent ↦ Every-map (λ q. funding) _ sent.keyed
          ])

  Every-follow :
      (es : List Effect) (rest : Value → ℕ → Exported × List Effect) (t : Turn)
      → Every (Replayable py business_id run_id) (requests_of es)
      → ((after : Value) (count : ℕ)
          → Every (Replayable py business_id run_id) (requests_of (rest after count).1))
      → Every (Replayable py business_id run_id) (requests_of (follow es rest t).1)
  unfolding follow
  Every-follow es rest (Export.done e) h k = h
  Every-follow es rest (again after count) h k = Every-append _ es _ h (k after count)

  -- a cursor leads to a read, whatever its type
  get_ledger_from-Made :
      (after : Value) (c : Command)
      → get_ledger_from py client business_id after ≡ ok c
      → Made summary c
  unfolding get_ledger_from command_of
  get_ledger_from-Made (int n) c h =
      let made = command_of-Made py client business_id (ledger n (pos 100)) c h in
      record { key = made.key; mutates = made.mutates; body = made.body; no_extra = made.no_extra }
  get_ledger_from-Made (bool b) c h = read-Made py client business_id summary _ _ c refl refl refl h
  get_ledger_from-Made (float text finite) c h =
      read-Made py client business_id summary _ _ c refl refl refl (>>-ok _ _ h).1
  get_ledger_from-Made _ c h = absurd (err-ne-ok h)

  Every-ledger :
      (n : ℕ) (after : Value)
      → Every
          (Replayable py business_id run_id)
          (requests_of (Export.call py client business_id calls.ledger n after).1)
  unfolding perform requests_of choose_key
  Every-ledger n after = elim (Result-cases (get_ledger_from py client business_id after)) [
    | inr (x, e) ↦ rw (e, perform) tt
    | inl (c, e) ↦
        rw (e, perform)
          (Every-map (λ q s. read s.key (Carries-body s refl)) _
            (request-Carries py client business_id (calls.ledger n after) least most summary none
              refl tt c (get_ledger_from-Made after c e)))
  ]

  Every-export :
      (fuel n : ℕ) (after : Value) (count : ℕ)
      → Every
          (Replayable py business_id run_id)
          (requests_of (export_from py client business_id calls.ledger fuel n after count).1)
  unfolding export_from requests_of
  Every-export zero n after count = tt
  Every-export (suc fuel) n after count =
      Every-follow _ _ _ (Every-ledger n after) (Every-export fuel (suc n))

  Sends-exported_step :
      (r : Exported × List Effect)
      → Every (Replayable py business_id run_id) (requests_of r.1)
      → Safe (exported_step r)
  Sends-exported_step (exported count after, es) h = record { every = h }
  Sends-exported_step (Export.failed o, es) h = record { every = h }
  Sends-exported_step (mistyped, es) h = record { every = h }
  Sends-exported_step (unfinished, es) h = record { every = h }

  Safe-report : (fuel : ℕ) → Safe (report py same getenv calls client business_id run_id fuel)
  unfolding report export_ledger command_of
  Safe-report fuel =
      Sends-then _ _ _
        (read-Safe py client business_id run_id least most calls.summary summary refl refl refl)
        (λ summarized. Sends-behind _ _ _ _ (λ s. Sends-behind _ _ _ _ (λ balances.
          Sends-behind _ _ _ _ (λ _.
            Sends-behind _ _ _ _
              (λ _. Sends-exported_step _ (Every-export fuel 0 (int (pos 0)) 0))))))

  pub Safe-lifecycle :
      (fuel : ℕ) (paid_total : String)
      → Safe (lifecycle py same getenv calls client business_id run_id fuel paid_total)
  unfolding lifecycle
  Safe-lifecycle fuel paid_total = Sends-then _ _ _ (Safe-activate paid_total) (λ activation.
      Sends-then _ _ _ Safe-fund (λ _. Sends-then _ _ _ Safe-check (λ _.
        Sends-behind _ _ _ _ (λ occurred_at.
          Sends-then _ _ _ (Safe-consume_twice occurred_at) (λ _. Safe-report fuel)))))
