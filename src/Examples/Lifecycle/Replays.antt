-- ===== src/Examples/Lifecycle/Replays.antt =====
-- What the lifecycle example sends when it is run again.
use mizan_client_sdks.Base.{
  ℕ, String, ◌≡◌, sym, ap, Bool, true, Option, none, some, inl, inr, Bool-cases, arith,
}
use mizan_client_sdks.Base.Int.{pos}
use mizan_client_sdks.Python.Value.{Value, Result, ok, err}
use mizan_client_sdks.Python.Text.{is_empty}
use mizan_client_sdks.Python.Runtime.{Python}
use mizan_client_sdks.Client.Http.{Request}
use mizan_client_sdks.Client.Retry.{MizanClient}
use mizan_client_sdks.Client.Retry.Effects.{requests_of}
use mizan_client_sdks.Client.Retry.Identity.{Every}
use mizan_client_sdks.Client.Commands.{SplitUrl, init}
use mizan_client_sdks.Examples.Flow as Flow
use mizan_client_sdks.Examples.Flow.{
  failed, runtime_error, raised, lookup_error, Flow, Step, done, stopped, ◌>>=◌, ◌>>◌, finish, stop,
  lift, run, at_key, as_dict,
}
use mizan_client_sdks.Examples.Flow.Sends.{Sends, Sends-bind, Sends-lift, Sends-quiet}
use mizan_client_sdks.Examples.Funding.{text_of, present, system_exit, Required, required_env}
use mizan_client_sdks.Examples.Failures.{caught}
use mizan_client_sdks.Examples.Lifecycle.{Calls, getenv_or, main, required_step, required}
use mizan_client_sdks.Examples.Lifecycle.Keys.{Replayable}
use mizan_client_sdks.Examples.Lifecycle.Steps.{Safe-lifecycle}

init-attempts :
    (urlsplit : String → SplitUrl) (base_url token : String) (business_id : Option String)
    (tries : ℕ) (client : MizanClient)
    → init urlsplit base_url token business_id true (pos tries) ≡ ok client
    → client.max_attempts ≡ tries
unfolding init
init-attempts urlsplit base_url token business_id tries client h = ground arith

Sends-required_step : (P : Request → Type 0) (r : Required) → Sends P (required_step r)
Sends-required_step P (present v) = Sends-quiet P _
Sends-required_step P (system_exit message) = Sends-quiet P _

Sends-required :
    (P : Request → Type 0) (getenv : String → Option String) (name : String)
    → Sends P (required getenv name)
Sends-required P getenv name = Sends-required_step P (required_env name (getenv name))

done-injective : {A : Type 0} {a b : A} → done a ≡ done b → a ≡ b
done-injective h = cc

-- what a variable that must be set is set to
required_step-set :
    (name : String) (o : Option String) (v : String)
    → (required_step (required_env name o)).0 ≡ done v
    → v ≡ text_of o
unfolding required_env
required_step-set name none v h = absurd cc
required_step-set name (some w) v h = elim (Bool-cases (is_empty w)) [
  | inl empty ↦ absurd (cc (rw empty at h))
  | inr full ↦ sym (done-injective (rw full at h))
]

lift-ok : {A : Type 0} (r : Result A) (a : A) → (lift r).0 ≡ done a → r ≡ ok a
lift-ok (ok b) a h = ap ok (done-injective h)
lift-ok (err e) a h = cc

Sends-caught :
    (P : Request → Type 0) {A : Type 0} (py : Python) (m : Flow A)
    → Sends P m
    → Sends P (caught py m)
unfolding caught
Sends-caught P py (done a, es) h = h
Sends-caught P py (stopped (failed o), es) h = record { every = h.every }
Sends-caught P py (stopped (Flow.system_exit m), es) h = h
Sends-caught P py (stopped (runtime_error m), es) h = h
Sends-caught P py (stopped (raised e), es) h = h
Sends-caught P py (stopped lookup_error, es) h = h

-- Whatever the replies, and however far the ledger export is followed, every request that `main` of
-- end_to_end.py sends carries the key of the activation, the funding or the consumption of its
-- business and run, or has no idempotency key and is either without a body or the advisory
-- eligibility check of the run.
pub main-Replayable :
    (py : Python) (same : Value → Value → Bool) (urlsplit : String → SplitUrl)
    (getenv : String → Option String) (calls : Calls) (fuel : ℕ)
    → Every
        (Replayable py
          (getenv_or getenv "MIZAN_BUSINESS_ID" "")
          (getenv_or getenv "MIZAN_EXAMPLE_RUN_ID" "checkout-001"))
        (requests_of (main py same urlsplit getenv calls fuel).1)
unfolding main
main-Replayable py same urlsplit getenv calls fuel =
    let run_id = getenv_or getenv "MIZAN_EXAMPLE_RUN_ID" "checkout-001" in
    let P = Replayable py (getenv_or getenv "MIZAN_BUSINESS_ID" "") run_id in
    (Sends-bind P _ _ (Sends-required P getenv "MIZAN_BASE_URL") (λ base_url _.
      Sends-bind P _ _ (Sends-required P getenv "MIZAN_API_TOKEN") (λ token _.
        Sends-bind P _ _ (Sends-required P getenv "MIZAN_BUSINESS_ID") (λ id set.
          Sends-bind P _ _ (Sends-required P getenv "MIZAN_ACTIVATION_PAID_TOTAL_MINOR")
            (λ paid_total _. Sends-bind P _ _ (Sends-lift P _) (λ client made.
              let tries =
                init-attempts urlsplit base_url token (some id) 3 client (lift-ok _ client made) in
              Sends-caught P py _ (
                rw (sym (required_step-set "MIZAN_BUSINESS_ID" (getenv "MIZAN_BUSINESS_ID") id set))
                  (Safe-lifecycle py client id run_id (omega arith) (omega arith) same getenv calls
                    fuel paid_total)))))))).every
