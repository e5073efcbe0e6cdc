-- ===== src/Tests/Calls.antt =====
-- Calls of the clients, their paths and the default transport.
use mathlib.Core.List.{[], ◌∷◌}
use mathlib.Core.Bool.{false≢true}
use mizan_client_sdks.Base.{eq_iff, String, ◌≡◌, ◌≢◌, refl, true, Option, none, some, arith}
use mizan_client_sdks.Python.Value.{Exception, end, ok}
use mizan_client_sdks.Webhooks.Receiver.{lookup}
use mizan_client_sdks.Client.Paths.{utf8, hex, percent, is_unreserved, quote, business_path}
use mizan_client_sdks.Client.Paths.Quoting.{IsSegment, quote-IsSegment}
use mizan_client_sdks.Client.Retry.{Command, escaped, request, perform}
use mizan_client_sdks.Client.Retry.Effects.{requests_of}
use mizan_client_sdks.Client.Retry.Identity.{Every}
use mizan_client_sdks.Client.Commands.{change_subscription}
use mizan_client_sdks.Client.Paths.Isolation.{business_path-injective}
use mizan_client_sdks.Client.Scope.Sent.{Chosen, Carries, perform-Carries}
use mizan_client_sdks.Client.Admin.{MizanAdminClient, configure_global_delivery_endpoint}
use mizan_client_sdks.Client.Admin.Attribution.{AdminCall, admin_command_of, request-actor}
use mizan_client_sdks.Client.Scope.{
  BusinessCall, command_of, InScope, command_of-InScope, perform_other-silent,
}
use mizan_client_sdks.Python.Numbers.Print.{digit}
use mizan_client_sdks.Tests.Interpreter.{ascii}
use mizan_client_sdks.Client.Transport.{opened, stream, complete}
use mizan_client_sdks.Client.Transport.Limit.{limited, unlimited, request-limited}
use mizan_client_sdks.Tests.Runs.{three_tries, consumption, flaky}

-- what a call opens
call_runs : Unit {0}
unfolding digit utf8 hex percent is_unreserved quote business_path change_subscription command_of
call_runs = tt

abbrev change_call : BusinessCall
change_call = BusinessCall.change end (some "k1")

abbrev change_command : Command
change_command = record {
  method = "POST";
  path = "/v1/businesses/b1/subscriptions/change";
  body = some end;
  business_id = "b1";
  idempotency_key = some "k1";
  mutation = true;
  extra_headers = [];
}

change_run : command_of ascii three_tries "b1" change_call ≡ ok change_command
unfolding call_runs
change_run = refl

command_of-InScope_example : InScope ascii three_tries "b1" change_command
command_of-InScope_example = command_of-InScope ascii three_tries "b1" change_call change_run

abbrev other : String
other = "b2"

other_business : other ≢ "b1"
other_business h = false≢true ((eq_iff other "b1").1 h)

perform_other-silent_example :
    (e : Exception) × (perform ascii three_tries flaky
        (command_of ascii three_tries other change_call)
      ≡ (escaped e, []))
perform_other-silent_example =
    perform_other-silent ascii three_tries other flaky "b1" change_call refl other_business

quote-IsSegment_example : IsSegment (quote "a/b?c")
quote-IsSegment_example = quote-IsSegment "a/b?c"

abbrev bound_to : Option String
bound_to = some "a/b"

abbrev slashed : String
slashed = "a/b"

abbrev slashed_path : String
slashed_path = "/v1/businesses/a%2Fb/ledger"

path_run : business_path ascii (some "a/b") "a/b" "ledger" ≡ ok "/v1/businesses/a%2Fb/ledger"
unfolding call_runs
path_run = refl

abbrev admin : MizanAdminClient
admin = record { client = three_tries; actor = "ops" }

abbrev endpoint_command : Command
endpoint_command = record {
  method = "PUT";
  path = "/admin/api/delivery-endpoints/ledger";
  body = some end;
  business_id = "";
  idempotency_key = some "k1";
  mutation = true;
  extra_headers = ("X-Admin-Actor", "ops") ∷ [];
}

abbrev endpoint_call : AdminCall
endpoint_call = AdminCall.global_endpoint "ledger" end (some "k1")

endpoint_run : admin_command_of admin endpoint_call ≡ ok endpoint_command
unfolding admin_command_of configure_global_delivery_endpoint
endpoint_run = refl

request-actor_example :
    Every
      (λ q. lookup "X-Admin-Actor" q.headers ≡ some "ops")
      (requests_of (request ascii three_tries endpoint_command flaky).1)
request-actor_example =
    request-actor ascii admin flaky endpoint_call endpoint_run (omega arith) (omega arith)

unbound_run : business_path ascii none "a/b" "ledger" ≡ ok "/v1/businesses/a%2Fb/ledger"
unfolding call_runs
unbound_run = refl

-- a client of one business, and a client of every business
business_path-injective_example : slashed ≡ "a/b"
business_path-injective_example =
    business_path-injective ascii (some "a/b") none slashed "a/b" "ledger" "ledger" path_run
      unbound_run

perform-Carries_example :
    (key : Option String) × Chosen (some "k1") true "generated" key
    × Every (Carries ascii change_call key) (
        requests_of
          (perform ascii three_tries flaky (command_of ascii three_tries "b1" change_call)).1)
perform-Carries_example =
    perform-Carries ascii three_tries "b1" flaky (omega arith) (omega arith) change_call refl

request-limited_example :
    request ascii three_tries consumption (
      limited ascii three_tries consumption flaky (λ n. opened 200 [] (stream (123 ∷ []) complete)))
    ≡ request ascii three_tries consumption (
        unlimited ascii three_tries consumption flaky
          (λ n. opened 200 [] (stream (123 ∷ []) complete)))
request-limited_example =
    request-limited ascii three_tries consumption flaky
      (λ n. opened 200 [] (stream (123 ∷ []) complete))
