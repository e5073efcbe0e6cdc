-- ===== src/Tests/Runs.antt =====
-- Runs of the client.
use mathlib.Core.List.{[], ◌∷◌}
use mizan_client_sdks.Base.{
  ℕ, ◌+◌, ◌*◌, ◌≤◌, ◌<◌, String, ◌≡◌, refl, true, false, List, none, some, nat_eq, if◌then◌else◌,
  arith,
}
use mizan_client_sdks.Base.Lists.{length}
use mizan_client_sdks.Python.Value.{bool, Fields, end, field, get}
use mizan_client_sdks.Python.Text.{is_empty}
use mizan_client_sdks.Python.Numbers.Print.{digit}
use mizan_client_sdks.Webhooks.Receiver.{Headers, lookup, insert}
use mizan_client_sdks.Client.Errors.{error_type, find_type}
use mizan_client_sdks.Client.Errors.Codes.{wire, code_of}
use mizan_client_sdks.Client.Paths.{utf8, hex, percent, is_unreserved, quote, business_path}
use mizan_client_sdks.Client.Http.{
  replied, os_error, success, truthy, class_of, dict_from, find_header, read_error, read_payload,
  read_reply,
}
use mizan_client_sdks.Client.Http.Replies.{StatusOf, Carried, read_reply-StatusOf}
use mizan_client_sdks.Client.Retry.{
  MizanClient, Command, Environment, returned, choose_key, update, request_headers, backoff, key_of,
  request_at, pause, conclude, attempts, request, perform,
}
use mizan_client_sdks.Client.Retry.Story.{Story, CanRetry, lost, answer_at, request-Story}
use mizan_client_sdks.Client.Retry.Effects.{requests_of, slept_in, request-count, request-returned}
use mizan_client_sdks.Client.Retry.Identity.{Every, SameRequest, request-SameRequest, request-key}
use mizan_client_sdks.Client.Commands.{change_subscription}
use mizan_client_sdks.Client.Retry.Progress.{request-reaches}
use mizan_client_sdks.Client.Retry.Secrecy.{Alike, request-Alike}
use mizan_client_sdks.Client.Scope.{command_of}
use mizan_client_sdks.Tests.Interpreter.{ascii}

-- what a run of the client opens
client_runs : Unit {0}
unfolding get digit lookup insert error_type find_type wire code_of utf8 hex percent is_unreserved
    quote business_path truthy class_of dict_from find_header read_error read_payload read_reply
    choose_key update request_headers backoff request_at pause conclude attempts request perform
    requests_of slept_in change_subscription command_of
client_runs = tt

abbrev pub three_tries : MizanClient
three_tries = record {
  base_url = "https://api.example";
  token = "t";
  business_id = some "b1";
  max_attempts = 3;
}

abbrev pub consumption : Command
consumption = record {
  method = "POST";
  path = "/v1/businesses/b1/consumptions";
  body = some end;
  business_id = "b1";
  idempotency_key = some "k1";
  mutation = true;
  extra_headers = [];
}

abbrev summary_read : Command
summary_read = record {
  method = "GET";
  path = "/v1/businesses/b1/billing-summary";
  body = none;
  business_id = "b1";
  idempotency_key = none;
  mutation = false;
  extra_headers = [];
}

-- the first attempt is lost, and the second is answered
abbrev pub flaky : Environment
flaky = record {
  new_key = "generated";
  correlation_id = "r1";
  now = λ attempt. if nat_eq attempt 1 then "2026-01-01T00:00:00Z" else "2026-01-01T00:00:02Z";
  reply = λ attempt. if nat_eq attempt 1 then os_error else replied 200 [] (123 ∷ []);
}

abbrev accepted : Fields
accepted = field "accepted" (bool true) end

retried : (request ascii three_tries consumption flaky).0 ≡ returned accepted
unfolding client_runs
retried = refl

retried_twice : length (requests_of (request ascii three_tries consumption flaky).1) ≡ 2
unfolding client_runs
retried_twice = refl

request-Story_example :
    Story ascii three_tries consumption flaky
      (request ascii three_tries consumption flaky).0
      1
      (request ascii three_tries consumption flaky).1
request-Story_example =
    request-Story ascii three_tries consumption flaky (omega arith) (omega arith)

request-count_example :
    (1 ≤ length (requests_of (request ascii three_tries consumption flaky).1))
    × (length (requests_of (request ascii three_tries consumption flaky).1) ≤ 3)
    × (slept_in (request ascii three_tries consumption flaky).1 + 20
        ≤ 20 * length (requests_of (request ascii three_tries consumption flaky).1))
request-count_example =
    request-count ascii three_tries consumption flaky (omega arith) (omega arith)

request-returned_example :
    (status : ℕ) × (headers : Headers) × (raw : List ℕ) × (flaky.reply
        (length (requests_of (request ascii three_tries consumption flaky).1))
      ≡ replied status headers raw)
    × (200 ≤ status)
    × (status < 300)
    × (length raw ≤ 2_097_152)
    × Carried ascii (key_of ascii three_tries consumption flaky) accepted raw
request-returned_example =
    request-returned ascii three_tries consumption flaky (omega arith) (omega arith) retried

request-SameRequest_example :
    Every
      (λ q. SameRequest q (request_at ascii three_tries consumption flaky 1))
      (requests_of (request ascii three_tries consumption flaky).1)
request-SameRequest_example =
    request-SameRequest ascii three_tries consumption flaky (omega arith) (omega arith)

no_key : lookup "Idempotency-Key" [] ≡ none
unfolding client_runs
no_key = refl

request-key_example :
    (k : String) × (is_empty k ≡ false)
    × Every
        (λ q. lookup "Idempotency-Key" q.headers ≡ some k)
        (requests_of (request ascii three_tries consumption flaky).1)
request-key_example =
    request-key ascii three_tries consumption flaky (omega arith) (omega arith) refl refl no_key

read_reply-StatusOf_example :
    StatusOf ascii (some "k1") 404 (read_reply ascii (some "k1") (replied 404 [] (123 ∷ [])))
read_reply-StatusOf_example = read_reply-StatusOf ascii (some "k1") 404 [] (123 ∷ [])

lost_first :
    (j : ℕ)
    → 1 ≤ j
    → j < 2
    → CanRetry ascii three_tries consumption flaky (answer_at ascii three_tries consumption flaky j)
unfolding client_runs
lost_first j least below = let same : j ≡ 1 = omega arith in rw same lost

second_answered : answer_at ascii three_tries consumption flaky 2 ≡ success 200 accepted
unfolding client_runs
second_answered = refl

request-reaches_example :
    ((request ascii three_tries consumption flaky).0 ≡ returned accepted)
    × (length (requests_of (request ascii three_tries consumption flaky).1) ≡ 2)
request-reaches_example =
    request-reaches ascii three_tries consumption flaky 2 200 accepted refl (omega arith) lost_first
      second_answered (omega arith) (omega arith)

request-Alike_example :
    Alike
      (request ascii three_tries consumption flaky)
      (request ascii (record three_tries { token = "another" }) consumption flaky)
request-Alike_example = request-Alike ascii three_tries "another" consumption flaky
