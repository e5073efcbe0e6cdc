-- ===== src/Lib.antt =====
-- The Python client SDK for the Mizan billing API (mizan-python/src/mizan).
--
-- An application calls the API through `MizanClient` or `MizanAdminClient` (client.py). A method
-- checks its arguments, with the request builders (builders.py) for usage, funding and budgets, and
-- hands a command to `_request`, which sends it, reads the reply and retries mutations. In the
-- other direction `WebhookReceiver` (webhooks.py) authenticates, decodes and validates what Mizan
-- delivers, calls the application's callback and acknowledges the event.
--
-- Files, with paths of the repository under mizan-python/src/mizan:
--   Base, Base/Int, Base/Lists: shared names, Boolean tests on numbers, integers, list lengths.
--   Python: what the SDK observes of the language. Python/Value: values, dicts and exceptions;
--   Python/Text: `str` methods; Python/Runtime: the interpreter's tables and codecs;
--   Python/Numbers: `int` and `str` of integers.
--   Builders (builders.py). Facts: `_event`, `_payment_event`, `_quantity`, `_whole_count`,
--   `_integer`, `_required_metadata_string`; Metadata: `_validate_metadata`, `_provider_metadata`;
--   Funding: `confirmed_top_up`, `confirmed_refund`, `feature_budget`; Usage: `_count_usage` and
--   the usage builders. A function returns the `dict` it builds or the exception it raises.
--   Webhooks (webhooks.py). Amounts: `_canonical_integer` and its kin; Ledger: `_validate_ledger`;
--   Notification: `_validate_notification`; Receiver: `WebhookReceiver` with `receive` as
--   `receive`, `receive_body`, `dispatch`, `receive_ledger` and `receive_notification`, and
--   `_decode_payload`, `_error_response`; Types: the types of the deliveries as shapes; Endpoint:
--   the endpoint of fastapi.py. A callback takes and returns the application's state `S`.
--   Vocabulary (enums.py): each `StrEnum` as a data type with its members and wire values.
--   Client (client.py). Errors: the exception classes and `_API_ERROR_TYPES` (codes of enums.py);
--   Paths: `_business_path` and quoting; Http: what a reply means; Transport: `_default_transport`;
--   Retry: `_request` as `request`, with the effects in order as a list, with Story: the attempts
--   of a run, Progress: runs that are answered in the end, Secrecy: runs under two tokens;
--   Commands, Consume: the methods of `MizanClient`; Admin: `MizanAdminClient`, with Attribution:
--   its methods as one type of calls; Scope: the business-scoped methods as one type of calls, with
--   Keys and Sent: what a call sends.
--   Models (models.py): each `TypedDict` and alias as a `Shape` of the same name in snake case;
--   Shape: the test that a value has a shape; Built: the types of what the builders return.
--   Examples (mizan-python/examples). Inbox: `SQLiteInbox.persist`, `on_ledger`, `on_notification`
--   and `receiver` of webhook_receiver.py, with the table as its rows in the order of insertion;
--   Export: `export_ledger` of end_to_end.py; Funding: its `maybe_fund_provider` and
--   `required_env`; Lifecycle: its `main`; Failures: its `fail_with_mizan_error`; Features:
--   consume_features.py; Flow: scripts of calls, as what they come to and the effects of their
--   calls in order.
--   Tests: an interpreter with ASCII tables, and concrete runs.
--
-- Parameters. `Python` (Python/Runtime) holds what the repository does not define: the Unicode
-- tables, the limit of `int` on long texts, the comparisons of floats, `datetime.fromisoformat`,
-- `json` and `repr`; `IsDocumented` names what the documentation says of them. `Environment`
-- (Client/Retry) holds the clock, the generated identifiers and the reply of the transport to each
-- attempt; for the default transport the latter is made of what `urlopen` does. The replies are
-- those of the run at hand: the reply to an attempt may be any that the server would give to its
-- request, so a theorem on two runs compares them for the same replies. The inbox takes for each
-- access whether the database fails; a failed access rolls back. `main` of end_to_end.py takes
-- `os.getenv`, the comparison `==` of two decoded values, `urlsplit` and an environment for each of
-- its calls.
--
-- Bounds and fuel. The loop of `_request` runs on the number of attempts left, which is
-- `max_attempts` at the start, so it is structural; theorems on it ask for 1 to 1025 attempts,
-- since the constructor refuses fewer than one and `0.1 * (2 ** (attempt - 1))` overflows a float
-- behind attempt 1024. A sleep stands as its bound in tenths of a second. The printer of numbers
-- runs on a fuel of one more than the number, which is enough since each step divides by ten. The
-- ledger export runs on a fuel of calls; if the pages' cursors are integers, a fuel behind a bound
-- of them is enough, since a cursor that does not advance ends the loop. A cursor of another type
-- goes into the next call as Python would pass it; a page on which Python raises ends the export as
-- `mistyped`.
--
-- Not modelled: `json.dumps` that raises, on an integer of a request body or of a mapping with more
-- digits than the interpreter converts; the asyncio event loop (input and output), an exception of
-- the application's logger, the check that callbacks are callable, `mount_webhooks` (glue),
-- `__init__.py`, what the examples print, `received_at` of the inbox, the tests, and the SDKs in
-- other languages.
pub mod Base
pub mod Python
pub mod Builders
pub mod Webhooks
pub mod Vocabulary
pub mod Models
pub mod Client
pub mod Examples
pub mod Tests
