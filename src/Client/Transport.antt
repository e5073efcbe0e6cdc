-- ===== src/Client/Transport.antt =====
-- `_default_transport` of client.py. What `urlopen` does with a request is an argument: `read(n)` of a
-- response returns its first n bytes if so many come, and else reads up to the end of the response.
pub mod Limit
use mathlib.Core.List.{[], ◌∷◌}
use mizan_client_sdks.Base.{ℕ, List, leb, if◌then◌else◌}
use mizan_client_sdks.Base.Lists.{length, take}
use mizan_client_sdks.Webhooks.Receiver.{Headers}
use mizan_client_sdks.Client.Http.{Reply, replied, os_error, raised}

-- How the body of a response ends: where it should, too early, or in an `OSError` or another exception
-- of the connection.
pub data Ending : Type 0 where
  complete short cut broken : Ending

-- The body of a response: the bytes that come, and how it ends behind them.
pub data Content : Type 0 where
  stream : List ℕ → Ending → Content

-- What `urlopen` does: it returns a response, raises an `HTTPError`, which is a response too, raises
-- another `OSError`, or another exception.
pub data Opened : Type 0 where
  opened http_error : (status : ℕ) (headers : Headers) → Content → Opened
  unreachable failed : Opened

-- what reading up to the end of the response comes to; `read(n)` returns a short body as it is
unfoldable pub read_ended : ℕ → Headers → List ℕ → Ending → Reply
read_ended status headers raw complete = replied status headers raw
read_ended status headers raw short = replied status headers raw
read_ended status headers raw cut = os_error
read_ended status headers raw broken = raised

-- response.read(2 * 1024 * 1024 + 1): the end is not reached if that many bytes come
unfoldable pub read_content : ℕ → Headers → Content → Reply
read_content status headers (stream raw ending) =
    if leb 2_097_153 (length raw)
    then replied status headers (take 2_097_153 raw)
    else read_ended status headers raw ending

unfoldable pub default_transport : Opened → Reply
default_transport (opened status headers content) = read_content status headers content
default_transport (http_error status headers content) = read_content status headers content
default_transport unreachable = os_error
default_transport failed = raised
