-- ===== src/Client/Http.antt =====
-- One exchange of `_request` in client.py: the request of an attempt, and what its reply means.
pub mod Replies
use mathlib.Core.List.{[], ◌∷◌}
use mizan_client_sdks.Base.{
  ℕ, String, Bool, true, false, not, ◌&&◌, ◌||◌, Option, none, some, List, ltb, leb, ◌==◌,
  if◌then◌else◌,
}
use mizan_client_sdks.Base.Int.{is_zero}
use mizan_client_sdks.Base.Lists.{length}
use mizan_client_sdks.Python.Value.{
  Value, null, bool, int, float, str, arr, obj, nil, cons, Fields, end, field, Exception,
  value_error, type_error, foreign, Result, ok, err, get, get_or_null,
}
use mizan_client_sdks.Python.Text.{is_empty, append}
use mizan_client_sdks.Python.Runtime.{Python, loaded, malformed, loads_raised}
use mizan_client_sdks.Python.Numbers.Print.{show}
use mizan_client_sdks.Webhooks.Receiver.{Headers}
use mizan_client_sdks.Client.Errors.{ApiErrorType, mizan_api, error_type}

-- the arguments of `urllib.request.Request`
pub record Request : Type 0 where
  pub url : String
  pub body : Option (List ℕ)
  pub headers : Headers
  pub method : String

-- what `self._transport` does: it returns a response, raises an `OSError` (`URLError` and
-- `TimeoutError` are such), or raises another exception
pub data Reply : Type 0 where
  replied : (status : ℕ) (headers : Headers) (raw : List ℕ) → Reply
  os_error raised : Reply

pub record MizanApiError : Type 0 where
  pub error_class : ApiErrorType
  pub status : ℕ
  pub error_code : Value
  pub message : Value
  pub retryable : Bool
  pub details : Fields
  pub request_id : Value
  pub idempotency_key : Option String

-- bool(v)
unfoldable pub truthy : Value → Bool
truthy null = false
truthy (bool b) = b
truthy (int n) = not (is_zero n)
truthy (float text finite) = not ((text == "0.0") || (text == "-0.0"))
truthy (str s) = not (is_empty s)
truthy (arr nil) = false
truthy (arr (cons v vs)) = true
truthy (obj end) = false
truthy (obj (field k v fs)) = true

-- dict(v), for a value that is true
unfoldable pub dict_from : Python → Value → Result Fields
dict_from py (obj fs) = ok fs
dict_from py (arr xs) = py.dict_of_items xs
dict_from py (str s) =
    err (value_error "dictionary update sequence element #0 has length 1; 2 is required")
dict_from py _ = err type_error

-- dict(details or {})
abbrev pub details_of : Python → Value → Result Fields
details_of py v = if truthy v then dict_from py v else ok end

-- _API_ERROR_TYPES.get(error_code, MizanAPIError): a list or a dict has no hash
unfoldable pub class_of : Value → Result ApiErrorType
class_of (str s) = ok (error_type s)
class_of (arr xs) = err type_error
class_of (obj fs) = err type_error
class_of _ = ok mizan_api

-- d.get(k, default)
abbrev pub get_or : String → Value → Fields → Value
get_or k default fs = elim (get k fs) [ none ↦ default | some v ↦ v ]

-- _header(headers, name), for a name in lower case
unfoldable pub find_header : Python → String → Headers → Value
find_header py name [] = null
find_header py name ((k, v) ∷ hs) = if py.lower k == name then str v else find_header py name hs

-- What an attempt comes to.
pub data Answer : Type 0 where
  success : (status : ℕ) → Fields → Answer
  failure : MizanApiError → Answer
  protocol : String → Answer
  uncertain : Answer
  crash : Exception → Answer

module _ (py : Python) (key : Option String) where
  abbrev build_error : ℕ → Headers → Fields → ApiErrorType → Fields → Answer
  build_error status headers error error_class details =
      let request_id = get_or_null "request_id" error in
      failure (record {
        error_class = error_class;
        status = status;
        error_code = get_or "code" (str "HTTP_ERROR") error;
        message = get_or "message" (str (append "Mizan returned HTTP " (show status))) error;
        retryable = truthy (get_or "retryable" (bool false) error);
        details = details;
        request_id =
            if truthy request_id then request_id else find_header py "x-request-id" headers;
        idempotency_key = key;
      })

  unfoldable pub read_error : ℕ → Headers → Fields → Answer
  read_error status headers error = elim (class_of (get_or "code" (str "HTTP_ERROR") error)) [
    | err e ↦ crash e
    | ok error_class ↦ elim (details_of py (get_or "details" (obj end) error)) [
      | err e ↦ crash e
      | ok details ↦ build_error status headers error error_class details
    ]
  ]

  -- a decoded object, under its status
  unfoldable pub read_payload : ℕ → Headers → Fields → Answer
  read_payload status headers payload =
      if leb 200 status && ltb status 300
      then success status payload
      else elim (get_or "error" (obj end) payload) [
        | obj error ↦ read_error status headers error
        | _ ↦ protocol "Mizan returned an invalid error envelope"
      ]

  abbrev read_value : ℕ → Headers → Value → Answer
  read_value status headers v = elim v [
    | obj payload ↦ read_payload status headers payload
    | _ ↦ protocol "Mizan returned a non-object JSON response"
  ]

  abbrev decode_reply : ℕ → Headers → List ℕ → Answer
  decode_reply status headers [] = read_value status headers (obj end)
  decode_reply status headers (b ∷ bs) = elim (py.loads_utf8 (b ∷ bs)) [
    | loaded v ↦ read_value status headers v
    | malformed ↦ protocol "Mizan returned invalid JSON"
    | loads_raised ↦ crash foreign
  ]

  unfoldable pub read_reply : Reply → Answer
  read_reply os_error = uncertain
  read_reply raised = crash foreign
  read_reply (replied status headers raw) =
      if ltb 2_097_152 (length raw)
      then protocol "Mizan response exceeded the 2 MiB safety limit"
      else decode_reply status headers raw
