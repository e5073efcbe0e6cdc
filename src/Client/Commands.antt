-- ===== src/Client/Commands.antt =====
-- The methods of `MizanClient` in client.py, up to `_request`: each checks its arguments and names
-- the request that it makes. `perform` of Client.Retry runs it.
use mathlib.Core.List.{[]}
use mizan_client_sdks.Base.{
  ℕ, String, Bool, true, false, not, ◌&&◌, ◌||◌, Option, none, some, leb, ◌==◌, if◌then◌else◌,
}
use mizan_client_sdks.Base.Int.{ℤ, pos, negsuc}
use mizan_client_sdks.Python.Value.{
  Value, bool, int, float, Fields, value_error, type_error, Result, ok, err, ◌>>=◌, ◌>>◌, require,
  get_or_null, has_key,
}
use mizan_client_sdks.Python.Text.{append, is_empty, rstrip_slash}
use mizan_client_sdks.Python.Runtime.{Python}
use mizan_client_sdks.Python.Numbers.Print.{show_int}
use mizan_client_sdks.Builders.Facts.{payment_event}
use mizan_client_sdks.Builders.Funding.{is_reason}
use mizan_client_sdks.Client.Paths.{quote, quote_plus, business_path}
use mizan_client_sdks.Client.Retry.{MizanClient, Command}

-- The parts of `urlsplit(base_url)` that the constructor reads.
pub record SplitUrl : Type 0 where
  pub scheme : String
  pub netloc : String
  pub query : String
  pub fragment : String

abbrev is_absolute : SplitUrl → Bool
is_absolute u =
    ((u.scheme == "http") || (u.scheme == "https"))
    && not (is_empty u.netloc)
    && is_empty u.query
    && is_empty u.fragment

abbrev is_empty_id : Option String → Bool
is_empty_id none = false
is_empty_id (some id) = is_empty id

-- timeout > 0 and max_attempts >= 1
abbrev positive_attempts : Bool → ℤ → Result ℕ
positive_attempts timeout_positive (negsuc n) =
    err (value_error "timeout must be positive and max_attempts must be at least one")
positive_attempts timeout_positive (pos n) = do
  require (timeout_positive && leb 1 n)
      (value_error "timeout must be positive and max_attempts must be at least one")
  ok n

-- MizanClient(...), whose timeout is given by whether it is positive
unfoldable pub init :
    (String → SplitUrl) → String → String → Option String → Bool → ℤ → Result MizanClient
init urlsplit base_url token business_id timeout_positive max_attempts = do
  require (not (is_empty base_url || is_empty token))
      (value_error "base_url and token are required")
  require (is_absolute (urlsplit base_url))
      (value_error "base_url must be an absolute HTTP(S) URL without a query or fragment")
  tries ← positive_attempts timeout_positive max_attempts
  require (not (is_empty_id business_id))
      (value_error "business_id must not be empty when supplied")
  ok (record {
    base_url = rstrip_slash base_url;
    token = token;
    business_id = business_id;
    max_attempts = tries;
  })

module _ (py : Python) (client : MizanClient) (business_id : String) where
  -- a request for the business, with a body
  abbrev pub post : String → String → Fields → Option String → Bool → Result Command
  post method suffix body key mutation = do
    path ← business_path py client.business_id business_id suffix
    ok (record {
      method = method;
      path = path;
      body = some body;
      business_id = business_id;
      idempotency_key = key;
      mutation = mutation;
      extra_headers = [];
    })

  -- a read of the business, with no body, behind `query`
  abbrev pub read : String → String → Result Command
  read suffix query = do
    path ← business_path py client.business_id business_id suffix
    ok (record {
      method = "GET";
      path = append path query;
      body = none;
      business_id = business_id;
      idempotency_key = none;
      mutation = false;
      extra_headers = [];
    })

  -- _validate_payment_event_request(request)
  unfoldable pub validate_payment_event_request : Fields → Result (Unit {0})
  validate_payment_event_request request = payment_event (get_or_null "payment_event_id" request)

  unfoldable pub activate_subscription : Fields → Option String → Result Command
  activate_subscription request key = do
    validate_payment_event_request request
    require (not (has_key "services" request))
        (value_error "caller-defined activation services are not supported")
    post "POST" "subscriptions/activate" request key true

  unfoldable pub change_subscription : Fields → Option String → Result Command
  change_subscription request key = post "POST" "subscriptions/change" request key true

  unfoldable pub cancel_subscription : Fields → Option String → Result Command
  cancel_subscription request key = post "POST" "subscriptions/cancel" request key true

  unfoldable pub apply_renewal_event : Fields → Option String → Result Command
  apply_renewal_event request key = do
    validate_payment_event_request request
    post "POST" "subscriptions/renewal-events" request key true

  unfoldable pub top_up_azeer_units : Fields → Option String → Result Command
  top_up_azeer_units request key = do
    validate_payment_event_request request
    post "POST" "azeer-units/top-ups" request key true

  unfoldable pub top_up_provider_balance : Fields → Option String → Result Command
  top_up_provider_balance request key = do
    validate_payment_event_request request
    post "POST" "provider-balance/top-ups" request key true

  unfoldable pub refund_provider_balance : Fields → Option String → Result Command
  refund_provider_balance request key = do
    validate_payment_event_request request
    require (is_reason py (get_or_null "reason" request))
        (value_error "reason must contain 1 to 1000 characters")
    post "POST" "provider-balance/refunds" request key true

  unfoldable pub set_feature_budget : String → Fields → Option String → Result Command
  set_feature_budget feature_code request key =
      post "PUT" (append "features/" (append (quote feature_code) "/budget")) request key true

  unfoldable pub check_eligibility : String → Fields → Result Command
  check_eligibility feature_code request =
      post "POST" (append "features/" (append (quote feature_code) "/eligibility")) request none
        false

  unfoldable pub get_entitlement : String → Result Command
  get_entitlement capability = read (append "entitlements/" (quote capability)) ""

  unfoldable pub consume : Fields → Option String → Result Command
  consume request key = post "POST" "consumptions" request key true

  unfoldable pub preview_balance_impact : Fields → Result Command
  preview_balance_impact request = post "POST" "balance-impact-preview" request none false

  unfoldable pub get_billing_summary : Result Command
  get_billing_summary = read "billing-summary" ""

  unfoldable pub get_ledger : ℤ → ℤ → Result Command
  get_ledger (negsuc n) limit =
      err (value_error "after_sequence must be non-negative and limit must be 1..100")
  get_ledger (pos n) (negsuc m) =
      err (value_error "after_sequence must be non-negative and limit must be 1..100")
  get_ledger (pos n) (pos m) = do
    require (leb 1 m && leb m 100)
        (value_error "after_sequence must be non-negative and limit must be 1..100")
    read "ledger" (
        append "?after_sequence=" (append (show_int (pos n)) (append "&limit=" (show_int (pos m)))))

  -- `get_ledger` from a cursor that a reply holds, which may be of any type: a Boolean and a float are
  -- numbers too, and others do not compare with 0
  unfoldable pub get_ledger_from : Value → Result Command
  get_ledger_from (int n) = get_ledger n (pos 100)
  get_ledger_from (bool b) =
      read "ledger"
        (append "?after_sequence=" (append (if b then "True" else "False") "&limit=100"))
  get_ledger_from (float text finite) = do
    require (not (py.float_less (float text finite) (int (pos 0))))
        (value_error "after_sequence must be non-negative and limit must be 1..100")
    read "ledger" (append "?after_sequence=" (append (quote_plus text) "&limit=100"))
  get_ledger_from _ = err type_error

-- get_catalog()
unfoldable pub get_catalog : Command
get_catalog = record {
  method = "GET";
  path = "/v1/catalog";
  body = none;
  business_id = "";
  idempotency_key = none;
  mutation = false;
  extra_headers = [];
}
