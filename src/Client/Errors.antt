-- ===== src/Client/Errors.antt =====
-- The exception classes of client.py and their table of wire codes.
pub mod Codes
use mathlib.Core.List.{[], ◌∷◌}
use mizan_client_sdks.Base.{String, List, ◌==◌, if◌then◌else◌}

-- `MizanAPIError` and its subclasses
pub data ApiErrorType : Type 0 where
  mizan_api account_inactive dependency_temporarily_unavailable : ApiErrorType
  duplicate_payment_event duplicate_provider_event duplicate_source_event : ApiErrorType
  early_renewal_event feature_disabled feature_paused_budget feature_paused_manual : ApiErrorType
  forbidden idempotency_key_reused insufficient_azeer_units : ApiErrorType
  insufficient_provider_balance internal_retryable invalid_quantity invalid_request : ApiErrorType
  invariant_violation misconfigured not_found payment_amount_mismatch : ApiErrorType
  quote_required quote_verification_unavailable request_timestamp_out_of_range : ApiErrorType
  sensitive_reserve_reached stale_plan_version subscription_change_pending : ApiErrorType
  subscription_inactive unauthorized : ApiErrorType

-- _API_ERROR_TYPES
abbrev pub api_error_types : List (String × ApiErrorType)
api_error_types =
    ("ACCOUNT_INACTIVE", account_inactive)
    ∷ ("DEPENDENCY_TEMPORARILY_UNAVAILABLE", dependency_temporarily_unavailable)
    ∷ ("DUPLICATE_PAYMENT_EVENT", duplicate_payment_event)
    ∷ ("DUPLICATE_PROVIDER_EVENT", duplicate_provider_event)
    ∷ ("DUPLICATE_SOURCE_EVENT", duplicate_source_event)
    ∷ ("EARLY_RENEWAL_EVENT", early_renewal_event)
    ∷ ("FEATURE_DISABLED", feature_disabled)
    ∷ ("FEATURE_PAUSED_BUDGET", feature_paused_budget)
    ∷ ("FEATURE_PAUSED_MANUAL", feature_paused_manual)
    ∷ ("FORBIDDEN", forbidden)
    ∷ ("IDEMPOTENCY_KEY_REUSED", idempotency_key_reused)
    ∷ ("INSUFFICIENT_AZEER_UNITS", insufficient_azeer_units)
    ∷ ("INSUFFICIENT_PROVIDER_BALANCE", insufficient_provider_balance)
    ∷ ("INTERNAL_RETRYABLE", internal_retryable)
    ∷ ("INVALID_QUANTITY", invalid_quantity)
    ∷ ("INVALID_REQUEST", invalid_request)
    ∷ ("INVARIANT_VIOLATION", invariant_violation)
    ∷ ("MISCONFIGURED", misconfigured)
    ∷ ("NOT_FOUND", not_found)
    ∷ ("PAYMENT_AMOUNT_MISMATCH", payment_amount_mismatch)
    ∷ ("QUOTE_REQUIRED", quote_required)
    ∷ ("QUOTE_VERIFICATION_UNAVAILABLE", quote_verification_unavailable)
    ∷ ("REQUEST_TIMESTAMP_OUT_OF_RANGE", request_timestamp_out_of_range)
    ∷ ("SENSITIVE_RESERVE_REACHED", sensitive_reserve_reached)
    ∷ ("STALE_PLAN_VERSION", stale_plan_version)
    ∷ ("SUBSCRIPTION_CHANGE_PENDING", subscription_change_pending)
    ∷ ("SUBSCRIPTION_INACTIVE", subscription_inactive)
    ∷ ("UNAUTHORIZED", unauthorized)
    ∷ []

-- table.get(code, MizanAPIError)
unfoldable pub find_type : String → List (String × ApiErrorType) → ApiErrorType
find_type code [] = mizan_api
find_type code ((k, t) ∷ table) = if k == code then t else find_type code table

unfoldable pub error_type : String → ApiErrorType
error_type code = find_type code api_error_types
