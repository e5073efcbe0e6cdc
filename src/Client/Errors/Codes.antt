-- ===== src/Client/Errors/Codes.antt =====
-- Every wire code of enums.py's `ErrorCode` has a class of its own.
use mizan_client_sdks.Base.{String, ◌≡◌, refl, Option, none, some}
use mizan_client_sdks.Client.Errors.{ApiErrorType, mizan_api, error_type, find_type}

-- `ErrorCode` of enums.py
pub data ErrorCode : Type 0 where
  account_inactive dependency_temporarily_unavailable : ErrorCode
  duplicate_payment_event duplicate_provider_event : ErrorCode
  duplicate_source_event early_renewal_event : ErrorCode
  feature_disabled feature_paused_budget : ErrorCode
  feature_paused_manual forbidden : ErrorCode
  idempotency_key_reused insufficient_azeer_units : ErrorCode
  insufficient_provider_balance internal_retryable : ErrorCode
  invalid_quantity invalid_request : ErrorCode
  invariant_violation misconfigured : ErrorCode
  not_found payment_amount_mismatch : ErrorCode
  quote_required quote_verification_unavailable : ErrorCode
  request_timestamp_out_of_range sensitive_reserve_reached : ErrorCode
  stale_plan_version subscription_change_pending : ErrorCode
  subscription_inactive unauthorized : ErrorCode

-- the wire value of a code
unfoldable pub wire : ErrorCode → String
wire ErrorCode.account_inactive = "ACCOUNT_INACTIVE"
wire ErrorCode.dependency_temporarily_unavailable = "DEPENDENCY_TEMPORARILY_UNAVAILABLE"
wire ErrorCode.duplicate_payment_event = "DUPLICATE_PAYMENT_EVENT"
wire ErrorCode.duplicate_provider_event = "DUPLICATE_PROVIDER_EVENT"
wire ErrorCode.duplicate_source_event = "DUPLICATE_SOURCE_EVENT"
wire ErrorCode.early_renewal_event = "EARLY_RENEWAL_EVENT"
wire ErrorCode.feature_disabled = "FEATURE_DISABLED"
wire ErrorCode.feature_paused_budget = "FEATURE_PAUSED_BUDGET"
wire ErrorCode.feature_paused_manual = "FEATURE_PAUSED_MANUAL"
wire ErrorCode.forbidden = "FORBIDDEN"
wire ErrorCode.idempotency_key_reused = "IDEMPOTENCY_KEY_REUSED"
wire ErrorCode.insufficient_azeer_units = "INSUFFICIENT_AZEER_UNITS"
wire ErrorCode.insufficient_provider_balance = "INSUFFICIENT_PROVIDER_BALANCE"
wire ErrorCode.internal_retryable = "INTERNAL_RETRYABLE"
wire ErrorCode.invalid_quantity = "INVALID_QUANTITY"
wire ErrorCode.invalid_request = "INVALID_REQUEST"
wire ErrorCode.invariant_violation = "INVARIANT_VIOLATION"
wire ErrorCode.misconfigured = "MISCONFIGURED"
wire ErrorCode.not_found = "NOT_FOUND"
wire ErrorCode.payment_amount_mismatch = "PAYMENT_AMOUNT_MISMATCH"
wire ErrorCode.quote_required = "QUOTE_REQUIRED"
wire ErrorCode.quote_verification_unavailable = "QUOTE_VERIFICATION_UNAVAILABLE"
wire ErrorCode.request_timestamp_out_of_range = "REQUEST_TIMESTAMP_OUT_OF_RANGE"
wire ErrorCode.sensitive_reserve_reached = "SENSITIVE_RESERVE_REACHED"
wire ErrorCode.stale_plan_version = "STALE_PLAN_VERSION"
wire ErrorCode.subscription_change_pending = "SUBSCRIPTION_CHANGE_PENDING"
wire ErrorCode.subscription_inactive = "SUBSCRIPTION_INACTIVE"
wire ErrorCode.unauthorized = "UNAUTHORIZED"

-- the code that a class stands for
unfoldable pub code_of : ApiErrorType → Option ErrorCode
code_of mizan_api = none
code_of ApiErrorType.account_inactive = some ErrorCode.account_inactive
code_of ApiErrorType.dependency_temporarily_unavailable =
    some ErrorCode.dependency_temporarily_unavailable
code_of ApiErrorType.duplicate_payment_event = some ErrorCode.duplicate_payment_event
code_of ApiErrorType.duplicate_provider_event = some ErrorCode.duplicate_provider_event
code_of ApiErrorType.duplicate_source_event = some ErrorCode.duplicate_source_event
code_of ApiErrorType.early_renewal_event = some ErrorCode.early_renewal_event
code_of ApiErrorType.feature_disabled = some ErrorCode.feature_disabled
code_of ApiErrorType.feature_paused_budget = some ErrorCode.feature_paused_budget
code_of ApiErrorType.feature_paused_manual = some ErrorCode.feature_paused_manual
code_of ApiErrorType.forbidden = some ErrorCode.forbidden
code_of ApiErrorType.idempotency_key_reused = some ErrorCode.idempotency_key_reused
code_of ApiErrorType.insufficient_azeer_units = some ErrorCode.insufficient_azeer_units
code_of ApiErrorType.insufficient_provider_balance = some ErrorCode.insufficient_provider_balance
code_of ApiErrorType.internal_retryable = some ErrorCode.internal_retryable
code_of ApiErrorType.invalid_quantity = some ErrorCode.invalid_quantity
code_of ApiErrorType.invalid_request = some ErrorCode.invalid_request
code_of ApiErrorType.invariant_violation = some ErrorCode.invariant_violation
code_of ApiErrorType.misconfigured = some ErrorCode.misconfigured
code_of ApiErrorType.not_found = some ErrorCode.not_found
code_of ApiErrorType.payment_amount_mismatch = some ErrorCode.payment_amount_mismatch
code_of ApiErrorType.quote_required = some ErrorCode.quote_required
code_of ApiErrorType.quote_verification_unavailable = some ErrorCode.quote_verification_unavailable
code_of ApiErrorType.request_timestamp_out_of_range = some ErrorCode.request_timestamp_out_of_range
code_of ApiErrorType.sensitive_reserve_reached = some ErrorCode.sensitive_reserve_reached
code_of ApiErrorType.stale_plan_version = some ErrorCode.stale_plan_version
code_of ApiErrorType.subscription_change_pending = some ErrorCode.subscription_change_pending
code_of ApiErrorType.subscription_inactive = some ErrorCode.subscription_inactive
code_of ApiErrorType.unauthorized = some ErrorCode.unauthorized

-- The table gives each wire code of the vocabulary the class of that code, and so no two codes
-- share a class and none falls back to `MizanAPIError`.
code_of-error_type : (c : ErrorCode) → code_of (error_type (wire c)) ≡ some c
unfolding code_of error_type find_type wire
code_of-error_type ErrorCode.account_inactive = refl
code_of-error_type ErrorCode.dependency_temporarily_unavailable = refl
code_of-error_type ErrorCode.duplicate_payment_event = refl
code_of-error_type ErrorCode.duplicate_provider_event = refl
code_of-error_type ErrorCode.duplicate_source_event = refl
code_of-error_type ErrorCode.early_renewal_event = refl
code_of-error_type ErrorCode.feature_disabled = refl
code_of-error_type ErrorCode.feature_paused_budget = refl
code_of-error_type ErrorCode.feature_paused_manual = refl
code_of-error_type ErrorCode.forbidden = refl
code_of-error_type ErrorCode.idempotency_key_reused = refl
code_of-error_type ErrorCode.insufficient_azeer_units = refl
code_of-error_type ErrorCode.insufficient_provider_balance = refl
code_of-error_type ErrorCode.internal_retryable = refl
code_of-error_type ErrorCode.invalid_quantity = refl
code_of-error_type ErrorCode.invalid_request = refl
code_of-error_type ErrorCode.invariant_violation = refl
code_of-error_type ErrorCode.misconfigured = refl
code_of-error_type ErrorCode.not_found = refl
code_of-error_type ErrorCode.payment_amount_mismatch = refl
code_of-error_type ErrorCode.quote_required = refl
code_of-error_type ErrorCode.quote_verification_unavailable = refl
code_of-error_type ErrorCode.request_timestamp_out_of_range = refl
code_of-error_type ErrorCode.sensitive_reserve_reached = refl
code_of-error_type ErrorCode.stale_plan_version = refl
code_of-error_type ErrorCode.subscription_change_pending = refl
code_of-error_type ErrorCode.subscription_inactive = refl
code_of-error_type ErrorCode.unauthorized = refl
