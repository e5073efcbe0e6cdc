-- ===== src/Builders/Metadata.antt =====
-- The metadata contract of builders.py: `_validate_metadata` and the merge of required provider
-- attribution.
use mathlib.Core.List.{[], ◌∷◌}
use mizan_client_sdks.Base.{String, Bool, true, false, not, ◌&&◌, Option, none, some, List, leb}
use mizan_client_sdks.Python.Value.{
  Value, null, float, str, arr, obj, Fields, end, field, value_error, Result, ok, err, ◌>>=◌, ◌>>◌,
  require, get, put, get_or_null, size, contains, in_set,
}
use mizan_client_sdks.Python.Text.{length, append, strip}
use mizan_client_sdks.Python.Runtime.{Python}
use mizan_client_sdks.Python.Numbers.Print.{str_of}
use mizan_client_sdks.Builders.Facts.{is_bounded, is_blank, integer}

-- the wire values of enums.py's `Channel`
abbrev pub channels : List String
channels = "whatsapp" ∷ "instagram" ∷ "facebook" ∷ "tiktok" ∷ "telephony" ∷ "webchat" ∷ []

abbrev pub reserved : List String
reserved =
    "actor" ∷ "channel" ∷ "channel_account_id" ∷ "provider" ∷ "provider_event_id"
    ∷ "conversation_id" ∷ "campaign_id" ∷ "raw_quantity" ∷ "billable_quantity"
    ∷ "provider_invoice_id" ∷ "original_amount_minor" ∷ "original_currency" ∷ "fx_rule"
    ∷ "tariff_version" ∷ "attributes" ∷ []

abbrev pub bounded_fields : List String
bounded_fields =
    "channel_account_id" ∷ "provider" ∷ "provider_event_id" ∷ "conversation_id" ∷ "campaign_id"
    ∷ "raw_quantity" ∷ "billable_quantity" ∷ "provider_invoice_id" ∷ "original_currency" ∷ "fx_rule"
    ∷ "tariff_version" ∷ []

-- all(key in names for key in d)
unfoldable pub all_keys : List String → Fields → Bool
all_keys names end = true
all_keys names (field k v fs) = contains names k && all_keys names fs

unfoldable pub check_channel : Python → Value → Result (Unit {0})
check_channel py null = ok tt
check_channel py v =
    require (contains channels (str_of py v))
      (value_error "metadata.channel is not a supported channel")

abbrev pub actor_message : String
actor_message = "metadata.actor requires a supported type and bounded id"

unfoldable pub check_actor : Value → Result (Unit {0})
check_actor null = ok tt
check_actor (obj actor) = do
  require (all_keys ("type" ∷ "id" ∷ []) actor) (value_error actor_message)
  known ← in_set ("user" ∷ "system" ∷ "campaign" ∷ []) (get_or_null "type" actor)
  require (known && is_bounded 128 (get_or_null "id" actor)) (value_error actor_message)
check_actor _ = err (value_error actor_message)

-- value is None or isinstance(value, str) and 1 <= len(value) <= 512
unfoldable pub is_null_or_bounded : Value → Bool
is_null_or_bounded null = true
is_null_or_bounded v = is_bounded 512 v

unfoldable pub check_bounded : List String → Fields → Result (Unit {0})
check_bounded [] metadata = ok tt
check_bounded (name ∷ names) metadata = do
  require (is_null_or_bounded (get_or_null name metadata))
      (value_error (append "metadata." (append name " must contain 1 to 512 characters")))
  check_bounded names metadata

unfoldable pub check_original_amount : Python → Value → Result (Unit {0})
check_original_amount py null = ok tt
check_original_amount py v = integer py (str (str_of py v)) "metadata.original_amount_minor" true

-- value is None or isinstance(value, (str, int, float, bool))
abbrev pub is_scalar : Value → Bool
is_scalar (arr xs) = false
is_scalar (obj fs) = false
is_scalar _ = true

-- value is None or len(str(value)) <= 512
unfoldable pub is_short : Python → Value → Bool
is_short py null = true
is_short py v = leb (length (str_of py v)) 512

abbrev pub is_finite : Value → Bool
is_finite (float text finite) = finite
is_finite _ = true

unfoldable pub check_attributes : Python → Fields → Result (Unit {0})
check_attributes py end = ok tt
check_attributes py (field key value fs) = do
  require (leb (length key) 64 && is_scalar value)
      (value_error "metadata.attributes contains an invalid key or scalar value")
  require (is_short py value)
      (value_error "metadata attribute values must be at most 512 characters")
  require (is_finite value) (value_error "metadata attribute numbers must be finite")
  check_attributes py fs

abbrev pub attributes_message : String
attributes_message = "metadata.attributes must be an object with at most 32 entries"

-- `attributes` is the entry, or `{}` if it is missing
unfoldable pub check_attribute_map : Python → Option Value → Result (Unit {0})
check_attribute_map py none = ok tt
check_attribute_map py (some (obj attributes)) = do
  require (leb (size attributes) 32) (value_error attributes_message)
  check_attributes py attributes
check_attribute_map py (some _) = err (value_error attributes_message)

unfoldable pub validate_metadata : Python → Option Fields → Result (Unit {0})
validate_metadata py none = ok tt
validate_metadata py (some metadata) = do
  require (all_keys reserved metadata)
      (value_error "custom metadata top-level keys are not supported; use metadata.attributes")
  check_channel py (get_or_null "channel" metadata)
  check_actor (get_or_null "actor" metadata)
  check_bounded bounded_fields metadata
  check_original_amount py (get_or_null "original_amount_minor" metadata)
  check_attribute_map py (get "attributes" metadata)

-- dict(metadata or {})
abbrev pub dict_of : Option Fields → Fields
dict_of none = end
dict_of (some metadata) = metadata

-- v.strip(), for a value that is known to be a text
abbrev pub stripped : Python → Value → Value
stripped py (str s) = str (strip py.is_space s)
stripped py v = v

unfoldable pub provider_metadata : Python → Value → Value → Option Fields → Result Fields
provider_metadata py provider provider_event_id metadata = do
  validate_metadata py metadata
  require (not (is_blank py provider))
      (value_error "provider is required for provider-priced usage")
  require (not (is_blank py provider_event_id))
      (value_error "provider_event_id is required for provider-priced usage")
  ok (
      put "provider_event_id" (stripped py provider_event_id)
        (put "provider" (stripped py provider) (dict_of metadata)))
