-- ===== src/Builders/Facts.antt =====
-- The validators of single facts in builders.py: identifiers, event times, integers, counts and
-- quantities. An argument is any Python value, since each validator tests its type.
pub mod Ranges
pub mod Milli
use Prim.Native.String.{[], ◌∷◌}
use mizan_client_sdks.Base.{
  ℕ, ◌+◌, ◌*◌, ◌/◌, code, String, Bool, true, false, not, ◌&&◌, ◌||◌, Option, none, some, ltb, leb,
  nat_eq, if◌then◌else◌,
}
use mizan_client_sdks.Python.Value.{
  Value, str, Exception, value_error, Result, ok, err, ◌>>=◌, ◌>>◌, require,
}
use mizan_client_sdks.Python.Text.{length, is_empty, append, replace_z, strip}
use mizan_client_sdks.Python.Runtime.{Python}
use mizan_client_sdks.Python.Numbers.{int_text}

abbrev pub max_int64 : ℕ
max_int64 = 9_223_372_036_854_775_807

-- isinstance(v, str) and 1 <= len(v) <= most
unfoldable pub is_bounded : ℕ → Value → Bool
is_bounded most (str s) = leb 1 (length s) && leb (length s) most
is_bounded most _ = false

-- not isinstance(v, str) or not v.strip()
unfoldable pub is_blank : Python → Value → Bool
is_blank py (str s) = is_empty (strip py.is_space s)
is_blank py _ = true

module _ (py : Python) where
  unfoldable pub all_decimal : String → Bool
  all_decimal [] = true
  all_decimal (c ∷ s) = elim (py.decimal c) [ none ↦ false | some d ↦ all_decimal s ]

  -- _INTEGER.fullmatch(s): r"^\d+$"
  unfoldable pub integer_match : String → Bool
  integer_match s = not (is_empty s) && all_decimal s

-- the text in front of the first "." and, if there is one, the text behind it
unfoldable pub before_point : String → String
before_point [] = ""
before_point (c ∷ s) = let rest = before_point s in if nat_eq (code c) b'.' then "" else c ∷ rest

unfoldable pub after_point : String → Option String
after_point [] = none
after_point (c ∷ s) = let rest = after_point s in if nat_eq (code c) b'.' then some s else rest

-- `match.group(2) or ""` of a match: no digits, or one to three behind a point
unfoldable pub fraction_match : Python → Option String → Bool
fraction_match py none = true
fraction_match py (some f) = integer_match py f && leb (length f) 3

abbrev pub fraction_text : Option String → String
fraction_text none = ""
fraction_text (some f) = f

-- s.ljust(3, "0")
unfoldable pub ljust : String → String
ljust [] = "000"
ljust (c ∷ []) = c ∷ "00"
ljust (c ∷ (d ∷ [])) = c ∷ (d ∷ "0")
ljust (c ∷ (d ∷ (e ∷ s))) = c ∷ (d ∷ (e ∷ s))

-- the part of `_event` that reads `occurred_at`
unfoldable pub event_time : Python → Value → Result (Unit {0})
event_time py (str s) = elim (py.from_iso_format (replace_z s)) [
  | none ↦ err (value_error "occurred_at must be an ISO-8601 timestamp with a timezone")
  | some aware ↦ require aware (value_error "occurred_at must include a timezone")
]
event_time py _ = err (value_error "occurred_at must be an ISO-8601 timestamp with a timezone")

unfoldable pub event : Python → Value → Value → Result (Unit {0})
event py source_event_id occurred_at = do
  require (is_bounded 128 source_event_id)
      (value_error "source_event_id must contain 1 to 128 characters")
  event_time py occurred_at

unfoldable pub payment_event : Value → Result (Unit {0})
payment_event payment_event_id =
    require (is_bounded 128 payment_event_id)
      (value_error "payment_event_id must contain 1 to 128 characters")

abbrev pub quantity_range : Exception
quantity_range = value_error "quantity must be positive and fit the supported exact range"

unfoldable pub quantity : Python → Value → Result (Unit {0})
quantity py (str s) =
    if integer_match py (before_point s) && fraction_match py (after_point s)
    then (do
      whole ← int_text py (before_point s)
      fraction ← int_text py (ljust (fraction_text (after_point s)))
      let scaled = whole * 1_000 + fraction
      require (ltb 0 scaled && leb scaled max_int64) quantity_range)
    else err
        (value_error "quantity must be a positive decimal string with at most 3 decimal places")
quantity py _ =
    err (value_error "quantity must be a positive decimal string with at most 3 decimal places")

unfoldable pub whole_count : Python → Value → Result (Unit {0})
whole_count py (str s) =
    if integer_match py s
    then (do
      parsed ← int_text py s
      require (ltb 0 parsed && leb parsed (max_int64 / 1_000)) (
          value_error
            "quantity must be positive and fit the supported exact range after milli scaling"))
    else err (value_error "quantity must be a positive whole-count string")
whole_count py _ = err (value_error "quantity must be a positive whole-count string")

abbrev pub integer_range : String → Bool → String
integer_range name allow_zero = append name (
    append " must be " (
      append (if allow_zero then "non-negative" else "positive")
        " and fit the supported exact range"))

unfoldable pub integer : Python → Value → String → Bool → Result (Unit {0})
integer py (str s) name allow_zero =
    if integer_match py s
    then (do
      parsed ← int_text py s
      require (not (ltb max_int64 parsed || (nat_eq parsed 0 && not allow_zero)))
          (value_error (integer_range name allow_zero)))
    else err (value_error (append name " must be a non-negative integer string"))
integer py _ name allow_zero =
    err (value_error (append name " must be a non-negative integer string"))

unfoldable pub required_metadata_string : Python → Value → String → Result String
required_metadata_string py (str s) name =
    let t = strip py.is_space s in
    if is_empty t || ltb 512 (length t)
    then err (value_error (append name " must contain 1 to 512 characters"))
    else ok t
required_metadata_string py _ name =
    err (value_error (append name " must contain 1 to 512 characters"))
