-- ===== src/Models/Built/Funding.antt =====
-- The types of the funding requests, and the arguments that the validators let through.
use mizan_client_sdks.Base.{ℕ, String, ◌≡◌, refl, Bool, true, arith}
use mizan_client_sdks.Python.Value.{Result, Value, str, Fields, end, field, ok, get, contains}
use mizan_client_sdks.Python.Runtime.{Python}
use mizan_client_sdks.Builders.Facts.{
  is_bounded, integer, whole_count, quantity, event_time, payment_event,
}
use mizan_client_sdks.Builders.Metadata.{all_keys}
use mizan_client_sdks.Builders.Funding.{confirmed_top_up, is_reason, confirmed_refund}
use mizan_client_sdks.Vocabulary.Members.{values}
use mizan_client_sdks.Vocabulary.Commerce.{payment_status_wire, currency_wire, refund_status_wire}
use mizan_client_sdks.Models.Shape.{Shape, has_kind, has_entries, has_shape, keys}
use mizan_client_sdks.Models.Payments.{confirmed_top_up_shape, provider_refund_request_shape}

-- a value that is a text
abbrev pub IsText : Value → Type 0
IsText v = (s : String) × (v ≡ str s)

pub is_bounded-IsText : (n : ℕ) (v : Value) → is_bounded n v ≡ true → IsText v
unfolding is_bounded
is_bounded-IsText n (str s) h = (s, refl)
is_bounded-IsText n _ h = cc

module _ (py : Python) where
  pub integer-IsText :
      (v : Value) (name : String) (allow_zero : Bool)
      → integer py v name allow_zero ≡ ok tt
      → IsText v
  unfolding integer
  integer-IsText (str s) name z h = (s, refl)
  integer-IsText _ name z h = cc

  pub whole_count-IsText : (v : Value) → whole_count py v ≡ ok tt → IsText v
  unfolding whole_count
  whole_count-IsText (str s) h = (s, refl)
  whole_count-IsText _ h = cc

  pub quantity-IsText : (v : Value) → quantity py v ≡ ok tt → IsText v
  unfolding quantity
  quantity-IsText (str s) h = (s, refl)
  quantity-IsText _ h = cc

  pub event_time-IsText : (v : Value) → event_time py v ≡ ok tt → IsText v
  unfolding event_time
  event_time-IsText (str s) h = (s, refl)
  event_time-IsText _ h = cc

  is_reason-IsText : (v : Value) → is_reason py v ≡ true → IsText v
  unfolding is_reason
  is_reason-IsText (str s) h = (s, refl)
  is_reason-IsText _ h = cc

  payment_event-IsText : (v : Value) → payment_event v ≡ ok tt → IsText v
  unfolding payment_event
  payment_event-IsText v h = is_bounded-IsText 128 v (ground arith)

  top_up_parts :
      (amount event paid : Value) (r : Fields)
      → confirmed_top_up py amount event paid ≡ ok r
      → (integer py amount "amount_minor" Bool.false ≡ ok tt)
        × (integer py paid "paid_total_minor" Bool.false ≡ ok tt)
        × (payment_event event ≡ ok tt)
        × (r
            ≡ field "amount_minor" amount (
                field "payment_event_id" event (
                  field "payment_status"
                    (str "confirmed")
                    (field "currency" (str "SAR") (field "paid_total_minor" paid end)))))
  unfolding confirmed_top_up
  top_up_parts amount event paid r h = ground arith

  refund_parts :
      (amount refunded event reason : Value) (r : Fields)
      → confirmed_refund py amount refunded event reason ≡ ok r
      → (integer py amount "amount_minor" Bool.false ≡ ok tt)
        × (integer py refunded "refunded_total_minor" Bool.false ≡ ok tt)
        × (payment_event event ≡ ok tt)
        × (is_reason py reason ≡ true)
        × (r
            ≡ field "amount_minor" amount (
                field "payment_event_id" event (
                  field "reason" reason (
                    field "refund_status"
                      (str "confirmed")
                      (field "currency" (str "SAR") (field "refunded_total_minor" refunded end))))))
  unfolding confirmed_refund
  refund_parts amount refunded event reason r h = ground arith

  confirmed_top_up-has_shape :
      (amount event paid : Value) (r : Fields)
      → confirmed_top_up py amount event paid ≡ ok r
      → has_shape confirmed_top_up_shape r ≡ true
  unfolding has_kind has_entries keys all_keys get contains confirmed_top_up_shape values
      payment_status_wire currency_wire
  confirmed_top_up-has_shape amount event paid r h =
      let (a, p, e, same) = top_up_parts amount event paid r h in
      let (s, i) = integer-IsText amount _ _ a in
      let (t, j) = integer-IsText paid _ _ p in
      let (u, k) = payment_event-IsText event e in rw (same, i, j, k) refl

  confirmed_refund-has_shape :
      (amount refunded event reason : Value) (r : Fields)
      → confirmed_refund py amount refunded event reason ≡ ok r
      → has_shape provider_refund_request_shape r ≡ true
  unfolding has_kind has_entries keys all_keys get contains provider_refund_request_shape values
      refund_status_wire currency_wire
  confirmed_refund-has_shape amount refunded event reason r h =
      let (a, p, e, q, same) = refund_parts amount refunded event reason r h in
      let (s, i) = integer-IsText amount _ _ a in
      let (t, j) = integer-IsText refunded _ _ p in
      let (u, k) = payment_event-IsText event e in
      let (v, l) = is_reason-IsText reason q in rw (same, i, j, k, l) refl

-- A call of a funding builder.
pub data FundingCall : Type 0 where
  top_up : (amount event paid : Value) → FundingCall
  refund : (amount refunded event reason : Value) → FundingCall

unfoldable pub fund : Python → FundingCall → Result Fields
fund py (top_up amount event paid) = confirmed_top_up py amount event paid
fund py (refund amount refunded event reason) = confirmed_refund py amount refunded event reason

-- the type that the builder's signature names
unfoldable pub funding_shape : FundingCall → Shape
funding_shape (top_up amount event paid) = confirmed_top_up_shape
funding_shape (refund amount refunded event reason) = provider_refund_request_shape

-- A request that `confirmed_top_up` or `confirmed_refund` returns has the type `ConfirmedTopUp` or
-- `ProviderRefundRequest`, whatever the arguments.
pub fund-has_shape :
    (py : Python) (call : FundingCall) (r : Fields)
    → fund py call ≡ ok r
    → has_shape (funding_shape call) r ≡ true
unfolding fund funding_shape
fund-has_shape py (top_up amount event paid) r h =
    confirmed_top_up-has_shape py amount event paid r h
fund-has_shape py (refund amount refunded event reason) r h =
    confirmed_refund-has_shape py amount refunded event reason r h
