-- ===== src/Webhooks/Ledger/Contract.antt =====
-- What `_validate_ledger` accepts, as a contract on the payload.
use Prim.Native.String.{[], ◌∷◌}
use mathlib.Core.Bool.{and-eq-true_iff}
use mathlib.Core.List.{[], ◌∷◌}
use mizan_client_sdks.Base.{
  ℕ, ◌<◌, String, ◌≡◌, refl, sym, ap, ◌∙◌, ◌↔◌, true, List, arith, eq_iff, eq_refl, lt→ltb,
}
use mizan_client_sdks.Base.Int.{pos}
use mizan_client_sdks.Python.Value.{
  Value, int, str, arr, obj, Items, Fields, ok, get_or_null, contains, is_dict, ok-injective,
}
use mizan_client_sdks.Python.Runtime.{Python}
use mizan_client_sdks.Webhooks.Ledger.{
  Posting, ledger_types, is_filled, is_positive, equal_text, all_filled, entry_strings, text_of,
  check_postings, entry_has_id, check_entry, validate_ledger,
}
use mizan_client_sdks.Webhooks.Ledger.Sums.{total, check_postings_iff}
use mizan_client_sdks.Webhooks.Ledger.Postings.{
  Filled, is_filled-Filled, Filled-is_filled, ArePostings,
}
use mizan_client_sdks.Webhooks.Ledger.Postings.Reading.{Reads-ArePostings, ArePostings-Reads}

abbrev pub AllFilled : List String → Fields → Type 0
AllFilled [] d = Unit
AllFilled (name ∷ names) d = Filled (get_or_null name d) × AllFilled names d

-- A ledger event: an identity, a positive sequence number, an entry of a known type that carries the
-- event's identity, and postings whose amounts sum to zero for each rail and unit.
pub record IsLedger (py : Python) (payload : Fields) : Type 0 where
  pub event_id : Filled (get_or_null "event_id" payload)
  pub business_id : Filled (get_or_null "business_id" payload)
  pub sequence : ℕ
  pub sequence_lem : get_or_null "business_sequence" payload ≡ int (pos sequence)
  pub sequence_pos : 0 < sequence
  pub entry : Fields
  pub entry_lem : get_or_null "entry" payload ≡ obj entry
  pub same_id : get_or_null "id" entry ≡ get_or_null "event_id" payload
  pub entry_filled : AllFilled entry_strings entry
  pub entry_type : contains ledger_types (text_of (get_or_null "entry_type" entry)) ≡ true
  pub entry_metadata : is_dict (get_or_null "metadata" entry) ≡ true
  pub items : Items
  pub postings_lem : get_or_null "postings" payload ≡ arr items
  pub postings : List Posting
  pub are_postings : ArePostings py items postings
  pub balanced : (r u : String) → total r u postings ≡ pos 0

all_filled-AllFilled :
    (names : List String) (d : Fields) → all_filled names d ≡ true → AllFilled names d
unfolding all_filled
all_filled-AllFilled [] d h = tt
all_filled-AllFilled (name ∷ names) d h =
    let (here, later) = (and-eq-true_iff _ _).0 h in
    (is_filled-Filled (get_or_null name d) here, all_filled-AllFilled names d later)

AllFilled-all_filled :
    (names : List String) (d : Fields) → AllFilled names d → all_filled names d ≡ true
unfolding all_filled
AllFilled-all_filled [] d h = refl
AllFilled-all_filled (name ∷ names) d (here, later) =
    (and-eq-true_iff _ _).1
      (Filled-is_filled (get_or_null name d) here, AllFilled-all_filled names d later)

equal_text-eq : (v w : Value) → equal_text v w ≡ true → v ≡ w
equal_text-eq (str s) (str t) h = ap str ((eq_iff s t).0 h)
equal_text-eq (str s) _ h = cc
equal_text-eq _ w h = cc

module _ (py : Python) (payload : Fields) where
  passes :
      {e : Fields}
      → validate_ledger py payload ≡ ok e
      → (is_filled (get_or_null "event_id" payload) ≡ true)
        × (is_filled (get_or_null "business_id" payload) ≡ true)
        × (is_positive (get_or_null "business_sequence" payload) ≡ true)
        × (entry_has_id (get_or_null "event_id" payload) (get_or_null "entry" payload) ≡ true)
        × (check_entry (get_or_null "entry" payload) ≡ ok tt)
        × (check_postings py (get_or_null "postings" payload) ≡ ok tt)
  unfolding validate_ledger
  passes h = ground arith

sequence_of : (v : Value) → is_positive v ≡ true → (n : ℕ) × (v ≡ int (pos n)) × (0 < n)
sequence_of (int (pos n)) h = (n, refl, ground arith)
sequence_of _ h = cc

check_entry-ok :
    (event_id v : Value)
    → check_entry v ≡ ok tt
    → entry_has_id event_id v ≡ true
    → (entry : Fields) × (v ≡ obj entry)
      × (get_or_null "id" entry ≡ event_id)
      × AllFilled entry_strings entry
      × (contains ledger_types (text_of (get_or_null "entry_type" entry)) ≡ true)
      × (is_dict (get_or_null "metadata" entry) ≡ true)
unfolding check_entry
check_entry-ok event_id (obj entry) h k = (
  entry,
  refl,
  equal_text-eq (get_or_null "id" entry) event_id k,
  all_filled-AllFilled entry_strings entry (ground arith),
  ground arith,
  ground arith,
)
check_entry-ok event_id _ h k = cc

items_of :
    (py : Python) (v : Value) → check_postings py v ≡ ok tt → (items : Items) × (v ≡ arr items)
unfolding check_postings
items_of py (arr items) h = (items, refl)
items_of py _ h = cc

equal_text-filled : (v w : Value) → v ≡ w → is_filled w ≡ true → equal_text v w ≡ true
equal_text-filled v (str s) e h = rw (e, eq_refl)
equal_text-filled v _ e h = cc

entry_accepts :
    (entry : Fields)
    → all_filled entry_strings entry ≡ true
    → contains ledger_types (text_of (get_or_null "entry_type" entry)) ≡ true
    → is_dict (get_or_null "metadata" entry) ≡ true
    → check_entry (obj entry) ≡ ok tt
unfolding check_entry
entry_accepts entry a b c = rw (a, b, c)

module _ (py : Python) (payload : Fields) where
  pub sound : {e : Fields} → validate_ledger py payload ≡ ok e → IsLedger py payload
  sound h =
      let (filled_event, filled_business, positive, id, entry_ok, postings_ok) =
        passes py payload h in
      let (n, e1, p1) = sequence_of (get_or_null "business_sequence" payload) positive in
      let (entry, e2, same, filled, kind, metadata) =
        check_entry-ok (get_or_null "event_id" payload) (get_or_null "entry" payload) entry_ok id in
      let (items, e3) = items_of py (get_or_null "postings" payload) postings_ok in
      let (ps, rs, zero) = (check_postings_iff py items).0 (rw e3 at postings_ok) in
      record {
        event_id = is_filled-Filled (get_or_null "event_id" payload) filled_event;
        business_id = is_filled-Filled (get_or_null "business_id" payload) filled_business;
        sequence = n;
        sequence_lem = e1;
        sequence_pos = p1;
        entry = entry;
        entry_lem = e2;
        same_id = same;
        entry_filled = filled;
        entry_type = kind;
        entry_metadata = metadata;
        items = items;
        postings_lem = e3;
        postings = ps;
        are_postings = Reads-ArePostings py rs;
        balanced = zero;
      }

  accepts :
      is_filled (get_or_null "event_id" payload) ≡ true
      → is_filled (get_or_null "business_id" payload) ≡ true
      → is_positive (get_or_null "business_sequence" payload) ≡ true
      → entry_has_id (get_or_null "event_id" payload) (get_or_null "entry" payload) ≡ true
      → check_entry (get_or_null "entry" payload) ≡ ok tt
      → check_postings py (get_or_null "postings" payload) ≡ ok tt
      → validate_ledger py payload ≡ ok payload
  unfolding validate_ledger
  accepts a b c d e f = rw (a, b, c, d, e, f)

  pub complete : IsLedger py payload → validate_ledger py payload ≡ ok payload
  complete l =
      accepts event (Filled-is_filled (get_or_null "business_id" payload) l.business_id)
        (rw l.sequence_lem (lt→ltb 0 l.sequence l.sequence_pos))
        (rw l.entry_lem (
          equal_text-filled (get_or_null "id" l.entry) (get_or_null "event_id" payload) l.same_id
            event))
        (rw l.entry_lem (
          entry_accepts l.entry (AllFilled-all_filled entry_strings l.entry l.entry_filled)
            l.entry_type l.entry_metadata))
        (rw l.postings_lem (
          (check_postings_iff py l.items).1
            (l.postings, ArePostings-Reads py l.are_postings, l.balanced)))
    where
      event : is_filled (get_or_null "event_id" payload) ≡ true
      event = Filled-is_filled (get_or_null "event_id" payload) l.event_id

  pub validate_ledger_iff :
      (e : Fields) → (validate_ledger py payload ≡ ok e) ↔ ((e ≡ payload) × IsLedger py payload)
  validate_ledger_iff e = (
    λ h. (ok-injective (sym h ∙ complete (sound h)), sound h),
    λ (p, l). complete l ∙ ap ok (sym p),
  )
