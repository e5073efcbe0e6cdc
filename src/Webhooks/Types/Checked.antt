-- ===== src/Webhooks/Types/Checked.antt =====
-- The declared type of a ledger event, against its validation (webhooks.py).
use mathlib.Core.Bool.{and-eq-true_iff}
use mathlib.Core.List.{[], ◌∷◌}
use mizan_client_sdks.Base.{
  String, ◌≡◌, refl, sym, ap, ◌∙◌, Bool, true, false, some, List, arith, inl, inr, Option-cases,
  if◌then◌else◌,
}
use mizan_client_sdks.Python.Value.{
  Value, null, int, str, arr, obj, Items, Fields, end, field, ok, get, get_or_null, contains,
  in_set, is_dict,
}
use mizan_client_sdks.Base.Int.{pos}
use mizan_client_sdks.Python.Runtime.{Python}
use mizan_client_sdks.Models.Shape.{
  Kind, Shape, text, anything, closed, required, optional, all_items, all_values, has_kind,
  has_entries,
}
use mizan_client_sdks.Webhooks.Amounts.{canonical_integer}
use mizan_client_sdks.Webhooks.Ledger.{
  Posting, is_filled, read_posting, validate_ledger, text_of, ledger_types,
}
use mizan_client_sdks.Webhooks.Ledger.Contract.{IsLedger, sound}
use mizan_client_sdks.Webhooks.Ledger.Postings.{Filled, is_filled-Filled}
use mizan_client_sdks.Webhooks.Ledger.Postings.Reading.{ArePostings-Reads}
use mizan_client_sdks.Webhooks.Ledger.Sums.{Reads, none_left, next}
use mizan_client_sdks.Webhooks.Types.{
  ledger_entry_webhook_shape, ledger_posting_webhook_shape, ledger_webhook_shape,
}

-- the shape less some of its keys
unfoldable pub without : List String → Shape → Shape
without ks closed = closed
without ks (required k t s) =
    let rest = without ks s in if contains ks k then rest else required k t rest
without ks (optional k t s) =
    let rest = without ks s in if contains ks k then rest else optional k t rest

-- the posting has the declared type, but for its `lot_id` and `metadata`
unfoldable pub posting_typed : Value → Bool
posting_typed (obj fs) =
    has_entries (without ("lot_id" ∷ "metadata" ∷ []) ledger_posting_webhook_shape) fs
posting_typed _ = false

-- The entries that the validation tests have the declared types: those of the event, those of its
-- entry but for `subscription_id` and `feature_code`, and those of each posting but for `lot_id` and
-- `metadata`.
pub record Checked (payload : Fields) : Type 0 where
  pub identity :
      has_entries (without ("entry" ∷ "postings" ∷ []) ledger_webhook_shape) payload ≡ true
  pub entry : Fields
  pub entry_lem : get "entry" payload ≡ some (obj entry)
  pub entry_typed :
      has_entries
        (without ("subscription_id" ∷ "feature_code" ∷ []) ledger_entry_webhook_shape)
        entry
      ≡ true
  pub postings : Items
  pub postings_lem : get "postings" payload ≡ some (arr postings)
  pub postings_typed : all_items posting_typed postings ≡ true

-- what is there if it reads as a value other than `None`
get_there :
    (key : String) (fs : Fields) (v : Value)
    → get_or_null key fs ≡ v
    → (null ≡ v → ⊥)
    → get key fs ≡ some v
get_there key fs v h n = elim (Option-cases (get key fs)) [
  | inl e ↦ absurd (n (rw (e, get_or_null) at h))
  | inr (w, e) ↦ e ∙ ap some (rw (e, get_or_null) at h)
]

-- the entries have the types of the shape
record Typed (s : Shape) (fs : Fields) : Type 0 where
  holds : has_entries s fs ≡ true

closed-Typed : (fs : Fields) → Typed closed fs
unfolding has_entries
closed-Typed fs = record { holds = refl }

module _ (key : String) (t : Kind) (s : Shape) (fs : Fields) (v : Value)
    (read : get_or_null key fs ≡ v) (there : null ≡ v → ⊥) (kind : has_kind t v ≡ true)
    (rest : Typed s fs) where
  required-Typed : Typed (required key t s) fs
  unfolding has_entries
  required-Typed = record { holds = rw (get_there key fs v read there, kind, rest.holds) refl }

  optional-Typed : Typed (optional key t s) fs
  unfolding has_entries
  optional-Typed = record { holds = rw (get_there key fs v read there, kind, rest.holds) refl }

text-Typed :
    (key : String) (s : Shape) (fs : Fields)
    → Filled (get_or_null key fs)
    → Typed s fs
    → Typed (required key text s) fs
unfolding has_kind
text-Typed key s fs (x, e, n) rest = required-Typed key text s fs (str x) e (λ h. cc) refl rest

in_set-literal :
    (names : List String) (v : Value)
    → in_set names v ≡ ok true
    → (x : String) × (v ≡ str x) × (contains names x ≡ true)
unfolding in_set
in_set-literal names (str x) h = (x, refl, ground arith)
in_set-literal names _ h = absurd cc

all_anything : (fs : Fields) → all_values (has_kind anything) fs ≡ true
unfolding all_values has_kind
all_anything end = refl
all_anything (field k v fs) = all_anything fs

dict_there : (v : Value) → is_dict v ≡ true → (fs : Fields) × (v ≡ obj fs)
dict_there (obj fs) h = (fs, refl)
dict_there _ h = absurd cc

canonical-text :
    (py : Python) (v : Value) → canonical_integer py v ≡ ok true → (x : String) × (v ≡ str x)
unfolding canonical_integer
canonical-text py (str x) h = (x, refl)
canonical-text py _ h = absurd cc

read_posting-parts :
    (py : Python) (fs : Fields) (p : Posting)
    → read_posting py (obj fs) ≡ ok p
    → (in_set ("azeer_units" ∷ "provider_balance" ∷ "invoice" ∷ []) (get_or_null "rail" fs)
        ≡ ok true)
      × (in_set ("milliunit" ∷ "halala" ∷ []) (get_or_null "unit" fs) ≡ ok true)
      × (is_filled (get_or_null "account_code" fs) ≡ true)
      × (canonical_integer py (get_or_null "amount" fs) ≡ ok true)
unfolding read_posting
read_posting-parts py fs p h = (ground arith, ground arith, ground arith, ground arith)

posting_fields-Typed :
    (py : Python) (fs : Fields) (p : Posting)
    → read_posting py (obj fs) ≡ ok p
    → Typed (without ("lot_id" ∷ "metadata" ∷ []) ledger_posting_webhook_shape) fs
unfolding without ledger_posting_webhook_shape contains has_kind
posting_fields-Typed py fs p h =
    let (rail, unit, account, amount) = read_posting-parts py fs p h in
    let (r, er, kr) = in_set-literal _ _ rail in
    let (u, eu, ku) = in_set-literal _ _ unit in
    let (a, ea, na) = is_filled-Filled _ account in
    let (m, em) = canonical-text py _ amount in
    optional-Typed "rail" _ _ fs (str r) er (λ h. cc) kr
      (optional-Typed "account_code" _ _ fs (str a) ea (λ h. cc) refl
        (optional-Typed "amount" _ _ fs (str m) em (λ h. cc) refl
          (optional-Typed "unit" _ _ fs (str u) eu (λ h. cc) ku (closed-Typed fs))))

read_posting-typed :
    (py : Python) (v : Value) (p : Posting) → read_posting py v ≡ ok p → posting_typed v ≡ true
unfolding posting_typed read_posting
read_posting-typed py (obj fs) p h = (posting_fields-Typed py fs p h).holds
read_posting-typed py _ p h = absurd cc

Reads-typed :
    (py : Python) (items : Items) (ps : List Posting)
    → Reads py items ps
    → all_items posting_typed items ≡ true
unfolding all_items
Reads-typed py items ps none_left = refl
Reads-typed py items qs (next {v} {vs} {p} {ps} h rs) =
    (and-eq-true_iff _ _).1 (read_posting-typed py v p h, Reads-typed py vs ps rs)

module _ (py : Python) (payload : Fields) where
  -- the event's own entries
  identity-Typed :
      IsLedger py payload → Typed (without ("entry" ∷ "postings" ∷ []) ledger_webhook_shape) payload
  unfolding without ledger_webhook_shape contains has_kind
  identity-Typed l = text-Typed "event_id" _ payload l.event_id (
      text-Typed "business_id" _ payload l.business_id (
        required-Typed "business_sequence" _ _ payload (int (pos l.sequence)) l.sequence_lem
          (λ h. cc) refl (closed-Typed payload)))

  entry-Typed :
      (l : IsLedger py payload)
      → Typed (without ("subscription_id" ∷ "feature_code" ∷ []) ledger_entry_webhook_shape) l.entry
  unfolding without ledger_entry_webhook_shape contains has_kind
  entry-Typed l =
      let (id, kinds) = l.entry_filled in
      let ((x, e, n), commands) = kinds in
      let (command, sources) = commands in
      let (source, effectives) = sources in
      let (effective, catalogs) = effectives in
      let (catalog, policies) = catalogs in
      let (metadata, m) = dict_there (get_or_null "metadata" l.entry) l.entry_metadata in
      let known : contains ledger_types x ≡ true =
        ap (λ v. contains ledger_types (text_of v)) (sym e) ∙ l.entry_type in
      text-Typed "id" _ l.entry id (
        required-Typed "entry_type" _ _ l.entry (str x) e (λ h. cc) known
          (text-Typed "source_command" _ l.entry command (
            text-Typed "source_event_id" _ l.entry source (
              text-Typed "effective_at" _ l.entry effective (
                text-Typed "catalog_version" _ l.entry catalog (
                  text-Typed "policy_version" _ l.entry policies.0 (
                    required-Typed "metadata" _ _ l.entry (obj metadata) m (λ h. cc)
                      (all_anything metadata) (closed-Typed l.entry))))))))

  -- A payload that passes the ledger validation has the types that `LedgerWebhook` declares, for
  -- the event's own entries, for the entry but for `subscription_id` and `feature_code`, and for
  -- every posting but for `lot_id` and `metadata`.
  pub validate_ledger-Checked : (e : Fields) → validate_ledger py payload ≡ ok e → Checked payload
  validate_ledger-Checked e h =
      let l = sound py payload h in
      record {
        identity = (identity-Typed l).holds;
        entry = l.entry;
        entry_lem = get_there "entry" payload (obj l.entry) l.entry_lem (λ h. cc);
        entry_typed = (entry-Typed l).holds;
        postings = l.items;
        postings_lem = get_there "postings" payload (arr l.items) l.postings_lem (λ h. cc);
        postings_typed = Reads-typed py l.items l.postings (ArePostings-Reads py l.are_postings);
      }
