-- ===== src/Webhooks/Notification/Contract.antt =====
-- What `_validate_notification` accepts, as a contract on the payload.
use mathlib.Core.List.{[], ◌∷◌}
use mizan_client_sdks.Base.{
  String, ◌≡◌, sym, ap, ◌∙◌, ◌↔◌, ◌⊎◌, inl, inr, true, List, arith, ◌==◌, eq_iff, Bool-cases,
  if◌then◌else◌,
}
use mizan_client_sdks.Python.Value.{
  Value, str, Fields, Result, ok, ◌>>=◌, get_or_null, contains, in_set,
}
use mizan_client_sdks.Python.Runtime.{Python}
use mizan_client_sdks.Webhooks.Amounts.{unsigned_canonical_integer}
use mizan_client_sdks.Webhooks.Ledger.{is_filled, equal_text}
use mizan_client_sdks.Webhooks.Ledger.Postings.{Filled, is_filled-Filled, Filled-is_filled}
use mizan_client_sdks.Webhooks.Notification.{
  check_threshold, check_paused, check_manual, validate_notification,
}

abbrev threshold_types : List String
threshold_types = "budget_warning" ∷ "budget_breached" ∷ []

module _ (py : Python) (payload : Fields) where
  -- What a notification of a type carries.
  pub data Carries : Value → Type 0 where
    threshold :
        (t : String)
        → (t ≡ "budget_warning") ⊎ (t ≡ "budget_breached")
        → Filled (get_or_null "period" payload)
        → unsigned_canonical_integer py (get_or_null "projected" payload) ≡ ok true
        → unsigned_canonical_integer py (get_or_null "limit" payload) ≡ ok true
        → Carries (str t)
    paused : Filled (get_or_null "period" payload) → Carries (str "budget_paused")
    manual :
        (t : String)
        → (t ≡ "feature_paused_manual") ⊎ (t ≡ "feature_resumed_manual")
        → Carries (str t)

  -- the tests that depend on the type
  check_kind : Value → Result (Unit {0})
  check_kind event_type = do
    known ← in_set threshold_types event_type
    (if known
        then check_threshold py payload
        else if equal_text event_type (str "budget_paused")
        then check_paused payload
        else check_manual event_type)

  threshold_parts :
      check_threshold py payload ≡ ok tt
      → (is_filled (get_or_null "period" payload) ≡ true)
        × (unsigned_canonical_integer py (get_or_null "projected" payload) ≡ ok true)
        × (unsigned_canonical_integer py (get_or_null "limit" payload) ≡ ok true)
  unfolding check_threshold
  threshold_parts h = (ground arith, ground arith, ground arith)

  paused_part : check_paused payload ≡ ok tt → is_filled (get_or_null "period" payload) ≡ true
  unfolding check_paused
  paused_part h = ground arith

  one_of_two : (a b t : String) → contains (a ∷ b ∷ []) t ≡ true → (t ≡ a) ⊎ (t ≡ b)
  unfolding contains
  one_of_two a b t h = elim (Bool-cases (a == t)) [
    | inl e ↦ inl (sym ((eq_iff a t).0 e))
    | inr n ↦ elim (Bool-cases (b == t)) [
      | inl e ↦ inr (sym ((eq_iff b t).0 e))
      | inr k ↦ absurd (ground arith)
    ]
  ]

  kind-Carries : (v : Value) → check_kind v ≡ ok tt → Carries v
  unfolding check_kind in_set check_manual
  kind-Carries (str t) h = elim (Bool-cases (contains threshold_types t)) [
    | inl e ↦
        let (f, p, l) = threshold_parts (ground arith) in
        threshold t (one_of_two _ _ t e) (is_filled-Filled _ f) p l
    | inr n ↦ elim (Bool-cases (t == "budget_paused")) [
      | inl e ↦
          let f = is_filled-Filled (get_or_null "period" payload) (paused_part (ground arith)) in
          rw ((eq_iff t "budget_paused").0 e) (paused f)
      | inr k ↦ manual t (one_of_two _ _ t (ground arith))
    ]
  ]
  kind-Carries _ h = cc

  Carries-kind : (v : Value) → Carries v → check_kind v ≡ ok tt
  unfolding check_kind in_set check_manual contains check_threshold check_paused
  Carries-kind v (threshold t (inl e) f p l) = rw (e, Filled-is_filled _ f, p, l)
  Carries-kind v (threshold t (inr e) f p l) = rw (e, Filled-is_filled _ f, p, l)
  Carries-kind v (paused f) = rw (Filled-is_filled _ f)
  Carries-kind v (manual t (inl e)) = rw e
  Carries-kind v (manual t (inr e)) = rw e

  passes :
      (e : Fields)
      → validate_notification py payload ≡ ok e
      → (e ≡ payload)
        × (is_filled (get_or_null "business_id" payload) ≡ true)
        × (is_filled (get_or_null "feature_code" payload) ≡ true)
        × (check_kind (get_or_null "type" payload) ≡ ok tt)
  unfolding validate_notification check_kind
  passes e h = ground arith

  accepts :
      is_filled (get_or_null "business_id" payload) ≡ true
      → is_filled (get_or_null "feature_code" payload) ≡ true
      → check_kind (get_or_null "type" payload) ≡ ok tt
      → validate_notification py payload ≡ ok payload
  unfolding validate_notification check_kind
  accepts a b c = ground arith

  -- A payload passes the notification validation exactly when it names a business and a feature and
  -- carries what its type asks for: a period and two exact amounts for a budget threshold, a period
  -- for a budget pause, nothing more for a manual pause or resumption; it is passed on unchanged.
  pub validate_notification_iff :
      (e : Fields)
      → (validate_notification py payload ≡ ok e) ↔ (
          (e ≡ payload)
          × Filled (get_or_null "business_id" payload)
          × Filled (get_or_null "feature_code" payload)
          × Carries (get_or_null "type" payload))
  validate_notification_iff e = (
    λ h.
        let (same, a, b, c) = passes e h in
        (same, is_filled-Filled _ a, is_filled-Filled _ b, kind-Carries _ c),
    λ (same, a, b, c).
        accepts (Filled-is_filled _ a) (Filled-is_filled _ b) (Carries-kind _ c) ∙ ap ok (sym same),
  )
