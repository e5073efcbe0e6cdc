-- ===== src/Webhooks/Receiver/Runs.antt =====
-- The ways in which `receive` can go.
use mathlib.Core.List.{[], ◌∷◌}
use mizan_client_sdks.Base.{
  ℕ, String, ◌≡◌, refl, ◌⊎◌, inl, inr, true, false, List, arith, Bool-cases,
}
use mizan_client_sdks.Python.Value.{
  Value, obj, Fields, Exception, value_error, type_error, foreign, ok, Result-cases, has_key,
}
use mizan_client_sdks.Python.Text.{is_empty}
use mizan_client_sdks.Python.Runtime.{Python}
use mizan_client_sdks.Webhooks.Ledger.{validate_ledger}
use mizan_client_sdks.Webhooks.Notification.{validate_notification}
use mizan_client_sdks.Webhooks.Receiver.{
  Headers, lookup, normalize, without_authorization, WebhookContext, Payload, bytes, text, mapping,
  Called, WebhookReceiver, authorized, Outcome, responded, escaped, Decoded, decoded, rejected,
  uncaught, bounded_object, decode_bytes, decode_payload, error_response, unprocessable, after_call,
  acknowledgement, no_content, receive_ledger, receive_notification, dispatch, receive_body,
  outbox_id_of, receive,
}

-- A status of a refusal: nothing was handed to a callback.
abbrev pub IsRefusal : ℕ → Type 0
IsRefusal n = (n ≡ 400) ⊎ (n ≡ 401) ⊎ (n ≡ 413) ⊎ (n ≡ 422)

Decoded-cases :
    (d : Decoded)
    → ((raw : List ℕ) × (fs : Fields) × (d ≡ decoded raw fs))
      ⊎ ((status : ℕ) × (message : String) × (d ≡ rejected status message))
      ⊎ (d ≡ uncaught)
Decoded-cases (decoded raw fs) = inl (raw, fs, refl)
Decoded-cases (rejected status message) = inr (inl (status, message, refl))
Decoded-cases uncaught = inr (inr refl)

bounded_object-IsRefusal :
    (raw : List ℕ) (limit : ℕ) (v : Value) {status : ℕ} {message : String}
    → bounded_object raw limit v ≡ rejected status message
    → IsRefusal status
bounded_object-IsRefusal raw limit v h = ground arith

decode_bytes-IsRefusal :
    (py : Python) (raw : List ℕ) (limit : ℕ) {status : ℕ} {message : String}
    → decode_bytes py raw limit ≡ rejected status message
    → IsRefusal status
unfolding decode_bytes
decode_bytes-IsRefusal py [] limit h = ground arith
decode_bytes-IsRefusal py (b ∷ bs) limit h = grind (arith, bounded_object-IsRefusal (b ∷ bs) limit)

decode_payload-IsRefusal :
    (py : Python) (payload : Payload) (limit : ℕ) {status : ℕ} {message : String}
    → decode_payload py payload limit ≡ rejected status message
    → IsRefusal status
unfolding decode_payload
decode_payload-IsRefusal py (bytes bs) limit h = decode_bytes-IsRefusal py bs limit h
decode_payload-IsRefusal py (text t) limit h = decode_bytes-IsRefusal py (py.encode t) limit h
decode_payload-IsRefusal py (mapping fs) limit h =
    bounded_object-IsRefusal (py.dumps fs) limit (obj fs) h

module _ {S : Type 0} (py : Python) (r : WebhookReceiver S) (headers : Headers)
    (payload : Payload) where
  -- The request has passed every check in front of the validation of its object, and the callback's
  -- context is what was received, less the credential.
  pub record Admitted (fs : Fields) (context : WebhookContext) : Type 0 where
    pub credential :
        authorized r.bearer_token (lookup "authorization" (normalize py headers [])) ≡ true
    pub outbox_id : context.outbox_id ≡ outbox_id_of py r (normalize py headers [])
    pub identified : is_empty context.outbox_id ≡ false
    pub context_headers : context.headers ≡ without_authorization (normalize py headers [])
    pub decodes : decode_payload py payload r.max_body_bytes ≡ decoded context.raw_body fs

  pub data Run (s : S) : Outcome → S → Type 0 where
    refused :
        (status : ℕ) (message : String)
        → IsRefusal status
        → Run s (responded (error_response py status message)) s
    failed : (e : Exception) → Run s (escaped e) s
    ledger :
        (fs event : Fields) (context : WebhookContext) (called : Called) (s' : S)
        → Admitted fs context
        → has_key "business_sequence" fs ≡ true
        → validate_ledger py fs ≡ ok event
        → r.on_ledger event context s ≡ (called, s')
        → Run s
            (after_call py (acknowledgement py event) "ledger webhook processing failed" called)
            s'
    notification :
        (fs event : Fields) (context : WebhookContext) (called : Called) (s' : S)
        → Admitted fs context
        → has_key "business_sequence" fs ≡ false
        → validate_notification py fs ≡ ok event
        → r.on_notification event context s ≡ (called, s')
        → Run s (after_call py no_content "notification webhook processing failed" called) s'

  -- a run whose outcome and state are the two parts of a pair
  abbrev Goes : S → Outcome × S → Type 0
  Goes s (o, s') = Run s o s'

  unprocessable-Goes : (s : S) (e : Exception) → Goes s (unprocessable py e, s)
  unprocessable-Goes s (value_error m) = refused 422 m (inr (inr (inr refl)))
  unprocessable-Goes s type_error = failed type_error
  unprocessable-Goes s foreign = failed foreign

  module _ (s : S) (fs : Fields) (context : WebhookContext) (a : Admitted fs context) where
    receive_ledger-Goes :
        has_key "business_sequence" fs ≡ true → Goes s (receive_ledger py r fs context s)
    unfolding receive_ledger
    receive_ledger-Goes k = elim (Result-cases (validate_ledger py fs)) [
      | inl (event, e) ↦
          let call = r.on_ledger event context s in
          rw (e, receive_ledger) (ledger fs event context call.0 call.1 a k e refl)
      | inr (x, e) ↦ rw (e, receive_ledger) (unprocessable-Goes s x)
    ]

    receive_notification-Goes :
        has_key "business_sequence" fs ≡ false → Goes s (receive_notification py r fs context s)
    unfolding receive_notification
    receive_notification-Goes k = elim (Result-cases (validate_notification py fs)) [
      | inl (event, e) ↦
          let call = r.on_notification event context s in
          rw (e, receive_notification) (notification fs event context call.0 call.1 a k e refl)
      | inr (x, e) ↦ rw (e, receive_notification) (unprocessable-Goes s x)
    ]

    dispatch-Goes : Goes s (dispatch py r fs context s)
    unfolding dispatch
    dispatch-Goes = elim (Bool-cases (has_key "business_sequence" fs)) [
      | inl k ↦ rw k (receive_ledger-Goes k)
      | inr k ↦ elim (Bool-cases (has_key "type" fs)) [
        | inl t ↦ rw (k, t) (receive_notification-Goes k)
        | inr t ↦ rw (k, t) (refused 422 "unknown Mizan webhook payload" (inr (inr (inr refl))))
      ]
    ]

  module _ (s : S) where
    receive_body-Goes :
        authorized r.bearer_token (lookup "authorization" (normalize py headers [])) ≡ true
        → is_empty (outbox_id_of py r (normalize py headers [])) ≡ false
        → Goes s (
            receive_body py r
              (normalize py headers [])
              (outbox_id_of py r (normalize py headers []))
              payload
              s)
    unfolding receive_body
    receive_body-Goes c i = elim (Decoded-cases (decode_payload py payload r.max_body_bytes)) [
      | inl (raw, fs, d) ↦
          rw (d, receive_body)
            (dispatch-Goes s fs
              (record {
                outbox_id = outbox_id_of py r (normalize py headers []);
                headers = without_authorization (normalize py headers []);
                raw_body = raw;
              })
              (record {
                credential = c;
                outbox_id = refl;
                identified = i;
                context_headers = refl;
                decodes = d;
              }))
      | inr (inl (status, message, d)) ↦
          rw (d, receive_body)
            (refused status message (decode_payload-IsRefusal py payload r.max_body_bytes d))
      | inr (inr d) ↦ rw (d, receive_body) (failed foreign)
    ]

    -- Every call goes in one of the ways of `Run`.
    pub receive-Run : Run s (receive py r headers payload s).0 (receive py r headers payload s).1
    unfolding receive
    receive-Run =
        elim (Bool-cases
          (authorized r.bearer_token (lookup "authorization" (normalize py headers [])))) [
            | inr c ↦ rw c (refused 401 "webhook authorization failed" (inr (inl refl)))
            | inl c ↦ elim (Bool-cases (is_empty (outbox_id_of py r (normalize py headers [])))) [
              | inl i ↦ rw (c, i) (refused 400 "X-Mizan-Outbox-Id is required" (inl refl))
              | inr i ↦ rw (c, i) (receive_body-Goes c i)
            ]
          ]
