-- ===== src/Webhooks/Receiver/Delivery.antt =====
-- When a callback runs, what is acknowledged, and how failures are answered.
use mizan_client_sdks.Base.{
  ℕ, String, ◌≡◌, refl, sym, ◌∙◌, ap, ◌⊎◌, inl, inr, true, Option, none, some, arith,
}
use mizan_client_sdks.Base.Int.{pos}
use mizan_client_sdks.Python.Value.{int, Fields, ok, get_or_null, has_key}
use mizan_client_sdks.Python.Runtime.{Python}
use mizan_client_sdks.Python.Numbers.Print.{show, str_of}
use mizan_client_sdks.Webhooks.Ledger.{validate_ledger}
use mizan_client_sdks.Webhooks.Ledger.Contract.{IsLedger, validate_ledger_iff}
use mizan_client_sdks.Webhooks.Notification.{validate_notification}
use mizan_client_sdks.Webhooks.Receiver.{
  Headers, lookup, WebhookContext, Payload, Called, returned, raised, cancelled, WebhookReceiver,
  Outcome, responded, escaped, error_response, receive,
}
use mizan_client_sdks.Webhooks.Receiver.Runs.{
  IsRefusal, Admitted, Run, refused, failed, ledger, notification, receive-Run,
}

pub str_of-pos : (py : Python) (n : ℕ) → str_of py (int (pos n)) ≡ show n
unfolding str_of
str_of-pos py n = refl

abbrev pub ack_header : String
ack_header = "x-mizan-ack-sequence"

pub has_key_of :
    (fs : Fields) {n : ℕ}
    → get_or_null "business_sequence" fs ≡ int (pos n)
    → has_key "business_sequence" fs ≡ true
has_key_of fs e = ground arith

-- the acknowledged number of an outcome
abbrev pub ack_of : Outcome → Option String
ack_of (responded resp) = lookup ack_header resp.headers
ack_of (escaped e) = none

-- the status of an outcome
abbrev pub status_of : Outcome → Option ℕ
status_of (responded resp) = some resp.status_code
status_of (escaped e) = none

no_ack :
    (py : Python) (status : ℕ) (message : String)
    → lookup ack_header (error_response py status message).headers ≡ none
unfolding lookup error_response
no_ack py status message = refl

notification_unchanged :
    (py : Python) (fs event : Fields) → validate_notification py fs ≡ ok event → event ≡ fs
unfolding validate_notification
notification_unchanged py fs event h = ground arith

module _ {S : Type 0} (py : Python) (r : WebhookReceiver S) (headers : Headers)
    (payload : Payload) where
  -- A callback ran on the event, and came to `called` and `s'`.
  pub record Applied (s : S) (called : Called) (s' : S) : Type 0 where
    pub event : Fields
    pub context : WebhookContext
    pub admitted : Admitted py r headers payload event context
    pub is_ledger : IsLedger py event
    pub applied : r.on_ledger event context s ≡ (called, s')

  Applied-of :
      {s s' : S} {called : Called} (fs event : Fields) (context : WebhookContext)
      → Admitted py r headers payload fs context
      → validate_ledger py fs ≡ ok event
      → r.on_ledger event context s ≡ (called, s')
      → (a : Applied s called s') × (a.event ≡ event)
  Applied-of fs event context a valid run =
      let (same, l) = (validate_ledger_iff py fs event).0 valid in
      (
        record {
          event = fs;
          context = context;
          admitted = a;
          is_ledger = l;
          applied = rw same at run;
        },
        sym same,
      )

  Run-acknowledged :
      {s s' : S} {o : Outcome} (v : String)
      → Run py r headers payload s o s'
      → ack_of o ≡ some v
      → (a : Applied s returned s') × (v ≡ show a.is_ledger.sequence)
  unfolding lookup
  Run-acknowledged v (refused status message m) h = cc (no_ack py status message)
  Run-acknowledged v (failed x) h = cc
  Run-acknowledged v (ledger fs event context returned s' a k valid run) h =
      let (applied, same) = Applied-of fs event context a valid run in
      let seen : str_of py (get_or_null "business_sequence" event) ≡ v = ground arith in
      (
        applied,
        sym seen
            ∙ ap (λ e. str_of py (get_or_null "business_sequence" e)) (sym same)
            ∙ ap (str_of py) applied.is_ledger.sequence_lem
            ∙ str_of-pos py applied.is_ledger.sequence,
      )
  Run-acknowledged v (ledger fs event context raised s' a k valid run) h =
      cc (no_ack py 500 "ledger webhook processing failed")
  Run-acknowledged v (ledger fs event context cancelled s' a k valid run) h = cc
  Run-acknowledged v (notification fs event context returned s' a k valid run) h = cc
  Run-acknowledged v (notification fs event context raised s' a k valid run) h =
      cc (no_ack py 500 "notification webhook processing failed")
  Run-acknowledged v (notification fs event context cancelled s' a k valid run) h = cc

  -- If a response of `receive` carries an acknowledged sequence number, the ledger callback ran
  -- once on an admitted event that meets the ledger contract and returned; its effect is the final
  -- state, and the number is the event's.
  pub receive-acknowledged :
      (s : S) (v : String)
      → ack_of (receive py r headers payload s).0 ≡ some v
      → (a : Applied s returned (receive py r headers payload s).1) × (v
          ≡ show a.is_ledger.sequence)
  receive-acknowledged s v h = Run-acknowledged v (receive-Run py r headers payload s) h

  -- The final state: unchanged, or that of one callback on an admitted payload that its validator
  -- accepts.
  abbrev pub Effect : S → S → Type 0
  Effect s s' =
      (s' ≡ s)
      ⊎ ((called : Called) × Applied s called s')
      ⊎ ((fs : Fields) × (context : WebhookContext) × (called : Called) × Admitted py r headers
            payload fs context
          × (validate_notification py fs ≡ ok fs)
          × (r.on_notification fs context s ≡ (called, s')))

  Run-Effect : {s s' : S} {o : Outcome} → Run py r headers payload s o s' → Effect s s'
  Run-Effect (refused status message m) = inl refl
  Run-Effect (failed x) = inl refl
  Run-Effect (ledger fs event context called s' a k valid run) =
      inr (inl (called, (Applied-of fs event context a valid run).0))
  Run-Effect {s} (notification fs event context called s' a k valid run) =
      let same = notification_unchanged py fs event valid in
      inr (inr (fs, context, called, a, rw same at valid, rw same at run))

  -- `receive` leaves the application's state as it is, or its effect is that of exactly one
  -- callback on a payload that was admitted and passes its validation.
  pub receive-Effect : (s : S) → Effect s (receive py r headers payload s).1
  receive-Effect s = Run-Effect (receive-Run py r headers payload s)

  -- a callback was called in the state, and came to `called` and to a state
  abbrev pub CalledWith : S → Called → S → Type 0
  CalledWith s called s' =
      ((fs : Fields) × (context : WebhookContext) × (r.on_ledger fs context s ≡ (called, s')))
      ⊎ ((fs : Fields) × (context : WebhookContext) × (r.on_notification fs context s
            ≡ (called, s')))

  -- what a status says of the run: 204 is a callback that returned, 500 one that raised, and a
  -- refusal left the state alone
  abbrev pub Meaning : S → S → Option ℕ → Type 0
  Meaning s s' none = Unit
  Meaning s s' (some n) =
      ((n ≡ 204) × CalledWith s returned s')
      ⊎ ((n ≡ 500) × CalledWith s raised s')
      ⊎ (IsRefusal n × (s' ≡ s))

  Run-Meaning :
      {s s' : S} {o : Outcome} → Run py r headers payload s o s' → Meaning s s' (status_of o)
  unfolding error_response
  Run-Meaning (refused status message m) = inr (inr (m, refl))
  Run-Meaning (failed x) = tt
  Run-Meaning (ledger fs event context returned s' a k valid run) =
      inl (refl, inl (event, context, run))
  Run-Meaning (ledger fs event context raised s' a k valid run) =
      inr (inl (refl, inl (event, context, run)))
  Run-Meaning (ledger fs event context cancelled s' a k valid run) = tt
  Run-Meaning (notification fs event context returned s' a k valid run) =
      inl (refl, inr (event, context, run))
  Run-Meaning (notification fs event context raised s' a k valid run) =
      inr (inl (refl, inr (event, context, run)))
  Run-Meaning (notification fs event context cancelled s' a k valid run) = tt

  -- Every response has one of the statuses 204, 500, 400, 401, 413 and 422: at 204 a callback
  -- returned, at 500 one raised, and at the others the state is unchanged.
  pub receive-Meaning :
      (s : S)
      → Meaning s (receive py r headers payload s).1 (status_of (receive py r headers payload s).0)
  receive-Meaning s = Run-Meaning (receive-Run py r headers payload s)
