-- ===== src/Client/Http/Replies.antt =====
-- Which replies are successes, and which errors are passed on.
use mathlib.Core.List.{[], ◌∷◌}
use mizan_client_sdks.Base.{
  ℕ, ◌≤◌, ◌<◌, String, ◌≡◌, ◌≢◌, ◌∙◌, refl, sym, ap, ◌⊎◌, inl, inr, Bool, ◌&&◌, Option, List, arith,
  leb, ltb, if◌then◌else◌, Bool-cases,
}
use mizan_client_sdks.Base.Lists.{length}
use mizan_client_sdks.Python.Value.{Value, str, obj, Fields, foreign, end, Result-cases}
use mizan_client_sdks.Python.Runtime.{Python, Loads, loaded, malformed, loads_raised}
use mizan_client_sdks.Webhooks.Receiver.{Headers}
use mizan_client_sdks.Client.Http.{
  Reply, replied, os_error, raised, Answer, success, failure, protocol, uncertain, crash, class_of,
  details_of, get_or, read_error, read_payload, read_value, decode_reply, read_reply,
}

module _ (py : Python) (key : Option String) where
  is_success : ℕ → Bool
  is_success status = leb 200 status && ltb status 300

  -- what an answer says of the status of its reply
  abbrev pub StatusOf : ℕ → Answer → Type 0
  StatusOf n (success status payload) = (status ≡ n) × (200 ≤ n) × (n < 300)
  StatusOf n (failure e) = (e.status ≡ n) × ((n < 200) ⊎ (300 ≤ n)) × (e.idempotency_key ≡ key)
  StatusOf n (protocol message) = Unit
  StatusOf n uncertain = ⊥
  StatusOf n (crash e) = Unit

  read_error-StatusOf :
      (n : ℕ) (headers : Headers) (error : Fields)
      → (n < 200) ⊎ (300 ≤ n)
      → StatusOf n (read_error py key n headers error)
  unfolding read_error
  read_error-StatusOf n headers error h =
      elim (Result-cases (class_of (get_or "code" (str "HTTP_ERROR") error))) [
        | inr (x, e) ↦ rw (e, read_error) tt
        | inl (t, e) ↦ elim (Result-cases (details_of py (get_or "details" (obj end) error))) [
          | inr (x, d) ↦ rw (e, d, read_error) tt
          | inl (f, d) ↦ rw (e, d, read_error) (refl, h, refl)
        ]
      ]

  error_object : Value → ℕ → Headers → Answer
  error_object (obj error) n headers = read_error py key n headers error
  error_object _ n headers = protocol "Mizan returned an invalid error envelope"

  error_object-StatusOf :
      (v : Value) (n : ℕ) (headers : Headers)
      → (n < 200) ⊎ (300 ≤ n)
      → StatusOf n (error_object v n headers)
  unfolding error_object
  error_object-StatusOf (obj error) n headers h = read_error-StatusOf n headers error h
  error_object-StatusOf _ n headers h = tt

  read_payload_lem :
      (n : ℕ) (headers : Headers) (payload : Fields)
      → read_payload py key n headers payload ≡ (
          if leb 200 n && ltb n 300
          then success n payload
          else error_object (get_or "error" (obj end) payload) n headers)
  unfolding read_payload error_object
  read_payload_lem n headers payload = ground arith

  read_payload-StatusOf :
      (n : ℕ) (headers : Headers) (payload : Fields)
      → StatusOf n (read_payload py key n headers payload)
  read_payload-StatusOf n headers payload =
      rw (read_payload_lem n headers payload) (elim (Bool-cases (leb 200 n && ltb n 300)) [
        | inl yes_ok ↦ rw yes_ok (refl, ground arith, ground arith)
        | inr other ↦
            rw other
              (error_object-StatusOf (get_or "error" (obj end) payload) n headers (ground arith))
      ])

  read_value-StatusOf :
      (n : ℕ) (headers : Headers) (v : Value) → StatusOf n (read_value py key n headers v)
  read_value-StatusOf n headers (obj payload) = read_payload-StatusOf n headers payload
  read_value-StatusOf n headers _ = tt

  loads-StatusOf :
      (n : ℕ) (headers : Headers) (l : Loads)
      → StatusOf n (elim l [
        | loaded v ↦ read_value py key n headers v
        | malformed ↦ protocol "Mizan returned invalid JSON"
        | loads_raised ↦ crash foreign
      ])
  loads-StatusOf n headers (loaded v) = read_value-StatusOf n headers v
  loads-StatusOf n headers malformed = tt
  loads-StatusOf n headers loads_raised = tt

  decode_reply-StatusOf :
      (n : ℕ) (headers : Headers) (raw : List ℕ) → StatusOf n (decode_reply py key n headers raw)
  decode_reply-StatusOf n headers [] = read_value-StatusOf n headers (obj end)
  decode_reply-StatusOf n headers (b ∷ bs) = loads-StatusOf n headers (py.loads_utf8 (b ∷ bs))

  -- A reply with a status from 200 to 299 is never an API error, and one with another status never
  -- a success; both carry the reply's status, and an API error the idempotency key of the request.
  pub read_reply-StatusOf :
      (n : ℕ) (headers : Headers) (raw : List ℕ)
      → StatusOf n (read_reply py key (replied n headers raw))
  unfolding read_reply
  read_reply-StatusOf n headers raw = elim (Bool-cases (ltb 2_097_152 (length raw))) [
    | inl big ↦ rw big tt
    | inr fits ↦ rw fits (decode_reply-StatusOf n headers raw)
  ]

  error_object-not_success :
      (v : Value) (n : ℕ) (headers : Headers) {status : ℕ} {payload : Fields}
      → error_object v n headers ≢ success status payload
  unfolding error_object read_error
  error_object-not_success (obj error) n headers h =
      elim (Result-cases (class_of (get_or "code" (str "HTTP_ERROR") error))) [
        | inr (x, e) ↦ cc (rw (e, read_error) at h)
        | inl (t, e) ↦ elim (Result-cases (details_of py (get_or "details" (obj end) error))) [
          | inr (x, d) ↦ cc (rw (e, d, read_error) at h)
          | inl (f, d) ↦ cc (rw (e, d, read_error) at h)
        ]
      ]
  error_object-not_success _ n headers h = cc

  -- the object that a success returns is the one that was decoded
  read_payload-success :
      (n : ℕ) (headers : Headers) (decoded : Fields) {status : ℕ} {payload : Fields}
      → read_payload py key n headers decoded ≡ success status payload
      → payload ≡ decoded
  read_payload-success n headers decoded h =
      let split = read_payload_lem n headers decoded in
      elim (Bool-cases (leb 200 n && ltb n 300)) [
        | inl yes_ok ↦ cc
        | inr other ↦ absurd (
            error_object-not_success (get_or "error" (obj end) decoded) n headers
              (rw other at (sym split ∙ h)))
      ]

  read_value-success :
      (n : ℕ) (headers : Headers) (v : Value) {status : ℕ} {payload : Fields}
      → read_value py key n headers v ≡ success status payload
      → v ≡ obj payload
  read_value-success n headers (obj decoded) h =
      ap obj (sym (read_payload-success n headers decoded h))
  read_value-success n headers _ h = cc

  loads-success :
      (n : ℕ) (headers : Headers) (l : Loads) {status : ℕ} {payload : Fields}
      → elim l [
        | loaded v ↦ read_value py key n headers v
        | malformed ↦ protocol "Mizan returned invalid JSON"
        | loads_raised ↦ crash foreign
      ]
        ≡ success status payload
      → l ≡ loaded (obj payload)
  loads-success n headers (loaded v) h = ap loaded (read_value-success n headers v h)
  loads-success n headers malformed h = cc
  loads-success n headers loads_raised h = cc

  -- The body is the JSON text of the object, or is empty and the object is too.
  pub data Carried (payload : Fields) : List ℕ → Type 0 where
    empty_body : payload ≡ end → Carried payload []
    json_body : (raw : List ℕ) → py.loads_utf8 raw ≡ loaded (obj payload) → Carried payload raw

  decode_reply-Carried :
      (n : ℕ) (headers : Headers) (raw : List ℕ) {status : ℕ} {payload : Fields}
      → decode_reply py key n headers raw ≡ success status payload
      → Carried payload raw
  decode_reply-Carried n headers [] h =
      let same = read_value-success n headers (obj end) h in empty_body cc
  decode_reply-Carried n headers (b ∷ bs) h =
      json_body (b ∷ bs) (loads-success n headers (py.loads_utf8 (b ∷ bs)) h)

  pub read_reply-Carried :
      (n : ℕ) (headers : Headers) (raw : List ℕ) {status : ℕ} {payload : Fields}
      → read_reply py key (replied n headers raw) ≡ success status payload
      → (length raw ≤ 2_097_152) × Carried payload raw
  unfolding read_reply
  read_reply-Carried n headers raw h = elim (Bool-cases (ltb 2_097_152 (length raw))) [
    | inl big ↦ absurd (cc (rw big at h))
    | inr fits ↦ (ground arith, decode_reply-Carried n headers raw (rw fits at h))
  ]

  pub read_reply-success :
      (r : Reply) {status : ℕ} {payload : Fields}
      → read_reply py key r ≡ success status payload
      → (headers : Headers) × (raw : List ℕ) × (r ≡ replied status headers raw)
        × (200 ≤ status)
        × (status < 300)
  read_reply-success (replied n headers raw) h =
      let (same, least, most) = (rw h at (read_reply-StatusOf n headers raw)) in
      (headers, raw, ap (λ m. replied m headers raw) (sym same), rw same least, rw same most)
  read_reply-success os_error h = unfold read_reply in cc
  read_reply-success raised h = unfold read_reply in cc
