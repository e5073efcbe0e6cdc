-- ===== src/Client/Retry/Identity.antt =====
-- What the requests of one run share.
use mathlib.Core.List.{[], ◌∷◌}
use mizan_client_sdks.Base.{
  ℕ, ◌≤◌, String, ◌≡◌, ◌≢◌, refl, sym, ap, ◌∙◌, Bool, true, false, Option, none, some, List, arith,
  ◌==◌, eq_iff, if◌then◌else◌, Bool-cases, inl, inr,
}
use mizan_client_sdks.Python.Text.{is_empty}
use mizan_client_sdks.Python.Runtime.{Python}
use mizan_client_sdks.Webhooks.Receiver.{Headers, lookup, insert}
use mizan_client_sdks.Webhooks.Receiver.Redaction.{lookup-insert}
use mizan_client_sdks.Client.Http.{Request}
use mizan_client_sdks.Client.Retry.{
  MizanClient, Command, Environment, Effect, Outcome, choose_key, update, content_type, key_header,
  encode_body, request_headers, base_headers, key_of, request_at, request,
}
use mizan_client_sdks.Client.Retry.Story.{Story, final, again, request-Story}
use mizan_client_sdks.Client.Retry.Effects.{requests_of, Ends-quiet}

-- what holds of each of the requests
abbrev pub Every : (Request → Type 0) → List Request → Type 0
Every holds [] = Unit
Every holds (q ∷ later) = holds q × Every holds later

pub Every-map :
    {P Q : Request → Type 0}
    → ((q : Request) → P q → Q q)
    → (qs : List Request) → Every P qs
    → Every Q qs
Every-map f [] h = tt
Every-map f (q ∷ qs) (h, hs) = (f q h, Every-map f qs hs)

lookup-update :
    (name : String) (extra h h' : Headers)
    → lookup name h ≡ lookup name h'
    → lookup name (update extra h) ≡ lookup name (update extra h')
unfolding update
lookup-update name [] h h' e = e
lookup-update name ((k, v) ∷ extra) h h' e =
    lookup-update name extra (insert k v h) (insert k v h') (
      lookup-insert name k v h
      ∙ ap (λ o. if k == name then some v else o) e
      ∙ sym (lookup-insert name k v h'))

lookup-update_absent :
    (name : String) (extra h : Headers)
    → lookup name extra ≡ none
    → lookup name (update extra h) ≡ lookup name h
unfolding update lookup
lookup-update_absent name [] h e = refl
lookup-update_absent name ((k, v) ∷ extra) h e = elim (Bool-cases (k == name)) [
  | inl same ↦ absurd (cc (rw (same, lookup) at e))
  | inr other ↦
      lookup-update_absent name extra (insert k v h) (rw (other, lookup) at e)
      ∙ lookup-insert name k v h
      ∙ rw other refl
]

lookup-content_type :
    (name : String) (body : Option (List ℕ)) (h h' : Headers)
    → lookup name h ≡ lookup name h'
    → lookup name (content_type body h) ≡ lookup name (content_type body h')
lookup-content_type name none h h' e = e
lookup-content_type name (some bytes) h h' e =
    lookup-insert name "Content-Type" "application/json" h
    ∙ ap (λ o. if "Content-Type" == name then some "application/json" else o) e
    ∙ sym (lookup-insert name "Content-Type" "application/json" h')

lookup-key_header :
    (name : String) (key : Option String) (h h' : Headers)
    → lookup name h ≡ lookup name h'
    → lookup name (key_header key h) ≡ lookup name (key_header key h')
lookup-key_header name none h h' e = e
lookup-key_header name (some k) h h' e = elim (Bool-cases (is_empty k)) [
  | inl empty ↦ rw empty e
  | inr other ↦ rw other (
      lookup-insert name "Idempotency-Key" k h
      ∙ ap (λ o. if "Idempotency-Key" == name then some k else o) e
      ∙ sym (lookup-insert name "Idempotency-Key" k h'))
]

-- Two requests that differ in their timestamp alone.
pub record SameRequest (q q' : Request) : Type 0 where
  pub url : q.url ≡ q'.url
  pub body : q.body ≡ q'.body
  pub method : q.method ≡ q'.method
  pub header :
      (name : String)
      → name ≢ "X-Request-Timestamp"
      → lookup name q.headers ≡ lookup name q'.headers

lookup-base_headers :
    (client : MizanClient) (command : Command) (id name now now' : String)
    → name ≢ "X-Request-Timestamp"
    → lookup name (base_headers client command id now)
      ≡ lookup name (base_headers client command id now')
unfolding lookup
lookup-base_headers client command id name now now' h =
    ground (arith, eq_iff "X-Request-Timestamp" name)

-- headers that agree in front of what `_request` adds agree behind it
pub lookup-headers_of :
    (command : Command) (encoded : Option (List ℕ)) (key : Option String) (name : String)
    (h h' : Headers)
    → lookup name h ≡ lookup name h'
    → lookup name (update command.extra_headers (key_header key (content_type encoded h)))
      ≡ lookup name (update command.extra_headers (key_header key (content_type encoded h')))
lookup-headers_of command encoded key name h h' e =
    lookup-update name command.extra_headers _ _
      (lookup-key_header name key _ _ (lookup-content_type name encoded h h' e))

module _ (client : MizanClient) (command : Command) (encoded : Option (List ℕ))
    (key : Option String) (id : String) where
  lookup-request_headers :
      (name now now' : String)
      → name ≢ "X-Request-Timestamp"
      → lookup name (request_headers client command encoded key id now)
        ≡ lookup name (request_headers client command encoded key id now')
  unfolding request_headers
  lookup-request_headers name now now' h =
      lookup-headers_of command encoded key name (base_headers client command id now)
        (base_headers client command id now')
        (lookup-base_headers client command id name now now' h)

choose_key_mutation :
    (o : Option String) (mutation : Bool) (new_key : String)
    → mutation ≡ true
    → is_empty new_key ≡ false
    → (k : String) × (choose_key o mutation new_key ≡ some k) × (is_empty k ≡ false)
unfolding choose_key
choose_key_mutation none mutation new_key m n = (new_key, rw m refl, n)
choose_key_mutation (some k) mutation new_key m n = elim (Bool-cases (is_empty k)) [
  | inl empty ↦ (new_key, rw (empty, m) refl, n)
  | inr full ↦ (k, rw full refl, full)
]

pub lookup-key_header_self :
    (k : String) (h : Headers)
    → is_empty k ≡ false
    → lookup "Idempotency-Key" (key_header (some k) h) ≡ some k
lookup-key_header_self k h e = rw e (lookup-insert "Idempotency-Key" "Idempotency-Key" k h)

module _ (py : Python) (client : MizanClient) (command : Command) (env : Environment) where
  pub Every-requests :
      (P : Request → Type 0) {o : Outcome} {attempt : ℕ} {es : List Effect}
      → ((k : ℕ) → P (request_at py client command env k))
      → Story py client command env o attempt es
      → Every P (requests_of es)
  unfolding requests_of
  Every-requests P h (final attempt es fits ends) =
      rw ((Ends-quiet py client command env ends).0) (h attempt, tt)
  Every-requests P h (again attempt es mutation more c story) =
      (h attempt, Every-requests P h story)

  request_at-SameRequest :
      (j k : ℕ)
      → SameRequest (request_at py client command env j) (request_at py client command env k)
  unfolding request_at
  request_at-SameRequest j k = record {
    url = refl;
    body = refl;
    method = refl;
    header = λ name h.
        lookup-request_headers client command (encode_body py command.body)
          (key_of py client command env) env.correlation_id name (env.now j) (env.now k) h;
  }

  -- Every request that a run sends has the URL, the body, the method and the headers of its first
  -- attempt, but for the timestamp, with 1 to 1025 attempts.
  pub request-SameRequest :
      1 ≤ client.max_attempts
      → client.max_attempts ≤ 1025
      → Every
          (λ q. SameRequest q (request_at py client command env 1))
          (requests_of (request py client command env).1)
  request-SameRequest least most =
      Every-requests (λ q. SameRequest q (request_at py client command env 1))
        (λ k. request_at-SameRequest k 1) (request-Story py client command env least most)

  given_key :
      (k : String)
      → command.idempotency_key ≡ some k
      → is_empty k ≡ false
      → key_of py client command env ≡ some k
  unfolding choose_key
  given_key k e full = rw e (rw full refl)

  request_at-key :
      (k : String) (attempt : ℕ)
      → key_of py client command env ≡ some k
      → is_empty k ≡ false
      → lookup "Idempotency-Key" command.extra_headers ≡ none
      → lookup "Idempotency-Key" (request_at py client command env attempt).headers ≡ some k
  unfolding request_at request_headers
  request_at-key k attempt e n absent = rw e (
      lookup-update_absent "Idempotency-Key" command.extra_headers _ absent
      ∙ lookup-key_header_self k _ n)

  -- With 1 to 1025 attempts, every request of a mutation carries one and the same idempotency key
  -- that is not empty, if the extra headers set none and the generated key is not empty.
  pub request-key :
      1 ≤ client.max_attempts
      → client.max_attempts ≤ 1025
      → command.mutation ≡ true
      → is_empty env.new_key ≡ false
      → lookup "Idempotency-Key" command.extra_headers ≡ none
      → (k : String) × (is_empty k ≡ false)
        × Every
            (λ q. lookup "Idempotency-Key" q.headers ≡ some k)
            (requests_of (request py client command env).1)
  request-key least most m n absent =
      let (k, e, full) =
        choose_key_mutation command.idempotency_key command.mutation env.new_key m n in
      (
        k,
        full,
        Every-requests (λ q. lookup "Idempotency-Key" q.headers ≡ some k)
            (λ attempt. request_at-key k attempt e full absent)
            (request-Story py client command env least most),
      )

  -- With 1 to 1025 attempts, every request carries the caller's key, if it is not empty and the
  -- extra headers set none.
  request-own_key :
      (k : String)
      → 1 ≤ client.max_attempts
      → client.max_attempts ≤ 1025
      → command.idempotency_key ≡ some k
      → is_empty k ≡ false
      → lookup "Idempotency-Key" command.extra_headers ≡ none
      → Every
          (λ q. lookup "Idempotency-Key" q.headers ≡ some k)
          (requests_of (request py client command env).1)
  request-own_key k least most given full absent =
      Every-requests (λ q. lookup "Idempotency-Key" q.headers ≡ some k)
        (λ attempt. request_at-key k attempt (given_key k given full) full absent)
        (request-Story py client command env least most)
