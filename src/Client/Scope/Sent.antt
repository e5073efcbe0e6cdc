-- ===== src/Client/Scope/Sent.antt =====
-- What the requests of a call of a business-scoped method carry.
use mathlib.Core.List.{[]}
use mizan_client_sdks.Base.{
  ℕ, ◌≤◌, String, ◌≡◌, refl, sym, ap, ◌∙◌, Bool, true, false, Option, none, some, List, inl, inr,
  if◌then◌else◌, Bool-cases,
}
use mizan_client_sdks.Python.Value.{Fields, ok, Result-cases, ok-injective}
use mizan_client_sdks.Python.Text.{is_empty}
use mizan_client_sdks.Python.Runtime.{Python}
use mizan_client_sdks.Webhooks.Receiver.{lookup}
use mizan_client_sdks.Webhooks.Receiver.Redaction.{lookup-insert}
use mizan_client_sdks.Client.Http.{Request}
use mizan_client_sdks.Client.Retry.{
  MizanClient, Command, Environment, choose_key, update, content_type, encode_body, base_headers,
  request_headers, key_of, request_at, request, perform,
}
use mizan_client_sdks.Client.Retry.Story.{request-Story}
use mizan_client_sdks.Client.Retry.Effects.{requests_of}
use mizan_client_sdks.Client.Retry.Identity.{Every, Every-requests, lookup-key_header_self}
use mizan_client_sdks.Client.Scope.{BusinessCall, command_of}
use mizan_client_sdks.Client.Scope.Keys.{key_given, is_mutation, body_given, Made, command_of-Made}

-- a key that is not empty, or none
abbrev pub IsKey : Option String → Type 0
IsKey none = Unit
IsKey (some k) = is_empty k ≡ false

-- the caller gives no key, or an empty one
pub data NoneGiven : Option String → Type 0 where
  absent : NoneGiven none
  blank : (k : String) → is_empty k ≡ true → NoneGiven (some k)

-- The key of a call: that of the caller, where one is given, else the generated one for a mutation,
-- and none for a method that is no mutation.
pub data Chosen (given : Option String) (mutation : Bool) (new_key : String)
    : Option String → Type 0 where
  callers :
      (k : String) → given ≡ some k → is_empty k ≡ false → Chosen given mutation new_key (some k)
  generated : NoneGiven given → mutation ≡ true → Chosen given mutation new_key (some new_key)
  keyless : NoneGiven given → mutation ≡ false → Chosen given mutation new_key none

-- The request carries the key `key` and the body of the call.
pub record Carries (py : Python) (call : BusinessCall) (chosen : Option String) (q : Request)
    : Type 0 where
  pub key : lookup "Idempotency-Key" q.headers ≡ chosen
  pub given : Option Fields
  pub built : body_given call ≡ ok given
  pub body : q.body ≡ encode_body py given

-- the body is the one that the call is known to send
pub Carries-body :
    {py : Python} {call : BusinessCall} {chosen : Option String} {q : Request}
    {given : Option Fields}
    → Carries py call chosen q
    → body_given call ≡ ok given
    → q.body ≡ encode_body py given
Carries-body {py} s e = s.body ∙ ap (λ b. encode_body py b) (ok-injective (sym s.built ∙ e))

lookup-key_less :
    (client : MizanClient) (c : Command) (encoded : Option (List ℕ)) (id now : String)
    → lookup "Idempotency-Key" (content_type encoded (base_headers client c id now)) ≡ none
unfolding lookup
lookup-key_less client c none id now = refl
lookup-key_less client c (some bytes) id now =
    lookup-insert "Idempotency-Key" "Content-Type" "application/json" _

lookup-headers :
    (client : MizanClient) (c : Command) (encoded : Option (List ℕ)) (id now : String)
    (key : Option String)
    → IsKey key
    → c.extra_headers ≡ []
    → lookup "Idempotency-Key" (request_headers client c encoded key id now) ≡ key
unfolding request_headers update
lookup-headers client c encoded id now none full extra =
    rw extra (lookup-key_less client c encoded id now)
lookup-headers client c encoded id now (some k) full extra =
    rw extra (lookup-key_header_self k _ full)

generated-IsKey :
    (mutation : Bool) (new_key : String)
    → is_empty new_key ≡ false
    → IsKey (if mutation then some new_key else none)
generated-IsKey true new_key full = full
generated-IsKey false new_key full = tt

choose_key-IsKey :
    (given : Option String) (mutation : Bool) (new_key : String)
    → is_empty new_key ≡ false
    → IsKey (choose_key given mutation new_key)
unfolding choose_key
choose_key-IsKey none mutation new_key full = generated-IsKey mutation new_key full
choose_key-IsKey (some k) mutation new_key full = elim (Bool-cases (is_empty k)) [
  | inl empty ↦ rw empty (generated-IsKey mutation new_key full)
  | inr other ↦ rw other other
]

not_given-Chosen :
    {given : Option String} (mutation : Bool) (new_key : String)
    → NoneGiven given
    → Chosen given mutation new_key (if mutation then some new_key else none)
not_given-Chosen true new_key h = generated h refl
not_given-Chosen false new_key h = keyless h refl

choose_key-Chosen :
    (given : Option String) (mutation : Bool) (new_key : String)
    → Chosen given mutation new_key (choose_key given mutation new_key)
unfolding choose_key
choose_key-Chosen none mutation new_key = not_given-Chosen mutation new_key absent
choose_key-Chosen (some k) mutation new_key = elim (Bool-cases (is_empty k)) [
  | inl e ↦ rw e (not_given-Chosen mutation new_key (blank k e))
  | inr full ↦ rw full (callers k refl full)
]

module _ (py : Python) (client : MizanClient) (business_id : String) (env : Environment)
    (least : 1 ≤ client.max_attempts) (most : client.max_attempts ≤ 1025) where
  pub request-Carries :
      (call : BusinessCall) (key : Option String)
      → choose_key (key_given call) (is_mutation call) env.new_key ≡ key
      → IsKey key
      → (c : Command) → Made call c
      → Every (Carries py call key) (requests_of (request py client c env).1)
  unfolding request_at
  request-Carries call key e full c made =
      let chosen : key_of py client c env ≡ key = rw (made.key, made.mutates) e in
      Every-requests py client c env (Carries py call key)
        (λ attempt. record {
          key = rw chosen (
              lookup-headers client c _ env.correlation_id (env.now attempt) key full
                made.no_extra);
          given = c.body;
          built = made.body;
          body = refl;
        })
        (request-Story py client c env least most)

  -- The requests of a call carry its body, and the key that is chosen for it, if there is one.
  pub perform-chosen :
      (call : BusinessCall) (key : Option String)
      → choose_key (key_given call) (is_mutation call) env.new_key ≡ key
      → IsKey key
      → Every
          (Carries py call key)
          (requests_of (perform py client env (command_of py client business_id call)).1)
  unfolding perform requests_of
  perform-chosen call key e full = elim (Result-cases (command_of py client business_id call)) [
    | inl (c, f) ↦
        rw (f, perform)
          (request-Carries call key e full c (command_of-Made py client business_id call c f))
    | inr (x, f) ↦ rw (f, perform) tt
  ]

  -- With 1 to 1025 attempts and a generated key that is not empty, all requests of a call of a
  -- business-scoped method carry the body of the call and one idempotency key: the caller's, if one
  -- is given that is not empty, else the generated one for a mutation and none for a method that is
  -- no mutation.
  pub perform-Carries :
      (call : BusinessCall)
      → is_empty env.new_key ≡ false
      → (key : Option String) × Chosen (key_given call) (is_mutation call) env.new_key key
        × Every
            (Carries py call key)
            (requests_of (perform py client env (command_of py client business_id call)).1)
  perform-Carries call full = (
    choose_key (key_given call) (is_mutation call) env.new_key,
    choose_key-Chosen (key_given call) (is_mutation call) env.new_key,
    perform-chosen call _ refl
        (choose_key-IsKey (key_given call) (is_mutation call) env.new_key full),
  )
