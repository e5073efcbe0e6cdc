-- ===== src/Client/Retry/Secrecy.antt =====
-- Runs of `_request` of client.py under two bearer tokens.
use mathlib.Core.List.{[], ◌∷◌}
use mizan_client_sdks.Base.{
  ℕ, zero, suc, ◌+◌, String, ◌≡◌, ◌≢◌, refl, inl, inr, List, not, ◌||◌, Bool-cases, Option-cases,
  arith, eq_iff,
}
use mizan_client_sdks.Python.Runtime.{Python}
use mizan_client_sdks.Webhooks.Receiver.{lookup}
use mizan_client_sdks.Client.Http.{
  Request, Answer, success, failure, protocol, uncertain, crash, read_reply,
}
use mizan_client_sdks.Client.Retry.{
  MizanClient, Command, Environment, Effect, sent, Outcome, base_headers, request_headers,
  encode_body, request_at, key_of, is_last, backoff, pause, conclude, attempts, request,
}
use mizan_client_sdks.Client.Retry.Identity.{lookup-headers_of}

-- Two requests that differ in the bearer token alone.
pub record SameButToken (q q' : Request) : Type 0 where
  pub url : q.url ≡ q'.url
  pub body : q.body ≡ q'.body
  pub method : q.method ≡ q'.method
  pub header :
      (name : String) → name ≢ "Authorization" → lookup name q.headers ≡ lookup name q'.headers

-- The same effects in the same order, but for the bearer token of the requests.
pub data Matched : List Effect → List Effect → Type 0 where
  nothing : Matched [] []
  request_pair :
      {q q' : Request} {es es' : List Effect}
      → SameButToken q q'
      → Matched es es'
      → Matched (sent q ∷ es) (sent q' ∷ es')
  same_effect : {es es' : List Effect} (e : Effect) → Matched es es' → Matched (e ∷ es) (e ∷ es')

abbrev pub Alike : Outcome × List Effect → Outcome × List Effect → Type 0
Alike (o, es) (o', es') = (o ≡ o') × Matched es es'

module _ (py : Python) (client : MizanClient) (token : String) (command : Command)
    (env : Environment) where
  abbrev pub other : MizanClient
  other = record client { token = token }

  lookup-base_headers :
      (id now name : String)
      → name ≢ "Authorization"
      → lookup name (base_headers client command id now)
        ≡ lookup name (base_headers other command id now)
  unfolding lookup
  lookup-base_headers id now name h = ground (arith, eq_iff "Authorization" name)

  request_at-SameButToken :
      (attempt : ℕ)
      → SameButToken
          (request_at py client command env attempt)
          (request_at py other command env attempt)
  unfolding request_at request_headers
  request_at-SameButToken attempt = record {
    url = refl;
    body = refl;
    method = refl;
    header = λ name h.
        lookup-headers_of command (encode_body py command.body) (key_of py client command env) name
          _ _ (lookup-base_headers env.correlation_id (env.now attempt) name h);
  }

  pause-Alike :
      (attempt : ℕ) (rest rest' : Outcome × List Effect)
      → Alike rest rest'
      → Alike (pause py client command env attempt rest) (pause py other command env attempt rest')
  unfolding pause
  pause-Alike attempt rest rest' h = elim (Option-cases (backoff attempt)) [
    | inl e ↦ rw (e, pause) (refl, same_effect _ nothing)
    | inr (b, e) ↦ rw (e, pause) (h.0, same_effect _ (same_effect _ h.1))
  ]

  conclude-Alike :
      (attempt : ℕ) (a : Answer) (rest rest' : Outcome × List Effect)
      → Alike rest rest'
      → Alike
          (conclude py client command env attempt a rest)
          (conclude py other command env attempt a rest')
  unfolding conclude
  conclude-Alike attempt (success status payload) rest rest' h = (refl, same_effect _ nothing)
  conclude-Alike attempt (protocol message) rest rest' h = (refl, nothing)
  conclude-Alike attempt (crash e) rest rest' h = (refl, nothing)
  conclude-Alike attempt (failure e) rest rest' h =
      elim (Bool-cases (is_last py client command env attempt || not e.retryable)) [
        | inl l ↦ rw l (refl, nothing)
        | inr n ↦ rw n (pause-Alike attempt rest rest' h)
      ]
  conclude-Alike attempt uncertain rest rest' h =
      elim (Bool-cases (is_last py client command env attempt)) [
        | inl l ↦ rw l (refl, nothing)
        | inr n ↦ rw n (pause-Alike attempt rest rest' h)
      ]

  attempts-Alike :
      (left attempt : ℕ)
      → Alike
          (attempts py client command env left attempt)
          (attempts py other command env left attempt)
  unfolding attempts
  attempts-Alike zero attempt = (refl, nothing)
  attempts-Alike (suc left) attempt =
      let (same, effects) =
        conclude-Alike attempt (read_reply py (key_of py client command env) (env.reply attempt)) _
          _ (attempts-Alike left (attempt + 1)) in
      (same, request_pair (request_at-SameButToken attempt) effects)

  -- For the same replies, clock and generated identifiers, two runs whose clients differ in the
  -- bearer token alone have the same outcome and the same effects in the same order, but for the
  -- Authorization header of their requests.
  pub request-Alike : Alike (request py client command env) (request py other command env)
  unfolding request
  request-Alike = attempts-Alike client.max_attempts 1
