-- ===== src/Client/Retry/Story.antt =====
-- What a run of `_request` is: the attempts in order, and the answer that ends them.
use mathlib.Core.List.{[], ◌∷◌}
use mizan_client_sdks.Base.{
  ℕ, zero, suc, ◌+◌, ◌-◌, ◌^◌, ◌≤◌, ◌<◌, String, ◌≡◌, refl, ◌⊎◌, inl, inr, true, false, some, List,
  arith, leb, Bool-cases,
}
use Prim.Native.Nat.{min}
use mizan_client_sdks.Python.Value.{Fields, Exception}
use mizan_client_sdks.Python.Text.{append}
use mizan_client_sdks.Python.Runtime.{Python}
use mizan_client_sdks.Python.Numbers.Print.{show}
use mizan_client_sdks.Client.Http.{
  MizanApiError, Answer, success, failure, protocol, uncertain, crash, read_reply,
}
use mizan_client_sdks.Client.Retry.{
  MizanClient, Command, Environment, Effect, sent, logged_complete, logged_retry, slept, Outcome,
  returned, api_error, transport_error, protocol_error, escaped, backoff, key_of, request_at,
  is_last, pause, conclude, attempts, request,
}

module _ (py : Python) (client : MizanClient) (command : Command) (env : Environment) where
  -- what the reply to an attempt means
  abbrev pub answer_at : ℕ → Answer
  answer_at attempt = read_reply py (key_of py client command env) (env.reply attempt)

  -- The answer of the attempt ends the run, with an outcome and what follows the request.
  pub data Ends (attempt : ℕ) : Answer → Outcome → List Effect → Type 0 where
    succeeded :
        (status : ℕ) (payload : Fields)
        → Ends attempt
            (success status payload)
            (returned payload)
            (logged_complete status attempt env.correlation_id ∷ [])
    refused :
        (e : MizanApiError)
        → (is_last py client command env attempt ≡ true) ⊎ (e.retryable ≡ false)
        → Ends attempt (failure e) (api_error e) []
    garbled :
        (message : String)
        → Ends attempt
            (protocol message)
            (protocol_error message env.correlation_id (key_of py client command env))
            []
    crashed : (e : Exception) → Ends attempt (crash e) (escaped e) []
    unknown :
        is_last py client command env attempt ≡ true
        → Ends attempt uncertain
            (transport_error
              (append "Request outcome is unknown after " (append (show attempt) " attempt(s)"))
              env.correlation_id
              (key_of py client command env))
            []

  -- The answer allows another attempt: the outcome is unknown, or the API says so.
  pub data CanRetry : Answer → Type 0 where
    lost : CanRetry uncertain
    told : (e : MizanApiError) → e.retryable ≡ true → CanRetry (failure e)

  -- The attempts from `attempt` on. Each is one request; every one but the last is that of a mutation
  -- whose answer allows another, and is followed by a pause of at most 2 seconds and at most
  -- 2 ^ (attempt - 1) tenths of a second.
  pub data Story (o : Outcome) : ℕ → List Effect → Type 0 where
    final :
        (attempt : ℕ) (es : List Effect)
        → attempt ≤ client.max_attempts
        → Ends attempt (answer_at attempt) o es
        → Story o attempt (sent (request_at py client command env attempt) ∷ es)
    again :
        (attempt : ℕ) (es : List Effect)
        → command.mutation ≡ true
        → attempt < client.max_attempts
        → CanRetry (answer_at attempt)
        → Story o (attempt + 1) es
        → Story o attempt (
            sent (request_at py client command env attempt)
            ∷ (logged_retry attempt env.correlation_id (key_of py client command env)
                ∷ (slept (min 20 (2 ^ (attempt - 1))) ∷ es)))

  abbrev Tells : ℕ → Outcome × List Effect → Type 0
  Tells attempt (o, es) = Story o attempt es

  last-or-more :
      (attempt : ℕ)
      → attempt ≤ client.max_attempts
      → is_last py client command env attempt ≡ false
      → (command.mutation ≡ true) × (attempt < client.max_attempts)
  last-or-more attempt h e = ground arith

  backoff-some :
      (attempt : ℕ) → attempt ≤ 1024 → backoff attempt ≡ some (min 20 (2 ^ (attempt - 1)))
  unfolding backoff
  backoff-some attempt h = let small : leb 1024 (attempt - 1) ≡ false = ground arith in rw small

  step : ℕ → Outcome × List Effect → Outcome × List Effect
  step attempt (o, es) = (o, sent (request_at py client command env attempt) ∷ es)

  module _ (attempt : ℕ) (most : client.max_attempts ≤ 1025) (fits : attempt ≤ client.max_attempts)
      (rest : Outcome × List Effect)
      (later : attempt < client.max_attempts → Tells (attempt + 1) rest) where
    pause-Tells :
        CanRetry (answer_at attempt)
        → is_last py client command env attempt ≡ false
        → Tells attempt (step attempt (pause py client command env attempt rest))
    unfolding pause step
    pause-Tells c n =
        let (mutation, more) = last-or-more attempt fits n in
        rw (backoff-some attempt (omega arith), pause)
          (again attempt rest.1 mutation more c (later more))

    conclude-Tells :
        (a : Answer)
        → answer_at attempt ≡ a
        → Tells attempt (step attempt (conclude py client command env attempt a rest))
    unfolding conclude step
    conclude-Tells (success status payload) e =
        final attempt _ fits (rw e (succeeded status payload))
    conclude-Tells (protocol message) e = final attempt _ fits (rw e (garbled message))
    conclude-Tells (crash x) e = final attempt _ fits (rw e (crashed x))
    conclude-Tells (failure x) e = elim (Bool-cases (is_last py client command env attempt)) [
      | inl l ↦ rw (l, conclude) (final attempt _ fits (rw e (refused x (inl l))))
      | inr n ↦ elim (Bool-cases x.retryable) [
        | inl more ↦ simp (n, more) (pause-Tells (rw e (told x more)) n)
        | inr over ↦ simp (n, over) (final attempt _ fits (rw e (refused x (inr over))))
      ]
    ]
    conclude-Tells uncertain e = elim (Bool-cases (is_last py client command env attempt)) [
      | inl l ↦ rw (l, conclude) (final attempt _ fits (rw e (unknown l)))
      | inr n ↦ rw (n, conclude) (pause-Tells (rw e lost) n)
    ]

  attempts-Tells :
      client.max_attempts ≤ 1025
      → (left attempt : ℕ) → 0 < left
      → attempt + left ≡ client.max_attempts + 1
      → Tells attempt (attempts py client command env left attempt)
  unfolding attempts step
  attempts-Tells most zero attempt p e = absurd (omega arith)
  attempts-Tells most (suc left) attempt p e =
      conclude-Tells attempt most (omega arith) (attempts py client command env left (attempt + 1))
        (λ more. attempts-Tells most left (attempt + 1) (omega arith) (omega arith))
        (answer_at attempt) refl

  -- With 1 to 1025 attempts, a run is a story: attempts in order, each but the last a mutation's
  -- whose answer allows another and followed by a bounded pause, and the last one's answer ends the
  -- run with the outcome it stands for.
  pub request-Story :
      1 ≤ client.max_attempts
      → client.max_attempts ≤ 1025
      → Story (request py client command env).0 1 (request py client command env).1
  unfolding request
  request-Story least most = attempts-Tells most client.max_attempts 1 least (omega arith)
