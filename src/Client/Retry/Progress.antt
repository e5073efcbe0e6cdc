-- ===== src/Client/Retry/Progress.antt =====
-- Runs of a mutation whose first answers allow another attempt (`_request` of client.py).
use mizan_client_sdks.Base.{ℕ, ◌+◌, ◌≤◌, ◌<◌, ◌≡◌, ◌∙◌, ap, inl, inr, true, List, arith}
use native.Mathlib.Decide.{dec_lt}
use mizan_client_sdks.Base.Lists.{length}
use mizan_client_sdks.Python.Value.{Fields}
use mizan_client_sdks.Python.Runtime.{Python}
use mizan_client_sdks.Client.Http.{Answer, success}
use mizan_client_sdks.Client.Retry.{
  MizanClient, Command, Environment, Effect, Outcome, returned, is_last, request,
}
use mizan_client_sdks.Client.Retry.Story.{
  answer_at, Ends, succeeded, refused, garbled, crashed, unknown, CanRetry, lost, told, Story,
  final, again, request-Story,
}
use mizan_client_sdks.Client.Retry.Effects.{requests_of, Ends-quiet}

module _ (py : Python) (client : MizanClient) (command : Command) (env : Environment) where
  not-last :
      (attempt : ℕ)
      → command.mutation ≡ true
      → attempt < client.max_attempts
      → is_last py client command env attempt ≡ true
      → ⊥
  not-last attempt m h l = ground arith

  -- an answer that allows another attempt does not end a mutation early
  Ends-last :
      {attempt : ℕ} {a : Answer} {o : Outcome} {es : List Effect}
      → command.mutation ≡ true
      → attempt < client.max_attempts
      → CanRetry py client command env a
      → Ends py client command env attempt a o es
      → ⊥
  Ends-last m h c (succeeded status payload) = elim c [ ]
  Ends-last m h c (garbled message) = elim c [ ]
  Ends-last m h c (crashed x) = elim c [ ]
  Ends-last {attempt} m h c (refused e (inl l)) = not-last attempt m h l
  Ends-last m h (told e more) (refused _ (inr over)) = cc
  Ends-last {attempt} m h c (unknown l) = not-last attempt m h l

  Ends-success :
      {attempt : ℕ} {a : Answer} {o : Outcome} {es : List Effect} {status : ℕ} {payload : Fields}
      → a ≡ success status payload
      → Ends py client command env attempt a o es
      → o ≡ returned payload
  Ends-success e (succeeded status payload) = cc
  Ends-success e (refused x h) = cc
  Ends-success e (garbled message) = cc
  Ends-success e (crashed x) = cc
  Ends-success e (unknown h) = cc

  success-CanRetry :
      {a : Answer} {status : ℕ} {payload : Fields}
      → a ≡ success status payload
      → CanRetry py client command env a
      → ⊥
  success-CanRetry e lost = cc
  success-CanRetry e (told x h) = cc

  module _ (k status : ℕ) (payload : Fields) (mutation : command.mutation ≡ true)
      (fits : k ≤ client.max_attempts)
      (before : (j : ℕ)
        → 1 ≤ j
        → j < k
        → CanRetry py client command env (answer_at py client command env j))
      (answered : answer_at py client command env k ≡ success status payload) where
    Story-reaches :
        {o : Outcome} {attempt : ℕ} {es : List Effect}
        → 1 ≤ attempt
        → attempt ≤ k
        → Story py client command env o attempt es
        → (o ≡ returned payload) × (attempt + length (requests_of es) ≡ k + 1)
    unfolding requests_of
    Story-reaches least most (final attempt es fits' ends) = elim (dec_lt attempt k) [
      | yes l ↦ absurd (Ends-last mutation (omega arith) (before attempt least l) ends)
      | no n ↦
          let same : attempt ≡ k = omega arith in
          (
            Ends-success (ap (answer_at py client command env) same ∙ answered) ends,
            rw ((Ends-quiet py client command env ends).0) (omega arith),
          )
    ]
    Story-reaches least most (again attempt es m more c story) = elim (dec_lt attempt k) [
      | yes l ↦ let (o, count) = Story-reaches (omega arith) (omega arith) story in (o, omega arith)
      | no n ↦
          let same : attempt ≡ k = omega arith in
          absurd (success-CanRetry (ap (answer_at py client command env) same ∙ answered) c)
    ]

    -- If the mutation's attempts before the k-th are each lost or refused as retryable, the k-th is
    -- answered with a payload, k is at least 1 and at most the number of attempts, and there are at
    -- most 1025, the run returns that payload and has sent exactly k requests.
    pub request-reaches :
        1 ≤ k
        → client.max_attempts ≤ 1025
        → ((request py client command env).0 ≡ returned payload)
          × (length (requests_of (request py client command env).1) ≡ k)
    request-reaches least most =
        let (o, count) =
          Story-reaches (omega arith) least
            (request-Story py client command env (omega arith) most) in
        (o, omega arith)
