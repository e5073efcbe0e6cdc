-- ===== src/Client/Retry/Effects.antt =====
-- How many requests a run sends, how long it sleeps, and what ends it.
use mathlib.Core.List.{[], ◌∷◌}
use mizan_client_sdks.Base.{ℕ, ◌+◌, ◌*◌, ◌≤◌, ◌<◌, ◌≡◌, refl, ap, ◌∙◌, false, List, arith}
use mizan_client_sdks.Base.Lists.{length}
use mizan_client_sdks.Python.Value.{Fields}
use mizan_client_sdks.Python.Runtime.{Python}
use mizan_client_sdks.Webhooks.Receiver.{Headers}
use mizan_client_sdks.Client.Http.{Request, replied, Answer, success}
use mizan_client_sdks.Client.Http.Replies.{read_reply-success, Carried, read_reply-Carried}
use mizan_client_sdks.Client.Retry.{
  MizanClient, Command, Environment, Effect, sent, logged_complete, logged_retry, slept, Outcome,
  returned, key_of, request,
}
use mizan_client_sdks.Client.Retry.Story.{
  Story, final, again, Ends, succeeded, refused, garbled, crashed, unknown, answer_at,
  request-Story,
}

-- the requests sent, and the sleeps, of a run
unfoldable pub requests_of : List Effect → List Request
requests_of [] = []
requests_of (sent q ∷ es) = q ∷ requests_of es
requests_of (logged_complete status attempt id ∷ es) = requests_of es
requests_of (logged_retry attempt id key ∷ es) = requests_of es
requests_of (slept n ∷ es) = requests_of es

unfoldable pub slept_in : List Effect → ℕ
slept_in [] = 0
slept_in (sent q ∷ es) = slept_in es
slept_in (logged_complete status attempt id ∷ es) = slept_in es
slept_in (logged_retry attempt id key ∷ es) = slept_in es
slept_in (slept n ∷ es) = n + slept_in es

module _ (py : Python) (client : MizanClient) (command : Command) (env : Environment) where
  pub Ends-quiet :
      {attempt : ℕ} {a : Answer} {o : Outcome} {es : List Effect}
      → Ends py client command env attempt a o es
      → (requests_of es ≡ []) × (slept_in es ≡ 0)
  unfolding requests_of slept_in
  Ends-quiet (succeeded status payload) = (refl, refl)
  Ends-quiet (refused e h) = (refl, refl)
  Ends-quiet (garbled message) = (refl, refl)
  Ends-quiet (crashed e) = (refl, refl)
  Ends-quiet (unknown h) = (refl, refl)

  Story-count :
      {o : Outcome} {attempt : ℕ} {es : List Effect}
      → Story py client command env o attempt es
      → (1 ≤ length (requests_of es))
        × (attempt + length (requests_of es) ≤ client.max_attempts + 1)
        × (command.mutation ≡ false → length (requests_of es) ≡ 1)
        × (slept_in es + 20 ≤ 20 * length (requests_of es))
  unfolding requests_of slept_in
  Story-count (final attempt es fits ends) =
      let (none_sent, none_slept) = Ends-quiet ends in
      rw (none_sent, none_slept) (omega arith, omega arith, λ h. refl, omega arith)
  Story-count (again attempt es mutation more c rest) =
      let (least, most, one, slow) = Story-count rest in
      (omega arith, omega arith, λ h. cc, omega arith)

  -- With 1 to 1025 attempts, a command that is no mutation sends exactly one request.
  request-single :
      1 ≤ client.max_attempts
      → client.max_attempts ≤ 1025
      → command.mutation ≡ false
      → length (requests_of (request py client command env).1) ≡ 1
  request-single least most m =
      let (a, b, c, d) = Story-count (request-Story py client command env least most) in c m

  -- With 1 to 1025 attempts, a run sends at least one request and at most `max_attempts`, and
  -- sleeps at most 2 seconds for each request but one.
  pub request-count :
      1 ≤ client.max_attempts
      → client.max_attempts ≤ 1025
      → (1 ≤ length (requests_of (request py client command env).1))
        × (length (requests_of (request py client command env).1) ≤ client.max_attempts)
        × (slept_in (request py client command env).1 + 20
            ≤ 20 * length (requests_of (request py client command env).1))
  request-count least most =
      let (a, b, c, d) = Story-count (request-Story py client command env least most) in
      (a, omega arith, d)

  -- the last attempt of a run, and what its answer was
  Story-end :
      {o : Outcome} {attempt : ℕ} {es : List Effect}
      → Story py client command env o attempt es
      → (k : ℕ) × (rest : List Effect) × (attempt + length (requests_of es) ≡ k + 1)
        × Ends py client command env k (answer_at py client command env k) o rest
  unfolding requests_of
  Story-end (final attempt es fits ends) =
      (attempt, es, rw ((Ends-quiet ends).0) (omega arith), ends)
  Story-end (again attempt es mutation more c story) =
      let (k, rest, e, ends) = Story-end story in (k, rest, omega arith, ends)

  Ends-returned :
      {k : ℕ} {a : Answer} {o : Outcome} {es : List Effect} {payload : Fields}
      → Ends py client command env k a o es
      → o ≡ returned payload
      → (status : ℕ) × (a ≡ success status payload)
  Ends-returned (succeeded status payload) e = (status, cc)
  Ends-returned (refused x h) e = cc
  Ends-returned (garbled message) e = cc
  Ends-returned (crashed x) e = cc
  Ends-returned (unknown h) e = cc

  -- With 1 to 1025 attempts, if a run returns a payload, the reply to its last request had a status
  -- from 200 to 299 and a body of at most 2 MiB, and the payload is the object that this body is
  -- the JSON text of, or the empty object for an empty body.
  pub request-returned :
      {payload : Fields}
      → 1 ≤ client.max_attempts
      → client.max_attempts ≤ 1025
      → (request py client command env).0 ≡ returned payload
      → (status : ℕ) × (headers : Headers) × (raw : List ℕ) × (env.reply
            (length (requests_of (request py client command env).1))
          ≡ replied status headers raw)
        × (200 ≤ status)
        × (status < 300)
        × (length raw ≤ 2_097_152)
        × Carried py (key_of py client command env) payload raw
  request-returned least most e =
      let (k, rest, count, ends) = Story-end (request-Story py client command env least most) in
      let (status, read) = Ends-returned ends e in
      let (headers, raw, reply, low, high) =
        read_reply-success py (key_of py client command env) (env.reply k) read in
      let same : length (requests_of (request py client command env).1) ≡ k = omega arith in
      let (small, carried) =
        read_reply-Carried py (key_of py client command env) status headers raw
          (rw reply at read) in
      (status, headers, raw, ap env.reply same ∙ reply, low, high, small, carried)
