-- ===== src/Client/Transport/Limit.antt =====
-- The limit of `_default_transport` of client.py on what it reads of a response.
use mathlib.Core.List.{[], ◌∷◌}
use mizan_client_sdks.Base.{
  ℕ, zero, suc, ◌+◌, ◌≤◌, String, ◌≡◌, ◌∙◌, refl, sym, ap, Option, List, arith, lt→ltb, leb, ltb,
  true, false, if◌then◌else◌,
}
use native.Mathlib.Decide.{dec_lt}
use mizan_client_sdks.Base.Lists.{length, take}
use mizan_client_sdks.Python.Runtime.{Python}
use mizan_client_sdks.Webhooks.Receiver.{Headers}
use mizan_client_sdks.Client.Http.{
  Reply, replied, os_error, raised, Answer, success, failure, protocol, uncertain, crash,
  read_reply,
}
use mizan_client_sdks.Client.Retry.{
  MizanClient, Command, Environment, Effect, Outcome, key_of, request_at, pause, conclude, attempts,
  request,
}
use mizan_client_sdks.Client.Transport.{
  Content, stream, Opened, opened, http_error, unreachable, failed, read_ended, read_content,
  default_transport,
}

le→leb : (a b : ℕ) → a ≤ b → leb a b ≡ true
le→leb a b h = ground arith

length-take : {A : Type 0} (n : ℕ) (xs : List A) → n ≤ length xs → length (take n xs) ≡ n
length-take zero xs h = refl
length-take (suc n) [] h = absurd (omega arith)
length-take (suc n) (x ∷ xs) h = ap suc (length-take n xs (omega arith))

-- what a transport that never stops short of what came would return: all of the bytes, if they are
-- over the limit, whatever becomes of the response behind them
abbrev read_whole : ℕ → Headers → Content → Reply
read_whole status headers (stream raw ending) =
    if ltb 2_097_152 (length raw)
    then replied status headers raw
    else read_ended status headers raw ending

abbrev pub whole_transport : Opened → Reply
whole_transport (opened status headers content) = read_whole status headers content
whole_transport (http_error status headers content) = read_whole status headers content
whole_transport unreachable = os_error
whole_transport failed = raised

module _ (py : Python) (key : Option String) where
  over_limit :
      (status : ℕ) (headers : Headers) (raw : List ℕ)
      → ltb 2_097_152 (length raw) ≡ true
      → read_reply py key (replied status headers raw)
        ≡ protocol "Mizan response exceeded the 2 MiB safety limit"
  unfolding read_reply
  over_limit status headers raw e = rw e refl

  content_same :
      (status : ℕ) (headers : Headers) (content : Content)
      → read_reply py key (read_content status headers content)
        ≡ read_reply py key (read_whole status headers content)
  unfolding read_content
  content_same status headers (stream raw ending) = elim (dec_lt 2_097_152 (length raw)) [
    | yes l ↦
        let over = lt→ltb 2_097_152 (length raw) l in
        let still =
          lt→ltb 2_097_152 (length (take 2_097_153 raw))
            (rw (length-take 2_097_153 raw (omega arith)) (omega arith)) in
        rw (le→leb 2_097_153 (length raw) l, over)
          (over_limit status headers (take 2_097_153 raw) still
            ∙ sym (over_limit status headers raw over))
    | no n ↦
        let over : ltb 2_097_152 (length raw) ≡ false = ground arith in
        let under : leb 2_097_153 (length raw) ≡ false = ground arith in rw (under, over) refl
  ]

  transport_same :
      (o : Opened) → read_reply py key (default_transport o) ≡ read_reply py key (whole_transport o)
  unfolding default_transport
  transport_same (opened status headers content) = content_same status headers content
  transport_same (http_error status headers content) = content_same status headers content
  transport_same unreachable = refl
  transport_same failed = refl

module _ (py : Python) (client : MizanClient) (command : Command) (env : Environment)
    (urlopen : ℕ → Opened) where
  -- the run whose n-th request is opened so, over the default transport
  abbrev pub limited : Environment
  limited = record env { reply = λ attempt. default_transport (urlopen attempt) }

  abbrev pub unlimited : Environment
  unlimited = record env { reply = λ attempt. whole_transport (urlopen attempt) }

  conclude_same :
      (attempt : ℕ) (a : Answer) (rest : Outcome × List Effect)
      → conclude py client command limited attempt a rest
        ≡ conclude py client command unlimited attempt a rest
  unfolding conclude pause
  conclude_same attempt (success status payload) rest = refl
  conclude_same attempt (protocol message) rest = refl
  conclude_same attempt (crash e) rest = refl
  conclude_same attempt (failure e) rest = refl
  conclude_same attempt uncertain rest = refl

  attempts_same :
      (left attempt : ℕ)
      → attempts py client command limited left attempt
        ≡ attempts py client command unlimited left attempt
  unfolding attempts request_at
  attempts_same zero attempt = refl
  attempts_same (suc left) attempt =
      let key = key_of py client command env in
      rw
        (
          attempts_same left (attempt + 1),
          transport_same py key (urlopen attempt),
          conclude_same attempt (read_reply py key (whole_transport (urlopen attempt)))
              (attempts py client command unlimited left (attempt + 1)),
        )
        refl

  -- A run over the default transport, which reads at most 2 MiB and a byte of a response, has the
  -- outcome and the effects of a run over a transport that hands over all the bytes that came, if
  -- these are more than 2 MiB, and else reads the response to its end.
  pub request-limited : request py client command limited ≡ request py client command unlimited
  unfolding request
  request-limited = attempts_same client.max_attempts 1
