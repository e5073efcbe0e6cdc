-- ===== src/Webhooks/Receiver/Redaction.antt =====
-- What the callbacks see of the headers.
use mathlib.Core.List.{[], ◌∷◌}
use mizan_client_sdks.Base.{String, ◌≡◌, refl, none, some, arith, ◌==◌, eq_iff, if◌then◌else◌}
use mizan_client_sdks.Webhooks.Receiver.{Headers, lookup, insert, without_authorization}

-- The callbacks' headers are those received, without the credential.
lookup-without_authorization :
    (name : String) (hs : Headers)
    → lookup name (without_authorization hs)
      ≡ (if name == "authorization" then none else lookup name hs)
unfolding lookup without_authorization
lookup-without_authorization name [] = ground arith
lookup-without_authorization name ((k, v) ∷ hs) = ground (
  arith,
  lookup-without_authorization name hs,
  eq_iff k "authorization",
  eq_iff name "authorization",
  eq_iff k name,
)

pub lookup-insert :
    (name k v : String) (hs : Headers)
    → lookup name (insert k v hs) ≡ (if k == name then some v else lookup name hs)
unfolding lookup insert
lookup-insert name k v [] = refl
lookup-insert name k v ((j, w) ∷ hs) =
    ground (arith, lookup-insert name k v hs, eq_iff j k, eq_iff j name, eq_iff k name)
