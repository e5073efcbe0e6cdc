-- ===== src/Examples/Funding.antt =====
-- `maybe_fund_provider` and `required_env` of examples/end_to_end.py. The environment variables are
-- arguments.
pub mod Requests
use mathlib.Core.List.{[]}
use mizan_client_sdks.Base.{String, Bool, ◌||◌, Option, none, some, List, if◌then◌else◌}
use mizan_client_sdks.Python.Value.{str, Fields, Exception, Result, ok, err}
use mizan_client_sdks.Python.Text.{is_empty, append}
use mizan_client_sdks.Python.Runtime.{Python}
use mizan_client_sdks.Builders.Funding.{confirmed_top_up}
use mizan_client_sdks.Client.Retry.{MizanClient, Environment, Effect, Outcome, perform}
use mizan_client_sdks.Client.Commands.{top_up_provider_balance}

-- `required_env`: a text, or an exit with a message
pub data Required : Type 0 where
  present : String → Required
  system_exit : String → Required

unfoldable pub required_env : String → Option String → Required
required_env name none = system_exit (append name " is required")
required_env name (some v) =
    if is_empty v then system_exit (append name " is required") else present v

-- How the funding ends: skipped, with the exception on a half of the configuration, with what the
-- builder raised, or with the outcome of the call.
pub data Funded : Type 0 where
  skipped misconfigured : Funded
  refused : Exception → Funded
  called : Outcome → Funded

-- not value, for `os.getenv`
abbrev pub is_unset : Option String → Bool
is_unset none = Bool.true
is_unset (some v) = is_empty v

abbrev pub text_of : Option String → String
text_of none = ""
text_of (some v) = v

-- f"provider-topup:{business_id}:{run_id}"
abbrev pub funding_key : String → String → String
funding_key business_id run_id = append "provider-topup:" (append business_id (append ":" run_id))

module _ (py : Python) (client : MizanClient) (env : Environment)
    (business_id run_id : String) where
  abbrev pub top_up : String → String → Result Fields
  top_up amount paid_total =
      confirmed_top_up py (str amount) (str (append "example-provider-topup:" run_id))
        (str paid_total)

  unfoldable pub fund_built : Result Fields → Funded × List Effect
  fund_built (err e) = (refused e, [])
  fund_built (ok request) =
      let (outcome, effects) = perform py client env (
        top_up_provider_balance py client business_id request
          (some (funding_key business_id run_id))) in
      (called outcome, effects)

  unfoldable pub maybe_fund_provider : Option String → Option String → Funded × List Effect
  maybe_fund_provider none none = (skipped, [])
  maybe_fund_provider amount paid_total =
      if is_unset amount || is_unset paid_total
      then (misconfigured, [])
      else fund_built (top_up (text_of amount) (text_of paid_total))
