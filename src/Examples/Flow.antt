-- ===== src/Examples/Flow.antt =====
-- Scripts of calls: what a script comes to, with the effects of its calls in order.
pub mod Sends
use mathlib.Core.List.{[]}
use mizan_client_sdks.Base.{
  String, Bool, true, false, Option, none, some, List, ◌++◌, if◌then◌else◌,
}
use mizan_client_sdks.Python.Value.{Value, obj, Fields, Exception, Result, ok, err, get}
use mizan_client_sdks.Python.Runtime.{Python}
use mizan_client_sdks.Client.Retry.{
  MizanClient, Command, Environment, Effect, Outcome, returned, perform,
}

-- Why a script stops: the error of a call, `SystemExit` or `RuntimeError` with a message, another
-- exception of the SDK, or a subscript or method that a decoded value does not have.
pub data Stopped : Type 0 where
  failed : Outcome → Stopped
  system_exit runtime_error : String → Stopped
  raised : Exception → Stopped
  lookup_error : Stopped

pub data Step {ℓ} (A : Type ℓ) : Type ℓ where
  done : A → Step A
  stopped : Stopped → Step A

abbrev pub Flow : Type 0 → Type 0
Flow A = Step A × List Effect

infixl 5 ◌>>=◌ ◌>>◌
unfoldable pub ◌>>=◌ : {A B : Type 0} → Flow A → (A → Flow B) → Flow B
(done a, es) >>= f = let (step, more) = f a in (step, es ++ more)
(stopped s, es) >>= f = (stopped s, es)

abbrev pub ◌>>◌ : {A B : Type 0} → Flow A → Flow B → Flow B
m >> k = m >>= λ _. k

abbrev pub finish : {A : Type 0} → A → Flow A
finish a = (done a, [])

abbrev pub stop : {A : Type 0} → Stopped → Flow A
stop s = (stopped s, [])

-- if not b: raise
unfoldable pub ensure : Bool → Stopped → Flow (Unit {0})
ensure b s = if b then finish tt else stop s

abbrev pub step_of : Outcome → Step Fields
step_of (returned payload) = done payload
step_of o = stopped (failed o)

-- a call of a method
unfoldable pub run : Python → MizanClient → Environment → Result Command → Flow Fields
run py client env command =
    let (outcome, effects) = perform py client env command in (step_of outcome, effects)

-- what a function of the SDK returns or raises
abbrev pub lift : {A : Type 0} → Result A → Flow A
lift (ok a) = finish a
lift (err e) = stop (raised e)

-- v[key] of a dict
unfoldable pub at_key : String → Value → Flow Value
at_key key (obj fs) = elim (get key fs) [ some v ↦ finish v | none ↦ stop lookup_error ]
at_key key _ = stop lookup_error

-- the dict whose `get` is called
unfoldable pub as_dict : Value → Flow Fields
as_dict (obj fs) = finish fs
as_dict _ = stop lookup_error
