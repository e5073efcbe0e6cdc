-- ===== src/Examples/Flow/Sends.antt =====
-- A property of each request that a script sends.
use mathlib.Core.List.{[], ◌∷◌}
use mizan_client_sdks.Base.{
  true, false, String, ◌≡◌, refl, Bool, List, ◌++◌, inl, inr, Option-cases,
}
use mizan_client_sdks.Python.Value.{Value, obj, Fields, Result, ok, err, get}
use mizan_client_sdks.Python.Runtime.{Python}
use mizan_client_sdks.Client.Http.{Request}
use mizan_client_sdks.Client.Retry.{
  MizanClient, Command, Environment, Effect, sent, logged_complete, logged_retry, slept, perform,
}
use mizan_client_sdks.Client.Retry.Effects.{requests_of}
use mizan_client_sdks.Client.Retry.Identity.{Every}
use mizan_client_sdks.Examples.Flow.{
  Stopped, ensure, Flow, Step, done, stopped, ◌>>=◌, lift, run, at_key, as_dict,
}

module _ (P : Request → Type 0) where
  -- every request of the script has the property
  pub record Sends {A : Type 0} (m : Flow A) : Type 0 where
    pub every : Every P (requests_of m.1)

  pub Every-append :
      (es es' : List Effect)
      → Every P (requests_of es)
      → Every P (requests_of es')
      → Every P (requests_of (es ++ es'))
  unfolding requests_of
  Every-append [] es' h k = k
  Every-append (sent q ∷ es) es' (h, hs) k = (h, Every-append es es' hs k)
  Every-append (logged_complete status attempt id ∷ es) es' h k = Every-append es es' h k
  Every-append (logged_retry attempt id key ∷ es) es' h k = Every-append es es' h k
  Every-append (slept n ∷ es) es' h k = Every-append es es' h k

  pub Sends-bind :
      {A B : Type 0} (m : Flow A) (f : A → Flow B)
      → Sends m
      → ((a : A) → m.0 ≡ done a → Sends (f a))
      → Sends (m >>= f)
  unfolding ◌>>=◌
  Sends-bind (done a, es) f h k = record {
    every = Every-append es (f a).1 h.every (k a refl).every;
  }
  Sends-bind (stopped s, es) f h k = record { every = h.every }

  pub Sends-then :
      {A B : Type 0} (m : Flow A) (f : A → Flow B)
      → Sends m
      → ((a : A) → Sends (f a))
      → Sends (m >>= f)
  Sends-then m f h k = Sends-bind m f h (λ a e. k a)

  -- a step that sends nothing
  pub Sends-quiet : {A : Type 0} (s : Step A) → Sends (s, [])
  unfolding requests_of
  Sends-quiet s = record { every = tt }

  pub Sends-ensure : (b : Bool) (s : Stopped) → Sends (ensure b s)
  unfolding ensure
  Sends-ensure true s = Sends-quiet _
  Sends-ensure false s = Sends-quiet _

  pub Sends-lift : {A : Type 0} (r : Result A) → Sends (lift r)
  Sends-lift (ok a) = Sends-quiet _
  Sends-lift (err e) = Sends-quiet _

  Sends-at_key : (key : String) (v : Value) → Sends (at_key key v)
  unfolding at_key
  Sends-at_key key (obj fs) = elim (Option-cases (get key fs)) [
    | inl e ↦ rw (e, at_key) (Sends-quiet _)
    | inr (v, e) ↦ rw (e, at_key) (Sends-quiet _)
  ]
  Sends-at_key key _ = Sends-quiet _

  pub Sends-as_dict : (v : Value) → Sends (as_dict v)
  unfolding as_dict
  Sends-as_dict (obj fs) = Sends-quiet _
  Sends-as_dict _ = Sends-quiet _

  pub Sends-run :
      (py : Python) (client : MizanClient) (env : Environment) (command : Result Command)
      → Every P (requests_of (perform py client env command).1)
      → Sends (run py client env command)
  unfolding run
  Sends-run py client env command h = record { every = h }

  -- a subscript in front of what follows it
  pub Sends-behind :
      {A : Type 0} (key : String) (v : Value) (f : Value → Flow A)
      → ((a : Value) → Sends (f a))
      → Sends (at_key key v >>= f)
  Sends-behind key v f = Sends-then (at_key key v) f (Sends-at_key key v)

  pub Sends-dict_behind :
      {A : Type 0} (v : Value) (f : Fields → Flow A)
      → ((a : Fields) → Sends (f a))
      → Sends (as_dict v >>= f)
  Sends-dict_behind v f = Sends-then (as_dict v) f (Sends-as_dict v)
