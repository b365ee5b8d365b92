-- ===== src/Server/Rules.antt =====
-- Rules for the actions on the state behind server/core: what holds after an action, whether it
-- delivers a value or an error.
use event_ticketing_platform.Base.{ℕ}
use event_ticketing_platform.Types.{EtpError, Result, ok, err}
use event_ticketing_platform.Server.{Server, Action, then_do, abort_on_error, aborted}

module _ {P : Type 0} where
  -- `Done` of the value and the state, or `Failed` of the code and the state.
  abbrev pub Ensures :
      {A : Type 0}
      → Result A × Server P
      → (A → Server P → Type 0)
      → (EtpError → Server P → Type 0)
      → Type 0
  Ensures (ok a, s) Done Failed = Done a s
  Ensures (err e, s) Done Failed = Failed e s

  pub Ensures-then :
      {A B : Type 0} (r : Result A × Server P) (k : A → Action P B) (Mid : A → Server P → Type 0)
      (Done : B → Server P → Type 0) (Failed : EtpError → Server P → Type 0)
      → Ensures r Mid Failed
      → ((a : A) (s : Server P) → Mid a s → Ensures (k a s) Done Failed)
      → Ensures (then_do r k) Done Failed
  Ensures-then (ok a, s) k Mid Done Failed h f = f a s h
  Ensures-then (err e, s) k Mid Done Failed h f = h

  pub Ensures-abort :
      {A : Type 0} (txn_id : ℕ) (code : EtpError → EtpError) (r : Result A × Server P)
      (Done : A → Server P → Type 0) (Mid Failed : EtpError → Server P → Type 0)
      → Ensures r Done Mid
      → ((e : EtpError) (s : Server P) → Mid e s → Failed (code e) (aborted txn_id s))
      → Ensures (abort_on_error txn_id code r) Done Failed
  Ensures-abort txn_id code (ok a, s) Done Mid Failed h f = h
  Ensures-abort txn_id code (err e, s) Done Mid Failed h f = f e s h

  pub Ensures-mono :
      {A : Type 0} (r : Result A × Server P) (Done Done' : A → Server P → Type 0)
      (Failed Failed' : EtpError → Server P → Type 0)
      → Ensures r Done Failed
      → ((a : A) (s : Server P) → Done a s → Done' a s)
      → ((e : EtpError) (s : Server P) → Failed e s → Failed' e s)
      → Ensures r Done' Failed'
  Ensures-mono (ok a, s) Done Done' Failed Failed' h f g = f a s h
  Ensures-mono (err e, s) Done Done' Failed Failed' h f g = g e s h
