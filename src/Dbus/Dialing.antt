-- ===== src/Dbus/Dialing.antt =====
-- `connectSessionBus` of internal/backend/dbus/probe.go: a private connection, which is closed if
-- its setup fails.
pub mod Closed
use common_keyring.Base.{ℕ, nat_eq}
use common_keyring.Errors.{
  GoError, backend_failure, backend_unavailable, permission_denied, cat, wrap, wrap2, cons, nil, ok,
  err, Action, Fallible,
}
use common_keyring.Filesystem.Steps.{return, ◌>>=◌, ◌>>◌, relabel}

-- The package variables of the stages of a connection, which is a number.
pub record Dialer (W : Type 0) : Type 0 where
  pub dial : Action W ℕ
  pub auth : ℕ → Action W (Unit {0})
  pub hello : ℕ → Action W (Unit {0})
  pub close : ℕ → Action W (Unit {0})

-- The error of a stage, joined with that of closing.
abbrev pub with_close : GoError → Fallible → GoError
with_close e (ok _) = e
with_close e (err d) =
    wrap "" (cons e (cons (wrap2 "close session bus" (cat backend_failure) d) nil))

module _ {W : Type 0} (d : Dialer W) where
  -- `closeFailedSessionBus`
  unfoldable pub close_failed : ℕ → GoError → W → GoError × W
  close_failed c e w = let (status, w') = d.close c w in (with_close e status, w')

  unfoldable pub kept_or_closed : ℕ → Fallible → W → Fallible × W
  unfolding close_failed
  kept_or_closed c (ok _) w = (ok tt, w)
  kept_or_closed c (err e) w = let (e', w') = close_failed c e w in (err e', w')

  -- A stage of the setup
  unfoldable pub stage : ℕ → Action W (Unit {0}) → Action W (Unit {0})
  unfolding kept_or_closed
  stage c m w = let (r, w') = m w in kept_or_closed c r w'

  unfoldable pub set_up : ℕ → Action W ℕ
  unfolding stage
  set_up c =
      stage c (relabel (wrap2 "authenticate session bus" (cat permission_denied)) (d.auth c))
      >> (stage c (relabel (wrap2 "initialize session bus" (cat backend_failure)) (d.hello c))
          >> return c)

  -- `connectSessionBus`
  unfoldable pub connect_session_bus : Action W ℕ
  unfolding set_up
  connect_session_bus =
      relabel (wrap2 "dial session bus" (cat backend_unavailable)) d.dial >>= set_up
