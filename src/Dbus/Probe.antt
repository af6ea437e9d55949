-- ===== src/Dbus/Probe.antt =====
-- `Probe` of internal/backend/dbus/probe.go.
use common_keyring.Base.{ℕ, Option, some}
use common_keyring.Errors.{backend_failure, cat, wrap2, ok, err, Action, Fallible}
use common_keyring.Filesystem.Steps.{◌>>=◌, finally_with}
use common_keyring.Dbus.{Bus, probe_timeout}
use common_keyring.Dbus.Faults.{calling}
use common_keyring.Dbus.Client.{with_context}

-- The result after the connection was closed: an earlier error stays.
abbrev pub first_error : Fallible → Fallible → Fallible
first_error (err e) status = err e
first_error (ok _) (ok _) = ok tt
first_error (ok _) (err e) = err (wrap2 "close session bus" (cat backend_failure) e)

module _ {W K : Type 0} (b : Bus W K) where
  -- `openProbeSession` and `closeProbeSession`, called by `probe`
  unfoldable pub probe_session : K → ℕ → Action W (Unit {0})
  probe_session k c = calling b k "open probe session" (b.open_session k c) >>= λ session.
      calling b k "close probe session" (b.close_session k c session)

  unfoldable pub close_probe : ℕ → Fallible → Action W (Unit {0})
  close_probe c r w = let (status, w') = b.close c w in (first_error r status, w')

  -- `probe` under its timeout
  unfoldable pub probe_with : K → Action W (Unit {0})
  unfolding probe_session close_probe
  probe_with k = calling b k "connect to session bus" (b.connect k) >>= λ c.
      finally_with (probe_session k c) (close_probe c)

  -- `probe`
  unfoldable pub probe : Option K → Action W (Unit {0})
  unfolding with_context probe_with
  probe ctx = with_context b ctx (λ k w. probe_with (b.with_timeout (some k) probe_timeout w) w)
