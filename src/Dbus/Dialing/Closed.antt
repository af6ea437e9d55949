-- ===== src/Dbus/Dialing/Closed.antt =====
-- The connection of `connectSessionBus` of internal/backend/dbus/probe.go, on every path.
use common_keyring.Base.{ℕ, ◌+◌, [], nat_eq, ◌≡◌, arith}
use common_keyring.Errors.{
  permission_denied, backend_failure, cat, wrap2, Result, ok, err, Action, Fallible,
}
use common_keyring.Filesystem.Steps.{continue, ◌>>=◌, ◌>>◌}
use common_keyring.Filesystem.Storage.Traces.{opened, closed, Traced, quiet, noted, noted_ok}
use common_keyring.Filesystem.Storage.Balance.{
  opens, closes, one_if, gain, nothing, nothing-gain, Gains, Gains-use, Gains-relabel, relabel-held,
}
use common_keyring.Filesystem.Storage.Descriptors.{Gains-quiet, Gains-opened, Frees-closed}
use common_keyring.Dbus.Dialing.{
  Dialer, close_failed, kept_or_closed, stage, set_up, connect_session_bus,
}

-- A dialer that notes the connections that it dials and closes.
abbrev pub observed : {W : Type 0} → Dialer W → Dialer (Traced W)
observed d = record {
  dial = noted_ok d.dial opened;
  auth = λ c. quiet (d.auth c);
  hello = λ c. quiet (d.hello c);
  close = λ c. noted (d.close c) (closed c);
}

-- A connection that a stage of the setup has closed.
abbrev lost : {A : Type 0} → ℕ → Result A → ℕ → ℕ
lost c (ok a) n = 0
lost c (err e) n = one_if c n

module _ {W : Type 0} (d : Dialer W) where
  abbrev o : Dialer (Traced W)
  o = observed d

  kept_or_closed-at :
      (c : ℕ) (r : Fallible) (s : Traced W) (n : ℕ)
      → opens n (kept_or_closed o c r s).1.1 + closes n s.1 + lost c (kept_or_closed o c r s).0 n
        ≡ closes n (kept_or_closed o c r s).1.1 + opens n s.1
  unfolding kept_or_closed close_failed
  kept_or_closed-at c (ok _) s n = omega arith
  kept_or_closed-at c (err e) s n = omega (arith, (Frees-closed (d.close c) c).at s n)

  stage-at :
      (c : ℕ) (m : Action (Traced W) (Unit {0})) (s : Traced W) (n : ℕ)
      → Gains nothing m
      → opens n (stage o c m s).1.1 + closes n s.1 + lost c (stage o c m s).0 n
        ≡ closes n (stage o c m s).1.1 + opens n s.1
  unfolding stage
  stage-at c m s n x =
      let r = m s in omega (arith, x.at s n, nothing-gain r.0 n, kept_or_closed-at c r.0 r.1 n)

  -- What a step does to the connection that it is given.
  abbrev Disposes : {A : Type 0} → ℕ → (A → ℕ → ℕ) → Action (Traced W) A → Type 0
  Disposes c g m =
      (s : Traced W) (n : ℕ)
      → opens n (m s).1.1 + closes n s.1 + one_if c n
        ≡ closes n (m s).1.1 + opens n s.1 + gain g (m s).0 n

  continue-at :
      {A : Type 0} (c : ℕ) (g : A → ℕ → ℕ) (r : Fallible) (next : Action (Traced W) A)
      (s s1 : Traced W) (n : ℕ)
      → Disposes c g next
      → opens n s1.1 + closes n s.1 + lost c r n ≡ closes n s1.1 + opens n s.1
      → opens n (continue r (λ _. next) s1).1.1 + closes n s.1 + one_if c n
        ≡ closes n (continue r (λ _. next) s1).1.1
          + opens n s.1
          + gain g (continue r (λ _. next) s1).0 n
  continue-at c g (ok _) next s s1 n x p = omega (arith, x s1 n, p)
  continue-at c g (err e) next s s1 n x p = omega (arith, p)

  stage-Disposes :
      {A : Type 0} (c : ℕ) (g : A → ℕ → ℕ) (m : Action (Traced W) (Unit {0}))
      (next : Action (Traced W) A)
      → Gains nothing m
      → Disposes c g next
      → Disposes c g (stage o c m >> next)
  unfolding ◌>>=◌
  stage-Disposes c g m next x y s n =
      let r = stage o c m s in continue-at c g r.0 next s r.1 n y (stage-at c m s n x)

  set_up-Disposes : (c : ℕ) → Disposes c one_if (set_up o c)
  unfolding set_up
  set_up-Disposes c =
      stage-Disposes c one_if _ _
        (Gains-relabel (wrap2 "authenticate session bus" (cat permission_denied)) _
          (Gains-quiet (d.auth c)))
        (stage-Disposes c one_if _ _
          (Gains-relabel (wrap2 "initialize session bus" (cat backend_failure)) _
            (Gains-quiet (d.hello c)))
          (λ s n. omega arith))

  connect-Gains : Gains one_if (connect_session_bus o)
  unfolding connect_session_bus
  connect-Gains = Gains-use one_if _ _ (relabel-held _ _ (Gains-opened d.dial)) set_up-Disposes

  -- Of the connections that `connectSessionBus` dials, just the one that it returns is not closed,
  -- and it closes no other.
  pub connect_session_bus-opens_closes :
      (w : W) (n : ℕ)
      → opens n (connect_session_bus (observed d) (w, [])).1.1
        ≡ closes n (connect_session_bus (observed d) (w, [])).1.1
          + gain one_if (connect_session_bus (observed d) (w, [])).0 n
  unfolding opens closes
  connect_session_bus-opens_closes w n = omega (arith, connect-Gains.at (w, []) n)
