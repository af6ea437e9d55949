-- ===== src/Dbus/Released.antt =====
-- The resources of an operation of internal/backend/dbus, on every path of its code.
use common_keyring.Base.{
  ℕ, String, ◌<>◌, true, Option, some, [], string_eq, ◌≡◌, arith, Bool-cases, ◌⊎◌, inl, inr,
}
use common_keyring.Errors.{Result, Action}
use common_keyring.Contract.{Bytes}
use common_keyring.Filesystem.Steps.{error_of}
use common_keyring.Dbus.{Bus, probe_timeout, default_collection_path, item_label_prefix}
use common_keyring.Dbus.Client.{
  sent, get_value, get_in, get, create, set_in, set, remove_in, remove,
}
use common_keyring.Dbus.Probe.{probe_session, probe_with, probe}
use common_keyring.Dbus.Traces.{Resource, of_connection, of_session, Traced, traced}
use common_keyring.Dbus.Balance.{
  acquires, releases, excused, Keeps, Keeps-bind, Keeps-bracket, finally_with-Returns,
  Gives-Returns,
}
use common_keyring.Dbus.Keeping.{
  t, handle_prompt-Keeps, unlock-Keeps, find-Keeps, connected-Keeps, in_session-Keeps,
  with_context-Keeps, calling-Keeps, calling-Takes, calling-Gives, close_probe-Closes, return-Keeps,
}

-- In a trace, the resource was released as often as it was acquired; a session of an operation
-- that ended with an error of its context need not be closed.
abbrev pub IsReleased : {W A : Type 0} → Resource → Result A × Traced W → Type 0
IsReleased r (result, (w, es)) =
    (excused r (error_of result) ≡ true) ⊎ (acquires r es ≡ releases r es)

module _ {W K : Type 0} (b : Bus W K) where
  get_value-Keeps :
      (k : K) (c : ℕ) (item session : String) → Keeps (get_value (t b) k c item session)
  unfolding get_value
  get_value-Keeps k c item session =
      Keeps-bind _ _ (calling-Keeps b k "get credential" (b.get_secret k c item session))
        (λ secret. return-Keeps b secret.value)

  get-Keeps : (ctx : Option K) (service key : String) → Keeps (get (t b) ctx service key)
  unfolding get get_in
  get-Keeps ctx service key = with_context-Keeps b ctx _ (λ k. connected-Keeps b k _ (λ c.
      Keeps-bind _ _ (unlock-Keeps b k c _) (λ _.
        Keeps-bind _ _ (find-Keeps b k c service key) (λ item.
          Keeps-bind _ _ (unlock-Keeps b k c item)
            (λ _. in_session-Keeps b k c _ (get_value-Keeps k c item))))))

  set-Keeps :
      (ctx : Option K) (service key : String) (value : Bytes)
      → Keeps (set (t b) ctx service key value)
  unfolding set set_in create
  set-Keeps ctx service key value = with_context-Keeps b ctx _ (λ k. connected-Keeps b k _ (λ c.
      in_session-Keeps b k c _ (λ session. Keeps-bind _ _ (unlock-Keeps b k c _) (λ _.
        Keeps-bind _ _
          (calling-Keeps b k "set credential" (
            b.create_item k c default_collection_path (item_label_prefix <> ": " <> key) key service
              (sent session value)))
          (λ paths. handle_prompt-Keeps b k c paths.1)))))

  remove-Keeps : (ctx : Option K) (service key : String) → Keeps (remove (t b) ctx service key)
  unfolding remove remove_in
  remove-Keeps ctx service key = with_context-Keeps b ctx _ (λ k. connected-Keeps b k _ (λ c.
      Keeps-bind _ _ (unlock-Keeps b k c _) (λ _.
        Keeps-bind _ _ (find-Keeps b k c service key) (λ item.
          Keeps-bind _ _ (unlock-Keeps b k c item) (λ _.
            Keeps-bind _ _ (calling-Keeps b k "delete credential" (b.delete_item k c item))
              (handle_prompt-Keeps b k c))))))

  probe_with-Keeps : (k : K) → Keeps (probe_with (t b) k)
  unfolding probe_with probe_session
  probe_with-Keeps k =
      Keeps-bracket of_connection _ _
        (calling-Takes b of_connection k "connect to session bus" (b.connect k))
        (λ c.
          finally_with-Returns (of_connection c) _ _
            (Keeps-bracket of_session _ _
              (calling-Takes b of_session k "open probe session" (b.open_session k c))
              (λ session. Gives-Returns (of_session session) _ (
                calling-Gives b (of_session session) k "close probe session"
                  (b.close_session k c session))))
            (close_probe-Closes b c))

  probe-Keeps : (ctx : Option K) → Keeps (probe (t b) ctx)
  unfolding probe
  probe-Keeps ctx = with_context-Keeps b ctx _ (λ k. record {
    at = λ r s h. (probe_with-Keeps ((t b).with_timeout (some k) probe_timeout s)).at r s h;
  })

  Keeps-IsReleased :
      {A : Type 0} (m : Action (Traced W) A) (w : W) (r : Resource)
      → Keeps m
      → IsReleased r (m (w, []))
  unfolding acquires releases
  Keeps-IsReleased m w r x = elim (Bool-cases (excused r (error_of (m (w, [])).0))) [
    | inl e ↦ inl e
    | inr e ↦ inr (omega (arith, x.at r (w, []) e))
  ]

  -- Whatever the bus answers, a get, a set, a deletion and a probe release every connection, channel
  -- of signals, match rule and session as often as they acquire it; only a session may stay open,
  -- and only if the operation ends with an error of a context.
  pub operations-IsReleased :
      (ctx : Option K) (service key : String) (value : Bytes) (w : W) (r : Resource)
      → IsReleased r (get (traced b) ctx service key (w, []))
        × IsReleased r (set (traced b) ctx service key value (w, []))
        × IsReleased r (remove (traced b) ctx service key (w, []))
        × IsReleased r (probe (traced b) ctx (w, []))
  operations-IsReleased ctx service key value w r = (
    Keeps-IsReleased _ w r (get-Keeps ctx service key),
    Keeps-IsReleased _ w r (set-Keeps ctx service key value),
    Keeps-IsReleased _ w r (remove-Keeps ctx service key),
    Keeps-IsReleased _ w r (probe-Keeps ctx),
  )
