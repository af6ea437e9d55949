-- ===== src/Tests/OnBus.antt =====
-- Concrete uses of what is shown of internal/backend/dbus.
use common_keyring.Base.{ℕ, ◌+◌, false, none, some, [], ◌∷◌, ◌≡◌, refl, string_eq, nat_eq, ◌⊎◌}
use common_keyring.Filesystem.Steps.{◌>>=◌, finally_with, finally}
use common_keyring.Errors.{plain, leaf, bus, canceled, ok, err}
use common_keyring.Dbus.{Bus, SecretValue, boolean, another, received, completed_member}
use common_keyring.Dbus.Faults.{context_error, backend_error, calling}
use common_keyring.Dbus.Client.{get, set, remove}
use common_keyring.Dbus.Probe.{probe}
use common_keyring.Dbus.Traces.{of_session, traced}
use common_keyring.Filesystem.Storage.Balance.{opens, closes, one_if, gain}
use common_keyring.Dbus.Dialing.{Dialer, connect_session_bus}
use common_keyring.Dbus.Dialing.Closed.{observed, connect_session_bus-opens_closes}
use common_keyring.Dbus.Released.{IsReleased, operations-IsReleased}
use common_keyring.Dbus.Fetched.{Fetched, get-Fetched}
use common_keyring.Dbus.Portable.{IsPortable, backend_error-IsPortable}

abbrev secret : SecretValue
secret = record { session = "/s"; parameters = []; value = 1 ∷ 2 ∷ []; content_type = "text" }

-- A bus whose state counts its calls; unlocking asks by a prompt that the user accepts.
abbrev desktop : Bus ℕ ℕ
desktop = record {
  context_err = λ k w. none;
  with_timeout = λ parent seconds w. seconds;
  connect = λ k w. (ok 7, w + 1);
  close = λ c w. (ok tt, w + 1);
  unlock = λ k c object w. (ok "/prompt", w + 1);
  open_session = λ k c w. (ok "/s", w + 1);
  close_session = λ k c session w. (ok tt, w + 1);
  search_items = λ k c path key service w. (ok ("/item" ∷ []), w + 1);
  create_item = λ k c path label key service value w.
      (err (bus "org.freedesktop.Secret.Error.IsLocked"), w + 1);
  get_secret = λ k c item session w. (ok secret, w + 1);
  delete_item = λ k c item w. (ok "/", w + 1);
  show_prompt = λ k c prompt w. (ok tt, w + 1);
  signal = λ c w. w;
  remove_signal = λ c w. w;
  add_match = λ k c prompt w. (ok tt, w);
  remove_match = λ k c prompt w. (ok tt, w);
  wait = λ k c w.
      (received (record { name = completed_member; body = boolean false ∷ another ∷ [] }), w);
}

operations-IsReleased_example :
    IsReleased (of_session "/s") (get (traced desktop) (some 0) "mail" "me" (3, []))
    × IsReleased (of_session "/s") (set (traced desktop) (some 0) "mail" "me" (5 ∷ []) (3, []))
    × IsReleased (of_session "/s") (remove (traced desktop) (some 0) "mail" "me" (3, []))
    × IsReleased (of_session "/s") (probe (traced desktop) (some 0) (3, []))
operations-IsReleased_example =
    operations-IsReleased desktop (some 0) "mail" "me" (5 ∷ []) 3 (of_session "/s")

fetched_run : get desktop (some 0) "mail" "me" 0 ≡ (ok (1 ∷ 2 ∷ []), 10)
unfolding get ◌>>=◌ calling finally_with finally
fetched_run = refl

get-Fetched_example : Fetched desktop (some 0) "mail" "me" (1 ∷ 2 ∷ []) 0 10
get-Fetched_example = get-Fetched desktop (some 0) "mail" "me" (1 ∷ 2 ∷ []) 0 10 fetched_run

backend_error-IsPortable_example :
    (context_error desktop (some 0) 3
      ≡ some (backend_error desktop 0 "get credential" (leaf canceled) 3))
    ⊎ ((context_error desktop (some 0) 3 ≡ none)
        × IsPortable (leaf canceled) (backend_error desktop 0 "get credential" (leaf canceled) 3))
backend_error-IsPortable_example =
    backend_error-IsPortable desktop 0 "get credential" (leaf canceled) 3

-- A bus that refuses the authentication of connection 5.
abbrev guarded : Dialer ℕ
guarded = record {
  dial = λ w. (ok 5, w);
  auth = λ c w. (err (plain "rejected"), w);
  hello = λ c w. (ok tt, w);
  close = λ c w. (ok tt, w + 1);
}

connect_session_bus-opens_closes_example :
    opens 5 (connect_session_bus (observed guarded) (0, [])).1.1
    ≡ closes 5 (connect_session_bus (observed guarded) (0, [])).1.1
      + gain one_if (connect_session_bus (observed guarded) (0, [])).0 5
connect_session_bus-opens_closes_example = connect_session_bus-opens_closes guarded 0 5
