-- ===== src/Dbus/Traces.antt =====
-- A bus that notes which resources the client acquires and releases.
use common_keyring.Base.{ℕ, String, List, ◌∷◌}
use common_keyring.Errors.{Result, ok, err, Action}
use common_keyring.Dbus.{Bus}

-- Connections, sessions, registered channels and match rules.
pub data Resource : Type 0 where
  of_connection of_channel : ℕ → Resource
  of_session of_match : String → Resource

-- A call that acquires counts if it succeeds, one that releases counts in any case.
pub data Event : Type 0 where
  acquired released : Resource → Event

-- The newest event stands first.
abbrev pub Traced : Type 0 → Type 0
Traced W = W × List Event

abbrev pub on_ok : {A : Type 0} → Result A → (A → Resource) → List Event → List Event
on_ok (ok a) f es = acquired (f a) ∷ es
on_ok (err e) f es = es

module _ {W : Type 0} where
  abbrev pub quiet : {A : Type 0} → (W → A × W) → Traced W → A × Traced W
  quiet m (w, es) = let (r, w') = m w in (r, (w', es))

  abbrev pub taking : {A : Type 0} → (A → Resource) → Action W A → Action (Traced W) A
  taking f m (w, es) = let (r, w') = m w in (r, (w', on_ok r f es))

  abbrev pub giving : {A : Type 0} → Resource → (W → A × W) → Traced W → A × Traced W
  giving q m (w, es) = let (r, w') = m w in (r, (w', released q ∷ es))

  abbrev pub traced : {K : Type 0} → Bus W K → Bus (Traced W) K
  traced b = record {
    context_err = λ k s. b.context_err k s.0;
    with_timeout = λ parent seconds s. b.with_timeout parent seconds s.0;
    connect = λ k. taking of_connection (b.connect k);
    close = λ c. giving (of_connection c) (b.close c);
    unlock = λ k c object. quiet (b.unlock k c object);
    open_session = λ k c. taking of_session (b.open_session k c);
    close_session = λ k c session. giving (of_session session) (b.close_session k c session);
    search_items = λ k c path key service. quiet (b.search_items k c path key service);
    create_item = λ k c path label key service secret.
        quiet (b.create_item k c path label key service secret);
    get_secret = λ k c item session. quiet (b.get_secret k c item session);
    delete_item = λ k c item. quiet (b.delete_item k c item);
    show_prompt = λ k c prompt. quiet (b.show_prompt k c prompt);
    signal = λ c s. (b.signal c s.0, acquired (of_channel c) ∷ s.1);
    remove_signal = λ c s. (b.remove_signal c s.0, released (of_channel c) ∷ s.1);
    add_match = λ k c prompt. taking (λ _. of_match prompt) (b.add_match k c prompt);
    remove_match = λ k c prompt. giving (of_match prompt) (b.remove_match k c prompt);
    wait = λ k c. quiet (b.wait k c);
  }
