-- ===== src/Fake.antt =====
-- secure/fake/keyring.go: the keyring in memory, which is the world of its own operations.
pub mod Stored
use common_keyring.Base.{String, Bool, ◌&&◌, Option, none, some, ◌==◌, string_eq, if◌then◌else◌}
use common_keyring.Errors.{GoError, not_found, cat, Result, ok, err, Action}
use common_keyring.Contract.{Context, context_error, Bytes}

-- `entry`
pub record Entry : Type 0 where
  pub service : String
  pub username : String

abbrev pub same_entry : Entry → Entry → Bool
same_entry d e = (d.service == e.service) && (d.username == e.username)

-- The contents of a Go map from entries to secrets.
abbrev pub Contents : Type 0
Contents = Entry → Option Bytes

-- `Keyring`, whose map may be nil; its mutex is not part of the model, which runs one operation
-- after the other.
pub record Fake : Type 0 where
  pub failure : Option GoError
  pub service : String
  pub storage : Option Contents

-- Reading a map, where a nil map is empty.
abbrev pub contents_of : Option Contents → Contents
contents_of none e = none
contents_of (some m) e = m e

-- `init`
unfoldable pub init : Fake → Fake
init k = record {
  failure = k.failure;
  service = if k.service == "" then "fake" else k.service;
  storage = some (contents_of k.storage);
}

-- `key`
unfoldable pub entry_of : Fake → String → Entry
entry_of k username = record { service = k.service; username = username }

-- Assignment to an entry, and its removal.
unfoldable pub assign : Entry → Option Bytes → Fake → Fake
assign entry value k = record k {
  storage = some (λ e. if same_entry e entry then value else contents_of k.storage e);
}

-- The start of each operation, for the errors of its context and of the keyring, with what it
-- does to an initialised keyring when there are none.
unfoldable pub with_errors :
    {A : Type 0} → Option GoError → Option GoError → (Fake → Result A × Fake) → Action Fake A
unfolding init
with_errors (some e) failure act k = (err e, k)
with_errors none (some e) act k = (err e, init k)
with_errors none none act k = act (init k)

unfoldable pub operate : {A : Type 0} → Context Fake → (Fake → Result A × Fake) → Action Fake A
unfolding with_errors
operate ctx act k = with_errors (context_error ctx k) k.failure act k

-- The value that was found, if any.
abbrev pub found : Option Bytes → Result Bytes
found none = err (cat not_found)
found (some value) = ok value

-- `Get`
unfoldable pub get : Context Fake → String → Action Fake Bytes
unfolding operate entry_of
get ctx username = operate ctx (λ k. (found (contents_of k.storage (entry_of k username)), k))

-- `Set`
unfoldable pub set : Context Fake → String → Bytes → Action Fake (Unit {0})
unfolding operate entry_of assign
set ctx username password =
    operate ctx (λ k. (ok tt, assign (entry_of k username) (some password) k))

-- `Delete` of the entry with this value.
unfoldable pub remove : String → Option Bytes → Fake → Result (Unit {0}) × Fake
unfolding entry_of assign
remove username none k = (err (cat not_found), k)
remove username (some value) k = (ok tt, assign (entry_of k username) none k)

-- `Delete`
unfoldable pub delete : Context Fake → String → Action Fake (Unit {0})
unfolding operate remove
delete ctx username =
    operate ctx (λ k. remove username (contents_of k.storage (entry_of k username)) k)
