-- ===== src/Native.antt =====
-- internal/backend/native: the native credential store of each build.
use common_keyring.Base.{Option, none, some, codes}
use common_keyring.Errors.{GoError, unsupported, cat, wrap1, err, Action}
use common_keyring.Contract.{Context, context_error}
use common_keyring.Dbus.{Bus}
use common_keyring.Dbus.Client
use common_keyring.Windows
use common_keyring.Darwin
use common_keyring.Secure.{Native}

-- linux.go: contexts of the bus are those of the program.
abbrev pub linux : {W : Type 0} → Bus W (W → Option GoError) → Native W
linux b = record { get = Client.get b; set = Client.set b; delete = Client.remove b }

-- darwin.go
abbrev pub darwin : {W : Type 0} → Darwin.Security W → Native W
darwin s = record {
  get = λ ctx service key. Darwin.get s ctx (codes service) (codes key);
  set = λ ctx service key. Darwin.set s ctx (codes service) (codes key);
  delete = λ ctx service key. Darwin.delete s ctx (codes service) (codes key);
}

-- windows.go
abbrev pub windows : {W : Type 0} → Windows.Manager W → Native W
windows m = record {
  get = λ ctx service key. Windows.get m ctx (codes service) (codes key);
  set = λ ctx service key. Windows.set m ctx (codes service) (codes key);
  delete = λ ctx service key. Windows.delete m ctx (codes service) (codes key);
}

-- An operation of other.go
unfoldable pub refused : {W A : Type 0} → Context W → Action W A
refused ctx w = elim (context_error ctx w) [
  | some e ↦ (err e, w)
  | none ↦ (err (wrap1 "native credential store" (cat unsupported)), w)
]

-- other.go
abbrev pub other : {W : Type 0} → Native W
other = record {
  get = λ ctx service key. refused ctx;
  set = λ ctx service key value. refused ctx;
  delete = λ ctx service key. refused ctx;
}
