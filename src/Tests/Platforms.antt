-- ===== src/Tests/Platforms.antt =====
-- Concrete uses of what is shown of internal/backend/windows, internal/backend/darwin and
-- internal/backend/fs/directory_linux.go.
use common_keyring.Base.{ℕ, ◌+◌, ◌-◌, true, none, some, List, [], ◌∷◌, codes, ◌≡◌, refl, nat_eq}
use common_keyring.Base.Bytes.{IsSolid, is_space}
use common_keyring.Errors.{plain, ok, err}
use common_keyring.Contract.{Context, context_error}
use common_keyring.Filesystem.Steps.{◌>>=◌, relabel, finally}
use common_keyring.Filesystem.Storage.Balance.{opens, closes}
use common_keyring.Filesystem.Directories.{Host, prepare_directories}
use common_keyring.Filesystem.Directories.Counted.{observed, prepare_directories-opens_closes}
use common_keyring.Filesystem.Directories.Prepared.{Prepared, prepare_directories-Prepared}
use common_keyring.Windows.{Manager, set}
use common_keyring.Windows.Written.{Written, set-Written}
use common_keyring.Darwin.{Security, get}
use common_keyring.Darwin.Stored.{get-stored}

-- A host whose state is its next descriptor; each directory has this mode.
abbrev pub host : ℕ → Host ℕ
host mode = record {
  mkdir_all = λ path mode w. (ok tt, w);
  mkdir_at = λ parent name mode w. (ok tt, w);
  open_path = λ path w. (ok w, w + 1);
  open_at = λ parent name w. (ok w, w + 1);
  fstat = λ d w. (ok (record { mode = mode; uid = 1000 }), w);
  close = λ d w. (ok tt, w);
}

-- Descriptor 3 is that of the root, which is refused and closed.
prepare_directories-opens_closes_example :
    opens 3 (prepare_directories (observed (host 0o040755)) "/secrets" "mail" 1000 (3, [])).1.1
    ≡ closes 3 (prepare_directories (observed (host 0o040755)) "/secrets" "mail" 1000 (3, [])).1.1
prepare_directories-opens_closes_example =
    prepare_directories-opens_closes (host 0o040755) "/secrets" "mail" 1000 3 3

prepared_run : prepare_directories (host 0o040700) "/secrets" "mail" 1000 3 ≡ (ok tt, 6)
unfolding prepare_directories ◌>>=◌ relabel finally
prepared_run = refl

prepare_directories-Prepared_example : Prepared (host 0o040700) "/secrets" "mail" 1000 3 6
prepare_directories-Prepared_example =
    prepare_directories-Prepared (host 0o040700) "/secrets" "mail" 1000 3 6 prepared_run

-- A manager that counts what is written.
abbrev manager : Manager ℕ
manager = record {
  read_credential = λ target w. (ok [], w);
  write_credential = λ target username value w. (ok tt, w + 1);
  delete_credential = λ target w. (ok tt, w);
  is_valid = λ text. true;
  runes = λ text. text;
}

abbrev live : Context ℕ
live = some (λ w. none)

written_run : set manager live (codes "mail") (codes "me") (1 ∷ 2 ∷ []) 0 ≡ (ok tt, 1)
unfolding set context_error
written_run = refl

set-Written_example : Written manager (codes "mail") (codes "me") (1 ∷ 2 ∷ []) 0 1
set-Written_example =
    set-Written manager live (codes "mail") (codes "me") (1 ∷ 2 ∷ []) 0 1 written_run

-- A tool that knows one password, and a coding that shifts each byte.
abbrev shifted : List ℕ → List ℕ
shifted [] = []
shifted (c ∷ text) = (c + 64) ∷ shifted text

abbrev shifted_back : List ℕ → List ℕ
shifted_back [] = []
shifted_back (c ∷ text) = (c - 64) ∷ shifted_back text

abbrev security : Security ℕ
security = record {
  execute_command = λ ctx input arguments w. ((codes "go-keyring-base64:AB\n", none), w);
  quote = λ text. text;
  encode_base64 = shifted;
  decode_base64 = λ text. ok (shifted_back text);
  decode_hex = λ text. err (plain "odd length");
}

live_now : context_error live 0 ≡ none
unfolding context_error
live_now = refl

security-IsSolid : IsSolid (security.encode_base64 (1 ∷ 2 ∷ []))
unfolding is_space
security-IsSolid = (refl, (refl, tt))

get-stored_example : get security live (codes "mail") (codes "me") 0 ≡ (ok (1 ∷ 2 ∷ []), 0)
get-stored_example =
    get-stored security live (codes "mail") (codes "me") (1 ∷ 2 ∷ []) 0 0 live_now security-IsSolid
      refl refl
