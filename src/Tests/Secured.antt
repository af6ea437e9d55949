-- ===== src/Tests/Secured.antt =====
-- Concrete uses of what is shown of the package `secure` and of internal/iox.
use common_keyring.Base.{
  ℕ, ◌+◌, true, false, none, List, [], ◌∷◌, map, length, take, ltb, ◌≡◌, refl,
}
use mathlib.Core.List.{flatten}
use common_keyring.Errors.{is, backend_unavailable, unsupported, cat, ok, err}
use common_keyring.Contract.{context_error, Bytes}
use common_keyring.Contract.Info.{Info, backend_secret_service, backend_keychain}
use common_keyring.Selection.{select_backend, reject, not_registered}
use common_keyring.Selection.Rejections.{AllPermit}
use common_keyring.Keyring.{opened, darwin_info}
use common_keyring.Secure.{
  Options, Native, Build, Linux, native_keyring, default_getter, linux_getter, kernel_info,
  no_options, merge_options, open_keyring,
}
use common_keyring.Secure.Fallback.{stores, kernel-after_stores}
use common_keyring.LimitedBuffer.{new_buffer, write_all}
use common_keyring.LimitedBuffer.Retained.{write_all-new_buffer}
use common_keyring.Tests.Selecting.{calm, store}

abbrev native : Native ℕ
native = record {
  get = λ ctx service key w. (ok [], w);
  set = λ ctx service key contents w. (ok tt, w);
  delete = λ ctx service key w. (ok tt, w);
}

-- A Linux system with nothing but the kernel's keyring.
abbrev linux : Linux ℕ
linux = record {
  native = native;
  probe_secret_service = λ ctx w. (err (cat backend_unavailable), w + 1);
  open_kernel_keyring = λ service w. (ok store, w + 1);
  initialize_wsl2 = λ ctx service w. (err (cat unsupported), w);
  is_wsl2 = λ w. (false, w);
}

abbrev keychain : Build
keychain = record { native_info = darwin_info; native_supported = true }

abbrev service_only : Options ℕ
service_only = record no_options { service = "app" }

abbrev ordered : Options ℕ
ordered = record service_only { backends = "other" ∷ backend_keychain ∷ [] }

abbrev kernel_fallback : Info
kernel_fallback = record kernel_info {
  fallback = true;
  rejected = reject backend_secret_service (cat backend_unavailable) ∷ [];
}

abbrev keychain_fallback : Info
keychain_fallback = record darwin_info {
  fallback = true;
  rejected = reject "other" not_registered ∷ [];
}

not_given : (merge_options (service_only ∷ [])).keyringer ≡ none
unfolding merge_options
not_given = refl

default_order_used : (merge_options (service_only ∷ [])).backends ≡ []
unfolding merge_options
default_order_used = refl

opens_kernel :
    open_keyring (linux_getter linux) calm (service_only ∷ []) 0 ≡ (opened store kernel_fallback, 2)
unfolding open_keyring linux_getter context_error select_backend is
opens_kernel = refl

kernel-after_stores_example :
    (map (λ r. r.backend) kernel_fallback.rejected ≡ stores (linux.is_wsl2 0).0)
    × AllPermit kernel_fallback.rejected
kernel-after_stores_example =
    kernel-after_stores linux calm (service_only ∷ []) 0 2 store kernel_fallback not_given
      default_order_used opens_kernel refl

ordered_not_given : (merge_options (ordered ∷ [])).keyringer ≡ none
unfolding merge_options
ordered_not_given = refl

opens_keychain :
    open_keyring (default_getter native keychain) calm (ordered ∷ []) 0
    ≡ (opened (native_keyring native "app") keychain_fallback, 0)
unfolding open_keyring default_getter context_error select_backend is
opens_keychain = refl

abbrev chunks : List Bytes
chunks = (1 ∷ 2 ∷ []) ∷ (3 ∷ 4 ∷ []) ∷ []

write_all-new_buffer_example :
    ((write_all (new_buffer 3) chunks).buffer ≡ take 3 (flatten chunks))
    × ((write_all (new_buffer 3) chunks).overflow ≡ ltb 3 (length (flatten chunks)))
write_all-new_buffer_example = write_all-new_buffer 3 chunks

keeps_first : (write_all (new_buffer 3) chunks).buffer ≡ 1 ∷ 2 ∷ 3 ∷ []
unfolding write_all new_buffer
keeps_first = refl
