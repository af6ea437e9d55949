-- ===== src/Keyctl/Categories.antt =====
-- The categories of the kernel's error numbers.
use common_keyring.Base.{ℕ, ◌||◌, ◌==◌, nat_eq, ◌≡◌, arith, if◌then◌else◌}
use common_keyring.Errors.{
  Category, errno, leaf, eperm, eacces, enokey, ekeyexpired, ekeyrevoked, enosys, enodev, not_found,
  permission_denied, backend_unavailable, backend_failure, is, same, errno_is,
}
use common_keyring.Selection.{permits_fallback}
use common_keyring.Keyctl.{probe_error, operation_category}

-- The category that the operations report for an error number of the kernel.
abbrev pub category_of : ℕ → Category
category_of n =
    if n == enokey || n == ekeyexpired || n == ekeyrevoked
    then not_found
    else if n == eperm || n == eacces
    then permission_denied
    else if n == enosys || n == enodev
    then backend_unavailable
    else backend_failure

-- Each error number of the kernel is reported with its category.
pub operation_category-errno : (n : ℕ) → operation_category (leaf (errno n)) ≡ category_of n
unfolding operation_category is same errno_is
operation_category-errno n = ground arith

-- A selection goes on past the kernel keyring's refusal to open exactly if the kernel's error
-- number is ENOKEY, ENOSYS or ENODEV.
permits_fallback-probe_error :
    (n : ℕ)
    → permits_fallback (probe_error (leaf (errno n))) ≡ (n == enokey || n == enosys || n == enodev)
unfolding permits_fallback probe_error is same errno_is
permits_fallback-probe_error n = ground arith
