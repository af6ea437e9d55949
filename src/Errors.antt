-- ===== src/Errors.antt =====
-- Go's error values and `errors.Is`, over the sentinels that the program compares with:
-- internal/contract/errors.go, secure/wsl2/errors.go, and those of the standard library.
pub mod Matching
use common_keyring.Base.{
  ℕ, ◌+◌, String, Bool, true, false, ◌||◌, List, [], ◌∷◌, ◌==◌, nat_eq, ◌≡◌, refl, ◌⊎◌, inl, inr,
  if◌then◌else◌,
}

-- `contract.Error`
pub data Category : Type 0 where
  not_found invalid_argument value_too_large backend_unavailable backend_locked : Category
  interaction_required permission_denied timeout insecure_fallback unsupported : Category
  backend_failure : Category

-- The package variables of secure/wsl2/errors.go that `errors.New` makes.
pub data Bridge : Type 0 where
  not_wsl2 invalid_request unsupported_protocol unsupported_operation : Bridge
  bad_argument missing access_denied unavailable failure timed_out : Bridge
  internal too_large protocol : Bridge

-- What `errors.Is` is asked for. An error number is that of Linux, or that of
-- Windows in its client.
pub data Sentinel : Type 0 where
  category : Category → Sentinel
  bridge : Bridge → Sentinel
  errno : ℕ → Sentinel
  canceled deadline_exceeded : Sentinel
  fs_not_exist fs_exist fs_permission : Sentinel
  exec_not_found short_write unexpected_eof : Sentinel

mutual
  pub data GoError : Type 0 where
    -- a sentinel itself
    leaf : Sentinel → GoError
    -- an error that unwraps to nothing and is no sentinel
    plain : String → GoError
    -- `godbus.Error` with its name
    bus : String → GoError
    -- `fmt.Errorf` with its `%w` operands in order, or `errors.Join`
    wrap : String → Errors → GoError

  pub data Errors : Type 0 where
    nil : Errors
    cons : GoError → Errors → Errors

abbrev pub cat : Category → GoError
cat c = leaf (category c)

-- `fmt.Errorf("text: %w", e)` and `fmt.Errorf("%w: text", e)`
abbrev pub wrap1 : String → GoError → GoError
wrap1 text e = wrap text (cons e nil)

-- `fmt.Errorf("%w: text: %w", d, e)`
abbrev pub wrap2 : String → GoError → GoError → GoError
wrap2 text d e = wrap text (cons d (cons e nil))

category_code : Category → ℕ
category_code not_found = 0
category_code invalid_argument = 1
category_code value_too_large = 2
category_code backend_unavailable = 3
category_code backend_locked = 4
category_code interaction_required = 5
category_code permission_denied = 6
category_code timeout = 7
category_code insecure_fallback = 8
category_code unsupported = 9
category_code backend_failure = 10

bridge_code : Bridge → ℕ
bridge_code not_wsl2 = 20
bridge_code invalid_request = 21
bridge_code unsupported_protocol = 22
bridge_code unsupported_operation = 23
bridge_code bad_argument = 24
bridge_code missing = 25
bridge_code access_denied = 26
bridge_code unavailable = 27
bridge_code failure = 28
bridge_code timed_out = 29
bridge_code internal = 30
bridge_code too_large = 31
bridge_code protocol = 32

sentinel_code : Sentinel → ℕ
unfolding category_code bridge_code
sentinel_code (category c) = category_code c
sentinel_code (bridge b) = bridge_code b
sentinel_code canceled = 40
sentinel_code deadline_exceeded = 41
sentinel_code fs_not_exist = 42
sentinel_code fs_exist = 43
sentinel_code fs_permission = 44
sentinel_code exec_not_found = 45
sentinel_code short_write = 46
sentinel_code unexpected_eof = 47
sentinel_code (errno n) = 100 + n

-- Two sentinels are the same value.
unfoldable pub same : Sentinel → Sentinel → Bool
unfolding sentinel_code
same s t = sentinel_code s == sentinel_code t

-- The error numbers that the program names.
abbrev pub eperm : ℕ
eperm = 1

abbrev pub enoent : ℕ
enoent = 2

abbrev pub eacces : ℕ
eacces = 13

abbrev pub eexist : ℕ
eexist = 17

abbrev pub enodev : ℕ
enodev = 19

abbrev pub enotdir : ℕ
enotdir = 20

abbrev pub eisdir : ℕ
eisdir = 21

abbrev pub enosys : ℕ
enosys = 38

abbrev pub enotempty : ℕ
enotempty = 39

abbrev pub eloop : ℕ
eloop = 40

abbrev pub enokey : ℕ
enokey = 126

abbrev pub ekeyexpired : ℕ
ekeyexpired = 127

abbrev pub ekeyrevoked : ℕ
ekeyrevoked = 128

-- The method `Is` of `syscall.Errno`.
unfoldable pub errno_is : Sentinel → Sentinel → Bool
errno_is (errno n) fs_permission = n == eacces || n == eperm
errno_is (errno n) fs_exist = n == eexist || n == enotempty
errno_is (errno n) fs_not_exist = n == enoent
errno_is s t = false

-- `errors.Is(err, target)` for a sentinel target.
unfoldable mutual
  unfolding same errno_is

  pub is : GoError → Sentinel → Bool
  is (leaf s) t = same s t || errno_is s t
  is (plain text) t = false
  is (bus name) t = false
  is (wrap text es) t = is_any es t

  pub is_any : Errors → Sentinel → Bool
  is_any nil t = false
  is_any (cons e es) t = is e t || is_any es t

-- The operands of `errors.Join`, and the result of an `Unwrap() []error`.
abbrev pub from_list : List GoError → Errors
from_list [] = nil
from_list (e ∷ es) = cons e (from_list es)

-- A value and an error of which one is nil.
pub data Result {ℓ} (A : Type ℓ) : Type ℓ where
  ok : A → Result A
  err : GoError → Result A

-- A procedure that returns an `error`.
abbrev pub Fallible : Type 0
Fallible = Result (Unit {0})

-- A step of the program against a world `W` that it can observe and change.
abbrev pub Action {ℓ κ} : Type ℓ → Type κ → Type (ℓ ⊔ κ)
Action W A = W → Result A × W

-- A chain of steps of which the first error is returned.
infixl 5 ◌>>=◌ ◌>>◌
abbrev pub ◌>>=◌ {ℓ κ} : {A : Type ℓ} → {B : Type κ} → Result A → (A → Result B) → Result B
err e >>= next = err e
ok a >>= next = next a

abbrev pub ◌>>◌ {ℓ κ} : {A : Type ℓ} {B : Type κ} → Result A → Result B → Result B
m >> k = m >>= λ _. k

-- `if test { return error }`
abbrev pub refuse : Bool → GoError → Fallible
refuse true e = err e
refuse false e = ok tt

-- Inversions of a chain that succeeds.
pub refuse-ok {ℓ} :
    {A : Type ℓ} (test : Bool) (e : GoError) (k : Result A) {a : A}
    → (refuse test e >> k) ≡ ok a
    → (test ≡ false) × (k ≡ ok a)
refuse-ok false e k h = (refl, h)
refuse-ok true e k h = cc

pub >>=-ok {ℓ κ} :
    {A : Type ℓ}
    → {B : Type κ} → {b : B} → (m : Result A) → (next : A → Result B) → (m >>= next) ≡ ok b
    → (a : A) × (m ≡ ok a) × (next a ≡ ok b)
>>=-ok (err e) next h = cc
>>=-ok (ok a) next h = (a, refl, h)

pub refuse-ok_alone : (test : Bool) (e : GoError) → refuse test e ≡ ok tt → test ≡ false
refuse-ok_alone false e h = refl
refuse-ok_alone true e h = cc

pub if-err-ok {ℓ} :
    {A : Type ℓ} (test : Bool) (e : GoError) (k : Result A) {a : A}
    → (if test then err e else k) ≡ ok a
    → (test ≡ false) × (k ≡ ok a)
if-err-ok false e k h = (refl, h)
if-err-ok true e k h = cc

pub Result-cases {ℓ} :
    {A : Type ℓ} (r : Result A) → ((a : A) × (r ≡ ok a)) ⊎ ((e : GoError) × (r ≡ err e))
Result-cases (ok a) = inl (a, refl)
Result-cases (err e) = inr (e, refl)

pub ok-eq {ℓ} : {A : Type ℓ} {a b : A} → ok a ≡ ok b → a ≡ b
ok-eq h = cc
