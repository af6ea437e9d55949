-- ===== src/Filesystem/Mounts/Devices.antt =====
-- `parseMountDevice` of internal/backend/fs/mount_linux.go and the numbers that the kernel writes.
use common_keyring.Base.{
  ℕ, zero, suc, ◌+◌, ◌-◌, ◌*◌, ◌/◌, ◌%◌, ◌^◌, ◌≤◌, ◌<◌, true, false, Option, none, some, [], ◌∷◌,
  ◌++◌, ◌==◌, nat_eq, ltb, leb, if◌then◌else◌, ◌≡◌, refl, ap, ◌∙◌, sym, arith, Bool-cases, inl, inr,
}
use common_keyring.Errors.{wrap1, ok, >>=-ok, ok-eq}
use common_keyring.Filesystem.Steps.{on_error}
use common_keyring.Filesystem.Steps.Runs.{on_error-ok}
use common_keyring.Contract.{Bytes}
use common_keyring.Filesystem.Mounts.{
  Device, in_uint32, digits_value, parse_uint32, cut, parse_numbers, parse_device,
}

-- The decimal digits of a number in front of some bytes, in so many rounds at most.
abbrev pub decimal_onto : ℕ → ℕ → Bytes → Bytes
decimal_onto zero n text = (b'0' + n % 10) ∷ text
decimal_onto (suc rounds) n text =
    let more = decimal_onto rounds (n / 10) ((b'0' + n % 10) ∷ text) in
    if ltb n 10 then (b'0' + n) ∷ text else more

-- The decimal digits of a number, as the kernel writes them.
abbrev pub decimal : ℕ → Bytes
decimal n = decimal_onto n n []

abbrev pub AllDigits : Bytes → Type 0
AllDigits [] = Unit
AllDigits (c ∷ text) = (b'0' ≤ c) × (c ≤ b'9') × AllDigits text

pub decimal_onto-digits :
    (rounds n : ℕ) (text : Bytes) → AllDigits text → AllDigits (decimal_onto rounds n text)
decimal_onto-digits zero n text h = (omega arith, omega arith, h)
decimal_onto-digits (suc rounds) n text h = elim (Bool-cases (ltb n 10)) [
  | inl small ↦ rw small (omega arith, ground arith, h)
  | inr large ↦ rw large (decimal_onto-digits rounds (n / 10) _ (omega arith, omega arith, h))
]

digits_value-digit :
    (k d : ℕ) (text : Bytes)
    → d < 10
    → digits_value k ((b'0' + d) ∷ text) ≡ digits_value (k * 10 + d) text
unfolding digits_value
digits_value-digit k d text h =
    let low : leb b'0' (b'0' + d) ≡ true = ground arith in
    let high : leb (b'0' + d) b'9' ≡ true = ground arith in
    let same : k * 10 + (b'0' + d - b'0') ≡ k * 10 + d = omega arith in rw (low, high, same) refl

digits_value-decimal_onto :
    (rounds n : ℕ) (text : Bytes)
    → n ≤ rounds
    → digits_value 0 (decimal_onto rounds n text) ≡ digits_value n text
digits_value-decimal_onto zero n text h =
    let e : 0 * 10 + n % 10 ≡ n = omega arith in
    digits_value-digit 0 (n % 10) text (omega arith) ∙ ap (λ m. digits_value m text) e
digits_value-decimal_onto (suc rounds) n text h = elim (Bool-cases (ltb n 10)) [
  | inl small ↦
      rw small
        (digits_value-digit 0 n text (ground arith) ∙ ap (λ m. digits_value m text) (omega arith))
  | inr large ↦
      let e : n / 10 * 10 + n % 10 ≡ n = omega arith in
      rw large (
        digits_value-decimal_onto rounds (n / 10) ((b'0' + n % 10) ∷ text) (ground arith)
        ∙ digits_value-digit (n / 10) (n % 10) text (omega arith)
        ∙ ap (λ m. digits_value m text) e)
]

pub decimal_onto-cons :
    (rounds n : ℕ) (text : Bytes)
    → (c : ℕ) × (rest : Bytes) × (decimal_onto rounds n text ≡ c ∷ rest)
decimal_onto-cons zero n text = (b'0' + n % 10, text, refl)
decimal_onto-cons (suc rounds) n text = elim (Bool-cases (ltb n 10)) [
  | inl small ↦ (b'0' + n, text, rw small refl)
  | inr large ↦
      let (c, rest, e) = decimal_onto-cons rounds (n / 10) ((b'0' + n % 10) ∷ text) in
      (c, rest, rw large e)
]

parse_uint32-value :
    (n : ℕ) (text : Bytes) (c : ℕ) (rest : Bytes)
    → text ≡ c ∷ rest
    → digits_value 0 text ≡ some n
    → n < 2 ^ 32
    → parse_uint32 text ≡ ok n
unfolding parse_uint32 in_uint32
parse_uint32-value n text c rest e v h =
    let small : ltb n (2 ^ 32) ≡ true = ground arith in
    let value : digits_value 0 (c ∷ rest) ≡ some n = ap (digits_value 0) (sym e) ∙ v in
    ap parse_uint32 e ∙ ap in_uint32 value ∙ rw small refl

parse_uint32-decimal : (n : ℕ) → n < 2 ^ 32 → parse_uint32 (decimal n) ≡ ok n
unfolding digits_value
parse_uint32-decimal n h =
    let (c, rest, e) = decimal_onto-cons n n [] in
    parse_uint32-value n (decimal n) c rest e (digits_value-decimal_onto n n [] (omega arith)) h

cut-digits : (text after : Bytes) → AllDigits text → cut (text ++ b':' ∷ after) ≡ some (text, after)
unfolding cut
cut-digits [] after h = refl
cut-digits (c ∷ text) after (low, high, h) =
    let other : (c == b':') ≡ false = ground arith in rw (other, cut-digits text after h) refl

-- The numbers of a device as the kernel writes them.
abbrev pub device_text : Device → Bytes
device_text d = decimal d.major ++ b':' ∷ decimal d.minor

-- A device whose numbers have 32 bits is read back from what the kernel writes for it.
pub parse_device-device_text :
    (d : Device) → d.major < 2 ^ 32 → d.minor < 2 ^ 32 → parse_device (device_text d) ≡ ok d
unfolding parse_device parse_numbers
parse_device-device_text d h k =
    ap parse_numbers
      (cut-digits (decimal d.major) (decimal d.minor) (decimal_onto-digits d.major d.major [] tt))
    ∙ rw (parse_uint32-decimal d.major h, parse_uint32-decimal d.minor k) refl

parse_uint32-lt : (text : Bytes) (n : ℕ) → parse_uint32 text ≡ ok n → n < 2 ^ 32
unfolding parse_uint32
parse_uint32-lt [] n h = cc
parse_uint32-lt (c ∷ text) n h = ground arith

parse_numbers-lt :
    (o : Option (Bytes × Bytes)) (d : Device)
    → parse_numbers o ≡ ok d
    → (d.major < 2 ^ 32) × (d.minor < 2 ^ 32)
unfolding parse_numbers
parse_numbers-lt none d h = cc
parse_numbers-lt (some (a, b)) d h =
    let (major, p, k) = >>=-ok (on_error (wrap1 "invalid mount major") (parse_uint32 a)) _ h in
    let (minor, q, l) = >>=-ok (on_error (wrap1 "invalid mount minor") (parse_uint32 b)) _ k in
    (
      rw (← ap Device.major (ok-eq l))
          (parse_uint32-lt a major (on_error-ok _ (parse_uint32 a) major p)),
      rw (← ap Device.minor (ok-eq l))
          (parse_uint32-lt b minor (on_error-ok _ (parse_uint32 b) minor q)),
    )

-- Both numbers of a device that `parseMountDevice` returns have 32 bits.
pub parse_device-lt :
    (value : Bytes) (d : Device)
    → parse_device value ≡ ok d
    → (d.major < 2 ^ 32) × (d.minor < 2 ^ 32)
unfolding parse_device
parse_device-lt value d h = parse_numbers-lt (cut value) d h
