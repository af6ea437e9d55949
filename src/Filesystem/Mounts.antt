-- ===== src/Filesystem/Mounts.antt =====
-- internal/backend/fs/mount_linux.go: which mount a path lies on, by the kernel's mount table.
-- Texts are bytes; white space and letters are those of ASCII.
pub mod Validation
pub mod Escapes
pub mod Devices
pub mod Words
pub mod Records
pub mod Within
pub mod Choice
pub mod Accepted
use common_keyring.Base.{
  ℕ, zero, suc, ◌+◌, ◌-◌, ◌*◌, ◌^◌, String, Bool, true, false, not, ◌&&◌, ◌||◌, Option, none, some,
  List, [], ◌∷◌, ◌++◌, ◌==◌, nat_eq, any, codes, length, leb, ltb, if◌then◌else◌,
}
use common_keyring.Base.Bytes.{lower, is_space, equal, has_prefix}
use common_keyring.Errors.{
  GoError, insecure_fallback, fs_not_exist, cat, plain, wrap1, wrap2, is, Result, ok, err, Action,
  ◌>>=◌,
}
use common_keyring.Contract.{Bytes}
use common_keyring.Filesystem.Steps.{on_error}
use common_keyring.Filesystem.Paths.{
  split_by, FilePath, clean, text_of, written, relative, dot_dot, slash,
}

-- `mountDevice`
pub record Device : Type 0 where
  pub major : ℕ
  pub minor : ℕ

-- `mount`
pub record Mount : Type 0 where
  pub device : Device
  pub point : Bytes
  pub filesystem : Bytes
  pub source : Bytes
  pub super_options : Bytes

abbrev pub maximum_mount_info_line : ℕ
maximum_mount_info_line = 1024 * 1024

-- `mountError`
abbrev pub mount_error : String → GoError → GoError
mount_error operation e = wrap2 operation (cat insecure_fallback) e

-- A byte is put before a text that was decoded.
abbrev pub onto : ℕ → Result Bytes → Result Bytes
onto c (ok text) = ok (c ∷ text)
onto c (err e) = err e

-- The byte for the three digits of an escape.
unfoldable pub decode_escape : ℕ → ℕ → ℕ → Option ℕ
decode_escape a b c =
    let digits = a ∷ b ∷ c ∷ [] in
    if equal digits (codes "011")
    then some b'\t'
    else if equal digits (codes "012")
    then some b'\n'
    else if equal digits (codes "040")
    then some b' '
    else if equal digits (codes "134")
    then some b'\\'
    else none

abbrev pub onto_decoded : Option ℕ → Result Bytes → Result Bytes
onto_decoded none rest = err (plain "unsupported mountinfo escape")
onto_decoded (some c) rest = onto c rest

-- `unescapeMountField`: the three digits of an escape are skipped.
unfoldable pub unescape : Bytes → Result Bytes
unfolding decode_escape
unescape [] = ok []
unescape (c ∷ x ∷ y ∷ z ∷ text) =
    let plain_rest = unescape (x ∷ y ∷ z ∷ text) in
    let rest = unescape text in
    if c == b'\\' then onto_decoded (decode_escape x y z) rest else onto c plain_rest
unescape (c ∷ text) =
    let rest = unescape text in
    if c == b'\\' then err (plain "truncated mountinfo escape") else onto c rest

-- The number that a text of decimal digits continues.
unfoldable pub digits_value : ℕ → Bytes → Option ℕ
digits_value n [] = some n
digits_value n (c ∷ text) =
    let rest = digits_value (n * 10 + (c - b'0')) text in
    if leb b'0' c && leb c b'9' then rest else none

-- The end of `strconv.ParseUint(text, 10, 32)`, for the value of the digits.
unfoldable pub in_uint32 : Option ℕ → Result ℕ
in_uint32 none = err (plain "invalid syntax")
in_uint32 (some n) = if ltb n (2 ^ 32) then ok n else err (plain "value out of range")

-- `strconv.ParseUint(text, 10, 32)`
unfoldable pub parse_uint32 : Bytes → Result ℕ
unfolding digits_value in_uint32
parse_uint32 [] = err (plain "invalid syntax")
parse_uint32 (c ∷ text) = in_uint32 (digits_value 0 (c ∷ text))

-- `strings.Cut(text, ":")`
unfoldable pub cut : Bytes → Option (Bytes × Bytes)
cut [] = none
cut (c ∷ text) =
    if c == b':'
    then some ([], text)
    else elim (cut text) [ none ↦ none | some (before, after) ↦ some (c ∷ before, after) ]

unfoldable pub parse_numbers : Option (Bytes × Bytes) → Result Device
unfolding parse_uint32
parse_numbers none = err (plain "invalid mount device")
parse_numbers (some (major_value, minor_value)) = do
  major ← on_error (wrap1 "invalid mount major") (parse_uint32 major_value)
  minor ← on_error (wrap1 "invalid mount minor") (parse_uint32 minor_value)
  ok (record { major = major; minor = minor })

-- `parseMountDevice`
unfoldable pub parse_device : Bytes → Result Device
unfolding cut parse_numbers
parse_device value = parse_numbers (cut value)

abbrev pub non_empty : List Bytes → List Bytes
non_empty [] = []
non_empty ([] ∷ words) = non_empty words
non_empty ((c ∷ word) ∷ words) = (c ∷ word) ∷ non_empty words

-- `strings.Fields`
unfoldable pub fields : Bytes → List Bytes
unfolding split_by is_space
fields line = non_empty (split_by is_space line)

-- The index of the first field `-`.
unfoldable pub separator : List Bytes → Option ℕ
separator [] = none
separator (field ∷ rest) =
    if equal field (codes "-")
    then some 0
    else elim (separator rest) [ none ↦ none | some n ↦ some (suc n) ]

-- A field at an index within bounds.
abbrev pub field_at : List Bytes → ℕ → Bytes
field_at [] n = []
field_at (field ∷ rest) zero = field
field_at (field ∷ rest) (suc n) = field_at rest n

abbrev pub invalid_record : GoError
invalid_record = plain "invalid mountinfo record"

-- `parseMountInfoLine` with the separator at this index.
unfoldable pub parse_fields : List Bytes → ℕ → Result Mount
unfolding parse_device unescape
parse_fields words n = if ltb n 6 || ltb (length words) (n + 4) then err invalid_record else (do
  device ← parse_device (field_at words 2)
  point ← unescape (field_at words 4)
  source ← unescape (field_at words (n + 2))
  ok (record {
    device = device;
    point = text_of (clean point);
    filesystem = field_at words (n + 1);
    source = source;
    super_options = field_at words (n + 3);
  }))

unfoldable pub parse_at : List Bytes → Option ℕ → Result Mount
unfolding parse_fields
parse_at words none = err invalid_record
parse_at words (some n) = parse_fields words n

-- `parseMountInfoLine` behind `strings.Fields`
unfoldable pub parse_words : List Bytes → Result Mount
unfolding separator parse_at
parse_words words = parse_at words (separator words)

-- `parseMountInfoLine`
unfoldable pub parse_line : Bytes → Result Mount
unfolding fields parse_words
parse_line line = parse_words (fields line)
