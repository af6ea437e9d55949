-- ===== src/Filesystem/Mounts/Escapes.antt =====
-- `unescapeMountField` of internal/backend/fs/mount_linux.go and the kernel's escapes.
use common_keyring.Base.{
  ℕ, false, [], ◌∷◌, ◌++◌, ◌==◌, nat_eq, codes, if◌then◌else◌, ◌≡◌, refl, ◌∙◌, ap, arith,
}
use common_keyring.Base.Bytes.{equal}
use common_keyring.Errors.{ok}
use common_keyring.Contract.{Bytes}
use common_keyring.Filesystem.Mounts.{unescape, onto, decode_escape}

-- How the kernel writes a byte of a mount point: white space and the backslash as three octal
-- digits behind a backslash.
abbrev pub escape_byte : ℕ → Bytes
escape_byte c =
    if c == b'\t'
    then codes "\\011"
    else if c == b'\n'
    then codes "\\012"
    else if c == b' '
    then codes "\\040"
    else if c == b'\\'
    then codes "\\134"
    else c ∷ []

abbrev pub escape : Bytes → Bytes
escape [] = []
escape (c ∷ text) = escape_byte c ++ escape text

unescape-plain :
    (c : ℕ) (text : Bytes) → (c == b'\\') ≡ false → unescape (c ∷ text) ≡ onto c (unescape text)
unfolding unescape
unescape-plain c [] h = rw h refl
unescape-plain c (x ∷ []) h = rw h refl
unescape-plain c (x ∷ y ∷ []) h = rw h refl
unescape-plain c (x ∷ y ∷ z ∷ text) h = rw h refl

unescape-escape_byte :
    (c : ℕ) (text : Bytes) → unescape (escape_byte c ++ text) ≡ onto c (unescape text)
unfolding unescape decode_escape equal
unescape-escape_byte c text = ground (arith, unescape-plain c text)

-- Decoding a mount point that the kernel escaped gives the mount point back, whatever its bytes.
pub unescape-escape : (text : Bytes) → unescape (escape text) ≡ ok text
unfolding unescape
unescape-escape [] = refl
unescape-escape (c ∷ text) =
    unescape-escape_byte c (escape text) ∙ ap (onto c) (unescape-escape text)
