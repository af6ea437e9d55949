-- ===== src/Filesystem/Layout.antt =====
-- internal/backend/fs/layout.go: the hashed names of services and keys.
pub mod Dotted
use common_keyring.Base.{ℕ, ◌/◌, ◌%◌, String, ◌<>◌, List, [], ◌∷◌, ◌++◌, codes, ltb, if◌then◌else◌}
use common_keyring.Contract.{Bytes}

abbrev pub layout_version : String
layout_version = "v1"

-- The bytes of the prefixes, each with its final NUL.
abbrev pub service_domain : Bytes
service_domain = codes "service" ++ 0 ∷ []

abbrev pub key_domain : Bytes
key_domain = codes "key" ++ 0 ∷ []

-- A digit of `hex.EncodeToString`
unfoldable pub digit_of : ℕ → List String → String
digit_of n [] = ""
digit_of n (d ∷ ds) = if ltb 0 n then digit_of (Prim.Native.Nat.pred n) ds else d

abbrev pub digits : List String
digits =
    "0" ∷ "1" ∷ "2" ∷ "3" ∷ "4" ∷ "5" ∷ "6" ∷ "7" ∷ "8" ∷ "9" ∷ "a" ∷ "b" ∷ "c" ∷ "d" ∷ "e" ∷ "f"
    ∷ []

unfoldable pub hex_digit : ℕ → String
unfolding digit_of
hex_digit n = digit_of n digits

-- `hex.EncodeToString`
unfoldable pub hex : Bytes → String
unfolding hex_digit
hex [] = ""
hex (b ∷ bs) = hex_digit (b / 16) <> (hex_digit (b % 16) <> hex bs)

-- `identifier` over the digest `sha256.Sum256`
unfoldable pub identifier : (Bytes → Bytes) → Bytes → String → String
unfolding hex
identifier sha256 domain value = hex (sha256 (domain ++ codes value))
