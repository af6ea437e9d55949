-- ===== src/Filesystem/Layout/Dotted.antt =====
-- The names of internal/backend/fs: that of a credential is never one of a temporary file.
use Prim.Native.Char.{code}
use common_keyring.Base.{
  ℕ, ◌/◌, ◌%◌, String, ◌++◌, codes, ◌<>◌, Bool, true, false, List, [], ◌∷◌, ◌==◌, nat_eq, ltb, ◌≡◌,
  refl, ap, ◌∙◌, Bool-cases, inl, inr,
}
use common_keyring.Contract.{Bytes}
use common_keyring.Filesystem.Layout.{digits, digit_of, hex_digit, hex, identifier}
use text.Mathlib.TextLemmas.{nil-append, cons-append}

-- A name that starts with a dot, as that of a temporary file.
abbrev pub is_dotted : String → Bool
is_dotted String.[] = false
is_dotted (String.◌∷◌ c s) = code c == b'.'

append-undotted :
    (a b : String) → is_dotted a ≡ false → is_dotted b ≡ false → is_dotted (a <> b) ≡ false
append-undotted String.[] b h k = ap is_dotted (nil-append b) ∙ k
append-undotted (String.◌∷◌ c s) b h k = ap is_dotted (cons-append c s b) ∙ h

abbrev AllUndotted : List String → Type 0
AllUndotted [] = Unit
AllUndotted (d ∷ ds) = (is_dotted d ≡ false) × AllUndotted ds

digit_of-undotted : (n : ℕ) (ds : List String) → AllUndotted ds → is_dotted (digit_of n ds) ≡ false
unfolding digit_of
digit_of-undotted n [] h = refl
digit_of-undotted n (d ∷ ds) (p, h) = elim (Bool-cases (ltb 0 n)) [
  | inl e ↦ rw e (digit_of-undotted (Prim.Native.Nat.pred n) ds h)
  | inr e ↦ rw e p
]

hex_digit-undotted : (n : ℕ) → is_dotted (hex_digit n) ≡ false
unfolding hex_digit
hex_digit-undotted n = digit_of-undotted n digits (
  refl,
  (
    refl,
    (
      refl,
      (
        refl,
        (
          refl,
          (
            refl,
            (refl, (refl, (refl, (refl, (refl, (refl, (refl, (refl, (refl, (refl, tt)))))))))),
          ),
        ),
      ),
    ),
  ),
)

hex-undotted : (bs : Bytes) → is_dotted (hex bs) ≡ false
unfolding hex
hex-undotted [] = refl
hex-undotted (b ∷ bs) =
    append-undotted (hex_digit (b / 16)) _ (hex_digit-undotted (b / 16))
      (append-undotted (hex_digit (b % 16)) _ (hex_digit-undotted (b % 16)) (hex-undotted bs))

pub identifier-undotted :
    (sha256 : Bytes → Bytes) (domain : Bytes) (value : String)
    → is_dotted (identifier sha256 domain value) ≡ false
unfolding identifier
identifier-undotted sha256 domain value = hex-undotted (sha256 (domain ++ codes value))

pub temporary-dotted : (rest : String) → is_dotted (".tmp-" <> rest) ≡ true
temporary-dotted rest = ap is_dotted (cons-append _ "tmp-" rest)
