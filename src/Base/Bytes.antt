-- ===== src/Base/Bytes.antt =====
-- Byte strings: the functions of bytes and strings that the program calls on ASCII text.
use Prim.Native.Nat.{ℕ, ◌+◌}
use mathlib.Core.Bool.{Bool, true, false, ◌&&◌, ◌||◌}
use mathlib.Core.Path.{◌≡◌}
use mathlib.Core.List.{List, [], ◌∷◌, ◌++◌, map, reverse}
use common_keyring.Base.Tests.{leb, nat_beq, if◌then◌else◌}

-- A letter of `strings.ToLower`
unfoldable pub to_lower : ℕ → ℕ
to_lower c = if leb b'A' c && leb c b'Z' then c + 32 else c

abbrev pub lower : List ℕ → List ℕ
lower = map to_lower

unfoldable pub is_space : ℕ → Bool
is_space c = (leb 9 c && leb c 13) || nat_beq c 32

unfoldable pub equal : List ℕ → List ℕ → Bool
equal [] [] = true
equal (a ∷ as') (b ∷ bs) = nat_beq a b && equal as' bs
equal _ _ = false

-- `strings.HasPrefix(text, prefix)`, the prefix first
unfoldable pub has_prefix : List ℕ → List ℕ → Bool
has_prefix [] text = true
has_prefix (p ∷ ps) [] = false
has_prefix (p ∷ ps) (c ∷ text) = nat_beq p c && has_prefix ps text

-- `strings.Contains(text, part)`, the part first
unfoldable pub contains : List ℕ → List ℕ → Bool
unfolding has_prefix
contains part [] = has_prefix part []
contains part (c ∷ text) = has_prefix part (c ∷ text) || contains part text

unfoldable pub trim_left : List ℕ → List ℕ
unfolding is_space
trim_left [] = []
trim_left (c ∷ text) = let rest = trim_left text in if is_space c then rest else c ∷ text

-- `bytes.TrimSpace`
unfoldable pub trim_space : List ℕ → List ℕ
unfolding trim_left
trim_space text = reverse (trim_left (reverse (trim_left text)))

-- No byte is white space.
abbrev pub IsSolid : List ℕ → Type 0
IsSolid [] = Unit
IsSolid (c ∷ text) = (is_space c ≡ false) × IsSolid text

pub IsSolid-append : (a b : List ℕ) → IsSolid a → IsSolid b → IsSolid (a ++ b)
IsSolid-append [] b h k = k
IsSolid-append (c ∷ a) b (s, h) k = (s, IsSolid-append a b h k)
