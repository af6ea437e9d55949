-- ===== src/Filesystem/Mounts/Words.antt =====
-- `strings.Fields`, as internal/backend/fs/mount_linux.go calls it, on words with spaces between them.
use common_keyring.Base.{false, List, [], ◌∷◌, ◌++◌, nat_eq, codes, ◌≡◌, refl, ap, ◌∙◌}
use common_keyring.Base.Bytes.{IsSolid, is_space, equal}
use common_keyring.Contract.{Bytes}
use common_keyring.Filesystem.Paths.{split_by}
use common_keyring.Filesystem.Mounts.{fields, non_empty}

abbrev pub spaced : List Bytes → Bytes
spaced [] = []
spaced (word ∷ []) = word
spaced (word ∷ next ∷ words) = word ++ b' ' ∷ spaced (next ∷ words)

abbrev pub IsWord : Bytes → Type 0
IsWord [] = ⊥
IsWord (c ∷ text) = IsSolid (c ∷ text)

abbrev pub AllWords : List Bytes → Type 0
AllWords [] = Unit
AllWords (word ∷ words) = IsWord word × AllWords words

abbrev pub AllOther : List Bytes → Type 0
AllOther [] = Unit
AllOther (word ∷ words) = (equal word (codes "-") ≡ false) × AllOther words

split_by-solid : (word : Bytes) → IsSolid word → split_by is_space word ≡ word ∷ []
unfolding split_by
split_by-solid [] h = refl
split_by-solid (c ∷ word) (s, h) = rw (s, split_by-solid word h) refl

split_by-spaced :
    (word rest : Bytes)
    → IsSolid word
    → split_by is_space (word ++ b' ' ∷ rest) ≡ word ∷ split_by is_space rest
unfolding split_by is_space
split_by-spaced [] rest h = refl
split_by-spaced (c ∷ word) rest (s, h) = rw (s, split_by-spaced word rest h) refl

IsWord-IsSolid : (word : Bytes) → IsWord word → IsSolid word
IsWord-IsSolid [] h = tt
IsWord-IsSolid (c ∷ word) h = h

non_empty-word :
    (word : Bytes) (words : List Bytes)
    → IsWord word
    → non_empty (word ∷ words) ≡ word ∷ non_empty words
non_empty-word [] words h = absurd h
non_empty-word (c ∷ word) words h = refl

-- `strings.Fields` of words with a space between them.
pub fields-spaced : (words : List Bytes) → AllWords words → fields (spaced words) ≡ words
unfolding fields
fields-spaced [] h = refl
fields-spaced (word ∷ []) (h, _) =
    ap non_empty (split_by-solid word (IsWord-IsSolid word h)) ∙ non_empty-word word [] h
fields-spaced (word ∷ next ∷ words) (h, k) =
    ap non_empty (split_by-spaced word _ (IsWord-IsSolid word h))
    ∙ non_empty-word word _ h
    ∙ ap (λ ws. word ∷ ws) (fields-spaced (next ∷ words) k)
