-- ===== src/Filesystem/Paths/Parts.antt =====
-- The parts of a cleaned path.
use mathlib.Core.List.{foldl, reverse, reverse-cons}
use common_keyring.Base.{
  ℕ, true, false, ◌||◌, List, [], ◌∷◌, ◌++◌, ◌==◌, nat_eq, ◌≡◌, Bool-cases, inl, inr,
}
use common_keyring.Base.Bytes.{equal}
use common_keyring.Contract.{Bytes}
use common_keyring.Filesystem.Paths.{
  split_by, onto_first, slash, dot, dot_dot, go_up, add_part, clean, is_rooted, parts,
}

-- No byte is a slash.
abbrev pub IsFlat : Bytes → Type 0
IsFlat [] = Unit
IsFlat (c ∷ text) = ((c == slash) ≡ false) × IsFlat text

-- A name that is neither empty nor of another meaning, without a slash.
abbrev pub IsName : Bytes → Type 0
IsName name = IsFlat name × (equal name dot_dot ≡ false)

abbrev pub AllFlat : List Bytes → Type 0
AllFlat [] = Unit
AllFlat (name ∷ names) = IsFlat name × AllFlat names

abbrev pub AllNames : List Bytes → Type 0
AllNames [] = Unit
AllNames (name ∷ names) = IsName name × AllNames names

onto_first-AllFlat :
    (c : ℕ) (words : List Bytes)
    → (c == slash) ≡ false
    → AllFlat words
    → AllFlat (onto_first c words)
onto_first-AllFlat c [] h k = ((h, tt), tt)
onto_first-AllFlat c (word ∷ words) h (f, k) = ((h, f), k)

split_by-AllFlat : (path : Bytes) → AllFlat (split_by (λ c. c == slash) path)
unfolding split_by
split_by-AllFlat [] = (tt, tt)
split_by-AllFlat (c ∷ path) = elim (Bool-cases (c == slash)) [
  | inl s ↦ rw s (tt, split_by-AllFlat path)
  | inr f ↦ rw f (onto_first-AllFlat c _ f (split_by-AllFlat path))
]

go_up-AllNames : (inner : List Bytes) → AllNames inner → AllNames (go_up true inner)
unfolding go_up
go_up-AllNames [] h = tt
go_up-AllNames (name ∷ inner) ((f, d), h) = rw d h

add_part-AllNames :
    (inner : List Bytes) (name : Bytes)
    → IsFlat name
    → AllNames inner
    → AllNames (add_part true inner name)
unfolding add_part
add_part-AllNames inner name f h = elim (Bool-cases (equal name [] || equal name dot)) [
  | inl e ↦ rw e h
  | inr e ↦ elim (Bool-cases (equal name dot_dot)) [
    | inl d ↦ rw (e, d) (go_up-AllNames inner h)
    | inr d ↦ rw (e, d) ((f, d), h)
  ]
]

foldl-AllNames :
    (names inner : List Bytes)
    → AllFlat names
    → AllNames inner
    → AllNames (foldl (add_part true) inner names)
foldl-AllNames [] inner f h = h
foldl-AllNames (name ∷ names) inner (f, fs) h =
    foldl-AllNames names (add_part true inner name) fs (add_part-AllNames inner name f h)

AllNames-append : (xs ys : List Bytes) → AllNames xs → AllNames ys → AllNames (xs ++ ys)
AllNames-append [] ys h k = k
AllNames-append (x ∷ xs) ys (n, h) k = (n, AllNames-append xs ys h k)

reverse-AllNames : (names : List Bytes) → AllNames names → AllNames (reverse names)
reverse-AllNames [] h = tt
reverse-AllNames (name ∷ names) (n, h) =
    rw (reverse-cons name names)
      (AllNames-append (reverse names) (name ∷ []) (reverse-AllNames names h) (n, tt))

-- The parts of a rooted path are names without slashes, none of them `..`.
pub clean-AllNames : (path : Bytes) → is_rooted path ≡ true → AllNames (parts (clean path))
unfolding clean
clean-AllNames path r =
    reverse-AllNames (clean path).inner (rw r (foldl-AllNames _ [] (split_by-AllFlat path) tt))

pub rooted-clean : (path : Bytes) → is_rooted path ≡ true → (clean path).rooted ≡ true
unfolding clean
rooted-clean path h = h
