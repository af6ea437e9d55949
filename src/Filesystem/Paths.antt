-- ===== src/Filesystem/Paths.antt =====
-- The functions of path/filepath that internal/backend/fs/mount_linux.go calls, on Unix paths.
pub mod Parts
use mathlib.Core.List.{foldl, reverse}
use common_keyring.Base.{
  ℕ, Bool, true, false, not, ◌&&◌, ◌||◌, Option, none, some, List, [], ◌∷◌, ◌++◌, ◌==◌, nat_eq,
  if◌then◌else◌,
}
use common_keyring.Base.Bytes.{equal, has_prefix}
use common_keyring.Contract.{Bytes}

-- A byte is put before the first of some words.
abbrev pub onto_first : ℕ → List Bytes → List Bytes
onto_first c [] = (c ∷ []) ∷ []
onto_first c (word ∷ words) = (c ∷ word) ∷ words

-- The words between the bytes that satisfy a test.
unfoldable pub split_by : (ℕ → Bool) → Bytes → List Bytes
split_by test [] = [] ∷ []
split_by test (c ∷ text) =
    let words = split_by test text in if test c then [] ∷ words else onto_first c words

abbrev pub slash : ℕ
slash = b'/'

abbrev pub dot : Bytes
dot = b'.' ∷ []

abbrev pub dot_dot : Bytes
dot_dot = b'.' ∷ b'.' ∷ []

-- A cleaned path, by the names of its parts; the innermost name stands first.
pub record FilePath : Type 0 where
  pub rooted : Bool
  pub inner : List Bytes

-- A name `..` after these parts.
unfoldable pub go_up : Bool → List Bytes → List Bytes
go_up rooted [] = if rooted then [] else dot_dot ∷ []
go_up rooted (name ∷ inner) = if equal name dot_dot then dot_dot ∷ name ∷ inner else inner

-- A name after these parts.
unfoldable pub add_part : Bool → List Bytes → Bytes → List Bytes
unfolding go_up
add_part rooted inner name =
    if equal name [] || equal name dot
    then inner
    else if equal name dot_dot
    then go_up rooted inner
    else name ∷ inner

abbrev pub is_rooted : Bytes → Bool
is_rooted [] = false
is_rooted (c ∷ path) = c == slash

-- `filepath.Clean`, up to the writing of the result
unfoldable pub clean : Bytes → FilePath
unfolding split_by add_part
clean path = record {
  rooted = is_rooted path;
  inner = foldl (add_part (is_rooted path)) [] (split_by (λ c. c == slash) path);
}

abbrev pub parts : FilePath → List Bytes
parts p = reverse p.inner

unfoldable pub join : List Bytes → Bytes
join [] = []
join (name ∷ []) = name
join (name ∷ next ∷ names) = name ++ slash ∷ join (next ∷ names)

-- The text of a cleaned path.
unfoldable pub written : Bool → List Bytes → Bytes
unfolding join
written true names = slash ∷ join names
written false [] = dot
written false (name ∷ names) = join (name ∷ names)

abbrev pub text_of : FilePath → Bytes
text_of p = written p.rooted (parts p)

-- The two rests behind the common parts.
unfoldable pub strip : List Bytes → List Bytes → List Bytes × List Bytes
strip (b ∷ base) (t ∷ target) =
    let rest = strip base target in if equal b t then rest else (b ∷ base, t ∷ target)
strip [] target = ([], target)
strip (b ∷ base) [] = (b ∷ base, [])

abbrev pub ups : List Bytes → List Bytes
ups [] = []
ups (b ∷ base) = dot_dot ∷ ups base

-- `filepath.Rel` of the two rests.
unfoldable pub between : List Bytes → List Bytes → Option Bytes
unfolding join
between [] [] = some dot
between [] (t ∷ target) = some (join (t ∷ target))
between (b ∷ base) target = if equal b dot_dot then none else some (join (ups (b ∷ base) ++ target))

-- Only one of the two paths being rooted is an error.
abbrev pub if_same_root : Bool → Bool → Option Bytes → Option Bytes
if_same_root true true path = path
if_same_root false false path = path
if_same_root _ _ path = none

unfoldable pub relative_parts : FilePath → FilePath → Option Bytes
unfolding strip between
relative_parts base target =
    let rests = strip (parts base) (parts target) in
    if_same_root base.rooted target.rooted (between rests.0 rests.1)

-- `filepath.Rel(base, target)`
unfoldable pub relative : Bytes → Bytes → Option Bytes
unfolding clean relative_parts
relative base target = relative_parts (clean base) (clean target)
