-- ===== src/Filesystem/Mounts/Within.antt =====
-- `pathWithinMount` of internal/backend/fs/mount_linux.go, by the parts of the two paths.
use mathlib.Core.Path.{ap₂}
use common_keyring.Base.{
  Bool, true, false, some, List, [], ◌∷◌, ◌++◌, nat_eq, if◌then◌else◌, ◌≡◌, refl, arith, Bool-cases,
  inl, inr, ◌∙◌,
}
use common_keyring.Base.Bytes.{equal, has_prefix}
use common_keyring.Contract.{Bytes}
use common_keyring.Filesystem.Paths.{
  slash, dot_dot, join, ups, strip, between, parts, relative, relative_parts, if_same_root, clean,
  is_rooted,
}
use common_keyring.Filesystem.Paths.Parts.{IsName, AllNames, clean-AllNames, rooted-clean}
use common_keyring.Filesystem.Mounts.Validation.{stays_within, path_within_mount}

-- The names of the one path begin those of the other.
unfoldable pub begins : List Bytes → List Bytes → Bool
begins [] target = true
begins (b ∷ base) [] = false
begins (b ∷ base) (t ∷ target) = let rest = begins base target in if equal b t then rest else false

stays_within-name :
    (name rest : Bytes) → IsName name → stays_within (some (name ++ slash ∷ rest)) ≡ true
unfolding stays_within equal has_prefix
stays_within-name [] rest (f, d) = refl
stays_within-name (a ∷ []) rest (f, d) = ground arith
stays_within-name (a ∷ b ∷ []) rest (f, d) = ground arith
stays_within-name (a ∷ b ∷ c ∷ name) rest (f, d) = ground arith

stays_within-last : (name : Bytes) → IsName name → stays_within (some name) ≡ true
unfolding stays_within equal has_prefix
stays_within-last [] (f, d) = refl
stays_within-last (a ∷ []) (f, d) = ground arith
stays_within-last (a ∷ b ∷ []) (f, d) = ground arith
stays_within-last (a ∷ b ∷ c ∷ name) (f, d) = ground arith

stays_within-join :
    (name : Bytes) (names : List Bytes)
    → IsName name
    → stays_within (some (join (name ∷ names))) ≡ true
unfolding join
stays_within-join name [] h = stays_within-last name h
stays_within-join name (next ∷ names) h = stays_within-name name _ h

climbs : (names : List Bytes) → stays_within (some (join (dot_dot ∷ names))) ≡ false
unfolding join stays_within equal has_prefix
climbs [] = refl
climbs (name ∷ names) = refl

stays_within-between :
    (b : Bytes) (base target : List Bytes) → stays_within (between (b ∷ base) target) ≡ false
unfolding between
stays_within-between b base target = elim (Bool-cases (equal b dot_dot)) [
  | inl e ↦ rw e (unfold stays_within in refl)
  | inr e ↦ rw e (climbs (ups base ++ target))
]

stays_within-strip :
    (base target : List Bytes)
    → AllNames target
    → stays_within (between (strip base target).0 (strip base target).1) ≡ begins base target
unfolding strip begins
stays_within-strip [] [] h = unfold between stays_within equal has_prefix in refl
stays_within-strip [] (t ∷ target) (n, h) = unfold between in stays_within-join t target n
stays_within-strip (b ∷ base) [] h = stays_within-between b base []
stays_within-strip (b ∷ base) (t ∷ target) (n, h) = elim (Bool-cases (equal b t)) [
  | inl e ↦ rw e (stays_within-strip base target h)
  | inr e ↦ rw e (stays_within-between b base (t ∷ target))
]

-- An absolute path lies within an absolute mount point exactly if the parts of the cleaned mount
-- point begin those of the cleaned path.
pub path_within_mount-begins :
    (path mount_point : Bytes)
    → is_rooted path ≡ true
    → is_rooted mount_point ≡ true
    → path_within_mount path mount_point ≡ begins (parts (clean mount_point)) (parts (clean path))
unfolding path_within_mount relative relative_parts
path_within_mount-begins path mount_point h k =
    let base = parts (clean mount_point) in
    let target = parts (clean path) in
    let between_rests = between (strip base target).0 (strip base target).1 in
    ap₂ (λ a b. stays_within (if_same_root a b between_rests)) (rooted-clean mount_point k)
      (rooted-clean path h)
    ∙ stays_within-strip base target (clean-AllNames path h)
