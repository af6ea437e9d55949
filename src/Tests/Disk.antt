-- ===== src/Tests/Disk.antt =====
-- A disk in memory: a tree of files with descriptors that are never used again.
pub mod Laws
pub mod Lawful
pub mod Mounted
use common_keyring.Base.{
  ℕ, zero, suc, String, Bool, true, false, ◌||◌, Option, none, some, List, [], ◌∷◌, ◌++◌, ◌==◌,
  string_eq, length, take, drop, if◌then◌else◌, ◌≡◌, refl, sym, ◌∙◌, ap, pair-eq, ◌⊎◌, inl, inr,
  Bool-cases, eq_iff,
}
use common_keyring.Errors.{
  GoError, leaf, plain, fs_exist, fs_not_exist, Result, Fallible, ok, err, Action, ok-eq,
}
use common_keyring.Contract.{Bytes}
use common_keyring.Filesystem.System.{
  System, Stat, Flag, o_rdonly, o_wronly, o_creat, o_excl, o_cloexec, o_nofollow, o_nonblock,
}
use common_keyring.Filesystem.Posix.{Place, View, Calm}

pub data Slot : Type 0 where
  closed : Slot
  directory : Place → Slot
  writer : Place → Bytes → Slot
  reader : Bytes → Slot

pub record Disk : Type 0 where
  pub tree : Place → Option Bytes
  pub slots : List Slot

abbrev pub slot : List Slot → ℕ → Slot
slot [] n = closed
slot (t ∷ ts) zero = t
slot (t ∷ ts) (suc n) = slot ts n

abbrev pub with_slot : List Slot → ℕ → Slot → List Slot
with_slot [] n x = []
with_slot (t ∷ ts) zero x = x ∷ ts
with_slot (t ∷ ts) (suc n) x = t ∷ with_slot ts n x

abbrev pub same_place : Place → Place → Bool
same_place [] [] = true
same_place [] (b ∷ q) = false
same_place (a ∷ p) [] = false
same_place (a ∷ p) (b ∷ q) = if a == b then same_place p q else false

abbrev pub put : Place → Option Bytes → (Place → Option Bytes) → Place → Option Bytes
put p b tree q = if same_place q p then b else tree q

abbrev pub opened : Disk → Slot → Disk
opened w x = record { tree = w.tree; slots = w.slots ++ x ∷ [] }

abbrev pub changed : Disk → Place → Option Bytes → Disk
changed w p b = record { tree = put p b w.tree; slots = w.slots }

abbrev pub bad_descriptor : GoError
bad_descriptor = plain "bad file descriptor"

abbrev pub open_inner : Slot → String → Action Disk ℕ
open_inner (directory place) name w = (ok (length w.slots), opened w (directory (name ∷ place)))
open_inner _ name w = (err bad_descriptor, w)

abbrev pub create_new : Place → Option Bytes → Action Disk ℕ
create_new q none w = (ok (length w.slots), changed (opened w (writer q [])) q (some []))
create_new q (some b) w = (err (leaf fs_exist), w)

abbrev pub create_in : Slot → String → Action Disk ℕ
create_in (directory place) name w = create_new (name ∷ place) (w.tree (name ∷ place)) w
create_in _ name w = (err bad_descriptor, w)

abbrev pub open_found : Option Bytes → Action Disk ℕ
open_found none w = (err (leaf fs_not_exist), w)
open_found (some b) w = (ok (length w.slots), opened w (reader b))

abbrev pub open_in : Slot → String → Action Disk ℕ
open_in (directory place) name w = open_found (w.tree (name ∷ place)) w
open_in _ name w = (err bad_descriptor, w)

abbrev pub creates : List Flag → Bool
creates [] = false
creates (o_creat ∷ fs) = true
creates (_ ∷ fs) = creates fs

-- At most two bytes are written at once.
abbrev pub part : Bytes → ℕ
part [] = 0
part (a ∷ []) = 1
part (a ∷ b ∷ bs) = 2

abbrev pub write_to : Slot → ℕ → Bytes → Disk → (ℕ × Option GoError) × Disk
write_to (writer q b) f c w =
    let b' = b ++ take (part c) c in
    (
      (part c, none),
      record { tree = put q (some b') w.tree; slots = with_slot w.slots f (writer q b') },
    )
write_to _ f c w = ((0, some bad_descriptor), w)

abbrev pub read_of : Slot → ℕ → Disk → (Bytes × Option GoError) × Disk
read_of (reader b) f w =
    ((take 2 b, none), record { tree = w.tree; slots = with_slot w.slots f (reader (drop 2 b)) })
read_of _ f w = (([], some bad_descriptor), w)

abbrev pub move : Place → Place → Option Bytes → Action Disk (Unit {0})
move p q none w = (err (leaf fs_not_exist), w)
move p q (some b) w = (ok tt, changed (changed w p none) q (some b))

abbrev pub rename_in : Slot → String → Slot → String → Action Disk (Unit {0})
rename_in (directory p) from (directory q) to w = move (from ∷ p) (to ∷ q) (w.tree (from ∷ p)) w
rename_in _ from _ to w = (err bad_descriptor, w)

abbrev pub drop_found : Place → Option Bytes → Action Disk (Unit {0})
drop_found p none w = (err (leaf fs_not_exist), w)
drop_found p (some b) w = (ok tt, changed w p none)

abbrev pub unlink_in : Slot → String → Action Disk (Unit {0})
unlink_in (directory p) name w = drop_found (name ∷ p) (w.tree (name ∷ p)) w
unlink_in _ name w = (err bad_descriptor, w)

-- The disk under any handling of directories, with any status of its descriptors.
module _ (validate : String → Action Disk (Unit {0}))
    (prepare : String → String → ℕ → Action Disk (Unit {0}))
    (open_root : String → ℕ → Action Disk ℕ) (open_inside : ℕ → String → ℕ → Action Disk ℕ)
    (status : ℕ → Disk → Stat) where
  abbrev pub disk_over : System Disk
  disk_over = record {
    validate_mount = validate;
    prepare_directories = prepare;
    open_directory = open_root;
    open_directory_at = open_inside;
    open_file_at = λ d name flags _ w.
        if creates flags
        then create_in (slot w.slots d) name w
        else open_in (slot w.slots d) name w;
    fstat = λ d w. (ok (status d w), w);
    fchmod = λ _ _ w. (ok tt, w);
    read = λ f w. read_of (slot w.slots f) f w;
    write = λ f c w. write_to (slot w.slots f) f c w;
    fsync = λ _ w. (ok tt, w);
    close = λ _ w. (ok tt, w);
    rename_at = λ d from e to w. rename_in (slot w.slots d) from (slot w.slots e) to w;
    unlink_at = λ d name w. unlink_in (slot w.slots d) name w;
    random = λ _ w. (ok (171 ∷ 205 ∷ []), w);
  }

abbrev pub disk : System Disk
disk =
    disk_over (λ _ w. (ok tt, w)) (λ _ _ _ w. (ok tt, w))
      (λ _ _ w. (ok (length w.slots), opened w (directory [])))
      (λ p name _ w. open_inner (slot w.slots p) name w)
      (λ _ _. record { mode = 0o100600; uid = 1000 })

abbrev pub is_file : Slot → Bool
is_file (writer q b) = true
is_file (reader b) = true
is_file _ = false

abbrev pub on_disk : View Disk
on_disk = record {
  holds = λ w. w.tree;
  inside = λ w d p. slot w.slots d ≡ directory p;
  file = λ w f. is_file (slot w.slots f) ≡ true;
  filling = λ w f q b. (slot w.slots f ≡ writer q b) × (w.tree q ≡ some b);
  reading = λ w f b. slot w.slots f ≡ reader b;
}
