-- ===== src/Tests/Disk/Lawful.antt =====
-- A storage on the disk in memory, and the documented behaviour of its system.
use mathlib.Core.Path.{subst}
use common_keyring.Base.{
  String, ◌<◌, arith, take, ℕ, Option, none, some, [], ◌∷◌, ◌≡◌, refl, ◌∙◌, ap, inl, inr, string_eq,
}
use common_keyring.Errors.{leaf, fs_not_exist, is, err, Action}
use common_keyring.Contract.{Bytes}
use common_keyring.Filesystem.System.{Stat}
use common_keyring.Filesystem.Storage.{Storage, check_status}
use common_keyring.Filesystem.Posix.{Place, Files, Posix}
use common_keyring.Filesystem.Posix.Working.{Completes, Working}
use common_keyring.Tests.Disk.{
  Slot, Disk, slot, create_new, open_found, disk_over, disk, on_disk, part, move,
}
use common_keyring.Tests.Disk.Laws.{
  same-Calm, opened-Calm, open_inner-Calm, open_in-Calm, new-slot, open_found-reader,
  open_in-reader, create_new-writer, create_new-held, create_in-inside, write_to-writer,
  write_to-inside, write_to-file, put-off, read_of-held, read_of-reader, move-done, move-held,
  rename_in-failed, rename_in-slots, drop_found-done, drop_found-held, unlink_in-failed,
}

abbrev pub storage : Storage Disk
storage = record {
  root_path = "/secrets";
  service_id = "s";
  effective_uid = 1000;
  system = disk;
  sha256 = λ contents. contents;
  read_rounds = 4;
}

pub disk_over-Files :
    (validate : String → Action Disk (Unit {0}))
    (prepare : String → String → ℕ → Action Disk (Unit {0}))
    (open_root : String → ℕ → Action Disk ℕ) (open_inside : ℕ → String → ℕ → Action Disk ℕ)
    (status : ℕ → Disk → Stat)
    → Files (disk_over validate prepare open_root open_inside status) on_disk
disk_over-Files validate prepare open_root open_inside status = record {
  open_read_calm = λ d name w. open_in-Calm (slot w.slots d) name w;
  fstat_calm = λ f w. same-Calm w;
  fchmod_calm = λ f mode w. same-Calm w;
  fsync_calm = λ f w. same-Calm w;
  random_calm = λ n w. same-Calm w;
  opened_file = λ d f name w w' h. open_in-reader (slot w.slots d) name w w' f h;
  opened_regular = λ d f name place found w w1 w2 on h k regular.
      let (b, e, x) = open_found-reader _ w w1 f (rw on at h) in
      (b, e, subst (λ u. slot u.slots f ≡ Slot.reader b) (ap (λ p. p.1) k) x);
  read_part = λ f b chunk w w' e h. read_of-reader b chunk f w w' e (rw e at h);
  read_held = λ f w q. read_of-held (slot w.slots f) f w q;
  created = λ d f name place w w' on h.
      let (x, y) = create_new-writer _ (w.tree (name ∷ place)) w w' f (rw on at h) in
      (rw x refl, (x, y));
  create_held = λ d name place w on q n. rw on (create_new-held _ (w.tree (name ∷ place)) w q n);
  create_inside = λ d name w c p h. create_in-inside (slot w.slots d) name w c p h;
  written =
      λ f n q b c w w' filling h. write_to-writer q b c f n w w' filling.0 (rw filling.0 at h);
  write_held = λ f q b c w filling r n. rw filling.0 (put-off q r _ w.tree n);
  write_inside = λ f c w d p h. write_to-inside (slot w.slots f) f c w d p refl h;
  write_file = λ f c w h. write_to-file (slot w.slots f) f c w refl h;
  filled = λ f q b w h. h.1;
  close_held = λ f w q. refl;
  close_file = λ f w h d p k. k;
  close_directory = λ f d p q w h k n. k;
  renamed = λ d from to place w w' on h.
      move-done (from ∷ place) (to ∷ place) (w.tree (from ∷ place)) w w' refl (rw on at h);
  rename_held = λ d from to place w on q n. rw on (
      move-held (from ∷ place) (to ∷ place) (w.tree (from ∷ place)) w q (λ e. n (inl e))
        (λ e. n (inr e)));
  rename_failed =
      λ d from to e w w' h q. rename_in-failed (slot w.slots d) (slot w.slots d) from to e w w' h q;
  rename_inside = λ d from to w c p h.
      ap (λ ts. slot ts c) (rename_in-slots (slot w.slots d) (slot w.slots d) from to w) ∙ h;
  unlinked = λ d name place w w' on h.
      drop_found-done (name ∷ place) (w.tree (name ∷ place)) w w' (rw on at h);
  unlink_held =
      λ d name place w on q n. rw on (drop_found-held (name ∷ place) (w.tree (name ∷ place)) w q n);
  unlink_failed = λ d name e w w' h q. unlink_in-failed (slot w.slots d) name e w w' h q;
}

pub storage-Posix : Posix storage on_disk
storage-Posix = record {
  files = disk_over-Files _ _ _ _ _;
  validate_mount_calm = λ path w. same-Calm w;
  prepare_calm = λ path id uid w. same-Calm w;
  open_directory_calm = λ path uid w. opened-Calm w _;
  open_directory_at_calm = λ p name uid w. open_inner-Calm (slot w.slots p) name w;
  opened_root = λ d w w' h. new-slot w w' _ d h;
  opened_at = λ p d name place w w' on h. new-slot w w' _ d (rw on at h);
}

part-positive : (c : ℕ) (contents : Bytes) → 0 < part (c ∷ contents)
part-positive c [] = omega arith
part-positive c (d ∷ contents) = omega arith

open_found-Completes :
    (b : Bytes) (o : Option Bytes) (w : Disk) → o ≡ some b → Completes (open_found o w).0
open_found-Completes b (some c) w h = (_, refl)
open_found-Completes b none w h = cc

open_found-missing :
    (o : Option Bytes) (w : Disk) → o ≡ none → (open_found o w).0 ≡ err (leaf fs_not_exist)
open_found-missing none w h = refl
open_found-missing (some b) w h = cc

create_new-Completes :
    (q : Place) (o : Option Bytes) (w : Disk) → o ≡ none → Completes (create_new q o w).0
create_new-Completes q none w h = (_, refl)
create_new-Completes q (some b) w h = cc

move-Completes :
    (p q : Place) (b : Bytes) (o : Option Bytes) (w : Disk)
    → o ≡ some b
    → Completes (move p q o w).0
move-Completes p q b (some c) w h = (tt, refl)
move-Completes p q b none w h = cc

pub storage-Working : Working storage on_disk
unfolding is check_status
storage-Working = record {
  mount_accepted = λ w. (tt, refl);
  prepared = λ w. (tt, refl);
  root_opens = λ w. (_, refl);
  directory_opens = λ p name place w on. rw on (_, refl);
  file_opens = λ d name place b w on holds. rw on (open_found-Completes b _ w holds);
  file_missing =
      λ d name place w on holds. (leaf fs_not_exist, rw on (open_found-missing _ w holds), refl);
  file_private = λ d f name w w1 h. (_, refl, refl);
  file_created = λ d name place w on holds. rw on (create_new-Completes _ _ w holds);
  mode_changed = λ f mode w h. (tt, refl);
  written_some = λ f c q b contents w filling.
      (part (c ∷ contents), part-positive c contents, rw filling.0 refl);
  read_some = λ f b w reading. (take 2 b, rw reading refl);
  flushed = λ f w. (tt, refl);
  closes = λ f w. (tt, refl);
  renames = λ d from to place b w on holds. rw on (move-Completes _ _ b _ w holds);
  random_given = λ n w. (_, refl);
}
