-- ===== src/Tests/Disk/Laws.antt =====
-- The disk in memory behaves as documented.
use mathlib.Core.Path.{subst}
use common_keyring.Base.{
  ℕ, zero, suc, String, true, Option, none, some, List, [], ◌∷◌, ◌++◌, ◌==◌, string_eq, nat_eq,
  length, take, drop, ◌≡◌, refl, sym, ◌∙◌, ap, inl, inr, Bool-cases, eq_iff,
}
use common_keyring.Errors.{GoError, Result, ok, err, ok-eq}
use common_keyring.Contract.{Bytes}
use common_keyring.Filesystem.Posix.{Place, Calm}
use common_keyring.Tests.Disk.{
  Slot, closed, directory, writer, reader, Disk, slot, with_slot, same_place, put, opened,
  open_inner, create_new, create_in, open_found, open_in, write_to, read_of, move, rename_in,
  drop_found, unlink_in, is_file, on_disk,
}

slot-append :
    (ts : List Slot) (x : Slot) (d : ℕ)
    → (slot ts d ≡ closed → ⊥)
    → slot (ts ++ x ∷ []) d ≡ slot ts d
slot-append [] x d h = absurd (h refl)
slot-append (t ∷ ts) x zero h = refl
slot-append (t ∷ ts) x (suc d) h = slot-append ts x d h

slot-new : (ts : List Slot) (x : Slot) → slot (ts ++ x ∷ []) (length ts) ≡ x
slot-new [] x = refl
slot-new (t ∷ ts) x = slot-new ts x

slot-with :
    (ts : List Slot) (f : ℕ) (x : Slot) → (slot ts f ≡ closed → ⊥) → slot (with_slot ts f x) f ≡ x
slot-with [] f x h = absurd (h refl)
slot-with (t ∷ ts) zero x h = refl
slot-with (t ∷ ts) (suc f) x h = slot-with ts f x h

slot-others :
    (ts : List Slot) (f d : ℕ) (x : Slot)
    → (slot ts d ≡ slot ts f → ⊥)
    → slot (with_slot ts f x) d ≡ slot ts d
slot-others [] f d x h = refl
slot-others (t ∷ ts) zero zero x h = absurd (h refl)
slot-others (t ∷ ts) zero (suc d) x h = refl
slot-others (t ∷ ts) (suc f) zero x h = refl
slot-others (t ∷ ts) (suc f) (suc d) x h = slot-others ts f d x h

same_place-eq : (p q : Place) → same_place p q ≡ true → p ≡ q
same_place-eq [] [] h = refl
same_place-eq [] (b ∷ q) h = cc
same_place-eq (a ∷ p) [] h = cc
same_place-eq (a ∷ p) (b ∷ q) h = elim (Bool-cases (a == b)) [
  | inl e ↦ rw ((eq_iff a b).0 e) (ap (λ r. b ∷ r) (same_place-eq p q (rw e at h)))
  | inr e ↦ cc (rw e at h)
]

same_place_refl : (p : Place) → same_place p p ≡ true
same_place_refl [] = refl
same_place_refl (a ∷ p) = rw ((eq_iff a a).1 refl) (same_place_refl p)

put-at : (p : Place) (b : Option Bytes) (tree : Place → Option Bytes) → put p b tree p ≡ b
put-at p b tree = rw (same_place_refl p) refl

pub put-off :
    (p q : Place) (b : Option Bytes) (tree : Place → Option Bytes)
    → (q ≡ p → ⊥)
    → put p b tree q ≡ tree q
put-off p q b tree h = elim (Bool-cases (same_place q p)) [
  | inl e ↦ absurd (h (same_place-eq q p e))
  | inr e ↦ rw e refl
]

-- A new descriptor leaves the others alone.
opened-kept :
    (w : Disk) (x t : Slot) (d : ℕ)
    → (t ≡ closed → ⊥)
    → slot w.slots d ≡ t
    → slot (opened w x).slots d ≡ t
opened-kept w x t d h e = slot-append w.slots x d (λ k. h (sym e ∙ k)) ∙ e

closed-writer : (q : Place) (b : Bytes) → writer q b ≡ closed → ⊥
closed-writer q b h = cc

closed-reader : (b : Bytes) → reader b ≡ closed → ⊥
closed-reader b h = cc

closed-directory : (p : Place) → directory p ≡ closed → ⊥
closed-directory p h = cc

is_file-open : (t : Slot) → is_file t ≡ true → t ≡ closed → ⊥
is_file-open closed h k = cc
is_file-open (directory p) h k = cc
is_file-open (writer q b) h k = cc
is_file-open (reader b) h k = cc

pub same-Calm : (w : Disk) → Calm on_disk w w
same-Calm w = record {
  held = λ q. refl;
  inside = λ d p h. h;
  file = λ f h. h;
  filling = λ f q b h. h;
  reading = λ f b h. h;
}

pub opened-Calm : (w : Disk) (x : Slot) → Calm on_disk w (opened w x)
opened-Calm w x = record {
  held = λ q. refl;
  inside = λ d p h. opened-kept w x _ d (closed-directory p) h;
  file = λ f h. subst (λ t. is_file t ≡ true) (sym (opened-kept w x _ f (is_file-open _ h) refl)) h;
  filling = λ f q b h. (opened-kept w x _ f (closed-writer q b) h.0, h.1);
  reading = λ f b h. opened-kept w x _ f (closed-reader b) h;
}

pub open_inner-Calm : (t : Slot) (name : String) (w : Disk) → Calm on_disk w (open_inner t name w).1
open_inner-Calm closed name w = same-Calm w
open_inner-Calm (directory p) name w = opened-Calm w _
open_inner-Calm (writer q b) name w = same-Calm w
open_inner-Calm (reader b) name w = same-Calm w

open_found-Calm : (o : Option Bytes) (w : Disk) → Calm on_disk w (open_found o w).1
open_found-Calm none w = same-Calm w
open_found-Calm (some b) w = opened-Calm w _

pub open_in-Calm : (t : Slot) (name : String) (w : Disk) → Calm on_disk w (open_in t name w).1
open_in-Calm closed name w = same-Calm w
open_in-Calm (directory p) name w = open_found-Calm (w.tree (name ∷ p)) w
open_in-Calm (writer q b) name w = same-Calm w
open_in-Calm (reader b) name w = same-Calm w

-- What a descriptor is that was opened.
pub new-slot :
    (w w' : Disk) (x : Slot) (d : ℕ)
    → ◌≡◌ {A = Result ℕ × Disk} (ok (length w.slots), opened w x) (ok d, w')
    → slot w'.slots d ≡ x
new-slot w w' x d h = rw (← ap (λ p. p.1) h) (rw (← ok-eq (ap (λ p. p.0) h)) (slot-new w.slots x))

pub open_found-reader :
    (o : Option Bytes) (w w' : Disk) (f : ℕ)
    → open_found o w ≡ (ok f, w')
    → (b : Bytes) × (o ≡ some b) × (slot w'.slots f ≡ reader b)
open_found-reader none w w' f h = cc
open_found-reader (some b) w w' f h = (b, refl, new-slot w w' _ f h)

pub open_in-reader :
    (t : Slot) (name : String) (w w' : Disk) (f : ℕ)
    → open_in t name w ≡ (ok f, w')
    → is_file (slot w'.slots f) ≡ true
open_in-reader closed name w w' f h = cc
open_in-reader (directory p) name w w' f h =
    let (b, _, e) = open_found-reader _ w w' f h in rw e refl
open_in-reader (writer q b) name w w' f h = cc
open_in-reader (reader b) name w w' f h = cc

pub create_new-writer :
    (q : Place) (o : Option Bytes) (w w' : Disk) (f : ℕ)
    → create_new q o w ≡ (ok f, w')
    → (slot w'.slots f ≡ writer q []) × (w'.tree q ≡ some [])
create_new-writer q none w w' f h = (
  rw (← ap (λ p. p.1) h) (rw (← ok-eq (ap (λ p. p.0) h)) (slot-new w.slots _)),
  rw (← ap (λ p. p.1) h) (put-at q (some []) w.tree),
)
create_new-writer q (some b) w w' f h = cc

pub create_new-held :
    (q : Place) (o : Option Bytes) (w : Disk) (r : Place)
    → (r ≡ q → ⊥)
    → (create_new q o w).1.tree r ≡ w.tree r
create_new-held q none w r h = put-off q r _ w.tree h
create_new-held q (some b) w r h = refl

pub create_in-inside :
    (t : Slot) (name : String) (w : Disk) (d : ℕ) (p : Place)
    → slot w.slots d ≡ directory p
    → slot (create_in t name w).1.slots d ≡ directory p
create_in-inside closed name w d p h = h
create_in-inside (directory q) name w d p h = new (w.tree (name ∷ q))
  where
    new : (o : Option Bytes) → slot (create_new (name ∷ q) o w).1.slots d ≡ directory p
    new none = opened-kept w _ _ d (closed-directory p) h
    new (some b) = h
create_in-inside (writer q b) name w d p h = h
create_in-inside (reader b) name w d p h = h

writer-directory : (q p : Place) (b : Bytes) → writer q b ≡ directory p → ⊥
writer-directory q p b h = cc

pub write_to-writer :
    (q : Place) (b c : Bytes) (f n : ℕ) (w w' : Disk)
    → slot w.slots f ≡ writer q b
    → write_to (writer q b) f c w ≡ ((n, none), w')
    → (slot w'.slots f ≡ writer q (b ++ take n c)) × (w'.tree q ≡ some (b ++ take n c))
write_to-writer q b c f n w w' e h =
    let size = ap (λ p. p.0.0) h in
    (
      rw (← ap (λ p. p.1) h)
          (rw (← size) (slot-with w.slots f _ (λ k. closed-writer q b (sym e ∙ k)))),
      rw (← ap (λ p. p.1) h) (rw (← size) (put-at q _ w.tree)),
    )

pub write_to-inside :
    (t : Slot) (f : ℕ) (c : Bytes) (w : Disk) (d : ℕ) (p : Place)
    → slot w.slots f ≡ t
    → slot w.slots d ≡ directory p
    → slot (write_to t f c w).1.slots d ≡ directory p
write_to-inside closed f c w d p e h = h
write_to-inside (directory q) f c w d p e h = h
write_to-inside (writer q b) f c w d p e h =
    slot-others w.slots f d _ (λ k. writer-directory q p b (sym e ∙ sym k ∙ h)) ∙ h
write_to-inside (reader b) f c w d p e h = h

pub write_to-file :
    (t : Slot) (f : ℕ) (c : Bytes) (w : Disk)
    → slot w.slots f ≡ t
    → is_file t ≡ true
    → is_file (slot (write_to t f c w).1.slots f) ≡ true
write_to-file closed f c w e h = cc
write_to-file (directory q) f c w e h = cc
write_to-file (writer q b) f c w e h =
    ap is_file (slot-with w.slots f _ (λ k. closed-writer q b (sym e ∙ k)))
write_to-file (reader b) f c w e h = ap is_file e

pub read_of-held : (t : Slot) (f : ℕ) (w : Disk) (q : Place) → (read_of t f w).1.tree q ≡ w.tree q
read_of-held closed f w q = refl
read_of-held (directory p) f w q = refl
read_of-held (writer p b) f w q = refl
read_of-held (reader b) f w q = refl

read-parts : (b : Bytes) → b ≡ take 2 b ++ drop 2 b
read-parts [] = refl
read-parts (x ∷ []) = refl
read-parts (x ∷ y ∷ b) = refl

read-end : (b : Bytes) → (length (take 2 b) == 0) ≡ true → drop 2 b ≡ []
read-end [] h = refl
read-end (x ∷ []) h = refl
read-end (x ∷ y ∷ b) h = cc

pub read_of-reader :
    (b chunk : Bytes) (f : ℕ) (w w' : Disk)
    → slot w.slots f ≡ reader b
    → read_of (reader b) f w ≡ ((chunk, none), w')
    → (rest : Bytes) × (b ≡ chunk ++ rest)
      × (slot w'.slots f ≡ reader rest)
      × ((length chunk == 0) ≡ true → rest ≡ [])
read_of-reader b chunk f w w' e h =
    let size = ap (λ p. p.0.0) h in
    (
      drop 2 b,
      subst (λ c. b ≡ c ++ drop 2 b) size (read-parts b),
      rw (← ap (λ p. p.1) h) (slot-with w.slots f _ (λ k. closed-reader b (sym e ∙ k))),
      λ z. read-end b (rw (← size) at z),
    )

pub move-done :
    (p q : Place) (o : Option Bytes) (w w' : Disk)
    → w.tree p ≡ o
    → move p q o w ≡ (ok tt, w')
    → w'.tree q ≡ w.tree p
move-done p q none w w' e h = cc
move-done p q (some b) w w' e h =
    rw (← ap (λ p. p.1) h) (put-at q (some b) (put p none w.tree) ∙ sym e)

pub move-held :
    (p q : Place) (o : Option Bytes) (w : Disk) (r : Place)
    → (r ≡ p → ⊥)
    → (r ≡ q → ⊥)
    → (move p q o w).1.tree r ≡ w.tree r
move-held p q none w r x y = refl
move-held p q (some b) w r x y =
    put-off q r (some b) (put p none w.tree) y ∙ put-off p r none w.tree x

move-failed :
    (p q : Place) (o : Option Bytes) (e : GoError) (w w' : Disk)
    → move p q o w ≡ (err e, w')
    → (r : Place) → w'.tree r ≡ w.tree r
move-failed p q none e w w' h r = rw (← ap (λ p. p.1) h) refl
move-failed p q (some b) e w w' h r = cc

move-slots : (p q : Place) (o : Option Bytes) (w : Disk) → (move p q o w).1.slots ≡ w.slots
move-slots p q none w = refl
move-slots p q (some b) w = refl

pub rename_in-failed :
    (t u : Slot) (from to : String) (e : GoError) (w w' : Disk)
    → rename_in t from u to w ≡ (err e, w')
    → (r : Place) → w'.tree r ≡ w.tree r
rename_in-failed (directory p) (directory q) from to e w w' h r = move-failed _ _ _ e w w' h r
rename_in-failed (directory p) closed from to e w w' h r = rw (← ap (λ p. p.1) h) refl
rename_in-failed (directory p) (writer q b) from to e w w' h r = rw (← ap (λ p. p.1) h) refl
rename_in-failed (directory p) (reader b) from to e w w' h r = rw (← ap (λ p. p.1) h) refl
rename_in-failed closed u from to e w w' h r = rw (← ap (λ p. p.1) h) refl
rename_in-failed (writer p b) u from to e w w' h r = rw (← ap (λ p. p.1) h) refl
rename_in-failed (reader b) u from to e w w' h r = rw (← ap (λ p. p.1) h) refl

pub rename_in-slots :
    (t u : Slot) (from to : String) (w : Disk) → (rename_in t from u to w).1.slots ≡ w.slots
rename_in-slots (directory p) (directory q) from to w = move-slots _ _ _ w
rename_in-slots (directory p) closed from to w = refl
rename_in-slots (directory p) (writer q b) from to w = refl
rename_in-slots (directory p) (reader b) from to w = refl
rename_in-slots closed u from to w = refl
rename_in-slots (writer p b) u from to w = refl
rename_in-slots (reader b) u from to w = refl

pub drop_found-done :
    (p : Place) (o : Option Bytes) (w w' : Disk) → drop_found p o w ≡ (ok tt, w') → w'.tree p ≡ none
drop_found-done p none w w' h = cc
drop_found-done p (some b) w w' h = rw (← ap (λ p. p.1) h) (put-at p none w.tree)

pub drop_found-held :
    (p : Place) (o : Option Bytes) (w : Disk) (r : Place)
    → (r ≡ p → ⊥)
    → (drop_found p o w).1.tree r ≡ w.tree r
drop_found-held p none w r h = refl
drop_found-held p (some b) w r h = put-off p r none w.tree h

drop_found-failed :
    (p : Place) (o : Option Bytes) (e : GoError) (w w' : Disk)
    → drop_found p o w ≡ (err e, w')
    → (r : Place) → w'.tree r ≡ w.tree r
drop_found-failed p none e w w' h r = rw (← ap (λ p. p.1) h) refl
drop_found-failed p (some b) e w w' h r = cc

pub unlink_in-failed :
    (t : Slot) (name : String) (e : GoError) (w w' : Disk)
    → unlink_in t name w ≡ (err e, w')
    → (r : Place) → w'.tree r ≡ w.tree r
unlink_in-failed (directory p) name e w w' h r = drop_found-failed _ _ e w w' h r
unlink_in-failed closed name e w w' h r = rw (← ap (λ p. p.1) h) refl
unlink_in-failed (writer p b) name e w w' h r = rw (← ap (λ p. p.1) h) refl
unlink_in-failed (reader b) name e w w' h r = rw (← ap (λ p. p.1) h) refl
