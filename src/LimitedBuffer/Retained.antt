-- ===== src/LimitedBuffer/Retained.antt =====
-- What a limited buffer holds after any writes.
use mathlib.Core.List.{flatten}
use common_keyring.Base.{
  ℕ, ◌-◌, ◌+◌, ◌≤◌, zero, suc, Bool, true, List, [], ◌∷◌, ◌++◌, ◌≡◌, refl, sym, ap, ◌∙◌, append-nil,
  append_assoc, arith, length, length-append, take, leb, ltb, if◌then◌else◌, Bool-cases, inl, inr,
}
use common_keyring.Contract.{Bytes}
use common_keyring.LimitedBuffer.{LimitedBuffer, new_buffer, write, write_all}

take-all : (n : ℕ) (xs : Bytes) → length xs ≤ n → take n xs ≡ xs
take-all zero [] h = refl
take-all zero (x ∷ xs) h = absurd (omega arith)
take-all (suc n) [] h = refl
take-all (suc n) (x ∷ xs) h = ap (λ l. x ∷ l) (take-all n xs (omega arith))

take-nil : (n : ℕ) → ◌≡◌ {A = Bytes} [] (take n [])
take-nil zero = refl
take-nil (suc n) = refl

sub-suc : (n m : ℕ) → suc n - suc m ≡ n - m
sub-suc n m = omega arith

take-append : (n : ℕ) (xs ys : Bytes) → take n (xs ++ ys) ≡ take n xs ++ take (n - length xs) ys
take-append zero xs ys = let e : 0 - length xs ≡ 0 = omega arith in rw e
take-append (suc n) [] ys = let e : suc n - 0 ≡ suc n = omega arith in rw e
take-append (suc n) (x ∷ xs) ys = ap (λ l. x ∷ l) (take-append n xs ys ∙ rw sub-suc)

-- What is left of the limit when its first bytes are held.
room-take : (n : ℕ) (xs : Bytes) → n - length (take n xs) ≡ n - length xs
room-take zero xs = omega arith
room-take (suc n) [] = refl
room-take (suc n) (x ∷ xs) = omega (arith, room-take n xs)

-- The buffer holds the first bytes of all that was written to it, and knows whether there was more.
pub record Holds (b : LimitedBuffer) (all : Bytes) : Type 0 where
  pub kept : b.buffer ≡ take b.limit all
  pub flagged : b.overflow ≡ ltb b.limit (length all)

write-buffer :
    (b : LimitedBuffer) (c : Bytes)
    → (write b c).0.buffer ≡ b.buffer ++ take (b.limit - length b.buffer) c
unfolding write
write-buffer b c = elim (Bool-cases (leb (length c) (b.limit - length b.buffer))) [
  | inl t ↦ rw (t, take-all (b.limit - length b.buffer) c (ground arith))
  | inr t ↦ elim (Bool-cases (ltb 0 (b.limit - length b.buffer))) [
    | inl u ↦ rw (t, u)
    | inr u ↦
        let z : b.limit - length b.buffer ≡ 0 = ground arith in
        rw (t, u, z) (sym (append-nil b.buffer))
  ]
]

write-overflow :
    (b : LimitedBuffer) (c : Bytes)
    → (write b c).0.overflow
      ≡ (if leb (length c) (b.limit - length b.buffer) then b.overflow else true)
unfolding write
write-overflow b c = ground arith

write-limit : (b : LimitedBuffer) (c : Bytes) → (write b c).0.limit ≡ b.limit
unfolding write
write-limit b c = ground arith

flag :
    (limit all c room : ℕ) (old : Bool)
    → room ≡ limit - all
    → old ≡ ltb limit all
    → (if leb c room then old else true) ≡ ltb limit (all + c)
flag limit all c room old h k = ground arith

write-Holds : (b : LimitedBuffer) (all c : Bytes) → Holds b all → Holds (write b c).0 (all ++ c)
write-Holds b all c h =
    let room : b.limit - length b.buffer ≡ b.limit - length all =
      rw h.kept (room-take b.limit all) in
    record {
      kept =
          write-buffer b c
          ∙ rw (write-limit, room, take-append)
              (ap (λ l. l ++ take (b.limit - length all) c) h.kept);
      flagged =
          write-overflow b c
          ∙ rw (write-limit, length-append)
              (flag b.limit (length all) (length c) _ _ room h.flagged);
    }

write_all-Holds :
    (b : LimitedBuffer) (all : Bytes) (chunks : List Bytes)
    → Holds b all
    → Holds (write_all b chunks) (all ++ flatten chunks)
unfolding write_all flatten
write_all-Holds b all [] h = rw append-nil h
write_all-Holds b all (c ∷ chunks) h =
    rw (← append_assoc) (write_all-Holds (write b c).0 (all ++ c) chunks (write-Holds b all c h))

write_all-limit : (b : LimitedBuffer) (chunks : List Bytes) → (write_all b chunks).limit ≡ b.limit
unfolding write_all
write_all-limit b [] = refl
write_all-limit b (c ∷ chunks) = write_all-limit (write b c).0 chunks ∙ write-limit b c

-- Whatever chunks a process writes, a new buffer then holds the first bytes of their
-- concatenation, up to the limit, and reports an overflow exactly if there were more.
pub write_all-new_buffer :
    (limit : ℕ) (chunks : List Bytes)
    → ((write_all (new_buffer limit) chunks).buffer ≡ take limit (flatten chunks))
      × ((write_all (new_buffer limit) chunks).overflow ≡ ltb limit (length (flatten chunks)))
unfolding new_buffer
write_all-new_buffer limit chunks =
    let b = new_buffer limit in
    let h : Holds b [] = record { kept = take-nil limit; flagged = ground arith } in
    let held = write_all-Holds b [] chunks h in
    let same = write_all-limit b chunks in (rw same at held.kept, rw same at held.flagged)
