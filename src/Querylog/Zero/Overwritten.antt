-- ===== src/Querylog/Zero/Overwritten.antt =====
-- internal/querylog/zero.go: what ZeroFile leaves in the file.
use s_hole.Prelude.{
  inl, inr, ℕ, zero, suc, ◌+◌, ◌-◌, ◌≤◌, ◌<◌, [], ◌∷◌, ◌++◌, ◌≡◌, ◌⊎◌, refl, sym, ap, ◌∙◌, Option,
  none, some, arith, Bytes, length, take, drop, ltb, leb, Bool-cases,
}
use mathlib.Core.Path.{subst}
use s_hole.Querylog.Zero.{
  Inode, ZeroError, Checks, Fails, zero_chunk, zero_head, min, zeros, write_zeros_at, write_at,
  sync, and_then, chunk_loop, overwrite, checks_error, close_file, zero_checked, zero_file,
}

zero_add : (n : ℕ) → 0 + n ≡ n
zero_add n = omega arith

suc_add : (m n : ℕ) → suc m + n ≡ suc (m + n)
suc_add m n = omega arith

abbrev no_bytes : Bytes
no_bytes = []

drop-nil : (n : ℕ) → drop n no_bytes ≡ []
drop-nil zero = refl
drop-nil (suc n) = refl

drop-drop : (m n : ℕ) (xs : Bytes) → drop n (drop m xs) ≡ drop (m + n) xs
drop-drop zero n xs = ap (λ k. drop k xs) (sym (zero_add n))
drop-drop (suc m) n [] = drop-nil n ∙ sym (drop-nil (suc m + n))
drop-drop (suc m) n (x ∷ xs) = drop-drop m n xs ∙ ap (λ k. drop k (x ∷ xs)) (sym (suc_add m n))

zeros-add : (m n : ℕ) → zeros m ++ zeros n ≡ zeros (m + n)
unfolding zeros
zeros-add zero n = ap zeros (sym (zero_add n))
zeros-add (suc m) n = ap (λ z. 0 ∷ z) (zeros-add m n) ∙ ap zeros (sym (suc_add m n))

take-zeros : (m : ℕ) (r : Bytes) → take m (zeros m ++ r) ≡ zeros m
unfolding zeros
take-zeros zero r = refl
take-zeros (suc m) r = ap (λ z. 0 ∷ z) (take-zeros m r)

drop-zeros : (m n : ℕ) (r : Bytes) → drop (m + n) (zeros m ++ r) ≡ drop n r
unfolding zeros
drop-zeros zero n r = ap (λ k. drop k r) (zero_add n)
drop-zeros (suc m) n r = ap (λ k. drop k (0 ∷ zeros m ++ r)) (suc_add m n) ∙ drop-zeros m n r

-- A write of zeros behind the zeros that are there.
write_zeros_at-zeros :
    (off n : ℕ) (content : Bytes)
    → write_zeros_at off n (zeros off ++ drop off content)
      ≡ zeros (off + n) ++ drop (off + n) content
unfolding write_zeros_at
write_zeros_at-zeros off n content =
    rw
      (
        take-zeros off (drop off content),
        drop-zeros off n (drop off content),
        drop-drop off n content,
      )
      (ap (λ z. z ++ drop (off + n) content) (zeros-add off n))

min-le : (a b : ℕ) → (min a b ≤ a) × (min a b ≤ b) × ((min a b ≡ a) ⊎ (min a b ≡ b))
unfolding min
min-le a b = elim (Bool-cases (leb a b)) [
  | inl le ↦ rw le (omega arith, ground (arith, le), inl refl)
  | inr gt ↦ rw gt (ground (arith, gt), omega arith, inr refl)
]

-- The file is zeros up to some place and as it was behind it, and with no error it is all zeros.
abbrev pub IsZeroed : Bytes → Bytes × Option ZeroError → Type 0
IsZeroed content (after, err) =
    (j : ℕ) × (j ≤ length content)
    × (after ≡ zeros j ++ drop j content)
    × (err ≡ none → j ≡ length content)

-- What the next part finds.
and_then-IsZeroed :
    (content : Bytes) (off n : ℕ) (answer : Option (ℕ × Bytes))
    (f : Bytes → Bytes × Option ZeroError)
    → off + n ≤ length content
    → (IsZeroed content (f (zeros (off + n) ++ drop (off + n) content)))
    → IsZeroed content (and_then (write_at answer off n (zeros off ++ drop off content)) f)
unfolding and_then write_at
and_then-IsZeroed content off n none f h k =
    subst (λ c. IsZeroed content (f c)) (sym (write_zeros_at-zeros off n content)) k
and_then-IsZeroed content off n (some (m, e)) f h k = (
  off + min m n,
  omega (arith, h, (min-le m n).1),
  write_zeros_at-zeros off (min m n) content,
  λ q. cc,
)

sync-IsZeroed :
    (content : Bytes) (j : ℕ) (answer : Option (ℕ × Bytes)) (f : Bytes → Bytes × Option ZeroError)
    → j ≤ length content
    → IsZeroed content (f (zeros j ++ drop j content))
    → IsZeroed content (and_then (zeros j ++ drop j content, sync answer) f)
unfolding and_then sync
sync-IsZeroed content j none f h k = k
sync-IsZeroed content j (some (m, e)) f h k = (j, h, refl, λ q. cc)

module _ (fails : Fails) (content : Bytes) where
  synced :
      (answer : Option (ℕ × Bytes))
      → IsZeroed content (zeros (length content) ++ drop (length content) content, sync answer)
  synced answer = (length content, omega arith, refl, λ q. refl)

  chunk_loop-IsZeroed :
      (fuel k off j : ℕ)
      → length content < off + fuel
      → j ≤ length content
      → (off ≤ length content → j ≡ off)
      → (length content ≤ off → j ≡ length content)
      → IsZeroed content (chunk_loop fails (length content) fuel k off (zeros j ++ drop j content))
  unfolding chunk_loop
  chunk_loop-IsZeroed zero k off j h le before after = (j, le, refl, λ q. after (omega (arith, h)))
  chunk_loop-IsZeroed (suc fuel) k off j h le before after =
      elim (Bool-cases (ltb off (length content))) [
        | inr full ↦ rw (full, after (ground (arith, full))) (synced (fails k))
        | inl room ↦
            let (a, b, which) = min-le (length content - off) zero_chunk in
            rw (room, before (ground (arith, room)))
              (and_then-IsZeroed content off (min (length content - off) zero_chunk) (fails k)
                (λ c. chunk_loop fails (length content) fuel (suc k) (off + zero_chunk) c)
                (ground (arith, room, a))
                (chunk_loop-IsZeroed fuel (suc k) (off + zero_chunk)
                  (off + min (length content - off) zero_chunk) (omega (arith, h))
                  (ground (arith, room, a)) (λ q. ground (arith, a, b, which, q))
                  (λ q. ground (arith, a, b, which, q))))
      ]

  overwrite-IsZeroed : IsZeroed content (overwrite fails (length content) content)
  unfolding overwrite zeros
  overwrite-IsZeroed =
      let head = min (length content) zero_head in
      let (a, b, which) = min-le (length content) zero_head in
      let inside : 0 + head ≤ length content = omega (arith, a) in
      let rest = λ (d : Bytes). chunk_loop fails (length content) (suc (length content)) 2 head d in
      and_then-IsZeroed content 0 head (fails 0) (λ c. and_then (c, sync (fails 1)) rest) inside
        (sync-IsZeroed content (0 + head) (fails 1) rest inside (
          chunk_loop-IsZeroed (suc (length content)) 2 head (0 + head) (omega arith) inside
            (λ q. omega arith) (λ q. ground (arith, which, a, b, q))))

  closed-IsZeroed :
      (e : Option Bytes) (r : Bytes × Option ZeroError)
      → IsZeroed content r
      → IsZeroed content (close_file e r)
  unfolding close_file
  closed-IsZeroed e (after, none) (j, le, same, full) = (j, le, same, λ q. full refl)
  closed-IsZeroed e (after, some err) h = h

  zero_checked-IsZeroed : (e : Option ZeroError) → IsZeroed content (zero_checked e fails content)
  unfolding zero_checked zeros
  zero_checked-IsZeroed none = overwrite-IsZeroed
  zero_checked-IsZeroed (some e) = (0, omega arith, refl, λ q. cc)

  -- Whatever the operating system answers, the file keeps its size, it holds zeros up to some place
  -- and is as it was behind it, and with no error it holds nothing but zeros.
  pub zero_file-IsZeroed :
      (c : Checks) (want : Option Inode) → IsZeroed content (zero_file c want fails content)
  unfolding zero_file
  zero_file-IsZeroed c want =
      closed-IsZeroed c.close_error _ (zero_checked-IsZeroed (checks_error c want))
