-- ===== src/Prelude/Sets.antt =====
-- Go's map[string]struct{} as a list of its keys: `insert` keeps each key once, so `length` is `len`.
use mathlib.Core.Bool.{Bool, true, false, not, ◌&&◌, ◌||◌}
use mathlib.Core.List.{List, [], ◌∷◌, ◌++◌}
use mathlib.Core.Path.{◌≡◌, refl}
use Prim.Native.Nat.{suc, ◌≤◌, ◌<◌}
use native.Mathlib.Omega.{arith}
use s_hole.Prelude.Tests.{if◌then◌else◌}
use s_hole.Prelude.Lists.{length}
use s_hole.Prelude.Text.{Bytes, text_eq, text_eq_iff, text_eq_refl}

unfoldable pub member : Bytes → List Bytes → Bool
member k [] = false
member k (x ∷ s) = text_eq k x || member k s

unfoldable pub insert : Bytes → List Bytes → List Bytes
unfolding member
insert k s = if member k s then s else k ∷ s

unfoldable pub delete : Bytes → List Bytes → List Bytes
delete k [] = []
delete k (x ∷ s) = let rest = delete k s in if text_eq k x then rest else x ∷ rest

-- No key occurs twice.
abbrev pub Distinct : List Bytes → Type 0
Distinct [] = Unit {0}
Distinct (x ∷ s) = (member x s ≡ false) × Distinct s

pub member-nil : (k : Bytes) → member k [] ≡ false
unfolding member
member-nil k = refl

pub member-one : (j k : Bytes) → member j (k ∷ []) ≡ text_eq j k
unfolding member
member-one j k = ground arith

pub member-insert :
    (j k : Bytes) (s : List Bytes) → member j (insert k s) ≡ (text_eq j k || member j s)
unfolding insert
member-insert j k s = ground (arith, text_eq_iff j k)

pub member-delete :
    (j k : Bytes) (s : List Bytes) → member j (delete k s) ≡ (not (text_eq j k) && member j s)
unfolding member delete
member-delete j k [] = ground arith
member-delete j k (x ∷ s) =
    ground (
      arith,
      member-delete j k s,
      text_eq_iff j k,
      text_eq_iff k x,
      text_eq_iff j x,
      text_eq_refl k,
    )

pub insert-Distinct : (k : Bytes) (s : List Bytes) → Distinct s → Distinct (insert k s)
unfolding insert
insert-Distinct k s h = ground arith

pub delete-Distinct : (k : Bytes) (s : List Bytes) → Distinct s → Distinct (delete k s)
unfolding delete
delete-Distinct k [] h = tt
delete-Distinct k (x ∷ s) h = ground (arith, delete-Distinct k s h.1, member-delete x k s)

pub length-insert :
    (k : Bytes) (s : List Bytes) → member k s ≡ false → length (insert k s) ≡ suc (length s)
unfolding insert
length-insert k s h = ground arith

pub length-delete-le : (k : Bytes) (s : List Bytes) → length (delete k s) ≤ length s
unfolding delete
length-delete-le k [] = omega arith
length-delete-le k (x ∷ s) = ground (arith, length-delete-le k s)

pub length-delete-lt :
    (k : Bytes) (s : List Bytes) → member k s ≡ true → length (delete k s) < length s
unfolding delete member
length-delete-lt k [] h = cc
length-delete-lt k (x ∷ s) h = ground (arith, length-delete-lt k s, length-delete-le k s)

pub member-append : (j : Bytes) (s t : List Bytes) → member j (s ++ t) ≡ (member j s || member j t)
unfolding member
member-append j [] t = refl
member-append j (x ∷ s) t = ground (arith, member-append j s t)

pub append-Distinct :
    (s : List Bytes) (k : Bytes) → Distinct s → member k s ≡ false → Distinct (s ++ k ∷ [])
unfolding member
append-Distinct [] k h n = (refl, tt)
append-Distinct (x ∷ s) k h n = (
  ground (arith, member-append x s (k ∷ []), text_eq_iff k x, text_eq_iff x k, text_eq_refl k),
  append-Distinct s k h.1 (ground arith),
)
