-- ===== src/Cache/Table.antt =====
-- The map operations of Cache: what is found after a write, sizes, and predicates over entries.
use s_hole.Prelude.{
  ℕ, ◌+◌, ◌≤◌, ◌<◌, List, [], ◌∷◌, ◌≡◌, refl, inl, inr, none, some, arith, Bytes, text_eq,
  text_eq_iff, text_eq_refl, length, All, leb, if◌then◌else◌, Bool-cases,
}
use mathlib.Core.Path.{subst}
use s_hole.Cache.{Entry, find, remove, store, is_expired, sweep, reclaim_loop, reclaim_scan_limit}

abbrev pub Table : Type 0
Table = List (Bytes × Entry)

-- No key stands twice.
abbrev pub DistinctKeys : Table → Type 0
DistinctKeys [] = Unit {0}
DistinctKeys ((k, e) ∷ m) = (find k m ≡ none) × DistinctKeys m

-- Every pair of `order` is in the map.
abbrev pub Within : Table → Table → Type 0
Within m = All (λ (p : Bytes × Entry). find p.0 m ≡ some p.1)

pub find-store :
    (j k : Bytes) (e : Entry) (m : Table)
    → find j (store k e m) ≡ (if text_eq k j then some e else find j m)
unfolding find store
find-store j k e [] = refl
find-store j k e ((i, x) ∷ m) =
    ground (arith, text_eq_iff k j, text_eq_iff i k, text_eq_iff i j, find-store j k e m)

pub find-remove :
    (j k : Bytes) (m : Table) → find j (remove k m) ≡ (if text_eq k j then none else find j m)
unfolding find remove
find-remove j k [] = ground arith
find-remove j k ((i, x) ∷ m) =
    ground
      (arith, text_eq_iff k j, text_eq_iff i k, text_eq_iff i j, text_eq_refl k, find-remove j k m)

pub remove-DistinctKeys : (k : Bytes) (m : Table) → DistinctKeys m → DistinctKeys (remove k m)
unfolding remove
remove-DistinctKeys k [] h = tt
remove-DistinctKeys k ((j, x) ∷ m) h =
    ground (arith, remove-DistinctKeys k m h.1, find-remove j k m)

pub store-DistinctKeys :
    (k : Bytes) (e : Entry) (m : Table) → DistinctKeys m → DistinctKeys (store k e m)
unfolding store find
store-DistinctKeys k e [] h = (refl, tt)
store-DistinctKeys k e ((j, x) ∷ m) h =
    ground
      (arith, store-DistinctKeys k e m h.1, find-store j k e m, text_eq_iff j k, text_eq_iff k j)

pub length-remove-le : (k : Bytes) (m : Table) → length (remove k m) ≤ length m
unfolding remove
length-remove-le k [] = omega arith
length-remove-le k ((j, x) ∷ m) = ground (arith, length-remove-le k m)

pub length-remove-lt :
    (k : Bytes) (e : Entry) (m : Table) → find k m ≡ some e → length (remove k m) < length m
unfolding remove find
length-remove-lt k e [] h = cc
length-remove-lt k e ((j, x) ∷ m) h = ground (arith, length-remove-lt k e m, length-remove-le k m)

pub length-store-le : (k : Bytes) (e : Entry) (m : Table) → length (store k e m) ≤ length m + 1
unfolding store
length-store-le k e [] = omega arith
length-store-le k e ((j, x) ∷ m) = ground (arith, length-store-le k e m)

module _ (P : Entry → Type 0) where
  abbrev pub AllEntries : Table → Type 0
  AllEntries = All (λ (p : Bytes × Entry). P p.1)

  pub find-All : (k : Bytes) {e : Entry} (m : Table) → AllEntries m → find k m ≡ some e → P e
  unfolding find
  find-All k [] h f = cc
  find-All k {e} ((j, x) ∷ m) h f = elim (Bool-cases (text_eq j k)) [
    | inl here ↦ subst P (ground arith) h.0
    | inr other ↦ find-All k m h.1 (ground arith)
  ]

  pub remove-All : (k : Bytes) (m : Table) → AllEntries m → AllEntries (remove k m)
  unfolding remove
  remove-All k [] h = tt
  remove-All k ((j, x) ∷ m) h = elim (Bool-cases (text_eq j k)) [
    | inl here ↦ rw here (remove-All k m h.1)
    | inr other ↦ rw other (h.0, remove-All k m h.1)
  ]

  pub store-All :
      (k : Bytes) (e : Entry) (m : Table) → P e → AllEntries m → AllEntries (store k e m)
  unfolding store
  store-All k e [] p h = (p, tt)
  store-All k e ((j, x) ∷ m) p h = elim (Bool-cases (text_eq j k)) [
    | inl here ↦ rw here (p, h.1)
    | inr other ↦ rw other (h.0, store-All k e m p h.1)
  ]

  pub sweep-All : (m : Table) (now : ℕ) → AllEntries m → AllEntries (sweep m now).0
  unfolding sweep
  sweep-All [] now h = tt
  sweep-All ((k, e) ∷ m) now h = elim (Bool-cases (is_expired e now)) [
    | inl dead ↦ rw dead (sweep-All m now h.1)
    | inr live ↦ rw live (h.0, sweep-All m now h.1)
  ]

  pub reclaim_loop-All :
      (order : Table) (scanned now : ℕ) (m : Table)
      → AllEntries m
      → AllEntries (reclaim_loop order scanned now m)
  unfolding reclaim_loop
  reclaim_loop-All [] scanned now m h = h
  reclaim_loop-All ((k, e) ∷ order) scanned now m h = elim (Bool-cases (is_expired e now)) [
    | inl dead ↦ rw dead (remove-All k m h)
    | inr live ↦ elim (Bool-cases (leb reclaim_scan_limit (scanned + 1))) [
      | inl done ↦ rw (live, done) h
      | inr more ↦ rw (live, more) (reclaim_loop-All order (scanned + 1) now m h)
    ]
  ]

pub reclaim_loop-DistinctKeys :
    (order : Table) (scanned now : ℕ) (m : Table)
    → DistinctKeys m
    → DistinctKeys (reclaim_loop order scanned now m)
unfolding reclaim_loop
reclaim_loop-DistinctKeys [] scanned now m h = h
reclaim_loop-DistinctKeys ((k, e) ∷ order) scanned now m h =
    ground (arith, remove-DistinctKeys k m h, reclaim_loop-DistinctKeys order (scanned + 1) now m h)

pub length-reclaim_loop-le :
    (order : Table) (scanned now : ℕ) (m : Table)
    → length (reclaim_loop order scanned now m) ≤ length m
unfolding reclaim_loop
length-reclaim_loop-le [] scanned now m = omega arith
length-reclaim_loop-le ((k, e) ∷ order) scanned now m =
    ground (arith, length-remove-le k m, length-reclaim_loop-le order (scanned + 1) now m)

-- The sweep keeps exactly the entries that are not expired, and counts the others.
pub find-sweep :
    (j : Bytes) (m : Table) (now : ℕ)
    → DistinctKeys m
    → find j (sweep m now).0
      ≡ elim (find j m) [ none ↦ none | some e ↦ if is_expired e now then none else some e ]
unfolding sweep find
find-sweep j [] now h = refl
find-sweep j ((k, e) ∷ m) now h = ground (arith, find-sweep j m now h.1, text_eq_iff k j)

pub length-sweep : (m : Table) (now : ℕ) → length (sweep m now).0 + (sweep m now).1 ≡ length m
unfolding sweep
length-sweep [] now = omega arith
length-sweep ((k, e) ∷ m) now = ground (arith, length-sweep m now)

pub sweep-DistinctKeys : (m : Table) (now : ℕ) → DistinctKeys m → DistinctKeys (sweep m now).0
unfolding sweep
sweep-DistinctKeys [] now h = tt
sweep-DistinctKeys ((k, e) ∷ m) now h =
    ground (arith, sweep-DistinctKeys m now h.1, find-sweep k m now h.1)
