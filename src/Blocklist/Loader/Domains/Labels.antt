-- ===== src/Blocklist/Loader/Domains/Labels.antt =====
-- internal/blocklist/loader.go: ValidDomain by the labels of the name.
use s_hole.Prelude.{
  ◌≤◌, ℕ, suc, ◌+◌, Bool, true, false, not, ◌&&◌, List, [], ◌∷◌, ◌++◌, ◌≡◌, ◌≢◌, refl, ap, ◌∙◌, ◌⊎◌,
  inl, inr, Option, none, some, arith, Bytes, length, All, ltb, ◌==◌, ==_iff, if◌then◌else◌,
  Bool-cases, Lacks,
}
use s_hole.Blocklist.Normalize.{ends_in, drop_last, strip_dot}
use s_hole.Blocklist.Loader.Domains.{
  index_byte, is_interior, has_interior_dot, is_allowed, all_allowed, labels_loop,
}

-- The first label of a name, and the labels behind its first dot.
abbrev pub split : Bytes → Bytes × List Bytes
split [] = ([], [])
split (c ∷ s) = let (l, ls) = split s in if c == b'.' then ([], l ∷ ls) else (c ∷ l, ls)

abbrev pub labels : Bytes → List Bytes
labels s = let (l, ls) = split s in l ∷ ls

abbrev pub starts_well : ℕ → Bytes → Bool
starts_well prev [] = true
starts_well prev (c ∷ l) = not (prev == b'.' && c == b'-')

abbrev pub ends_well : ℕ → Bytes → Bool
ends_well prev [] = not (prev == b'.') && not (prev == b'-')
ends_well prev (c ∷ l) = ends_well c l

abbrev pub all_well : List Bytes → Bool
all_well [] = true
all_well (l ∷ ls) = (starts_well b'.' l && ends_well b'.' l) && all_well ls

pub labels_loop-split :
    (prev : ℕ) (s : Bytes)
    → labels_loop prev s
      ≡ ((starts_well prev (split s).0 && ends_well prev (split s).0) && all_well (split s).1)
unfolding labels_loop
labels_loop-split prev [] = ground arith
labels_loop-split prev (c ∷ s) = elim (Bool-cases (c == b'.')) [
  | inl dot ↦ rw dot (ground (arith, dot, labels_loop-split c s, (==_iff c b'.').0 dot))
  | inr other ↦ rw other (ground (arith, other, labels_loop-split c s))
]

-- A letter, a digit, a hyphen or an underscore.
abbrev pub IsLabelByte : ℕ → Type 0
IsLabelByte c =
    ((b'a' ≤ c) × (c ≤ b'z'))
    ⊎ (((b'A' ≤ c) × (c ≤ b'Z')) ⊎ (((b'0' ≤ c) × (c ≤ b'9')) ⊎ ((c ≡ b'-') ⊎ (c ≡ b'_'))))

IsLabelByte-sound : (c : ℕ) → is_allowed c ≡ true → c ≢ b'.' → IsLabelByte c
unfolding is_allowed
IsLabelByte-sound c h dot = ground (arith, h, dot)

IsLabelByte-complete : (c : ℕ) → IsLabelByte c → (is_allowed c ≡ true) × (c ≢ b'.')
unfolding is_allowed
IsLabelByte-complete c h = (ground (arith, h), ground (arith, h))

-- A DNS label that a list may hold: not empty, of the allowed bytes, and with no hyphen at its ends.
pub record IsLabel (l : Bytes) : Type 0 where
  pub inhabited : l ≢ []
  pub first : (r : Bytes) → l ≢ b'-' ∷ r
  pub last : (r : Bytes) → l ≢ r ++ b'-' ∷ []
  pub allowed : All IsLabelByte l

pub split-Lacks : (s : Bytes) → Lacks b'.' (split s).0 × All (Lacks b'.') (split s).1
split-Lacks [] = (tt, tt)
split-Lacks (c ∷ s) = elim (Bool-cases (c == b'.')) [
  | inl dot ↦ rw dot (tt, split-Lacks s)
  | inr other ↦ rw other (((λ e. ground (arith, other, e)), (split-Lacks s).0), (split-Lacks s).1)
]

ends_well-append : (prev : ℕ) (r : Bytes) → ends_well prev (r ++ b'-' ∷ []) ≡ false
ends_well-append prev [] = refl
ends_well-append prev (c ∷ r) = ends_well-append c r

-- A label that ends badly ends in a hyphen, since it holds no dot.
hyphen_end :
    (c : ℕ) (l : Bytes)
    → Lacks b'.' (c ∷ l)
    → ends_well c l ≡ false
    → (r : Bytes) × (c ∷ l ≡ r ++ b'-' ∷ [])
hyphen_end c [] h e = ([], ap (λ x. x ∷ []) (ground (arith, h.0, e)))
hyphen_end c (d ∷ l) h e = let (r, eq) = hyphen_end d l h.1 e in (c ∷ r, ap (λ x. c ∷ x) eq)

pub IsLabel-sound :
    (l : Bytes)
    → Lacks b'.' l
    → All (λ c. is_allowed c ≡ true) l
    → (starts_well b'.' l && ends_well b'.' l) ≡ true
    → IsLabel l
IsLabel-sound [] h a w = cc
IsLabel-sound (c ∷ l) h a w = record {
  inhabited = λ e. cc;
  first = λ r e. first c l w (ground (arith, e));
  last = λ r e. ends (c ∷ l) r e (ground (arith, w));
  allowed = both (c ∷ l) a h;
}
  where
    first :
        (x : ℕ) (m : Bytes)
        → (starts_well b'.' (x ∷ m) && ends_well b'.' (x ∷ m)) ≡ true
        → x ≡ b'-'
        → ⊥
    first x m w e = ground (arith, w, e)

    ends : (m r : Bytes) → m ≡ r ++ b'-' ∷ [] → ends_well b'.' m ≡ true → ⊥
    ends m r e w = ground (arith, w, ap (ends_well b'.') e, ends_well-append b'.' r)

    both : (m : Bytes) → All (λ x. is_allowed x ≡ true) m → Lacks b'.' m → All IsLabelByte m
    both [] a h = tt
    both (x ∷ m) a h = (IsLabelByte-sound x a.0 h.0, both m a.1 h.1)

pub IsLabel-complete : (l : Bytes) → IsLabel l → (starts_well b'.' l && ends_well b'.' l) ≡ true
IsLabel-complete [] i = absurd (i.inhabited refl)
IsLabel-complete (c ∷ l) i = elim (Bool-cases (ends_well c l)) [
  | inr bad ↦ let (r, e) = hyphen_end c l (lacks (c ∷ l) i.allowed) bad in absurd (i.last r e)
  | inl good ↦ elim (Bool-cases (c == b'-')) [
    | inl hyphen ↦ absurd (i.first l (ap (λ x. x ∷ l) ((==_iff c b'-').0 hyphen)))
    | inr other ↦ ground (arith, good, other)
  ]
]
  where
    lacks : (m : Bytes) → All IsLabelByte m → Lacks b'.' m
    lacks [] h = tt
    lacks (x ∷ m) h = ((IsLabelByte-complete x h.0).1, lacks m h.1)

abbrev pub labels_allowed : List Bytes → Bool
labels_allowed [] = true
labels_allowed (l ∷ ls) = all_allowed l && labels_allowed ls

pub all_allowed-split :
    (s : Bytes) → all_allowed s ≡ (all_allowed (split s).0 && labels_allowed (split s).1)
unfolding all_allowed
all_allowed-split [] = refl
all_allowed-split (c ∷ s) = elim (Bool-cases (c == b'.')) [
  | inl dot ↦ rw dot (ground (arith, dot, all_allowed-split s))
  | inr other ↦ rw other (ground (arith, other, all_allowed-split s))
]

pub All-all_allowed : (l : Bytes) → all_allowed l ≡ true → All (λ c. is_allowed c ≡ true) l
unfolding all_allowed
All-all_allowed [] h = tt
All-all_allowed (c ∷ l) h = (ground (arith, h), All-all_allowed l (ground (arith, h)))

pub all_allowed-All : (l : Bytes) → All IsLabelByte l → all_allowed l ≡ true
unfolding all_allowed
all_allowed-All [] h = refl
all_allowed-All (c ∷ l) h = ground (arith, (IsLabelByte-complete c h.0).0, all_allowed-All l h.1)

-- The bytes behind the first label, dots included.
abbrev total : List Bytes → ℕ
total [] = 0
total (l ∷ ls) = suc (length l) + total ls

length-split : (s : Bytes) → length s ≡ length (split s).0 + total (split s).1
length-split [] = omega arith
length-split (c ∷ s) = elim (Bool-cases (c == b'.')) [
  | inl dot ↦ rw dot (omega (arith, length-split s))
  | inr other ↦ rw other (omega (arith, length-split s))
]

abbrev first_dot : Bytes × List Bytes → Option ℕ
first_dot (l, []) = none
first_dot (l, m ∷ ls) = some (length l)

first_dot-cons :
    (c : ℕ) (p : Bytes × List Bytes)
    → (elim (first_dot p) [ none ↦ none | some i ↦ some (i + 1) ]) ≡ first_dot (c ∷ p.0, p.1)
first_dot-cons c (l, []) = refl
first_dot-cons c (l, m ∷ ls) = ap some (omega arith)

index_byte-split : (s : Bytes) → index_byte b'.' s ≡ first_dot (split s)
unfolding index_byte
index_byte-split [] = refl
index_byte-split (c ∷ s) = elim (Bool-cases (c == b'.')) [
  | inl dot ↦ rw dot refl
  | inr other ↦ rw (other, index_byte-split s) (first_dot-cons c (split s))
]

split-snoc : (t : Bytes) → split (t ++ b'.' ∷ []) ≡ ((split t).0, (split t).1 ++ [] ∷ [])
split-snoc [] = refl
split-snoc (c ∷ t) = elim (Bool-cases (c == b'.')) [
  | inl dot ↦ rw (dot, split-snoc t) refl
  | inr other ↦ rw (other, split-snoc t) refl
]

all_allowed-snoc : (t : Bytes) → all_allowed (t ++ b'.' ∷ []) ≡ all_allowed t
unfolding all_allowed
all_allowed-snoc [] = refl
all_allowed-snoc (c ∷ t) = rw (all_allowed-snoc t) refl

pub drop_last-dot : (m : Bytes) → ends_in b'.' m ≡ true → m ≡ drop_last m ++ b'.' ∷ []
unfolding ends_in drop_last
drop_last-dot [] h = cc
drop_last-dot (x ∷ []) h = ap (λ y. y ∷ []) ((==_iff x b'.').0 h)
drop_last-dot (x ∷ y ∷ m) h = ap (λ z. x ∷ z) (drop_last-dot (y ∷ m) h)

strip_dot-cases : (s : Bytes) → (s ≡ strip_dot s) ⊎ (s ≡ strip_dot s ++ b'.' ∷ [])
unfolding strip_dot
strip_dot-cases s = elim (Bool-cases (ends_in b'.' s)) [
  | inl dot ↦ inr (rw dot (drop_last-dot s dot))
  | inr other ↦ inl (rw other refl)
]

-- With labels that are not empty, the first dot of a name is an interior one exactly when there
-- is a second label, whether a root dot follows or not.
interior-plain :
    (l : Bytes) (ls : List Bytes)
    → all_well (l ∷ ls) ≡ true
    → is_interior (length l + total ls) (first_dot (l, ls)) ≡ ltb 1 (length (l ∷ ls))
unfolding is_interior
interior-plain [] ls w = ground (arith, w)
interior-plain (c ∷ l) [] w = refl
interior-plain (c ∷ l) ([] ∷ ls) w = ground (arith, w)
interior-plain (c ∷ l) ((d ∷ m) ∷ ls) w = ground arith

total-snoc : (ls : List Bytes) → total (ls ++ [] ∷ []) ≡ suc (total ls)
total-snoc [] = refl
total-snoc (l ∷ ls) = omega (arith, total-snoc ls)

interior-root :
    (l : Bytes) (ls : List Bytes)
    → all_well (l ∷ ls) ≡ true
    → is_interior (length l + total (ls ++ [] ∷ [])) (first_dot (l, ls ++ [] ∷ []))
      ≡ ltb 1 (length (l ∷ ls))
unfolding is_interior
interior-root [] ls w = ground (arith, w)
interior-root (c ∷ l) [] w = ground arith
interior-root (c ∷ l) ([] ∷ ls) w = ground (arith, w)
interior-root (c ∷ l) ((d ∷ m) ∷ ls) w = ground (arith, total-snoc ls)

has_interior_dot-split :
    (s : Bytes)
    → has_interior_dot s
      ≡ is_interior (length (split s).0 + total (split s).1) (first_dot (split s))
unfolding has_interior_dot
has_interior_dot-split s = rw (length-split s, index_byte-split s) refl

pub has_interior_dot-labels :
    (s : Bytes)
    → all_well (labels (strip_dot s)) ≡ true
    → has_interior_dot s ≡ ltb 1 (length (labels (strip_dot s)))
has_interior_dot-labels s w =
    let t = split (strip_dot s) in
    elim (strip_dot-cases s) [
      | inl e ↦
          ap has_interior_dot e ∙ has_interior_dot-split (strip_dot s) ∙ interior-plain t.0 t.1 w
      | inr e ↦
          ap has_interior_dot e
          ∙ has_interior_dot-split (strip_dot s ++ b'.' ∷ [])
          ∙ ap (λ p. is_interior (length p.0 + total p.1) (first_dot p)) (split-snoc (strip_dot s))
          ∙ interior-root t.0 t.1 w
    ]

pub all_allowed-strip_dot : (s : Bytes) → all_allowed s ≡ all_allowed (strip_dot s)
all_allowed-strip_dot s = elim (strip_dot-cases s) [
  | inl e ↦ ap all_allowed e
  | inr e ↦ ap all_allowed e ∙ all_allowed-snoc (strip_dot s)
]
