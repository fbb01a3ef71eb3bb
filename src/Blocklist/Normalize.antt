-- ===== src/Blocklist/Normalize.antt =====
-- internal/blocklist/store.go, normalize: the form in which names are stored and looked up.
-- `to_lower` stands for strings.ToLower, which the code calls for a name that is not ASCII.
pub mod Ascii
use s_hole.Prelude.{
  ℕ, ◌+◌, ◌-◌, Bool, true, false, ◌&&◌, ◌||◌, [], ◌∷◌, map, Option, none, some, Bytes, leb, ◌==◌,
  if◌then◌else◌,
}

-- d[len(d)-1] == c, with the length guard before it.
unfoldable pub ends_in : ℕ → Bytes → Bool
ends_in c [] = false
ends_in c (x ∷ []) = x == c
ends_in c (x ∷ y ∷ s) = ends_in c (y ∷ s)

-- d[:len(d)-1]
unfoldable pub drop_last : Bytes → Bytes
drop_last [] = []
drop_last (x ∷ []) = []
drop_last (x ∷ y ∷ s) = x ∷ drop_last (y ∷ s)

unfoldable pub strip_dot : Bytes → Bytes
unfolding ends_in drop_last
strip_dot d = if ends_in b'.' d then drop_last d else d

abbrev pub rune_self : ℕ
rune_self = 0x80

unfoldable pub is_upper : ℕ → Bool
is_upper c = leb b'A' c && leb c b'Z'

-- The scan loop: `none` is its early return at a byte that is not ASCII, `some` the final hasUpper.
unfoldable pub scan_case : Bytes → Bool → Option Bool
unfolding is_upper
scan_case [] has_upper = some has_upper
scan_case (c ∷ d) has_upper =
    let rest = scan_case d (has_upper || is_upper c) in if leb rune_self c then none else rest

-- One round of the copying loop, `c += 'a' - 'A'`.
unfoldable pub lower_byte : ℕ → ℕ
unfolding is_upper
lower_byte c = if is_upper c then c + (b'a' - b'A') else c

unfoldable pub normalize_case : (Bytes → Bytes) → Bytes → Bytes
unfolding scan_case lower_byte
normalize_case to_lower d = elim (scan_case d false) [
  | none ↦ to_lower d
  | some false ↦ d
  | some true ↦ map lower_byte d
]

unfoldable pub normalize : (Bytes → Bytes) → Bytes → Bytes
unfolding strip_dot normalize_case
normalize to_lower d = normalize_case to_lower (strip_dot d)
