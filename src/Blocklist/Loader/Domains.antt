-- ===== src/Blocklist/Loader/Domains.antt =====
-- internal/blocklist/loader.go: ValidDomain and isLocalhostName, which decide what a list may add.
pub mod Labels
pub mod Valid
use s_hole.Prelude.{
  has_suffix, ℕ, ◌+◌, Bool, true, false, not, ◌&&◌, ◌||◌, [], ◌∷◌, Option, none, some, Bytes, codes,
  text_eq, length, ltb, leb, ◌==◌, if◌then◌else◌,
}
use s_hole.Blocklist.Normalize.{strip_dot}

-- strings.IndexByte
unfoldable pub index_byte : ℕ → Bytes → Option ℕ
index_byte b [] = none
index_byte b (c ∷ s) =
    let rest = index_byte b s in
    if c == b then some 0 else elim rest [ none ↦ none | some i ↦ some (i + 1) ]

-- The test of the first dot: i <= 0 || i >= len(s)-1 is a failure.
unfoldable pub is_interior : ℕ → Option ℕ → Bool
is_interior size none = false
is_interior size (some i) = ltb 0 i && ltb (i + 1) size

unfoldable pub has_interior_dot : Bytes → Bool
unfolding index_byte is_interior
has_interior_dot s = is_interior (length s) (index_byte b'.' s)

-- The cases of the switch. A rune above 0x7F has bytes above 0x7F only, so the bytes decide.
unfoldable pub is_allowed : ℕ → Bool
is_allowed r =
    (leb b'a' r && leb r b'z')
    || (leb b'A' r && leb r b'Z')
    || (leb b'0' r && leb r b'9')
    || (r == b'.' || r == b'-' || r == b'_')

unfoldable pub all_allowed : Bytes → Bool
unfolding is_allowed
all_allowed [] = true
all_allowed (r ∷ s) = let rest = all_allowed s in if is_allowed r then rest else false

-- The loop over the labels, with the byte before; the result says whether it reached the end with
-- a byte that may end a label.
unfoldable pub labels_loop : ℕ → Bytes → Bool
labels_loop prev [] = not (prev == b'.') && not (prev == b'-')
labels_loop prev (c ∷ s) =
    let rest = labels_loop c s in
    if (c == b'.' && (prev == b'.' || prev == b'-')) || (c == b'-' && prev == b'.')
    then false
    else rest

unfoldable pub valid_domain : Bytes → Bool
unfolding has_interior_dot all_allowed labels_loop
valid_domain s =
    if text_eq s [] || ltb 253 (length s)
    then false
    else if not (has_interior_dot s)
    then false
    else if not (all_allowed s)
    then false
    else labels_loop b'.' (strip_dot s)

-- `to_lower` stands for strings.ToLower.
unfoldable pub is_localhost_name : (Bytes → Bytes) → Bytes → Bool
is_localhost_name to_lower name =
    let d = to_lower (strip_dot name) in
    text_eq d (codes "localhost")
    || has_suffix d (codes ".localhost")
    || text_eq d (codes "localhost.localdomain")
