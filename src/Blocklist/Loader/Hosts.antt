-- ===== src/Blocklist/Loader/Hosts.antt =====
-- internal/blocklist/loader.go: parseHostsFormat with the parts of bufio.Scanner, strings.TrimSpace
-- and strings.Fields that it calls. A reader is the bytes it gives and the error it ends with; it
-- reports the end of the bytes in a read of its own. The bytes are UTF-8, valid or not.

pub mod Counts
pub mod Words
pub mod Printed
use s_hole.Prelude.{
  ℕ, zero, suc, ◌+◌, ◌*◌, Bool, true, false, not, ◌&&◌, ◌||◌, List, [], ◌∷◌, ◌++◌, Option, none,
  some, Bytes, codes, text_eq, has_prefix, length, drop, leb, ◌==◌, if◌then◌else◌,
}
use s_hole.Blocklist.Normalize.{ends_in, drop_last}
use s_hole.Blocklist.Loader.Domains.{valid_domain, is_localhost_name}

abbrev ascii_space : ℕ → Bool
ascii_space c = (leb 9 c && leb c 13) || c == b' '

-- U+0085 and U+00A0 behind their byte 0xC2.
abbrev narrow_tail : Bytes → Bool
narrow_tail [] = false
narrow_tail (b ∷ s) = b == 0x85 || b == 0xA0

-- U+1680, U+2000 to U+200A, U+2028, U+2029, U+202F, U+205F and U+3000.
abbrev wide_tail : ℕ → Bytes → Bool
wide_tail a [] = false
wide_tail a (b ∷ []) = false
wide_tail a (b ∷ c ∷ s) =
    (a == 0xE1 && b == 0x9A && c == 0x80)
    || (a == 0xE2
        && b == 0x80
        && ((leb 0x80 c && leb c 0x8A) || c == 0xA8 || c == 0xA9 || c == 0xAF))
    || (a == 0xE2 && b == 0x81 && c == 0x9F)
    || (a == 0xE3 && b == 0x80 && c == 0x80)

-- The size of the space (unicode.IsSpace) that the text starts with, 0 when it starts with none.
unfoldable pub space_width : Bytes → ℕ
space_width [] = 0
space_width (c ∷ s) =
    if ascii_space c
    then 1
    else if c == 0xC2 && narrow_tail s
    then 2
    else if wide_tail c s
    then 3
    else 0

-- The number is that of the bytes still to skip.
unfoldable pub trim_left : ℕ → Bytes → Bytes
unfolding space_width
trim_left skip [] = []
trim_left (suc skip) (c ∷ s) = trim_left skip s
trim_left zero (c ∷ s) = elim (space_width (c ∷ s)) [ zero ↦ c ∷ s | suc width ↦ trim_left width s ]

unfoldable pub is_blank : ℕ → Bytes → Bool
unfolding space_width
is_blank skip [] = true
is_blank (suc skip) (c ∷ s) = is_blank skip s
is_blank zero (c ∷ s) = elim (space_width (c ∷ s)) [ zero ↦ false | suc width ↦ is_blank width s ]

unfoldable pub trim_right : Bytes → Bytes
unfolding is_blank
trim_right [] = []
trim_right (c ∷ s) = let rest = trim_right s in if is_blank 0 (c ∷ s) then [] else c ∷ rest

-- strings.TrimSpace
unfoldable pub trim_space : Bytes → Bytes
unfolding trim_left trim_right
trim_space s = trim_right (trim_left 0 s)

unfoldable pub add_field : Bytes → List Bytes → List Bytes
add_field [] fs = fs
add_field (c ∷ field) fs = (c ∷ field) ∷ fs

unfoldable pub fields_loop : ℕ → Bytes → Bytes → List Bytes
unfolding space_width add_field
fields_loop skip field [] = add_field field []
fields_loop (suc skip) field (c ∷ s) = fields_loop skip field s
fields_loop zero field (c ∷ s) = elim (space_width (c ∷ s)) [
  | zero ↦ fields_loop zero (field ++ c ∷ []) s
  | suc width ↦ add_field field (fields_loop width [] s)
]

-- strings.Fields
unfoldable pub fields : Bytes → List Bytes
unfolding fields_loop
fields s = fields_loop 0 [] s

pub data ReadError : Type 0 where
  token_too_long : ReadError
  read_failed : Bytes → ReadError

-- An io.Reader, read to its end.
pub record Reader : Type 0 where
  pub content : Bytes
  pub failure : Option ReadError

-- The first line and those behind it; the piece behind the last line feed is a line of its own.
unfoldable pub cut_lines : Bytes → Bytes × List Bytes
cut_lines [] = ([], [])
cut_lines (c ∷ s) =
    let (line, rest) = cut_lines s in if c == 10 then ([], line ∷ rest) else (c ∷ line, rest)

-- No line is made of the empty piece behind the last line feed.
unfoldable pub drop_empty_end : List Bytes → List Bytes
drop_empty_end [] = []
drop_empty_end ([] ∷ []) = []
drop_empty_end (line ∷ next ∷ rest) = line ∷ drop_empty_end (next ∷ rest)
drop_empty_end ((c ∷ line) ∷ []) = (c ∷ line) ∷ []

unfoldable pub lines : Bytes → List Bytes
unfolding cut_lines drop_empty_end
lines s = let (line, rest) = cut_lines s in drop_empty_end (line ∷ rest)

unfoldable pub drop_cr : Bytes → Bytes
drop_cr line = if ends_in 13 line then drop_last line else line

abbrev pub max_token : ℕ
max_token = 1024 * 1024

-- scanner.Scan until it returns false, with scanner.Err.
unfoldable pub scan : List Bytes → Option ReadError → List Bytes × Option ReadError
unfolding drop_cr
scan [] failure = ([], failure)
scan (line ∷ rest) failure =
    let (scanned, err) = scan rest failure in
    if leb max_token (length line) then ([], some token_too_long) else (drop_cr line ∷ scanned, err)

unfoldable pub trim_wildcard : Bytes → Bytes
trim_wildcard field = if has_prefix field (codes "*.") then drop 2 field else field

module _ (to_lower : Bytes → Bytes) where
  unfoldable pub accepts : Bytes → Bool
  accepts d = valid_domain d && not (is_localhost_name to_lower d)

  -- The switch on the number of fields; a line that is not blank has one at least.
  unfoldable pub domain_of : List Bytes → Option Bytes
  unfolding accepts trim_wildcard
  domain_of [] = none
  domain_of (field ∷ []) =
      if accepts (trim_wildcard field) then some (trim_wildcard field) else none
  domain_of (ip ∷ domain ∷ more) =
      if text_eq ip (codes "0.0.0.0") || text_eq ip (codes "127.0.0.1") || text_eq ip (codes "::")
      then (if not (text_eq domain (codes "0.0.0.0")) && accepts domain then some domain else none)
      else none

  unfoldable pub is_content : Bytes → Bool
  is_content line = not (text_eq line []) && not (has_prefix line (codes "#"))

  unfoldable pub count_line : Option Bytes → List Bytes × ℕ → List Bytes × ℕ
  count_line none (domains, skipped) = (domains, suc skipped)
  count_line (some d) (domains, skipped) = (d ∷ domains, skipped)

  unfoldable pub parse_lines : List Bytes → List Bytes × ℕ
  unfolding trim_space fields domain_of is_content count_line
  parse_lines [] = ([], 0)
  parse_lines (text ∷ rest) =
      let parsed = parse_lines rest in
      let line = trim_space text in
      if is_content line then count_line (domain_of (fields line)) parsed else parsed

  -- The domains, the skipped lines, and the error of the scanner.
  unfoldable pub parse_hosts_format : Reader → List Bytes × ℕ × Option ReadError
  unfolding lines scan parse_lines
  parse_hosts_format r =
      let (scanned, err) = scan (lines r.content) r.failure in
      let (domains, skipped) = parse_lines scanned in (domains, skipped, err)
