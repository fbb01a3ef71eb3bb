-- ===== src/Blocklist/Loader/Hosts/Printed.antt =====
-- internal/blocklist/loader.go: parseHostsFormat reads back the lists it is meant for.
use s_hole.Prelude.{
  ℕ, ◌<◌, ◌≤◌, Bool, true, ◌&&◌, List, [], ◌∷◌, ◌++◌, map, ◌≡◌, ◌≢◌, refl, ap, ◌∙◌, none, some,
  arith, Bytes, codes, text_eq_iff, length, All, All-append, All-imp, Lacks, ltb,
}
use s_hole.Blocklist.Loader.Domains.{is_allowed, valid_domain}
use s_hole.Blocklist.Loader.Domains.Valid.{valid_domain-parts, valid_domain-nil}
use s_hole.Blocklist.Loader.Domains.Labels.{All-all_allowed}
use s_hole.Blocklist.Loader.Hosts.{
  trim_space, fields, cut_lines, drop_empty_end, lines, drop_cr, max_token, scan, trim_wildcard,
  accepts, domain_of, is_content, count_line, parse_lines, parse_hosts_format,
}
use s_hole.Blocklist.Loader.Hosts.Counts.{IsKept}
use s_hole.Blocklist.Loader.Hosts.Words.{
  IsGraphic, IsPrinted, EndsGraphic, EndsGraphic-word, IsPrinted-word, trim_space-EndsGraphic,
  drop_cr-EndsGraphic, fields-one, fields-two,
}

-- The three kinds of lines of the lists that are read.
pub data LineFormat : Type 0 where
  plain : LineFormat
  wildcard : LineFormat
  hosts : LineFormat

abbrev pub print_line : LineFormat → Bytes → Bytes
print_line plain d = d
print_line wildcard d = codes "*." ++ d
print_line hosts d = codes "0.0.0.0" ++ b' ' ∷ d

abbrev pub print_lines : List (LineFormat × Bytes) → List Bytes
print_lines = map (λ (format, d). print_line format d)

abbrev pub end_lines : List Bytes → Bytes
end_lines [] = []
end_lines (l ∷ ls) = l ++ 10 ∷ end_lines ls

cut_lines-line :
    (l s : Bytes) → Lacks 10 l → cut_lines (l ++ 10 ∷ s) ≡ (l, (cut_lines s).0 ∷ (cut_lines s).1)
unfolding cut_lines
cut_lines-line [] s h = refl
cut_lines-line (c ∷ l) s h = rw (cut_lines-line l s h.1) (ground (arith, h.0))

drop_empty_end-cons :
    (l m : Bytes) (ms : List Bytes) → drop_empty_end (l ∷ m ∷ ms) ≡ l ∷ drop_empty_end (m ∷ ms)
unfolding drop_empty_end
drop_empty_end-cons l m ms = refl

lines-end_lines : (ls : List Bytes) → All (Lacks 10) ls → lines (end_lines ls) ≡ ls
unfolding lines cut_lines drop_empty_end
lines-end_lines [] h = refl
lines-end_lines (l ∷ ls) h = rw (cut_lines-line l (end_lines ls) h.0) (
    drop_empty_end-cons l (cut_lines (end_lines ls)).0 (cut_lines (end_lines ls)).1
    ∙ ap (λ x. l ∷ x) (lines-end_lines ls h.1))

-- A line that the scanner and the trimming leave as it is.
record IsLine (l : Bytes) : Type 0 where
  lacks : Lacks 10 l
  short : length l < max_token
  no_cr : drop_cr l ≡ l
  trimmed : trim_space l ≡ l

scan-IsLine : (ls : List Bytes) → All IsLine ls → scan ls none ≡ (ls, none)
unfolding scan
scan-IsLine [] h = refl
scan-IsLine (l ∷ ls) h = rw (scan-IsLine ls h.1, h.0.no_cr) (ground (arith, h.0.short))

is_allowed-IsGraphic : (c : ℕ) → is_allowed c ≡ true → IsGraphic c × (c ≢ b'#') × (c ≢ b'*')
unfolding is_allowed
is_allowed-IsGraphic c h =
    ((ground (arith, h), ground (arith, h)), ground (arith, h), ground (arith, h))

IsPrinted-Lacks : (w : Bytes) → All IsPrinted w → Lacks 10 w
IsPrinted-Lacks [] h = tt
IsPrinted-Lacks (c ∷ w) h = (ground (arith, h.0.0), IsPrinted-Lacks w h.1)

cons-IsLine :
    (c : ℕ) (s : Bytes)
    → IsGraphic c
    → All IsPrinted s
    → EndsGraphic (c ∷ s)
    → length (c ∷ s) < max_token
    → IsLine (c ∷ s)
cons-IsLine c s h p e short = record {
  lacks = (ground (arith, h.0), IsPrinted-Lacks s p);
  short = short;
  no_cr = drop_cr-EndsGraphic (c ∷ s) e;
  trimmed = trim_space-EndsGraphic c s h p e;
}

-- What the domain test leaves of an entry to know.
abbrev IsWord : Bytes → Type 0
IsWord [] = ⊥
IsWord (c ∷ s) = IsGraphic c × (c ≢ b'#') × (c ≢ b'*') × All IsGraphic s × (length (c ∷ s) ≤ 253)

valid_domain-IsWord : (d : Bytes) → valid_domain d ≡ true → IsWord d
valid_domain-IsWord [] h = valid_domain-nil h
valid_domain-IsWord (c ∷ s) h =
    let (size, dot, allowed, loop) = (valid_domain-parts (c ∷ s)).0 h in
    let each = All-all_allowed (c ∷ s) allowed in
    let (graphic, no_mark, no_star) = is_allowed-IsGraphic c each.0 in
    (
      graphic,
      no_mark,
      no_star,
      All-imp (λ x. is_allowed x ≡ true) IsGraphic s (λ x a. (is_allowed-IsGraphic x a).0) each.1,
      size,
    )

number-IsGraphic : (c : ℕ) → (ltb 32 c && ltb c 127) ≡ true → IsGraphic c
number-IsGraphic c h = (ground (arith, h), ground (arith, h))

zeros-IsGraphic : All IsGraphic (codes "0.0.0.0")
zeros-IsGraphic = go (codes "0.0.0.0") refl
  where
    all_graphic : Bytes → Bool
    all_graphic [] = true
    all_graphic (c ∷ s) = (ltb 32 c && ltb c 127) && all_graphic s

    go : (s : Bytes) → all_graphic s ≡ true → All IsGraphic s
    go [] h = tt
    go (c ∷ s) h = (number-IsGraphic c (ground (arith, h)), go s (ground (arith, h)))

EndsGraphic-append :
    (v : Bytes) (c : ℕ) (s : Bytes) → EndsGraphic (c ∷ s) → EndsGraphic (v ++ c ∷ s)
EndsGraphic-append [] c s h = h
EndsGraphic-append (x ∷ []) c s h = h
EndsGraphic-append (x ∷ y ∷ v) c s h = EndsGraphic-append (y ∷ v) c s h

print_line-IsLine : (format : LineFormat) (d : Bytes) → IsWord d → IsLine (print_line format d)
print_line-IsLine format [] w = absurd w
print_line-IsLine plain (c ∷ s) (g, m, a, h, n) =
    cons-IsLine c s g (IsPrinted-word s h) (EndsGraphic-word (c ∷ s) (g, h)) (omega (arith, n))
print_line-IsLine wildcard (c ∷ s) (g, m, a, h, n) =
    cons-IsLine b'*' (b'.' ∷ c ∷ s) (number-IsGraphic b'*' refl)
      (IsPrinted-word (b'.' ∷ c ∷ s) (number-IsGraphic b'.' refl, (g, h)))
      (EndsGraphic-append (b'*' ∷ b'.' ∷ []) c s (EndsGraphic-word (c ∷ s) (g, h)))
      (omega (arith, n))
print_line-IsLine hosts (c ∷ s) (g, m, a, h, n) =
    cons-IsLine b'0' (codes ".0.0.0" ++ b' ' ∷ c ∷ s) (number-IsGraphic b'0' refl)
      (All-append IsPrinted (codes ".0.0.0") (b' ' ∷ c ∷ s)
        (IsPrinted-word (codes ".0.0.0") zeros-IsGraphic.1)
        ((omega arith, omega arith), IsPrinted-word (c ∷ s) (g, h)))
      (EndsGraphic-append (codes "0.0.0.0 ") c s (EndsGraphic-word (c ∷ s) (g, h)))
      (omega (arith, n))

module _ (to_lower : Bytes → Bytes) where
  abbrev pub IsEntry : LineFormat × Bytes → Type 0
  IsEntry (format, d) = IsKept to_lower d × (d ≢ codes "0.0.0.0")

  entry_content :
      (format : LineFormat) (d : Bytes)
      → IsWord d
      → is_content to_lower (print_line format d) ≡ true
  unfolding is_content
  entry_content format [] w = absurd w
  entry_content plain (c ∷ s) w = ground (arith, w.1)
  entry_content wildcard (c ∷ s) w = refl
  entry_content hosts (c ∷ s) w = refl

  IsKept-accepts : (d : Bytes) → IsKept to_lower d → accepts to_lower d ≡ true
  unfolding accepts
  IsKept-accepts d h = rw (h.0, h.1) refl

  entry_domain :
      (format : LineFormat) (d : Bytes)
      → IsWord d
      → IsEntry (format, d)
      → domain_of to_lower (fields (print_line format d)) ≡ some d
  unfolding domain_of trim_wildcard
  entry_domain format [] w e = absurd w
  entry_domain plain (c ∷ s) (g, m, a, h, n) e =
      rw (fields-one c s (g, h)) (ground (arith, a, IsKept-accepts (c ∷ s) e.0))
  entry_domain wildcard (c ∷ s) (g, m, a, h, n) e =
      rw
        (
          fields-one b'*' (b'.' ∷ c ∷ s)
              (number-IsGraphic b'*' refl, (number-IsGraphic b'.' refl, (g, h))),
          IsKept-accepts (c ∷ s) e.0,
        )
        refl
  entry_domain hosts (c ∷ s) (g, m, a, h, n) e =
      rw (fields-two b'0' (codes ".0.0.0") c s zeros-IsGraphic (g, h), IsKept-accepts (c ∷ s) e.0)
        (ground (arith, e.1, text_eq_iff (c ∷ s) (codes "0.0.0.0")))

  parse_lines-entries :
      (es : List (LineFormat × Bytes))
      → All IsEntry es
      → parse_lines to_lower (print_lines es) ≡ (map (λ (format, d). d) es, 0)
  unfolding parse_lines count_line
  parse_lines-entries [] h = refl
  parse_lines-entries ((format, d) ∷ es) h =
      let w = valid_domain-IsWord d h.0.0.0 in
      rw
        (
          (print_line-IsLine format d w).trimmed,
          entry_content format d w,
          entry_domain format d w h.0,
          parse_lines-entries es h.1,
        )
        refl

  print_lines-IsLine :
      (es : List (LineFormat × Bytes)) → All IsEntry es → All IsLine (print_lines es)
  print_lines-IsLine [] h = tt
  print_lines-IsLine ((format, d) ∷ es) h =
      (print_line-IsLine format d (valid_domain-IsWord d h.0.0.0), print_lines-IsLine es h.1)

  -- A list printed with one domain on each line, as the name alone, behind *. or behind 0.0.0.0 and
  -- a space, is read back as its domains in their order, with no skipped line and no error, when each
  -- domain passes the tests and is not 0.0.0.0.
  pub parse_hosts_format-print :
      (es : List (LineFormat × Bytes))
      → All IsEntry es
      → parse_hosts_format to_lower
          (record { content = end_lines (print_lines es); failure = none })
        ≡ (map (λ (format, d). d) es, 0, none)
  unfolding parse_hosts_format
  parse_hosts_format-print es h =
      let each = print_lines-IsLine es h in
      rw
        (
          lines-end_lines (print_lines es)
              (All-imp IsLine (Lacks 10) (print_lines es) (λ l i. i.lacks) each),
          scan-IsLine (print_lines es) each,
          parse_lines-entries es h,
        )
        refl
