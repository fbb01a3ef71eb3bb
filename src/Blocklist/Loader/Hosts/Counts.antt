-- ===== src/Blocklist/Loader/Hosts/Counts.antt =====
-- internal/blocklist/loader.go: what parseHostsFormat keeps of a list, and what it counts.
use s_hole.Prelude.{
  inl, inr, ℕ, suc, ◌+◌, true, false, List, [], ◌∷◌, ◌≡◌, refl, ap, ◌∙◌, Option, none, some, arith,
  Bytes, length, All, if◌then◌else◌, Bool-cases,
}
use s_hole.Blocklist.Loader.Domains.{valid_domain, is_localhost_name}
use s_hole.Blocklist.Loader.Hosts.{
  trim_space, fields, Reader, lines, scan, trim_wildcard, accepts, domain_of, is_content,
  count_line, parse_lines, parse_hosts_format,
}

module _ (to_lower : Bytes → Bytes) where
  -- The scanned lines that are neither blank nor comments.
  abbrev pub content_lines : List Bytes → ℕ
  content_lines [] = 0
  content_lines (text ∷ rest) =
      let more = content_lines rest in
      if is_content to_lower (trim_space text) then suc more else more

  abbrev pub IsKept : Bytes → Type 0
  IsKept d = (valid_domain d ≡ true) × (is_localhost_name to_lower d ≡ false)

  accepts-IsKept : (d : Bytes) → accepts to_lower d ≡ true → IsKept d
  unfolding accepts
  accepts-IsKept d h = (ground (arith, h), ground (arith, h))

  domain_of-IsKept : (fs : List Bytes) (d : Bytes) → domain_of to_lower fs ≡ some d → IsKept d
  unfolding domain_of
  domain_of-IsKept [] d h = cc
  domain_of-IsKept (field ∷ []) d h = elim (Bool-cases (accepts to_lower (trim_wildcard field))) [
    | inl a ↦ accepts-IsKept d (ground (arith, h, a))
    | inr r ↦ absurd (ground (arith, h, r))
  ]
  domain_of-IsKept (ip ∷ domain ∷ more) d h = elim (Bool-cases (accepts to_lower domain)) [
    | inl a ↦ accepts-IsKept d (ground (arith, h, a))
    | inr r ↦ absurd (ground (arith, h, r))
  ]

  count_line-sum :
      (found : Option Bytes) (parsed : List Bytes × ℕ)
      → length (count_line to_lower found parsed).0 + (count_line to_lower found parsed).1
        ≡ suc (length parsed.0 + parsed.1)
  unfolding count_line
  count_line-sum none (domains, skipped) = omega arith
  count_line-sum (some d) (domains, skipped) = omega arith

  parse_lines-sum :
      (texts : List Bytes)
      → length (parse_lines to_lower texts).0 + (parse_lines to_lower texts).1 ≡ content_lines texts
  unfolding parse_lines
  parse_lines-sum [] = refl
  parse_lines-sum (text ∷ rest) = elim (Bool-cases (is_content to_lower (trim_space text))) [
    | inl content ↦ rw content (
        count_line-sum (domain_of to_lower (fields (trim_space text))) (parse_lines to_lower rest)
        ∙ ap suc (parse_lines-sum rest))
    | inr other ↦ rw other (parse_lines-sum rest)
  ]

  count_line-IsKept :
      (found : Option Bytes) (parsed : List Bytes × ℕ)
      → ((d : Bytes) → found ≡ some d → IsKept d)
      → All IsKept parsed.0
      → All IsKept (count_line to_lower found parsed).0
  unfolding count_line
  count_line-IsKept none (domains, skipped) f h = h
  count_line-IsKept (some d) (domains, skipped) f h = (f d refl, h)

  parse_lines-IsKept : (texts : List Bytes) → All IsKept (parse_lines to_lower texts).0
  unfolding parse_lines
  parse_lines-IsKept [] = tt
  parse_lines-IsKept (text ∷ rest) = elim (Bool-cases (is_content to_lower (trim_space text))) [
    | inl content ↦ rw content (
        count_line-IsKept (domain_of to_lower (fields (trim_space text)))
          (parse_lines to_lower rest) (domain_of-IsKept (fields (trim_space text)))
          (parse_lines-IsKept rest))
    | inr other ↦ rw other (parse_lines-IsKept rest)
  ]

  -- Whatever the bytes of a list are, each domain that its reading gives passes the domain test and
  -- is no name of the machine itself, and each scanned line that is neither blank nor a comment
  -- gives one domain or is counted once as skipped.
  pub parse_hosts_format-IsKept :
      (r : Reader)
      → All IsKept (parse_hosts_format to_lower r).0
        × (length (parse_hosts_format to_lower r).0 + (parse_hosts_format to_lower r).1
            ≡ content_lines (scan (lines r.content) r.failure).0)
  unfolding parse_hosts_format
  parse_hosts_format-IsKept r = (
    parse_lines-IsKept (scan (lines r.content) r.failure).0,
    parse_lines-sum (scan (lines r.content) r.failure).0,
  )
