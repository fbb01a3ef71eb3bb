-- ===== src/Blocklist/Loader/Domains/Valid.antt =====
-- internal/blocklist/loader.go: what ValidDomain accepts.
use s_hole.Prelude.{
  ◌≢◌, ◌≤◌, true, List, [], ◌∷◌, ◌≡◌, refl, sym, ◌∙◌, ◌↔◌, arith, Bytes, length, All, Lacks,
}
use s_hole.Blocklist.Normalize.{strip_dot}
use s_hole.Blocklist.Loader.Domains.{has_interior_dot, all_allowed, labels_loop, valid_domain}
use s_hole.Blocklist.Loader.Domains.Labels.{
  labels, all_well, labels_allowed, labels_loop-split, IsLabel, split-Lacks, IsLabel-sound,
  IsLabel-complete, all_allowed-split, All-all_allowed, all_allowed-All, has_interior_dot-labels,
  all_allowed-strip_dot,
}

well-IsLabel :
    (ls : List Bytes)
    → All (Lacks b'.') ls
    → labels_allowed ls ≡ true
    → all_well ls ≡ true
    → All IsLabel ls
well-IsLabel [] n a w = tt
well-IsLabel (l ∷ ls) n a w = (
  IsLabel-sound l n.0 (All-all_allowed l (ground (arith, a))) (ground (arith, w)),
  well-IsLabel ls n.1 (ground (arith, a)) (ground (arith, w)),
)

IsLabel-well :
    (ls : List Bytes) → All IsLabel ls → (all_well ls ≡ true) × (labels_allowed ls ≡ true)
IsLabel-well [] h = (refl, refl)
IsLabel-well (l ∷ ls) h =
    let (w, a) = IsLabel-well ls h.1 in
    (ground (arith, w, IsLabel-complete l h.0), ground (arith, a, all_allowed-All l h.0.allowed))

pub valid_domain-parts :
    (s : Bytes)
    → (valid_domain s ≡ true) ↔ (
        (length s ≤ 253)
        × (has_interior_dot s ≡ true)
        × (all_allowed s ≡ true)
        × (labels_loop b'.' (strip_dot s) ≡ true))
unfolding valid_domain has_interior_dot
valid_domain-parts [] = (λ h. ground (arith, h), λ (size, dot, allowed, loop). ground (arith, dot))
valid_domain-parts (c ∷ s) = (
  λ h. (ground (arith, h), ground (arith, h), ground (arith, h), ground (arith, h)),
  λ (size, dot, allowed, loop). ground (arith, size, dot, allowed, loop),
)

pub valid_domain-nil : valid_domain [] ≢ true
unfolding valid_domain
valid_domain-nil h = cc

-- An entry is accepted exactly when it has at most 253 bytes and, without one final dot, is at least
-- two labels, each not empty, of letters, digits, hyphens and underscores, and with no hyphen at
-- its ends.
pub valid_domain_iff :
    (s : Bytes)
    → (valid_domain s ≡ true) ↔ (
        (length s ≤ 253) × (2 ≤ length (labels (strip_dot s))) × All IsLabel (labels (strip_dot s)))
valid_domain_iff s = (forward, backward)
  where
    forward :
        valid_domain s ≡ true
        → (length s ≤ 253)
          × (2 ≤ length (labels (strip_dot s)))
          × All IsLabel (labels (strip_dot s))
    forward h =
        let (size, dot, allowed, loop) = (valid_domain-parts s).0 h in
        let well = sym (labels_loop-split b'.' (strip_dot s)) ∙ loop in
        let a = sym (all_allowed-split (strip_dot s)) ∙ sym (all_allowed-strip_dot s) ∙ allowed in
        (
          size,
          ground (arith, has_interior_dot-labels s well, dot),
          well-IsLabel (labels (strip_dot s)) (split-Lacks (strip_dot s)) a well,
        )

    backward :
        (length s ≤ 253) × (2 ≤ length (labels (strip_dot s))) × All IsLabel (labels (strip_dot s))
        → valid_domain s ≡ true
    backward (size, several, each) =
        let (w, a) = IsLabel-well (labels (strip_dot s)) each in
        (valid_domain-parts s).1 (
          size,
          has_interior_dot-labels s w ∙ ground (arith, several),
          all_allowed-strip_dot s ∙ all_allowed-split (strip_dot s) ∙ a,
          labels_loop-split b'.' (strip_dot s) ∙ w,
        )
