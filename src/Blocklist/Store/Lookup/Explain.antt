-- ===== src/Blocklist/Store/Lookup/Explain.antt =====
-- internal/blocklist/store.go, Explain: the walk that it reports, and its agreement with IsBlocked.
use s_hole.Prelude.{
  ℕ, zero, suc, ◌<◌, Bool, false, not, List, [], ◌∷◌, ◌++◌, map, append-nil, append_assoc, ◌≡◌,
  refl, ap, ◌∙◌, inl, inr, arith, Bytes, text_eq, text_eq_iff, length, any, if◌then◌else◌,
  Option-cases,
}
use native.Mathlib.Nat.{le_refl}
use s_hole.Prelude.Sets.{member}
use s_hole.Blocklist.Normalize.{normalize}
use s_hole.Blocklist.Store.{Store, parent}
use s_hole.Blocklist.Store.Lookup.{
  LevelResult, Explanation, blocked, allowlisted, allowed, explain_level, explain_loop, decide,
  explain, is_blocked, is_allowlisted,
}
use s_hole.Blocklist.Store.Lookup.Suffixes.{suffixes, tails-parent-none, tails-parent-some}
use s_hole.Blocklist.Store.Lookup.Verdict.{is_blocked-any, is_allowlisted-any}

-- The first of the names that passes the test, or the empty string.
abbrev pub first_match : (Bytes → Bool) → List Bytes → Bytes
first_match q [] = []
first_match q (x ∷ xs) = if q x then x else first_match q xs

module _ (s : Store) where
  abbrev pub level : Bytes → LevelResult
  level t = record {
    suffix = t;
    is_blocked = member t s.blocked;
    is_allowlisted = member t s.allowlist;
  }

  abbrev levels : Explanation → List Bytes → Explanation
  levels exp [] = exp
  levels exp (t ∷ ts) = levels (explain_level s t exp) ts

  explain_loop-levels :
      (fuel : ℕ) (cur : Bytes) (exp : Explanation)
      → length cur < fuel
      → explain_loop fuel s cur exp ≡ levels exp (suffixes cur)
  unfolding explain_loop
  explain_loop-levels zero cur exp h = elim h [ ]
  explain_loop-levels (suc fuel) cur exp h = elim (Option-cases (parent cur)) [
    | inl last ↦ rw (last, explain_loop, tails-parent-none cur last)
    | inr (r, more) ↦
        let (split, shorter) = tails-parent-some cur more in
        rw (more, explain_loop, split)
          (explain_loop-levels fuel r (explain_level s cur exp) (omega arith))
  ]

  walk-levels :
      (ts : List Bytes) (exp : Explanation) → (levels exp ts).walk ≡ exp.walk ++ map level ts
  unfolding explain_level
  walk-levels [] exp = rw append-nil
  walk-levels (t ∷ ts) exp = rw (walk-levels ts) (rw append_assoc)

  domain-levels : (ts : List Bytes) (exp : Explanation) → (levels exp ts).domain ≡ exp.domain
  unfolding explain_level
  domain-levels [] exp = refl
  domain-levels (t ∷ ts) exp = domain-levels ts (explain_level s t exp)

  matched_block-levels :
      (ts : List Bytes) (exp : Explanation)
      → member [] s.blocked ≡ false
      → (levels exp ts).matched_block ≡ (
          if text_eq exp.matched_block []
          then first_match (λ x. member x s.blocked) ts
          else exp.matched_block)
  unfolding explain_level
  matched_block-levels [] exp h = ground (arith, text_eq_iff exp.matched_block [])
  matched_block-levels (t ∷ ts) exp h = ground (
    arith,
    matched_block-levels ts (explain_level s t exp) h,
    text_eq_iff t [],
    text_eq_iff exp.matched_block [],
  )

  matched_allowlist-levels :
      (ts : List Bytes) (exp : Explanation)
      → member [] s.allowlist ≡ false
      → (levels exp ts).matched_allowlist ≡ (
          if text_eq exp.matched_allowlist []
          then first_match (λ x. member x s.allowlist) ts
          else exp.matched_allowlist)
  unfolding explain_level
  matched_allowlist-levels [] exp h = ground (arith, text_eq_iff exp.matched_allowlist [])
  matched_allowlist-levels (t ∷ ts) exp h = ground (
    arith,
    matched_allowlist-levels ts (explain_level s t exp) h,
    text_eq_iff t [],
    text_eq_iff exp.matched_allowlist [],
  )

first_match-any :
    (q : Bytes → Bool) (ts : List Bytes)
    → q [] ≡ false
    → text_eq (first_match q ts) [] ≡ not (any q ts)
first_match-any q [] h = refl
first_match-any q (t ∷ ts) h = ground (arith, first_match-any q ts h, text_eq_iff t [])

module _ (to_lower : Bytes → Bytes) (s : Store) (domain : Bytes) where
  abbrev start : Explanation
  start = record {
    domain = normalize to_lower domain;
    decision = allowed;
    matched_block = [];
    matched_allowlist = [];
    walk = [];
  }

  loop-levels :
      explain_loop (suc (length (normalize to_lower domain))) s (normalize to_lower domain) start
      ≡ levels s start (suffixes (normalize to_lower domain))
  loop-levels =
      explain_loop-levels s _ (normalize to_lower domain) start
        (le_refl (suc (length (normalize to_lower domain))))

  -- Explain reports the normalized name and one level for each label suffix of it, the most specific
  -- first, with the suffix's membership in the block set and in the allowlist.
  pub explain-walk :
      ((explain to_lower s domain).domain ≡ normalize to_lower domain)
      × ((explain to_lower s domain).walk ≡ map (level s) (suffixes (normalize to_lower domain)))
  unfolding explain
  explain-walk = (
    ap (λ e. e.domain) loop-levels ∙ domain-levels s (suffixes (normalize to_lower domain)) start,
    ap (λ e. e.walk) loop-levels ∙ walk-levels s (suffixes (normalize to_lower domain)) start,
  )

  module _ (no_root_block : member [] s.blocked ≡ false)
      (no_root_allow : member [] s.allowlist ≡ false) where
    -- If the empty name is on neither list, Explain's two matches are the most specific blocked
    -- suffix and the most specific allowlisted suffix, or empty if there is none.
    pub explain-matches :
        ((explain to_lower s domain).matched_block
          ≡ first_match (λ x. member x s.blocked) (suffixes (normalize to_lower domain)))
        × ((explain to_lower s domain).matched_allowlist
            ≡ first_match (λ x. member x s.allowlist) (suffixes (normalize to_lower domain)))
    unfolding explain
    explain-matches = (
      ap (λ e. e.matched_block) loop-levels
          ∙ matched_block-levels s (suffixes (normalize to_lower domain)) start no_root_block,
      ap (λ e. e.matched_allowlist) loop-levels
          ∙ matched_allowlist-levels s (suffixes (normalize to_lower domain)) start no_root_allow,
    )

    -- If the empty name is on neither list, Explain decides as the DNS path does: "allowlisted"
    -- where IsAllowlisted is true, "blocked" where IsBlocked is true, and "allowed" otherwise.
    pub explain-decision : (explain to_lower s domain).decision ≡ (
        if is_allowlisted to_lower s domain
        then allowlisted
        else if is_blocked to_lower s domain
        then blocked
        else allowed)
    unfolding explain decide
    explain-decision = ground (
      arith,
      explain-matches,
      is_blocked-any to_lower s domain,
      is_allowlisted-any to_lower s domain,
      first_match-any (λ x. member x s.blocked) (suffixes (normalize to_lower domain))
          no_root_block,
      first_match-any (λ x. member x s.allowlist) (suffixes (normalize to_lower domain))
          no_root_allow,
    )
