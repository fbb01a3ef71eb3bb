-- ===== src/Blocklist/Store/Lookup/Verdict.antt =====
-- What IsBlocked and IsAllowlisted decide, and what Replace makes of a list.
use s_hole.Prelude.{
  ℕ, zero, suc, ◌<◌, Bool, true, false, not, ◌&&◌, ◌||◌, List, [], ◌∷◌, ◌≡◌, refl, ◌⊎◌, inl, inr,
  ◌↔◌, arith, Bytes, text_eq, text_eq_iff, text_eq_refl, length, any, Bool-cases, Option-cases,
}
use mathlib.Core.Path.{subst}
use s_hole.Prelude.Sets.{member, insert, member-insert}
use s_hole.Blocklist.Normalize.{normalize}
use s_hole.Blocklist.Store.{Store, parent, fill, replace}
use s_hole.Blocklist.Store.Lookup.{is_blocked_loop, is_allowlisted_loop, is_blocked, is_allowlisted}
use s_hole.Blocklist.Store.Lookup.Suffixes.{
  IsUnder, suffixes, tails-parent-none, tails-parent-some, any-suffixes,
}

module _ (s : Store) where
  is_blocked_loop-any :
      (fuel : ℕ) (name : Bytes) (seen : Bool)
      → length name < fuel
      → is_blocked_loop fuel s name seen ≡ (
          (seen || any (λ x. member x s.blocked) (suffixes name))
          && not (any (λ x. member x s.allowlist) (suffixes name)))
  unfolding is_blocked_loop
  is_blocked_loop-any zero name seen h = elim h [ ]
  is_blocked_loop-any (suc fuel) name seen h = elim (Option-cases (parent name)) [
    | inl last ↦ rw (last, is_blocked_loop, tails-parent-none name last) (ground arith)
    | inr (r, more) ↦
        let (split, shorter) = tails-parent-some name more in
        rw (more, is_blocked_loop, split)
          (ground (arith, is_blocked_loop-any fuel r (seen || member name s.blocked) (omega arith)))
  ]

  is_allowlisted_loop-any :
      (fuel : ℕ) (name : Bytes)
      → length name < fuel
      → is_allowlisted_loop fuel s name ≡ any (λ x. member x s.allowlist) (suffixes name)
  unfolding is_allowlisted_loop
  is_allowlisted_loop-any zero name h = elim h [ ]
  is_allowlisted_loop-any (suc fuel) name h = elim (Option-cases (parent name)) [
    | inl last ↦ rw (last, is_allowlisted_loop, tails-parent-none name last) (ground arith)
    | inr (r, more) ↦
        let (split, shorter) = tails-parent-some name more in
        rw (more, is_allowlisted_loop, split)
          (ground (arith, is_allowlisted_loop-any fuel r (omega arith)))
  ]

module _ (to_lower : Bytes → Bytes) where
  pub is_allowlisted-any :
      (s : Store) (domain : Bytes)
      → is_allowlisted to_lower s domain
        ≡ any (λ x. member x s.allowlist) (suffixes (normalize to_lower domain))
  unfolding is_allowlisted
  is_allowlisted-any s domain =
      is_allowlisted_loop-any s (suc (length (normalize to_lower domain)))
        (normalize to_lower domain) (omega arith)

  pub is_blocked-any :
      (s : Store) (domain : Bytes)
      → is_blocked to_lower s domain ≡ (
          any (λ x. member x s.blocked) (suffixes (normalize to_lower domain))
          && not (is_allowlisted to_lower s domain))
  unfolding is_blocked
  is_blocked-any s domain = rw (is_allowlisted-any s domain) (
      is_blocked_loop-any s (suc (length (normalize to_lower domain))) (normalize to_lower domain)
        false (omega arith))

  -- IsAllowlisted is true exactly when the normalized name, or a parent of it, is on the allowlist.
  pub is_allowlisted_iff :
      (s : Store) (domain : Bytes)
      → (is_allowlisted to_lower s domain ≡ true)
        ↔ ((t : Bytes) × IsUnder (normalize to_lower domain) t × (member t s.allowlist ≡ true))
  is_allowlisted_iff s domain =
      rw (is_allowlisted-any s domain)
        (any-suffixes (λ x. member x s.allowlist) (normalize to_lower domain))

  -- IsBlocked is true exactly when the normalized name or a parent of it is on the block set, and
  -- neither the name nor any parent of it is on the allowlist.
  pub is_blocked_iff :
      (s : Store) (domain : Bytes)
      → (is_blocked to_lower s domain ≡ true) ↔ (
          ((t : Bytes) × IsUnder (normalize to_lower domain) t × (member t s.blocked ≡ true))
          × ((t : Bytes) → IsUnder (normalize to_lower domain) t → member t s.allowlist ≡ false))
  is_blocked_iff s domain = (to, from)
    where
      name : Bytes
      name = normalize to_lower domain

      hits :
          (any (λ x. member x s.blocked) (suffixes name) ≡ true)
          ↔ ((t : Bytes) × IsUnder name t × (member t s.blocked ≡ true))
      hits = any-suffixes (λ x. member x s.blocked) name

      to :
          is_blocked to_lower s domain ≡ true
          → ((t : Bytes) × IsUnder name t × (member t s.blocked ≡ true))
            × ((t : Bytes) → IsUnder name t → member t s.allowlist ≡ false)
      to h = (
        hits.0 (ground (arith, is_blocked-any s domain)),
        λ t u. elim (Bool-cases (member t s.allowlist)) [
          | inl listed ↦
              ground
                (arith, is_blocked-any s domain, (is_allowlisted_iff s domain).1 (t, u, listed))
          | inr free ↦ free
        ],
      )

      from :
          (((t : Bytes) × IsUnder name t × (member t s.blocked ≡ true))
            × ((t : Bytes) → IsUnder name t → member t s.allowlist ≡ false))
          → is_blocked to_lower s domain ≡ true
      from (hit, free) = elim (Bool-cases (is_allowlisted to_lower s domain)) [
        | inl listed ↦
            let (t, u, m) = (is_allowlisted_iff s domain).0 listed in
            absurd (ground (arith, free t u))
        | inr unlisted ↦ ground (arith, is_blocked-any s domain, hits.1 hit)
      ]

  member-fill_sound :
      (t : Bytes) (domains set : List Bytes)
      → member t (fill to_lower domains set) ≡ true
      → ((d : Bytes) × (member d domains ≡ true) × (t ≡ normalize to_lower d))
        ⊎ (member t set ≡ true)
  unfolding fill member
  member-fill_sound t [] set h = inr h
  member-fill_sound t (d ∷ domains) set h =
      elim (member-fill_sound t domains (insert (normalize to_lower d) set) h) [
        | inl (e, m, p) ↦ inl (e, ground arith, p)
        | inr m ↦ elim (Bool-cases (text_eq t (normalize to_lower d))) [
          | inl here ↦ inl (d, ground (arith, text_eq_refl d), (text_eq_iff _ _).0 here)
          | inr other ↦ inr (ground (arith, member-insert t (normalize to_lower d) set))
        ]
      ]

  member-fill_keep :
      (t : Bytes) (domains set : List Bytes)
      → member t set ≡ true
      → member t (fill to_lower domains set) ≡ true
  unfolding fill
  member-fill_keep t [] set h = h
  member-fill_keep t (d ∷ domains) set h =
      member-fill_keep t domains _ (ground (arith, member-insert t (normalize to_lower d) set))

  member-fill_complete :
      (d : Bytes) (domains set : List Bytes)
      → member d domains ≡ true
      → member (normalize to_lower d) (fill to_lower domains set) ≡ true
  unfolding fill member
  member-fill_complete d [] set h = cc
  member-fill_complete d (e ∷ domains) set h = elim (Bool-cases (text_eq d e)) [
    | inl here ↦ rw ((text_eq_iff d e).0 here) (
        member-fill_keep (normalize to_lower e) domains _ (
          ground (
            arith,
            member-insert (normalize to_lower e) (normalize to_lower e) set,
            text_eq_refl (normalize to_lower e),
          )))
    | inr other ↦ member-fill_complete d domains _ (ground arith)
  ]

  -- After Replace a name is blocked exactly when it is a listed domain or lies under one, both in
  -- normalized form, and is not allowlisted: the old block set has no effect.
  pub is_blocked-replace_iff :
      (s : Store) (domains : List Bytes) (host : Bytes)
      → (is_blocked to_lower (replace to_lower s domains) host ≡ true) ↔ (
          ((d : Bytes) × (member d domains ≡ true)
            × IsUnder (normalize to_lower host) (normalize to_lower d))
          × (is_allowlisted to_lower s host ≡ false))
  unfolding replace member
  is_blocked-replace_iff s domains host = (to, from)
    where
      s' : Store
      s' = replace to_lower s domains

      same : is_allowlisted to_lower s' host ≡ is_allowlisted to_lower s host
      same = rw (is_allowlisted-any s host, is_allowlisted-any s' host) refl

      to :
          is_blocked to_lower s' host ≡ true
          → ((d : Bytes) × (member d domains ≡ true)
              × IsUnder (normalize to_lower host) (normalize to_lower d))
            × (is_allowlisted to_lower s host ≡ false)
      to h =
          let hit = ((is_blocked_iff s' host).0 h).0 in
          elim (member-fill_sound hit.0 domains [] hit.2) [
            | inl (d, m, e) ↦ (
              (d, m, subst (IsUnder (normalize to_lower host)) e hit.1),
              ground (arith, is_blocked-any s' host, same),
            )
            | inr m ↦ absurd (cc m)
          ]

      from :
          (((d : Bytes) × (member d domains ≡ true)
              × IsUnder (normalize to_lower host) (normalize to_lower d))
            × (is_allowlisted to_lower s host ≡ false))
          → is_blocked to_lower s' host ≡ true
      from ((d, m, u), free) = ground (
        arith,
        is_blocked-any s' host,
        same,
        (any-suffixes (λ x. member x s'.blocked) (normalize to_lower host)).1
            (normalize to_lower d, u, member-fill_complete d domains [] m),
      )
