-- ===== src/Blocklist/Store/Lookup/Suffixes.antt =====
-- The names that the walk of Blocklist/Store/Lookup visits, against an independent description:
-- the name itself, and all that stands behind a dot in it.
use s_hole.Prelude.{
  ◌<◌, Bool, true, List, [], ◌∷◌, ◌++◌, ◌≡◌, refl, ap, ◌⊎◌, inl, inr, ◌↔◌, none, some, arith, Bytes,
  length, ◌==◌, if◌then◌else◌, any, ==_iff, Bool-cases,
}
use s_hole.Blocklist.Store.{parent}

-- `s` is `name`, or a parent domain of it.
abbrev pub IsUnder : Bytes → Bytes → Type 0
IsUnder name s = (name ≡ s) ⊎ ((p : Bytes) × (name ≡ p ++ b'.' ∷ s))

pub tails : Bytes → List Bytes
tails [] = []
tails (c ∷ s) = let rest = tails s in if c == b'.' then s ∷ rest else rest

abbrev pub suffixes : Bytes → List Bytes
suffixes name = name ∷ tails name

pub tails-parent-none : (name : Bytes) → parent name ≡ none → tails name ≡ []
unfolding tails parent
tails-parent-none [] h = refl
tails-parent-none (c ∷ s) h = ground (arith, tails-parent-none s)

pub tails-parent-some :
    (name : Bytes) {r : Bytes}
    → parent name ≡ some r
    → (tails name ≡ r ∷ tails r) × (length r < length name)
unfolding tails parent
tails-parent-some [] h = cc
tails-parent-some (c ∷ s) {r} h = ground (arith, tails-parent-some s {r = r})

module _ (q : Bytes → Bool) where
  any-tails_sound :
      (name : Bytes)
      → any q (tails name) ≡ true
      → (s : Bytes) × ((p : Bytes) × (name ≡ p ++ b'.' ∷ s)) × (q s ≡ true)
  unfolding tails
  any-tails_sound [] h = cc
  any-tails_sound (c ∷ s) h = elim (Bool-cases (c == b'.')) [
    | inl dot ↦ elim (Bool-cases (q s)) [
      | inl here ↦ (s, ([], ap (λ x. x ∷ s) ((==_iff c b'.').0 dot)), here)
      | inr other ↦ behind (any-tails_sound s (ground arith))
    ]
    | inr other ↦ behind (any-tails_sound s (ground arith))
  ]
    where
      behind :
          ((t : Bytes) × ((p : Bytes) × (s ≡ p ++ b'.' ∷ t)) × (q t ≡ true))
          → (t : Bytes) × ((p : Bytes) × (c ∷ s ≡ p ++ b'.' ∷ t)) × (q t ≡ true)
      behind (t, (p, e), h) = (t, (c ∷ p, ap (λ x. c ∷ x) e), h)

  any-tails_complete : (p s : Bytes) → q s ≡ true → any q (tails (p ++ b'.' ∷ s)) ≡ true
  unfolding tails
  any-tails_complete [] s h = ground arith
  any-tails_complete (c ∷ p) s h = ground (arith, any-tails_complete p s)

  -- Some visited name passes the test exactly when the name or a parent of it does.
  pub any-suffixes :
      (name : Bytes)
      → (any q (suffixes name) ≡ true) ↔ ((s : Bytes) × IsUnder name s × (q s ≡ true))
  any-suffixes name = (to, from)
    where
      to : any q (suffixes name) ≡ true → (s : Bytes) × IsUnder name s × (q s ≡ true)
      to h = elim (Bool-cases (q name)) [
        | inl here ↦ (name, inl refl, here)
        | inr other ↦ let (s, u, t) = any-tails_sound name (ground arith) in (s, inr u, t)
      ]

      from : ((s : Bytes) × IsUnder name s × (q s ≡ true)) → any q (suffixes name) ≡ true
      from (s, inl e, h) = ground arith
      from (s, inr (p, e), h) = ground (arith, any-tails_complete p s)
