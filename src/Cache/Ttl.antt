-- ===== src/Cache/Ttl.antt =====
-- The TTL arithmetic of Cache: ageing, the cap, and the smallest TTL of an answer.
use s_hole.Prelude.{
  ℕ, ◌+◌, ◌≤◌, ◌<◌, List, [], ◌∷◌, map, ◌≡◌, ◌≢◌, refl, ◌∙◌, ◌⊎◌, inl, inr, ◌↔◌, arith, All, ltb,
  ◌==◌, if◌then◌else◌, ==_iff, Bool-cases,
}
use s_hole.Dns.{Rr, Msg, type_opt}
use s_hole.Cache.{
  max_ttl, max_u32, decrement_ttl, decrement_ttls, cap_ttl, cap_ttls, smallest_ttl, min_answer_ttl,
}

abbrev pub IsOpt : Rr → Type 0
IsOpt rr = rr.header.rrtype ≡ type_opt

-- A record that is not OPT has a TTL of at most `limit`.
abbrev pub Within : ℕ → Rr → Type 0
Within limit rr = rr.header.rrtype ≢ type_opt → rr.header.ttl ≤ limit

decrement_ttl-add :
    (a b : ℕ) (rr : Rr) → decrement_ttl b (decrement_ttl a rr) ≡ decrement_ttl (a + b) rr
unfolding decrement_ttl
decrement_ttl-add a b rr = ground arith

map-decrement_ttl-add :
    (a b : ℕ) (rrs : List Rr)
    → map (decrement_ttl b) (map (decrement_ttl a) rrs) ≡ map (decrement_ttl (a + b)) rrs
map-decrement_ttl-add a b [] = refl
map-decrement_ttl-add a b (rr ∷ rrs) = cc (decrement_ttl-add a b rr, map-decrement_ttl-add a b rrs)

-- Ageing a reply by `a` and then by `b` seconds is ageing it by `a + b`, in all three sections.
pub decrement_ttls-add :
    (msg : Msg) (a b : ℕ) → decrement_ttls (decrement_ttls msg a) b ≡ decrement_ttls msg (a + b)
unfolding decrement_ttls
decrement_ttls-add msg a b = cc (
  map-decrement_ttl-add a b msg.answer,
  map-decrement_ttl-add a b msg.ns,
  map-decrement_ttl-add a b msg.extra,
)

pub cap_ttl-Within : (limit : ℕ) (rr : Rr) → Within limit (cap_ttl limit rr)
unfolding cap_ttl
cap_ttl-Within limit rr = λ h. ground arith

cap_ttl-rrtype : (limit : ℕ) (rr : Rr) → (cap_ttl limit rr).header.rrtype ≡ rr.header.rrtype
unfolding cap_ttl
cap_ttl-rrtype limit rr = ground arith

pub map-cap_ttl-Within : (limit : ℕ) (rrs : List Rr) → All (Within limit) (map (cap_ttl limit) rrs)
map-cap_ttl-Within limit [] = tt
map-cap_ttl-Within limit (rr ∷ rrs) = (cap_ttl-Within limit rr, map-cap_ttl-Within limit rrs)

pub map-cap_ttl-IsOpt :
    (limit : ℕ) (rrs : List Rr) → All IsOpt rrs → All IsOpt (map (cap_ttl limit) rrs)
map-cap_ttl-IsOpt limit [] h = tt
map-cap_ttl-IsOpt limit (rr ∷ rrs) h =
    (cap_ttl-rrtype limit rr ∙ h.0, map-cap_ttl-IsOpt limit rrs h.1)

pub smallest_ttl-pos_iff :
    (rrs : List Rr) (s : ℕ)
    → (0 < smallest_ttl rrs s) ↔ ((0 < s) × All (λ rr. 0 < rr.header.ttl) rrs)
unfolding smallest_ttl
smallest_ttl-pos_iff [] s = (λ h. (h, tt), λ h. h.0)
smallest_ttl-pos_iff (rr ∷ rrs) s =
    ground (arith, smallest_ttl-pos_iff rrs (if ltb rr.header.ttl s then rr.header.ttl else s))

pub map-cap_ttl-pos :
    (limit : ℕ) (rrs : List Rr)
    → 0 < limit
    → All (λ rr. 0 < rr.header.ttl) rrs
    → All (λ rr. 0 < rr.header.ttl) (map (cap_ttl limit) rrs)
unfolding cap_ttl
map-cap_ttl-pos limit [] l h = tt
map-cap_ttl-pos limit (rr ∷ rrs) l h = (ground arith, map-cap_ttl-pos limit rrs l h.1)

pub smallest_ttl-le : (rrs : List Rr) (s : ℕ) → smallest_ttl rrs s ≤ s
unfolding smallest_ttl
smallest_ttl-le [] s = omega arith
smallest_ttl-le (rr ∷ rrs) s =
    ground (arith, smallest_ttl-le rrs (if ltb rr.header.ttl s then rr.header.ttl else s))

-- No record of the section has a TTL below the smallest.
pub smallest_ttl-le-All :
    (rrs : List Rr) (s m : ℕ) → m ≤ smallest_ttl rrs s → All (λ rr. m ≤ rr.header.ttl) rrs
unfolding smallest_ttl
smallest_ttl-le-All [] s m h = tt
smallest_ttl-le-All (rr ∷ rrs) s m h = (
  ground (arith, smallest_ttl-le rrs (if ltb rr.header.ttl s then rr.header.ttl else s)),
  smallest_ttl-le-All rrs (if ltb rr.header.ttl s then rr.header.ttl else s) m h,
)

pub smallest_ttl-cap :
    (limit : ℕ) (rrs : List Rr) (s : ℕ)
    → (smallest_ttl (map (cap_ttl limit) rrs) s ≤ limit)
      ⊎ (All IsOpt rrs × (map (cap_ttl limit) rrs ≡ rrs))
unfolding smallest_ttl
smallest_ttl-cap limit [] s = inr (tt, refl)
smallest_ttl-cap limit (rr ∷ rrs) s = elim (smallest_ttl-cap limit rrs next) [
  | inl low ↦ inl low
  | inr (opts, same) ↦ elim (Bool-cases (rr.header.rrtype == type_opt)) [
    | inl opt ↦ inr (((==_iff _ _).0 opt, opts), unfold cap_ttl in ground arith)
    | inr plain ↦ inl (
        ground (
          arith,
          smallest_ttl-le (map (cap_ttl limit) rrs) next,
          cap_ttl-Within limit rr (ground (arith, cap_ttl-rrtype limit rr)),
        ))
  ]
]
  where
    next : ℕ
    next = if ltb (cap_ttl limit rr).header.ttl s then (cap_ttl limit rr).header.ttl else s

-- A reply with a positive smallest TTL keeps one under the cap, and it is at most the cap unless
-- the answer holds OPT records only, which the cap leaves alone.
pub min_answer_ttl-cap_ttls :
    (msg : Msg)
    → min_answer_ttl msg ≢ 0
    → (0 < min_answer_ttl (cap_ttls msg max_ttl))
      × ((min_answer_ttl (cap_ttls msg max_ttl) ≤ max_ttl) ⊎ All IsOpt msg.answer)
unfolding min_answer_ttl cap_ttls
min_answer_ttl-cap_ttls msg h = elim (smallest_ttl-cap max_ttl msg.answer max_u32) [
  | inl low ↦ (ground (arith, capped_pos), inl (ground arith))
  | inr (opts, same) ↦ (ground arith, inr opts)
]
  where
    pos : 0 < smallest_ttl msg.answer max_u32
    pos = ground arith

    capped_pos : 0 < smallest_ttl (map (cap_ttl max_ttl) msg.answer) max_u32
    capped_pos = (smallest_ttl-pos_iff (map (cap_ttl max_ttl) msg.answer) max_u32).1 (
      omega arith,
      map-cap_ttl-pos max_ttl msg.answer (omega arith)
          ((smallest_ttl-pos_iff msg.answer max_u32).0 pos).1,
    )
