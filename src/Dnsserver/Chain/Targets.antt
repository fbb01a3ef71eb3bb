-- ===== src/Dnsserver/Chain/Targets.antt =====
-- internal/dnsserver/cname.go, chainBlocked: which replies it blocks.
use s_hole.Prelude.{
  Bool, true, false, List, [], ◌∷◌, ◌++◌, ◌≡◌, refl, ap, ◌↔◌, inl, inr, arith, Bytes, any, ==_iff,
  Bool-cases,
}
use s_hole.Dns.{Header, Rr, Rdata, a, aaaa, cname, opt, other, Msg, rcode_success}
use s_hole.Blocklist.Store.{Store}
use s_hole.Blocklist.Store.Lookup.{is_blocked, is_allowlisted}
use s_hole.Dnsserver.Chain.{is_cname, is_blocked_cname, chain_blocked}

-- An element of the list has the property.
abbrev pub Some : (Rr → Type 0) → List Rr → Type 0
Some P rrs =
    (before : List Rr) × (rr : Rr) × (after : List Rr) × (rrs ≡ before ++ rr ∷ after) × P rr

any_sound : (p : Rr → Bool) (rrs : List Rr) → any p rrs ≡ true → Some (λ rr. p rr ≡ true) rrs
any_sound p [] h = cc
any_sound p (rr ∷ rrs) h = elim (Bool-cases (p rr)) [
  | inl here ↦ ([], rr, rrs, refl, here)
  | inr there ↦
      let (before, x, after, e, holds) = any_sound p rrs (ground arith) in
      (rr ∷ before, x, after, ap (λ l. rr ∷ l) e, holds)
]

any_complete :
    (p : Rr → Bool) (before : List Rr) (rr : Rr) (after : List Rr)
    → p rr ≡ true
    → any p (before ++ rr ∷ after) ≡ true
any_complete p [] rr after h = ground (arith, h)
any_complete p (x ∷ before) rr after h = ground (arith, any_complete p before rr after h)

module _ (to_lower : Bytes → Bytes) (store : Store) where
  -- The record is a CNAME with a blocked target.
  abbrev pub IsBlockedTarget : Rr → Type 0
  IsBlockedTarget rr =
      (target : Bytes) × (rr.rdata ≡ cname target) × (is_blocked to_lower store target ≡ true)

  target_of :
      (header : Header) (rdata : Rdata)
      → is_blocked_cname to_lower store (record { header = header; rdata = rdata }) ≡ true
      → (target : Bytes) × (rdata ≡ cname target) × (is_blocked to_lower store target ≡ true)
  unfolding is_blocked_cname
  target_of header (cname target) h = (target, refl, h)
  target_of header (a _) h = cc
  target_of header (aaaa _) h = cc
  target_of header (opt _) h = cc
  target_of header (other _) h = cc

  is_blocked_cname-target :
      (rr : Rr) → IsBlockedTarget rr → is_blocked_cname to_lower store rr ≡ true
  unfolding is_blocked_cname
  is_blocked_cname-target rr (target, e, blocked) = rw (is_blocked_cname, e) blocked

  is_cname-target : (rr : Rr) → IsBlockedTarget rr → is_cname rr ≡ true
  unfolding is_cname
  is_cname-target rr (target, e, blocked) = rw (is_cname, e) refl

  -- chainBlocked blocks a reply exactly if inspection is on, the reply is successful, the queried
  -- name is not allowlisted, and a CNAME record of the answer has a blocked target.
  pub chain_blocked_iff :
      (inspection : Bool) (domain : Bytes) (resp : Msg)
      → (chain_blocked to_lower inspection store domain resp ≡ true) ↔ (
          (inspection ≡ true)
          × (resp.rcode ≡ rcode_success)
          × (is_allowlisted to_lower store domain ≡ false)
          × Some IsBlockedTarget resp.answer)
  unfolding chain_blocked
  chain_blocked_iff inspection domain resp = (
    λ h.
        let (before, rr, after, e, hit) =
          any_sound (is_blocked_cname to_lower store) resp.answer (ground (arith, h)) in
        (
          ground (arith, h),
          (==_iff resp.rcode rcode_success).0 (ground (arith, h)),
          ground (arith, h),
          (before, rr, after, e, target_of rr.header rr.rdata hit),
        ),
    λ (on, good, free, (before, rr, after, e, target)). ground (
      arith,
      on,
      (==_iff resp.rcode rcode_success).1 good,
      free,
      ap (any is_cname) e,
      ap (any (is_blocked_cname to_lower store)) e,
      any_complete is_cname before rr after (is_cname-target rr target),
      any_complete (is_blocked_cname to_lower store) before rr after
          (is_blocked_cname-target rr target),
    ),
  )
