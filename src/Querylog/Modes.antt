-- ===== src/Querylog/Modes.antt =====
-- internal/querylog/logger.go and internal/dnsserver/handler.go: the rule of query_log.mode, which
-- the handler and FileLogger each write out.
use s_hole.Prelude.{
  Bool, true, false, ◌≡◌, ◌≢◌, ◌⊎◌, inl, inr, refl, arith, Bytes, codes, text_eq, text_eq_iff,
}
use s_hole.Dnsserver.Handler.Ends.{records}
use s_hole.Querylog.File.{is_recorded}

other_text : (mode name : Bytes) → mode ≢ name → text_eq mode name ≡ false
other_text mode name h = ground (arith, h, text_eq_iff mode name)

same_text : (mode name : Bytes) → mode ≡ name → text_eq mode name ≡ true
same_text mode name h = (text_eq_iff mode name).1 h

-- In the modes all, blocked and none the handler and FileLogger record the same queries. In any
-- other mode the handler records none and FileLogger records all.
pub records-is_recorded :
    (mode : Bytes) (blocked : Bool)
    → ((mode ≡ codes "all") ⊎ ((mode ≡ codes "blocked") ⊎ (mode ≡ codes "none"))
        → records mode blocked ≡ is_recorded mode blocked)
      × (mode ≢ codes "all"
          → mode ≢ codes "blocked"
          → mode ≢ codes "none"
          → (records mode blocked ≡ false) × (is_recorded mode blocked ≡ true))
unfolding records is_recorded
records-is_recorded mode blocked = (known, unknown)
  where
    known :
        (mode ≡ codes "all") ⊎ ((mode ≡ codes "blocked") ⊎ (mode ≡ codes "none"))
        → records mode blocked ≡ is_recorded mode blocked
    known (inl e) = rw e refl
    known (inr (inl e)) = rw e (ground arith)
    known (inr (inr e)) = rw e refl

    unknown :
        mode ≢ codes "all"
        → mode ≢ codes "blocked"
        → mode ≢ codes "none"
        → (records mode blocked ≡ false) × (is_recorded mode blocked ≡ true)
    unknown a b c = (
      rw (other_text mode (codes "all") a, other_text mode (codes "blocked") b) refl,
      rw (other_text mode (codes "none") c, other_text mode (codes "blocked") b) refl,
    )
