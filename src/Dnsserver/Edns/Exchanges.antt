-- ===== src/Dnsserver/Edns/Exchanges.antt =====
-- internal/dnsserver/edns.go: what of a client's message reaches an upstream, and what of an
-- upstream's EDNS record stays in the reply.
use s_hole.Prelude.{ℕ, List, [], ◌∷◌, ◌≡◌, ◌≢◌, refl, ap, inl, inr, arith, All, ◌==◌, Bool-cases}
use s_hole.Dns.{Rr, Msg, DnsLibrary, type_opt}
use s_hole.Cache.{do_of}
use s_hole.Dnsserver.Edns.{first_question, upstream_query, without_opt, strip_opt}

-- Two requests that agree in the first question, the RD, CD and AD bits and the DO bit go upstream
-- as the same query, whatever else they hold: IDs, EDNS options, other records.
pub upstream_query-agree :
    (lib : DnsLibrary) (id : ℕ) (req req' : Msg)
    → first_question req.question ≡ first_question req'.question
    → req.recursion_desired ≡ req'.recursion_desired
    → req.checking_disabled ≡ req'.checking_disabled
    → req.authenticated_data ≡ req'.authenticated_data
    → do_of lib req ≡ do_of lib req'
    → upstream_query lib id req ≡ upstream_query lib id req'
unfolding upstream_query do_of
upstream_query-agree lib id req req' q rd cd ad do_bit = cc

-- Not an OPT record.
abbrev pub IsPlain : Rr → Type 0
IsPlain rr = rr.header.rrtype ≢ type_opt

without_opt-IsPlain : (rrs : List Rr) → All IsPlain (without_opt rrs)
unfolding without_opt
without_opt-IsPlain [] = tt
without_opt-IsPlain (rr ∷ rrs) = elim (Bool-cases (rr.header.rrtype == type_opt)) [
  | inl is_opt ↦ simp (is_opt) (without_opt-IsPlain rrs)
  | inr plain ↦ simp (plain) ((λ e. ground (arith, plain, e)), without_opt-IsPlain rrs)
]

without_opt-plain : (rrs : List Rr) → All IsPlain rrs → without_opt rrs ≡ rrs
unfolding without_opt
without_opt-plain [] h = refl
without_opt-plain (rr ∷ rrs) h = ground (arith, h.0, without_opt-plain rrs h.1)

-- After stripOPT a reply holds no OPT record in its extra section, its answer and its code are as
-- they were, and stripping it again changes nothing.
pub strip_opt_lem :
    (resp : Msg)
    → All IsPlain (strip_opt resp).extra
      × ((strip_opt resp).answer ≡ resp.answer)
      × ((strip_opt resp).rcode ≡ resp.rcode)
      × (strip_opt (strip_opt resp) ≡ strip_opt resp)
unfolding strip_opt
strip_opt_lem resp = (
  without_opt-IsPlain resp.extra,
  refl,
  refl,
  ap (λ extra. record resp { extra = extra })
      (without_opt-plain (without_opt resp.extra) (without_opt-IsPlain resp.extra)),
)
