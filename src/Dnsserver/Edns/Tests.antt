-- ===== src/Dnsserver/Edns/Tests.antt =====
-- The theorems on EDNS at concrete inputs.
use s_hole.Prelude.{[], ◌∷◌, ◌≡◌, refl}
use s_hole.Dns.{Rr, opt, type_opt}
use s_hole.Dns.Sample.{lib, query, opt_of}
use s_hole.Cache.{do_of}
use s_hole.Dnsserver.Edns.{upstream_query}
use s_hole.Dnsserver.Edns.Exchanges.{upstream_query-agree}

-- An OPT record with a COOKIE option and without the DO bit.
abbrev cookie : Rr
cookie = record {
  header = record { name = []; rrtype = type_opt; class = 1232; ttl = 0 };
  rdata = opt (10 ∷ []);
}

upstream_query-agree_example :
    upstream_query lib 9 query ≡ upstream_query lib 9 (record query { id = 8; extra = cookie ∷ [] })
unfolding do_of opt_of
upstream_query-agree_example =
    upstream_query-agree lib 9 query (record query { id = 8; extra = cookie ∷ [] }) refl refl refl
      refl refl
