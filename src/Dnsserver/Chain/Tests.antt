-- ===== src/Dnsserver/Chain/Tests.antt =====
-- Tests of the CNAME check, and its theorem at a concrete input.
use s_hole.Prelude.{true, false, [], ◌∷◌, ◌≡◌, ◌↔◌, refl, codes}
use s_hole.Prelude.Sets.{member}
use s_hole.Dns.{cname, Msg, type_cname, rcode_success}
use s_hole.Dns.Sample.{reply}
use s_hole.Blocklist.Normalize.{
  ends_in, drop_last, strip_dot, is_upper, scan_case, lower_byte, normalize_case, normalize,
}
use s_hole.Blocklist.Store.{Store, new_store, parent}
use s_hole.Blocklist.Store.Lookup.{is_blocked, is_blocked_loop, is_allowlisted}
use s_hole.Dnsserver.Chain.{chain_blocked}
use s_hole.Dnsserver.Chain.Targets.{Some, IsBlockedTarget, chain_blocked_iff}

abbrev listed : Store
listed = record new_store { blocked = codes "tracker.example" ∷ [] }

-- The reply leads to a name under the blocked one.
abbrev hidden : Msg
hidden = record reply {
  answer =
      record {
        header = record { name = codes "a.com."; rrtype = type_cname; class = 1; ttl = 60 };
        rdata = cname (codes "shop.tracker.example.");
      }
      ∷ [];
}

chain_blocked_iff_example : (chain_blocked (λ s. s) true listed (codes "a.com.") hidden ≡ true) ↔ (
    (true ≡ true)
    × (hidden.rcode ≡ rcode_success)
    × (is_allowlisted (λ s. s) listed (codes "a.com.") ≡ false)
    × Some (IsBlockedTarget (λ s. s) listed) hidden.answer)
chain_blocked_iff_example = chain_blocked_iff (λ s. s) listed true (codes "a.com.") hidden

blocked_chain : is_blocked (λ s. s) listed (codes "shop.tracker.example.") ≡ true
unfolding is_blocked is_blocked_loop normalize ends_in drop_last strip_dot is_upper scan_case
    lower_byte normalize_case parent member
blocked_chain = refl
