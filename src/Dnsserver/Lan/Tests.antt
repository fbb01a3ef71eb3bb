-- ===== src/Dnsserver/Lan/Tests.antt =====
-- Runs of the LAN test, and the theorems about it at concrete inputs.
use s_hole.Prelude.{true, false, List, [], ◌∷◌, ◌≡◌, refl, none, some, any}
use s_hole.Dnsserver.Lan.{
  bits_of, Addr, is4, contains, lan_ranges, plain, InterfaceAddr, ip_net, refresh, links_of,
  acl_contains, allows, own_global_v6, zero_acl, new_lan_acl, new_lan_acl,
}
use s_hole.Dnsserver.Lan.Ranges.{IsAdmitted, allows-ipv4}
use s_hole.Dnsserver.Lan.Refreshes.{Visit, source, run}

code : Unit {0}
unfolding refresh acl_contains plain allows own_global_v6 new_lan_acl
code = tt

-- A host with a private IPv4 subnet, a public one, and a global IPv6 address.
abbrev interfaces : List InterfaceAddr
interfaces =
    ip_net (192 ∷ 168 ∷ 1 ∷ 2 ∷ []) 24
    ∷ ip_net (203 ∷ 0 ∷ 113 ∷ 9 ∷ []) 24
    ∷ ip_net (0x20 ∷ 1 ∷ 0xD ∷ 0xB8 ∷ 0 ∷ 0 ∷ 0 ∷ 1 ∷ 0 ∷ 0 ∷ 0 ∷ 0 ∷ 0 ∷ 0 ∷ 0 ∷ 7 ∷ []) 128
    ∷ []

abbrev stranger : Addr
stranger = record { bits = bits_of (203 ∷ 0 ∷ 113 ∷ 50 ∷ []); zone = [] }

abbrev phone : Addr
phone = record {
  bits = bits_of (0x20 ∷ 1 ∷ 0xD ∷ 0xB8 ∷ 0 ∷ 0 ∷ 0 ∷ 1 ∷ 0xAA ∷ 0 ∷ 0 ∷ 0 ∷ 0 ∷ 0 ∷ 0 ∷ 9 ∷ []);
  zone = [];
}

refuses_stranger : (allows 100 (some interfaces) stranger zero_acl).0 ≡ false
unfolding code
refuses_stranger = refl

answers_phone : (allows 100 (some interfaces) phone zero_acl).0 ≡ true
unfolding code
answers_phone = refl

allows-ipv4_example :
    ((allows 100 (some interfaces) stranger zero_acl).0 ≡ true
      → is4 (plain stranger).bits ≡ true
      → any (λ r. contains r (plain stranger)) lan_ranges ≡ true)
    × IsAdmitted (links_of (allows 100 (some interfaces) stranger zero_acl).1.on_link)
allows-ipv4_example = allows-ipv4 100 (some interfaces) stranger zero_acl tt

abbrev visits : List Visit
visits =
    source 200 (some interfaces) stranger
    ∷ source 40000000000 none stranger
    ∷ source 50000000000 (some interfaces) stranger
    ∷ []

reads_twice : (run visits (new_lan_acl 100 (some interfaces))).reads ≡ 40000000000 ∷ 100 ∷ []
unfolding code
reads_twice = refl
