-- ===== src/Dnsserver/LocalNames/Tests.antt =====
-- Tests of the local names, and their theorems at concrete inputs.
use s_hole.Prelude.{true, false, [], ◌≡◌, refl, codes}
use s_hole.Prelude.Text.{has_suffix}
use s_hole.Dnsserver.LocalNames.{lan_only_name, under_suffix, suffix_class, is_dot_at}

under_lan : under_suffix (codes "nas.lan.") (codes "lan.") ≡ true
unfolding under_suffix has_suffix is_dot_at
under_lan = refl

not_under : under_suffix (codes "milan.") (codes "lan.") ≡ false
unfolding under_suffix has_suffix is_dot_at
not_under = refl

kept : suffix_class (codes "printer.lan.") [] ≡ lan_only_name
unfolding suffix_class under_suffix has_suffix is_dot_at
kept = refl
