-- ===== src/Dnsserver/LocalNames.antt =====
-- internal/dnsserver/localnames.go: which names stay on the local network. The addresses of the
-- upstreams and the LAN test on them (lan.go) are arguments.
mod Tests
pub mod Routes
use s_hole.Prelude.{
  ℕ, ◌-◌, Bool, true, false, not, ◌&&◌, ◌||◌, List, [], ◌∷◌, map, Bytes, codes, text_eq, any, ◌==◌,
  if◌then◌else◌, length, drop,
}
use s_hole.Prelude.Text.{has_suffix}
use s_hole.Dns.{type_ns, type_soa}

pub data NameClass : Type 0 where
  public_name localhost_name never_resolved lan_only_name : NameClass

-- The test c != publicName.
unfoldable pub is_public : NameClass → Bool
is_public public_name = true
is_public _ = false

abbrev pub never_resolved_suffixes : List Bytes
never_resolved_suffixes = codes "invalid." ∷ codes "onion." ∷ codes "alt." ∷ []

abbrev pub lan_only_suffixes : List Bytes
lan_only_suffixes =
    codes "local."
    ∷ codes "home.arpa."
    ∷ codes "internal."
    ∷ codes "test."
    ∷ codes "intranet."
    ∷ codes "private."
    ∷ codes "corp."
    ∷ codes "home."
    ∷ codes "lan."
    ∷ codes "localdomain."
    ∷ codes "fritz.box."
    ∷ []

-- s[i] == '.', of an index that the code knows to be within the text.
unfoldable pub is_dot_at : Bytes → Bool
is_dot_at [] = false
is_dot_at (c ∷ s) = c == b'.'

unfoldable pub under_suffix : Bytes → Bytes → Bool
under_suffix name suffix =
    text_eq name suffix
    || (has_suffix name suffix && is_dot_at (drop (length name - length suffix - 1) name))

-- The switch of zoneType: SOA, NS, DS, DNSKEY, RRSIG, NSEC, NSEC3, NSEC3PARAM, CDS and CDNSKEY.
unfoldable pub zone_type : ℕ → Bool
zone_type qtype =
    any (λ t. qtype == t) (type_soa ∷ type_ns ∷ 43 ∷ 48 ∷ 46 ∷ 47 ∷ 50 ∷ 51 ∷ 59 ∷ 60 ∷ [])

unfoldable pub suffix_class : Bytes → List Bytes → NameClass
suffix_class name local_domains =
    if under_suffix name (codes "localhost.")
    then localhost_name
    else if any (under_suffix name) never_resolved_suffixes
    then never_resolved
    else if any (under_suffix name) lan_only_suffixes
    then lan_only_name
    else if any (under_suffix name) local_domains
    then lan_only_name
    else public_name

-- `count_label` is dns.CountLabel.
unfoldable pub classify : (Bytes → ℕ) → ℕ → Bytes → List Bytes → NameClass
classify count_label qtype name local_domains =
    let c = suffix_class name local_domains in
    if not (is_public c)
    then c
    else if count_label name == 1 && not (zone_type qtype)
    then lan_only_name
    else public_name

-- `to_lower` is strings.ToLower and `fqdn` is dns.Fqdn.
module _ (to_lower fqdn : Bytes → Bytes) where
  pub local_suffixes : List Bytes → List Bytes
  local_suffixes = map (λ d. fqdn (to_lower d))

  pub keeps_local : List Bytes → Bytes → Bool
  keeps_local local_domains domain =
      not (is_public (suffix_class (fqdn (to_lower domain)) local_domains))

-- `allows` tells of an upstream whether its address is valid and lanACL.allows takes it.
pub lan_upstreams : (Bytes → Bool) → List Bytes → List Bytes
lan_upstreams allows [] = []
lan_upstreams allows (u ∷ us) =
    let rest = lan_upstreams allows us in if allows u then u ∷ rest else rest
