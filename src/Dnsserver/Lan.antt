-- ===== src/Dnsserver/Lan.antt =====
-- internal/dnsserver/lan.go: the LAN test on a source address. An address of net/netip is the list of
-- its bits, 32 or 128 of them, with its zone; the interfaces and the clock are arguments. The
-- lock makes a refresh one step.
mod Tests
pub mod Ranges
pub mod Refreshes
use s_hole.Prelude.{
  ℕ, ◌+◌, ◌-◌, ◌*◌, ◌/◌, ◌%◌, ◌^◌, Bool, true, false, not, ◌&&◌, ◌||◌, List, [], ◌∷◌, ◌++◌, map,
  Option, none, some, Bytes, text_eq, length, take, drop, any, ltb, leb, ◌==◌, if◌then◌else◌,
}

abbrev pub Bits : Type 0
Bits = List Bool

abbrev pub bit_eq : Bool → Bool → Bool
bit_eq true b = b
bit_eq false b = not b

abbrev pub bits_eq : Bits → Bits → Bool
bits_eq [] [] = true
bits_eq [] (y ∷ ys) = false
bits_eq (x ∷ xs) [] = false
bits_eq (x ∷ xs) (y ∷ ys) = bit_eq x y && bits_eq xs ys

pub record Addr : Type 0 where
  pub bits : Bits
  pub zone : Bytes

pub record Prefix : Type 0 where
  pub addr : Bits
  pub size : ℕ

abbrev pub byte_bits : ℕ → Bits
byte_bits b = map (λ k. b / k % 2 == 1) (128 ∷ 64 ∷ 32 ∷ 16 ∷ 8 ∷ 4 ∷ 2 ∷ 1 ∷ [])

abbrev pub bits_of : Bytes → Bits
bits_of [] = []
bits_of (b ∷ bytes) = byte_bits b ++ bits_of bytes

abbrev pub clear_bits : Bits → Bits
clear_bits [] = []
clear_bits (b ∷ bits) = false ∷ clear_bits bits

-- Addr.Is4 and Addr.Is6 of an address without an IPv4-mapped form.
abbrev pub is4 : Bits → Bool
is4 bits = length bits == 32

abbrev pub is6 : Bits → Bool
is6 bits = length bits == 128

-- Prefix.Contains
unfoldable pub contains : Prefix → Addr → Bool
contains p ip =
    text_eq ip.zone []
    && (length ip.bits == length p.addr)
    && bits_eq (take p.size ip.bits) (take p.size p.addr)

abbrev six : Bytes → Bits
six head =
    bits_of (take 16 (head ++ 0 ∷ 0 ∷ 0 ∷ 0 ∷ 0 ∷ 0 ∷ 0 ∷ 0 ∷ 0 ∷ 0 ∷ 0 ∷ 0 ∷ 0 ∷ 0 ∷ 0 ∷ []))

abbrev pub loopback6 : Bits
loopback6 = bits_of (0 ∷ 0 ∷ 0 ∷ 0 ∷ 0 ∷ 0 ∷ 0 ∷ 0 ∷ 0 ∷ 0 ∷ 0 ∷ 0 ∷ 0 ∷ 0 ∷ 0 ∷ 1 ∷ [])

-- 127.0.0.0/8, ::1/128, 10.0.0.0/8, 172.16.0.0/12, 192.168.0.0/16, 169.254.0.0/16, fc00::/7 and
-- fe80::/10.
unfoldable pub lan_ranges : List Prefix
lan_ranges =
    record { addr = bits_of (127 ∷ 0 ∷ 0 ∷ 0 ∷ []); size = 8 }
    ∷ record { addr = loopback6; size = 128 }
    ∷ record { addr = bits_of (10 ∷ 0 ∷ 0 ∷ 0 ∷ []); size = 8 }
    ∷ record { addr = bits_of (172 ∷ 16 ∷ 0 ∷ 0 ∷ []); size = 12 }
    ∷ record { addr = bits_of (192 ∷ 168 ∷ 0 ∷ 0 ∷ []); size = 16 }
    ∷ record { addr = bits_of (169 ∷ 254 ∷ 0 ∷ 0 ∷ []); size = 16 }
    ∷ record { addr = six (0xFC ∷ 0 ∷ []); size = 7 }
    ∷ record { addr = six (0xFE ∷ 0x80 ∷ []); size = 10 }
    ∷ []

-- Addr.Unmap
unfoldable pub unmap : Addr → Addr
unmap ip =
    if is6 ip.bits
      && bits_eq (take 96 ip.bits)
          (bits_of (0 ∷ 0 ∷ 0 ∷ 0 ∷ 0 ∷ 0 ∷ 0 ∷ 0 ∷ 0 ∷ 0 ∷ 0xFF ∷ 0xFF ∷ []))
    then record { bits = drop 96 ip.bits; zone = [] }
    else ip

-- Addr.IsGlobalUnicast and Addr.IsPrivate of an IPv6 address.
unfoldable pub is_global_unicast : Bits → Bool
is_global_unicast bits =
    not (bits_eq bits (clear_bits bits))
    && not (bits_eq bits loopback6)
    && not (bits_eq (take 8 bits) (byte_bits 0xFF))
    && not (bits_eq (take 10 bits) (take 10 (six (0xFE ∷ 0x80 ∷ []))))

unfoldable pub is_private : Bits → Bool
is_private bits = bits_eq (take 7 bits) (take 7 (byte_bits 0xFC))

-- Addr.Prefix, which clears the bits behind the first `size`; `none` is its error.
unfoldable pub prefix : Bits → ℕ → Option Prefix
prefix bits size =
    if leb size (length bits)
    then some (record { addr = take size bits ++ clear_bits (drop size bits); size = size })
    else none

-- A *net.IPNet, with the bytes of its IP and the ones of its mask, or another net.Addr.
pub data InterfaceAddr : Type 0 where
  ip_net : Bytes → ℕ → InterfaceAddr
  other_addr : InterfaceAddr

-- Addr.Prefix on the number of bits after both corrections; a negative number is an error.
unfoldable pub link_prefix : Bits → ℕ → Option Prefix
unfolding prefix is_global_unicast
link_prefix bits ones =
    if is4 bits && ltb 32 ones
    then (if ltb ones 96 then none else prefix bits (ones - 96))
    else if is6 bits && is_global_unicast bits && ltb 64 ones
    then prefix bits 64
    else prefix bits ones

-- The body of the loop of refresh, up to the prefix.
unfoldable pub interface_prefix : InterfaceAddr → Option Prefix
unfolding unmap link_prefix
interface_prefix other_addr = none
interface_prefix (ip_net ip ones) =
    if length ip == 4 || length ip == 16
    then link_prefix (unmap (record { bits = bits_of ip; zone = [] })).bits ones
    else none

unfoldable pub in_lan_ranges : Prefix → Bool
unfolding lan_ranges contains
in_lan_ranges p =
    any (λ r. leb r.size p.size && contains r (record { bits = p.addr; zone = [] })) lan_ranges

-- The two lists that the loop of refresh builds.
unfoldable pub sort_prefix : Option Prefix → List Prefix × List Prefix → List Prefix × List Prefix
unfolding in_lan_ranges
sort_prefix none (out, refused) = (out, refused)
sort_prefix (some p) (out, refused) =
    if is4 p.addr && not (in_lan_ranges p) then (out, p ∷ refused) else (p ∷ out, refused)

unfoldable pub sort_prefixes : List InterfaceAddr → List Prefix × List Prefix
unfolding interface_prefix sort_prefix
sort_prefixes [] = ([], [])
sort_prefixes (ad ∷ addrs) = sort_prefix (interface_prefix ad) (sort_prefixes addrs)

-- The times are in nanoseconds, `none` the zero time. `reads` is no field of the code: it is the trace
-- of the calls of net.InterfaceAddrs, each with its time, the last one in front.
pub record LanAcl : Type 0 where
  pub on_link : Option (List Prefix)
  pub refreshed : Option ℕ
  pub read_fail_warned : Option ℕ
  pub not_admitted : List Prefix
  pub reads : List ℕ

abbrev pub lan_refresh_interval : ℕ
lan_refresh_interval = 30 * 10 ^ 9

abbrev pub read_fail_warn_interval : ℕ
read_fail_warn_interval = 3600 * 10 ^ 9

-- Whether the time is set and less than the interval ago.
unfoldable pub is_recent : Option ℕ → ℕ → ℕ → Bool
is_recent none interval now = false
is_recent (some t) interval now = ltb (now - t) interval

-- A call of net.InterfaceAddrs leaves its time in the trace.
unfoldable pub traced : ℕ → LanAcl → LanAcl
traced now a = record a { reads = now ∷ a.reads }

-- What follows the read of the interfaces; `none` is its error, and the result says what is logged.
unfoldable pub take_interfaces : ℕ → Option (List InterfaceAddr) → LanAcl → LanAcl
unfolding sort_prefixes is_recent
take_interfaces now none a =
    if is_recent a.read_fail_warned read_fail_warn_interval now
    then a
    else record a { read_fail_warned = some now }
take_interfaces now (some addrs) a =
    let (out, refused) = sort_prefixes addrs in
    record a { on_link = some out; not_admitted = refused }

unfoldable pub read_interfaces : ℕ → Option (List InterfaceAddr) → LanAcl → LanAcl
unfolding traced take_interfaces
read_interfaces now addrs a = take_interfaces now addrs (traced now a)

unfoldable pub refresh : ℕ → Option (List InterfaceAddr) → LanAcl → LanAcl
unfolding read_interfaces
refresh now addrs a =
    if is_recent a.refreshed lan_refresh_interval now
    then a
    else read_interfaces now addrs (record a { refreshed = some now })

-- The zero value, without a read.
abbrev pub zero_acl : LanAcl
zero_acl = record {
  on_link = none;
  refreshed = none;
  read_fail_warned = none;
  not_admitted = [];
  reads = [];
}

-- newLANACL, over the clock and the interfaces.
unfoldable pub new_lan_acl : ℕ → Option (List InterfaceAddr) → LanAcl
unfolding refresh
new_lan_acl now addrs = refresh now addrs zero_acl

abbrev pub links_of : Option (List Prefix) → List Prefix
links_of none = []
links_of (some links) = links

unfoldable pub acl_contains : Addr → LanAcl → Bool
acl_contains ip a =
    any (λ p. contains p ip) lan_ranges || any (λ p. contains p ip) (links_of a.on_link)

-- The address without its mapped form and its zone.
unfoldable pub plain : Addr → Addr
unfolding unmap
plain ip = record (unmap ip) { zone = [] }

unfoldable pub allows : ℕ → Option (List InterfaceAddr) → Addr → LanAcl → Bool × LanAcl
unfolding refresh acl_contains plain
allows now addrs ip a =
    if acl_contains (plain ip) a
    then (true, a)
    else (acl_contains (plain ip) (refresh now addrs a), refresh now addrs a)

unfoldable pub under_global_v6 : Prefix → LanAcl → Bool
unfolding contains is_global_unicast is_private
under_global_v6 p a =
    any
      (λ l.
        is6 l.addr
        && is_global_unicast l.addr
        && not (is_private l.addr)
        && leb l.size p.size
        && contains l (record { bits = p.addr; zone = [] }))
      (links_of a.on_link)

unfoldable pub own_global_v6 : ℕ → Option (List InterfaceAddr) → Prefix → LanAcl → Bool × LanAcl
unfolding refresh under_global_v6
own_global_v6 now addrs p a =
    if under_global_v6 p a
    then (true, a)
    else (under_global_v6 p (refresh now addrs a), refresh now addrs a)
