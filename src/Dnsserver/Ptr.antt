-- ===== src/Dnsserver/Ptr.antt =====
-- internal/dnsserver/handler.go: the private reverse zones and isPrivatePTR.
use s_hole.Prelude.{
  ℕ, zero, suc, ◌+◌, ◌/◌, ◌%◌, Bool, true, false, not, List, [], ◌∷◌, ◌++◌, Bytes, codes, ltb, ◌==◌,
  if◌then◌else◌, length, drop,
}
use s_hole.Prelude.Sets.{member}
use s_hole.Dns.{DnsLibrary, type_ptr}

-- strings.Repeat("0.", n)
pub zero_labels : ℕ → Bytes
zero_labels zero = []
zero_labels (suc n) = b'0' ∷ b'.' ∷ zero_labels n

-- strconv.Itoa, for the octets up to 127.
pub octet_text : ℕ → Bytes
octet_text n =
    if ltb n 10
    then (b'0' + n) ∷ []
    else if ltb n 100
    then (b'0' + n / 10) ∷ (b'0' + n % 10) ∷ []
    else (b'0' + n / 100) ∷ (b'0' + n / 10 % 10) ∷ (b'0' + n % 10) ∷ []

-- The zones of `count` second octets from `first` on, under one first octet.
pub octet_zones : ℕ → ℕ → Bytes → List Bytes
octet_zones first zero zone = []
octet_zones first (suc count) zone = (octet_text first ++ zone) ∷ octet_zones (first + 1) count zone

pub reverse_zones : List Bytes
unfolding zero_labels octet_zones
reverse_zones =
    codes "0.in-addr.arpa."
    ∷ codes "10.in-addr.arpa."
    ∷ codes "127.in-addr.arpa."
    ∷ codes "254.169.in-addr.arpa."
    ∷ codes "168.192.in-addr.arpa."
    ∷ codes "2.0.192.in-addr.arpa."
    ∷ codes "100.51.198.in-addr.arpa."
    ∷ codes "113.0.203.in-addr.arpa."
    ∷ codes "255.255.255.255.in-addr.arpa."
    ∷ (zero_labels 32 ++ codes "ip6.arpa.")
    ∷ (b'1' ∷ b'.' ∷ zero_labels 31 ++ codes "ip6.arpa.")
    ∷ codes "c.f.ip6.arpa."
    ∷ codes "d.f.ip6.arpa."
    ∷ codes "8.e.f.ip6.arpa."
    ∷ codes "9.e.f.ip6.arpa."
    ∷ codes "a.e.f.ip6.arpa."
    ∷ codes "b.e.f.ip6.arpa."
    ∷ codes "8.b.d.0.1.0.0.2.ip6.arpa."
    ∷ (octet_zones 16 16 (codes ".172.in-addr.arpa.")
        ++ octet_zones 64 64 (codes ".100.in-addr.arpa."))

-- The loop over the name and its parents; dns.NextLabel moves the offset forward until the name
-- ends, so the bytes of the name are fuel enough.
pub ptr_loop : DnsLibrary → ℕ → Bytes → ℕ → Bool
unfolding member
ptr_loop lib zero name off = false
ptr_loop lib (suc fuel) name off =
    if member (drop off name) reverse_zones
    then true
    else let (next, end) = lib.next_label name off in
      let rest = ptr_loop lib fuel name next in if end then false else rest

pub is_private_ptr : DnsLibrary → ℕ → Bytes → Bool
is_private_ptr lib qtype name =
    if not (qtype == type_ptr)
    then false
    else let lower = lib.to_lower name in ptr_loop lib (length lower + 1) lower 0
