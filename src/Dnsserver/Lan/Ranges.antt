-- ===== src/Dnsserver/Lan/Ranges.antt =====
-- internal/dnsserver/lan.go: which sources are answered.
use s_hole.Prelude.{
  inl, inr, ℕ, zero, suc, ◌≤◌, Bool, true, false, not, ◌&&◌, List, [], ◌∷◌, ◌≡◌, refl, sym, ap, ◌∙◌,
  Option, none, some, arith, take, any, All, leb, Bool-cases,
}
use s_hole.Dnsserver.Lan.{
  Bits, bit_eq, bits_eq, Addr, Prefix, is4, contains, lan_ranges, plain, InterfaceAddr,
  interface_prefix, in_lan_ranges, sort_prefix, sort_prefixes, LanAcl, traced, take_interfaces,
  read_interfaces, refresh, is_recent, lan_refresh_interval, read_fail_warn_interval, links_of,
  acl_contains, allows,
}

bit_eq_sound : (x y : Bool) → bit_eq x y ≡ true → x ≡ y
bit_eq_sound true true h = refl
bit_eq_sound true false h = cc
bit_eq_sound false true h = cc
bit_eq_sound false false h = refl

bits_eq_sound : (a b : Bits) → bits_eq a b ≡ true → a ≡ b
bits_eq_sound [] [] h = refl
bits_eq_sound [] (y ∷ b) h = cc
bits_eq_sound (x ∷ a) [] h = cc
bits_eq_sound (x ∷ a) (y ∷ b) h =
    ap (λ z. z ∷ a) (bit_eq_sound x y (ground (arith, h)))
    ∙ ap (λ z. y ∷ z) (bits_eq_sound a b (ground (arith, h)))

bits_eq_refl : (a : Bits) → bits_eq a a ≡ true
bits_eq_refl [] = refl
bits_eq_refl (true ∷ a) = bits_eq_refl a
bits_eq_refl (false ∷ a) = bits_eq_refl a

take-take : (m n : ℕ) (a : Bits) → m ≤ n → take m (take n a) ≡ take m a
take-take zero n a h = refl
take-take (suc m) zero a h = absurd (omega (arith, h))
take-take (suc m) (suc n) [] h = refl
take-take (suc m) (suc n) (x ∷ a) h = ap (λ z. x ∷ z) (take-take m n a (omega (arith, h)))

-- A shorter prefix that agrees with a longer one agrees with what that one agrees with.
bits_eq-take :
    (m n : ℕ) (a b c : Bits)
    → m ≤ n
    → bits_eq (take n a) (take n b) ≡ true
    → bits_eq (take m b) (take m c) ≡ true
    → bits_eq (take m a) (take m c) ≡ true
bits_eq-take m n a b c le h k =
    ap (λ z. bits_eq z (take m c))
      (sym (take-take m n a le)
        ∙ ap (take m) (bits_eq_sound (take n a) (take n b) h)
        ∙ take-take m n b le)
    ∙ k

contains-within :
    (r p : Prefix) (ip : Addr)
    → leb r.size p.size ≡ true
    → contains r (record { bits = p.addr; zone = [] }) ≡ true
    → contains p ip ≡ true
    → contains r ip ≡ true
unfolding contains
contains-within r p ip le h k =
    let same =
      bits_eq-take r.size p.size ip.bits p.addr r.addr (ground (arith, le)) (ground (arith, k))
        (ground (arith, h)) in
    ground (arith, h, k, same)

within_any :
    (rs : List Prefix) (p : Prefix) (ip : Addr)
    → any (λ r. leb r.size p.size && contains r (record { bits = p.addr; zone = [] })) rs ≡ true
    → contains p ip ≡ true
    → any (λ r. contains r ip) rs ≡ true
within_any [] p ip h k = h
within_any (r ∷ rs) p ip h k =
    elim (Bool-cases (leb r.size p.size && contains r (record { bits = p.addr; zone = [] }))) [
      | inl here ↦
          ground (arith, contains-within r p ip (ground (arith, here)) (ground (arith, here)) k)
      | inr later ↦ ground (arith, within_any rs p ip (ground (arith, h, later)) k)
    ]

in_lan_ranges-contains :
    (p : Prefix) (ip : Addr)
    → in_lan_ranges p ≡ true
    → contains p ip ≡ true
    → any (λ r. contains r ip) lan_ranges ≡ true
unfolding in_lan_ranges
in_lan_ranges-contains p ip h k = within_any lan_ranges p ip h k

contains-length :
    (p : Prefix) (ip : Addr) → contains p ip ≡ true → is4 ip.bits ≡ true → is4 p.addr ≡ true
unfolding contains
contains-length p ip h k = ground (arith, h, k)

-- An IPv4 subnet is kept only inside the fixed ranges.
abbrev pub IsAdmitted : List Prefix → Type 0
IsAdmitted = All (λ p. is4 p.addr ≡ true → in_lan_ranges p ≡ true)

kept : (four inside : Bool) → (four && not inside) ≡ false → four ≡ true → inside ≡ true
kept true true h e = refl
kept true false h e = cc
kept false inside h e = cc

sort_prefix-IsAdmitted :
    (p : Option Prefix) (sorted : List Prefix × List Prefix)
    → IsAdmitted sorted.0
    → IsAdmitted (sort_prefix p sorted).0
unfolding sort_prefix
sort_prefix-IsAdmitted none (out, refused) h = h
sort_prefix-IsAdmitted (some p) (out, refused) h =
    elim (Bool-cases (is4 p.addr && not (in_lan_ranges p))) [
      | inl refuse ↦ rw refuse h
      | inr keep ↦ rw keep (kept (is4 p.addr) (in_lan_ranges p) keep, h)
    ]

sort_prefixes-IsAdmitted : (addrs : List InterfaceAddr) → IsAdmitted (sort_prefixes addrs).0
unfolding sort_prefixes
sort_prefixes-IsAdmitted [] = tt
sort_prefixes-IsAdmitted (ad ∷ addrs) =
    sort_prefix-IsAdmitted (interface_prefix ad) (sort_prefixes addrs)
      (sort_prefixes-IsAdmitted addrs)

take_interfaces-IsAdmitted :
    (now : ℕ) (addrs : Option (List InterfaceAddr)) (a : LanAcl)
    → IsAdmitted (links_of a.on_link)
    → IsAdmitted (links_of (take_interfaces now addrs a).on_link)
unfolding take_interfaces
take_interfaces-IsAdmitted now (some addrs) a h = sort_prefixes-IsAdmitted addrs
take_interfaces-IsAdmitted now none a h =
    elim (Bool-cases (is_recent a.read_fail_warned read_fail_warn_interval now)) [
      | inl warned ↦ rw warned h
      | inr silent ↦ rw silent h
    ]

read_interfaces-IsAdmitted :
    (now : ℕ) (addrs : Option (List InterfaceAddr)) (a : LanAcl)
    → IsAdmitted (links_of a.on_link)
    → IsAdmitted (links_of (read_interfaces now addrs a).on_link)
unfolding read_interfaces traced
read_interfaces-IsAdmitted now addrs a h = take_interfaces-IsAdmitted now addrs (traced now a) h

refresh-IsAdmitted :
    (now : ℕ) (addrs : Option (List InterfaceAddr)) (a : LanAcl)
    → IsAdmitted (links_of a.on_link)
    → IsAdmitted (links_of (refresh now addrs a).on_link)
unfolding refresh
refresh-IsAdmitted now addrs a h =
    elim (Bool-cases (is_recent a.refreshed lan_refresh_interval now)) [
      | inl recent ↦ rw recent h
      | inr due ↦
          rw due (read_interfaces-IsAdmitted now addrs (record a { refreshed = some now }) h)
    ]

any_link :
    (links : List Prefix) (ip : Addr)
    → IsAdmitted links
    → is4 ip.bits ≡ true
    → any (λ p. contains p ip) links ≡ true
    → any (λ r. contains r ip) lan_ranges ≡ true
any_link [] ip h four k = cc
any_link (p ∷ links) ip h four k = elim (Bool-cases (contains p ip)) [
  | inl here ↦ in_lan_ranges-contains p ip (h.0 (contains-length p ip here four)) here
  | inr later ↦ any_link links ip h.1 four (ground (arith, k, later))
]

acl_contains-ipv4 :
    (ip : Addr) (a : LanAcl)
    → IsAdmitted (links_of a.on_link)
    → is4 ip.bits ≡ true
    → acl_contains ip a ≡ true
    → any (λ r. contains r ip) lan_ranges ≡ true
unfolding acl_contains
acl_contains-ipv4 ip a h four k = elim (Bool-cases (any (λ r. contains r ip) lan_ranges)) [
  | inl here ↦ here
  | inr other ↦ any_link (links_of a.on_link) ip h four (ground (arith, k, other))
]

-- Whatever the interfaces of the host are, a source with an IPv4 address, mapped into IPv6 or not, is
-- answered only inside the fixed private ranges, and a test keeps the rule for the list of subnets on
-- which this rests.
pub allows-ipv4 :
    (now : ℕ) (addrs : Option (List InterfaceAddr)) (ip : Addr) (a : LanAcl)
    → IsAdmitted (links_of a.on_link)
    → ((allows now addrs ip a).0 ≡ true
        → is4 (plain ip).bits ≡ true
        → any (λ r. contains r (plain ip)) lan_ranges ≡ true)
      × IsAdmitted (links_of (allows now addrs ip a).1.on_link)
unfolding allows
allows-ipv4 now addrs ip a h = elim (Bool-cases (acl_contains (plain ip) a)) [
  | inl known ↦ rw known ((λ k four. acl_contains-ipv4 (plain ip) a h four known), h)
  | inr miss ↦ rw miss (
    (λ k four.
        acl_contains-ipv4 (plain ip) (refresh now addrs a) (refresh-IsAdmitted now addrs a h) four
          k),
    refresh-IsAdmitted now addrs a h,
  )
]
