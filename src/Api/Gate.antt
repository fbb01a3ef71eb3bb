-- ===== src/Api/Gate.antt =====
-- internal/api/security.go: which requests reach the handlers behind `secure`.
use s_hole.Prelude.{
  Bool, true, ◌≡◌, ◌↔◌, ◌⊎◌, arith, List, ◌∷◌, [], Option, Bytes, codes, text_eq_iff, any,
}
use s_hole.Prelude.Sets.{member}
use s_hole.Api.Headers.{SameEntries, same_entry, secure-headers}
use s_hole.Api.Hosts.{IsBareHost, bare_host-IsBareHost}
use s_hole.Api.Security.{
  security_headers, Request, Headers, protected, secure, host_allowed, fetch_allowed, is_own_site,
  bare_host,
}

-- The request is addressed to this machine: its host is empty, an address, or one of its names.
abbrev pub IsOwnHost : (Bytes → Bool) → (Bytes → Bytes) → List Bytes → Bytes → Type 0
IsOwnHost is_addr to_lower hostnames host =
    (host ≡ [])
    ⊎ ((is_addr host ≡ true) ⊎ (member (to_lower host) (codes "localhost" ∷ hostnames) ≡ true))

-- The browser says that its page is the dashboard's, or says nothing, or opens the dashboard.
abbrev pub IsOwnPage : Request → Type 0
IsOwnPage r =
    (member (r.header (codes "Sec-Fetch-Site")) ([] ∷ codes "same-origin" ∷ codes "none" ∷ [])
      ≡ true)
    ⊎ ((r.method ≡ codes "GET")
        × (r.path ≡ codes "/")
        × (r.header (codes "Sec-Fetch-Mode") ≡ codes "navigate")
        × (r.header (codes "Sec-Fetch-Dest") ≡ codes "document"))

fetch_allowed_iff : (r : Request) → (fetch_allowed r ≡ true) ↔ IsOwnPage r
unfolding fetch_allowed is_own_site member
fetch_allowed_iff r = ground (
  arith,
  text_eq_iff r.method (codes "GET"),
  text_eq_iff r.path (codes "/"),
  text_eq_iff (r.header (codes "Sec-Fetch-Mode")) (codes "navigate"),
  text_eq_iff (r.header (codes "Sec-Fetch-Dest")) (codes "document"),
)

module _ (split_host_port : Bytes → Option (Bytes × Bytes)) (is_addr : Bytes → Bool)
    (to_lower : Bytes → Bytes) (hostnames : List Bytes) where
  host_allowed_iff :
      (h : Bytes)
      → (host_allowed split_host_port is_addr to_lower hostnames h ≡ true)
        ↔ IsOwnHost is_addr to_lower hostnames (bare_host split_host_port h)
  unfolding host_allowed member
  host_allowed_iff h = ground (arith, text_eq_iff (bare_host split_host_port h) [])

  secure-protected_iff :
      (order : List (Bytes × Bytes)) (r : Request) (h : Headers)
      → ((secure split_host_port is_addr to_lower order hostnames r h).1 ≡ protected)
        ↔ (IsOwnHost is_addr to_lower hostnames (bare_host split_host_port r.host) × IsOwnPage r)
  unfolding secure
  secure-protected_iff order r h = ground (arith, host_allowed_iff r.host, fetch_allowed_iff r)

  -- In whatever order the loop meets the entries of securityHeaders, each of them is set to its
  -- value before any answer. Take the host of the Host header without its port, then without the
  -- brackets at its ends, then without one final dot: a request passes both checks of `secure`
  -- exactly when that host is empty, an IP address, localhost or one of the machine's names, and the
  -- browser either reports no other site or opens "/" as a document with GET.
  pub secure_lem :
      (order : List (Bytes × Bytes)) (r : Request) (h : Headers)
      → SameEntries order security_headers
      → ((p : Bytes × Bytes)
          → any (same_entry p) security_headers ≡ true
          → (secure split_host_port is_addr to_lower order hostnames r h).0 p.0 ≡ p.1)
        × ((host : Bytes) × IsBareHost split_host_port r.host host
            × (((secure split_host_port is_addr to_lower order hostnames r h).1 ≡ protected)
                ↔ (IsOwnHost is_addr to_lower hostnames host × IsOwnPage r)))
  secure_lem order r h same = (
    secure-headers split_host_port is_addr to_lower order hostnames r h same,
    (
      bare_host split_host_port r.host,
      bare_host-IsBareHost split_host_port r.host,
      secure-protected_iff order r h,
    ),
  )
