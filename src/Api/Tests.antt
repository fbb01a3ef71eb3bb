-- ===== src/Api/Tests.antt =====
-- internal/api/security.go: requests to a machine called "Pi.lan.", through `secure`.
use s_hole.Prelude.{
  Bool, true, ◌≡◌, ◌↔◌, refl, List, [], ◌∷◌, ◌++◌, Option, none, some, Bytes, codes, text_eq, map,
  ◌==◌, if◌then◌else◌, any,
}
use s_hole.Blocklist.Normalize.{lower_byte}
use s_hole.Api.Security.{
  Request, Headers, Answer, misdirected, cross_site, protected, secure, security_headers,
  local_hostnames,
}
use s_hole.Api.Hosts.{IsBareHost}
use s_hole.Api.Gate.{IsOwnHost, IsOwnPage, secure_lem}
use s_hole.Api.Headers.{same_entry}

code : Unit {0}
unfolding secure local_hostnames lower_byte
code = tt

-- Splits at the first colon; the tests have no IPv6 host.
abbrev split_port : Bytes → Option (Bytes × Bytes)
split_port [] = none
split_port (c ∷ s) =
    let rest = split_port s in
    if c == b':'
    then some ([], s)
    else elim rest [ none ↦ none | some (host, port) ↦ some (c ∷ host, port) ]

abbrev is_home : Bytes → Bool
is_home host = text_eq host (codes "10.0.0.1")

abbrev lower : Bytes → Bytes
lower = map lower_byte

abbrev names : List Bytes
names = local_hostnames lower (some (codes "Pi.lan."))

abbrev get : Bytes → Bytes → Request
get host site = record {
  host = host;
  method = codes "GET";
  path = codes "/api/stats";
  header = λ name. if text_eq name (codes "Sec-Fetch-Site") then site else [];
}

abbrev no_headers : Headers
no_headers name = []

abbrev answer : Request → Answer
answer r = (secure split_port is_home lower security_headers names r no_headers).1

three_names : names ≡ codes "pi.lan" ∷ codes "pi" ∷ codes "pi.local" ∷ []
unfolding code
three_names = refl

own_name : answer (get (codes "PI.local.:8080") (codes "same-origin")) ≡ protected
unfolding code
own_name = refl

other_site : answer (get (codes "10.0.0.1") (codes "cross-site")) ≡ cross_site
unfolding code
other_site = refl

rebound :
    answer (get (codes "evil.test:8080") [])
    ≡ misdirected (
        codes "s-hole answers only requests addressed to its IP address or to localhost"
        ++ codes
            ", or to this machine's name. Open the dashboard as http://pi.local:8080 or by IP address")
unfolding code
rebound = refl

secure_lem_example :
    ((p : Bytes × Bytes)
      → any (same_entry p) security_headers ≡ true
      → (secure split_port is_home lower security_headers names
            (get (codes "pi:8080") [])
            no_headers).0
          p.0
        ≡ p.1)
    × ((host : Bytes) × IsBareHost split_port (codes "pi:8080") host
        × ((answer (get (codes "pi:8080") []) ≡ protected)
            ↔ (IsOwnHost is_home lower names host × IsOwnPage (get (codes "pi:8080") []))))
secure_lem_example =
    secure_lem split_port is_home lower names security_headers (get (codes "pi:8080") []) no_headers
      (λ p. refl)
