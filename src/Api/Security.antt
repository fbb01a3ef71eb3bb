-- ===== src/Api/Security.antt =====
-- internal/api/security.go: which requests `secure` hands to the handlers of the dashboard.
-- net.SplitHostPort, netip.ParseAddr (whether it accepts the text) and strings.ToLower are
-- parameters, and so is the order in which the loop over the map securityHeaders meets its entries.
-- The body of the cross-site refusal is left out.
use s_hole.Prelude.{
  ℕ, Bool, true, not, ◌&&◌, ◌||◌, List, [], ◌∷◌, Option, none, some, Bytes, codes, text_eq, ◌==◌,
  if◌then◌else◌, ◌++◌,
}
use s_hole.Prelude.Sets.{member}
use s_hole.Blocklist.Normalize.{strip_dot}

-- The fields of http.Request that are read; `header` is r.Header.Get.
pub record Request : Type 0 where
  pub host : Bytes
  pub method : Bytes
  pub path : Bytes
  pub header : Bytes → Bytes

pub data Answer : Type 0 where
  misdirected : Bytes → Answer
  cross_site : Answer
  protected : Answer

unfoldable pub is_bracket : ℕ → Bool
is_bracket c = c == b'[' || c == b']'

-- strings.Trim(host, "[]"), from the left and from the right.
unfoldable pub trim_left : Bytes → Bytes
unfolding is_bracket
trim_left [] = []
trim_left (c ∷ s) = let rest = trim_left s in if is_bracket c then rest else c ∷ s

-- `c` in front of what is left of the text behind it.
unfoldable pub put_front : ℕ → Bytes → Bytes
unfolding is_bracket
put_front c [] = if is_bracket c then [] else c ∷ []
put_front c (d ∷ t) = c ∷ d ∷ t

unfoldable pub trim_right : Bytes → Bytes
unfolding put_front
trim_right [] = []
trim_right (c ∷ s) = put_front c (trim_right s)

unfoldable pub trim : Bytes → Bytes
unfolding trim_left trim_right
trim s = trim_right (trim_left s)

-- The lines of hostAllowed before its first test.
unfoldable pub bare_host : (Bytes → Option (Bytes × Bytes)) → Bytes → Bytes
unfolding trim strip_dot
bare_host split_host_port host_header = elim (split_host_port host_header) [
  | none ↦ strip_dot (trim host_header)
  | some (host, port) ↦ strip_dot (trim host)
]

unfoldable pub host_allowed :
    (Bytes → Option (Bytes × Bytes)) → (Bytes → Bool) → (Bytes → Bytes) → List Bytes → Bytes → Bool
unfolding bare_host member
host_allowed split_host_port is_addr to_lower hostnames host_header =
    let host = bare_host split_host_port host_header in
    if text_eq host []
    then true
    else if is_addr host
    then true
    else if text_eq (to_lower host) (codes "localhost")
    then true
    else member (to_lower host) hostnames

unfoldable pub is_own_site : Bytes → Bool
is_own_site site =
    text_eq site [] || text_eq site (codes "same-origin") || text_eq site (codes "none")

unfoldable pub fetch_allowed : Request → Bool
unfolding is_own_site
fetch_allowed r =
    if is_own_site (r.header (codes "Sec-Fetch-Site"))
    then true
    else text_eq r.method (codes "GET")
      && text_eq r.path (codes "/")
      && text_eq (r.header (codes "Sec-Fetch-Mode")) (codes "navigate")
      && text_eq (r.header (codes "Sec-Fetch-Dest")) (codes "document")

unfoldable pub hint_host : List Bytes → Bytes → Bytes
hint_host [] port =
    codes "s-hole answers only requests addressed to its IP address or to localhost"
    ++ codes ". Open the dashboard by IP address"
hint_host (name ∷ []) port =
    codes "s-hole answers only requests addressed to its IP address or to localhost"
    ++ codes ", or to this machine's name. Open the dashboard as http://"
    ++ name
    ++ port
    ++ codes " or by IP address"
hint_host (name ∷ next ∷ names) port = hint_host (next ∷ names) port

unfoldable pub host_hint : (Bytes → Option (Bytes × Bytes)) → List Bytes → Bytes → Bytes
unfolding hint_host
host_hint split_host_port hostnames host_header = elim (split_host_port host_header) [
  | none ↦ hint_host hostnames []
  | some (host, port) ↦ hint_host hostnames (codes ":" ++ port)
]

-- http.Header with canonical names, as the function Get.
abbrev pub Headers : Type 0
Headers = Bytes → Bytes

abbrev pub security_headers : List (Bytes × Bytes)
security_headers =
    (codes "Cache-Control", codes "no-store")
    ∷ (codes "X-Content-Type-Options", codes "nosniff")
    ∷ (codes "Referrer-Policy", codes "no-referrer")
    ∷ (codes "X-Frame-Options", codes "DENY")
    ∷ (codes "Cross-Origin-Resource-Policy", codes "same-origin")
    ∷ (
      codes "Content-Security-Policy",
      codes "default-src 'self'; script-src 'self'; "
          ++ codes "style-src 'self' 'unsafe-inline'; img-src 'self' data:; connect-src 'self'; "
          ++ codes "object-src 'none'; base-uri 'none'; form-action 'self'; frame-ancestors 'none'",
    )
    ∷ []

unfoldable pub set_headers : List (Bytes × Bytes) → Headers → Headers
set_headers [] h = h
set_headers ((k, v) ∷ order) h =
    set_headers order (λ (name : Bytes). if text_eq k name then v else h name)

-- The headers set before the answer, and the answer. `protected` hands the request to the
-- handler that http.CrossOriginProtection wraps.
unfoldable pub secure :
    (Bytes → Option (Bytes × Bytes))
    → (Bytes → Bool)
    → (Bytes → Bytes)
    → List (Bytes × Bytes)
    → List Bytes
    → Request
    → Headers
    → Headers × Answer
unfolding host_allowed fetch_allowed host_hint set_headers
secure split_host_port is_addr to_lower order hostnames r h = (
  set_headers order h,
  if not (host_allowed split_host_port is_addr to_lower hostnames r.host)
      then misdirected (host_hint split_host_port hostnames r.host)
      else if not (fetch_allowed r)
      then cross_site
      else protected,
)

-- strings.Cut(name, ".")
unfoldable pub before_dot : Bytes → Bytes
before_dot [] = []
before_dot (c ∷ s) = let rest = before_dot s in if c == b'.' then [] else c ∷ rest

-- The argument is what os.Hostname answers, `none` for its error.
unfoldable pub local_hostnames : (Bytes → Bytes) → Option Bytes → List Bytes
unfolding before_dot strip_dot
local_hostnames to_lower none = []
local_hostnames to_lower (some name) =
    if text_eq name []
    then []
    else let full = to_lower (strip_dot name) in
      let short = before_dot full in
      if text_eq short full
      then full ∷ (short ++ codes ".local") ∷ []
      else full ∷ short ∷ (short ++ codes ".local") ∷ []
