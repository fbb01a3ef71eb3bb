-- ===== src/Dnsserver/Dot.antt =====
-- internal/dnsserver/dot.go: the limit on open connections, and the certificate of DNS over TLS. What
-- net.Listener and crypto/tls answer is an argument; times are in nanoseconds.
mod Tests
pub mod Slots
pub mod Certificates
use s_hole.Prelude.{
  ℕ, zero, suc, ◌+◌, ◌-◌, ◌*◌, ◌^◌, ◌%◌, Bool, true, false, not, List, [], ◌∷◌, ◌++◌, Option, none,
  some, Bytes, text_eq, ltb, leb, if◌then◌else◌,
}

-- limitListener: the filled places of the channel slots, the calls of Accept that hold one inside
-- Listener.Accept, and for each connection whether it still holds one (limitConn's once).
pub record LimitListener : Type 0 where
  pub capacity : ℕ
  pub slots : ℕ
  pub done : Bool
  pub accepting : ℕ
  pub holds : List Bool

abbrev pub new_limit_listener : ℕ → LimitListener
new_limit_listener n = record { capacity = n; slots = 0; done = false; accepting = 0; holds = [] }

-- The first select of Accept, when it takes the free place; `none` when there is none to take.
unfoldable pub take_slot : LimitListener → Option LimitListener
take_slot l =
    if ltb l.slots l.capacity
    then some (record l { slots = l.slots + 1; accepting = l.accepting + 1 })
    else none

-- The second part of Accept, for one of the calls that hold a place.
unfoldable pub accepted : Bool → LimitListener → LimitListener
accepted true l = record l { accepting = l.accepting - 1; holds = l.holds ++ true ∷ [] }
accepted false l = record l { accepting = l.accepting - 1; slots = l.slots - 1 }

unfoldable pub release_at : ℕ → List Bool → List Bool
release_at i [] = []
release_at zero (h ∷ holds) = false ∷ holds
release_at (suc i) (h ∷ holds) = h ∷ release_at i holds

unfoldable pub holds_at : ℕ → List Bool → Bool
holds_at i [] = false
holds_at zero (h ∷ holds) = h
holds_at (suc i) (h ∷ holds) = holds_at i holds

-- limitConn.Close of connection number i.
unfoldable pub close_conn : ℕ → LimitListener → LimitListener
unfolding release_at holds_at
close_conn i l =
    if holds_at i l.holds then record l { slots = l.slots - 1; holds = release_at i l.holds } else l

unfoldable pub close_listener : LimitListener → LimitListener
close_listener l = record l { done = true }

-- A certificate: the names of its SAN, its addresses as texts, and its NotAfter.
pub record Certificate : Type 0 where
  pub dns_names : List Bytes
  pub ip_addresses : List Bytes
  pub not_after : ℕ

pub record CertReloader : Type 0 where
  pub current : Option Certificate
  pub failures : ℕ
  pub last_reload : ℕ
  pub last_err : Bytes

-- What load answers: the certificate, or the text of the error.
pub data Load : Type 0 where
  load_ok : Certificate → Load
  load_error : Bytes → Load

unfoldable pub count_failure : Option Certificate → ℕ → ℕ
count_failure none failures = failures
count_failure (some cert) failures = (failures + 1) % 2 ^ 64

-- Reload; load stores the certificate when it succeeds.
unfoldable pub reload : ℕ → Load → CertReloader → CertReloader
unfolding count_failure
reload now (load_ok cert) r = record r { current = some cert; last_reload = now; last_err = [] }
reload now (load_error text) r = record r {
  last_reload = now;
  last_err = text;
  failures = count_failure r.current r.failures;
}

abbrev pub no_reloader : CertReloader
no_reloader = record { current = none; failures = 0; last_reload = 0; last_err = [] }

unfoldable pub new_cert_reloader : ℕ → Load → Option CertReloader
unfolding reload
new_cert_reloader now (load_ok cert) = some (reload now (load_ok cert) no_reloader)
new_cert_reloader now (load_error text) = none

pub data CertState : Type 0 where
  cert_expired cert_reload_failed cert_expiring cert_ok : CertState

abbrev pub cert_expiry_warn_window : ℕ
cert_expiry_warn_window = 14 * 24 * 3600 * 10 ^ 9

unfoldable pub cert_state : ℕ → Bool → ℕ → CertState
cert_state not_after reload_failed now =
    if leb not_after now
    then cert_expired
    else if reload_failed
    then cert_reload_failed
    else if ltb (not_after - now) cert_expiry_warn_window
    then cert_expiring
    else cert_ok

pub record CertStatus : Type 0 where
  pub names : List Bytes
  pub not_after : ℕ
  pub state : CertState
  pub last_reload : ℕ
  pub last_reload_error : Bytes
  pub reload_failures : ℕ

-- Status, for the certificate that is current.
unfoldable pub status : CertReloader → Certificate → ℕ → CertStatus
unfolding cert_state
status r leaf now = record {
  names = leaf.dns_names ++ leaf.ip_addresses;
  not_after = leaf.not_after;
  state = cert_state leaf.not_after (not (text_eq r.last_err [])) now;
  last_reload = r.last_reload;
  last_reload_error = r.last_err;
  reload_failures = r.failures;
}
