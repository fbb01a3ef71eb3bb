-- ===== src/Dnsserver/Dot/Certificates.antt =====
-- internal/dnsserver/dot.go: the certificate that is presented, and its status.
use s_hole.Prelude.{
  ℕ, suc, ◌+◌, ◌%◌, ◌^◌, ◌≤◌, ◌<◌, Bool, false, List, [], ◌∷◌, ◌≡◌, ◌↔◌, refl, ◌∙◌, Option, none,
  some, arith,
}
use s_hole.Dnsserver.Dot.{
  Certificate, CertReloader, Load, load_ok, load_error, count_failure, reload, cert_expired,
  cert_ok, cert_expiry_warn_window, cert_state,
}

abbrev pub reloads : List (ℕ × Load) → CertReloader → CertReloader
reloads [] r = r
reloads ((now, answer) ∷ rest) r = reloads rest (reload now answer r)

-- The certificate of the last load that succeeded.
abbrev pub last_loaded : Certificate → List (ℕ × Load) → Certificate
last_loaded cert [] = cert
last_loaded cert ((now, load_ok new_cert) ∷ rest) = last_loaded new_cert rest
last_loaded cert ((now, load_error text) ∷ rest) = last_loaded cert rest

abbrev pub failed_loads : List (ℕ × Load) → ℕ
failed_loads [] = 0
failed_loads ((now, load_ok cert) ∷ rest) = failed_loads rest
failed_loads ((now, load_error text) ∷ rest) = suc (failed_loads rest)

-- A reloader with a certificate always presents the one of the last load that succeeded, and counts
-- each failed reload once, in a count that wraps at 64 bits.
pub reloads-current :
    (loads : List (ℕ × Load)) (r : CertReloader) (cert : Certificate)
    → r.current ≡ some cert
    → r.failures < 2 ^ 64
    → ((reloads loads r).current ≡ some (last_loaded cert loads))
      × ((reloads loads r).failures ≡ (r.failures + failed_loads loads) % 2 ^ 64)
unfolding reload count_failure
reloads-current [] r cert h small = (h, omega (arith, small))
reloads-current ((now, load_ok new_cert) ∷ rest) r cert h small =
    reloads-current rest (reload now (load_ok new_cert) r) new_cert refl small
reloads-current ((now, load_error text) ∷ rest) r cert h small =
    let counted = counts r.current h in
    let (current, failures) =
      reloads-current rest (reload now (load_error text) r) cert h (omega (arith, counted)) in
    (current, failures ∙ omega (arith, counted))
  where
    counts :
        (c : Option Certificate)
        → c ≡ some cert
        → count_failure c r.failures ≡ (r.failures + 1) % 2 ^ 64
    counts none e = cc
    counts (some c) e = refl

-- The status is ok exactly when the last reload succeeded and the certificate is valid for 14 more
-- days at least, and a certificate that has expired is shown as expired whatever else holds.
pub cert_state_iff :
    (not_after now : ℕ) (reload_failed : Bool)
    → ((cert_state not_after reload_failed now ≡ cert_ok) ↔ (
        (reload_failed ≡ false) × (now + cert_expiry_warn_window ≤ not_after) × (now < not_after)))
      × ((cert_state not_after reload_failed now ≡ cert_expired) ↔ (not_after ≤ now))
unfolding cert_state
cert_state_iff not_after now failed = ground arith
