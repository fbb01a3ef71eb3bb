-- ===== src/Dnsserver/Dot/Tests.antt =====
-- Runs of the connection limit and of the certificate, and the theorems at concrete inputs.
use s_hole.Prelude.{
  ℕ, ◌+◌, ◌*◌, ◌%◌, ◌^◌, true, false, List, [], ◌∷◌, ◌≡◌, refl, none, some, arith, codes,
}
use s_hole.Dnsserver.Dot.{
  LimitListener, new_limit_listener, take_slot, accepted, close_conn, Certificate, CertReloader,
  Load, load_ok, load_error, no_reloader, cert_state, reload,
}
use s_hole.Dnsserver.Dot.Slots.{
  taken, answered, conn_closed, Reachable, new, next, IsBalanced, Reachable-IsBalanced,
}
use s_hole.Dnsserver.Dot.Certificates.{reloads, last_loaded, failed_loads, reloads-current}

code : Unit {0}
unfolding take_slot accepted close_conn reload cert_state
code = tt

abbrev waiting : LimitListener
waiting = record (new_limit_listener 1) { slots = 1; accepting = 1 }

abbrev serving : LimitListener
serving = record (new_limit_listener 1) { slots = 1; holds = true ∷ [] }

abbrev served : LimitListener
served = record (new_limit_listener 1) { holds = false ∷ [] }

takes_place : take_slot (new_limit_listener 1) ≡ some waiting
unfolding code
takes_place = refl

full_listener : take_slot serving ≡ none
unfolding code
full_listener = refl

closed_twice : close_conn 0 (close_conn 0 serving) ≡ served
unfolding code
closed_twice = refl

served-Reachable : Reachable 1 (close_conn 0 (accepted true waiting))
served-Reachable =
    next (accepted true waiting) (close_conn 0 (accepted true waiting))
      (next waiting (accepted true waiting)
        (next (new_limit_listener 1) waiting new (taken (new_limit_listener 1) waiting takes_place))
        (answered waiting true (omega arith)))
      (conn_closed (accepted true waiting) 0)

Reachable-IsBalanced_example : IsBalanced 1 (close_conn 0 (accepted true waiting))
Reachable-IsBalanced_example =
    Reachable-IsBalanced 1 (close_conn 0 (accepted true waiting)) served-Reachable

abbrev old_cert : Certificate
old_cert = record { dns_names = codes "dns.home" ∷ []; ip_addresses = []; not_after = 10 ^ 18 }

abbrev new_cert : Certificate
new_cert = record old_cert { not_after = 2 * 10 ^ 18 }

abbrev started : CertReloader
started = record no_reloader { current = some old_cert }

abbrev loads : List (ℕ × Load)
loads = (1, load_error (codes "no such file")) ∷ (2, load_ok new_cert) ∷ []

reloads-current_example :
    ((reloads loads started).current ≡ some (last_loaded old_cert loads))
    × ((reloads loads started).failures ≡ (started.failures + failed_loads loads) % 2 ^ 64)
reloads-current_example = reloads-current loads started old_cert refl (omega arith)
