-- ===== src/Dnsserver/Upstream/Tests.antt =====
-- Tests of the forwarder, and its theorems at concrete inputs.
use s_hole.Prelude.{true, List, [], ◌∷◌, map, ◌≡◌, refl, none, some, Bytes, codes, All}
use s_hole.Prelude.Sets.{member, insert, Distinct}
use s_hole.Dns.Sample.{lib, query, reply as answer}
use s_hole.Dnsserver.Upstream.{
  Tracker, new_tracker, find, put, remove, get_or_zero, should_skip, record_failure, record_success,
  count_plaintext_fallback, reply, error, Env, cancelled, same_question, check_reply, retry,
  exchange, contact, first_sweep, second_sweep, no_answer, forward_with,
}
use s_hole.Dnsserver.Upstream.Sweeps.{IsReplyTo, IsReceived, exchange-IsReplyTo}
use s_hole.Dnsserver.Upstream.Forward.{forward_with-all_failed}
use s_hole.Dnsserver.Upstream.Once.{contacts-forward_with-Distinct}

abbrev doh_upstream : Bytes
doh_upstream = codes "https://9.9.9.9/dns-query"

abbrev plain_upstream : Bytes
plain_upstream = codes "1.1.1.1:53"

abbrev both : List Bytes
both = doh_upstream ∷ plain_upstream ∷ []

-- DoH is down and plain DNS answers; an error is a text.
abbrev doh_down : Env Bytes
doh_down = record {
  doh = λ n u. error (codes "refused");
  udp = λ n u. reply answer;
  tcp = λ n u. error (codes "refused");
  ctx_err = λ n. none;
  clock = λ n. 1000;
  mismatch = codes "reply does not match the query";
}

abbrev all_down : Env Bytes
all_down = record doh_down { udp = λ n u. error (codes "timeout") }

code : Unit {0}
unfolding member insert find put remove get_or_zero should_skip record_failure record_success
    count_plaintext_fallback same_question check_reply retry exchange contact first_sweep
    second_sweep no_answer forward_with
code = tt

-- The DoH upstream failed 20 seconds ago.
abbrev cooling : Tracker
cooling = record new_tracker { last_err = (doh_upstream, 100) ∷ [] }

fallback_counted : (forward_with lib doh_down query both new_tracker 0 1000).1.fallbacks ≡ 1
unfolding code
fallback_counted = refl

cooldown_last :
    (forward_with lib all_down query both cooling 0 20_000_000_000).1.contacts
    ≡ plain_upstream ∷ doh_upstream ∷ []
unfolding code
cooldown_last = refl

failures_counted :
    (forward_with lib all_down query both cooling 0 20_000_000_000).1.tracker.transport_failures
    ≡ (plain_upstream, 1) ∷ (doh_upstream, 1) ∷ []
unfolding code
failures_counted = refl

-- An upstream that is listed twice and cooling down is contacted twice in the second sweep.
listed_twice :
    (forward_with lib all_down query
      (doh_upstream ∷ doh_upstream ∷ [])
      cooling
      0
      20_000_000_000).1.contacts
    ≡ doh_upstream ∷ doh_upstream ∷ []
unfolding code
listed_twice = refl

stopped :
    (forward_with lib
      (record doh_down { ctx_err = λ n. some (codes "deadline") })
      query
      both
      new_tracker
      0
      1000).0
    ≡ cancelled (codes "deadline")
unfolding code
stopped = refl

exchange-IsReplyTo_example :
    IsReplyTo lib query answer × IsReceived lib doh_down query 0 plain_upstream answer
unfolding code
exchange-IsReplyTo_example =
    exchange-IsReplyTo lib doh_down query 0 plain_upstream {m = answer} refl

abbrev down_causes : List (Bytes × Bytes)
down_causes = (plain_upstream, codes "timeout") ∷ (doh_upstream, codes "refused") ∷ []

forward_with-all_failed_example :
    (map (λ (c : Bytes × Bytes). c.0) down_causes
      ≡ (forward_with lib all_down query both cooling 0 20_000_000_000).1.contacts)
    × All
        (λ u.
          member u (forward_with lib all_down query both cooling 0 20_000_000_000).1.contacts
          ≡ true)
        both
    × ((forward_with lib all_down query both cooling 0 20_000_000_000).1.fallbacks ≡ 0)
unfolding code
forward_with-all_failed_example =
    forward_with-all_failed lib all_down query both 0 cooling 20_000_000_000 {causes = down_causes}
      refl

contacts-forward_with-Distinct_example :
    Distinct (forward_with lib all_down query both cooling 0 20_000_000_000).1.contacts
unfolding member
contacts-forward_with-Distinct_example =
    contacts-forward_with-Distinct lib all_down query both cooling 0 20_000_000_000
      (refl, (refl, tt))
