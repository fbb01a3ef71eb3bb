-- ===== src/Dnsserver/Failures/Tests.antt =====
-- Runs of the failure summaries, and the theorems about them at concrete inputs.
use s_hole.Prelude.{false, List, [], ◌∷◌, ◌≡◌, refl, some, Bytes, codes}
use s_hole.Dnsserver.Failures.{
  Failure, forward_error, forward_limit, new_failure_log, ErrorTexts, limit_and_network_hint,
  record_unresolved, record_causes, put_cause, flush,
}
use s_hole.Dnsserver.Failures.Intervals.{record_all}

abbrev texts : ErrorTexts Bytes
texts = record { text = λ e. e; clock_suspect = λ e. false; redact = λ u. u }

abbrev as_is : List Bytes → List Bytes
as_is names = names

abbrev night : List (Failure Bytes)
night =
    forward_error ((codes "9.9.9.9", codes "timeout") ∷ [])
    ∷ forward_limit
    ∷ forward_error ((codes "9.9.9.9", codes "refused") ∷ [])
    ∷ []

summarizes :
    (flush as_is (record_all texts as_is night new_failure_log)).1
    ≡ some (record {
      queries = 3;
      causes =
          codes "9.9.9.9: refused"
          ∷ codes "forward limit: too many queries were waiting for an upstream"
          ∷ [];
      hint = limit_and_network_hint;
    })
unfolding flush record_unresolved record_causes put_cause
summarizes = refl

abbrev errors : List Bytes
errors = codes "closed" ∷ codes "timeout" ∷ codes "closed" ∷ []

abbrev same_text : Bytes → Bytes
same_text e = e
