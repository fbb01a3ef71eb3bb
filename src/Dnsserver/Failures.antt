-- ===== src/Dnsserver/Failures.antt =====
-- internal/dnsserver/failures.go: the unresolved queries between two summary lines.
mod Tests
pub mod Intervals
use s_hole.Prelude.{
  ℕ, ◌+◌, Bool, true, false, ◌&&◌, ◌||◌, List, [], ◌∷◌, ◌++◌, map, Option, none, some, length, ltb,
  ◌==◌, Bytes, codes, text_eq, if◌then◌else◌,
}
use s_hole.Prelude.Sets.{insert}

-- The error of an unresolved query: the ForwardError with its causes, errForwardLimit, or another.
pub data Failure (E : Type 0) : Type 0 where
  forward_error : List (Bytes × E) → Failure E
  forward_limit : Failure E
  other_error : E → Failure E

pub record FailureLog : Type 0 where
  pub count : ℕ
  pub causes : List (Bytes × Bytes)
  pub clock : Bool
  pub limited : Bool

abbrev pub new_failure_log : FailureLog
new_failure_log = record { count = 0; causes = []; clock = false; limited = false }

-- f.causes[k] = text
unfoldable pub put_cause : Bytes → Bytes → List (Bytes × Bytes) → List (Bytes × Bytes)
put_cause k text [] = (k, text) ∷ []
put_cause k text ((j, old) ∷ m) =
    if text_eq j k then (k, text) ∷ m else (j, old) ∷ put_cause k text m

abbrev limit_text : Bytes
limit_text = codes "too many queries were waiting for an upstream"

-- Of an error: its text and clockSuspect; of an upstream: redact.URL.
pub record ErrorTexts (E : Type 0) : Type 0 where
  pub text : E → Bytes
  pub clock_suspect : E → Bool
  pub redact : Bytes → Bytes

module _ {E : Type 0} (texts : ErrorTexts E) where
  -- The loop over the causes of a ForwardError.
  unfoldable pub record_causes : List (Bytes × E) → FailureLog → FailureLog
  record_causes [] f = f
  record_causes ((upstream, err) ∷ rest) f = record_causes rest (record f {
    causes = put_cause (texts.redact upstream) (texts.text err) f.causes;
    clock = f.clock || texts.clock_suspect err;
  })

  unfoldable pub record_unresolved : Failure E → FailureLog → FailureLog
  record_unresolved failure f =
      let f' = record f { count = f.count + 1 } in
      elim failure [
        | forward_error causes ↦ record_causes causes f'
        | forward_limit ↦ record f' {
          limited = true;
          causes = put_cause (codes "forward limit") limit_text f'.causes;
        }
        | other_error err ↦ record f' {
          causes = put_cause (codes "query") (texts.text err) f'.causes;
        }
      ]

-- The hint of a summary line, by the case that chooses it.
pub data Hint : Type 0 where
  network_hint clock_hint limit_hint limit_and_network_hint : Hint

pub record Summary : Type 0 where
  pub queries : ℕ
  pub causes : List Bytes
  pub hint : Hint

-- upstream, ": " and its cause, in the order of the sorted upstreams.
unfoldable pub cause_part : List (Bytes × Bytes) → Bytes → Bytes
cause_part [] u = u ++ codes ": "
cause_part ((j, text) ∷ m) u =
    let rest = cause_part m u in if text_eq j u then u ++ codes ": " ++ text else rest

unfoldable pub hint_of : FailureLog → Hint
hint_of f =
    if f.clock
    then clock_hint
    else if f.limited && length f.causes == 1
    then limit_hint
    else if f.limited
    then limit_and_network_hint
    else network_hint

-- `sort_strings` is sort.Strings. The summary is what the line says.
unfoldable pub flush : (List Bytes → List Bytes) → FailureLog → FailureLog × Option Summary
unfolding cause_part hint_of
flush sort_strings f = (
  new_failure_log,
  if f.count == 0
      then none
      else some (record {
        queries = f.count;
        causes = map (cause_part f.causes) (sort_strings (map (λ (u, text). u) f.causes));
        hint = hint_of f;
      }),
)

-- replyLog, with its errors as a set of texts.
pub record ReplyLog : Type 0 where
  pub count : ℕ
  pub errs : List Bytes

abbrev pub new_reply_log : ReplyLog
new_reply_log = record { count = 0; errs = [] }

abbrev pub max_reply_errors : ℕ
max_reply_errors = 8

-- `net_error` is redact.NetError on the error.
unfoldable pub record_reply : {E : Type 0} → (E → Bytes) → E → ReplyLog → ReplyLog
record_reply net_error err r = record {
  count = r.count + 1;
  errs = if ltb (length r.errs) max_reply_errors then insert (net_error err) r.errs else r.errs;
}

unfoldable pub flush_replies :
    (List Bytes → List Bytes) → ReplyLog → ReplyLog × Option (ℕ × List Bytes)
flush_replies sort_strings r =
    (new_reply_log, if r.count == 0 then none else some (r.count, sort_strings r.errs))
