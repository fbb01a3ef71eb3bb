-- ===== src/Dnsserver/Upstream.antt =====
-- internal/dnsserver/upstream.go: the forwarder. The network, the clock and the query's context
-- are the environment `Env`: the outcome of the n-th exchange of a query, the clock after it, and
-- the n-th reading of ctx.Err. The forwarder's calls are a sequence of these, in the order of the
-- code. exchangeDoH is a field of the environment: HTTP and TLS are outside the model.
mod Tests
pub mod Sweeps
pub mod Forward
pub mod Once
pub mod Listed
use s_hole.Prelude.{
  ℕ, ◌+◌, ◌*◌, ◌/◌, Bool, true, false, not, ◌&&◌, List, [], ◌∷◌, ◌++◌, Option, none, some, Bytes,
  codes, text_eq, has_prefix, length, any, ltb, ◌==◌, if◌then◌else◌,
}
use s_hole.Prelude.Sets.{member, insert}
use s_hole.Dns.{Question, Msg, DnsLibrary, opcode_query}

-- lastErr and transportFailures.
pub record Tracker : Type 0 where
  pub last_err : List (Bytes × ℕ)
  pub transport_failures : List (Bytes × ℕ)

abbrev pub new_tracker : Tracker
new_tracker = record { last_err = []; transport_failures = [] }

-- 30 seconds, in nanoseconds.
abbrev pub upstream_cooldown : ℕ
upstream_cooldown = 30 * 1_000_000_000

unfoldable pub find : Bytes → List (Bytes × ℕ) → Option ℕ
find k [] = none
find k ((j, n) ∷ m) = if text_eq j k then some n else find k m

unfoldable pub put : Bytes → ℕ → List (Bytes × ℕ) → List (Bytes × ℕ)
put k v [] = (k, v) ∷ []
put k v ((j, n) ∷ m) = if text_eq j k then (k, v) ∷ m else (j, n) ∷ put k v m

unfoldable pub remove : Bytes → List (Bytes × ℕ) → List (Bytes × ℕ)
remove k [] = []
remove k ((j, n) ∷ m) = let rest = remove k m in if text_eq j k then rest else (j, n) ∷ rest

-- m[k], which is 0 for a missing key.
unfoldable pub get_or_zero : Bytes → List (Bytes × ℕ) → ℕ
get_or_zero k m = elim (find k m) [ none ↦ 0 | some n ↦ n ]

-- now.Sub(last) < upstreamCooldown, with the subtraction moved to the other side.
unfoldable pub should_skip : Tracker → Bytes → ℕ → Bool
should_skip t addr now = elim (find addr t.last_err) [
  | none ↦ false
  | some last ↦ ltb now (last + upstream_cooldown)
]

unfoldable pub record_failure : Tracker → Bytes → ℕ → Tracker
record_failure t addr now = record {
  last_err = put addr now t.last_err;
  transport_failures = put addr (get_or_zero addr t.transport_failures + 1) t.transport_failures;
}

unfoldable pub record_success : Tracker → Bytes → Tracker
record_success t addr = record t { last_err = remove addr t.last_err }

abbrev pub https : Bytes
https = codes "https://"

-- countPlaintextFallback, over the counter plaintextFallbacks.
unfoldable pub count_plaintext_fallback : Bytes → List Bytes → ℕ → ℕ
count_plaintext_fallback used upstreams n =
    if has_prefix used https
    then n
    else if any (λ u. has_prefix u https) upstreams
    then n + 1
    else n

-- One exchange ends with a reply or an error.
pub data Reply (E : Type 0) : Type 0 where
  reply : Msg → Reply E
  error : E → Reply E

pub record Env (E : Type 0) : Type 0 where
  -- exchangeDoH, udpClient.ExchangeContext and tcpClient.ExchangeContext in the n-th contact.
  pub doh : ℕ → Bytes → Reply E
  pub udp : ℕ → Bytes → Reply E
  pub tcp : ℕ → Bytes → Reply E
  -- ctx.Err at its n-th reading, and the clock when the n-th contact has failed.
  pub ctx_err : ℕ → Option E
  pub clock : ℕ → ℕ
  -- errReplyMismatch
  pub mismatch : E

-- What one call of forwardWith changes: the tracker, the set `tried`, the upstreams contacted (in
-- order), the causes of the ForwardError, the readings of ctx.Err, and plaintextFallbacks.
pub record Progress (E : Type 0) : Type 0 where
  pub tracker : Tracker
  pub tried : List Bytes
  pub contacts : List Bytes
  pub causes : List (Bytes × E)
  pub checks : ℕ
  pub fallbacks : ℕ

-- The results of forwardWith: a reply, the context's error, or the ForwardError with its causes.
pub data Outcome (E : Type 0) : Type 0 where
  answered : Msg → Outcome E
  cancelled : E → Outcome E
  all_failed : List (Bytes × E) → Outcome E

module _ (lib : DnsLibrary) where
  -- The question part of checkReply. A query without a question, at which the code would panic, is
  -- none that upstreamQuery makes.
  unfoldable pub same_question : List Question → List Question → Bool
  same_question (got ∷ []) (want ∷ _) =
      got.qtype == want.qtype && got.qclass == want.qclass && lib.equal_fold got.name want.name
  same_question _ _ = false

  -- True where checkReply returns no error.
  unfoldable pub check_reply : Msg → Msg → Bool
  check_reply req resp =
      resp.response && resp.opcode == opcode_query && same_question resp.question req.question

module _ {E : Type 0} (lib : DnsLibrary) (env : Env E) (req : Msg) where
  -- The TCP retry of a truncated reply.
  unfoldable pub retry : ℕ → Bytes → Msg → Msg
  retry n upstream resp = elim (env.tcp n upstream) [
    | error _ ↦ resp
    | reply full ↦ if check_reply lib req full then full else resp
  ]

  unfoldable pub exchange : ℕ → Bytes → Reply E
  exchange n upstream =
      if has_prefix upstream https
      then elim (env.doh n upstream) [
        | error e ↦ error e
        | reply resp ↦ if check_reply lib req resp then reply resp else error env.mismatch
      ]
      else elim (env.udp n upstream) [
        | error e ↦ error e
        | reply resp ↦
            if not (check_reply lib req resp)
            then error env.mismatch
            else if not resp.truncated
            then reply resp
            else reply (retry n upstream resp)
      ]

  -- One contact, as in the body of both sweeps: the reply, if there is one.
  unfoldable pub contact : List Bytes → Bytes → Progress E → Option Msg × Progress E
  contact upstreams upstream p =
      let n = length p.contacts in
      let p' = record p { contacts = p.contacts ++ upstream ∷ [] } in
      elim (exchange n upstream) [
        | reply resp ↦ (
          some resp,
          record p' {
            tracker = record_success p.tracker upstream;
            fallbacks = count_plaintext_fallback upstream upstreams p.fallbacks;
          },
        )
        | error e ↦ (
          none,
          record p' {
            tracker = record_failure p.tracker upstream (env.clock n);
            causes = p.causes ++ (upstream, e) ∷ [];
          },
        )
      ]

  -- A sweep ends with a result, or with none when the loop runs out of upstreams.
  unfoldable pub first_sweep :
      List Bytes → ℕ → List Bytes → Progress E → Option (Outcome E) × Progress E
  first_sweep upstreams now [] p = (none, p)
  first_sweep upstreams now (u ∷ us) p =
      let p₁ = record p { checks = p.checks + 1 } in
      elim (env.ctx_err p.checks) [
        | some e ↦ (some (cancelled e), p₁)
        | none ↦ elim (should_skip p.tracker u now) [
          | true ↦ first_sweep upstreams now us p₁
          | false ↦
              let (resp, p₂) = contact upstreams u (record p₁ { tried = insert u p.tried }) in
              elim resp [
                | some m ↦ (some (answered m), p₂)
                | none ↦ first_sweep upstreams now us p₂
              ]
        ]
      ]

  unfoldable pub second_sweep :
      List Bytes → List Bytes → Progress E → Option (Outcome E) × Progress E
  second_sweep upstreams [] p = (none, p)
  second_sweep upstreams (u ∷ us) p =
      let p₁ = record p { checks = p.checks + 1 } in
      elim (env.ctx_err p.checks) [
        | some e ↦ (some (cancelled e), p₁)
        | none ↦ elim (member u p.tried) [
          | true ↦ second_sweep upstreams us p₁
          | false ↦
              let (resp, p₂) = contact upstreams u p₁ in
              elim resp [ some m ↦ (some (answered m), p₂) | none ↦ second_sweep upstreams us p₂ ]
        ]
      ]

  -- What follows the sweeps: with no cause at all, the context's error if there is one.
  unfoldable pub no_answer : Progress E → Outcome E × Progress E
  no_answer p =
      if length p.causes == 0
      then elim (env.ctx_err p.checks) [
        | some e ↦ (cancelled e, record p { checks = p.checks + 1 })
        | none ↦ (all_failed p.causes, record p { checks = p.checks + 1 })
      ]
      else (all_failed p.causes, p)

  unfoldable pub forward_with : List Bytes → Tracker → ℕ → ℕ → Outcome E × Progress E
  forward_with upstreams tracker fallbacks now =
      let start : Progress E = record {
        tracker = tracker;
        tried = [];
        contacts = [];
        causes = [];
        checks = 0;
        fallbacks = fallbacks;
      } in
      let (r₁, p₁) = first_sweep upstreams now upstreams start in
      elim r₁ [
        | some out ↦ (out, p₁)
        | none ↦
            let (r₂, p₂) = second_sweep upstreams upstreams p₁ in
            elim r₂ [ some out ↦ (out, p₂) | none ↦ no_answer p₂ ]
      ]
