-- ===== src/Cache/Tests.antt =====
-- Tests of the cache, and its theorems at concrete inputs.
use s_hole.Prelude.{
  ◌+◌, ◌-◌, ◌*◌, ◌/◌, ◌%◌, ◌^◌, ◌<◌, true, false, List, [], ◌∷◌, ◌≡◌, ◌≢◌, refl, sym, ◌⊎◌, none,
  some, arith, Bytes, codes, All,
}
use s_hole.Dns.{Question, type_opt}
use mathlib.Core.Bool.{false≢true}
use s_hole.Dns.Sample.{letters, opt_of, lib, lib-DnsLaws, query, address, reply}
use s_hole.Cache.{
  Entry, Cache, max_ttl, second, new_cache, find, remove, store, is_expired, key_bits,
  decrement_ttl, decrement_ttls, cap_ttl, cap_ttls, smallest_ttl, min_answer_ttl, reclaim_loop,
  reclaim_one_expired, key, do_of, key_of_question, key_of, get, insert, set, flush, stats, sweep,
  cleanup_expired,
}
use s_hole.Cache.Ttl.{IsOpt}
use s_hole.Cache.Invariant.{
  IsValid, Call, get_call, set_call, flush_call, cleanup_call, run, run-IsValid, new_cache-IsValid,
}
use s_hole.Cache.Keys.{key-injective}
use s_hole.Cache.Reads.{IsCacheable, get-set, get_fresh}

abbrev empty : Cache
empty = record { entries = []; max_size = 2; hits = 0; misses = 0; dropped = 0 }

code : Unit {0}
unfolding find remove store is_expired key_bits decrement_ttl decrement_ttls cap_ttl cap_ttls
    smallest_ttl min_answer_ttl reclaim_loop reclaim_one_expired key do_of key_of_question key_of
    get insert set flush stats sweep cleanup_expired opt_of letters new_cache
code = tt

abbrev key_a : Bytes
unfolding code
key_a = key lib (record { name = codes "a.com."; qtype = 1; qclass = 1 }) false false

abbrev live : Entry
unfolding code
live = record { msg = cap_ttls reply max_ttl; cached = 5; min_ttl = 300 }

abbrev one : Cache
unfolding code
one = record empty { entries = (key_a, live) ∷ []; max_size = 1 }

stored : set lib [] empty query reply 5 ≡ record empty { entries = (key_a, live) ∷ [] }
unfolding code
stored = refl

served_later :
    (get lib one query (10 * second) (65 * second)).1
    ≡ some (record reply { answer = address 236 ∷ address 86336 ∷ [] })
unfolding code
served_later = refl

expired_is_a_miss :
    get lib one query (301 * second) (301 * second) ≡ (record one { misses = 1 }, none)
unfolding code
expired_is_a_miss = refl

swept : cleanup_expired one (301 * second) ≡ (record one { entries = [] }, 1)
unfolding code
swept = refl

flushed : stats (flush one) ≡ (0, 0, 0)
unfolding code
flushed = refl

-- The TTL field of an OPT record in an answer is neither capped nor aged.
opt_not_capped :
    min_answer_ttl (
      cap_ttls
        (record reply {
          answer =
              record (address 0) {
                header = record { name = []; rrtype = type_opt; class = 1232; ttl = 2_000_000_000 };
              }
              ∷ [];
        })
        max_ttl)
    ≡ 2_000_000_000
unfolding code
opt_not_capped = refl

abbrev calls : List Call
calls =
    set_call [] query reply 5 ∷ get_call query second second ∷ cleanup_call second ∷ flush_call ∷ []

abbrev filled : Cache
filled = run lib (set_call [] query reply 5 ∷ []) empty

empty-IsValid : IsValid empty
unfolding new_cache
empty-IsValid = new_cache-IsValid 2

filled-IsValid : IsValid filled
filled-IsValid = run-IsValid lib (set_call [] query reply 5 ∷ []) empty empty-IsValid

run-IsValid_example : IsValid (run lib calls empty)
run-IsValid_example = run-IsValid lib calls empty empty-IsValid

reply-IsCacheable : IsCacheable reply
unfolding code
reply-IsCacheable = record {
  success = refl;
  complete = refl;
  answered = cc;
  positive = omega arith;
}

get-set_example :
    (get lib (set lib [] empty query reply 5) query 10 (2 * second + 5)).1
    ≡ some (decrement_ttls (cap_ttls reply max_ttl) ((2 * second + 5 - 5) / second % 2 ^ 32))
unfolding code
get-set_example =
    get-set lib [] empty query query reply 5 10 (2 * second + 5) reply-IsCacheable refl refl
      (omega arith) (omega arith)

truncated_not-IsCacheable : ¬ (
    IsCacheable (record reply { truncated = true }) × ((k : Bytes) × (key_of lib query ≡ some k)))
truncated_not-IsCacheable = λ h. false≢true (sym h.0.complete)

get_fresh_example :
    (e : Entry) × ((k : Bytes) × (key_of lib query ≡ some k) × (find k filled.entries ≡ some e))
    × (10 < e.cached + e.min_ttl * second)
    × ((10 < e.cached + max_ttl * second) ⊎ All IsOpt e.msg.answer)
    × (second < e.cached + e.min_ttl * second
        → All
            (λ rr. rr.header.rrtype ≢ type_opt → 0 < rr.header.ttl)
            (decrement_ttls (cap_ttls reply max_ttl) 0).answer)
unfolding code run
get_fresh_example =
    get_fresh lib filled query 10 second {served = decrement_ttls (cap_ttls reply max_ttl) 0}
      filled-IsValid (omega arith) refl

abbrev asked : Question
asked = record { name = codes "a.com."; qtype = 1; qclass = 1 }

key-injective_example : (asked ≡ asked) × (false ≡ false) × (true ≡ true)
key-injective_example =
    key-injective lib lib-DnsLaws asked asked false false true true (omega arith) (omega arith) refl
