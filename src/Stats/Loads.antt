-- ===== src/Stats/Loads.antt =====
-- The load-order invariant of internal/stats/stats.go under concurrency: while queries increment the
-- counters in any interleaving, a snapshot that loads the counters one by one keeps every ratio.
use s_hole.Prelude.{ℕ, suc, ◌+◌, ◌≤◌, List, [], ◌∷◌, ◌++◌, ◌≡◌, ap, arith, length, length-append}
use s_hole.Stats.{
  Counts, no_counts, add_total, add_blocked, add_cache_hit, add_local_ptr, add_local_name,
  add_forward_failure, add_upstream_error, add_cname_blocked, snapshot,
}

-- The outcomes of ServeDNS for a counted query.
pub data Query : Type 0 where
  local_ptr_query local_name_query blocked_by_name blocked_by_cname cached failed upstream_failure
        relayed :
      Query

-- The increment that follows the one of the total; a relayed answer has none.
unfoldable pub second_count : Query → Counts → Counts
second_count local_ptr_query = add_local_ptr
second_count local_name_query = add_local_name
second_count blocked_by_name = add_blocked
second_count blocked_by_cname = add_blocked
second_count cached = add_cache_hit
second_count failed = add_forward_failure
second_count upstream_failure = add_upstream_error
second_count relayed = λ c. c

-- RecordCNAMEBlocked is still to come.
unfoldable pub chains : Query → ℕ
chains blocked_by_cname = 1
chains _ = 0

-- The shared counters, the queries between their first and their second increment, and the number
-- of queries between RecordQuery and RecordCNAMEBlocked.
pub record System : Type 0 where
  pub counts : Counts
  pub in_flight : List Query
  pub chained : ℕ

-- One step of one query; any query may take the next step.
pub data Step (s : System) : System → Type 0 where
  arrive :
      (q : Query) → Step s (record s { counts = add_total s.counts; in_flight = q ∷ s.in_flight })
  count :
      (before after : List Query) (q : Query)
      → s.in_flight ≡ before ++ q ∷ after
      → Step s (record {
        counts = second_count q s.counts;
        in_flight = before ++ after;
        chained = s.chained + chains q;
      })
  count_chain :
      (n : ℕ)
      → s.chained ≡ suc n
      → Step s (record s { counts = add_cname_blocked s.counts; chained = n })

pub data Reach (s : System) : System → Type 0 where
  here : Reach s s
  next : {t u : System} → Reach s t → Step t u → Reach s u

abbrev pub start : System
start = record { counts = no_counts; in_flight = []; chained = 0 }

-- Every counter that follows the total has its query counted in the total already.
record IsOrdered (s : System) : Type 0 where
  covered :
      s.counts.blocked
        + s.counts.cache_hit
        + s.counts.local_ptr
        + s.counts.local_name
        + s.counts.forward_failures
        + s.counts.upstream_errors
        + length s.in_flight
      ≤ s.counts.total
  chained : s.counts.cname_blocked + s.chained ≤ s.counts.blocked

-- No counter is smaller later on.
record Grows (c d : Counts) : Type 0 where
  total : c.total ≤ d.total
  blocked : c.blocked ≤ d.blocked
  cache_hit : c.cache_hit ≤ d.cache_hit
  local_ptr : c.local_ptr ≤ d.local_ptr
  local_name : c.local_name ≤ d.local_name
  forward_failures : c.forward_failures ≤ d.forward_failures
  upstream_errors : c.upstream_errors ≤ d.upstream_errors
  cname_blocked : c.cname_blocked ≤ d.cname_blocked

program : Unit {0}
unfolding add_total add_blocked add_cache_hit add_local_ptr add_local_name add_forward_failure
    add_upstream_error add_cname_blocked second_count chains
program = tt

second_count-Grows : (q : Query) (c : Counts) → Grows c (second_count q c)
unfolding program
second_count-Grows local_ptr_query c = omega arith
second_count-Grows q c = omega arith

Step-Grows : {s t : System} → Step s t → Grows s.counts t.counts
unfolding program
Step-Grows (arrive q) = omega arith
Step-Grows {s} (count before after q e) = second_count-Grows q s.counts
Step-Grows (count_chain n e) = omega arith

Reach-Grows : {s t : System} → Reach s t → Grows s.counts t.counts
Reach-Grows here = omega arith
Reach-Grows (next r st) = let g = Reach-Grows r in let h = Step-Grows st in omega (arith, g, h)

count-IsOrdered :
    (s : System) (before after : List Query) (q : Query)
    → s.in_flight ≡ before ++ q ∷ after
    → IsOrdered s
    → IsOrdered (record {
      counts = second_count q s.counts;
      in_flight = before ++ after;
      chained = s.chained + chains q;
    })
unfolding program
count-IsOrdered s before after q e o = go q (length-append before (q ∷ after)) (ap length e)
  where
    go :
        (q : Query)
        → length (before ++ q ∷ after) ≡ length before + length (q ∷ after)
        → length s.in_flight ≡ length (before ++ q ∷ after)
        → IsOrdered (record {
          counts = second_count q s.counts;
          in_flight = before ++ after;
          chained = s.chained + chains q;
        })
    go local_ptr_query l m = omega (arith, length-append before after)
    go q l m = omega (arith, length-append before after)

Step-IsOrdered : {s t : System} → Step s t → IsOrdered s → IsOrdered t
unfolding program
Step-IsOrdered (arrive q) o = omega arith
Step-IsOrdered {s} (count before after q e) o = count-IsOrdered s before after q e o
Step-IsOrdered (count_chain n e) o = omega arith

Reach-IsOrdered : {s t : System} → Reach s t → IsOrdered s → IsOrdered t
Reach-IsOrdered here o = o
Reach-IsOrdered (next r st) o = Step-IsOrdered st (Reach-IsOrdered r o)

-- However the increments of concurrent queries interleave with the eight loads of Snapshot, the
-- summary counts no more blocked, local, cached, failed and relayed-failure queries together than
-- queries in total, and no more CNAME blocks than blocks.
pub snapshot_ordered :
    {F : Type 0} (zero_pct : F) (percent : ℕ → ℕ → F) (s₁ s₂ s₃ s₄ s₅ s₆ s₇ s₈ : System)
    → Reach start s₁
    → Reach s₁ s₂
    → Reach s₂ s₃
    → Reach s₃ s₄
    → Reach s₄ s₅
    → Reach s₅ s₆
    → Reach s₆ s₇
    → Reach s₇ s₈
    → let out =
        snapshot zero_pct percent s₁.counts s₂.counts s₃.counts s₄.counts s₅.counts s₆.counts
          s₇.counts s₈.counts in
      (out.cname_blocked_count ≤ out.blocked_count)
      × (out.blocked_count + out.local_ptr_count + out.local_name_count + out.cache_hits
            + out.forward_failures + out.upstream_errors
          ≤ out.total_queries)
unfolding snapshot
snapshot_ordered zero_pct percent s₁ s₂ s₃ s₄ s₅ s₆ s₇ s₈ r₁ r₂ r₃ r₄ r₅ r₆ r₇ r₈ =
    let o₁ = Reach-IsOrdered r₁ (omega arith) in
    let o₂ = Reach-IsOrdered r₂ o₁ in
    let o₈ = Reach-IsOrdered r₈ (
      Reach-IsOrdered r₇
        (Reach-IsOrdered r₆ (Reach-IsOrdered r₅ (Reach-IsOrdered r₄ (Reach-IsOrdered r₃ o₂))))) in
    let g₂ = Reach-Grows r₂ in
    let g₃ = Reach-Grows r₃ in
    let g₄ = Reach-Grows r₄ in
    let g₅ = Reach-Grows r₅ in
    let g₆ = Reach-Grows r₆ in
    let g₇ = Reach-Grows r₇ in
    let g₈ = Reach-Grows r₈ in omega (arith, o₂, o₈, g₂, g₃, g₄, g₅, g₆, g₇, g₈)
