-- ===== src/Stats.antt =====
-- internal/stats/stats.go: the counters, the Top lists and the snapshot. The atomic counters and the
-- mutex make each increment one step; Stats/Loads puts the steps of concurrent queries in sequence.
-- `sort_slice` stands for sort.Slice of Go's library, and `percent a b` for the float expression
-- float64(a) / float64(b) * 100. The counters are unbounded: 2 ^ 63 queries are out of reach.
mod Tests
pub mod Graph
pub mod Increments
pub mod Loads
pub mod Tops
use s_hole.Prelude.{
  ℕ, ◌+◌, ◌-◌, ◌/◌, Bool, true, false, not, ◌&&◌, ◌||◌, List, [], ◌∷◌, none, Bytes, codes, text_eq,
  length, take, ltb, ◌==◌, if◌then◌else◌,
}
use Graph.{Timeline, empty_timeline, on_bucket, reset}

-- The counters of Counter.
pub record Counts : Type 0 where
  pub total : ℕ
  pub blocked : ℕ
  pub cache_hit : ℕ
  pub local_ptr : ℕ
  pub local_name : ℕ
  pub forward_failures : ℕ
  pub upstream_errors : ℕ
  pub cname_blocked : ℕ

abbrev pub Tally : Type 0
Tally = List (Bytes × ℕ)

pub record Counter : Type 0 where
  pub counts : Counts
  pub timeline : Timeline
  pub graph_mode : Bytes
  pub top_domains : Tally
  pub top_clients : Tally

abbrev pub top_n_max_entries : ℕ
top_n_max_entries = 4096

abbrev pub no_counts : Counts
no_counts = record {
  total = 0;
  blocked = 0;
  cache_hit = 0;
  local_ptr = 0;
  local_name = 0;
  forward_failures = 0;
  upstream_errors = 0;
  cname_blocked = 0;
}

abbrev pub new_counter : Counter
new_counter = record {
  counts = no_counts;
  timeline = empty_timeline;
  graph_mode = [];
  top_domains = [];
  top_clients = [];
}

-- The increments, each one step of a query.
pub add_total : Counts → Counts
add_total c = record c { total = c.total + 1 }

pub add_blocked : Counts → Counts
add_blocked c = record c { blocked = c.blocked + 1 }

pub add_cache_hit : Counts → Counts
add_cache_hit c = record c { cache_hit = c.cache_hit + 1 }

pub add_cname_blocked : Counts → Counts
add_cname_blocked c = record c { cname_blocked = c.cname_blocked + 1 }

pub add_local_ptr : Counts → Counts
add_local_ptr c = record c { local_ptr = c.local_ptr + 1 }

pub add_local_name : Counts → Counts
add_local_name c = record c { local_name = c.local_name + 1 }

pub add_forward_failure : Counts → Counts
add_forward_failure c = record c { forward_failures = c.forward_failures + 1 }

pub add_upstream_error : Counts → Counts
add_upstream_error c = record c { upstream_errors = c.upstream_errors + 1 }

-- m[key]++
pub tally : Bytes → Tally → Tally
tally k [] = (k, 1) ∷ []
tally k ((j, n) ∷ m) = if text_eq j k then (j, n + 1) ∷ m else (j, n) ∷ tally k m

abbrev pub SortSlice : Type 0
SortSlice = (Bytes × ℕ → Bytes × ℕ → Bool) → Tally → Tally

-- The two less functions that the code passes to sort.Slice.
pub by_count : Bytes × ℕ → Bytes × ℕ → Bool
by_count a b = ltb b.1 a.1

-- Go's < on strings.
pub text_lt : Bytes → Bytes → Bool
text_lt [] [] = false
text_lt [] (y ∷ b) = true
text_lt (x ∷ a) [] = false
text_lt (x ∷ a) (y ∷ b) = if ltb x y then true else if ltb y x then false else text_lt a b

pub by_count_and_name : Bytes × ℕ → Bytes × ℕ → Bool
by_count_and_name a b = if not (a.1 == b.1) then ltb b.1 a.1 else text_lt a.0 b.0

-- Whether the per-minute graph records a query with this outcome.
pub graphs : Counter → Bool → Bool
graphs c is_blocked =
    if text_eq c.graph_mode (codes "all")
    then true
    else if text_eq c.graph_mode (codes "blocked")
    then is_blocked
    else false

pub set_query_log_mode : Counter → Bytes → Counter
set_query_log_mode c mode =
    if text_eq mode (codes "all") || text_eq mode (codes "blocked")
    then record c { graph_mode = mode }
    else record c { graph_mode = codes "none" }

-- `now` is the Unix time of the event, in seconds.
pub record_cache_hit : Counter → ℕ → Counter
record_cache_hit c now = record c {
  counts = add_cache_hit c.counts;
  timeline =
      if graphs c false
      then on_bucket (λ b. record b { cached = b.cached + 1 }) now c.timeline
      else c.timeline;
}

pub record_cname_blocked : Counter → Counter
record_cname_blocked c = record c { counts = add_cname_blocked c.counts }

pub record_local_ptr : Counter → Counter
record_local_ptr c = record c { counts = add_local_ptr c.counts }

pub record_local_name : Counter → Counter
record_local_name c = record c { counts = add_local_name c.counts }

pub record_forward_failure : Counter → ℕ → Counter
record_forward_failure c now = record c {
  counts = add_forward_failure c.counts;
  timeline =
      if graphs c false
      then on_bucket (λ b. record b { unresolved = b.unresolved + 1 }) now c.timeline
      else c.timeline;
}

pub record_upstream_error : Counter → ℕ → Counter
record_upstream_error c now = record c {
  counts = add_upstream_error c.counts;
  timeline =
      if graphs c false
      then on_bucket (λ b. record b { upstream_error = b.upstream_error + 1 }) now c.timeline
      else c.timeline;
}

module _ (sort_slice : SortSlice) where
  pub prune_bottom_half : Tally → Tally
  prune_bottom_half m = take (length m / 2) (sort_slice by_count m)

  -- The two caps at the end of the critical section of RecordQuery.
  pub cap_tally : Tally → Tally
  cap_tally m = if ltb top_n_max_entries (length m) then prune_bottom_half m else m

  pub record_query : Counter → Bytes → Bytes → Bool → ℕ → Counter
  record_query c client_ip domain is_blocked now =
      let counts = add_total c.counts in
      let clients =
        if not (text_eq client_ip []) then tally client_ip c.top_clients else c.top_clients in
      let domains =
        if is_blocked && not (text_eq domain [])
        then tally domain c.top_domains
        else c.top_domains in
      record c {
        timeline =
            if graphs c is_blocked
            then on_bucket
                (λ b. record b {
                  total = b.total + 1;
                  blocked = if is_blocked then b.blocked + 1 else b.blocked;
                })
                now c.timeline
            else c.timeline;
        counts = if is_blocked then add_blocked counts else counts;
        top_domains = cap_tally domains;
        top_clients = cap_tally clients;
      }

  pub top_n : Tally → ℕ → Tally
  top_n m n =
      let entries = sort_slice by_count_and_name m in
      if ltb 0 n && ltb n (length entries) then take n entries else entries

pub reset_tallies : Counter → Counter
reset_tallies c = record c { top_domains = []; top_clients = [] }

pub reset_timeline : Counter → Counter
reset_timeline c = record c { timeline = reset c.timeline }

pub record Summary (F : Type 0) : Type 0 where
  pub total_queries : ℕ
  pub blocked_count : ℕ
  pub blocked_pct : F
  pub local_ptr_count : ℕ
  pub local_name_count : ℕ
  pub cache_hits : ℕ
  pub cache_hit_pct : F
  pub forward_failures : ℕ
  pub upstream_errors : ℕ
  pub cname_blocked_count : ℕ

-- The loads of Snapshot, in the code's order: the counter of each line is read from the counts as
-- they stand when that line runs.
module _ {F : Type 0} (zero_pct : F) (percent : ℕ → ℕ → F) where
  pub snapshot : (at₁ at₂ at₃ at₄ at₅ at₆ at₇ at₈ : Counts) → Summary F
  snapshot at₁ at₂ at₃ at₄ at₅ at₆ at₇ at₈ =
      let cname_blocked = at₁.cname_blocked in
      let blocked = at₂.blocked in
      let local_ptr = at₃.local_ptr in
      let local_name = at₄.local_name in
      let hits = at₅.cache_hit in
      let forward_failures = at₆.forward_failures in
      let upstream_errors = at₇.upstream_errors in
      let total = at₈.total in
      let unserved = blocked + local_ptr + local_name in
      record {
        total_queries = total;
        blocked_count = blocked;
        blocked_pct = if ltb 0 total then percent blocked total else zero_pct;
        local_ptr_count = local_ptr;
        local_name_count = local_name;
        cache_hits = hits;
        cache_hit_pct = if ltb unserved total then percent hits (total - unserved) else zero_pct;
        forward_failures = forward_failures;
        upstream_errors = upstream_errors;
        cname_blocked_count = cname_blocked;
      }
