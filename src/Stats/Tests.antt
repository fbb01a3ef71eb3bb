-- ===== src/Stats/Tests.antt =====
-- Tests of the statistics, and their theorems at concrete inputs.
use s_hole.Prelude.{
  map, ◌++◌, ℕ, suc, ◌+◌, ◌*◌, ◌/◌, ◌≤◌, Bool, true, false, List, [], ◌∷◌, ◌≡◌, refl, inl, inr,
  arith, Bytes, codes, length, All, if◌then◌else◌, Bool-cases,
}
use mathlib.Core.List.{Perm}
use mathlib.Core.List.Perm
use s_hole.Stats.Graph.Series.{start_total, expected, timeline-run}
use s_hole.Stats.Graph.{
  minute_ns, timeline, first_start, bucket_count, bucket_minutes, empty_timeline, on_bucket, claim,
  reset,
}
use s_hole.Stats.Graph.Window.{run}
use s_hole.Stats.{
  Counter, Tally, Summary, new_counter, no_counts, add_total, add_blocked, add_cache_hit,
  add_cname_blocked, add_local_ptr, add_local_name, add_forward_failure, add_upstream_error, tally,
  by_count, text_lt, by_count_and_name, graphs, set_query_log_mode, record_cache_hit,
  record_cname_blocked, record_local_ptr, record_local_name, record_forward_failure,
  record_upstream_error, prune_bottom_half, cap_tally, record_query, top_n, reset_tallies,
  reset_timeline, snapshot,
}
use s_hole.Stats.Loads.{
  System, Reach, here, next, arrive, count, blocked_by_name, second_count, chains, start,
  snapshot_ordered,
}
use s_hole.Stats.Tops.{
  Sorted, SortLaws, Call, queried, tallies_reset, calls, IsCapped, calls-IsCapped,
}

-- Insertion sort, for sort.Slice.
place : (Bytes × ℕ → Bytes × ℕ → Bool) → Bytes × ℕ → Tally → Tally
place less x [] = x ∷ []
place less x (y ∷ ys) = let rest = place less x ys in if less y x then y ∷ rest else x ∷ y ∷ ys

insertion_sort : (Bytes × ℕ → Bytes × ℕ → Bool) → Tally → Tally
insertion_sort less [] = []
insertion_sort less (x ∷ xs) = place less x (insertion_sort less xs)

place-perm :
    (less : Bytes × ℕ → Bytes × ℕ → Bool) (x : Bytes × ℕ) (ys : Tally)
    → Perm (place less x ys) (x ∷ ys)
unfolding place
place-perm less x [] = Perm.refl (x ∷ [])
place-perm less x (y ∷ ys) = elim (Bool-cases (less y x)) [
  | inl before ↦ rw before (Perm.trans (Perm.cons y (place-perm less x ys)) (Perm.swap x y ys))
  | inr after ↦ rw after (Perm.refl (x ∷ y ∷ ys))
]

insertion_sort-perm :
    (less : Bytes × ℕ → Bytes × ℕ → Bool) (m : Tally) → Perm (insertion_sort less m) m
unfolding insertion_sort
insertion_sort-perm less [] = Perm.refl []
insertion_sort-perm less (x ∷ xs) =
    Perm.trans (place-perm less x (insertion_sort less xs))
      (Perm.cons x (insertion_sort-perm less xs))

length-place :
    (less : Bytes × ℕ → Bytes × ℕ → Bool) (x : Bytes × ℕ) (ys : Tally)
    → length (place less x ys) ≡ suc (length ys)
unfolding place
length-place less x [] = refl
length-place less x (y ∷ ys) = ground (arith, length-place less x ys)

length-insertion_sort :
    (less : Bytes × ℕ → Bytes × ℕ → Bool) (m : Tally) → length (insertion_sort less m) ≡ length m
unfolding insertion_sort
length-insertion_sort less [] = refl
length-insertion_sort less (x ∷ xs) =
    omega (arith, length-place less x (insertion_sort less xs), length-insertion_sort less xs)

abbrev NotBelow : Bytes × ℕ → Tally → Type 0
NotBelow x = All (λ y. by_count y x ≡ false)

place-NotBelow :
    (z x : Bytes × ℕ) (ys : Tally)
    → by_count x z ≡ false
    → NotBelow z ys
    → NotBelow z (place by_count x ys)
unfolding place
place-NotBelow z x [] h a = (h, tt)
place-NotBelow z x (y ∷ ys) h a = elim (Bool-cases (by_count y x)) [
  | inl before ↦ rw before (a.0, place-NotBelow z x ys h a.1)
  | inr after ↦ rw after (h, a)
]

NotBelow-trans :
    (x y : Bytes × ℕ) (ys : Tally) → by_count y x ≡ false → NotBelow y ys → NotBelow x ys
unfolding by_count
NotBelow-trans x y [] h a = tt
NotBelow-trans x y (z ∷ ys) h a = (ground arith, NotBelow-trans x y ys h a.1)

place-Sorted :
    (x : Bytes × ℕ) (ys : Tally) → Sorted by_count ys → Sorted by_count (place by_count x ys)
unfolding place
place-Sorted x [] s = (tt, tt)
place-Sorted x (y ∷ ys) s = elim (Bool-cases (by_count y x)) [
  | inl before ↦
      rw before (place-NotBelow y x ys (unfold by_count in ground arith) s.0, place-Sorted x ys s.1)
  | inr after ↦ rw after ((after, NotBelow-trans x y ys after s.0), s)
]

insertion_sort-Sorted : (m : Tally) → Sorted by_count (insertion_sort by_count m)
unfolding insertion_sort
insertion_sort-Sorted [] = tt
insertion_sort-Sorted (x ∷ xs) =
    place-Sorted x (insertion_sort by_count xs) (insertion_sort-Sorted xs)

insertion_sort-SortLaws : SortLaws insertion_sort by_count
insertion_sort-SortLaws = record {
  same_length = length-insertion_sort by_count;
  perm = insertion_sort-perm by_count;
  sorted = insertion_sort-Sorted;
}

abbrev three : Tally
three = (codes "a.com", 1) ∷ (codes "b.com", 5) ∷ (codes "c.com", 5) ∷ []

code : Unit {0}
unfolding place insertion_sort tally by_count text_lt by_count_and_name graphs set_query_log_mode
    record_cache_hit record_cname_blocked record_local_ptr record_local_name record_forward_failure
    record_upstream_error prune_bottom_half cap_tally record_query top_n reset_tallies
    reset_timeline snapshot add_total add_blocked add_cache_hit add_cname_blocked add_local_ptr
    add_local_name add_forward_failure add_upstream_error on_bucket claim reset
code = tt

pruned : prune_bottom_half insertion_sort three ≡ (codes "b.com", 5) ∷ []
unfolding code
pruned = refl

top_two : top_n insertion_sort three 2 ≡ (codes "b.com", 5) ∷ (codes "c.com", 5) ∷ []
unfolding code
top_two = refl

abbrev busy : Counter
unfolding code
busy =
    record_query insertion_sort (set_query_log_mode new_counter (codes "all")) (codes "10.0.0.2")
      (codes "ads.com.") true 90

recorded :
    (busy.counts.total ≡ 1)
    × (busy.counts.blocked ≡ 1)
    × (busy.top_domains ≡ (codes "ads.com.", 1) ∷ [])
    × ((busy.timeline 1).blocked ≡ 1)
unfolding code busy
recorded = (refl, refl, refl, refl)

others :
    ((record_cache_hit busy 90).counts.cache_hit ≡ 1)
    × ((record_cname_blocked busy).counts.cname_blocked ≡ 1)
    × ((record_local_ptr busy).counts.local_ptr ≡ 1)
    × ((record_local_name busy).counts.local_name ≡ 1)
    × ((record_forward_failure busy 90).counts.forward_failures ≡ 1)
    × ((record_upstream_error busy 90).counts.upstream_errors ≡ 1)
    × ((reset_tallies busy).top_domains ≡ [])
    × (((reset_timeline busy).timeline 1).blocked ≡ 0)
unfolding code busy
others = (refl, refl, refl, refl, refl, refl, refl, refl)

-- A query, a reset and another query.
abbrev some_calls : List Call
some_calls =
    queried (codes "c") (codes "d") true 90
    ∷ tallies_reset
    ∷ queried (codes "c") (codes "e") true 95
    ∷ []

calls-IsCapped_example : IsCapped insertion_sort (calls insertion_sort some_calls new_counter)
calls-IsCapped_example = calls-IsCapped insertion_sort some_calls

-- Events of the day before, in the same places of the ring as events of the day.
abbrev day_before : List ℕ
day_before = 120 ∷ 180 ∷ []

abbrev day : ℕ
day = 24 * 3600

abbrev times : List ℕ
times = (day + 120) ∷ (day + 125) ∷ (day + 190) ∷ []

-- Two buckets of two minutes, with the clock in minute 3 of the second day.
timeline-run_example :
    map start_total (
      timeline
        (4 * minute_ns)
        (2 * minute_ns)
        (day + 200)
        (run (day_before ++ times) empty_timeline))
    ≡ expected
        (bucket_count (4 * minute_ns) (2 * minute_ns))
        (bucket_minutes (2 * minute_ns))
        (first_start (4 * minute_ns) (2 * minute_ns) (day + 200))
        times
timeline-run_example =
    timeline-run (4 * minute_ns) (2 * minute_ns) (day + 200) day_before times (omega arith)
      (omega arith)

shows_last_day :
    map start_total (
      timeline
        (4 * minute_ns)
        (2 * minute_ns)
        (day + 200)
        (run (day_before ++ times) empty_timeline))
    ≡ (day, 0) ∷ (day + 120, 3) ∷ []
unfolding code timeline run
shows_last_day = refl

-- A blocked query arrives before the first load and is counted before the second.
abbrev arrived : System
arrived = record start { counts = record no_counts { total = 1 }; in_flight = blocked_by_name ∷ [] }

abbrev finished : System
finished = record start { counts = record no_counts { total = 1; blocked = 1 } }

arrives : Reach start arrived
unfolding code
arrives = next here (arrive blocked_by_name)

finishes : Reach arrived finished
unfolding code second_count chains
finishes = next here (count [] [] blocked_by_name refl)

abbrev summary : Summary ℕ
summary =
    snapshot 0 (λ a b. a * 100 / b) arrived.counts finished.counts finished.counts finished.counts
      finished.counts finished.counts finished.counts finished.counts

snapshot_ordered_example :
    (summary.cname_blocked_count ≤ summary.blocked_count)
    × (summary.blocked_count + summary.local_ptr_count + summary.local_name_count
          + summary.cache_hits + summary.forward_failures + summary.upstream_errors
        ≤ summary.total_queries)
snapshot_ordered_example =
    snapshot_ordered 0 (λ a b. a * 100 / b) arrived finished finished finished finished finished
      finished finished arrives finishes here here here here here here

all_blocked : summary.blocked_pct ≡ 100
unfolding code
all_blocked = refl
