-- ===== src/Stats/Graph.antt =====
-- internal/stats/timeline.go: the per-minute graph, a ring of 1,440 buckets. The ring is a function
-- of the index. Times are Unix seconds. The compare-and-swap of a claim is one step; an event that
-- races a claim, which the code tolerates, is not modelled.
pub mod Window
pub mod Series
use s_hole.Prelude.{
  ℕ, zero, suc, ◌+◌, ◌-◌, ◌*◌, ◌/◌, ◌%◌, ◌^◌, ◌&&◌, List, [], ◌∷◌, ◌==◌, leb, ltb, if◌then◌else◌,
}

pub record MinuteBucket : Type 0 where
  pub minute : ℕ
  pub total : ℕ
  pub blocked : ℕ
  pub cached : ℕ
  pub unresolved : ℕ
  pub upstream_error : ℕ

abbrev pub timeline_minutes : ℕ
timeline_minutes = 24 * 60

abbrev pub Timeline : Type 0
Timeline = ℕ → MinuteBucket

abbrev pub empty_bucket : ℕ → MinuteBucket
empty_bucket m = record {
  minute = m;
  total = 0;
  blocked = 0;
  cached = 0;
  unresolved = 0;
  upstream_error = 0;
}

abbrev pub empty_timeline : Timeline
empty_timeline = λ i. empty_bucket 0

-- The bucket of minute `m`, zeroed if it holds another minute.
unfoldable pub claim : ℕ → MinuteBucket → MinuteBucket
claim m b = if b.minute == m then b else empty_bucket m

-- timeline.at, and the update that the caller makes through the pointer.
unfoldable pub on_bucket : (MinuteBucket → MinuteBucket) → ℕ → Timeline → Timeline
on_bucket update now t =
    let m = now / 60 in λ i. if i == m % timeline_minutes then update (claim m (t i)) else t i

-- timeline.reset
unfoldable pub reset : Timeline → Timeline
reset t = λ i. empty_bucket 0

pub record TimelineBucket : Type 0 where
  pub start : ℕ
  pub total : ℕ
  pub blocked : ℕ
  pub cached : ℕ
  pub unresolved : ℕ
  pub upstream_error : ℕ

unfoldable pub add_bucket : MinuteBucket → TimelineBucket → TimelineBucket
add_bucket b tb = record {
  start = tb.start;
  total = tb.total + b.total;
  blocked = tb.blocked + b.blocked;
  cached = tb.cached + b.cached;
  unresolved = tb.unresolved + b.unresolved;
  upstream_error = tb.upstream_error + b.upstream_error;
}

-- The inner loop of Timeline, over the `width` minutes from `m` on.
unfoldable pub add_minutes : ℕ → ℕ → ℕ → Timeline → TimelineBucket → TimelineBucket
unfolding add_bucket
add_minutes zero m now_min t tb = tb
add_minutes (suc width) m now_min t tb =
    let b = t (m % timeline_minutes) in
    add_minutes width (m + 1) now_min t (
      if leb m now_min && ltb (now_min - m) timeline_minutes && b.minute == m
      then add_bucket b tb
      else tb)

-- The outer loop, over `n` buckets of `bm` minutes from `start` on.
unfoldable pub series : ℕ → ℕ → ℕ → ℕ → Timeline → List TimelineBucket
unfolding add_minutes
series zero bm start now_min t = []
series (suc n) bm start now_min t =
    add_minutes bm start now_min t (record {
      start = start * 60;
      total = 0;
      blocked = 0;
      cached = 0;
      unresolved = 0;
      upstream_error = 0;
    })
    ∷ series n bm (start + bm) now_min t

abbrev pub minute_ns : ℕ
minute_ns = 60 * 10 ^ 9

unfoldable pub at_least_one : ℕ → ℕ
at_least_one n = if ltb n 1 then 1 else n

unfoldable pub cap_window : ℕ → ℕ
cap_window window =
    if ltb (timeline_minutes * minute_ns) window then timeline_minutes * minute_ns else window

-- The number of buckets that Timeline returns, and their width in minutes.
unfoldable pub bucket_minutes : ℕ → ℕ
unfolding at_least_one
bucket_minutes bucket = at_least_one (bucket / minute_ns)

unfoldable pub bucket_count : ℕ → ℕ → ℕ
unfolding cap_window at_least_one bucket_minutes
bucket_count window bucket = at_least_one (cap_window window / minute_ns / bucket_minutes bucket)

-- The first minute of the series.
unfoldable pub first_start : ℕ → ℕ → ℕ → ℕ
unfolding bucket_count bucket_minutes
first_start window bucket now =
    let bm = bucket_minutes bucket in now / 60 / bm * bm - (bucket_count window bucket - 1) * bm

-- Timeline: the durations in nanoseconds, the clock in Unix seconds and a day or more behind 0.
unfoldable pub timeline : ℕ → ℕ → ℕ → Timeline → List TimelineBucket
unfolding series bucket_count bucket_minutes first_start
timeline window bucket now t =
    series (bucket_count window bucket) (bucket_minutes bucket) (first_start window bucket now)
      (now / 60) t
