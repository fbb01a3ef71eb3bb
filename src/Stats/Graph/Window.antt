-- ===== src/Stats/Graph/Window.antt =====
-- The graph of internal/stats/timeline.go over a run of events.
use s_hole.Prelude.{ℕ, ◌+◌, ◌/◌, ◌%◌, ◌<◌, List, [], ◌∷◌, ◌≡◌, arith, All, ◌==◌, if◌then◌else◌}
use s_hole.Stats.Graph.{Timeline, timeline_minutes, claim, on_bucket}

-- The total that Timeline reads for minute `m`: a bucket that holds another minute reads as zero.
unfoldable pub read : Timeline → ℕ → ℕ
read t m = let b = t (m % timeline_minutes) in if b.minute == m then b.total else 0

-- The events at the given Unix times, in order.
unfoldable pub run : List ℕ → Timeline → Timeline
run [] t = t
run (now ∷ times) t = run times (on_bucket (λ b. record b { total = b.total + 1 }) now t)

-- How many of the events fall in minute `m`.
abbrev pub events_in : ℕ → List ℕ → ℕ
events_in m [] = 0
events_in m (now ∷ times) = (if now / 60 == m then 1 else 0) + events_in m times

-- The event and the minute `m` are less than a day apart.
abbrev pub IsNear : ℕ → ℕ → Type 0
IsNear m now = (now / 60 < m + timeline_minutes) × (m < now / 60 + timeline_minutes)

read-on_bucket :
    (t : Timeline) (now m : ℕ)
    → IsNear m now
    → read (on_bucket (λ b. record b { total = b.total + 1 }) now t) m
      ≡ (if now / 60 == m then 1 else 0) + read t m
unfolding read on_bucket claim
read-on_bucket t now m near = ground arith

-- Whatever the ring held before, after a run of events that all lie less than a day from minute `m`
-- it reads for that minute what it read before, and one more for each event in that minute.
pub read-run :
    (times : List ℕ) (t : Timeline) (m : ℕ)
    → All (IsNear m) times
    → read (run times t) m ≡ events_in m times + read t m
unfolding run
read-run [] t m h = omega arith
read-run (now ∷ times) t m h = omega (
  arith,
  read-run times (on_bucket (λ b. record b { total = b.total + 1 }) now t) m h.1,
  read-on_bucket t now m h.0,
)
