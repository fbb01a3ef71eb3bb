-- ===== src/Stats/Graph/Series.antt =====
-- The series of internal/stats/timeline.go against the events of a run.
use s_hole.Prelude.{
  map, Bool, ◌++◌, false, inl, inr, ℕ, zero, suc, ◌+◌, ◌-◌, ◌*◌, ◌/◌, ◌%◌, ◌<◌, ◌≤◌, true, false,
  ◌&&◌, List, [], ◌∷◌, ◌≡◌, refl, sym, ap, ◌∙◌, arith, All, leb, ltb, ◌==◌, if◌then◌else◌,
  Bool-cases,
}
use s_hole.Stats.Graph.{
  bucket_minutes, bucket_count, first_start, empty_timeline, Timeline, timeline_minutes,
  TimelineBucket, on_bucket, claim, add_bucket, add_minutes, series, timeline,
}
use s_hole.Stats.Graph.Window.{read, run, events_in, IsNear, read-run}

-- What the series shows of the minutes from `m` on: those of the last day, and none of the future.
abbrev pub shown : ℕ → ℕ → ℕ → Timeline → ℕ
shown zero m now_min t = 0
shown (suc width) m now_min t =
    (if leb m now_min && ltb (now_min - m) timeline_minutes then read t m else 0)
    + shown width (m + 1) now_min t

-- The start, in Unix seconds, and the total of a bucket of the series.
abbrev pub start_total : TimelineBucket → ℕ × ℕ
start_total b = (b.start, b.total)

one_minute :
    (t : Timeline) (m now_min : ℕ) (tb : TimelineBucket)
    → (if leb m now_min
          && ltb (now_min - m) timeline_minutes
          && (t (m % timeline_minutes)).minute == m
        then add_bucket (t (m % timeline_minutes)) tb
        else tb).total
      ≡ tb.total + (if leb m now_min && ltb (now_min - m) timeline_minutes then read t m else 0)
unfolding read add_bucket
one_minute t m now_min tb =
    elim (Bool-cases (leb m now_min && ltb (now_min - m) timeline_minutes)) [
      | inl inside ↦ elim (Bool-cases ((t (m % timeline_minutes)).minute == m)) [
        | inl same ↦ ground (arith, inside, same)
        | inr other ↦ ground (arith, inside, other)
      ]
      | inr outside ↦ ground (arith, outside)
    ]

add_minutes-total :
    (width m now_min : ℕ) (t : Timeline) (tb : TimelineBucket)
    → (add_minutes width m now_min t tb).total ≡ tb.total + shown width m now_min t
unfolding add_minutes
add_minutes-total zero m now_min t tb = omega arith
add_minutes-total (suc width) m now_min t tb =
    add_minutes-total width (m + 1) now_min t _ ∙ omega (arith, one_minute t m now_min tb)

add_minutes-start :
    (width m now_min : ℕ) (t : Timeline) (tb : TimelineBucket)
    → (add_minutes width m now_min t tb).start ≡ tb.start
unfolding add_minutes
add_minutes-start zero m now_min t tb = refl
add_minutes-start (suc width) m now_min t tb =
    add_minutes-start width (m + 1) now_min t _
    ∙ one_start (
        leb m now_min
        && ltb (now_min - m) timeline_minutes
        && (t (m % timeline_minutes)).minute == m)
  where
    one_start :
        (c : Bool) → (if c then add_bucket (t (m % timeline_minutes)) tb else tb).start ≡ tb.start
    one_start true = unfold add_bucket in refl
    one_start false = refl

-- How many of the events fall in the `width` minutes from `m` on.
abbrev pub events_from : ℕ → ℕ → List ℕ → ℕ
events_from m width [] = 0
events_from m width (now ∷ times) =
    (if leb m (now / 60) && ltb (now / 60) (m + width) then 1 else 0) + events_from m width times

-- An event of the last day, up to the minute now_min.
abbrev pub IsRecent : ℕ → ℕ → Type 0
IsRecent now_min event = (event / 60 ≤ now_min) × (now_min < event / 60 + timeline_minutes)

events_from-zero : (m : ℕ) (times : List ℕ) → events_from m 0 times ≡ 0
events_from-zero m [] = refl
events_from-zero m (now ∷ times) = ground (arith, events_from-zero m times)

events_from-suc :
    (m width : ℕ) (times : List ℕ)
    → events_from m (suc width) times ≡ events_in m times + events_from (m + 1) width times
events_from-suc m width [] = refl
events_from-suc m width (now ∷ times) =
    one (now / 60) ∙ omega (arith, events_from-suc m width times)
  where
    one :
        (e : ℕ)
        → (if leb m e && ltb e (m + suc width) then 1 else 0) + events_from m (suc width) times
          ≡ (if e == m then 1 else 0)
            + (if leb (m + 1) e && ltb e (m + 1 + width) then 1 else 0)
            + events_from m (suc width) times
    one e = ground arith

IsRecent-IsNear :
    (m now_min : ℕ) (times : List ℕ)
    → (leb m now_min && ltb (now_min - m) timeline_minutes) ≡ true
    → All (IsRecent now_min) times
    → All (IsNear m) times
IsRecent-IsNear m now_min [] v h = tt
IsRecent-IsNear m now_min (e ∷ times) v h =
    (near (e / 60) h.0, IsRecent-IsNear m now_min times v h.1)
  where
    near :
        (k : ℕ)
        → (k ≤ now_min) × (now_min < k + timeline_minutes)
        → (k < m + timeline_minutes) × (m < k + timeline_minutes)
    near k r = (ground (arith, v, r), ground (arith, v, r))

events_in-hidden :
    (m now_min : ℕ) (times : List ℕ)
    → (leb m now_min && ltb (now_min - m) timeline_minutes) ≡ false
    → All (IsRecent now_min) times
    → events_in m times ≡ 0
events_in-hidden m now_min [] v h = refl
events_in-hidden m now_min (e ∷ times) v h =
    rw (hidden (e / 60) h.0) (omega (arith, events_in-hidden m now_min times v h.1))
  where
    hidden : (k : ℕ) → (k ≤ now_min) × (now_min < k + timeline_minutes) → (k == m) ≡ false
    hidden k r = ground (arith, v, r)

-- An event of an earlier day, or a time before that: a day or more behind the minute now_min.
abbrev pub IsOld : ℕ → ℕ → Type 0
IsOld now_min event = event / 60 + timeline_minutes ≤ now_min

read-other :
    (t : Timeline) (now m : ℕ)
    → (now / 60 == m) ≡ false
    → read t m ≡ 0
    → read (on_bucket (λ b. record b { total = b.total + 1 }) now t) m ≡ 0
unfolding read on_bucket claim
read-other t now m other zero_read = ground (arith, other, zero_read)

read-old :
    (older : List ℕ) (t : Timeline) (m now_min : ℕ)
    → (leb m now_min && ltb (now_min - m) timeline_minutes) ≡ true
    → All (IsOld now_min) older
    → read t m ≡ 0
    → read (run older t) m ≡ 0
unfolding run
read-old [] t m now_min v h z = z
read-old (e ∷ older) t m now_min v h z =
    read-old older (on_bucket (λ b. record b { total = b.total + 1 }) e t) m now_min v h.1
      (read-other t e m (ground (arith, v, h.0)) z)

read-empty : (m : ℕ) → read empty_timeline m ≡ 0
unfolding read
read-empty m = ground arith

run-append :
    (older recent : List ℕ) (t : Timeline) → run (older ++ recent) t ≡ run recent (run older t)
unfolding run
run-append [] recent t = refl
run-append (e ∷ older) recent t =
    run-append older recent (on_bucket (λ b. record b { total = b.total + 1 }) e t)

shown-run :
    (width m now_min : ℕ) (times : List ℕ) (t : Timeline)
    → ((k : ℕ) → (leb k now_min && ltb (now_min - k) timeline_minutes) ≡ true → read t k ≡ 0)
    → All (IsRecent now_min) times
    → shown width m now_min (run times t) ≡ events_from m width times
shown-run zero m now_min times t z h = sym (events_from-zero m times)
shown-run (suc width) m now_min times t z h =
    elim (Bool-cases (leb m now_min && ltb (now_min - m) timeline_minutes)) [
      | inl visible ↦ rw visible (
          omega (
            arith,
            read-run times t m (IsRecent-IsNear m now_min times visible h),
            z m visible,
            shown-run width (m + 1) now_min times t z h,
            events_from-suc m width times,
          ))
      | inr hidden ↦ rw hidden (
          omega (
            arith,
            events_in-hidden m now_min times hidden h,
            shown-run width (m + 1) now_min times t z h,
            events_from-suc m width times,
          ))
    ]

-- What `n` buckets of `bm` minutes from minute `start` on are to show.
abbrev pub expected : ℕ → ℕ → ℕ → List ℕ → List (ℕ × ℕ)
expected zero bm start times = []
expected (suc n) bm start times =
    (start * 60, events_from start bm times) ∷ expected n bm (start + bm) times

zero_add : (k : ℕ) → 0 + k ≡ k
zero_add k = omega arith

series-expected :
    (n bm start now_min : ℕ) (times : List ℕ) (t : Timeline)
    → ((k : ℕ) → (leb k now_min && ltb (now_min - k) timeline_minutes) ≡ true → read t k ≡ 0)
    → All (IsRecent now_min) times
    → map start_total (series n bm start now_min (run times t)) ≡ expected n bm start times
unfolding series
series-expected zero bm start now_min times t z h = refl
series-expected (suc n) bm start now_min times t z h =
    rw
      (
        add_minutes-start bm start now_min (run times t) _,
        add_minutes-total bm start now_min (run times t) _,
        shown-run bm start now_min times t z h,
      )
      (ap (λ l. (start * 60, 0 + events_from start bm times) ∷ l)
          (series-expected n bm (start + bm) now_min times t z h)
        ∙ ap (λ k. (start * 60, k) ∷ expected n bm (start + bm) times) (zero_add _))

-- After events of earlier days, and then events of the last day, each in any order, every bucket of
-- the series has its start and, as its total, the number of the events of the last day that fall
-- in its minutes: none of an earlier day is shown, whatever places of the ring it took.
pub timeline-run :
    (window bucket now : ℕ) (older times : List ℕ)
    → All (IsOld (now / 60)) older
    → All (IsRecent (now / 60)) times
    → map start_total (timeline window bucket now (run (older ++ times) empty_timeline))
      ≡ expected
          (bucket_count window bucket)
          (bucket_minutes bucket)
          (first_start window bucket now)
          times
unfolding timeline
timeline-run window bucket now older times o h =
    ap (λ t. map start_total (timeline window bucket now t)) (run-append older times empty_timeline)
    ∙ series-expected (bucket_count window bucket) (bucket_minutes bucket)
        (first_start window bucket now) (now / 60) times (run older empty_timeline)
        (λ k v. read-old older empty_timeline k (now / 60) v o (read-empty k)) h
