-- ===== src/Querylog/File/Counted.antt =====
-- internal/querylog/logger.go: the bound of the queue of a FileLogger, and its dropped lines.
use s_hole.Prelude.{
  inl, inr, ℕ, ◌+◌, ◌%◌, ◌^◌, ◌≤◌, ◌<◌, List, [], ◌∷◌, ◌≡◌, refl, ap, arith, Bytes, length,
  length-append, ltb, if◌then◌else◌, Bool-cases,
}
use s_hole.Dnsserver.Handler.{Record}
use s_hole.Querylog.File.{
  FileLogger, file_queue_size, line_of, is_recorded, log, take_line, write_line,
}
use s_hole.Querylog.File.Lines.{
  Step, log_call, write_call, step, run, accepted_line, accepted, log-queued, log-dropped,
  log-skipped,
}

mod_same : (d : ℕ) → d < 2 ^ 64 → d ≡ (d + 0) % 2 ^ 64
mod_same d h = omega (arith, h)

module _ (written : Bytes → Bytes) where
  -- The calls of Log that the mode records.
  abbrev pub recorded_calls : Bytes → List Step → ℕ
  recorded_calls mode [] = 0
  recorded_calls mode (write_call ∷ steps) = recorded_calls mode steps
  recorded_calls mode (log_call stamp rec ∷ steps) =
      (if is_recorded mode rec.blocked then 1 else 0) + recorded_calls mode steps

  -- What one step does to the mode, the queue and the count of dropped lines.
  record IsCounted (s : Step) (l after : FileLogger) : Type 0 where
    mode : after.log_queries ≡ l.log_queries
    bound : length l.queue ≤ file_queue_size → length after.queue ≤ file_queue_size
    lost : ℕ
    each : length (accepted_line written s l) + lost ≡ recorded_calls l.log_queries (s ∷ [])
    count : l.dropped < 2 ^ 64 → after.dropped ≡ (l.dropped + lost) % 2 ^ 64

  write_line-IsCounted : (l : FileLogger) → IsCounted write_call l (write_line written l)
  unfolding write_line
  write_line-IsCounted l = go l.queue refl
    where
      go : (q : List Bytes) → l.queue ≡ q → IsCounted write_call l (take_line written q l)
      go [] e = record {
        mode = refl;
        bound = λ h. h;
        lost = 0;
        each = refl;
        count = λ h. mod_same l.dropped h;
      }
      go (line ∷ queue) e = record {
        mode = refl;
        bound = λ h. omega (arith, h, ap length e);
        lost = 0;
        each = refl;
        count = λ h. mod_same l.dropped h;
      }

  log-IsCounted :
      (stamp : Bytes) (rec : Record) (l : FileLogger)
      → IsCounted (log_call stamp rec) l (log stamp rec l)
  log-IsCounted stamp rec l = elim (Bool-cases (is_recorded l.log_queries rec.blocked)) [
    | inr skipped ↦ rw (log-skipped written stamp rec l skipped) (record {
      mode = refl;
      bound = λ h. h;
      lost = 0;
      each = rw skipped refl;
      count = λ h. mod_same l.dropped h;
    })
    | inl recorded ↦ elim (Bool-cases (ltb (length l.queue) file_queue_size)) [
      | inr full ↦ rw (log-dropped written stamp rec l recorded full) (record {
        mode = refl;
        bound = λ h. h;
        lost = 1;
        each = rw (recorded, full) refl;
        count = λ h. refl;
      })
      | inl room ↦ rw (log-queued written stamp rec l recorded room) (record {
        mode = refl;
        bound = λ h. ground (arith, room, length-append l.queue (line_of stamp rec ∷ []));
        lost = 0;
        each = rw (recorded, room) refl;
        count = λ h. mod_same l.dropped h;
      })
    ]
  ]

  step-IsCounted : (s : Step) (l : FileLogger) → IsCounted s l (step written s l)
  step-IsCounted write_call l = write_line-IsCounted l
  step-IsCounted (log_call stamp rec) l = log-IsCounted stamp rec l

  recorded_calls-cons :
      (mode : Bytes) (s : Step) (steps : List Step)
      → recorded_calls mode (s ∷ steps) ≡ recorded_calls mode (s ∷ []) + recorded_calls mode steps
  recorded_calls-cons mode write_call steps = omega arith
  recorded_calls-cons mode (log_call stamp rec) steps = omega arith

  -- From a queue within its bound, after any run of Log and of the writer the queue holds at most
  -- 1024 lines, and each call that the mode records was either accepted or counted once as dropped,
  -- in a count that wraps at 64 bits.
  pub run-IsCounted :
      (steps : List Step) (l : FileLogger)
      → length l.queue ≤ file_queue_size
      → l.dropped < 2 ^ 64
      → (length (run written steps l).queue ≤ file_queue_size)
        × ((lost : ℕ) × (length (accepted written steps l) + lost
              ≡ recorded_calls l.log_queries steps)
            × ((run written steps l).dropped ≡ (l.dropped + lost) % 2 ^ 64))
  run-IsCounted [] l bound small = (bound, (0, refl, mod_same l.dropped small))
  run-IsCounted (s ∷ steps) l bound small =
      let c = step-IsCounted s l in
      let (within, (lost, each, count)) =
        run-IsCounted steps (step written s l) (c.bound bound) (omega (arith, c.count small)) in
      (
        within,
        (
          c.lost + lost,
          omega (
            arith,
            length-append (accepted_line written s l) (accepted written steps (step written s l)),
            recorded_calls-cons l.log_queries s steps,
            c.each,
            each,
            ap (λ m. recorded_calls m steps) c.mode,
          ),
          omega (arith, count, c.count small),
        ),
      )
