-- ===== src/Querylog/File/Lines.antt =====
-- internal/querylog/logger.go: the lines of a FileLogger, from Log to the output.
use s_hole.Prelude.{
  ◌&&◌, inl, inr, ◌+◌, ◌%◌, ◌^◌, Bool, true, false, List, [], ◌∷◌, ◌++◌, append-nil, append_assoc,
  ◌≡◌, refl, sym, ap, ◌∙◌, Bytes, length, ltb, if◌then◌else◌, Bool-cases,
}
use s_hole.Dnsserver.Handler.{Record}
use s_hole.Querylog.File.{
  FileLogger, file_queue_size, line_of, offer, is_recorded, log, write_lines, take_line, write_line,
  drain, close,
}

-- The steps of a FileLogger between two purges.
pub data Step : Type 0 where
  log_call : Bytes → Record → Step
  write_call : Step

module _ (written : Bytes → Bytes) where
  abbrev pub step : Step → FileLogger → FileLogger
  step (log_call stamp rec) l = log stamp rec l
  step write_call l = write_line written l

  abbrev pub run : List Step → FileLogger → FileLogger
  run [] l = l
  run (s ∷ steps) l = run steps (step s l)

  -- The specification: the lines that a run accepts, in order. A line is accepted when the mode
  -- records it and the queue has room.
  abbrev accepts : FileLogger → Record → Bool
  accepts l rec = is_recorded l.log_queries rec.blocked && ltb (length l.queue) file_queue_size

  abbrev pub accepted_line : Step → FileLogger → List Bytes
  accepted_line (log_call stamp rec) l = if accepts l rec then line_of stamp rec ∷ [] else []
  accepted_line write_call l = []

  abbrev pub accepted : List Step → FileLogger → List Bytes
  accepted [] l = []
  accepted (s ∷ steps) l = accepted_line s l ++ accepted steps (step s l)

  write_lines-append :
      (xs ys : List Bytes)
      → write_lines written (xs ++ ys) ≡ write_lines written xs ++ write_lines written ys
  unfolding write_lines
  write_lines-append [] ys = refl
  write_lines-append (x ∷ xs) ys =
      ap (λ z. written x ++ z) (write_lines-append xs ys)
      ∙ sym (append_assoc (written x) (write_lines written xs) (write_lines written ys))

  -- What a logger has written, with what it has still to write.
  abbrev pub text : FileLogger → Bytes
  text l = l.output ++ write_lines written l.queue

  write_line-text : (l : FileLogger) → text (write_line written l) ≡ text l
  unfolding write_line take_line write_lines
  write_line-text l = go l.queue refl
    where
      go : (q : List Bytes) → l.queue ≡ q → text (take_line written q l) ≡ text l
      go [] e = refl
      go (line ∷ queue) e =
          append_assoc l.output (written line) (write_lines written queue)
          ∙ ap (λ z. l.output ++ write_lines written z) (sym e)

  -- The three ends of Log: a line that is queued, one that is dropped, and one that the mode skips.
  pub log-queued :
      (stamp : Bytes) (rec : Record) (l : FileLogger)
      → is_recorded l.log_queries rec.blocked ≡ true
      → ltb (length l.queue) file_queue_size ≡ true
      → log stamp rec l ≡ record l { queue = l.queue ++ line_of stamp rec ∷ [] }
  unfolding log offer
  log-queued stamp rec l h k = rw (h, k) refl

  pub log-dropped :
      (stamp : Bytes) (rec : Record) (l : FileLogger)
      → is_recorded l.log_queries rec.blocked ≡ true
      → ltb (length l.queue) file_queue_size ≡ false
      → log stamp rec l ≡ record l { dropped = (l.dropped + 1) % 2 ^ 64 }
  unfolding log offer
  log-dropped stamp rec l h k = rw (h, k) refl

  pub log-skipped :
      (stamp : Bytes) (rec : Record) (l : FileLogger)
      → is_recorded l.log_queries rec.blocked ≡ false
      → log stamp rec l ≡ l
  unfolding log
  log-skipped stamp rec l h = rw h refl

  step-text :
      (s : Step) (l : FileLogger)
      → text (step s l) ≡ text l ++ write_lines written (accepted_line s l)
  unfolding write_lines
  step-text write_call l = write_line-text l ∙ sym (append-nil (text l))
  step-text (log_call stamp rec) l = elim (Bool-cases (is_recorded l.log_queries rec.blocked)) [
    | inr skipped ↦
        rw skipped (ap text (log-skipped stamp rec l skipped) ∙ sym (append-nil (text l)))
    | inl recorded ↦ elim (Bool-cases (ltb (length l.queue) file_queue_size)) [
      | inr full ↦
          rw (recorded, full)
            (ap text (log-dropped stamp rec l recorded full) ∙ sym (append-nil (text l)))
      | inl room ↦
          rw (recorded, room)
            (ap text (log-queued stamp rec l recorded room)
              ∙ ap (λ z. l.output ++ z) (write_lines-append l.queue (line_of stamp rec ∷ []))
              ∙ sym (append_assoc l.output (write_lines written l.queue) _))
    ]
  ]

  run-text :
      (steps : List Step) (l : FileLogger)
      → text (run steps l) ≡ text l ++ write_lines written (accepted steps l)
  unfolding write_lines
  run-text [] l = sym (append-nil (text l))
  run-text (s ∷ steps) l =
      run-text steps (step s l)
      ∙ ap (λ z. z ++ write_lines written (accepted steps (step s l))) (step-text s l)
      ∙ append_assoc (text l) (write_lines written (accepted_line s l)) _
      ∙ ap (λ z. text l ++ z)
          (sym (write_lines-append (accepted_line s l) (accepted steps (step s l))))

  drain-text :
      (queue : List Bytes) (l : FileLogger)
      → l.queue ≡ queue
      → ((drain written queue l).output ≡ text l) × ((drain written queue l).queue ≡ [])
  unfolding drain take_line write_lines
  drain-text [] l h =
      (sym (append-nil l.output) ∙ ap (λ q. l.output ++ write_lines written q) (sym h), h)
  drain-text (line ∷ queue) l h =
      let (out, empty) = drain-text queue (take_line written (line ∷ queue) l) refl in
      (
        out
            ∙ append_assoc l.output (written line) (write_lines written queue)
            ∙ ap (λ q. l.output ++ write_lines written q) (sym h),
        empty,
      )

  -- After any run of Log and of the writer, and then Close, the output has got exactly the accepted
  -- lines behind what it and the queue held before, in the order of the calls and each one once, and
  -- the queue is empty.
  pub close-run :
      (steps : List Step) (l : FileLogger)
      → ((close written (run steps l)).output
          ≡ (l.output ++ write_lines written l.queue) ++ write_lines written (accepted steps l))
        × ((close written (run steps l)).queue ≡ [])
  unfolding close
  close-run steps l =
      let (out, empty) = drain-text (run steps l).queue (run steps l) refl in
      (out ∙ run-text steps l, empty)
