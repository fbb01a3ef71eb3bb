-- ===== src/Querylog/File/Purged.antt =====
-- internal/querylog/logger.go: what a purge leaves of the lines of a FileLogger.
use s_hole.Prelude.{
  ℕ, ◌≤◌, true, false, List, [], ◌++◌, ◌≡◌, ◌≢◌, ◌⊎◌, inl, inr, refl, sym, ap, ◌∙◌, Option, none,
  some, arith, Bytes, length, drop, Bool-cases,
}
use s_hole.Querylog.Zero.{ZeroError, zeros}
use s_hole.Querylog.Zero.Overwritten.{zero_file-IsZeroed}
use s_hole.Querylog.File.{
  FileLogger, PurgeError, stdout_not_purgeable, truncate_failed, not_overwritten, PurgeAnswers,
  zero_output, empty_output, purge_error, truncate,
}
use s_hole.Querylog.File.Lines.{Step, run}

-- The error of a purge that did not empty the file.
abbrev pub IsKept : Option PurgeError → Type 0
IsKept none = ⊥
IsKept (some stdout_not_purgeable) = ⊥
IsKept (some (truncate_failed e)) = Unit
IsKept (some (not_overwritten e)) = ⊥

-- What a purge makes of the content: empty, or, with the error of the truncation, zeros up to some
-- place and as it was behind it.
abbrev pub IsErased : Bytes → Bytes → Option PurgeError → Type 0
IsErased before after err =
    (after ≡ [])
    ⊎ (IsKept err × ((j : ℕ) × (j ≤ length before) × (after ≡ zeros j ++ drop j before)))

zero_output-zeroed :
    (e : Option Bytes) (a : PurgeAnswers) (content : Bytes)
    → (j : ℕ) × (j ≤ length content) × ((zero_output e a content).0 ≡ zeros j ++ drop j content)
unfolding zero_output zeros
zero_output-zeroed none a content =
    let (j, le, same, all) = zero_file-IsZeroed a.fails content a.checks (some a.inode) in
    (j, le, same)
zero_output-zeroed (some e) a content = (0, omega arith, refl)

empty_output-IsErased :
    (t s e : Option Bytes) (before zeroed : Bytes) (zerr : Option ZeroError)
    → ((j : ℕ) × (j ≤ length before) × (zeroed ≡ zeros j ++ drop j before))
    → IsErased before (empty_output t s e zeroed).0 (purge_error (empty_output t s e zeroed).1 zerr)
unfolding empty_output purge_error
empty_output-IsErased none s e before zeroed zerr h = inl refl
empty_output-IsErased (some t) none none before zeroed zerr h = inl refl
empty_output-IsErased (some t) none (some e) before zeroed zerr h = inr (tt, h)
empty_output-IsErased (some t) (some s) e before zeroed zerr h = inr (tt, h)

truncate-stdout :
    (a : PurgeAnswers) (l : FileLogger)
    → l.to_stdout ≡ true
    → truncate a l ≡ (record l { queue = [] }, some stdout_not_purgeable)
unfolding truncate
truncate-stdout a l h = rw h refl

emptied : PurgeAnswers → FileLogger → Bytes × Option PurgeError
emptied a l =
    empty_output a.truncate_error a.stat_error a.second_error
      (zero_output a.stat_error a l.output).0

truncate-file :
    (a : PurgeAnswers) (l : FileLogger)
    → l.to_stdout ≡ false
    → truncate a l ≡ (
      record l { queue = []; output = (emptied a l).0 },
      purge_error (emptied a l).1 (zero_output a.stat_error a l.output).1,
    )
unfolding truncate emptied
truncate-file a l h = rw h refl

-- A purge of a file discards the queued lines and empties the file; when the error says that the
-- file could not be truncated, it holds zeros up to some place and is as it was behind it. A purge
-- of standard output discards the queued lines and always returns its own error.
pub truncate-IsErased :
    (a : PurgeAnswers) (l : FileLogger)
    → ((truncate a l).0.queue ≡ [])
      × (l.to_stdout ≡ false → IsErased l.output (truncate a l).0.output (truncate a l).1)
      × (l.to_stdout ≡ true → (truncate a l).1 ≡ some stdout_not_purgeable)
unfolding emptied
truncate-IsErased a l = elim (Bool-cases l.to_stdout) [
  | inl out ↦ rw (truncate-stdout a l out) (refl, λ f. absurd (ground (arith, out, f)), λ t. refl)
  | inr file ↦ rw (truncate-file a l file) (
    refl,
    λ f.
        empty_output-IsErased a.truncate_error a.stat_error a.second_error l.output
          (zero_output a.stat_error a l.output).0 (zero_output a.stat_error a l.output).1
          (zero_output-zeroed a.stat_error a l.output),
    λ t. absurd (ground (arith, file, t)),
  )
]

IsErased-none :
    (before after : Bytes) (err : Option PurgeError)
    → err ≡ none
    → IsErased before after err
    → after ≡ []
IsErased-none before after none h (inl e) = e
IsErased-none before after none h (inr e) = absurd e.0
IsErased-none before after (some x) h e = cc

truncate-none :
    (a : PurgeAnswers) (l : FileLogger)
    → (truncate a l).1 ≡ none
    → (truncate a l).0 ≡ record l { queue = []; output = [] }
truncate-none a l h = elim (Bool-cases l.to_stdout) [
  | inl out ↦ absurd (wrong ((truncate-IsErased a l).2 out) h)
  | inr file ↦
      ap (λ r. r.0) (truncate-file a l file)
      ∙ ap (λ z. record l { queue = []; output = z })
          (sym (ap (λ r. r.0.output) (truncate-file a l file))
            ∙ IsErased-none l.output (truncate a l).0.output (truncate a l).1 h
                ((truncate-IsErased a l).1 file))
]
  where
    wrong : {e : Option PurgeError} → e ≡ some stdout_not_purgeable → e ≢ none
    wrong p q = cc

module _ (written : Bytes → Bytes) where
  -- After a purge without an error, every later state of the logger is the same as for a logger of
  -- the same settings and the same count of dropped lines that was purged after other queries:
  -- nothing of the earlier queries is left in the file or in the queue.
  pub truncate-forgets :
      (a b : PurgeAnswers) (l m : FileLogger) (steps : List Step)
      → l.log_queries ≡ m.log_queries
      → l.to_stdout ≡ m.to_stdout
      → l.dropped ≡ m.dropped
      → (truncate a l).1 ≡ none
      → (truncate b m).1 ≡ none
      → run written steps (truncate a l).0 ≡ run written steps (truncate b m).0
  truncate-forgets a b l m steps mode out lost h k =
      ap (run written steps)
        (truncate-none a l h ∙ rw (mode, out, lost) refl ∙ sym (truncate-none b m k))
