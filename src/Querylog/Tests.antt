-- ===== src/Querylog/Tests.antt =====
-- Runs of the query log, and the theorems about it at concrete inputs.
use s_hole.Prelude.{
  ℕ, ◌+◌, ◌%◌, ◌^◌, ◌≤◌, true, false, List, [], ◌∷◌, ◌++◌, ◌≡◌, ◌≢◌, ◌⊎◌, refl, none, some, arith,
  Bytes, codes, length, text_eq, text_eq_iff,
}
use s_hole.Dnsserver.Handler.{Record, blocked_by_name, blocked_by_cname}
use s_hole.Dnsserver.Handler.Ends.{records}
use s_hole.Querylog.Mask.{Net, to4, mask_client_ip}
use s_hole.Querylog.Mask.Masked.{SameNetwork, mask_client_ip-agree}
use s_hole.Querylog.Zero.{Inode, Checks, Fails, zero_file}
use s_hole.Querylog.Zero.Overwritten.{IsZeroed, zero_file-IsZeroed}
use s_hole.Querylog.File.{
  FileLogger, file_queue_size, stdout_not_purgeable, is_recorded, log, PurgeAnswers, truncate,
  write_lines, write_line, close,
}
use s_hole.Querylog.File.Lines.{Step, log_call, write_call, run, accepted, close-run}
use s_hole.Querylog.File.Counted.{recorded_calls, run-IsCounted}
use s_hole.Querylog.File.Purged.{IsErased, truncate-IsErased, truncate-forgets}
use s_hole.Querylog.Modes.{records-is_recorded}

code : Unit {0}
unfolding log write_line truncate close mask_client_ip zero_file
code = tt

abbrev whole : Bytes → Bytes
whole line = line

abbrev asked : Record
asked = record {
  client_ip = codes "10.0.0.0";
  domain = codes "a.test";
  blocked = false;
  cache_hit = false;
  rcode = 2;
  synthesized = true;
  block_source = blocked_by_name;
}

abbrev stopped : Record
stopped = record asked { blocked = true; block_source = blocked_by_cname }

abbrev new_log : FileLogger
new_log = record {
  log_queries = codes "all";
  to_stdout = false;
  queue = [];
  dropped = 0;
  output = codes "old line";
}

abbrev steps : List Step
steps = log_call (codes "T1") asked ∷ write_call ∷ log_call (codes "T2") stopped ∷ []

writes_lines :
    (close whole (run whole steps (record new_log { output = [] }))).output
    ≡ codes "T1 ALLOW 10.0.0.0 a.test FAILED"
      ++ 10 ∷ codes "T2 BLOCK 10.0.0.0 a.test CNAME"
      ++ 10 ∷ []
unfolding code
writes_lines = refl

close-run_example :
    ((close whole (run whole steps new_log)).output
      ≡ (new_log.output ++ write_lines whole new_log.queue)
        ++ write_lines whole (accepted whole steps new_log))
    × ((close whole (run whole steps new_log)).queue ≡ [])
close-run_example = close-run whole steps new_log

run-IsCounted_example :
    (length (run whole steps new_log).queue ≤ file_queue_size)
    × ((lost : ℕ) × (length (accepted whole steps new_log) + lost
          ≡ recorded_calls whole new_log.log_queries steps)
        × ((run whole steps new_log).dropped ≡ (new_log.dropped + lost) % 2 ^ 64))
run-IsCounted_example = run-IsCounted whole steps new_log (omega arith) (omega arith)

abbrev inode : Inode
inode = record { identity = 7; is_regular = true; links = 1 }

abbrev passing : Checks
passing = record {
  lstat = inode;
  lstat_error = none;
  open_error = none;
  opened = inode;
  stat_error = none;
  links_error = none;
  close_error = none;
}

-- The write of the first 32 bytes fails behind two of them.
abbrev breaks : Fails
breaks k = some (2, codes "input/output error")

abbrev works : Fails
works k = none

partly_zeroed : (zero_file passing (some inode) breaks (codes "abcd")).0 ≡ 0 ∷ 0 ∷ codes "cd"
unfolding code
partly_zeroed = refl

zero_file-IsZeroed_example :
    IsZeroed (codes "abcd") (zero_file passing (some inode) works (codes "abcd"))
zero_file-IsZeroed_example = zero_file-IsZeroed works (codes "abcd") passing (some inode)

abbrev answers : PurgeAnswers
answers = record {
  stat_error = none;
  inode = inode;
  checks = passing;
  fails = works;
  truncate_error = none;
  second_error = none;
}

truncate-IsErased_example :
    ((truncate answers new_log).0.queue ≡ [])
    × (new_log.to_stdout ≡ false
        → IsErased new_log.output (truncate answers new_log).0.output (truncate answers new_log).1)
    × (new_log.to_stdout ≡ true → (truncate answers new_log).1 ≡ some stdout_not_purgeable)
truncate-IsErased_example = truncate-IsErased answers new_log

abbrev other_log : FileLogger
other_log = record new_log { output = codes "other"; queue = codes "queued" ∷ [] }

purged : (truncate answers new_log).1 ≡ none
unfolding code
purged = refl

other_purged : (truncate answers other_log).1 ≡ none
unfolding code
other_purged = refl

truncate-forgets_example :
    run whole steps (truncate answers new_log).0 ≡ run whole steps (truncate answers other_log).0
truncate-forgets_example =
    truncate-forgets whole answers answers new_log other_log steps refl refl refl purged
      other_purged

-- Addresses that are their own 16 bytes.
abbrev net : Net
net = record { parse_ip = some; ip_string = λ ip. ip }

abbrev client : Bytes
client = 0 ∷ 0 ∷ 0 ∷ 0 ∷ 0 ∷ 0 ∷ 0 ∷ 0 ∷ 0 ∷ 0 ∷ 0xFF ∷ 0xFF ∷ 192 ∷ 168 ∷ 1 ∷ 20 ∷ []

abbrev neighbour : Bytes
neighbour = 0 ∷ 0 ∷ 0 ∷ 0 ∷ 0 ∷ 0 ∷ 0 ∷ 0 ∷ 0 ∷ 0 ∷ 0xFF ∷ 0xFF ∷ 192 ∷ 168 ∷ 1 ∷ 77 ∷ []

masked : mask_client_ip net client (codes "subnet") ≡ 192 ∷ 168 ∷ 1 ∷ 0 ∷ []
unfolding code
masked = refl

one_network : SameNetwork net client neighbour
unfolding to4
one_network = (refl, refl, refl)

differs : (a b : Bytes) → text_eq a b ≡ false → a ≢ b
differs a b h e = ground (arith, h, (text_eq_iff a b).1 e)

mask_client_ip-agree_example :
    (mask_client_ip net client (codes "subnet") ≡ mask_client_ip net neighbour (codes "subnet"))
    × (codes "subnet" ≢ codes "subnet" → mask_client_ip net client (codes "subnet") ≡ [])
mask_client_ip-agree_example =
    mask_client_ip-agree net client neighbour (codes "subnet") client neighbour refl refl
      one_network (differs _ _ refl)

records-is_recorded_example :
    ((codes "off" ≡ codes "all") ⊎ ((codes "off" ≡ codes "blocked") ⊎ (codes "off" ≡ codes "none"))
      → records (codes "off") true ≡ is_recorded (codes "off") true)
    × (codes "off" ≢ codes "all"
        → codes "off" ≢ codes "blocked"
        → codes "off" ≢ codes "none"
        → (records (codes "off") true ≡ false) × (is_recorded (codes "off") true ≡ true))
records-is_recorded_example = records-is_recorded (codes "off") true
