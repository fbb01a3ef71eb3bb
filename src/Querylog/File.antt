-- ===== src/Querylog/File.antt =====
-- internal/querylog/logger.go: FileLogger. The select statements make each call of Log, each write of
-- the goroutine run and each purge one step on the state; `written` is what the output keeps of a
-- line that is written to it, and the time stamp of a line is an argument. Purge runs in the
-- goroutine: its step is truncate.
pub mod Lines
pub mod Counted
pub mod Purged
use s_hole.Prelude.{
  ℕ, ◌+◌, ◌%◌, ◌^◌, Bool, true, false, not, ◌&&◌, List, [], ◌∷◌, ◌++◌, Option, none, some, Bytes,
  codes, text_eq, length, ltb, if◌then◌else◌,
}
use s_hole.Dnsserver.Handler.{BlockSource, blocked_by_name, blocked_by_cname, Record}
use s_hole.Querylog.Outcomes.{failed}
use s_hole.Querylog.Zero.{Inode, ZeroError, os_error, Checks, Fails, zero_file}

-- `output` is the content of the file, or what was printed.
pub record FileLogger : Type 0 where
  pub log_queries : Bytes
  pub to_stdout : Bool
  pub queue : List Bytes
  pub dropped : ℕ
  pub output : Bytes

abbrev pub file_queue_size : ℕ
file_queue_size = 1024

-- The file is opened for append; an open error is returned.
unfoldable pub new_file_logger : Bytes → Bytes → Option Bytes → Bytes → Option FileLogger
new_file_logger dest mode open_error existing =
    if text_eq dest (codes "stdout")
    then some
        (record { log_queries = mode; to_stdout = true; queue = []; dropped = 0; output = [] })
    else elim open_error [
      | some e ↦ none
      | none ↦ some (record {
        log_queries = mode;
        to_stdout = false;
        queue = [];
        dropped = 0;
        output = existing;
      })
    ]

unfoldable pub cname_marker : BlockSource → Bytes
cname_marker blocked_by_name = []
cname_marker blocked_by_cname = codes " CNAME"

unfoldable pub marker : Record → Bytes
unfolding cname_marker failed
marker rec =
    if rec.blocked
    then cname_marker rec.block_source
    else if rec.cache_hit
    then codes " CACHED"
    else if failed rec
    then codes " FAILED"
    else []

unfoldable pub line_of : Bytes → Record → Bytes
unfolding marker
line_of stamp rec =
    let action = if rec.blocked then codes "BLOCK" else codes "ALLOW" in
    stamp ++ b' ' ∷ action ++ b' ' ∷ rec.client_ip ++ b' ' ∷ rec.domain ++ marker rec ++ 10 ∷ []

-- The send on the channel, or the count of a dropped line.
unfoldable pub offer : Bytes → FileLogger → FileLogger
offer line l =
    if ltb (length l.queue) file_queue_size
    then record l { queue = l.queue ++ line ∷ [] }
    else record l { dropped = (l.dropped + 1) % 2 ^ 64 }

-- The two tests of the mode at the start of Log.
unfoldable pub is_recorded : Bytes → Bool → Bool
is_recorded mode blocked =
    not (text_eq mode (codes "none")) && not (text_eq mode (codes "blocked") && not blocked)

unfoldable pub log : Bytes → Record → FileLogger → FileLogger
unfolding line_of offer is_recorded
log stamp rec l = if is_recorded l.log_queries rec.blocked then offer (line_of stamp rec) l else l

pub data PurgeError : Type 0 where
  stdout_not_purgeable : PurgeError
  truncate_failed : Bytes → PurgeError
  not_overwritten : ZeroError → PurgeError

-- What the operating system answers to a purge: f.Stat, the calls of zeroFile, f.Truncate, and
-- truncateFile, which runs when f.Truncate failed.
pub record PurgeAnswers : Type 0 where
  pub stat_error : Option Bytes
  pub inode : Inode
  pub checks : Checks
  pub fails : Fails
  pub truncate_error : Option Bytes
  pub second_error : Option Bytes

unfoldable pub zero_output : Option Bytes → PurgeAnswers → Bytes → Bytes × Option ZeroError
unfolding zero_file
zero_output none a content = zero_file a.checks (some a.inode) a.fails content
zero_output (some e) a content = (content, some (os_error e))

-- The content and the error after Truncate, and truncateFile where it has the file's inode.
unfoldable pub empty_output :
    Option Bytes → Option Bytes → Option Bytes → Bytes → Bytes × Option PurgeError
empty_output none stat_error second_error content = ([], none)
empty_output (some e) none none content = ([], none)
empty_output (some e) none (some e₂) content = (content, some (truncate_failed e))
empty_output (some e) (some e₁) second_error content = (content, some (truncate_failed e))

unfoldable pub purge_error : Option PurgeError → Option ZeroError → Option PurgeError
purge_error (some e) zerr = some e
purge_error none none = none
purge_error none (some e) = some (not_overwritten e)

unfoldable pub truncate : PurgeAnswers → FileLogger → FileLogger × Option PurgeError
unfolding zero_output empty_output purge_error
truncate a l =
    let (zeroed, zerr) = zero_output a.stat_error a l.output in
    let (content, err) = empty_output a.truncate_error a.stat_error a.second_error zeroed in
    if l.to_stdout
    then (record l { queue = [] }, some stdout_not_purgeable)
    else (record l { queue = []; output = content }, purge_error err zerr)

module _ (written : Bytes → Bytes) where
  -- A line that run takes from the channel.
  unfoldable pub write_lines : List Bytes → Bytes
  write_lines [] = []
  write_lines (line ∷ queue) = written line ++ write_lines queue

  unfoldable pub take_line : List Bytes → FileLogger → FileLogger
  take_line [] l = l
  take_line (line ∷ queue) l = record l { queue = queue; output = l.output ++ written line }

  unfoldable pub write_line : FileLogger → FileLogger
  unfolding take_line
  write_line l = take_line l.queue l

  -- The loop of run behind l.done, one line at a time.
  unfoldable pub drain : List Bytes → FileLogger → FileLogger
  unfolding take_line
  drain [] l = l
  drain (line ∷ queue) l = drain queue (take_line (line ∷ queue) l)

  unfoldable pub close : FileLogger → FileLogger
  unfolding drain
  close l = drain l.queue l
