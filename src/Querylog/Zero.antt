-- ===== src/Querylog/Zero.antt =====
-- internal/querylog/zero.go: the overwriting of a file with zeros. What the calls of the operating
-- system answer is an argument: `checks` for those before the first write, and `fails k` for the
-- write or sync number k, with the number of bytes that a failed write has written.
pub mod Overwritten
use s_hole.Prelude.{
  ℕ, zero, suc, ◌+◌, ◌-◌, ◌*◌, Bool, false, not, ◌||◌, [], ◌∷◌, ◌++◌, Option, none, some, Bytes,
  length, take, drop, ltb, leb, ◌==◌, if◌then◌else◌,
}

-- An os.FileInfo, with the number that os.SameFile compares, and the file behind it.
pub record Inode : Type 0 where
  pub identity : ℕ
  pub is_regular : Bool
  pub links : ℕ

pub data ZeroError : Type 0 where
  refused_not_regular refused_changed refused_other_file : ZeroError
  refused_links : ℕ → ZeroError
  os_error : Bytes → ZeroError

-- The answers of Lstat, OpenFile, Stat and linkCount on the path, and of Close.
pub record Checks : Type 0 where
  pub lstat : Inode
  pub lstat_error : Option Bytes
  pub open_error : Option Bytes
  pub opened : Inode
  pub stat_error : Option Bytes
  pub links_error : Option Bytes
  pub close_error : Option Bytes

abbrev pub Fails : Type 0
Fails = ℕ → Option (ℕ × Bytes)

abbrev pub zero_chunk : ℕ
zero_chunk = 64 * 1024

abbrev pub zero_head : ℕ
zero_head = 32

unfoldable pub min : ℕ → ℕ → ℕ
min a b = if leb a b then a else b

unfoldable pub zeros : ℕ → Bytes
zeros zero = []
zeros (suc n) = 0 ∷ zeros n

-- WriteAt of n zeros, inside the file.
unfoldable pub write_zeros_at : ℕ → ℕ → Bytes → Bytes
unfolding zeros
write_zeros_at off n content = take off content ++ zeros n ++ drop (off + n) content

-- One write: its error, if any, behind the bytes that it wrote before.
unfoldable pub write_at : Option (ℕ × Bytes) → ℕ → ℕ → Bytes → Bytes × Option ZeroError
unfolding write_zeros_at min
write_at none off n content = (write_zeros_at off n content, none)
write_at (some (m, e)) off n content = (write_zeros_at off (min m n) content, some (os_error e))

unfoldable pub sync : Option (ℕ × Bytes) → Option ZeroError
sync none = none
sync (some (m, e)) = some (os_error e)

-- The next part runs when there was no error.
unfoldable pub and_then :
    Bytes × Option ZeroError → (Bytes → Bytes × Option ZeroError) → Bytes × Option ZeroError
and_then (content, none) f = f content
and_then (content, some e) f = (content, some e)

module _ (fails : Fails) (size : ℕ) where
  -- The loop over the chunks; `k` counts the calls. A fuel of size + 1 is enough.
  unfoldable pub chunk_loop : ℕ → ℕ → ℕ → Bytes → Bytes × Option ZeroError
  unfolding write_at sync and_then
  chunk_loop zero k off content = (content, none)
  chunk_loop (suc fuel) k off content =
      let n = min (size - off) zero_chunk in
      if ltb off size
      then and_then (write_at (fails k) off n content)
          (λ c. chunk_loop fuel (suc k) (off + zero_chunk) c)
      else (content, sync (fails k))

  -- writeZeros behind its tests.
  unfoldable pub overwrite : Bytes → Bytes × Option ZeroError
  unfolding chunk_loop
  overwrite content =
      let head = min size zero_head in
      and_then (write_at (fails 0) 0 head content)
        (λ c. and_then (c, sync (fails 1)) (λ d. chunk_loop (suc size) 2 head d))

unfoldable pub os_err : Option Bytes → Option ZeroError
os_err none = none
os_err (some e) = some (os_error e)

unfoldable pub refused_if : Bool → ZeroError → Option ZeroError
refused_if b e = if b then some e else none

-- The first of two errors: the early return at a failed test.
unfoldable pub or_else : Option ZeroError → Option ZeroError → Option ZeroError
or_else none next = next
or_else (some e) next = some e

unfoldable pub is_other : Option Inode → ℕ → Bool
is_other none identity = false
is_other (some want) identity = not (identity == want.identity)

-- The tests of writeZeros.
unfoldable pub refuse : Checks → Option Inode → Option ZeroError
unfolding os_err refused_if or_else is_other
refuse c want = or_else (os_err c.stat_error) (
    or_else
      (refused_if (not c.opened.is_regular || not (c.opened.identity == c.lstat.identity))
        refused_changed)
      (or_else (refused_if (is_other want c.opened.identity) refused_other_file) (
        or_else (os_err c.links_error)
          (refused_if (ltb 1 c.opened.links) (refused_links c.opened.links)))))

-- The tests of zeroFile, and then those of writeZeros.
unfoldable pub checks_error : Checks → Option Inode → Option ZeroError
unfolding refuse
checks_error c want = or_else (os_err c.lstat_error) (
    or_else (refused_if (not c.lstat.is_regular) refused_not_regular)
      (or_else (os_err c.open_error) (refuse c want)))

unfoldable pub close_file : Option Bytes → Bytes × Option ZeroError → Bytes × Option ZeroError
close_file e (content, none) = (content, os_err e)
close_file e (content, some err) = (content, some err)

unfoldable pub zero_checked : Option ZeroError → Fails → Bytes → Bytes × Option ZeroError
unfolding overwrite
zero_checked (some e) fails content = (content, some e)
zero_checked none fails content = overwrite fails (length content) content

-- zeroFile: the content of the file afterwards, and the error.
unfoldable pub zero_file : Checks → Option Inode → Fails → Bytes → Bytes × Option ZeroError
unfolding checks_error close_file zero_checked
zero_file c want fails content =
    close_file c.close_error (zero_checked (checks_error c want) fails content)
