-- ===== src/Blocklist/Loader/Files.antt =====
-- internal/blocklist/loader.go: the files of blocking.cache_dir, by their names, and PurgeCache.
-- A file that cannot be opened carries the error of os.Open, one that cannot be removed that of
-- os.Remove. `now` is the clock in nanoseconds.
pub mod Stat
pub mod Purge
use s_hole.Prelude.{
  ℕ, suc, Bool, ◌&&◌, ◌||◌, List, [], ◌∷◌, ◌++◌, Option, none, some, Bytes, codes, text_eq,
  has_prefix, has_suffix, drop, if◌then◌else◌,
}
use s_hole.Blocklist.Loader.Hosts.{Reader}

pub record CacheFile : Type 0 where
  pub modified : ℕ
  pub open_error : Option Bytes
  pub remove_error : Option Bytes
  pub reader : Reader

abbrev pub Files : Type 0
Files = List (Bytes × CacheFile)

-- os.Stat; `none` when there is no file.
unfoldable pub stat : Bytes → Files → Option CacheFile
stat name [] = none
stat name ((key, file) ∷ files) =
    let rest = stat name files in if text_eq name key then some file else rest

unfoldable pub remove : Bytes → Files → Files
remove name [] = []
remove name ((key, file) ∷ files) =
    let rest = remove name files in if text_eq name key then rest else (key, file) ∷ rest

unfoldable pub write : Bytes → CacheFile → Files → Files
unfolding remove
write name file files = (name, file) ∷ remove name files

-- os.Rename, which replaces a file of the new name.
unfoldable pub rename : Bytes → Bytes → Files → Files
unfolding stat write
rename old new files = elim (stat old files) [
  | none ↦ files
  | some file ↦ write new file (remove old files)
]

-- The name is cacheFilename's; `hex_sha256` stands for the two calls of the standard library.
unfoldable pub cache_filename : (Bytes → Bytes) → Bytes → Bytes
cache_filename hex_sha256 url = codes "blocklist_" ++ hex_sha256 url ++ codes ".txt"

unfoldable pub tmp_of : Bytes → Bytes
tmp_of path = path ++ codes ".tmp"

-- strings.Contains
unfoldable pub contains : Bytes → Bytes → Bool
contains [] part = has_prefix [] part
contains (c ∷ s) part = has_prefix (c ∷ s) part || contains s part

-- The pattern blocklist_*.txt* of filepath.Glob, for a name without a path separator.
unfoldable pub glob_match : Bytes → Bool
unfolding contains
glob_match name = has_prefix name (codes "blocklist_") && contains (drop 10 name) (codes ".txt")

unfoldable pub is_cache_name : Bytes → Bool
is_cache_name base = has_suffix base (codes ".txt") || has_suffix base (codes ".txt.tmp")

-- The loop of PurgeCache, with the files in the order of Glob: the files that stay, the number of removed ones, the first error.
unfoldable pub purge_step :
    Bytes × CacheFile → Option Bytes → Files × ℕ × Option Bytes → Files × ℕ × Option Bytes
purge_step entry none (rest, removed, first_err) = (rest, suc removed, first_err)
purge_step entry (some e) (rest, removed, first_err) = (entry ∷ rest, removed, some e)

unfoldable pub purge_cache : Files → Files × ℕ × Option Bytes
unfolding glob_match is_cache_name purge_step
purge_cache [] = ([], 0, none)
purge_cache ((name, file) ∷ files) =
    let (rest, removed, first_err) = purge_cache files in
    if glob_match name && is_cache_name name
    then purge_step (name, file) file.remove_error (rest, removed, first_err)
    else ((name, file) ∷ rest, removed, first_err)
