-- ===== src/Blocklist/Loader/Update.antt =====
-- internal/blocklist/loader.go: Update, which loads every list and replaces the block set.
use s_hole.Prelude.{
  ℕ, suc, Bool, true, false, not, ◌&&◌, List, [], ◌∷◌, ◌++◌, Option, none, some, Bytes, length,
  ◌==◌, if◌then◌else◌,
}
pub mod Outcome
use s_hole.Blocklist.Store.{SourceStatus, Store, set_sources, replace}
use s_hole.Blocklist.Loader.Files.{Files}
use s_hole.Blocklist.Loader.Fetch.{
  Mode, Origin, from_download, from_cache, from_stale_cache, FetchError, Result, failed, loaded,
  Attempt, fetch_list,
}

abbrev pub is_stale : Origin → Bool
is_stale from_download = false
is_stale from_cache = false
is_stale from_stale_cache = true

-- A source that failed has the zero time.
unfoldable pub status_of : Bytes → Result → SourceStatus
status_of url (failed e) = record { url = url; count = 0; last_refresh = 0; stale = true }
status_of url (loaded l) = record {
  url = url;
  count = length l.domains;
  last_refresh = l.snapshot;
  stale = is_stale l.from;
}

-- The variables of the loop: all, ok, lastErr and sources.
pub record Progress : Type 0 where
  pub all : List Bytes
  pub ok : ℕ
  pub last_err : Option FetchError
  pub sources : List SourceStatus

abbrev pub new_progress : Progress
new_progress = record { all = []; ok = 0; last_err = none; sources = [] }

unfoldable pub add_result : Bytes → Result → Progress → Progress
unfolding status_of
add_result url (failed e) p = record p {
  last_err = some e;
  sources = p.sources ++ status_of url (failed e) ∷ [];
}
add_result url (loaded l) p = record p {
  all = p.all ++ l.domains;
  ok = suc p.ok;
  sources = p.sources ++ status_of url (loaded l) ∷ [];
}

module _ (to_lower hex_sha256 : Bytes → Bytes) (mode : Mode) where
  -- Each URL comes with what the network and the disk answer to its call.
  unfoldable pub load_lists : List (Bytes × Attempt) → Files → Progress → Progress × Files
  unfolding add_result
  load_lists [] files p = (p, files)
  load_lists ((url, a) ∷ calls) files p =
      let (result, after) = fetch_list to_lower hex_sha256 url mode a files in
      load_lists calls after (add_result url result p)

  -- The error is that of the last source that failed.
  unfoldable pub conclude : Store → ℕ → Progress → Store × Option FetchError
  conclude store urls p =
      let s = set_sources store p.sources in
      if p.ok == 0 && not (urls == 0) then (s, p.last_err) else (replace to_lower s p.all, none)

  unfoldable pub update : Store → List (Bytes × Attempt) → Files → Store × Files × Option FetchError
  unfolding load_lists conclude
  update store calls files =
      let (p, after) = load_lists calls files new_progress in
      let (s, err) = conclude store (length calls) p in (s, after, err)
