-- ===== src/Blocklist/Loader/Fetch/Served.antt =====
-- internal/blocklist/loader.go: what fetchList gives for a list that has a cached copy.
use s_hole.Prelude.{◌≡◌, ◌≢◌, ◌⊎◌, inl, inr, refl, some, Bytes}
use s_hole.Blocklist.Loader.Hosts.{parse_hosts_format}
use s_hole.Blocklist.Loader.Files.{CacheFile, Files, stat, cache_filename}
use s_hole.Blocklist.Loader.Fetch.{Mode, Result, failed, loaded, refused, Attempt, fetch_list}
use s_hole.Blocklist.Loader.Fetch.Copies.{IsReadable, Serves, fetch_list-Serves}
use s_hole.Blocklist.Loader.Fetch.Downloads.{IsDownload, fetch_list-IsDownload}

module _ (to_lower hex_sha256 : Bytes → Bytes) where
  -- A download of the list, or the domains, the skipped lines and the time of the copy.
  abbrev pub IsServing : Bytes → Attempt → CacheFile → Result × Files → Type 0
  IsServing url a file (failed e, after) = ⊥
  IsServing url a file (loaded l, after) =
      IsDownload to_lower hex_sha256 (cache_filename hex_sha256 url) a l after
      ⊎ ((l.domains ≡ (parse_hosts_format to_lower file.reader).0)
          × (l.skipped ≡ (parse_hosts_format to_lower file.reader).1)
          × (l.snapshot ≡ file.modified))

  of_Serves :
      (url : Bytes) (mode : Mode) (a : Attempt) (files : Files) (file : CacheFile)
      (r : Result × Files)
      → fetch_list to_lower hex_sha256 url mode a files ≡ r
      → Serves to_lower hex_sha256 file r.0
      → IsServing url a file r
  of_Serves url mode a files file (failed e, after) h s = elim s [ ]
  of_Serves url mode a files file (loaded l, after) h (inl d) =
      inl (fetch_list-IsDownload to_lower hex_sha256 url mode a files after l h d)
  of_Serves url mode a files file (loaded l, after) h (inr copy) = inr copy

  -- A list whose cached copy can be read never fails to load, unless no request can be made for its
  -- URL: it gives a download, as of a body within the cap that is kept whole, or the domains, the
  -- skipped lines and the time of the copy.
  pub fetch_list-IsServing :
      (url : Bytes) (mode : Mode) (a : Attempt) (files : Files) (file : CacheFile)
      → ((e : Bytes) → a.answer ≢ refused e)
      → stat (cache_filename hex_sha256 url) files ≡ some file
      → IsReadable to_lower hex_sha256 file
      → IsServing url a file (fetch_list to_lower hex_sha256 url mode a files)
  fetch_list-IsServing url mode a files file k h r =
      of_Serves url mode a files file (fetch_list to_lower hex_sha256 url mode a files) refl
        (fetch_list-Serves to_lower hex_sha256 url mode a files file k h r)
