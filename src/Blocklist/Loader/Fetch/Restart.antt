-- ===== src/Blocklist/Loader/Fetch/Restart.antt =====
-- internal/blocklist/loader.go: a download and the next start.
use s_hole.Prelude.{◌+◌, ◌<◌, ◌≡◌, refl, ap, none, arith, Bytes}
use s_hole.Blocklist.Loader.Files.{Files, cache_filename}
use s_hole.Blocklist.Loader.Fetch.{
  Mode, cache_first, from_download, from_cache, Loaded, loaded, Attempt, tmp_file, fetch_or,
  fetch_list, cache_max_age,
}
use s_hole.Blocklist.Loader.Fetch.Copies.{fresh_copy-young}
use s_hole.Blocklist.Loader.Fetch.Downloads.{all_of, fetch_list-IsDownload}

module _ (to_lower hex_sha256 : Bytes → Bytes) where
  -- A start within 24 hours of a download that could be stored loads the same domains and skipped
  -- lines from the cache file, whatever the network answers, and changes no file.
  pub fetch_list-restart :
      (url : Bytes) (mode : Mode) (a b : Attempt) (files after : Files) (l : Loaded)
      → fetch_list to_lower hex_sha256 url mode a files ≡ (loaded l, after)
      → l.from ≡ from_download
      → a.create_error ≡ none
      → a.rename_error ≡ none
      → b.now < a.now + cache_max_age
      → fetch_list to_lower hex_sha256 url cache_first b after ≡ (
        loaded (record {
          domains = l.domains;
          from = from_cache;
          snapshot = a.now;
          skipped = l.skipped;
        }),
        after,
      )
  unfolding fetch_list fetch_or tmp_file
  fetch_list-restart url mode a b files after l h d create ren young =
      let path = cache_filename hex_sha256 url in
      let (body, answer, size, whole, parsed, time, stored) =
        fetch_list-IsDownload to_lower hex_sha256 url mode a files after l h d in
      let file = tmp_file to_lower hex_sha256 path a (all_of body) in
      rw
        (
          stored create ren,
          fresh_copy-young to_lower hex_sha256 b.now file (refl, ap (λ p. p.2) parsed)
              (omega (arith, young)),
        )
        (ap
          (λ p. (
            loaded (record { domains = p.0; from = from_cache; snapshot = a.now; skipped = p.1 }),
            after,
          ))
          parsed)
