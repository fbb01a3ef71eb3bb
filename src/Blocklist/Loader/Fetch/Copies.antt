-- ===== src/Blocklist/Loader/Fetch/Copies.antt =====
-- internal/blocklist/loader.go: when fetchList serves the cached copy, and what it leaves of the files.
use s_hole.Prelude.{
  inl, inr, ◌+◌, ℕ, ◌-◌, ◌<◌, Bool, true, false, List, ◌≡◌, ◌≢◌, ◌⊎◌, refl, sym, ap, ◌∙◌, Option,
  none, some, arith, Bytes, ltb, ◌==◌, if◌then◌else◌, Bool-cases,
}
use mathlib.Core.Path.{subst}
use s_hole.Blocklist.Loader.Hosts.{ReadError, parse_hosts_format}
use s_hole.Blocklist.Loader.Files.{CacheFile, Files, stat, write, cache_filename, tmp_of}
use s_hole.Blocklist.Loader.Files.Stat.{stat-remove, stat-write, tmp_of-other}
use s_hole.Blocklist.Loader.Fetch.{
  Mode, cache_first, download_first, Origin, from_download, from_cache, from_stale_cache,
  FetchError, Loaded, Result, failed, loaded, Response, refused, no_response, response, Attempt,
  is_none, parsed_copy, load_opened, load_from_file, copy_or, stale_fallback, served, fresh_copy,
  discard, finish, store_body, receive, fetch_or, fetch_list, cache_max_age, over_cap,
}

-- A result that is no download.
abbrev pub IsServed : Result → Type 0
IsServed (failed e) = Unit
IsServed (loaded l) = l.from ≢ from_download

is_young :
    (now modified : ℕ) → now < modified + cache_max_age → ltb (now - modified) cache_max_age ≡ true
is_young now modified h = ground (arith, h)

module _ (to_lower hex_sha256 : Bytes → Bytes) where
  -- A copy that staleFallback and CacheFirst can read.
  abbrev pub IsReadable : CacheFile → Type 0
  IsReadable file = (file.open_error ≡ none) × ((parse_hosts_format to_lower file.reader).2 ≡ none)

  -- A result of fetchList that is called a download, or the contents of the copy.
  abbrev pub Serves : CacheFile → Result → Type 0
  Serves file (failed e) = ⊥
  Serves file (loaded l) =
      (l.from ≡ from_download)
      ⊎ ((l.domains ≡ (parse_hosts_format to_lower file.reader).0)
          × (l.skipped ≡ (parse_hosts_format to_lower file.reader).1)
          × (l.snapshot ≡ file.modified))

  abbrev pub copy_of : CacheFile → Origin → Loaded
  copy_of file from = record {
    domains = (parse_hosts_format to_lower file.reader).0;
    from = from;
    snapshot = file.modified;
    skipped = (parse_hosts_format to_lower file.reader).1;
  }

  parsed_copy-none :
      (modified : ℕ) (from : Origin) (p : List Bytes × ℕ × Option ReadError)
      → p.2 ≡ none
      → parsed_copy to_lower hex_sha256 modified from p
        ≡ loaded (record { domains = p.0; from = from; snapshot = modified; skipped = p.1 })
  unfolding parsed_copy
  parsed_copy-none modified from (ds, n, none) h = refl
  parsed_copy-none modified from (ds, n, some e) h = cc

  pub load_from_file-readable :
      (file : CacheFile) (from : Origin)
      → IsReadable file
      → load_from_file to_lower hex_sha256 file from ≡ loaded (copy_of file from)
  unfolding load_from_file load_opened
  load_from_file-readable file from h =
      ap (λ e. load_opened to_lower hex_sha256 e file.modified file.reader from) h.0
      ∙ parsed_copy-none file.modified from (parse_hosts_format to_lower file.reader) h.1

  stale_fallback-readable :
      (file : CacheFile) (e : FetchError)
      → IsReadable file
      → stale_fallback to_lower hex_sha256 (some file) e ≡ loaded (copy_of file from_stale_cache)
  unfolding stale_fallback copy_or
  stale_fallback-readable file e h =
      ap (copy_or to_lower hex_sha256 e) (load_from_file-readable file from_stale_cache h)

  Serves-stale :
      (file : CacheFile) (found : Option CacheFile) (e : FetchError)
      → found ≡ some file
      → IsReadable file
      → Serves file (stale_fallback to_lower hex_sha256 found e)
  Serves-stale file found e h r =
      subst (Serves file)
        (sym
          (ap (λ f. stale_fallback to_lower hex_sha256 f e) h ∙ stale_fallback-readable file e r))
        (inr (refl, refl, refl))

  module _ (path : Bytes) (a : Attempt) where
    pub discard-stat :
        (e : Option Bytes) (files : Files) (name : Bytes)
        → name ≢ tmp_of path
        → stat name (discard to_lower hex_sha256 path a e files) ≡ stat name files
    unfolding discard
    discard-stat none files name t = stat-remove name (tmp_of path) files t
    discard-stat (some e) files name t = refl

    finish-Serves :
        (e : Option FetchError) (cut created : Bool) (ds : List Bytes) (n : ℕ) (files : Files)
        (file : CacheFile)
        → stat path files ≡ some file
        → IsReadable file
        → Serves file (finish to_lower hex_sha256 path a e cut created ds n files).0
    unfolding finish
    finish-Serves (some e) cut created ds n files file h r =
        Serves-stale file _ e (discard-stat a.discard_error files path (tmp_of-other path) ∙ h) r
    finish-Serves none true created ds n files file h r =
        Serves-stale file _ over_cap
          (discard-stat a.discard_error files path (tmp_of-other path) ∙ h) r
    finish-Serves none false created ds n files file h r = inl refl

    pub started-stat :
        (created : Bool) (file : CacheFile) (files : Files) (name : Bytes)
        → name ≢ tmp_of path
        → stat name (if created then write (tmp_of path) file files else files) ≡ stat name files
    started-stat false file files name t = refl
    started-stat true file files name t = stat-write name (tmp_of path) file files t

    receive-Serves :
        (answer : Response) (files : Files) (file : CacheFile)
        → ((e : Bytes) → answer ≢ refused e)
        → stat path files ≡ some file
        → IsReadable file
        → Serves file (receive to_lower hex_sha256 path a answer files).0
    unfolding receive store_body
    receive-Serves (refused e) files file k h r = absurd (k e refl)
    receive-Serves (no_response e) files file k h r = Serves-stale file _ _ h r
    receive-Serves (response status body) files file k h r = elim (Bool-cases (status == 200)) [
      | inl good ↦ rw good (
          finish-Serves _ _ _ _ _ _ file
            (started-stat (is_none a.create_error) _ files path (tmp_of-other path) ∙ h) r)
      | inr bad ↦ rw bad (Serves-stale file (stat path files) _ h r)
    ]

    fetch_or-Serves :
        (fresh : Option Loaded) (files : Files) (file : CacheFile)
        → (fresh ≡ none) ⊎ (fresh ≡ some (copy_of file from_cache))
        → ((e : Bytes) → a.answer ≢ refused e)
        → stat path files ≡ some file
        → IsReadable file
        → Serves file (fetch_or to_lower hex_sha256 path a fresh files).0
    unfolding fetch_or
    fetch_or-Serves none files file f k h r = receive-Serves a.answer files file k h r
    fetch_or-Serves (some copy) files file (inl e) k h r = cc
    fetch_or-Serves (some copy) files file (inr e) k h r =
        subst (λ x. Serves file (fetch_or to_lower hex_sha256 path a x files).0) (sym e)
          (inr (refl, refl, refl))

  fresh_copy-cases :
      (now : ℕ) (mode : Mode) (file : CacheFile)
      → IsReadable file
      → (fresh_copy to_lower hex_sha256 now mode (some file) ≡ none)
        ⊎ (fresh_copy to_lower hex_sha256 now mode (some file) ≡ some (copy_of file from_cache))
  unfolding fresh_copy served
  fresh_copy-cases now download_first file r = inl refl
  fresh_copy-cases now cache_first file r =
      elim (Bool-cases (ltb (now - file.modified) cache_max_age)) [
        | inl young ↦ inr (rw (young, load_from_file-readable file from_cache r) refl)
        | inr old ↦ inl (rw old refl)
      ]

  pub fresh_copy-young :
      (now : ℕ) (file : CacheFile)
      → IsReadable file
      → now < file.modified + cache_max_age
      → fresh_copy to_lower hex_sha256 now cache_first (some file) ≡ some (copy_of file from_cache)
  unfolding fresh_copy served
  fresh_copy-young now file r young =
      rw (is_young now file.modified young, load_from_file-readable file from_cache r) refl

  pub fetch_list-Serves :
      (url : Bytes) (mode : Mode) (a : Attempt) (files : Files) (file : CacheFile)
      → ((e : Bytes) → a.answer ≢ refused e)
      → stat (cache_filename hex_sha256 url) files ≡ some file
      → IsReadable file
      → Serves file (fetch_list to_lower hex_sha256 url mode a files).0
  unfolding fetch_list
  fetch_list-Serves url mode a files file k h r =
      rw (ap (fresh_copy to_lower hex_sha256 a.now mode) h) (
        fetch_or-Serves (cache_filename hex_sha256 url) a
          (fresh_copy to_lower hex_sha256 a.now mode (some file)) files file
          (fresh_copy-cases a.now mode file r) k h r)
