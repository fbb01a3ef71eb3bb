-- ===== src/Blocklist/Loader/Fetch.antt =====
-- internal/blocklist/loader.go: fetchList with staleFallback and loadFromFile, and the redirect
-- policy. What the network and the file system answer to one call is an argument, an Attempt.
pub mod Copies
pub mod Kept
pub mod Origins
pub mod Downloads
pub mod Served
pub mod Restart
pub mod Redirects
use s_hole.Prelude.{
  ℕ, ◌-◌, ◌*◌, ◌^◌, Bool, true, false, not, ◌&&◌, List, [], ◌∷◌, Option, none, some, Bytes, codes,
  text_eq, length, take, ltb, leb, ◌==◌, if◌then◌else◌,
}
use s_hole.Blocklist.Loader.Hosts.{ReadError, read_failed, Reader, parse_hosts_format}
use s_hole.Blocklist.Loader.Files.{
  CacheFile, Files, stat, remove, write, rename, cache_filename, tmp_of,
}

-- 24 hours in nanoseconds
abbrev pub cache_max_age : ℕ
cache_max_age = 24 * 3600 * 10 ^ 9

abbrev pub max_redirects : ℕ
max_redirects = 10

abbrev pub max_body_bytes : ℕ
max_body_bytes = 2 ^ 28

pub data RedirectError : Type 0 where
  stopped_after : ℕ → RedirectError
  insecure_redirect : RedirectError

-- checkRedirect on the schemes of the next request and of the requests so far, the first in front.
-- The client calls it with one request at least.
unfoldable pub check_redirect : Bytes → List Bytes → Option RedirectError
check_redirect next [] = none
check_redirect next (first ∷ via) =
    if leb max_redirects (length (first ∷ via))
    then some (stopped_after max_redirects)
    else if text_eq first (codes "https") && not (text_eq next (codes "https"))
    then some insecure_redirect
    else none

pub data Mode : Type 0 where
  cache_first : Mode
  download_first : Mode

pub data Origin : Type 0 where
  from_download : Origin
  from_cache : Origin
  from_stale_cache : Origin

-- The errors, without their texts. The last one wraps the two errors of staleFallback.
pub data FetchError : Type 0 where
  open_failed : Bytes → FetchError
  read_error : ReadError → FetchError
  bad_request : Bytes → FetchError
  transport : Bytes → FetchError
  close_failed : Bytes → FetchError
  http_status : ℕ → FetchError
  over_cap : FetchError
  no_copy : FetchError → FetchError → FetchError

-- The domains with their sourceMeta.
pub record Loaded : Type 0 where
  pub domains : List Bytes
  pub from : Origin
  pub snapshot : ℕ
  pub skipped : ℕ

pub data Result : Type 0 where
  failed : FetchError → Result
  loaded : Loaded → Result

-- http.NewRequest fails, httpClient.Do fails, or there is an answer.
pub data Response : Type 0 where
  refused : Bytes → Response
  no_response : Bytes → Response
  response : ℕ → Reader → Response

-- The clock reads one time in a call. `write_error` is the place of the body at which a write to the
-- .tmp file fails.
pub record Attempt : Type 0 where
  pub answer : Response
  pub now : ℕ
  pub create_error : Option Bytes
  pub write_error : Option (ℕ × Bytes)
  pub close_error : Option Bytes
  pub rename_error : Option Bytes
  pub discard_error : Option Bytes

-- io.LimitReader: behind the cap the reader ends, whatever comes.
unfoldable pub limit_reader : Reader → Reader
limit_reader r =
    if leb max_body_bytes (length r.content)
    then record { content = take max_body_bytes r.content; failure = none }
    else r

-- io.TeeReader: a failed write is a failed read.
unfoldable pub tee_reader : Option (ℕ × Bytes) → Reader → Reader
tee_reader none r = r
tee_reader (some (n, e)) r =
    if ltb n (length r.content)
    then record { content = take n r.content; failure = some (read_failed e) }
    else r

abbrev is_none {ℓ} : {A : Type ℓ} → Option A → Bool
is_none none = true
is_none (some x) = false

-- The error of the parser, or else that of Close on the .tmp file.
unfoldable pub first_error : Option ReadError → Bool → Option Bytes → Option FetchError
first_error (some e) created close_error = some (read_error e)
first_error none false close_error = none
first_error none true none = none
first_error none true (some e) = some (close_failed e)

module _ (to_lower hex_sha256 : Bytes → Bytes) where
  unfoldable pub parsed_copy : ℕ → Origin → List Bytes × ℕ × Option ReadError → Result
  parsed_copy modified from (domains, skipped, none) =
      loaded (record { domains = domains; from = from; snapshot = modified; skipped = skipped })
  parsed_copy modified from (domains, skipped, some e) = failed (read_error e)

  unfoldable pub load_opened : Option Bytes → ℕ → Reader → Origin → Result
  unfolding parsed_copy
  load_opened none modified r from = parsed_copy modified from (parse_hosts_format to_lower r)
  load_opened (some e) modified r from = failed (open_failed e)

  unfoldable pub load_from_file : CacheFile → Origin → Result
  unfolding load_opened
  load_from_file file from = load_opened file.open_error file.modified file.reader from

  unfoldable pub copy_or : FetchError → Result → Result
  copy_or err (loaded copy) = loaded copy
  copy_or err (failed load_err) = failed (no_copy err load_err)

  -- os.Stat, then staleFallback.
  unfoldable pub stale_fallback : Option CacheFile → FetchError → Result
  unfolding load_from_file copy_or
  stale_fallback none err = failed err
  stale_fallback (some file) err = copy_or err (load_from_file file from_stale_cache)

  unfoldable pub served : Result → Option Loaded
  served (loaded copy) = some copy
  served (failed e) = none

  -- The cache file that is served without a download.
  unfoldable pub fresh_copy : ℕ → Mode → Option CacheFile → Option Loaded
  unfolding load_from_file served
  fresh_copy now download_first file = none
  fresh_copy now cache_first none = none
  fresh_copy now cache_first (some file) =
      if ltb (now - file.modified) cache_max_age
      then served (load_from_file file from_cache)
      else none

  module _ (path : Bytes) (a : Attempt) where
    -- os.Remove on the .tmp file, whose error is dropped.
    unfoldable pub discard : Option Bytes → Files → Files
    discard none files = remove (tmp_of path) files
    discard (some e) files = files

    -- os.Rename on the complete .tmp file, with its removal when that fails.
    unfoldable pub keep_file : Option Bytes → Files → Files
    unfolding discard
    keep_file none files = rename (tmp_of path) path files
    keep_file (some e) files = discard a.discard_error files

    -- The end of fetchList, behind the reading of the body. `cut` says that the probe read a byte.
    unfoldable pub finish :
        Option FetchError → Bool → Bool → List Bytes → ℕ → Files → Result × Files
    unfolding stale_fallback discard keep_file
    finish (some e) cut created domains skipped files =
        let cleared = discard a.discard_error files in
        (stale_fallback (stat path cleared) e, cleared)
    finish none true created domains skipped files =
        let cleared = discard a.discard_error files in
        (stale_fallback (stat path cleared) over_cap, cleared)
    finish none false created domains skipped files = (
      loaded
          (record { domains = domains; from = from_download; snapshot = a.now; skipped = skipped }),
      if created then keep_file a.rename_error files else files,
    )

    -- The .tmp file holds what was read from the body.
    unfoldable pub tmp_file : Reader → CacheFile
    tmp_file r = record {
      modified = a.now;
      open_error = none;
      remove_error = none;
      reader = record { content = r.content; failure = none };
    }

    unfoldable pub store_body : Bool → Reader → Files → Result × Files
    unfolding limit_reader tee_reader first_error finish tmp_file
    store_body created body files =
        let limited = limit_reader body in
        let read = if created then tee_reader a.write_error limited else limited in
        let (domains, skipped, parse_err) = parse_hosts_format to_lower read in
        finish (first_error parse_err created a.close_error)
          (ltb max_body_bytes (length body.content)) created domains skipped
          (if created then write (tmp_of path) (tmp_file read) files else files)

    -- httpClient.Do and what follows it.
    unfoldable pub receive : Response → Files → Result × Files
    unfolding stale_fallback store_body
    receive (refused e) files = (failed (bad_request e), files)
    receive (no_response e) files = (stale_fallback (stat path files) (transport e), files)
    receive (response status body) files =
        if status == 200
        then store_body (is_none a.create_error) body files
        else (stale_fallback (stat path files) (http_status status), files)

    unfoldable pub fetch_or : Option Loaded → Files → Result × Files
    unfolding receive
    fetch_or (some copy) files = (loaded copy, files)
    fetch_or none files = receive a.answer files

  unfoldable pub fetch_list : Bytes → Mode → Attempt → Files → Result × Files
  unfolding fresh_copy fetch_or
  fetch_list url mode a files =
      let path = cache_filename hex_sha256 url in
      fetch_or path a (fresh_copy a.now mode (stat path files)) files
