-- ===== src/Blocklist/Loader/Fetch/Kept.antt =====
-- internal/blocklist/loader.go: what fetchList leaves of the files.
use s_hole.Prelude.{
  inl, inr, ℕ, Bool, true, false, List, ◌≡◌, ◌≢◌, ◌⊎◌, refl, ◌∙◌, Option, none, some, Bytes, ◌==◌,
  Bool-cases,
}
use s_hole.Blocklist.Loader.Files.{Files, stat, cache_filename, tmp_of}
use s_hole.Blocklist.Loader.Files.Stat.{stat-rename}
use s_hole.Blocklist.Loader.Fetch.{
  Mode, FetchError, Loaded, Response, refused, no_response, response, Attempt, is_none, fresh_copy,
  keep_file, finish, store_body, receive, fetch_or, fetch_list,
}
use s_hole.Blocklist.Loader.Fetch.Copies.{IsServed, discard-stat, started-stat}

module _ (to_lower hex_sha256 : Bytes → Bytes) where
  module _ (path : Bytes) (a : Attempt) where
    finish-stat :
        (e : Option FetchError) (cut created : Bool) (ds : List Bytes) (n : ℕ) (files : Files)
        (name : Bytes)
        → name ≢ tmp_of path
        → (name ≢ path) ⊎ IsServed (finish to_lower hex_sha256 path a e cut created ds n files).0
        → stat name (finish to_lower hex_sha256 path a e cut created ds n files).1 ≡ stat name files
    unfolding finish keep_file
    finish-stat (some e) cut created ds n files name t h =
        discard-stat to_lower hex_sha256 path a a.discard_error files name t
    finish-stat none true created ds n files name t h =
        discard-stat to_lower hex_sha256 path a a.discard_error files name t
    finish-stat none false created ds n files name t (inr h) = absurd (h refl)
    finish-stat none false false ds n files name t (inl h) = refl
    finish-stat none false true ds n files name t (inl h) = kept a.rename_error
      where
        kept :
            (e : Option Bytes)
            → stat name (keep_file to_lower hex_sha256 path a e files) ≡ stat name files
        kept none = stat-rename name (tmp_of path) path files t h
        kept (some e) = discard-stat to_lower hex_sha256 path a a.discard_error files name t

    receive-stat :
        (answer : Response) (files : Files) (name : Bytes)
        → name ≢ tmp_of path
        → (name ≢ path) ⊎ IsServed (receive to_lower hex_sha256 path a answer files).0
        → stat name (receive to_lower hex_sha256 path a answer files).1 ≡ stat name files
    unfolding receive store_body
    receive-stat (refused e) files name t = λ h. refl
    receive-stat (no_response e) files name t = λ h. refl
    receive-stat (response status body) files name t = elim (Bool-cases (status == 200)) [
      | inl good ↦ rw good (λ h.
          finish-stat _ _ _ _ _ _ name t h
          ∙ started-stat to_lower hex_sha256 path a (is_none a.create_error) _ files name t)
      | inr bad ↦ rw bad (λ h. refl)
    ]

    fetch_or-stat :
        (fresh : Option Loaded) (files : Files) (name : Bytes)
        → name ≢ tmp_of path
        → (name ≢ path) ⊎ IsServed (fetch_or to_lower hex_sha256 path a fresh files).0
        → stat name (fetch_or to_lower hex_sha256 path a fresh files).1 ≡ stat name files
    unfolding fetch_or
    fetch_or-stat (some copy) files name t h = refl
    fetch_or-stat none files name t h = receive-stat a.answer files name t h

  -- A call changes no file but the list's own cache file and its .tmp file, and not even the cache
  -- file when its result is an error or a cached copy.
  fetch_list-stat :
      (url : Bytes) (mode : Mode) (a : Attempt) (files : Files) (name : Bytes)
      → name ≢ tmp_of (cache_filename hex_sha256 url)
      → (name ≢ cache_filename hex_sha256 url)
        ⊎ IsServed (fetch_list to_lower hex_sha256 url mode a files).0
      → stat name (fetch_list to_lower hex_sha256 url mode a files).1 ≡ stat name files
  unfolding fetch_list
  fetch_list-stat url mode a files name t h =
      fetch_or-stat (cache_filename hex_sha256 url) a
        (fresh_copy to_lower hex_sha256 a.now mode (stat (cache_filename hex_sha256 url) files))
        files name t h
