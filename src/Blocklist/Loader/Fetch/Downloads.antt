-- ===== src/Blocklist/Loader/Fetch/Downloads.antt =====
-- internal/blocklist/loader.go: what a successful download has read and stored.
use s_hole.Prelude.{
  ◌<◌, ◌∷◌, [], suc, zero, take, leb, inl, inr, ℕ, ◌≤◌, Bool, true, false, List, ◌≡◌, refl, sym, ap,
  ◌∙◌, Option, none, some, arith, Bytes, length, ltb, ◌==◌, ==_iff, if◌then◌else◌, Bool-cases,
}
use mathlib.Core.Path.{subst}
use s_hole.Blocklist.Loader.Hosts.{Reader, parse_hosts_format}
use s_hole.Blocklist.Loader.Files.{CacheFile, Files, stat, write, cache_filename, tmp_of}
use s_hole.Blocklist.Loader.Files.Stat.{stat-write-same, stat-rename-same}
use s_hole.Blocklist.Loader.Fetch.{
  Mode, from_download, FetchError, Loaded, Result, failed, loaded, Response, refused, no_response,
  response, Attempt, is_none, first_error, fresh_copy, keep_file, finish, tmp_file, store_body,
  receive, fetch_or, fetch_list, limit_reader, tee_reader, max_body_bytes, http_status,
}
use s_hole.Blocklist.Loader.Fetch.Copies.{IsServed}
use s_hole.Blocklist.Loader.Fetch.Origins.{
  parse-no_failure, first_error-none, tee_reader-none, IsServed-stale, IsCopy, IsCopy-fresh,
}

-- All bytes of a body, without the error that may follow them.
abbrev pub all_of : Reader → Reader
all_of body = record { content = body.content; failure = none }

take_all {ℓ} : {A : Type ℓ} → (n : ℕ) (xs : List A) → length xs ≤ n → take n xs ≡ xs
take_all zero [] h = refl
take_all zero (x ∷ xs) h = absurd (omega arith)
take_all (suc n) [] h = refl
take_all (suc n) (x ∷ xs) h = ap (λ ys. x ∷ ys) (take_all n xs (omega arith))

limit_reader-short :
    (body : Reader) → length body.content < max_body_bytes → limit_reader body ≡ body
unfolding limit_reader
limit_reader-short body h = elim (Bool-cases (leb max_body_bytes (length body.content))) [
  | inl full ↦ absurd (ground (arith, h, full))
  | inr short ↦ rw short refl
]

-- Within the cap, a limited reader that ends without an error has all bytes of the body.
limit_reader-all_of :
    (body : Reader)
    → length body.content ≤ max_body_bytes
    → (limit_reader body).failure ≡ none
    → limit_reader body ≡ all_of body
unfolding limit_reader
limit_reader-all_of body size clean = elim (Bool-cases (leb max_body_bytes (length body.content))) [
  | inl full ↦
      rw full (
        ap (λ c. record { content = c; failure = none })
          (take_all max_body_bytes body.content size))
  | inr short ↦
      rw short
        (ap (λ e. record { content = body.content; failure = e }) (ground (arith, clean, short)))
]

module _ (to_lower hex_sha256 : Bytes → Bytes) where
  module _ (path : Bytes) (a : Attempt) where
    -- What the code has checked of a download, over the limited reader.
    abbrev IsLimited : Loaded → Files → Type 0
    IsLimited l after =
        (body : Reader) × (a.answer ≡ response 200 body)
        × (length body.content ≤ max_body_bytes)
        × (parse_hosts_format to_lower (limit_reader body) ≡ (l.domains, l.skipped, none))
        × (l.snapshot ≡ a.now)
        × (a.create_error ≡ none
            → a.rename_error ≡ none
            → stat path after ≡ some (tmp_file to_lower hex_sha256 path a (limit_reader body)))

    -- What a download that succeeded says: the answer was 200 with a body of at most 256 MiB, which
    -- did not break before its 256 MiB; its domains and skipped lines are those of all its bytes,
    -- and these are what the cache file holds, if it could be written.
    abbrev pub IsDownload : Loaded → Files → Type 0
    IsDownload l after =
        (body : Reader) × (a.answer ≡ response 200 body)
        × (length body.content ≤ max_body_bytes)
        × (length body.content < max_body_bytes → body.failure ≡ none)
        × (parse_hosts_format to_lower (all_of body) ≡ (l.domains, l.skipped, none))
        × (l.snapshot ≡ a.now)
        × (a.create_error ≡ none
            → a.rename_error ≡ none
            → stat path after ≡ some (tmp_file to_lower hex_sha256 path a (all_of body)))

    abbrev Downloads : Result × Files → Type 0
    Downloads (failed e, after) = Unit
    Downloads (loaded l, after) = l.from ≡ from_download → IsLimited l after

    Downloads-served : (r : Result) (after : Files) → IsServed r → Downloads (r, after)
    Downloads-served (failed e) after h = tt
    Downloads-served (loaded l) after h = λ d. absurd (h d)

    keep_file-stat :
        (e : Option Bytes) (file : CacheFile) (files : Files)
        → e ≡ none
        → stat (tmp_of path) files ≡ some file
        → stat path (keep_file to_lower hex_sha256 path a e files) ≡ some file
    unfolding keep_file
    keep_file-stat none file files h f = stat-rename-same (tmp_of path) path file files f
    keep_file-stat (some e) file files h f = cc

    is_none-true {ℓ} : {A : Type ℓ} (x : Option A) → x ≡ none → is_none x ≡ true
    is_none-true x h = rw h refl

    -- The variables of fetchList behind the reading of the body.
    finish-Downloads :
        (body : Reader) (e : Option FetchError) (cut : Bool) (ds : List Bytes) (n : ℕ)
        (files : Files)
        → a.answer ≡ response 200 body
        → (cut ≡ false → length body.content ≤ max_body_bytes)
        → (e ≡ none → parse_hosts_format to_lower (limit_reader body) ≡ (ds, n, none))
        → (e ≡ none
            → a.create_error ≡ none
            → stat (tmp_of path) files
              ≡ some (tmp_file to_lower hex_sha256 path a (limit_reader body)))
        → Downloads (finish to_lower hex_sha256 path a e cut (is_none a.create_error) ds n files)
    unfolding finish
    finish-Downloads body (some e) cut ds n files h c p t =
        Downloads-served _ _ (IsServed-stale to_lower hex_sha256 _ _)
    finish-Downloads body none true ds n files h c p t =
        Downloads-served _ _ (IsServed-stale to_lower hex_sha256 _ _)
    finish-Downloads body none false ds n files h c p t = λ d. (
      body,
      h,
      c refl,
      p refl,
      refl,
      λ create ren.
          rw (is_none-true a.create_error create)
            (keep_file-stat a.rename_error _ files ren (t refl create)),
    )

    started-stat :
        (created : Bool) (file : CacheFile) (files : Files)
        → created ≡ true
        → stat (tmp_of path) (if created then write (tmp_of path) file files else files) ≡ some file
    started-stat true file files h = stat-write-same (tmp_of path) file files
    started-stat false file files h = cc

    abbrev read_of : Bool → Reader → Reader
    read_of created limited = if created then tee_reader a.write_error limited else limited

    read_of-none :
        (created : Bool) (limited : Reader)
        → (parse_hosts_format to_lower (read_of created limited)).2 ≡ none
        → read_of created limited ≡ limited
    read_of-none true limited h = tee_reader-none to_lower a.write_error limited h
    read_of-none false limited h = refl

    store_body-Downloads :
        (body : Reader) (files : Files)
        → a.answer ≡ response 200 body
        → Downloads (store_body to_lower hex_sha256 path a (is_none a.create_error) body files)
    unfolding store_body
    store_body-Downloads body files h =
        let created = is_none a.create_error in
        let read = read_of created (limit_reader body) in
        let parsed = parse_hosts_format to_lower read in
        finish-Downloads body (first_error parsed.2 created a.close_error)
          (ltb max_body_bytes (length body.content)) parsed.0 parsed.1
          (if created
            then write (tmp_of path) (tmp_file to_lower hex_sha256 path a read) files
            else files)
          h (λ c. ground (arith, c))
          (λ e.
            let clean = first_error-none parsed.2 created a.close_error e in
            ap (parse_hosts_format to_lower) (sym (read_of-none created (limit_reader body) clean))
            ∙ ap (λ z. (parsed.0, parsed.1, z)) clean)
          (λ e create.
            let clean = first_error-none parsed.2 created a.close_error e in
            started-stat created (tmp_file to_lower hex_sha256 path a read) files
              (is_none-true a.create_error create)
            ∙ ap (λ r. some (tmp_file to_lower hex_sha256 path a r))
                (read_of-none created (limit_reader body) clean))

    receive-Downloads :
        (answer : Response) (files : Files)
        → a.answer ≡ answer
        → Downloads (receive to_lower hex_sha256 path a answer files)
    unfolding receive
    receive-Downloads (refused e) files h = tt
    receive-Downloads (no_response e) files h =
        Downloads-served _ _ (IsServed-stale to_lower hex_sha256 _ _)
    receive-Downloads (response status body) files h = elim (Bool-cases (status == 200)) [
      | inl good ↦ rw good (
          store_body-Downloads body files
            (h ∙ ap (λ n. response n body) ((==_iff status 200).0 good)))
      | inr bad ↦ rw bad (
          Downloads-served _ files
            (IsServed-stale to_lower hex_sha256 (stat path files) (http_status status)))
    ]

    fetch_or-Downloads :
        (fresh : Option Loaded) (files : Files)
        → IsCopy to_lower hex_sha256 fresh
        → Downloads (fetch_or to_lower hex_sha256 path a fresh files)
    unfolding fetch_or
    fetch_or-Downloads none files h = receive-Downloads a.answer files refl
    fetch_or-Downloads (some copy) files h = Downloads-served (loaded copy) files h

  of_limited :
      (path : Bytes) (a : Attempt) (l : Loaded) (after : Files)
      → IsLimited path a l after
      → IsDownload path a l after
  of_limited path a l after (body, answer, size, parsed, time, stored) =
      let clean = parse-no_failure to_lower (limit_reader body) (ap (λ p. p.2) parsed) in
      let same = limit_reader-all_of body size clean in
      (
        body,
        answer,
        size,
        λ short. ap (λ r. r.failure) (sym (limit_reader-short body short)) ∙ clean,
        ap (parse_hosts_format to_lower) (sym same) ∙ parsed,
        time,
        λ create ren.
            stored create ren ∙ ap (λ r. some (tmp_file to_lower hex_sha256 path a r)) same,
      )

  -- A result that is called a download comes from an answer 200 whose body has at most 256 MiB and,
  -- if it has fewer, was read to its end without an error. Its domains and skipped lines are those of
  -- all the bytes of the body, and when the cache file could be created and renamed it now holds
  -- them all.
  pub fetch_list-IsDownload :
      (url : Bytes) (mode : Mode) (a : Attempt) (files after : Files) (l : Loaded)
      → fetch_list to_lower hex_sha256 url mode a files ≡ (loaded l, after)
      → l.from ≡ from_download
      → IsDownload (cache_filename hex_sha256 url) a l after
  unfolding fetch_list
  fetch_list-IsDownload url mode a files after l h d =
      let path = cache_filename hex_sha256 url in
      of_limited path a l after (
        subst (Downloads path a) h
          (fetch_or-Downloads path a (fresh_copy to_lower hex_sha256 a.now mode (stat path files))
            files (IsCopy-fresh to_lower hex_sha256 a.now mode (stat path files)))
          d)
