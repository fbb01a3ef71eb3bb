-- ===== src/Blocklist/Loader/Fetch/Origins.antt =====
-- internal/blocklist/loader.go: what a result that is no error says of its read, by where it is from.
use s_hole.Prelude.{
  inl, inr, ℕ, ◌-◌, Bool, true, false, List, [], ◌∷◌, ◌≡◌, ◌≢◌, refl, sym, ap, ◌∙◌, Option, none,
  some, Bytes, length, take, ltb, leb, Bool-cases,
}
use s_hole.Blocklist.Loader.Hosts.{
  ReadError, read_failed, Reader, max_token, lines, scan, parse_hosts_format,
}
use s_hole.Blocklist.Loader.Files.{CacheFile}
use s_hole.Blocklist.Loader.Fetch.{
  Mode, cache_first, download_first, Origin, from_download, from_cache, from_stale_cache,
  FetchError, Loaded, Result, failed, loaded, first_error, parsed_copy, load_opened, load_from_file,
  copy_or, stale_fallback, served, fresh_copy, tee_reader, cache_max_age,
}
use s_hole.Blocklist.Loader.Fetch.Copies.{IsServed}

scan-failure : (ls : List Bytes) (e : ReadError) → (scan ls (some e)).1 ≢ none
unfolding scan
scan-failure [] e h = cc
scan-failure (l ∷ ls) e h = elim (Bool-cases (leb max_token (length l))) [
  | inl long ↦ absurd (long_line long h)
  | inr short ↦ scan-failure ls e (sym (short_line short) ∙ h)
]
  where
    long_line : leb max_token (length l) ≡ true → (scan (l ∷ ls) (some e)).1 ≢ none
    long_line long = rw long (λ q. cc)

    short_line :
        leb max_token (length l) ≡ false → (scan (l ∷ ls) (some e)).1 ≡ (scan ls (some e)).1
    short_line short = rw short refl

scan-no_failure :
    (ls : List Bytes) (failure : Option ReadError) → (scan ls failure).1 ≡ none → failure ≡ none
scan-no_failure ls none h = refl
scan-no_failure ls (some e) h = absurd (scan-failure ls e h)

pub first_error-none :
    (e : Option ReadError) (created : Bool) (close_error : Option Bytes)
    → first_error e created close_error ≡ none
    → e ≡ none
unfolding first_error
first_error-none none created close_error h = refl
first_error-none (some e) created close_error h = cc

module _ (to_lower : Bytes → Bytes) where
  pub parse-no_failure : (r : Reader) → (parse_hosts_format to_lower r).2 ≡ none → r.failure ≡ none
  unfolding parse_hosts_format
  parse-no_failure r h = scan-no_failure (lines r.content) r.failure h

  -- A body that was read without an error was written without one.
  pub tee_reader-none :
      (e : Option (ℕ × Bytes)) (r : Reader)
      → (parse_hosts_format to_lower (tee_reader e r)).2 ≡ none
      → tee_reader e r ≡ r
  unfolding tee_reader
  tee_reader-none none r h = refl
  tee_reader-none (some (n, e)) r h = elim (Bool-cases (ltb n (length r.content))) [
    | inl hit ↦
        absurd
          (wrong (ap (λ x. x.failure) (cut hit)) (parse-no_failure (tee_reader (some (n, e)) r) h))
    | inr miss ↦ rw miss refl
  ]
    where
      cut :
          ltb n (length r.content) ≡ true
          → tee_reader (some (n, e)) r
            ≡ record { content = take n r.content; failure = some (read_failed e) }
      cut hit = rw hit refl

      wrong :
          (tee_reader (some (n, e)) r).failure ≡ some (read_failed e)
          → (tee_reader (some (n, e)) r).failure ≢ none
      wrong p q = cc

module _ (to_lower hex_sha256 : Bytes → Bytes) where
  IsServed-parsed :
      (modified : ℕ) (from : Origin) (p : List Bytes × ℕ × Option ReadError)
      → from ≢ from_download
      → IsServed (parsed_copy to_lower hex_sha256 modified from p)
  unfolding parsed_copy
  IsServed-parsed modified from (ds, n, none) h = h
  IsServed-parsed modified from (ds, n, some e) h = tt

  IsServed-opened :
      (e : Option Bytes) (modified : ℕ) (r : Reader) (from : Origin)
      → from ≢ from_download
      → IsServed (load_opened to_lower hex_sha256 e modified r from)
  unfolding load_opened
  IsServed-opened none modified r from h = IsServed-parsed modified from _ h
  IsServed-opened (some e) modified r from h = tt

  IsServed-copy_or :
      (e : FetchError) (r : Result) → IsServed r → IsServed (copy_or to_lower hex_sha256 e r)
  unfolding copy_or
  IsServed-copy_or e (failed f) h = tt
  IsServed-copy_or e (loaded l) h = h

  pub IsServed-stale :
      (f : Option CacheFile) (e : FetchError) → IsServed (stale_fallback to_lower hex_sha256 f e)
  unfolding stale_fallback load_from_file
  IsServed-stale none e = tt
  IsServed-stale (some file) e =
      IsServed-copy_or e _
        (IsServed-opened file.open_error file.modified file.reader from_stale_cache (λ q. cc))

  abbrev pub IsCopy : Option Loaded → Type 0
  IsCopy none = Unit
  IsCopy (some l) = IsServed (loaded l)

  IsCopy-served : (r : Result) → IsServed r → IsCopy (served to_lower hex_sha256 r)
  unfolding served
  IsCopy-served (failed e) h = tt
  IsCopy-served (loaded l) h = h

  pub IsCopy-fresh :
      (now : ℕ) (mode : Mode) (f : Option CacheFile)
      → IsCopy (fresh_copy to_lower hex_sha256 now mode f)
  unfolding fresh_copy load_from_file
  IsCopy-fresh now download_first f = tt
  IsCopy-fresh now cache_first none = tt
  IsCopy-fresh now cache_first (some file) =
      elim (Bool-cases (ltb (now - file.modified) cache_max_age)) [
        | inl young ↦ rw young (
            IsCopy-served _
              (IsServed-opened file.open_error file.modified file.reader from_cache (λ q. cc)))
        | inr old ↦ rw old tt
      ]
