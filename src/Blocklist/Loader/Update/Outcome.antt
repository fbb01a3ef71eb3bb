-- ===== src/Blocklist/Loader/Update/Outcome.antt =====
-- internal/blocklist/loader.go: what Update leaves, when every source failed and when one loaded.
use s_hole.Prelude.{
  ℕ, suc, ◌+◌, true, false, not, ◌&&◌, List, [], ◌∷◌, ◌++◌, map, append-nil, append_assoc, ◌≡◌, ◌≢◌,
  ◌↔◌, refl, sym, ap, ◌∙◌, Option, none, some, arith, Bytes, length, ◌==◌,
}
use s_hole.Prelude.Sets.{member}
use s_hole.Blocklist.Normalize.{normalize}
use s_hole.Blocklist.Store.{SourceStatus, Store, set_sources, replace}
use s_hole.Blocklist.Store.Lookup.{is_blocked, is_allowlisted}
use s_hole.Blocklist.Store.Lookup.Suffixes.{IsUnder}
use s_hole.Blocklist.Store.Lookup.Verdict.{is_allowlisted-any, is_blocked-replace_iff}
use s_hole.Blocklist.Loader.Files.{Files}
use s_hole.Blocklist.Loader.Fetch.{Mode, FetchError, Result, failed, loaded, Attempt, fetch_list}
use s_hole.Blocklist.Loader.Update.{
  status_of, Progress, new_progress, add_result, load_lists, conclude, update,
}

-- What is asked of the results of a run, by themselves.
abbrev pub domains_of : List (Bytes × Result) → List Bytes
domains_of [] = []
domains_of ((url, failed e) ∷ rs) = domains_of rs
domains_of ((url, loaded l) ∷ rs) = l.domains ++ domains_of rs

abbrev pub loaded_count : List (Bytes × Result) → ℕ
loaded_count [] = 0
loaded_count ((url, failed e) ∷ rs) = loaded_count rs
loaded_count ((url, loaded l) ∷ rs) = suc (loaded_count rs)

abbrev pub last_error : Option FetchError → List (Bytes × Result) → Option FetchError
last_error e [] = e
last_error e ((url, failed f) ∷ rs) = last_error (some f) rs
last_error e ((url, loaded l) ∷ rs) = last_error e rs

abbrev pub statuses : List (Bytes × Result) → List SourceStatus
statuses = map (λ (url, r). status_of url r)

abbrev after_results : List (Bytes × Result) → Progress → Progress
after_results rs p = record {
  all = p.all ++ domains_of rs;
  ok = p.ok + loaded_count rs;
  last_err = last_error p.last_err rs;
  sources = p.sources ++ statuses rs;
}

suc_add : (m n : ℕ) → suc m + n ≡ m + suc n
suc_add m n = omega arith

add_result-after :
    (url : Bytes) (r : Result) (rs : List (Bytes × Result)) (p : Progress)
    → after_results rs (add_result url r p) ≡ after_results ((url, r) ∷ rs) p
unfolding add_result
add_result-after url (failed e) rs p =
    rw (append_assoc p.sources (status_of url (failed e) ∷ []) (statuses rs)) refl
add_result-after url (loaded l) rs p =
    rw
      (
        append_assoc p.sources (status_of url (loaded l) ∷ []) (statuses rs),
        append_assoc p.all l.domains (domains_of rs),
        suc_add p.ok (loaded_count rs),
      )
      refl

last_error-some : (rs : List (Bytes × Result)) (e : FetchError) → last_error (some e) rs ≢ none
last_error-some [] e h = cc
last_error-some ((url, failed f) ∷ rs) e h = last_error-some rs f h
last_error-some ((url, loaded l) ∷ rs) e h = last_error-some rs e h

last_error-failed :
    (rs : List (Bytes × Result)) → rs ≢ [] → loaded_count rs ≡ 0 → last_error none rs ≢ none
last_error-failed [] h z e = h refl
last_error-failed ((url, failed f) ∷ rs) h z e = last_error-some rs f e
last_error-failed ((url, loaded l) ∷ rs) h z e = absurd (omega (arith, z))

none_loaded : (k n : ℕ) → k ≡ 0 → (k == 0 && not (suc n == 0)) ≡ true
none_loaded k n h = ground (arith, h)

one_loaded : (k n : ℕ) → k ≢ 0 → (k == 0 && not (n == 0)) ≡ false
one_loaded k n h = ground (arith, h)

module _ (to_lower hex_sha256 : Bytes → Bytes) (mode : Mode) where
  -- The calls of fetchList, each on the files that the one before it left.
  abbrev pub results : List (Bytes × Attempt) → Files → List (Bytes × Result)
  results [] files = []
  results ((url, a) ∷ calls) files =
      let (result, after) = fetch_list to_lower hex_sha256 url mode a files in
      (url, result) ∷ results calls after

  load_lists-results :
      (calls : List (Bytes × Attempt)) (files : Files) (p : Progress)
      → (load_lists to_lower hex_sha256 mode calls files p).0
        ≡ after_results (results calls files) p
  unfolding load_lists
  load_lists-results [] files p =
      rw (append-nil p.all, append-nil p.sources)
        (ap (λ n. record { all = p.all; ok = n; last_err = p.last_err; sources = p.sources })
          (omega arith))
  load_lists-results ((url, a) ∷ calls) files p =
      let (result, after) = fetch_list to_lower hex_sha256 url mode a files in
      load_lists-results calls after (add_result url result p)
      ∙ add_result-after url result (results calls after) p

  conclude-failed :
      (store : Store) (n : ℕ) (p : Progress)
      → p.ok ≡ 0
      → conclude to_lower hex_sha256 mode store (suc n) p
        ≡ (set_sources store p.sources, p.last_err)
  unfolding conclude
  conclude-failed store n p h = rw (none_loaded p.ok n h) refl

  conclude-loaded :
      (store : Store) (n : ℕ) (p : Progress)
      → p.ok ≢ 0
      → conclude to_lower hex_sha256 mode store n p
        ≡ (replace to_lower (set_sources store p.sources) p.all, none)
  unfolding conclude
  conclude-loaded store n p h = rw (one_loaded p.ok n h) refl

  update-conclude :
      (store : Store) (calls : List (Bytes × Attempt)) (files : Files) (s : Store)
      (err : Option FetchError)
      → conclude to_lower hex_sha256 mode store
          (length calls)
          (after_results (results calls files) new_progress)
        ≡ (s, err)
      → ((update to_lower hex_sha256 mode store calls files).0 ≡ s)
        × ((update to_lower hex_sha256 mode store calls files).2 ≡ err)
  unfolding update
  update-conclude store calls files s err h =
      let e =
        ap (conclude to_lower hex_sha256 mode store (length calls))
          (load_lists-results calls files new_progress)
        ∙ h in
      (ap (λ x. x.0) e, ap (λ x. x.1) e)

  -- When there is a list and none could be loaded, the block set and the allowlists stay as they
  -- were, each source shows the status of its result, and the error is that of the last source.
  pub update-all_failed :
      (store : Store) (calls : List (Bytes × Attempt)) (files : Files)
      → calls ≢ []
      → loaded_count (results calls files) ≡ 0
      → ((update to_lower hex_sha256 mode store calls files).0
          ≡ set_sources store (statuses (results calls files)))
        × ((update to_lower hex_sha256 mode store calls files).2
            ≡ last_error none (results calls files))
        × (last_error none (results calls files) ≢ none)
  update-all_failed store [] files h z = absurd (h refl)
  update-all_failed store ((url, a) ∷ calls) files h z =
      let rs = results ((url, a) ∷ calls) files in
      let (same, err) =
        update-conclude store ((url, a) ∷ calls) files (set_sources store (statuses rs))
          (last_error none rs)
          (conclude-failed store (length calls) (after_results rs new_progress)
            (omega (arith, z))) in
      (same, err, last_error-failed rs (λ e. cc) z)

  allowlisted-sources :
      (store : Store) (sources : List SourceStatus) (host : Bytes)
      → is_allowlisted to_lower (set_sources store sources) host
        ≡ is_allowlisted to_lower store host
  unfolding set_sources
  allowlisted-sources store sources host =
      is_allowlisted-any to_lower (set_sources store sources) host
      ∙ sym (is_allowlisted-any to_lower store host)

  -- When one list at least was loaded, there is no error, each source shows the status of its
  -- result, and a name is blocked exactly when it is one of the domains of the loaded lists or lies
  -- under one, and is not allowlisted: what was blocked before has no effect.
  pub update-is_blocked_iff :
      (store : Store) (calls : List (Bytes × Attempt)) (files : Files) (host : Bytes)
      → loaded_count (results calls files) ≢ 0
      → ((update to_lower hex_sha256 mode store calls files).2 ≡ none)
        × ((update to_lower hex_sha256 mode store calls files).0.sources
            ≡ some (statuses (results calls files)))
        × ((is_blocked to_lower (update to_lower hex_sha256 mode store calls files).0 host ≡ true)
            ↔ (((d : Bytes) × (member d (domains_of (results calls files)) ≡ true)
                  × IsUnder (normalize to_lower host) (normalize to_lower d))
                × (is_allowlisted to_lower store host ≡ false)))
  unfolding replace set_sources
  update-is_blocked_iff store calls files host h =
      let rs = results calls files in
      let (same, err) =
        update-conclude store calls files
          (replace to_lower (set_sources store (statuses rs)) (domains_of rs)) none
          (conclude-loaded store (length calls) (after_results rs new_progress)
            (λ e. h (omega (arith, e)))) in
      let shown = set_sources store (statuses rs) in
      let (to, from) = is_blocked-replace_iff to_lower shown (domains_of rs) host in
      (
        err,
        ap (λ s. s.sources) same,
        rw (same, sym (allowlisted-sources store (statuses rs) host)) (to, from),
      )
