-- ===== src/Blocklist/Loader/Files/Purge.antt =====
-- internal/blocklist/loader.go: what PurgeCache removes.
use s_hole.Prelude.{
  inl, inr, ℕ, suc, ◌+◌, Bool, true, false, ◌&&◌, [], ◌∷◌, ◌≡◌, ◌≢◌, refl, sym, ap, ◌∙◌, Option,
  none, some, arith, Bytes, text_eq, text_eq_iff, length, Bool-cases,
}
use s_hole.Blocklist.Loader.Files.{
  CacheFile, Files, stat, glob_match, is_cache_name, purge_step, purge_cache,
}

-- The files that purge_cache is to remove.
abbrev pub is_purged : Bytes → Bool
is_purged name = glob_match name && is_cache_name name

purge_cache-count :
    (files : Files) → length (purge_cache files).0 + (purge_cache files).1 ≡ length files
unfolding purge_cache purge_step
purge_cache-count [] = refl
purge_cache-count ((name, file) ∷ files) = elim (Bool-cases (is_purged name)) [
  | inl hit ↦ rw hit (step file.remove_error (purge_cache files) (purge_cache-count files))
  | inr miss ↦ rw miss (omega (arith, purge_cache-count files))
]
  where
    step :
        (e : Option Bytes) (p : Files × ℕ × Option Bytes)
        → length p.0 + p.1 ≡ length files
        → length (purge_step (name, file) e p).0 + (purge_step (name, file) e p).1
          ≡ suc (length files)
    step none (rest, removed, first_err) h = omega (arith, h)
    step (some e) (rest, removed, first_err) h = omega (arith, h)

-- The entries that are told apart by their names.
is_purged-other : (name key : Bytes) → is_purged name ≢ is_purged key → text_eq name key ≡ false
is_purged-other name key h = elim (Bool-cases (text_eq name key)) [
  | inl same ↦ absurd (h (ap is_purged ((text_eq_iff name key).0 same)))
  | inr other ↦ other
]

purge_step-stat :
    (name key : Bytes) (file : CacheFile) (e : Option Bytes) (p : Files × ℕ × Option Bytes)
    → text_eq name key ≡ false
    → stat name (purge_step (key, file) e p).0 ≡ stat name p.0
unfolding purge_step stat
purge_step-stat name key file none (rest, removed, first_err) h = refl
purge_step-stat name key file (some e) (rest, removed, first_err) h = rw h refl

purge_step-none :
    (entry : Bytes × CacheFile) (e : Option Bytes) (p : Files × ℕ × Option Bytes)
    → (purge_step entry e p).2 ≡ none
    → (p.2 ≡ none) × ((purge_step entry e p).0 ≡ p.0)
unfolding purge_step
purge_step-none entry none (rest, removed, first_err) h = (h, refl)
purge_step-none entry (some e) (rest, removed, first_err) h = cc

purge_cache-kept :
    (files : Files) (name : Bytes)
    → is_purged name ≡ false
    → stat name (purge_cache files).0 ≡ stat name files
unfolding purge_cache stat
purge_cache-kept [] name h = refl
purge_cache-kept ((key, file) ∷ files) name h = elim (Bool-cases (is_purged key)) [
  | inl hit ↦
      let other = is_purged-other name key (λ e. ground (arith, e, h, hit)) in
      rw (hit, other)
        (purge_step-stat name key file file.remove_error (purge_cache files) other
          ∙ purge_cache-kept files name h)
  | inr miss ↦ rw (miss, purge_cache-kept files name h) refl
]

purge_cache-gone :
    (files : Files) (name : Bytes)
    → is_purged name ≡ true
    → (purge_cache files).2 ≡ none
    → stat name (purge_cache files).0 ≡ none
unfolding purge_cache stat
purge_cache-gone [] name h e = refl
purge_cache-gone ((key, file) ∷ files) name h e = elim (Bool-cases (is_purged key)) [
  | inl hit ↦
      let (clean, same) =
        purge_step-none (key, file) file.remove_error (purge_cache files) (sym (step_of hit) ∙ e) in
      rw hit (ap (stat name) same ∙ purge_cache-gone files name h clean)
  | inr miss ↦
      rw (miss, is_purged-other name key (λ q. ground (arith, q, h, miss)))
        (purge_cache-gone files name h (sym (miss_of miss) ∙ e))
]
  where
    step_of :
        is_purged key ≡ true
        → (purge_cache ((key, file) ∷ files)).2
          ≡ (purge_step (key, file) file.remove_error (purge_cache files)).2
    step_of hit = rw hit refl

    miss_of : is_purged key ≡ false → (purge_cache ((key, file) ∷ files)).2 ≡ (purge_cache files).2
    miss_of miss = rw miss refl

-- After a purge every file whose name is not that of a cache file is still there, and when no
-- removal failed no cache file is; the number returned is that of the files that went.
pub purge_cache-stat :
    (files : Files) (name : Bytes)
    → (is_purged name ≡ false → stat name (purge_cache files).0 ≡ stat name files)
      × (is_purged name ≡ true
          → (purge_cache files).2 ≡ none
          → stat name (purge_cache files).0 ≡ none)
      × (length (purge_cache files).0 + (purge_cache files).1 ≡ length files)
purge_cache-stat files name =
    (purge_cache-kept files name, purge_cache-gone files name, purge_cache-count files)
