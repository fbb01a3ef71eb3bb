-- ===== src/Blocklist/Loader/Files/Stat.antt =====
-- internal/blocklist/loader.go: what the file operations leave to os.Stat.
use s_hole.Prelude.{
  inl, inr, false, [], ◌∷◌, ◌≡◌, ◌≢◌, refl, sym, ap, ◌∙◌, Option, none, some, arith, Bytes, codes,
  text_eq, text_eq_iff, text_eq_refl, length, length-append, Bool-cases,
}
use s_hole.Blocklist.Loader.Files.{CacheFile, Files, stat, remove, write, rename, tmp_of}

text_eq_other : (a b : Bytes) → a ≢ b → text_eq a b ≡ false
text_eq_other a b h = ground (arith, h, text_eq_iff a b)

stat-remove-same : (name : Bytes) (files : Files) → stat name (remove name files) ≡ none
unfolding stat remove
stat-remove-same name [] = refl
stat-remove-same name ((key, file) ∷ files) = elim (Bool-cases (text_eq name key)) [
  | inl here ↦ rw here (stat-remove-same name files)
  | inr other ↦ rw (other, other) (stat-remove-same name files)
]

pub stat-remove :
    (name other : Bytes) (files : Files)
    → name ≢ other
    → stat name (remove other files) ≡ stat name files
unfolding stat remove
stat-remove name other [] h = refl
stat-remove name other ((key, file) ∷ files) h = elim (Bool-cases (text_eq other key)) [
  | inl here ↦
      rw (here, text_eq_other name key (λ e. h (e ∙ sym ((text_eq_iff other key).0 here))))
        (stat-remove name other files h)
  | inr there ↦ rw (there, stat-remove name other files h) refl
]

pub stat-write-same :
    (name : Bytes) (file : CacheFile) (files : Files)
    → stat name (write name file files) ≡ some file
unfolding stat write
stat-write-same name file files = rw (text_eq_refl name) refl

pub stat-write :
    (name other : Bytes) (file : CacheFile) (files : Files)
    → name ≢ other
    → stat name (write other file files) ≡ stat name files
unfolding stat write
stat-write name other file files h =
    rw (text_eq_other name other h) (stat-remove name other files h)

pub tmp_of-other : (path : Bytes) → path ≢ tmp_of path
unfolding tmp_of
tmp_of-other path e = absurd (omega (arith, ap length e, length-append path (codes ".tmp")))

pub stat-rename-same :
    (old new : Bytes) (file : CacheFile) (files : Files)
    → stat old files ≡ some file
    → stat new (rename old new files) ≡ some file
unfolding rename
stat-rename-same old new file files h = rw (h, rename) (stat-write-same new file (remove old files))

pub stat-rename :
    (name old new : Bytes) (files : Files)
    → name ≢ old
    → name ≢ new
    → stat name (rename old new files) ≡ stat name files
unfolding rename
stat-rename name old new files h k = go (stat old files)
  where
    go :
        (found : Option CacheFile)
        → stat name (elim found [ none ↦ files | some file ↦ write new file (remove old files) ])
          ≡ stat name files
    go none = refl
    go (some file) = stat-write name new file (remove old files) k ∙ stat-remove name old files h
