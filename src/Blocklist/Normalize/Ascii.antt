-- ===== src/Blocklist/Normalize/Ascii.antt =====
-- internal/blocklist/store.go, normalize: what it forgets of a name.
use s_hole.Prelude.{
  ℕ, ◌<◌, Bool, true, false, ◌||◌, [], ◌∷◌, ◌++◌, map, ◌≡◌, refl, ap, inl, inr, some, arith, Bytes,
  All, any, ◌==◌, Bool-cases,
}
use s_hole.Blocklist.Normalize.{
  ends_in, drop_last, strip_dot, is_upper, scan_case, lower_byte, normalize_case, normalize,
}

abbrev pub IsAscii : Bytes → Type 0
IsAscii = All (λ c. c < 0x80)

drop_last-IsAscii : (d : Bytes) → IsAscii d → IsAscii (drop_last d)
unfolding drop_last
drop_last-IsAscii [] h = tt
drop_last-IsAscii (x ∷ []) h = tt
drop_last-IsAscii (x ∷ y ∷ s) h = (h.0, drop_last-IsAscii (y ∷ s) h.1)

strip_dot-IsAscii : (d : Bytes) → IsAscii d → IsAscii (strip_dot d)
unfolding strip_dot
strip_dot-IsAscii d h = elim (Bool-cases (ends_in b'.' d)) [
  | inl dot ↦ rw dot (drop_last-IsAscii d h)
  | inr bare ↦ rw bare h
]

scan_case-some : (d : Bytes) (b : Bool) → IsAscii d → scan_case d b ≡ some (b || any is_upper d)
unfolding scan_case
scan_case-some [] b h = ground arith
scan_case-some (c ∷ d) b h = ground (arith, scan_case-some d (b || is_upper c) h.1)

map-lower_byte_none : (d : Bytes) → any is_upper d ≡ false → map lower_byte d ≡ d
unfolding lower_byte
map-lower_byte_none [] h = refl
map-lower_byte_none (c ∷ d) h = ground (arith, map-lower_byte_none d)

normalize_case-map :
    (to_lower : Bytes → Bytes) (d : Bytes)
    → IsAscii d
    → normalize_case to_lower d ≡ map lower_byte d
unfolding normalize_case
normalize_case-map to_lower d h = ground (arith, scan_case-some d false h, map-lower_byte_none d)

lower_byte-dot : (c : ℕ) → (lower_byte c == b'.') ≡ (c == b'.')
unfolding lower_byte is_upper
lower_byte-dot c = ground arith

ends_in-map : (d : Bytes) → ends_in b'.' (map lower_byte d) ≡ ends_in b'.' d
unfolding ends_in
ends_in-map [] = refl
ends_in-map (x ∷ []) = lower_byte-dot x
ends_in-map (x ∷ y ∷ s) = ends_in-map (y ∷ s)

drop_last-map : (d : Bytes) → drop_last (map lower_byte d) ≡ map lower_byte (drop_last d)
unfolding drop_last
drop_last-map [] = refl
drop_last-map (x ∷ []) = refl
drop_last-map (x ∷ y ∷ s) = ap (λ r. lower_byte x ∷ r) (drop_last-map (y ∷ s))

strip_dot-map : (d : Bytes) → strip_dot (map lower_byte d) ≡ map lower_byte (strip_dot d)
unfolding strip_dot
strip_dot-map d = ground (arith, ends_in-map d, drop_last-map d)

ends_in-append : (d : Bytes) (c : ℕ) → ends_in c (d ++ c ∷ []) ≡ true
unfolding ends_in
ends_in-append [] c = ground arith
ends_in-append (x ∷ []) c = ground arith
ends_in-append (x ∷ y ∷ s) c = ends_in-append (y ∷ s) c

drop_last-append : (d : Bytes) (c : ℕ) → drop_last (d ++ c ∷ []) ≡ d
unfolding drop_last
drop_last-append [] c = refl
drop_last-append (x ∷ []) c = refl
drop_last-append (x ∷ y ∷ s) c = ap (λ r. x ∷ r) (drop_last-append (y ∷ s) c)

module _ (to_lower : Bytes → Bytes) where
  -- An ASCII name is normalized to its lowercase form without one final dot; strings.ToLower is not
  -- called for it.
  pub normalize-ascii :
      (d : Bytes) → IsAscii d → normalize to_lower d ≡ map lower_byte (strip_dot d)
  unfolding normalize
  normalize-ascii d h = normalize_case-map to_lower (strip_dot d) (strip_dot-IsAscii d h)

  -- A final dot makes no difference to a name that has none, whatever its bytes are.
  pub normalize-final_dot :
      (d : Bytes)
      → ends_in b'.' d ≡ false
      → normalize to_lower (d ++ b'.' ∷ []) ≡ normalize to_lower d
  unfolding normalize strip_dot
  normalize-final_dot d h = ground (arith, ends_in-append d b'.', drop_last-append d b'.')

  -- Two ASCII names that differ in the case of their letters only are normalized alike.
  pub normalize-case_fold :
      (d e : Bytes)
      → IsAscii d
      → IsAscii e
      → map lower_byte d ≡ map lower_byte e
      → normalize to_lower d ≡ normalize to_lower e
  normalize-case_fold d e hd he same =
      cc (normalize-ascii d hd, normalize-ascii e he, strip_dot-map d, strip_dot-map e)
