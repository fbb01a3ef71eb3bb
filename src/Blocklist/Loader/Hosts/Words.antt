-- ===== src/Blocklist/Loader/Hosts/Words.antt =====
-- internal/blocklist/loader.go: the lines of words that strings.Fields and strings.TrimSpace leave
-- as they are.
use s_hole.Prelude.{
  ◌⊎◌, inl, inr, ℕ, ◌<◌, ◌≤◌, false, [], ◌∷◌, ◌++◌, ◌≡◌, refl, sym, ap, ◌∙◌, append-nil,
  append_assoc, arith, Bytes, All,
}
use s_hole.Blocklist.Normalize.{ends_in}
use s_hole.Blocklist.Loader.Hosts.{
  drop_cr, space_width, trim_left, is_blank, trim_right, trim_space, add_field, fields_loop, fields,
}

-- The bytes of ASCII that are printed, without the space, and with it.
abbrev pub IsGraphic : ℕ → Type 0
IsGraphic c = (33 ≤ c) × (c < 127)

abbrev pub IsPrinted : ℕ → Type 0
IsPrinted c = (32 ≤ c) × (c < 127)

space_width-graphic : (c : ℕ) (s : Bytes) → IsGraphic c → space_width (c ∷ s) ≡ 0
unfolding space_width
space_width-graphic c [] h = ground (arith, h.0, h.1)
space_width-graphic c (a ∷ []) h = ground (arith, h.0, h.1)
space_width-graphic c (a ∷ b ∷ s) h = ground (arith, h.0, h.1)

fields_loop-word :
    (field w s : Bytes)
    → All IsGraphic w
    → fields_loop 0 field (w ++ s) ≡ fields_loop 0 (field ++ w) s
unfolding fields_loop
fields_loop-word field [] s h = ap (λ f. fields_loop 0 f s) (sym (append-nil field))
fields_loop-word field (c ∷ w) s h =
    rw (space_width-graphic c (w ++ s) h.0, fields_loop)
      (fields_loop-word (field ++ c ∷ []) w s h.1
        ∙ ap (λ f. fields_loop 0 f s) (append_assoc field (c ∷ []) w))

pub fields-one : (c : ℕ) (w : Bytes) → All IsGraphic (c ∷ w) → fields (c ∷ w) ≡ (c ∷ w) ∷ []
unfolding fields fields_loop add_field
fields-one c w h =
    ap (λ s. fields_loop 0 [] s) (sym (append-nil (c ∷ w))) ∙ fields_loop-word [] (c ∷ w) [] h

pub fields-two :
    (c : ℕ) (v : Bytes) (d : ℕ) (w : Bytes)
    → All IsGraphic (c ∷ v)
    → All IsGraphic (d ∷ w)
    → fields ((c ∷ v) ++ b' ' ∷ d ∷ w) ≡ (c ∷ v) ∷ (d ∷ w) ∷ []
unfolding fields fields_loop add_field space_width
fields-two c v d w h k =
    fields_loop-word [] (c ∷ v) (b' ' ∷ d ∷ w) h ∙ ap (λ fs. (c ∷ v) ∷ fs) (fields-one d w k)

space_width-printed :
    (c : ℕ) (s : Bytes) → IsPrinted c → (space_width (c ∷ s) ≡ 0) ⊎ (space_width (c ∷ s) ≡ 1)
unfolding space_width
space_width-printed c [] h = ground (arith, h.0, h.1)
space_width-printed c (a ∷ []) h = ground (arith, h.0, h.1)
space_width-printed c (a ∷ b ∷ s) h = ground (arith, h.0, h.1)

-- The last byte, if there is one, is a graphic one.
abbrev pub EndsGraphic : Bytes → Type 0
EndsGraphic [] = Unit
EndsGraphic (c ∷ []) = IsGraphic c
EndsGraphic (c ∷ d ∷ s) = EndsGraphic (d ∷ s)

pub EndsGraphic-word : (w : Bytes) → All IsGraphic w → EndsGraphic w
EndsGraphic-word [] h = tt
EndsGraphic-word (c ∷ []) h = h.0
EndsGraphic-word (c ∷ d ∷ w) h = EndsGraphic-word (d ∷ w) h.1

pub IsPrinted-word : (w : Bytes) → All IsGraphic w → All IsPrinted w
IsPrinted-word [] h = tt
IsPrinted-word (c ∷ w) h = ((omega (arith, h.0.0), h.0.1), IsPrinted-word w h.1)

is_blank-EndsGraphic :
    (c : ℕ) (s : Bytes) → All IsPrinted (c ∷ s) → EndsGraphic (c ∷ s) → is_blank 0 (c ∷ s) ≡ false
unfolding is_blank
is_blank-EndsGraphic c [] p h = rw (space_width-graphic c [] h, is_blank) refl
is_blank-EndsGraphic c (d ∷ s) p h = elim (space_width-printed c (d ∷ s) p.0) [
  | inl none_there ↦ rw (none_there, is_blank) refl
  | inr one ↦ rw (one, is_blank) (is_blank-EndsGraphic d s p.1 h)
]

trim_right-EndsGraphic : (s : Bytes) → All IsPrinted s → EndsGraphic s → trim_right s ≡ s
unfolding trim_right
trim_right-EndsGraphic [] p h = refl
trim_right-EndsGraphic (c ∷ []) p h = rw (is_blank-EndsGraphic c [] p h) refl
trim_right-EndsGraphic (c ∷ d ∷ s) p h =
    rw (is_blank-EndsGraphic c (d ∷ s) p h, trim_right-EndsGraphic (d ∷ s) p.1 h) refl

-- Trimming leaves a printed line that starts and ends with a graphic byte as it is.
pub trim_space-EndsGraphic :
    (c : ℕ) (s : Bytes)
    → IsGraphic c
    → All IsPrinted s
    → EndsGraphic (c ∷ s)
    → trim_space (c ∷ s) ≡ c ∷ s
unfolding trim_space trim_left
trim_space-EndsGraphic c s h p e =
    rw (space_width-graphic c s h, trim_left)
      (trim_right-EndsGraphic (c ∷ s) ((omega (arith, h.0), h.1), p) e)

pub drop_cr-EndsGraphic : (s : Bytes) → EndsGraphic s → drop_cr s ≡ s
unfolding drop_cr ends_in
drop_cr-EndsGraphic s h = rw (go s h) refl
  where
    go : (m : Bytes) → EndsGraphic m → ends_in 13 m ≡ false
    go [] e = refl
    go (c ∷ []) e = ground (arith, e.0)
    go (c ∷ d ∷ m) e = go (d ∷ m) e
