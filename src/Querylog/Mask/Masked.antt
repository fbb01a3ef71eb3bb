-- ===== src/Querylog/Mask/Masked.antt =====
-- internal/querylog/logger.go: what MaskClientIP lets through of an address.
use s_hole.Prelude.{
  ℕ, zero, suc, ◌+◌, false, [], ◌∷◌, ◌++◌, ◌≡◌, ◌≢◌, ◌⊎◌, refl, sym, ap, ◌∙◌, inl, inr, Option,
  none, some, arith, Bytes, codes, text_eq, text_eq_iff, length, take, drop, Bool-cases,
}
use s_hole.Querylog.Mask.{
  Net, v4_prefix, to4, clear, mask, mask_parsed, mask_subnet, mask_client_ip,
}

clear-length : (a b : Bytes) → length a ≡ length b → clear a ≡ clear b
unfolding clear
clear-length [] [] h = refl
clear-length [] (y ∷ b) h = absurd (omega (arith, h))
clear-length (x ∷ a) [] h = absurd (omega (arith, h))
clear-length (x ∷ a) (y ∷ b) h = ap (λ z. 0 ∷ z) (clear-length a b (omega (arith, h)))

length-drop-agree :
    (n : ℕ) (a b : Bytes) → length a ≡ length b → length (drop n a) ≡ length (drop n b)
length-drop-agree zero a b h = h
length-drop-agree (suc n) [] [] h = refl
length-drop-agree (suc n) [] (y ∷ b) h = absurd (omega (arith, h))
length-drop-agree (suc n) (x ∷ a) [] h = absurd (omega (arith, h))
length-drop-agree (suc n) (x ∷ a) (y ∷ b) h = length-drop-agree n a b (omega (arith, h))

mask-agree : (n : ℕ) (a b : Bytes) → length a ≡ length b → take n a ≡ take n b → mask n a ≡ mask n b
unfolding mask
mask-agree n a b h t =
    rw t (ap (λ z. take n b ++ z) (clear-length (drop n a) (drop n b) (length-drop-agree n a b h)))

-- The bytes of a parsed address that a subnet keeps: three of IPv4, eight of IPv6.
abbrev pub network_of : Bytes → Option Bytes → ℕ × Bytes
network_of ip (some v4) = (4, take 3 v4)
network_of ip none = (16, take 8 ip)

module _ (net : Net) where
  -- Two addresses of one network: both IPv4 with the same /24, or both IPv6 with the same /64.
  abbrev pub SameNetwork : Bytes → Bytes → Type 0
  SameNetwork a b =
      (length a ≡ 16) × (length b ≡ 16) × (network_of a (to4 a) ≡ network_of b (to4 b))

  mask_parsed-agree :
      (a b : Bytes) (v w : Option Bytes)
      → length a ≡ length b
      → ((x y : Bytes) → v ≡ some x → w ≡ some y → length x ≡ length y)
      → network_of a v ≡ network_of b w
      → mask_parsed net a v ≡ mask_parsed net b w
  unfolding mask_parsed
  mask_parsed-agree a b none none h k e = ap net.ip_string (mask-agree 8 a b h (ap (λ p. p.1) e))
  mask_parsed-agree a b (some v) (some w) h k e =
      ap net.ip_string (mask-agree 3 v w (k v w refl refl) (ap (λ p. p.1) e))
  mask_parsed-agree a b none (some w) h k e = absurd (omega (arith, ap (λ p. p.0) e))
  mask_parsed-agree a b (some v) none h k e = absurd (omega (arith, ap (λ p. p.0) e))

  length-drop : (n m : ℕ) (xs : Bytes) → length xs ≡ n + m → length (drop n xs) ≡ m
  length-drop zero m xs h = omega (arith, h)
  length-drop (suc n) m [] h = absurd (omega (arith, h))
  length-drop (suc n) m (x ∷ xs) h = length-drop n m xs (omega (arith, h))

  to4-cases : (a : Bytes) → length a ≡ 16 → (to4 a ≡ some (drop 12 a)) ⊎ (to4 a ≡ none)
  unfolding to4
  to4-cases a h = elim (Bool-cases (text_eq (take 12 a) v4_prefix)) [
    | inl four ↦ inl (rw (h, four) refl)
    | inr six ↦ inr (rw (h, six) refl)
  ]

  to4-length : (a v : Bytes) → length a ≡ 16 → to4 a ≡ some v → length v ≡ 4
  to4-length a v h e = elim (to4-cases a h) [
    | inl four ↦ ap length (same (sym e ∙ four)) ∙ length-drop 12 4 a (omega (arith, h))
    | inr six ↦ absurd (wrong (sym e ∙ six))
  ]
    where
      same : {x y : Bytes} → some x ≡ some y → x ≡ y
      same p = cc

      wrong : {x : Bytes} → some x ≢ none
      wrong p = cc

  mask_subnet-agree :
      (a b : Option Bytes) (x y : Bytes)
      → a ≡ some x
      → b ≡ some y
      → SameNetwork x y
      → mask_subnet net a ≡ mask_subnet net b
  unfolding mask_subnet
  mask_subnet-agree a b x y p q (i, j, e) =
      ap (mask_subnet net) p
      ∙ mask_parsed-agree x y (to4 x) (to4 y) (i ∙ sym j)
          (λ v w g h. to4-length x v i g ∙ sym (to4-length y w j h)) e
      ∙ sym (ap (mask_subnet net) q)

  -- In every mode but full, two clients of one network are recorded alike, where a network is an
  -- IPv4 /24 or an IPv6 /64: no further byte of the address gets into a record. In a mode that is
  -- neither full nor subnet nothing of the address does.
  pub mask_client_ip-agree :
      (ip jp mode x y : Bytes)
      → net.parse_ip ip ≡ some x
      → net.parse_ip jp ≡ some y
      → SameNetwork x y
      → mode ≢ codes "full"
      → (mask_client_ip net ip mode ≡ mask_client_ip net jp mode)
        × (mode ≢ codes "subnet" → mask_client_ip net ip mode ≡ [])
  unfolding mask_client_ip
  mask_client_ip-agree ip jp mode x y p q same full =
      elim (Bool-cases (text_eq mode (codes "subnet"))) [
        | inl subnet ↦
            rw (not_full, subnet)
              (
                mask_subnet-agree (net.parse_ip ip) (net.parse_ip jp) x y p q same,
                λ h. absurd (h ((text_eq_iff mode (codes "subnet")).0 subnet)),
              )
        | inr other ↦ rw (not_full, other) (refl, λ h. refl)
      ]
    where
      not_full : text_eq mode (codes "full") ≡ false
      not_full = ground (arith, full, text_eq_iff mode (codes "full"))
