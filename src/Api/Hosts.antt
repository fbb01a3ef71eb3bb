-- ===== src/Api/Hosts.antt =====
-- internal/api/security.go: the host that hostAllowed tests, as a part of the Host header.
use s_hole.Prelude.{
  ℕ, true, false, ◌≡◌, ◌≢◌, ◌⊎◌, inl, inr, refl, ap, ◌∙◌, arith, [], ◌∷◌, ◌++◌, Option, none, some,
  Bytes, All, Bool-cases, Option-cases,
}
use mathlib.Core.Path.{subst}
use s_hole.Blocklist.Normalize.{ends_in, strip_dot}
use s_hole.Blocklist.Loader.Domains.Labels.{drop_last-dot}
use s_hole.Api.Security.{is_bracket, trim_left, put_front, trim_right, trim, bare_host}

-- One of the two bytes '[' and ']'.
abbrev pub IsBracket : ℕ → Type 0
IsBracket c = (c ≡ b'[') ⊎ (c ≡ b']')

-- `inner` is `s` without the brackets at its two ends.
pub record IsTrimmed (s inner : Bytes) : Type 0 where
  pub before : Bytes
  pub after : Bytes
  pub whole : s ≡ before ++ (inner ++ after)
  pub brackets_before : All IsBracket before
  pub brackets_after : All IsBracket after
  pub first : (c : ℕ) (r : Bytes) → inner ≡ c ∷ r → ¬ IsBracket c
  pub last : (c : ℕ) (r : Bytes) → inner ≡ r ++ c ∷ [] → ¬ IsBracket c

-- `host` is `inner` without one final dot, if it has one.
abbrev pub IsUndotted : Bytes → Bytes → Type 0
IsUndotted inner host =
    (inner ≡ host ++ b'.' ∷ []) ⊎ ((inner ≡ host) × ((r : Bytes) → inner ≢ r ++ b'.' ∷ []))

-- The part of the Host header before the port, or all of it when there is no port to split off.
abbrev pub named : Option (Bytes × Bytes) → Bytes → Bytes
named none host_header = host_header
named (some (host, port)) host_header = host

-- The part of the Host header that is tested: without port, outer brackets and one final dot.
abbrev pub IsBareHost : (Bytes → Option (Bytes × Bytes)) → Bytes → Bytes → Type 0
IsBareHost split_host_port host_header host =
    (inner : Bytes) × IsTrimmed (named (split_host_port host_header) host_header) inner
    × IsUndotted inner host

is_bracket-IsBracket : (c : ℕ) → is_bracket c ≡ true → IsBracket c
unfolding is_bracket
is_bracket-IsBracket c h = ground (arith, h)

is_bracket-other : (c : ℕ) → is_bracket c ≡ false → ¬ IsBracket c
unfolding is_bracket
is_bracket-other c h b = ground (arith, h, b)

other_head : (c d : ℕ) (s r : Bytes) → is_bracket c ≡ false → c ∷ s ≡ d ∷ r → ¬ IsBracket d
other_head c d s r h e = subst (λ x. ¬ IsBracket x) (ground (arith, e)) (is_bracket-other c h)

-- What the loop from the left takes off, and what that from the right does.
abbrev IsLeft : Bytes → Bytes → Type 0
IsLeft s t =
    (before : Bytes) × (s ≡ before ++ t)
    × All IsBracket before
    × ((c : ℕ) (r : Bytes) → t ≡ c ∷ r → ¬ IsBracket c)

abbrev IsRight : Bytes → Bytes → Type 0
IsRight s t =
    (after : Bytes) × (s ≡ t ++ after)
    × All IsBracket after
    × ((c : ℕ) (r : Bytes) → t ≡ r ++ c ∷ [] → ¬ IsBracket c)

trim_left-IsLeft : (s : Bytes) → IsLeft s (trim_left s)
unfolding trim_left
trim_left-IsLeft [] = ([], refl, tt, λ c r e. cc)
trim_left-IsLeft (c ∷ s) = elim (Bool-cases (is_bracket c)) [
  | inl bracket ↦
      let (before, whole, all, first) = trim_left-IsLeft s in
      rw bracket (c ∷ before, ap (λ z. c ∷ z) whole, (is_bracket-IsBracket c bracket, all), first)
  | inr other ↦ rw other ([], refl, tt, λ d r e. other_head c d s r other e)
]

nil-snoc : (c : ℕ) (r : Bytes) → [] ≢ r ++ c ∷ []
nil-snoc c [] e = cc
nil-snoc c (d ∷ r) e = cc

one-snoc : (c d : ℕ) (r : Bytes) → is_bracket c ≡ false → c ∷ [] ≡ r ++ d ∷ [] → ¬ IsBracket d
one-snoc c d [] h e = other_head c d [] [] h e
one-snoc c d (x ∷ r) h e = absurd (nil-snoc d r (ground (arith, e)))

put_front-IsRight : (c : ℕ) (s t : Bytes) → IsRight s t → IsRight (c ∷ s) (put_front c t)
unfolding put_front
put_front-IsRight c s [] (after, whole, all, last) = elim (Bool-cases (is_bracket c)) [
  | inl bracket ↦ rw bracket (
    c ∷ after,
    ap (λ z. c ∷ z) whole,
    (is_bracket-IsBracket c bracket, all),
    λ d r e. absurd (nil-snoc d r e),
  )
  | inr other ↦ rw other (after, ap (λ z. c ∷ z) whole, all, λ d r e. one-snoc c d r other e)
]
put_front-IsRight c s (d ∷ t) (after, whole, all, last) =
    (after, ap (λ z. c ∷ z) whole, all, λ x r e. longer x r e)
  where
    longer : (x : ℕ) (r : Bytes) → c ∷ d ∷ t ≡ r ++ x ∷ [] → ¬ IsBracket x
    longer x [] e = absurd (ground (arith, e))
    longer x (y ∷ r) e = last x r (ground (arith, e))

trim_right-IsRight : (s : Bytes) → IsRight s (trim_right s)
unfolding trim_right
trim_right-IsRight [] = ([], refl, tt, λ c r e. absurd (nil-snoc c r e))
trim_right-IsRight (c ∷ s) = put_front-IsRight c s (trim_right s) (trim_right-IsRight s)

trim-IsTrimmed : (s : Bytes) → IsTrimmed s (trim s)
unfolding trim
trim-IsTrimmed s =
    let (before, left, all_before, first) = trim_left-IsLeft s in
    let (after, right, all_after, last) = trim_right-IsRight (trim_left s) in
    record {
      before = before;
      after = after;
      whole = left ∙ ap (λ z. before ++ z) right;
      brackets_before = all_before;
      brackets_after = all_after;
      first = λ c r e. first c (r ++ after) (right ∙ ap (λ z. z ++ after) e);
      last = last;
    }

ends_in-snoc : (c : ℕ) (r : Bytes) → ends_in c (r ++ c ∷ []) ≡ true
unfolding ends_in
ends_in-snoc c [] = ground arith
ends_in-snoc c (d ∷ []) = ends_in-snoc c []
ends_in-snoc c (d ∷ x ∷ r) = ends_in-snoc c (x ∷ r)

strip_dot-plain : (s r : Bytes) → ends_in b'.' s ≡ false → s ≢ r ++ b'.' ∷ []
strip_dot-plain s r h e = ground (arith, h, ap (ends_in b'.') e, ends_in-snoc b'.' r)

strip_dot-IsUndotted : (s : Bytes) → IsUndotted s (strip_dot s)
unfolding strip_dot
strip_dot-IsUndotted s = elim (Bool-cases (ends_in b'.' s)) [
  | inl dot ↦ rw dot (inl (drop_last-dot s dot))
  | inr plain ↦ rw plain (inr (refl, λ r. strip_dot-plain s r plain))
]

pub bare_host-IsBareHost :
    (split_host_port : Bytes → Option (Bytes × Bytes)) (host_header : Bytes)
    → IsBareHost split_host_port host_header (bare_host split_host_port host_header)
unfolding bare_host
bare_host-IsBareHost split_host_port host_header =
    elim (Option-cases (split_host_port host_header)) [
      | inl whole ↦ rw (whole, bare_host) (trimmed host_header)
      | inr (parts, split) ↦ rw (split, bare_host) (trimmed parts.0)
    ]
  where
    trimmed :
        (s : Bytes) → (inner : Bytes) × IsTrimmed s inner × IsUndotted inner (strip_dot (trim s))
    trimmed s = (trim s, trim-IsTrimmed s, strip_dot-IsUndotted (trim s))
