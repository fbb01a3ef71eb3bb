-- ===== src/Dnsserver/LocalNames/Routes.antt =====
-- internal/dnsserver/localnames.go: what the suffix tests and the classes mean.
use s_hole.Prelude.{
  ℕ, zero, suc, ◌-◌, Bool, true, false, not, ◌||◌, List, [], ◌∷◌, ◌++◌, take, ◌≡◌, ◌≢◌, refl, sym,
  ap, ◌∙◌, ◌↔◌, inl, inr, arith, Bytes, codes, text_eq, text_eq_iff, text_eq_refl, any, leb, ==_iff,
  if◌then◌else◌, length, length-append, drop, Bool-cases,
}
use mathlib.Core.Path.{subst}
use s_hole.Prelude.Sets.{member}
use s_hole.Blocklist.Store.Lookup.Suffixes.{IsUnder}
use s_hole.Prelude.Text.{has_suffix}
use s_hole.Dnsserver.LocalNames.{
  NameClass, public_name, localhost_name, never_resolved, lan_only_name, is_public,
  never_resolved_suffixes, lan_only_suffixes, is_dot_at, under_suffix, suffix_class, lan_upstreams,
}

drop-append : (a b : Bytes) → drop (length a) (a ++ b) ≡ b
drop-append [] b = refl
drop-append (x ∷ a) b = drop-append a b

drop-append_suc : (a : Bytes) (c : ℕ) (b : Bytes) → drop (suc (length a)) (a ++ c ∷ b) ≡ b
drop-append_suc [] c b = refl
drop-append_suc (x ∷ a) c b = drop-append_suc a c b

split_at_dot :
    (k : ℕ) (name : Bytes)
    → is_dot_at (drop k name) ≡ true
    → name ≡ take k name ++ b'.' ∷ drop (suc k) name
unfolding is_dot_at
split_at_dot zero [] h = cc
split_at_dot zero (c ∷ s) h = ap (λ x. x ∷ s) ((==_iff c b'.').0 h)
split_at_dot (suc k) [] h = cc
split_at_dot (suc k) (c ∷ s) h = ap (λ r. c ∷ r) (split_at_dot k s h)

cut_length :
    (labels suffix : Bytes) → length (labels ++ b'.' ∷ suffix) - length suffix ≡ suc (length labels)
cut_length labels suffix = omega (arith, length-append labels (b'.' ∷ suffix))

under_suffix-append : (labels suffix : Bytes) → under_suffix (labels ++ b'.' ∷ suffix) suffix ≡ true
unfolding under_suffix has_suffix is_dot_at
under_suffix-append labels suffix =
    let long : leb (length suffix) (length (labels ++ b'.' ∷ suffix)) ≡ true =
      ground (arith, length-append labels (b'.' ∷ suffix)) in
    let dot : length (labels ++ b'.' ∷ suffix) - length suffix - 1 ≡ length labels =
      omega (arith, cut_length labels suffix) in
    rw
      (
        long,
        dot,
        cut_length labels suffix,
        drop-append_suc labels b'.' suffix,
        drop-append labels (b'.' ∷ suffix),
        text_eq_refl suffix,
      )
      (ground arith)

IsUnder-of_cut :
    (n : ℕ) (name suffix : Bytes)
    → text_eq (drop n name) suffix ≡ true
    → is_dot_at (drop (n - 1) name) ≡ true
    → IsUnder name suffix
IsUnder-of_cut zero name suffix t dot = inl ((text_eq_iff name suffix).0 t)
IsUnder-of_cut (suc k) name suffix t dot = inr (
  take k name,
  split_at_dot k name (subst (λ i. is_dot_at (drop i name) ≡ true) (omega arith) dot)
      ∙ ap (λ r. take k name ++ b'.' ∷ r) ((text_eq_iff (drop (suc k) name) suffix).0 t),
)

parts :
    (name suffix : Bytes)
    → text_eq name suffix ≡ false
    → under_suffix name suffix ≡ true
    → (text_eq (drop (length name - length suffix) name) suffix ≡ true)
      × (is_dot_at (drop (length name - length suffix - 1) name) ≡ true)
unfolding under_suffix has_suffix
parts name suffix other h = ground arith

-- A name passes the suffix test exactly if it is the suffix or ends in a dot and the suffix.
pub under_suffix_iff :
    (name suffix : Bytes) → (under_suffix name suffix ≡ true) ↔ IsUnder name suffix
unfolding under_suffix
under_suffix_iff name suffix = (
  λ h. elim (Bool-cases (text_eq name suffix)) [
    | inl same ↦ inl ((text_eq_iff name suffix).0 same)
    | inr other ↦
        let (t, dot) = parts name suffix other h in
        IsUnder-of_cut (length name - length suffix) name suffix t dot
  ],
  λ u. elim u [
    | inl e ↦ rw (under_suffix, e) (rw (text_eq_refl suffix) refl)
    | inr (labels, e) ↦ rw e (under_suffix-append labels suffix)
  ],
)

-- The suffixes that keep a name on the local network.
abbrev pub kept_suffixes : List Bytes → List Bytes
kept_suffixes local_domains =
    codes "localhost." ∷ (never_resolved_suffixes ++ (lan_only_suffixes ++ local_domains))

any-append :
    {A : Type 0} (p : A → Bool) (xs ys : List A) → any p (xs ++ ys) ≡ (any p xs || any p ys)
any-append p [] ys = refl
any-append p (x ∷ xs) ys = ground (arith, any-append p xs ys)

is_public-if :
    (a b c d : Bool)
    → is_public (
        if a
        then localhost_name
        else if b
        then never_resolved
        else if c
        then lan_only_name
        else if d
        then lan_only_name
        else public_name)
      ≡ not (a || (b || (c || d)))
unfolding is_public
is_public-if true b c d = refl
is_public-if false true c d = refl
is_public-if false false true d = refl
is_public-if false false false true = refl
is_public-if false false false false = refl

suffix_class-any :
    (name : Bytes) (local_domains : List Bytes)
    → is_public (suffix_class name local_domains)
      ≡ not (any (under_suffix name) (kept_suffixes local_domains))
unfolding suffix_class
suffix_class-any name local_domains =
    is_public-if (under_suffix name (codes "localhost."))
      (any (under_suffix name) never_resolved_suffixes) (any (under_suffix name) lan_only_suffixes)
      (any (under_suffix name) local_domains)
    ∙ ap (λ r. not (under_suffix name (codes "localhost.") || r))
        (ap (λ r. any (under_suffix name) never_resolved_suffixes || r)
            (sym (any-append (under_suffix name) lan_only_suffixes local_domains))
          ∙ sym (
              any-append (under_suffix name) never_resolved_suffixes
                (lan_only_suffixes ++ local_domains)))

any_sound :
    (p : Bytes → Bool) (xs : List Bytes)
    → any p xs ≡ true
    → (x : Bytes) × (member x xs ≡ true) × (p x ≡ true)
unfolding member
any_sound p [] h = cc
any_sound p (x ∷ xs) h = elim (Bool-cases (p x)) [
  | inl here ↦ (x, ground (arith, text_eq_refl x), here)
  | inr there ↦
      let (y, listed, holds) = any_sound p xs (ground arith) in (y, ground (arith, listed), holds)
]

any_complete :
    (p : Bytes → Bool) (xs : List Bytes) (x : Bytes)
    → member x xs ≡ true
    → p x ≡ true
    → any p xs ≡ true
unfolding member
any_complete p [] x m h = cc
any_complete p (y ∷ xs) x m h = elim (Bool-cases (text_eq x y)) [
  | inl same ↦ ground (arith, h, ap p ((text_eq_iff x y).0 same))
  | inr other ↦ ground (arith, any_complete p xs x (ground arith) h)
]

is_public_iff : (c : NameClass) → (is_public c ≡ false) ↔ (c ≢ public_name)
unfolding is_public
is_public_iff public_name = (λ h. cc, λ h. absurd (h refl))
is_public_iff localhost_name = (λ h e. cc, λ h. refl)
is_public_iff never_resolved = (λ h e. cc, λ h. refl)
is_public_iff lan_only_name = (λ h e. cc, λ h. refl)

-- A name is kept by its suffix exactly if it is, or lies under, one of the built-in suffixes or
-- a configured local domain.
pub suffix_class-kept_iff :
    (name : Bytes) (local_domains : List Bytes)
    → (suffix_class name local_domains ≢ public_name)
      ↔ ((s : Bytes) × (member s (kept_suffixes local_domains) ≡ true) × IsUnder name s)
suffix_class-kept_iff name local_domains = (
  λ kept.
      let hidden : is_public (suffix_class name local_domains) ≡ false =
        (is_public_iff (suffix_class name local_domains)).1 kept in
      let (s, listed, under) =
        any_sound (under_suffix name) (kept_suffixes local_domains)
          (ground (arith, suffix_class-any name local_domains, hidden)) in
      (s, listed, (under_suffix_iff name s).0 under),
  λ (s, listed, under). (is_public_iff (suffix_class name local_domains)).0 (
      ground (
        arith,
        suffix_class-any name local_domains,
        any_complete (under_suffix name) (kept_suffixes local_domains) s listed
            ((under_suffix_iff name s).1 under),
      )),
)

pub member-lan_upstreams :
    (allows : Bytes → Bool) (us : List Bytes) (u : Bytes)
    → member u (lan_upstreams allows us) ≡ true
    → (member u us ≡ true) × (allows u ≡ true)
unfolding member lan_upstreams
member-lan_upstreams allows [] u h = cc
member-lan_upstreams allows (w ∷ us) u h = elim (Bool-cases (member u (lan_upstreams allows us))) [
  | inl later ↦ let (m, ok) = member-lan_upstreams allows us u later in (ground (arith, m), ok)
  | inr now ↦ (
    ground arith,
    ground (arith, text_eq_iff u w, ap allows ((text_eq_iff u w).0 (ground arith))),
  )
]
