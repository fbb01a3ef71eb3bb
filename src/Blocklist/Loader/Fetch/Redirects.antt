-- ===== src/Blocklist/Loader/Fetch/Redirects.antt =====
-- internal/blocklist/loader.go: the chains of requests that checkRedirect lets a download make.
use s_hole.Prelude.{
  inl, inr, suc, ◌≤◌, List, [], ◌∷◌, ◌++◌, ◌≡◌, none, arith, Bytes, codes, text_eq, text_eq_iff,
  length, length-append, All, All-append, leb, Bool-cases,
}
use s_hole.Blocklist.Loader.Fetch.{max_redirects, check_redirect}

-- The schemes of the requests of a download, the first in front: each request behind the first is
-- made when check_redirect has no error for it.
pub data Followed : List Bytes → Type 0 where
  start : (scheme : Bytes) → Followed (scheme ∷ [])
  follow :
      (scheme : Bytes) (via : List Bytes)
      → Followed via
      → check_redirect scheme via ≡ none
      → Followed (via ++ scheme ∷ [])

check_redirect-none :
    (next first : Bytes) (via : List Bytes)
    → check_redirect next (first ∷ via) ≡ none
    → (suc (length (first ∷ via)) ≤ max_redirects) × (first ≡ codes "https" → next ≡ codes "https")
unfolding check_redirect
check_redirect-none next first via h =
    elim (Bool-cases (leb max_redirects (length (first ∷ via)))) [
      | inl long ↦ absurd (ground (arith, h, long))
      | inr short ↦ elim (Bool-cases (text_eq next (codes "https"))) [
        | inl same ↦ (ground (arith, short), λ e. (text_eq_iff next (codes "https")).0 same)
        | inr other ↦ (
          ground (arith, short),
          λ e. absurd (ground (arith, h, short, other, (text_eq_iff first (codes "https")).1 e)),
        )
      ]
    ]

abbrev pub IsSecureChain : List Bytes → Type 0
IsSecureChain [] = ⊥
IsSecureChain (first ∷ via) =
    (length (first ∷ via) ≤ max_redirects)
    × (first ≡ codes "https" → All (λ s. s ≡ codes "https") via)

IsSecureChain-follow :
    (next : Bytes) (via : List Bytes)
    → IsSecureChain via
    → check_redirect next via ≡ none
    → IsSecureChain (via ++ next ∷ [])
IsSecureChain-follow next [] i h = absurd i
IsSecureChain-follow next (first ∷ via) i h =
    let (short, https) = check_redirect-none next first via h in
    (
      omega (arith, short, length-append via (next ∷ [])),
      λ e. All-append (λ s. s ≡ codes "https") via (next ∷ []) (i.1 e) (https e, tt),
    )

-- A download makes at most ten requests, and one that starts on HTTPS makes every one of them over
-- HTTPS.
pub check_redirect-IsSecureChain : (via : List Bytes) → Followed via → IsSecureChain via
check_redirect-IsSecureChain via (start scheme) = (omega arith, λ e. tt)
check_redirect-IsSecureChain via (follow scheme before f h) =
    IsSecureChain-follow scheme before (check_redirect-IsSecureChain before f) h
