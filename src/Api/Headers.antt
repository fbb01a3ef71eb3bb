-- ===== src/Api/Headers.antt =====
-- internal/api/security.go: the headers that `secure` sets, whatever the order of the map loop.
use s_hole.Prelude.{
  Bool, true, ◌&&◌, ◌≡◌, ◌⊎◌, inl, refl, arith, List, [], ◌∷◌, Option, Bytes, map, sym, text_eq,
  text_eq_iff, text_eq_refl, ◌∙◌, if◌then◌else◌,
}
use s_hole.Prelude.{any}
use s_hole.Prelude.Sets.{Distinct, member}
use s_hole.Api.Security.{Request, Headers, security_headers, set_headers, secure}

abbrev pub same_entry : Bytes × Bytes → Bytes × Bytes → Bool
same_entry p q = text_eq p.0 q.0 && text_eq p.1 q.1

-- The two lists have the same entries, in any order and number.
abbrev pub SameEntries : List (Bytes × Bytes) → List (Bytes × Bytes) → Type 0
SameEntries order table = (p : Bytes × Bytes) → any (same_entry p) order ≡ any (same_entry p) table

entry-key :
    (p : Bytes × Bytes) (table : List (Bytes × Bytes))
    → any (same_entry p) table ≡ true
    → member p.0 (map (λ (q : Bytes × Bytes). q.0) table) ≡ true
unfolding member
entry-key p [] h = h
entry-key p (t ∷ table) h = ground (arith, entry-key p table)

-- A table without a repeated key has one value for a key.
entry-value :
    (p q : Bytes × Bytes) (table : List (Bytes × Bytes))
    → Distinct (map (λ (q : Bytes × Bytes). q.0) table)
    → any (same_entry p) table ≡ true
    → any (same_entry q) table ≡ true
    → q.0 ≡ p.0
    → q.1 ≡ p.1
unfolding member
entry-value p q [] d hp hq e = absurd (ground arith)
entry-value p q (t ∷ table) d hp hq e = ground (
  arith,
  text_eq_iff p.0 t.0,
  text_eq_iff p.1 t.1,
  text_eq_iff q.0 t.0,
  text_eq_iff q.1 t.1,
  entry-key p table,
  entry-key q table,
  entry-value p q table d.1,
)

set_headers-last :
    (k v : Bytes) (order : List (Bytes × Bytes)) (h : Headers)
    → ((q : Bytes × Bytes) → any (same_entry q) order ≡ true → q.0 ≡ k → q.1 ≡ v)
    → (any (same_entry (k, v)) order ≡ true) ⊎ (h k ≡ v)
    → set_headers order h k ≡ v
unfolding set_headers
set_headers-last k v [] h agree found = ground arith
set_headers-last k v ((name, x) ∷ order) h agree found =
    set_headers-last k v order (λ (j : Bytes). if text_eq name j then x else h j)
      (λ q m e. agree q (ground arith) e)
      (ground (
        arith,
        agree (name, x),
        text_eq_refl name,
        text_eq_refl x,
        text_eq_iff name k,
        text_eq_iff k name,
        text_eq_iff v x,
      ))

pub secure-headers :
    (split_host_port : Bytes → Option (Bytes × Bytes)) (is_addr : Bytes → Bool)
    (to_lower : Bytes → Bytes) (order : List (Bytes × Bytes)) (hostnames : List Bytes) (r : Request)
    (h : Headers)
    → SameEntries order security_headers
    → (p : Bytes × Bytes) → any (same_entry p) security_headers ≡ true
    → (secure split_host_port is_addr to_lower order hostnames r h).0 p.0 ≡ p.1
unfolding secure member
secure-headers split_host_port is_addr to_lower order hostnames r h same p m =
    set_headers-last p.0 p.1 order h
      (λ q n e.
        entry-value p q security_headers (refl, (refl, (refl, (refl, (refl, (refl, tt)))))) m
          (sym (same q) ∙ n) e)
      (inl (same p ∙ m))
