-- ===== src/Dnsserver/Upstream/Listed.antt =====
-- internal/dnsserver/upstream.go: forwardWith contacts upstreams of its list only.
use s_hole.Prelude.{
  ℕ, ◌+◌, true, List, [], ◌∷◌, ◌≡◌, refl, inl, inr, arith, Bytes, text_eq_iff, All, length, ◌==◌,
  Bool-cases, Option-cases,
}
use s_hole.Prelude.Sets.{member, insert, member-append, member-one, member-nil}
use s_hole.Dns.{Msg, DnsLibrary}
use s_hole.Dnsserver.Upstream.Once.{contacts-contact}
use s_hole.Dnsserver.Upstream.Forward.{All-listed}
use s_hole.Dnsserver.Upstream.{
  Tracker, should_skip, Env, Progress, contact, first_sweep, second_sweep, no_answer, forward_with,
}

module _ {E : Type 0} (lib : DnsLibrary) (env : Env E) (req : Msg) (upstreams : List Bytes) where
  -- Every upstream contacted so far is in the list.
  abbrev IsListed : Progress E → Type 0
  IsListed p = (v : Bytes) → member v p.contacts ≡ true → member v upstreams ≡ true

  abbrev tick : Progress E → Progress E
  tick p = record p { checks = p.checks + 1 }

  contact-IsListed :
      (u : Bytes) (p : Progress E)
      → member u upstreams ≡ true
      → IsListed p
      → IsListed (contact lib env req upstreams u p).1
  contact-IsListed u p listed h v = rw (contacts-contact lib env req upstreams u p) (λ m.
      ground
        (arith, member-append v p.contacts (u ∷ []), member-one v u, text_eq_iff v u, listed, h v))

  first_sweep-IsListed :
      (now : ℕ) (us : List Bytes) (p : Progress E)
      → All (λ u. member u upstreams ≡ true) us
      → IsListed p
      → IsListed (first_sweep lib env req upstreams now us p).1
  unfolding first_sweep
  first_sweep-IsListed now [] p listed h = h
  first_sweep-IsListed now (u ∷ us) p listed h = elim (Option-cases (env.ctx_err p.checks)) [
    | inr (e, stop) ↦ rw (stop, first_sweep) h
    | inl go ↦ elim (Bool-cases (should_skip p.tracker u now)) [
      | inl skip ↦ rw (go, first_sweep, skip) (first_sweep-IsListed now us (tick p) listed.1 h)
      | inr try ↦ elim (Option-cases (contact lib env req upstreams u p').0) [
        | inr (m, yes_m) ↦ rw (go, first_sweep, try, yes_m) contacted
        | inl no_m ↦
            rw (go, first_sweep, try, no_m)
              (first_sweep-IsListed now us (contact lib env req upstreams u p').1 listed.1
                contacted)
      ]
    ]
  ]
    where
      p' : Progress E
      p' = record (tick p) { tried = insert u p.tried }

      contacted : IsListed (contact lib env req upstreams u p').1
      contacted = contact-IsListed u p' listed.0 h

  second_sweep-IsListed :
      (us : List Bytes) (p : Progress E)
      → All (λ u. member u upstreams ≡ true) us
      → IsListed p
      → IsListed (second_sweep lib env req upstreams us p).1
  unfolding second_sweep
  second_sweep-IsListed [] p listed h = h
  second_sweep-IsListed (u ∷ us) p listed h = elim (Option-cases (env.ctx_err p.checks)) [
    | inr (e, stop) ↦ rw (stop, second_sweep) h
    | inl go ↦ elim (Bool-cases (member u p.tried)) [
      | inl skip ↦ rw (go, second_sweep, skip) (second_sweep-IsListed us (tick p) listed.1 h)
      | inr try ↦ elim (Option-cases (contact lib env req upstreams u (tick p)).0) [
        | inr (m, yes_m) ↦ rw (go, second_sweep, try, yes_m) contacted
        | inl no_m ↦
            rw (go, second_sweep, try, no_m)
              (second_sweep-IsListed us (contact lib env req upstreams u (tick p)).1 listed.1
                contacted)
      ]
    ]
  ]
    where
      contacted : IsListed (contact lib env req upstreams u (tick p)).1
      contacted = contact-IsListed u (tick p) listed.0 h

  no_answer-IsListed : (p : Progress E) → IsListed p → IsListed (no_answer lib env req p).1
  unfolding no_answer
  no_answer-IsListed p h = elim (Bool-cases (length p.causes == 0)) [
    | inr some_cause ↦ rw (some_cause, no_answer) h
    | inl empty ↦ elim (Option-cases (env.ctx_err p.checks)) [
      | inl go ↦ rw (empty, no_answer, go) h
      | inr (e, stop) ↦ rw (empty, no_answer, stop) h
    ]
  ]

  -- Each upstream that forwardWith contacts is in its list.
  pub member-forward_with-contacts :
      (tracker : Tracker) (fallbacks now : ℕ) (v : Bytes)
      → member v (forward_with lib env req upstreams tracker fallbacks now).1.contacts ≡ true
      → member v upstreams ≡ true
  unfolding forward_with
  member-forward_with-contacts tracker fallbacks now =
      elim (Option-cases (first_sweep lib env req upstreams now upstreams start).0) [
        | inr (out, e) ↦ rw (e, forward_with) first
        | inl e ↦ elim (Option-cases (second_sweep lib env req upstreams upstreams q).0) [
          | inr (out, e') ↦ rw (e, forward_with, e') second
          | inl e' ↦
              rw (e, forward_with, e')
                (no_answer-IsListed (second_sweep lib env req upstreams upstreams q).1 second)
        ]
      ]
    where
      start : Progress E
      start = record {
        tracker = tracker;
        tried = [];
        contacts = [];
        causes = [];
        checks = 0;
        fallbacks = fallbacks;
      }

      q : Progress E
      q = (first_sweep lib env req upstreams now upstreams start).1

      listed : All (λ u. member u upstreams ≡ true) upstreams
      listed = All-listed lib env req upstreams fallbacks upstreams [] refl

      first : IsListed q
      first =
          first_sweep-IsListed now upstreams start listed (λ v m. ground (arith, member-nil v, m))

      second : IsListed (second_sweep lib env req upstreams upstreams q).1
      second = second_sweep-IsListed upstreams q listed first
