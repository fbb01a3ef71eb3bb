-- ===== src/Dnsserver/Upstream/Forward.antt =====
-- What a call of forwardWith ends with: a checked reply, the context's error, or every cause.
use s_hole.Prelude.{
  ◌+◌, ◌⊎◌, false, has_prefix, ℕ, true, List, [], ◌∷◌, ◌++◌, map, append_assoc, ◌≡◌, refl, ap, ◌∙◌,
  inl, inr, none, some, arith, Bytes, text_eq_refl, length, All, ◌==◌, Bool-cases, Option-cases,
}
use mathlib.Core.Path.{subst}
use s_hole.Prelude.Sets.{member, member-append}
use s_hole.Dns.{Msg, DnsLibrary}
use s_hole.Dnsserver.Upstream.{
  Tracker, Env, Progress, Outcome, answered, cancelled, all_failed, first_sweep, second_sweep,
  no_answer, forward_with, https,
}
use s_hole.Dnsserver.Upstream.Sweeps.{
  IsFailing, IsAnswer, Ends, counted, first_sweep-Ends, second_sweep-Ends,
}

member-head : (u : Bytes) (us : List Bytes) → member u (u ∷ us) ≡ true
unfolding member
member-head u us = ground (arith, text_eq_refl u)

module _ {E : Type 0} (lib : DnsLibrary) (env : Env E) (req : Msg) (upstreams : List Bytes)
    (fallbacks : ℕ) where
  -- What forwardWith may end with.
  abbrev Final : Outcome E × Progress E → Type 0
  Final (answered m, q) = IsAnswer lib env req upstreams fallbacks m q
  Final (cancelled e, q) = IsFailing lib env req upstreams fallbacks q
  Final (all_failed causes, q) =
      (causes ≡ q.causes)
      × IsFailing lib env req upstreams fallbacks q
      × All (λ u. member u q.contacts ≡ true) upstreams

  no_answer-Final :
      (q : Progress E)
      → IsFailing lib env req upstreams fallbacks q
      → All (λ u. member u q.contacts ≡ true) upstreams
      → Final (no_answer lib env req q)
  unfolding no_answer
  no_answer-Final q f c = elim (Bool-cases (length q.causes == 0)) [
    | inr some_cause ↦ rw (some_cause, no_answer) (refl, f, c)
    | inl empty ↦ elim (Option-cases (env.ctx_err q.checks)) [
      | inl go ↦ rw (empty, no_answer, go) (refl, counted lib env req upstreams fallbacks q f, c)
      | inr (e, stop) ↦ rw (empty, no_answer, stop) (counted lib env req upstreams fallbacks q f)
    ]
  ]

  pub All-listed :
      (us before : List Bytes) → before ++ us ≡ upstreams → All (λ u. member u upstreams ≡ true) us
  All-listed [] before e = tt
  All-listed (u ∷ us) before e = (
    subst (λ l. member u l ≡ true) e
        (ground (arith, member-append u before (u ∷ us), member-head u us)),
    All-listed us (before ++ u ∷ []) (append_assoc before (u ∷ []) us ∙ e),
  )

  of_Ends :
      (C : Progress E → Type 0) (out : Outcome E) (q : Progress E)
      → Ends lib env req upstreams fallbacks C (some out, q)
      → Final (out, q)
  of_Ends C (answered m) q h = h
  of_Ends C (cancelled e) q h = h
  of_Ends C (all_failed l) q h = elim h [ ]

  abbrev started : Tracker → Progress E
  started tracker = record {
    tracker = tracker;
    tried = [];
    contacts = [];
    causes = [];
    checks = 0;
    fallbacks = fallbacks;
  }

  started-IsFailing :
      (tracker : Tracker) → IsFailing lib env req upstreams fallbacks (started tracker)
  started-IsFailing tracker = record {
    causes_contacts = refl;
    tried_contacted = λ u h. h;
    no_fallback = refl;
  }

  finish : Progress E → Outcome E × Progress E
  finish q =
      let (r, q') = second_sweep lib env req upstreams upstreams q in
      elim r [ some out ↦ (out, q') | none ↦ no_answer lib env req q' ]

  finish-Final : (q : Progress E) → IsFailing lib env req upstreams fallbacks q → Final (finish q)
  unfolding finish
  finish-Final q f = elim (Option-cases (second_sweep lib env req upstreams upstreams q).0) [
    | inr (out, e) ↦
        rw (e, finish)
          (of_Ends (λ q'. Unit {0}) out (second_sweep lib env req upstreams upstreams q).1
            (rw e at ends))
    | inl e ↦
        let (f', c) = rw e at ends in
        rw (e, finish) (no_answer-Final (second_sweep lib env req upstreams upstreams q).1 f' c.0)
  ]
    where
      ends :
          Ends lib env req upstreams fallbacks
            (λ q'.
              All (λ u. member u q'.contacts ≡ true) upstreams
              × ((v : Bytes) → member v q.contacts ≡ true → member v q'.contacts ≡ true))
            (second_sweep lib env req upstreams upstreams q)
      ends =
          second_sweep-Ends lib env req upstreams fallbacks upstreams q
            (All-listed upstreams [] refl) f

  forward_with-Final :
      (tracker : Tracker) (now : ℕ)
      → Final (forward_with lib env req upstreams tracker fallbacks now)
  unfolding forward_with finish
  forward_with-Final tracker now =
      elim (Option-cases (first_sweep lib env req upstreams now upstreams (started tracker)).0) [
        | inr (out, e) ↦
            rw (e, forward_with)
              (of_Ends (λ q'. Unit {0}) out
                (first_sweep lib env req upstreams now upstreams (started tracker)).1
                (rw e at ends))
        | inl e ↦
            rw (e, forward_with)
              (finish-Final (first_sweep lib env req upstreams now upstreams (started tracker)).1
                (rw e at ends).0)
      ]
    where
      ends :
          Ends lib env req upstreams fallbacks
            (λ q. Unit {0})
            (first_sweep lib env req upstreams now upstreams (started tracker))
      ends =
          first_sweep-Ends lib env req upstreams fallbacks now upstreams (started tracker)
            (All-listed upstreams [] refl) (started-IsFailing tracker)

  -- What an answer of `used` does to the plaintext counter: one more after a plain upstream when
  -- the list has a DoH upstream, and the same count after a DoH upstream or without one listed.
  abbrev pub IsCounted : Bytes → ℕ → Type 0
  IsCounted used after =
      (has_prefix used https ≡ false
        → (u : Bytes) → member u upstreams ≡ true
        → has_prefix u https ≡ true
        → after ≡ fallbacks + 1)
      × ((has_prefix used https ≡ true) ⊎ All (λ u. has_prefix u https ≡ false) upstreams
          → after ≡ fallbacks)

  -- If forwardWith fails with its list of causes, it has contacted every upstream, cooldown or not;
  -- the causes name the contacted upstreams in order, and the plaintext counter is unchanged.
  pub forward_with-all_failed :
      (tracker : Tracker) (now : ℕ) {causes : List (Bytes × E)} {p : Progress E}
      → forward_with lib env req upstreams tracker fallbacks now ≡ (all_failed causes, p)
      → (map (λ (c : Bytes × E). c.0) causes ≡ p.contacts)
        × All (λ u. member u p.contacts ≡ true) upstreams
        × (p.fallbacks ≡ fallbacks)
  forward_with-all_failed tracker now {causes} {p} e =
      let (same, f, c) = subst Final e (forward_with-Final tracker now) in
      (ap (map (λ (c : Bytes × E). c.0)) same ∙ f.causes_contacts, c, f.no_fallback)
