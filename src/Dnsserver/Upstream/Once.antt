-- ===== src/Dnsserver/Upstream/Once.antt =====
-- How often forwardWith contacts an upstream, and in which order.
use s_hole.Prelude.{
  ℕ, ◌+◌, true, false, List, [], ◌∷◌, ◌++◌, ◌≡◌, refl, inl, inr, arith, Bytes, text_eq, text_eq_iff,
  All, Bool-cases, Option-cases,
}
use s_hole.Prelude.Sets.{
  member, insert, Distinct, member-nil, member-one, member-insert, member-append, append-Distinct,
}
use s_hole.Dns.{Msg, DnsLibrary}
use s_hole.Dnsserver.Upstream.{
  Tracker, should_skip, Env, Progress, contact, first_sweep, second_sweep, no_answer, forward_with,
}

apart_of_not-member :
    (u : Bytes) (us : List Bytes) → member u us ≡ false → All (λ v. text_eq v u ≡ false) us
unfolding member
apart_of_not-member u [] h = tt
apart_of_not-member u (v ∷ us) h =
    (ground (arith, text_eq_iff u v, text_eq_iff v u), apart_of_not-member u us (ground arith))

module _ {E : Type 0} (lib : DnsLibrary) (env : Env E) (req : Msg) (upstreams : List Bytes) where
  pub contacts-contact :
      (u : Bytes) (p : Progress E)
      → (contact lib env req upstreams u p).1.contacts ≡ p.contacts ++ u ∷ []
  unfolding contact
  contacts-contact u p = ground arith

  tried-contact :
      (u : Bytes) (p : Progress E) → (contact lib env req upstreams u p).1.tried ≡ p.tried
  unfolding contact
  tried-contact u p = ground arith

  abbrev tick : Progress E → Progress E
  tick p = record p { checks = p.checks + 1 }

  -- No upstream was contacted twice, and each contacted one is in `tried`.
  abbrev IsFresh : Progress E → Type 0
  IsFresh p =
      Distinct p.contacts × ((v : Bytes) → member v p.contacts ≡ true → member v p.tried ≡ true)

  contact-IsFresh :
      (u : Bytes) (p : Progress E)
      → IsFresh p
      → member u p.contacts ≡ false
      → IsFresh (contact lib env req upstreams u (record (tick p) { tried = insert u p.tried })).1
  contact-IsFresh u p (d, t) new = (
    rw (contacts-contact u p') (append-Distinct p.contacts u d new),
    λ v.
        rw (contacts-contact u p', tried-contact u p')
          (λ h. ground (
            arith,
            member-append v p.contacts (u ∷ []),
            member-insert v u p.tried,
            t v,
            member-one v u,
          )),
  )
    where
      p' : Progress E
      p' = record (tick p) { tried = insert u p.tried }

  -- None of the upstreams still to come has been contacted.
  abbrev IsAhead : List Bytes → Progress E → Type 0
  IsAhead us p = All (λ v. member v p.contacts ≡ false) us

  first_sweep-IsFresh :
      (now : ℕ) (us : List Bytes) (p : Progress E)
      → Distinct us
      → IsAhead us p
      → IsFresh p
      → IsFresh (first_sweep lib env req upstreams now us p).1
  unfolding first_sweep
  first_sweep-IsFresh now [] p d a f = f
  first_sweep-IsFresh now (u ∷ us) p d a f = elim (Option-cases (env.ctx_err p.checks)) [
    | inr (e, stop) ↦ rw (stop, first_sweep) f
    | inl go ↦ elim (Bool-cases (should_skip p.tracker u now)) [
      | inl skip ↦ rw (go, first_sweep, skip) (first_sweep-IsFresh now us (tick p) d.1 a.1 f)
      | inr try ↦ elim (Option-cases (contact lib env req upstreams u p').0) [
        | inr (m, answer) ↦ rw (go, first_sweep, try, answer) (contact-IsFresh u p f a.0)
        | inl failed ↦
            rw (go, first_sweep, try, failed)
              (first_sweep-IsFresh now us (contact lib env req upstreams u p').1 d.1
                (ahead us (apart_of_not-member u us d.0) a.1) (contact-IsFresh u p f a.0))
      ]
    ]
  ]
    where
      p' : Progress E
      p' = record (tick p) { tried = insert u p.tried }

      ahead :
          (vs : List Bytes)
          → All (λ v. text_eq v u ≡ false) vs
          → All (λ v. member v p.contacts ≡ false) vs
          → IsAhead vs (contact lib env req upstreams u p').1
      ahead [] x y = tt
      ahead (v ∷ vs) x y = (
        rw (contacts-contact u p')
            (ground (arith, member-append v p.contacts (u ∷ []), member-one v u)),
        ahead vs x.1 y.1,
      )

  -- What the second sweep needs: an upstream still to come that is not in `tried` is not contacted.
  abbrev IsPending : List Bytes → Progress E → Type 0
  IsPending us p = All (λ v. member v p.tried ≡ false → member v p.contacts ≡ false) us

  second_sweep-Distinct :
      (us : List Bytes) (p : Progress E)
      → Distinct us
      → IsPending us p
      → Distinct p.contacts
      → Distinct (second_sweep lib env req upstreams us p).1.contacts
  unfolding second_sweep
  second_sweep-Distinct [] p d a f = f
  second_sweep-Distinct (u ∷ us) p d a f = elim (Option-cases (env.ctx_err p.checks)) [
    | inr (e, stop) ↦ rw (stop, second_sweep) f
    | inl go ↦ elim (Bool-cases (member u p.tried)) [
      | inl skip ↦ rw (go, second_sweep, skip) (second_sweep-Distinct us (tick p) d.1 a.1 f)
      | inr try ↦ elim (Option-cases (contact lib env req upstreams u (tick p)).0) [
        | inr (m, answer) ↦ rw (go, second_sweep, try, answer) (grown try)
        | inl failed ↦
            rw (go, second_sweep, try, failed)
              (second_sweep-Distinct us (contact lib env req upstreams u (tick p)).1 d.1
                (pending us (apart_of_not-member u us d.0) a.1) (grown try))
      ]
    ]
  ]
    where
      grown :
          member u p.tried ≡ false → Distinct (contact lib env req upstreams u (tick p)).1.contacts
      grown try = rw (contacts-contact u (tick p)) (append-Distinct p.contacts u f (a.0 try))

      pending :
          (vs : List Bytes)
          → All (λ v. text_eq v u ≡ false) vs
          → All (λ v. member v p.tried ≡ false → member v p.contacts ≡ false) vs
          → IsPending vs (contact lib env req upstreams u (tick p)).1
      pending [] x y = tt
      pending (v ∷ vs) x y = (
        rw (contacts-contact u (tick p), tried-contact u (tick p))
            (λ h. ground (arith, member-append v p.contacts (u ∷ []), member-one v u, y.0 h)),
        pending vs x.1 y.1,
      )

  IsPending-of_fresh :
      (us : List Bytes) (q : Progress E)
      → ((v : Bytes) → member v q.contacts ≡ true → member v q.tried ≡ true)
      → IsPending us q
  IsPending-of_fresh [] q t = tt
  IsPending-of_fresh (u ∷ us) q t = ((λ h. ground (arith, t u)), IsPending-of_fresh us q t)

  IsAhead-nil : (us : List Bytes) (q : Progress E) → q.contacts ≡ [] → IsAhead us q
  IsAhead-nil [] q e = tt
  IsAhead-nil (u ∷ us) q e = (rw e (member-nil u), IsAhead-nil us q e)

  -- If no upstream is listed twice, forwardWith contacts none twice for one query, whatever the
  -- network, the clock, the context and the tracker do.
  pub contacts-forward_with-Distinct :
      (tracker : Tracker) (fallbacks now : ℕ)
      → Distinct upstreams
      → Distinct (forward_with lib env req upstreams tracker fallbacks now).1.contacts
  unfolding forward_with no_answer
  contacts-forward_with-Distinct tracker fallbacks now d = ground (arith, fresh, second)
    where
      start : Progress E
      start = record {
        tracker = tracker;
        tried = [];
        contacts = [];
        causes = [];
        checks = 0;
        fallbacks = fallbacks;
      }

      q : Progress E
      q = (first_sweep lib env req upstreams now upstreams start).1

      fresh : IsFresh q
      fresh =
          first_sweep-IsFresh now upstreams start d (IsAhead-nil upstreams start refl)
            (tt, λ v h. h)

      second : Distinct (second_sweep lib env req upstreams upstreams q).1.contacts
      second = second_sweep-Distinct upstreams q d (IsPending-of_fresh upstreams q fresh.1) fresh.0
