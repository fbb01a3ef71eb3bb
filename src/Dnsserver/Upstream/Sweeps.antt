-- ===== src/Dnsserver/Upstream/Sweeps.antt =====
-- What an exchange, a contact and each of the two sweeps of forwardWith may end with.
use s_hole.Prelude.{
  ℕ, ◌+◌, true, List, [], ◌∷◌, ◌++◌, map, ◌≡◌, refl, sym, ap, ◌∙◌, ◌⊎◌, inl, inr, Option, none,
  some, arith, Bytes, text_eq_refl, length, All, has_prefix, false, Bool-cases, Option-cases,
}
use mathlib.Core.List.{map-append}
use s_hole.Prelude.Sets.{member, member-one, insert, member-insert, member-append}
use s_hole.Dns.{Question, Msg, DnsLibrary, opcode_query}
use s_hole.Dnsserver.Upstream.{
  find, remove, should_skip, record_success, count_plaintext_fallback, Reply, reply, error, Env,
  Progress, Outcome, answered, cancelled, all_failed, check_reply, retry, exchange, contact,
  first_sweep, second_sweep, same_question, https,
}

find-remove_self : (k : Bytes) (m : List (Bytes × ℕ)) → find k (remove k m) ≡ none
unfolding find remove
find-remove_self k [] = refl
find-remove_self k ((j, n) ∷ m) = ground (arith, find-remove_self k m)

Reply-cases : {E : Type 0} (r : Reply E) → ((m : Msg) × (r ≡ reply m)) ⊎ ((e : E) × (r ≡ error e))
Reply-cases (reply m) = inl (m, refl)
Reply-cases (error e) = inr (e, refl)

-- The message is a response to the query: of opcode QUERY, with one question, which has the type,
-- the class and, up to the case of its letters, the name of the query's first one.
pub record IsReplyTo (lib : DnsLibrary) (req resp : Msg) : Type 0 where
  pub is_response : resp.response ≡ true
  pub is_query : resp.opcode ≡ opcode_query
  pub got : Question
  pub want : Question
  pub others : List Question
  pub one : resp.question ≡ got ∷ []
  pub asked : req.question ≡ want ∷ others
  pub same_type : got.qtype ≡ want.qtype
  pub same_class : got.qclass ≡ want.qclass
  pub same_name : lib.equal_fold got.name want.name ≡ true

-- What same_question says of two lists of questions.
abbrev Same : DnsLibrary → List Question → List Question → Type 0
Same lib gots wants =
    (got : Question) × (want : Question) × (others : List Question) × (gots ≡ got ∷ [])
    × (wants ≡ want ∷ others)
    × (got.qtype ≡ want.qtype)
    × (got.qclass ≡ want.qclass)
    × (lib.equal_fold got.name want.name ≡ true)

same_question-Same :
    (lib : DnsLibrary) (gots wants : List Question)
    → same_question lib gots wants ≡ true
    → Same lib gots wants
unfolding same_question
same_question-Same lib [] wants h = cc
same_question-Same lib (got ∷ next ∷ gots) wants h = cc
same_question-Same lib (got ∷ []) [] h = cc
same_question-Same lib (got ∷ []) (want ∷ others) h =
    (got, want, others, refl, refl, ground (arith, h), ground (arith, h), ground (arith, h))

pub check_reply-IsReplyTo :
    (lib : DnsLibrary) (req resp : Msg) → check_reply lib req resp ≡ true → IsReplyTo lib req resp
unfolding check_reply
check_reply-IsReplyTo lib req resp h =
    let (got, want, others, one, asked, same_type, same_class, same_name) =
      same_question-Same lib resp.question req.question (ground (arith, h)) in
    record {
      is_response = ground (arith, h);
      is_query = ground (arith, h);
      got = got;
      want = want;
      others = others;
      one = one;
      asked = asked;
      same_type = same_type;
      same_class = same_class;
      same_name = same_name;
    }

module _ {E : Type 0} (lib : DnsLibrary) (env : Env E) (req : Msg) where
  -- The message came from the upstream in this exchange: over DoH if it is a DoH upstream, and
  -- otherwise over UDP, or over TCP after a truncated answer over UDP.
  abbrev pub IsReceived : ℕ → Bytes → Msg → Type 0
  IsReceived n upstream m =
      ((has_prefix upstream https ≡ true) × (env.doh n upstream ≡ reply m))
      ⊎ ((has_prefix upstream https ≡ false)
          × ((env.udp n upstream ≡ reply m)
              ⊎ ((first : Msg) × (env.udp n upstream ≡ reply first)
                  × (first.truncated ≡ true)
                  × (env.tcp n upstream ≡ reply m))))

  retry-IsReceived :
      (n : ℕ) (upstream : Bytes) (first m : Msg)
      → check_reply lib req first ≡ true
      → retry lib env req n upstream first ≡ m
      → (check_reply lib req m ≡ true) × ((first ≡ m) ⊎ (env.tcp n upstream ≡ reply m))
  unfolding retry
  retry-IsReceived n upstream first m c h = elim (Reply-cases (env.tcp n upstream)) [
    | inr (e, failed) ↦ ground (arith, h, c, failed)
    | inl (full, got) ↦ ground (arith, h, c, got)
  ]

  over_doh :
      (n : ℕ) (upstream : Bytes) (m : Msg)
      → has_prefix upstream https ≡ true
      → exchange lib env req n upstream ≡ reply m
      → (check_reply lib req m ≡ true) × (env.doh n upstream ≡ reply m)
  unfolding exchange
  over_doh n upstream m doh h = elim (Reply-cases (env.doh n upstream)) [
    | inr (e, failed) ↦ ground (arith, h, doh, failed)
    | inl (resp, got) ↦ ground (arith, h, doh, got)
  ]

  over_udp :
      (n : ℕ) (upstream : Bytes) (m : Msg)
      → has_prefix upstream https ≡ false
      → exchange lib env req n upstream ≡ reply m
      → (check_reply lib req m ≡ true)
        × ((env.udp n upstream ≡ reply m)
            ⊎ ((first : Msg) × (env.udp n upstream ≡ reply first)
                × (first.truncated ≡ true)
                × (env.tcp n upstream ≡ reply m)))
  unfolding exchange
  over_udp n upstream m plain h = elim (Reply-cases (env.udp n upstream)) [
    | inr (e, failed) ↦ absurd (ground (arith, h, plain, failed))
    | inl (first, got) ↦ elim (Bool-cases (check_reply lib req first)) [
      | inr bad ↦ absurd (ground (arith, h, plain, got, bad))
      | inl good ↦ elim (Bool-cases first.truncated) [
        | inr full ↦
            let e : first ≡ m = ground (arith, h, plain, got, good, full) in
            (sym (ap (check_reply lib req) e) ∙ good, inl (got ∙ ap reply e))
        | inl short ↦
            let (c, from) =
              retry-IsReceived n upstream first m good
                (ground (arith, h, plain, got, good, short)) in
            (c, elim from [ inl e ↦ inl (got ∙ ap reply e) | inr t ↦ inr (first, got, short, t) ])
      ]
    ]
  ]

  -- A reply that an exchange returns was received in it from the upstream, and answers the query:
  -- it is a response with opcode QUERY and one question, of the same type, class and name.
  pub exchange-IsReplyTo :
      (n : ℕ) (upstream : Bytes) {m : Msg}
      → exchange lib env req n upstream ≡ reply m
      → IsReplyTo lib req m × IsReceived n upstream m
  exchange-IsReplyTo n upstream {m} h = elim (Bool-cases (has_prefix upstream https)) [
    | inl doh ↦
        let (c, from) = over_doh n upstream m doh h in
        (check_reply-IsReplyTo lib req m c, inl (doh, from))
    | inr plain ↦
        let (c, from) = over_udp n upstream m plain h in
        (check_reply-IsReplyTo lib req m c, inr (plain, from))
  ]

  module _ (upstreams : List Bytes) (fallbacks : ℕ) where
    -- Every contact so far has failed, with its cause kept.
    pub record IsFailing (p : Progress E) : Type 0 where
      pub causes_contacts : map (λ (c : Bytes × E). c.0) p.causes ≡ p.contacts
      pub tried_contacted : (u : Bytes) → member u p.tried ≡ true → member u p.contacts ≡ true
      pub no_fallback : p.fallbacks ≡ fallbacks

    -- The last contact, with `upstream`, returned the reply, and every contact before it failed.
    pub record IsAnswer (m : Msg) (p : Progress E) : Type 0 where
      pub upstream : Bytes
      pub before : List Bytes
      pub listed : member upstream upstreams ≡ true
      pub contacts : p.contacts ≡ before ++ upstream ∷ []
      pub failed_before : map (λ (c : Bytes × E). c.0) p.causes ≡ before
      pub replied : exchange lib env req (length before) upstream ≡ reply m
      pub cooldown_cleared : find upstream p.tracker.last_err ≡ none
      pub fallback : p.fallbacks ≡ count_plaintext_fallback upstream upstreams fallbacks

    abbrev pub tick : Progress E → Progress E
    tick p = record p { checks = p.checks + 1 }

    pub counted : (p : Progress E) → IsFailing p → IsFailing (tick p)
    counted p f = record {
      causes_contacts = f.causes_contacts;
      tried_contacted = f.tried_contacted;
      no_fallback = f.no_fallback;
    }

    -- What a sweep may end with; `covered` holds of the progress when the loop runs out.
    abbrev pub Ends : (Progress E → Type 0) → Option (Outcome E) × Progress E → Type 0
    Ends covered (none, q) = IsFailing q × covered q
    Ends covered (some (answered m), q) = IsAnswer m q
    Ends covered (some (cancelled e), q) = IsFailing q
    Ends covered (some (all_failed l), q) = ⊥

    -- What a contact may end with.
    abbrev Contacted : Bytes → Progress E → Option Msg × Progress E → Type 0
    Contacted u p (some m, q) = IsAnswer m q
    Contacted u p (none, q) =
        IsFailing q × (q.tried ≡ p.tried) × (q.contacts ≡ p.contacts ++ u ∷ [])

    contact-Contacted :
        (u : Bytes) (p : Progress E)
        → member u upstreams ≡ true
        → map (λ (c : Bytes × E). c.0) p.causes ≡ p.contacts
        → ((v : Bytes) → member v p.tried ≡ true → member v (p.contacts ++ u ∷ []) ≡ true)
        → p.fallbacks ≡ fallbacks
        → Contacted u p (contact lib env req upstreams u p)
    unfolding contact
    contact-Contacted u p listed causes tried fb =
        elim (Reply-cases (exchange lib env req (length p.contacts) u)) [
          | inl (m, replied) ↦
              rw (replied, contact)
                (record {
                  upstream = u;
                  before = p.contacts;
                  listed = listed;
                  contacts = refl;
                  failed_before = causes;
                  replied = replied;
                  cooldown_cleared = unfold record_success in find-remove_self u p.tracker.last_err;
                  fallback = ap (count_plaintext_fallback u upstreams) fb;
                })
          | inr (e, failed) ↦
              rw (failed, contact)
                (
                  record {
                    causes_contacts =
                        map-append (λ (c : Bytes × E). c.0) p.causes ((u, e) ∷ [])
                        ∙ ap (λ l. l ++ u ∷ []) causes;
                    tried_contacted = tried;
                    no_fallback = fb;
                  },
                  refl,
                  refl,
                )
        ]

    Ends-map :
        (C D : Progress E → Type 0) (r : Option (Outcome E) × Progress E)
        → ((q : Progress E) → C q → D q)
        → Ends C r
        → Ends D r
    Ends-map C D (none, q) f h = (h.0, f q h.1)
    Ends-map C D (some (answered m), q) f h = h
    Ends-map C D (some (cancelled e), q) f h = h
    Ends-map C D (some (all_failed l), q) f h = h

    pub first_sweep-Ends :
        (now : ℕ) (us : List Bytes) (p : Progress E)
        → All (λ u. member u upstreams ≡ true) us
        → IsFailing p
        → Ends (λ q. Unit {0}) (first_sweep lib env req upstreams now us p)
    unfolding first_sweep
    first_sweep-Ends now [] p listed f = (f, tt)
    first_sweep-Ends now (u ∷ us) p listed f = elim (Option-cases (env.ctx_err p.checks)) [
      | inr (e, stop) ↦ rw (stop, first_sweep) (counted p f)
      | inl go ↦ elim (Bool-cases (should_skip p.tracker u now)) [
        | inl skip ↦
            rw (go, first_sweep, skip) (first_sweep-Ends now us (tick p) listed.1 (counted p f))
        | inr try ↦ elim (Option-cases (contact lib env req upstreams u p').0) [
          | inr (m, yes_m) ↦ rw (go, first_sweep, try, yes_m) (rw yes_m at contacted)
          | inl no_m ↦
              rw (go, first_sweep, try, no_m)
                (first_sweep-Ends now us (contact lib env req upstreams u p').1 listed.1
                  (rw no_m at contacted).0)
        ]
      ]
    ]
      where
        p' : Progress E
        p' = record (tick p) { tried = insert u p.tried }

        contacted : Contacted u p' (contact lib env req upstreams u p')
        contacted =
            contact-Contacted u p' listed.0 f.causes_contacts
              (λ v h. ground (
                arith,
                member-insert v u p.tried,
                member-append v p.contacts (u ∷ []),
                f.tried_contacted v,
                member-one v u,
              ))
              f.no_fallback

    pub second_sweep-Ends :
        (us : List Bytes) (p : Progress E)
        → All (λ u. member u upstreams ≡ true) us
        → IsFailing p
        → Ends
            (λ q.
              All (λ u. member u q.contacts ≡ true) us
              × ((v : Bytes) → member v p.contacts ≡ true → member v q.contacts ≡ true))
            (second_sweep lib env req upstreams us p)
    unfolding second_sweep
    second_sweep-Ends [] p listed f = (f, (tt, λ v h. h))
    second_sweep-Ends (u ∷ us) p listed f = elim (Option-cases (env.ctx_err p.checks)) [
      | inr (e, stop) ↦ rw (stop, second_sweep) (counted p f)
      | inl go ↦ elim (Bool-cases (member u p.tried)) [
        | inl skip ↦
            rw (go, second_sweep, skip)
              (Ends-map _ _ (second_sweep lib env req upstreams us (tick p))
                (λ q c. ((c.1 u (f.tried_contacted u skip), c.0), c.1))
                (second_sweep-Ends us (tick p) listed.1 (counted p f)))
        | inr try ↦ elim (Option-cases (contact lib env req upstreams u (tick p)).0) [
          | inr (m, yes_m) ↦ rw (go, second_sweep, try, yes_m) (rw yes_m at contacted)
          | inl no_m ↦
              rw (go, second_sweep, try, no_m)
                (again (rw no_m at contacted)
                  (second_sweep-Ends us (contact lib env req upstreams u (tick p)).1 listed.1))
        ]
      ]
    ]
      where
        p' : Progress E
        p' = (contact lib env req upstreams u (tick p)).1

        again :
            IsFailing p' × (p'.tried ≡ p.tried) × (p'.contacts ≡ p.contacts ++ u ∷ [])
            → (IsFailing p'
                → Ends
                    (λ q.
                      All (λ v. member v q.contacts ≡ true) us
                      × ((v : Bytes) → member v p'.contacts ≡ true → member v q.contacts ≡ true))
                    (second_sweep lib env req upstreams us p'))
            → Ends
                (λ q.
                  All (λ v. member v q.contacts ≡ true) (u ∷ us)
                  × ((v : Bytes) → member v p.contacts ≡ true → member v q.contacts ≡ true))
                (second_sweep lib env req upstreams us p')
        again (f', same, more) rest =
            Ends-map _ _ (second_sweep lib env req upstreams us p')
              (λ q c. (
                (
                  c.1 u (
                      ground (
                        arith,
                        member-append u p.contacts (u ∷ []),
                        member-one u u,
                        text_eq_refl u,
                      )),
                  c.0,
                ),
                λ v h. c.1 v (ground (arith, member-append v p.contacts (u ∷ []))),
              ))
              (rest f')

        contacted : Contacted u (tick p) (contact lib env req upstreams u (tick p))
        contacted =
            contact-Contacted u (tick p) listed.0 f.causes_contacts
              (λ v h. ground (arith, member-append v p.contacts (u ∷ []), f.tried_contacted v))
              f.no_fallback
