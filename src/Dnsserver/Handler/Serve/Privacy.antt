-- ===== src/Dnsserver/Handler/Serve/Privacy.antt =====
-- internal/dnsserver/handler.go, ServeDNS: which names reach which upstreams.
use s_hole.Prelude.{
  true, false, ◌&&◌, ◌||◌, List, [], ◌∷◌, ◌≡◌, refl, ◌⊎◌, Option, none, some, inl, inr, arith,
  Bytes, length, ◌==◌, ==_iff, Bool-cases,
}
use s_hole.Prelude.Sets.{member, member-nil}
use s_hole.Dns.{Question, Msg, DnsLibrary, opcode_query}
use s_hole.Blocklist.Store.Lookup.{is_blocked}
use s_hole.Cache.{Cache, get}
use s_hole.Stats.{SortSlice}
use s_hole.Dnsserver.Upstream.Listed.{member-forward_with-contacts}
use s_hole.Dnsserver.Chain.{chain_blocked}
use s_hole.Dnsserver.Edns.{upstream_query}
use s_hole.Dnsserver.Ptr.{is_private_ptr}
use s_hole.Dnsserver.Failures.{ErrorTexts}
use s_hole.Dnsserver.LocalNames.{
  NameClass, public_name, localhost_name, never_resolved, lan_only_name, classify, lan_upstreams,
}
use s_hole.Dnsserver.LocalNames.Routes.{member-lan_upstreams}
use s_hole.Dnsserver.Handler.{Config, State, Visit, Served}
use s_hole.Dnsserver.Handler.Ends.{write_blocked, unresolved}
use s_hole.Dnsserver.Handler.Serve.{
  forward_query, after_get, resolve, serve_name, local_name, local_ptr_answer, route, serve_query,
  serve_question, serve_dns,
}

not_contacted : {A : Type 0} (u : Bytes) → member u [] ≡ true → A
not_contacted u m = absurd (ground (arith, member-nil u, m))

module _ {E : Type 0} (lib : DnsLibrary) (texts : ErrorTexts E) (sort_slice : SortSlice)
    (cfg : Config) (v : Visit E) where
  -- Each upstream that a call contacted is in the list.
  abbrev Reaches : List Bytes → Served → Type 0
  Reaches us s = (u : Bytes) → member u s.contacts ≡ true → member u us ≡ true

  forward_query-Reaches :
      (st : State) (req : Msg) (q : Question) (domain : Bytes) (us : List Bytes)
      → Reaches us (forward_query lib texts sort_slice cfg v st req q domain us)
  unfolding forward_query unresolved
  forward_query-Reaches st req q domain us u = elim (Bool-cases v.slot_free) [
    | inr taken ↦ rw (taken, forward_query) (λ m. not_contacted u m)
    | inl free ↦
        rw (free, forward_query)
          (member-forward_with-contacts lib v.env (upstream_query lib v.id req) us st.tracker
            st.plaintext_fallbacks v.forwarded_at u)
  ]

  after_get-Reaches :
      (found : Option Msg) (st : State) (req : Msg) (q : Question) (domain : Bytes)
      (us : List Bytes)
      → Reaches us (after_get lib texts sort_slice cfg v found st req q domain us)
  unfolding after_get write_blocked
  after_get-Reaches none st req q domain us u = forward_query-Reaches st req q domain us u
  after_get-Reaches (some m) st req q domain us u =
      elim (Bool-cases (chain_blocked lib.to_lower cfg.cname_inspection st.store domain m)) [
        | inl chain ↦ simp (chain) (λ m. not_contacted u m)
        | inr clear ↦ simp (clear) (λ m. not_contacted u m)
      ]

  resolve-Reaches :
      (cache : Option Cache) (st : State) (req : Msg) (q : Question) (domain : Bytes)
      (us : List Bytes)
      → Reaches us (resolve lib texts sort_slice cfg v cache st req q domain us)
  unfolding resolve
  resolve-Reaches none st req q domain us = forward_query-Reaches st req q domain us
  resolve-Reaches (some c) st req q domain us =
      let (c', found) = get lib c req v.read_at v.aged_at in
      after_get-Reaches found (record st { cache = some c' }) req q domain us

  serve_name-Reaches :
      (st : State) (req : Msg) (q : Question) (domain : Bytes) (us : List Bytes) (u : Bytes)
      → member u (serve_name lib texts sort_slice cfg v st req q domain us).contacts ≡ true
      → (member u us ≡ true) × (is_blocked lib.to_lower st.store domain ≡ false)
  unfolding serve_name write_blocked
  serve_name-Reaches st req q domain us u =
      elim (Bool-cases (is_blocked lib.to_lower st.store domain)) [
        | inl listed ↦ rw (listed, serve_name) (λ m. not_contacted u m)
        | inr free ↦
            rw (free, serve_name) (λ m. (resolve-Reaches st.cache st req q domain us u m, refl))
      ]

  -- What is known of a query that reaches the upstream `u`.
  pub record MayReach (st : State) (req : Msg) (u : Bytes) : Type 0 where
    pub allowed : v.client_allowed ≡ true
    pub question : Question
    pub asked : req.question ≡ question ∷ []
    pub opcode : req.opcode ≡ opcode_query
    pub recursion_desired : req.recursion_desired ≡ true
    pub listed : member u cfg.upstreams ≡ true
    pub free : is_blocked lib.to_lower st.store (lib.to_lower question.name) ≡ false
    pub class :
        (classify lib.count_label question.qtype (lib.to_lower question.name) cfg.local_domains
          ≡ public_name)
        ⊎ ((classify lib.count_label question.qtype (lib.to_lower question.name) cfg.local_domains
              ≡ lan_only_name)
            × (v.on_lan u ≡ true))

  -- What route knows of a contact, by the class of the name.
  abbrev Routed : NameClass → State → Bytes → Bytes → Type 0
  Routed c st domain u =
      (member u cfg.upstreams ≡ true)
      × (is_blocked lib.to_lower st.store domain ≡ false)
      × ((c ≡ public_name) ⊎ ((c ≡ lan_only_name) × (v.on_lan u ≡ true)))

  route-Routed :
      (c : NameClass) (st : State) (req : Msg) (q : Question) (domain : Bytes) (u : Bytes)
      → member u (route lib texts sort_slice cfg v c st req q domain).contacts ≡ true
      → Routed c st domain u
  unfolding route local_name
  route-Routed public_name st req q domain u = λ m.
      let (listed, free) = serve_name-Reaches st req q domain cfg.upstreams u m in
      (listed, free, inl refl)
  route-Routed localhost_name st req q domain u = λ m. not_contacted u m
  route-Routed never_resolved st req q domain u = λ m. not_contacted u m
  route-Routed lan_only_name st req q domain u =
      elim (Bool-cases (length (lan_upstreams v.on_lan cfg.upstreams) == 0)) [
        | inl alone ↦ rw alone (λ m. not_contacted u m)
        | inr some_lan ↦ rw some_lan (λ m.
            let (on_list, free) =
              serve_name-Reaches st req q domain (lan_upstreams v.on_lan cfg.upstreams) u m in
            let (listed, near) = member-lan_upstreams v.on_lan cfg.upstreams u on_list in
            (listed, free, inr (refl, near)))
      ]

  serve_question-MayReach :
      (st : State) (req : Msg) (qs : List Question) (u : Bytes)
      → v.client_allowed ≡ true
      → req.question ≡ qs
      → member u (serve_question lib texts sort_slice cfg v st req qs).contacts ≡ true
      → MayReach st req u
  unfolding serve_question serve_query local_ptr_answer
  serve_question-MayReach st req [] u allowed asked = λ m. not_contacted u m
  serve_question-MayReach st req (q ∷ r ∷ qs) u allowed asked = λ m. not_contacted u m
  serve_question-MayReach st req (q ∷ []) u allowed asked =
      elim (Bool-cases (req.opcode == opcode_query)) [
        | inr other ↦ rw other (λ m. not_contacted u m)
        | inl query ↦ elim (Bool-cases req.recursion_desired) [
          | inr no_rd ↦ rw (query, no_rd) (λ m. not_contacted u m)
          | inl rd ↦
              elim (Bool-cases (
                cfg.local_ptr
                && (is_private_ptr lib q.qtype (lib.to_lower q.name)
                    || v.own_prefix_ptr q.qtype (lib.to_lower q.name)))) [
                      | inl ptr ↦ simp (query, rd, ptr) (λ m. not_contacted u m)
                      | inr not_ptr ↦
                          simp (query, rd, not_ptr)
                            (λ m.
                              let (listed, free, class) =
                                route-Routed
                                  (classify lib.count_label q.qtype (lib.to_lower q.name)
                                    cfg.local_domains)
                                  st req q (lib.to_lower q.name) u m in
                              record {
                                allowed = allowed;
                                question = q;
                                asked = asked;
                                opcode = (==_iff req.opcode opcode_query).0 query;
                                recursion_desired = rd;
                                listed = listed;
                                free = free;
                                class = class;
                              })
                    ]
        ]
      ]

  -- An upstream that ServeDNS contacts is a configured one; the query comes from the LAN and has
  -- one question, opcode QUERY and RD=1, its name is not blocked, and the name's class is public,
  -- or LAN-only with that upstream on the LAN.
  pub serve_dns-MayReach :
      (st : State) (req : Msg) (u : Bytes)
      → member u (serve_dns lib texts sort_slice cfg v st req).contacts ≡ true
      → MayReach st req u
  unfolding serve_dns
  serve_dns-MayReach st req u = elim (Bool-cases v.client_allowed) [
    | inr outside ↦ rw (outside, serve_dns) (λ m. not_contacted u m)
    | inl inside ↦ simp (inside) (serve_question-MayReach st req req.question u inside refl)
  ]
