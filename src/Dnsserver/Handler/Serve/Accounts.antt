-- ===== src/Dnsserver/Handler/Serve/Accounts.antt =====
-- internal/dnsserver/handler.go, ServeDNS: the counters and the query log.
use s_hole.Prelude.{
  ℕ, ◌+◌, true, false, ◌&&◌, ◌||◌, List, [], ◌∷◌, ◌≡◌, refl, ap, ◌∙◌, Option, none, some, inl, inr,
  Bytes, length, ◌==◌, ==_iff, if◌then◌else◌, Bool-cases,
}
use s_hole.Dns.{Question, Msg, DnsLibrary, opcode_query}
use s_hole.Blocklist.Store.Lookup.{is_blocked}
use s_hole.Cache.{Cache, get}
use s_hole.Stats.{SortSlice, add_local_ptr, add_local_name, add_cache_hit}
use s_hole.Stats.Increments.{
  counts-record_query, counts-record_cache_hit, counts-record_local_ptr, counts-record_local_name,
}
use s_hole.Stats.Loads.{local_ptr_query, local_name_query, cached, second_count, chains}
use s_hole.Dnsserver.Chain.{chain_blocked}
use s_hole.Dnsserver.Ptr.{is_private_ptr}
use s_hole.Dnsserver.Failures.{ErrorTexts}
use s_hole.Dnsserver.LocalNames.{
  NameClass, public_name, localhost_name, never_resolved, lan_only_name, lan_upstreams,
}
use s_hole.Dnsserver.Handler.{Config, State, Visit, blocked_by_name, blocked_by_cname}
use s_hole.Dnsserver.Handler.Ends.{count_query, row}
use s_hole.Dnsserver.Handler.Serve.{
  after_get, resolve, serve_name, local_name, local_ptr_answer, route, serve_query, serve_question,
  serve_dns,
}
use s_hole.Dnsserver.Handler.Serve.Outcomes.{
  IsAccounted, transfer, write_blocked-IsAccounted, forward_query-IsAccounted,
}

module _ {E : Type 0} (lib : DnsLibrary) (texts : ErrorTexts E) (sort_slice : SortSlice)
    (cfg : Config) (v : Visit E) where
  after_get-IsAccounted :
      (found : Option Msg) (st : State) (req : Msg) (q : Question) (domain : Bytes)
      (us : List Bytes)
      → IsAccounted lib texts sort_slice cfg v st
          (after_get lib texts sort_slice cfg v found st req q domain us)
  unfolding after_get count_query row second_count chains
  after_get-IsAccounted none st req q domain us =
      forward_query-IsAccounted lib texts sort_slice cfg v st req q domain us
  after_get-IsAccounted (some m) st req q domain us =
      elim (Bool-cases (chain_blocked lib.to_lower cfg.cname_inspection st.store domain m)) [
        | inl chain ↦
            simp (chain) (
              write_blocked-IsAccounted lib texts sort_slice cfg v st req q domain blocked_by_cname)
        | inr clear ↦ simp (clear) (record {
          outcome = cached;
          row = _;
          counts =
              counts-record_cache_hit _ v.outcome_at
              ∙ ap add_cache_hit (counts-record_query sort_slice st.counter _ _ false v.counted_at);
          logged = refl;
          blocked = refl;
          clear = inr (m, refl, clear);
        })
      ]

  resolve-IsAccounted :
      (cache : Option Cache) (st : State) (req : Msg) (q : Question) (domain : Bytes)
      (us : List Bytes)
      → IsAccounted lib texts sort_slice cfg v st
          (resolve lib texts sort_slice cfg v cache st req q domain us)
  unfolding resolve
  resolve-IsAccounted none st req q domain us =
      forward_query-IsAccounted lib texts sort_slice cfg v st req q domain us
  resolve-IsAccounted (some c) st req q domain us =
      let (c', found) = get lib c req v.read_at v.aged_at in
      transfer lib texts sort_slice cfg v refl refl refl refl refl
        (after_get-IsAccounted found (record st { cache = some c' }) req q domain us)

  serve_name-IsAccounted :
      (st : State) (req : Msg) (q : Question) (domain : Bytes) (us : List Bytes)
      → IsAccounted lib texts sort_slice cfg v st
          (serve_name lib texts sort_slice cfg v st req q domain us)
  unfolding serve_name
  serve_name-IsAccounted st req q domain us =
      elim (Bool-cases (is_blocked lib.to_lower st.store domain)) [
        | inl listed ↦
            simp (listed)
              (write_blocked-IsAccounted lib texts sort_slice cfg v st req q domain blocked_by_name)
        | inr free ↦ simp (free) (resolve-IsAccounted st.cache st req q domain us)
      ]

  local_name-IsAccounted :
      (st : State) (domain : Bytes) (rcode : ℕ) (reply : Msg)
      → IsAccounted lib texts sort_slice cfg v st
          (local_name lib texts sort_slice cfg v st domain rcode reply)
  unfolding local_name count_query row second_count chains
  local_name-IsAccounted st domain rcode reply = record {
    outcome = local_name_query;
    row = _;
    counts =
        counts-record_local_name _
        ∙ ap add_local_name (counts-record_query sort_slice st.counter _ _ false v.counted_at);
    logged = refl;
    blocked = refl;
    clear = inl refl;
  }

  local_ptr_answer-IsAccounted :
      (st : State) (req : Msg) (domain : Bytes)
      → IsAccounted lib texts sort_slice cfg v st
          (local_ptr_answer lib texts sort_slice cfg v st req domain)
  unfolding local_ptr_answer count_query row second_count chains
  local_ptr_answer-IsAccounted st req domain = record {
    outcome = local_ptr_query;
    row = _;
    counts =
        counts-record_local_ptr _
        ∙ ap add_local_ptr (counts-record_query sort_slice st.counter _ _ false v.counted_at);
    logged = refl;
    blocked = refl;
    clear = inl refl;
  }

  route-IsAccounted :
      (c : NameClass) (st : State) (req : Msg) (q : Question) (domain : Bytes)
      → IsAccounted lib texts sort_slice cfg v st
          (route lib texts sort_slice cfg v c st req q domain)
  unfolding route
  route-IsAccounted public_name st req q domain = serve_name-IsAccounted st req q domain _
  route-IsAccounted localhost_name st req q domain = local_name-IsAccounted st domain _ _
  route-IsAccounted never_resolved st req q domain = local_name-IsAccounted st domain _ _
  route-IsAccounted lan_only_name st req q domain =
      elim (Bool-cases (length (lan_upstreams v.on_lan cfg.upstreams) == 0)) [
        | inl alone ↦ simp (alone) (local_name-IsAccounted st domain _ _)
        | inr some_lan ↦ simp (some_lan) (serve_name-IsAccounted st req q domain _)
      ]

  serve_query-IsAccounted :
      (st : State) (req : Msg) (q : Question)
      → IsAccounted lib texts sort_slice cfg v st (serve_query lib texts sort_slice cfg v st req q)
  unfolding serve_query
  serve_query-IsAccounted st req q =
      elim (Bool-cases (
        cfg.local_ptr
        && (is_private_ptr lib q.qtype (lib.to_lower q.name)
            || v.own_prefix_ptr q.qtype (lib.to_lower q.name)))) [
              | inl ptr ↦ simp (ptr) (local_ptr_answer-IsAccounted st req _)
              | inr other ↦ simp (other) (route-IsAccounted _ st req q _)
            ]

  -- A query that ServeDNS takes up counts once, whatever becomes of it: the counters change by the
  -- increments of exactly one outcome of Stats.Loads, the query log gets one record, the record says
  -- "blocked" exactly if the outcome is a block, and a reply that is not recorded as
  -- synthesized passes chainBlocked. Taken up are the queries from the LAN with one question, opcode QUERY and RD=1.
  pub serve_dns-IsAccounted :
      (st : State) (req : Msg) (q : Question)
      → v.client_allowed ≡ true
      → req.question ≡ q ∷ []
      → req.opcode ≡ opcode_query
      → req.recursion_desired ≡ true
      → IsAccounted lib texts sort_slice cfg v st (serve_dns lib texts sort_slice cfg v st req)
  unfolding serve_dns serve_question
  serve_dns-IsAccounted st req q inside asked query rd =
      simp (inside, asked, query, rd) (serve_query-IsAccounted st req q)

  serve_question-no_trace :
      (st : State) (req : Msg) (qs : List Question)
      → ((length qs ≡ 1) → (req.opcode ≡ opcode_query) → (req.recursion_desired ≡ true) → ⊥)
      → ((serve_question lib texts sort_slice cfg v st req qs).state ≡ st)
        × ((serve_question lib texts sort_slice cfg v st req qs).contacts ≡ [])
  unfolding serve_question
  serve_question-no_trace st req [] stray = (refl, refl)
  serve_question-no_trace st req (q ∷ r ∷ qs) stray = (refl, refl)
  serve_question-no_trace st req (q ∷ []) stray = elim (Bool-cases (req.opcode == opcode_query)) [
    | inr other ↦ simp (other) (refl, refl)
    | inl query ↦ elim (Bool-cases req.recursion_desired) [
      | inr no_rd ↦ simp (query, no_rd) (refl, refl)
      | inl rd ↦ absurd (stray refl ((==_iff req.opcode opcode_query).0 query) rd)
    ]
  ]

  -- A query that ServeDNS does not take up leaves no trace but in the count of refused queries: the
  -- state stays as it is (for a query from the LAN, all of it), and no upstream is contacted.
  pub serve_dns-no_trace :
      (st : State) (req : Msg)
      → ¬ (
          (v.client_allowed ≡ true)
          × (length req.question ≡ 1)
          × (req.opcode ≡ opcode_query)
          × (req.recursion_desired ≡ true))
      → ((serve_dns lib texts sort_slice cfg v st req).state ≡ (
          if v.client_allowed then st else record st { refused_queries = st.refused_queries + 1 }))
        × ((serve_dns lib texts sort_slice cfg v st req).contacts ≡ [])
  unfolding serve_dns
  serve_dns-no_trace st req stray = elim (Bool-cases v.client_allowed) [
    | inr outside ↦ simp (outside) (refl, refl)
    | inl inside ↦ simp (inside) (
        serve_question-no_trace st req req.question
          (λ one query rd. stray (inside, one, query, rd)))
  ]
