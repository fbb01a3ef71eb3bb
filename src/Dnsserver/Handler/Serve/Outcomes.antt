-- ===== src/Dnsserver/Handler/Serve/Outcomes.antt =====
-- internal/dnsserver/handler.go: the counters, the query log and the reply of each way in which a
-- query ends.
use s_hole.Prelude.{
  ℕ, zero, suc, ◌+◌, Bool, true, false, ◌||◌, List, ◌∷◌, ◌≡◌, refl, sym, ap, ◌∙◌, ◌⊎◌, inl, inr,
  Bytes, ◌==◌, Bool-cases,
}
use s_hole.Dns.{Question, Msg, DnsLibrary, rcode_server_failure, rcode_refused}
use s_hole.Stats.{
  Counts, SortSlice, add_total, add_cname_blocked, add_forward_failure, add_upstream_error,
}
use s_hole.Stats.Increments.{
  counts-record_query, counts-record_cname_blocked, counts-record_forward_failure,
  counts-record_upstream_error,
}
use s_hole.Stats.Loads.{
  Query, blocked_by_name as name_query, blocked_by_cname as cname_query, failed, upstream_failure,
  relayed as relayed_query, second_count, chains,
}
use s_hole.Dnsserver.Upstream.{Outcome, answered, cancelled, all_failed, forward_with}
use s_hole.Dnsserver.Chain.{chain_blocked}
use s_hole.Dnsserver.Edns.{upstream_query, strip_opt}
use s_hole.Dnsserver.Failures.{ErrorTexts, Failure, forward_limit}
use s_hole.Dnsserver.Handler.{
  BlockSource, Record, Config, State, Visit, Served, sent, blocked_by_name, blocked_by_cname,
}
use s_hole.Dnsserver.Handler.Ends.{
  count_query, row, write_blocked, unresolved, store_reply, relayed, forward_outcome,
}
use s_hole.Dnsserver.Handler.Serve.{forward_query}

abbrev pub chained : ℕ → Counts → Counts
chained zero c = c
chained (suc n) c = add_cname_blocked (chained n c)

-- All the increments of a query with this outcome, as the steps of Stats.Loads.
abbrev pub finish : Query → Counts → Counts
finish k c = chained (chains k) (second_count k (add_total c))

abbrev pub is_block : Query → Bool
is_block name_query = true
is_block cname_query = true
is_block _ = false

module _ {E : Type 0} (lib : DnsLibrary) (texts : ErrorTexts E) (sort_slice : SortSlice)
    (cfg : Config) (v : Visit E) where
  -- The call counted one query, with the increments of one outcome, and logged one record, which
  -- says that the query was blocked exactly if the outcome is a block. The record says
  -- that the reply was synthesized, or the reply passes chainBlocked for the name.
  pub record IsAccounted (st : State) (s : Served) : Type 0 where
    pub outcome : Query
    pub row : Record
    pub counts : s.state.counter.counts ≡ finish outcome st.counter.counts
    pub logged : s.state.logged ≡ row ∷ st.logged
    pub blocked : row.blocked ≡ is_block outcome
    pub clear :
        (row.synthesized ≡ true)
        ⊎ ((m : Msg) × (s.written ≡ sent m)
            × (chain_blocked lib.to_lower cfg.cname_inspection st.store row.domain m ≡ false))

  -- Of the start only the counters, the log and the block lists count.
  pub transfer :
      {st st' : State} {s s' : Served}
      → st.counter.counts ≡ st'.counter.counts
      → st.logged ≡ st'.logged
      → st.store ≡ st'.store
      → s.state ≡ s'.state
      → s.written ≡ s'.written
      → IsAccounted st s
      → IsAccounted st' s'
  transfer {st} {st'} {s} {s'} ec el eb es ew h = record {
    outcome = h.outcome;
    row = h.row;
    counts = ap (λ (x : State). x.counter.counts) (sym es) ∙ h.counts ∙ ap (finish h.outcome) ec;
    logged = ap (λ (x : State). x.logged) (sym es) ∙ h.logged ∙ ap (λ l. h.row ∷ l) el;
    blocked = h.blocked;
    clear = elim h.clear [
      | inl own ↦ inl own
      | inr (m, written, free) ↦ inr (
        m,
        sym ew ∙ written,
        ap (λ b. chain_blocked lib.to_lower cfg.cname_inspection b h.row.domain m) (sym eb) ∙ free,
      )
    ];
  }

  pub write_blocked-IsAccounted :
      (st : State) (req : Msg) (q : Question) (domain : Bytes) (source : BlockSource)
      → IsAccounted st (write_blocked lib texts sort_slice cfg v st req q domain source)
  unfolding write_blocked count_query second_count chains
  write_blocked-IsAccounted st req q domain blocked_by_name = record {
    outcome = name_query;
    row = _;
    counts = counts-record_query sort_slice st.counter _ _ true v.counted_at;
    logged = refl;
    blocked = refl;
    clear = inl refl;
  }
  write_blocked-IsAccounted st req q domain blocked_by_cname = record {
    outcome = cname_query;
    row = _;
    counts =
        counts-record_cname_blocked _
        ∙ ap add_cname_blocked (counts-record_query sort_slice st.counter _ _ true v.counted_at);
    logged = refl;
    blocked = refl;
    clear = inl refl;
  }

  pub unresolved-IsAccounted :
      (st : State) (req : Msg) (domain : Bytes) (failure : Failure E)
      → IsAccounted st (unresolved lib texts sort_slice cfg v st req domain failure)
  unfolding unresolved count_query row second_count chains
  unresolved-IsAccounted st req domain failure = record {
    outcome = failed;
    row = _;
    counts =
        counts-record_forward_failure _ v.outcome_at
        ∙ ap add_forward_failure (counts-record_query sort_slice st.counter _ _ false v.counted_at);
    logged = refl;
    blocked = refl;
    clear = inl refl;
  }

  pub relayed-IsAccounted :
      (st : State) (req : Msg) (q : Question) (domain : Bytes) (reply : Msg)
      → IsAccounted st (relayed lib texts sort_slice cfg v st req q domain reply)
  unfolding relayed store_reply count_query row second_count chains
  relayed-IsAccounted st req q domain reply =
      elim (Bool-cases
        (chain_blocked lib.to_lower cfg.cname_inspection st.store domain (strip_opt reply))) [
          | inl chain ↦ simp (chain) (
              transfer refl refl refl refl refl (
                write_blocked-IsAccounted
                  (store_reply lib texts sort_slice cfg v st req (strip_opt reply)) req q domain
                  blocked_by_cname))
          | inr clear ↦
              elim (Bool-cases (
                (strip_opt reply).rcode == rcode_server_failure
                || (strip_opt reply).rcode == rcode_refused)) [
                  | inl fails ↦
                      simp (clear, fails)
                        (record {
                          outcome = upstream_failure;
                          row = _;
                          counts =
                              counts-record_upstream_error _ v.outcome_at
                              ∙ ap add_upstream_error (
                                  counts-record_query sort_slice st.counter _ _ false v.counted_at);
                          logged = refl;
                          blocked = refl;
                          clear = inr (strip_opt reply, refl, clear);
                        })
                  | inr well ↦
                      simp (clear, well)
                        (record {
                          outcome = relayed_query;
                          row = _;
                          counts = counts-record_query sort_slice st.counter _ _ false v.counted_at;
                          logged = refl;
                          blocked = refl;
                          clear = inr (strip_opt reply, refl, clear);
                        })
                ]
        ]

  pub forward_outcome-IsAccounted :
      (st : State) (req : Msg) (q : Question) (domain : Bytes) (outcome : Outcome E)
      → IsAccounted st (forward_outcome lib texts sort_slice cfg v st req q domain outcome)
  unfolding forward_outcome
  forward_outcome-IsAccounted st req q domain (answered reply) =
      relayed-IsAccounted st req q domain reply
  forward_outcome-IsAccounted st req q domain (cancelled e) = unresolved-IsAccounted st req domain _
  forward_outcome-IsAccounted st req q domain (all_failed causes) =
      unresolved-IsAccounted st req domain _

  pub forward_query-IsAccounted :
      (st : State) (req : Msg) (q : Question) (domain : Bytes) (us : List Bytes)
      → IsAccounted st (forward_query lib texts sort_slice cfg v st req q domain us)
  unfolding forward_query
  forward_query-IsAccounted st req q domain us = elim (Bool-cases v.slot_free) [
    | inr taken ↦ simp (taken) (
        transfer refl refl refl refl refl (
          unresolved-IsAccounted (record st { forward_limited = st.forward_limited + 1 }) req domain
            forward_limit))
    | inl free ↦
        let (outcome, p) =
          forward_with lib v.env (upstream_query lib v.id req) us st.tracker st.plaintext_fallbacks
            v.forwarded_at in
        simp (free) (
          transfer refl refl refl refl refl (
            forward_outcome-IsAccounted
              (record st { tracker = p.tracker; plaintext_fallbacks = p.fallbacks }) req q domain
              outcome))
  ]
