-- ===== src/Dnsserver/Handler/Ends.antt =====
-- internal/dnsserver/handler.go: how ServeDNS ends a query, with the counters, the query log and
-- the reply.
use s_hole.Prelude.{
  ℕ, zero, suc, Bool, true, false, not, ◌||◌, List, [], ◌∷◌, ◌++◌, none, some, Bytes, codes,
  text_eq, ◌==◌, if◌then◌else◌,
}
use s_hole.Dns.{
  Question, Header, Rr, a, aaaa, Msg, DnsLibrary, new_msg, type_a, type_aaaa, class_inet,
  rcode_success, rcode_server_failure, rcode_name_error, rcode_refused,
}
use s_hole.Cache.{set}
use s_hole.Stats.{
  SortSlice, record_query, record_cname_blocked, record_forward_failure, record_upstream_error,
}
use s_hole.Dnsserver.Upstream.{Outcome, answered, cancelled, all_failed}
use s_hole.Dnsserver.Chain.{chain_blocked}
use s_hole.Dnsserver.Edns.{strip_opt}
use s_hole.Dnsserver.Failures.{Failure, forward_error, other_error, ErrorTexts, record_unresolved}
use s_hole.Dnsserver.Handler.{
  BlockSource, blocked_by_name, blocked_by_cname, Record, Config, State, Visit, Served, done,
}

-- The rule of the query loggers, over query_log.mode.
unfoldable pub records : Bytes → Bool → Bool
records log_mode blocked =
    if text_eq log_mode (codes "all")
    then true
    else if text_eq log_mode (codes "blocked")
    then blocked
    else false

unfoldable pub tally_key : Bytes → Bool → Bytes → Bytes
unfolding records
tally_key log_mode blocked text = if not (records log_mode blocked) then [] else text

abbrev pub log : Record → State → State
log r st = record st { logged = r ∷ st.logged }

abbrev pub zero_address : ℕ → Bytes
zero_address zero = []
zero_address (suc n) = 0 ∷ zero_address n

module _ {E : Type 0} (lib : DnsLibrary) (texts : ErrorTexts E) (sort_slice : SortSlice)
    (cfg : Config) (v : Visit E) where
  -- recordQuery
  unfoldable pub count_query : Bytes → Bool → State → State
  unfolding tally_key
  count_query domain blocked st = record st {
    counter =
        record_query sort_slice st.counter (tally_key cfg.log_mode blocked v.client_ip)
          (tally_key cfg.log_mode blocked domain) blocked v.counted_at;
  }

  -- The record of a query that is not blocked.
  unfoldable pub row : Bytes → Bool → ℕ → Bool → Record
  row domain cache_hit rcode synthesized = record {
    client_ip = v.client_ip;
    domain = domain;
    blocked = false;
    cache_hit = cache_hit;
    rcode = rcode;
    synthesized = synthesized;
    block_source = blocked_by_name;
  }

  unfoldable pub rcode_reply : Msg → ℕ → Msg
  rcode_reply req rcode = lib.set_rcode new_msg req rcode

  unfoldable pub local_nxdomain : Msg → Msg
  local_nxdomain req =
      lib.set_rcode (record (lib.set_reply new_msg req) { authoritative = true }) req
        rcode_name_error

  -- The address record of a synthesized answer; none for a type other than A and AAAA.
  unfoldable pub address_answer : Question → ℕ → Bytes → Bytes → List Rr
  address_answer q ttl v4 v6 =
      let header : Header = record {
        name = q.name;
        rrtype = q.qtype;
        class = class_inet;
        ttl = ttl;
      } in
      if q.qtype == type_a
      then record { header = header; rdata = a v4 } ∷ []
      else if q.qtype == type_aaaa
      then record { header = header; rdata = aaaa v6 } ∷ []
      else []

  -- writeSinkhole
  unfoldable pub sinkhole : Msg → Question → Msg
  unfolding address_answer
  sinkhole req q =
      let resp = record (lib.set_reply new_msg req) { authoritative = true } in
      if text_eq cfg.block_mode (codes "nxdomain")
      then lib.set_rcode resp req rcode_name_error
      else record resp {
        answer = resp.answer ++ address_answer q cfg.block_ttl (zero_address 4) (zero_address 16);
      }

  -- writeLocalhost, with localhostTTL
  unfoldable pub localhost_reply : Msg → Question → Msg
  unfolding address_answer
  localhost_reply req q =
      let resp = record (lib.set_reply new_msg req) { authoritative = true } in
      record resp {
        answer =
            resp.answer ++ address_answer q 3600 (127 ∷ 0 ∷ 0 ∷ 1 ∷ []) (zero_address 15 ++ 1 ∷ []);
      }

  unfoldable pub write_blocked : State → Msg → Question → Bytes → BlockSource → Served
  unfolding count_query sinkhole
  write_blocked st req q domain source =
      let counted = count_query domain true st in
      let marked : State = elim source [
        | blocked_by_name ↦ counted
        | blocked_by_cname ↦ record counted { counter = record_cname_blocked counted.counter }
      ] in
      let rcode =
        if text_eq cfg.block_mode (codes "nxdomain") then rcode_name_error else rcode_success in
      done
        (log
          (record {
            client_ip = v.client_ip;
            domain = domain;
            blocked = true;
            cache_hit = false;
            rcode = rcode;
            synthesized = true;
            block_source = source;
          })
          marked)
        (sinkhole req q)

  -- The end of a query that no upstream resolved, or that found no forward slot.
  unfoldable pub unresolved : State → Msg → Bytes → Failure E → Served
  unfolding count_query row rcode_reply
  unresolved st req domain failure =
      let failed = record st { failures = record_unresolved texts failure st.failures } in
      let counted = count_query domain false failed in
      done
        (log (row domain false rcode_server_failure true)
          (record counted { counter = record_forward_failure counted.counter v.outcome_at }))
        (rcode_reply req rcode_server_failure)

  -- h.cache.Set, with a nil cache when caching is off.
  unfoldable pub store_reply : State → Msg → Msg → State
  store_reply st req resp = record st {
    cache = elim st.cache [ none ↦ none | some c ↦ some (set lib v.order c req resp v.stored_at) ];
  }

  -- The end of a query that an upstream answered.
  unfoldable pub relayed : State → Msg → Question → Bytes → Msg → Served
  unfolding store_reply count_query row write_blocked
  relayed st req q domain reply =
      let resp = strip_opt reply in
      let stored = store_reply st req resp in
      if chain_blocked lib.to_lower cfg.cname_inspection st.store domain resp
      then write_blocked stored req q domain blocked_by_cname
      else let counted = count_query domain false stored in
        let noted =
          if resp.rcode == rcode_server_failure || resp.rcode == rcode_refused
          then record counted { counter = record_upstream_error counted.counter v.outcome_at }
          else counted in
        done (log (row domain false resp.rcode false) noted) resp

  -- What follows the call of forward.
  unfoldable pub forward_outcome : State → Msg → Question → Bytes → Outcome E → Served
  unfolding unresolved relayed
  forward_outcome st req q domain (answered reply) = relayed st req q domain reply
  forward_outcome st req q domain (cancelled e) = unresolved st req domain (other_error e)
  forward_outcome st req q domain (all_failed causes) =
      unresolved st req domain (forward_error causes)
