-- ===== src/Dnsserver/Handler/Serve.antt =====
-- internal/dnsserver/handler.go: ServeDNS, from the forward at the bottom up to the guards.
mod Tests
pub mod Privacy
pub mod Outcomes
pub mod Accounts
use s_hole.Prelude.{
  ℕ, ◌+◌, true, false, not, ◌&&◌, ◌||◌, List, [], ◌∷◌, Option, none, some, Bytes, length, ◌==◌,
  if◌then◌else◌,
}
use s_hole.Dns.{
  Question, Msg, DnsLibrary, opcode_query, rcode_success, rcode_server_failure, rcode_name_error,
  rcode_not_implemented, rcode_refused,
}
use s_hole.Blocklist.Store.Lookup.{is_blocked}
use s_hole.Cache.{Cache, get}
use s_hole.Stats.{SortSlice, record_cache_hit, record_local_ptr, record_local_name}
use s_hole.Dnsserver.Upstream.{forward_with}
use s_hole.Dnsserver.Chain.{chain_blocked}
use s_hole.Dnsserver.Edns.{upstream_query}
use s_hole.Dnsserver.Ptr.{is_private_ptr}
use s_hole.Dnsserver.Failures.{forward_limit, ErrorTexts}
use s_hole.Dnsserver.LocalNames.{
  NameClass, public_name, localhost_name, never_resolved, lan_only_name, classify, lan_upstreams,
}
use s_hole.Dnsserver.Handler.{
  blocked_by_name, blocked_by_cname, Config, State, Visit, refused, Served, done,
}
use s_hole.Dnsserver.Handler.Ends.{
  log, count_query, row, rcode_reply, local_nxdomain, localhost_reply, write_blocked, unresolved,
  forward_outcome,
}

module _ {E : Type 0} (lib : DnsLibrary) (texts : ErrorTexts E) (sort_slice : SortSlice)
    (cfg : Config) (v : Visit E) where
  -- The forward, under the limit of the slots; `upstreams` are those that the class admits.
  pub forward_query : State → Msg → Question → Bytes → List Bytes → Served
  unfolding unresolved forward_outcome
  forward_query st req q domain upstreams =
      if not v.slot_free
      then unresolved lib texts sort_slice cfg v
          (record st { forward_limited = st.forward_limited + 1 }) req domain forward_limit
      else let (outcome, p) =
          forward_with lib v.env (upstream_query lib v.id req) upstreams st.tracker
            st.plaintext_fallbacks v.forwarded_at in
        let after = record st { tracker = p.tracker; plaintext_fallbacks = p.fallbacks } in
        let served = forward_outcome lib texts sort_slice cfg v after req q domain outcome in
        record served { contacts = p.contacts }

  -- What follows h.cache.Get: a cached reply is served, or the query goes upstream.
  pub after_get : Option Msg → State → Msg → Question → Bytes → List Bytes → Served
  unfolding forward_query write_blocked count_query row
  after_get none st req q domain upstreams = forward_query st req q domain upstreams
  after_get (some cached) st req q domain upstreams =
      if chain_blocked lib.to_lower cfg.cname_inspection st.store domain cached
      then write_blocked lib texts sort_slice cfg v st req q domain blocked_by_cname
      else let counted = count_query lib texts sort_slice cfg v domain false st in
        done
          (log (row lib texts sort_slice cfg v domain true cached.rcode false)
            (record counted { counter = record_cache_hit counted.counter v.outcome_at }))
          cached

  -- The cache, if there is one, and behind it the upstreams.
  pub resolve : Option Cache → State → Msg → Question → Bytes → List Bytes → Served
  unfolding forward_query after_get
  resolve none st req q domain upstreams = forward_query st req q domain upstreams
  resolve (some c) st req q domain upstreams =
      let (c', found) = get lib c req v.read_at v.aged_at in
      after_get found (record st { cache = some c' }) req q domain upstreams

  -- From the blocklist on.
  pub serve_name : State → Msg → Question → Bytes → List Bytes → Served
  unfolding resolve write_blocked
  serve_name st req q domain upstreams =
      if is_blocked lib.to_lower st.store domain
      then write_blocked lib texts sort_slice cfg v st req q domain blocked_by_name
      else resolve st.cache st req q domain upstreams

  -- The end of a query for a name that is answered on the spot.
  pub local_name : State → Bytes → ℕ → Msg → Served
  unfolding count_query row
  local_name st domain rcode reply =
      let counted = count_query lib texts sort_slice cfg v domain false st in
      done
        (log (row lib texts sort_slice cfg v domain false rcode true)
          (record counted { counter = record_local_name counted.counter }))
        reply

  -- The end of a reverse lookup that stays here.
  pub local_ptr_answer : State → Msg → Bytes → Served
  unfolding count_query row local_nxdomain
  local_ptr_answer st req domain =
      let counted = count_query lib texts sort_slice cfg v domain false st in
      done
        (log (row lib texts sort_slice cfg v domain false rcode_name_error true)
          (record counted { counter = record_local_ptr counted.counter }))
        (local_nxdomain lib texts sort_slice cfg v req)

  -- The branches on the class of the name.
  pub route : NameClass → State → Msg → Question → Bytes → Served
  unfolding serve_name local_name local_nxdomain localhost_reply
  route public_name st req q domain = serve_name st req q domain cfg.upstreams
  route localhost_name st req q domain =
      local_name st domain rcode_success (localhost_reply lib texts sort_slice cfg v req q)
  route never_resolved st req q domain =
      local_name st domain rcode_name_error (local_nxdomain lib texts sort_slice cfg v req)
  route lan_only_name st req q domain =
      let upstreams = lan_upstreams v.on_lan cfg.upstreams in
      if length upstreams == 0
      then local_name st domain rcode_name_error (local_nxdomain lib texts sort_slice cfg v req)
      else serve_name st req q domain upstreams

  -- A query with one question, QUERY and RD=1, from the LAN.
  pub serve_query : State → Msg → Question → Served
  unfolding route local_ptr_answer
  serve_query st req q =
      let domain = lib.to_lower q.name in
      if cfg.local_ptr && (is_private_ptr lib q.qtype domain || v.own_prefix_ptr q.qtype domain)
      then local_ptr_answer st req domain
      else route (classify lib.count_label q.qtype domain cfg.local_domains) st req q domain

  pub serve_question : State → Msg → List Question → Served
  unfolding serve_query rcode_reply
  serve_question st req (q ∷ []) =
      if not (req.opcode == opcode_query)
      then done st (rcode_reply lib texts sort_slice cfg v req rcode_not_implemented)
      else if not req.recursion_desired
      then done st (rcode_reply lib texts sort_slice cfg v req rcode_refused)
      else serve_query st req q
  serve_question st req _ =
      done st (rcode_reply lib texts sort_slice cfg v req rcode_server_failure)

  pub serve_dns : State → Msg → Served
  unfolding serve_question rcode_reply
  serve_dns st req =
      if not v.client_allowed
      then record {
        state = record st { refused_queries = st.refused_queries + 1 };
        written = refused (rcode_reply lib texts sort_slice cfg v req rcode_refused);
        contacts = [];
      }
      else serve_question st req req.question
