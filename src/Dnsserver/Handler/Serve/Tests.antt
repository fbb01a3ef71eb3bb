-- ===== src/Dnsserver/Handler/Serve/Tests.antt =====
-- Tests of the handler, and its theorems at concrete inputs.
use s_hole.Prelude.{true, false, [], ◌∷◌, ◌≡◌, refl, none, Bytes, codes, ◌+◌}
use s_hole.Prelude.Sets.{member, insert}
use s_hole.Dns.Sample.{lib, query, reply as answer}
use s_hole.Blocklist.Normalize.{
  ends_in, drop_last, strip_dot, is_upper, scan_case, lower_byte, normalize_case, normalize,
}
use s_hole.Blocklist.Store.{new_store, parent}
use s_hole.Blocklist.Store.Lookup.{is_blocked, is_blocked_loop}
use s_hole.Stats.{SortSlice, new_counter}
use s_hole.Dnsserver.Upstream.{
  new_tracker, find, put, remove, get_or_zero, should_skip, record_failure, record_success,
  count_plaintext_fallback, reply, error, Env, same_question, check_reply, retry, exchange, contact,
  first_sweep, second_sweep, no_answer, forward_with,
}
use s_hole.Dnsserver.Edns.{upstream_query}
use s_hole.Dnsserver.Failures.{ErrorTexts, new_failure_log}
use s_hole.Prelude.Text.{has_suffix}
use s_hole.Dnsserver.LocalNames.{
  is_public, is_dot_at, under_suffix, zone_type, suffix_class, classify,
}
use s_hole.Dnsserver.Handler.{Config, State, Visit}
use s_hole.Dnsserver.Handler.Ends.{forward_outcome}
use s_hole.Dnsserver.Handler.Serve.{
  forward_query, resolve, serve_name, route, serve_query, serve_question, serve_dns,
}
use s_hole.Dnsserver.Handler.Serve.Privacy.{MayReach, serve_dns-MayReach}
use s_hole.Dnsserver.Handler.Serve.Outcomes.{IsAccounted}
use s_hole.Dnsserver.Handler.Serve.Accounts.{serve_dns-IsAccounted, serve_dns-no_trace}

abbrev plain_upstream : Bytes
plain_upstream = codes "1.1.1.1:53"

abbrev texts : ErrorTexts Bytes
texts = record { text = λ e. e; clock_suspect = λ e. false; redact = λ u. u }

abbrev unsorted : SortSlice
unsorted = λ less m. m

abbrev settings : Config
settings = record {
  upstreams = plain_upstream ∷ [];
  block_mode = codes "zero_ip";
  block_ttl = 300;
  local_ptr = false;
  log_mode = codes "none";
  local_domains = [];
  cname_inspection = true;
}

abbrev network : Env Bytes
network = record {
  doh = λ n u. error (codes "refused");
  udp = λ n u. reply answer;
  tcp = λ n u. error (codes "refused");
  ctx_err = λ n. none;
  clock = λ n. 1000;
  mismatch = codes "reply does not match the query";
}

abbrev visit : Visit Bytes
visit = record {
  client_allowed = true;
  client_ip = codes "192.168.1.0";
  own_prefix_ptr = λ t n. false;
  on_lan = λ u. false;
  order = [];
  id = 7;
  slot_free = true;
  env = network;
  counted_at = 60;
  outcome_at = 60;
  read_at = 0;
  aged_at = 0;
  forwarded_at = 1000;
  stored_at = 0;
}

-- A visit from outside the LAN.
abbrev stray_visit : Visit Bytes
stray_visit = record visit { client_allowed = false }

abbrev state : State
state = record {
  store = new_store;
  counter = new_counter;
  cache = none;
  tracker = new_tracker;
  plaintext_fallbacks = 0;
  logged = [];
  refused_queries = 0;
  forward_limited = 0;
  failures = new_failure_log;
}

code : Unit {0}
unfolding serve_dns serve_question serve_query route serve_name resolve forward_query
    forward_outcome is_blocked is_blocked_loop normalize ends_in drop_last strip_dot is_upper
    scan_case lower_byte normalize_case parent member insert find put remove get_or_zero should_skip
    record_failure record_success count_plaintext_fallback same_question check_reply retry exchange
    contact first_sweep second_sweep no_answer forward_with upstream_query is_public has_suffix
    is_dot_at under_suffix zone_type suffix_class classify
code = tt

forwarded : (serve_dns lib texts unsorted settings visit state query).contacts ≡ plain_upstream ∷ []
unfolding code
forwarded = refl

serve_dns-MayReach_example : MayReach lib texts unsorted settings visit state query plain_upstream
unfolding code
serve_dns-MayReach_example =
    serve_dns-MayReach lib texts unsorted settings visit state query plain_upstream refl

serve_dns-IsAccounted_example :
    IsAccounted lib texts unsorted settings visit state
      (serve_dns lib texts unsorted settings visit state query)
serve_dns-IsAccounted_example =
    serve_dns-IsAccounted lib texts unsorted settings visit state query
      (record { name = codes "a.com."; qtype = 1; qclass = 1 }) refl refl refl refl

serve_dns-no_trace_example :
    ((serve_dns lib texts unsorted settings stray_visit state query).state
      ≡ record state { refused_queries = 0 + 1 })
    × ((serve_dns lib texts unsorted settings stray_visit state query).contacts ≡ [])
serve_dns-no_trace_example =
    serve_dns-no_trace lib texts unsorted settings stray_visit state query
      (λ (inside, one, query, rd). cc)
