-- ===== src/Dnsserver/Handler.antt =====
-- internal/dnsserver/handler.go: ServeDNS, from the query to the reply that it passes to send
-- (edns.go) or, outside the LAN, writes itself (refuse, lan.go). One call runs alone here; the
-- interleaving of calls at the counters is in Stats.Loads.
pub mod Ends
pub mod Serve
use s_hole.Prelude.{ℕ, Bool, List, [], Option, Bytes}
use s_hole.Dns.{Msg}
use s_hole.Blocklist.Store.{Store}
use s_hole.Cache.{Entry, Cache}
use s_hole.Stats.{Counter}
use s_hole.Dnsserver.Upstream.{Tracker, Env}
use s_hole.Dnsserver.Failures.{FailureLog}

-- querylog.BlockSource and querylog.Record
pub data BlockSource : Type 0 where
  blocked_by_name blocked_by_cname : BlockSource

pub record Record : Type 0 where
  pub client_ip : Bytes
  pub domain : Bytes
  pub blocked : Bool
  pub cache_hit : Bool
  pub rcode : ℕ
  pub synthesized : Bool
  pub block_source : BlockSource

-- The settings of the Handler.
pub record Config : Type 0 where
  pub upstreams : List Bytes
  pub block_mode : Bytes
  pub block_ttl : ℕ
  pub local_ptr : Bool
  pub log_mode : Bytes
  pub local_domains : List Bytes
  pub cname_inspection : Bool

-- What the queries share: the parts that the Handler points to, the tracker and the counters of
-- the package, and the records passed to the query log, the last one first.
pub record State : Type 0 where
  pub store : Store
  pub counter : Counter
  pub cache : Option Cache
  pub tracker : Tracker
  pub plaintext_fallbacks : ℕ
  pub logged : List Record
  pub refused_queries : ℕ
  pub forward_limited : ℕ
  pub failures : FailureLog

-- What one query meets outside the state: the result of the LAN test on its source and the masked
-- client, ownPrefixPTR, the LAN test on an upstream, the range order of the cache's map, the random
-- ID, whether a forward slot is free, the network, and the readings of the clock.
pub record Visit (E : Type 0) : Type 0 where
  pub client_allowed : Bool
  pub client_ip : Bytes
  pub own_prefix_ptr : ℕ → Bytes → Bool
  pub on_lan : Bytes → Bool
  pub order : List (Bytes × Entry)
  pub id : ℕ
  pub slot_free : Bool
  pub env : Env E
  pub counted_at : ℕ
  pub outcome_at : ℕ
  pub read_at : ℕ
  pub aged_at : ℕ
  pub forwarded_at : ℕ
  pub stored_at : ℕ

-- A reply that goes to the client through send, or as it is.
pub data Written : Type 0 where
  sent refused : Msg → Written

-- The end of a call, with the upstreams that it contacted.
pub record Served : Type 0 where
  pub state : State
  pub written : Written
  pub contacts : List Bytes

abbrev pub done : State → Msg → Served
done st m = record { state = st; written = sent m; contacts = [] }
