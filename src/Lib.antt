-- ===== src/Lib.antt =====
-- s-hole is a DNS sinkhole for a home network: it answers queries for blocked names itself and
-- forwards the others to upstream resolvers. For each query the handler (internal/dnsserver) asks
-- the blocklist store (internal/blocklist), then the response cache (internal/cache), then the
-- upstreams, counts the outcome in the statistics (internal/stats) and passes a record to the query
-- log (internal/querylog). At the start and at each reload the loader fills the store from lists.
--
-- The files and the code that they model:
--   Prelude            shared names, Boolean tests on numbers and texts, lists, and sets of texts
--                      (the keys of a Go map) as lists without duplicates
--   Blocklist/Normalize  normalize of internal/blocklist/store.go; Ascii has its laws
--   Blocklist/Store    the state and the changes of Store (Replace, SetAllowlist, AddToAllowlist,
--                      AddToAllowlistLimited, RemoveFromAllowlist, setSources); Lookup has
--                      IsBlocked, IsAllowlisted and Explain
--   Blocklist/Loader   internal/blocklist/loader.go: Domains is ValidDomain, Hosts the reading of a
--                      list, Files the cache files and PurgeCache, Fetch fetchList and the redirect
--                      policy, Update the reload; their children hold laws
--   Dns                the messages and the functions of github.com/miekg/dns that the code uses, the
--                      latter as the parameter `DnsLibrary` with the facts `DnsLaws`; Sample has a
--                      concrete library for the tests
--   Cache              internal/cache/cache.go; Table, Ttl, Invariant, Keys, Reads and Full hold laws
--   Stats              internal/stats/stats.go; Graph is internal/stats/timeline.go (Window and
--                      Series hold laws of its ring and of the series drawn); Loads is the
--                      interleaving of concurrent queries with a snapshot; Tops are the Top lists
--   Dnsserver/Upstream  internal/dnsserver/upstream.go; Sweeps, Forward, Once and Listed hold laws
--   Dnsserver/LocalNames  internal/dnsserver/localnames.go; Routes has the laws of the suffixes
--   Dnsserver/Chain    internal/dnsserver/cname.go; Targets says which replies it blocks
--   Dnsserver/Edns     upstreamQuery and stripOPT of internal/dnsserver/edns.go; Exchanges has laws
--   Dnsserver/Failures  internal/dnsserver/failures.go; Intervals has laws of its two summaries
--   Dnsserver/Lan      internal/dnsserver/lan.go, with the reads of the interfaces as a
--                      trace; Ranges and Refreshes hold laws
--   Dnsserver/Dot      internal/dnsserver/dot.go: Slots has the steps of the connection limit,
--                      Certificates the laws of the reloads
--   Dnsserver/Ptr      the private reverse zones of internal/dnsserver/handler.go
--   Dnsserver/Handler  the state and the settings of the handler; Ends and Serve are
--                      ServeDNS of internal/dnsserver/handler.go, one function per branch;
--                      Privacy, Outcomes and Accounts hold laws
--   Api                internal/api/security.go: Security is the code; Hosts, Headers and
--                      Gate hold laws
--   Querylog           internal/querylog: Outcomes, Mask and File are logger.go, Zero is zero.go; Modes
--                      compares the rule of the handler with that of FileLogger
--
-- Texts are lists of bytes. A Go map is an association list or a list of keys; where the code ranges
-- over a map, the order is an argument. Each clock reading is an argument, in nanoseconds as a
-- natural number (the cache, the tracker) or in Unix seconds (the graph). Counters are natural numbers,
-- without the wrap-around of 64 bits. TTLs and elapsed seconds keep the 32 bits of the code. Methods
-- that hold a lock are one step each, so they are functions on the state; the atomic counters are
-- not, and Stats.Loads takes their increments and loads one by one.
--
-- The lookup loops run on fuel, one more than the bytes of the name. Each round drops at least one
-- byte, and the lemmas hold for every larger fuel, so the fuel never runs out. The
-- loop of isPrivatePTR runs on the bytes of the name, one more; that dns.NextLabel ends within them is
-- documented behaviour of that function, on which no result rests. The other loops are structural.
--
-- The network is a parameter: the environment `Env` of Dnsserver/Upstream gives the result of each
-- exchange, the context's error and the clock for each contact. strings.ToLower, strings.EqualFold
-- and sort.Slice are parameters too.
--
-- Of one query the handler takes as arguments (`Visit` of Dnsserver/Handler) the result of the LAN
-- test on its source and on the upstreams, the masked client address, ownPrefixPTR, whether a forward
-- slot is free, the random ID, and the network. Dnsserver/Lan models the LAN test by itself, on
-- addresses that are lists of bits. The reply is the message that ServeDNS passes to send.
--
-- Of a download the loader takes as an argument (`Attempt` of Blocklist/Loader/Fetch) the answer of the
-- server, as the bytes of the body and the error that it ends with, the errors of the file system, and
-- the clock. A body reports its end in a read of its own. The loop over a list is structural; where
-- the code reads runes, the model reads the bytes of their UTF-8 form, which gives the same result
-- for each text, valid or not. Names of files stand for paths in the one directory blocking.cache_dir.
--
-- A FileLogger changes in steps: a call of Log, a line that the goroutine writes, a purge. `written` is
-- what the output keeps of a line, so that a failed write loses a line or a part of it. zeroFile takes
-- the answers of the operating system as arguments; its loop runs on fuel, one more than the size of
-- the file, and the law of zero_file shows that it ends before: without an error every byte is zero.
--
-- Not modelled: send, ip6Prefix, the sockets of the listeners, the database of the query log, the
-- configuration, the handlers of the HTTP API, the command, and the tools around them. Of the loader
-- and the query log the lines that only write to the server's own log are left out.
pub mod Prelude
pub mod Blocklist
pub mod Dns
pub mod Cache
pub mod Querylog
pub mod Stats
pub mod Dnsserver
pub mod Api
