-- ===== src/Cache.antt =====
-- internal/cache/cache.go: the TTL cache of DNS replies. A method is a function of the state that
-- the mutex and the atomic counters guard. Times are nanoseconds; a method that reads the clock
-- takes the readings as arguments, and one that ranges over the map takes the order of that range,
-- which Go leaves open. (*dns.Msg).Copy is the identity on values.
mod Tests
pub mod Table
pub mod Ttl
pub mod Invariant
pub mod Keys
pub mod Reads
pub mod Full
use s_hole.Prelude.{
  ℕ, ◌+◌, ◌-◌, ◌*◌, ◌/◌, ◌%◌, ◌^◌, Bool, true, false, not, ◌&&◌, ◌||◌, List, [], ◌∷◌, ◌++◌, map,
  Option, none, some, Bytes, codes, text_eq, length, ltb, leb, ◌==◌, if◌then◌else◌,
}
use s_hole.Dns.{Question, Rr, Msg, DnsLibrary, type_opt, rcode_success}

pub record Entry : Type 0 where
  pub msg : Msg
  pub cached : ℕ
  pub min_ttl : ℕ

pub record Cache : Type 0 where
  pub entries : List (Bytes × Entry)
  pub max_size : ℕ
  pub hits : ℕ
  pub misses : ℕ
  pub dropped : ℕ

abbrev pub max_ttl : ℕ
max_ttl = 86400

abbrev pub reclaim_scan_limit : ℕ
reclaim_scan_limit = 8

abbrev pub second : ℕ
second = 1_000_000_000

abbrev pub max_u32 : ℕ
max_u32 = 2 ^ 32 - 1

pub new_cache : ℕ → Cache
new_cache max_size = record { entries = []; max_size = max_size; hits = 0; misses = 0; dropped = 0 }

-- The map: c.entries[k], c.entries[k] = e and delete(c.entries, k).
pub find : Bytes → List (Bytes × Entry) → Option Entry
find k [] = none
find k ((j, e) ∷ m) = if text_eq j k then some e else find k m

pub remove : Bytes → List (Bytes × Entry) → List (Bytes × Entry)
remove k [] = []
remove k ((j, e) ∷ m) = let rest = remove k m in if text_eq j k then rest else (j, e) ∷ rest

pub store : Bytes → Entry → List (Bytes × Entry) → List (Bytes × Entry)
store k e [] = (k, e) ∷ []
store k e ((j, x) ∷ m) = if text_eq j k then (k, e) ∷ m else (j, x) ∷ store k e m

-- now.Sub(e.cached) >= minTTL seconds, with the subtraction moved to the other side.
pub is_expired : Entry → ℕ → Bool
is_expired e now = leb (e.cached + e.min_ttl * second) now

-- keyBits[cd + 2*do]
pub key_bits : Bool → Bool → Bytes
key_bits false false = 0 ∷ codes "--"
key_bits true false = 0 ∷ codes "c-"
key_bits false true = 0 ∷ codes "-d"
key_bits true true = 0 ∷ codes "cd"

-- The TTL of one record after `elapsed` seconds, and under the cap; an OPT record has no TTL.
pub decrement_ttl : ℕ → Rr → Rr
decrement_ttl elapsed rr =
    if rr.header.rrtype == type_opt
    then rr
    else if ltb elapsed rr.header.ttl
    then record rr { header = record (rr.header) { ttl = rr.header.ttl - elapsed } }
    else record rr { header = record (rr.header) { ttl = 0 } }

pub decrement_ttls : Msg → ℕ → Msg
decrement_ttls msg elapsed = record msg {
  answer = map (decrement_ttl elapsed) msg.answer;
  ns = map (decrement_ttl elapsed) msg.ns;
  extra = map (decrement_ttl elapsed) msg.extra;
}

pub cap_ttl : ℕ → Rr → Rr
cap_ttl limit rr =
    if not (rr.header.rrtype == type_opt) && ltb limit rr.header.ttl
    then record rr { header = record (rr.header) { ttl = limit } }
    else rr

pub cap_ttls : Msg → ℕ → Msg
cap_ttls msg limit = record msg {
  answer = map (cap_ttl limit) msg.answer;
  ns = map (cap_ttl limit) msg.ns;
  extra = map (cap_ttl limit) msg.extra;
}

-- The loop of minAnswerTTL, over the smallest TTL so far.
pub smallest_ttl : List Rr → ℕ → ℕ
smallest_ttl [] smallest = smallest
smallest_ttl (rr ∷ rrs) smallest =
    smallest_ttl rrs (if ltb rr.header.ttl smallest then rr.header.ttl else smallest)

pub min_answer_ttl : Msg → ℕ
unfolding smallest_ttl
min_answer_ttl msg =
    let smallest = smallest_ttl msg.answer max_u32 in if smallest == max_u32 then 0 else smallest

-- The scan of reclaimOneExpired; `order` is what is left of the range over the map.
pub reclaim_loop : List (Bytes × Entry) → ℕ → ℕ → List (Bytes × Entry) → List (Bytes × Entry)
reclaim_loop [] scanned now entries = entries
reclaim_loop ((k, e) ∷ order) scanned now entries =
    let rest = reclaim_loop order (scanned + 1) now entries in
    if is_expired e now
    then remove k entries
    else if leb reclaim_scan_limit (scanned + 1)
    then entries
    else rest

pub reclaim_one_expired : List (Bytes × Entry) → Cache → ℕ → Cache
unfolding reclaim_loop
reclaim_one_expired order c now = record c { entries = reclaim_loop order 0 now c.entries }

module _ (lib : DnsLibrary) where
  open lib use {is_edns0, opt_do, type_string, class_string}

  pub key : Question → Bool → Bool → Bytes
  unfolding key_bits
  key q cd do_bit =
      q.name ++ 0 ∷ (type_string q.qtype ++ 0 ∷ (class_string q.qclass ++ key_bits cd do_bit))

  unfoldable pub do_of : Msg → Bool
  do_of req = elim (is_edns0 req) [ none ↦ false | some opt ↦ opt_do opt ]

  pub key_of_question : List Question → Bool → Bool → Option Bytes
  key_of_question (q ∷ []) cd do_bit = some (key q cd do_bit)
  key_of_question _ cd do_bit = none

  pub key_of : Msg → Option Bytes
  unfolding key_of_question do_of
  key_of req = key_of_question req.question req.checking_disabled (do_of req)

  -- `now` is the clock at the expiry test and `later` the clock at the ageing.
  pub get : Cache → Msg → ℕ → ℕ → Cache × Option Msg
  get c req now later = elim (key_of req) [
    | none ↦ (record c { misses = c.misses + 1 }, none)
    | some k ↦ elim (find k c.entries) [
      | none ↦ (record c { misses = c.misses + 1 }, none)
      | some e ↦ if is_expired e now then (record c { misses = c.misses + 1 }, none) else (
        record c { hits = c.hits + 1 },
        some (decrement_ttls e.msg ((later - e.cached) / second % 2 ^ 32)),
      )
    ]
  ]

  -- The insertion of Set, under the write lock.
  pub insert : List (Bytes × Entry) → Cache → Bytes → Entry → Cache
  insert order c k e =
      let c' =
        if leb c.max_size (length c.entries) then reclaim_one_expired order c e.cached else c in
      if ltb (length c'.entries) c'.max_size
      then record c' { entries = store k e c'.entries }
      else record c' { dropped = c'.dropped + 1 }

  pub set : List (Bytes × Entry) → Cache → Msg → Msg → ℕ → Cache
  set order c req msg now =
      if not (msg.rcode == rcode_success) || msg.truncated || length msg.answer == 0
      then c
      else if min_answer_ttl msg == 0
      then c
      else elim (key_of req) [
        | none ↦ c
        | some k ↦
            let stored = cap_ttls msg max_ttl in
            insert order c k
              (record { msg = stored; cached = now; min_ttl = min_answer_ttl stored })
      ]

pub flush : Cache → Cache
flush c = record c { entries = [] }

pub stats : Cache → ℕ × ℕ × ℕ
stats c = (c.hits, c.misses, length c.entries)

-- cleanupExpired: the map without the expired entries, and how many they were.
pub sweep : List (Bytes × Entry) → ℕ → List (Bytes × Entry) × ℕ
sweep [] now = ([], 0)
sweep ((k, e) ∷ m) now =
    let (rest, removed) = sweep m now in
    if is_expired e now then (rest, removed + 1) else ((k, e) ∷ rest, removed)

pub cleanup_expired : Cache → ℕ → Cache × ℕ
unfolding sweep
cleanup_expired c now =
    let (rest, removed) = sweep c.entries now in (record c { entries = rest }, removed)
