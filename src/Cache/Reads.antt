-- ===== src/Cache/Reads.antt =====
-- What a query gets from the cache: after a store, after a sweep, and how old it can be.
use s_hole.Prelude.{
  ℕ, ◌+◌, ◌-◌, ◌*◌, ◌/◌, ◌%◌, ◌^◌, ◌≤◌, ◌<◌, false, List, [], ◌∷◌, map, ◌≡◌, ◌≢◌, refl, sym, ◌⊎◌,
  inl, inr, none, some, arith, Bytes, text_eq_refl, length, All, if◌then◌else◌, Option-cases,
}
use s_hole.Dns.{Rr, Msg, DnsLibrary, type_opt, rcode_success}
use mathlib.Core.Path.{subst}
use s_hole.Cache.{
  Entry, Cache, max_u32, max_ttl, second, find, store, is_expired, cap_ttls, min_answer_ttl,
  decrement_ttl, decrement_ttls, key_of, get, insert, set, cleanup_expired,
}
use s_hole.Cache.Table.{Table, find-All, find-store, find-sweep, length-sweep}
use s_hole.Cache.Ttl.{IsOpt, smallest_ttl-le-All}
use s_hole.Cache.Invariant.{IsSound, IsValid}

-- What Set stores a reply only for: a complete success with an answer and a positive smallest TTL.
pub record IsCacheable (msg : Msg) : Type 0 where
  pub success : msg.rcode ≡ rcode_success
  pub complete : msg.truncated ≡ false
  pub answered : msg.answer ≢ []
  pub positive : min_answer_ttl msg ≢ 0

length-eq-zero {ℓ} : {A : Type ℓ} (xs : List A) → length xs ≡ 0 → xs ≡ []
length-eq-zero [] h = refl
length-eq-zero (x ∷ xs) h = absurd (omega arith)

min_answer_ttl-le-All : (msg : Msg) → All (λ rr. min_answer_ttl msg ≤ rr.header.ttl) msg.answer
unfolding min_answer_ttl
min_answer_ttl-le-All msg =
    smallest_ttl-le-All msg.answer max_u32 (min_answer_ttl msg) (ground arith)

map-decrement_ttl-pos :
    (elapsed m : ℕ) (rrs : List Rr)
    → elapsed < m
    → All (λ rr. m ≤ rr.header.ttl) rrs
    → All (λ rr. rr.header.rrtype ≢ type_opt → 0 < rr.header.ttl) (map (decrement_ttl elapsed) rrs)
unfolding decrement_ttl
map-decrement_ttl-pos elapsed m [] lt h = tt
map-decrement_ttl-pos elapsed m (rr ∷ rrs) lt h =
    ((λ plain. ground arith), map-decrement_ttl-pos elapsed m rrs lt h.1)

-- The whole seconds between two clock readings, as a uint32.
abbrev age : Entry → ℕ → ℕ
age e later = (later - e.cached) / second % 2 ^ 32

age-lt :
    (e : Entry) (later : ℕ)
    → 0 < e.min_ttl
    → later < e.cached + e.min_ttl * second
    → age e later < e.min_ttl
age-lt e later pos h = omega arith

module _ (lib : DnsLibrary) where
  get-eq-some :
      (c : Cache) (req : Msg) (now later : ℕ) {served : Msg}
      → (get lib c req now later).1 ≡ some served
      → (e : Entry) × ((k : Bytes) × (key_of lib req ≡ some k) × (find k c.entries ≡ some e))
        × (is_expired e now ≡ false)
        × (decrement_ttls e.msg (age e later) ≡ served)
  get-eq-some c req now later {served} h = elim (Option-cases (key_of lib req)) [
    | inl none_key ↦ absurd (unfold get in ground arith)
    | inr (k, keyed) ↦ elim (Option-cases (find k c.entries)) [
      | inl absent ↦ absurd (unfold get in ground arith)
      | inr (e, found) ↦
          (e, (k, keyed, found), unfold get in ground arith, unfold get in ground arith)
    ]
  ]

  set-insert :
      (order : Table) (c : Cache) (req msg : Msg) (now : ℕ) {k : Bytes}
      → IsCacheable msg
      → key_of lib req ≡ some k
      → set lib order c req msg now
        ≡ insert lib order c k (record {
          msg = cap_ttls msg max_ttl;
          cached = now;
          min_ttl = min_answer_ttl (cap_ttls msg max_ttl);
        })
  unfolding set
  set-insert order c req msg now {k} m keyed = ground (arith, length-eq-zero msg.answer)

  insert-store :
      (order : Table) (c : Cache) (k : Bytes) (e : Entry)
      → length c.entries < c.max_size
      → insert lib order c k e ≡ record c { entries = store k e c.entries }
  unfolding insert
  insert-store order c k e room = ground arith

  -- A cacheable reply is served to every query with the key of the query that it was stored for,
  -- while the clock is before its expiry: with its TTLs capped and then aged by the whole seconds
  -- since the store. The cache must have a free place when the reply is stored.
  pub get-set :
      (order : Table) (c : Cache) (req req' msg : Msg) (now at_test at_ageing : ℕ) {k : Bytes}
      → IsCacheable msg
      → key_of lib req ≡ some k
      → key_of lib req' ≡ some k
      → length c.entries < c.max_size
      → at_test < now + min_answer_ttl (cap_ttls msg max_ttl) * second
      → (get lib (set lib order c req msg now) req' at_test at_ageing).1
        ≡ some (decrement_ttls (cap_ttls msg max_ttl) ((at_ageing - now) / second % 2 ^ 32))
  unfolding get is_expired
  get-set order c req req' msg now at_test at_ageing {k} m keyed keyed' room live =
      let e : Entry = record {
        msg = cap_ttls msg max_ttl;
        cached = now;
        min_ttl = min_answer_ttl (cap_ttls msg max_ttl);
      } in
      rw (set-insert order c req msg now m keyed, insert-store order c k e room)
        (ground (arith, find-store k k e c.entries, text_eq_refl k))

  -- A reply that is not cacheable, or whose query has no key, changes nothing.
  pub set_refused :
      (order : Table) (c : Cache) (req msg : Msg) (now : ℕ)
      → ¬ (IsCacheable msg × ((k : Bytes) × (key_of lib req ≡ some k)))
      → set lib order c req msg now ≡ c
  unfolding set
  set_refused order c req msg now h = elim (Option-cases (key_of lib req)) [
    | inl none_key ↦ ground arith
    | inr (k, keyed) ↦ ground arith
  ]

  -- From a valid cache a query is served only from an entry whose lifetime has not elapsed, and the
  -- entry is younger than a day unless its answer holds OPT records only. If the second clock
  -- reading is within the lifetime too, no answer record but an OPT record is served with TTL 0.
  pub get_fresh :
      (c : Cache) (req : Msg) (now later : ℕ) {served : Msg}
      → IsValid c
      → now ≤ later
      → (get lib c req now later).1 ≡ some served
      → (e : Entry) × ((k : Bytes) × (key_of lib req ≡ some k) × (find k c.entries ≡ some e))
        × (now < e.cached + e.min_ttl * second)
        × ((now < e.cached + max_ttl * second) ⊎ All IsOpt e.msg.answer)
        × (later < e.cached + e.min_ttl * second
            → All (λ rr. rr.header.rrtype ≢ type_opt → 0 < rr.header.ttl) served.answer)
  unfolding is_expired
  get_fresh c req now later {served} v le h =
      let (e, at_key, live, same) = get-eq-some c req now later h in
      let sound : IsSound e = find-All IsSound at_key.0 c.entries v.sound at_key.2 in
      (
        e,
        at_key,
        ground arith,
        elim sound.lifetime [ inl low ↦ inl (ground arith) | inr opts ↦ inr opts ],
        λ within.
            subst
              (λ (m : Msg). All (λ rr. rr.header.rrtype ≢ type_opt → 0 < rr.header.ttl) m.answer)
              same
              (unfold decrement_ttls in
                map-decrement_ttl-pos (age e later) e.min_ttl e.msg.answer
                  (age-lt e later sound.positive within)
                  (subst (λ (t : ℕ). All (λ rr. t ≤ rr.header.ttl) e.msg.answer)
                    (sym sound.smallest) (min_answer_ttl-le-All e.msg))),
      )

-- After a sweep a query finds what it found before, unless the entry was expired at the sweep;
-- and the count is the number of entries that are gone.
pub cleanup_expired_lem :
    (c : Cache) (now : ℕ) (k : Bytes)
    → IsValid c
    → (find k (cleanup_expired c now).0.entries ≡ elim (find k c.entries) [
      | none ↦ none
      | some e ↦ if is_expired e now then none else some e
    ])
      × (length (cleanup_expired c now).0.entries + (cleanup_expired c now).1 ≡ length c.entries)
unfolding cleanup_expired
cleanup_expired_lem c now k v = (find-sweep k c.entries now v.distinct, length-sweep c.entries now)
