-- ===== src/Cache/Invariant.antt =====
-- The size bound of the cache and the shape of what it stores, over every sequence of calls.
use s_hole.Prelude.{
  ℕ, ◌≤◌, ◌<◌, false, not, ◌||◌, List, [], ◌∷◌, map, ◌≡◌, ◌≢◌, refl, ◌⊎◌, inl, inr, arith, Bytes,
  length, All, ltb, leb, ◌==◌, if◌then◌else◌, ltb→lt, Bool-cases, Option-cases,
}
use s_hole.Dns.{Rr, Msg, DnsLibrary, rcode_success}
use s_hole.Cache.{
  Entry, Cache, max_ttl, new_cache, find, store, is_expired, cap_ttl, cap_ttls, min_answer_ttl,
  reclaim_one_expired, key_of, get, insert, set, flush, cleanup_expired,
}
use s_hole.Cache.Table.{
  Table, DistinctKeys, AllEntries, store-All, sweep-All, reclaim_loop-All,
  reclaim_loop-DistinctKeys, store-DistinctKeys, sweep-DistinctKeys, length-sweep, length-store-le,
  length-reclaim_loop-le,
}
use s_hole.Cache.Ttl.{IsOpt, Within, map-cap_ttl-Within, map-cap_ttl-IsOpt, min_answer_ttl-cap_ttls}

-- What every entry is: a complete successful answer with its TTLs capped, kept for its smallest
-- answer TTL, which is positive and at most a day unless the answer holds OPT records only.
pub record IsSound (e : Entry) : Type 0 where
  pub success : e.msg.rcode ≡ rcode_success
  pub complete : e.msg.truncated ≡ false
  pub answered : e.msg.answer ≢ []
  pub answer_capped : All (Within max_ttl) e.msg.answer
  pub ns_capped : All (Within max_ttl) e.msg.ns
  pub extra_capped : All (Within max_ttl) e.msg.extra
  pub smallest : e.min_ttl ≡ min_answer_ttl e.msg
  pub positive : 0 < e.min_ttl
  pub lifetime : (e.min_ttl ≤ max_ttl) ⊎ All IsOpt e.msg.answer

pub record IsValid (c : Cache) : Type 0 where
  pub bounded : length c.entries ≤ c.max_size
  pub distinct : DistinctKeys c.entries
  pub sound : AllEntries IsSound c.entries

-- The methods that change a cache, with the clock readings and the map order that each call meets.
pub data Call : Type 0 where
  get_call : Msg → ℕ → ℕ → Call
  set_call : Table → Msg → Msg → ℕ → Call
  flush_call : Call
  cleanup_call : ℕ → Call

map-eq-nil : (f : Rr → Rr) (rrs : List Rr) → map f rrs ≡ [] → rrs ≡ []
map-eq-nil f [] e = refl
map-eq-nil f (rr ∷ rrs) e = cc

get-IsValid :
    (lib : DnsLibrary) (req : Msg) (now later : ℕ) (c : Cache)
    → IsValid c
    → IsValid (get lib c req now later).0
unfolding get
get-IsValid lib req now later c v = elim (Option-cases (key_of lib req)) [
  | inl none_key ↦
      rw (none_key, get) (record { bounded = v.bounded; distinct = v.distinct; sound = v.sound })
  | inr (k, keyed) ↦ elim (Option-cases (find k c.entries)) [
    | inl absent ↦
        rw (keyed, get, absent)
          (record { bounded = v.bounded; distinct = v.distinct; sound = v.sound })
    | inr (e, found) ↦ elim (Bool-cases (is_expired e now)) [
      | inl dead ↦
          rw (keyed, get, found, dead)
            (record { bounded = v.bounded; distinct = v.distinct; sound = v.sound })
      | inr live ↦
          rw (keyed, get, found, live)
            (record { bounded = v.bounded; distinct = v.distinct; sound = v.sound })
    ]
  ]
]

module _ (lib : DnsLibrary) where
  pub apply : Call → Cache → Cache
  apply (get_call req now later) c = (get lib c req now later).0
  apply (set_call order req msg now) c = set lib order c req msg now
  apply flush_call c = flush c
  apply (cleanup_call now) c = (cleanup_expired c now).0

  unfoldable pub run : List Call → Cache → Cache
  unfolding apply
  run [] c = c
  run (call ∷ calls) c = run calls (apply call c)

  reclaim-IsValid :
      (order : Table) (c : Cache) (now : ℕ) → IsValid c → IsValid (reclaim_one_expired order c now)
  unfolding reclaim_one_expired
  reclaim-IsValid order c now v = record {
    bounded = omega (arith, length-reclaim_loop-le order 0 now c.entries);
    distinct = reclaim_loop-DistinctKeys order 0 now c.entries v.distinct;
    sound = reclaim_loop-All IsSound order 0 now c.entries v.sound;
  }

  store-IsValid :
      (c : Cache) (k : Bytes) (e : Entry)
      → IsValid c
      → IsSound e
      → length c.entries < c.max_size
      → IsValid (record c { entries = store k e c.entries })
  store-IsValid c k e v s room = record {
    bounded = omega (arith, length-store-le k e c.entries);
    distinct = store-DistinctKeys k e c.entries v.distinct;
    sound = store-All IsSound k e c.entries s v.sound;
  }

  insert-IsValid :
      (order : Table) (c : Cache) (k : Bytes) (e : Entry)
      → IsValid c
      → IsSound e
      → IsValid (insert lib order c k e)
  unfolding insert
  insert-IsValid order c k e v s = elim (Bool-cases (ltb (length c'.entries) c'.max_size)) [
    | inl room ↦ rw room (store-IsValid c' k e v' s (ltb→lt _ _ room))
    | inr full ↦ rw full (record { bounded = v'.bounded; distinct = v'.distinct; sound = v'.sound })
  ]
    where
      c' : Cache
      c' = if leb c.max_size (length c.entries) then reclaim_one_expired order c e.cached else c

      v' : IsValid c'
      v' = elim (Bool-cases (leb c.max_size (length c.entries))) [
        | inl full ↦ rw full (reclaim-IsValid order c e.cached v)
        | inr room ↦ rw room v
      ]

  stored-IsSound :
      (msg : Msg) (now : ℕ)
      → msg.rcode ≡ rcode_success
      → msg.truncated ≡ false
      → msg.answer ≢ []
      → min_answer_ttl msg ≢ 0
      → IsSound (record {
        msg = cap_ttls msg max_ttl;
        cached = now;
        min_ttl = min_answer_ttl (cap_ttls msg max_ttl);
      })
  unfolding cap_ttls
  stored-IsSound msg now ok whole some_answer ttl = record {
    success = ok;
    complete = whole;
    answered = λ e. some_answer (map-eq-nil (cap_ttl max_ttl) msg.answer e);
    answer_capped = map-cap_ttl-Within max_ttl msg.answer;
    ns_capped = map-cap_ttl-Within max_ttl msg.ns;
    extra_capped = map-cap_ttl-Within max_ttl msg.extra;
    smallest = refl;
    positive = (min_answer_ttl-cap_ttls msg ttl).0;
    lifetime = elim (min_answer_ttl-cap_ttls msg ttl).1 [
      | inl low ↦ inl low
      | inr opts ↦ inr (map-cap_ttl-IsOpt max_ttl msg.answer opts)
    ];
  }

  set-IsValid :
      (order : Table) (c : Cache) (req msg : Msg) (now : ℕ)
      → IsValid c
      → IsValid (set lib order c req msg now)
  unfolding set
  set-IsValid order c req msg now v =
      elim (Bool-cases
        (not (msg.rcode == rcode_success) || msg.truncated || length msg.answer == 0)) [
          | inl refused ↦ rw refused v
          | inr fit ↦ elim (Bool-cases (min_answer_ttl msg == 0)) [
            | inl zero_ttl ↦ rw (fit, zero_ttl) v
            | inr ttl ↦ elim (Option-cases (key_of lib req)) [
              | inl none_key ↦ rw (fit, ttl, none_key) v
              | inr (k, keyed) ↦
                  rw (fit, ttl, keyed)
                    (insert-IsValid order c k _ v (
                      stored-IsSound msg now (ground arith) (ground arith) (λ e. ground arith)
                        (ground arith)))
            ]
          ]
        ]

  apply-IsValid : (call : Call) (c : Cache) → IsValid c → IsValid (apply call c)
  unfolding apply flush cleanup_expired
  apply-IsValid (get_call req now later) c v = get-IsValid lib req now later c v
  apply-IsValid (set_call order req msg now) c v = set-IsValid order c req msg now v
  apply-IsValid flush_call c v = record { bounded = omega arith; distinct = tt; sound = tt }
  apply-IsValid (cleanup_call now) c v = record {
    bounded = omega (arith, length-sweep c.entries now);
    distinct = sweep-DistinctKeys c.entries now v.distinct;
    sound = sweep-All IsSound c.entries now v.sound;
  }

  -- Whatever sequence of calls a cache meets, with any clock readings and any map order, it never
  -- holds more than its maximum of entries, holds no key twice, and each entry is sound: an answer
  -- that is successful and complete, capped, and kept for its smallest answer TTL.
  pub run-IsValid : (calls : List Call) (c : Cache) → IsValid c → IsValid (run calls c)
  unfolding run
  run-IsValid [] c v = v
  run-IsValid (call ∷ calls) c v = run-IsValid calls (apply call c) (apply-IsValid call c v)

pub new_cache-IsValid : (n : ℕ) → IsValid (new_cache n)
unfolding new_cache
new_cache-IsValid n = record { bounded = omega arith; distinct = tt; sound = tt }
