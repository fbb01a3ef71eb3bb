-- ===== src/Stats/Tops.antt =====
-- The Top lists of internal/stats/stats.go: what is tallied, the size bound, and what a prune keeps.
use s_hole.Prelude.{
  List, ℕ, zero, suc, ◌+◌, ◌/◌, ◌≤◌, ◌<◌, Bool, false, not, ◌&&◌, [], ◌∷◌, ◌++◌, ◌≡◌, arith, Bytes,
  text_eq, text_eq_iff, length, take, drop, length-take-le, length-take, take-append-drop, All-imp,
  All, if◌then◌else◌,
}
use mathlib.Core.List.{Perm}
use s_hole.Stats.{
  Tally, Counter, SortSlice, top_n_max_entries, tally, by_count, prune_bottom_half, cap_tally,
  record_query, new_counter, record_cache_hit, record_cname_blocked, record_local_ptr,
  record_local_name, record_forward_failure, record_upstream_error, set_query_log_mode,
  reset_tallies, reset_timeline,
}

-- m[k], which is 0 for a missing key.
abbrev pub count_of : Bytes → Tally → ℕ
count_of j [] = 0
count_of j ((k, n) ∷ m) = if text_eq k j then n else count_of j m

-- No element is less than one that stands before it.
abbrev pub Sorted : (Bytes × ℕ → Bytes × ℕ → Bool) → Tally → Type 0
Sorted less [] = Unit {0}
Sorted less (x ∷ xs) = All (λ y. less y x ≡ false) xs × Sorted less xs

-- What the documentation of sort.Slice promises for `less`: the same elements, in sorted order.
pub record SortLaws (sort_slice : SortSlice) (less : Bytes × ℕ → Bytes × ℕ → Bool) : Type 0 where
  pub same_length : (m : Tally) → length (sort_slice less m) ≡ length m
  pub perm : (m : Tally) → Perm (sort_slice less m) m
  pub sorted : (m : Tally) → Sorted less (sort_slice less m)

count_of-tally :
    (j k : Bytes) (m : Tally)
    → count_of j (tally k m) ≡ (if text_eq k j then count_of j m + 1 else count_of j m)
unfolding tally
count_of-tally j k [] = ground arith
count_of-tally j k ((i, n) ∷ m) =
    ground (arith, text_eq_iff k j, text_eq_iff i k, text_eq_iff i j, count_of-tally j k m)

length-tally-le : (k : Bytes) (m : Tally) → length (tally k m) ≤ length m + 1
unfolding tally
length-tally-le k [] = omega arith
length-tally-le k ((j, n) ∷ m) = ground (arith, length-tally-le k m)

All-take-drop :
    (less : Bytes × ℕ → Bytes × ℕ → Bool) (n : ℕ) (m : Tally)
    → Sorted less m
    → All (λ p. All (λ q. less q p ≡ false) (drop n m)) (take n m)
All-take-drop less zero m h = tt
All-take-drop less (suc n) [] h = tt
All-take-drop less (suc n) (x ∷ m) h = (All-drop n m h.0, All-take-drop less n m h.1)
  where
    All-drop :
        (n : ℕ) (m : Tally) → All (λ y. less y x ≡ false) m → All (λ y. less y x ≡ false) (drop n m)
    All-drop zero m h = h
    All-drop (suc n) [] h = tt
    All-drop (suc n) (y ∷ m) h = All-drop n m h.1

by_count-le : (p q : Bytes × ℕ) → by_count q p ≡ false → q.1 ≤ p.1
unfolding by_count
by_count-le p q h = ground arith

pub data Call : Type 0 where
  queried : Bytes → Bytes → Bool → ℕ → Call
  cache_hit : ℕ → Call
  cname_blocked : Call
  local_ptr : Call
  local_name : Call
  forward_failure : ℕ → Call
  upstream_error : ℕ → Call
  mode_set : Bytes → Call
  tallies_reset : Call
  timeline_reset : Call

module _ (sort_slice : SortSlice) where
  cap_tally-le :
      (m : Tally)
      → length m ≤ top_n_max_entries + 1
      → length (cap_tally sort_slice m) ≤ top_n_max_entries
  unfolding cap_tally prune_bottom_half
  cap_tally-le m h = ground (arith, length-take-le (length m / 2) (sort_slice by_count m))

  record_query-bounded :
      (c : Counter) (client_ip domain : Bytes) (is_blocked : Bool) (now : ℕ)
      → length c.top_clients ≤ top_n_max_entries
      → length c.top_domains ≤ top_n_max_entries
      → (length (record_query sort_slice c client_ip domain is_blocked now).top_clients
          ≤ top_n_max_entries)
        × (length (record_query sort_slice c client_ip domain is_blocked now).top_domains
            ≤ top_n_max_entries)
  unfolding record_query
  record_query-bounded c client_ip domain is_blocked now hc hd = (
    ground (
      arith,
      cap_tally-le c.top_clients,
      cap_tally-le (tally client_ip c.top_clients),
      length-tally-le client_ip c.top_clients,
    ),
    ground (
      arith,
      cap_tally-le c.top_domains,
      cap_tally-le (tally domain c.top_domains),
      length-tally-le domain c.top_domains,
    ),
  )

  -- The calls that change a Counter, in any order and with any arguments.
  abbrev pub call : Call → Counter → Counter
  call (queried client_ip domain is_blocked now) c =
      record_query sort_slice c client_ip domain is_blocked now
  call (cache_hit now) c = record_cache_hit c now
  call cname_blocked c = record_cname_blocked c
  call local_ptr c = record_local_ptr c
  call local_name c = record_local_name c
  call (forward_failure now) c = record_forward_failure c now
  call (upstream_error now) c = record_upstream_error c now
  call (mode_set mode) c = set_query_log_mode c mode
  call tallies_reset c = reset_tallies c
  call timeline_reset c = reset_timeline c

  abbrev pub calls : List Call → Counter → Counter
  calls [] c = c
  calls (s ∷ rest) c = calls rest (call s c)

  -- Both Top lists are within their cap.
  abbrev pub IsCapped : Counter → Type 0
  IsCapped c =
      (length c.top_clients ≤ top_n_max_entries) × (length c.top_domains ≤ top_n_max_entries)

  call-IsCapped : (s : Call) (c : Counter) → IsCapped c → IsCapped (call s c)
  unfolding record_cache_hit record_cname_blocked record_local_ptr record_local_name
      record_forward_failure record_upstream_error set_query_log_mode reset_tallies reset_timeline
  call-IsCapped (queried client_ip domain is_blocked now) c h =
      record_query-bounded c client_ip domain is_blocked now h.0 h.1
  call-IsCapped (mode_set mode) c h = ground (arith, h)
  call-IsCapped tallies_reset c h = (omega arith, omega arith)
  call-IsCapped _ c h = h

  calls-kept : (l : List Call) (c : Counter) → IsCapped c → IsCapped (calls l c)
  calls-kept [] c h = h
  calls-kept (s ∷ rest) c h = calls-kept rest (call s c) (call-IsCapped s c h)

  -- From a new Counter, whatever calls are made and however sort.Slice orders the entries, neither
  -- Top list ever exceeds its cap.
  pub calls-IsCapped : (l : List Call) → IsCapped (calls l new_counter)
  calls-IsCapped l = calls-kept l new_counter (omega arith, omega arith)

  -- While a list is below its cap, a recorded query adds one to the count of its client, unless the
  -- client is empty, and, if it was blocked, one to the count of its domain, unless the domain is
  -- empty. No other count changes.
  pub record_query_tallies :
      (c : Counter) (client_ip domain : Bytes) (is_blocked : Bool) (now : ℕ) (j : Bytes)
      → length c.top_clients < top_n_max_entries
      → length c.top_domains < top_n_max_entries
      → (count_of j (record_query sort_slice c client_ip domain is_blocked now).top_clients ≡ (
          if not (text_eq client_ip []) && text_eq client_ip j
          then count_of j c.top_clients + 1
          else count_of j c.top_clients))
        × (count_of j (record_query sort_slice c client_ip domain is_blocked now).top_domains ≡ (
            if is_blocked && not (text_eq domain []) && text_eq domain j
            then count_of j c.top_domains + 1
            else count_of j c.top_domains))
  unfolding record_query cap_tally
  record_query_tallies c client_ip domain is_blocked now j hc hd = (
    ground
        (arith, count_of-tally j client_ip c.top_clients, length-tally-le client_ip c.top_clients),
    ground (arith, count_of-tally j domain c.top_domains, length-tally-le domain c.top_domains),
  )

  -- A prune keeps half of the entries, and splits the entries into those kept and others, none of
  -- which has a higher count than one that was kept.
  pub prune_bottom_half_lem :
      (m : Tally)
      → SortLaws sort_slice by_count
      → (length (prune_bottom_half sort_slice m) ≡ length m / 2)
        × ((others : Tally) × Perm (prune_bottom_half sort_slice m ++ others) m
            × All (λ p. All (λ q. q.1 ≤ p.1) others) (prune_bottom_half sort_slice m))
  unfolding prune_bottom_half
  prune_bottom_half_lem m laws =
      let sorted = sort_slice by_count m in
      let half = length m / 2 in
      (
        length-take half sorted (omega (arith, laws.same_length m)),
        (
          drop half sorted,
          rw (take-append-drop half sorted) (laws.perm m),
          All-imp _ (λ p. All (λ q. q.1 ≤ p.1) (drop half sorted)) (take half sorted)
              (λ p. All-imp _ (λ q. q.1 ≤ p.1) (drop half sorted) (λ q. by_count-le p q))
              (All-take-drop by_count half sorted (laws.sorted m)),
        ),
      )
