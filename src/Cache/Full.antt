-- ===== src/Cache/Full.antt =====
-- A store into a full cache: the bounded scan for an expired entry, and the drop.
use s_hole.Prelude.{
  ℕ, zero, suc, ◌+◌, ◌≤◌, ◌<◌, Bool, true, false, [], ◌∷◌, ◌≡◌, refl, inl, inr, some, arith, Bytes,
  text_eq_refl, length, take, any, Bool-cases,
}
use s_hole.Dns.{DnsLibrary}
use s_hole.Cache.{
  Entry, Cache, reclaim_scan_limit, find, is_expired, reclaim_loop, reclaim_one_expired, insert,
}
use s_hole.Cache.Table.{Table, Within, find-store, length-remove-lt, length-store-le}

-- One of the first `n` entries of the range is expired.
abbrev pub expired_among : ℕ → Table → ℕ → Bool
expired_among n order now = any (λ (p : Bytes × Entry). is_expired p.1 now) (take n order)

reclaim_loop_live :
    (n : ℕ) (order : Table) (scanned now : ℕ) (m : Table)
    → scanned + n ≡ reclaim_scan_limit
    → expired_among n order now ≡ false
    → 0 < n
    → reclaim_loop order scanned now m ≡ m
unfolding reclaim_loop
reclaim_loop_live zero order scanned now m e h p = absurd (omega arith)
reclaim_loop_live (suc n) [] scanned now m e h p = refl
reclaim_loop_live (suc n) ((k, x) ∷ order) scanned now m e h p =
    ground (arith, reclaim_loop_live n order (scanned + 1) now m)

reclaim_loop_expired :
    (n : ℕ) (order : Table) (scanned now : ℕ) (m : Table)
    → scanned + n ≡ reclaim_scan_limit
    → expired_among n order now ≡ true
    → Within m order
    → length (reclaim_loop order scanned now m) < length m
unfolding reclaim_loop
reclaim_loop_expired zero order scanned now m e h w = cc
reclaim_loop_expired (suc n) [] scanned now m e h w = cc
reclaim_loop_expired (suc n) ((k, x) ∷ order) scanned now m e h w =
    elim (Bool-cases (is_expired x now)) [
      | inl dead ↦ rw dead (length-remove-lt k x m w.0)
      | inr live ↦ ground (
        arith,
        reclaim_loop_expired n order (scanned + 1) now m (omega arith),
        w.1,
        positive n order,
      )
    ]
  where
    positive : (n : ℕ) (order : Table) → expired_among n order now ≡ true → 0 < n
    positive zero order h = cc
    positive (suc n) order h = omega arith

-- In a cache that holds exactly its maximum: if none of the first eight entries of the range is
-- expired, a store changes no entry and counts one drop; if one is, the new entry is stored, nothing
-- is counted as dropped, and the cache still holds at most its maximum.
pub insert_full :
    (lib : DnsLibrary) (order : Table) (c : Cache) (k : Bytes) (e : Entry)
    → length c.entries ≡ c.max_size
    → Within c.entries order
    → (expired_among reclaim_scan_limit order e.cached ≡ false
        → insert lib order c k e ≡ record c { dropped = c.dropped + 1 })
      × (expired_among reclaim_scan_limit order e.cached ≡ true
          → (find k (insert lib order c k e).entries ≡ some e)
            × ((insert lib order c k e).dropped ≡ c.dropped)
            × (length (insert lib order c k e).entries ≤ c.max_size))
unfolding insert reclaim_one_expired
insert_full lib order c k e full within = (
  λ live. ground (arith, reclaim_loop_live reclaim_scan_limit order 0 e.cached c.entries),
  λ dead.
      let shorter : length (reclaim_loop order 0 e.cached c.entries) < length c.entries =
        reclaim_loop_expired reclaim_scan_limit order 0 e.cached c.entries refl dead within in
      (
        ground (arith, find-store k k e (reclaim_loop order 0 e.cached c.entries), text_eq_refl k),
        ground arith,
        ground (arith, length-store-le k e (reclaim_loop order 0 e.cached c.entries)),
      ),
)
