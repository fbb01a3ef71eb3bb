-- ===== src/Dnsserver/Lan/Refreshes.antt =====
-- internal/dnsserver/lan.go: how often the interfaces are read, and what a failed read leaves.
use s_hole.Prelude.{
  ◌<◌, inl, inr, ℕ, ◌+◌, ◌≤◌, List, [], ◌∷◌, ◌≡◌, refl, Option, none, some, Bool-cases,
}
use s_hole.Dnsserver.Lan.{
  Addr, Prefix, InterfaceAddr, LanAcl, traced, take_interfaces, own_global_v6, read_interfaces,
  refresh, is_recent, lan_refresh_interval, read_fail_warn_interval, allows,
}

-- A call of the access list: the LAN test on a source, or ownGlobalV6 on a prefix, each with the
-- clock and what the interfaces are.
pub data Visit : Type 0 where
  source : ℕ → Option (List InterfaceAddr) → Addr → Visit
  reverse : ℕ → Option (List InterfaceAddr) → Prefix → Visit

abbrev pub visit : Visit → LanAcl → LanAcl
visit (source now addrs ip) a = (allows now addrs ip a).1
visit (reverse now addrs p) a = (own_global_v6 now addrs p a).1

abbrev pub run : List Visit → LanAcl → LanAcl
run [] a = a
run (v ∷ visits) a = run visits (visit v a)

-- Times, the last one in front, each at least the interval behind the one before.
abbrev pub Spaced : List ℕ → Type 0
Spaced [] = Unit
Spaced (t ∷ []) = Unit
Spaced (t ∷ u ∷ ts) = (u + lan_refresh_interval ≤ t) × Spaced (u ∷ ts)

-- The stamp of the state is the time of the last read in the trace.
abbrev Tied : Option ℕ → List ℕ → Type 0
Tied none [] = Unit
Tied none (t ∷ ts) = ⊥
Tied (some u) [] = ⊥
Tied (some u) (t ∷ ts) = (u ≡ t) × Spaced (t ∷ ts)

abbrev IsTraced : LanAcl → Type 0
IsTraced a = Tied a.refreshed a.reads

-- The last read of the trace is less than the interval before `now`.
abbrev pub IsCurrent : ℕ → List ℕ → Type 0
IsCurrent now [] = ⊥
IsCurrent now (t ∷ ts) = now < t + lan_refresh_interval

-- A failed read keeps the subnets of the last good one.
refresh-failed : (now : ℕ) (a : LanAcl) → (refresh now none a).on_link ≡ a.on_link
unfolding refresh read_interfaces traced take_interfaces
refresh-failed now a = elim (Bool-cases (is_recent a.refreshed lan_refresh_interval now)) [
  | inl recent ↦ rw recent refl
  | inr due ↦ elim (Bool-cases (is_recent a.read_fail_warned read_fail_warn_interval now)) [
    | inl warned ↦ rw (due, warned) refl
    | inr silent ↦ rw (due, silent) refl
  ]
]
