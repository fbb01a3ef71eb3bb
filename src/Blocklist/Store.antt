-- ===== src/Blocklist/Store.antt =====
-- internal/blocklist/store.go: the Store, queried by every DNS request. The RWMutex makes each
-- method atomic, so a method is a function from a store to a store or a value. `to_lower` stands for
-- strings.ToLower (see Normalize).
mod Tests
pub mod Lookup
pub mod Allowlist
use s_hole.Prelude.{
  ℕ, Bool, true, false, List, [], ◌∷◌, Option, none, some, Bytes, leb, ◌==◌, if◌then◌else◌, length,
}
use s_hole.Prelude.Sets.{member, insert, delete}
use s_hole.Blocklist.Normalize.{normalize}

-- SourceStatus, with the refresh time as the nanoseconds of the wall clock.
pub record SourceStatus : Type 0 where
  pub url : Bytes
  pub count : ℕ
  pub last_refresh : ℕ
  pub stale : Bool

pub record Store : Type 0 where
  pub blocked : List Bytes
  pub allowlist : List Bytes
  pub runtime : List Bytes
  pub sources : Option (List SourceStatus)

abbrev pub new_store : Store
new_store = record { blocked = []; allowlist = []; runtime = []; sources = none }

-- name[i+1:] behind the first dot; `none` is a negative IndexByte.
unfoldable pub parent : Bytes → Option Bytes
parent [] = none
parent (c ∷ s) = if c == b'.' then some s else parent s

module _ (to_lower : Bytes → Bytes) where
  -- The fill loop of SetAllowlist and Replace, over the new map.
  pub fill : List Bytes → List Bytes → List Bytes
  fill [] set = set
  fill (d ∷ domains) set = fill domains (insert (normalize to_lower d) set)

  pub set_allowlist : Store → List Bytes → Store
  set_allowlist s domains = record s { allowlist = fill domains []; runtime = [] }

  unfoldable pub replace : Store → List Bytes → Store
  replace s domains = record s { blocked = fill domains [] }

  pub add_to_allowlist : Store → Bytes → Store
  add_to_allowlist s domain = record s {
    allowlist = insert (normalize to_lower domain) s.allowlist;
  }

  -- The result is false if the domain was refused.
  pub add_to_allowlist_limited : Store → Bytes → ℕ → Store × Bool
  add_to_allowlist_limited s domain limit =
      let d = normalize to_lower domain in
      if member d s.allowlist
      then (s, true)
      else if leb limit (length s.runtime)
      then (s, false)
      else (record s { allowlist = insert d s.allowlist; runtime = insert d s.runtime }, true)

  pub remove_from_allowlist : Store → Bytes → Store
  remove_from_allowlist s domain =
      let d = normalize to_lower domain in
      record s { allowlist = delete d s.allowlist; runtime = delete d s.runtime }

unfoldable pub set_sources : Store → List SourceStatus → Store
set_sources s sources = record s { sources = some sources }

pub get_sources : Store → List SourceStatus
get_sources s = elim s.sources [ none ↦ [] | some sources ↦ sources ]

pub len : Store → ℕ
len s = length s.blocked

pub allowlist_len : Store → ℕ
allowlist_len s = length s.allowlist
