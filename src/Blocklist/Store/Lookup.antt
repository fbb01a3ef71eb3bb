-- ===== src/Blocklist/Store/Lookup.antt =====
-- internal/blocklist/store.go: IsBlocked, IsAllowlisted and Explain, which walk the label suffixes
-- of a name. Each loop runs on fuel, one more than the bytes of the name; the laws are in the
-- children, and hold for every larger fuel.
pub mod Suffixes
pub mod Verdict
pub mod Explain
use s_hole.Prelude.{
  ℕ, zero, suc, Bool, true, false, not, ◌&&◌, ◌||◌, List, [], ◌∷◌, ◌++◌, none, some, Bytes, length,
  if◌then◌else◌, text_eq,
}
use s_hole.Prelude.Sets.{member}
use s_hole.Blocklist.Normalize.{normalize}
use s_hole.Blocklist.Store.{Store, parent}

unfoldable pub is_blocked_loop : ℕ → Store → Bytes → Bool → Bool
unfolding member parent
is_blocked_loop zero s name blocked = false
is_blocked_loop (suc fuel) s name blocked =
    let blocked' = blocked || member name s.blocked in
    if member name s.allowlist
    then false
    else elim (parent name) [ none ↦ blocked' | some rest ↦ is_blocked_loop fuel s rest blocked' ]

is_allowlisted_loop : ℕ → Store → Bytes → Bool
unfolding member parent
is_allowlisted_loop zero s name = false
is_allowlisted_loop (suc fuel) s name =
    if member name s.allowlist
    then true
    else elim (parent name) [ none ↦ false | some rest ↦ is_allowlisted_loop fuel s rest ]

pub record LevelResult : Type 0 where
  pub suffix : Bytes
  pub is_blocked : Bool
  pub is_allowlisted : Bool

-- The three texts of the JSON field.
pub data Decision : Type 0 where
  blocked allowlisted allowed : Decision

pub record Explanation : Type 0 where
  pub domain : Bytes
  pub decision : Decision
  pub matched_block : Bytes
  pub matched_allowlist : Bytes
  pub walk : List LevelResult

-- One round of the walk of Explain.
explain_level : Store → Bytes → Explanation → Explanation
unfolding member
explain_level s cur exp =
    let blk = member cur s.blocked in
    let wl = member cur s.allowlist in
    record exp {
      walk = exp.walk ++ record { suffix = cur; is_blocked = blk; is_allowlisted = wl } ∷ [];
      matched_block = if blk && text_eq exp.matched_block [] then cur else exp.matched_block;
      matched_allowlist =
          if wl && text_eq exp.matched_allowlist [] then cur else exp.matched_allowlist;
    }

explain_loop : ℕ → Store → Bytes → Explanation → Explanation
unfolding explain_level parent
explain_loop zero s cur exp = exp
explain_loop (suc fuel) s cur exp =
    let exp' = explain_level s cur exp in
    elim (parent cur) [ none ↦ exp' | some rest ↦ explain_loop fuel s rest exp' ]

-- The switch at the end of Explain.
decide : Explanation → Decision
decide exp =
    if not (text_eq exp.matched_allowlist [])
    then allowlisted
    else if not (text_eq exp.matched_block [])
    then blocked
    else allowed

module _ (to_lower : Bytes → Bytes) (s : Store) (domain : Bytes) where
  unfoldable pub is_blocked : Bool
  unfolding normalize is_blocked_loop
  is_blocked =
      let name = normalize to_lower domain in is_blocked_loop (suc (length name)) s name false

  unfoldable pub is_allowlisted : Bool
  unfolding normalize is_allowlisted_loop
  is_allowlisted =
      let name = normalize to_lower domain in is_allowlisted_loop (suc (length name)) s name

  unfoldable pub explain : Explanation
  unfolding normalize explain_loop decide
  explain =
      let name = normalize to_lower domain in
      let start : Explanation = record {
        domain = name;
        decision = allowed;
        matched_block = [];
        matched_allowlist = [];
        walk = [];
      } in
      let exp = explain_loop (suc (length name)) s name start in
      record exp { decision = decide exp }
