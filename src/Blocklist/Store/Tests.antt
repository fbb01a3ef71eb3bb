-- ===== src/Blocklist/Store/Tests.antt =====
-- Tests of the Store, and its theorems at concrete inputs.
use s_hole.Prelude.{
  ◌≤◌, true, false, List, [], ◌∷◌, map, ◌≡◌, refl, ◌↔◌, arith, Bytes, codes, length, if◌then◌else◌,
}
use s_hole.Prelude.Sets.{member, insert, delete}
use s_hole.Blocklist.Normalize.{lower_byte, normalize}
use s_hole.Blocklist.Store.{
  Store, new_store, fill, set_allowlist, replace, add_to_allowlist, add_to_allowlist_limited,
  remove_from_allowlist, set_sources, get_sources, len, allowlist_len,
}
use s_hole.Blocklist.Store.Allowlist.{
  IsWellFormed, Call, set_allow, add_limited, remove, run, run-IsWellFormed,
}
use s_hole.Blocklist.Store.Lookup.{
  is_blocked, is_allowlisted, blocked, allowlisted, allowed, explain,
}
use s_hole.Blocklist.Store.Lookup.Suffixes.{IsUnder}
use s_hole.Blocklist.Store.Lookup.Verdict.{is_blocked_iff}
use s_hole.Blocklist.Store.Lookup.Explain.{explain-decision}

-- strings.ToLower on ASCII text, which is all that the tests pass.
abbrev lower : Bytes → Bytes
lower = map lower_byte

abbrev sample : Store
sample = record new_store {
  blocked = codes "doubleclick.net" ∷ codes "ads.example.com" ∷ [];
  allowlist = codes "safe.doubleclick.net" ∷ [];
}

abbrev full : Store
full = record sample {
  allowlist = codes "b.test" ∷ codes "a.test" ∷ [];
  runtime = codes "b.test" ∷ codes "a.test" ∷ [];
}

code : Unit {0}
unfolding member insert delete normalize fill set_allowlist replace add_to_allowlist
    add_to_allowlist_limited remove_from_allowlist set_sources get_sources len allowlist_len
    is_blocked is_allowlisted explain
code = tt

blocked_subdomain : is_blocked lower sample (codes "X.ADS.example.com.") ≡ true
unfolding code
blocked_subdomain = refl

allowlist_wins : is_blocked lower sample (codes "a.safe.doubleclick.net") ≡ false
unfolding code
allowlist_wins = refl

sibling_not_blocked : is_blocked lower sample (codes "notads.example.com") ≡ false
unfolding code
sibling_not_blocked = refl

explained : (explain lower sample (codes "a.safe.doubleclick.net")).decision ≡ allowlisted
unfolding code
explained = refl

counted : (len sample ≡ 2) × (allowlist_len sample ≡ 1) × (get_sources (set_sources sample []) ≡ [])
unfolding code
counted = (refl, refl, refl)

config_allowlist :
    (add_to_allowlist lower
      (set_allowlist lower sample (codes "A.com." ∷ []))
      (codes "b.com")).allowlist
    ≡ codes "b.com" ∷ codes "a.com" ∷ []
unfolding code
config_allowlist = refl

is_blocked_iff_example : (is_blocked lower sample (codes "x.ads.example.com") ≡ true) ↔ (
    ((t : Bytes) × IsUnder (normalize lower (codes "x.ads.example.com")) t
      × (member t sample.blocked ≡ true))
    × ((t : Bytes)
        → IsUnder (normalize lower (codes "x.ads.example.com")) t
        → member t sample.allowlist ≡ false))
is_blocked_iff_example = is_blocked_iff lower sample (codes "x.ads.example.com")

explain-decision_example : (explain lower sample (codes "x.ads.example.com")).decision ≡ (
    if is_allowlisted lower sample (codes "x.ads.example.com")
    then allowlisted
    else if is_blocked lower sample (codes "x.ads.example.com")
    then blocked
    else allowed)
unfolding member
explain-decision_example = explain-decision lower sample (codes "x.ads.example.com") refl refl

abbrev calls : List Call
calls =
    set_allow (codes "nas.lan" ∷ [])
    ∷ add_limited (codes "a.test")
    ∷ add_limited (codes "b.test")
    ∷ add_limited (codes "c.test")
    ∷ remove (codes "a.test")
    ∷ []

calls-run : (run lower 2 calls new_store).runtime ≡ codes "b.test" ∷ []
unfolding code run
calls-run = refl

new_store-IsWellFormed : IsWellFormed new_store
new_store-IsWellFormed = record {
  blocked_distinct = tt;
  allowlist_distinct = tt;
  runtime_distinct = tt;
  runtime_listed = λ d m. m;
}

run-IsWellFormed_example :
    IsWellFormed (run lower 2 calls new_store) × (length (run lower 2 calls new_store).runtime ≤ 2)
run-IsWellFormed_example =
    run-IsWellFormed lower 2 calls new_store new_store-IsWellFormed (omega arith)
