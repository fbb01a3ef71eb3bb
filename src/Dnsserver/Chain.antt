-- ===== src/Dnsserver/Chain.antt =====
-- internal/dnsserver/cname.go: the check of the CNAME targets in a reply.
mod Tests
pub mod Targets
use s_hole.Prelude.{Bool, true, false, not, ◌||◌, Bytes, any, ◌==◌, if◌then◌else◌}
use s_hole.Dns.{Rr, cname, Msg, rcode_success}
use s_hole.Blocklist.Store.{Store}
use s_hole.Blocklist.Store.Lookup.{is_blocked, is_allowlisted}

pub is_cname : Rr → Bool
is_cname rr = elim rr.rdata [ cname _ ↦ true | _ ↦ false ]

-- `to_lower` is strings.ToLower, which the lookups call.
module _ (to_lower : Bytes → Bytes) where
  -- A CNAME record whose target is blocked.
  unfoldable pub is_blocked_cname : Store → Rr → Bool
  is_blocked_cname store rr = elim rr.rdata [
    | cname target ↦ is_blocked to_lower store target
    | _ ↦ false
  ]

  -- `inspection` is the field cnameInspection.
  unfoldable pub chain_blocked : Bool → Store → Bytes → Msg → Bool
  unfolding is_cname
  chain_blocked inspection store domain resp =
      if not inspection || not (resp.rcode == rcode_success)
      then false
      else if not (any is_cname resp.answer) || is_allowlisted to_lower store domain
      then false
      else any (is_blocked_cname store) resp.answer
