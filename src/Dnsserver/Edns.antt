-- ===== src/Dnsserver/Edns.antt =====
-- internal/dnsserver/edns.go: the query that goes upstream, and the reply without its OPT record.
mod Tests
pub mod Exchanges
use s_hole.Prelude.{ℕ, false, List, [], ◌∷◌, none, some, ◌==◌, if◌then◌else◌}
use s_hole.Dns.{Question, Rr, Msg, DnsLibrary, new_msg, type_opt, opcode_query}

abbrev pub upstream_udp_size : ℕ
upstream_udp_size = 1232

-- []dns.Question{req.Question[0]}; the handler's requests have one question.
pub first_question : List Question → List Question
first_question [] = []
first_question (q ∷ _) = q ∷ []

-- `id` is the fresh random number of dns.Id().
unfoldable pub upstream_query : DnsLibrary → ℕ → Msg → Msg
unfolding first_question
upstream_query lib id req =
    let m = record new_msg {
      id = id;
      opcode = opcode_query;
      recursion_desired = req.recursion_desired;
      checking_disabled = req.checking_disabled;
      authenticated_data = req.authenticated_data;
      question = first_question req.question;
    } in
    lib.set_edns0 m upstream_udp_size
      (elim (lib.is_edns0 req) [ none ↦ false | some opt ↦ lib.opt_do opt ])

unfoldable pub without_opt : List Rr → List Rr
without_opt [] = []
without_opt (rr ∷ rrs) =
    let rest = without_opt rrs in if rr.header.rrtype == type_opt then rest else rr ∷ rest

unfoldable pub strip_opt : Msg → Msg
strip_opt resp = record resp { extra = without_opt resp.extra }
