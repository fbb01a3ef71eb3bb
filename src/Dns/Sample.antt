-- ===== src/Dns/Sample.antt =====
-- A concrete library and messages, for the tests of the modules that take a `DnsLibrary`.
use s_hole.Prelude.{
  ℕ, zero, suc, ◌/◌, ◌%◌, ◌^◌, true, false, List, [], ◌∷◌, ◌++◌, ◌+◌, ltb, ◌≡◌, refl, ap, Option,
  none, some, arith, Bytes, codes, text_eq, Lacks, length, ◌==◌, if◌then◌else◌,
}
use s_hole.Dns.{Rr, a, opt, Msg, DnsLibrary, DnsLaws, type_opt, type_a}

-- A library whose types and classes print as as many letters: distinct, and with no NUL byte.
unfoldable pub letters : ℕ → Bytes
letters zero = []
letters (suc n) = b'T' ∷ letters n

pub letters-injective : (m n : ℕ) → letters m ≡ letters n → m ≡ n
unfolding letters
letters-injective zero zero e = refl
letters-injective zero (suc n) e = cc
letters-injective (suc m) zero e = cc
letters-injective (suc m) (suc n) e = ap suc (letters-injective m n (cc))

pub letters-Lacks : (n : ℕ) → Lacks 0 (letters n)
unfolding letters
letters-Lacks zero = tt
letters-Lacks (suc n) = (omega arith, letters-Lacks n)

-- The OPT record of the extra section; the DO bit is bit 15 of its TTL field.
unfoldable pub opt_of : List Rr → Option Rr
opt_of [] = none
opt_of (rr ∷ rrs) = if rr.header.rrtype == type_opt then some rr else opt_of rrs

abbrev pub lib : DnsLibrary
lib = record {
  is_edns0 = λ m. opt_of m.extra;
  opt_do = λ rr. rr.header.ttl / 2 ^ 15 % 2 == 1;
  type_string = letters;
  class_string = letters;
  equal_fold = text_eq;
  to_lower = λ s. s;
  fqdn = λ s. s;
  count_label = length;
  next_label = λ name off. (off + 1, ltb (length name) (off + 2));
  set_reply = λ m req. record m {
    id = req.id;
    response = true;
    opcode = req.opcode;
    recursion_desired = req.recursion_desired;
    question = req.question;
  };
  set_rcode = λ m req rcode. record m {
    id = req.id;
    response = true;
    opcode = req.opcode;
    recursion_desired = req.recursion_desired;
    question = req.question;
    rcode = rcode;
  };
  set_edns0 = λ m size do_bit. record m {
    extra =
        m.extra
        ++ record {
          header = record {
            name = codes ".";
            rrtype = type_opt;
            class = size;
            ttl = if do_bit then 2 ^ 15 else 0;
          };
          rdata = opt [];
        }
          ∷ [];
  };
}

pub lib-DnsLaws : DnsLaws lib
lib-DnsLaws = record {
  type_string_injective = letters-injective;
  class_string_injective = letters-injective;
  type_string_lacks = letters-Lacks;
  class_string_lacks = letters-Lacks;
}

abbrev pub query : Msg
query = record {
  id = 7;
  response = false;
  opcode = 0;
  authoritative = false;
  truncated = false;
  recursion_desired = true;
  authenticated_data = false;
  checking_disabled = false;
  rcode = 0;
  question = record { name = codes "a.com."; qtype = 1; qclass = 1 } ∷ [];
  answer = [];
  ns = [];
  extra = [];
}

abbrev pub address : ℕ → Rr
address ttl = record {
  header = record { name = codes "a.com."; rrtype = type_a; class = 1; ttl = ttl };
  rdata = a (192 ∷ 0 ∷ 2 ∷ 1 ∷ []);
}

abbrev pub reply : Msg
reply = record query { response = true; answer = address 300 ∷ address 100_000 ∷ [] }
