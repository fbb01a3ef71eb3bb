-- ===== src/Dns.antt =====
-- The DNS messages that the server handles, as far as its code reads and writes them, and the
-- functions of github.com/miekg/dns (a Go module outside the repository) and of Go's strings
-- package that it calls on them. The library's code is not modelled: `DnsLibrary` takes each
-- function as a field, and `DnsLaws` names the documented facts that some theorems rest on.
pub mod Sample
use s_hole.Prelude.{ℕ, Bool, false, [], List, Option, Bytes, ◌≡◌, Lacks}

pub record Question : Type 0 where
  pub name : Bytes
  pub qtype : ℕ
  pub qclass : ℕ

pub record Header : Type 0 where
  pub name : Bytes
  pub rrtype : ℕ
  pub class : ℕ
  pub ttl : ℕ

-- The concrete Go type of a record, with the fields that the server reads or writes.
pub data Rdata : Type 0 where
  a aaaa : Bytes → Rdata
  cname : Bytes → Rdata
  opt : List ℕ → Rdata
  other : Bytes → Rdata

pub record Rr : Type 0 where
  pub header : Header
  pub rdata : Rdata

pub record Msg : Type 0 where
  pub id : ℕ
  pub response : Bool
  pub opcode : ℕ
  pub authoritative : Bool
  pub truncated : Bool
  pub recursion_desired : Bool
  pub authenticated_data : Bool
  pub checking_disabled : Bool
  pub rcode : ℕ
  pub question : List Question
  pub answer : List Rr
  pub ns : List Rr
  pub extra : List Rr

-- The codes of RFC 1035, 3596, 4034 and 6891 that the library names.
abbrev pub type_a : ℕ
type_a = 1

abbrev pub type_ns : ℕ
type_ns = 2

abbrev pub type_cname : ℕ
type_cname = 5

abbrev pub type_soa : ℕ
type_soa = 6

abbrev pub type_ptr : ℕ
type_ptr = 12

abbrev pub type_aaaa : ℕ
type_aaaa = 28

abbrev pub type_opt : ℕ
type_opt = 41

abbrev pub class_inet : ℕ
class_inet = 1

abbrev pub opcode_query : ℕ
opcode_query = 0

abbrev pub rcode_success : ℕ
rcode_success = 0

abbrev pub rcode_server_failure : ℕ
rcode_server_failure = 2

abbrev pub rcode_name_error : ℕ
rcode_name_error = 3

abbrev pub rcode_not_implemented : ℕ
rcode_not_implemented = 4

abbrev pub rcode_refused : ℕ
rcode_refused = 5

-- new(dns.Msg)
abbrev pub new_msg : Msg
new_msg = record {
  id = 0;
  response = false;
  opcode = 0;
  authoritative = false;
  truncated = false;
  recursion_desired = false;
  authenticated_data = false;
  checking_disabled = false;
  rcode = 0;
  question = [];
  answer = [];
  ns = [];
  extra = [];
}

pub record DnsLibrary : Type 0 where
  -- (*dns.Msg).IsEdns0: the OPT record of a message.
  pub is_edns0 : Msg → Option Rr
  -- (*dns.OPT).Do
  pub opt_do : Rr → Bool
  -- dns.Type.String and dns.Class.String
  pub type_string : ℕ → Bytes
  pub class_string : ℕ → Bytes
  -- strings.EqualFold, strings.ToLower and dns.Fqdn
  pub equal_fold : Bytes → Bytes → Bool
  pub to_lower : Bytes → Bytes
  pub fqdn : Bytes → Bytes
  -- dns.CountLabel, and dns.NextLabel: the next offset, and whether the name has ended
  pub count_label : Bytes → ℕ
  pub next_label : Bytes → ℕ → ℕ × Bool
  -- (*dns.Msg).SetReply and SetRcode, of the reply and the request, and SetEdns0
  pub set_reply : Msg → Msg → Msg
  pub set_rcode : Msg → Msg → ℕ → Msg
  pub set_edns0 : Msg → ℕ → Bool → Msg

-- The printed types and classes are distinct for distinct codes, and hold no NUL byte.
pub record DnsLaws (lib : DnsLibrary) : Type 0 where
  pub type_string_injective : (m n : ℕ) → lib.type_string m ≡ lib.type_string n → m ≡ n
  pub class_string_injective : (m n : ℕ) → lib.class_string m ≡ lib.class_string n → m ≡ n
  pub type_string_lacks : (n : ℕ) → Lacks 0 (lib.type_string n)
  pub class_string_lacks : (n : ℕ) → Lacks 0 (lib.class_string n)
