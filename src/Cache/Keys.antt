-- ===== src/Cache/Keys.antt =====
-- The cache key: two queries share an entry only if they ask the same, with the same CD and DO bits.
use s_hole.Prelude.{
  Bool, true, false, List, [], ◌∷◌, ◌++◌, ◌≡◌, refl, ◌↔◌, some, arith, Bytes, Lacks, length,
  if◌then◌else◌,
}
use s_hole.Dns.{Question, Msg, DnsLibrary, DnsLaws}
use s_hole.Cache.{key_bits, key, do_of, key_of_question, key_of}

-- The text before the first NUL byte is determined by the whole, if it holds none.
append_nul-injective :
    (a b : Bytes) {r s : Bytes}
    → Lacks 0 a
    → Lacks 0 b
    → a ++ 0 ∷ r ≡ b ++ 0 ∷ s
    → (a ≡ b) × (r ≡ s)
append_nul-injective [] [] la lb e = (refl, cc)
append_nul-injective [] (y ∷ b) la lb e = absurd (lb.0 (cc))
append_nul-injective (x ∷ a) [] la lb e = absurd (la.0 (cc))
append_nul-injective (x ∷ a) (y ∷ b) {r} {s} la lb e =
    let (h, t) = append_nul-injective a b {r = r} {s = s} la.1 lb.1 (cc) in (cc, t)

abbrev flags : Bool → Bool → Bytes
flags c d = (if c then b'c' else b'-') ∷ (if d then b'd' else b'-') ∷ []

key_bits-flags : (c d : Bool) → key_bits c d ≡ 0 ∷ flags c d
unfolding key_bits
key_bits-flags true true = refl
key_bits-flags true false = refl
key_bits-flags false true = refl
key_bits-flags false false = refl

flags-injective : (c d c' d' : Bool) → flags c d ≡ flags c' d' → (c ≡ c') × (d ≡ d')
flags-injective c d c' d' e = ground arith

module _ (lib : DnsLibrary) (laws : DnsLaws lib) where
  -- Two questions whose names hold no NUL byte have the same key only if they are the same question
  -- (the case of the name included) and the CD bits and the DO bits agree.
  pub key-injective :
      (q r : Question) (cd cd' do_bit do_bit' : Bool)
      → Lacks 0 q.name
      → Lacks 0 r.name
      → key lib q cd do_bit ≡ key lib r cd' do_bit'
      → (q ≡ r) × (cd ≡ cd') × (do_bit ≡ do_bit')
  unfolding key
  key-injective q r cd cd' do_bit do_bit' lq lr e =
      let (names, e₁) = append_nul-injective q.name r.name lq lr e in
      let (types, e₂) =
        append_nul-injective (lib.type_string q.qtype) (lib.type_string r.qtype)
          (laws.type_string_lacks q.qtype) (laws.type_string_lacks r.qtype) e₁ in
      let (classes, e₃) =
        append_nul-injective (lib.class_string q.qclass) (lib.class_string r.qclass)
          (laws.class_string_lacks q.qclass) (laws.class_string_lacks r.qclass)
          (rw (key_bits-flags cd do_bit, key_bits-flags cd' do_bit') at e₂) in
      (
        (λ i. record {
          name = names i;
          qtype = laws.type_string_injective q.qtype r.qtype types i;
          qclass = laws.class_string_injective q.qclass r.qclass classes i;
        }),
        (flags-injective cd do_bit cd' do_bit' e₃).0,
        (flags-injective cd do_bit cd' do_bit' e₃).1,
      )

key_of_question-some_iff :
    (lib : DnsLibrary) (qs : List Question) (cd do_bit : Bool)
    → ((k : Bytes) × (key_of_question lib qs cd do_bit ≡ some k)) ↔ (length qs ≡ 1)
unfolding key_of_question
key_of_question-some_iff lib [] cd do_bit = (λ h. cc h.1, λ h. absurd (omega arith))
key_of_question-some_iff lib (q ∷ []) cd do_bit = (λ h. refl, λ h. (key lib q cd do_bit, refl))
key_of_question-some_iff lib (q ∷ r ∷ qs) cd do_bit = (λ h. cc h.1, λ h. absurd (omega arith))

-- A query has a cache key exactly when it holds one question.
pub key_of-some_iff :
    (lib : DnsLibrary) (req : Msg)
    → ((k : Bytes) × (key_of lib req ≡ some k)) ↔ (length req.question ≡ 1)
unfolding key_of
key_of-some_iff lib req =
    key_of_question-some_iff lib req.question req.checking_disabled (do_of lib req)
