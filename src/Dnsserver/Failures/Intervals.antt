-- ===== src/Dnsserver/Failures/Intervals.antt =====
-- internal/dnsserver/failures.go: what one interval of the two summaries reports.
use s_hole.Prelude.{
  inl, inr, ℕ, suc, ◌+◌, ◌≤◌, true, List, [], ◌∷◌, map, ◌≡◌, ◌⊎◌, refl, ◌∙◌, Option, none, some,
  arith, Bytes, length, ltb, ◌==◌, ==_iff, text_eq, text_eq_iff, Bool-cases,
}
use s_hole.Prelude.Sets.{member, insert, Distinct, insert-Distinct, member-insert}
use s_hole.Dnsserver.Failures.{
  Failure, forward_error, forward_limit, other_error, FailureLog, new_failure_log, ErrorTexts,
  record_causes, record_unresolved, Summary, flush, ReplyLog, max_reply_errors, record_reply,
}

module _ {E : Type 0} (texts : ErrorTexts E) (sort_strings : List Bytes → List Bytes) where
  -- The unresolved queries of one interval, in order.
  abbrev pub record_all : List (Failure E) → FailureLog → FailureLog
  record_all [] f = f
  record_all (e ∷ es) f = record_all es (record_unresolved texts e f)

  record_causes-count :
      (causes : List (Bytes × E)) (f : FailureLog) → (record_causes texts causes f).count ≡ f.count
  unfolding record_causes
  record_causes-count [] f = refl
  record_causes-count ((u, e) ∷ rest) f = record_causes-count rest _

  record_unresolved-count :
      (e : Failure E) (f : FailureLog) → (record_unresolved texts e f).count ≡ f.count + 1
  unfolding record_unresolved
  record_unresolved-count (forward_error causes) f = record_causes-count causes _
  record_unresolved-count forward_limit f = refl
  record_unresolved-count (other_error e) f = refl

  record_all-count :
      (es : List (Failure E)) (f : FailureLog) → (record_all es f).count ≡ f.count + length es
  record_all-count [] f = omega arith
  record_all-count (e ∷ es) f =
      record_all-count es (record_unresolved texts e f) ∙ omega (arith, record_unresolved-count e f)

  abbrev pub queries_of : Option Summary → ℕ
  queries_of none = 0
  queries_of (some s) = s.queries

  -- The summary at the end of an interval counts every unresolved query of the interval once, there
  -- is none when there was no such query, and the next interval starts empty.
  pub flush-count :
      (es : List (Failure E))
      → (queries_of (flush sort_strings (record_all es new_failure_log)).1 ≡ length es)
        × ((flush sort_strings (record_all es new_failure_log)).1 ≡ none → es ≡ [])
        × ((flush sort_strings (record_all es new_failure_log)).0 ≡ new_failure_log)
  unfolding flush
  flush-count es =
      let count = record_all-count es new_failure_log in
      elim (Bool-cases ((record_all es new_failure_log).count == 0)) [
        | inl empty ↦ rw empty (
          omega (arith, count, (==_iff _ 0).0 empty),
          λ h. length-zero es (omega (arith, count, (==_iff _ 0).0 empty)),
          refl,
        )
        | inr some_of_them ↦ rw some_of_them (omega (arith, count), (λ h. cc), refl)
      ]
    where
      length-zero : (xs : List (Failure E)) → length xs ≡ 0 → xs ≡ []
      length-zero [] h = refl
      length-zero (x ∷ xs) h = absurd (omega (arith, h))

module _ {E : Type 0} (net_error : E → Bytes) where
  -- The failed writes of one interval, in order.
  abbrev pub reply_all : List E → ReplyLog → ReplyLog
  reply_all [] r = r
  reply_all (e ∷ es) r = reply_all es (record_reply net_error e r)

  abbrev pub IsBounded : ReplyLog → Type 0
  IsBounded r = (length r.errs ≤ max_reply_errors) × Distinct r.errs

  insert-length : (k : Bytes) (s : List Bytes) → length (insert k s) ≤ suc (length s)
  unfolding insert
  insert-length k s = elim (Bool-cases (member k s)) [
    | inl there ↦ rw there (omega arith)
    | inr new ↦ rw new (omega arith)
  ]

  record_reply-IsBounded :
      (e : E) (r : ReplyLog) → IsBounded r → IsBounded (record_reply net_error e r)
  unfolding record_reply
  record_reply-IsBounded e r (size, distinct) =
      elim (Bool-cases (ltb (length r.errs) max_reply_errors)) [
        | inl room ↦ rw room (
          ground (arith, room, insert-length (net_error e) r.errs),
          insert-Distinct (net_error e) r.errs distinct,
        )
        | inr full ↦ rw full (size, distinct)
      ]

  record_reply-count : (e : E) (r : ReplyLog) → (record_reply net_error e r).count ≡ r.count + 1
  unfolding record_reply
  record_reply-count e r = refl

  record_reply-member :
      (t : Bytes) (e : E) (r : ReplyLog)
      → member t (record_reply net_error e r).errs ≡ true
      → (t ≡ net_error e) ⊎ (member t r.errs ≡ true)
  unfolding record_reply
  record_reply-member t e r = elim (Bool-cases (ltb (length r.errs) max_reply_errors)) [
    | inl room ↦ rw room (λ h. elim (Bool-cases (text_eq t (net_error e))) [
      | inl here ↦ inl ((text_eq_iff t (net_error e)).0 here)
      | inr other ↦ inr (ground (arith, h, other, member-insert t (net_error e) r.errs))
    ])
    | inr full ↦ rw full (λ h. inr h)
  ]

  -- After any failed writes of an interval the log counts each of them, it holds at most eight
  -- texts and no text twice, and each text that it did not hold before is that of one of them.
  pub reply_all-IsBounded :
      (es : List E) (r : ReplyLog)
      → IsBounded r
      → IsBounded (reply_all es r)
        × ((reply_all es r).count ≡ r.count + length es)
        × ((t : Bytes)
            → member t (reply_all es r).errs ≡ true
            → (member t (map net_error es) ≡ true) ⊎ (member t r.errs ≡ true))
  unfolding member
  reply_all-IsBounded [] r b = (b, omega arith, λ t h. inr h)
  reply_all-IsBounded (e ∷ es) r b =
      let next = record_reply net_error e r in
      let (bound, count, texts) = reply_all-IsBounded es next (record_reply-IsBounded e r b) in
      (
        bound,
        omega (arith, count, record_reply-count e r),
        λ t h. elim (texts t h) [
          | inl later ↦ inl (member_later t (net_error e) (map net_error es) later)
          | inr held ↦ elim (record_reply-member t e r held) [
            | inl now ↦ inl (member_now t (net_error e) (map net_error es) now)
            | inr before ↦ inr before
          ]
        ],
      )
    where
      member_later : (t x : Bytes) (xs : List Bytes) → member t xs ≡ true → member t (x ∷ xs) ≡ true
      member_later t x xs h = ground (arith, h)

      member_now : (t x : Bytes) (xs : List Bytes) → t ≡ x → member t (x ∷ xs) ≡ true
      member_now t x xs h = ground (arith, (text_eq_iff t x).1 h)
