-- ===== src/Blocklist/Store/Allowlist.antt =====
-- internal/blocklist/store.go: the runtime allowlist and its limit, over every sequence of calls.
use s_hole.Prelude.{
  ℕ, ◌≤◌, true, false, ◌||◌, List, [], ◌∷◌, ◌≡◌, inl, inr, ◌↔◌, arith, Bytes, text_eq, text_eq_iff,
  text_eq_refl, length, leb, Bool-cases,
}
use s_hole.Prelude.Sets.{
  member, member-nil, insert, Distinct, member-insert, member-delete, insert-Distinct,
  delete-Distinct, length-insert, length-delete-le, length-delete-lt,
}
use s_hole.Blocklist.Normalize.{normalize}
use s_hole.Blocklist.Store.Lookup.{is_blocked}
use s_hole.Blocklist.Store.Lookup.Suffixes.{IsUnder}
use s_hole.Blocklist.Store.Lookup.Verdict.{is_blocked-any, is_allowlisted_iff}
use s_hole.Blocklist.Store.{
  Store, SourceStatus, fill, set_allowlist, replace, add_to_allowlist, add_to_allowlist_limited,
  remove_from_allowlist, set_sources,
}

-- Each map holds a key once, and every runtime entry is in the allowlist.
pub record IsWellFormed (s : Store) : Type 0 where
  pub blocked_distinct : Distinct s.blocked
  pub allowlist_distinct : Distinct s.allowlist
  pub runtime_distinct : Distinct s.runtime
  pub runtime_listed : (d : Bytes) → member d s.runtime ≡ true → member d s.allowlist ≡ true

-- The methods that change a store; `limit` is the one limit that every limited add passes.
pub data Call : Type 0 where
  set_allow replace_all : List Bytes → Call
  add add_limited remove : Bytes → Call
  sources : List SourceStatus → Call

module _ (to_lower : Bytes → Bytes) (limit : ℕ) where
  pub apply : Call → Store → Store
  unfolding set_allowlist replace add_to_allowlist add_to_allowlist_limited remove_from_allowlist
      set_sources
  apply (set_allow ds) s = set_allowlist to_lower s ds
  apply (replace_all ds) s = replace to_lower s ds
  apply (add d) s = add_to_allowlist to_lower s d
  apply (add_limited d) s = (add_to_allowlist_limited to_lower s d limit).0
  apply (remove d) s = remove_from_allowlist to_lower s d
  apply (sources l) s = set_sources s l

  unfoldable pub run : List Call → Store → Store
  unfolding apply
  run [] s = s
  run (c ∷ cs) s = run cs (apply c s)

module _ (to_lower : Bytes → Bytes) where
  fill-Distinct : (domains set : List Bytes) → Distinct set → Distinct (fill to_lower domains set)
  unfolding fill
  fill-Distinct [] set h = h
  fill-Distinct (d ∷ domains) set h =
      fill-Distinct domains (insert (normalize to_lower d) set)
        (insert-Distinct (normalize to_lower d) set h)

  module _ (limit : ℕ) where
    add_to_allowlist_limited-IsWellFormed :
        (domain : Bytes) (s : Store)
        → IsWellFormed s
        → IsWellFormed (add_to_allowlist_limited to_lower s domain limit).0
    unfolding add_to_allowlist_limited
    add_to_allowlist_limited-IsWellFormed domain s w = elim (Bool-cases (member d s.allowlist)) [
      | inl old ↦ rw old w
      | inr new ↦ elim (Bool-cases (leb limit (length s.runtime))) [
        | inl full ↦ rw (new, full) w
        | inr room ↦
            rw (new, room)
              (record {
                blocked_distinct = w.blocked_distinct;
                allowlist_distinct = insert-Distinct d s.allowlist w.allowlist_distinct;
                runtime_distinct = insert-Distinct d s.runtime w.runtime_distinct;
                runtime_listed = λ j m. ground (
                  arith,
                  member-insert j d s.allowlist,
                  member-insert j d s.runtime,
                  w.runtime_listed j,
                );
              })
      ]
    ]
      where
        d : Bytes
        d = normalize to_lower domain

    apply-IsWellFormed :
        (c : Call) (s : Store) → IsWellFormed s → IsWellFormed (apply to_lower limit c s)
    unfolding apply
    apply-IsWellFormed (set_allow ds) s w = record {
      blocked_distinct = w.blocked_distinct;
      allowlist_distinct = fill-Distinct ds [] tt;
      runtime_distinct = tt;
      runtime_listed = λ d m. cc (member-nil d);
    }
    apply-IsWellFormed (replace_all ds) s w = record {
      blocked_distinct = fill-Distinct ds [] tt;
      allowlist_distinct = w.allowlist_distinct;
      runtime_distinct = w.runtime_distinct;
      runtime_listed = w.runtime_listed;
    }
    apply-IsWellFormed (add d) s w = record {
      blocked_distinct = w.blocked_distinct;
      allowlist_distinct = insert-Distinct (normalize to_lower d) s.allowlist w.allowlist_distinct;
      runtime_distinct = w.runtime_distinct;
      runtime_listed = λ j m.
          ground (arith, member-insert j (normalize to_lower d) s.allowlist, w.runtime_listed j);
    }
    apply-IsWellFormed (add_limited d) s w = add_to_allowlist_limited-IsWellFormed d s w
    apply-IsWellFormed (remove d) s w = record {
      blocked_distinct = w.blocked_distinct;
      allowlist_distinct = delete-Distinct (normalize to_lower d) s.allowlist w.allowlist_distinct;
      runtime_distinct = delete-Distinct (normalize to_lower d) s.runtime w.runtime_distinct;
      runtime_listed = λ j m. ground (
        arith,
        member-delete j (normalize to_lower d) s.allowlist,
        member-delete j (normalize to_lower d) s.runtime,
        w.runtime_listed j,
      );
    }
    apply-IsWellFormed (sources l) s w = record {
      blocked_distinct = w.blocked_distinct;
      allowlist_distinct = w.allowlist_distinct;
      runtime_distinct = w.runtime_distinct;
      runtime_listed = w.runtime_listed;
    }

    runtime-apply-le :
        (c : Call) (s : Store)
        → IsWellFormed s
        → length s.runtime ≤ limit
        → length (apply to_lower limit c s).runtime ≤ limit
    unfolding apply
    runtime-apply-le (set_allow ds) s w h = omega arith
    runtime-apply-le (replace_all ds) s w h = h
    runtime-apply-le (add d) s w h = h
    runtime-apply-le (add_limited d) s w h =
        unfold add_to_allowlist_limited in
        ground (
          arith,
          length-insert (normalize to_lower d) s.runtime,
          w.runtime_listed (normalize to_lower d),
        )
    runtime-apply-le (remove d) s w h =
        omega (arith, length-delete-le (normalize to_lower d) s.runtime)
    runtime-apply-le (sources l) s w h = h

    -- Whatever sequence of calls changes a store, it stays well formed and holds at most `limit`
    -- runtime entries, if it did so before.
    pub run-IsWellFormed :
        (cs : List Call) (s : Store)
        → IsWellFormed s
        → length s.runtime ≤ limit
        → IsWellFormed (run to_lower limit cs s)
          × (length (run to_lower limit cs s).runtime ≤ limit)
    unfolding run
    run-IsWellFormed [] s w h = (w, h)
    run-IsWellFormed (c ∷ cs) s w h =
        run-IsWellFormed cs (apply to_lower limit c s) (apply-IsWellFormed c s w)
          (runtime-apply-le c s w h)

    -- A limited add refuses a domain exactly when the domain is not in the allowlist and the runtime
    -- entries have reached the limit. A refused add changes nothing; an accepted one adds the
    -- normalized domain and keeps all that was there, and the same add again changes nothing.
    pub add_to_allowlist_limited_lem :
        (domain : Bytes) (s : Store)
        → (((add_to_allowlist_limited to_lower s domain limit).1 ≡ false) ↔ (
            (member (normalize to_lower domain) s.allowlist ≡ false) × (limit ≤ length s.runtime)))
          × ((add_to_allowlist_limited to_lower s domain limit).1 ≡ false
              → (add_to_allowlist_limited to_lower s domain limit).0 ≡ s)
          × ((add_to_allowlist_limited to_lower s domain limit).1 ≡ true
              → ((j : Bytes)
                  → member j (add_to_allowlist_limited to_lower s domain limit).0.allowlist
                    ≡ (text_eq j (normalize to_lower domain) || member j s.allowlist))
                × (add_to_allowlist_limited to_lower
                      (add_to_allowlist_limited to_lower s domain limit).0
                      domain
                      limit
                    ≡ ((add_to_allowlist_limited to_lower s domain limit).0, true)))
    unfolding add_to_allowlist_limited
    add_to_allowlist_limited_lem domain s = (
      (λ r. ground arith, λ r. ground arith),
      λ r. ground arith,
      λ r. (
        λ j. ground (
          arith,
          member-insert j (normalize to_lower domain) s.allowlist,
          text_eq_iff j (normalize to_lower domain),
        ),
        ground (
          arith,
          member-insert (normalize to_lower domain) (normalize to_lower domain) s.allowlist,
          text_eq_refl (normalize to_lower domain),
        ),
      ),
    )

    -- In a well-formed store within the limit, removing a runtime entry frees a place: the entry is
    -- gone from the allowlist, and the next limited add of any domain is accepted.
    pub add_to_allowlist_limited-remove :
        (domain next : Bytes) (s : Store)
        → length s.runtime ≤ limit
        → member (normalize to_lower domain) s.runtime ≡ true
        → (member (normalize to_lower domain) (remove_from_allowlist to_lower s domain).allowlist
            ≡ false)
          × ((add_to_allowlist_limited to_lower
                (remove_from_allowlist to_lower s domain)
                next
                limit).1
              ≡ true)
    unfolding add_to_allowlist_limited remove_from_allowlist
    add_to_allowlist_limited-remove domain next s h m = (
      ground (
        arith,
        member-delete (normalize to_lower domain) (normalize to_lower domain) s.allowlist,
        text_eq_refl (normalize to_lower domain),
      ),
      ground (arith, length-delete-lt (normalize to_lower domain) s.runtime),
    )

    -- Once a limited add has accepted a domain, no name under that domain is blocked, whatever the
    -- block set holds.
    pub is_blocked-add_to_allowlist_limited :
        (domain host : Bytes) (s : Store)
        → (add_to_allowlist_limited to_lower s domain limit).1 ≡ true
        → IsUnder (normalize to_lower host) (normalize to_lower domain)
        → is_blocked to_lower (add_to_allowlist_limited to_lower s domain limit).0 host ≡ false
    is_blocked-add_to_allowlist_limited domain host s ok u = ground (
      arith,
      is_blocked-any to_lower after host,
      (is_allowlisted_iff to_lower after host).1 (normalize to_lower domain, u, listed),
    )
      where
        after : Store
        after = (add_to_allowlist_limited to_lower s domain limit).0

        listed : member (normalize to_lower domain) after.allowlist ≡ true
        listed = ground (
          arith,
          ((add_to_allowlist_limited_lem domain s).2 ok).0 (normalize to_lower domain),
          text_eq_refl (normalize to_lower domain),
        )
