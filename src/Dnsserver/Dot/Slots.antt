-- ===== src/Dnsserver/Dot/Slots.antt =====
-- internal/dnsserver/dot.go: the connections that a limitListener lets be open.
use s_hole.Prelude.{
  inl, inr, ℕ, zero, suc, ◌+◌, ◌≤◌, ◌<◌, Bool, true, false, List, [], ◌∷◌, ◌++◌, ◌≡◌, refl, sym, ap,
  ◌∙◌, none, some, arith, ltb, Bool-cases,
}
use mathlib.Core.Path.{subst}
use s_hole.Dnsserver.Dot.{
  LimitListener, new_limit_listener, take_slot, accepted, release_at, holds_at, close_conn,
  close_listener,
}

-- One step of the goroutines that use the listener.
pub data Step : LimitListener → LimitListener → Type 0 where
  taken : (l m : LimitListener) → take_slot l ≡ some m → Step l m
  answered : (l : LimitListener) (ok : Bool) → 0 < l.accepting → Step l (accepted ok l)
  conn_closed : (l : LimitListener) (i : ℕ) → Step l (close_conn i l)
  listener_closed : (l : LimitListener) → Step l (close_listener l)

-- What a listener for n connections can become.
pub data Reachable (n : ℕ) : LimitListener → Type 0 where
  new : Reachable n (new_limit_listener n)
  next : (l m : LimitListener) → Reachable n l → Step l m → Reachable n m

-- The connections that hold a place.
abbrev pub open_count : List Bool → ℕ
open_count [] = 0
open_count (true ∷ holds) = suc (open_count holds)
open_count (false ∷ holds) = open_count holds

open_count-append : (xs ys : List Bool) → open_count (xs ++ ys) ≡ open_count xs + open_count ys
open_count-append [] ys = omega arith
open_count-append (true ∷ xs) ys = omega (arith, open_count-append xs ys)
open_count-append (false ∷ xs) ys = open_count-append xs ys

open_count-release_at :
    (i : ℕ) (holds : List Bool)
    → holds_at i holds ≡ true
    → open_count holds ≡ suc (open_count (release_at i holds))
unfolding release_at holds_at
open_count-release_at i [] h = cc
open_count-release_at zero (true ∷ holds) h = refl
open_count-release_at zero (false ∷ holds) h = cc
open_count-release_at (suc i) (true ∷ holds) h = ap suc (open_count-release_at i holds h)
open_count-release_at (suc i) (false ∷ holds) h = open_count-release_at i holds h

-- Every filled place belongs to a call of Accept or to an open connection.
pub record IsBalanced (n : ℕ) (l : LimitListener) : Type 0 where
  pub size : l.capacity ≡ n
  pub bound : l.slots ≤ n
  pub balance : l.slots ≡ l.accepting + open_count l.holds

take_slot-IsBalanced :
    (n : ℕ) (l m : LimitListener) → IsBalanced n l → take_slot l ≡ some m → IsBalanced n m
unfolding take_slot
take_slot-IsBalanced n l m b h = elim (Bool-cases (ltb l.slots l.capacity)) [
  | inl room ↦ subst (IsBalanced n) (same (sym (taken_place room) ∙ h)) (record {
    size = b.size;
    bound = ground (arith, room, b.size);
    balance = omega (arith, b.balance);
  })
  | inr full ↦ absurd (wrong (sym (no_place full) ∙ h))
]
  where
    taken_place :
        ltb l.slots l.capacity ≡ true
        → take_slot l ≡ some (record l { slots = l.slots + 1; accepting = l.accepting + 1 })
    taken_place room = rw room refl

    no_place : ltb l.slots l.capacity ≡ false → take_slot l ≡ none
    no_place full = rw full refl

    same : {x y : LimitListener} → some x ≡ some y → x ≡ y
    same p = cc

    wrong : {x : LimitListener} → none ≡ some x → ⊥
    wrong p = cc

accepted-IsBalanced :
    (n : ℕ) (l : LimitListener) (ok : Bool)
    → IsBalanced n l
    → 0 < l.accepting
    → IsBalanced n (accepted ok l)
unfolding accepted
accepted-IsBalanced n l true b h = record {
  size = b.size;
  bound = b.bound;
  balance = omega (arith, b.balance, h, open_count-append l.holds (true ∷ []));
}
accepted-IsBalanced n l false b h = record {
  size = b.size;
  bound = omega (arith, b.bound);
  balance = omega (arith, b.balance, h);
}

close_conn-IsBalanced :
    (n i : ℕ) (l : LimitListener) → IsBalanced n l → IsBalanced n (close_conn i l)
unfolding close_conn
close_conn-IsBalanced n i l b = elim (Bool-cases (holds_at i l.holds)) [
  | inl held ↦ rw held (record {
    size = b.size;
    bound = omega (arith, b.bound);
    balance = omega (arith, b.balance, open_count-release_at i l.holds held);
  })
  | inr free ↦ rw free b
]

step-IsBalanced : (n : ℕ) (l m : LimitListener) → IsBalanced n l → Step l m → IsBalanced n m
unfolding close_listener
step-IsBalanced n l m b (taken l' m' h) = take_slot-IsBalanced n l m b h
step-IsBalanced n l m b (answered l' ok h) = accepted-IsBalanced n l ok b h
step-IsBalanced n l m b (conn_closed l' i) = close_conn-IsBalanced n i l b
step-IsBalanced n l m b (listener_closed l') = record {
  size = b.size;
  bound = b.bound;
  balance = b.balance;
}

-- In every state that a listener for n connections can reach, at most n connections and calls of
-- Accept hold a place, each of them one, and no place is lost: the filled places are those held, so
-- a connection that was closed twice has freed one place.
pub Reachable-IsBalanced : (n : ℕ) (l : LimitListener) → Reachable n l → IsBalanced n l
Reachable-IsBalanced n l new = record { size = refl; bound = omega arith; balance = refl }
Reachable-IsBalanced n m (next l m' r s) = step-IsBalanced n l m (Reachable-IsBalanced n l r) s
