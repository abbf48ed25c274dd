-- ===== src/Governor/Exclusion.antt =====
-- governor.go: what the lock promises to the goroutines that hold it.
use godinstall.Prelude.{
  ℕ, zero, suc, ◌+◌, ◌≤◌, ◌<◌, ◌≡◌, ◌≢◌, ap, Bool, true, false, List, [], ◌∷◌, Option, none, some,
  arith,
}
use godinstall.Governor.{
  Place, idle, token, reading, leaving, writing, unlocked, taking, refilling, Call, Shared, advance,
  send,
}
use godinstall.Governor.Invariant.{
  total, is_reading, is_writing, held, IsLock, reached, reached-IsLock,
}

reading_held : (max : ℕ) (ps : List Place) → 0 < max → total is_reading ps ≤ total (held max) ps
reading_held max [] l = omega arith
reading_held max (p ∷ ps) l = omega (arith, one max p, reading_held max ps l)
  where
    one : (max : ℕ) (p : Place) → is_reading p ≤ held max p
    one max idle = omega arith
    one max token = omega arith
    one max reading = omega arith
    one max leaving = omega arith
    one max writing = omega arith
    one max unlocked = omega arith
    one max (taking k) = omega arith
    one max (refilling k) = omega arith

-- Whatever the number of goroutines and whatever the schedule, at most one of them is writing; while
-- one is, none is reading; and if the governor has a maximum, no more than that many are reading.
pub governor_excludes :
    (max n : ℕ) (moves : List (ℕ × Call))
    → (total is_writing (reached max n moves).1 ≤ 1)
      × (total is_writing (reached max n moves).1 ≡ 1
          → total is_reading (reached max n moves).1 ≡ 0)
      × (0 < max → total is_reading (reached max n moves).1 ≤ max)
governor_excludes max n moves =
    excludes max (reached max n moves).0 (reached max n moves).1 (reached-IsLock max n moves)
  where
    excludes :
        (max : ℕ) (s : Shared) (ps : List Place)
        → IsLock max s ps
        → (total is_writing ps ≤ 1)
          × (total is_writing ps ≡ 1 → total is_reading ps ≡ 0)
          × (0 < max → total is_reading ps ≤ max)
    excludes max s ps v = (
      ground (arith, v.counts_writer),
      ground (arith, v.counts_writer, v.counts_readers, v.exclusive),
      λ l. omega (arith, v.conserved l, reading_held max ps l),
    )

abbrev pub place_at : List Place → ℕ → Option Place
place_at [] i = none
place_at (p ∷ ps) zero = some p
place_at (p ∷ ps) (suc i) = place_at ps i

-- The places of an unlock: a goroutine there is on its way out.
abbrev pub is_releasing : Place → Bool
is_releasing reading = true
is_releasing leaving = true
is_releasing writing = true
is_releasing unlocked = true
is_releasing (refilling k) = true
is_releasing _ = false

place_within :
    (f : Place → ℕ) (ps : List Place) (i : ℕ) (p : Place)
    → place_at ps i ≡ some p
    → f p ≤ total f ps
place_within f [] i p h = cc
place_within f (q ∷ ps) zero p h = omega (arith, ap f (the h))
  where
    the : some q ≡ some p → q ≡ p
    the e = cc
place_within f (q ∷ ps) (suc i) p h = omega (arith, place_within f ps i p h)

release_moves :
    (max : ℕ) (s : Shared) (c : Call) (p : Place) (h : ℕ)
    → is_releasing p ≡ true
    → held max p ≤ h
    → (0 < max → s.requests + h ≡ max)
    → advance max s c p ≢ none
unfolding advance send
release_moves max s c reading h r l co = ground arith
release_moves max s c leaving h r l co = ground arith
release_moves max s c writing h r l co = ground arith
release_moves max s c unlocked h r l co = ground arith
release_moves max s c (refilling k) h r l co = ground arith
release_moves max s c idle h r l co = cc
release_moves max s c token h r l co = cc
release_moves max s c (taking k) h r l co = cc

-- Whatever the schedule, an unlock never blocks: a goroutine that is reading, writing or in the midst of
-- an unlock can make its next operation. And WriteUnLock never fails: it finds the channel of a
-- governor that has a maximum empty.
pub unlock_succeeds :
    (max n : ℕ) (moves : List (ℕ × Call)) (i : ℕ) (c : Call) (p : Place)
    → place_at (reached max n moves).1 i ≡ some p
    → is_releasing p ≡ true
    → (advance max (reached max n moves).0 c p ≢ none)
      × (p ≡ unlocked → 0 < max → (reached max n moves).0.requests ≡ 0)
unlock_succeeds max n moves i c p at r = (
  release_moves max (reached max n moves).0 c p (total (held max) (reached max n moves).1) r within
      held_all.conserved,
  λ e l. omega (arith, within, ap (held max) e, held_all.conserved l),
)
  where
    held_all : IsLock max (reached max n moves).0 (reached max n moves).1
    held_all = reached-IsLock max n moves

    within : held max p ≤ total (held max) (reached max n moves).1
    within = place_within (held max) (reached max n moves).1 i p at
