-- ===== src/Governor/Deadlock.antt =====
-- governor.go: two callers of WriteLock can each hold a part of the tokens and wait for the rest.
use godinstall.Prelude.{
  ℕ, zero, suc, ◌+◌, ◌≤◌, ◌<◌, ◌≡◌, refl, ◌∙◌, ap, false, List, [], ◌∷◌, ◌++◌, none, some, arith,
}
use godinstall.Governor.{
  Place, idle, taking, Call, write, Shared, receive, advance, alone, put_back, step, or_stay, run,
  new_governor, all_idle,
}
use godinstall.Governor.Invariant.{reached}

-- A goroutine in WriteLock moves so many times.
abbrev pub turns : ℕ → ℕ → List (ℕ × Call)
turns i zero = []
turns i (suc k) = (i, write) ∷ turns i k

-- The lock with so many tokens left and nobody at the RWMutex.
abbrev pub left : ℕ → Shared
left q = record { requests = q; readers = 0; writer = false }

advance-taking :
    (max t q k : ℕ) (c : Call)
    → k < max
    → t ≡ suc q
    → advance max (left t) c (taking k) ≡ some (left q, taking (suc k))
unfolding advance receive
advance-taking max t q k c l e = ground arith

advance_blocked : (max k : ℕ) (c : Call) → k < max → advance max (left 0) c (taking k) ≡ none
unfolding advance receive
advance_blocked max k c l = ground arith

run-step :
    (max : ℕ) (s s' : Shared) (i : ℕ) (c : Call) (ps ps' : List Place) (moves : List (ℕ × Call))
    → step max s i c ps ≡ some (s', ps')
    → run max s ps ((i, c) ∷ moves) ≡ run max s' ps' moves
unfolding run
run-step max s s' i c ps ps' moves h =
    ap (λ o. run max (or_stay max s ps o).0 (or_stay max s ps o).1 moves) h

run_first :
    (max q m k : ℕ) (p : Place) (rest : List (ℕ × Call))
    → k + m ≤ max
    → run max (left (m + q)) (taking k ∷ p ∷ []) (turns 0 m ++ rest)
      ≡ run max (left q) (taking (k + m) ∷ p ∷ []) rest
unfolding step
run_first max q zero k p rest l =
    ap (λ t. run max (left t) (taking k ∷ p ∷ []) rest) (omega arith)
    ∙ ap (λ j. run max (left q) (taking j ∷ p ∷ []) rest) (omega arith)
run_first max q (suc m) k p rest l =
    run-step max (left (suc m + q)) (left (m + q)) 0 write (taking k ∷ p ∷ [])
      (taking (suc k) ∷ p ∷ []) (turns 0 m ++ rest) taken
    ∙ run_first max q m (suc k) p rest (omega arith)
    ∙ ap (λ j. run max (left q) (taking j ∷ p ∷ []) rest) (omega arith)
  where
    taken :
        step max (left (suc m + q)) 0 write (taking k ∷ p ∷ [])
        ≡ some (left (m + q), taking (suc k) ∷ p ∷ [])
    taken =
        ap (alone max (p ∷ []))
          (advance-taking max (suc m + q) (m + q) k write (omega arith) (omega arith))

run_second :
    (max q m k : ℕ) (p : Place) (rest : List (ℕ × Call))
    → k + m ≤ max
    → run max (left (m + q)) (p ∷ taking k ∷ []) (turns 1 m ++ rest)
      ≡ run max (left q) (p ∷ taking (k + m) ∷ []) rest
unfolding step
run_second max q zero k p rest l =
    ap (λ t. run max (left t) (p ∷ taking k ∷ []) rest) (omega arith)
    ∙ ap (λ j. run max (left q) (p ∷ taking j ∷ []) rest) (omega arith)
run_second max q (suc m) k p rest l =
    run-step max (left (suc m + q)) (left (m + q)) 1 write (p ∷ taking k ∷ [])
      (p ∷ taking (suc k) ∷ []) (turns 1 m ++ rest) taken
    ∙ run_second max q m (suc k) p rest (omega arith)
    ∙ ap (λ j. run max (left q) (p ∷ taking j ∷ []) rest) (omega arith)
  where
    taken :
        step max (left (suc m + q)) 1 write (p ∷ taking k ∷ [])
        ≡ some (left (m + q), p ∷ taking (suc k) ∷ [])
    taken =
        ap (λ o. put_back max p (alone max [] o))
          (advance-taking max (suc m + q) (m + q) k write (omega arith) (omega arith))

-- The first goroutine calls WriteLock and receives `a` tokens, then the second calls it and receives `b`.
abbrev pub two_writers : ℕ → ℕ → List (ℕ × Call)
two_writers a b = (0, write) ∷ turns 0 a ++ ((1, write) ∷ turns 1 b ++ [])

two_writers_reach :
    (a b : ℕ) → reached (a + b) 2 (two_writers a b) ≡ (left 0, taking a ∷ taking b ∷ [])
unfolding new_governor all_idle run step advance
two_writers_reach a b =
    run_first (a + b) b a 0 idle ((1, write) ∷ turns 1 b ++ []) (omega arith)
    ∙ ap (λ t. run (a + b) (left t) (taking (0 + a) ∷ taking 0 ∷ []) (turns 1 b ++ []))
        (omega arith)
    ∙ run_second (a + b) 0 b 0 (taking (0 + a)) [] (omega arith)
    ∙ ap (λ j. (left 0, taking j ∷ taking (0 + b) ∷ [])) (omega arith)
    ∙ ap (λ j. (left 0, taking a ∷ taking j ∷ [])) (omega arith)

both_blocked :
    (max a b i : ℕ) (c : Call)
    → a < max
    → b < max
    → step max (left 0) i c (taking a ∷ taking b ∷ []) ≡ none
unfolding step
both_blocked max a b zero c la lb = ap (alone max (taking b ∷ [])) (advance_blocked max a c la)
both_blocked max a b (suc zero) c la lb =
    ap (λ o. put_back max (taking a) (alone max [] o)) (advance_blocked max b c lb)
both_blocked max a b (suc (suc i)) c la lb = refl

-- WriteLock takes its tokens one by one, so two callers can block each other for ever: however the
-- tokens of a governor are split in two parts that are not empty, a schedule brings two goroutines to
-- where each holds one part, and from there no goroutine has a step.
pub writers_deadlock :
    (a b : ℕ)
    → 0 < a
    → 0 < b
    → (moves : List (ℕ × Call)) × ((reached (a + b) 2 moves).1 ≡ taking a ∷ taking b ∷ [])
      × ((i : ℕ) (c : Call)
          → step (a + b) (reached (a + b) 2 moves).0 i c (reached (a + b) 2 moves).1 ≡ none)
writers_deadlock a b la lb = (
  two_writers a b,
  ap (λ r. r.1) (two_writers_reach a b),
  λ i c.
      ap (λ r. step (a + b) r.0 i c r.1) (two_writers_reach a b)
      ∙ both_blocked (a + b) a b i c (omega arith) (omega arith),
)
