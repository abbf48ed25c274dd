-- ===== src/Governor/Tests.antt =====
-- Runs of the lock, and its theorems at concrete schedules.
use godinstall.Prelude.{ℕ, ◌≤◌, ◌<◌, ◌≡◌, ◌≢◌, refl, List, [], ◌∷◌, none, arith}
use godinstall.Governor.{
  idle, unlocked, taking, Call, read, write, receive, send, advance, step, run, new_governor,
  all_idle,
}
use godinstall.Governor.Invariant.{total, is_reading, is_writing, reached}
use godinstall.Governor.Exclusion.{governor_excludes, unlock_succeeds}
use godinstall.Governor.Deadlock.{writers_deadlock}

-- A reader comes and goes, then a writer waits for both tokens and unlocks.
abbrev reader_then_writer : List (ℕ × Call)
reader_then_writer =
    (0, read)
    ∷ (0, read)
    ∷ (1, write)
    ∷ (1, write)
    ∷ (1, write)
    ∷ (0, read)
    ∷ (0, read)
    ∷ (1, write)
    ∷ (1, write)
    ∷ (1, write)
    ∷ []

writer_is_out : (reached 2 2 reader_then_writer).1 ≡ idle ∷ unlocked ∷ []
unfolding receive send advance step run new_governor all_idle
writer_is_out = refl

governor_excludes_example :
    (total is_writing (reached 2 2 reader_then_writer).1 ≤ 1)
    × (total is_writing (reached 2 2 reader_then_writer).1 ≡ 1
        → total is_reading (reached 2 2 reader_then_writer).1 ≡ 0)
    × (0 < 2 → total is_reading (reached 2 2 reader_then_writer).1 ≤ 2)
governor_excludes_example = governor_excludes 2 2 reader_then_writer

unlock_succeeds_example :
    (advance 2 (reached 2 2 reader_then_writer).0 write unlocked ≢ none)
    × (unlocked ≡ unlocked → 0 < 2 → (reached 2 2 reader_then_writer).0.requests ≡ 0)
unfolding receive send advance step run new_governor all_idle
unlock_succeeds_example = unlock_succeeds 2 2 reader_then_writer 1 write unlocked refl refl

writers_deadlock_example :
    (moves : List (ℕ × Call)) × ((reached 3 2 moves).1 ≡ taking 1 ∷ taking 2 ∷ [])
    × ((i : ℕ) (c : Call) → step 3 (reached 3 2 moves).0 i c (reached 3 2 moves).1 ≡ none)
writers_deadlock_example = writers_deadlock 1 2 (omega arith) (omega arith)
