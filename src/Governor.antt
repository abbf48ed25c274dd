-- ===== src/Governor.antt =====
-- governor.go: the lock of the repository, as steps of any number of goroutines. A step is one
-- operation of the channel of requests or of the RWMutex; one that would block is `none`.
pub mod Invariant
pub mod Exclusion
pub mod Deadlock
mod Tests
use godinstall.Prelude.{
  ℕ, zero, suc, ◌+◌, ◌-◌, Bool, true, false, ◌||◌, not, List, [], ◌∷◌, Option, none, some, ltb,
  ◌==◌, if◌then◌else◌,
}

-- Where a goroutine stands. ReadLock passes through `token` to `reading`, ReadUnLock through
-- `leaving`; WriteLock takes tokens one by one, then locks; WriteUnLock unlocks, then refills.
pub data Place : Type 0 where
  idle token reading leaving writing unlocked : Place
  taking refilling : ℕ → Place

-- What an idle goroutine calls.
pub data Call : Type 0 where
  read write : Call

-- The requests in the channel, the readers of the RWMutex, and whether a writer has it.
pub record Shared : Type 0 where
  pub requests : ℕ
  pub readers : ℕ
  pub writer : Bool

module _ (max : ℕ) where
  -- `<-g.reqs` and `g.reqs <- req{}` of a channel with room for `max`.
  pub receive : Shared → Place → Option (Shared × Place)
  receive s next =
      if s.requests == 0 then none else some (record s { requests = s.requests - 1 }, next)

  pub send : Shared → Place → Option (Shared × Place)
  send s next =
      if ltb s.requests max then some (record s { requests = s.requests + 1 }, next) else none

  -- One operation of one goroutine.
  pub advance : Shared → Call → Place → Option (Shared × Place)
  unfolding receive send
  advance s read idle = if max == 0 then some (s, token) else receive s token
  advance s write idle = some (s, taking 0)
  advance s c token =
      if s.writer then none else some (record s { readers = s.readers + 1 }, reading)
  advance s c reading = some (record s { readers = s.readers - 1 }, leaving)
  advance s c leaving = if max == 0 then some (s, idle) else send s idle
  advance s c (taking k) =
      if ltb k max
      then receive s (taking (suc k))
      else if s.writer || not (s.readers == 0)
      then none
      else some (record s { writer = true }, writing)
  advance s c writing = some (record s { writer = false }, unlocked)
  advance s c unlocked =
      if max == 0
      then some (s, refilling 0)
      else if not (s.requests == 0)
      then some (s, idle)
      else some (s, refilling 0)
  advance s c (refilling k) = if ltb k max then send s (refilling (suc k)) else some (s, idle)

  abbrev pub put_back : Place → Option (Shared × List Place) → Option (Shared × List Place)
  put_back p none = none
  put_back p (some (s, ps)) = some (s, p ∷ ps)

  abbrev pub alone : List Place → Option (Shared × Place) → Option (Shared × List Place)
  alone ps none = none
  alone ps (some (s, p)) = some (s, p ∷ ps)

  -- The goroutine at an index makes a step; one that is not there makes none.
  pub step : Shared → ℕ → Call → List Place → Option (Shared × List Place)
  unfolding advance
  step s i c [] = none
  step s zero c (p ∷ ps) = alone ps (advance s c p)
  step s (suc i) c (p ∷ ps) = put_back p (step s i c ps)

  abbrev pub or_stay : Shared → List Place → Option (Shared × List Place) → Shared × List Place
  or_stay s ps none = (s, ps)
  or_stay s ps (some r) = r

  -- A schedule: who is to move, and what an idle one calls. Who is blocked waits.
  pub run : Shared → List Place → List (ℕ × Call) → Shared × List Place
  unfolding step
  run s ps [] = (s, ps)
  run s ps ((i, c) ∷ moves) = let (s', ps') = or_stay s ps (step s i c ps) in run s' ps' moves

  -- `NewGovernor`: the channel is full.
  pub new_governor : Shared
  new_governor = record { requests = max; readers = 0; writer = false }

pub all_idle : ℕ → List Place
all_idle zero = []
all_idle (suc n) = idle ∷ all_idle n
