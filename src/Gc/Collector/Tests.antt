-- ===== src/Gc/Collector/Tests.antt =====
-- A run of the goroutine that counts locks, and its theorem there.
use godinstall.Prelude.{
  ◌+◌, ◌<◌, ◌≡◌, ◌↔◌, ◌⊎◌, refl, Bool, true, false, [], ◌∷◌, ◌++◌, List, none, some,
}
use godinstall.Gc.Collector.{
  Request, enable, disable, collect, Collector, start, handle, handle_all, enables, disables,
  collector_lem,
}

-- The lock is taken, a collection is asked for, and the lock is given back: then it runs.
abbrev locked_once : List Request
locked_once = disable ∷ collect ∷ []

abbrev waiting : Collector
waiting = record { run_gc = true; lock_count = 1 }

runs_at_release : handle waiting enable ≡ some (record { run_gc = false; lock_count = 0 }, true)
unfolding handle
runs_at_release = refl

collector_lem_example :
    ((handle waiting enable ≡ none)
      ↔ ((enable ≡ enable) × (enables locked_once ≡ disables locked_once)))
    × ((d : Collector) (ran : Bool)
        → handle waiting enable ≡ some (d, ran)
        → (d.lock_count + enables (locked_once ++ (enable ∷ []))
            ≡ disables (locked_once ++ (enable ∷ [])))
          × (ran ≡ true
              → enables (locked_once ++ (enable ∷ [])) ≡ disables (locked_once ++ (enable ∷ [])))
          × ((waiting.run_gc ≡ true) ⊎ (enable ≡ collect) → ran ≡ false → d.run_gc ≡ true)
          × (d.run_gc ≡ true
              → enables (locked_once ++ (enable ∷ [])) < disables (locked_once ++ (enable ∷ [])))
          × ((ran ≡ true) ⊎ (d.run_gc ≡ true) → (waiting.run_gc ≡ true) ⊎ (enable ≡ collect))
          × (ran ≡ true → d.run_gc ≡ false))
unfolding start handle_all handle
collector_lem_example = collector_lem waiting locked_once enable refl
