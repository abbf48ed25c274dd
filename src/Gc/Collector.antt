-- ===== src/Gc/Collector.antt =====
-- archivestore.go, garbageCollector: the goroutine that counts locks and runs the collector.
mod Tests
use godinstall.Prelude.{
  ℕ, zero, suc, ◌+◌, ◌-◌, ◌<◌, ◌≡◌, ◌↔◌, refl, ◌∙◌, sym, ap, Bool, true, false, ◌&&◌, List, [], ◌∷◌,
  ◌++◌, Option, none, some, Option-cases, ◌⊎◌, inl, inr, ◌==◌, arith, if◌then◌else◌, some_inj,
}

-- What EnableGarbageCollector, DisableGarbageCollector and GarbageCollect send.
pub data Request : Type 0 where
  enable disable collect : Request

-- The variables of the goroutine. The count of locks is never negative: it panics before.
pub record Collector : Type 0 where
  pub run_gc : Bool
  pub lock_count : ℕ

pub start : Collector
start = record { run_gc = false; lock_count = 0 }

-- One round of the loop, up to the test: `none` is the panic.
abbrev pub receive : Collector → Request → Option Collector
receive c enable =
    if c.lock_count == 0 then none else some (record c { lock_count = c.lock_count - 1 })
receive c disable = some (record c { lock_count = c.lock_count + 1 })
receive c collect = some (record c { run_gc = true })

-- The test: whether `runGC` is called.
abbrev pub collect_if_free : Option Collector → Option (Collector × Bool)
collect_if_free none = none
collect_if_free (some c) =
    if c.run_gc && (c.lock_count == 0)
    then some (record c { run_gc = false }, true)
    else some (c, false)

pub handle : Collector → Request → Option (Collector × Bool)
handle c r = collect_if_free (receive c r)

abbrev pub handle_all_after :
    (Collector → Option Collector) → Option (Collector × Bool) → Option Collector
handle_all_after rest none = none
handle_all_after rest (some (c, ran)) = rest c

pub handle_all : Collector → List Request → Option Collector
unfolding handle
handle_all c [] = some c
handle_all c (r ∷ rs) = handle_all_after (λ d. handle_all d rs) (handle c r)

-- How often a request is among those received.
abbrev pub enables : List Request → ℕ
enables [] = 0
enables (enable ∷ rs) = suc (enables rs)
enables (_ ∷ rs) = enables rs

abbrev pub disables : List Request → ℕ
disables [] = 0
disables (disable ∷ rs) = suc (disables rs)
disables (_ ∷ rs) = disables rs

-- What a round makes of the count of locks and of a request to collect.
abbrev Counts : Collector → Collector → Request → Bool → Type 0
Counts c d r ran =
    (d.lock_count + enables (r ∷ []) ≡ c.lock_count + disables (r ∷ []))
    × (ran ≡ true → d.lock_count ≡ 0)
    × ((c.run_gc ≡ true) ⊎ (r ≡ collect) → ran ≡ false → d.run_gc ≡ true)
    × (d.run_gc ≡ true → 0 < d.lock_count)
    × ((ran ≡ true) ⊎ (d.run_gc ≡ true) → (c.run_gc ≡ true) ⊎ (r ≡ collect))
    × (ran ≡ true → d.run_gc ≡ false)

round_lem :
    (c d : Collector) (r : Request) (ran : Bool) → handle c r ≡ some (d, ran) → Counts c d r ran
unfolding handle
round_lem c d enable ran h = (
  ground arith,
  ground arith,
  (λ k e. elim k [ inl p ↦ ground arith | inr p ↦ cc p ]),
  ground arith,
  (λ k. inl (elim k [ inl p ↦ ground arith | inr p ↦ ground arith ])),
  ground arith,
)
round_lem c d disable ran h = (
  ground arith,
  ground arith,
  (λ k e. elim k [ inl p ↦ ground arith | inr p ↦ cc p ]),
  ground arith,
  (λ k. inl (elim k [ inl p ↦ ground arith | inr p ↦ ground arith ])),
  ground arith,
)
round_lem c d collect ran h =
    (ground arith, ground arith, (λ k e. ground arith), ground arith, (λ k. inr refl), ground arith)

enables-append :
    (rs : List Request) (r : Request) → enables (rs ++ (r ∷ [])) ≡ enables rs + enables (r ∷ [])
enables-append [] r = omega arith
enables-append (enable ∷ rs) r = omega (arith, enables-append rs r)
enables-append (disable ∷ rs) r = enables-append rs r
enables-append (collect ∷ rs) r = enables-append rs r

disables-append :
    (rs : List Request) (r : Request) → disables (rs ++ (r ∷ [])) ≡ disables rs + disables (r ∷ [])
disables-append [] r = omega arith
disables-append (enable ∷ rs) r = disables-append rs r
disables-append (disable ∷ rs) r = omega (arith, disables-append rs r)
disables-append (collect ∷ rs) r = disables-append rs r

enables_cons : (r : Request) (rs : List Request) → enables (r ∷ rs) ≡ enables (r ∷ []) + enables rs
enables_cons enable rs = omega arith
enables_cons disable rs = omega arith
enables_cons collect rs = omega arith

disables_cons :
    (r : Request) (rs : List Request) → disables (r ∷ rs) ≡ disables (r ∷ []) + disables rs
disables_cons enable rs = omega arith
disables_cons disable rs = omega arith
disables_cons collect rs = omega arith

handle_all_counts :
    (c d : Collector) (rs : List Request)
    → handle_all c rs ≡ some d
    → d.lock_count + enables rs ≡ c.lock_count + disables rs
unfolding handle_all
handle_all_counts c d [] h = omega (arith, ap (λ e. e.lock_count) (some_inj c d h))
handle_all_counts c d (r ∷ rs) h = go (λ e. handle_all_counts e d rs) (handle c r) refl h
  where
    go :
        (later : (e : Collector)
          → handle_all e rs ≡ some d
          → d.lock_count + enables rs ≡ e.lock_count + disables rs)
        → (o : Option (Collector × Bool)) → handle c r ≡ o
        → handle_all_after (λ e. handle_all e rs) o ≡ some d
        → d.lock_count + enables (r ∷ rs) ≡ c.lock_count + disables (r ∷ rs)
    go later none e h' = cc h'
    go later (some (x, ran)) e h' =
        omega (arith, later x h', (round_lem c x r ran e).0, enables_cons r rs, disables_cons r rs)

panics :
    (c : Collector) (r : Request) (en dis : ℕ)
    → c.lock_count + en ≡ dis
    → (handle c r ≡ none) ↔ ((r ≡ enable) × (en ≡ dis))
unfolding handle
panics c enable en dis k = ((λ h. (refl, ground (arith, h, k))), λ (e, f). ground (arith, k, f))
panics c disable en dis k = ((λ h. absurd (ground (arith, h))), λ (e, f). cc e)
panics c collect en dis k = ((λ h. absurd (ground (arith, h))), λ (e, f). cc e)

-- Whatever requests have come, the count of locks is the number of DisableGarbageCollector less that of
-- EnableGarbageCollector. A collection runs only where the two are equal, and only if one was asked for, now or
-- before. Whatever comes, a request to collect is kept until the collection runs, which uses it up, and none
-- is kept where the two are equal. And the goroutine panics just when EnableGarbageCollector is
-- called where they are equal.
pub collector_lem :
    (c : Collector) (rs : List Request) (r : Request)
    → handle_all start rs ≡ some c
    → ((handle c r ≡ none) ↔ ((r ≡ enable) × (enables rs ≡ disables rs)))
      × ((d : Collector) (ran : Bool)
          → handle c r ≡ some (d, ran)
          → (d.lock_count + enables (rs ++ (r ∷ [])) ≡ disables (rs ++ (r ∷ [])))
            × (ran ≡ true → enables (rs ++ (r ∷ [])) ≡ disables (rs ++ (r ∷ [])))
            × ((c.run_gc ≡ true) ⊎ (r ≡ collect) → ran ≡ false → d.run_gc ≡ true)
            × (d.run_gc ≡ true → enables (rs ++ (r ∷ [])) < disables (rs ++ (r ∷ [])))
            × ((ran ≡ true) ⊎ (d.run_gc ≡ true) → (c.run_gc ≡ true) ⊎ (r ≡ collect))
            × (ran ≡ true → d.run_gc ≡ false))
unfolding start
collector_lem c rs r h =
    (panics c r (enables rs) (disables rs) counted, λ d ran e. after d ran (round_lem c d r ran e))
  where
    counted : c.lock_count + enables rs ≡ disables rs
    counted = omega (arith, handle_all_counts start c rs h)

    after :
        (d : Collector) (ran : Bool)
        → Counts c d r ran
        → (d.lock_count + enables (rs ++ (r ∷ [])) ≡ disables (rs ++ (r ∷ [])))
          × (ran ≡ true → enables (rs ++ (r ∷ [])) ≡ disables (rs ++ (r ∷ [])))
          × ((c.run_gc ≡ true) ⊎ (r ≡ collect) → ran ≡ false → d.run_gc ≡ true)
          × (d.run_gc ≡ true → enables (rs ++ (r ∷ [])) < disables (rs ++ (r ∷ [])))
          × ((ran ≡ true) ⊎ (d.run_gc ≡ true) → (c.run_gc ≡ true) ⊎ (r ≡ collect))
          × (ran ≡ true → d.run_gc ≡ false)
    after d ran w = (
      total,
      (λ e. omega (arith, total, w.1 e)),
      w.2,
      (λ e. omega (arith, total, w.3 e)),
      w.4,
      w.5,
    )
      where
        total : d.lock_count + enables (rs ++ (r ∷ [])) ≡ disables (rs ++ (r ∷ []))
        total = omega (arith, w.0, counted, enables-append rs r, disables-append rs r)
