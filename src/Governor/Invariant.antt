-- ===== src/Governor/Invariant.antt =====
-- Under every schedule the lock excludes, the tokens are conserved and no unlock blocks or fails.
use godinstall.Prelude.{
  ℕ, zero, suc, ◌+◌, ◌-◌, ◌≤◌, ◌<◌, ◌≡◌, refl, sym, subst, Bool, true, false, List, [], ◌∷◌, Option,
  none, some, arith,
}
use godinstall.Governor.{
  Place, idle, token, reading, leaving, writing, unlocked, taking, refilling, Call, read, write,
  Shared, receive, send, advance, put_back, alone, step, or_stay, run, new_governor, all_idle,
}

abbrev pub total : (Place → ℕ) → List Place → ℕ
total f [] = 0
total f (p ∷ ps) = f p + total f ps

abbrev pub is_reading : Place → ℕ
is_reading reading = 1
is_reading _ = 0

abbrev pub is_writing : Place → ℕ
is_writing writing = 1
is_writing _ = 0

-- The tokens that a goroutine has taken from the channel.
abbrev pub held : ℕ → Place → ℕ
held max idle = 0
held max token = 1
held max reading = 1
held max leaving = 1
held max writing = max
held max unlocked = max
held max (taking k) = k
held max (refilling k) = max - k

abbrev pub as_number : Bool → ℕ
as_number true = 1
as_number false = 0

-- A step moves one goroutine from one place to another.
record Moved (max : ℕ) (s s' : Shared) (c : Call) (ps ps' : List Place) : Type 0 where
  from : Place
  to : Place
  moves : advance max s c from ≡ some (s', to)
  totals : (f : Place → ℕ) → total f ps' + f from ≡ total f ps + f to
  within : (f : Place → ℕ) → f from ≤ total f ps

alone-Moved :
    (max : ℕ) (s s' : Shared) (c : Call) (p : Place) (ps ps' : List Place)
    (o : Option (Shared × Place))
    → advance max s c p ≡ o
    → alone max ps o ≡ some (s', ps')
    → Moved max s s' c (p ∷ ps) ps'
alone-Moved max s s' c p ps ps' none e h = cc
alone-Moved max s s' c p ps ps' (some (t, q)) e h = record {
  from = p;
  to = q;
  moves = cc;
  totals = λ f. subst (λ l. total f l + f p ≡ total f (p ∷ ps) + f q) moved (omega arith);
  within = λ f. omega arith;
}
  where
    moved : q ∷ ps ≡ ps'
    moved = cc

behind :
    (max : ℕ) (s s' : Shared) (c : Call) (p : Place) (ps ps' : List Place)
    → Moved max s s' c ps ps'
    → Moved max s s' c (p ∷ ps) (p ∷ ps')
behind max s s' c p ps ps' m = record {
  from = m.from;
  to = m.to;
  moves = m.moves;
  totals = λ f. omega (arith, m.totals f);
  within = λ f. omega (arith, m.within f);
}

put_back-Moved :
    (max : ℕ) (s s' : Shared) (c : Call) (p : Place) (ps ps' : List Place)
    → (o : Option (Shared × List Place))
    → ((t : Shared) (qs : List Place) → o ≡ some (t, qs) → Moved max s t c ps qs)
    → put_back max p o ≡ some (s', ps')
    → Moved max s s' c (p ∷ ps) ps'
put_back-Moved max s s' c p ps ps' none moved h = cc
put_back-Moved max s s' c p ps ps' (some (t, qs)) moved h =
    subst (λ l. Moved max s s' c (p ∷ ps) l) same (behind max s s' c p ps qs (moved s' qs cc))
  where
    same : p ∷ qs ≡ ps'
    same = cc

step-Moved :
    (max : ℕ) (s s' : Shared) (i : ℕ) (c : Call) (ps ps' : List Place)
    → step max s i c ps ≡ some (s', ps')
    → Moved max s s' c ps ps'
unfolding step
step-Moved max s s' i c [] ps' h = cc
step-Moved max s s' zero c (p ∷ ps) ps' h =
    alone-Moved max s s' c p ps ps' (advance max s c p) refl h
step-Moved max s s' (suc i) c (p ∷ ps) ps' h =
    put_back-Moved max s s' c p ps ps' (step max s i c ps) (λ t qs. step-Moved max s t i c ps qs) h

pub record IsLock (max : ℕ) (s : Shared) (ps : List Place) : Type 0 where
  pub counts_readers : s.readers ≡ total is_reading ps
  pub counts_writer : as_number s.writer ≡ total is_writing ps
  pub exclusive : s.writer ≡ true → s.readers ≡ 0
  pub conserved : 0 < max → s.requests + total (held max) ps ≡ max

-- One operation, on the numbers that the invariant speaks of.
advance_counts :
    (max : ℕ) (s s' : Shared) (c : Call) (from to : Place) (r w h r' w' h' : ℕ)
    → advance max s c from ≡ some (s', to)
    → r' + is_reading from ≡ r + is_reading to
    → w' + is_writing from ≡ w + is_writing to
    → h' + held max from ≡ h + held max to
    → is_reading from ≤ r
    → is_writing from ≤ w
    → held max from ≤ h
    → s.readers ≡ r
    → as_number s.writer ≡ w
    → (s.writer ≡ true → s.readers ≡ 0)
    → (0 < max → s.requests + h ≡ max)
    → (s'.readers ≡ r')
      × (as_number s'.writer ≡ w')
      × (s'.writer ≡ true → s'.readers ≡ 0)
      × (0 < max → s'.requests + h' ≡ max)
unfolding advance receive send
advance_counts max s s' read idle to r w h r' w' h' e er ew eh lr lw lh cr cw ex co = ground arith
advance_counts max s s' write idle to r w h r' w' h' e er ew eh lr lw lh cr cw ex co = ground arith
advance_counts max s s' c token to r w h r' w' h' e er ew eh lr lw lh cr cw ex co = ground arith
advance_counts max s s' c reading to r w h r' w' h' e er ew eh lr lw lh cr cw ex co = ground arith
advance_counts max s s' c leaving to r w h r' w' h' e er ew eh lr lw lh cr cw ex co = ground arith
advance_counts max s s' c writing to r w h r' w' h' e er ew eh lr lw lh cr cw ex co = ground arith
advance_counts max s s' c unlocked to r w h r' w' h' e er ew eh lr lw lh cr cw ex co = ground arith
advance_counts max s s' c (taking k) to r w h r' w' h' e er ew eh lr lw lh cr cw ex co =
    ground arith
advance_counts max s s' c (refilling k) to r w h r' w' h' e er ew eh lr lw lh cr cw ex co =
    ground arith

advance-IsLock :
    (max : ℕ) (s s' : Shared) (c : Call) (ps ps' : List Place)
    → Moved max s s' c ps ps'
    → IsLock max s ps
    → IsLock max s' ps'
advance-IsLock max s s' c ps ps' m v = record {
  counts_readers = kept.0;
  counts_writer = kept.1;
  exclusive = kept.2;
  conserved = kept.3;
}
  where
    kept :
        (s'.readers ≡ total is_reading ps')
        × (as_number s'.writer ≡ total is_writing ps')
        × (s'.writer ≡ true → s'.readers ≡ 0)
        × (0 < max → s'.requests + total (held max) ps' ≡ max)
    kept =
        advance_counts max s s' c m.from m.to (total is_reading ps) (total is_writing ps)
          (total (held max) ps) (total is_reading ps') (total is_writing ps') (total (held max) ps')
          m.moves (m.totals is_reading) (m.totals is_writing) (m.totals (held max))
          (m.within is_reading) (m.within is_writing) (m.within (held max)) v.counts_readers
          v.counts_writer v.exclusive v.conserved

or_stay-IsLock :
    (max : ℕ) (s : Shared) (ps : List Place) (i : ℕ) (c : Call) (o : Option (Shared × List Place))
    → step max s i c ps ≡ o
    → IsLock max s ps
    → IsLock max (or_stay max s ps o).0 (or_stay max s ps o).1
or_stay-IsLock max s ps i c none e v = v
or_stay-IsLock max s ps i c (some (s', ps')) e v =
    advance-IsLock max s s' c ps ps' (step-Moved max s s' i c ps ps' e) v

run-IsLock :
    (max : ℕ) (s : Shared) (ps : List Place) (moves : List (ℕ × Call))
    → IsLock max s ps
    → IsLock max (run max s ps moves).0 (run max s ps moves).1
unfolding run
run-IsLock max s ps [] v = v
run-IsLock max s ps ((i, c) ∷ moves) v =
    run-IsLock max next.0 next.1 moves (or_stay-IsLock max s ps i c (step max s i c ps) refl v)
  where
    next : Shared × List Place
    next = or_stay max s ps (step max s i c ps)

total-all_idle : (f : Place → ℕ) (n : ℕ) → f idle ≡ 0 → total f (all_idle n) ≡ 0
unfolding all_idle
total-all_idle f zero h = refl
total-all_idle f (suc n) h = omega (arith, total-all_idle f n h)

start-IsLock : (max n : ℕ) → IsLock max (new_governor max) (all_idle n)
unfolding new_governor
start-IsLock max n = record {
  counts_readers = sym (total-all_idle is_reading n refl);
  counts_writer = sym (total-all_idle is_writing n refl);
  exclusive = λ e. refl;
  conserved = λ l. omega (arith, total-all_idle (held max) n refl);
}

-- Where `n` goroutines stand after a schedule, and the lock they share.
abbrev pub reached : ℕ → ℕ → List (ℕ × Call) → Shared × List Place
reached max n moves = run max (new_governor max) (all_idle n) moves

pub reached-IsLock :
    (max n : ℕ) (moves : List (ℕ × Call))
    → IsLock max (reached max n moves).0 (reached max n moves).1
reached-IsLock max n moves =
    run-IsLock max (new_governor max) (all_idle n) moves (start-IsLock max n)
