-- ===== src/Release/Merge/Insert.antt =====
-- One upload merged with nothing to prune: it is inserted at its place, or found there.
use godinstall.Prelude.{
  ◌≡◌, refl, ap, ◌⊎◌, inl, inr, Bool, true, false, List, [], ◌∷◌, ◌++◌, Option, some, arith, pos,
  eqb_ℤ, ltb_ℤ, Bool-cases, All,
}
use godinstall.DebVersion.Key.{same, sign}
use godinstall.Release.Index.{Entry, entry_order}
use godinstall.Release.Merge.{add, skip_present, act, Merged, merge_rest, merge}
use godinstall.Release.Merge.Walk.{IsBefore, IsLater, sign_of_tests}

-- The index already has an entry equal to `e`, behind entries that stand before it.
pub record IsPresent (e : Entry) (left : List Entry) (m : Merged) : Type 0 where
  pub front : List Entry
  pub old : Entry
  pub back : List Entry
  pub split_here : left ≡ front ++ old ∷ back
  pub in_front : All (λ l. IsBefore l e) front
  pub equal : sign (entry_order old e) ≡ same
  pub unchanged : m.written ≡ left
  pub skipped : m.actions ≡ act skip_present e

-- `e` goes between the entries that stand before it and the first that does not.
pub record IsInserted (e : Entry) (left : List Entry) (m : Merged) : Type 0 where
  pub front : List Entry
  pub back : List Entry
  pub split_here : left ≡ front ++ back
  pub in_front : All (λ l. IsBefore l e) front
  pub later : IsLater e back
  pub inserted : m.written ≡ front ++ e ∷ back
  pub added : m.actions ≡ act add e

extend-IsPresent :
    (l e : Entry) (ls : List Entry) (m : Merged)
    → IsBefore l e
    → IsPresent e ls m
    → IsPresent e (l ∷ ls) (record m { written = l ∷ m.written })
extend-IsPresent l e ls m h p = record {
  front = l ∷ p.front;
  old = p.old;
  back = p.back;
  split_here = ap (λ (x : List Entry). l ∷ x) p.split_here;
  in_front = (h, p.in_front);
  equal = p.equal;
  unchanged = ap (λ (x : List Entry). l ∷ x) p.unchanged;
  skipped = p.skipped;
}

extend-IsInserted :
    (l e : Entry) (ls : List Entry) (m : Merged)
    → IsBefore l e
    → IsInserted e ls m
    → IsInserted e (l ∷ ls) (record m { written = l ∷ m.written })
extend-IsInserted l e ls m h p = record {
  front = l ∷ p.front;
  back = p.back;
  split_here = ap (λ (x : List Entry). l ∷ x) p.split_here;
  in_front = (h, p.in_front);
  later = p.later;
  inserted = ap (λ (x : List Entry). l ∷ x) p.inserted;
  added = p.added;
}

module _ {S : Type 0} (pruner : S → Entry → Option (Bool × S)) (Inv : S → Type 0)
    (Fit : Entry → Type 0)
    (keeps : (st : S) (x : Entry)
      → Inv st
      → Fit x
      → (st' : S) × ((pruner st x ≡ some (false, st')) × Inv st')) where
  merge_left_over :
      (st : S) (left : List Entry)
      → Inv st
      → All Fit left
      → merge pruner st left [] ≡ some (record { written = left; actions = [] })
  unfolding merge merge_rest
  merge_left_over st [] i f = refl
  merge_left_over st (l ∷ ls) i (f, fs) =
      let (st', (e, j)) = keeps st l i f in rw e (ground (arith, merge_left_over st' ls j fs))

  merge_at_end :
      (st : S) (e : Entry)
      → Inv st
      → Fit e
      → merge pruner st [] (e ∷ []) ≡ some (record { written = e ∷ []; actions = act add e })
  unfolding merge merge_rest
  merge_at_end st e i f = let (st', (k, j)) = keeps st e i f in rw k refl

  merge_less :
      (st st' : S) (l e : Entry) (ls : List Entry) (m : Merged)
      → ltb_ℤ (entry_order l e) (pos 0) ≡ true
      → pruner st l ≡ some (false, st')
      → merge pruner st' ls (e ∷ []) ≡ some m
      → merge pruner st (l ∷ ls) (e ∷ []) ≡ some (record m { written = l ∷ m.written })
  unfolding merge
  merge_less st st' l e ls m t k ih = rw (t, k, merge) (ground (arith, ih))

  merge_same :
      (st : S) (l e : Entry) (ls : List Entry)
      → Inv st
      → All Fit (l ∷ ls)
      → ltb_ℤ (entry_order l e) (pos 0) ≡ false
      → eqb_ℤ (entry_order l e) (pos 0) ≡ true
      → merge pruner st (l ∷ ls) (e ∷ [])
        ≡ some (record { written = l ∷ ls; actions = act skip_present e })
  unfolding merge
  merge_same st l e ls i (f, fs) t u =
      let (st', (k, j)) = keeps st l i f in
      rw (t, u, k, merge) (ground (arith, merge_left_over st' ls j fs))

  merge_later :
      (st : S) (l e : Entry) (ls : List Entry)
      → Inv st
      → All Fit (l ∷ ls)
      → Fit e
      → ltb_ℤ (entry_order l e) (pos 0) ≡ false
      → eqb_ℤ (entry_order l e) (pos 0) ≡ false
      → merge pruner st (l ∷ ls) (e ∷ [])
        ≡ some (record { written = e ∷ l ∷ ls; actions = act add e })
  unfolding merge
  merge_later st l e ls i fs f t u =
      let (st', (k, j)) = keeps st e i f in
      rw (t, u, k, merge) (ground (arith, merge_left_over st' (l ∷ ls) j fs))

  -- With a pruner that keeps every entry it meets, the merge of one upload ends without a fault, and either finds the upload in the index, which
  -- it leaves as it is, or writes the index with the upload at its place; the log says which. That the pruner
  -- keeps entries is asked just for states of an invariant, which holds at the start, and for entries of a kind, of
  -- which the upload and the index are.
  pub merge_one :
      (st : S) (left : List Entry) (e : Entry)
      → Inv st
      → All Fit left
      → Fit e
      → (m : Merged) × (merge pruner st left (e ∷ []) ≡ some m)
        × (IsPresent e left m ⊎ IsInserted e left m)
  merge_one st [] e i fs f = (
    record { written = e ∷ []; actions = act add e },
    merge_at_end st e i f,
    inr (record {
      front = [];
      back = [];
      split_here = refl;
      in_front = tt;
      later = tt;
      inserted = refl;
      added = refl;
    }),
  )
  merge_one st (l ∷ ls) e i (f, fs) g =
      step (Bool-cases (ltb_ℤ (entry_order l e) (pos 0)))
        (Bool-cases (eqb_ℤ (entry_order l e) (pos 0))) (merge_one next.0 ls e next.1.1 fs g)
    where
      next : (st' : S) × ((pruner st l ≡ some (false, st')) × Inv st')
      next = keeps st l i f

      step :
          (ltb_ℤ (entry_order l e) (pos 0) ≡ true) ⊎ (ltb_ℤ (entry_order l e) (pos 0) ≡ false)
          → (eqb_ℤ (entry_order l e) (pos 0) ≡ true) ⊎ (eqb_ℤ (entry_order l e) (pos 0) ≡ false)
          → (m : Merged) × (merge pruner next.0 ls (e ∷ []) ≡ some m)
            × (IsPresent e ls m ⊎ IsInserted e ls m)
          → (m : Merged) × (merge pruner st (l ∷ ls) (e ∷ []) ≡ some m)
            × (IsPresent e (l ∷ ls) m ⊎ IsInserted e (l ∷ ls) m)
      step (inl t) u (m, ih, inl p) = (
        record m { written = l ∷ m.written },
        merge_less st next.0 l e ls m t next.1.0 ih,
        inl (extend-IsPresent l e ls m ((sign_of_tests (entry_order l e)).0 t) p),
      )
      step (inl t) u (m, ih, inr p) = (
        record m { written = l ∷ m.written },
        merge_less st next.0 l e ls m t next.1.0 ih,
        inr (extend-IsInserted l e ls m ((sign_of_tests (entry_order l e)).0 t) p),
      )
      step (inr t) (inl u) _ = (
        record { written = l ∷ ls; actions = act skip_present e },
        merge_same st l e ls i (f, fs) t u,
        inl (record {
          front = [];
          old = l;
          back = ls;
          split_here = refl;
          in_front = tt;
          equal = (sign_of_tests (entry_order l e)).1 t u;
          unchanged = refl;
          skipped = refl;
        }),
      )
      step (inr t) (inr u) _ = (
        record { written = e ∷ l ∷ ls; actions = act add e },
        merge_later st l e ls i (f, fs) g t u,
        inr (record {
          front = [];
          back = l ∷ ls;
          split_here = refl;
          in_front = tt;
          later = (sign_of_tests (entry_order l e)).2 t u;
          inserted = refl;
          added = refl;
        }),
      )
