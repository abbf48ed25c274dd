-- ===== src/Release/Merge/Walk.antt =====
-- The merge as a relation between the two inputs and what it writes and logs.
use godinstall.Prelude.{
  ◌≡◌, refl, inl, inr, Bool, true, false, List, [], ◌∷◌, ◌++◌, Option, none, some, arith, ℤ, pos,
  eqb_ℤ, ltb_ℤ, Bool-cases, subst,
}
use godinstall.DebVersion.Key.{less, same, greater, sign, order}
use godinstall.Release.Index.{Entry, entry_order}
use godinstall.Release.Merge.{
  Action, add, prune, skip_present, skip_prune, act, Merged, before, offer, merge_rest, merge,
}

abbrev pub IsBefore : Entry → Entry → Type 0
IsBefore a b = sign (entry_order a b) ≡ less

-- The entry stands before the next one of the other list, if there is one.
abbrev pub IsFirst : Entry → List Entry → Type 0
IsFirst l [] = Unit
IsFirst l (r ∷ rs) = IsBefore l r

abbrev pub IsLater : Entry → List Entry → Type 0
IsLater r [] = Unit
IsLater r (l ∷ ls) = sign (entry_order l r) ≡ greater

-- Each entry of the parent and of the upload is kept or dropped, in order, with its action.
pub data Merges : List Entry → List Entry → List Entry → List Action → Type 0 where
  end : Merges [] [] [] []
  keep_left :
      {l : Entry} {ls right w : List Entry} {a : List Action}
      → IsFirst l right
      → Merges ls right w a
      → Merges (l ∷ ls) right (l ∷ w) a
  drop_left :
      {l : Entry} {ls right w : List Entry} {a : List Action}
      → IsFirst l right
      → Merges ls right w a
      → Merges (l ∷ ls) right w (act prune l ++ a)
  keep_both :
      {l r : Entry} {ls rs w : List Entry} {a : List Action}
      → sign (entry_order l r) ≡ same
      → Merges ls rs w a
      → Merges (l ∷ ls) (r ∷ rs) (l ∷ w) (act skip_present r ++ a)
  drop_both :
      {l r : Entry} {ls rs w : List Entry} {a : List Action}
      → sign (entry_order l r) ≡ same
      → Merges ls rs w a
      → Merges (l ∷ ls) (r ∷ rs) w (act skip_prune l ++ a)
  keep_right :
      {r : Entry} {left rs w : List Entry} {a : List Action}
      → IsLater r left
      → Merges left rs w a
      → Merges left (r ∷ rs) (r ∷ w) (act add r ++ a)
  drop_right :
      {r : Entry} {left rs w : List Entry} {a : List Action}
      → IsLater r left
      → Merges left rs w a
      → Merges left (r ∷ rs) w (act prune r ++ a)

pub sign_of_tests :
    (z : ℤ)
    → (ltb_ℤ z (pos 0) ≡ true → sign z ≡ less)
      × (ltb_ℤ z (pos 0) ≡ false → eqb_ℤ z (pos 0) ≡ true → sign z ≡ same)
      × (ltb_ℤ z (pos 0) ≡ false → eqb_ℤ z (pos 0) ≡ false → sign z ≡ greater)
unfolding sign order
sign_of_tests z = (λ h. ground arith, λ h k. ground arith, λ h k. ground arith)

some_path : (P : Merged → Type 0) (a m : Merged) → P a → some a ≡ some m → P m
some_path P a m h e = subst (λ (x : Option Merged). elim x [ none ↦ Unit | some y ↦ P y ]) e h

module _ {S : Type 0} (pruner : S → Entry → Option (Bool × S)) where
  -- What an entry offered to the pruner leads to.
  offer-some :
      (P : List Entry → List Action → Type 0) (o : Option (Bool × S)) (e : Entry)
      (kept pruned : List Action) (rest : S → Option Merged) (m : Merged)
      → ((st : S) (n : Merged) → rest st ≡ some n → P (e ∷ n.written) (kept ++ n.actions))
      → ((st : S) (n : Merged) → rest st ≡ some n → P n.written (pruned ++ n.actions))
      → offer pruner o e kept pruned rest ≡ some m
      → P m.written m.actions
  offer-some P none e kept pruned rest m k d h = cc
  offer-some P (some (false, st)) e kept pruned rest m k d h = go (rest st) refl h
    where
      go :
          (o : Option Merged)
          → rest st ≡ o
          → before (e ∷ []) kept o ≡ some m
          → P m.written m.actions
      go none eq h' = cc
      go (some n) eq h' = some_path (λ y. P y.written y.actions) _ m (k st n eq) h'
  offer-some P (some (true, st)) e kept pruned rest m k d h = go (rest st) refl h
    where
      go : (o : Option Merged) → rest st ≡ o → before [] pruned o ≡ some m → P m.written m.actions
      go none eq h' = cc
      go (some n) eq h' = some_path (λ y. P y.written y.actions) _ m (d st n eq) h'

  merge_rest-Merges :
      (st : S) (right : List Entry) (m : Merged)
      → merge_rest pruner st right ≡ some m
      → Merges [] right m.written m.actions
  unfolding merge_rest
  merge_rest-Merges st [] m h = some_path (λ y. Merges [] [] y.written y.actions) _ m end h
  merge_rest-Merges st (r ∷ rs) m h =
      offer-some (Merges [] (r ∷ rs)) (pruner st r) r _ _ _ m
        (λ st' n e. keep_right tt (merge_rest-Merges st' rs n e))
        (λ st' n e. drop_right tt (merge_rest-Merges st' rs n e)) h

  -- Whatever the pruner answers, a merge that is not cut short by a fault is such a walk.
  pub merge-Merges :
      (st : S) (left right : List Entry) (m : Merged)
      → merge pruner st left right ≡ some m
      → Merges left right m.written m.actions
  unfolding merge
  merge-Merges st [] right m h = merge_rest-Merges st right m h
  merge-Merges st (l ∷ ls) [] m h =
      offer-some (Merges (l ∷ ls) []) (pruner st l) l _ _ _ m
        (λ st' n e. keep_left tt (merge-Merges st' ls [] n e))
        (λ st' n e. drop_left tt (merge-Merges st' ls [] n e)) h
  merge-Merges st (l ∷ ls) (r ∷ rs) m h = elim (Bool-cases (ltb_ℤ (entry_order l r) (pos 0))) [
    | inl e ↦
        offer-some (Merges (l ∷ ls) (r ∷ rs)) (pruner st l) l _ _ _ m
          (λ st' n e'. keep_left (tests.0 e) (merge-Merges st' ls (r ∷ rs) n e'))
          (λ st' n e'. drop_left (tests.0 e) (merge-Merges st' ls (r ∷ rs) n e'))
          (rw (e, merge) at h)
    | inr e ↦ elim (Bool-cases (eqb_ℤ (entry_order l r) (pos 0))) [
      | inl e2 ↦
          offer-some (Merges (l ∷ ls) (r ∷ rs)) (pruner st l) l _ _ _ m
            (λ st' n e'. keep_both (tests.1 e e2) (merge-Merges st' ls rs n e'))
            (λ st' n e'. drop_both (tests.1 e e2) (merge-Merges st' ls rs n e'))
            (rw (e, e2, merge) at h)
      | inr e2 ↦
          offer-some (Merges (l ∷ ls) (r ∷ rs)) (pruner st r) r _ _ _ m
            (λ st' n e'. keep_right (tests.2 e e2) (merge-Merges st' (l ∷ ls) rs n e'))
            (λ st' n e'. drop_right (tests.2 e e2) (merge-Merges st' (l ∷ ls) rs n e'))
            (rw (e, e2, merge) at h)
    ]
  ]
    where
      tests :
          (ltb_ℤ (entry_order l r) (pos 0) ≡ true → sign (entry_order l r) ≡ less)
          × (ltb_ℤ (entry_order l r) (pos 0) ≡ false
              → eqb_ℤ (entry_order l r) (pos 0) ≡ true
              → sign (entry_order l r) ≡ same)
          × (ltb_ℤ (entry_order l r) (pos 0) ≡ false
              → eqb_ℤ (entry_order l r) (pos 0) ≡ false
              → sign (entry_order l r) ≡ greater)
      tests = sign_of_tests (entry_order l r)
