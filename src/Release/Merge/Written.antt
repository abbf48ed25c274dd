-- ===== src/Release/Merge/Written.antt =====
-- What a merge writes of the parent's entries when the upload is done with, one entry at a time.
use godinstall.Prelude.{
  ◌≡◌, refl, Bool, true, false, List, [], ◌∷◌, ◌++◌, Option, none, some, if◌then◌else◌,
  append_assoc,
}
use godinstall.Release.Index.{Entry}
use godinstall.Release.Merge.{Action, prune, act, Merged, before, merge}

abbrev pub written_of : Option Merged → Option (List Entry)
written_of none = none
written_of (some m) = some m.written

abbrev pub prepend : List Entry → Option (List Entry) → Option (List Entry)
prepend es none = none
prepend es (some w) = some (es ++ w)

pub prepend-append :
    (a b : List Entry) (o : Option (List Entry)) → prepend a (prepend b o) ≡ prepend (a ++ b) o
prepend-append a b none = refl
prepend-append a b (some w) = rw (append_assoc a b w)

pub prepend-nil : (o : Option (List Entry)) → prepend [] o ≡ o
prepend-nil none = refl
prepend-nil (some w) = refl

written_of-before :
    (es : List Entry) (acts : List Action) (o : Option Merged)
    → written_of (before es acts o) ≡ prepend es (written_of o)
written_of-before es acts none = refl
written_of-before es acts (some m) = refl

module _ {S : Type 0} (pruner : S → Entry → Option (Bool × S)) where
  pub written_of-merge :
      (st st' : S) (pruned : Bool) (l : Entry) (ls : List Entry)
      → pruner st l ≡ some (pruned, st')
      → written_of (merge pruner st (l ∷ ls) [])
        ≡ prepend (if pruned then [] else l ∷ []) (written_of (merge pruner st' ls []))
  unfolding merge
  written_of-merge st st' true l ls h =
      rw h (written_of-before [] (act prune l) (merge pruner st' ls []))
  written_of-merge st st' false l ls h =
      rw h (written_of-before (l ∷ []) [] (merge pruner st' ls []))

  pub merge_fault :
      (st : S) (l : Entry) (ls : List Entry)
      → pruner st l ≡ none
      → merge pruner st (l ∷ ls) [] ≡ none
  unfolding merge
  merge_fault st l ls h = rw h refl

pub written-none : (o : Option Merged) → written_of o ≡ none → o ≡ none
written-none none h = refl
written-none (some m) h = cc
