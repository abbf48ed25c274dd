-- ===== src/Release/Merge/Laws.antt =====
-- What a merge keeps: order, the entries' properties, and the account of every entry.
use godinstall.Prelude.{
  ℕ, ◌+◌, ◌≡◌, ◌≢◌, refl, ap, Bool, false, List, [], ◌∷◌, Option, some, arith, All, length,
}
use godinstall.DebVersion.Key.{same, greater, sign}
use godinstall.DebVersion.Refine.{VersionNoNul}
use godinstall.Release.Index.{Entry, entry_order}
use godinstall.Release.Index.Order.{entry_order_trans, entry_order_flip}
use godinstall.Release.Merge.{
  Action, ActionType, prune, skip_present, skip_prune, Merged, merge, real_change,
}
use godinstall.Release.Merge.Walk.{
  IsBefore, IsFirst, IsLater, Merges, end, keep_left, drop_left, keep_both, drop_both, keep_right,
  drop_right, merge-Merges,
}

-- Strictly in index order: each entry stands before all that follow it.
abbrev pub IsSorted : List Entry → Type 0
IsSorted [] = Unit
IsSorted (x ∷ xs) = All (IsBefore x) xs × IsSorted xs

abbrev pub EntryNoNul : Entry → Type 0
EntryNoNul e = VersionNoNul e.source_item.version

Merges-All {ℓ} :
    {left right w : List Entry} {a : List Action} (P : Entry → Type ℓ)
    → Merges left right w a
    → All P left
    → All P right
    → All P w
Merges-All P end hl hr = tt
Merges-All P (keep_left f k) (hl, hls) hr = (hl, Merges-All P k hls hr)
Merges-All P (drop_left f k) (hl, hls) hr = Merges-All P k hls hr
Merges-All P (keep_both s k) (hl, hls) (hr, hrs) = (hl, Merges-All P k hls hrs)
Merges-All P (drop_both s k) (hl, hls) (hr, hrs) = Merges-All P k hls hrs
Merges-All P (keep_right f k) hl (hr, hrs) = (hr, Merges-All P k hl hrs)
Merges-All P (drop_right f k) hl (hr, hrs) = Merges-All P k hl hrs

IsBefore-trans :
    (a b c : Entry)
    → EntryNoNul a
    → EntryNoNul b
    → EntryNoNul c
    → IsBefore a b
    → (sign (entry_order b c) ≢ greater)
    → IsBefore a c
IsBefore-trans a b c na nb nc h k = ground (arith, entry_order_trans a b c na nb nc, h, k)

All-IsBefore :
    (a b : Entry) (cs : List Entry)
    → EntryNoNul a
    → EntryNoNul b
    → All EntryNoNul cs
    → IsBefore a b
    → All (IsBefore b) cs
    → All (IsBefore a) cs
All-IsBefore a b [] na nb nc h k = tt
All-IsBefore a b (c ∷ cs) na nb (nc, ncs) h (k, ks) =
    (IsBefore-trans a b c na nb nc h (ground arith), All-IsBefore a b cs na nb ncs h ks)

-- Before the first of a sorted list is before all of it.
IsFirst-All :
    (l : Entry) (right : List Entry)
    → EntryNoNul l
    → All EntryNoNul right
    → IsSorted right
    → IsFirst l right
    → All (IsBefore l) right
IsFirst-All l [] nl nr s f = tt
IsFirst-All l (r ∷ rs) nl (nr, nrs) (s, ss) f = (f, All-IsBefore l r rs nl nr nrs f s)

IsLater-All :
    (r : Entry) (left : List Entry)
    → EntryNoNul r
    → All EntryNoNul left
    → IsSorted left
    → IsLater r left
    → All (IsBefore r) left
IsLater-All r [] nr nl s f = tt
IsLater-All r (l ∷ ls) nr (nl, nls) (s, ss) f =
    let first = (entry_order_flip l r).0 f in (first, All-IsBefore r l ls nr nl nls first s)

-- An equal entry is before what the other one is before.
Same-All :
    (l r : Entry) (rs : List Entry)
    → EntryNoNul l
    → EntryNoNul r
    → All EntryNoNul rs
    → sign (entry_order l r) ≡ same
    → All (IsBefore r) rs
    → All (IsBefore l) rs
Same-All l r [] nl nr nrs e s = tt
Same-All l r (x ∷ xs) nl nr (nx, nxs) e (s, ss) =
    (ground (arith, entry_order_trans l r x nl nr nx, e, s), Same-All l r xs nl nr nxs e ss)

Merges-IsSorted :
    {left right w : List Entry} {a : List Action}
    → Merges left right w a
    → All EntryNoNul left
    → All EntryNoNul right
    → IsSorted left
    → IsSorted right
    → IsSorted w
Merges-IsSorted end nl nr sl sr = tt
Merges-IsSorted (keep_left {l} {ls} {right} f k) (nl, nls) nr (sl, sls) sr =
    (Merges-All (IsBefore l) k sl (IsFirst-All l right nl nr sr f), Merges-IsSorted k nls nr sls sr)
Merges-IsSorted (drop_left f k) (nl, nls) nr (sl, sls) sr = Merges-IsSorted k nls nr sls sr
Merges-IsSorted (keep_both {l} {r} {ls} {rs} e k) (nl, nls) (nr, nrs) (sl, sls) (sr, srs) = (
  Merges-All (IsBefore l) k sl (Same-All l r rs nl nr nrs e sr),
  Merges-IsSorted k nls nrs sls srs,
)
Merges-IsSorted (drop_both e k) (nl, nls) (nr, nrs) (sl, sls) (sr, srs) =
    Merges-IsSorted k nls nrs sls srs
Merges-IsSorted (keep_right {r} {left} f k) nl (nr, nrs) sl (sr, srs) =
    (Merges-All (IsBefore r) k (IsLater-All r left nr nl sl f) sr, Merges-IsSorted k nl nrs sl srs)
Merges-IsSorted (drop_right f k) nl (nr, nrs) sl (sr, srs) = Merges-IsSorted k nl nrs sl srs

-- Whatever the pruner drops, merging into an index in strict order leaves one in strict order, for
-- versions without NUL.
pub merge-IsSorted :
    {S : Type 0} (pruner : S → Entry → Option (Bool × S)) (st : S) (left right : List Entry)
    (m : Merged)
    → All EntryNoNul left
    → All EntryNoNul right
    → IsSorted left
    → IsSorted right
    → merge pruner st left right ≡ some m
    → IsSorted m.written
merge-IsSorted pruner st left right m nl nr sl sr h =
    Merges-IsSorted (merge-Merges pruner st left right m h) nl nr sl sr

-- How many of the merged entries an action stands for, beside those that are written.
abbrev pub weight : ActionType → ℕ
weight prune = 1
weight skip_present = 1
weight skip_prune = 2
weight _ = 0

abbrev pub weights : List Action → ℕ
weights [] = 0
weights (a ∷ more) = weight a.type + weights more

Merges-count :
    {left right w : List Entry} {a : List Action}
    → Merges left right w a
    → length w + weights a ≡ length left + length right
Merges-count end = omega arith
Merges-count (keep_left f k) = omega (arith, Merges-count k)
Merges-count (drop_left f k) = omega (arith, Merges-count k)
Merges-count (keep_both s k) = omega (arith, Merges-count k)
Merges-count (drop_both s k) = omega (arith, Merges-count k)
Merges-count (keep_right f k) = omega (arith, Merges-count k)
Merges-count (drop_right f k) = omega (arith, Merges-count k)

-- No entry is lost without a log: what is written, with one for each PRUNE and SKIPPRESENT and two
-- for each SKIPPRUNE, is as many as the two inputs hold.
pub merge_accounts :
    {S : Type 0} (pruner : S → Entry → Option (Bool × S)) (st : S) (left right : List Entry)
    (m : Merged)
    → merge pruner st left right ≡ some m
    → length m.written + weights m.actions ≡ length left + length right
merge_accounts pruner st left right m h = Merges-count (merge-Merges pruner st left right m h)

Merges-unchanged :
    {left right w : List Entry} {a : List Action}
    → Merges left right w a
    → real_change a ≡ false
    → All (λ x. x.type ≢ skip_prune) a
    → w ≡ left
unfolding real_change
Merges-unchanged end r n = refl
Merges-unchanged (keep_left {l} f k) r n = ap (λ (x : List Entry). l ∷ x) (Merges-unchanged k r n)
Merges-unchanged (drop_left f k) r n = cc
Merges-unchanged (keep_both {l} s k) r (n, ns) =
    ap (λ (x : List Entry). l ∷ x) (Merges-unchanged k r ns)
Merges-unchanged (drop_both s k) r (n, ns) = absurd (n refl)
Merges-unchanged (keep_right f k) r n = cc
Merges-unchanged (drop_right f k) r n = cc

-- A merge with no real change that logs no SKIPPRUNE leaves the index as it was.
pub merge_unchanged :
    {S : Type 0} (pruner : S → Entry → Option (Bool × S)) (st : S) (left right : List Entry)
    (m : Merged)
    → merge pruner st left right ≡ some m
    → real_change m.actions ≡ false
    → All (λ x. x.type ≢ skip_prune) m.actions
    → m.written ≡ left
merge_unchanged pruner st left right m h r n =
    Merges-unchanged (merge-Merges pruner st left right m h) r n
