-- ===== src/Strings/SplitJoin.antt =====
-- Splitting and joining undo one another.
use godinstall.Prelude.{ℕ, List, [], ◌∷◌, ◌++◌, ◌≡◌, ◌≢◌, refl, none, some, arith, Bytes}
use godinstall.Strings.{Lacks, cut, cons_head, split, join, init, last}

pub split-ne-nil : (sep : ℕ) (s : Bytes) → split sep s ≢ []
unfolding split
split-ne-nil sep [] = ground arith
split-ne-nil sep (c ∷ s) = ground (arith, split-ne-nil sep s)

pub join-cons_head :
    (sep c : ℕ) (ps : List Bytes) → ps ≢ [] → join sep (cons_head c ps) ≡ c ∷ join sep ps
unfolding join
join-cons_head sep c [] h = absurd (h refl)
join-cons_head sep c (p ∷ []) h = refl
join-cons_head sep c (p ∷ q ∷ ps) h = refl

join-nil-cons : (sep : ℕ) (ps : List Bytes) → ps ≢ [] → join sep ([] ∷ ps) ≡ sep ∷ join sep ps
unfolding join
join-nil-cons sep [] h = absurd (h refl)
join-nil-cons sep (p ∷ ps) h = refl

-- Joining the parts of a split gives the text back.
pub join-split : (sep : ℕ) (s : Bytes) → join sep (split sep s) ≡ s
unfolding split
join-split sep [] = unfold join in refl
join-split sep (c ∷ s) = ground (
  arith,
  split-ne-nil sep s,
  join-split sep s,
  join-cons_head sep c (split sep s),
  join-nil-cons sep (split sep s),
)

-- Text with no separator is one part.
pub split_lacking : (sep : ℕ) (s : Bytes) → Lacks sep s → split sep s ≡ s ∷ []
unfolding split
split_lacking sep [] h = refl
split_lacking sep (c ∷ s) (hc, hs) = ground (arith, split_lacking sep s hs)

cons_head-append :
    (c : ℕ) (ps qs : List Bytes) → ps ≢ [] → cons_head c (ps ++ qs) ≡ cons_head c ps ++ qs
cons_head-append c [] qs h = absurd (h refl)
cons_head-append c (p ∷ ps) qs h = refl

-- Behind a last separator stands the last part.
pub split_at_last :
    (sep : ℕ) (s r : Bytes) → Lacks sep r → split sep (s ++ sep ∷ r) ≡ split sep s ++ r ∷ []
unfolding split
split_at_last sep [] r h = ground (arith, split_lacking sep r h)
split_at_last sep (c ∷ s) r h =
    ground (
      arith,
      split_at_last sep s r h,
      cons_head-append c (split sep s) (r ∷ []),
      split-ne-nil sep s,
    )

pub init-append : (ps : List Bytes) (p : Bytes) → init (ps ++ p ∷ []) ≡ ps
init-append [] p = refl
init-append (q ∷ []) p = refl
init-append (q ∷ r ∷ ps) p = ground (arith, init-append (r ∷ ps) p)

pub last-append : (ps : List Bytes) (p : Bytes) → last (ps ++ p ∷ []) ≡ p
last-append [] p = refl
last-append (q ∷ []) p = refl
last-append (q ∷ r ∷ ps) p = last-append (r ∷ ps) p

pub cut_lacking : (sep : ℕ) (s : Bytes) → Lacks sep s → cut sep s ≡ none
unfolding cut
cut_lacking sep [] h = refl
cut_lacking sep (c ∷ s) (hc, hs) = ground (arith, cut_lacking sep s hs)

pub cut-append : (sep : ℕ) (s r : Bytes) → Lacks sep s → cut sep (s ++ sep ∷ r) ≡ some (s, r)
unfolding cut
cut-append sep [] r h = ground arith
cut-append sep (c ∷ s) r (hc, hs) = ground (arith, cut-append sep s r hs)
