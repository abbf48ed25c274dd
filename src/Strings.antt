-- ===== src/Strings.antt =====
-- What the program uses of Go's `strings` and `bytes` packages, over lists of bytes.
pub mod SplitJoin
pub mod Compare
use godinstall.Prelude.{
  ℕ, Bool, true, false, ◌&&◌, not, List, [], ◌∷◌, ◌++◌, Option, none, some, Bytes, ltb, leb, ◌==◌,
  if◌then◌else◌, ℤ, pos, negsuc, ◌≢◌, All,
}

abbrev pub Lacks : ℕ → Bytes → Type 0
Lacks sep = All (λ c. c ≢ sep)

-- The text before and after the first `sep`.
unfoldable pub cut : ℕ → Bytes → Option (Bytes × Bytes)
cut sep [] = none
cut sep (c ∷ s) =
    if c == sep
    then some ([], s)
    else elim (cut sep s) [ none ↦ none | some (a, b) ↦ some (c ∷ a, b) ]

abbrev pub cons_head : ℕ → List Bytes → List Bytes
cons_head c [] = (c ∷ []) ∷ []
cons_head c (p ∷ ps) = (c ∷ p) ∷ ps

-- `strings.Split`: there is always at least one part.
unfoldable pub split : ℕ → Bytes → List Bytes
split sep [] = [] ∷ []
split sep (c ∷ s) = if c == sep then [] ∷ split sep s else cons_head c (split sep s)

-- `strings.Join`.
unfoldable pub join : ℕ → List Bytes → Bytes
join sep [] = []
join sep (p ∷ []) = p
join sep (p ∷ q ∷ ps) = p ++ (sep ∷ join sep (q ∷ ps))

-- `parts[:len(parts)-1]` and `parts[len(parts)-1]`; both are only taken of parts that are there.
abbrev pub init : List Bytes → List Bytes
init [] = []
init (p ∷ []) = []
init (p ∷ q ∷ ps) = p ∷ init (q ∷ ps)

abbrev pub last : List Bytes → Bytes
last [] = []
last (p ∷ []) = p
last (p ∷ q ∷ ps) = last (q ∷ ps)

-- `bytes.Compare`: the order of the first bytes that differ, and a proper prefix is smaller.
unfoldable pub bytes_compare : Bytes → Bytes → ℤ
bytes_compare [] [] = pos 0
bytes_compare [] (y ∷ ys) = negsuc 0
bytes_compare (x ∷ xs) [] = pos 1
bytes_compare (x ∷ xs) (y ∷ ys) =
    if ltb x y then negsuc 0 else if ltb y x then pos 1 else bytes_compare xs ys
