-- ===== src/Archive/Dists/Tests.antt =====
-- The distributions of a store with other tags.
use godinstall.Prelude.{◌≡◌, ◌≢◌, refl, true, false, [], ◌∷◌, none, some, codes, bytes_Eq}
use godinstall.SafeMap.{get}
use godinstall.Release.Index.{StoreId}
use godinstall.Archive.{Objects, has_slash, trim_prefix, dists_of, dists, set_dist, delete_dist}
use godinstall.Archive.Dists.{WithDist, dists_lem}

abbrev store : Objects
store = record {
  releases = [];
  configs = [];
  tags =
      (codes "heads/x", 1 ∷ [])
      ∷ (codes "old/x", 2 ∷ [])
      ∷ (codes "heads/x/y", 3 ∷ [])
      ∷ (codes "heads/z", 4 ∷ [])
      ∷ [];
}

two_listed : dists store ≡ (codes "x", 1 ∷ []) ∷ (codes "z", 4 ∷ []) ∷ []
unfolding dists dists_of trim_prefix has_slash
two_listed = refl

dists_lem_example :
    (has_slash (codes "x") ≡ true
      → (set_dist (codes "x") (5 ∷ []) store ≡ none)
        × ((delete_dist (codes "x") store ≡ none) × (get (dists store) (codes "x") ≡ none)))
    × (set_dist [] (5 ∷ []) store ≡ none)
    × ((has_slash (codes "x") ≡ false
          → codes "x" ≢ []
          → (t : Objects) × ((set_dist (codes "x") (5 ∷ []) store ≡ some t)
              × WithDist store (codes "x") (some (5 ∷ [])) t))
        × (((old : StoreId)
              → get (dists store) (codes "x") ≡ some old
              → (t : Objects) × ((delete_dist (codes "x") store ≡ some t)
                  × WithDist store (codes "x") none t))
            × (get (dists store) (codes "x") ≡ none → delete_dist (codes "x") store ≡ none)))
dists_lem_example = dists_lem store (codes "x") (5 ∷ [])
