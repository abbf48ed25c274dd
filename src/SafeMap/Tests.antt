-- ===== src/SafeMap/Tests.antt =====
-- The map's theorems at a concrete map of marks.
use godinstall.Prelude.{
  ◌≡◌, ◌≢◌, ◌↔◌, Bool, true, false, List, [], ◌∷◌, none, some, Bytes, bytes_Eq, bool_Eq,
}
use godinstall.SafeMap.{get, delete, check, set}
use godinstall.SafeMap.Laws.{set_lem, delete_lem}

abbrev two_marks : List (Bytes × Bool)
two_marks = ((1 ∷ []), true) ∷ ((2 ∷ []), true) ∷ []

set_lem_example :
    (get (set two_marks (2 ∷ []) false).1 (2 ∷ []) ≡ some false)
    × (check (set two_marks (2 ∷ []) false).1 (2 ∷ []) ≡ true)
    × ((j : Bytes) → (2 ∷ []) ≢ j → get (set two_marks (2 ∷ []) false).1 j ≡ get two_marks j)
    × (((set two_marks (2 ∷ []) false).0 ≡ false) ↔ (get two_marks (2 ∷ []) ≡ some false))
    × (get two_marks (2 ∷ []) ≡ some false → (set two_marks (2 ∷ []) false).1 ≡ two_marks)
set_lem_example = set_lem two_marks (2 ∷ []) false

keys_after_delete :
    (get (delete two_marks (1 ∷ [])) (1 ∷ []) ≡ none)
    × (check (delete two_marks (1 ∷ [])) (1 ∷ []) ≡ false)
    × ((j : Bytes) → (1 ∷ []) ≢ j → get (delete two_marks (1 ∷ [])) j ≡ get two_marks j)
keys_after_delete = delete_lem two_marks (1 ∷ [])
