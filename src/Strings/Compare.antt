-- ===== src/Strings/Compare.antt =====
-- The order of byte strings.
use godinstall.Prelude.{[], ◌∷◌, ◌≡◌, refl, arith, Bytes, pos, neg_ℤ, neg_part, ◌<◌}
use godinstall.Strings.{bytes_compare}

pub bytes_compare_refl : (a : Bytes) → bytes_compare a a ≡ pos 0
unfolding bytes_compare
bytes_compare_refl [] = refl
bytes_compare_refl (x ∷ xs) = ground (arith, bytes_compare_refl xs)

pub bytes_compare-eq : (a b : Bytes) → bytes_compare a b ≡ pos 0 → a ≡ b
unfolding bytes_compare
bytes_compare-eq [] [] h = refl
bytes_compare-eq [] (y ∷ ys) h = ground arith
bytes_compare-eq (x ∷ xs) [] h = ground arith
bytes_compare-eq (x ∷ xs) (y ∷ ys) h = ground (arith, bytes_compare-eq xs ys)

pub bytes_compare-neg : (a b : Bytes) → bytes_compare b a ≡ neg_ℤ (bytes_compare a b)
unfolding bytes_compare
bytes_compare-neg [] [] = refl
bytes_compare-neg [] (y ∷ ys) = refl
bytes_compare-neg (x ∷ xs) [] = refl
bytes_compare-neg (x ∷ xs) (y ∷ ys) = ground (arith, bytes_compare-neg xs ys)

-- Strictly smaller is transitive.
pub bytes_compare_trans :
    (a b c : Bytes)
    → 0 < neg_part (bytes_compare a b)
    → 0 < neg_part (bytes_compare b c)
    → 0 < neg_part (bytes_compare a c)
unfolding bytes_compare
bytes_compare_trans [] [] c h k = ground arith
bytes_compare_trans [] (y ∷ ys) [] h k = ground arith
bytes_compare_trans [] (y ∷ ys) (z ∷ zs) h k = ground arith
bytes_compare_trans (x ∷ xs) [] c h k = ground arith
bytes_compare_trans (x ∷ xs) (y ∷ ys) [] h k = ground arith
bytes_compare_trans (x ∷ xs) (y ∷ ys) (z ∷ zs) h k = ground (arith, bytes_compare_trans xs ys zs)
