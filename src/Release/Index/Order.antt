-- ===== src/Release/Index/Order.antt =====
-- The orders of an index are consistent: both sides of a comparison agree, and it is transitive.
use godinstall.Prelude.{◌≡◌, ◌≢◌, refl, arith, pos, neg_ℤ, Bytes, ℕ, [], ◌∷◌}
use godinstall.Strings.{bytes_compare}
use godinstall.Strings.Compare.{bytes_compare_refl, bytes_compare-neg}
use godinstall.DebVersion
use godinstall.DebVersion.Order.{compare_swap}
use godinstall.DebVersion.Key.{
  Sign, greater, same, less, sign, order, or_else, or_else-Chain, Chain, order_trans,
}
use godinstall.DebVersion.Refine.{VersionNoNul, compare_trans}
use godinstall.Release.Index.{Entry, Item, entry_order, item_order}

-- Swapping two entries, or two items, negates their order, and each is equal to itself.
pub orders_swap :
    (a b : Entry) (x y : Item)
    → (entry_order b a ≡ neg_ℤ (entry_order a b))
      × (entry_order a a ≡ pos 0)
      × (item_order y x ≡ neg_ℤ (item_order x y))
      × (item_order x x ≡ pos 0)
unfolding entry_order item_order
orders_swap a b x y = (
  ground (arith, bytes_compare-neg an bn, compare_swap av bv),
  ground (arith, bytes_compare_refl an, compare_swap av av),
  ground (
    arith,
    bytes_compare-neg x.name y.name,
    bytes_compare-neg x.architecture y.architecture,
    compare_swap x.version y.version,
  ),
  ground (
    arith,
    bytes_compare_refl x.name,
    bytes_compare_refl x.architecture,
    compare_swap x.version x.version,
  ),
)
  where
    open a.source_item use {name as an, version as av}
    open b.source_item use {name as bn, version as bv}

-- An entry that comes later than another has the other before it.
pub entry_order_flip :
    (a b : Entry)
    → (sign (entry_order a b) ≡ greater → sign (entry_order b a) ≡ less)
      × (sign (entry_order a b) ≡ less → sign (entry_order b a) ≡ greater)
unfolding sign order
entry_order_flip a b = ground (arith, (orders_swap a b a.source_item b.source_item).0)

sign-bytes_compare :
    (x y : ℕ) (xs ys : Bytes)
    → sign (bytes_compare (x ∷ xs) (y ∷ ys))
      ≡ or_else (order (pos x) (pos y)) (sign (bytes_compare xs ys))
unfolding bytes_compare sign order
sign-bytes_compare x y xs ys = ground arith

sign_ends :
    (x : ℕ) (xs : Bytes)
    → (sign (bytes_compare [] []) ≡ same)
      × (sign (bytes_compare [] (x ∷ xs)) ≡ less)
      × (sign (bytes_compare (x ∷ xs) []) ≡ greater)
unfolding bytes_compare sign order
sign_ends x xs = (refl, refl, refl)

names_trans :
    (a b c : Bytes)
    → Chain (sign (bytes_compare a b)) (sign (bytes_compare b c)) (sign (bytes_compare a c))
names_trans [] [] c = λ h k. ground (arith, sign_ends 0 [])
names_trans [] (y ∷ ys) [] = λ h k. ground (arith, sign_ends y ys)
names_trans [] (y ∷ ys) (z ∷ zs) = λ h k. ground (arith, sign_ends y ys, sign_ends z zs)
names_trans (x ∷ xs) [] c = λ h k. ground (arith, sign_ends x xs)
names_trans (x ∷ xs) (y ∷ ys) [] = λ h k. ground (arith, sign_ends x xs, sign_ends y ys)
names_trans (x ∷ xs) (y ∷ ys) (z ∷ zs) =
    rw (sign-bytes_compare x y xs ys, sign-bytes_compare y z ys zs, sign-bytes_compare x z xs zs)
      (or_else-Chain _ _ _ _ _ _ (order_trans (pos x) (pos y) (pos z)) (names_trans xs ys zs))

sign-entry_order :
    (a b : Entry)
    → sign (entry_order a b)
      ≡ or_else
          (sign (bytes_compare a.source_item.name b.source_item.name))
          (sign (DebVersion.compare b.source_item.version a.source_item.version))
unfolding entry_order sign order
sign-entry_order a b = ground arith

Chain-swap : {s t u : Sign} → Chain s t u → Chain t s u
Chain-swap h = λ x y. let (le, eq) = h y x in (le, λ e. let (p, q) = eq e in (q, p))

-- Transitivity, for entries whose versions hold no NUL: and with a third entry between them two
-- entries are equal only if all three are.
pub entry_order_trans :
    (a b c : Entry)
    → VersionNoNul a.source_item.version
    → VersionNoNul b.source_item.version
    → VersionNoNul c.source_item.version
    → sign (entry_order a b) ≢ greater
    → sign (entry_order b c) ≢ greater
    → (sign (entry_order a c) ≢ greater)
      × (sign (entry_order a c) ≡ same
          → (sign (entry_order a b) ≡ same) × (sign (entry_order b c) ≡ same))
entry_order_trans a b c na nb nc =
    rw (sign-entry_order a b, sign-entry_order b c, sign-entry_order a c)
      (or_else-Chain _ _ _ _ _ _
        (names_trans a.source_item.name b.source_item.name c.source_item.name)
        (Chain-swap (
          compare_trans c.source_item.version b.source_item.version a.source_item.version nc nb
            na)))
