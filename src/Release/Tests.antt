-- ===== src/Release/Tests.antt =====
-- Runs of the merge, and instances of the theorems about it and about the order of an index.
use godinstall.Prelude.{
  ◌≡◌, ◌≢◌, refl, inr, bytes-ne, ◌⊎◌, Bool, true, false, [], ◌∷◌, Option, some, arith, Bytes, codes,
  pos, neg_ℤ, length, ◌+◌,
}
use godinstall.Strings.{bytes_compare}
use godinstall.Strconv.{is_digit}
use godinstall.DebVersion
use godinstall.DebVersion.{DebVersion, compare_component}
use godinstall.DebVersion.Key.{same, greater, sign, order}
use godinstall.Release.Index.{Item, Entry, entry_order, item_order}
use godinstall.Release.Index.Order.{orders_swap, entry_order_trans}
use godinstall.Release.Merge.{skip_prune, skip_present, add, act, Merged, merge, real_change}
use godinstall.Release.Merge.Walk.{IsBefore, Merges, merge-Merges}
use godinstall.Release.Merge.Laws.{
  IsSorted, merge-IsSorted, weights, merge_accounts, merge_unchanged,
}
use godinstall.Prune.{PruneRule, make_pruner, find_rule, prune}
use godinstall.Prune.Unlimited.{HasRule, IsUnlimited, IsNamed, prune-IsUnlimited}
use godinstall.Release.Merge.Insert.{IsPresent, IsInserted, merge_one}

abbrev item : Bytes → Bytes → Item
item name version = record {
  name = name;
  version = record { epoch = pos 0; version = version; revision = [] };
  architecture = codes "source";
  component = codes "main";
  control_id = [];
  files = [];
}

abbrev entry : Bytes → Bytes → Entry
entry name version = record { source_item = item name version; binary_items = []; changes_id = [] }

abbrev two : Entry
two = entry (codes "p") (codes "2")

abbrev one : Entry
one = entry (codes "p") (codes "1")

abbrev other : Entry
other = entry (codes "q") (codes "1")

-- A pruner that keeps everything.
keeper : Unit {0} → Entry → Option (Bool × Unit {0})
keeper st e = some (false, st)

-- A pruner that drops everything.
dropper : Unit {0} → Entry → Option (Bool × Unit {0})
dropper st e = some (true, st)

abbrev inserted : Merged
inserted = record { written = two ∷ one ∷ other ∷ []; actions = act add one }

merge_inserts : merge keeper tt (two ∷ other ∷ []) (one ∷ []) ≡ some inserted
unfolding merge keeper entry_order bytes_compare DebVersion.compare compare_component is_digit
merge_inserts = refl

-- An entry that is in the index and falls to the pruner is dropped, and no real change is logged.
abbrev dropped : Merged
dropped = record { written = []; actions = act skip_prune one }

merge_drops : merge dropper tt (one ∷ []) (one ∷ []) ≡ some dropped
unfolding merge dropper entry_order bytes_compare DebVersion.compare compare_component is_digit
merge_drops = refl

skip_prune_no_change : real_change dropped.actions ≡ false
unfolding real_change
skip_prune_no_change = refl

two-IsBefore-one : IsBefore two one
unfolding sign order entry_order bytes_compare DebVersion.compare compare_component is_digit
two-IsBefore-one = refl

two-IsBefore-other : IsBefore two other
unfolding sign order entry_order bytes_compare DebVersion.compare compare_component is_digit
two-IsBefore-other = refl

orders_swap_example :
    (entry_order one two ≡ neg_ℤ (entry_order two one))
    × (entry_order two two ≡ pos 0)
    × (item_order one.source_item two.source_item
        ≡ neg_ℤ (item_order two.source_item one.source_item))
    × (item_order two.source_item two.source_item ≡ pos 0)
orders_swap_example = orders_swap two one two.source_item one.source_item

one_le_other : sign (entry_order one other) ≢ greater
unfolding sign order entry_order bytes_compare DebVersion.compare compare_component is_digit
one_le_other = λ e. cc

two_le_one : sign (entry_order two one) ≢ greater
unfolding sign order entry_order bytes_compare DebVersion.compare compare_component is_digit
two_le_one = λ e. cc

entry_order_trans_example :
    (sign (entry_order two other) ≢ greater)
    × (sign (entry_order two other) ≡ same
        → (sign (entry_order two one) ≡ same) × (sign (entry_order one other) ≡ same))
entry_order_trans_example =
    entry_order_trans two one other (ground arith, tt) (ground arith, tt) (ground arith, tt)
      two_le_one one_le_other

merge-Merges_example : Merges (two ∷ other ∷ []) (one ∷ []) (two ∷ one ∷ other ∷ []) (act add one)
merge-Merges_example = merge-Merges keeper tt (two ∷ other ∷ []) (one ∷ []) inserted merge_inserts

merge-IsSorted_example : IsSorted (two ∷ one ∷ other ∷ [])
merge-IsSorted_example =
    merge-IsSorted keeper tt (two ∷ other ∷ []) (one ∷ []) inserted
      ((ground arith, tt), ((ground arith, tt), tt)) ((ground arith, tt), tt)
      ((two-IsBefore-other, tt), (tt, tt)) (tt, tt) merge_inserts

merge_accounts_example :
    length inserted.written + weights inserted.actions
    ≡ length (two ∷ other ∷ []) + length (one ∷ [])
merge_accounts_example =
    merge_accounts keeper tt (two ∷ other ∷ []) (one ∷ []) inserted merge_inserts

abbrev found : Merged
found = record { written = one ∷ []; actions = act skip_present one }

merge_finds : merge keeper tt (one ∷ []) (one ∷ []) ≡ some found
unfolding merge keeper entry_order bytes_compare DebVersion.compare compare_component is_digit
merge_finds = refl

found_no_change : real_change found.actions ≡ false
unfolding real_change
found_no_change = refl

merge_unchanged_example : found.written ≡ one ∷ []
merge_unchanged_example =
    merge_unchanged keeper tt (one ∷ []) (one ∷ []) found merge_finds found_no_change
      ((λ e. cc), tt)

-- `.*_*-*`
abbrev keep_all : PruneRule
keep_all = record {
  pkg_pattern = λ s. true;
  limit_versions = false;
  retain_versions = pos 0;
  limit_revisions = false;
  retain_revisions = pos 0;
}

finds_keep_all :
    (name : Bytes) (curr : Option PruneRule) → HasRule (find_rule name (keep_all ∷ []) curr)
unfolding find_rule
finds_keep_all name curr = (keep_all, (refl, (refl, refl)))

new_pruner : IsUnlimited make_pruner
unfolding make_pruner
new_pruner = inr refl

merge_one_example :
    (m : Merged) × (merge (prune (keep_all ∷ [])) make_pruner (two ∷ other ∷ []) (one ∷ [])
      ≡ some m)
    × (IsPresent one (two ∷ other ∷ []) m ⊎ IsInserted one (two ∷ other ∷ []) m)
merge_one_example =
    merge_one (prune (keep_all ∷ [])) IsUnlimited IsNamed
      (prune-IsUnlimited (keep_all ∷ []) finds_keep_all) make_pruner (two ∷ other ∷ []) one
      new_pruner (bytes-ne (codes "p") [] refl, (bytes-ne (codes "q") [] refl, tt))
      (bytes-ne (codes "p") [] refl)
