-- ===== src/Prune/Package.antt =====
-- The pruner over the entries of one package, as the merge calls it.
use godinstall.Prelude.{
  ℕ, suc, ◌≡◌, ◌≢◌, refl, sym, ◌∙◌, ◌⊎◌, inl, inr, Bool, true, false, List, [], ◌∷◌, ◌++◌, Option,
  none, some, arith, Bytes, bytes_beq_iff, pos, eqb_ℤ_iff, if◌then◌else◌, Bool-cases, All,
}
use godinstall.Release.Index.{Entry}
use godinstall.Release.Merge.{merge}
use godinstall.Release.Merge.Written.{
  written_of, prepend, prepend-append, prepend-nil, written_of-merge, written-none, merge_fault,
}
use godinstall.Prune.{PruneRule, Pruner, find_rule, over_limit, prune}
use godinstall.Prune.Runs.{same_version, keep_from, keep_runs, over, keep_runs-keep_from}

-- The limits of a rule.
pub record Limits (r : PruneRule) (lv : Bool) (v : ℕ) (lr : Bool) (w : ℕ) : Type 0 where
  pub versions_limited : r.limit_versions ≡ lv
  pub versions : r.retain_versions ≡ pos v
  pub revisions_limited : r.limit_revisions ≡ lr
  pub revisions : r.retain_revisions ≡ pos w

-- No entry has the version and revision of the one before it.
abbrev pub NoRepeat : Entry → List Entry → Type 0
NoRepeat e [] = Unit
NoRepeat e (x ∷ xs) =
    (same_version e x ≡ true → x.source_item.version.revision ≢ e.source_item.version.revision)
    × NoRepeat x xs

-- The pruner after the entry `e`, in the `k`-th version of the package and its `j`-th revision.
abbrev after : Option PruneRule → ℕ → ℕ → Entry → Pruner
after rule k j e = record {
  curr_pkg = e.source_item.name;
  curr_epoch = e.source_item.version.epoch;
  curr_version = e.source_item.version.version;
  curr_version_cnt = k;
  curr_revision = e.source_item.version.revision;
  curr_revision_cnt = j;
  curr_rule = rule;
}

module _ (r : PruneRule) (lv : Bool) (v : ℕ) (lr : Bool) (w : ℕ) (limits : Limits r lv v lr w) where
  over_limit-over : (k j : ℕ) → over_limit (some r) k j ≡ some (over lv v lr w k j)
  unfolding over_limit over
  over_limit-over k j =
      rw (limits.versions_limited, limits.versions, limits.revisions_limited, limits.revisions)
        (ground arith)

  keep_from_same :
      (k j : ℕ) (e x : Entry) (xs : List Entry)
      → same_version e x ≡ true
      → keep_from lv v lr w k j e (x ∷ xs)
        ≡ (if over lv v lr w k (suc j) then [] else x ∷ []) ++ keep_from lv v lr w k (suc j) x xs
  unfolding keep_from
  keep_from_same k j e x xs s =
      rw s (elim (Bool-cases (over lv v lr w k (suc j))) [ inl o ↦ rw o refl | inr o ↦ rw o refl ])

  keep_from_other :
      (k j : ℕ) (e x : Entry) (xs : List Entry)
      → same_version e x ≡ false
      → keep_from lv v lr w k j e (x ∷ xs)
        ≡ (if over lv v lr w (suc k) 1 then [] else x ∷ []) ++ keep_from lv v lr w (suc k) 1 x xs
  unfolding keep_from
  keep_from_other k j e x xs s =
      rw s (elim (Bool-cases (over lv v lr w (suc k) 1)) [ inl o ↦ rw o refl | inr o ↦ rw o refl ])

  module _ (rules : List PruneRule) where
    prune_same :
        (k j : ℕ) (e x : Entry)
        → x.source_item.name ≡ e.source_item.name
        → same_version e x ≡ true
        → x.source_item.version.revision ≢ e.source_item.version.revision
        → prune rules (after (some r) k j e) x
          ≡ some (over lv v lr w k (suc j), after (some r) k (suc j) x)
    unfolding prune
    prune_same k j e x n s d = ground (
      arith,
      n,
      d,
      bytes_beq_iff x.source_item.name e.source_item.name,
      bytes_beq_iff x.source_item.version.version e.source_item.version.version,
      bytes_beq_iff x.source_item.version.revision e.source_item.version.revision,
      eqb_ℤ_iff x.source_item.version.epoch e.source_item.version.epoch,
      over_limit-over k (suc j),
    )

    prune_other :
        (k j : ℕ) (e x : Entry)
        → x.source_item.name ≡ e.source_item.name
        → same_version e x ≡ false
        → prune rules (after (some r) k j e) x
          ≡ some (over lv v lr w (suc k) 1, after (some r) (suc k) 1 x)
    unfolding prune
    prune_other k j e x n s =
        ground
          (arith, n, bytes_beq_iff x.source_item.name e.source_item.name, over_limit-over (suc k) 1)

    -- The pruner's answers to the rest of a package.
    merge_package :
        (n : Bytes) (k j : ℕ) (e : Entry) (xs rest : List Entry)
        → e.source_item.name ≡ n
        → All (λ x. x.source_item.name ≡ n) xs
        → NoRepeat e xs
        → (st : Pruner) × (st.curr_pkg ≡ n)
          × (st.curr_rule ≡ some r)
          × (written_of (merge (prune rules) (after (some r) k j e) (xs ++ rest) [])
              ≡ prepend
                  (keep_from lv v lr w k j e xs)
                  (written_of (merge (prune rules) st rest [])))
    merge_package n k j e [] rest he hn hr = (
      after (some r) k j e,
      he,
      refl,
      unfold keep_from in
          sym (prepend-nil (written_of (merge (prune rules) (after (some r) k j e) rest []))),
    )
    merge_package n k j e (x ∷ xs) rest he (hx, hn) (d, hr) =
        go (merge_package n k (suc j) x xs rest hx hn hr)
          (merge_package n (suc k) 1 x xs rest hx hn hr) (Bool-cases (same_version e x))
      where
        names_agree : x.source_item.name ≡ e.source_item.name
        names_agree = hx ∙ sym he

        go :
            ((st : Pruner) × (st.curr_pkg ≡ n)
              × (st.curr_rule ≡ some r)
              × (written_of (merge (prune rules) (after (some r) k (suc j) x) (xs ++ rest) [])
                  ≡ prepend
                      (keep_from lv v lr w k (suc j) x xs)
                      (written_of (merge (prune rules) st rest []))))
            → ((st : Pruner) × (st.curr_pkg ≡ n)
                × (st.curr_rule ≡ some r)
                × (written_of (merge (prune rules) (after (some r) (suc k) 1 x) (xs ++ rest) [])
                    ≡ prepend
                        (keep_from lv v lr w (suc k) 1 x xs)
                        (written_of (merge (prune rules) st rest []))))
            → (same_version e x ≡ true) ⊎ (same_version e x ≡ false)
            → (st : Pruner) × (st.curr_pkg ≡ n)
              × (st.curr_rule ≡ some r)
              × (written_of (merge (prune rules) (after (some r) k j e) (x ∷ (xs ++ rest)) [])
                  ≡ prepend
                      (keep_from lv v lr w k j e (x ∷ xs))
                      (written_of (merge (prune rules) st rest [])))
        go (st, hp, hrule, ih) _ (inl s) = (
          st,
          hp,
          hrule,
          rw
              (
                keep_from_same k j e x xs s,
                written_of-merge (prune rules) (after (some r) k j e) (after (some r) k (suc j) x)
                    (over lv v lr w k (suc j)) x (xs ++ rest)
                    (prune_same k j e x names_agree s (d s)),
                ih,
                prepend-append,
              )
              refl,
        )
        go _ (st, hp, hrule, ih) (inr s) = (
          st,
          hp,
          hrule,
          rw
              (
                keep_from_other k j e x xs s,
                written_of-merge (prune rules) (after (some r) k j e) (after (some r) (suc k) 1 x)
                    (over lv v lr w (suc k) 1) x (xs ++ rest) (prune_other k j e x names_agree s),
                ih,
                prepend-append,
              )
              refl,
        )

prune_first :
    (rules : List PruneRule) (st : Pruner) (e : Entry) (r : PruneRule)
    → e.source_item.name ≢ st.curr_pkg
    → find_rule e.source_item.name rules st.curr_rule ≡ some r
    → prune rules st e ≡ some (false, after (some r) 1 1 e)
unfolding prune
prune_first rules st e r h f = ground (arith, h, f, bytes_beq_iff e.source_item.name st.curr_pkg)

prune_unmatched :
    (rules : List PruneRule) (st : Pruner) (e : Entry)
    → e.source_item.name ≢ st.curr_pkg
    → find_rule e.source_item.name rules st.curr_rule ≡ none
    → prune rules st e ≡ some (false, after none 1 1 e)
unfolding prune
prune_unmatched rules st e h f = ground (arith, h, f, bytes_beq_iff e.source_item.name st.curr_pkg)

prune_fault :
    (rules : List PruneRule) (e x : Entry)
    → x.source_item.name ≡ e.source_item.name
    → x.source_item.version ≢ e.source_item.version
    → prune rules (after none 1 1 e) x ≡ none
unfolding prune over_limit
prune_fault rules e x n d = ground (
  arith,
  n,
  d,
  bytes_beq_iff x.source_item.name e.source_item.name,
  bytes_beq_iff x.source_item.version.version e.source_item.version.version,
  bytes_beq_iff x.source_item.version.revision e.source_item.version.revision,
  eqb_ℤ_iff x.source_item.version.epoch e.source_item.version.epoch,
)

-- A package that no rule matches makes the merge fault at its second version: the pruner reads the
-- limits of a rule that is not there.
pub merge_unmatched_faults :
    (rules : List PruneRule) (st : Pruner) (e x : Entry) (rest : List Entry)
    → e.source_item.name ≢ st.curr_pkg
    → find_rule e.source_item.name rules st.curr_rule ≡ none
    → x.source_item.name ≡ e.source_item.name
    → x.source_item.version ≢ e.source_item.version
    → merge (prune rules) st (e ∷ x ∷ rest) [] ≡ none
merge_unmatched_faults rules st e x rest h f n d =
    written-none (merge (prune rules) st (e ∷ x ∷ rest) []) (
      rw
        (
          written_of-merge (prune rules) st (after none 1 1 e) false e (x ∷ rest)
              (prune_unmatched rules st e h f),
          merge_fault (prune rules) (after none 1 1 e) x rest (prune_fault rules e x n d),
        )
        refl)

-- The entries of one package, all under one rule and none twice in a row, that the pruner meets
-- behind another package: the merge writes those that `keep_runs` describes, and goes on with what
-- follows, the pruner standing at this package and its rule.
pub prune_package :
    (r : PruneRule) (lv : Bool) (v : ℕ) (lr : Bool) (w : ℕ) (rules : List PruneRule) (st : Pruner)
    (e : Entry) (xs rest : List Entry)
    → Limits r lv v lr w
    → e.source_item.name ≢ st.curr_pkg
    → find_rule e.source_item.name rules st.curr_rule ≡ some r
    → All (λ x. x.source_item.name ≡ e.source_item.name) xs
    → NoRepeat e xs
    → (st' : Pruner) × (st'.curr_pkg ≡ e.source_item.name)
      × (st'.curr_rule ≡ some r)
      × (written_of (merge (prune rules) st (e ∷ (xs ++ rest)) [])
          ≡ prepend (keep_runs lv v lr w (e ∷ xs)) (written_of (merge (prune rules) st' rest [])))
prune_package r lv v lr w rules st e xs rest limits fresh found names no_repeat =
    let (st', at_package, at_rule, eq) =
      merge_package r lv v lr w limits rules e.source_item.name 1 1 e xs rest refl names
        no_repeat in
    (
      st',
      at_package,
      at_rule,
      rw
          (
            keep_runs-keep_from lv v lr w e xs,
            written_of-merge (prune rules) st (after (some r) 1 1 e) false e (xs ++ rest)
                (prune_first rules st e r fresh found),
            eq,
            prepend-append,
          )
          refl,
    )
