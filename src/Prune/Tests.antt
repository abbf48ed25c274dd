-- ===== src/Prune/Tests.antt =====
-- The prune rules of the README at work, and instances of the theorems.
use godinstall.Prelude.{
  ◌≡◌, ◌≢◌, refl, ap, bytes-ne, Bool, true, false, [], ◌∷◌, ◌++◌, some, none, arith, Bytes, codes,
  pos,
}
use godinstall.Strings.{cut}
use godinstall.Strconv.{parse_int, is_digit}
use godinstall.DebVersion.{DebVersion}
use godinstall.Release.Index.{Entry}
use godinstall.Release.Merge.{merge}
use godinstall.Release.Merge.Written.{written_of, prepend}
use godinstall.Prune.{PruneRule, Pruner, make_pruner, find_rule, prune, over_limit}
use godinstall.Prune.Runs.{keep_runs}
use godinstall.Prune.Package.{prune_package, merge_unmatched_faults}
use godinstall.Prune.Parser.{parse_rule}
use godinstall.Prune.Parser.Grammar.{rule_text, limited, amount, parse_rule-rule_text}

abbrev entry : Bytes → Bytes → Bytes → Entry
entry name version revision = record {
  source_item = record {
    name = name;
    version = record { epoch = pos 0; version = version; revision = revision };
    architecture = codes "source";
    component = codes "main";
    control_id = [];
    files = [];
  };
  binary_items = [];
  changes_id = [];
}

abbrev e32 : Entry
e32 = entry (codes "p") (codes "3") (codes "2")

abbrev e31 : Entry
e31 = entry (codes "p") (codes "3") (codes "1")

abbrev e20 : Entry
e20 = entry (codes "p") (codes "2") []

-- A pattern that matches every name.
abbrev anything : Bytes → Bool
anything s = true

abbrev nothing : Bytes → Bool
nothing s = false

-- `.*_0-1`
abbrev latest : PruneRule
latest = record {
  pkg_pattern = anything;
  limit_versions = true;
  retain_versions = pos 0;
  limit_revisions = true;
  retain_revisions = pos 1;
}

parse_latest : parse_rule (λ s. some anything) (codes ".*_0-1") ≡ some latest
unfolding parse_rule cut parse_int is_digit
parse_latest = refl

parse_bad : parse_rule (λ s. some anything) (codes "abc_1") ≡ none
unfolding parse_rule cut parse_int is_digit
parse_bad = refl

keep_latest : keep_runs true 0 true 1 (e32 ∷ e31 ∷ e20 ∷ []) ≡ e32 ∷ e31 ∷ []
unfolding keep_runs
keep_latest = refl

merge-latest :
    written_of (merge (prune (latest ∷ [])) make_pruner (e32 ∷ e31 ∷ e20 ∷ []) [])
    ≡ some (e32 ∷ e31 ∷ [])
unfolding merge prune make_pruner over_limit find_rule
merge-latest = refl

latest_found : find_rule (codes "p") (latest ∷ []) make_pruner.curr_rule ≡ some latest
unfolding find_rule
latest_found = refl

new_package : codes "p" ≢ make_pruner.curr_pkg
unfolding make_pruner
new_package = λ e. cc

prune_package_example :
    (st : Pruner) × (st.curr_pkg ≡ codes "p")
    × (st.curr_rule ≡ some latest)
    × (written_of (merge (prune (latest ∷ [])) make_pruner (e32 ∷ (e31 ∷ e20 ∷ [] ++ [])) [])
        ≡ prepend
            (keep_runs true 0 true 1 (e32 ∷ e31 ∷ e20 ∷ []))
            (written_of (merge (prune (latest ∷ [])) st [] [])))
prune_package_example =
    prune_package latest true 0 true 1 (latest ∷ []) make_pruner e32 (e31 ∷ e20 ∷ []) []
      (record {
        versions_limited = refl;
        versions = refl;
        revisions_limited = refl;
        revisions = refl;
      })
      new_package latest_found (refl, (refl, tt))
      ((λ s. bytes-ne (codes "1") (codes "2") refl), ((λ s. bytes-ne [] (codes "1") refl), tt))

-- A rule for other packages only.
abbrev others : PruneRule
others = record latest { pkg_pattern = nothing }

none_found : find_rule (codes "p") (others ∷ []) make_pruner.curr_rule ≡ none
unfolding find_rule
none_found = refl

merge_unmatched_faults_example : merge (prune (others ∷ [])) make_pruner (e32 ∷ e31 ∷ []) [] ≡ none
merge_unmatched_faults_example =
    merge_unmatched_faults (others ∷ []) make_pruner e32 e31 [] new_package none_found refl
      (λ e. bytes-ne (codes "1") (codes "2") refl (ap (λ (d : DebVersion). d.revision) e))

parse_rule-rule_text_example :
    parse_rule (λ s. some anything) (rule_text (codes ".*") (some 2) none)
    ≡ some (record {
      pkg_pattern = anything;
      limit_versions = limited (some 2);
      retain_versions = pos (amount (some 2));
      limit_revisions = limited none;
      retain_revisions = pos (amount none);
    })
parse_rule-rule_text_example =
    parse_rule-rule_text (λ s. some anything) (codes ".*") anything (some 2) none refl
      (ground arith, (ground arith, tt)) (omega arith) (omega arith)
