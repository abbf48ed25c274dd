-- ===== src/Prune.antt =====
-- prune.go: the rules that limit how many versions and revisions of a package an index keeps.
-- A compiled pattern is its `MatchString`, and `regexp.Compile` is a parameter of the parser.
pub mod Runs
pub mod Unlimited
pub mod Package
pub mod Parser
mod Tests
use godinstall.Prelude.{
  ℕ, suc, ◌+◌, Bool, true, false, ◌||◌, ◌&&◌, not, List, [], ◌∷◌, Option, none, some, Bytes,
  bytes_beq, ℤ, pos, eqb_ℤ, ltb_ℤ, add_ℤ, if◌then◌else◌,
}
use godinstall.DebVersion.{DebVersion}
use godinstall.Release.Index.{Entry}

pub record PruneRule : Type 0 where
  pub pkg_pattern : Bytes → Bool
  pub limit_versions : Bool
  pub retain_versions : ℤ
  pub limit_revisions : Bool
  pub retain_revisions : ℤ

-- The variables that the closure of `MakePruner` keeps between calls.
pub record Pruner : Type 0 where
  pub curr_pkg : Bytes
  pub curr_epoch : ℤ
  pub curr_version : Bytes
  pub curr_version_cnt : ℕ
  pub curr_revision : Bytes
  pub curr_revision_cnt : ℕ
  pub curr_rule : Option PruneRule

unfoldable pub make_pruner : Pruner
make_pruner = record {
  curr_pkg = [];
  curr_epoch = pos 0;
  curr_version = [];
  curr_version_cnt = 0;
  curr_revision = [];
  curr_revision_cnt = 0;
  curr_rule = none;
}

-- The search for a rule: the first that matches; with no rule at all the old one stays.
unfoldable pub find_rule : Bytes → List PruneRule → Option PruneRule → Option PruneRule
find_rule name [] curr = curr
find_rule name (r ∷ rs) curr = if r.pkg_pattern name then some r else find_rule name rs none

-- The two limits; `none` is the fault of reading a field of the nil rule.
unfoldable pub over_limit : Option PruneRule → ℕ → ℕ → Option Bool
over_limit none versions revisions = none
over_limit (some r) versions revisions = some (
    if r.limit_versions && ltb_ℤ (add_ℤ r.retain_versions (pos 1)) (pos versions)
    then true
    else r.limit_revisions && ltb_ℤ (add_ℤ r.retain_revisions (pos 1)) (pos revisions))

abbrev pub answer : Pruner → Option Bool → Option (Bool × Pruner)
answer st none = none
answer st (some b) = some (b, st)

-- A package name that was not the last one seen: the pruner starts anew.
pub start_package : List PruneRule → Pruner → Bytes → DebVersion → Pruner
start_package rules st name v = record {
  curr_pkg = name;
  curr_epoch = v.epoch;
  curr_version = v.version;
  curr_version_cnt = 1;
  curr_revision = v.revision;
  curr_revision_cnt = 1;
  curr_rule = find_rule name rules st.curr_rule;
}

-- A further version of the package.
pub next_version : Pruner → DebVersion → Option (Bool × Pruner)
next_version st v =
    if not (bytes_beq v.version st.curr_version) || not (eqb_ℤ v.epoch st.curr_epoch)
    then (let st' = record st {
      curr_version_cnt = suc st.curr_version_cnt;
      curr_version = v.version;
      curr_epoch = v.epoch;
      curr_revision = v.revision;
      curr_revision_cnt = 1;
    } in
        answer st' (over_limit st'.curr_rule st'.curr_version_cnt st'.curr_revision_cnt))
    else if not (bytes_beq v.revision st.curr_revision)
    then (let st' = record st {
      curr_revision_cnt = suc st.curr_revision_cnt;
      curr_revision = v.revision;
    } in
        answer st' (over_limit st'.curr_rule st'.curr_version_cnt st'.curr_revision_cnt))
    else some (false, st)

-- The closure: `some (true, _)` removes the entry, and `none` is the fault.
unfoldable pub prune : List PruneRule → Pruner → Entry → Option (Bool × Pruner)
unfolding start_package next_version
prune rules st entry =
    let item = entry.source_item in
    if not (bytes_beq item.name st.curr_pkg)
    then some (false, start_package rules st item.name item.version)
    else next_version st item.version
