-- ===== src/Archive/Config/Tests.antt =====
-- A request to an archive of two distributions.
use godinstall.Prelude.{
  ◌≡◌, ◌≤◌, ◌↔◌, refl, sym, ap, Bool, true, false, [], ◌∷◌, none, some, Bytes, bytes_Eq, codes, pos,
  length, bytes_beq, bytes-ne, some_inj, if◌then◌else◌,
}
use godinstall.SafeMap.{get}
use godinstall.Release.Merge.{config_change}
use godinstall.Release.Record.{Release, ReleaseConfig}
use godinstall.Release.Child.{new_child}
use godinstall.Archive.{Objects, found, get_dist, has_slash}
use godinstall.Archive.Config.{
  ConfigUpdate, Rest, update_actions, update_config, config_of, config_put, unauthorised, not_found,
}
use godinstall.Archive.Config.Changed.{applied, update_config_lem}
use godinstall.Archive.Config.Lookup.{IsClosed, CanAdd, next_release}
use godinstall.Archive.Config.Served.{IsServed, config_put-IsServed}

abbrev config : ReleaseConfig
config = record {
  verify_changes = true;
  verify_changes_sufficient = true;
  verify_debs = true;
  accept_lone_debs = false;
  pool_pattern = [];
  auto_trim = false;
  auto_trim_length = pos 0;
  prune_rules = codes "a";
  public_key_ids = [];
  signing_key_id = [];
}

abbrev root : Release
root = record {
  parent_id = [];
  index_id = [];
  code_name = codes "stable";
  suite = codes "stable";
  description = [];
  version = [];
  date = 1;
  components = [];
  in_release = [];
  release = [];
  release_gpg = [];
  actions = [];
  trim_after = pos 0;
  config_id = codes "a";
}

-- The time is the id of a release, the rules that of a configuration.
abbrev rest : Rest
rest = record {
  release_id = λ r. r.date ∷ [];
  config_id = λ c. c.prune_rules;
  update_release_files = λ c r. r;
  reify_release = λ s id. true;
}

abbrev two : Objects
two = record {
  releases = (1 ∷ [], root) ∷ [];
  configs = (codes "a", config) ∷ [];
  tags = (codes "heads/x", 1 ∷ []) ∷ (codes "heads/y", 1 ∷ []) ∷ [];
}

abbrev update : ConfigUpdate
update = record {
  prune_rules = some (codes "b");
  verify_changes = some true;
  accept_lone_debs = some true;
  pool_pattern = none;
  verify_debs = none;
  auto_trim_length = none;
  auto_trim = none;
  verify_changes_sufficient = none;
}

two_changes :
    update_actions config update
    ≡ record { type = config_change; description = codes "PruneRules changed from a to b" }
      ∷ record {
        type = config_change;
        description = codes "AcceptLoneDebs changed from false to true";
      }
      ∷ []
unfolding update_actions
two_changes = refl

no_such_dist : config_put rest true (codes "z") (some update) 2 two ≡ (not_found, two)
unfolding config_put get_dist has_slash get
no_such_dist = refl

nobody : config_put rest false (codes "x") (some update) 2 two ≡ (unauthorised, two)
unfolding config_put
nobody = refl

found_x : get_dist two (codes "x") ≡ found (1 ∷ [], root)
unfolding get_dist has_slash get
found_x = refl

update_config_lem_example :
    (update_config config update ≡ applied config update)
    × ((length (update_actions config update) ≤ 8)
        × ((update_actions config update ≡ []) ↔ (applied config update ≡ config)))
update_config_lem_example = update_config_lem config update

first_or :
    {A : Type 0} {a : A} (b c : Bool) (x : A)
    → (if b then some a else if c then some a else none) ≡ some x
    → x ≡ a
first_or {a = a} true c x g = sym (some_inj a x g)
first_or {a = a} false true x g = sym (some_inj a x g)
first_or false false x g = cc g

sole : {A : Type 0} {a : A} (b : Bool) (x : A) → (if b then some a else none) ≡ some x → x ≡ a
sole {a = a} true x g = sym (some_inj a x g)
sole false x g = cc g

two-IsClosed : IsClosed rest two
unfolding get
two-IsClosed = record {
  tags_there = λ tag id g. (root, ap (λ k. get two.releases k) (only_id tag id g));
  configs_there = λ id r g. (config, ap (λ s. get two.configs s.config_id) (only_root id r g));
}
  where
    only_id : (tag id : Bytes) → get two.tags tag ≡ some id → id ≡ 1 ∷ []
    only_id tag id g =
        first_or (bytes_beq (codes "heads/x") tag) (bytes_beq (codes "heads/y") tag) id g

    only_root : (id : Bytes) (r : Release) → get two.releases id ≡ some r → r ≡ root
    only_root id r g = sole (bytes_beq (1 ∷ []) id) r g

can_add :
    CanAdd rest two
      (applied (config_of rest two root) update)
      (next_release rest two update 2 (1 ∷ []) root)
unfolding get config_of applied new_child
can_add = record { release_alone = λ w g. cc g; config_alone = λ w g. cc g; config_kept = refl }

config_put-IsServed_example :
    IsServed rest
      (codes "x")
      (config_of rest two root)
      (applied (config_of rest two root) update)
      two
      (config_put rest true (codes "x") (some update) 2 two)
config_put-IsServed_example =
    config_put-IsServed rest two (codes "x") update 2 (1 ∷ []) root two-IsClosed can_add found_x
      (bytes-ne (codes "x") [] refl)
