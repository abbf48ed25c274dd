-- ===== src/Archive/Config.antt =====
-- config_handlers.go: the requests that read and change the configuration of a distribution.
pub mod Changed
pub mod Lookup
pub mod Served
mod Tests
use godinstall.Prelude.{
  ℕ, Bool, true, false, not, List, [], ◌∷◌, ◌++◌, Option, none, some, Bytes, Eq, bytes_Eq, bool_Eq,
  int_Eq, codes, ℤ, pos, if◌then◌else◌,
}
use godinstall.Strconv.{format_int}
use godinstall.SafeMap.{get}
use godinstall.Release.Index.{StoreId}
use godinstall.Release.Merge.{Action, config_change}
use godinstall.Release.Record.{Release, ReleaseConfig}
use godinstall.Release.Child.{new_child}
use godinstall.Archive.{
  Objects, Found, found, missing, refused, get_dist, set_dist, add_release, add_release_config,
  config_or,
}

-- `configUpdate`: the fields that the body of a request has.
pub record ConfigUpdate : Type 0 where
  pub prune_rules : Option Bytes
  pub verify_changes : Option Bool
  pub accept_lone_debs : Option Bool
  pub pool_pattern : Option Bytes
  pub verify_debs : Option Bool
  pub auto_trim_length : Option ℤ
  pub auto_trim : Option Bool
  pub verify_changes_sufficient : Option Bool

-- `%v` of a truth value.
abbrev pub show_bool : Bool → Bytes
show_bool true = codes "true"
show_bool false = codes "false"

abbrev pub change_text : Bytes → Bytes → Bytes → Bytes
change_text field old new = field ++ (codes " changed from " ++ (old ++ (codes " to " ++ new)))

-- One `if` of the handler: a field that is there and differs is logged and set.
abbrev pub differing :
    {A : Type 0} ⦃value : Eq A⦄ → (A → Bytes) → Bytes → A → Option A → List Action
differing show field old none = []
differing ⦃value⦄ show field old (some new) =
    if value.beq new old
    then []
    else record { type = config_change; description = change_text field (show old) (show new) } ∷ []

abbrev pub set_field : {A : Type 0} ⦃value : Eq A⦄ → A → Option A → A
set_field old none = old
set_field ⦃value⦄ old (some new) = if value.beq new old then old else new

abbrev pub text : Bytes → Bytes
text s = s

unfoldable pub update_actions : ReleaseConfig → ConfigUpdate → List Action
update_actions cfg d =
    differing text (codes "PruneRules") cfg.prune_rules d.prune_rules
    ++ (differing show_bool (codes "VerifyChanges") cfg.verify_changes d.verify_changes
        ++ (differing show_bool (codes "AcceptLoneDebs") cfg.accept_lone_debs d.accept_lone_debs
            ++ (differing text (codes "PoolPattern") cfg.pool_pattern d.pool_pattern
                ++ (differing show_bool (codes "VerifyDebs") cfg.verify_debs d.verify_debs
                    ++ (differing format_int (codes "AutoTrimLength") cfg.auto_trim_length
                          d.auto_trim_length
                        ++ (differing show_bool (codes "AutoTrim") cfg.auto_trim d.auto_trim
                            ++ differing show_bool (codes "VerifyChangesSufficient")
                                cfg.verify_changes_sufficient d.verify_changes_sufficient))))))

unfoldable pub update_config : ReleaseConfig → ConfigUpdate → ReleaseConfig
update_config cfg d = record cfg {
  prune_rules = set_field cfg.prune_rules d.prune_rules;
  verify_changes = set_field cfg.verify_changes d.verify_changes;
  accept_lone_debs = set_field cfg.accept_lone_debs d.accept_lone_debs;
  pool_pattern = set_field cfg.pool_pattern d.pool_pattern;
  verify_debs = set_field cfg.verify_debs d.verify_debs;
  auto_trim_length = set_field cfg.auto_trim_length d.auto_trim_length;
  auto_trim = set_field cfg.auto_trim d.auto_trim;
  verify_changes_sufficient = set_field cfg.verify_changes_sufficient d.verify_changes_sufficient;
}

-- How a request is answered.
pub data Response : Type 0 where
  unauthorised not_found bad_request app_error : Response
  config_reply : ReleaseConfig → Response

-- `ReleaseConfig{}`.
abbrev pub empty_config : ReleaseConfig
empty_config = record {
  verify_changes = false;
  verify_changes_sufficient = false;
  verify_debs = false;
  accept_lone_debs = false;
  pool_pattern = [];
  auto_trim = false;
  auto_trim_length = pos 0;
  prune_rules = [];
  public_key_ids = [];
  signing_key_id = [];
}

-- What the handlers use of the rest: the ids of records, the files that updateReleasefiles makes of a release
-- under its configuration, and ReifyRelease, which says whether it went well.
pub record Rest : Type 0 where
  pub release_id : Release → StoreId
  pub config_id : ReleaseConfig → StoreId
  pub update_release_files : ReleaseConfig → Release → Release
  pub reify_release : Objects → StoreId → Bool

module _ (rest : Rest) where
  -- `rel.Config()`.
  unfoldable pub config_of : Objects → Release → ReleaseConfig
  unfolding get
  config_of s r = config_or empty_config (get s.configs r.config_id)

  abbrev pub reply_config : Objects → Found (StoreId × Release) → Response
  reply_config s (found r) = config_reply (config_of s r.1)
  reply_config s missing = not_found
  reply_config s refused = app_error

  -- `doHTTPConfigGetHandler`.
  unfoldable pub config_get : Bytes → Objects → Response
  unfolding config_of get_dist
  config_get name s = reply_config s (get_dist s name)

  -- The release that follows `rel` with the new configuration, given the time.
  abbrev pub configured : ReleaseConfig → List Action → StoreId → ℕ → StoreId × Release → Release
  configured cfg acts newcfgid now (id, rel) =
      rest.update_release_files cfg
        (record (new_child id now rel) { actions = acts; config_id = newcfgid })

  abbrev pub after_set : Bytes → StoreId → Objects → Option Objects → Response × Objects
  after_set name id s none = (app_error, s)
  after_set name id s (some s') =
      if rest.reify_release s' id then (config_get name s', s') else (app_error, s')

  abbrev pub store_config :
      Bytes → ReleaseConfig → List Action → ℕ → StoreId × Release → Objects → Response × Objects
  store_config name cfg acts now rel s =
      let (newcfgid, s1) = add_release_config rest.release_id rest.config_id cfg s in
      let (newrelid, s2) =
        add_release rest.release_id rest.config_id (configured cfg acts newcfgid now rel) s1 in
      after_set name newrelid s2 (set_dist name newrelid s2)

  abbrev pub unless_same :
      Bytes → ReleaseConfig → List Action → ℕ → StoreId × Release → Objects → Response × Objects
  unless_same name cfg [] now rel s = (config_get name s, s)
  unless_same name cfg (a ∷ acts) now rel s = store_config name cfg (a ∷ acts) now rel s

  -- The body is `none` where it cannot be decoded.
  abbrev pub put_found :
      Bytes → Option ConfigUpdate → ℕ → StoreId × Release → Objects → Response × Objects
  put_found name none now rel s = (bad_request, s)
  put_found name (some d) now rel s =
      unless_same name (update_config (config_of s rel.1) d) (update_actions (config_of s rel.1) d)
        now rel s

  abbrev pub put_dist :
      Bytes → Option ConfigUpdate → ℕ → Found (StoreId × Release) → Objects → Response × Objects
  put_dist name body now (found rel) s = put_found name body now rel s
  put_dist name body now missing s = (not_found, s)
  put_dist name body now refused s = (app_error, s)

  -- `doHTTPConfigPutHandler`.
  unfoldable pub config_put : Bool → Bytes → Option ConfigUpdate → ℕ → Objects → Response × Objects
  unfolding get_dist config_get update_config update_actions config_of new_child add_release
      add_release_config set_dist
  config_put authorised name body now s =
      if not authorised then (unauthorised, s) else put_dist name body now (get_dist s name) s
