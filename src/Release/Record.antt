-- ===== src/Release/Record.antt =====
-- release.go, releaseconfig.go: the record of a release and of its configuration, as they are stored.
use godinstall.Prelude.{ℕ, Bool, List, Bytes, ℤ}
use godinstall.Release.Index.{StoreId}
use godinstall.Release.Merge.{Action}

pub record Architecture : Type 0 where
  pub name : Bytes
  pub packages_gz : StoreId

pub record Component : Type 0 where
  pub name : Bytes
  pub architectures : List Architecture
  pub sources_gz : StoreId

-- `date` is the time in nanoseconds.
pub record Release : Type 0 where
  pub parent_id : StoreId
  pub index_id : StoreId
  pub code_name : Bytes
  pub suite : Bytes
  pub description : Bytes
  pub version : Bytes
  pub date : ℕ
  pub components : List Component
  pub in_release : StoreId
  pub release : StoreId
  pub release_gpg : StoreId
  pub actions : List Action
  pub trim_after : ℤ
  pub config_id : StoreId

pub record ReleaseConfig : Type 0 where
  pub verify_changes : Bool
  pub verify_changes_sufficient : Bool
  pub verify_debs : Bool
  pub accept_lone_debs : Bool
  pub pool_pattern : Bytes
  pub auto_trim : Bool
  pub auto_trim_length : ℤ
  pub prune_rules : Bytes
  pub public_key_ids : List StoreId
  pub signing_key_id : StoreId
