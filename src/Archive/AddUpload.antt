-- ===== src/Archive/AddUpload.antt =====
-- archive.go, AddUpload, and release.go, NewRelease: an upload becomes a new release of its distribution.
pub mod Committed
mod Tests
use godinstall.Prelude.{
  ℕ, suc, Bool, true, false, not, List, [], ◌∷◌, ◌++◌, Option, none, some, Bytes, bytes_Eq, codes,
  pos, length, if◌then◌else◌,
}
use godinstall.SafeMap.{get, put}
use godinstall.DebVersion.{DebVersion}
use godinstall.Release.Index.{StoreId, Entry}
use godinstall.Release.Merge.{Action, Merged, merge, real_change}
use godinstall.Release.Record.{Release, ReleaseConfig}
use godinstall.Release.Entry.{
  UploadFile, has_suffix, Built, built, failed, fault, new_release_index_entry,
}
use godinstall.Release.Child.{new_child}
use godinstall.Trim.{length_trimmer, trim_history}
use godinstall.Archive.{Objects, head_tag, dists, set_dist, add_release, add_release_config}
use godinstall.Archive.Config.{Rest, config_of}

-- What NewReleaseIndexEntry reads of a session, with the name of its release.
pub record Upload : Type 0 where
  pub release_name : Bytes
  pub source : Bytes
  pub source_version : DebVersion
  pub binary_version : DebVersion
  pub changes_id : StoreId
  pub expecting : List UploadFile

-- The store with the indexes of releases, each a list of entries.
pub record Stored : Type 0 where
  pub objects : Objects
  pub indexes : List (StoreId × List Entry)

-- `nil` without and with a new release, an error, and a panic.
pub data Uploaded : Type 0 where
  unchanged : Uploaded
  committed : StoreId → Uploaded
  upload_error upload_fault : Uploaded

-- The pruner of a configuration, as its first variables and its step.
pub record Indexer (P : Type 0) : Type 0 where
  pub rest : Rest
  pub index_id : List Entry → StoreId
  pub empty_file_id : StoreId
  pub default_config : ReleaseConfig
  pub start : ReleaseConfig → P
  pub pruner : ReleaseConfig → P → Entry → Option (Bool × P)

module _ {P : Type 0} (w : Indexer P) where
  abbrev pub add_index : List Entry → Stored → StoreId × Stored
  add_index entries s =
      (w.index_id entries, record s { indexes = put s.indexes (w.index_id entries) entries })

  -- The release that a history begins with.
  abbrev pub root_of : Bytes → ℕ → Release
  root_of branch now = record {
    parent_id = w.empty_file_id;
    index_id = w.index_id [];
    code_name = branch;
    suite = codes "stable";
    description = [];
    version = [];
    date = now;
    components = [];
    in_release = [];
    release = [];
    release_gpg = [];
    actions = [];
    trim_after = pos 0;
    config_id = w.rest.config_id w.default_config;
  }

  -- The tag of the root, as far as SetRef takes its name: none that ends in a slash.
  abbrev pub root_tagged : Bytes → StoreId → Objects → Objects
  root_tagged branch id o =
      if has_suffix (head_tag branch) (codes "/")
      then o
      else record o { tags = put o.tags (head_tag branch) id }

  -- `GetReleaseRoot`, which also sets the tag; the error of that is not looked at.
  unfoldable pub get_release_root : Bytes → ℕ → Stored → StoreId × Stored
  unfolding add_release add_release_config
  get_release_root branch now s =
      let (config, o1) =
        add_release_config w.rest.release_id w.rest.config_id w.default_config s.objects in
      let (index, s1) = add_index [] (record s { objects = o1 }) in
      let (id, o2) = add_release w.rest.release_id w.rest.config_id (root_of branch now) o1 in
      (id, record s1 { objects = root_tagged branch id o2 })

  abbrev pub head_or_root : Bytes → ℕ → Option StoreId → Stored → StoreId × Stored
  head_or_root branch now none s = get_release_root branch now s
  head_or_root branch now (some id) s = (id, s)

  -- The trim of a new release, where its configuration asks for one.
  abbrev pub trimmed : Stored → ReleaseConfig → Release → Option Release
  trimmed s cfg r =
      if cfg.auto_trim
      then trim_history length_trimmer (λ id. get s.objects.releases id) w.empty_file_id
          (suc (length s.objects.releases)) r cfg.auto_trim_length
      else some r

  -- `NewRelease`, on the parent that is read.
  abbrev pub child_of : Stored → StoreId → Release → StoreId → List Action → ℕ → Option Release
  child_of s id parent index acts now =
      let cfg = config_of w.rest s.objects parent in
      trimmed s cfg (
        w.rest.update_release_files cfg
          (record (new_child id now parent) { index_id = index; actions = acts }))

  abbrev pub publish : StoreId → Stored → Option Objects → Uploaded × Stored
  publish id s none = (upload_error, s)
  publish id s (some o) =
      (if w.rest.reify_release o id then committed id else upload_error, record s { objects = o })

  abbrev pub commit : Bytes → Option Release → Stored → Uploaded × Stored
  commit branch none s = (upload_error, s)
  commit branch (some r) s =
      let (id, o) = add_release w.rest.release_id w.rest.config_id r s.objects in
      publish id (record s { objects = o }) (set_dist branch id o)

  -- After the merge; without a real change the new index stays in the store, and nothing refers to it.
  abbrev pub with_merged :
      Bytes → StoreId → Release → ℕ → Option Merged → Stored → Uploaded × Stored
  with_merged branch id parent now none s = (upload_fault, s)
  with_merged branch id parent now (some m) s =
      let (index, s') = add_index m.written s in
      if real_change m.actions
      then commit branch (child_of s' id parent index m.actions now) s'
      else (unchanged, s')

  abbrev pub with_index :
      Bytes → Entry → StoreId → Release → ℕ → Option (List Entry) → Stored → Uploaded × Stored
  with_index branch entry id parent now none s = (upload_error, s)
  with_index branch entry id parent now (some old) s =
      let cfg = config_of w.rest s.objects parent in
      with_merged branch id parent now (merge (w.pruner cfg) (w.start cfg) old (entry ∷ [])) s

  abbrev pub with_parent : Bytes → Entry → StoreId → ℕ → Option Release → Stored → Uploaded × Stored
  with_parent branch entry id now none s = (upload_error, s)
  with_parent branch entry id now (some parent) s =
      with_index branch entry id parent now (get s.indexes parent.index_id) s

  abbrev pub with_head : Bytes → Entry → ℕ → StoreId × Stored → Uploaded × Stored
  with_head branch entry now (id, s) = with_parent branch entry id now (get s.objects.releases id) s

  abbrev pub with_entry : Bytes → ℕ → Built Entry → Stored → Uploaded × Stored
  with_entry branch now failed s = (upload_error, s)
  with_entry branch now fault s = (upload_fault, s)
  with_entry branch now (built entry) s =
      with_head branch entry now (head_or_root branch now (get (dists s.objects) branch) s)

  -- `AddUpload`, given the time.
  unfoldable pub add_upload : Upload → ℕ → Stored → Uploaded × Stored
  unfolding new_release_index_entry get dists get_release_root merge real_change config_of new_child
      add_release set_dist trim_history
  add_upload u now s =
      with_entry u.release_name now
        (new_release_index_entry u.source u.source_version u.binary_version u.changes_id
          u.expecting)
        s
