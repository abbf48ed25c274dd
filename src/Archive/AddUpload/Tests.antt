-- ===== src/Archive/AddUpload/Tests.antt =====
-- An upload of a source without files.
use godinstall.Prelude.{
  ◌≡◌, refl, true, false, [], ◌∷◌, some, bytes_Eq, bytes-ne, codes, pos, length,
}
use godinstall.SafeMap.{get}
use godinstall.DebVersion.{DebVersion, to_string}
use godinstall.Release.Index.{Entry}
use godinstall.Release.Merge.{Merged, add, merge, real_change}
use godinstall.Release.Record.{Release, ReleaseConfig}
use godinstall.Release.Entry.{built, new_release_index_entry}
use godinstall.Archive.{dists, dists_of, trim_prefix, has_slash}
use godinstall.Archive.Config.{config_of}
use godinstall.Archive.AddUpload.{
  Upload, Stored, unchanged, Indexer, add_index, child_of, add_upload,
}
use godinstall.Archive.AddUpload.Committed.{KeepsPlace, Leaves, add_upload_lem}

abbrev config : ReleaseConfig
config = record {
  verify_changes = true;
  verify_changes_sufficient = true;
  verify_debs = true;
  accept_lone_debs = false;
  pool_pattern = [];
  auto_trim = false;
  auto_trim_length = pos 0;
  prune_rules = codes "a";
  public_key_ids = [];
  signing_key_id = [];
}

abbrev root : Release
root = record {
  parent_id = [];
  index_id = 0 ∷ [];
  code_name = codes "x";
  suite = codes "x";
  description = [];
  version = [];
  date = 1;
  components = [];
  in_release = [];
  release = [];
  release_gpg = [];
  actions = [];
  trim_after = pos 0;
  config_id = codes "a";
}

abbrev indexer : Indexer (Unit {0})
indexer = record {
  rest = record {
    release_id = λ r. r.date ∷ [];
    config_id = λ c. c.prune_rules;
    update_release_files = λ c r. r;
    reify_release = λ s id. true;
  };
  index_id = λ es. length es ∷ [];
  empty_file_id = [];
  default_config = config;
  start = λ c. tt;
  pruner = λ c p e. some (false, p);
}

abbrev store : Stored
store = record {
  objects = record {
    releases = (1 ∷ [], root) ∷ [];
    configs = (codes "a", config) ∷ [];
    tags = (codes "heads/x", 1 ∷ []) ∷ [];
  };
  indexes = (0 ∷ [], []) ∷ [];
}

abbrev one : DebVersion
one = record { epoch = pos 0; version = codes "1"; revision = [] }

abbrev upload : Upload
upload = record {
  release_name = codes "x";
  source = codes "p";
  source_version = one;
  binary_version = one;
  changes_id = [];
  expecting = [];
}

abbrev entry : Entry
entry = record {
  source_item = record {
    name = codes "p";
    version = one;
    architecture = codes "source";
    component = codes "main";
    control_id = [];
    files = [];
  };
  binary_items = [];
  changes_id = [];
}

abbrev merged : Merged
merged = record {
  written = entry ∷ [];
  actions = record { type = add; description = codes "p 1" } ∷ [];
}

made : new_release_index_entry (codes "p") one one [] [] ≡ built entry
unfolding new_release_index_entry
made = refl

x_listed : get (dists store.objects) (codes "x") ≡ some (1 ∷ [])
unfolding dists dists_of trim_prefix has_slash get
x_listed = refl

joined :
    merge
      (indexer.pruner (config_of indexer.rest store.objects root))
      (indexer.start (config_of indexer.rest store.objects root))
      []
      (entry ∷ [])
    ≡ some merged
unfolding merge to_string
joined = refl

root_there : get store.objects.releases (1 ∷ []) ≡ some root
unfolding get
root_there = refl

index_there : get store.indexes root.index_id ≡ some []
unfolding get
index_there = refl

places_kept : KeepsPlace indexer
places_kept = record { place = λ c r. (refl, (refl, refl)) }

add_upload_lem_example :
    (real_change merged.actions ≡ false
      → ((add_upload indexer upload 2 store).0 ≡ unchanged)
        × ((add_upload indexer upload 2 store).1.objects ≡ store.objects))
    × (real_change merged.actions ≡ true
        → Leaves indexer
            (codes "x")
            (1 ∷ [])
            merged
            store
            (child_of indexer
              (add_index indexer merged.written store).1
              (1 ∷ [])
              root
              (indexer.index_id merged.written)
              merged.actions
              2)
            (add_upload indexer upload 2 store))
add_upload_lem_example =
    add_upload_lem indexer upload 2 store entry (1 ∷ []) root [] merged places_kept made
      (bytes-ne (codes "x") [] refl) x_listed root_there index_there joined
