-- ===== src/Gc/Tests.antt =====
-- A collection of garbage over a small store, and the theorems about it there.
use godinstall.Prelude.{
  ℕ, ◌≡◌, ◌≢◌, refl, sym, ◌∙◌, ap, inl, inr, subst, Bool, true, false, List, [], ◌∷◌, Option, none,
  some, All, arith, codes, bytes_beq, bytes_beq_iff, bytes_Eq, bytes-ne, Bool-cases, some_inj, pos,
  if◌then◌else◌,
}
use mathlib.Core.List.{Memᴰ}
use godinstall.SafeMap.{get, put, set, check}
use godinstall.Release.Index.{StoreId, ItemFile, Entry}
use godinstall.Release.Record.{Release, ReleaseConfig}
use godinstall.Gc.{
  out_of_fuel, Reads, walk_item, walk_items, walk_entries, mark_components, walk_config, walk_index,
  walk_assets, walk_release, walk_refs, run_gc,
}
use godinstall.Gc.Marks.{entries_ids, own_ids}
use godinstall.Gc.Closed.{NoIndex, Apart}
use godinstall.Gc.Sweep.{Kept, gc_keeps}
use godinstall.Gc.Ends.{run_gc_ends}

abbrev blob : ℕ → StoreId
blob n = n ∷ []

abbrev file : ItemFile
file = record {
  name = codes "p.dsc";
  store_id = blob 21;
  size = pos 1;
  md5 = [];
  sha1 = [];
  sha256 = [];
  signed_by = [];
}

abbrev entry : Entry
entry = record {
  source_item = record {
    name = codes "p";
    version = record { epoch = pos 0; version = codes "1"; revision = [] };
    architecture = codes "source";
    component = codes "main";
    control_id = blob 20;
    files = file ∷ [];
  };
  binary_items = [];
  changes_id = blob 19;
}

abbrev config : ReleaseConfig
config = record {
  verify_changes = true;
  verify_changes_sufficient = true;
  verify_debs = true;
  accept_lone_debs = false;
  pool_pattern = [];
  auto_trim = false;
  auto_trim_length = pos 0;
  prune_rules = [];
  public_key_ids = blob 18 ∷ [];
  signing_key_id = blob 17;
}

-- A release without a parent.
abbrev first : Release
first = record {
  parent_id = blob 0;
  index_id = blob 10;
  code_name = codes "stable";
  suite = codes "stable";
  description = [];
  version = codes "1";
  date = 0;
  components =
      record {
        name = codes "main";
        architectures = record { name = codes "amd64"; packages_gz = blob 16 } ∷ [];
        sources_gz = blob 15;
      }
      ∷ [];
  in_release = blob 11;
  release = blob 12;
  release_gpg = blob 13;
  actions = [];
  trim_after = pos 0;
  config_id = blob 14;
}

abbrev only : StoreId → Option Release
only id = if bytes_beq id (blob 1) then some first else none

abbrev store : Reads
store = record {
  get_release = only;
  get_config = λ id. config;
  get_index = λ id. some (entry ∷ []);
  empty_file_id = blob 0;
}

abbrev blobs : List StoreId
blobs = blob 1 ∷ blob 99 ∷ blob 21 ∷ blob 10 ∷ []

unused_goes : (run_gc store 9 (blob 1 ∷ []) blobs).1 ≡ blob 1 ∷ blob 21 ∷ blob 10 ∷ []
unfolding run_gc walk_refs walk_release walk_assets walk_config mark_components walk_index
    walk_entries walk_items walk_item set check get put
unused_goes = refl

opens_first : (id : StoreId) (r : Release) → only id ≡ some r → (id ≡ blob 1) × (first ≡ r)
opens_first id r h = go (bytes_beq id (blob 1)) refl h
  where
    go :
        (b : Bool)
        → bytes_beq id (blob 1) ≡ b
        → (if b then some first else none) ≡ some r
        → (id ≡ blob 1) × (first ≡ r)
    go true e h' = ((bytes_beq_iff id (blob 1)).0 e, some_inj first r h')
    go false e h' = cc h'

no_index : (id : StoreId) → bytes_beq id (blob 10) ≡ false → NoIndex store id
no_index id h k (x, (r, (g, i))) e =
    bytes-ne id (blob 10) h (e ∙ sym i ∙ ap (λ q. q.index_id) (sym (opens_first x r g).1))

abbrev avoids : List StoreId → Bool
avoids [] = true
avoids (id ∷ ids) = if bytes_beq id (blob 10) then false else avoids ids

no_indices : (ids : List StoreId) → avoids ids ≡ true → All (NoIndex store) ids
no_indices [] h = tt
no_indices (id ∷ ids) h = elim (Bool-cases (bytes_beq id (blob 10))) [
  | inl e ↦ cc (sym h ∙ ap (λ b. if b then false else avoids ids) e)
  | inr e ↦ (no_index id e, no_indices ids (sym (ap (λ b. if b then false else avoids ids) e) ∙ h))
]

store_apart : Apart store
store_apart = record {
  releases = λ id r g. (
    subst (λ x. NoIndex store x) (sym (opens_first id r g).0) (no_index (blob 1) refl),
    subst (λ q. All (NoIndex store) (own_ids store q)) (opens_first id r g).1
        (no_indices (own_ids store first) refl),
  );
  entries = λ k es i g.
      subst (λ l. All (NoIndex store) (entries_ids l)) (some_inj (entry ∷ []) es g)
        (no_indices (entries_ids (entry ∷ [])) refl);
}

gc_keeps_example : Kept store blobs (run_gc store 9 (blob 1 ∷ []) blobs).1 (blob 1) first
gc_keeps_example =
    gc_keeps store 9 (blob 1 ∷ []) blobs (blob 1) first store_apart (Memᴰ.head refl) refl

store_lists : (id : StoreId) (r : Release) → only id ≡ some r → Memᴰ id blobs
store_lists id r h = Memᴰ.head (opens_first id r h).0

run_gc_ends_example : (run_gc store 9 (blob 1 ∷ []) blobs).0 ≢ out_of_fuel
run_gc_ends_example = run_gc_ends store blobs store_lists 9 (blob 1 ∷ []) (omega arith)
