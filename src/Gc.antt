-- ===== src/Gc.antt =====
-- archivestore.go: the garbage collector of the store. A blob is named by the hexadecimal text of its
-- id, which determines the id, so the ids themselves are the keys of the map of marks.
pub mod Marks
pub mod Closed
pub mod Keeps
pub mod Sweep
pub mod Ends
pub mod Collector
mod Tests
use godinstall.Prelude.{
  ℕ, zero, suc, ◌-◌, Bool, true, false, not, ◌&&◌, ◌||◌, List, [], ◌∷◌, Option, none, some, Bytes,
  bytes_beq, bytes_Eq, bool_Eq, ℤ, pos, pos_part, ltb_ℤ, ltb, if◌then◌else◌,
}
use godinstall.SafeMap.{set, check}
use godinstall.Release.Index.{StoreId, ItemFile, Item, Entry}
use godinstall.Release.Record.{Architecture, Component, Release, ReleaseConfig}

abbrev pub Used : Type 0
Used = List (StoreId × Bool)

-- `used.Set(id.String(), true)`.
abbrev pub mark : Used → StoreId → Used
mark used id = (set used id true).1

abbrev pub mark_ids : Used → List StoreId → Used
mark_ids used [] = used
mark_ids used (id ∷ ids) = mark_ids (mark used id) ids

abbrev pub mark_files : Used → List ItemFile → Used
mark_files used [] = used
mark_files used (f ∷ fs) = mark_files (mark used f.store_id) fs

-- `gcWalkReleaseIndexEntryItem`.
pub walk_item : Used → Item → Used
walk_item used item = mark_files (mark used item.control_id) item.files

pub walk_items : Used → List Item → Used
unfolding walk_item
walk_items used [] = used
walk_items used (item ∷ items) = walk_items (walk_item used item) items

pub walk_entries : Used → List Entry → Used
unfolding walk_items
walk_entries used [] = used
walk_entries used (e ∷ es) =
    walk_entries (walk_items (walk_item (mark used e.changes_id) e.source_item) e.binary_items) es

abbrev pub mark_architectures : Used → List Architecture → Used
mark_architectures used [] = used
mark_architectures used (a ∷ more) = mark_architectures (mark used a.packages_gz) more

pub mark_components : Used → List Component → Used
mark_components used [] = used
mark_components used (c ∷ more) =
    mark_components (mark_architectures (mark used c.sources_gz) c.architectures) more

-- How a walk ends: with the marks, by a fault at a nil release or reader, or for want of fuel.
pub data Walk : Type 0 where
  marked : Used → Walk
  fault out_of_fuel : Walk

-- What the store holds. A release or an index that cannot be opened is `none`, a configuration that
-- cannot be read is the zero value; the entries of an index are those before its first error.
pub record Reads : Type 0 where
  pub get_release : StoreId → Option Release
  pub get_config : StoreId → ReleaseConfig
  pub get_index : StoreId → Option (List Entry)
  pub empty_file_id : StoreId

-- The variables of the loop of `gcWalkRelease` that say when a trimmed history ends.
pub record Trim : Type 0 where
  pub trimmer_active : Bool
  pub trim_after : ℕ
  pub drop_assets : Bool

abbrev pub count_down : Trim → Trim
count_down t =
    if t.trimmer_active
    then if ltb 0 t.trim_after
      then record t { trim_after = t.trim_after - 1 }
      else record t { drop_assets = true }
    else t

abbrev pub start_trim : Trim → ℤ → Trim
start_trim t after =
    if ltb_ℤ (pos 0) after && not t.trimmer_active
    then record t { trim_after = pos_part after; trimmer_active = true }
    else t

abbrev pub no_trim : Trim
no_trim = record { trimmer_active = false; trim_after = 0; drop_assets = false }

-- `runGC`: the removal of every blob that has no mark. A walk that faults removes nothing.
abbrev pub sweep : Used → List StoreId → List StoreId
sweep used [] = []
sweep used (id ∷ ids) = if check used id then id ∷ sweep used ids else sweep used ids

abbrev pub sweep_after : Walk → List StoreId → List StoreId
sweep_after (marked used) blobs = sweep used blobs
sweep_after fault blobs = blobs
sweep_after out_of_fuel blobs = blobs

abbrev pub entries_or_fault : Used → Option (List Entry) → Option Used
entries_or_fault used none = none
entries_or_fault used (some es) = some (walk_entries used es)

module _ (store : Reads) where
  -- `gcWalkReleaseConfig`.
  pub walk_config : Used → StoreId → Used
  walk_config used id =
      let config = store.get_config id in
      mark_ids (mark (mark used id) config.signing_key_id) config.public_key_ids

  -- `gcWalkReleaseIndex`.
  pub walk_index : Used → StoreId → Option Used
  unfolding walk_entries
  walk_index used id = entries_or_fault (mark used id) (store.get_index id)

  -- The files, the configuration, the components and the index of a release.
  pub walk_assets : Used → Release → Option Used
  unfolding walk_config mark_components walk_index
  walk_assets used r =
      let files = mark (mark (mark used r.in_release) r.release) r.release_gpg in
      let used' = mark_components (walk_config files r.config_id) r.components in
      if check used' r.index_id then some used' else walk_index used' r.index_id

  abbrev pub assets_unless : Bool → Used → Release → Option Used
  assets_unless dropped used r = if dropped then some used else walk_assets used r

  abbrev pub is_end : Used → StoreId → Bool
  is_end used parent = bytes_beq parent store.empty_file_id || check used parent

  -- A round of the loop of `gcWalkRelease`: the marks, and then the parent, which `rest` walks.
  abbrev pub to_parent : (Used → StoreId → Trim → Walk) → Trim → Release → Used → Bool → Walk
  to_parent rest t r used true = marked used
  to_parent rest t r used false = rest used r.parent_id (start_trim t r.trim_after)

  abbrev pub after_assets : (Used → StoreId → Trim → Walk) → Trim → Release → Option Used → Walk
  after_assets rest t r none = fault
  after_assets rest t r (some used) = to_parent rest t r used (is_end used r.parent_id)

  abbrev pub round : (Used → StoreId → Trim → Walk) → Trim → Used → Option Release → Walk
  round rest t used none = fault
  round rest t used (some r) = after_assets rest t r (assets_unless t.drop_assets used r)

  -- `gcWalkRelease`, with fuel for the rounds of its loop.
  pub walk_release : ℕ → Used → StoreId → Trim → Walk
  unfolding walk_assets
  walk_release zero used curr t = out_of_fuel
  walk_release (suc fuel) used curr t =
      round (λ u id t'. walk_release fuel u id t') (count_down t) (mark used curr)
        (store.get_release curr)

  -- `runGC`: the walks over the releases that the refs name, one after the other, then the removal.
  abbrev pub after_ref : (Used → Walk) → Walk → Walk
  after_ref rest (marked used) = rest used
  after_ref rest fault = fault
  after_ref rest out_of_fuel = out_of_fuel

  pub walk_refs : ℕ → Used → List StoreId → Walk
  unfolding walk_release
  walk_refs fuel used [] = marked used
  walk_refs fuel used (id ∷ ids) =
      after_ref (λ u. walk_refs fuel u ids) (walk_release fuel used id no_trim)

  pub run_gc : ℕ → List StoreId → List StoreId → Walk × List StoreId
  unfolding walk_refs
  run_gc fuel refs blobs = (let w = walk_refs fuel [] refs in (w, sweep_after w blobs))
