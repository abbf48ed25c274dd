-- ===== src/Gc/Marks.antt =====
-- archivestore.go: the walks of the garbage collector set marks for a list of ids, one by one.
use godinstall.Prelude.{
  ◌≡◌, refl, subst, ◌≢◌, ◌∙◌, sym, ap, true, List, [], ◌∷◌, ◌++◌, map, Option, some, bytes_beq,
  bytes_beq_iff, bytes_Eq, bool_Eq, Bool-cases, inl, inr, All, if◌then◌else◌,
}
use godinstall.SafeMap.{check, is_some}
use godinstall.SafeMap.Laws.{set_lem}
use godinstall.Release.Index.{StoreId, ItemFile, Item, Entry}
use godinstall.Release.Record.{Architecture, Component, Release}
use godinstall.Gc.{
  Used, mark, mark_ids, mark_files, walk_item, walk_items, walk_entries, mark_architectures,
  mark_components, Reads, walk_config, entries_or_fault, walk_index, walk_assets,
}

abbrev pub Marked : Used → StoreId → Type 0
Marked used id = check used id ≡ true

abbrev pub Grows : Used → Used → Type 0
Grows used used' = (id : StoreId) → Marked used id → Marked used' id

pub mark_lem : (used : Used) (id : StoreId) → Marked (mark used id) id
mark_lem used id = (set_lem used id true).1

pub mark_other : (used : Used) (id x : StoreId) → id ≢ x → check (mark used id) x ≡ check used x
unfolding check
mark_other used id x n = ap is_some ((set_lem used id true).2 x n)

pub mark-Grows : (used : Used) (id : StoreId) → Grows used (mark used id)
mark-Grows used id x h = elim (Bool-cases (bytes_beq id x)) [
  | inl e ↦ subst (λ y. Marked (mark used id) y) ((bytes_beq_iff id x).0 e) (mark_lem used id)
  | inr e ↦ mark_other used id x (λ d. cc (e, (bytes_beq_iff id x).1 d)) ∙ h
]

pub mark_ids-Grows : (used : Used) (ids : List StoreId) → Grows used (mark_ids used ids)
mark_ids-Grows used [] x h = h
mark_ids-Grows used (id ∷ ids) x h = mark_ids-Grows (mark used id) ids x (mark-Grows used id x h)

pub mark_ids-All : (used : Used) (ids : List StoreId) → All (Marked (mark_ids used ids)) ids
mark_ids-All used [] = tt
mark_ids-All used (id ∷ ids) =
    (mark_ids-Grows (mark used id) ids id (mark_lem used id), mark_ids-All (mark used id) ids)

pub mark_ids_other :
    (used : Used) (ids : List StoreId) (x : StoreId)
    → All (λ id. id ≢ x) ids
    → check (mark_ids used ids) x ≡ check used x
mark_ids_other used [] x h = refl
mark_ids_other used (id ∷ ids) x (n, h) =
    mark_ids_other (mark used id) ids x h ∙ mark_other used id x n

pub mark_ids-append :
    (used : Used) (a b : List StoreId) → mark_ids used (a ++ b) ≡ mark_ids (mark_ids used a) b
mark_ids-append used [] b = refl
mark_ids-append used (id ∷ a) b = mark_ids-append (mark used id) a b

-- What an item, an entry, a component and a configuration refer to.
abbrev pub file_ids : List ItemFile → List StoreId
file_ids fs = map (λ f. f.store_id) fs

abbrev pub item_ids : Item → List StoreId
item_ids item = item.control_id ∷ file_ids item.files

abbrev pub items_ids : List Item → List StoreId
items_ids [] = []
items_ids (item ∷ items) = item_ids item ++ items_ids items

abbrev pub entries_ids : List Entry → List StoreId
entries_ids [] = []
entries_ids (e ∷ es) =
    e.changes_id ∷ (item_ids e.source_item ++ (items_ids e.binary_items ++ entries_ids es))

abbrev pub component_ids : List Component → List StoreId
component_ids [] = []
component_ids (c ∷ more) =
    c.sources_gz ∷ (map (λ a. a.packages_gz) c.architectures ++ component_ids more)

abbrev pub config_ids : Reads → StoreId → List StoreId
config_ids store id =
    id ∷ (store.get_config id).signing_key_id ∷ (store.get_config id).public_key_ids

-- What a release refers to itself, its index aside.
abbrev pub own_ids : Reads → Release → List StoreId
own_ids store r =
    r.in_release
    ∷ r.release
    ∷ r.release_gpg
    ∷ (config_ids store r.config_id ++ component_ids r.components)

mark_files-ids :
    (used : Used) (fs : List ItemFile) → mark_files used fs ≡ mark_ids used (file_ids fs)
mark_files-ids used [] = refl
mark_files-ids used (f ∷ fs) = mark_files-ids (mark used f.store_id) fs

walk_item-ids : (used : Used) (item : Item) → walk_item used item ≡ mark_ids used (item_ids item)
unfolding walk_item
walk_item-ids used item = mark_files-ids (mark used item.control_id) item.files

walk_items-ids :
    (used : Used) (items : List Item) → walk_items used items ≡ mark_ids used (items_ids items)
unfolding walk_items
walk_items-ids used [] = refl
walk_items-ids used (item ∷ items) =
    walk_items-ids (walk_item used item) items
    ∙ ap (λ u. mark_ids u (items_ids items)) (walk_item-ids used item)
    ∙ sym (mark_ids-append used (item_ids item) (items_ids items))

pub walk_entries-ids :
    (used : Used) (es : List Entry) → walk_entries used es ≡ mark_ids used (entries_ids es)
unfolding walk_entries
walk_entries-ids used [] = refl
walk_entries-ids used (e ∷ es) =
    walk_entries-ids (walk_items (walk_item u e.source_item) e.binary_items) es
    ∙ ap (λ v. mark_ids v (entries_ids es))
        (walk_items-ids (walk_item u e.source_item) e.binary_items)
    ∙ ap (λ v. mark_ids (mark_ids v (items_ids e.binary_items)) (entries_ids es))
        (walk_item-ids u e.source_item)
    ∙ sym (
        mark_ids-append (mark_ids u (item_ids e.source_item)) (items_ids e.binary_items)
          (entries_ids es))
    ∙ sym (mark_ids-append u (item_ids e.source_item) (items_ids e.binary_items ++ entries_ids es))
  where
    u : Used
    u = mark used e.changes_id

mark_architectures-ids :
    (used : Used) (archs : List Architecture)
    → mark_architectures used archs ≡ mark_ids used (map (λ a. a.packages_gz) archs)
mark_architectures-ids used [] = refl
mark_architectures-ids used (a ∷ archs) = mark_architectures-ids (mark used a.packages_gz) archs

mark_components-ids :
    (used : Used) (cs : List Component) → mark_components used cs ≡ mark_ids used (component_ids cs)
unfolding mark_components
mark_components-ids used [] = refl
mark_components-ids used (c ∷ cs) =
    mark_components-ids (mark_architectures u c.architectures) cs
    ∙ ap (λ v. mark_ids v (component_ids cs)) (mark_architectures-ids u c.architectures)
    ∙ sym (mark_ids-append u (map (λ a. a.packages_gz) c.architectures) (component_ids cs))
  where
    u : Used
    u = mark used c.sources_gz

-- The marks for what a release refers to itself come before the test of its index.
abbrev pub index_or_skip : Reads → Used → StoreId → Option Used
index_or_skip store used id =
    if check used id then some used else entries_or_fault (mark used id) (store.get_index id)

pub walk_assets-ids :
    (store : Reads) (used : Used) (r : Release)
    → walk_assets store used r ≡ index_or_skip store (mark_ids used (own_ids store r)) r.index_id
unfolding walk_assets walk_index walk_config
walk_assets-ids store used r =
    ap (λ v. index_or_skip store v r.index_id)
      (mark_components-ids (mark_ids (mark_ids used files) (config_ids store r.config_id))
          r.components
        ∙ sym (
            mark_ids-append (mark_ids used files) (config_ids store r.config_id)
              (component_ids r.components)))
  where
    files : List StoreId
    files = r.in_release ∷ r.release ∷ r.release_gpg ∷ []
