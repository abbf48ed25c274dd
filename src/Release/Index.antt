-- ===== src/Release/Index.antt =====
-- releaseindex.go: the entries of a release index and the order they stand in.
pub mod Order
use godinstall.Prelude.{
  ℕ, Bool, true, false, List, Option, Bytes, ℤ, pos, eqb_ℤ, ltb_ℤ, if◌then◌else◌,
}
use godinstall.Strings.{bytes_compare}
use godinstall.DebVersion
use godinstall.DebVersion.{DebVersion}

-- `StoreID` (store.go): the bytes of a hash.
abbrev pub StoreId : Type 0
StoreId = Bytes

pub record ItemFile : Type 0 where
  pub name : Bytes
  pub store_id : StoreId
  pub size : ℤ
  pub md5 : Bytes
  pub sha1 : Bytes
  pub sha256 : Bytes
  pub signed_by : List Bytes

pub record Item : Type 0 where
  pub name : Bytes
  pub version : DebVersion
  pub architecture : Bytes
  pub component : Bytes
  pub control_id : StoreId
  pub files : List ItemFile

pub record Entry : Type 0 where
  pub source_item : Item
  pub binary_items : List Item
  pub changes_id : StoreId

-- `ReleaseIndexEntryOrder`: by name, and the newest version first.
unfoldable pub entry_order : Entry → Entry → ℤ
entry_order a b =
    let name_cmp = bytes_compare a.source_item.name b.source_item.name in
    if eqb_ℤ name_cmp (pos 0)
    then DebVersion.compare b.source_item.version a.source_item.version
    else name_cmp

-- `ByReleaseIndexEntryOrder.Less`.
unfoldable pub entry_less : Entry → Entry → Bool
unfolding entry_order
entry_less a b = ltb_ℤ (entry_order a b) (pos 0)

-- `ReleaseIndexEntryItemOrder`: by name, then architecture, and the newest version first.
unfoldable pub item_order : Item → Item → ℤ
item_order a b =
    let name_cmp = bytes_compare a.name b.name in
    let arch_cmp = bytes_compare a.architecture b.architecture in
    if eqb_ℤ name_cmp (pos 0)
    then if eqb_ℤ arch_cmp (pos 0) then DebVersion.compare b.version a.version else arch_cmp
    else name_cmp

-- `ByReleaseIndexEntryItemOrder.Less`.
unfoldable pub item_less : Item → Item → Bool
unfolding item_order
item_less a b = ltb_ℤ (item_order a b) (pos 0)
